-- ===== src/Pldmd/Pdr/Manager/States.antt =====
-- pldmd/src/pdr_manager.cpp: the possible states of a state sensor or effecter.
use pmci.Prelude.{
  ℕ, zero, suc, ◌+◌, ◌-◌, ◌*◌, ◌/◌, ◌%◌, ◌≤◌, ◌<◌, ◌≡◌, ◌⊎◌, refl, ap, ◌∙◌, true, false, ◌&&◌, [],
  ◌∷◌, none, some, Bytes, arith, length, get_or, take, drop, ltb, leb, Bool-cases, inl, inr,
  if◌then◌else◌,
}
use pmci.Pldmd.PackageImage.Components.{u16_at}
use pmci.Pldmd.Base.Tables.{bit}
use pmci.Pldmd.Base.Tables.Announced.{is_in, is_in-codes_from, type_bit, bit-of_zero}
use pmci.Pldmd.Pdr.Manager.{PossibleStates, possible_values, possible_states}

get_or-take :
    (n i : ℕ) (xs : Bytes) → get_or (take n xs) i 0 ≡ (if ltb i n then get_or xs i 0 else 0)
get_or-take zero i xs = ground arith
get_or-take (suc n) i [] = ground arith
get_or-take (suc n) zero (x ∷ xs) = ground arith
get_or-take (suc n) (suc i) (x ∷ xs) = get_or-take n i xs ∙ ground arith

is_in-possible_values :
    (v n : ℕ) (states : Bytes)
    → is_in v (possible_values n states)
      ≡ (ltb v (8 * n) && ltb v 256 && bit (v % 8) (get_or states (v / 8) 0))
unfolding possible_values
is_in-possible_values v n states =
    let k = if ltb n 32 then n else 32 in
    let g = get_or-take k (v / 8) states in
    let z : v / 8 - 0 ≡ v / 8 = omega arith in
    let q : leb (0 * 8) v ≡ true = ground arith in
    is_in-codes_from v 0 (take k states)
    ∙ ap (λ t. if t then type_bit v 0 (take k states) else false) q
    ∙ ap (λ j. bit (v % 8) (get_or (take k states) j 0)) z
    ∙ ap (bit (v % 8)) g
    ∙ elim (Bool-cases (ltb (v / 8) k)) [
      | inl h ↦ ground (arith, h)
      | inr h ↦ rw h (bit-of_zero (v % 8) ∙ ground (arith, h))
    ]

get_or-drop : (i j : ℕ) (xs : Bytes) → get_or (drop i xs) j 0 ≡ get_or xs (i + j) 0
get_or-drop zero j xs = ap (λ k. get_or xs k 0) (omega arith)
get_or-drop (suc i) j [] = refl
get_or-drop (suc i) j (x ∷ xs) =
    get_or-drop i j xs
    ∙ ap (λ k. get_or (x ∷ xs) k 0) {x = suc (i + j)} {y = suc i + j} (omega arith)

-- A record gives possible states exactly if it has room for at least one byte of them and for as many
-- as it says; a value is among them exactly if it is below 256 and its bit is set in one of those
-- bytes.
pub possible_states-bits :
    (at : ℕ) (pdr_data : Bytes)
    → let n = get_or pdr_data (at + 2) 0 in
      ((at + 4 ≤ length pdr_data) × (at + 3 + n ≤ length pdr_data)
        → (s : PossibleStates) × (possible_states at pdr_data ≡ some s)
          × (s.state_set_id ≡ u16_at at pdr_data)
          × ((v : ℕ)
              → is_in v s.possible_state_set_values
                ≡ (ltb v (8 * n) && ltb v 256 && bit (v % 8) (get_or pdr_data (at + 3 + v / 8) 0))))
      × ((length pdr_data < at + 4) ⊎ (length pdr_data < at + 3 + n)
          → possible_states at pdr_data ≡ none)
unfolding possible_states
possible_states-bits at pdr_data =
    let n = get_or pdr_data (at + 2) 0 in
    let values = possible_values n (drop (at + 3) pdr_data) in
    (
      λ h. (
        record { state_set_id = u16_at at pdr_data; possible_state_set_values = values },
        ground (arith, h),
        refl,
        λ v.
            is_in-possible_values v n (drop (at + 3) pdr_data)
            ∙ ap (λ y. ltb v (8 * n) && ltb v 256 && bit (v % 8) y)
                (get_or-drop (at + 3) (v / 8) pdr_data),
      ),
      λ h. ground (arith, h),
    )
