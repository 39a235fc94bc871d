-- ===== src/Mctpd/Transmission/TagBits.antt =====
-- mctpd/src/utils/transmission_queue.cpp, Tags: the byte of free message tags, as its eight bits.
use pmci.Prelude.{
  ℕ, zero, suc, ◌<◌, ◌≡◌, refl, Bool, true, false, List, [], ◌∷◌, Option, none, some, arith, length,
  get_or, replicate, ◌==◌, if◌then◌else◌, ltb, ◌&&◌, Option-cases, inl, inr,
}

-- The lowest bit first.
abbrev pub Tags : Type 0
Tags = List Bool

abbrev pub all_tags : Tags
all_tags = replicate 8 true

-- The lowest bit that is set.
unfoldable pub next : Tags → Option ℕ
next [] = none
next (true ∷ bits) = some 0
next (false ∷ bits) = elim (next bits) [ none ↦ none | some i ↦ some (suc i) ]

unfoldable set_bit : ℕ → Bool → Tags → Tags
set_bit i b [] = []
set_bit zero b (x ∷ bits) = b ∷ bits
set_bit (suc i) b (x ∷ bits) = x ∷ set_bit i b bits

-- A flag of 8 or more sets no bit of the byte.
unfoldable pub emplace_tag : ℕ → Tags → Tags
unfolding set_bit
emplace_tag flag bits = set_bit flag true bits

unfoldable pub erase_tag : ℕ → Tags → Tags
unfolding set_bit
erase_tag flag bits = set_bit flag false bits

abbrev pub is_available : ℕ → Tags → Bool
is_available i bits = get_or bits i false

pub is_available-all : (n t : ℕ) → t < n → is_available t (replicate n true) ≡ true
is_available-all zero t h = ground arith
is_available-all (suc n) zero h = refl
is_available-all (suc n) (suc t) h = is_available-all n t (omega arith)

length-set_bit : (i : ℕ) (b : Bool) (bits : Tags) → length (set_bit i b bits) ≡ length bits
unfolding set_bit
length-set_bit i b [] = refl
length-set_bit zero b (x ∷ bits) = refl
length-set_bit (suc i) b (x ∷ bits) = omega (arith, length-set_bit i b bits)

is_available-set_bit :
    (i j : ℕ) (b : Bool) (bits : Tags)
    → is_available j (set_bit i b bits)
      ≡ (if j == i && ltb i (length bits) then b else is_available j bits)
unfolding set_bit
is_available-set_bit i j b [] = ground arith
is_available-set_bit zero zero b (x ∷ bits) = ground arith
is_available-set_bit zero (suc j) b (x ∷ bits) = ground arith
is_available-set_bit (suc i) zero b (x ∷ bits) = ground arith
is_available-set_bit (suc i) (suc j) b (x ∷ bits) = ground (arith, is_available-set_bit i j b bits)

pub length-emplace_tag : (i : ℕ) (bits : Tags) → length (emplace_tag i bits) ≡ length bits
unfolding emplace_tag
length-emplace_tag i bits = length-set_bit i true bits

pub length-erase_tag : (i : ℕ) (bits : Tags) → length (erase_tag i bits) ≡ length bits
unfolding erase_tag
length-erase_tag i bits = length-set_bit i false bits

pub is_available-emplace_tag :
    (i j : ℕ) (bits : Tags)
    → is_available j (emplace_tag i bits)
      ≡ (if j == i && ltb i (length bits) then true else is_available j bits)
unfolding emplace_tag
is_available-emplace_tag i j bits = is_available-set_bit i j true bits

pub is_available-erase_tag :
    (i j : ℕ) (bits : Tags)
    → is_available j (erase_tag i bits)
      ≡ (if j == i && ltb i (length bits) then false else is_available j bits)
unfolding erase_tag
is_available-erase_tag i j bits = is_available-set_bit i j false bits

-- The tag that is chosen is one of those that are free, and there is none only if no tag is free.
pub next-eq-some :
    (bits : Tags) (t : ℕ) → next bits ≡ some t → (is_available t bits ≡ true) × (t < length bits)
unfolding next
next-eq-some [] t h = cc
next-eq-some (true ∷ bits) t h = ground arith
next-eq-some (false ∷ bits) t h = elim (Option-cases (next bits)) [
  | inl e ↦ cc
  | inr (i, e) ↦ ground (arith, next-eq-some bits i e)
]

pub next-eq-none : (bits : Tags) (t : ℕ) → next bits ≡ none → is_available t bits ≡ false
unfolding next
next-eq-none [] t h = refl
next-eq-none (true ∷ bits) t h = cc
next-eq-none (false ∷ bits) zero h = refl
next-eq-none (false ∷ bits) (suc t) h = elim (Option-cases (next bits)) [
  | inl e ↦ next-eq-none bits t e
  | inr (i, e) ↦ cc
]
