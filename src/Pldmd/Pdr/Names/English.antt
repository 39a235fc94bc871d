-- ===== src/Pldmd/Pdr/Names/English.antt =====
-- pldmd/src/pdr_manager.cpp, getAuxName: which text a name in English becomes.
use pmci.Prelude.{
  ℕ, ◌≤◌, ◌<◌, ◌≡◌, ◌≢◌, refl, ap, ◌⊎◌, inl, inr, true, false, List, [], ◌∷◌, ◌++◌, Bytes, arith,
  Bool-cases,
}
use mathlib.Core.Path.{subst}
use pmci.Pldmd.Pdr.Names.{
  AuxName, named, unnamed, range_error, is_high, is_utf16, is_kept, format_name, same_bytes,
  english_name, is_english,
}

-- A letter, a digit, an underscore or a slash.
abbrev pub IsKept : ℕ → Type 0
IsKept u =
    ((97 ≤ u) × (u ≤ 122)) ⊎ ((65 ≤ u) × (u ≤ 90)) ⊎ ((48 ≤ u) × (u ≤ 57)) ⊎ (u ≡ 95) ⊎ (u ≡ 47)

abbrev AllOther : List ℕ → Type 0
AllOther [] = Unit {0}
AllOther (u ∷ us) = (¬ IsKept u) × AllOther us

abbrev BeginsKept : List ℕ → Type 0
BeginsKept [] = Unit {0}
BeginsKept (u ∷ us) = IsKept u

-- A text, and what is made of it: each longest run of other characters is one underscore.
pub data Formatted : List ℕ → Bytes → Type 0 where
  nothing : Formatted [] []
  kept :
      (u : ℕ) (us : List ℕ) (bs : Bytes) → IsKept u → Formatted us bs → Formatted (u ∷ us) (u ∷ bs)
  run :
      (r : ℕ) (rs us : List ℕ) (bs : Bytes)
      → AllOther (r ∷ rs)
      → BeginsKept us
      → Formatted us bs
      → Formatted ((r ∷ rs) ++ us) (95 ∷ bs)

-- Code units outside of the surrogates, and pairs of a high and a low one.
pub data IsUtf16 : List ℕ → Type 0 where
  ends : IsUtf16 []
  one : (u : ℕ) (us : List ℕ) → (u < 0xd800) ⊎ (0xe000 ≤ u) → IsUtf16 us → IsUtf16 (u ∷ us)
  pair :
      (u v : ℕ) (us : List ℕ)
      → 0xd800 ≤ u
      → u < 0xdc00
      → 0xdc00 ≤ v
      → v < 0xe000
      → IsUtf16 us
      → IsUtf16 (u ∷ v ∷ us)

is_kept-true : (u : ℕ) → is_kept u ≡ true → IsKept u
is_kept-true u h = ground arith

is_kept-false : (u : ℕ) → is_kept u ≡ false → ¬ IsKept u
is_kept-false u h k = ground arith

is_utf16-true : (us : List ℕ) → is_utf16 us ≡ true → IsUtf16 us
unfolding is_utf16
is_utf16-true [] h = ends
is_utf16-true (u ∷ []) h = one u [] (ground arith) ends
is_utf16-true (u ∷ v ∷ us) h = elim (Bool-cases (is_high u)) [
  | inl e ↦
      pair u v us (ground arith) (ground arith) (ground arith) (ground arith)
        (is_utf16-true us (ground arith))
  | inr e ↦ one u (v ∷ us) (ground arith) (is_utf16-true (v ∷ us) (ground arith))
]

IsUtf16-is_utf16 : {us : List ℕ} → IsUtf16 us → is_utf16 us ≡ true
unfolding is_utf16
IsUtf16-is_utf16 ends = refl
IsUtf16-is_utf16 (one u [] h w) = ground arith
IsUtf16-is_utf16 (one u (v ∷ us) h w) = ground (arith, IsUtf16-is_utf16 w)
IsUtf16-is_utf16 (pair u v us a b c d w) = ground (arith, IsUtf16-is_utf16 w)

AllOther-append : (rs : List ℕ) (u : ℕ) → AllOther rs → ¬ IsKept u → AllOther (rs ++ u ∷ [])
AllOther-append [] u a k = (k, tt)
AllOther-append (r ∷ rs) u a k = (a.0, AllOther-append rs u a.1 k)

append_one : (rs : List ℕ) (u : ℕ) (us : List ℕ) → (rs ++ u ∷ []) ++ us ≡ rs ++ u ∷ us
append_one [] u us = refl
append_one (r ∷ rs) u us = ap (◌∷◌ r) (append_one rs u us)

-- Outside of a run, and within one that began with `r` and `rs`.
format_name-Formatted :
    (us : List ℕ)
    → Formatted us (format_name false us)
      × ((r : ℕ) (rs : List ℕ)
          → AllOther (r ∷ rs)
          → Formatted ((r ∷ rs) ++ us) (95 ∷ format_name true us))
unfolding format_name
format_name-Formatted [] = (nothing, λ r rs a. run r rs [] [] a tt nothing)
format_name-Formatted (u ∷ us) =
    let (f, g) = format_name-Formatted us in
    elim (Bool-cases (is_kept u)) [
      | inl e ↦
          let k = is_kept-true u e in
          let t = kept u us (format_name false us) k f in
          rw e (t, λ r rs a. run r rs (u ∷ us) (u ∷ format_name false us) a k t)
      | inr e ↦
          let k = is_kept-false u e in
          rw e (
            g u [] (k, tt),
            λ r rs a.
                subst (λ x. Formatted x (95 ∷ format_name true us)) (append_one (r ∷ rs) u us)
                  (g r (rs ++ u ∷ []) (AllOther-append (r ∷ rs) u a k)),
          )
    ]

same_bytes-true : (xs ys : Bytes) → same_bytes xs ys ≡ true → xs ≡ ys
same_bytes-true [] [] h = refl
same_bytes-true [] (y ∷ ys) h = cc
same_bytes-true (x ∷ xs) [] h = cc
same_bytes-true (x ∷ xs) (y ∷ ys) h = ground (arith, same_bytes-true xs ys)

same_bytes_refl : (xs : Bytes) → same_bytes xs xs ≡ true
same_bytes_refl [] = refl
same_bytes_refl (x ∷ xs) = ground (arith, same_bytes_refl xs)

same_bytes-false : (xs ys : Bytes) → same_bytes xs ys ≡ false → xs ≢ ys
same_bytes-false xs ys h e = cc (h, ap (same_bytes xs) e, same_bytes_refl xs)

-- What a name in English gives: the conversion throws unless it is UTF-16; a name without any
-- character that is kept counts as none.
abbrev pub IsName : List ℕ → AuxName → Type 0
IsName units r =
    ((¬ IsUtf16 units) × (r ≡ range_error))
    ⊎ (IsUtf16 units
        × (name : Bytes) × Formatted units name
        × (((name ≡ 95 ∷ []) × (r ≡ unnamed)) ⊎ ((name ≢ 95 ∷ []) × (r ≡ named name))))

pub english_name-IsName : (units : List ℕ) → IsName units (english_name units)
unfolding english_name
english_name-IsName units = elim (Bool-cases (is_utf16 units)) [
  | inr h ↦ rw h (inl (λ w. let k : true ≡ false = cc (h, IsUtf16-is_utf16 w) in cc k, refl))
  | inl h ↦
      let name = format_name false units in
      let f = (format_name-Formatted units).0 in
      let w = is_utf16-true units h in
      elim (Bool-cases (same_bytes name (95 ∷ []))) [
        | inl e ↦ rw (h, e) (inr (w, name, f, inl (same_bytes-true name (95 ∷ []) e, refl)))
        | inr e ↦ rw (h, e) (inr (w, name, f, inr (same_bytes-false name (95 ∷ []) e, refl)))
      ]
]

-- The tag "en".
abbrev pub english : Bytes
english = 101 ∷ 110 ∷ []

pub is_english-cases :
    (tag : Bytes)
    → ((tag ≡ english) × (is_english tag ≡ true)) ⊎ ((tag ≢ english) × (is_english tag ≡ false))
is_english-cases tag = elim (Bool-cases (same_bytes tag english)) [
  | inl e ↦ inl (same_bytes-true tag english e, e)
  | inr e ↦ inr (same_bytes-false tag english e, e)
]
