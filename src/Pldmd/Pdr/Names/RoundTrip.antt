-- ===== src/Pldmd/Pdr/Names/RoundTrip.antt =====
-- pldmd/src/pdr_manager.cpp, getAuxName: which name is found in the bytes that names make.
use pmci.Prelude.{
  ℕ, suc, ◌≢◌, ◌⊎◌, ◌/◌, ◌%◌, ◌≤◌, ◌<◌, ◌≡◌, refl, List, [], ◌∷◌, ◌++◌, none, Bytes, arith, length,
}
use pmci.Pldmd.Pdr.Names.English.{IsName, english}
use pmci.Pldmd.Pdr.Names.{AuxName, unnamed, overrun, c_string, get_aux_name}

-- A language tag and the code units of a name.
abbrev pub AuxString : Type 0
AuxString = Bytes × List ℕ

abbrev All : (ℕ → Type 0) → List ℕ → Type 0
All P [] = Unit {0}
All P (x ∷ xs) = P x × All P xs

abbrev pub IsAuxString : AuxString → Type 0
IsAuxString (tag, units) =
    All (λ x. 0 < x) tag
    × (length tag ≤ 64)
    × All (λ u. (0 < u) × (u < 65536)) units
    × (length units ≤ 64)

abbrev pub AllAuxStrings : List AuxString → Type 0
AllAuxStrings [] = Unit {0}
AllAuxStrings (s ∷ ss) = IsAuxString s × AllAuxStrings ss

abbrev pub put_units : List ℕ → Bytes
put_units [] = 0 ∷ 0 ∷ []
put_units (u ∷ us) = u / 256 ∷ u % 256 ∷ put_units us

abbrev pub put_names : List AuxString → Bytes
put_names [] = []
put_names ((tag, units) ∷ ss) = tag ++ (0 ∷ (put_units units ++ put_names ss))

-- What the first name in English gives, if there is one.
abbrev pub IsFirstEnglish : List AuxString → AuxName → Type 0
IsFirstEnglish [] r = r ≡ unnamed
IsFirstEnglish ((tag, units) ∷ ss) r =
    ((tag ≡ english) × IsName units r) ⊎ ((tag ≢ english) × IsFirstEnglish ss r)

c_string-none : (xs : Bytes) → All (λ y. 0 < y) xs → c_string xs ≡ none
unfolding c_string
c_string-none [] a = refl
c_string-none (x ∷ xs) a = ground (arith, c_string-none xs a.1)

-- Bytes without a null are read to their end and beyond.
pub get_aux_name-overrun :
    (count x : ℕ) (xs : Bytes)
    → All (λ y. 0 < y) (x ∷ xs)
    → get_aux_name (suc count) (x ∷ xs) ≡ overrun
unfolding get_aux_name
get_aux_name-overrun count x xs a = let c = c_string-none (x ∷ xs) a in ground (arith, c)
