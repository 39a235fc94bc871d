-- ===== src/Pldmd/PackageImage/Devices/Registered.antt =====
-- Which termini the device records of a package match, in pldmd/src/pldm_fwu_image.cpp.
use pmci.Prelude.{
  ℕ, zero, suc, ◌≡◌, refl, ◌⊎◌, inl, inr, true, List, [], ◌∷◌, Option, none, some, Bytes, take,
  drop, length, ltb, ◌/◌, arith, Bool-cases,
}
use pmci.Pldmd.PackageImage.Image.{DevIdProperties}
use pmci.Pldmd.PackageImage.Components.{u8_at, u16_at, advance_hdr_itr}
use pmci.Pldmd.PackageImage.Devices.{
  DescriptorsMap, same_descriptors, find_matched_terminus, unpack_descriptors,
  get_descriptor_data_len, DevRound, dev_pkg_data, dev_descriptors, dev_ver_str, dev_applicable,
  dev_round,
}

-- The terminus is registered with the descriptors.
abbrev pub IsRegistered : ℕ → DescriptorsMap → List (ℕ × DescriptorsMap) → Type 0
IsRegistered tid m [] = ⊥
IsRegistered tid m ((t, f) ∷ termini) = ((t ≡ tid) × (f ≡ m)) ⊎ IsRegistered tid m termini

-- What stands behind the fixed part, the bitmap and the version string of the record at the front.
abbrev pub descriptors_data : ℕ → Bytes → Bytes
descriptors_data bits itr = drop (u8_at 8 itr) (drop (bits / 8) (drop 11 itr))

-- The descriptors of the record at the front.
abbrev pub descriptors_of : ℕ → ℕ → Bytes → DescriptorsMap
descriptors_of bits memory itr =
    (unpack_descriptors (u8_at 2 itr)
      (take (get_descriptor_data_len itr (bits / 8)) (descriptors_data bits itr)) memory).1

-- What stands behind the record, its descriptors and its package data.
abbrev pub next_record : ℕ → Bytes → Bytes
next_record bits itr =
    drop (u16_at 9 itr) (drop (get_descriptor_data_len itr (bits / 8)) (descriptors_data bits itr))

abbrev pub nth_record : ℕ → ℕ → Bytes → Bytes
nth_record bits zero itr = itr
nth_record bits (suc n) itr = next_record bits (nth_record bits n itr)

-- Each pair is a record's number and a terminus that is registered with that record's descriptors.
abbrev pub AllMatched : ℕ → ℕ → List (ℕ × DescriptorsMap) → Bytes → List (ℕ × ℕ) → Type 0
AllMatched bits memory termini first [] = Unit {0}
AllMatched bits memory termini first ((r, tid) ∷ ts) =
    IsRegistered tid (descriptors_of bits memory (nth_record bits r first)) termini
    × AllMatched bits memory termini first ts

same_descriptors-eq : (m f : DescriptorsMap) → same_descriptors m f ≡ true → f ≡ m
unfolding same_descriptors
same_descriptors-eq [] [] h = refl
same_descriptors-eq [] (y ∷ f) h = cc
same_descriptors-eq (x ∷ m) [] h = cc
same_descriptors-eq ((k, v) ∷ m) ((j, w) ∷ f) h = ground (arith, same_descriptors-eq m f)

-- All pairs are for one record with the descriptors.
abbrev pub AllOf : ℕ → DescriptorsMap → List (ℕ × DescriptorsMap) → List (ℕ × ℕ) → Type 0
AllOf n m termini [] = Unit {0}
AllOf n m termini ((r, tid) ∷ ts) = ((r ≡ n) × IsRegistered tid m termini) × AllOf n m termini ts

AllOf-more :
    (n : ℕ) (m : DescriptorsMap) (t : ℕ × DescriptorsMap) (termini : List (ℕ × DescriptorsMap))
    (ts : List (ℕ × ℕ))
    → AllOf n m termini ts
    → AllOf n m (t ∷ termini) ts
AllOf-more n m t termini [] a = tt
AllOf-more n m t termini (x ∷ ts) a = ((a.0.0, inr a.0.1), AllOf-more n m t termini ts a.1)

find_matched-AllOf :
    (n : ℕ) (m : DescriptorsMap) (termini : List (ℕ × DescriptorsMap))
    → AllOf n m termini (find_matched_terminus n m termini)
unfolding find_matched_terminus
find_matched-AllOf n m [] = tt
find_matched-AllOf n m ((tid, f) ∷ termini) =
    let rest =
      AllOf-more n m (tid, f) termini (find_matched_terminus n m termini)
        (find_matched-AllOf n m termini) in
    elim (Bool-cases (same_descriptors m f)) [
      | inl e ↦ rw e ((refl, inl (refl, same_descriptors-eq m f e)), rest)
      | inr e ↦ rw e rest
    ]

-- What a round reads of the record with a number and descriptors.
pub record IsRound (n : ℕ) (m : DescriptorsMap) (termini : List (ℕ × DescriptorsMap)) (next : Bytes)
    (r : DevRound) : Type 0 where
  pub pairs : AllOf n m termini r.matched
  pub behind : (p : DevIdProperties × Bytes) → r.found ≡ some p → p.1 ≡ next

abbrev pub Gives : Option Bytes → Bytes → Type 0
Gives o itr = (o ≡ none) ⊎ (o ≡ some itr)

pub advance-Gives : (a b : ℕ) (itr : Bytes) → Gives (advance_hdr_itr a b itr) (drop a itr)
unfolding advance_hdr_itr
advance-Gives a b itr = elim (Bool-cases (ltb (length (drop a itr)) b)) [
  | inl e ↦ inl (rw e refl)
  | inr e ↦ inr (rw e refl)
]

pkg_data-IsRound :
    (info : Bytes) (n initial : ℕ) (applicable ver_str itr : Bytes) (ts : List (ℕ × ℕ))
    (o : Option Bytes) (m : DescriptorsMap) (termini : List (ℕ × DescriptorsMap))
    → Gives o itr
    → AllOf n m termini ts
    → IsRound n m termini
        (drop (u16_at 9 info) itr)
        (dev_pkg_data info n initial applicable ver_str ts o)
unfolding dev_pkg_data
pkg_data-IsRound info n initial applicable ver_str itr ts o m termini (inl e) a =
    rw e (record { pairs = a; behind = λ p h. cc })
pkg_data-IsRound info n initial applicable ver_str itr ts o m termini (inr e) a =
    rw e (record { pairs = a; behind = λ p h. ground (arith, h) })

descriptors-IsRound :
    (info : Bytes) (n len memory : ℕ) (termini : List (ℕ × DescriptorsMap))
    (applicable ver_str itr : Bytes) (o : Option Bytes)
    → Gives o itr
    → IsRound n
        (unpack_descriptors (u8_at 2 info) (take len itr) memory).1
        termini
        (drop (u16_at 9 info) (drop len itr))
        (dev_descriptors info n len memory termini applicable ver_str o)
unfolding dev_descriptors
descriptors-IsRound info n len memory termini applicable ver_str itr o (inl e) =
    rw e (record { pairs = tt; behind = λ p h. cc })
descriptors-IsRound info n len memory termini applicable ver_str itr o (inr e) =
    let u = unpack_descriptors (u8_at 2 info) (take len itr) memory in
    rw e (
      pkg_data-IsRound info n u.0 applicable ver_str (drop len itr)
        (find_matched_terminus n u.1 termini) (advance_hdr_itr len (u16_at 9 info) itr) u.1 termini
        (advance-Gives len (u16_at 9 info) itr) (find_matched-AllOf n u.1 termini))

ver_str-IsRound :
    (info : Bytes) (n applicable_len memory : ℕ) (termini : List (ℕ × DescriptorsMap))
    (applicable itr : Bytes) (o : Option Bytes)
    → Gives o itr
    → let len = get_descriptor_data_len info applicable_len in
      let rest = drop (u8_at 8 info) itr in
      IsRound n
        (unpack_descriptors (u8_at 2 info) (take len rest) memory).1
        termini
        (drop (u16_at 9 info) (drop len rest))
        (dev_ver_str info n applicable_len memory termini applicable o)
unfolding dev_ver_str
ver_str-IsRound info n applicable_len memory termini applicable itr o (inl e) =
    rw e (record { pairs = tt; behind = λ p h. cc })
ver_str-IsRound info n applicable_len memory termini applicable itr o (inr e) =
    let len = get_descriptor_data_len info applicable_len in
    rw e (
      descriptors-IsRound info n len memory termini applicable (take (u8_at 8 info) itr)
        (drop (u8_at 8 info) itr) (advance_hdr_itr (u8_at 8 info) len itr)
        (advance-Gives (u8_at 8 info) len itr))

pub dev_round-IsRound :
    (bits n memory : ℕ) (termini : List (ℕ × DescriptorsMap)) (itr : Bytes)
    → IsRound n
        (descriptors_of bits memory itr)
        termini
        (next_record bits itr)
        (dev_round bits n memory termini itr)
unfolding dev_round dev_applicable
dev_round-IsRound bits n memory termini itr = elim (Bool-cases (ltb (length itr) 11)) [
  | inl e ↦ rw e (record { pairs = tt; behind = λ p h. cc })
  | inr e ↦
      let len = bits / 8 in
      let rest = drop 11 itr in
      rw e (elim (advance-Gives 11 len itr) [
        | inl a ↦ rw a (record { pairs = tt; behind = λ p h. cc })
        | inr a ↦ rw a (
            ver_str-IsRound itr n len memory termini (take len rest) (drop len rest)
              (advance_hdr_itr len (u8_at 8 itr) rest) (advance-Gives len (u8_at 8 itr) rest))
      ])
]
