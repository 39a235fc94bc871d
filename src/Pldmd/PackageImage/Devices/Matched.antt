-- ===== src/Pldmd/PackageImage/Devices/Matched.antt =====
-- The termini that the device records of a package match, in pldmd/src/pldm_fwu_image.cpp.
use pmci.Prelude.{
  ℕ, zero, suc, ◌+◌, ◌≡◌, ◌≢◌, refl, List, [], ◌∷◌, ◌++◌, Option, none, some, Bytes, take, drop,
  length, ltb, ◌/◌, arith, Option-cases, Bool-cases, inl, inr,
}
use mathlib.Core.Path.{subst}
use pmci.Prelude.Map.{Map, find, assign, find-assign}
use pmci.Pldmd.PackageImage.Image.{DevIdProperties}
use pmci.Pldmd.PackageImage.Components.{u8_at, u16_at, advance_hdr_itr}
use pmci.Pldmd.PackageImage.Devices.{
  DescriptorsMap, same_descriptors, find_matched_terminus, unpack_descriptors,
  get_descriptor_data_len, dev_pkg_data, dev_descriptors, dev_ver_str, dev_applicable, dev_round,
  dev_rounds, Devices, dev_table, process_dev_identification_info,
}

-- The record of every pair is there.
abbrev pub AllRecorded : List (ℕ × ℕ) → Map DevIdProperties → Type 0
AllRecorded [] m = Unit {0}
AllRecorded ((r, tid) ∷ ts) m = (find r m ≢ none) × AllRecorded ts m

AllRecorded-append :
    (ts us : List (ℕ × ℕ)) (m : Map DevIdProperties)
    → AllRecorded ts m
    → AllRecorded us m
    → AllRecorded (ts ++ us) m
AllRecorded-append [] us m a b = b
AllRecorded-append (t ∷ ts) us m a b = (a.0, AllRecorded-append ts us m a.1 b)

AllRecorded-assign :
    (ts : List (ℕ × ℕ)) (n : ℕ) (p : DevIdProperties) (m : Map DevIdProperties)
    → AllRecorded ts m
    → AllRecorded ts (assign n p m)
AllRecorded-assign [] n p m a = tt
AllRecorded-assign ((r, tid) ∷ ts) n p m a =
    (ground (arith, a.0, find-assign n r p m), AllRecorded-assign ts n p m a.1)

-- All pairs are for the record.
abbrev AllFor : ℕ → List (ℕ × ℕ) → Type 0
AllFor n [] = Unit {0}
AllFor n ((r, tid) ∷ ts) = (r ≡ n) × AllFor n ts

find_matched-AllFor :
    (n : ℕ) (m : DescriptorsMap) (termini : List (ℕ × DescriptorsMap))
    → AllFor n (find_matched_terminus n m termini)
unfolding find_matched_terminus
find_matched-AllFor n m [] = tt
find_matched-AllFor n m ((tid, f) ∷ termini) = elim (Bool-cases (same_descriptors m f)) [
  | inl e ↦ rw e (refl, find_matched-AllFor n m termini)
  | inr e ↦ rw e (find_matched-AllFor n m termini)
]

pkg_data-AllFor :
    (info : Bytes) (n initial : ℕ) (applicable ver_str : Bytes) (ts : List (ℕ × ℕ))
    (o : Option Bytes)
    → AllFor n ts
    → AllFor n (dev_pkg_data info n initial applicable ver_str ts o).matched
unfolding dev_pkg_data
pkg_data-AllFor info n initial applicable ver_str ts none a = a
pkg_data-AllFor info n initial applicable ver_str ts (some itr) a = a

descriptors-AllFor :
    (info : Bytes) (n len memory : ℕ) (termini : List (ℕ × DescriptorsMap))
    (applicable ver_str : Bytes) (o : Option Bytes)
    → AllFor n (dev_descriptors info n len memory termini applicable ver_str o).matched
unfolding dev_descriptors
descriptors-AllFor info n len memory termini applicable ver_str none = tt
descriptors-AllFor info n len memory termini applicable ver_str (some itr) =
    let u = unpack_descriptors (u8_at 2 info) (take len itr) memory in
    pkg_data-AllFor info n u.0 applicable ver_str (find_matched_terminus n u.1 termini)
      (advance_hdr_itr len (u16_at 9 info) itr) (find_matched-AllFor n u.1 termini)

ver_str-AllFor :
    (info : Bytes) (n applicable_len memory : ℕ) (termini : List (ℕ × DescriptorsMap))
    (applicable : Bytes) (o : Option Bytes)
    → AllFor n (dev_ver_str info n applicable_len memory termini applicable o).matched
unfolding dev_ver_str
ver_str-AllFor info n applicable_len memory termini applicable none = tt
ver_str-AllFor info n applicable_len memory termini applicable (some itr) =
    let len = get_descriptor_data_len info applicable_len in
    descriptors-AllFor info n len memory termini applicable (take (u8_at 8 info) itr)
      (advance_hdr_itr (u8_at 8 info) len itr)

applicable-AllFor :
    (info : Bytes) (n applicable_len memory : ℕ) (termini : List (ℕ × DescriptorsMap))
    (o : Option Bytes)
    → AllFor n (dev_applicable info n applicable_len memory termini o).matched
unfolding dev_applicable
applicable-AllFor info n applicable_len memory termini none = tt
applicable-AllFor info n applicable_len memory termini (some itr) =
    ver_str-AllFor info n applicable_len memory termini (take applicable_len itr)
      (advance_hdr_itr applicable_len (u8_at 8 info) itr)

dev_round-AllFor :
    (bits n memory : ℕ) (termini : List (ℕ × DescriptorsMap)) (itr : Bytes)
    → AllFor n (dev_round bits n memory termini itr).matched
unfolding dev_round
dev_round-AllFor bits n memory termini itr = elim (Bool-cases (ltb (length itr) 11)) [
  | inl e ↦ rw e tt
  | inr e ↦
      rw e (applicable-AllFor itr n (bits / 8) memory termini (advance_hdr_itr 11 (bits / 8) itr))
]

AllFor-AllRecorded :
    (n : ℕ) (ts : List (ℕ × ℕ)) (p : DevIdProperties) (m : Map DevIdProperties)
    → AllFor n ts
    → AllRecorded ts (assign n p m)
AllFor-AllRecorded n [] p m a = tt
AllFor-AllRecorded n ((r, tid) ∷ ts) p m a =
    (ground (arith, a.0, find-assign n r p m), AllFor-AllRecorded n ts p m a.1)

dev_rounds-AllRecorded :
    (missing bits memory : ℕ) (termini : List (ℕ × DescriptorsMap)) (d : Devices)
    → (dev_rounds missing bits memory termini d).found ≡ d.found + missing
    → AllRecorded d.matched_termini d.records
    → AllRecorded
        (dev_rounds missing bits memory termini d).matched_termini
        (dev_rounds missing bits memory termini d).records
unfolding dev_rounds
dev_rounds-AllRecorded zero bits memory termini d all a = a
dev_rounds-AllRecorded (suc missing) bits memory termini d all a =
    let r = dev_round bits d.found memory termini d.itr in
    elim (Option-cases r.found) [
      | inl e ↦ absurd (ground (arith, e))
      | inr (p, e) ↦
          let d' : Devices = record {
            records = assign d.found p.0 d.records;
            matched_termini = d.matched_termini ++ r.matched;
            found = d.found + 1;
            itr = p.1;
          } in
          rw (e, dev_rounds)
            (dev_rounds-AllRecorded missing bits memory termini d' (ground (arith, e)) (
              AllRecorded-append d.matched_termini r.matched d'.records
                (AllRecorded-assign d.matched_termini d.found p.0 d.records a)
                (AllFor-AllRecorded d.found r.matched p.0 d.records
                  (dev_round-AllFor bits d.found memory termini d.itr))))
    ]

dev_table-some :
    (bits memory : ℕ) (termini : List (ℕ × DescriptorsMap)) (o : Option Bytes) (d : Devices)
    → dev_table bits memory termini o ≡ some d
    → AllRecorded d.matched_termini d.records
unfolding dev_table
dev_table-some bits memory termini none d h = cc
dev_table-some bits memory termini (some itr) d h =
    let count = u8_at 0 itr in
    let d0 : Devices = record { records = []; matched_termini = []; found = 0; itr = drop 1 itr } in
    let e : dev_rounds count bits memory termini d0 ≡ d = ground arith in
    let all : (dev_rounds count bits memory termini d0).found ≡ count = ground arith in
    subst (λ x. AllRecorded x.matched_termini x.records) e
      (dev_rounds-AllRecorded count bits memory termini d0 (omega (arith, all)) tt)

-- Where the device records of a package are accepted, every terminus that one of them matches is paired
-- with a record that can be looked up.
pub process_dev-AllRecorded :
    (len bits memory : ℕ) (termini : List (ℕ × DescriptorsMap)) (itr : Bytes) (d : Devices)
    → process_dev_identification_info len bits memory termini itr ≡ some d
    → AllRecorded d.matched_termini d.records
unfolding process_dev_identification_info
process_dev-AllRecorded len bits memory termini itr d h =
    dev_table-some bits memory termini (advance_hdr_itr len 1 itr) d h
