-- ===== src/Pldmd/PackageImage/Devices/Pairs.antt =====
-- Which pairs of device records and termini the loop in pldmd/src/pldm_fwu_image.cpp leaves.
use pmci.Prelude.{
  ℕ, zero, suc, ◌+◌, ◌≡◌, refl, inl, inr, sym, ap, ◌∙◌, List, [], ◌∷◌, ◌++◌, some, Bytes, drop,
  arith, Option-cases,
}
use mathlib.Core.Path.{subst}
use pmci.Prelude.Map.{assign}
use pmci.Pldmd.PackageImage.Components.{u8_at}
use pmci.Pldmd.PackageImage.Devices.{
  DescriptorsMap, dev_round, dev_rounds, Devices, dev_table, process_dev_identification_info,
}
use pmci.Pldmd.PackageImage.Devices.Registered.{
  IsRegistered, descriptors_of, nth_record, AllMatched, AllOf, advance-Gives, dev_round-IsRound,
}

AllMatched-append :
    (bits memory : ℕ) (termini : List (ℕ × DescriptorsMap)) (first : Bytes) (ts us : List (ℕ × ℕ))
    → AllMatched bits memory termini first ts
    → AllMatched bits memory termini first us
    → AllMatched bits memory termini first (ts ++ us)
AllMatched-append bits memory termini first [] us a b = b
AllMatched-append bits memory termini first (t ∷ ts) us a b =
    (a.0, AllMatched-append bits memory termini first ts us a.1 b)

AllOf-AllMatched :
    (bits memory n : ℕ) (termini : List (ℕ × DescriptorsMap)) (first : Bytes) (ts : List (ℕ × ℕ))
    → AllOf n (descriptors_of bits memory (nth_record bits n first)) termini ts
    → AllMatched bits memory termini first ts
AllOf-AllMatched bits memory n termini first [] a = tt
AllOf-AllMatched bits memory n termini first ((r, tid) ∷ ts) ((e, h), a) = (
  subst (λ x. IsRegistered tid (descriptors_of bits memory (nth_record bits x first)) termini)
      (sym e) h,
  AllOf-AllMatched bits memory n termini first ts a,
)

dev_rounds-AllMatched :
    (missing bits memory : ℕ) (termini : List (ℕ × DescriptorsMap)) (first : Bytes) (d : Devices)
    → d.itr ≡ nth_record bits d.found first
    → AllMatched bits memory termini first d.matched_termini
    → AllMatched bits memory termini first
        (dev_rounds missing bits memory termini d).matched_termini
unfolding dev_rounds
dev_rounds-AllMatched zero bits memory termini first d s a = a
dev_rounds-AllMatched (suc missing) bits memory termini first d s a =
    let r = dev_round bits d.found memory termini d.itr in
    let w = dev_round-IsRound bits d.found memory termini d.itr in
    let now : AllOf d.found (descriptors_of bits memory (nth_record bits d.found first)) termini
        r.matched =
      subst (λ x. AllOf d.found (descriptors_of bits memory x) termini r.matched) s w.pairs in
    let both =
      AllMatched-append bits memory termini first d.matched_termini r.matched a
        (AllOf-AllMatched bits memory d.found termini first r.matched now) in
    elim (Option-cases r.found) [
      | inl e ↦ rw (dev_rounds, e) both
      | inr (p, e) ↦
          let d' : Devices = record {
            records = assign d.found p.0 d.records;
            matched_termini = d.matched_termini ++ r.matched;
            found = d.found + 1;
            itr = p.1;
          } in
          let n : d.found + 1 ≡ suc d.found = omega arith in
          let t : p.1 ≡ nth_record bits (d.found + 1) first = rw n (rw⁻¹ s (w.behind p e)) in
          rw (e, dev_rounds) (dev_rounds-AllMatched missing bits memory termini first d' t both)
    ]

dev_table-AllMatched :
    (bits memory : ℕ) (termini : List (ℕ × DescriptorsMap)) (itr : Bytes) (d : Devices)
    → dev_table bits memory termini (some itr) ≡ some d
    → AllMatched bits memory termini (drop 1 itr) d.matched_termini
unfolding dev_table
dev_table-AllMatched bits memory termini itr d h =
    let count = u8_at 0 itr in
    let d0 : Devices = record { records = []; matched_termini = []; found = 0; itr = drop 1 itr } in
    let e : dev_rounds count bits memory termini d0 ≡ d = ground arith in
    subst (λ x. AllMatched bits memory termini (drop 1 itr) x.matched_termini) e
      (dev_rounds-AllMatched count bits memory termini (drop 1 itr) d0 refl tt)

-- Where the device records of a package are accepted, every terminus that is paired with one of them is
-- registered with that record's descriptors.
pub process_dev-AllMatched :
    (len bits memory : ℕ) (termini : List (ℕ × DescriptorsMap)) (itr : Bytes) (d : Devices)
    → process_dev_identification_info len bits memory termini itr ≡ some d
    → AllMatched bits memory termini (drop 1 (drop len itr)) d.matched_termini
unfolding process_dev_identification_info
process_dev-AllMatched len bits memory termini itr d h = elim (advance-Gives len 1 itr) [
  | inl e ↦ unfold dev_table in cc (e, h)
  | inr e ↦
      dev_table-AllMatched bits memory termini (drop len itr) d
        (ap (dev_table bits memory termini) (sym e) ∙ h)
]
