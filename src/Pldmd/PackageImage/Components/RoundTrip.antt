-- ===== src/Pldmd/PackageImage/Components/RoundTrip.antt =====
-- The component table of a package header, written out and read by pldmd/src/pldm_fwu_image.cpp.
use pmci.Prelude.{
  ℕ, zero, suc, ◌+◌, ◌*◌, ◌/◌, ◌%◌, ◌<◌, ◌≡◌, refl, ap, true, List, [], ◌∷◌, ◌++◌, some, Bytes,
  length, take, drop, arith, length-append,
}
use pmci.Prelude.Map.{Map, assign}
use pmci.Pldmd.PackageImage.Image.{CompProperties}
use pmci.Pldmd.PackageImage.Components.{
  advance_hdr_itr, comp_properties_of, comp_advanced, comp_round, comp_rounds, comp_table,
  process_comp_img_info,
}

-- A number of two bytes, and of four, in front of the rest.
abbrev put_u16 : ℕ → Bytes → Bytes
put_u16 n rest = n % 256 ∷ n / 256 ∷ rest

abbrev put_u32 : ℕ → Bytes → Bytes
put_u32 n rest = put_u16 (n % 65536) (put_u16 (n / 65536) rest)

unfoldable pub put_comp : CompProperties → Bytes → Bytes
put_comp p rest = put_u16 p.comp_classification (
    put_u16 p.comp_identifier (
      put_u32 p.comp_comparison_stamp (
        put_u16 p.comp_options (
          put_u16 p.requested_comp_activation_method (
            put_u32 p.comp_location_offset (
              put_u32 p.comp_size
                (p.comp_ver_str_type ∷ p.comp_ver_str_len ∷ (p.comp_ver_str ++ rest))))))))

-- The table as the specification of packages has it, in front of the rest of the header.
abbrev put_comps : List CompProperties → Bytes → Bytes
put_comps [] rest = rest
put_comps (p ∷ ps) rest = put_comp p (put_comps ps rest)

abbrev pub put_table : List CompProperties → Bytes → Bytes
put_table ps rest = put_u16 (length ps) (put_comps ps rest)

-- The version string is as long as its length says; the length itself has one byte.
abbrev pub AllFit : List CompProperties → Type 0
AllFit [] = Unit {0}
AllFit (p ∷ ps) = (length p.comp_ver_str ≡ p.comp_ver_str_len) × AllFit ps

-- The components under their numbers, from a number on.
abbrev pub numbered : ℕ → List CompProperties → Map CompProperties → Map CompProperties
numbered n [] m = m
numbered n (p ∷ ps) m = numbered (n + 1) ps (assign n p m)

u16_put : (n : ℕ) → n % 256 + 256 * (n / 256) ≡ n
u16_put n = omega arith

u32_put :
    (n : ℕ)
    → (n % 65536) % 256
        + 256 * ((n % 65536) / 256)
        + 65536 * ((n / 65536) % 256 + 256 * ((n / 65536) / 256))
      ≡ n
u32_put n = omega arith

take-append : (n : ℕ) (xs ys : Bytes) → length xs ≡ n → take n (xs ++ ys) ≡ xs
take-append zero [] ys h = refl
take-append zero (x ∷ xs) ys h = absurd (omega arith)
take-append (suc n) [] ys h = absurd (omega arith)
take-append (suc n) (x ∷ xs) ys h = ap (◌∷◌ x) (take-append n xs ys (omega arith))

drop-append : (n : ℕ) (xs ys : Bytes) → length xs ≡ n → drop n (xs ++ ys) ≡ ys
drop-append zero [] ys h = refl
drop-append zero (x ∷ xs) ys h = absurd (omega arith)
drop-append (suc n) [] ys h = absurd (omega arith)
drop-append (suc n) (x ∷ xs) ys h = drop-append n xs ys (omega arith)

comp_properties-put :
    (p : CompProperties) (rest : Bytes) → comp_properties_of (put_comp p rest) p.comp_ver_str ≡ p
unfolding comp_properties_of put_comp
comp_properties-put p rest =
    rw
      (
        u16_put p.comp_classification,
        u16_put p.comp_identifier,
        u32_put p.comp_comparison_stamp,
        u16_put p.comp_options,
        u16_put p.requested_comp_activation_method,
        u32_put p.comp_location_offset,
        u32_put p.comp_size,
      )
      refl

comp_round-put :
    (p : CompProperties) (rest : Bytes)
    → length p.comp_ver_str ≡ p.comp_ver_str_len
    → 0 < length rest
    → comp_round (put_comp p rest) ≡ some (p, rest)
unfolding comp_round comp_advanced advance_hdr_itr put_comp
comp_round-put p rest h k = ground (
  arith,
  length-append p.comp_ver_str rest,
  take-append p.comp_ver_str_len p.comp_ver_str rest h,
  drop-append p.comp_ver_str_len p.comp_ver_str rest h,
  comp_properties-put p rest,
)

put_comps-pos :
    (ps : List CompProperties) (rest : Bytes) → 0 < length rest → 0 < length (put_comps ps rest)
unfolding put_comp
put_comps-pos [] rest k = k
put_comps-pos (p ∷ ps) rest k = omega arith

comp_rounds-put :
    (ps : List CompProperties) (n : ℕ) (rest : Bytes) (m : Map CompProperties)
    → AllFit ps
    → 0 < length rest
    → comp_rounds (length ps) n (put_comps ps rest) m ≡ (numbered n ps m, n + length ps)
unfolding comp_rounds
comp_rounds-put [] n rest m f k = ground arith
comp_rounds-put (p ∷ ps) n rest m f k =
    rw (comp_round-put p (put_comps ps rest) f.0 (put_comps-pos ps rest k), comp_rounds)
      (rw (comp_rounds-put ps (n + 1) rest (assign n p m) f.1 k)
        (ap (λ x. (numbered (n + 1) ps (assign n p m), x)) (omega arith)))

-- A component table that is written out, with something of the header behind it and each version
-- string as long as its length says, is read back: as many components as it has, each under its
-- number, and all of them found.
pub process_comp_img_info-put :
    (ps : List CompProperties) (rest : Bytes)
    → AllFit ps
    → 0 < length rest
    → process_comp_img_info (put_table ps rest) ≡ (length ps, numbered 0 ps [], true)
unfolding process_comp_img_info comp_table advance_hdr_itr
process_comp_img_info-put ps rest f k =
    ground (arith, u16_put (length ps), comp_rounds-put ps 0 rest [] f k)
