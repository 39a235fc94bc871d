-- ===== src/Pldmd/Base/Tables/Announced.antt =====
-- pldmd/src/base.cpp: the tables of types and commands hold what the terminus has announced.
use pmci.Prelude.{
  ℕ, zero, suc, ◌+◌, ◌-◌, ◌*◌, ◌/◌, ◌%◌, ◌≡◌, refl, Bool, true, false, ◌&&◌, List, [], ◌∷◌, ◌++◌,
  Option, none, some, Bytes, arith, get_or, ltb, leb, ◌==◌, if◌then◌else◌, Option-cases, inl, inr,
  ap, ◌∙◌, ◌||◌, ◌≤◌,
}
use pmci.Prelude.Map.{find, find-assign}
use pmci.Pldmd.Transport.Bus.{Bus}
use pmci.Pldmd.Base.Requests.{BaseCodec, get_pldm_commands}
use pmci.Pldmd.Base.Versions.{get_pldm_versions}
use pmci.Pldmd.Base.Tables.{
  bit, codes_of_byte, codes_from, get_type_codes_from_supported_types, VersionSupportTable,
  CommandSupportTable, version_table_from, create_version_support_table, command_table_from,
  create_command_support_table, is_supported, add_versions, add_commands,
}

abbrev pub is_in : ℕ → List ℕ → Bool
is_in t [] = false
is_in t (u ∷ us) = if t == u then true else is_in t us

is_in-append : (t : ℕ) (us vs : List ℕ) → is_in t (us ++ vs) ≡ (is_in t us || is_in t vs)
is_in-append t [] vs = refl
is_in-append t (u ∷ us) vs = ground (arith, is_in-append t us vs)

bit_step : (t c n : ℕ) → c + 1 ≤ t → bit (t - c) n ≡ bit (t - (c + 1)) (n / 2)
bit_step t c n h = ap (λ k. bit k n) {x = t - c} {y = suc (t - (c + 1))} (omega arith)

bit_first : (t c n : ℕ) → t ≡ c → bit (t - c) n ≡ (n % 2 == 1)
bit_first t c n h = ap (λ k. bit k n) {x = t - c} {y = 0} (omega arith)

is_in-codes_of_byte :
    (t code left byte : ℕ)
    → is_in t (codes_of_byte code left byte)
      ≡ (if leb code t && ltb t (code + left) then bit (t - code) byte else false)
unfolding codes_of_byte
is_in-codes_of_byte t code zero byte = ground arith
is_in-codes_of_byte t code (suc left) byte = ground (
  arith,
  is_in-codes_of_byte t (code + 1) left (byte / 2),
  bit_step t code byte,
  bit_first t code byte,
)

pub bit-of_zero : (i : ℕ) → bit i 0 ≡ false
bit-of_zero zero = refl
bit-of_zero (suc i) = bit-of_zero i

-- The bit that stands for a type, of the bytes from the `i`-th on.
abbrev pub type_bit : ℕ → ℕ → Bytes → Bool
type_bit t i bytes = bit (t % 8) (get_or bytes (t / 8 - i) 0)

get_or-cons :
    (t i : ℕ) (x : ℕ) (bytes : Bytes)
    → i + 1 ≤ t / 8
    → get_or (x ∷ bytes) (t / 8 - i) 0 ≡ get_or bytes (t / 8 - (i + 1)) 0
get_or-cons t i x bytes h =
    ap (λ k. get_or (x ∷ bytes) k 0) {x = t / 8 - i} {y = suc (t / 8 - (i + 1))} (omega arith)

type_bit-first :
    (t i x : ℕ) (bytes : Bytes)
    → i * 8 ≤ t
    → t + 1 ≤ i * 8 + 8
    → type_bit t i (x ∷ bytes) ≡ bit (t - i * 8) x
type_bit-first t i x bytes h l =
    ap (λ k. bit (t % 8) (get_or (x ∷ bytes) k 0)) {x = t / 8 - i} {y = 0} (omega arith)
    ∙ ap (λ k. bit k x) {x = t % 8} {y = t - i * 8} (omega arith)

type_bit-cons :
    (t i x : ℕ) (bytes : Bytes)
    → (i + 1) * 8 ≤ t
    → type_bit t i (x ∷ bytes) ≡ type_bit t (i + 1) bytes
type_bit-cons t i x bytes h = ap (bit (t % 8)) (get_or-cons t i x bytes (omega arith))

pub is_in-codes_from :
    (t i : ℕ) (bytes : Bytes)
    → is_in t (codes_from i bytes) ≡ (if leb (i * 8) t then type_bit t i bytes else false)
unfolding codes_from
is_in-codes_from t i [] = ground (arith, bit-of_zero (t % 8))
is_in-codes_from t i (x ∷ bytes) = ground (
  arith,
  is_in-append t (codes_of_byte (i * 8) 8 x) (codes_from (i + 1) bytes),
  is_in-codes_of_byte t (i * 8) 8 x,
  is_in-codes_from t (i + 1) bytes,
  type_bit-first t i x bytes,
  type_bit-cons t i x bytes,
)

-- Whether a terminus announces a type: bit `t % 8` of byte `t / 8` of what GetPLDMTypes gives.
abbrev pub announces : Bytes → ℕ → Bool
announces types t = bit (t % 8) (get_or types (t / 8) 0)

-- The type codes are those whose bit is set in what GetPLDMTypes gives, and no others.
type_codes-announced :
    (types : Bytes) (t : ℕ)
    → is_in t (get_type_codes_from_supported_types types) ≡ announces types t
unfolding get_type_codes_from_supported_types
type_codes-announced types t = is_in-codes_from t 0 types ∙ ground arith

abbrev is_some {ℓ} : {A : Type ℓ} → Option A → Bool
is_some none = false
is_some (some a) = true

find-add_versions :
    (t u : ℕ) (o : Option (List Bytes)) (table : VersionSupportTable)
    → is_some (find t (add_versions u o table)) ≡ true
    → (is_some (find t table) || (t == u)) ≡ true
find-add_versions t u none table h = ground arith
find-add_versions t u (some v) table h = ground (arith, find-assign u t v table)

find-add_commands :
    (t u : ℕ) (v : Bytes) (o : Option Bytes) (table : CommandSupportTable)
    → is_some (find t (add_commands u v o table)) ≡ true
    → (is_some (find t table) || (t == u)) ≡ true
find-add_commands t u v none table h = ground arith
find-add_commands t u v (some c) table h = ground (arith, find-assign u t ((v, c) ∷ []) table)

version_table-from :
    (lib : BaseCodec) (eid t : ℕ) (types : List ℕ) (table : VersionSupportTable) (b : Bus)
    → is_some (find t (version_table_from lib eid types table b).1) ≡ true
    → (is_some (find t table) || is_in t types) ≡ true
unfolding version_table_from
version_table-from lib eid t [] table b h = ground arith
version_table-from lib eid t (u ∷ types) table b h =
    let r = get_pldm_versions lib eid u b in
    let table' = add_versions u r.1 table in
    ground (arith, version_table-from lib eid t types table' r.0 h, find-add_versions t u r.1 table)

command_table-from :
    (lib : BaseCodec) (eid t : ℕ) (versions : VersionSupportTable) (table : CommandSupportTable)
    (b : Bus)
    → is_some (find t (command_table_from lib eid versions table b).1) ≡ true
    → (is_some (find t table) || is_some (find t versions)) ≡ true
unfolding command_table_from find
command_table-from lib eid t [] table b h = ground arith
command_table-from lib eid t ((u, []) ∷ versions) table b h =
    ground (arith, command_table-from lib eid t versions table b h)
command_table-from lib eid t ((u, v ∷ vs) ∷ versions) table b h =
    let r = get_pldm_commands lib eid u v b in
    let table' = add_commands u v r.1 table in
    ground
      (arith, command_table-from lib eid t versions table' r.0 h, find-add_commands t u v r.1 table)

is_supported-find :
    (table : CommandSupportTable) (t cmd : ℕ)
    → is_supported table t cmd ≡ true
    → is_some (find t table) ≡ true
unfolding is_supported
is_supported-find table t cmd h = elim (Option-cases (find t table)) [
  | inl n ↦ ground (arith, n)
  | inr (a, n) ↦ rw n refl
]

-- A command counts as supported only if the terminus announced its PLDM type.
supported-announced :
    (lib : BaseCodec) (eid : ℕ) (types : Bytes) (b : Bus) (t cmd : ℕ)
    → let v = create_version_support_table lib eid types b in
      is_supported (create_command_support_table lib eid v.1 v.0).1 t cmd ≡ true
      → announces types t ≡ true
unfolding create_version_support_table create_command_support_table find
supported-announced lib eid types b t cmd h =
    let v = create_version_support_table lib eid types b in
    let c = create_command_support_table lib eid v.1 v.0 in
    let s = is_supported-find c.1 t cmd h in
    let k = command_table-from lib eid t v.1 [] v.0 s in
    let l = version_table-from lib eid t (get_type_codes_from_supported_types types) [] b k in
    ground (arith, type_codes-announced types t, l)
