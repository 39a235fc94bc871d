-- ===== src/Pldmd/Pdr/Names.antt =====
-- pldmd/src/pdr_manager.cpp: the auxiliary names of entities, sensors and effecters. A text is the
-- list of its bytes.
pub mod English
pub mod RoundTrip
pub mod Shared
use Prim.Native.Char.{code}
use Prim.Native.String.{String}
use pmci.Prelude.{
  ℕ, zero, suc, ◌+◌, ◌*◌, ◌/◌, ◌%◌, ◌⊎◌, inl, inr, Bool, true, false, ◌&&◌, ◌||◌, not, List, [],
  ◌∷◌, ◌++◌, Option, none, some, Bytes, length, get_or, drop, ltb, leb, ◌==◌, if◌then◌else◌,
}
use pmci.Prelude.Map.{Map, assign}
use pmci.Pldmd.PackageImage.Components.{u16_at}
use pmci.Pldmd.Pdr.Association.{Entity, same_entity}

abbrev pub text : String → Bytes
text String.[] = []
text (String.◌∷◌ c s) = code c ∷ text s

-- `std::to_string`; a number has fewer digits than its value plus one.
abbrev digits_of : ℕ → ℕ → Bytes → Bytes
digits_of zero n acc = acc
digits_of (suc fuel) n acc =
    let more = digits_of fuel (n / 10) ((48 + n % 10) ∷ acc) in
    if ltb n 10 then (48 + n) ∷ acc else more

unfoldable pub to_string : ℕ → Bytes
to_string n = digits_of (n + 1) n []

-- What the search for a name ends with. `overrun` reads behind the record's last byte, and
-- `range_error` is the exception of the conversion to UTF-8.
pub data AuxName : Type 0 where
  named : Bytes → AuxName
  unnamed : AuxName
  overrun : AuxName
  range_error : AuxName

-- The bytes up to the terminating null, or none if there is no null.
unfoldable pub c_string : Bytes → Option Bytes
c_string [] = none
c_string (x ∷ xs) =
    if x == 0 then some [] else (elim (c_string xs) [ none ↦ none | some s ↦ some (x ∷ s) ])

-- The same with code units of two bytes, each given as the number that it is in big endian.
unfoldable pub u16_string : Bytes → Option (List ℕ)
u16_string [] = none
u16_string (x ∷ []) = none
u16_string (x ∷ y ∷ xs) =
    if x * 256 + y == 0
    then some []
    else (elim (u16_string xs) [ none ↦ none | some s ↦ some ((x * 256 + y) ∷ s) ])

abbrev pub max_str_len : ℕ
max_str_len = 64

abbrev is_high : ℕ → Bool
is_high u = leb 0xd800 u && ltb u 0xdc00

abbrev is_low : ℕ → Bool
is_low u = leb 0xdc00 u && ltb u 0xe000

-- Surrogates stand in pairs, the high one first.
unfoldable pub is_utf16 : List ℕ → Bool
is_utf16 [] = true
is_utf16 (u ∷ []) = not (is_high u || is_low u)
is_utf16 (u ∷ v ∷ us) =
    if is_high u then is_low v && is_utf16 us else not (is_low u) && is_utf16 (v ∷ us)

-- The characters that `[a-zA-Z0-9_/]` matches.
abbrev is_kept : ℕ → Bool
is_kept u =
    (leb 97 u && leb u 122)
    || (leb 65 u && leb u 90)
    || (leb 48 u && leb u 57)
    || (u == 95)
    || (u == 47)

-- Each run of other characters becomes an underscore. `in_run` says that one has been written.
unfoldable pub format_name : Bool → List ℕ → Bytes
format_name in_run [] = []
format_name in_run (u ∷ us) =
    let rest = format_name (not (is_kept u)) us in
    if is_kept u then u ∷ rest else if in_run then rest else 95 ∷ rest

abbrev same_bytes : Bytes → Bytes → Bool
same_bytes [] [] = true
same_bytes (x ∷ xs) (y ∷ ys) = (x == y) && same_bytes xs ys
same_bytes _ _ = false

abbrev pub is_english : Bytes → Bool
is_english tag = same_bytes tag (text "en")

unfoldable pub english_name : List ℕ → AuxName
unfolding is_utf16 format_name
english_name units =
    let name = format_name false units in
    if not (is_utf16 units)
    then range_error
    else if same_bytes name (text "_")
    then unnamed
    else named name

-- A string that is read, and not longer than `maxStrLen`.
abbrev limited : {A : Type 0} → Option (List A) → AuxName ⊎ List A
limited none = inl overrun
limited (some s) = if ltb max_str_len (length s) then inl unnamed else inr s

-- The names that are left, and the bytes from `next` to the end of the record: `advanced` is below
-- `auxNamesLen` while there are any.
unfoldable pub get_aux_name : ℕ → Bytes → AuxName
unfolding c_string u16_string
get_aux_name zero names = unnamed
get_aux_name (suc count) [] = unnamed
get_aux_name (suc count) (x ∷ xs) = elim (limited (c_string (x ∷ xs))) [
  | inl r ↦ r
  | inr tag ↦
      let next = drop (length tag + 1) (x ∷ xs) in
      elim (limited (u16_string next)) [
        | inl r ↦ r
        | inr units ↦
            let others = get_aux_name count (drop (length units * 2 + 2) next) in
            if is_english tag then english_name units else others
      ]
]

-- A map whose keys are entities.
abbrev pub EntityMap : Type 0
EntityMap = List (Entity × Bytes)

unfoldable pub find_entity : Entity → EntityMap → Option Bytes
find_entity e [] = none
find_entity e ((f, v) ∷ m) = if same_entity f e then some v else find_entity e m

-- An entry that is there stays.
unfoldable pub emplace_entity : Entity → Bytes → EntityMap → EntityMap
emplace_entity e v [] = (e, v) ∷ []
emplace_entity e v ((f, w) ∷ m) =
    if same_entity f e then (f, w) ∷ m else (f, w) ∷ emplace_entity e v m

-- The loop over a range of instances, up to `last`, which is computed as an int. The uint16_t
-- `instance` and `count` wrap around. Without enough rounds there is no result.
unfoldable pub share_name : ℕ → ℕ → ℕ → ℕ → Bytes → Entity → EntityMap → Option EntityMap
share_name zero instance last count name e m = none
share_name (suc fuel) instance last count name e m =
    let rest =
      share_name fuel ((instance + 1) % 65536) last ((count + 1) % 65536) name e
        (emplace_entity e (name ++ (text "_" ++ to_string count)) m) in
    if leb instance last then rest else some m

-- What parsing a record leaves: the names, an exception or a read outside the record, or, where the
-- rounds do not suffice, no result.
pub data Named : Type 0 where
  names : EntityMap → Named
  failed : AuxName → Named
  endless : Named

abbrev pub shared_result : Option EntityMap → Named
shared_result none = endless
shared_result (some m) = names m

unfoldable pub entity_named : ℕ → Entity → ℕ → AuxName → EntityMap → Named
entity_named fuel e shared unnamed m = names m
entity_named fuel e shared overrun m = failed overrun
entity_named fuel e shared range_error m = failed range_error
entity_named fuel e shared (named name) m =
    if shared == 0
    then names (emplace_entity e name m)
    else shared_result
        (share_name fuel e.entity_instance_num (e.entity_instance_num + shared) 0 name e m)

abbrev pub entity_at : ℕ → Bytes → Entity
entity_at i pdr_data = record {
  entity_type = u16_at i pdr_data;
  entity_instance_num = u16_at (i + 2) pdr_data;
  entity_container_id = u16_at (i + 4) pdr_data;
}

-- The rounds are for the loop over a range of instances.
unfoldable pub parse_entity_aux_names_pdr : ℕ → Bytes → EntityMap → Named
unfolding entity_named
parse_entity_aux_names_pdr fuel pdr_data m =
    if leb 18 (length pdr_data)
    then entity_named fuel (entity_at 10 pdr_data) (get_or pdr_data 16 0)
        (get_aux_name (get_or pdr_data 17 0) (drop 18 pdr_data)) m
    else names m

-- The name of a sensor or an effecter carries the TID.
unfoldable pub name_with_tid : ℕ → ℕ → AuxName → Map Bytes → Option (Map Bytes)
name_with_tid tid id (named name) m = some (assign id (name ++ (text "_" ++ to_string tid)) m)
name_with_tid tid id unnamed m = some m
name_with_tid tid id overrun m = none
name_with_tid tid id range_error m = none

-- Both records have the same layout. Nothing comes back where the source throws or reads outside.
unfoldable pub parse_aux_names_pdr : ℕ → Bytes → Map Bytes → Option (Map Bytes)
unfolding name_with_tid
parse_aux_names_pdr tid pdr_data m =
    if ltb (length pdr_data) 17
    then some m
    else name_with_tid tid (u16_at 12 pdr_data)
        (get_aux_name (get_or pdr_data 15 0) (drop 16 pdr_data)) m
