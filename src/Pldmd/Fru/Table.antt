-- ===== src/Pldmd/Fru/Table.antt =====
-- pldmd/src/fru.cpp and pldmd/include/fru.hpp, class PLDMFRUTable: the parser of a FRU table. A
-- pointer into the table is the list of the bytes from it to the end. A property is kept under the
-- number of its field type, each of which has one name.
pub mod RoundTrip
use pmci.Prelude.{
  ℕ, zero, suc, ◌+◌, Bool, true, false, ◌&&◌, ◌||◌, List, [], ◌∷◌, ◌++◌, Option, none, some, Bytes,
  length, map, ltb, leb, get_or, take, drop, ◌==◌, if◌then◌else◌,
}
use pmci.Prelude.Map.{Map, assign}
use pmci.Pldmd.PackageImage.Components.{u16_at}
use pmci.Pldmd.Pdr.Names.{text, to_string}

abbrev pub FruProperties : Type 0
FruProperties = Map Bytes

-- What a run of the parser ends with. `overrun` reads behind the table, and `wild_read` takes the
-- four bytes of a number for an address and reads there.
pub data Parsed : Type 0 where
  properties : FruProperties → Parsed
  refused : Parsed
  overrun : Parsed
  wild_read : Parsed

-- `isprint` in the locale "C".
abbrev is_print : ℕ → Bool
is_print c = leb 32 c && ltb c 127

unfoldable pub fru_field_parser_string : Bytes → Bytes
fru_field_parser_string value = map (λ c. if is_print c then c else 32) value

abbrev stamp_text : Bytes → Bytes
stamp_text v =
    to_string (u16_at 1 v)
    ++ (text "-"
        ++ (to_string (get_or v 3 0)
            ++ (text "-"
                ++ (to_string (get_or v 4 0)
                    ++ (text " "
                        ++ (to_string (get_or v 5 0)
                            ++ (text ":"
                                ++ (to_string (get_or v 6 0)
                                    ++ (text ":" ++ to_string (get_or v 7 0))))))))))

-- One value in its range is enough for the whole stamp to be written.
abbrev is_stamp : Bytes → Bool
is_stamp v =
    (leb 1 (get_or v 3 0) && leb (get_or v 3 0) 12)
    || (leb 1 (get_or v 4 0) && leb (get_or v 4 0) 31)
    || ltb (get_or v 5 0) 24
    || ltb (get_or v 6 0) 60
    || ltb (get_or v 7 0) 60

unfoldable pub fru_field_parser_timestamp : Bytes → Bytes
fru_field_parser_timestamp value =
    if length value == 13 then (if is_stamp value then stamp_text value else []) else []

-- The number is used as a pointer, if the length is right.
unfoldable pub fru_field_parser_u32 : Bytes → Option Bytes
fru_field_parser_u32 value = if length value == 4 then none else some []

-- How the field types of a General record are read: as a string, a time stamp or a number; `other`
-- has no entry in the map.
pub data FieldParser : Type 0 where
  as_string : FieldParser
  as_timestamp : FieldParser
  as_u32 : FieldParser
  other : FieldParser

unfoldable pub fru_general_field_types : ℕ → FieldParser
fru_general_field_types type =
    if type == 6
    then as_timestamp
    else if type == 15
    then as_u32
    else if leb 1 type && leb type 13
    then as_string
    else other

-- No properties: the program reads from a wild address.
abbrev parsed_as : FieldParser → ℕ → Bytes → FruProperties → Option FruProperties
parsed_as as_string type value props = some (assign type (fru_field_parser_string value) props)
parsed_as as_timestamp type value props =
    some (assign type (fru_field_parser_timestamp value) props)
parsed_as as_u32 type value props = elim (fru_field_parser_u32 value) [
  | none ↦ none
  | some s ↦ some (assign type s props)
]
parsed_as other type value props = some props

unfoldable pub parse_fru_field : ℕ → Bytes → FruProperties → Option FruProperties
parse_fru_field type value props = parsed_as (fru_general_field_types type) type value props

unfoldable pub is_table_end : Bytes → Bool
is_table_end table = leb (length table) 7

-- A General record's fields are parsed, the others' passed over.
unfoldable pub field_of : Bool → ℕ → Bytes → FruProperties → Option FruProperties
field_of true type value props = parse_fru_field type value props
field_of false type value props = some props

-- How the fields of a record end: with the properties and what is behind them, or badly.
pub data Fields : Type 0 where
  fields_end : FruProperties → Bytes → Fields
  fields_overrun : Fields
  fields_wild : Fields

-- The fields that are left. A pointer behind the table's end is read through later at the latest.
unfoldable pub parse_fields : ℕ → Bool → Bytes → FruProperties → Fields
parse_fields zero is_general bytes props = fields_end props bytes
parse_fields (suc n) is_general (type ∷ len ∷ rest) props =
    elim (field_of is_general type (take len rest) props) [
      | none ↦ if ltb (length rest) len then fields_overrun else fields_wild
      | some props' ↦
          let next = parse_fields n is_general (drop len rest) props' in
          if ltb (length rest) len then fields_overrun else next
    ]
parse_fields (suc n) is_general _ props = fields_overrun

abbrev fru_record_type_general : ℕ
fru_record_type_general = 1

-- The loop of parseTable: each record takes bytes, so their number is enough fuel.
unfoldable pub parse_records : ℕ → Bytes → FruProperties → Parsed
unfolding is_table_end
parse_records zero table props = properties props
parse_records (suc fuel) (a ∷ b ∷ record_type ∷ num ∷ encoding ∷ tlvs) props =
    elim (is_table_end (a ∷ b ∷ record_type ∷ num ∷ encoding ∷ tlvs)) [
      | true ↦ properties props
      | false ↦ elim (num == 0) [
        | true ↦ refused
        | false ↦ elim (parse_fields num (record_type == fru_record_type_general) tlvs props) [
          | fields_end props' rest ↦ parse_records fuel rest props'
          | fields_overrun ↦ overrun
          | fields_wild ↦ wild_read
        ]
      ]
    ]
parse_records (suc fuel) table props = properties props

unfoldable pub parse_table : Bytes → Parsed
unfolding parse_records
parse_table table = parse_records (length table) table []
