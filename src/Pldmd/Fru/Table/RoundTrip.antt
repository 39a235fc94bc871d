-- ===== src/Pldmd/Fru/Table/RoundTrip.antt =====
-- pldmd/src/fru.cpp, parseTable: what is read of the bytes that records make.
use pmci.Prelude.{
  ℕ, zero, suc, ◌≤◌, ◌<◌, ◌≡◌, refl, ap, ◌∙◌, Bool, true, false, ◌&&◌, ◌||◌, List, [], ◌∷◌, ◌++◌,
  none, some, inl, inr, Bytes, arith, length, length-append, take, drop, ltb, leb, ◌==◌,
  if◌then◌else◌, Bool-cases,
}
use pmci.Prelude.Map.{assign}
use pmci.Pldmd.Fru.Table.{
  FruProperties, properties, wild_read, fru_field_parser_string, fru_field_parser_timestamp,
  fru_field_parser_u32, fru_general_field_types, parse_fru_field, field_of, fields_end, fields_wild,
  parse_fields, parse_records, parse_table, is_table_end,
}

abbrev FruField : Type 0
FruField = ℕ × Bytes

pub record FruRecord : Type 0 where
  pub low : ℕ
  pub high : ℕ
  pub record_type : ℕ
  pub encoding : ℕ
  pub fields : List FruField

abbrev put_fields : List FruField → Bytes
put_fields [] = []
put_fields ((type, value) ∷ fs) = type ∷ length value ∷ (value ++ put_fields fs)

abbrev pub put_record : FruRecord → Bytes
put_record r = r.low ∷ r.high ∷ r.record_type ∷ length r.fields ∷ r.encoding ∷ put_fields r.fields

abbrev pub put_records : List FruRecord → Bytes
put_records [] = []
put_records (r ∷ rs) = put_record r ++ put_records rs

-- More than one field, or a field that is not empty.
abbrev AllFilled : List FruRecord → Type 0
AllFilled [] = Unit {0}
AllFilled (r ∷ rs) = (2 < length (put_fields r.fields)) × AllFilled rs

abbrev pub is_general : FruRecord → Bool
is_general r = r.record_type == 1

-- A vendor IANA number of four bytes.
abbrev is_address : Bool → FruField → Bool
is_address general (type, value) = general && (type == 15) && (length value == 4)

-- What a field of a General record adds: types 1 to 13 have a text, of which the manufacturing date
-- is made from a time stamp, and an IANA number of another length is the empty text.
abbrev pub entry : Bool → FruField → FruProperties → FruProperties
entry false field props = props
entry true (type, value) props =
    if type == 6
    then assign type (fru_field_parser_timestamp value) props
    else if type == 15
    then assign type [] props
    else if leb 1 type && leb type 13
    then assign type (fru_field_parser_string value) props
    else props

abbrev pub entries : Bool → List FruField → FruProperties → FruProperties
entries general [] props = props
entries general (f ∷ fs) props = entries general fs (entry general f props)

abbrev any_address : Bool → List FruField → Bool
any_address general [] = false
any_address general (f ∷ fs) = is_address general f || any_address general fs

abbrev pub table_entries : List FruRecord → FruProperties → FruProperties
table_entries [] props = props
table_entries (r ∷ rs) props = table_entries rs (entries (is_general r) r.fields props)

abbrev has_address : List FruRecord → Bool
has_address [] = false
has_address (r ∷ rs) = any_address (is_general r) r.fields || has_address rs

field_of-entry :
    (g : Bool) (type : ℕ) (value : Bytes) (props : FruProperties)
    → field_of g type value props
      ≡ (if is_address g (type, value) then none else some (entry g (type, value) props))
unfolding field_of parse_fru_field fru_general_field_types fru_field_parser_u32
field_of-entry false type value props = refl
field_of-entry true type value props = ground arith

take_front : (v rest : Bytes) → take (length v) (v ++ rest) ≡ v
take_front [] rest = refl
take_front (x ∷ v) rest = rw (take_front v rest)

drop_front : (v rest : Bytes) → drop (length v) (v ++ rest) ≡ rest
drop_front [] rest = refl
drop_front (x ∷ v) rest = drop_front v rest

append_assoc : (xs ys zs : Bytes) → (xs ++ ys) ++ zs ≡ xs ++ (ys ++ zs)
append_assoc [] ys zs = refl
append_assoc (x ∷ xs) ys zs = rw (append_assoc xs ys zs)

field_step :
    (n : ℕ) (g : Bool) (type : ℕ) (value behind : Bytes) (props : FruProperties)
    → parse_fields (suc n) g (type ∷ length value ∷ (value ++ behind)) props ≡ (
        if is_address g (type, value)
        then fields_wild
        else parse_fields n g behind (entry g (type, value) props))
unfolding parse_fields
field_step n g type value behind props =
    let e : ltb (length (value ++ behind)) (length value) ≡ false =
      ground (arith, length-append value behind) in
    rw (parse_fields, take_front value behind, field_of-entry g type value props)
      (elim (Bool-cases (is_address g (type, value))) [
        | inl a ↦ rw (a, e) refl
        | inr a ↦ rw (a, e, drop_front value behind) refl
      ])

parse_fields-put :
    (g : Bool) (fs : List FruField) (rest : Bytes) (props : FruProperties)
    → parse_fields (length fs) g (put_fields fs ++ rest) props
      ≡ (if any_address g fs then fields_wild else fields_end (entries g fs props) rest)
parse_fields-put g [] rest props = unfold parse_fields in refl
parse_fields-put g ((type, value) ∷ fs) rest props =
    let e =
      ap (λ t. parse_fields (suc (length fs)) g (type ∷ length value ∷ t) props)
        (append_assoc value (put_fields fs) rest) in
    e
    ∙ field_step (length fs) g type value (put_fields fs ++ rest) props
    ∙ elim (Bool-cases (is_address g (type, value))) [
      | inl a ↦ rw a refl
      | inr a ↦ rw a (parse_fields-put g fs rest (entry g (type, value) props))
    ]

fields-some : (fs : List FruField) → 0 < length (put_fields fs) → (length fs == 0) ≡ false
fields-some [] h = absurd (omega arith)
fields-some (f ∷ fs) h = ground arith

record_step :
    (fuel : ℕ) (r : FruRecord) (behind : Bytes) (props : FruProperties)
    → 2 < length (put_fields r.fields)
    → parse_records (suc fuel) (put_record r ++ behind) props ≡ (
        if any_address (is_general r) r.fields
        then wild_read
        else parse_records fuel behind (entries (is_general r) r.fields props))
unfolding parse_records
record_step fuel r behind props h =
    let fs = put_fields r.fields in
    let k : is_table_end (put_record r ++ behind) ≡ false =
      unfold is_table_end in ground (arith, length-append fs behind, h) in
    let n = fields-some r.fields (omega (arith, h)) in
    let g = is_general r in
    rw (parse_records, k, n, parse_fields-put g r.fields behind props)
      (elim (Bool-cases (any_address g r.fields)) [ inl d ↦ rw d refl | inr d ↦ rw d refl ])

parse_records-end :
    (fuel : ℕ) (pad : Bytes) (props : FruProperties)
    → length pad ≤ 7
    → parse_records fuel pad props ≡ properties props
unfolding parse_records is_table_end
parse_records-end zero pad props h = refl
parse_records-end (suc fuel) [] props h = refl
parse_records-end (suc fuel) (a ∷ []) props h = refl
parse_records-end (suc fuel) (a ∷ b ∷ []) props h = refl
parse_records-end (suc fuel) (a ∷ b ∷ c ∷ []) props h = refl
parse_records-end (suc fuel) (a ∷ b ∷ c ∷ d ∷ []) props h = refl
parse_records-end (suc fuel) (a ∷ b ∷ c ∷ d ∷ e ∷ rest) props h =
    let k : leb (length (a ∷ b ∷ c ∷ d ∷ e ∷ rest)) 7 ≡ true = ground arith in
    rw (parse_records, is_table_end, k) refl

parse_records-put :
    (fuel : ℕ) (rs : List FruRecord) (pad : Bytes) (props : FruProperties)
    → length pad ≤ 7
    → AllFilled rs
    → length (put_records rs) ≤ fuel
    → parse_records fuel (put_records rs ++ pad) props
      ≡ (if has_address rs then wild_read else properties (table_entries rs props))
unfolding parse_records is_table_end
parse_records-put fuel [] pad props p a h = parse_records-end fuel pad props p
parse_records-put zero (r ∷ rs) pad props p a h = absurd (omega arith)
parse_records-put (suc fuel) (r ∷ rs) pad props p a h =
    let l = length-append (put_fields r.fields) (put_records rs) in
    let g = is_general r in
    ap (λ t. parse_records (suc fuel) t props) (append_assoc (put_record r) (put_records rs) pad)
    ∙ record_step fuel r (put_records rs ++ pad) props a.0
    ∙ elim (Bool-cases (any_address g r.fields)) [
      | inl d ↦ rw d refl
      | inr d ↦
          rw d
            (parse_records-put fuel rs pad (entries g r.fields props) p a.1 (omega (arith, l, a.0)))
    ]

-- From the bytes of records, each with two fields or with one that is not empty, and at most seven
-- bytes behind them, parseTable gives the properties of the General records' fields, a later field
-- taking the place of an earlier one of its type. If a General record has a vendor IANA number of
-- four bytes, it reads from a wild address instead.
pub parse_table-put :
    (rs : List FruRecord) (pad : Bytes)
    → length pad ≤ 7
    → AllFilled rs
    → parse_table (put_records rs ++ pad)
      ≡ (if has_address rs then wild_read else properties (table_entries rs []))
unfolding parse_table
parse_table-put rs pad p a =
    parse_records-put (length (put_records rs ++ pad)) rs pad [] p a
      (omega (arith, length-append (put_records rs) pad))
