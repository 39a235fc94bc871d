-- ===== src/Pldmd/Base/Versions/Fetch.antt =====
-- pldmd/src/base.cpp, getPLDMVersions: how many requests it sends, and what it makes of the data.
use pmci.Prelude.{
  ℕ, zero, suc, ◌+◌, ◌-◌, ◌*◌, ◌/◌, ◌%◌, ◌^◌, ◌≤◌, ◌<◌, ◌≡◌, refl, List, [], ◌∷◌, ◌++◌, Option,
  none, some, Bytes, arith, length, take, get_or, ap, ◌∙◌, Bool-cases, Option-cases, inl, inr,
  length-append,
}
use native.Mathlib.Nat.{suc-add}
use pmci.Pldmd.PackageImage.Components.{u32_at}
use pmci.Pldmd.Transport.Bus.{Bus, create_instance_id}
use pmci.Pldmd.Transport.Exchange.{send_receive_pldm_message}
use pmci.Pldmd.Transport.Retry.{Bounded, send_receive-Bounded}
use pmci.Pldmd.Base.Requests.{
  BaseCodec, get_version, default_tid, retry_count, validate_base_req_encode, send_encoded,
}
use pmci.Pldmd.Base.Versions.{
  is_last, version_part, version_rounds, versions_of, parse_versions, parse_fetched,
  get_pldm_versions,
}

pub Bounded-length :
    (n : ℕ) (b : Bus) (r : Bus × Option Bytes) → Bounded n b r → length r.0.wire ≤ length b.wire + n
Bounded-length n b (c, none) h = h
Bounded-length n b (c, some resp) h = h.0

wire-send_encoded :
    (eid : ℕ) (m : ℕ × Bytes) (b : Bus) → length (send_encoded eid m b).0.wire ≤ length b.wire + 3
unfolding send_encoded
wire-send_encoded eid (rc, msg) b = elim (Bool-cases (validate_base_req_encode rc)) [
  | inl h ↦ rw h (
      omega (
        arith,
        Bounded-length 3 b (send_receive_pldm_message default_tid retry_count msg (some eid) b)
            (send_receive-Bounded b default_tid retry_count msg (some eid)),
      ))
  | inr h ↦ rw h (omega arith)
]

wire-version_part :
    (lib : BaseCodec) (eid id type handle flag : ℕ) (b : Bus)
    → length (version_part lib eid id type handle flag b).0.wire ≤ length b.wire + 3
unfolding version_part
wire-version_part lib eid id type handle flag b =
    wire-send_encoded eid (lib.encode_req id (get_version handle flag type)) b

wire-version_rounds :
    (lib : BaseCodec) (eid id type left handle op flag : ℕ) (buffer : Bytes) (b : Bus)
    → length (version_rounds lib eid id type left handle op flag buffer b).0.wire
      ≤ length b.wire + 3 * left
unfolding version_rounds
wire-version_rounds lib eid id type zero handle op flag buffer b = omega arith
wire-version_rounds lib eid id type (suc left) handle op flag buffer b =
    elim (Bool-cases (is_last flag)) [
      | inl h ↦ rw (h, version_rounds) (omega arith)
      | inr h ↦
          let r = version_part lib eid id type handle op b in
          let l = wire-version_part lib eid id type handle op b in
          elim (Option-cases r.1) [
            | inl n ↦ rw (h, version_rounds) (rw n (omega (arith, l)))
            | inr (p, n) ↦
                let ih =
                  wire-version_rounds lib eid id type left p.transfer_handle 0 p.transfer_flag
                    (buffer ++ p.response_version) r.0 in
                rw (h, version_rounds) (rw n (omega (arith, l, ih)))
          ]
    ]

parse_fetched-bus : (lib : BaseCodec) (r : Bus × Option Bytes) → (parse_fetched lib r).0 ≡ r.0
unfolding parse_fetched
parse_fetched-bus lib (b, none) = refl
parse_fetched-bus lib (b, some buffer) = refl

-- However the terminus answers, the versions of a type are fetched with 51 requests at most: 17
-- transfers of three tries each.
pub wire-get_pldm_versions :
    (lib : BaseCodec) (eid type : ℕ) (b : Bus)
    → length (get_pldm_versions lib eid type b).0.wire ≤ length b.wire + 51
unfolding get_pldm_versions create_instance_id
wire-get_pldm_versions lib eid type b =
    let (b', id) = create_instance_id default_tid b in
    let r = version_rounds lib eid id type 17 0 1 1 [] b' in
    omega (
      arith,
      wire-version_rounds lib eid id type 17 0 1 1 [] b',
      ap (λ c. length c.wire) (parse_fetched-bus lib r),
    )

-- A version by its four bytes, and the data of a list of versions: each is sent last byte first.
abbrev pub Version : Type 0
Version = ℕ × ℕ × ℕ × ℕ

abbrev pub version_bytes : List Version → List Bytes
version_bytes [] = []
version_bytes ((a, b, c, d) ∷ vs) = (a ∷ b ∷ c ∷ d ∷ []) ∷ version_bytes vs

abbrev pub put_versions : List Version → Bytes
put_versions [] = []
put_versions ((a, b, c, d) ∷ vs) = d ∷ c ∷ b ∷ a ∷ put_versions vs

abbrev pub put_u32 : ℕ → Bytes
put_u32 n = n % 256 ∷ n / 256 % 256 ∷ n / 65536 % 256 ∷ n / 16777216 ∷ []

length-put_versions : (vs : List Version) → length (put_versions vs) ≡ 4 * length vs
length-put_versions [] = omega arith
length-put_versions ((a, b, c, d) ∷ vs) = omega (arith, length-put_versions vs)

versions_of-put : (vs : List Version) → versions_of (put_versions vs) ≡ version_bytes vs
unfolding versions_of
versions_of-put [] = refl
versions_of-put ((a, b, c, d) ∷ vs) = ap (◌∷◌ (a ∷ b ∷ c ∷ d ∷ [])) (versions_of-put vs)

take-append : (xs ys : Bytes) → take (length xs) (xs ++ ys) ≡ xs
take-append [] ys = refl
take-append (x ∷ xs) ys = ap (◌∷◌ x) (take-append xs ys)

get_or-append : (xs ys : Bytes) (i : ℕ) → get_or (xs ++ ys) (length xs + i) 0 ≡ get_or ys i 0
get_or-append [] ys i = ap (λ k. get_or ys k 0) (omega arith)
get_or-append (x ∷ xs) ys i = rw suc-add (get_or-append xs ys i)

u32_at-append : (xs ys : Bytes) → u32_at (length xs) (xs ++ ys) ≡ u32_at 0 ys
u32_at-append xs ys =
    let g : (i : ℕ) → get_or (xs ++ ys) (length xs + i) 0 ≡ get_or ys i 0 = get_or-append xs ys in
    let z : get_or (xs ++ ys) (length xs) 0 ≡ get_or ys 0 0 =
      ap (λ k. get_or (xs ++ ys) k 0) (omega arith) ∙ g 0 in
    let t : get_or (xs ++ ys) (length xs + 2 + 1) 0 ≡ get_or ys 3 0 =
      ap (λ k. get_or (xs ++ ys) k 0) (omega arith) ∙ g 3 in
    omega (arith, z, g 1, g 2, t)

u32_at-put_u32 : (n : ℕ) → n < 2 ^ 32 → u32_at 0 (put_u32 n) ≡ n
u32_at-put_u32 n h = omega arith

parse_versions-data :
    (crc32 : Bytes → ℕ) (d : Bytes)
    → crc32 d < 2 ^ 32
    → 4 ≤ length d
    → length d % 4 ≡ 0
    → parse_versions crc32 (d ++ put_u32 (crc32 d)) ≡ some (versions_of d)
unfolding parse_versions
parse_versions-data crc32 d h l m =
    let k = put_u32 (crc32 d) in
    let n = length-append d k in
    let e : length (d ++ k) - 4 ≡ length d = omega (arith, n) in
    let u : u32_at (length d) (d ++ k) ≡ crc32 d = u32_at-append d k ∙ u32_at-put_u32 (crc32 d) h in
    rw (e, take-append d k) (ground (arith, u, n))

-- With a checksum of 32 bits, the data of one or more versions with their checksum behind them give
-- back those versions.
pub parse_versions-put :
    (crc32 : Bytes → ℕ) (v : Version) (vs : List Version)
    → ((bytes : Bytes) → crc32 bytes < 2 ^ 32)
    → parse_versions crc32 (put_versions (v ∷ vs) ++ put_u32 (crc32 (put_versions (v ∷ vs))))
      ≡ some (version_bytes (v ∷ vs))
parse_versions-put crc32 v vs h =
    let d = put_versions (v ∷ vs) in
    let l = length-put_versions (v ∷ vs) in
    parse_versions-data crc32 d (h d) (omega (arith, l)) (omega (arith, l))
    ∙ ap some (versions_of-put (v ∷ vs))
