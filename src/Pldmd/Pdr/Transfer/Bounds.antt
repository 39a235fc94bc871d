-- ===== src/Pldmd/Pdr/Transfer/Bounds.antt =====
-- pldmd/src/pdr_manager.cpp, getDevicePDRRepo: how much is asked for, and what is kept.
use pmci.Prelude.{
  ℕ, zero, suc, ◌+◌, ◌*◌, ◌≤◌, ◌<◌, ◌≡◌, ◌⊎◌, ap, ◌∙◌, sym, ◌||◌, [], ◌∷◌, ◌++◌, Option, none, some,
  Bytes, arith, length, ltb, ◌==◌, Bool-cases, Option-cases, inl, inr,
}
use pmci.Prelude.Map.{Map, find, emplace}
use pmci.Pldmd.PackageImage.Components.{u32_at}
use pmci.Pldmd.Transport.Bus.{Bus, create_instance_id, validate_pldm_req_encode}
use pmci.Pldmd.Transport.Exchange.{send_receive_pldm_message}
use pmci.Pldmd.Transport.Retry.{send_receive-Bounded}
use pmci.Pldmd.Base.Requests.{retry_count}
use pmci.Pldmd.Base.Versions.Fetch.{Bounded-length}
use pmci.Pldmd.Pdr.Transfer.{
  PdrCodec, PdrRequest, RepositoryInfo, exchange, get_part, next_request, first_request, pdr_rounds,
  get_device_pdr_record, keep_record, repo_rounds, fetch_tries, fetch_records,
}
use pmci.Pldmd.Pdr.Transfer.Parts.{pdr_record-Assembled}

wire-exchange :
    (tid : ℕ) (m : ℕ × Bytes) (b : Bus) → length (exchange tid m b).0.wire ≤ length b.wire + 3
unfolding exchange
wire-exchange tid (rc, req) b = elim (Bool-cases (validate_pldm_req_encode rc)) [
  | inl h ↦ rw h (
      omega (
        arith,
        Bounded-length 3 b (send_receive_pldm_message tid retry_count req none b)
            (send_receive-Bounded b tid retry_count req none),
      ))
  | inr h ↦ rw h (omega arith)
]

wire-get_part :
    (lib : PdrCodec) (tid : ℕ) (req : PdrRequest) (b : Bus)
    → length (get_part lib tid req b).0.wire ≤ length b.wire + 3
unfolding get_part create_instance_id
wire-get_part lib tid req b =
    let (b', instance_id) = create_instance_id tid b in
    wire-exchange tid (lib.encode_pdr_req instance_id req) b'

wire-pdr_rounds :
    (lib : PdrCodec) (tid largest left : ℕ) (req : PdrRequest) (acc : Bytes) (b : Bus)
    → length (pdr_rounds lib tid largest left req acc b).0.wire ≤ length b.wire + 3 * left
unfolding pdr_rounds
wire-pdr_rounds lib tid largest zero req acc b = omega arith
wire-pdr_rounds lib tid largest (suc left) req acc b =
    let r = get_part lib tid req b in
    let l = wire-get_part lib tid req b in
    elim (Option-cases r.1) [
      | inl n ↦ rw (n, pdr_rounds) (omega (arith, l))
      | inr (p, n) ↦
          let whole = acc ++ p.record_data in
          let ih = wire-pdr_rounds lib tid largest left (next_request p whole req) whole r.0 in
          rw (n, pdr_rounds) (ground (arith, l, ih))
    ]

wire-record :
    (lib : PdrCodec) (tid largest handle : ℕ) (b : Bus)
    → length (get_device_pdr_record lib tid largest handle b).0.wire ≤ length b.wire + 300
unfolding get_device_pdr_record
wire-record lib tid largest handle b =
    wire-pdr_rounds lib tid largest 100 (first_request handle) [] b

wire-repo_rounds :
    (lib : PdrCodec) (tid largest left handle : ℕ) (m : Map Bytes) (b : Bus)
    → length (repo_rounds lib tid largest left handle m b).0.wire ≤ length b.wire + 300 * left
unfolding repo_rounds
wire-repo_rounds lib tid largest zero handle m b = omega arith
wire-repo_rounds lib tid largest (suc left) handle m b =
    let r = get_device_pdr_record lib tid largest handle b in
    let l = wire-record lib tid largest handle b in
    elim (Option-cases r.1) [
      | inl n ↦ rw (n, repo_rounds) (omega (arith, l))
      | inr ((pdr_record, next), n) ↦
          let ih = wire-repo_rounds lib tid largest left next (keep_record pdr_record m) r.0 in
          rw (n, repo_rounds) (ground (arith, l, ih))
    ]

wire-fetch_tries :
    (lib : PdrCodec) (tid largest count tries : ℕ) (b : Bus)
    → length (fetch_tries lib tid largest count tries b).0.wire
      ≤ length b.wire + tries * (300 * count)
unfolding fetch_tries
wire-fetch_tries lib tid largest count zero b = omega arith
wire-fetch_tries lib tid largest count (suc tries) b =
    let r = repo_rounds lib tid largest count 0 [] b in
    let l = wire-repo_rounds lib tid largest count 0 [] b in
    elim (Option-cases r.1) [
      | inl n ↦
          let ih = wire-fetch_tries lib tid largest count tries r.0 in
          rw (n, fetch_tries) (grind (arith, l, ih))
      | inr (m, n) ↦ rw (n, fetch_tries) (grind (arith, l))
    ]

-- Whatever the terminus answers, its repository is fetched with 900 requests at most for each record
-- that it announces: three tries, of a hundred parts, of three requests each.
pub wire-fetch_records :
    (lib : PdrCodec) (tid : ℕ) (info : RepositoryInfo) (b : Bus)
    → length (fetch_records lib tid info b).0.wire ≤ length b.wire + 900 * info.record_count
unfolding fetch_records
wire-fetch_records lib tid info b =
    let l = wire-fetch_tries lib tid info.largest_record_size info.record_count 3 b in
    ground (arith, l)

-- A record that is kept has bytes, is no longer than the largest one, and stands under the handle in
-- its header.
abbrev pub IsKept : ℕ → Map Bytes → Type 0
IsKept largest m =
    (handle : ℕ) (pdr_record : Bytes)
    → find handle m ≡ some pdr_record
    → (u32_at 0 pdr_record ≡ handle) × (0 < length pdr_record) × (length pdr_record ≤ largest)

pub find-emplace_cases :
    (k j : ℕ) (v w : Bytes) (m : Map Bytes)
    → find j (emplace k v m) ≡ some w
    → ((j ≡ k) × (v ≡ w)) ⊎ (find j m ≡ some w)
unfolding find emplace
find-emplace_cases k j v w [] h = ground arith
find-emplace_cases k j v w ((i, u) ∷ m) h = elim (Bool-cases (ltb k i)) [
  | inl a ↦ ground (arith, a, h)
  | inr a ↦ elim (Bool-cases (k == i)) [
    | inl c ↦ inr (ground (arith, a, c, h))
    | inr c ↦ elim (Bool-cases (i == j)) [
      | inl d ↦ inr (ground (arith, a, c, d, h))
      | inr d ↦
          let g : find j (emplace k v m) ≡ some w = ground (arith, a, c, d, h) in
          elim (find-emplace_cases k j v w m g) [
            | inl e ↦ inl e
            | inr e ↦ inr (ground (arith, d, e))
          ]
    ]
  ]
]

keep_record-IsKept :
    (largest : ℕ) (pdr_record : Bytes) (m : Map Bytes)
    → length pdr_record ≤ largest
    → IsKept largest m
    → IsKept largest (keep_record pdr_record m)
unfolding keep_record
keep_record-IsKept largest [] m l k = k
keep_record-IsKept largest (x ∷ xs) m l k = λ handle v h.
    elim (find-emplace_cases (u32_at 0 (x ∷ xs)) handle (x ∷ xs) v m h) [
      | inl (e, f) ↦ (
        ap (u32_at 0) (sym f) ∙ sym e,
        omega (arith, ap (λ t. length t) f),
        omega (arith, ap (λ t. length t) f),
      )
      | inr e ↦ k handle v e
    ]

IsKept-nil : (largest : ℕ) → IsKept largest []
unfolding find
IsKept-nil largest = λ handle v h. cc

abbrev AllKept : ℕ → Option (Map Bytes) → Type 0
AllKept largest none = Unit {0}
AllKept largest (some m) = IsKept largest m

repo_rounds-AllKept :
    (lib : PdrCodec) (tid largest left handle : ℕ) (m : Map Bytes) (b : Bus)
    → IsKept largest m
    → AllKept largest (repo_rounds lib tid largest left handle m b).1
unfolding repo_rounds
repo_rounds-AllKept lib tid largest zero handle m b k = k
repo_rounds-AllKept lib tid largest (suc left) handle m b k =
    let r = get_device_pdr_record lib tid largest handle b in
    elim (Option-cases r.1) [
      | inl n ↦ rw (n, repo_rounds) tt
      | inr ((pdr_record, next), n) ↦
          let a =
            (pdr_record-Assembled lib tid largest handle b r.0 (pdr_record, next)).0
              (ap (λ t. (r.0, t)) n) in
          let k' = keep_record-IsKept largest pdr_record m a.fits k in
          rw (n, repo_rounds)
            (elim (Bool-cases (next == 0 || left == 0)) [
              | inl z ↦ rw z k'
              | inr z ↦
                  rw z (
                    repo_rounds-AllKept lib tid largest left next (keep_record pdr_record m) r.0 k')
            ])
    ]

fetch_tries-AllKept :
    (lib : PdrCodec) (tid largest count tries : ℕ) (b : Bus)
    → AllKept largest (fetch_tries lib tid largest count tries b).1
unfolding fetch_tries
fetch_tries-AllKept lib tid largest count zero b = tt
fetch_tries-AllKept lib tid largest count (suc tries) b =
    let r = repo_rounds lib tid largest count 0 [] b in
    let k = repo_rounds-AllKept lib tid largest count 0 [] b (IsKept-nil largest) in
    elim (Option-cases r.1) [
      | inl n ↦ rw (n, fetch_tries) (fetch_tries-AllKept lib tid largest count tries r.0)
      | inr (m, n) ↦ rw (n, fetch_tries) (rw n at k)
    ]

pub fetch_records-IsKept :
    (lib : PdrCodec) (tid : ℕ) (info : RepositoryInfo) (b : Bus) (m : Map Bytes)
    → (fetch_records lib tid info b).1 ≡ some m
    → IsKept info.largest_record_size m
unfolding fetch_records
fetch_records-IsKept lib tid info b m h =
    let k = fetch_tries-AllKept lib tid info.largest_record_size info.record_count 3 b in
    let e : (fetch_tries lib tid info.largest_record_size info.record_count 3 b).1 ≡ some m =
      ground (arith, h) in
    rw e at k
