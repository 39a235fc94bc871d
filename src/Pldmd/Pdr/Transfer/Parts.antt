-- ===== src/Pldmd/Pdr/Transfer/Parts.antt =====
-- pldmd/src/pdr_manager.cpp, getDevicePDRRecord: a record is its parts put together.
use pmci.Prelude.{
  ℕ, zero, suc, ◌≤◌, ◌<◌, ◌≡◌, ◌↔◌, refl, ap, ◌∙◌, sym, Bool, true, false, not, ◌||◌, List, [], ◌∷◌,
  ◌++◌, Option, none, some, Bytes, arith, length, ltb, ◌==◌, ==→eq, Bool-cases, Option-cases, inl,
  inr, if◌then◌else◌, length-append,
}
use pmci.Pldmd.Transport.Bus.{Bus}
use pmci.Pldmd.Base.Versions.{is_last}
use pmci.Pldmd.Pdr.Transfer.{
  PdrCodec, PdrPart, PdrRequest, get_part, passes_crc, next_request, first_request, pdr_rounds,
  get_device_pdr_record,
}

-- The parts that the terminus gives, one request after the other, from a bus to another.
abbrev pub Serves : PdrCodec → ℕ → PdrRequest → Bytes → Bus → List PdrPart → Bus → Type 0
Serves lib tid req acc b [] b' = b ≡ b'
Serves lib tid req acc b (p ∷ ps) b' =
    let r = get_part lib tid req b in
    let whole = acc ++ p.record_data in
    (r.1 ≡ some p) × Serves lib tid (next_request p whole req) whole r.0 ps b'

-- The parts make a record with the handle of the next one: only the last says so, and none but a
-- last part of several carries the checksum of the bytes up to it.
abbrev pub Assembles : PdrCodec → Bytes → List PdrPart → Bytes × ℕ → Type 0
Assembles lib acc [] r = ⊥
Assembles lib acc (p ∷ []) r =
    (is_last p.transfer_flag ≡ true)
    × (r.0 ≡ acc ++ p.record_data)
    × (r.1 ≡ p.next_record_handle)
    × (p.transfer_flag ≡ 4 → lib.crc8 r.0 ≡ p.transfer_crc)
Assembles lib acc (p ∷ q ∷ ps) r =
    (is_last p.transfer_flag ≡ false) × Assembles lib (acc ++ p.record_data) (q ∷ ps) r

pub record Assembled (lib : PdrCodec) (tid largest left : ℕ) (req : PdrRequest) (acc : Bytes)
    (b b' : Bus) (r : Bytes × ℕ) : Type 0 where
  pub parts : List PdrPart
  pub served : Serves lib tid req acc b parts b'
  pub assembled : Assembles lib acc parts r
  pub few : length parts < left
  pub fits : length r.0 ≤ largest

crc-last :
    (lib : PdrCodec) (p : PdrPart) (whole : Bytes)
    → passes_crc lib p whole ≡ true
    → p.transfer_flag ≡ 4
    → lib.crc8 whole ≡ p.transfer_crc
unfolding passes_crc
crc-last lib p whole h f = ground arith

crc-middle :
    (lib : PdrCodec) (p : PdrPart) (whole : Bytes)
    → is_last p.transfer_flag ≡ false
    → passes_crc lib p whole ≡ true
unfolding passes_crc
crc-middle lib p whole h = ground arith

module _ (lib : PdrCodec) (tid largest left : ℕ) (req : PdrRequest) (acc : Bytes) (b : Bus)
    (p : PdrPart) (got : (get_part lib tid req b).1 ≡ some p) where
  -- A round with a part.
  rounds-part :
      let whole = acc ++ p.record_data in
      let r = get_part lib tid req b in
      pdr_rounds lib tid largest (suc left) req acc b ≡ (
        if not (passes_crc lib p whole)
        then (r.0, none)
        else if ltb largest (length whole) || left == 0
        then (r.0, none)
        else if is_last p.transfer_flag
        then (r.0, some (whole, p.next_record_handle))
        else pdr_rounds lib tid largest left (next_request p whole req) whole r.0)
  unfolding pdr_rounds
  rounds-part = rw (got, pdr_rounds) refl

rounds-none :
    (lib : PdrCodec) (tid largest left : ℕ) (req : PdrRequest) (acc : Bytes) (b : Bus)
    → (get_part lib tid req b).1 ≡ none
    → (pdr_rounds lib tid largest (suc left) req acc b).1 ≡ none
unfolding pdr_rounds
rounds-none lib tid largest left req acc b h = rw (h, pdr_rounds) refl

-- A round that gives a result has passed both tests.
passed :
    {X A : Type 0} (pass over : Bool) (c b' : X) (n : X × Option A) (w : A)
    → (if not pass then (c, none) else if over then (c, none) else n) ≡ (b', some w)
    → (pass ≡ true) × (over ≡ false) × (n ≡ (b', some w))
passed false over c b' n w h = cc
passed true true c b' n w h = cc
passed true false c b' n w h = (refl, refl, h)

one_more :
    (lib : PdrCodec) (tid largest left : ℕ) (req : PdrRequest) (acc : Bytes) (b b' : Bus)
    (r : Bytes × ℕ) (p : PdrPart)
    → (get_part lib tid req b).1 ≡ some p
    → is_last p.transfer_flag ≡ false
    → (let whole = acc ++ p.record_data in
        Assembled lib tid largest left
          (next_request p whole req)
          whole
          (get_part lib tid req b).0
          b'
          r)
    → Assembled lib tid largest (suc left) req acc b b' r
one_more lib tid largest left req acc b b' r p g l a = more a.parts a.served a.assembled a.few
  where
    whole : Bytes
    whole = acc ++ p.record_data

    more :
        (ps : List PdrPart)
        → Serves lib tid (next_request p whole req) whole (get_part lib tid req b).0 ps b'
        → Assembles lib whole ps r
        → length ps < left
        → Assembled lib tid largest (suc left) req acc b b' r
    more [] s t k = absurd t
    more (q ∷ ps) s t k = record {
      parts = p ∷ q ∷ ps;
      served = (g, s);
      assembled = (l, t);
      few = omega arith;
      fits = a.fits;
    }

pair-some :
    {X A : Type 0} (c b' : X) (v w : A)
    → ◌≡◌ {A = X × Option A} (c, some v) (b', some w)
    → (c ≡ b') × (v ≡ w)
pair-some c b' v w h = (ap (λ t. t.0) h, cc (ap (λ t. t.1) h))

last_part :
    (lib : PdrCodec) (tid largest left : ℕ) (req : PdrRequest) (acc : Bytes) (b b' : Bus)
    (r : Bytes × ℕ) (p : PdrPart)
    → (get_part lib tid req b).1 ≡ some p
    → is_last p.transfer_flag ≡ true
    → passes_crc lib p (acc ++ p.record_data) ≡ true
    → (ltb largest (length (acc ++ p.record_data)) || left == 0) ≡ false
    → (get_part lib tid req b).0 ≡ b'
    → ◌≡◌ {A = Bytes × ℕ} (acc ++ p.record_data, p.next_record_handle) r
    → Assembled lib tid largest (suc left) req acc b b' r
last_part lib tid largest left req acc b b' r p g l x y c v = record {
  parts = p ∷ [];
  served = (g, c);
  assembled = (
    l,
    ap (λ t. t.0) (sym v),
    ap (λ t. t.1) (sym v),
    λ k. ap (λ t. lib.crc8 t.0) (sym v) ∙ crc-last lib p (acc ++ p.record_data) x k,
  );
  few = ground (arith, y);
  fits = ground (arith, y, ap (λ t. length t.0) v);
}

pdr_rounds-Assembled :
    (lib : PdrCodec) (tid largest left : ℕ) (req : PdrRequest) (acc : Bytes) (b b' : Bus)
    (r : Bytes × ℕ)
    → pdr_rounds lib tid largest left req acc b ≡ (b', some r)
    → Assembled lib tid largest left req acc b b' r
pdr_rounds-Assembled lib tid largest zero req acc b b' r h = unfold pdr_rounds in cc
pdr_rounds-Assembled lib tid largest (suc left) req acc b b' r h =
    elim (Option-cases (get_part lib tid req b).1) [
      | inl n ↦ cc (rounds-none lib tid largest left req acc b n, ap (λ t. t.1) h)
      | inr (p, g) ↦
          let whole = acc ++ p.record_data in
          let c = (get_part lib tid req b).0 in
          let next = pdr_rounds lib tid largest left (next_request p whole req) whole c in
          let e = rounds-part lib tid largest left req acc b p g in
          let (x, y, z) =
            passed (passes_crc lib p whole) (ltb largest (length whole) || left == 0) c b'
              (if is_last p.transfer_flag then (c, some (whole, p.next_record_handle)) else next) r
              (sym e ∙ h) in
          elim (Bool-cases (is_last p.transfer_flag)) [
            | inl l ↦
                let (w, v) =
                  pair-some c b' (whole, p.next_record_handle) r
                    (sym (ap (λ t. if t then (c, some (whole, p.next_record_handle)) else next) l)
                      ∙ z) in
                last_part lib tid largest left req acc b b' r p g l x y w v
            | inr l ↦ one_more lib tid largest left req acc b b' r p g l (
                pdr_rounds-Assembled lib tid largest left (next_request p whole req) whole c b' r (
                  sym (ap (λ t. if t then (c, some (whole, p.next_record_handle)) else next) l)
                  ∙ z))
          ]
    ]

crc-passes :
    (lib : PdrCodec) (p : PdrPart) (whole : Bytes)
    → (p.transfer_flag ≡ 4 → lib.crc8 whole ≡ p.transfer_crc)
    → passes_crc lib p whole ≡ true
unfolding passes_crc
crc-passes lib p whole h = elim (Bool-cases (p.transfer_flag == 4)) [
  | inl k ↦ let e = h (==→eq p.transfer_flag 4 k) in ground (arith, e, k)
  | inr k ↦ ground (arith, k)
]

length-Assembles :
    (lib : PdrCodec) (ps : List PdrPart) (acc : Bytes) (r : Bytes × ℕ)
    → Assembles lib acc ps r
    → length acc ≤ length r.0
length-Assembles lib [] acc r a = absurd a
length-Assembles lib (p ∷ []) acc r a =
    omega (arith, ap (λ t. length t) (a.1), length-append acc p.record_data)
length-Assembles lib (p ∷ q ∷ ps) acc r a = omega (
  arith,
  length-Assembles lib (q ∷ ps) (acc ++ p.record_data) r a.1,
  length-append acc p.record_data,
)

Assembled-rounds :
    (lib : PdrCodec) (tid largest : ℕ) (ps : List PdrPart) (left : ℕ) (req : PdrRequest)
    (acc : Bytes) (b b' : Bus) (r : Bytes × ℕ)
    → Serves lib tid req acc b ps b'
    → Assembles lib acc ps r
    → length ps < left
    → length r.0 ≤ largest
    → pdr_rounds lib tid largest left req acc b ≡ (b', some r)
Assembled-rounds lib tid largest [] left req acc b b' r s a n m = absurd a
Assembled-rounds lib tid largest (p ∷ ps) zero req acc b b' r s a n m = absurd (omega arith)
Assembled-rounds lib tid largest (p ∷ []) (suc left) req acc b b' r s a n m =
    let whole = acc ++ p.record_data in
    let c = crc-passes lib p whole (λ k. ap lib.crc8 (sym a.1) ∙ a.3 k) in
    let l : ltb largest (length whole) ≡ false = ground (arith, ap (λ t. length t) a.1) in
    let z : (left == 0) ≡ false = ground arith in
    rounds-part lib tid largest left req acc b p s.0
    ∙ rw (c, l, z, a.0, s.1)
        (ap (λ t. (b', some t))
          (ap (λ t. (t, p.next_record_handle)) (sym a.1) ∙ ap (λ t. (r.0, t)) (sym a.2)))
Assembled-rounds lib tid largest (p ∷ q ∷ ps) (suc left) req acc b b' r s a n m =
    let whole = acc ++ p.record_data in
    let c = crc-middle lib p whole a.0 in
    let l : ltb largest (length whole) ≡ false =
      ground (arith, length-Assembles lib (q ∷ ps) whole r a.1) in
    let z : (left == 0) ≡ false = ground arith in
    rounds-part lib tid largest left req acc b p s.0
    ∙ rw (c, l, z, a.0)
        (Assembled-rounds lib tid largest (q ∷ ps) left (next_request p whole req) whole
          (get_part lib tid req b).0 b' r s.1 a.1 (omega arith) m)

pub pdr_record-Assembled :
    (lib : PdrCodec) (tid largest handle : ℕ) (b b' : Bus) (r : Bytes × ℕ)
    → (get_device_pdr_record lib tid largest handle b ≡ (b', some r))
      ↔ Assembled lib tid largest 100 (first_request handle) [] b b' r
unfolding get_device_pdr_record
pdr_record-Assembled lib tid largest handle b b' r = (
  pdr_rounds-Assembled lib tid largest 100 (first_request handle) [] b b' r,
  λ a.
      Assembled-rounds lib tid largest a.parts 100 (first_request handle) [] b b' r a.served
        a.assembled a.few a.fits,
)
