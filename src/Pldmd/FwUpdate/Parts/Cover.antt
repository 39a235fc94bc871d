-- ===== src/Pldmd/FwUpdate/Parts/Cover.antt =====
-- The parts of package data and meta data in pldmd/src/firmware_update.cpp, put together.
use pmci.Prelude.{
  ℕ, zero, suc, ◌+◌, ◌-◌, ◌*◌, ◌/◌, ◌%◌, ◌^◌, ◌≤◌, ◌<◌, ◌≡◌, refl, sym, ◌∙◌, ◌⊎◌, inl, inr, Bool,
  true, false, [], ◌++◌, Option, none, some, Bytes, length, take, drop, arith, ltb, ◌==◌,
  if◌then◌else◌, Bool-cases, take-append-drop, take-length, length-take, length-drop, drop-drop,
  drop-length, lt→ltb,
}
use mathlib.Core.List.{append-nil}
use pmci.Pldmd.PackageImage.Image.{baseline_transfer_size}
use pmci.Pldmd.FwUpdate.Codec.{
  pldm_start, pldm_middle, pldm_end, pldm_start_and_end, pldm_get_firstpart, pldm_get_nextpart,
}
use pmci.Pldmd.FwUpdate.Parts.{
  find_max_num_req, calc_max_num_req, set_transfer_flag, Part, cut_part, plan_part,
}

-- The number of unique requests is the size in transfer units, rounded up; and the limit on all
-- requests, re-queries included, is not below it for sizes of 32 bits.
pub calc_max_num_req-bounds :
    (n : ℕ)
    → n < 2 ^ 32
    → (n ≤ calc_max_num_req n * baseline_transfer_size)
      × (calc_max_num_req n * baseline_transfer_size < n + baseline_transfer_size)
      × (calc_max_num_req n ≤ find_max_num_req n)
unfolding calc_max_num_req find_max_num_req
calc_max_num_req-bounds n h = ground arith

-- The flag that belongs to the part: whether it is the first, and whether it is the last.
abbrev flag_for : Bool → Bool → ℕ
flag_for true true = pldm_start_and_end
flag_for true false = pldm_start
flag_for false true = pldm_end
flag_for false false = pldm_middle

-- What a device gets that asks for `n` parts in a row from a handle on, where `len` is the length
-- left by the request before.
abbrev pub fetch : ℕ → Bytes → ℕ → ℕ → Bytes
fetch zero bytes handle len = []
fetch (suc n) bytes handle len =
    elim (plan_part bytes (if handle == 0 then pldm_get_firstpart else pldm_get_nextpart) handle
      len) [ none ↦ [] | some p ↦ p.portion_of_data ++ fetch n bytes (handle + 1) p.len ]

-- The flag of the part is right for its place among the parts.
abbrev pub Whole : Bytes → ℕ → Option Part → Type 0
Whole bytes handle o =
    (p : Part) × (o ≡ some p)
    × (p.portion_of_data ≡ take baseline_transfer_size (drop (handle * 32) bytes))
    × (p.transfer_flag ≡ flag_for (handle == 0) (ltb (length bytes) (handle * 32 + 33)))
    × (p.next_data_transfer_handle ≡ handle + 1)
    × ((p.len ≡ 32) ⊎ (length bytes ≤ handle * 32 + 32))

plan_cut :
    (bytes : Bytes) (handle : ℕ)
    → length bytes < 2 ^ 32
    → handle * 32 < length bytes
    → plan_part bytes (if handle == 0 then pldm_get_firstpart else pldm_get_nextpart) handle 32
      ≡ cut_part bytes handle (handle * 32) 32
unfolding plan_part
plan_cut bytes handle h k = ground arith

last_portion :
    (bytes : Bytes) (offset : ℕ)
    → length bytes ≤ offset + 32
    → take (length bytes - offset) (drop offset bytes) ≡ take 32 (drop offset bytes)
last_portion bytes offset h =
    take-length (length bytes - offset) (drop offset bytes)
      (omega (arith, length-drop offset bytes))
    ∙ sym (take-length 32 (drop offset bytes) (omega (arith, length-drop offset bytes)))

cut-Whole :
    (bytes : Bytes) (handle : ℕ)
    → length bytes < 2 ^ 32
    → handle * 32 < length bytes
    → Whole bytes handle (cut_part bytes handle (handle * 32) 32)
unfolding cut_part set_transfer_flag
cut-Whole bytes handle h k = elim (Bool-cases (ltb (length bytes) (handle * 32 + 32))) [
  | inl e ↦ (
    record {
      len = length bytes - handle * 32;
      next_data_transfer_handle = (handle + 1) % 2 ^ 32;
      transfer_flag = set_transfer_flag (handle * 32) (length bytes - handle * 32) (length bytes);
      portion_of_data = take (length bytes - handle * 32) (drop (handle * 32) bytes);
    },
    ground arith,
    last_portion bytes (handle * 32) (ground arith),
    ground arith,
    omega arith,
    ground arith,
  )
  | inr e ↦ (
    record {
      len = 32;
      next_data_transfer_handle = (handle + 1) % 2 ^ 32;
      transfer_flag = set_transfer_flag (handle * 32) 32 (length bytes);
      portion_of_data = take 32 (drop (handle * 32) bytes);
    },
    ground arith,
    refl,
    ground arith,
    omega arith,
    inl refl,
  )
]

-- For data whose size has 32 bits, a request in order that starts in the data, after a part of
-- full length, is answered by the bytes that follow, with the flag and the next handle that are
-- right for them.
pub plan-Whole :
    (bytes : Bytes) (handle : ℕ)
    → length bytes < 2 ^ 32
    → handle * 32 < length bytes
    → Whole bytes handle
        (plan_part bytes (if handle == 0 then pldm_get_firstpart else pldm_get_nextpart) handle 32)
plan-Whole bytes handle h k = rw (plan_cut bytes handle h k) (cut-Whole bytes handle h k)

fetch_next :
    (n : ℕ) (bytes : Bytes) (handle : ℕ) (p : Part)
    → p.portion_of_data ≡ take 32 (drop (handle * 32) bytes)
    → (p.len ≡ 32) ⊎ (length bytes ≤ handle * 32 + 32)
    → length bytes ≤ (handle + suc n) * 32
    → (handle + suc n) * 32 < length bytes + 32
    → fetch n bytes (handle + 1) 32 ≡ drop ((handle + 1) * 32) bytes
    → p.portion_of_data ++ fetch n bytes (handle + 1) p.len ≡ drop (handle * 32) bytes
fetch_next n bytes handle p portion (inl full) lo hi ih =
    let e : (handle + 1) * 32 ≡ handle * 32 + 32 = omega arith in
    rw (portion, full, ih, e, ← drop-drop 32 (handle * 32) bytes)
      (take-append-drop 32 (drop (handle * 32) bytes))
fetch_next zero bytes handle p portion (inr short) lo hi ih =
    rw (portion, append-nil)
      (take-length 32 (drop (handle * 32) bytes) (omega (arith, length-drop (handle * 32) bytes)))
fetch_next (suc n) bytes handle p portion (inr short) lo hi ih = absurd (omega arith)

fetch-drop :
    (n : ℕ) (bytes : Bytes) (handle : ℕ)
    → length bytes < 2 ^ 32
    → length bytes ≤ (handle + n) * 32
    → (handle + n) * 32 < length bytes + 32
    → fetch n bytes handle 32 ≡ drop (handle * 32) bytes
fetch-drop zero bytes handle h lo hi = sym (drop-length (handle * 32) bytes (omega arith))
fetch-drop (suc n) bytes handle h lo hi =
    let (p, e, portion, flag, next, len) = plan-Whole bytes handle h (omega arith) in
    rw (e, fetch)
      (fetch_next n bytes handle p portion len lo hi
        (fetch-drop n bytes (handle + 1) h (omega arith) (omega arith)))

-- A device that asks for the calculated number of parts in order gets all of the data, in order
-- and nothing twice, for data whose size has 32 bits.
pub fetch-all :
    (bytes : Bytes)
    → length bytes < 2 ^ 32
    → fetch (calc_max_num_req (length bytes)) bytes 0 baseline_transfer_size ≡ bytes
fetch-all bytes h =
    let b = calc_max_num_req-bounds (length bytes) h in
    fetch-drop (calc_max_num_req (length bytes)) bytes 0 h (omega (arith, b.0)) (omega (arith, b.1))

plan_next :
    (bytes : Bytes) (handle len : ℕ)
    → handle * 32 < 2 ^ 32
    → plan_part bytes pldm_get_nextpart handle len ≡ cut_part bytes handle (handle * 32) len
unfolding plan_part
plan_next bytes handle len h = ground arith

cut_len :
    (bytes : Bytes) (handle offset len : ℕ)
    → offset < length bytes
    → (p : Part) × (cut_part bytes handle offset len ≡ some p)
      × (p.len ≡ (if ltb (length bytes) (offset + len) then length bytes - offset else len))
      × (p.portion_of_data ≡ take p.len (drop offset bytes))
unfolding cut_part
cut_len bytes handle offset len h = elim (Bool-cases (ltb (length bytes) (offset + len))) [
  | inl e ↦ rw (e, lt→ltb _ _ h) (_, refl, refl, refl)
  | inr e ↦ rw e (_, refl, refl, refl)
]

-- The bug: the length of a short last part is kept. If the size is no multiple of the transfer unit,
-- a device that has got the last part and asks for an earlier one again gets only as many bytes as
-- the last part had.
pub requery_short :
    (bytes : Bytes) (handle : ℕ)
    → length bytes < 2 ^ 32
    → 0 < handle
    → handle < length bytes / 32
    → 0 < length bytes % 32
    → (p : Part) × (q : Part) × (plan_part bytes pldm_get_nextpart (length bytes / 32) 32 ≡ some p)
      × (plan_part bytes pldm_get_nextpart handle p.len ≡ some q)
      × (length q.portion_of_data ≡ length bytes % 32)
unfolding plan_part
requery_short bytes handle h pos k r =
    let last = length bytes / 32 in
    let (p, e, len, portion) = cut_len bytes last (last * 32) 32 (omega arith) in
    let (q, e', len', portion') = cut_len bytes handle (handle * 32) p.len (omega arith) in
    let p_len : p.len ≡ length bytes % 32 = ground arith in
    let q_len : q.len ≡ length bytes % 32 = ground arith in
    (
      p,
      q,
      plan_next bytes last 32 (omega arith) ∙ e,
      plan_next bytes handle p.len (omega arith) ∙ e',
      rw portion' (
          omega
            (arith, length-take q.len (drop (handle * 32) bytes), length-drop (handle * 32) bytes)),
    )
