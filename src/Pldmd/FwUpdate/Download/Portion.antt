-- ===== src/Pldmd/FwUpdate/Download/Portion.antt =====
-- Which bytes answer a request for a portion of a component, in pldmd/src/firmware_update.cpp.
use pmci.Prelude.{
  ℕ, zero, suc, ◌+◌, ◌-◌, ◌^◌, ◌≤◌, ◌<◌, ◌≡◌, refl, ap, Bool, true, false, [], ◌∷◌, ◌++◌, none,
  some, Bytes, length, take, drop, replicate, arith, length-take, length-drop, drop-drop,
}
use Prim.Native.Nat.{min}
use pmci.Pldmd.PackageImage.Image.{PldmImg, CompProperties, get_comp_properties, read_data}
use pmci.Pldmd.FwUpdate.Codec.{Libpldm, is_download, pldm_success}
use pmci.Pldmd.FwUpdate.Link.{Link, start_timer}
use pmci.Pldmd.FwUpdate.State.{Fwu}
use pmci.Pldmd.FwUpdate.Download.{
  u32, clamp_length, read_portion, data_rounds, process_request_firmware_data,
}
use pmci.Pldmd.FwUpdate.Parts.{find_max_num_req}

-- The component's own bytes in the file.
abbrev pub component_of : Bytes → ℕ → ℕ → Bytes
component_of file component_size component_offset = take component_size (drop component_offset file)

take-take-drop :
    (n m k : ℕ) (xs : Bytes) → n + m ≤ k → take n (drop m (take k xs)) ≡ take n (drop m xs)
take-take-drop zero m k xs h = refl
take-take-drop (suc n) zero zero xs h = absurd (omega arith)
take-take-drop (suc n) zero (suc k) [] h = refl
take-take-drop (suc n) zero (suc k) (x ∷ xs) h =
    ap (◌∷◌ x) (take-take-drop n zero k xs (omega arith))
take-take-drop (suc n) (suc m) zero xs h = absurd (omega arith)
take-take-drop (suc n) (suc m) (suc k) [] h = refl
take-take-drop (suc n) (suc m) (suc k) (x ∷ xs) h = take-take-drop (suc n) m k xs (omega arith)

clamp_inside :
    (offset len component_size : ℕ)
    → offset < component_size
    → offset + len < 2 ^ 32
    → clamp_length offset len component_size ≡ some (min len (component_size - offset))
unfolding clamp_length
clamp_inside offset len component_size h small = ground arith

read_inside :
    (file : Bytes) (start n : ℕ)
    → start + n ≤ length file
    → start < 2 ^ 32
    → read_data file (u32 start) n true ≡ (some (take n (drop start file)), true)
unfolding read_data
read_inside file start n h small = let e : u32 start ≡ start = omega arith in rw e (ground arith)

portion_same :
    (file : Bytes) (n offset component_size component_offset : ℕ)
    → n + offset ≤ component_size
    → take n (drop (offset + component_offset) file)
      ≡ take n (drop offset (component_of file component_size component_offset))
portion_same file n offset component_size component_offset h =
    let e : offset + component_offset ≡ component_offset + offset = omega arith in
    rw (
      e,
      take-take-drop n offset component_size (drop component_offset file) h,
      drop-drop offset component_offset file,
    )

portion_length :
    (file : Bytes) (n offset component_size component_offset : ℕ)
    → component_offset + component_size ≤ length file
    → n + offset ≤ component_size
    → length (take n (drop offset (component_of file component_size component_offset))) ≡ n
portion_length file n offset component_size component_offset inside h =
    let rest = drop component_offset file in
    omega (
      arith,
      length-take n (drop offset (take component_size rest)),
      length-drop offset (take component_size rest),
      length-take component_size rest,
      length-drop component_offset file,
    )

-- A request that starts in a component, and ends no more than a transfer unit behind it, is answered
-- by exactly as many bytes as it asks for: the component's bytes from that offset on, and zeros for
-- what lies behind its end. The component lies in the file, its sizes are of 32 bits, and the stream
-- is good, as it is afterwards.
pub read_portion-component :
    (file : Bytes) (offset len component_size component_offset : ℕ)
    → component_offset + component_size ≤ length file
    → component_offset + component_size + 32 < 2 ^ 32
    → offset < component_size
    → 0 < len
    → offset + len ≤ component_size + 32
    → let n = min len (component_size - offset) in
      (read_portion file offset len component_size component_offset true ≡ (
        some (
            take n (drop offset (component_of file component_size component_offset))
            ++ replicate (len - n) 0),
        true,
      ))
      × (length (take n (drop offset (component_of file component_size component_offset))) ≡ n)
unfolding read_portion clamp_length read_data
read_portion-component file offset len component_size component_offset inside small start pos
      bound =
    let n = min len (component_size - offset) in
    (
      rw (
        clamp_inside offset len component_size start (omega arith),
        read_inside file (offset + component_offset) n (omega arith) (omega arith),
        portion_same file n offset component_size component_offset (omega arith),
        portion_length file n offset component_size component_offset inside (omega arith),
      ),
      portion_length file n offset component_size component_offset inside (omega arith),
    )

-- A request that starts behind the component, with no wrap of its end, is not answered.
pub read_portion-outside :
    (file : Bytes) (offset len component_size component_offset : ℕ) (good : Bool)
    → component_size ≤ offset
    → 0 < len
    → offset + len < 2 ^ 32
    → read_portion file offset len component_size component_offset good ≡ (none, good)
unfolding read_portion clamp_length
read_portion-outside file offset len component_size component_offset good h pos small = ground arith

silent_rounds :
    (n : ℕ) (lib : Libpldm) (img : PldmImg) (cc max size component_offset rc offset len : ℕ)
    (good : Bool) (l : Link)
    → 0 < n
    → (start_timer l).fd_req_matched ≡ false
    → (data_rounds n lib img cc max size component_offset rc offset len good l).0 ≡ rc
unfolding data_rounds
silent_rounds zero lib img cc max size component_offset rc offset len good l h silent =
    absurd (omega arith)
silent_rounds (suc n) lib img cc max size component_offset rc offset len good l h silent =
    ground arith

-- The bug: a device that asks for nothing before the timer runs out is not an error. The download of
-- a component that the package has ends with success.
pub silent_download_succeeds :
    (lib : Libpldm) (img : PldmImg) (s : Fwu) (p : CompProperties)
    → s.update_mode ≡ true
    → is_download s.fd_state ≡ true
    → get_comp_properties img s.current_comp ≡ some p
    → p.comp_size < 2 ^ 32
    → (start_timer s.link).fd_req_matched ≡ false
    → (process_request_firmware_data lib img s).1 ≡ pldm_success
unfolding process_request_firmware_data find_max_num_req
silent_download_succeeds lib img s p mode st found small silent =
    rw (mode, st, found)
      (silent_rounds (find_max_num_req p.comp_size - 1) lib img s.completion_code
        s.update_properties.max_transfer_size p.comp_size p.comp_location_offset pldm_success 0 0
        s.stream_good s.link (omega arith) silent)
