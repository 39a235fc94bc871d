-- ===== src/Pldmd/FwUpdate/Commands/Tries.antt =====
-- The tries of RequestUpdate in pldmd/src/firmware_update.cpp.
use pmci.Prelude.{
  ℕ, zero, suc, refl, inl, inr, true, false, Option, none, some, Bytes, arith, ◌==◌, Bool-cases,
}
use pmci.Pldmd.FwUpdate.Codec.{Libpldm, request_update, retry_request_update}
use pmci.Pldmd.FwUpdate.Link.{Link, exchange}
use pmci.Pldmd.FwUpdate.State.{Fwu}
use pmci.Pldmd.FwUpdate.Kept.{Kept, Kept-trans}
use pmci.Pldmd.FwUpdate.Commands.{
  request_update_response, request_update_try, request_update_tries, request_update_end,
  request_update_encoded, encode, delay_before, do_request_update,
}

response-Kept :
    (lib : Libpldm) (s : Fwu) (a : Link × Option Bytes) → Kept s (request_update_response lib s a).0
unfolding request_update_response
response-Kept lib s (l, none) = record { state = refl; mode = refl; available = refl }
response-Kept lib s (l, some resp) = record { state = refl; mode = refl; available = refl }

try-Kept :
    (lib : Libpldm) (rc : ℕ) (msg : Bytes) (s : Fwu) → Kept s (request_update_try lib rc msg s).0
unfolding request_update_try
try-Kept lib rc msg s = response-Kept lib s (exchange msg (delay_before rc s.link))

tries-Kept :
    (n : ℕ) (lib : Libpldm) (rc : ℕ) (msg : Bytes) (s : Fwu)
    → Kept s (request_update_tries n lib rc msg s).0
unfolding request_update_tries
tries-Kept zero lib rc msg s = try-Kept lib rc msg s
tries-Kept (suc n) lib rc msg s =
    after (request_update_try lib rc msg s) (try-Kept lib rc msg s)
      (λ rc' t. tries-Kept n lib rc' msg t)
  where
    after :
        (r : Fwu × Option ℕ)
        → Kept s r.0
        → ((rc' : ℕ) (t : Fwu) → Kept t (request_update_tries n lib rc' msg t).0)
        → Kept s (
            (elim (r.1) as (λ _. Fwu × Option ℕ) [
              | none ↦ (r.0, none)
              | some rc' ↦ elim (r.0.completion_code == retry_request_update) [
                | true ↦ request_update_tries n lib rc' msg r.0
                | false ↦ (r.0, some rc')
              ]
            ]).0)
    after (t, none) k ih = k
    after (t, some rc') k ih = elim (Bool-cases (t.completion_code == retry_request_update)) [
      | inl e ↦ rw e (Kept-trans k (ih rc' t))
      | inr e ↦ rw e k
    ]

end-Kept : (s : Fwu) (r : Fwu × Option ℕ) → Kept s r.0 → Kept s (request_update_end r).0
unfolding request_update_end
end-Kept s (t, none) k = k
end-Kept s (t, some rc) k = ground arith

encoded-Kept :
    (lib : Libpldm) (s : Fwu) (a : Link × (ℕ × Bytes)) → Kept s (request_update_encoded lib s a).0
unfolding request_update_encoded
encoded-Kept lib s (l, (rc, msg)) = ground (arith, sent)
  where
    t : Fwu
    t = record s { link = l }

    sent : Kept s (request_update_end (request_update_tries 2 lib rc msg t)).0
    sent =
        Kept-trans {s = s} {t = t} (record { state = refl; mode = refl; available = refl })
          (end-Kept t (request_update_tries 2 lib rc msg t) (tries-Kept 2 lib rc msg t))

pub do_request_update-Kept : (lib : Libpldm) (s : Fwu) → Kept s (do_request_update lib s).0
unfolding do_request_update
do_request_update-Kept lib s =
    encoded-Kept lib s
      (encode lib (request_update s.update_properties s.component_image_set_version_string) s.link)
