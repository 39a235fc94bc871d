-- ===== src/Pldmd/FwUpdate/Kept.antt =====
-- What most steps of an update in pldmd/src/firmware_update.cpp leave alone: the device's state, the
-- update mode, and whether some component has been updated.
use pmci.Prelude.{◌≡◌, refl, ◌∙◌}
use pmci.Pldmd.FwUpdate.State.{Fwu}

pub record Kept (s t : Fwu) : Type 0 where
  pub state : t.fd_state ≡ s.fd_state
  pub mode : t.update_mode ≡ s.update_mode
  pub available : t.is_component_available_for_update ≡ s.is_component_available_for_update

pub Kept-refl : (s : Fwu) → Kept s s
Kept-refl s = record { state = refl; mode = refl; available = refl }

pub Kept-trans : {s t u : Fwu} → Kept s t → Kept t u → Kept s u
Kept-trans a b = record {
  state = b.state ∙ a.state;
  mode = b.mode ∙ a.mode;
  available = b.available ∙ a.available;
}
