-- ===== src/Nvme/Queue/Waits.antt =====
-- What a command does on the controller of a queue (pkg/nvme/nvme_data_types.go, fabrics.go, discovery.go):
-- it is answered, or it waits.
use discovery_client.Prelude.{
  ℕ, ◌^◌, ◌<◌, String, Bool, true, false, Option, none, some, ℕ_eq, String_eq, if◌then◌else◌, List,
  [], ◌∷◌, ◌++◌, ltb, length, ◌≡◌, refl, arith, if_both,
}
use discovery_client.Nvme.Sgl.{ScatterList}
use discovery_client.Nvme.LogPage.{GetLogPageCommand, execute}
use discovery_client.Nvme.Controller.{
  Controller, Completion, property_set, property_get, set_features, get_features,
  register_async_event_request,
}
use discovery_client.Nvme.Queue.{
  Pdu, Command, property_set_request, property_get_request, identify, get_log_page, keep_alive,
  set_features_request, get_features_request, async_event,
}
use discovery_client.Nvme.Queue.Execute.{Env, execute_identify, execute_on}

-- A completion for the command, whose status has room to be shifted.
abbrev pub IsFor : Pdu → Completion → Type 0
IsFor pdu c = (c.command_id ≡ pdu.command_id) × (c.status < 2 ^ 15)

abbrev pub IsForId : ℕ → Completion → Type 0
IsForId id c = (c.command_id ≡ id) × (c.status < 2 ^ 15)

property_set-IsForId :
    (ctrl : Controller) (id attrib offset value : ℕ)
    → IsForId id (property_set ctrl id attrib offset value).1
unfolding property_set
property_set-IsForId ctrl id attrib offset value = (ground arith, ground arith)

property_get-IsForId :
    (ctrl : Controller) (id attrib offset : ℕ) → IsForId id (property_get ctrl id attrib offset)
unfolding property_get
property_get-IsForId ctrl id attrib offset = (ground arith, ground arith)

set_features-IsForId :
    (ctrl : Controller) (id cdw10 cdw11 : ℕ) → IsForId id (set_features ctrl id cdw10 cdw11).1
unfolding set_features
set_features-IsForId ctrl id cdw10 cdw11 = (ground arith, ground arith)

get_features-IsForId : (ctrl : Controller) (id cdw10 : ℕ) → IsForId id (get_features ctrl id cdw10)
unfolding get_features
get_features-IsForId ctrl id cdw10 = (ground arith, ground arith)

-- What the discovery server makes of a command.
abbrev pub Waits : Pdu → Controller → Controller → Option Completion → Type 0
Waits pdu ctrl ctrl' none = ctrl' ≡ record ctrl {
  async_event_pending_requests = ctrl.async_event_pending_requests ++ (pdu.command_id ∷ []);
}
Waits pdu ctrl ctrl' (some c) = IsFor pdu c

pub register-Waits :
    (ctrl : Controller) (pdu : Pdu)
    → let r = register_async_event_request ctrl pdu.command_id in Waits pdu ctrl r.0 r.1
unfolding register_async_event_request
register-Waits ctrl pdu =
    if_both (λ (r : Controller × Option Completion). Waits pdu ctrl r.0 r.1)
      (ltb (length ctrl.async_event_pending_requests) 4) refl (refl, omega arith)

below : (b : Bool) → (if b then 0x4006 else 0x0) < 2 ^ 15
below true = omega arith
below false = omega arith

module _ {R : Type 0} (env : Env R) where
  execute-status :
      (o : Option (ℕ → ℕ → String → List R × ℕ × ℕ)) (cmd : GetLogPageCommand) (cdw10 : ℕ)
      (host_nqn : String) (buffer : ScatterList)
      → (execute env.pack_header env.pack_entry o cmd cdw10 host_nqn buffer).status < 2 ^ 15
  unfolding execute
  execute-status none cmd cdw10 host_nqn buffer = omega arith
  execute-status (some fill) cmd cdw10 host_nqn buffer = below _

  pub execute_on-Waits :
      (ctrl : Controller) (pdu : Pdu) (buffer : ScatterList) (r : Command)
      → let r' = execute_on env ctrl pdu buffer r in Waits pdu ctrl r'.0 r'.1
  unfolding execute_on execute_identify
  execute_on-Waits ctrl pdu buffer property_set_request =
      property_set-IsForId ctrl pdu.command_id pdu.attrib pdu.offset pdu.value
  execute_on-Waits ctrl pdu buffer property_get_request =
      property_get-IsForId ctrl pdu.command_id pdu.attrib pdu.offset
  execute_on-Waits ctrl pdu buffer identify = (refl, ground arith)
  execute_on-Waits ctrl pdu buffer get_log_page =
      (refl, execute-status env.subsystem pdu.log_page pdu.cdw10 ctrl.host_nqn buffer)
  execute_on-Waits ctrl pdu buffer keep_alive = (refl, omega arith)
  execute_on-Waits ctrl pdu buffer set_features_request =
      set_features-IsForId ctrl pdu.command_id pdu.cdw10 pdu.cdw11
  execute_on-Waits ctrl pdu buffer get_features_request =
      get_features-IsForId ctrl pdu.command_id pdu.cdw10
  execute_on-Waits ctrl pdu buffer async_event = register-Waits ctrl pdu
