-- ===== src/Nvme/Controller.antt =====
-- pkg/nvme/controller.go, with the commands that change a controller: the properties of fabrics.go and
-- the features of discovery.go. A register is a number below its width; a bit is read by `/` and `%`.
pub mod Registers
pub mod Events
use discovery_client.Prelude.{
  ℕ, zero, suc, ◌+◌, ◌-◌, ◌*◌, ◌/◌, ◌%◌, ◌^◌, String, Bool, true, false, Option, none, some, not,
  ◌&&◌, ◌||◌, ◌==◌, ℕ_eq, if◌then◌else◌, List, [], ◌∷◌, ◌++◌, ltb, length,
}

-- `nvmeController`: the keep-alive time is in milliseconds, and a pending request for an event is its
-- command's id.
pub record Controller : Type 0 where
  pub host_nqn : String
  pub id : ℕ
  pub controller_id : ℕ
  pub hostid : String
  pub cap : ℕ
  pub cc : ℕ
  pub csts : ℕ
  pub kato : ℕ
  pub aen_bit_enabled : Bool
  pub rae : Bool
  pub async_event_pending_requests : List ℕ

-- `Completion`, before the status is shifted into its place.
pub record Completion : Type 0 where
  pub command_id : ℕ
  pub status : ℕ
  pub result : ℕ

abbrev pub sc_success : ℕ
sc_success = 0x0

abbrev pub sc_invalid_field : ℕ
sc_invalid_field = 0x2

-- `NVME_SC_INVALID_FIELD | NVME_SC_DNR`, `NVME_SC_ASYNC_LIMIT | NVME_SC_DNR`.
abbrev pub sc_invalid_field_dnr : ℕ
sc_invalid_field_dnr = 0x4002

abbrev pub sc_async_limit_dnr : ℕ
sc_async_limit_dnr = 0x4105

-- `initCap`: the three parts have no bit in common.
abbrev init_cap : ℕ
init_cap = 2 ^ 37 + 15 * 2 ^ 24 + 1023

-- `newController`: a keep-alive time of 0 stands for two minutes.
unfoldable pub new_controller : ℕ → ℕ → ℕ → String → String → Controller
new_controller id controller_id kato_msec host_nqn hostid = record {
  host_nqn = host_nqn;
  id = id;
  controller_id = controller_id;
  hostid = hostid;
  cap = init_cap;
  cc = 0;
  csts = 0;
  kato = if kato_msec == 0 then 120000 else kato_msec;
  aen_bit_enabled = false;
  rae = false;
  async_event_pending_requests = [];
}

-- `nvmetCCEn`, `nvmetCCShn` and the other fields of CC.
unfoldable pub cc_en : ℕ → Bool
cc_en cc = not (cc % 2 == 0)

unfoldable pub cc_shn : ℕ → Bool
cc_shn cc = not (cc / 2 ^ 14 % 4 == 0)

abbrev cc_io_sqes : ℕ → ℕ
cc_io_sqes cc = cc / 2 ^ 16 % 2 ^ 8 % 16

abbrev cc_io_cqes : ℕ → ℕ
cc_io_cqes cc = cc / 2 ^ 20 % 2 ^ 8 % 16

abbrev cc_mps : ℕ → ℕ
cc_mps cc = cc / 2 ^ 7 % 2 ^ 8 % 16

abbrev cc_css : ℕ → ℕ
cc_css cc = cc / 2 ^ 4 % 2 ^ 8 % 8

abbrev cc_ams : ℕ → ℕ
cc_ams cc = cc / 2 ^ 11 % 2 ^ 8 % 8

-- The bits RDY (the lowest), CFS (the next) and the value CMPLT of SHST (the fourth) of CSTS.
unfoldable pub is_ready : ℕ → Bool
is_ready csts = csts % 2 == 1

unfoldable pub is_failed : ℕ → Bool
is_failed csts = csts / 2 % 2 == 1

unfoldable pub is_shut_down : ℕ → Bool
is_shut_down csts = csts / 8 % 2 == 1

-- `clear`.
unfoldable pub clear : Controller → Controller
clear ctrl = record ctrl { csts = ctrl.csts - ctrl.csts % 2; cc = 0 }

-- Whether `start` accepts the configuration.
unfoldable pub supported : ℕ → Bool
supported cc =
    cc_io_sqes cc == 6
    && (cc_io_cqes cc == 4 && (cc_mps cc == 0 && (cc_ams cc == 0 && cc_css cc == 0)))

-- `start`.
unfoldable pub start : Controller → Controller
start ctrl = record ctrl { csts = if supported ctrl.cc then 1 else 2 }

-- `ctrl.csts |= NVME_CSTS_SHST_CMPLT`, and `ctrl.csts &= ^NVME_CSTS_SHST_CMPLT`.
unfoldable pub set_shut_down : ℕ → ℕ
set_shut_down csts = if is_shut_down csts then csts else csts + 8

unfoldable pub reset_shut_down : ℕ → ℕ
reset_shut_down csts = if is_shut_down csts then csts - 8 else csts

unfoldable pub shut_down : Controller → Controller
shut_down ctrl = record (clear ctrl) { csts = set_shut_down (clear ctrl).csts }

unfoldable pub end_shut_down : Controller → Controller
end_shut_down ctrl = record ctrl { csts = reset_shut_down ctrl.csts }

-- `updateControllerConfiguration`: its four conditions, in order.
unfoldable pub update_controller_configuration : Controller → ℕ → Controller
update_controller_configuration ctrl value =
    let old = ctrl.cc in
    let set : Controller = record ctrl { cc = value } in
    let started = if cc_en set.cc && not (cc_en old) then start set else set in
    let cleared = if not (cc_en started.cc) && cc_en old then clear started else started in
    let shut = if cc_shn cleared.cc && not (cc_shn old) then shut_down cleared else cleared in
    if not (cc_shn shut.cc) && cc_shn old then end_shut_down shut else shut

-- `execute` of `NvmefPropertySetRequest`: the offset 0x14 is that of CC.
unfoldable pub property_set : Controller → ℕ → ℕ → ℕ → ℕ → Controller × Completion
property_set ctrl command_id attrib offset value =
    if not (attrib % 2 == 0)
    then (ctrl, record { command_id = command_id; status = sc_invalid_field; result = 0 })
    else if offset == 0x14
    then (
      update_controller_configuration ctrl (value % 2 ^ 32),
      record { command_id = command_id; status = sc_success; result = 0 },
    )
    else (ctrl, record { command_id = command_id; status = sc_invalid_field; result = 0 })

-- The version 1.3.0, as `nvmeVS` makes it.
abbrev version : ℕ
version = 0x10300

-- `execute` of `NvmefPropertyGetRequest`: CAP is at the offset 0, VS at 0x8, CC at 0x14, CSTS at 0x1c.
unfoldable pub property_get : Controller → ℕ → ℕ → ℕ → Completion
property_get ctrl command_id attrib offset =
    let invalid : Completion = record {
      command_id = command_id;
      status = sc_invalid_field;
      result = 0;
    } in
    let answer : ℕ → Completion =
      λ value. record { command_id = command_id; status = sc_success; result = value } in
    if not (attrib % 2 == 0)
    then (if offset == 0x0 then answer ctrl.cap else invalid)
    else if offset == 0x8
    then answer version
    else if offset == 0x14
    then answer ctrl.cc
    else if offset == 0x1c
    then answer ctrl.csts
    else invalid

-- `keepAliveHandler`, when the timer expires: whether the expiry is signalled.
unfoldable pub keep_alive_expired : Controller → Controller × Bool
keep_alive_expired ctrl =
    if is_failed ctrl.csts then (ctrl, false) else (record ctrl { csts = ctrl.csts + 2 }, true)

-- `registerAsyncEventRequest`: at most four are pending.
unfoldable pub register_async_event_request : Controller → ℕ → Controller × Option Completion
register_async_event_request ctrl command_id =
    if ltb (length ctrl.async_event_pending_requests) 4
    then (
      record ctrl {
        async_event_pending_requests = ctrl.async_event_pending_requests ++ (command_id ∷ []);
      },
      none,
    )
    else (ctrl, some (record { command_id = command_id; status = sc_async_limit_dnr; result = 0 }))

-- `result` of the event of `NotifyAsyncEvent`: a notice, that the discovery log changed.
abbrev pub event_result : ℕ
event_result = 0x2 + 0xf0 * 2 ^ 8 + 0x70 * 2 ^ 16

-- `NotifyAsyncEvent` and then the case of `handleAENEvents` that receives the event.
unfoldable pub notify_async_event : Controller → Controller × Option Completion
notify_async_event ctrl =
    let answered : Controller × Option Completion = elim ctrl.async_event_pending_requests [
      | [] ↦ (ctrl, none)
      | request ∷ requests ↦ (
        record ctrl { async_event_pending_requests = requests },
        some (record { command_id = request; status = sc_success; result = event_result }),
      )
    ] in
    if ctrl.aen_bit_enabled then answered else (ctrl, none)

-- `execute` of a request to set features: KATO is 0x0f, the configuration of events 0x0b. The result
-- for KATO is in seconds.
unfoldable pub set_features : Controller → ℕ → ℕ → ℕ → Controller × Completion
set_features ctrl command_id cdw10 cdw11 =
    let invalid : Completion = record {
      command_id = command_id;
      status = sc_invalid_field_dnr;
      result = 0;
    } in
    if cdw10 % 2 ^ 8 == 0x0f
    then (
      record ctrl { kato = cdw11 },
      record { command_id = command_id; status = sc_success; result = cdw11 / 1000 },
    )
    else if cdw10 % 2 ^ 8 == 0x0b
    then (if not (cdw11 % 2 ^ 31 == 0) then (ctrl, invalid) else (
      record ctrl { aen_bit_enabled = not (cdw11 / 2 ^ 31 % 2 == 0) },
      record { command_id = command_id; status = sc_success; result = cdw11 },
    ))
    else (ctrl, invalid)

-- `execute` of a request to get features.
unfoldable pub get_features : Controller → ℕ → ℕ → Completion
get_features ctrl command_id cdw10 =
    if cdw10 % 2 ^ 8 == 0x0f
    then record { command_id = command_id; status = sc_success; result = ctrl.kato % 2 ^ 32 }
    else if cdw10 % 2 ^ 8 == 0x0b
    then record {
      command_id = command_id;
      status = sc_success;
      result = if ctrl.aen_bit_enabled then 2 ^ 31 else 0;
    }
    else record { command_id = command_id; status = sc_invalid_field_dnr; result = 0 }
