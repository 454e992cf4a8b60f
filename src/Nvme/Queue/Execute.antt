-- ===== src/Nvme/Queue/Execute.antt =====
-- The execution of the commands to a queue (pkg/nvme/nvme_data_types.go, discovery.go, fabrics.go), and a
-- command from its pdu to its completion (nvme_queue.go).
use discovery_client.Prelude.{
  ℕ, ◌%◌, ◌^◌, String, Bool, Option, none, some, not, ◌==◌, ℕ_eq, String_eq, is_some, if◌then◌else◌,
  List, [], ◌∷◌, true, false,
}
use discovery_client.Nvme.Sgl.{ScatterList, new_scatter_list, new_cursor, write}
use discovery_client.Nvme.LogPage.{
  GetLogPageCommand, execute, get_log_page_len, get_log_page_offset, page_entry_size, num_entries,
  entry_offset,
}
use Prim.Native.Nat.{max}
use discovery_client.Nvme.Controller.{
  Controller, Completion, sc_success, property_set, property_get, set_features, get_features,
  register_async_event_request,
}
use discovery_client.Nvme.Queue.{
  ConnectData, Pdu, Command, Request, Init, sc_connect_format_dnr, sc_connect_invalid_param_dnr,
  sc_sgl_invalid_data_dnr, Queue, nvmet_request_init, answer, create_nvme_controller, Created,
  not_created, subsystem_missing, created, IdCtrl, discovery_subsys_name, identify_data,
  property_set_request, property_get_request, identify, get_log_page, keep_alive,
  set_features_request, get_features_request, async_event, admin_connect, to_controller, accepted,
  refused,
}

-- What the environment does: `uuid.FromBytes` (whether it accepts the bytes, and the text of the uuid)
-- and `struc.Pack` of the records that are sent; and the discovery subsystem.
pub record Env (R : Type 0) : Type 0 where
  pub is_uuid : String → Bool
  pub uuid_text : String → String
  pub pack_id : IdCtrl → List ℕ
  pub pack_header : ℕ → ℕ → List ℕ
  pub pack_entry : R → List ℕ
  pub subsystem : Option (ℕ → ℕ → String → List R × ℕ × ℕ)

-- What becomes of a command: a completion, none yet, or a panic of the server.
pub data Reaction : Type 0 where
  answered : Completion → Reaction
  pending panicked : Reaction

abbrev pub or_pending : Option Completion → Reaction
or_pending none = pending
or_pending (some c) = answered c

-- The list is not empty.
abbrev pub has_some : {A : Type 0} → List A → Bool
has_some [] = false
has_some (x ∷ xs) = true

module _ {R : Type 0} (env : Env R) where
  -- The end of `execute` of `AdminConnectRequest`, where a controller was created or not.
  unfoldable pub after_create : Queue → Pdu → Created → Queue × Reaction
  after_create queue pdu not_created = (queue, answered (answer pdu sc_connect_invalid_param_dnr 0))
  after_create queue pdu subsystem_missing = (queue, panicked)
  after_create queue pdu (created queue') =
      (queue', answered (answer pdu sc_success (queue.controller_id % 2 ^ 16)))

  -- `execute` of `AdminConnectRequest`; `none` is data that `struc.Unpack` does not read.
  unfoldable pub execute_connect : Queue → Pdu → Option ConnectData → Queue × Reaction
  execute_connect queue pdu none = (queue, answered (answer pdu sc_connect_invalid_param_dnr 1))
  execute_connect queue pdu (some d) =
      if not (d.subsys_nqn == discovery_subsys_name)
      then (queue, answered (answer pdu sc_connect_invalid_param_dnr 1))
      else if not (env.is_uuid d.host_id)
      then (queue, answered (answer pdu sc_connect_invalid_param_dnr 1))
      else if not (pdu.connect.rec_fmt == 0)
      then (queue, answered (answer pdu sc_connect_format_dnr 0))
      else if not (d.cntl_id == 0xffff)
      then (queue, answered (answer pdu sc_connect_invalid_param_dnr 1))
      else after_create queue pdu (
          create_nvme_controller (is_some env.subsystem) queue pdu.connect d.host_nqn
            (env.uuid_text d.host_id))

  -- `execute` of `NvmeIdentifyDiscoveryRequest`.
  unfoldable pub execute_identify : Controller → Pdu → ScatterList → Completion
  execute_identify ctrl pdu buffer =
      let (_, _, err) = write (new_cursor buffer) (env.pack_id (identify_data ctrl)) in
      answer pdu (if is_some err then sc_sgl_invalid_data_dnr else sc_success) 0

  abbrev pub set_rae : Controller → Option Bool → Controller
  set_rae ctrl none = ctrl
  set_rae ctrl (some rae) = record ctrl { rae = rae }

  -- `execute` of the commands on the controller: its new state, and the completion, if it is sent at
  -- once.
  unfoldable pub execute_on :
      Controller → Pdu → ScatterList → Command → Controller × Option Completion
  execute_on ctrl pdu buffer property_set_request =
      let (ctrl', c) = property_set ctrl pdu.command_id pdu.attrib pdu.offset pdu.value in
      (ctrl', some c)
  execute_on ctrl pdu buffer property_get_request =
      (ctrl, some (property_get ctrl pdu.command_id pdu.attrib pdu.offset))
  execute_on ctrl pdu buffer identify = (ctrl, some (execute_identify ctrl pdu buffer))
  execute_on ctrl pdu buffer get_log_page =
      let a =
        execute env.pack_header env.pack_entry env.subsystem pdu.log_page pdu.cdw10 ctrl.host_nqn
          buffer in
      (set_rae ctrl a.rae, some (answer pdu a.status 0))
  execute_on ctrl pdu buffer keep_alive = (ctrl, some (answer pdu sc_success 0))
  execute_on ctrl pdu buffer set_features_request =
      let (ctrl', c) = set_features ctrl pdu.command_id pdu.cdw10 pdu.cdw11 in (ctrl', some c)
  execute_on ctrl pdu buffer get_features_request =
      (ctrl, some (get_features ctrl pdu.command_id pdu.cdw10))
  execute_on ctrl pdu buffer async_event = register_async_event_request ctrl pdu.command_id

  -- Whether `execute` of `NvmeGetDiscoveryLogPageRequest` writes: the header at the start of the log
  -- page, or an entry.
  unfoldable pub writes_log_page :
      Option (ℕ → ℕ → String → List R × ℕ × ℕ) → Controller → GetLogPageCommand → Bool
  writes_log_page none ctrl cmd = false
  writes_log_page (some fill_discovery_log_page) ctrl cmd =
      let data_len = max (get_log_page_len cmd) page_entry_size in
      let n = num_entries data_len (get_log_page_offset cmd) in
      let offset = entry_offset (get_log_page_offset cmd) in
      if offset == 0 then true else has_some (fill_discovery_log_page offset n ctrl.host_nqn).0

  -- Whether the execution of a command writes to the request's list.
  unfoldable pub writes : Controller → Pdu → Command → Bool
  writes ctrl pdu property_set_request = false
  writes ctrl pdu property_get_request = false
  writes ctrl pdu identify = true
  writes ctrl pdu get_log_page = writes_log_page env.subsystem ctrl pdu.log_page
  writes ctrl pdu keep_alive = false
  writes ctrl pdu set_features_request = false
  writes ctrl pdu get_features_request = false
  writes ctrl pdu async_event = false

  abbrev pub run_on : Queue → Controller → Pdu → ScatterList → Command → Queue × Reaction
  run_on queue ctrl pdu buffer r =
      let (ctrl', c) = execute_on ctrl pdu buffer r in
      (record queue { ctrl = some ctrl' }, or_pending c)

  -- The execution of a command with the list of its request, which may be nil: to write to a nil list
  -- is a panic.
  unfoldable pub execute_with :
      Queue → Controller → Pdu → Option ScatterList → Command → Queue × Reaction
  execute_with queue ctrl pdu (some buffer) r = run_on queue ctrl pdu buffer r
  execute_with queue ctrl pdu none r =
      let unused = run_on queue ctrl pdu (new_scatter_list 0 8192) r in
      if writes ctrl pdu r then (queue, panicked) else unused

  -- Without a controller, a command to it reads a nil pointer.
  unfoldable pub execute_to :
      Option Controller → Queue → Pdu → Option ScatterList → Command → Queue × Reaction
  execute_to none queue pdu buffer r = (queue, panicked)
  execute_to (some ctrl) queue pdu buffer r = execute_with queue ctrl pdu buffer r

  -- `execute` of a request.
  unfoldable pub execute_request :
      Queue → Pdu → Option ConnectData → Option ScatterList → Request → Queue × Reaction
  execute_request queue pdu sent buffer admin_connect = execute_connect queue pdu sent
  execute_request queue pdu sent buffer (to_controller r) = execute_to queue.ctrl queue pdu buffer r

  unfoldable pub executed :
      Queue → Pdu → Option ConnectData → Option ScatterList → Init → Queue × Reaction
  executed queue pdu sent buffer (refused status) = (queue, answered (answer pdu status 0))
  executed queue pdu sent buffer (accepted request) = execute_request queue pdu sent buffer request

  -- A command from its pdu to its completion: `sent` is the data that came with it, and `buffer` the
  -- list for the answer, or nil.
  unfoldable pub handle_command :
      Queue → Pdu → Option ConnectData → Option ScatterList → Queue × Reaction
  handle_command queue pdu sent buffer =
      executed queue pdu sent buffer (nvmet_request_init queue pdu)
