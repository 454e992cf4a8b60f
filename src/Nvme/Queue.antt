-- ===== src/Nvme/Queue.antt =====
-- pkg/nvme/nvme_queue.go: the queue of a server, with the parsing of the commands (fabrics.go,
-- discovery.go) and their execution (nvme_data_types.go, fabrics.go, discovery.go).
pub mod Execute
pub mod Waits
pub mod Answers
pub mod Connect
pub mod Owned
pub mod Runs
use discovery_client.Prelude.{
  ℕ, ◌+◌, ◌*◌, ◌/◌, ◌%◌, ◌^◌, String, Bool, true, false, Option, none, some, not, ◌&&◌, ◌||◌, ◌==◌,
  ℕ_eq, String_eq, is_some, if◌then◌else◌, List, [], ◌∷◌, ◌++◌, ltb,
}
use discovery_client.Nvme.Sgl.{ScatterList, new_cursor, write}
use discovery_client.Nvme.LogPage.{GetLogPageCommand, execute}
use discovery_client.Nvme.Controller.{
  Controller, Completion, new_controller, sc_success, is_ready, property_set, property_get,
  set_features, get_features, register_async_event_request, sc_invalid_field_dnr,
}

-- `ConnectCommand`, less the reserved words, the data pointer and the words that every command has.
pub record ConnectCommand : Type 0 where
  pub rec_fmt : ℕ
  pub qid : ℕ
  pub sq_size : ℕ
  pub cat_tr : ℕ
  pub kato : ℕ

-- `ConnectData`, less the reserved words, with the zeroes at the end of the names trimmed.
pub record ConnectData : Type 0 where
  pub host_id : String
  pub cntl_id : ℕ
  pub subsys_nqn : String
  pub host_nqn : String

-- What a pdu of 64 bytes says, read as each of the commands: its bytes 0, 1 and 4, the id, and the
-- words of the commands. `struc.Unpack` does not fail on a pdu of that length.
pub record Pdu : Type 0 where
  pub opcode : ℕ
  pub flags : ℕ
  pub fc_type : ℕ
  pub command_id : ℕ
  pub connect : ConnectCommand
  pub attrib : ℕ
  pub offset : ℕ
  pub value : ℕ
  pub cdw10 : ℕ
  pub cdw11 : ℕ
  pub log_page : GetLogPageCommand

-- The commands to a controller, and the requests.
pub data Command : Type 0 where
  property_set_request property_get_request identify get_log_page keep_alive : Command
  set_features_request get_features_request async_event : Command

pub data Request : Type 0 where
  admin_connect : Request
  to_controller : Command → Request

-- A request, or the status of the error.
pub data Init : Type 0 where
  accepted : Request → Init
  refused : ℕ → Init

-- `NVME_SC_INVALID_OPCODE` alone and with `NVME_SC_DNR`, `NVME_SC_INVALID_LOG_PAGE | NVME_SC_DNR`,
-- `NVME_SC_CONNECT_FORMAT | NVME_SC_DNR`, `NVME_SC_CONNECT_INVALID_PARAM | NVME_SC_DNR` and
-- `NVME_SC_SGL_INVALID_DATA | NVME_SC_DNR`.
abbrev pub sc_invalid_opcode : ℕ
sc_invalid_opcode = 0x1

abbrev pub sc_invalid_opcode_dnr : ℕ
sc_invalid_opcode_dnr = 0x4001

abbrev pub sc_invalid_log_page_dnr : ℕ
sc_invalid_log_page_dnr = 0x4109

abbrev pub sc_connect_format_dnr : ℕ
sc_connect_format_dnr = 0x4180

abbrev pub sc_connect_invalid_param_dnr : ℕ
sc_connect_invalid_param_dnr = 0x4182

abbrev pub sc_sgl_invalid_data_dnr : ℕ
sc_sgl_invalid_data_dnr = 0x400f

-- `nvmeQueue` with its `nvmetSQ` and `nvmetCQ`; `registered` are the controllers that the discovery
-- subsystem was given, by id.
pub record Queue : Type 0 where
  pub id : ℕ
  pub controller_id : ℕ
  pub ctrl : Option Controller
  pub sq_id : ℕ
  pub cq_id : ℕ
  pub sq_size : ℕ
  pub sqhd : ℕ
  pub sqhd_disabled : Bool
  pub registered : List ℕ

-- `nvmetParseConnectCmd`.
unfoldable pub nvmet_parse_connect_cmd : Pdu → Init
nvmet_parse_connect_cmd pdu =
    if not (pdu.opcode == 0x7f)
    then refused sc_invalid_opcode_dnr
    else if not (pdu.fc_type == 0x1)
    then refused sc_invalid_opcode_dnr
    else accepted admin_connect

-- `nvmetParseFabricsCommand`.
unfoldable pub nvmet_parse_fabrics_command : Pdu → Init
nvmet_parse_fabrics_command pdu =
    if pdu.fc_type == 0x0
    then accepted (to_controller property_set_request)
    else if pdu.fc_type == 0x4
    then accepted (to_controller property_get_request)
    else refused sc_invalid_opcode_dnr

-- `nvmetParseDiscoveryCommand`: only the discovery log page is supported.
unfoldable pub nvmet_parse_discovery_command : Controller → Pdu → Init
nvmet_parse_discovery_command ctrl pdu =
    if not (is_ready ctrl.csts)
    then refused sc_invalid_opcode_dnr
    else if pdu.opcode == 0x06
    then accepted (to_controller identify)
    else if pdu.opcode == 0x02
    then (if not (pdu.log_page.lid == 0x70)
        then refused sc_invalid_log_page_dnr
        else accepted (to_controller get_log_page))
    else if pdu.opcode == 0x18
    then accepted (to_controller keep_alive)
    else if pdu.opcode == 0x09
    then accepted (to_controller set_features_request)
    else if pdu.opcode == 0x0a
    then accepted (to_controller get_features_request)
    else if pdu.opcode == 0x0c
    then accepted (to_controller async_event)
    else refused sc_invalid_opcode

-- The three ways to parse a command.
unfoldable pub parse_command : Option Controller → Pdu → Init
parse_command none pdu = nvmet_parse_connect_cmd pdu
parse_command (some ctrl) pdu =
    if pdu.opcode == 0x7f
    then nvmet_parse_fabrics_command pdu
    else nvmet_parse_discovery_command ctrl pdu

-- `nvmetRequestInit`: no fused commands, and the data pointer is a scatter list.
unfoldable pub nvmet_request_init : Queue → Pdu → Init
nvmet_request_init queue pdu =
    if not (pdu.flags % 4 == 0)
    then refused sc_invalid_field_dnr
    else if not (pdu.flags / 64 % 4 == 1)
    then refused sc_invalid_field_dnr
    else parse_command queue.ctrl pdu

-- The status of a completion on the wire, as `NewCompletion` shifts it.
unfoldable pub new_completion_status : ℕ → ℕ
new_completion_status status = status * 2 % 2 ^ 16

abbrev pub answer : Pdu → ℕ → ℕ → Completion
answer pdu status result = record { command_id = pdu.command_id; status = status; result = result }

-- How `createNvmeController` ends: with the error for a queue of size 0, with a controller, or in
-- `RegisterController` of a queue without a discovery subsystem, which is a panic.
pub data Created : Type 0 where
  not_created subsystem_missing : Created
  created : Queue → Created

-- `createNvmeController`, for a queue that has a discovery subsystem or not.
unfoldable pub create_nvme_controller : Bool → Queue → ConnectCommand → String → String → Created
create_nvme_controller has_subsystem queue cmd host_nqn hostid =
    if cmd.sq_size == 0
    then not_created
    else if not has_subsystem
    then subsystem_missing
    else let disabled = not (cmd.cat_tr / 4 % 2 == 0) in
      created (record queue {
        ctrl = some (new_controller queue.id queue.controller_id cmd.kato host_nqn hostid);
        sq_id = cmd.qid;
        cq_id = cmd.qid;
        sq_size = cmd.sq_size;
        sqhd = if disabled then 0xffff else 0;
        sqhd_disabled = disabled;
        registered = queue.registered ++ (queue.id ∷ []);
      })

-- `DeregisterController`.
unfoldable pub without : ℕ → List ℕ → List ℕ
without id [] = []
without id (other ∷ ids) = let rest = without id ids in if other == id then rest else other ∷ rest

-- `destroy`.
unfoldable pub destroy : Queue → Queue
destroy queue = elim queue.ctrl [
  | none ↦ queue
  | some ctrl ↦ record queue { ctrl = none; registered = without ctrl.id queue.registered }
]

-- The fields of `IDCtrl` that `execute` of an identify command sets.
pub record IdCtrl : Type 0 where
  pub fr : String
  pub mdts : ℕ
  pub cntl_id : ℕ
  pub ver : ℕ
  pub lpa : ℕ
  pub oaes : ℕ
  pub maxcmd : ℕ
  pub sgls : ℕ
  pub sub_nqn : String

abbrev pub discovery_subsys_name : String
discovery_subsys_name = "nqn.2014-08.org.nvmexpress.discovery"

-- `inlineSize` is 16 pages and `hasKeyedSgls` is false: of `Sgls` the bits 0 and 20 are set.
unfoldable pub identify_data : Controller → IdCtrl
identify_data ctrl = record {
  fr = "12345678";
  mdts = 0;
  cntl_id = ctrl.controller_id;
  ver = 0x10300;
  lpa = 4;
  oaes = 2 ^ 31;
  maxcmd = 1024;
  sgls = 1 + 2 ^ 20;
  sub_nqn = discovery_subsys_name;
}
