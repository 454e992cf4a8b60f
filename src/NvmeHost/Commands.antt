-- ===== src/NvmeHost/Commands.antt =====
-- The requests that the host sends (pkg/nvme/nvme_data_types.go, fabrics.go, discovery.go), and how the
-- server reads their bytes.
use discovery_client.Prelude.{
  ℕ, ◌+◌, ◌*◌, ◌/◌, ◌%◌, ◌^◌, Bool, true, false, Option, none, some, ◌==◌, ℕ_eq, if◌then◌else◌, ◌≡◌,
  arith,
}
use discovery_client.Nvme.Sgl.{ScatterList}
use discovery_client.Nvme.LogPage.{GetLogPageCommand, new_get_log_page_command}
use discovery_client.Nvme.Controller.{Completion}
use discovery_client.Nvme.Queue.{ConnectData, Pdu}
use discovery_client.Nvme.Tcp.{Frame}

-- A command of 64 bytes as its little-endian words, less those that every request of the host leaves 0,
-- and the last byte of its data pointer. The fabrics type of a command is the lowest byte of `ns_id`.
pub record Words : Type 0 where
  pub opcode : ℕ
  pub flags : ℕ
  pub command_id : ℕ
  pub ns_id : ℕ
  pub cdw10 : ℕ
  pub cdw11 : ℕ
  pub cdw12 : ℕ
  pub cdw13 : ℕ
  pub sgl_type : ℕ

-- The types of requests.
pub data RequestType : Type 0 where
  connects sets_property gets_property identifies gets_log_page sets_features : RequestType
  keeps_alive awaits_event : RequestType

unfoldable pub is_async : RequestType → Bool
is_async connects = false
is_async sets_property = false
is_async gets_property = false
is_async identifies = false
is_async gets_log_page = false
is_async sets_features = false
is_async keeps_alive = false
is_async awaits_event = true

-- A request: its type, its `CommandID()`, its command, the data that is sent with it, the list that
-- `SetData` gave it, and its completion.
pub record AbstractRequest : Type 0 where
  pub request_type : RequestType
  pub cmd_id : ℕ
  pub cmd : Words
  pub sent : Option ConnectData
  pub sgl : Option ScatterList
  pub resp : Option Completion

abbrev new_request : RequestType → ℕ → Words → AbstractRequest
new_request t id w = record {
  request_type = t;
  cmd_id = id;
  cmd = w;
  sent = none;
  sgl = none;
  resp = none;
}

-- `NewAdminConnectRequest`, for a keep-alive time in milliseconds: the size of the queue is 31.
unfoldable pub new_admin_connect_request : ℕ → ℕ → ConnectData → AbstractRequest
new_admin_connect_request id kato d =
    record (new_request connects id (record {
      opcode = 0x7f;
      flags = 0x40;
      command_id = id;
      ns_id = 0x01;
      cdw10 = 0;
      cdw11 = 31;
      cdw12 = kato;
      cdw13 = 0;
      sgl_type = 0x1;
    })) { sent = some d }

-- `NewPropertySetRequest`.
unfoldable pub new_property_set_request : ℕ → ℕ → ℕ → AbstractRequest
new_property_set_request id off val = new_request sets_property id (record {
  opcode = 0x7f;
  flags = 0x40;
  command_id = id;
  ns_id = 0x00;
  cdw10 = 0;
  cdw11 = off;
  cdw12 = val % 2 ^ 32;
  cdw13 = val / 2 ^ 32;
  sgl_type = 0x5a;
})

-- `NewPropertyGetRequest`: CAP, at the offset 0, alone is read as 8 bytes.
unfoldable pub new_property_get_request : ℕ → ℕ → AbstractRequest
new_property_get_request id off = new_request gets_property id (record {
  opcode = 0x7f;
  flags = 0x40;
  command_id = id;
  ns_id = 0x04;
  cdw10 = if off == 0x0 then 1 else 0;
  cdw11 = off;
  cdw12 = 0;
  cdw13 = 0;
  sgl_type = 0x5a;
})

-- The commands that set no more than the words 10 and 11.
abbrev common_command : ℕ → ℕ → ℕ → ℕ → Words
common_command opcode id cdw10 cdw11 = record {
  opcode = opcode;
  flags = 0x40;
  command_id = id;
  ns_id = 0;
  cdw10 = cdw10;
  cdw11 = cdw11;
  cdw12 = 0;
  cdw13 = 0;
  sgl_type = 0;
}

-- `NewIdentifyRequest`: `Cns` is 1.
unfoldable pub new_identify_request : ℕ → AbstractRequest
new_identify_request id = new_request identifies id (common_command 0x06 id 0x01 0)

-- `NewSetFeatureAsyncEventRequest` and `NewSetFeatureKatoRequest`, the latter for milliseconds.
unfoldable pub new_set_feature_async_event_request : ℕ → AbstractRequest
new_set_feature_async_event_request id =
    new_request sets_features id (common_command 0x09 id 0x0b (2 ^ 31))

unfoldable pub new_set_feature_kato_request : ℕ → ℕ → AbstractRequest
new_set_feature_kato_request id kato =
    new_request sets_features id (common_command 0x09 id 0x0f (kato % 2 ^ 32))

-- `NewKeepAliveRequest`, which does not set the id of the request, only that of its command.
unfoldable pub new_keep_alive_request : ℕ → AbstractRequest
new_keep_alive_request id = new_request keeps_alive 0 (common_command 0x18 id 0 0)

-- `NewAsyncEventRequest`.
unfoldable pub new_async_event_request : ℕ → AbstractRequest
new_async_event_request id = new_request awaits_event id (common_command 0x0c id 0 0)

-- The words of a command for a part of the log page.
unfoldable pub log_page_words : GetLogPageCommand → Words
log_page_words cmd = record {
  opcode = cmd.opcode;
  flags = cmd.flags;
  command_id = cmd.command_id;
  ns_id = cmd.ns_id;
  cdw10 = cmd.lid + cmd.lsp * 2 ^ 8 + cmd.num_dl * 2 ^ 16;
  cdw11 = cmd.num_du;
  cdw12 = cmd.lpol;
  cdw13 = cmd.lpou;
  sgl_type = 0x5a;
}

-- `NewNvmeGetDiscoveryLogPageRequest`.
unfoldable pub new_get_discovery_log_page_request : ℕ → ℕ → ℕ → ℕ → AbstractRequest
new_get_discovery_log_page_request id size offset nsid =
    new_request gets_log_page id (log_page_words (new_get_log_page_command id size offset nsid))

-- The words as the server reads them, by the fields of each of its commands.
unfoldable pub pdu_of : Words → Pdu
pdu_of w = record {
  opcode = w.opcode;
  flags = w.flags;
  fc_type = w.ns_id % 2 ^ 8;
  command_id = w.command_id;
  connect = record {
    rec_fmt = w.cdw10 % 2 ^ 16;
    qid = w.cdw10 / 2 ^ 16;
    sq_size = w.cdw11 % 2 ^ 16;
    cat_tr = w.cdw11 / 2 ^ 16 % 2 ^ 8;
    kato = w.cdw12;
  };
  attrib = w.cdw10 % 2 ^ 8;
  offset = w.cdw11;
  value = w.cdw12 + w.cdw13 * 2 ^ 32;
  cdw10 = w.cdw10;
  cdw11 = w.cdw11;
  log_page = record {
    opcode = w.opcode;
    flags = w.flags;
    command_id = w.command_id;
    ns_id = w.ns_id;
    lid = w.cdw10 % 2 ^ 8;
    lsp = w.cdw10 / 2 ^ 8 % 2 ^ 8;
    num_dl = w.cdw10 / 2 ^ 16;
    num_du = w.cdw11 % 2 ^ 16;
    lpol = w.cdw12;
    lpou = w.cdw13;
  };
}

-- `createTCPHeader`: the type, and the length of the header and the command; then the frame of a
-- request, as `sendRequest` and `sendConnectRequest` write it.
unfoldable pub frame_of : AbstractRequest → Frame
frame_of r = record {
  pdu_type = 0x4;
  hlen = 72;
  pdu = pdu_of r.cmd;
  sgl_type = r.cmd.sgl_type;
  data_in = some r.sent;
}

-- A server reads the command for a part of the log page as the host made it.
pub pdu_of-log_page_words :
    (id size offset nsid : ℕ)
    → (pdu_of (log_page_words (new_get_log_page_command id size offset nsid))).log_page
      ≡ new_get_log_page_command id size offset nsid
unfolding pdu_of log_page_words new_get_log_page_command
pdu_of-log_page_words id size offset nsid = ground arith
