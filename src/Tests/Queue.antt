-- ===== src/Tests/Queue.antt =====
-- The queue of a server (pkg/nvme/nvme_queue.go) on concrete inputs: a host connects.
use discovery_client.Prelude.{
  ℕ, ◌/◌, ◌^◌, ◌<◌, true, false, Option, none, some, ◌&&◌, [], ◌∷◌, ◌≡◌, refl, ℕ_discrete,
  String_discrete, Bool-cases, if◌then◌else◌,
}
use discovery_client.Nvme.Sgl.{ScatterList, new_scatter_list}
use discovery_client.Nvme.LogPage.{new_get_log_page_command}
use discovery_client.Nvme.Controller.{sc_success, is_ready, new_controller}
use discovery_client.Nvme.Queue.{
  ConnectData, Pdu, Queue, nvmet_parse_connect_cmd, parse_command, nvmet_request_init, answer,
  new_completion_status, create_nvme_controller, discovery_subsys_name,
  nvmet_parse_discovery_command,
}
use discovery_client.Nvme.Queue.Execute.{
  Env, answered, after_create, execute_connect, execute_request, executed, handle_command,
}
use discovery_client.Nvme.Queue.Answers.{
  Reacts, crashes, handle_command-Reacts, new_completion_status-handle_command,
}
use discovery_client.Nvme.Queue.Connect.{asks, welcome, Outcome, handle_command-Outcome}
use discovery_client.Nvme.Tcp.{
  Frame, fails, panics, pdu_valid, pdu_size, header_valid, is_write, data_len, receive,
}
use discovery_client.Nvme.Tcp.Verdicts.{expected, receive-expected}
use discovery_client.Nvme.Queue.Runs.{command, expired, closed, Known, run, run-Known}
use discovery_client.Nvme.Tcp.{
  init_frame, mapped_frame, map_data, need_data_in, execute_frame, list_of,
}
use discovery_client.Nvme.Queue.Execute.{execute_to, execute_with, writes, writes_log_page}
use discovery_client.Nvme.LogPage.{
  get_log_page_len, get_log_page_offset, entry_offset, upper32_bits, lower32_bits,
  nvme_bytes_to_numd,
}

program : Unit {0}
unfolding ℕ_discrete String_discrete Bool-cases nvmet_parse_connect_cmd parse_command
    nvmet_request_init create_nvme_controller after_create execute_connect execute_request executed
    handle_command asks welcome is_ready nvmet_parse_discovery_command pdu_valid pdu_size
    header_valid is_write data_len
program = tt

abbrev queue : Queue
queue = record {
  id = 1;
  controller_id = 7;
  ctrl = none;
  sq_id = 0;
  cq_id = 0;
  sq_size = 0;
  sqhd = 0;
  sqhd_disabled = false;
  registered = [];
}

abbrev pdu : Pdu
pdu = record {
  opcode = 0x7f;
  flags = 0x40;
  fc_type = 0x1;
  command_id = 5;
  connect = record { rec_fmt = 0; qid = 0; sq_size = 31; cat_tr = 0; kato = 30000 };
  attrib = 0;
  offset = 0;
  value = 0;
  cdw10 = 0;
  cdw11 = 0;
  log_page = new_get_log_page_command 5 1024 0 0;
}

abbrev host : ConnectData
host = record {
  host_id = "0123456789abcdef";
  cntl_id = 0xffff;
  subsys_nqn = discovery_subsys_name;
  host_nqn = "host";
}

abbrev env : Env ℕ
env = record {
  is_uuid = λ s. true;
  uuid_text = λ s. s;
  pack_id = λ i. [];
  pack_header = λ g n. [];
  pack_entry = λ e. e ∷ [];
  subsystem = some (λ o n host. ([], 0, 0));
}

abbrev buffer : Option ScatterList
buffer = some (new_scatter_list 1024 1024)

connects : (handle_command env queue pdu (some host) buffer).1 ≡ answered (answer pdu sc_success 7)
unfolding program
connects = refl

handle_command-Reacts_example :
    let h = handle_command env queue pdu (some host) buffer in
    Reacts queue pdu
      (crashes env queue pdu (some host) buffer (nvmet_request_init queue pdu))
      h.0
      h.1
handle_command-Reacts_example = handle_command-Reacts env queue pdu (some host) buffer

new_completion_status-handle_command_example :
    (new_completion_status 0 / 2 ≡ 0) × (new_completion_status 0 < 2 ^ 16)
new_completion_status-handle_command_example =
    new_completion_status-handle_command env queue pdu (some host) buffer (answer pdu sc_success 7)
      connects

handle_command-Outcome_example :
    Outcome queue pdu true
      (asks pdu && welcome env.is_uuid pdu (some host))
      (handle_command env queue pdu (some host) buffer)
handle_command-Outcome_example = handle_command-Outcome env queue pdu (some host) buffer refl

run-Known_example :
    let q = run env queue (command pdu (some host) buffer ∷ expired ∷ closed ∷ []) in Known q q.ctrl
run-Known_example =
    run-Known env queue (command pdu (some host) buffer ∷ expired ∷ closed ∷ []) refl refl

-- A host whose controller is ready asks to identify it, and claims to bring data.
abbrev ready_queue : Queue
ready_queue = record queue {
  ctrl = some (record (new_controller 1 7 30000 "host" "") { csts = 1 });
}

abbrev identify_frame : Frame
identify_frame = record {
  pdu_type = 0x4;
  hlen = 72;
  pdu = record pdu { opcode = 0x06 };
  sgl_type = 0x1;
  data_in = none;
}

receive-expected_example : (receive env ready_queue identify_frame).2 ≡ (
    if header_valid identify_frame
    then expected env ready_queue identify_frame (nvmet_request_init ready_queue identify_frame.pdu)
    else fails)
receive-expected_example = receive-expected env ready_queue identify_frame

-- A host asks for a part of the log page whose length is 2 ^ 32, which wraps around to 0.
abbrev wrapping_frame : Frame
wrapping_frame = record identify_frame {
  pdu = record pdu {
    opcode = 0x02;
    log_page = record (new_get_log_page_command 5 0 0 0) { num_dl = 0xffff; num_du = 0xffff };
  };
  sgl_type = 0x5a;
}

wrapping : (receive env ready_queue wrapping_frame).2 ≡ panics
unfolding program receive init_frame mapped_frame map_data get_log_page_len need_data_in
    execute_frame execute_request execute_to execute_with list_of writes writes_log_page
    entry_offset get_log_page_offset upper32_bits lower32_bits nvme_bytes_to_numd
    new_get_log_page_command new_controller
wrapping = refl
