-- ===== src/NvmeHost/Target/Connect.antt =====
-- What the target sends back on the host's command to connect (pkg/nvme/tcp_queue.go).
use discovery_client.Prelude.{
  ℕ, ◌%◌, ◌^◌, String, true, false, none, some, ℕ_eq, ℕ_discrete, is_some, String_eq,
  String_discrete, [], ◌∷◌, ◌++◌, ◌≡◌, refl,
}
use discovery_client.Nvme.Controller.{Controller, new_controller, sc_success}
use discovery_client.Nvme.Queue.{
  ConnectData, Queue, nvmet_request_init, parse_command, nvmet_parse_connect_cmd,
  create_nvme_controller, discovery_subsys_name,
}
use discovery_client.Nvme.Queue.Execute.{Env, execute_request, execute_connect, after_create}
use discovery_client.Nvme.Tcp.{
  data_len, map_data, header_valid, pdu_valid, pdu_size, is_write, need_data_in, has_inline_data,
  list_of, execute_frame, mapped_frame, init_frame, receive,
}
use discovery_client.NvmeHost.Commands.{pdu_of, frame_of, new_admin_connect_request}
use discovery_client.NvmeHost.Queue.{rsp}
use discovery_client.NvmeHost.Target.{poll_response_channel, data_out, serve}
use discovery_client.NvmeHost.Target.Commands.{on_wire}

-- The queue once the host is connected.
abbrev pub joined : Queue → Controller → Queue
joined queue c = record queue {
  ctrl = some c;
  sq_id = 0;
  cq_id = 0;
  sq_size = 31;
  sqhd = 0;
  sqhd_disabled = false;
  registered = queue.registered ++ (queue.id ∷ []);
}

abbrev pub connect_data : String → String → ConnectData
connect_data host_id host_nqn = record {
  host_id = host_id;
  cntl_id = 0xffff;
  subsys_nqn = discovery_subsys_name;
  host_nqn = host_nqn;
}

pub serve-connect :
    {R : Type 0} (env : Env R) (queue : Queue) (id : ℕ) (host_id host_nqn : String)
    → queue.ctrl ≡ none
    → env.is_uuid host_id ≡ true
    → is_some env.subsystem ≡ true
    → serve env (queue, true) (new_admin_connect_request id 0 (connect_data host_id host_nqn)) ≡ (
      (
        joined queue
            (new_controller queue.id queue.controller_id 0 host_nqn (env.uuid_text host_id)),
        true,
      ),
      rsp (
            on_wire (record {
              command_id = id;
              status = sc_success;
              result = queue.controller_id % 2 ^ 16;
            }))
          ∷ [],
    )
unfolding new_admin_connect_request pdu_of frame_of serve receive header_valid pdu_valid pdu_size
    nvmet_request_init parse_command nvmet_parse_connect_cmd init_frame map_data data_len
    mapped_frame has_inline_data need_data_in is_write execute_frame execute_request execute_connect
    after_create create_nvme_controller poll_response_channel data_out ℕ_discrete list_of
    String_discrete
serve-connect env queue id host_id host_nqn free uuid known =
    rw (free, parse_command) (rw (uuid, known) refl)
