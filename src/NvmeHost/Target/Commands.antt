-- ===== src/NvmeHost/Target/Commands.antt =====
-- What the target sends back on the host's commands to a controller (pkg/nvme/tcp_queue.go).
use discovery_client.Prelude.{
  ℕ, zero, suc, false, ◌&&◌, ◌+◌, ◌*◌, ◌/◌, ◌%◌, ◌^◌, true, Option, none, some, ◌==◌, ℕ_eq,
  ℕ_discrete, if◌then◌else◌, [], ◌∷◌, ◌≡◌, refl, arith, ◌∙◌,
}
use discovery_client.Nvme.Sgl.{new_scatter_list}
use discovery_client.Nvme.LogPage.{new_get_log_page_command}
use discovery_client.Nvme.Controller.{
  Controller, Completion, is_ready, sc_success, property_set, property_get, set_features,
}
use discovery_client.Nvme.Queue.{
  Pdu, Command, Queue, accepted, to_controller, nvmet_request_init, parse_command,
  nvmet_parse_fabrics_command, nvmet_parse_discovery_command, new_completion_status,
  property_set_request, property_get_request, get_log_page, set_features_request,
}
use discovery_client.Nvme.Queue.Execute.{
  Env, or_pending, execute_on, execute_request, execute_with, writes, run_on,
}
use discovery_client.Nvme.Queue.Answers.{execute_request-some}
use discovery_client.Nvme.Tcp.{
  completions, next_frame, going_on, list_of, data_len, map_data, header_valid, pdu_valid, pdu_size,
  is_write, need_data_in, needs_data_out, execute_frame, mapped_frame, init_frame, receive,
}
use discovery_client.NvmeHost.Commands.{
  AbstractRequest, pdu_of, frame_of, new_property_set_request, new_property_get_request,
  new_set_feature_async_event_request, new_get_discovery_log_page_request, log_page_words,
}
use discovery_client.NvmeHost.Queue.{rsp}
use discovery_client.NvmeHost.Target.{poll_response_channel, data_out, serve}

module _ {R : Type 0} (env : Env R) (queue : Queue) (c : Controller) (req : AbstractRequest)
    (r : Command) where
  abbrev pdu : Pdu
  pdu = pdu_of req.cmd

  -- What the command does to the controller.
  abbrev pub done : Controller × Option Completion
  done = execute_on env c pdu (new_scatter_list (data_len pdu (to_controller r)) 8192) r

  -- A command that does not write to a nil list is executed, as if there were a list.
  execute_with-list :
      (n : ℕ)
      → (n == 0 && writes env c pdu r) ≡ false
      → execute_with env queue c pdu (list_of n) r
        ≡ run_on env queue c pdu (new_scatter_list n 8192) r
  unfolding execute_with list_of ℕ_discrete
  execute_with-list zero safe = rw safe refl
  execute_with-list (suc n) safe =
      let some_bytes : (suc n == 0) ≡ false = ground arith in rw some_bytes refl

  execute_request-on :
      queue.ctrl ≡ some c
      → (data_len pdu (to_controller r) == 0 && writes env c pdu r) ≡ false
      → execute_request env queue pdu none
          (list_of (data_len pdu (to_controller r)))
          (to_controller r)
        ≡ (record queue { ctrl = some done.0 }, or_pending done.1)
  execute_request-on has safe =
      execute_request-some env queue pdu none (list_of (data_len pdu (to_controller r))) c r has
      ∙ execute_with-list (data_len pdu (to_controller r)) safe

  or_pending-next_frame : (o : Option Completion) → going_on (or_pending o) ≡ next_frame
  or_pending-next_frame none = refl
  or_pending-next_frame (some c) = refl

  receive-on :
      queue.ctrl ≡ some c
      → nvmet_request_init queue pdu ≡ accepted (to_controller r)
      → map_data (to_controller r) (data_len pdu (to_controller r)) req.cmd.sgl_type
        ≡ (sc_success, 0)
      → (data_len pdu (to_controller r) == 0 && writes env c pdu r) ≡ false
      → receive env queue (frame_of req)
        ≡ (record queue { ctrl = some done.0 }, completions (or_pending done.1), next_frame)
  unfolding receive frame_of header_valid pdu_valid pdu_size init_frame mapped_frame need_data_in
      is_write execute_frame ℕ_discrete
  receive-on has init mapped safe =
      rw (init, mapped, execute_request-on has safe, or_pending-next_frame done.1) refl

  -- A command that is accepted and has no data of the host is executed and answered.
  pub serve-command :
      queue.ctrl ≡ some c
      → nvmet_request_init queue pdu ≡ accepted (to_controller r)
      → map_data (to_controller r) (data_len pdu (to_controller r)) req.cmd.sgl_type
        ≡ (sc_success, 0)
      → (data_len pdu (to_controller r) == 0 && writes env c pdu r) ≡ false
      → serve env (queue, true) req ≡ (
        (record queue { ctrl = some done.0 }, true),
        poll_response_channel env
            (some c)
            pdu
            (accepted (to_controller r))
            (completions (or_pending done.1)),
      )
  unfolding serve frame_of
  serve-command has init mapped safe = rw (receive-on has init mapped safe, init, has) refl

-- A completion as it stands on the wire.
abbrev pub on_wire : Completion → Completion
on_wire c = record c { status = new_completion_status c.status }

module _ {R : Type 0} (env : Env R) (queue : Queue) (c : Controller) (has : queue.ctrl ≡ some c)
    (id : ℕ) where
  -- `Property Set` of the host, which the target answers with a completion alone.
  pub serve-property_set :
      (off val : ℕ)
      → let (c', cqe) = property_set c id 0 off (val % 2 ^ 32 + val / 2 ^ 32 * 2 ^ 32) in
        serve env (queue, true) (new_property_set_request id off val)
        ≡ ((record queue { ctrl = some c' }, true), rsp (on_wire cqe) ∷ [])
  unfolding new_property_set_request pdu_of nvmet_request_init parse_command
      nvmet_parse_fabrics_command map_data data_len execute_on poll_response_channel data_out
      needs_data_out is_write writes ℕ_discrete
  serve-property_set off val =
      serve-command env queue c (new_property_set_request id off val) property_set_request has
        (rw has refl) refl refl

  pub serve-property_get :
      (off : ℕ)
      → serve env (queue, true) (new_property_get_request id off) ≡ (
        (queue, true),
        rsp (on_wire (property_get c id ((if off == 0x0 then 1 else 0) % 2 ^ 8) off)) ∷ [],
      )
  unfolding new_property_get_request pdu_of nvmet_request_init parse_command
      nvmet_parse_fabrics_command map_data data_len execute_on poll_response_channel data_out
      needs_data_out is_write writes ℕ_discrete
  serve-property_get off =
      serve-command env queue c (new_property_get_request id off) property_get_request has
        (rw has refl) refl refl
      ∙ rw has refl

  module _ (ready : is_ready c.csts ≡ true) where
    pub serve-set_feature_async_event :
        let (c', cqe) = set_features c id 0x0b (2 ^ 31) in
        serve env (queue, true) (new_set_feature_async_event_request id)
        ≡ ((record queue { ctrl = some c' }, true), rsp (on_wire cqe) ∷ [])
    unfolding new_set_feature_async_event_request pdu_of nvmet_request_init parse_command
        nvmet_parse_discovery_command map_data data_len execute_on poll_response_channel data_out
        needs_data_out is_write writes ℕ_discrete
    serve-set_feature_async_event =
        serve-command env queue c (new_set_feature_async_event_request id) set_features_request has
          (rw (has, parse_command) (rw ready refl)) refl refl

    -- The command for the log page is accepted.
    pub log_page_accepted :
        (size offset nsid : ℕ)
        → nvmet_request_init queue
            (pdu_of (new_get_discovery_log_page_request id size offset nsid).cmd)
          ≡ accepted (to_controller get_log_page)
    unfolding new_get_discovery_log_page_request log_page_words pdu_of nvmet_request_init
        parse_command nvmet_parse_discovery_command new_get_log_page_command ℕ_discrete
    log_page_accepted size offset nsid =
        let w = log_page_words (new_get_log_page_command id size offset nsid) in
        let lid : w.cdw10 % 2 ^ 8 ≡ 0x70 = omega arith in
        rw (has, parse_command) (rw (ready, lid) refl)

    pub log_page_mapped :
        (size offset nsid n : ℕ)
        → map_data
            (to_controller get_log_page)
            n
            (new_get_discovery_log_page_request id size offset nsid).cmd.sgl_type
          ≡ (sc_success, 0)
    unfolding new_get_discovery_log_page_request log_page_words map_data ℕ_discrete
    log_page_mapped size offset nsid n = ground arith
