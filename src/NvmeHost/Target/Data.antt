-- ===== src/NvmeHost/Target/Data.antt =====
-- What the target sends back on the host's commands that ask for data (pkg/nvme/tcp_queue.go).
use discovery_client.Prelude.{
  lt→ltb, Bool, false, ◌&&◌, ℕ, ◌/◌, ◌%◌, ◌^◌, ◌≤◌, String, true, false, some, ◌==◌, ℕ_eq,
  ℕ_discrete, List, [], ◌∷◌, ◌≡◌, refl, sym, ap, arith, ◌∙◌, length, ltb,
}
use discovery_client.Nvme.Sgl.{new_scatter_list}
use discovery_client.Nvme.LogPage.{
  Answer, execute, new_get_log_page_command, get_log_page_len, status_success,
  retain_asynchronous_event,
}
use discovery_client.Nvme.Controller.{Controller, Completion, is_ready, sc_success}
use discovery_client.Nvme.Queue.{
  Pdu, Queue, nvmet_request_init, parse_command, nvmet_parse_discovery_command, identify,
  get_log_page, identify_data,
}
use discovery_client.Nvme.Queue.Execute.{Env, writes, execute_on, execute_identify}
use discovery_client.Nvme.Tcp.{data_len, map_data, is_write, needs_data_out}
use discovery_client.NvmeHost.Commands.{
  pdu_of, new_identify_request, new_get_discovery_log_page_request, log_page_words,
}
use discovery_client.NvmeHost.Queue.{RspPdu, rsp, c2h_data}
use discovery_client.NvmeHost.Session.{copied}
use discovery_client.NvmeHost.Target.{poll_response_channel, data_out, send_data_pdu, filled, serve}
use discovery_client.NvmeHost.Target.Log.{copied-written}
use discovery_client.NvmeHost.Target.Commands.{
  on_wire, serve-command, log_page_accepted, log_page_mapped,
}

not_empty : (n : ℕ) (w : Bool) → 1 ≤ n → (n == 0 && w) ≡ false
not_empty n w h = ground arith

module _ {R : Type 0} (env : Env R) (queue : Queue) (c : Controller) (has : queue.ctrl ≡ some c)
    (ready : is_ready c.csts ≡ true) (id : ℕ) where
  -- The answer to an identify command, where the packed answer has 4096 bytes.
  pub serve-identify :
      length (env.pack_id (identify_data c)) ≡ 4096
      → (cqe : Completion) × (serve env (queue, true) (new_identify_request id)
          ≡ ((queue, true), c2h_data id 4096 (env.pack_id (identify_data c)) ∷ rsp cqe ∷ []))
        × (cqe.command_id ≡ id)
  unfolding new_identify_request pdu_of nvmet_request_init parse_command
      nvmet_parse_discovery_command map_data data_len execute_on execute_identify
      poll_response_channel data_out send_data_pdu filled needs_data_out is_write writes ℕ_discrete
  serve-identify size =
      let p = env.pack_id (identify_data c) in
      let (ok, bytes) = copied-written 4096 8192 p (omega arith) size in
      let served =
        serve-command env queue c (new_identify_request id) identify has
          (rw (has, parse_command) (rw ready refl)) refl refl in
      (
        on_wire (record { command_id = id; status = sc_success; result = 0 }),
        served ∙ rw (ok, bytes, has) refl,
        refl,
      )

  module _ (size offset nsid : ℕ) (fill : ℕ → ℕ → String → List R × ℕ × ℕ)
      (known : env.subsystem ≡ some fill) where
    -- The host's command for a part of the log page, and the answer to it.
    unfoldable pub log_page_pdu : Pdu
    unfolding new_get_discovery_log_page_request
    log_page_pdu = pdu_of (new_get_discovery_log_page_request id size offset nsid).cmd

    unfoldable pub log_page_answer : Answer
    unfolding log_page_pdu
    log_page_answer =
        execute env.pack_header env.pack_entry (some fill) log_page_pdu.log_page log_page_pdu.cdw10
          c.host_nqn (new_scatter_list (get_log_page_len log_page_pdu.log_page) 8192)

    answer-rae : log_page_answer.rae ≡ some false
    unfolding log_page_answer log_page_pdu execute retain_asynchronous_event
        new_get_discovery_log_page_request log_page_words pdu_of new_get_log_page_command
    answer-rae =
        let w = log_page_words (new_get_log_page_command id size offset nsid) in
        let clear : (w.cdw10 / 2 ^ 15 % 2 == 1) ≡ false = ground arith in ap some clear

    pub serve-page :
        c.rae ≡ false
        → log_page_answer.status ≡ status_success
        → 1 ≤ get_log_page_len log_page_pdu.log_page
        → serve env (queue, true) (new_get_discovery_log_page_request id size offset nsid) ≡ (
          (queue, true),
          c2h_data id
                (get_log_page_len log_page_pdu.log_page)
                (copied log_page_answer.sgl_writer.sgl)
              ∷ rsp (on_wire (record { command_id = id; status = sc_success; result = 0 }))
              ∷ [],
        )
    unfolding log_page_answer log_page_pdu map_data data_len execute_on poll_response_channel
        data_out send_data_pdu filled needs_data_out is_write ℕ_discrete pdu_of log_page_words
        new_get_log_page_command
    serve-page rae ok some_bytes =
        let served =
          serve-command env queue c (new_get_discovery_log_page_request id size offset nsid)
            get_log_page has (log_page_accepted env queue c has id ready size offset nsid)
            (log_page_mapped env queue c has id ready size offset nsid
              (get_log_page_len log_page_pdu.log_page))
            (not_empty _ _ some_bytes) in
        let more : ltb 0 (get_log_page_len log_page_pdu.log_page) ≡ true =
          lt→ltb 0 (get_log_page_len log_page_pdu.log_page) some_bytes in
        let same : record queue { ctrl = some (record c { rae = false }) } ≡ queue =
          ap (λ b. record queue { ctrl = some (record c { rae = b }) }) (sym rae)
          ∙ ap (λ o. record queue { ctrl = o }) (sym has) in
        let back : List RspPdu =
          c2h_data id (get_log_page_len log_page_pdu.log_page)
            (copied log_page_answer.sgl_writer.sgl)
          ∷ rsp (on_wire (record { command_id = id; status = sc_success; result = 0 }))
          ∷ [] in
        served ∙ rw (known, answer-rae) (rw (ok, more) (ap (λ q. ((q, true), back)) same))
