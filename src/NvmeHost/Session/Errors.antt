-- ===== src/NvmeHost/Session/Errors.antt =====
-- Answers of a server that the host (pkg/nvme/nvmehost/tcp_queue.go) does not expect.
use discovery_client.Prelude.{
  ℕ, zero, suc, ◌+◌, ◌*◌, ◌/◌, ◌%◌, ◌^◌, ◌≤◌, ◌<◌, true, false, ℕ_eq, List, [], ◌∷◌, ◌++◌, ◌≡◌,
  refl, ap, arith, ◌∙◌, length, ltb, take, drop, length-drop, append-nil,
}
use discovery_client.Nvme.Controller.{Completion}
use discovery_client.Nvme.LogPage.{page_entry_size}
use discovery_client.NvmeHost.Commands.{
  AbstractRequest, is_async, new_get_discovery_log_page_request,
}
use discovery_client.NvmeHost.Queue.{RspPdu, rsp, c2h_data}
use discovery_client.NvmeHost.Queue.Answered.{idle, completed, ask-rsp}
use discovery_client.NvmeHost.Session.{
  NvmefDiscRspPageEntry, Lib, ok, failed, aborted, crashed, read_page, parse_page, recv_entries,
  recv_log_page_data_pdu, send_disc_log_page_request, page_loop, give, bind_ok,
}
use discovery_client.NvmeHost.Session.Received.{read_page-received, page_response, ask-page}
use discovery_client.NvmeHost.Session.Respond.{after, respond_lem}

whole_header : (page : List ℕ) → 1024 ≤ length page → ltb (length page) page_entry_size ≡ false
whole_header page h = ground arith

after-add : (id n : ℕ) → (id + suc n) % 2 ^ 16 ≡ (after id + n) % 2 ^ 16
after-add id n = omega arith

after-lt : (id : ℕ) → after id < 2 ^ 16
after-lt id = omega arith

module _ {S : Type 0} (serve : S → AbstractRequest → S × List RspPdu) (lib : Lib) where
  -- A server that answers the request for a part of the log page with a completion and no data, as one
  -- does that refuses the command, makes the host panic, whatever the status of the completion.
  pub send_disc_log_page_request-crashed :
      (s s' : S) (id size offset nsid num : ℕ) (cqe : Completion)
      → serve s (new_get_discovery_log_page_request id size offset nsid) ≡ (s', rsp cqe ∷ [])
      → cqe.command_id ≡ id
      → send_disc_log_page_request serve lib size offset nsid num (s, idle id [])
        ≡ ((s', idle (after id) []), crashed)
  unfolding send_disc_log_page_request new_get_discovery_log_page_request is_async read_page
  send_disc_log_page_request-crashed s s' id size offset nsid num cqe served same =
      let r = new_get_discovery_log_page_request id size offset nsid in
      let asked = ask-rsp serve s s' (after id) r cqe served same refl in
      bind_ok (λ r. give (read_page lib offset num r.sgl))
        (respond_lem serve lib s s' id []
          (λ i. new_get_discovery_log_page_request i size offset nsid) (idle (after id) [])
          (completed r cqe) asked)

  -- A page that holds a header and no entry.
  send_disc_log_page_request_header :
      (s : S) (id size offset nsid num : ℕ) (page : List ℕ) (cqe : Completion)
      → serve s (new_get_discovery_log_page_request id size offset nsid)
        ≡ (s, c2h_data id (length page) page ∷ rsp cqe ∷ [])
      → cqe.command_id ≡ id
      → 1024 ≤ length page
      → length page < 2048
      → (gen_ctr num_rec : ℕ) × (send_disc_log_page_request serve lib size offset nsid num
            (s, idle id [])
          ≡ ((s, idle (after id) []), ok (num_rec, gen_ctr, [])))
  unfolding send_disc_log_page_request parse_page recv_log_page_data_pdu recv_entries
  send_disc_log_page_request_header s id size offset nsid num page cqe served same long short =
      let asked = ask-page serve s id size offset nsid page cqe served same (omega arith) in
      let sent =
        bind_ok (λ r. give (read_page lib offset num r.sgl))
          (respond_lem serve lib s s id []
            (λ i. new_get_discovery_log_page_request i size offset nsid) (idle (after id) [])
            (page_response id size offset nsid page cqe) asked) in
      let h = lib.unpack_header (take page_entry_size page) in
      let whole : length (drop page_entry_size page) / page_entry_size ≡ 0 =
        omega (arith, length-drop page_entry_size page) in
      let enough = whole_header page long in
      (
        h.0,
        h.1,
        sent
            ∙ ap (λ o. ((s, idle (after id) []), o))
                (read_page-received lib page offset num (omega arith) ∙ rw (enough, whole) refl),
      )

  -- A server that answers each request of the loop for a part of the log page with a header alone, while
  -- entries are missing, keeps the host asking for the same part under one id after the other, until
  -- the timer of `Discover` has cancelled the context: then the loop ends with the error "aborted".
  pub page_loop-aborted :
      (fuel id num : ℕ) (s : S) (res : List NvmefDiscRspPageEntry) (page : List ℕ)
      (cqe : ℕ → Completion)
      → id < 2 ^ 16
      → length res < num
      → 1024 ≤ length page
      → length page < 2048
      → ((i : ℕ) → (cqe i).command_id ≡ i)
      → ((i : ℕ)
          → serve s (new_get_discovery_log_page_request i 4096 (length res * 1024 % 2 ^ 64) 0)
            ≡ (s, c2h_data i (length page) page ∷ rsp (cqe i) ∷ []))
      → page_loop serve lib fuel num res (s, idle id [])
        ≡ ((s, idle ((id + fuel) % 2 ^ 16) []), failed aborted)
  unfolding page_loop
  page_loop-aborted zero id num s res page cqe small more long short same served =
      let left : ltb (length res) num ≡ true = ground arith in
      let same_id : (id + 0) % 2 ^ 16 ≡ id = omega arith in rw (left, same_id) refl
  page_loop-aborted (suc fuel) id num s res page cqe small more long short same served =
      let left : ltb (length res) num ≡ true = ground arith in
      let (gen_ctr, num_rec, sent) =
        send_disc_log_page_request_header s id 4096 (length res * 1024 % 2 ^ 64) 0 num page (cqe id)
          (served id) (same id) long short in
      let step = bind_ok (λ page. page_loop serve lib fuel num (res ++ page.2)) sent in
      let none_more : res ++ [] ≡ res = append-nil res in
      let last_id : (id + suc fuel) % 2 ^ 16 ≡ (after id + fuel) % 2 ^ 16 = after-add id fuel in
      rw (left, last_id)
        (step
          ∙ rw none_more (
              page_loop-aborted fuel (after id) num s res page cqe (after-lt id) more long short
                same served))
