-- ===== src/NvmeHost/Target/Serves.antt =====
-- The target (pkg/nvme/tcp_queue.go, discovery.go) as a server of the log page that the host
-- (pkg/nvme/nvmehost/tcp_queue.go) reads.
use discovery_client.Prelude.{
  ℕ, ◌+◌, ◌*◌, ◌/◌, ◌^◌, ◌<◌, String, Bool, true, false, some, List, [], ◌∷◌, ◌≡◌, refl, sym, ap,
  arith, ◌∙◌, length, take, drop, map,
}
use discovery_client.Nvme.Sgl.{new_scatter_list}
use discovery_client.Nvme.LogPage.{page_entry_size, get_log_page_len, new_get_log_page_command}
use discovery_client.Nvme.Controller.{Controller, is_ready}
use discovery_client.Nvme.Queue.{Queue}
use discovery_client.Nvme.Queue.Execute.{Env}
use discovery_client.NvmeHost.Commands.{new_get_discovery_log_page_request, pdu_of-log_page_words}
use discovery_client.NvmeHost.Queue.{c2h_data, rsp}
use discovery_client.NvmeHost.Queue.Answered.{idle}
use discovery_client.NvmeHost.Session.{NvmefDiscRspPageEntry, Lib, copied, ok, get_log_page_entries}
use discovery_client.NvmeHost.Session.Pages.{Unpacks}
use discovery_client.NvmeHost.Session.Entries.{ServesLog, get_log_page_entries-ServesLog}
use discovery_client.NvmeHost.Target.{serve}
use discovery_client.NvmeHost.Target.Log.{execute-IsPage}
use discovery_client.NvmeHost.Target.Commands.{on_wire}
use discovery_client.NvmeHost.Target.Data.{log_page_pdu, log_page_answer, serve-page}

module _ {R : Type 0} (env : Env R)
    (entry_size : (e : R) → length (env.pack_entry e) ≡ page_entry_size)
    (header_size : (gen n : ℕ) → length (env.pack_header gen n) ≡ page_entry_size)
    (entry_of : R → NvmefDiscRspPageEntry) (lib : Lib)
    (u : Unpacks env.pack_header env.pack_entry entry_size header_size entry_of lib) (log : List R)
    (gen : ℕ) (fill : ℕ → ℕ → String → List R × ℕ × ℕ) (known : env.subsystem ≡ some fill)
    (serves : (o n : ℕ) (host : String)
      → fill o n host ≡ (take n (drop (o / page_entry_size) log), length log, gen))
    (queue : Queue) (c : Controller) (has : queue.ctrl ≡ some c) (ready : is_ready c.csts ≡ true)
    (clear : c.rae ≡ false) where
  log_page_pdu-new :
      (id size offset nsid : ℕ)
      → (log_page_pdu env queue c has ready id size offset nsid fill known).log_page
        ≡ new_get_log_page_command id size offset nsid
  unfolding log_page_pdu new_get_discovery_log_page_request
  log_page_pdu-new id size offset nsid = pdu_of-log_page_words id size offset nsid

  serve-ServesLog :
      ServesLog env.pack_header env.pack_entry entry_size header_size entry_of lib u
        (serve env)
        log
        gen
        (queue, true)
  unfolding log_page_answer
  serve-ServesLog = record {
    answers = λ id k m nsid one size far le ne.
        let pdu = log_page_pdu env queue c has ready id (1024 * k) (1024 * m) nsid fill known in
        let a = log_page_answer env queue c has ready id (1024 * k) (1024 * m) nsid fill known in
        let (fine, len, page) =
          execute-IsPage env.pack_header env.pack_entry entry_size header_size entry_of lib u log
            gen fill serves pdu.log_page pdu.cdw10 c.host_nqn
            (new_scatter_list (get_log_page_len pdu.log_page) 8192) id k m nsid
            (log_page_pdu-new id (1024 * k) (1024 * m) nsid) refl one size far le ne in
        let bytes : get_log_page_len pdu.log_page ≡ length (copied a.sgl_writer.sgl) =
          len ∙ sym page.size in
        let sent =
          serve-page env queue c has ready id (1024 * k) (1024 * m) nsid fill known clear fine
            (omega (arith, len, one)) in
        (
          copied a.sgl_writer.sgl,
          on_wire (record { command_id = id; status = 0; result = 0 }),
          sent
              ∙ ap
                  (λ n. (
                    (queue, true),
                    c2h_data id n (copied a.sgl_writer.sgl)
                        ∷ rsp (on_wire (record { command_id = id; status = 0; result = 0 }))
                        ∷ [],
                  ))
                  bytes,
          refl,
          page,
        );
  }

  -- The host and the target together: against a target of which the controller is ready, and the
  -- subsystem fills pages from a log whose size fits in 32 bits and whose generation counter fits in 64, `getLogPageEntries` ends with exactly
  -- the entries of the log, in order, with pagination and without, and the target's queue is as
  -- before.
  pub get_log_page_entries-serve :
      (paginated : Bool) (id : ℕ)
      → gen < 2 ^ 64
      → 1024 * (length log + 1) < 2 ^ 32
      → (id' : ℕ) × (get_log_page_entries (serve env) lib paginated ((queue, true), idle id [])
          ≡ (((queue, true), idle id' []), ok (map entry_of log)))
  get_log_page_entries-serve paginated id young small =
      get_log_page_entries-ServesLog env.pack_header env.pack_entry entry_size header_size entry_of
        lib u (serve env) log gen (queue, true) serve-ServesLog young paginated id small
