-- ===== src/NvmeHost/Session/Received.antt =====
-- A part of the log page as the host takes it up (pkg/nvme/nvmehost/tcp_queue.go).
use discovery_client.Prelude.{
  ℕ, ◌≤◌, false, some, ◌==◌, ℕ_eq, List, [], ◌∷◌, ◌≡◌, refl, arith, length,
}
use discovery_client.Nvme.Controller.{Completion}
use discovery_client.NvmeHost.Commands.{
  AbstractRequest, is_async, new_get_discovery_log_page_request,
}
use discovery_client.NvmeHost.Queue.{RspPdu, rsp, c2h_data, ask}
use discovery_client.NvmeHost.Queue.Answered.{idle, received, received_lem, ask-data}
use discovery_client.NvmeHost.Session.{Lib, copied, read_page, parse_page}
use discovery_client.NvmeHost.Session.Respond.{after}

pub copied-received : (page : List ℕ) → 1 ≤ length page → copied (received page) ≡ page
unfolding copied
copied-received page h = let (_, cap, back) = received_lem page h in rw (cap, copied) back

pub read_page-received :
    (lib : Lib) (page : List ℕ) (offset num : ℕ)
    → 1 ≤ length page
    → read_page lib offset num (some (received page)) ≡ parse_page lib page offset num
unfolding read_page
read_page-received lib page offset num h =
    let (_, cap, _) = received_lem page h in
    let some_bytes : (length page == 0) ≡ false = ground arith in
    rw (cap, some_bytes, copied-received page h) refl

-- A response that comes with a part of the log.
abbrev pub page_response : ℕ → ℕ → ℕ → ℕ → List ℕ → Completion → AbstractRequest
page_response id size offset nsid page cqe =
    record (new_get_discovery_log_page_request id size offset nsid) {
      sgl = some (received page);
      resp = some cqe;
    }

pub ask-page :
    {S : Type 0} (serve : S → AbstractRequest → S × List RspPdu) (s : S) (id size offset nsid : ℕ)
    (page : List ℕ) (cqe : Completion)
    → serve s (new_get_discovery_log_page_request id size offset nsid)
      ≡ (s, c2h_data id (length page) page ∷ rsp cqe ∷ [])
    → cqe.command_id ≡ id
    → 1 ≤ length page
    → ask serve s (idle (after id) []) (new_get_discovery_log_page_request id size offset nsid)
      ≡ (s, idle (after id) [], some (page_response id size offset nsid page cqe))
unfolding new_get_discovery_log_page_request is_async
ask-page serve s id size offset nsid page cqe served same h =
    ask-data serve s s (after id) (new_get_discovery_log_page_request id size offset nsid) cqe page
      served h refl same refl
