-- ===== src/NvmeHost/Queue/Answered.antt =====
-- A request and its response (pkg/nvme/nvmehost/tcp_queue.go), where the server answers in order.
use Prim.Native.Nat.{min}
use discovery_client.Prelude.{
  ℕ, suc, ◌≤◌, true, false, none, some, ℕ_eq, eq_self, List, [], ◌∷◌, ◌≡◌, refl, arith, length,
  ℕ_discrete,
}
use discovery_client.Prelude.Maps.{lookup, insert, delete}
use discovery_client.Nvme.Sgl.{ScatterList, new_scatter_list, new_cursor, write, read}
use discovery_client.Nvme.Sgl.Fresh.{new_scatter_list-IsCursor}
use discovery_client.Nvme.Sgl.Reading.{capacity-write, read-write}
use discovery_client.Nvme.Controller.{Completion}
use discovery_client.NvmeHost.Commands.{AbstractRequest, is_async}
use discovery_client.NvmeHost.Queue.{
  after_delivery, RspPdu, icresp, rsp, c2h_data, TcpQueue, copy_data, parse_data, parse_completion,
  parse_response, delivery, handle_recv, to_waiter, kept_on, wait_for_response, send_request, ask,
}

-- A queue between two requests: nothing is outstanding, and nothing more has come in than `pdus`.
abbrev pub idle : ℕ → List RspPdu → TcpQueue
idle id pdus = record { outstanding_requests = []; command_id = id; inbox = pdus; receiving = true }

abbrev pub completed : AbstractRequest → Completion → AbstractRequest
completed r cqe = record r { resp = some cqe }

abbrev pending : ℕ → AbstractRequest → TcpQueue
pending id r = record (idle id []) { outstanding_requests = (r.cmd_id, r) ∷ [] }

lookup-only : (r : AbstractRequest) → lookup r.cmd_id ((r.cmd_id, r) ∷ []) ≡ some r
unfolding lookup
lookup-only r = rw (eq_self r.cmd_id) refl

delete-only : (r : AbstractRequest) → delete r.cmd_id ((r.cmd_id, r) ∷ []) ≡ []
unfolding delete
delete-only r = rw (eq_self r.cmd_id) refl

insert-only :
    (r r' : AbstractRequest) → insert r.cmd_id r' ((r.cmd_id, r) ∷ []) ≡ (r.cmd_id, r') ∷ []
unfolding insert
insert-only r r' = rw (eq_self r.cmd_id) refl

handle_recv-rsp :
    (id : ℕ) (r : AbstractRequest) (inbox : List RspPdu) (cqe : Completion)
    → cqe.command_id ≡ r.cmd_id
    → is_async r.request_type ≡ false
    → handle_recv (record (pending id r) { inbox = inbox }) (rsp cqe)
      ≡ (idle id inbox, to_waiter (completed r cqe))
unfolding handle_recv parse_response parse_completion delivery
handle_recv-rsp id r inbox cqe same sync = rw (same, lookup-only r) (rw (delete-only r, sync) refl)

wait-rsp :
    (id : ℕ) (r : AbstractRequest) (inbox : List RspPdu) (cqe : Completion) (rest : List RspPdu)
    → cqe.command_id ≡ r.cmd_id
    → is_async r.request_type ≡ false
    → wait_for_response (record (pending id r) { inbox = inbox }) (rsp cqe ∷ rest)
      ≡ (idle id rest, some (completed r cqe))
unfolding wait_for_response after_delivery
wait-rsp id r inbox cqe rest same sync = rw (handle_recv-rsp id r inbox cqe same sync) refl

-- The list that data is put in.
abbrev pub received : List ℕ → ScatterList
received data_bytes =
    let n = length data_bytes in
    (write (new_cursor (new_scatter_list n (min 1024 n))) data_bytes).0.sgl

-- Data of the length that its pdu says fills a new list, and is read back from it.
pub received_lem :
    (data_bytes : List ℕ)
    → 1 ≤ length data_bytes
    → let n = length data_bytes in
      (copy_data (new_scatter_list n (min 1024 n)) data_bytes ≡ (received data_bytes, true))
      × ((received data_bytes).capacity ≡ n)
      × ((read (new_cursor (received data_bytes)) n).1 ≡ data_bytes)
unfolding copy_data new_cursor new_scatter_list
received_lem [] h = absurd (omega arith)
received_lem (x ∷ data_bytes) h =
    let n = suc (length data_bytes) in
    let sgl = new_scatter_list n (min 1024 n) in
    let (v, _, _) = new_scatter_list-IsCursor n (min 1024 n) (omega arith) in
    let (q, err, _) = read-write (new_cursor sgl) (x ∷ data_bytes) v (omega arith) in
    (rw err refl, capacity-write (new_cursor sgl) (x ∷ data_bytes), q)

filled : AbstractRequest → List ℕ → AbstractRequest
filled r data_bytes = record r { sgl = some (received data_bytes) }

handle_recv-data :
    (id : ℕ) (r : AbstractRequest) (inbox : List RspPdu) (data_bytes : List ℕ)
    → r.resp ≡ none
    → 1 ≤ length data_bytes
    → handle_recv
        (record (pending id r) { inbox = inbox })
        (c2h_data r.cmd_id (length data_bytes) data_bytes)
      ≡ (record (pending id (filled r data_bytes)) { inbox = inbox }, kept_on)
unfolding handle_recv parse_response parse_data delivery filled
handle_recv-data id r inbox data_bytes new h =
    rw (lookup-only r, parse_data)
      (rw ((received_lem data_bytes h).0, insert-only r (filled r data_bytes), new) refl)

wait-data :
    (id : ℕ) (r : AbstractRequest) (inbox : List RspPdu) (data_bytes : List ℕ) (cqe : Completion)
    → r.resp ≡ none
    → 1 ≤ length data_bytes
    → cqe.command_id ≡ r.cmd_id
    → is_async r.request_type ≡ false
    → wait_for_response
        (record (pending id r) { inbox = inbox })
        (c2h_data r.cmd_id (length data_bytes) data_bytes ∷ rsp cqe ∷ [])
      ≡ (idle id [], some (completed (filled r data_bytes) cqe))
unfolding wait_for_response after_delivery filled
wait-data id r inbox data_bytes cqe new h same sync =
    rw (handle_recv-data id r inbox data_bytes new h)
      (wait-rsp id (filled r data_bytes) inbox cqe [] same sync)

-- The response to a request whose server answers with a completion alone.
pub ask-rsp :
    {S : Type 0} (serve : S → AbstractRequest → S × List RspPdu) (s s' : S) (id : ℕ)
    (r : AbstractRequest) (cqe : Completion)
    → serve s r ≡ (s', rsp cqe ∷ [])
    → cqe.command_id ≡ r.cmd_id
    → is_async r.request_type ≡ false
    → ask serve s (idle id []) r ≡ (s', idle id [], some (completed r cqe))
unfolding ask send_request insert
ask-rsp serve s s' id r cqe served same sync =
    rw (served, send_request) (rw (wait-rsp id r (rsp cqe ∷ []) cqe [] same sync) refl)

-- The same where the answer to the initial request has not been read yet.
pub ask-first :
    {S : Type 0} (serve : S → AbstractRequest → S × List RspPdu) (s s' : S) (id : ℕ)
    (r : AbstractRequest) (cqe : Completion)
    → serve s r ≡ (s', rsp cqe ∷ [])
    → cqe.command_id ≡ r.cmd_id
    → is_async r.request_type ≡ false
    → ask serve s (idle id (icresp 0 0 ∷ [])) r ≡ (s', idle id [], some (completed r cqe))
unfolding ask send_request insert wait_for_response after_delivery handle_recv parse_response
    delivery ℕ_discrete
ask-first serve s s' id r cqe served same sync =
    rw (served, send_request) (rw (wait-rsp id r (icresp 0 0 ∷ rsp cqe ∷ []) cqe [] same sync) refl)

-- The response to a request whose server answers with data and a completion.
pub ask-data :
    {S : Type 0} (serve : S → AbstractRequest → S × List RspPdu) (s s' : S) (id : ℕ)
    (r : AbstractRequest) (cqe : Completion) (data_bytes : List ℕ)
    → serve s r ≡ (s', c2h_data r.cmd_id (length data_bytes) data_bytes ∷ rsp cqe ∷ [])
    → 1 ≤ length data_bytes
    → r.resp ≡ none
    → cqe.command_id ≡ r.cmd_id
    → is_async r.request_type ≡ false
    → ask serve s (idle id []) r
      ≡ (s', idle id [], some (record r { sgl = some (received data_bytes); resp = some cqe }))
unfolding ask send_request insert filled
ask-data serve s s' id r cqe data_bytes served h new same sync =
    let inbox = c2h_data r.cmd_id (length data_bytes) data_bytes ∷ rsp cqe ∷ [] in
    rw (served, send_request) (rw (wait-data id r inbox data_bytes cqe new h same sync) refl)
