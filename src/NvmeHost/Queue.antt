-- ===== src/NvmeHost/Queue.antt =====
-- pkg/nvme/nvmehost/tcp_queue.go: the queue of the host, its outstanding requests, and what the loop of
-- `recvPdu` makes of the pdus that come in.
pub mod Answered
use Prim.Native.Nat.{min}
use discovery_client.Prelude.{
  ℕ, ◌+◌, ◌%◌, ◌^◌, String, Bool, true, false, Option, none, some, not, ◌==◌, ℕ_eq, is_some,
  if◌then◌else◌, List, [], ◌∷◌, ◌++◌,
}
use discovery_client.Prelude.Maps.{lookup, insert, delete}
use discovery_client.Nvme.Sgl.{ScatterList, new_scatter_list, new_cursor, write}
use discovery_client.Nvme.Controller.{Completion, sc_success}
use discovery_client.NvmeHost.Commands.{RequestType, is_async, AbstractRequest}

-- What comes over the socket: the answer to the initial request, with the fields that are checked, a
-- completion, data for a request, with its length and the bytes after the pdu, or what the checks of
-- `recvTCPHeader` or `struc.Unpack` refuse.
pub data RspPdu : Type 0 where
  icresp : ℕ → ℕ → RspPdu
  rsp : Completion → RspPdu
  c2h_data : ℕ → ℕ → List ℕ → RspPdu
  unreadable : RspPdu

-- `tcpQueue`, with what has come in and is not read yet; `receiving` until `recvPdu` ends.
pub record TcpQueue : Type 0 where
  pub outstanding_requests : List (ℕ × AbstractRequest)
  pub command_id : ℕ
  pub inbox : List RspPdu
  pub receiving : Bool

-- `newNvmeTCPQueue`, for a server that has sent some pdus.
unfoldable pub new_nvme_tcp_queue : List RspPdu → TcpQueue
new_nvme_tcp_queue pdus = record {
  outstanding_requests = [];
  command_id = 0x01;
  inbox = pdus;
  receiving = true;
}

-- `nextCmdID`: a uint16.
unfoldable pub next_cmd_id : TcpQueue → TcpQueue × ℕ
next_cmd_id queue =
    (record queue { command_id = (queue.command_id + 1) % 2 ^ 16 }, queue.command_id)

-- The request that `parseResponse` returns, if any, or that it fails.
pub data Parsed : Type 0 where
  nothing rejected : Parsed
  parsed : AbstractRequest → Parsed

-- `io.Copy` of the data into a new list of the request: a `bytes.Reader` writes all that it has at
-- once, and nothing if it has nothing.
unfoldable pub copy_data : ScatterList → List ℕ → ScatterList × Bool
copy_data sgl [] = (sgl, true)
copy_data sgl (x ∷ data_bytes) =
    let (w, _, err) = write (new_cursor sgl) (x ∷ data_bytes) in (w.sgl, not (is_some err))

-- `parseResponse` on data for a request.
unfoldable pub parse_data : TcpQueue → ℕ → ℕ → List ℕ → Option AbstractRequest → TcpQueue × Parsed
parse_data queue id data_length data_bytes none = (queue, nothing)
parse_data queue id data_length data_bytes (some request) =
    let (sgl, ok) = copy_data (new_scatter_list data_length (min 1024 data_length)) data_bytes in
    let request' : AbstractRequest = record request { sgl = some sgl } in
    (
      record queue { outstanding_requests = insert id request' queue.outstanding_requests },
      if ok then parsed request' else rejected,
    )

-- `parseResponse` on a completion: the status matters only where no request is found.
unfoldable pub parse_completion : TcpQueue → Completion → Option AbstractRequest → TcpQueue × Parsed
parse_completion queue cqe none = (queue, if cqe.status == sc_success then nothing else rejected)
parse_completion queue cqe (some request) = (
  record queue { outstanding_requests = delete cqe.command_id queue.outstanding_requests },
  parsed (record request { resp = some cqe }),
)

-- `parseResponse`, with `recvNvmeInitConnResponse`.
unfoldable pub parse_response : TcpQueue → RspPdu → TcpQueue × Parsed
parse_response queue (icresp pfv cpda) =
    (queue, if not (pfv == 0) then rejected else if not (cpda == 0) then rejected else nothing)
parse_response queue (rsp cqe) =
    parse_completion queue cqe (lookup cqe.command_id queue.outstanding_requests)
parse_response queue (c2h_data id data_length data_bytes) =
    parse_data queue id data_length data_bytes (lookup id queue.outstanding_requests)
parse_response queue unreadable = (queue, rejected)

-- What `handleRecv` does with a pdu: it keeps on, ends with an error, or gives a completed request to
-- one of the two channels.
pub data Delivery : Type 0 where
  kept_on ended : Delivery
  to_waiter to_events : AbstractRequest → Delivery

unfoldable pub delivery : Parsed → Delivery
delivery nothing = kept_on
delivery rejected = ended
delivery (parsed request) =
    if is_some request.resp
    then (if is_async request.request_type then to_events request else to_waiter request)
    else kept_on

-- `handleRecv`.
unfoldable pub handle_recv : TcpQueue → RspPdu → TcpQueue × Delivery
handle_recv queue pdu = let (queue', p) = parse_response queue pdu in (queue', delivery p)

-- What `waitForResponse` sees of a pdu that was handled, before those that are left: `rest` is its
-- result on these.
unfoldable pub after_delivery :
    List RspPdu
    → TcpQueue × Option AbstractRequest
    → TcpQueue × Delivery
    → TcpQueue × Option AbstractRequest
after_delivery pdus rest (queue, kept_on) = rest
after_delivery pdus rest (queue, ended) = (record queue { inbox = pdus; receiving = false }, none)
after_delivery pdus rest (queue, to_waiter request) = (record queue { inbox = pdus }, some request)
after_delivery pdus rest (queue, to_events request) = rest

-- `waitForResponse` while `recvPdu` reads the pdus: `none` is the timeout. What goes to the channel for
-- events is read by `handleAEN` meanwhile.
unfoldable pub wait_for_response : TcpQueue → List RspPdu → TcpQueue × Option AbstractRequest
wait_for_response queue [] = (record queue { inbox = [] }, none)
wait_for_response queue (pdu ∷ pdus) =
    let handled = handle_recv queue pdu in
    after_delivery pdus (wait_for_response handled.0 pdus) handled

module _ {S : Type 0} (serve : S → AbstractRequest → S × List RspPdu) where
  -- `sendRequest`: what the server answers stands in the inbox.
  unfoldable pub send_request : S → TcpQueue → AbstractRequest → S × TcpQueue
  send_request s queue request =
      let (s', pdus) = serve s request in
      (
        s',
        record queue {
          outstanding_requests = insert request.cmd_id request queue.outstanding_requests;
          inbox = queue.inbox ++ pdus;
        },
      )

  -- A request and the wait for a response, which need not be its own.
  unfoldable pub ask : S → TcpQueue → AbstractRequest → S × TcpQueue × Option AbstractRequest
  ask s queue request =
      let (s', queue') = send_request s queue request in
      if queue'.receiving
      then (let (queue'', r) = wait_for_response queue' queue'.inbox in (s', queue'', r))
      else (s', queue', none)
