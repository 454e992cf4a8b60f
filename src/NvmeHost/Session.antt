-- ===== src/NvmeHost/Session.antt =====
-- pkg/nvme/nvmehost/tcp_queue.go and tcp_client.go: the requests of a discovery, one after the other.
-- The server is a parameter, over a state of its own.
pub mod Respond
pub mod Received
pub mod Pages
pub mod Entries
pub mod Errors
use Prim.Native.Nat.{max}
use discovery_client.Prelude.{
  ℕ, zero, suc, ◌+◌, ◌-◌, ◌*◌, ◌/◌, ◌%◌, ◌^◌, String, Bool, true, false, Option, none, some, not,
  ◌==◌, ℕ_eq, String_eq, is_some, if◌then◌else◌, List, [], ◌∷◌, ◌++◌, ltb, length, take, drop, ◌≡◌,
  refl,
}
use discovery_client.Prelude.Int.{ℤ, pos, negsuc}
use discovery_client.HostApi.{NvmeDiscPageEntry}
use discovery_client.Nvme.Sgl.{ScatterList, new_cursor, read}
use discovery_client.Nvme.LogPage.{page_entry_size}
use discovery_client.Nvme.Queue.{ConnectData, discovery_subsys_name}
use discovery_client.NvmeHost.Commands.{
  AbstractRequest, new_admin_connect_request, new_property_set_request, new_property_get_request,
  new_identify_request, new_set_feature_async_event_request, new_keep_alive_request,
  new_async_event_request, new_get_discovery_log_page_request,
}
use discovery_client.NvmeHost.Queue.{
  RspPdu, TcpQueue, new_nvme_tcp_queue, next_cmd_id, send_request, ask, wait_for_response,
}

-- `NvmefDiscRspPageEntry`, the fields that are read, with the zeroes at the end of the texts trimmed.
pub record NvmefDiscRspPageEntry : Type 0 where
  pub sub_type : ℕ
  pub port_id : ℕ
  pub cntl_id : ℕ
  pub trsvc_id : String
  pub subnqn : String
  pub traddr : String

-- The library's functions: `struc.Unpack` of the header of a log page (its generation counter and its
-- number of records), of an entry, and of the name in the answer to an identify command, each of
-- bytes of their size at least; `strconv.Atoi`; and the bytes of the host's id, `hex.DecodeString`
-- after `removeDash`. And the timer of `Discover`, which cancels the context after 10 seconds: how many
-- requests of the loop for the pages it allows beyond one for each record.
pub record Lib : Type 0 where
  pub unpack_header : List ℕ → ℕ × ℕ
  pub unpack_entry : List ℕ → NvmefDiscRspPageEntry
  pub unpack_sub_nqn : List ℕ → Option String
  pub atoi : String → Option ℤ
  pub decode_host_id : String → String
  pub rounds : ℕ

pub data HostError : Type 0 where
  no_response no_data short_page bad_identify wrong_count gen_ctr_changed no_host_id no_dial
        aborted :
      HostError

-- How an operation ends: with a result, an error or a panic.
pub data Outcome {ℓ} (A : Type ℓ) : Type ℓ where
  ok : A → Outcome A
  failed : HostError → Outcome A
  crashed : Outcome A

-- The bytes that `io.Copy` takes from the reader of a list: all of them, as one read of its size.
unfoldable pub copied : ScatterList → List ℕ
copied sgl = (read (new_cursor sgl) sgl.capacity).1

-- `recvLogPageDataPdu`, with the number of whole entries that are left.
unfoldable pub recv_entries :
    (List ℕ → NvmefDiscRspPageEntry) → ℕ → ℕ → ℕ → List ℕ → List NvmefDiscRspPageEntry
recv_entries unpack zero i num_rec page = []
recv_entries unpack (suc whole) i num_rec page =
    let rest = recv_entries unpack whole (i + 1) num_rec (drop page_entry_size page) in
    if ltb i num_rec then unpack (take page_entry_size page) ∷ rest else []

unfoldable pub recv_log_page_data_pdu : Lib → List ℕ → ℕ → ℕ → List NvmefDiscRspPageEntry
recv_log_page_data_pdu lib page offset num_rec =
    recv_entries lib.unpack_entry (length page / page_entry_size) (offset / 1024) num_rec page

-- What `sendDiscLogPageRequest` makes of the bytes of a page: the number of records, the generation
-- counter and the entries.
unfoldable pub parse_page : Lib → List ℕ → ℕ → ℕ → Outcome (ℕ × ℕ × List NvmefDiscRspPageEntry)
parse_page lib page offset num =
    if ltb (length page) page_entry_size
    then failed short_page
    else let (gen_ctr, num_rec) = lib.unpack_header (take page_entry_size page) in
      ok (num_rec, gen_ctr, recv_log_page_data_pdu lib (drop page_entry_size page) offset num)

-- `sendDiscLogPageRequest` once there is a response: `Size` of a nil list is a panic.
unfoldable pub read_page :
    Lib → ℕ → ℕ → Option ScatterList → Outcome (ℕ × ℕ × List NvmefDiscRspPageEntry)
read_page lib offset num none = crashed
read_page lib offset num (some sgl) =
    if sgl.capacity == 0 then ok (0, 0, []) else parse_page lib (copied sgl) offset num

-- `recvIdentifyDataPdu`, and the checks of `sendIdentifyRequest` before it.
unfoldable pub check_identify : Lib → Option ScatterList → Outcome (Unit {0})
check_identify lib none = failed no_data
check_identify lib (some sgl) = elim (lib.unpack_sub_nqn (copied sgl)) [
  | none ↦ failed bad_identify
  | some sub_nqn ↦ if not (sub_nqn == discovery_subsys_name) then failed bad_identify else ok tt
]

-- `uint16` of an int.
unfoldable pub to_uint16 : ℤ → ℕ
to_uint16 (pos n) = n % 2 ^ 16
to_uint16 (negsuc n) = 2 ^ 16 - 1 - n % 2 ^ 16

-- The entries of `Discover`: a service id that is not a number becomes 0.
unfoldable pub service_id : Lib → String → ℕ
service_id lib text = elim (lib.atoi text) [ none ↦ 0 | some n ↦ to_uint16 n ]

unfoldable pub to_response : Lib → List NvmefDiscRspPageEntry → List NvmeDiscPageEntry
to_response lib [] = []
to_response lib (e ∷ entries) =
    record {
      port_id = e.port_id;
      cntl_id = e.cntl_id;
      trsvc_id = service_id lib e.trsvc_id;
      subnqn = e.subnqn;
      traddr = e.traddr;
      sub_type = e.sub_type;
    }
    ∷ to_response lib entries

-- An operation on the server and the queue; after an error or a panic nothing follows.
abbrev pub M : Type 0 → Type 0 → Type 0
M S A = S × TcpQueue → (S × TcpQueue) × Outcome A

abbrev pub go_on :
    {S A B : Type 0} → (A → M S B) → (S × TcpQueue) × Outcome A → (S × TcpQueue) × Outcome B
go_on f (st, ok a) = f a st
go_on f (st, failed e) = (st, failed e)
go_on f (st, crashed) = (st, crashed)

infixl 5 ◌>>=◌ ◌>>◌
abbrev pub ◌>>=◌ : {S A B : Type 0} → M S A → (A → M S B) → M S B
◌>>=◌ m f st = go_on f (m st)

abbrev pub ◌>>◌ : {S B : Type 0} → M S (Unit {0}) → M S B → M S B
m >> k = m >>= λ _. k

abbrev pub give : {S A : Type 0} → Outcome A → M S A
give o st = (st, o)

pub bind_ok :
    {S A B : Type 0} (f : A → M S B) {r : (S × TcpQueue) × Outcome A} {st : S × TcpQueue} {a : A}
    → r ≡ (st, ok a)
    → go_on f r ≡ f a st
bind_ok f h = rw h refl

module _ {S : Type 0} (serve : S → AbstractRequest → S × List RspPdu) (lib : Lib) where
  -- A request under the next id, and the response, if it comes in time.
  unfoldable pub respond : (ℕ → AbstractRequest) → M S AbstractRequest
  respond new (s, queue) =
      let (queue', id) = next_cmd_id queue in
      let (s', queue'', r) = ask serve s queue' (new id) in
      ((s', queue''), elim r [ none ↦ failed no_response | some request ↦ ok request ])

  -- A request whose response is not looked at, not even its status.
  unfoldable pub request_only : (ℕ → AbstractRequest) → M S (Unit {0})
  request_only new = respond new >>= λ r. give (ok tt)

  -- `sendConnectRequest`, `sendSetPropertyRequest`, `sendGetPropertyRequest`,
  -- `sendAsyncEventSetFeature`.
  unfoldable pub send_connect_request : String → String → M S (Unit {0})
  send_connect_request hostnqn host_id = request_only (λ id.
      new_admin_connect_request id 0 (record {
        host_id = lib.decode_host_id host_id;
        cntl_id = 0xffff;
        subsys_nqn = discovery_subsys_name;
        host_nqn = hostnqn;
      }))

  unfoldable pub send_set_property_request : ℕ → ℕ → M S (Unit {0})
  send_set_property_request offset val = request_only (λ id. new_property_set_request id offset val)

  unfoldable pub send_get_property_request : ℕ → M S (Unit {0})
  send_get_property_request offset = request_only (λ id. new_property_get_request id offset)

  unfoldable pub send_async_event_set_feature : M S (Unit {0})
  send_async_event_set_feature = request_only (λ id. new_set_feature_async_event_request id)

  -- `setControllerConfiguration`: CC is at 0x14, CSTS at 0x1c.
  unfoldable pub set_controller_configuration : ℕ → M S (Unit {0})
  set_controller_configuration value = do
    send_set_property_request 0x14 value
    send_get_property_request 0x1c

  -- `setProperties`: CAP is at 0, VS at 0x8.
  unfoldable pub set_properties : M S (Unit {0})
  set_properties = do
    send_get_property_request 0x0
    set_controller_configuration 0x460001
    send_get_property_request 0x8
    send_get_property_request 0x0

  -- `sendIdentifyRequest`.
  unfoldable pub send_identify_request : M S (Unit {0})
  send_identify_request =
      respond (λ id. new_identify_request id) >>= λ r. give (check_identify lib r.sgl)

  -- `sendDiscLogPageRequest`: it looks at the data, and not at the status.
  unfoldable pub send_disc_log_page_request :
      ℕ → ℕ → ℕ → ℕ → M S (ℕ × ℕ × List NvmefDiscRspPageEntry)
  send_disc_log_page_request size offset nsid num =
      respond (λ id. new_get_discovery_log_page_request id size offset nsid) >>= λ r.
      give (read_page lib offset num r.sgl)

  -- The loop of `getLogPageEntries` with pagination. Its fuel is the number of requests before the timer
  -- of `Discover` cancels the context: the one after those returns the error "aborted". (That request, and
  -- what `Stop` sends when the timer expires, are left out of the state.)
  unfoldable pub page_loop : ℕ → ℕ → List NvmefDiscRspPageEntry → M S (List NvmefDiscRspPageEntry)
  page_loop zero num_rec res st = (st, if ltb (length res) num_rec then failed aborted else ok res)
  page_loop (suc fuel) num_rec res st =
      let rest =
        (send_disc_log_page_request 4096 (length res * 1024 % 2 ^ 64) 0x0 num_rec >>= λ page.
        page_loop fuel num_rec (res ++ page.2))
          st in
      if ltb (length res) num_rec then rest else (st, ok res)

  -- The entries of `getLogPageEntries`, with and without pagination.
  unfoldable pub all_entries : Bool → ℕ → M S (List NvmefDiscRspPageEntry)
  all_entries true num_rec = page_loop (num_rec + lib.rounds) num_rec []
  all_entries false num_rec =
      send_disc_log_page_request ((page_entry_size + num_rec % 2 ^ 32 * page_entry_size) % 2 ^ 32) 0
        0 num_rec
      >>= λ page. give (ok page.2)

  -- The end of `getLogPageEntries`: the checks of the number of entries and of the generation counter,
  -- which is read again.
  unfoldable pub check_entries :
      ℕ → ℕ → List NvmefDiscRspPageEntry → M S (List NvmefDiscRspPageEntry)
  check_entries num_rec gen_ctr res st =
      let rest =
        (send_disc_log_page_request 1024 0 0 0 >>= λ last.
        give (if gen_ctr == last.1 then ok res else failed gen_ctr_changed))
          st in
      if length res == num_rec then rest else (st, failed wrong_count)

  -- `getLogPageEntries`.
  unfoldable pub get_log_page_entries : Bool → M S (List NvmefDiscRspPageEntry)
  get_log_page_entries paginated = do
    first ← send_disc_log_page_request 1024 0 0xffffffff 0
    res ← all_entries paginated first.0
    check_entries first.0 first.1 res

  -- `Discover` of the client, once the connection stands: `host_id` is the text of the host's id.
  unfoldable pub discover_session : String → String → Bool → M S (List NvmeDiscPageEntry)
  discover_session hostnqn host_id paginated = do
    send_connect_request hostnqn host_id
    set_properties
    send_identify_request
    send_async_event_set_feature
    entries ← get_log_page_entries paginated
    give (ok (to_response lib entries))

  -- `sendKeepAlive`, under the id 0.
  unfoldable pub send_keep_alive : M S (Unit {0})
  send_keep_alive (s, queue) =
      let (s', queue', r) = ask serve s queue (new_keep_alive_request 0) in
      ((s', queue'), elim r [ none ↦ failed no_response | some request ↦ ok tt ])

  -- `sendAsyncEventRequest`, which does not wait.
  unfoldable pub send_async_event_request : S × TcpQueue → S × TcpQueue
  send_async_event_request (s, queue) =
      let (queue', id) = next_cmd_id queue in
      send_request serve s queue' (new_async_event_request id)

  -- `Stop` of the client: the controller is told to shut down, and an error of that is logged.
  unfoldable pub stop : S × TcpQueue → S
  stop st = (set_controller_configuration 0x464001 st).0.0
