-- ===== src/NvmeHost/Pool.antt =====
-- pkg/nvme/nvmehost/nvmehost_impl.go: the table of the connections that stay open.
pub mod Slots
pub mod Requests
pub mod Accounts
use discovery_client.Prelude.{
  ℕ, ◌+◌, String, Bool, true, false, Option, none, some, ◌&&◌, ◌==◌, not, String_eq, ℕ_eq, is_some,
  if◌then◌else◌, List, [], ◌∷◌, ◌++◌,
}
use discovery_client.Prelude.Int.{ℤ_eq}
use discovery_client.Prelude.Maps.{lookup, insert, delete}
use discovery_client.HostApi.{NvmeDiscPageEntry, DiscoverRequest}

-- `connInfo`: a client is a pointer, here a number.
pub record ConnInfo : Type 0 where
  pub request : DiscoverRequest
  pub client : ℕ

-- `hostApiImp`. A `ConnectionID` is the decimal of a number, and stands as that number. Besides the
-- table and the counter: the clients that were made and not stopped, and the next pointer.
pub record Pool : Type 0 where
  pub conn_tbl : List (ℕ × ConnInfo)
  pub i : ℕ
  pub running : List ℕ
  pub next_client : ℕ

-- `NewHostApi`.
unfoldable pub new_host_api : Pool
new_host_api = record { conn_tbl = []; i = 1; running = []; next_client = 0 }

-- The comparison of two requests in `findClient`: all of the fields that name a server, and `Kato`.
unfoldable pub same_request : DiscoverRequest → DiscoverRequest → Bool
same_request s r =
    if s.transport == r.transport
      && (s.traddr == r.traddr
          && (s.trsvcid == r.trsvcid && (s.hostnqn == r.hostnqn && s.hostaddr == r.hostaddr)))
    then s.kato == r.kato
    else false

-- The loop of `findClient` over the table, in the order of its visit.
unfoldable pub find_in_table : List (ℕ × ConnInfo) → DiscoverRequest → Option ℕ
find_in_table [] r = none
find_in_table ((cid, c) ∷ rest) r =
    if same_request c.request r then some cid else find_in_table rest r

-- `findClient`, with `nextConnectionID`.
unfoldable pub find_client : Pool → DiscoverRequest → ℕ × Bool
find_client h r = elim (find_in_table h.conn_tbl r) [ none ↦ (h.i, false) | some cid ↦ (cid, true) ]

-- `Stop` of a client ends it.
unfoldable pub without_client : ℕ → List ℕ → List ℕ
without_client client [] = []
without_client client (other ∷ rest) =
    let left = without_client client rest in if other == client then left else other ∷ left

-- `Disconnect`: whether the connection was found.
unfoldable pub disconnect : Pool → ℕ → Pool × Bool
disconnect h cid = elim (lookup cid h.conn_tbl) [
  | none ↦ (h, false)
  | some info ↦ (
    record h { conn_tbl = delete cid h.conn_tbl; running = without_client info.client h.running },
    true,
  )
]

-- The results of `Discover`: the entries, the connection and whether there is an error.
pub record Discovered : Type 0 where
  pub entries : List NvmeDiscPageEntry
  pub connection_id : ℕ
  pub failed : Bool

-- `Discover` once the client has the entries of a connection that stays.
unfoldable pub keep_client : Pool → DiscoverRequest → ℕ → List NvmeDiscPageEntry → Pool × Discovered
keep_client h r client response =
    let (cid, found) = find_client h r in
    let (h', _) = disconnect h cid in
    (
      record h' {
        conn_tbl = insert cid (record { request = r; client = client }) h'.conn_tbl;
        i = if found then h'.i else h'.i + 1;
      },
      record { entries = response; connection_id = cid; failed = false },
    )

-- How `Discover` of a new client ends: with the entries, with an error, or with the error after the
-- timer of `startStopTimer` has expired, which stops the client. (A timer that expires only once the
-- entries are there is left out.)
pub data Served : Type 0 where
  answers : List NvmeDiscPageEntry → Served
  fails times_out : Served

-- `Discover`: `served` is how `Discover` of the new client ends. The two structs `NvmeDiscPageEntry`
-- have the same fields, which `createDiscoveryEntries` copies.
unfoldable pub discover : Pool → DiscoverRequest → Served → Pool × Discovered
discover h r served =
    let client = h.next_client in
    let started : Pool = record h { running = client ∷ h.running; next_client = client + 1 } in
    let stopped : Pool = record started { running = without_client client started.running } in
    let error : Discovered = record { entries = []; connection_id = 0; failed = true } in
    elim served [
      | fails ↦ (started, error)
      | times_out ↦ (stopped, error)
      | answers response ↦
          if r.kato == 0
          then (stopped, record { entries = response; connection_id = 0; failed = false })
          else keep_client started r client response
    ]

-- What a client of the pool asks of it.
pub data Call : Type 0 where
  discovers : DiscoverRequest → Served → Call
  disconnects : ℕ → Call

abbrev pub call : Pool → Call → Pool
call h (discovers r served) = (discover h r served).0
call h (disconnects cid) = (disconnect h cid).0

abbrev pub calls : Pool → List Call → Pool
calls h [] = h
calls h (c ∷ cs) = calls (call h c) cs

-- A notification to the service, `AENStruct`: whether `ServerChange` holds an error.
pub data Notice : Type 0 where
  log_changed server_changed : Notice

-- What `handleChannel` receives: an event of the server, the end of the channel for events, and the
-- end of the one for keep-alive, which `keepAlive` closes.
pub data Signal : Type 0 where
  aen aen_closed ka_done : Signal

-- The loop of `handleChannel`: what it pushes to the service.
unfoldable pub handle_channel : List Signal → List Notice
handle_channel [] = []
handle_channel (aen ∷ signals) = log_changed ∷ handle_channel signals
handle_channel (aen_closed ∷ signals) = []
handle_channel (ka_done ∷ signals) = server_changed ∷ []
