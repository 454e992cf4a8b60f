-- ===== src/Service/Discovery.antt =====
-- service/service.go: discovery over a connection, the choice of a live connection, and the handling
-- of an asynchronous event. The host's `Discover` is a parameter, over a state of the host.
pub mod Live
pub mod Events
pub mod Refresh
pub mod Reconnect
use discovery_client.Prelude.{
  ℕ, String, Bool, true, false, Option, none, some, ◌&&◌, ◌==◌, not, ℕ_eq, is_some, if◌then◌else◌,
  List, [], ◌∷◌, ◌++◌, ltb,
}
use discovery_client.Prelude.Maps.{lookup, insert}
use discovery_client.HostApi.{
  NvmeDiscPageEntry, nvme_nqn_disc, nvme_nqn_nvme, DiscoverRequest, DiscoverError,
  nvme_client_error, other_error,
}
use discovery_client.ClientConfig.Connections.{
  TKey, ClientClusterPair, ClientClusterPair_eq, Connection, ClusterConnections, ConnectionMap,
  cluster, set_state,
}
use discovery_client.ClientConfig.Referrals.{ReferralKey, ReferralKey_eq, ReferralMap}
use discovery_client.Service.{Service, update}

-- The three results of `hostAPI.Discover`.
pub record Reply : Type 0 where
  pub entries : List NvmeDiscPageEntry
  pub id : String
  pub error : Option DiscoverError

-- `DISC_NO_LOG` of pkg/nvmeclient/nvme_client.go.
abbrev pub disc_no_log : ℕ
disc_no_log = 2

-- `service.Discover`, on what the host replied: an empty log is no error.
unfoldable pub discover_result : Reply → Reply
discover_result r = elim r.error [
  | none ↦ r
  | some e ↦ elim e [
    | nvme_client_error status ↦
        if status == disc_no_log then record r { error = none } else record r { entries = [] }
    | other_error ↦ record r { entries = [] }
  ]
]

-- `GetDiscoveryRequest`, less the channel for events.
unfoldable pub get_discovery_request : Connection → ℕ → DiscoverRequest
get_discovery_request conn kato = record {
  transport = conn.key.transport;
  traddr = conn.key.ip;
  trsvcid = conn.key.port;
  hostnqn = conn.hostnqn;
  hostaddr = "";
  kato = kato;
  hostid = "";
}

-- The entries of one type, in order: the two lists that `getLogPageEntries` builds.
unfoldable pub of_type : ℕ → List NvmeDiscPageEntry → List NvmeDiscPageEntry
of_type t [] = []
of_type t (e ∷ entries) = let rest = of_type t entries in if e.sub_type == t then e ∷ rest else rest

abbrev pub nvme_tcp_disc_port : ℕ
nvme_tcp_disc_port = 8009

-- The referral to the server itself.
unfoldable pub self_referral : Connection → NvmeDiscPageEntry
self_referral conn = record {
  port_id = 0;
  cntl_id = 0;
  trsvc_id = nvme_tcp_disc_port;
  subnqn = conn.key.nqn;
  traddr = conn.key.ip;
  sub_type = nvme_nqn_disc;
}

-- The pair under which the service keeps a connection.
abbrev pub pair_of_connection : Connection → ClientClusterPair
pair_of_connection conn = record { cluster_nqn = conn.key.nqn; host_nqn = conn.hostnqn }

-- What `getLogPageEntries` returns without an error.
pub record LogPages : Type 0 where
  pub nvme_entries : List NvmeDiscPageEntry
  pub disc_entries : List NvmeDiscPageEntry
  pub request : DiscoverRequest

unfoldable pub set_active : ConnectionMap → ClientClusterPair → ℕ → ConnectionMap
set_active cm pair p = insert pair (record (cluster cm pair) { active_connection = some p }) cm

-- The object of a connection that answered; a persistent one keeps the id.
unfoldable pub mark_connected : ℕ → String → Connection → Connection
mark_connected kato id c =
    set_state (if ltb 0 kato then record c { connection_id = id } else c) true

-- `getLogPageEntries`, once the host has replied: the connection becomes live and active.
unfoldable pub connected : Service → ℕ → Connection → ℕ → Reply → Service
connected s p conn kato r = record s {
  heap = update p (mark_connected kato r.id) s.heap;
  connections = set_active s.connections (pair_of_connection conn) p;
}

unfoldable pub disconnected_at : Service → ℕ → Service
disconnected_at s p = record s { heap = update p (λ c. set_state c false) s.heap }

-- `kato`: the keep-alive time of a persistent connection.
abbrev pub kato_seconds : ℕ
kato_seconds = 30

module _ {W : Type 0} (discover : W → DiscoverRequest → W × Reply) where
  -- `getLogPageEntries`, for the connection `conn` at the pointer `p`.
  unfoldable pub get_log_page_entries :
      W → Service → ℕ → Connection → ℕ → W × Service × Option LogPages
  get_log_page_entries w s p conn kato =
      let request = get_discovery_request conn kato in
      let (w', reply) = discover w request in
      let r = discover_result reply in
      elim r.error [
        | some _ ↦ (w', disconnected_at s p, none)
        | none ↦ (
          w',
          connected s p conn kato r,
          some (record {
            nvme_entries = of_type nvme_nqn_nvme r.entries;
            disc_entries = of_type nvme_nqn_disc r.entries ++ (self_referral conn ∷ []);
            request = request;
          }),
        )
      ]

  -- `getLiveConnection`: the pointers in the random order that the caller chose. A pointer with no
  -- object does not occur.
  unfoldable pub get_live_connection : W → Service → List ℕ → W × Service × Option ℕ
  get_live_connection w s [] = (w, s, none)
  get_live_connection w s (p ∷ ps) = elim (lookup p s.heap) [
    | none ↦ get_live_connection w s ps
    | some conn ↦
        let (w', s', pages) = get_log_page_entries w s p conn kato_seconds in
        let rest = get_live_connection w' s' ps in if is_some pages then (w', s', some p) else rest
  ]

-- The referral map of the handler of an event.
unfoldable pub referral_map : Connection → List NvmeDiscPageEntry → ReferralMap → ReferralMap
referral_map conn [] m = m
referral_map conn (r ∷ entries) m = referral_map conn entries (
    insert
      (record {
        ip = r.traddr;
        port = r.trsvc_id;
        dp_sub_nqn = conn.key.nqn;
        hostnqn = conn.hostnqn;
      })
      r m)

-- What the handler of an event asks for: a reconnection, or that the I/O controllers be connected
-- and the cache be given the referrals.
pub data EventOutcome : Type 0 where
  reconnect : ClientClusterPair → EventOutcome
  refresh : List NvmeDiscPageEntry → ReferralMap → EventOutcome

module _ {W : Type 0} (discover : W → DiscoverRequest → W × Reply) where
  -- The case of `Start` for an event on a connection; `server_change` is whether the event carries
  -- an error of the server.
  unfoldable pub handle_event : W → Service → ℕ → Connection → Bool → W × Service × EventOutcome
  handle_event w s p conn server_change =
      let (w', s', pages) = get_log_page_entries discover w s p conn 0 in
      if server_change then (w, s, reconnect (pair_of_connection conn)) else elim pages [
        | none ↦ (w', disconnected_at s' p, reconnect (pair_of_connection conn))
        | some l ↦ (w', s', refresh l.nvme_entries (referral_map conn l.disc_entries []))
      ]
