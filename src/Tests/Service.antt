-- ===== src/Tests/Service.antt =====
-- The service (service/service.go) on concrete inputs.
use mathlib.Core.List.Perm
use discovery_client.Prelude.{
  ℕ, suc, false, none, some, ◌||◌, ◌==◌, is_some, if◌then◌else◌, [], ◌∷◌, ◌≡◌, refl, arith,
  ℕ_discrete, String_discrete, Bool-cases,
}
use discovery_client.Prelude.Int.{pos, ℤ_discrete, ℤ_eq}
use discovery_client.Prelude.Maps.{lookup, insert, delete}
use discovery_client.HostApi.{DiscoverRequest, nvme_nqn_disc, other_error}
use discovery_client.ClientConfig.Connections.{
  TKey, TKey_eq, TKey_discrete, ClientClusterPair, ClientClusterPair_eq, ClientClusterPair_discrete,
  Connection, ConnectionMap, find, find_in, pair_of, cluster, new_connection,
}
use discovery_client.ClientConfig.Referrals.{ReferralKey_discrete, handle_referrals}
use discovery_client.ClientConfig.Cache.Consistency.{IsConsistent}
use discovery_client.ClientConfig.Cache.Message.{has_pair}
use discovery_client.Service.{Service, handle_notification}
use discovery_client.Service.WellKeyed.{WellKeyed}
use discovery_client.Service.Sync.{cached_or, handle_notification-sync}
use discovery_client.Service.Active.{active_of, handle_notification-active}
use discovery_client.Service.Discovery.{
  Reply, discover_result, get_discovery_request, of_type, self_referral, pair_of_connection,
  referral_map, get_log_page_entries, get_live_connection, handle_event,
}
use discovery_client.Service.Discovery.Live.{Outcome, contains, get_live_connection_lem}
use discovery_client.Service.Discovery.Events.{has_referral, self_key}
use discovery_client.Service.Discovery.Refresh.{
  reply_to, handle_event-sync, handle_event-drops_self,
}
use discovery_client.Service.Discovery.Reconnect.{
  ListensTo, reconnect_to_cluster, reconnect_to_cluster-ListensTo,
}
use discovery_client.Tests.Data.{referral_at, our_pair, one_entry, one_entry-IsConsistent}

program : Unit {0}
unfolding ℕ_discrete String_discrete ℤ_discrete TKey_discrete ClientClusterPair_discrete
    ReferralKey_discrete Bool-cases lookup insert delete find find_in cluster discover_result
    get_discovery_request of_type self_referral referral_map get_log_page_entries
    get_live_connection handle_event has_referral active_of
program = tt

abbrev key_at_port : ℕ → TKey
key_at_port port = record {
  transport = "tcp";
  ip = "10.0.0.1";
  port = pos port;
  nqn = "cluster";
  hostnqn = "host";
}

abbrev connection_at : ℕ → Connection
connection_at port = record (new_connection (key_at_port port) none) { hostnqn = "host" }

-- The service is connected to one server; the cache has another one instead.
abbrev before : Service
before = record {
  connections =
      (
        our_pair,
        record { cluster_connections_map = (key_at_port 8009, 1) ∷ []; active_connection = some 1 },
      )
      ∷ [];
  heap = (1, connection_at 8009) ∷ (2, connection_at 9000) ∷ [];
  disconnected = [];
}

abbrev message : ConnectionMap
message =
    (
      our_pair,
      record { cluster_connections_map = (key_at_port 9000, 2) ∷ []; active_connection = none },
    )
    ∷ []

before-WellKeyed : WellKeyed before.heap before.connections
unfolding program new_connection
before-WellKeyed = (((((refl, refl), tt), (refl, tt)), tt), (refl, tt))

message-WellKeyed : WellKeyed before.heap message
unfolding program new_connection
message-WellKeyed = (((((refl, refl), tt), (refl, tt)), tt), (refl, tt))

handle_notification-sync_example :
    let t = (handle_notification before message).0 in
    ((q : ClientClusterPair) (k : TKey)
      → find_in t.connections q k ≡ cached_or (lookup q message) k (find_in before.connections q k))
    × WellKeyed t.heap t.connections
handle_notification-sync_example =
    handle_notification-sync before message before-WellKeyed message-WellKeyed

-- The removed connection stays the active one.
handle_notification-active_example :
    (active_of (handle_notification before message).0.connections our_pair ≡ some 1)
    × (has_pair our_pair (handle_notification before message).1 ≡ false)
unfolding program
handle_notification-active_example =
    handle_notification-active before message our_pair 1 before-WellKeyed message-WellKeyed refl

-- A host that answers every request with one server, and counts the requests.
abbrev answer : ℕ → DiscoverRequest → ℕ × Reply
answer n request =
    (suc n, record { entries = referral_at "10.0.0.2" ∷ []; id = "nvme0"; error = none })

get_live_connection_lem_example :
    Outcome
      (2 ∷ 1 ∷ [])
      (get_live_connection answer 0 before (2 ∷ 1 ∷ [])).1
      (get_live_connection answer 0 before (2 ∷ 1 ∷ [])).2
get_live_connection_lem_example = get_live_connection_lem answer 0 before (2 ∷ 1 ∷ [])

handle_event-sync_example :
    let referrals =
      referral_map
        (connection_at 8009)
        (referral_at "10.0.0.2" ∷ self_referral (connection_at 8009) ∷ [])
        [] in
    let o = handle_referrals one_entry referrals referrals in
    IsConsistent o.cache
    × (o.error ≡ none)
    × ((k : TKey)
        → is_some (find o.cache.connections k) ≡ (
            if pair_of k == pair_of_connection (connection_at 8009)
            then has_referral
                (connection_at 8009)
                k
                (of_type nvme_nqn_disc (reply_to answer 0 (connection_at 8009)).entries)
              || self_key (connection_at 8009) == k
            else is_some (find one_entry.connections k)))
unfolding program
handle_event-sync_example =
    handle_event-sync answer 0 before 1 (connection_at 8009) _ _ one_entry-IsConsistent refl refl
      (Perm.refl _) (Perm.refl _)

handle_event-drops_self_example :
    let referrals =
      referral_map
        (connection_at 9000)
        (referral_at "10.0.0.2" ∷ self_referral (connection_at 9000) ∷ [])
        [] in
    find (handle_referrals one_entry referrals referrals).cache.connections (key_at_port 9000)
    ≡ none
unfolding program new_connection
handle_event-drops_self_example =
    handle_event-drops_self answer 0 before 2 (connection_at 9000) _ _ one_entry-IsConsistent refl
      refl (Perm.refl _) (Perm.refl _) refl (λ e. ground arith) refl

-- A host that answers at one port only.
abbrev answer_at_9000 : ℕ → DiscoverRequest → ℕ × Reply
answer_at_9000 n request = (
  suc n,
  record {
    entries = [];
    id = "nvme0";
    error = if request.trsvcid == pos 9000 then none else some other_error;
  },
)

-- Two servers of the cluster, of which the second answers.
abbrev both_servers : Service
both_servers = record before {
  connections =
      (
        our_pair,
        record {
          cluster_connections_map = (key_at_port 8009, 1) ∷ (key_at_port 9000, 2) ∷ [];
          active_connection = none;
        },
      )
      ∷ [];
}

reconnect_to_cluster-ListensTo_example :
    let r = reconnect_to_cluster answer_at_9000 (λ ps. ps) 0 both_servers our_pair in
    ListensTo r.2 (1 ∷ 2 ∷ []) r.1
unfolding program contains new_connection
reconnect_to_cluster-ListensTo_example =
    reconnect_to_cluster-ListensTo answer_at_9000 (λ ps. ps) 0 both_servers our_pair _ 2
      (λ ps q. refl) refl refl (connection_at 9000, refl, λ w. refl)
