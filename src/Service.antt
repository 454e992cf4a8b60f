-- ===== src/Service.antt =====
-- service/service.go: the service that keeps one live connection to each cluster.
pub mod WellKeyed
pub mod Stale
pub mod Clusters
pub mod Sync
pub mod Active
pub mod Discovery
use discovery_client.Prelude.{
  ℕ, String, Bool, true, false, Option, none, some, ◌&&◌, ◌==◌, not, ℕ_eq, is_some, if◌then◌else◌,
  List, [], ◌∷◌, ◌++◌, ltb,
}
use discovery_client.Prelude.Maps.{lookup, insert}
use discovery_client.HostApi.{
  NvmeDiscPageEntry, nvme_nqn_disc, nvme_nqn_nvme, DiscoverRequest, DiscoverError,
  nvme_client_error, other_error,
}
use discovery_client.ClientConfig.Connections.{
  TKey, ClientClusterPair, ClientClusterPair_eq, Connection, ClusterConnections, ConnectionMap,
  no_connections, cluster, add_connection, delete_connection, exists_in, stop, set_state,
}
use discovery_client.ClientConfig.Referrals.{ReferralKey, ReferralMap}

-- `service`: its map of connections, and the objects that it shares with the cache.
-- `disconnected` records the calls of `hostAPI.Disconnect`.
pub record Service : Type 0 where
  pub connections : ConnectionMap
  pub heap : List (ℕ × Connection)
  pub disconnected : List String

-- The map `modified` of the handler of new connections.
abbrev pub Modified : Type 0
Modified = List (ClientClusterPair × Bool)

-- `modified[pair] = false`, unless it is there.
unfoldable pub note_unmodified : ClientClusterPair → Modified → Modified
note_unmodified pair modified =
    if is_some (lookup pair modified) then modified else insert pair false modified

abbrev id_of : Option Connection → String
id_of none = ""
id_of (some conn) = conn.connection_id

-- An update of a shared object.
unfoldable pub update :
    ℕ → (Connection → Connection) → List (ℕ × Connection) → List (ℕ × Connection)
update p f heap = elim (lookup p heap) [ none ↦ heap | some conn ↦ insert p (f conn) heap ]

-- The body of the inner loop of `removeConnections`, for a connection that is not in the cache.
-- `active` is the active connection of the loop's own copy of the cluster's struct: setting it
-- does not reach the service's map, while the map inside the copy is shared.
unfoldable pub remove_connection :
    Service → ClientClusterPair → Option ℕ → TKey → ℕ → Service × Option ℕ
remove_connection s pair active key conn =
    let is_active : Bool = elim active [ none ↦ false | some a ↦ a == conn ] in
    (
      record {
        connections = delete_connection s.connections pair key;
        heap = update conn stop s.heap;
        disconnected =
            if is_active
            then s.disconnected ++ (id_of (lookup conn s.heap) ∷ [])
            else s.disconnected;
      },
      if is_active then none else active,
    )

-- The inner loop of `removeConnections`, over the connections of one cluster of the service.
unfoldable pub remove_stale :
    Service
    → Modified
    → ClientClusterPair
    → List (TKey × ℕ)
    → Option ℕ
    → List (TKey × ℕ)
    → Service × Modified
remove_stale s modified pair cached active [] = (s, modified)
remove_stale s modified pair cached active ((key, conn) ∷ conns) =
    let (s', active') = remove_connection s pair active key conn in
    let rest = remove_stale s' (insert pair true modified) pair cached active' conns in
    let kept = remove_stale s modified pair cached active conns in
    if exists_in cached conn then kept else rest

-- The body of the outer loop of `removeConnections`.
unfoldable pub remove_cluster :
    Service → Modified → ClientClusterPair → List (TKey × ℕ) → Service × Modified
remove_cluster s modified pair cached = elim (lookup pair s.connections) [
  | none ↦ (s, note_unmodified pair modified)
  | some cc ↦ remove_stale s modified pair cached cc.active_connection cc.cluster_connections_map
]

-- `removeConnections`.
unfoldable pub remove_connections : Service → ConnectionMap → Modified → Service × Modified
remove_connections s [] modified = (s, modified)
remove_connections s ((pair, cached) ∷ from_cache) modified =
    let (s', modified') = remove_cluster s modified pair cached.cluster_connections_map in
    remove_connections s' from_cache modified'

-- The inner loop of `addConnections`.
unfoldable pub add_missing :
    ConnectionMap → Modified → ClientClusterPair → List (TKey × ℕ) → ConnectionMap × Modified
add_missing cm modified pair [] = (cm, modified)
add_missing cm modified pair ((key, conn) ∷ conns) =
    let kept = add_missing cm modified pair conns in
    let added = add_missing (add_connection cm key conn) (insert pair true modified) pair conns in
    if exists_in (cluster cm pair).cluster_connections_map conn then kept else added

-- `addConnections`, which changes only the map.
unfoldable pub add_connections : ConnectionMap → ConnectionMap → Modified → ConnectionMap × Modified
add_connections cm [] modified = (cm, modified)
add_connections cm ((pair, cached) ∷ from_cache) modified =
    let (cm', modified') =
      add_missing cm (note_unmodified pair modified) pair cached.cluster_connections_map in
    add_connections cm' from_cache modified'

abbrev pub is_true : Option Bool → Bool
is_true none = false
is_true (some b) = b

-- The loop over the service's clusters: those to reconnect to.
unfoldable pub to_reconnect : ConnectionMap → Modified → List ClientClusterPair
to_reconnect [] modified = []
to_reconnect ((pair, cc) ∷ cm) modified =
    let rest = to_reconnect cm modified in
    if is_true (lookup pair modified) && not (is_some cc.active_connection)
    then pair ∷ rest
    else rest

-- The case of `Start` for a notification of the cache: the new state, and the clusters for which a
-- reconnection is triggered.
unfoldable pub handle_notification : Service → ConnectionMap → Service × List ClientClusterPair
handle_notification s from_cache =
    let (s', modified) = remove_connections s from_cache [] in
    let (cm, modified') = add_connections s'.connections from_cache modified in
    (record s' { connections = cm }, to_reconnect cm modified')
