-- ===== src/Service/Clusters.antt =====
-- `removeConnections` (service/service.go): which connections of the service stay.
use discovery_client.Prelude.{
  ℕ, Option, none, some, ◌==◌, ℕ_eq, List, ◌≡◌, refl, arith, if◌then◌else◌, Option-cases, inl, inr,
}
use discovery_client.Prelude.Maps.{lookup}
use discovery_client.ClientConfig.Connections.{
  TKey, TKey_eq, ClientClusterPair, ClientClusterPair_eq, ClusterConnections, Connection,
  ConnectionMap, key_at, cluster, find_in,
}
use discovery_client.Service.{Service, Modified, remove_cluster}
use discovery_client.Service.WellKeyed.{
  Keyed, WellKeyed, points_to, exists_in-lookup, Keyed-cluster, key_at-lookup,
}
use discovery_client.Service.Stale.{stale, remove_stale-RemovesStale, stale-lookup}

-- The service's connection for a key, if it is the cache's.
abbrev pub kept_of : Option ℕ → Option ℕ → Option ℕ
kept_of cached none = none
kept_of cached (some p) = if points_to cached p then some p else none

-- The body of the outer loop keeps, in its cluster, the connections that the cache has.
pub record RemovesCluster (s : Service) (pair : ClientClusterPair) (cached : List (TKey × ℕ))
    (t : Service) : Type 0 where
  pub found :
      (q : ClientClusterPair) (k : TKey)
      → find_in t.connections q k ≡ (
          if pair == q
          then kept_of (lookup k cached) (find_in s.connections q k)
          else find_in s.connections q k)
  pub keys : (p : ℕ) → key_at t.heap p ≡ key_at s.heap p
  pub keyed : WellKeyed t.heap t.connections

-- What the service has for a key, split by what the cluster's map has.
find_in-hit :
    (cm : ConnectionMap) (pair : ClientClusterPair) (cc : ClusterConnections) (k : TKey)
    → lookup pair cm ≡ some cc
    → find_in cm pair k ≡ lookup k cc.cluster_connections_map
unfolding find_in cluster
find_in-hit cm pair cc k h = rw h

find_in-miss :
    (cm : ConnectionMap) (pair : ClientClusterPair) (k : TKey)
    → lookup pair cm ≡ none
    → find_in cm pair k ≡ none
unfolding find_in cluster lookup
find_in-miss cm pair k h = ground arith

cluster-hit :
    (cm : ConnectionMap) (pair : ClientClusterPair) (cc : ClusterConnections)
    → lookup pair cm ≡ some cc
    → cluster cm pair ≡ cc
unfolding cluster
cluster-hit cm pair cc h = rw h

kept_of-stale :
    (heap : List (ℕ × Connection)) (pair : ClientClusterPair) (cached m : List (TKey × ℕ))
    (k : TKey)
    → Keyed heap pair cached
    → Keyed heap pair m
    → (if stale cached k m then none else lookup k m) ≡ kept_of (lookup k cached) (lookup k m)
kept_of-stale heap pair cached m k c h = elim (Option-cases (lookup k m)) [
  | inl miss ↦ ground (arith, miss)
  | inr (p, hit) ↦ ground (
    arith,
    hit,
    stale-lookup cached k m h.1,
    exists_in-lookup heap pair cached k p c (key_at-lookup heap pair m k p h hit),
  )
]

pub remove_cluster-RemovesCluster :
    (s : Service) (modified : Modified) (pair : ClientClusterPair) (cached : List (TKey × ℕ))
    → WellKeyed s.heap s.connections
    → Keyed s.heap pair cached
    → RemovesCluster s pair cached (remove_cluster s modified pair cached).0
unfolding remove_cluster
remove_cluster-RemovesCluster s modified pair cached w c =
    elim (Option-cases (lookup pair s.connections)) [
      | inl miss ↦
          rw (miss, remove_cluster)
            (record {
              found = λ q k. ground (arith, find_in-miss s.connections pair k miss);
              keys = λ p. refl;
              keyed = w;
            })
      | inr (cc, hit) ↦
          let m = cc.cluster_connections_map in
          let st = remove_stale-RemovesStale s modified pair cached cc.active_connection m in
          let k : Keyed s.heap pair m =
            rw (cluster-hit s.connections pair cc hit) at
              (Keyed-cluster s.heap s.connections pair w) in
          rw (hit, remove_cluster)
            (record {
              found = λ q key. ground (
                arith,
                st.found q key,
                find_in-hit s.connections pair cc key hit,
                kept_of-stale s.heap pair cached m key c k,
              );
              keys = st.keys;
              keyed = st.keyed w;
            })
    ]
