-- ===== src/Service/Sync.antt =====
-- `removeConnections` and `addConnections` (service/service.go) as a whole: after a notification the
-- service has, for each cluster that was announced, exactly the connections of the cache.
use mathlib.Core.Path.{subst}
use discovery_client.Prelude.{
  ℕ, true, false, Option, none, some, ◌&&◌, ◌==◌, ℕ_eq, is_some, List, [], ◌∷◌, ◌≡◌, refl, arith,
  ◌∙◌, if◌then◌else◌, Bool-cases, inl, inr,
}
use discovery_client.Prelude.Maps.{lookup, insert}
use discovery_client.ClientConfig.Connections.{
  TKey, TKey_eq, ClientClusterPair, ClientClusterPair_eq, ClusterConnections, Connection,
  ConnectionMap, key_at, pair_of, exists_in, cluster, add_connection, find_in,
  find_in-add_connection,
}
use discovery_client.Service.{
  Service, Modified, remove_cluster, remove_connections, add_missing, add_connections,
  handle_notification, note_unmodified,
}
use discovery_client.Service.WellKeyed.{
  Keyed, WellKeyed, points_to, exists_in-lookup, WellKeyed-heap, Keyed-cluster,
  WellKeyed-add_connection,
}
use discovery_client.Service.Clusters.{kept_of, remove_cluster-RemovesCluster}

-- What `removeConnections` keeps for a key, and what `addConnections` then adds.
abbrev pub kept_by : Option ClusterConnections → TKey → Option ℕ → Option ℕ
kept_by none k o = o
kept_by (some cc) k o = kept_of (lookup k cc.cluster_connections_map) o

abbrev pub or_some : Option ℕ → Option ℕ → Option ℕ
or_some none o = o
or_some (some p) o = some p

abbrev pub added_by : Option ClusterConnections → TKey → Option ℕ → Option ℕ
added_by none k o = o
added_by (some cc) k o = or_some (lookup k cc.cluster_connections_map) o

record Removes (s : Service) (from_cache : ConnectionMap) (t : Service) : Type 0 where
  found :
      (q : ClientClusterPair) (k : TKey)
      → find_in t.connections q k ≡ kept_by (lookup q from_cache) k (find_in s.connections q k)
  keys : (p : ℕ) → key_at t.heap p ≡ key_at s.heap p
  keyed : WellKeyed t.heap t.connections

remove_connections-Removes :
    (from_cache : ConnectionMap) (s : Service) (modified : Modified)
    → WellKeyed s.heap s.connections
    → WellKeyed s.heap from_cache
    → Removes s from_cache (remove_connections s from_cache modified).0
unfolding remove_connections lookup
remove_connections-Removes [] s modified w f = record {
  found = λ q k. refl;
  keys = λ p. refl;
  keyed = w;
}
remove_connections-Removes ((pair, cc) ∷ from_cache) s modified w f =
    let cached = cc.cluster_connections_map in
    let s' = (remove_cluster s modified pair cached).0 in
    let one = remove_cluster-RemovesCluster s modified pair cached w f.0.0 in
    let rest =
      remove_connections-Removes from_cache s' (remove_cluster s modified pair cached).1 one.keyed
        (WellKeyed-heap s.heap s'.heap from_cache one.keys (f.0.1, f.1.1)) in
    record {
      found = λ q k. ground (arith, rest.found q k, one.found q k, f.1.0);
      keys = λ p. rest.keys p ∙ one.keys p;
      keyed = rest.keyed;
    }

record Adds (heap : List (ℕ × Connection)) (cm : ConnectionMap) (from_cache : ConnectionMap)
    (t : ConnectionMap) : Type 0 where
  found :
      (q : ClientClusterPair) (k : TKey)
      → find_in t q k ≡ added_by (lookup q from_cache) k (find_in cm q k)
  keyed : WellKeyed heap t

exists_in-cluster :
    (heap : List (ℕ × Connection)) (cm : ConnectionMap) (pair : ClientClusterPair) (key : TKey)
    (p : ℕ)
    → WellKeyed heap cm
    → key_at heap p ≡ some key
    → exists_in (cluster cm pair).cluster_connections_map p ≡ points_to (find_in cm pair key) p
unfolding find_in
exists_in-cluster heap cm pair key p w h =
    exists_in-lookup heap pair _ key p (Keyed-cluster heap cm pair w) h

find_in-add_in :
    (cm : ConnectionMap) (key : TKey) (p : ℕ) (pair q : ClientClusterPair) (k : TKey)
    → pair_of key ≡ pair
    → find_in (add_connection cm key p) q k
      ≡ (if pair == q && key == k then some p else find_in cm q k)
find_in-add_in cm key p pair q k e =
    subst
      (λ x.
        find_in (add_connection cm key p) q k
        ≡ (if x == q && key == k then some p else find_in cm q k))
      e (find_in-add_connection cm key p q k)

-- One addition, and then those of the rest of the cluster.
add_then :
    (pair q : ClientClusterPair) (key k : TKey) (p : ℕ) (conns : List (TKey × ℕ))
    (o o' r : Option ℕ)
    → is_some (lookup key conns) ≡ false
    → o' ≡ (if pair == q && key == k then some p else o)
    → r ≡ (if pair == q then or_some (lookup k conns) o' else o')
    → r ≡ (if pair == q then or_some (lookup k ((key, p) ∷ conns)) o else o)
unfolding lookup
add_then pair q key k p conns o o' r new one rest = ground arith

add_missing_lem :
    (heap : List (ℕ × Connection)) (pair : ClientClusterPair) (conns : List (TKey × ℕ))
    (cm : ConnectionMap) (modified : Modified)
    → WellKeyed heap cm
    → Keyed heap pair conns
    → ((q : ClientClusterPair) (k : TKey)
        → find_in (add_missing cm modified pair conns).0 q k
          ≡ (if pair == q then or_some (lookup k conns) (find_in cm q k) else find_in cm q k))
      × WellKeyed heap (add_missing cm modified pair conns).0
unfolding add_missing lookup
add_missing_lem heap pair [] cm modified w c = (λ q k. ground arith, w)
add_missing_lem heap pair ((key, p) ∷ conns) cm modified w c =
    let c' : Keyed heap pair conns = (c.0.1, c.1.1) in
    let there = exists_in-cluster heap cm pair key p w c.0.0.0 in
    elim (Bool-cases (exists_in (cluster cm pair).cluster_connections_map p)) [
      | inl old ↦
          let rest = add_missing_lem heap pair conns cm modified w c' in
          rw old (λ q k. ground (arith, rest.0 q k, there, old, c.1.0), rest.1)
      | inr new ↦
          let rest =
            add_missing_lem heap pair conns (add_connection cm key p) (insert pair true modified)
              (WellKeyed-add_connection heap cm key p c.0.0.0 w) c' in
          rw new (
            λ q k.
                add_then pair q key k p conns _ _ _ c.1.0 (find_in-add_in cm key p pair q k c.0.0.1)
                  (rest.0 q k),
            rest.1,
          )
    ]

add_connections-Adds :
    (heap : List (ℕ × Connection)) (from_cache cm : ConnectionMap) (modified : Modified)
    → WellKeyed heap cm
    → WellKeyed heap from_cache
    → Adds heap cm from_cache (add_connections cm from_cache modified).0
unfolding add_connections lookup
add_connections-Adds heap [] cm modified w f = record { found = λ q k. refl; keyed = w }
add_connections-Adds heap ((pair, cc) ∷ from_cache) cm modified w f =
    let conns = cc.cluster_connections_map in
    let one = add_missing_lem heap pair conns cm (note_unmodified pair modified) w f.0.0 in
    let (cm', modified') = add_missing cm (note_unmodified pair modified) pair conns in
    let rest = add_connections-Adds heap from_cache cm' modified' one.1 (f.0.1, f.1.1) in
    record { found = λ q k. ground (arith, rest.found q k, one.0 q k, f.1.0); keyed = rest.keyed }

-- What a cluster of the message has for a key, or else what the service has.
abbrev pub cached_or : Option ClusterConnections → TKey → Option ℕ → Option ℕ
cached_or none k o = o
cached_or (some cc) k o = lookup k cc.cluster_connections_map

-- Where the connections of the service and of the message stand under their own keys, a
-- notification leaves the service with exactly the message's connections in each cluster of the
-- message, and with its own in every other cluster; they stand under their own keys again.
pub handle_notification-sync :
    (s : Service) (from_cache : ConnectionMap)
    → WellKeyed s.heap s.connections
    → WellKeyed s.heap from_cache
    → let t = (handle_notification s from_cache).0 in
      ((q : ClientClusterPair) (k : TKey)
        → find_in t.connections q k ≡ cached_or (lookup q from_cache) k (find_in s.connections q k))
      × WellKeyed t.heap t.connections
unfolding handle_notification
handle_notification-sync s from_cache w f =
    let (s', modified) = remove_connections s from_cache [] in
    let gone = remove_connections-Removes from_cache s [] w f in
    let new =
      add_connections-Adds s'.heap from_cache s'.connections modified gone.keyed
        (WellKeyed-heap s.heap s'.heap from_cache gone.keys f) in
    (λ q k. ground (arith, new.found q k, gone.found q k), new.keyed)

-- A notification keeps the key of every object.
pub handle_notification-keys :
    (s : Service) (from_cache : ConnectionMap)
    → WellKeyed s.heap s.connections
    → WellKeyed s.heap from_cache
    → (p : ℕ) → key_at (handle_notification s from_cache).0.heap p ≡ key_at s.heap p
unfolding handle_notification
handle_notification-keys s from_cache w f = (remove_connections-Removes from_cache s [] w f).keys
