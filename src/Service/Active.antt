-- ===== src/Service/Active.antt =====
-- The active connection of a cluster under a notification (service/service.go: `removeConnections`,
-- `addConnections` and the loop of `Start` after them).
use discovery_client.Prelude.{
  ℕ, true, false, Option, some, ◌&&◌, not, is_some, List, [], ◌∷◌, ◌≡◌, refl, arith, ◌∙◌,
  Option-cases, inl, inr,
}
use discovery_client.Prelude.Maps.{lookup, insert, delete, lookup-insert, UniqueKeys}
use discovery_client.ClientConfig.Connections.{
  TKey, TKey_eq, ClientClusterPair, ClientClusterPair_eq, ConnectionMap, pair_of, cluster,
  add_connection, delete_connection,
}
use discovery_client.ClientConfig.Cache.Message.{has_pair}
use discovery_client.Service.{
  Service, Modified, remove_connection, remove_stale, remove_cluster, remove_connections,
  add_missing, add_connections, to_reconnect, is_true, handle_notification, note_unmodified,
}
use discovery_client.Service.WellKeyed.{WellKeyed}
use discovery_client.Service.Sync.{handle_notification-sync}

-- The active connection of a cluster.
unfoldable pub active_of : ConnectionMap → ClientClusterPair → Option ℕ
active_of cm q = (cluster cm q).active_connection

active_of-delete_connection :
    (cm : ConnectionMap) (pair q : ClientClusterPair) (key : TKey)
    → active_of (delete_connection cm pair key) q ≡ active_of cm q
unfolding active_of cluster delete_connection
active_of-delete_connection cm pair q key = elim (Option-cases (lookup pair cm)) [
  | inl miss ↦ rw (miss, delete_connection)
  | inr (cc, hit) ↦
      rw (hit, delete_connection)
        (ground (
          arith,
          lookup-insert pair q
              (record cc { cluster_connections_map = delete key cc.cluster_connections_map }) cm,
        ))
]

active_of-add_connection :
    (cm : ConnectionMap) (key : TKey) (p : ℕ) (q : ClientClusterPair)
    → active_of (add_connection cm key p) q ≡ active_of cm q
unfolding active_of cluster add_connection
active_of-add_connection cm key p q = ground (
  arith,
  lookup-insert (pair_of key) q
      (record (cluster cm (pair_of key)) {
        cluster_connections_map = insert key p (cluster cm (pair_of key)).cluster_connections_map;
      })
      cm,
)

active_of-remove_stale :
    (s : Service) (modified : Modified) (pair q : ClientClusterPair) (cached : List (TKey × ℕ))
    (active : Option ℕ) (conns : List (TKey × ℕ))
    → active_of (remove_stale s modified pair cached active conns).0.connections q
      ≡ active_of s.connections q
unfolding remove_stale remove_connection
active_of-remove_stale s modified pair q cached active [] = refl
active_of-remove_stale s modified pair q cached active ((key, p) ∷ conns) = ground (
  arith,
  active_of-remove_stale s modified pair q cached active conns,
  active_of-remove_stale (remove_connection s pair active key p).0 (insert pair true modified) pair
      q cached (remove_connection s pair active key p).1 conns,
  active_of-delete_connection s.connections pair q key,
)

active_of-remove_cluster :
    (s : Service) (modified : Modified) (pair q : ClientClusterPair) (cached : List (TKey × ℕ))
    → active_of (remove_cluster s modified pair cached).0.connections q ≡ active_of s.connections q
unfolding remove_cluster
active_of-remove_cluster s modified pair q cached =
    elim (Option-cases (lookup pair s.connections)) [
      | inl miss ↦ rw (miss, remove_cluster)
      | inr (cc, hit) ↦
          rw (hit, remove_cluster)
            (active_of-remove_stale s modified pair q cached cc.active_connection
              cc.cluster_connections_map)
    ]

active_of-remove_connections :
    (from_cache : ConnectionMap) (s : Service) (modified : Modified) (q : ClientClusterPair)
    → active_of (remove_connections s from_cache modified).0.connections q
      ≡ active_of s.connections q
unfolding remove_connections
active_of-remove_connections [] s modified q = refl
active_of-remove_connections ((pair, cc) ∷ from_cache) s modified q =
    let (s', modified') = remove_cluster s modified pair cc.cluster_connections_map in
    active_of-remove_connections from_cache s' modified' q
    ∙ active_of-remove_cluster s modified pair q cc.cluster_connections_map

active_of-add_missing :
    (conns : List (TKey × ℕ)) (cm : ConnectionMap) (modified : Modified)
    (pair q : ClientClusterPair)
    → active_of (add_missing cm modified pair conns).0 q ≡ active_of cm q
unfolding add_missing
active_of-add_missing [] cm modified pair q = refl
active_of-add_missing ((key, p) ∷ conns) cm modified pair q = ground (
  arith,
  active_of-add_missing conns cm modified pair q,
  active_of-add_missing conns (add_connection cm key p) (insert pair true modified) pair q,
  active_of-add_connection cm key p q,
)

active_of-add_connections :
    (from_cache cm : ConnectionMap) (modified : Modified) (q : ClientClusterPair)
    → active_of (add_connections cm from_cache modified).0 q ≡ active_of cm q
unfolding add_connections
active_of-add_connections [] cm modified q = refl
active_of-add_connections ((pair, cc) ∷ from_cache) cm modified q =
    let (cm', modified') =
      add_missing cm (note_unmodified pair modified) pair cc.cluster_connections_map in
    active_of-add_connections from_cache cm' modified' q
    ∙ active_of-add_missing cc.cluster_connections_map cm (note_unmodified pair modified) pair q

-- Which clusters a reconnection is triggered for.
has_pair-to_reconnect :
    (cm : ConnectionMap) (modified : Modified) (q : ClientClusterPair)
    → UniqueKeys cm
    → has_pair q (to_reconnect cm modified)
      ≡ (is_some (lookup q cm) && (is_true (lookup q modified) && not (is_some (active_of cm q))))
unfolding to_reconnect has_pair active_of cluster lookup
has_pair-to_reconnect [] modified q u = refl
has_pair-to_reconnect ((pair, cc) ∷ cm) modified q u =
    ground (arith, has_pair-to_reconnect cm modified q u.1)

-- A cluster that has an active connection keeps it under every notification, also one whose
-- message no longer has that connection, and no notification triggers a reconnection to it.
pub handle_notification-active :
    (s : Service) (from_cache : ConnectionMap) (q : ClientClusterPair) (p : ℕ)
    → WellKeyed s.heap s.connections
    → WellKeyed s.heap from_cache
    → active_of s.connections q ≡ some p
    → (active_of (handle_notification s from_cache).0.connections q ≡ some p)
      × (has_pair q (handle_notification s from_cache).1 ≡ false)
unfolding handle_notification
handle_notification-active s from_cache q p w f h =
    let (s', modified) = remove_connections s from_cache [] in
    let (cm, modified') = add_connections s'.connections from_cache modified in
    let kept : active_of cm q ≡ some p =
      active_of-add_connections from_cache s'.connections modified q
      ∙ active_of-remove_connections from_cache s [] q
      ∙ h in
    let u : UniqueKeys cm = (handle_notification-sync s from_cache w f).1.1 in
    (kept, ground (arith, has_pair-to_reconnect cm modified' q u, kept))
