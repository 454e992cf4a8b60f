-- ===== src/System/Delivery.antt =====
-- What the service has after it receives a message of the cache (service/service.go,
-- pkg/clientconfig/cache.go).
use discovery_client.Prelude.{
  ℕ, Option, none, some, ◌&&◌, not, ℕ_eq, List, [], ◌∷◌, ◌≡◌, refl, arith, if◌then◌else◌,
  Option-cases, inl, inr, ◌∙◌, if_both,
}
use discovery_client.Prelude.Maps.{lookup, All-insert, UniqueKeys-insert}
use discovery_client.ClientConfig.Connections.{
  TKey, TKey_eq, ClientClusterPair, ClientClusterPair_eq, Connection, ConnectionMap, key_at, find,
  find_in, cluster, pair_of, is_empty,
}
use discovery_client.ClientConfig.Cache.{Cache}
use discovery_client.ClientConfig.Notification.{note_pair, changed_pairs, notify_change}
use discovery_client.ClientConfig.Cache.Consistency.{IsConsistent}
use discovery_client.ClientConfig.Cache.Message.{
  has_pair, pairs_of, pairs_of-message, lookup-notify_change,
}
use discovery_client.Service.{handle_notification}
use discovery_client.Service.WellKeyed.{Keyed, WellKeyed, Keyed-cluster}
use discovery_client.Service.Sync.{cached_or, handle_notification-sync, handle_notification-keys}
use discovery_client.System.{System, service_of, handled, delivered}

Keyed-lookup :
    (heap : List (ℕ × Connection)) (cm : ConnectionMap) (pair : ClientClusterPair) (cc : _)
    → WellKeyed heap cm
    → lookup pair cm ≡ some cc
    → Keyed heap pair cc.cluster_connections_map
unfolding cluster
Keyed-lookup heap cm pair cc w found = rw (found, cluster) at (Keyed-cluster heap cm pair w)

note_pair-WellKeyed :
    (heap : List (ℕ × Connection)) (c : Cache) (pair : ClientClusterPair) (acc : ConnectionMap)
    → WellKeyed heap c.connections
    → WellKeyed heap acc
    → WellKeyed heap (note_pair c pair acc)
unfolding note_pair
note_pair-WellKeyed heap c pair acc w a =
    if_both (WellKeyed heap) (is_empty pair) a (elim (Option-cases (lookup pair c.connections)) [
      | inl missing ↦ rw missing a
      | inr (cc, found) ↦ rw found (
        All-insert _ pair cc acc (Keyed-lookup heap c.connections pair cc w found) a.0,
        UniqueKeys-insert pair cc acc a.1,
      )
    ])

changed_pairs-WellKeyed :
    (heap : List (ℕ × Connection)) (c : Cache) (pairs : List ClientClusterPair)
    (acc : ConnectionMap)
    → WellKeyed heap c.connections
    → WellKeyed heap acc
    → WellKeyed heap (changed_pairs c pairs acc)
unfolding changed_pairs
changed_pairs-WellKeyed heap c [] acc w a = a
changed_pairs-WellKeyed heap c (pair ∷ pairs) acc w a =
    changed_pairs-WellKeyed heap c pairs (note_pair c pair acc) w
      (note_pair-WellKeyed heap c pair acc w a)

-- The message holds connections under their own keys.
pub message-WellKeyed :
    (c : Cache) (pairs : List ClientClusterPair)
    → WellKeyed c.heap c.connections
    → WellKeyed c.heap (pairs_of (notify_change c pairs))
unfolding notify_change
message-WellKeyed c pairs w =
    rw (pairs_of-message (changed_pairs c pairs []))
      (changed_pairs-WellKeyed c.heap c pairs [] w (tt, tt))

-- The service's part of a step leaves a consistent cache consistent.
pub IsConsistent-heap :
    {c : Cache} (heap : List (ℕ × Connection))
    → IsConsistent c
    → ((p : ℕ) → key_at heap p ≡ key_at c.heap p)
    → IsConsistent (record c { heap = heap })
IsConsistent-heap {c} heap v same = record {
  persistent = v.persistent;
  distinct = v.distinct;
  below = v.below;
  registered = v.registered;
  owned = λ k p h. same p ∙ v.owned k p h;
  heap_below = λ p h. ground (arith, same p, v.heap_below p);
}

pub by_pair : (cm : ConnectionMap) (k : TKey) → find cm k ≡ find_in cm (pair_of k) k
unfolding find find_in
by_pair cm k = refl

-- What handling a message leaves.
record Handles (s : System) (o : Option ConnectionMap) (t : System) : Type 0 where
  found :
      (k : TKey)
      → find t.connections k
        ≡ cached_or (lookup (pair_of k) (pairs_of o)) k (find_in s.connections (pair_of k) k)
  keys : (p : ℕ) → key_at t.cache.heap p ≡ key_at s.cache.heap p
  keyed : WellKeyed t.cache.heap t.connections
  kept : t.cache ≡ record s.cache { heap = t.cache.heap }

handled-Handles :
    (s : System) (o : Option ConnectionMap)
    → WellKeyed s.cache.heap s.connections
    → WellKeyed s.cache.heap (pairs_of o)
    → Handles s o (handled s o)
unfolding handled lookup
handled-Handles s none w m = record {
  found = λ k. by_pair s.connections k;
  keys = λ p. refl;
  keyed = w;
  kept = refl;
}
handled-Handles s (some message) w m =
    let t = (handle_notification (service_of s) message).0 in
    let sync = handle_notification-sync (service_of s) message w m in
    record {
      found = λ k. by_pair t.connections k ∙ sync.0 (pair_of k) k;
      keys = handle_notification-keys (service_of s) message w m;
      keyed = sync.1;
      kept = refl;
    }

-- What receiving a message leaves: the service's connections of an announced pair are the cache's.
pub record Delivers (s : System) (pairs : List ClientClusterPair) (t : System) : Type 0 where
  pub found :
      (k : TKey)
      → find t.connections k ≡ (
          if has_pair (pair_of k) pairs && not (is_empty (pair_of k))
          then cached_or (lookup (pair_of k) s.cache.connections) k (find s.connections k)
          else find s.connections k)
  pub keys : (p : ℕ) → key_at t.cache.heap p ≡ key_at s.cache.heap p
  pub keyed : WellKeyed t.cache.heap t.connections
  pub kept : t.cache ≡ record s.cache { heap = t.cache.heap }

pub delivered-Delivers :
    (s : System) (pairs : List ClientClusterPair) (rest : _)
    → WellKeyed s.cache.heap s.cache.connections
    → WellKeyed s.cache.heap s.connections
    → Delivers s pairs (delivered s pairs rest)
unfolding delivered
delivered-Delivers s pairs rest c w =
    let h = handled-Handles s (notify_change s.cache pairs) w (message-WellKeyed s.cache pairs c) in
    record {
      found = λ k. ground (
        arith,
        h.found k,
        by_pair s.connections k,
        lookup-notify_change s.cache pairs (pair_of k),
      );
      keys = h.keys;
      keyed = h.keyed;
      kept = h.kept;
    }
