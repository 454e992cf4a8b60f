-- ===== src/System/Reachable.antt =====
-- The cache and the service over any run (pkg/clientconfig/cache.go, service/service.go): what they
-- agree on whenever no message is pending, and that every message can be received.
use discovery_client.Prelude.{
  ℕ, String, Bool, false, ℕ_eq, is_some, List, [], ◌∷◌, ◌++◌, ◌≡◌, refl, ◌∙◌, ap,
}
use discovery_client.HostApi.{DiscoverRequest}
use discovery_client.ClientConfig.Connections.{
  TKey, TKey_eq, ClientClusterPair, ClientClusterPair_eq, Connection, find, pair_of, is_empty,
}
use discovery_client.ClientConfig.Referrals.{ReferralMap}
use discovery_client.Service.Discovery.{Reply, get_live_connection, handle_event}
use discovery_client.System.{
  System, WatchEvent, watched, referred, service_of, with_service, delivered, started,
}
use discovery_client.System.Handling.{on_event-Changes, handle_referrals-Changes}
use discovery_client.System.Serving.{get_live_connection-IsQuiet, handle_event-IsQuiet}
use discovery_client.System.InSync.{
  is_pending, IsInSync, started-IsInSync, with_cache-IsInSync, with_service-IsInSync,
  delivered-IsInSync, pending-delivered, cache_entries-delivered,
}
use discovery_client.ClientConfig.Cache.Consistency.{has_key}

-- The messages are received one after another.
unfoldable pub drain : List (List ClientClusterPair) → System → System
drain [] s = s
drain (pairs ∷ rest) s = drain rest (delivered s pairs rest)

-- The runs of the cache and the service, from an empty cache: events of the watcher, referrals
-- (in the orders in which two loops visit them), messages received in any order, the search of
-- `reconnectToCluster` for a live connection, and events on a connection.
module _ {W : Type 0} (discover : W → DiscoverRequest → W × Reply) where
  pub data IsReachable : System → Type 0 where
    start : (hosts : List (String × String)) → IsReachable (started hosts)
    watch : {s : System} → IsReachable s → (e : WatchEvent) → IsReachable (watched s e)
    refer :
        {s : System}
        → IsReachable s
        → (first second : ReferralMap) → IsReachable (referred s first second)
    receive :
        {s : System}
        → IsReachable s
        → (before : List (List ClientClusterPair)) (pairs : List ClientClusterPair)
          (after : List (List ClientClusterPair))
        → s.pending ≡ before ++ pairs ∷ after
        → IsReachable (delivered s pairs (before ++ after))
    search :
        {s : System}
        → IsReachable s
        → (w : W) (order : List ℕ)
        → IsReachable (with_service s (get_live_connection discover w (service_of s) order).1)
    alert :
        {s : System}
        → IsReachable s
        → (w : W) (p : ℕ) (conn : Connection) (server_change : Bool)
        → IsReachable
            (with_service s (handle_event discover w (service_of s) p conn server_change).1)

  pub IsReachable-IsInSync : {s : System} → IsReachable s → IsInSync s
  unfolding watched referred
  IsReachable-IsInSync (start hosts) = started-IsInSync hosts
  IsReachable-IsInSync (watch {s} r e) =
      let v = IsReachable-IsInSync r in
      with_cache-IsInSync _ (on_event-Changes e v.consistent v.cache_keyed) v
  IsReachable-IsInSync (refer {s} r first second) =
      let v = IsReachable-IsInSync r in
      with_cache-IsInSync _ (handle_referrals-Changes first second v.consistent v.cache_keyed) v
  IsReachable-IsInSync (receive {s} r before pairs after e) =
      delivered-IsInSync before pairs after e (IsReachable-IsInSync r)
  IsReachable-IsInSync (search {s} r w order) =
      let v = IsReachable-IsInSync r in
      with_service-IsInSync
        (get_live_connection-IsQuiet discover order w (service_of s) v.service_keyed) v
  IsReachable-IsInSync (alert {s} r w p conn server_change) =
      let v = IsReachable-IsInSync r in
      with_service-IsInSync
        (handle_event-IsQuiet discover w (service_of s) p conn server_change v.service_keyed) v

  -- In every state that a run reaches, for each key of a named cluster for which no message is
  -- pending, the service has exactly the connection that the cache has, and it has one exactly if
  -- some entry of the cache has the key.
  pub find-IsReachable :
      {s : System} (k : TKey)
      → IsReachable s
      → is_empty (pair_of k) ≡ false
      → is_pending (pair_of k) s.pending ≡ false
      → (find s.connections k ≡ find s.cache.connections k)
        × (is_some (find s.connections k) ≡ has_key k s.cache.cache_entries)
  find-IsReachable k r named quiet =
      let v = IsReachable-IsInSync r in
      let same = v.synced k named quiet in (same, ap is_some same ∙ v.consistent.registered k)

  drain-IsReachable :
      (rest : List (List ClientClusterPair)) {s : System}
      → IsReachable s
      → s.pending ≡ rest
      → IsReachable (drain rest s)
        × ((drain rest s).pending ≡ [])
        × ((drain rest s).cache.cache_entries ≡ s.cache.cache_entries)
  unfolding drain
  drain-IsReachable [] r e = (r, e, refl)
  drain-IsReachable (pairs ∷ rest) {s} r e =
      let (t, none_left, same) =
        drain-IsReachable rest (receive r [] pairs rest e) (pending-delivered s pairs rest) in
      (t, none_left, same ∙ cache_entries-delivered s pairs rest)

  -- From every state that a run reaches, once the pending messages are received the service has,
  -- for each key of a named cluster, a connection exactly if some entry of the cache has the key.
  -- No message is left, and the entries are as before.
  pub drain-synced :
      {s : System}
      → IsReachable s
      → let t = drain s.pending s in
        (t.pending ≡ [])
        × (t.cache.cache_entries ≡ s.cache.cache_entries)
        × ((k : TKey)
            → is_empty (pair_of k) ≡ false
            → is_some (find t.connections k) ≡ has_key k s.cache.cache_entries)
  unfolding is_pending
  drain-synced {s} r =
      let (t, none_left, same) = drain-IsReachable s.pending r refl in
      (
        none_left,
        same,
        λ k named. (find-IsReachable k t named (rw none_left refl)).1 ∙ ap (has_key k) same,
      )
