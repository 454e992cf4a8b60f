-- ===== src/System/InSync.antt =====
-- Each step of the cache and the service (pkg/clientconfig/cache.go, service/service.go) keeps this: a
-- cluster for which no message is pending has the same connections in both.
use discovery_client.Prelude.{
  String, Bool, false, Option, none, some, ◌||◌, ℕ_eq, is_some, List, [], ◌∷◌, ◌++◌, ◌≡◌, refl,
  arith, ◌∙◌, sym, ap,
}
use discovery_client.Prelude.Maps.{lookup}
use discovery_client.ClientConfig.Connections.{
  TKey, TKey_eq, ClientClusterPair, ClientClusterPair_eq, ConnectionMap, find, cluster, pair_of,
  is_empty,
}
use discovery_client.ClientConfig.Cache.{Cache, new_cache}
use discovery_client.ClientConfig.Notification.{notify_change}
use discovery_client.ClientConfig.Cache.Consistency.{IsConsistent}
use discovery_client.ClientConfig.Cache.Files.{new_cache-IsConsistent}
use discovery_client.ClientConfig.Cache.Message.{has_pair}
use discovery_client.Service.{Service}
use discovery_client.Service.WellKeyed.{WellKeyed, WellKeyed-heap}
use discovery_client.Service.Sync.{cached_or}
use discovery_client.System.{
  System, announce, with_cache, service_of, with_service, handled, delivered, started,
}
use discovery_client.System.Changes.{Changes, WellKeyed-Keeps}
use discovery_client.System.Delivery.{IsConsistent-heap, delivered-Delivers, by_pair}
use discovery_client.System.Serving.{IsQuiet}

-- A message that announces the pair is pending.
unfoldable pub is_pending : ClientClusterPair → List (List ClientClusterPair) → Bool
is_pending q [] = false
is_pending q (pairs ∷ rest) = has_pair q pairs || is_pending q rest

is_pending-append :
    (q : ClientClusterPair) (a b : List (List ClientClusterPair))
    → is_pending q (a ++ b) ≡ (is_pending q a || is_pending q b)
unfolding is_pending
is_pending-append q [] b = refl
is_pending-append q (pairs ∷ a) b = ground (arith, is_pending-append q a b)

is_pending-announce :
    (q : ClientClusterPair) (pairs : List ClientClusterPair)
    → is_pending q (announce pairs) ≡ has_pair q pairs
unfolding is_pending announce has_pair
is_pending-announce q [] = refl
is_pending-announce q (p ∷ ps) = ground arith

pub record IsInSync (s : System) : Type 0 where
  pub consistent : IsConsistent s.cache
  pub cache_keyed : WellKeyed s.cache.heap s.cache.connections
  pub service_keyed : WellKeyed s.cache.heap s.connections
  pub unknown :
      (k : TKey)
      → is_some (lookup (pair_of k) s.cache.connections) ≡ false
      → find s.connections k ≡ none
  pub synced :
      (k : TKey)
      → is_empty (pair_of k) ≡ false
      → is_pending (pair_of k) s.pending ≡ false
      → find s.connections k ≡ find s.cache.connections k

pub started-IsInSync : (hosts : List (String × String)) → IsInSync (started hosts)
unfolding started new_cache find cluster lookup
started-IsInSync hosts = record {
  consistent = new_cache-IsConsistent hosts;
  cache_keyed = (tt, tt);
  service_keyed = (tt, tt);
  unknown = λ k h. refl;
  synced = λ k named quiet. refl;
}

-- A change of the cache that announces its pairs.
pub with_cache-IsInSync :
    {s : System} {c : Cache} (pairs : List ClientClusterPair)
    → Changes s.cache pairs c
    → IsInSync s
    → IsInSync (with_cache s c pairs)
with_cache-IsInSync {s} {c} pairs ch v = record {
  consistent = ch.consistent;
  cache_keyed = ch.keyed;
  service_keyed = WellKeyed-Keeps s.cache.heap c.heap s.connections ch.keeps v.service_keyed;
  unknown = λ k h. v.unknown k (ch.grows (pair_of k) h);
  synced = λ k named quiet.
      let q = pair_of k in
      let split = is_pending-append q s.pending (announce pairs) in
      let new = is_pending-announce q pairs in
      v.synced k named (ground (arith, split, new, quiet))
      ∙ sym (ch.announced k named (ground (arith, split, new, quiet)));
}

-- Work of the service that keeps its connections.
pub with_service-IsInSync :
    {s : System} {t : Service} → IsQuiet (service_of s) t → IsInSync s → IsInSync (with_service s t)
with_service-IsInSync {s} {t} q v = record {
  consistent = IsConsistent-heap t.heap v.consistent q.keys;
  cache_keyed = WellKeyed-heap s.cache.heap t.heap s.cache.connections q.keys v.cache_keyed;
  service_keyed = q.keyed;
  unknown = λ k h.
      by_pair t.connections k
      ∙ q.found (pair_of k) k
      ∙ sym (by_pair s.connections k)
      ∙ v.unknown k h;
  synced = λ k named quiet.
      by_pair t.connections k
      ∙ q.found (pair_of k) k
      ∙ sym (by_pair s.connections k)
      ∙ v.synced k named quiet;
}

find-cluster :
    (cm : ConnectionMap) (k : TKey) → cached_or (lookup (pair_of k) cm) k none ≡ find cm k
unfolding find cluster lookup
find-cluster cm k = ground arith

is_pending-remove :
    (q : ClientClusterPair) (before : List (List ClientClusterPair))
    (pairs : List ClientClusterPair) (after : List (List ClientClusterPair))
    → is_pending q (before ++ pairs ∷ after) ≡ (has_pair q pairs || is_pending q (before ++ after))
unfolding is_pending
is_pending-remove q before pairs after =
    ground (arith, is_pending-append q before (pairs ∷ after), is_pending-append q before after)

pub pending-delivered :
    (s : System) (pairs : List ClientClusterPair) (rest : List (List ClientClusterPair))
    → (delivered s pairs rest).pending ≡ rest
unfolding delivered
pending-delivered s pairs rest = refl

-- A message is received: `before` and `after` are the messages still pending.
pub delivered-IsInSync :
    {s : System} (before : List (List ClientClusterPair)) (pairs : List ClientClusterPair)
    (after : List (List ClientClusterPair))
    → s.pending ≡ before ++ pairs ∷ after
    → IsInSync s
    → IsInSync (delivered s pairs (before ++ after))
unfolding is_pending
delivered-IsInSync {s} before pairs after e v =
    let t = delivered s pairs (before ++ after) in
    let d = delivered-Delivers s pairs (before ++ after) v.cache_keyed v.service_keyed in
    let cm = s.cache.connections in
    let same : t.cache.connections ≡ cm = ap (λ c. c.connections) d.kept in
    record {
      consistent = rw d.kept (IsConsistent-heap t.cache.heap v.consistent d.keys);
      cache_keyed = rw d.kept (WellKeyed-heap s.cache.heap t.cache.heap cm d.keys v.cache_keyed);
      service_keyed = d.keyed;
      unknown = λ k h. ground (arith, d.found k, same, v.unknown k);
      synced = λ k named quiet. ground (
        arith,
        d.found k,
        same,
        e,
        quiet,
        pending-delivered s pairs (before ++ after),
        is_pending-remove (pair_of k) before pairs after,
        find-cluster cm k,
        v.unknown k,
        v.synced k named,
      );
    }

cache_entries-handled :
    (s : System) (o : Option ConnectionMap)
    → (handled s o).cache.cache_entries ≡ s.cache.cache_entries
unfolding handled
cache_entries-handled s none = refl
cache_entries-handled s (some message) = refl

pub cache_entries-delivered :
    (s : System) (pairs : List ClientClusterPair) (rest : List (List ClientClusterPair))
    → (delivered s pairs rest).cache.cache_entries ≡ s.cache.cache_entries
unfolding delivered
cache_entries-delivered s pairs rest = cache_entries-handled s (notify_change s.cache pairs)
