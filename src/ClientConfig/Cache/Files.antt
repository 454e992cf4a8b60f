-- ===== src/ClientConfig/Cache/Files.antt =====
-- `fileAdded` (pkg/clientconfig/cache.go): the entries of a configuration file enter the cache.
use discovery_client.Prelude.{
  Bool, true, false, Option, none, ◌||◌, ◌&&◌, not, ◌==◌, List, [], ◌∷◌, ◌≡◌, refl, arith,
  if◌then◌else◌, Bool-cases, inl, inr,
}
use discovery_client.Prelude.Maps.{lookup, insert}
use discovery_client.ClientConfig.Entry.{Entry}
use discovery_client.ClientConfig.Connections.{
  TKey, TKey_eq, ClientClusterPair, ClientClusterPair_eq, pair_of, is_empty, find, cluster,
}
use discovery_client.ClientConfig.Cache.{Cache, CacheError, key_of, add_entry, new_cache}
use discovery_client.ClientConfig.Notification.{add_file_entries, keys_of, file_added}
use discovery_client.ClientConfig.Cache.Consistency.{IsConsistent, has_key}
use discovery_client.ClientConfig.Cache.Entries.{add_entry-IsConsistent}
use discovery_client.ClientConfig.Cache.Message.{has_pair}

pub new_cache-IsConsistent : (hosts : _) → IsConsistent (new_cache hosts)
unfolding new_cache has_key find cluster lookup
new_cache-IsConsistent hosts = record {
  persistent = tt;
  distinct = tt;
  below = tt;
  registered = λ k. refl;
  owned = λ k p h. cc;
  heap_below = λ p h. cc;
}

-- Some entry of the file has the key.
unfoldable pub in_file : TKey → List Entry → Bool
in_file k [] = false
in_file k (e ∷ entries) = key_of e == k || in_file k entries

has_pair-insert :
    (q pair : ClientClusterPair) (m : List (ClientClusterPair × Bool))
    → has_pair q (keys_of (insert pair true m)) ≡ (has_pair q (keys_of m) || pair == q)
unfolding has_pair insert
has_pair-insert q pair [] = ground arith
has_pair-insert q pair ((p, b) ∷ m) = ground (arith, has_pair-insert q pair m)

-- The set of pairs once an entry is added.
abbrev pub noted :
    ClientClusterPair → List (ClientClusterPair × Bool) → List (ClientClusterPair × Bool)
noted pair pairs = if is_empty pair then pairs else insert pair true pairs

pub has_pair-noted :
    (q pair : ClientClusterPair) (m : List (ClientClusterPair × Bool))
    → has_pair q (keys_of (noted pair m))
      ≡ (has_pair q (keys_of m) || (not (is_empty pair) && pair == q))
has_pair-noted q pair m = ground (arith, has_pair-insert q pair m)

-- What the loop of `fileAdded` makes of a cache: `r` is its result.
pub record Loads (c : Cache) (entries : List Entry) (pairs : List (ClientClusterPair × Bool))
    (r : Cache × List (ClientClusterPair × Bool) × Option CacheError) : Type 0 where
  pub consistent : IsConsistent r.0
  pub ok : r.2 ≡ none
  keys : (k : TKey) → has_key k r.0.cache_entries ≡ (has_key k c.cache_entries || in_file k entries)
  pub kept :
      (q : ClientClusterPair) → has_pair q (keys_of pairs) ≡ true → has_pair q (keys_of r.1) ≡ true
  announced :
      (k : TKey)
      → has_key k c.cache_entries ≡ false
      → in_file k entries ≡ true
      → is_empty (pair_of k) ≡ false
      → has_pair (pair_of k) (keys_of r.1) ≡ true

pub add_file_entries-Loads :
    (entries : List Entry) (pairs : List (ClientClusterPair × Bool)) {c : Cache}
    → IsConsistent c
    → Loads c entries pairs (add_file_entries c entries pairs)
unfolding add_file_entries in_file
add_file_entries-Loads [] pairs v = record {
  consistent = v;
  ok = refl;
  keys = λ k. ground arith;
  kept = λ q h. h;
  announced = λ k new there. cc;
}
add_file_entries-Loads (e ∷ entries) pairs {c} v =
    let given : Entry = record e { persistent = true } in
    let (v', changed, err, keys) = add_entry-IsConsistent given v refl in
    let (c', pair, _) = add_entry c given in
    let rest = add_file_entries-Loads entries (noted pair pairs) v' in
    rw err (record {
      consistent = rest.consistent;
      ok = rest.ok;
      keys = λ k. ground (arith, rest.keys k, keys k);
      kept = λ q h. rest.kept q (ground (arith, has_pair-noted q pair pairs));
      announced = λ k new there named. elim (Bool-cases (key_of e == k)) [
        | inl same ↦
            rest.kept (pair_of k) (ground (arith, has_pair-noted (pair_of k) pair pairs, changed))
        | inr other ↦ rest.announced k (ground (arith, keys k)) (ground arith) named
      ];
    })

-- Loading a file into a consistent cache never fails: the cache stays consistent, gains exactly the
-- keys of the file's entries, and each key that was not there before has its pair among those to
-- announce, unless the pair is empty.
pub file_added-IsConsistent :
    {c : Cache} (entries : List Entry)
    → IsConsistent c
    → let r = file_added c entries in
      IsConsistent r.0
      × (r.2 ≡ none)
      × ((k : TKey)
          → has_key k r.0.cache_entries ≡ (has_key k c.cache_entries || in_file k entries))
      × ((k : TKey)
          → has_key k c.cache_entries ≡ false
          → in_file k entries ≡ true
          → is_empty (pair_of k) ≡ false
          → has_pair (pair_of k) r.1 ≡ true)
unfolding file_added
file_added-IsConsistent entries v =
    let l = add_file_entries-Loads entries [] v in (l.consistent, l.ok, l.keys, l.announced)
