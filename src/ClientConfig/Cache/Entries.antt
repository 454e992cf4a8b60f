-- ===== src/ClientConfig/Cache/Entries.antt =====
-- `addEntry` and `deleteEntry` (pkg/clientconfig/cache.go) on a consistent cache.
use discovery_client.Prelude.{
  ℕ, ◌+◌, true, false, Option, none, some, ◌||◌, ◌&&◌, not, ◌==◌, ℕ_eq, [], ◌∷◌, ◌++◌, ◌≡◌, refl,
  arith, if◌then◌else◌, Bool-cases, inl, inr, Option-cases, ◌∙◌,
}
use discovery_client.Prelude.Maps.{lookup, insert, lookup-insert}
use discovery_client.ClientConfig.Entry.{Entry}
use discovery_client.ClientConfig.Connections.{
  TKey, TKey_eq, ClientClusterPair, key_at, find, add_connection, delete_connection, pair_of,
  empty_pair, find-add_connection, find-delete_connection, new_connection,
}
use discovery_client.ClientConfig.Cache.{
  Cache, CacheError, key_of, inherit_tmo, maybe_update_host_ids, remove_pointer, add_entry,
  delete_entry, connection_for, entry_not_found,
}
use discovery_client.ClientConfig.Cache.Consistency.{
  IsConsistent, has_key, exist_entry-has_key, key_of-update, has_key-append, lookup_of_below,
  All-append, AllBelow-mono, AllDistinct-append, has_key-remove_pointer, All-remove_pointer,
  AllDistinct-remove_pointer,
}

-- The entry that is stored: with its timeout and host id filled in.
abbrev pub stored : Cache → Entry → Entry
stored c e = maybe_update_host_ids c.nvmf_hosts (inherit_tmo c.cache_entries e)

-- The cache once an entry with a new key is added.
unfoldable pub added : Cache → Entry → Cache
added c e = record c {
  cache_entries = c.cache_entries ++ ((c.next, stored c e) ∷ []);
  connections = add_connection c.connections (key_of (stored c e)) (c.next + 1);
  heap = insert (c.next + 1) (connection_for (stored c e)) c.heap;
  next = c.next + 2;
}

pub key_of-connection_for : (e : Entry) → (connection_for e).key ≡ key_of e
unfolding connection_for new_connection
key_of-connection_for e = refl

pub add_entry-added :
    {c : Cache} (e : Entry)
    → IsConsistent c
    → e.persistent ≡ true
    → add_entry c e ≡ (
        if has_key (key_of e) c.cache_entries
        then (c, empty_pair, none)
        else (added c e, pair_of (key_of e), none))
unfolding add_entry added
add_entry-added {c} e v p = ground (
  arith,
  exist_entry-has_key e c.cache_entries v.persistent p,
  key_of-update c.nvmf_hosts c.cache_entries e,
  v.registered (key_of e),
)

has_key-added :
    (c : Cache) (e : Entry) (k : TKey)
    → has_key k (added c e).cache_entries ≡ (has_key k c.cache_entries || key_of e == k)
unfolding added
has_key-added c e k = ground (
  arith,
  has_key-append k c.cache_entries c.next (stored c e),
  key_of-update c.nvmf_hosts c.cache_entries e,
)

pub find-added :
    (c : Cache) (e : Entry) (k : TKey)
    → find (added c e).connections k
      ≡ (if key_of e == k then some (c.next + 1) else find c.connections k)
unfolding added
find-added c e k = ground (
  arith,
  find-add_connection c.connections (key_of (stored c e)) (c.next + 1) k,
  key_of-update c.nvmf_hosts c.cache_entries e,
)

pub lookup-added :
    (c : Cache) (e : Entry) (q : ℕ)
    → lookup q (added c e).heap
      ≡ (if c.next + 1 == q then some (connection_for (stored c e)) else lookup q c.heap)
unfolding added
lookup-added c e q = lookup-insert (c.next + 1) q (connection_for (stored c e)) c.heap

owned-added :
    {c : Cache} (e : Entry) (k : TKey) (q : ℕ)
    → IsConsistent c
    → find (added c e).connections k ≡ some q
    → key_at (added c e).heap q ≡ some k
owned-added {c} e k q v h = ground (
  arith,
  lookup-added c e q,
  find-added c e k,
  key_of-connection_for (stored c e),
  key_of-update c.nvmf_hosts c.cache_entries e,
  v.owned k q,
  v.heap_below q,
)

pub added-IsConsistent :
    {c : Cache} (e : Entry)
    → IsConsistent c
    → e.persistent ≡ true
    → has_key (key_of e) c.cache_entries ≡ false
    → IsConsistent (added c e)
unfolding added
added-IsConsistent {c} e v p new =
    let u = key_of-update c.nvmf_hosts c.cache_entries e in
    record {
      persistent = All-append (λ x. x.1.persistent ≡ true) _ _ v.persistent (u.1 ∙ p);
      distinct =
          AllDistinct-append c.cache_entries c.next (stored c e) v.distinct (ground arith)
            (lookup_of_below c.next c.next c.cache_entries v.below refl);
      below =
          All-append _ _ _ (AllBelow-mono c.next (c.next + 2) c.cache_entries v.below (omega arith))
            (omega arith);
      registered = λ k. ground (arith, has_key-added c e k, find-added c e k, v.registered k);
      owned = λ k q h. owned-added e k q v h;
      heap_below = λ q h. ground (arith, lookup-added c e q, v.heap_below q);
    }

-- On a consistent cache `addEntry` of a persistent entry never fails, keeps the cache consistent, and
-- adds exactly the entry's key; it reports the entry's pair if the key is new, and no change otherwise.
pub add_entry-IsConsistent :
    {c : Cache} (e : Entry)
    → IsConsistent c
    → e.persistent ≡ true
    → IsConsistent (add_entry c e).0
      × ((add_entry c e).1
          ≡ (if has_key (key_of e) c.cache_entries then empty_pair else pair_of (key_of e)))
      × ((add_entry c e).2 ≡ none)
      × ((k : TKey)
          → has_key k (add_entry c e).0.cache_entries
            ≡ (has_key k c.cache_entries || key_of e == k))
add_entry-IsConsistent {c} e v p = elim (Bool-cases (has_key (key_of e) c.cache_entries)) [
  | inl old ↦ rw (add_entry-added e v p, old) (v, refl, refl, λ k. ground arith)
  | inr new ↦
      rw (add_entry-added e v p, new) (added-IsConsistent e v p new, refl, refl, has_key-added c e)
]

-- The cache once an entry is deleted.
unfoldable pub deleted : Cache → ℕ → Entry → Cache
deleted c p e = record c {
  cache_entries = remove_pointer p c.cache_entries;
  connections = delete_connection c.connections (pair_of (key_of e)) (key_of e);
}

deleted-IsConsistent :
    {c : Cache} (p : ℕ) (e : Entry)
    → IsConsistent c
    → lookup p c.cache_entries ≡ some e
    → IsConsistent (deleted c p e)
unfolding deleted
deleted-IsConsistent {c} p e v h = record {
  persistent = All-remove_pointer _ p c.cache_entries v.persistent;
  distinct = AllDistinct-remove_pointer p c.cache_entries v.distinct;
  below = All-remove_pointer _ p c.cache_entries v.below;
  registered = λ k. ground (
    arith,
    find-delete_connection c.connections (key_of e) k,
    has_key-remove_pointer k p c.cache_entries e v.distinct h,
    v.registered k,
  );
  owned = λ k q f. ground (arith, find-delete_connection c.connections (key_of e) k, v.owned k q);
  heap_below = v.heap_below;
}

-- What `deleteEntry` of a pointer to an entry, or to none, returns.
abbrev pub Deletes : Cache → Option Entry → Cache × ClientClusterPair × Option CacheError → Type 0
Deletes c none r = r ≡ (c, empty_pair, some entry_not_found)
Deletes c (some e) r =
    (r.1 ≡ pair_of (key_of e))
    × (r.2 ≡ none)
    × ((k : TKey)
        → has_key k r.0.cache_entries ≡ (has_key k c.cache_entries && not (key_of e == k)))

-- `deleteEntry` keeps the cache consistent. A pointer of the cache takes its entry's key away,
-- and nothing else, and the entry's pair is reported; any other pointer is an error and changes
-- nothing.
pub delete_entry-IsConsistent :
    {c : Cache} (p : ℕ)
    → IsConsistent c
    → IsConsistent (delete_entry c p).0 × Deletes c (lookup p c.cache_entries) (delete_entry c p)
unfolding delete_entry
delete_entry-IsConsistent {c} p v = elim (Option-cases (lookup p c.cache_entries)) [
  | inl miss ↦ rw (miss, delete_entry) (v, refl)
  | inr (e, hit) ↦
      rw (hit, delete_entry)
        (
          unfold deleted in deleted-IsConsistent p e v hit,
          (refl, refl, λ k. has_key-remove_pointer k p c.cache_entries e v.distinct hit),
        )
]
