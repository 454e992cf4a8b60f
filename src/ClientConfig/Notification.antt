-- ===== src/ClientConfig/Notification.antt =====
-- pkg/clientconfig/cache.go: `notifyChange`, and `fileAdded`.
use discovery_client.Prelude.{Bool, true, Option, none, some, is_some, if◌then◌else◌, List, [], ◌∷◌}
use discovery_client.Prelude.Maps.{lookup, insert}
use discovery_client.ClientConfig.Entry.{Entry}
use discovery_client.ClientConfig.Connections.{
  ClientClusterPair, ClientClusterPair_eq, ConnectionMap, is_empty,
}
use discovery_client.ClientConfig.Cache.{Cache, CacheError, add_entry}

-- The body of the loop of `notifyChange`.
unfoldable pub note_pair : Cache → ClientClusterPair → ConnectionMap → ConnectionMap
note_pair c pair acc =
    if is_empty pair
    then acc
    else elim (lookup pair c.connections) [ none ↦ acc | some cc ↦ insert pair cc acc ]

unfoldable pub changed_pairs : Cache → List ClientClusterPair → ConnectionMap → ConnectionMap
changed_pairs c [] acc = acc
changed_pairs c (pair ∷ pairs) acc = changed_pairs c pairs (note_pair c pair acc)

-- `notifyChange`: the message for the service, if any pair has connections.
unfoldable pub notify_change : Cache → List ClientClusterPair → Option ConnectionMap
notify_change c pairs = elim (changed_pairs c pairs []) [ [] ↦ none | m ∷ ms ↦ some (m ∷ ms) ]

-- The loop of `fileAdded` over the entries that `parse` found: the set of the changed pairs, or
-- the first error; the entries added so far stay.
unfoldable pub add_file_entries :
    Cache
    → List Entry
    → List (ClientClusterPair × Bool)
    → Cache × List (ClientClusterPair × Bool) × Option CacheError
add_file_entries c [] pairs = (c, pairs, none)
add_file_entries c (e ∷ entries) pairs =
    let (c', pair, err) = add_entry c (record e { persistent = true }) in
    let rest =
      add_file_entries c' entries (if is_empty pair then pairs else insert pair true pairs) in
    if is_some err then (c', [], err) else rest

abbrev pub keys_of : List (ClientClusterPair × Bool) → List ClientClusterPair
keys_of [] = []
keys_of ((pair, _) ∷ pairs) = pair ∷ keys_of pairs

-- `fileAdded`, after `parse` has read the file.
unfoldable pub file_added : Cache → List Entry → Cache × List ClientClusterPair × Option CacheError
file_added c entries =
    let (c', pairs, err) = add_file_entries c entries [] in (c', keys_of pairs, err)
