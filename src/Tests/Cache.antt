-- ===== src/Tests/Cache.antt =====
-- The cache (pkg/clientconfig/cache.go) on concrete inputs.
use mathlib.Core.List.Perm
use discovery_client.Prelude.{
  true, false, none, some, ◌||◌, ◌&&◌, not, ◌==◌, ℕ_eq, is_some, if◌then◌else◌, [], ◌∷◌, ◌≡◌, ◌≢◌,
  refl, ℕ_discrete, String_discrete, Bool_discrete, Bool-cases,
}
use discovery_client.Prelude.Int.{ℤ_discrete}
use discovery_client.Prelude.Maps.{lookup, insert, delete}
use discovery_client.ClientConfig.Entry.{compare, is_user, is_referral, get_effective_host_id}
use discovery_client.ClientConfig.Connections.{
  TKey, TKey_eq, TKey_discrete, ClientClusterPair_eq, ClientClusterPair_discrete, find, pair_of,
  empty_pair, is_empty, cluster, new_connection, add_connection, delete_connection,
}
use discovery_client.ClientConfig.Cache.{
  key_of, add_entry, delete_entry, exist_entry, inherit_tmo, first_user_tmo, get_host_id,
  maybe_update_host_ids, connection_for, remove_pointer, new_cache,
}
use discovery_client.ClientConfig.Referrals.{
  handle_referrals, get_entry_from_referral, add_connections_from_referrals, check_pairs,
  referral_entries, entries_to_remove, delete_entries, remove_connections_not_in_referrals,
}
use discovery_client.ClientConfig.Notification.{
  note_pair, changed_pairs, notify_change, file_added, add_file_entries,
}
use discovery_client.ClientConfig.Cache.Consistency.{IsConsistent, has_key}
use discovery_client.ClientConfig.Cache.Entries.{
  Deletes, add_entry-IsConsistent, delete_entry-IsConsistent,
}
use discovery_client.ClientConfig.Cache.Referrals.{has_ref}
use discovery_client.ClientConfig.Cache.Sync.{handle_referrals-sync}
use discovery_client.ClientConfig.Cache.Notify.{handle_referrals-quiet}
use discovery_client.ClientConfig.Cache.Message.{has_pair, pairs_of, lookup-notify_change}
use discovery_client.ClientConfig.Cache.Files.{in_file, file_added-IsConsistent}
use discovery_client.Tests.Data.{entry_at, ref_at, our_pair, one_entry, one_entry-IsConsistent}

program : Unit {0}
unfolding ℕ_discrete String_discrete Bool_discrete ℤ_discrete TKey_discrete
    ClientClusterPair_discrete Bool-cases lookup insert delete compare is_user is_referral
    get_effective_host_id find is_empty cluster new_connection add_connection delete_connection
    add_entry delete_entry exist_entry inherit_tmo first_user_tmo get_host_id maybe_update_host_ids
    connection_for remove_pointer new_cache handle_referrals get_entry_from_referral
    add_connections_from_referrals check_pairs referral_entries entries_to_remove delete_entries
    remove_connections_not_in_referrals note_pair changed_pairs notify_change file_added
    add_file_entries has_key
program = tt

-- The host's identity of the cache reaches the connection.
connection_of_host :
    lookup 1 one_entry.heap
    ≡ some (connection_for (record (entry_at "10.0.0.1") { effective_hostid = "id" }))
unfolding program
connection_of_host = refl

referrals_replace :
    (handle_referrals one_entry ((ref_at "10.0.0.2") ∷ []) ((ref_at "10.0.0.2") ∷ [])).notify
    ≡ some (our_pair ∷ our_pair ∷ [])
unfolding program
referrals_replace = refl

add_entry-IsConsistent_example :
    IsConsistent (add_entry one_entry (entry_at "10.0.0.2")).0
    × ((add_entry one_entry (entry_at "10.0.0.2")).1 ≡ (
        if has_key (key_of (entry_at "10.0.0.2")) one_entry.cache_entries
        then empty_pair
        else pair_of (key_of (entry_at "10.0.0.2"))))
    × ((add_entry one_entry (entry_at "10.0.0.2")).2 ≡ none)
    × ((k : TKey)
        → has_key k (add_entry one_entry (entry_at "10.0.0.2")).0.cache_entries
          ≡ (has_key k one_entry.cache_entries || key_of (entry_at "10.0.0.2") == k))
add_entry-IsConsistent_example =
    add_entry-IsConsistent (entry_at "10.0.0.2") one_entry-IsConsistent refl

delete_entry-IsConsistent_example :
    IsConsistent (delete_entry one_entry 0).0
    × Deletes one_entry (lookup 0 one_entry.cache_entries) (delete_entry one_entry 0)
delete_entry-IsConsistent_example = delete_entry-IsConsistent 0 one_entry-IsConsistent

-- A second server joins; the two loops visit the referrals in different orders.
handle_referrals-sync_example :
    let o =
      handle_referrals one_entry
        (ref_at "10.0.0.1" ∷ ref_at "10.0.0.2" ∷ [])
        (ref_at "10.0.0.2" ∷ ref_at "10.0.0.1" ∷ []) in
    IsConsistent o.cache
    × (o.error ≡ none)
    × ((k : TKey)
        → is_some (find o.cache.connections k) ≡ (
            if pair_of k == our_pair
            then has_ref k (ref_at "10.0.0.1" ∷ ref_at "10.0.0.2" ∷ [])
            else is_some (find one_entry.connections k)))
handle_referrals-sync_example =
    handle_referrals-sync our_pair (ref_at "10.0.0.1") (ref_at "10.0.0.2")
      ((ref_at "10.0.0.2") ∷ []) ((ref_at "10.0.0.1") ∷ []) one_entry-IsConsistent
      (Perm.swap _ _ []) (refl, (refl, tt))

-- The same referrals again change nothing.
handle_referrals-quiet_example :
    is_some (
      find
        (handle_referrals one_entry
          (ref_at "10.0.0.1" ∷ [])
          (ref_at "10.0.0.1" ∷ [])).cache.connections
        (key_of (entry_at "10.0.0.1")))
    ≡ is_some (find one_entry.connections (key_of (entry_at "10.0.0.1")))
unfolding program
handle_referrals-quiet_example =
    handle_referrals-quiet our_pair (ref_at "10.0.0.1") (ref_at "10.0.0.1") [] []
      one_entry-IsConsistent refl (refl, tt) (refl, tt) refl (key_of (entry_at "10.0.0.1"))

lookup-notify_change_example :
    (lookup our_pair (pairs_of (notify_change one_entry (our_pair ∷ []))) ≡ (
      if has_pair our_pair (our_pair ∷ []) && not (is_empty our_pair)
      then lookup our_pair one_entry.connections
      else none))
    × (notify_change one_entry (our_pair ∷ []) ≢ some [])
lookup-notify_change_example = lookup-notify_change one_entry (our_pair ∷ []) our_pair

file_added-IsConsistent_example :
    let r = file_added one_entry (entry_at "10.0.0.1" ∷ entry_at "10.0.0.2" ∷ []) in
    IsConsistent r.0
    × (r.2 ≡ none)
    × ((k : TKey)
        → has_key k r.0.cache_entries ≡ (
            has_key k one_entry.cache_entries
            || in_file k (entry_at "10.0.0.1" ∷ entry_at "10.0.0.2" ∷ [])))
    × ((k : TKey)
        → has_key k one_entry.cache_entries ≡ false
        → in_file k (entry_at "10.0.0.1" ∷ entry_at "10.0.0.2" ∷ []) ≡ true
        → is_empty (pair_of k) ≡ false
        → has_pair (pair_of k) r.1 ≡ true)
file_added-IsConsistent_example =
    file_added-IsConsistent (entry_at "10.0.0.1" ∷ entry_at "10.0.0.2" ∷ []) one_entry-IsConsistent
