-- ===== src/Tests/System.antt =====
-- The cache and the service together (pkg/clientconfig/cache.go, service/service.go) on a concrete
-- run: a configuration file with one server.
use discovery_client.Prelude.{
  ℕ, suc, true, false, none, some, is_some, [], ◌∷◌, ◌≡◌, refl, ℕ_discrete, String_discrete,
  Bool_discrete, Bool-cases,
}
use discovery_client.Prelude.Int.{ℤ_discrete}
use discovery_client.Prelude.Maps.{lookup, insert, delete}
use discovery_client.HostApi.{DiscoverRequest}
use discovery_client.ClientConfig.Entry.{compare, is_user, is_referral, get_effective_host_id}
use discovery_client.ClientConfig.Connections.{
  TKey, TKey_discrete, ClientClusterPair_discrete, find, find_in, pair_of, is_empty, cluster,
  new_connection, add_connection, delete_connection, exists_in,
}
use discovery_client.ClientConfig.Cache.{
  key_of, add_entry, exist_entry, inherit_tmo, first_user_tmo, get_host_id, maybe_update_host_ids,
  connection_for, new_cache,
}
use discovery_client.ClientConfig.Notification.{
  note_pair, changed_pairs, notify_change, file_added, add_file_entries,
}
use discovery_client.ClientConfig.Cache.Consistency.{has_key}
use discovery_client.ClientConfig.Cache.Message.{has_pair}
use discovery_client.Service.{
  handle_notification, remove_connections, remove_cluster, add_connections, add_missing,
  note_unmodified, to_reconnect,
}
use discovery_client.Service.Discovery.{Reply}
use discovery_client.System.{
  System, WatchEvent, FsnotifyOp, event_op, file_event, on_op, on_event, announce, watched, handled,
  delivered, started,
}
use discovery_client.System.InSync.{is_pending}
use discovery_client.System.Reachable.{
  IsReachable, start, watch, receive, drain, find-IsReachable, drain-synced,
}
use discovery_client.Tests.Data.{entry_at}

program : Unit {0}
unfolding event_op ℕ_discrete String_discrete Bool_discrete ℤ_discrete TKey_discrete
    ClientClusterPair_discrete Bool-cases lookup insert delete compare is_user is_referral
    get_effective_host_id find find_in is_empty cluster new_connection add_connection
    delete_connection exists_in add_entry exist_entry inherit_tmo first_user_tmo get_host_id
    maybe_update_host_ids connection_for new_cache note_pair changed_pairs notify_change file_added
    add_file_entries has_key has_pair handle_notification remove_connections remove_cluster
    add_connections add_missing note_unmodified to_reconnect file_event on_op on_event announce
    watched handled delivered started is_pending drain
program = tt

-- A file with one server appears in the directory.
abbrev created : FsnotifyOp
created = record {
  has_create = true;
  has_write = false;
  has_remove = false;
  has_rename = false;
  has_chmod = false;
}

abbrev new_file : WatchEvent
new_file = record { op = created; reserved = false; parsed = some (entry_at "10.0.0.1" ∷ []) }

abbrev with_file : System
with_file = watched (started (("host", "id") ∷ [])) new_file

-- A host that counts its requests and answers none of them.
abbrev answer : ℕ → DiscoverRequest → ℕ × Reply
answer n request = (suc n, record { entries = []; id = ""; error = none })

abbrev our_key : TKey
our_key = key_of (entry_at "10.0.0.1")

with_file-IsReachable : IsReachable answer with_file
with_file-IsReachable = watch (start (("host", "id") ∷ [])) new_file

announced : with_file.pending ≡ (pair_of our_key ∷ []) ∷ []
unfolding program
announced = refl

received : (delivered with_file (pair_of our_key ∷ []) []).connections ≡ with_file.cache.connections
unfolding program
received = refl

find-IsReachable_example :
    let t = delivered with_file (pair_of our_key ∷ []) [] in
    (find t.connections our_key ≡ find t.cache.connections our_key)
    × (is_some (find t.connections our_key) ≡ has_key our_key t.cache.cache_entries)
unfolding program
find-IsReachable_example =
    find-IsReachable answer our_key
      (receive with_file-IsReachable [] (pair_of our_key ∷ []) [] announced) refl refl

drain-synced_example :
    let t = drain with_file.pending with_file in
    (t.pending ≡ [])
    × (t.cache.cache_entries ≡ with_file.cache.cache_entries)
    × ((k : TKey)
        → is_empty (pair_of k) ≡ false
        → is_some (find t.connections k) ≡ has_key k with_file.cache.cache_entries)
drain-synced_example = drain-synced answer with_file-IsReachable
