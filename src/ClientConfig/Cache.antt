-- ===== src/ClientConfig/Cache.antt =====
-- pkg/clientconfig/cache.go: the state of the cache, and the operations on its entries.
pub mod Consistency
pub mod Entries
pub mod Referrals
pub mod Removal
pub mod Sync
pub mod Notify
pub mod Message
pub mod Files
use discovery_client.Prelude.{
  ℕ, ◌+◌, String, Bool, true, false, Option, none, some, ◌&&◌, ◌==◌, not, String_eq, ℕ_eq, is_some,
  Eq, ℕ_discrete, String_discrete, if◌then◌else◌, List, [], ◌∷◌, ◌++◌,
}
use discovery_client.Prelude.Int.{ℤ, pos}
use discovery_client.Prelude.Maps.{lookup, insert}
use discovery_client.HostApi.{NvmeDiscPageEntry}
use discovery_client.ClientConfig.Entry.{
  Entry, compare, is_user, is_referral, get_effective_host_id, referral,
}
use discovery_client.ClientConfig.Connections.{
  TKey, ClientClusterPair, ClientClusterPair_eq, Connection, ConnectionMap, empty_pair, is_empty,
  new_connection, add_connection, delete_connection, find, pair_of, cluster,
}

-- `cache`: an entry is held by pointer, so each stands with its address. `next` is the next free
-- address, for entries and connections alike; `heap` holds the connections.
pub record Cache : Type 0 where
  pub cache_entries : List (ℕ × Entry)
  pub connections : ConnectionMap
  pub heap : List (ℕ × Connection)
  pub next : ℕ
  pub nvmf_hosts : List (String × String)

pub data CacheError : Type 0 where
  mismatch_with_connections entry_not_found different_pairs empty_referrals : CacheError

-- `existEntry`.
unfoldable pub exist_entry : Entry → List (ℕ × Entry) → Bool
exist_entry new_entry [] = false
exist_entry new_entry ((_, in_list) ∷ entries) =
    if compare new_entry (some in_list) then true else exist_entry new_entry entries

-- The loop of `addEntry` that looks for a timeout set by the user.
unfoldable pub first_user_tmo : List (ℕ × Entry) → Option ℤ
first_user_tmo [] = none
first_user_tmo ((_, entry) ∷ entries) =
    if is_user entry.entry_source && is_some entry.ctrl_loss_tmo
    then entry.ctrl_loss_tmo
    else first_user_tmo entries

unfoldable pub inherit_tmo : List (ℕ × Entry) → Entry → Entry
inherit_tmo entries e =
    if is_referral e.entry_source && not (is_some e.ctrl_loss_tmo)
    then record e { ctrl_loss_tmo = first_user_tmo entries }
    else e

abbrev or_empty : Option String → String
or_empty none = ""
or_empty (some s) = s

-- `GetHostID`.
unfoldable pub get_host_id : List (String × String) → String → String
get_host_id hosts hostnqn = or_empty (lookup hostnqn hosts)

-- `MaybeUpdateHostIDs`.
unfoldable pub maybe_update_host_ids : List (String × String) → Entry → Entry
maybe_update_host_ids hosts e =
    let effective = get_host_id hosts e.hostnqn in
    if not (effective == "") && not (effective == e.hostid)
    then record e { effective_hostid = effective }
    else e

-- The connection key of an entry.
abbrev pub key_of : Entry → TKey
key_of e = record {
  transport = e.transport;
  ip = e.traddr;
  port = e.trsvcid;
  nqn = e.subsysnqn;
  hostnqn = e.hostnqn;
}

-- The connection that `addEntry` makes for an entry.
unfoldable pub connection_for : Entry → Connection
connection_for e = record (new_connection (key_of e) e.ctrl_loss_tmo) {
  hostnqn = e.hostnqn;
  hostid = get_effective_host_id e;
}

-- `addEntry`: the changed pair (empty where nothing changed), and the error.
unfoldable pub add_entry : Cache → Entry → Cache × ClientClusterPair × Option CacheError
add_entry c given =
    if exist_entry given c.cache_entries
    then (c, empty_pair, none)
    else let e = maybe_update_host_ids c.nvmf_hosts (inherit_tmo c.cache_entries given) in
      let entries = c.cache_entries ++ ((c.next, e) ∷ []) in
      if is_some (find c.connections (key_of e))
      then (
        record c { cache_entries = entries; next = c.next + 1 },
        empty_pair,
        some mismatch_with_connections,
      )
      else (
        record c {
          cache_entries = entries;
          connections = add_connection c.connections (key_of e) (c.next + 1);
          heap = insert (c.next + 1) (connection_for e) c.heap;
          next = c.next + 2;
        },
        pair_of (key_of e),
        none,
      )

-- `append(entries[:i], entries[i+1:]...)` at the first entry with the pointer.
unfoldable pub remove_pointer : ℕ → List (ℕ × Entry) → List (ℕ × Entry)
remove_pointer p [] = []
remove_pointer p ((q, e) ∷ entries) = if q == p then entries else (q, e) ∷ remove_pointer p entries

-- `deleteEntry`: the entry is given by its pointer.
unfoldable pub delete_entry : Cache → ℕ → Cache × ClientClusterPair × Option CacheError
delete_entry c p = elim (lookup p c.cache_entries) [
  | none ↦ (c, empty_pair, some entry_not_found)
  | some e ↦ (
    record c {
      cache_entries = remove_pointer p c.cache_entries;
      connections = delete_connection c.connections (pair_of (key_of e)) (key_of e);
    },
    pair_of (key_of e),
    none,
  )
]

-- `NewCache`, with the host ids that `GetNvmfHosts` found.
unfoldable pub new_cache : List (String × String) → Cache
new_cache hosts = record {
  cache_entries = [];
  connections = [];
  heap = [];
  next = 0;
  nvmf_hosts = hosts;
}
