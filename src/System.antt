-- ===== src/System.antt =====
-- pkg/clientconfig/cache.go and service/service.go together: the loop of the cache over the events
-- of its directory, the referrals that the service passes to the cache, and the messages in which
-- the cache announces changed clusters to the service.
pub mod Changes
pub mod Handling
pub mod Serving
pub mod Delivery
pub mod InSync
pub mod Reachable
use discovery_client.Prelude.{
  Bool, true, false, Option, none, some, String, is_some, if◌then◌else◌, List, [], ◌∷◌, ◌++◌,
}
use discovery_client.ClientConfig.Entry.{Entry}
use discovery_client.ClientConfig.Connections.{ClientClusterPair, ConnectionMap}
use discovery_client.ClientConfig.Cache.{Cache, new_cache}
use discovery_client.ClientConfig.Referrals.{ReferralMap, handle_referrals}
use discovery_client.ClientConfig.Notification.{file_added, notify_change}
use discovery_client.Service.{Service, handle_notification}

-- `EventOp`, and `unset` for the empty string.
pub data EventOp : Type 0 where
  create remove modify rename chmod unset : EventOp

-- The bits of the operation that fsnotify reports.
pub record FsnotifyOp : Type 0 where
  pub has_create : Bool
  pub has_write : Bool
  pub has_remove : Bool
  pub has_rename : Bool
  pub has_chmod : Bool

-- The operation of an event of `FileWatcher.Watch`.
unfoldable pub event_op : FsnotifyOp → EventOp
event_op op =
    if op.has_create
    then create
    else if op.has_write
    then modify
    else if op.has_remove
    then remove
    else if op.has_rename
    then rename
    else if op.has_chmod
    then chmod
    else unset

-- An event of the watcher: whether the file's base name has the reserved prefix, and what `parse`
-- makes of the file (`none` is an error).
pub record WatchEvent : Type 0 where
  pub op : FsnotifyOp
  pub reserved : Bool
  pub parsed : Option (List Entry)

-- `fileAdded`, `parse` included: the cache and the pairs to announce.
unfoldable pub file_event : Cache → Option (List Entry) → Cache × List ClientClusterPair
file_event c none = (c, [])
file_event c (some entries) =
    let (c', pairs, err) = file_added c entries in (c', if is_some err then [] else pairs)

-- The switch on the event's operation.
unfoldable pub on_op : Cache → Option (List Entry) → EventOp → Cache × List ClientClusterPair
on_op c parsed create = file_event c parsed
on_op c parsed rename = file_event c parsed
on_op c parsed remove = (c, [])
on_op c parsed modify = (c, [])
on_op c parsed chmod = (c, [])
on_op c parsed unset = (c, [])

-- The case of the loop of `Run` for an event of the watcher.
unfoldable pub on_event : Cache → WatchEvent → Cache × List ClientClusterPair
on_event c e = if e.reserved then (c, []) else on_op c e.parsed (event_op e.op)

-- The cache and the service: both hold pointers into the heap of the cache. `pending` holds, for
-- each `notifyChange` that was called and whose message the service has not received, its pairs.
pub record System : Type 0 where
  pub cache : Cache
  pub connections : ConnectionMap
  pub disconnected : List String
  pub pending : List (List ClientClusterPair)

-- `notifyChange` is called where there is a pair to announce.
unfoldable pub announce : List ClientClusterPair → List (List ClientClusterPair)
announce [] = []
announce (p ∷ ps) = (p ∷ ps) ∷ []

-- A change of the cache, and the announcement of its pairs.
abbrev pub with_cache : System → Cache → List ClientClusterPair → System
with_cache s c pairs = record s { cache = c; pending = s.pending ++ announce pairs }

unfoldable pub watched : System → WatchEvent → System
watched s e = let (c, pairs) = on_event s.cache e in with_cache s c pairs

abbrev pub or_no_pairs : Option (List ClientClusterPair) → List ClientClusterPair
or_no_pairs none = []
or_no_pairs (some pairs) = pairs

-- `HandleReferrals` as the service calls it.
unfoldable pub referred : System → ReferralMap → ReferralMap → System
referred s first second =
    let o = handle_referrals s.cache first second in with_cache s o.cache (or_no_pairs o.notify)

-- The service's part of the state.
abbrev pub service_of : System → Service
service_of s = record {
  connections = s.connections;
  heap = s.cache.heap;
  disconnected = s.disconnected;
}

abbrev pub with_service : System → Service → System
with_service s t = record s {
  cache = record s.cache { heap = t.heap };
  connections = t.connections;
  disconnected = t.disconnected;
}

-- The service handles a message, if there is one.
unfoldable pub handled : System → Option ConnectionMap → System
handled s none = s
handled s (some message) = with_service s (handle_notification (service_of s) message).0

-- The service receives the message for some pairs; others are still pending. The clusters of the
-- message are the cache's own maps, so it shows them as they are when it is received.
unfoldable pub delivered : System → List ClientClusterPair → List (List ClientClusterPair) → System
delivered s pairs rest = record (handled s (notify_change s.cache pairs)) { pending = rest }

-- Before the first event, with the host ids that were found.
unfoldable pub started : List (String × String) → System
started hosts = record {
  cache = new_cache hosts;
  connections = [];
  disconnected = [];
  pending = [];
}
