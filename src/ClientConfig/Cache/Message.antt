-- ===== src/ClientConfig/Cache/Message.antt =====
-- `notifyChange` (pkg/clientconfig/cache.go): what the message to the service holds.
use discovery_client.Prelude.{
  Bool, false, Option, none, some, ◌||◌, ◌&&◌, not, ◌==◌, List, [], ◌∷◌, ◌≡◌, ◌≢◌, refl, arith,
  if◌then◌else◌,
}
use discovery_client.Prelude.Maps.{lookup, insert, lookup-insert}
use discovery_client.ClientConfig.Connections.{
  ClientClusterPair, ClientClusterPair_eq, ClusterConnections, ConnectionMap, is_empty,
}
use discovery_client.ClientConfig.Cache.{Cache}
use discovery_client.ClientConfig.Notification.{note_pair, changed_pairs, notify_change}

abbrev or_else : Option ClusterConnections → Option ClusterConnections → Option ClusterConnections
or_else none o = o
or_else (some cc) o = some cc

-- The pair is in the list.
unfoldable pub has_pair : ClientClusterPair → List ClientClusterPair → Bool
has_pair q [] = false
has_pair q (pair ∷ pairs) = pair == q || has_pair q pairs

lookup-note_pair :
    (c : Cache) (pair : ClientClusterPair) (acc : ConnectionMap) (q : ClientClusterPair)
    → lookup q (note_pair c pair acc) ≡ (
        if pair == q && not (is_empty q)
        then or_else (lookup q c.connections) (lookup q acc)
        else lookup q acc)
unfolding note_pair
lookup-note_pair c pair acc q = go (lookup pair c.connections) refl
  where
    go :
        (o : Option ClusterConnections)
        → lookup pair c.connections ≡ o
        → lookup q
            (if is_empty pair then acc else elim o [ none ↦ acc | some cc ↦ insert pair cc acc ])
          ≡ (if pair == q && not (is_empty q)
              then or_else (lookup q c.connections) (lookup q acc)
              else lookup q acc)
    go none h = ground arith
    go (some cc) h = ground (arith, lookup-insert pair q cc acc)

lookup-changed_pairs :
    (c : Cache) (pairs : List ClientClusterPair) (acc : ConnectionMap) (q : ClientClusterPair)
    → lookup q (changed_pairs c pairs acc) ≡ (
        if has_pair q pairs && not (is_empty q)
        then or_else (lookup q c.connections) (lookup q acc)
        else lookup q acc)
unfolding changed_pairs has_pair
lookup-changed_pairs c [] acc q = ground arith
lookup-changed_pairs c (pair ∷ pairs) acc q =
    ground
      (arith, lookup-note_pair c pair acc q, lookup-changed_pairs c pairs (note_pair c pair acc) q)

-- No message is a message with no pairs.
abbrev pub pairs_of : Option ConnectionMap → ConnectionMap
pairs_of none = []
pairs_of (some m) = m

pub pairs_of-message :
    (m : ConnectionMap) → pairs_of (elim m [ [] ↦ none | p ∷ ps ↦ some (p ∷ ps) ]) ≡ m
pairs_of-message [] = refl
pairs_of-message (p ∷ ps) = refl

message_not_empty : (m : ConnectionMap) → elim m [ [] ↦ none | p ∷ ps ↦ some (p ∷ ps) ] ≢ some []
message_not_empty [] h = cc
message_not_empty (p ∷ ps) h = ground arith

-- The message of `notifyChange` has, for each pair that is to be announced and is not empty, the
-- cluster's connections as the cache has them, and no other pair. No message is sent exactly where
-- it would hold no pair.
pub lookup-notify_change :
    (c : Cache) (pairs : List ClientClusterPair) (q : ClientClusterPair)
    → (lookup q (pairs_of (notify_change c pairs))
        ≡ (if has_pair q pairs && not (is_empty q) then lookup q c.connections else none))
      × (notify_change c pairs ≢ some [])
unfolding notify_change lookup
lookup-notify_change c pairs q = (
  ground (arith, pairs_of-message (changed_pairs c pairs []), lookup-changed_pairs c pairs [] q),
  message_not_empty (changed_pairs c pairs []),
)
