-- ===== src/System/Handling.antt =====
-- The operations of the cache (pkg/clientconfig/cache.go) as a whole announce what they change: the
-- events of the watcher, and the service's referrals.
use discovery_client.Prelude.{
  ℕ, true, false, Option, none, some, ◌||◌, ◌==◌, ℕ_eq, List, [], ◌∷◌, ◌++◌, ◌≡◌, refl, arith,
  if◌then◌else◌, Option-cases, inl, inr, if_both,
}
use discovery_client.ClientConfig.Entry.{Entry}
use discovery_client.ClientConfig.Connections.{
  ClientClusterPair, ClientClusterPair_eq, is_empty, empty_pair,
}
use discovery_client.ClientConfig.Cache.{Cache, CacheError, add_entry, delete_entry}
use discovery_client.ClientConfig.Referrals.{
  ReferralMap, get_entry_from_referral, add_connections_from_referrals, check_pairs,
  entries_to_remove, referral_entries, delete_entries, remove_connections_not_in_referrals,
  handle_referrals, Outcome,
}
use discovery_client.ClientConfig.Notification.{add_file_entries, keys_of, file_added}
use discovery_client.ClientConfig.Cache.Consistency.{IsConsistent}
use discovery_client.ClientConfig.Cache.Entries.{add_entry-IsConsistent}
use discovery_client.ClientConfig.Cache.Files.{noted, has_pair-noted, add_file_entries-Loads}
use discovery_client.ClientConfig.Cache.Message.{has_pair}
use discovery_client.ClientConfig.Cache.Referrals.{persistent_ref}
use discovery_client.Service.WellKeyed.{WellKeyed}
use discovery_client.System.{
  WatchEvent, EventOp, create, rename, remove, modify, chmod, unset, event_op, file_event, on_op,
  on_event, or_no_pairs,
}
use discovery_client.System.Changes.{
  Changes, no_change, then_change, add_entry-Changes, delete_entry-Changes,
}

add_file_entries-Changes :
    (entries : List Entry) (pairs : List (ClientClusterPair × _)) {c : Cache}
    → IsConsistent c
    → WellKeyed c.heap c.connections
    → let r = add_file_entries c entries pairs in Changes c (keys_of r.1) r.0
unfolding add_file_entries has_pair
add_file_entries-Changes [] pairs v w = no_change _ v w
add_file_entries-Changes (e ∷ entries) pairs {c} v w =
    let given : Entry = record e { persistent = true } in
    let (v', changed, err, keys) = add_entry-IsConsistent given v refl in
    let pair = (add_entry c given).1 in
    let one = add_entry-Changes given v w refl in
    let rest = add_file_entries-Changes entries (noted pair pairs) v' one.keyed in
    let loads = add_file_entries-Loads entries (noted pair pairs) v' in
    rw err (
      then_change _ one rest
        (λ q named quiet. (ground (arith, loads.kept q, has_pair-noted q pair pairs), quiet)))

file_event-Changes :
    {c : Cache} (parsed : Option (List Entry))
    → IsConsistent c
    → WellKeyed c.heap c.connections
    → let r = file_event c parsed in Changes c r.1 r.0
unfolding file_event file_added
file_event-Changes none v w = no_change _ v w
file_event-Changes (some entries) v w =
    rw ((add_file_entries-Loads entries [] v).ok) (add_file_entries-Changes entries [] v w)

on_op-Changes :
    {c : Cache} (parsed : Option (List Entry)) (op : EventOp)
    → IsConsistent c
    → WellKeyed c.heap c.connections
    → let r = on_op c parsed op in Changes c r.1 r.0
unfolding on_op
on_op-Changes parsed create v w = file_event-Changes parsed v w
on_op-Changes parsed rename v w = file_event-Changes parsed v w
on_op-Changes parsed remove v w = no_change _ v w
on_op-Changes parsed modify v w = no_change _ v w
on_op-Changes parsed chmod v w = no_change _ v w
on_op-Changes parsed unset v w = no_change _ v w

-- An event of the watcher announces what it changes.
pub on_event-Changes :
    {c : Cache} (e : WatchEvent)
    → IsConsistent c
    → WellKeyed c.heap c.connections
    → let r = on_event c e in Changes c r.1 r.0
unfolding on_event
on_event-Changes {c} e v w =
    if_both (λ (r : Cache × List ClientClusterPair). Changes c r.1 r.0) e.reserved (no_change _ v w)
      (on_op-Changes e.parsed (event_op e.op) v w)

pub has_pair-append :
    (q : ClientClusterPair) (ps qs : List ClientClusterPair)
    → has_pair q (ps ++ qs) ≡ (has_pair q ps || has_pair q qs)
unfolding has_pair
has_pair-append q [] qs = refl
has_pair-append q (p ∷ ps) qs = ground (arith, has_pair-append q ps qs)

-- The pairs once a changed pair is appended, unless it is empty.
abbrev appended : ClientClusterPair → List ClientClusterPair → List ClientClusterPair
appended pair pairs = if is_empty pair then pairs else pairs ++ (pair ∷ [])

has_pair-appended :
    (q pair : ClientClusterPair) (ps : List ClientClusterPair)
    → is_empty q ≡ false
    → has_pair q (appended pair ps) ≡ (has_pair q ps || pair == q)
unfolding has_pair
has_pair-appended q pair ps named = ground (arith, has_pair-append q ps (pair ∷ []))

-- A loop that appends the pairs it reports to those it was given.
record Appends (c : Cache) (pairs : List ClientClusterPair) (c' : Cache)
    (pairs' : List ClientClusterPair) : Type 0 where
  changes : Changes c pairs' c'
  kept :
      (q : ClientClusterPair)
      → is_empty q ≡ false
      → has_pair q pairs' ≡ false
      → has_pair q pairs ≡ false

-- One round of such a loop, and the others.
Appends-step :
    {a b c : Cache} {rs : List ClientClusterPair} (pair : ClientClusterPair)
    (ps : List ClientClusterPair)
    → Changes a (pair ∷ []) b
    → Appends b (appended pair ps) c rs
    → Appends a ps c rs
unfolding has_pair
Appends-step {rs = rs} pair ps one rest =
    let seen =
      λ (q : ClientClusterPair) (named : is_empty q ≡ false) (quiet : has_pair q rs ≡ false).
        has_pair-appended q pair ps named in
    record {
      changes =
          then_change rs one rest.changes
            (λ q named quiet. (ground (arith, rest.kept q named quiet, seen q named quiet), quiet));
      kept = λ q named quiet. ground (arith, rest.kept q named quiet, seen q named quiet);
    }

add_connections-Appends :
    (refs : ReferralMap) (pairs : List ClientClusterPair) {c : Cache}
    → IsConsistent c
    → WellKeyed c.heap c.connections
    → let r = add_connections_from_referrals c refs pairs in Appends c pairs r.0 r.1
unfolding add_connections_from_referrals
add_connections-Appends [] pairs v w = record {
  changes = no_change pairs v w;
  kept = λ q named quiet. quiet;
}
add_connections-Appends ((k, r) ∷ refs) pairs {c} v w =
    let e = get_entry_from_referral k r in
    let p = persistent_ref k r in
    let one = add_entry-Changes e v w p in
    let err = (add_entry-IsConsistent e v p).2 in
    let pair = (add_entry c e).1 in
    let rest = add_connections-Appends refs (appended pair pairs) one.consistent one.keyed in
    rw (err, add_connections_from_referrals) (Appends-step pair pairs one rest)

delete_entries-Appends :
    (ps : List ℕ) (pairs : List ClientClusterPair) {c : Cache}
    → IsConsistent c
    → WellKeyed c.heap c.connections
    → let r = delete_entries c ps pairs in Appends c pairs r.0 r.1
unfolding delete_entries
delete_entries-Appends [] pairs v w = record {
  changes = no_change pairs v w;
  kept = λ q named quiet. quiet;
}
delete_entries-Appends (p ∷ ps) pairs {c} v w =
    let one = delete_entry-Changes p v w in
    let pair = (delete_entry c p).1 in
    let rest = delete_entries-Appends ps (appended pair pairs) one.consistent one.keyed in
    Appends-step pair pairs one rest

remove_connections-Changes :
    {c : Cache} (refs : ReferralMap)
    → IsConsistent c
    → WellKeyed c.heap c.connections
    → let r = remove_connections_not_in_referrals c refs in Changes c r.1 r.0
unfolding remove_connections_not_in_referrals
remove_connections-Changes {c} refs v w =
    elim (Option-cases (check_pairs refs empty_pair empty_pair)) [
      | inl bad ↦ rw (bad, remove_connections_not_in_referrals) (no_change _ v w)
      | inr (pair, ok) ↦
          rw (ok, remove_connections_not_in_referrals)
            ((delete_entries-Appends
              (entries_to_remove c.cache_entries (referral_entries refs) pair) [] v w).changes)
    ]

report :
    {c final : Cache} (err : Option CacheError) (pairs : List ClientClusterPair)
    → Changes c pairs final
    → let o : Outcome = elim pairs [
      | [] ↦ record { cache = final; referrals_file = none; notify = none; error = err }
      | p ∷ ps ↦ record {
        cache = final;
        referrals_file = some final.cache_entries;
        notify = some (p ∷ ps);
        error = err;
      }
    ] in
      Changes c (or_no_pairs o.notify) o.cache
report err [] h = h
report err (p ∷ ps) h = h

-- The referrals announce what they change, in whatever order the loops visit them.
pub handle_referrals-Changes :
    {c : Cache} (first second : ReferralMap)
    → IsConsistent c
    → WellKeyed c.heap c.connections
    → let o = handle_referrals c first second in Changes c (or_no_pairs o.notify) o.cache
unfolding handle_referrals
handle_referrals-Changes [] second v w = no_change _ v w
handle_referrals-Changes {c} (r ∷ first) second v w =
    let new = (add_connections-Appends (r ∷ first) [] v w).changes in
    let (added, new_pairs) = add_connections_from_referrals c (r ∷ first) [] in
    let gone = remove_connections-Changes second new.consistent new.keyed in
    let removed_pairs = (remove_connections_not_in_referrals added second).1 in
    let both = then_change (new_pairs ++ removed_pairs) new gone (λ q named quiet. (
      ground (arith, has_pair-append q new_pairs removed_pairs),
      ground (arith, has_pair-append q new_pairs removed_pairs),
    )) in
    report _ (new_pairs ++ removed_pairs) both
