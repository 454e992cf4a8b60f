-- ===== src/ClientConfig/Cache/Notify.antt =====
-- `HandleReferrals` and `notifyChange` (pkg/clientconfig/cache.go): which changes are announced.
use discovery_client.Prelude.{
  ℕ, true, false, none, some, ℕ_eq, is_some, List, [], ◌∷◌, ◌++◌, ◌≡◌, ◌≢◌, refl, arith, Bool-cases,
  inl, inr, Option-cases,
}
use discovery_client.Prelude.Maps.{lookup}
use discovery_client.HostApi.{NvmeDiscPageEntry}
use discovery_client.ClientConfig.Connections.{
  TKey, TKey_eq, ClientClusterPair, ClientClusterPair_eq, find, pair_of, is_empty, empty_pair,
  is_empty-empty_pair,
}
use discovery_client.ClientConfig.Cache.{Cache, key_of, add_entry, delete_entry, entry_not_found}
use discovery_client.ClientConfig.Referrals.{
  ReferralKey, ReferralMap, pair_of_referral, add_connections_from_referrals,
  get_entry_from_referral, delete_entries, entries_to_remove, referral_entries,
  remove_connections_not_in_referrals, handle_referrals,
}
use discovery_client.ClientConfig.Cache.Consistency.{IsConsistent, has_key}
use discovery_client.ClientConfig.Cache.Entries.{add_entry-IsConsistent, delete_entry-IsConsistent}
use discovery_client.ClientConfig.Cache.Referrals.{
  AllOf, persistent_ref, add_connections-IsConsistent,
}
use discovery_client.ClientConfig.Cache.Removal.{
  pointed, pointed-remove_pointer, remove_connections-delete_entries, pointed-to_remove,
  delete_entries-IsConsistent, remove_connections-IsConsistent, cache_entries-delete_entry,
}
use discovery_client.ClientConfig.Cache.Sync.{handle_referrals-parts}

snoc_ne {ℓ} : {A : Type ℓ} (l : List A) (x : A) → l ++ x ∷ [] ≢ []
snoc_ne [] x h = cc
snoc_ne (y ∷ l) x h = cc

pair_of_ref :
    (k : ReferralKey) (r : NvmeDiscPageEntry)
    → pair_of (key_of (get_entry_from_referral k r)) ≡ pair_of_referral k
unfolding get_entry_from_referral
pair_of_ref k r = refl

-- If the first loop reports no pair, it found every referral in the cache.
add_connections-quiet :
    (refs : ReferralMap) (pairs : List ClientClusterPair) (pair : ClientClusterPair) {c : Cache}
    → IsConsistent c
    → AllOf pair refs
    → is_empty pair ≡ false
    → (add_connections_from_referrals c refs pairs).1 ≡ []
    → (pairs ≡ [])
      × ((k : TKey)
          → has_key k (add_connections_from_referrals c refs pairs).0.cache_entries
            ≡ has_key k c.cache_entries)
unfolding add_connections_from_referrals
add_connections-quiet [] pairs pair v all ne h = (h, λ k. refl)
add_connections-quiet ((rk, r) ∷ refs) pairs pair {c} v all ne h =
    let e = get_entry_from_referral rk r in
    let (v', changed, err, keys) = add_entry-IsConsistent e v (persistent_ref rk r) in
    let (none_left, same) = add_connections-quiet refs _ pair v' all.1 ne h in
    elim (Bool-cases (has_key (key_of e) c.cache_entries)) [
      | inl old ↦
          (ground (arith, none_left, changed, err, old), λ k. ground (arith, same k, keys k, old))
      | inr new ↦ absurd (
          ground (
            arith,
            none_left,
            changed,
            err,
            new,
            pair_of_ref rk r,
            all.0,
            snoc_ne pairs (add_entry c e).1,
          ))
    ]

-- If the third loop reports no pair, it met no entry of a named pair.
delete_entries-quiet :
    (ps : List ℕ) (pairs : List ClientClusterPair) {c : Cache}
    → IsConsistent c
    → (delete_entries c ps pairs).1 ≡ []
    → (pairs ≡ [])
      × ((k : TKey) → pointed k ps c.cache_entries ≡ true → is_empty (pair_of k) ≡ true)
unfolding delete_entries pointed
delete_entries-quiet [] pairs v h = (h, λ k p. cc)
delete_entries-quiet (p ∷ ps) pairs {c} v h =
    let (v', del) = delete_entry-IsConsistent p v in
    let (none_left, rest) = delete_entries-quiet ps _ v' h in
    elim (Option-cases (lookup p c.cache_entries)) [
      | inl miss ↦
          let same : delete_entry c p ≡ (c, empty_pair, some entry_not_found) = rw miss at del in
          (
            ground (arith, none_left, same, is_empty-empty_pair),
            λ k. ground (arith, rest k, same, miss),
          )
      | inr (e, hit) ↦
          let gone = rw hit at del in
          let named : is_empty (pair_of (key_of e)) ≡ true =
            ground (arith, none_left, gone.0, snoc_ne pairs (delete_entry c p).1) in
          (
            ground (arith, none_left, gone.0, named),
            λ k. ground (
              arith,
              rest k,
              cache_entries-delete_entry c p e hit,
              pointed-remove_pointer k p e ps c.cache_entries v.distinct hit,
              named,
              hit,
            ),
          )
    ]

remove_connections-quiet :
    (r : ReferralKey × NvmeDiscPageEntry) (refs : ReferralMap) (pair : ClientClusterPair)
    {c : Cache}
    → IsConsistent c
    → AllOf pair (r ∷ refs)
    → is_empty pair ≡ false
    → (remove_connections_not_in_referrals c (r ∷ refs)).1 ≡ []
    → (k : TKey)
    → has_key k (remove_connections_not_in_referrals c (r ∷ refs)).0.cache_entries
      ≡ has_key k c.cache_entries
remove_connections-quiet r refs pair {c} v all ne h k =
    let ps = entries_to_remove c.cache_entries (referral_entries (r ∷ refs)) pair in
    let e = remove_connections-delete_entries c r refs pair all in
    let (_, quiet) = delete_entries-quiet ps [] v (rw e at h) in
    let (_, keys) = delete_entries-IsConsistent ps [] v in
    rw e (ground (arith, keys k, quiet k, pointed-to_remove c k (r ∷ refs) pair v))

-- What `HandleReferrals` announces.
notify-none :
    (c : Cache) (r : ReferralKey × NvmeDiscPageEntry) (first second : ReferralMap)
    → (handle_referrals c (r ∷ first) second).notify ≡ none
    → (add_connections_from_referrals c (r ∷ first) []).1
        ++ (remove_connections_not_in_referrals
            (add_connections_from_referrals c (r ∷ first) []).0
            second).1
      ≡ []
unfolding handle_referrals
notify-none c r first second h = ground arith

append-eq-nil {ℓ} : {A : Type ℓ} (l m : List A) → l ++ m ≡ [] → (l ≡ []) × (m ≡ [])
append-eq-nil [] m h = (refl, h)
append-eq-nil (x ∷ l) m h = absurd (ground arith)

-- No change goes unannounced: on a consistent cache, for referrals of one named pair, if
-- `HandleReferrals` starts no notification then every key has a connection after it exactly if it
-- had one before.
pub handle_referrals-quiet :
    {c : Cache} (pair : ClientClusterPair) (r s : ReferralKey × NvmeDiscPageEntry)
    (first second : ReferralMap)
    → IsConsistent c
    → is_empty pair ≡ false
    → AllOf pair (r ∷ first)
    → AllOf pair (s ∷ second)
    → (handle_referrals c (r ∷ first) (s ∷ second)).notify ≡ none
    → (k : TKey)
    → is_some (find (handle_referrals c (r ∷ first) (s ∷ second)).cache.connections k)
      ≡ is_some (find c.connections k)
handle_referrals-quiet {c} pair r s first second v ne all all' h k =
    let (quiet, quiet') = append-eq-nil _ _ (notify-none c r first (s ∷ second) h) in
    let (w, _) = add_connections-IsConsistent (r ∷ first) [] v in
    let (u, _, _) = remove_connections-IsConsistent s second pair w all' in
    let (_, same) = add_connections-quiet (r ∷ first) [] pair v all ne quiet in
    rw (handle_referrals-parts c r first (s ∷ second)).0 (
      ground (
        arith,
        u.registered k,
        v.registered k,
        same k,
        remove_connections-quiet s second pair w all' ne quiet' k,
      ))
