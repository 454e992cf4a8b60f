-- ===== src/ClientConfig/Cache/Removal.antt =====
-- Removal of entries by pointer (pkg/clientconfig/cache.go): the loops of
-- `removeConnectionsNotInReferrals`.
use discovery_client.Prelude.{
  ℕ, Bool, true, false, none, some, ◌||◌, ◌&&◌, not, ◌==◌, ℕ_eq, is_some, List, [], ◌∷◌, ◌++◌, ◌≡◌,
  refl, arith, if◌then◌else◌, inl, inr, Option-cases, All, ◌⊎◌,
}
use discovery_client.Prelude.Maps.{lookup}
use discovery_client.HostApi.{NvmeDiscPageEntry}
use discovery_client.ClientConfig.Entry.{Entry}
use discovery_client.ClientConfig.Connections.{
  TKey, TKey_eq, ClientClusterPair, ClientClusterPair_eq, pair_of, empty_pair, is_empty,
  is_empty-empty_pair,
}
use discovery_client.ClientConfig.Cache.{Cache, key_of, delete_entry, remove_pointer}
use discovery_client.ClientConfig.Referrals.{
  ReferralKey, ReferralMap, pair_of_referral, check_pairs, referral_entries, entries_to_remove,
  delete_entries, remove_connections_not_in_referrals,
}
use discovery_client.ClientConfig.Cache.Consistency.{
  IsConsistent, has_key, AllPersistent, AllDistinct, exist_entry-has_key, lookup-remove_pointer,
}
use discovery_client.ClientConfig.Cache.Entries.{delete_entry-IsConsistent}
use discovery_client.ClientConfig.Cache.Referrals.{has_ref, AllOf, referral_entries-AllPersistent}

-- The key of some entry that one of the pointers points to.
unfoldable pub pointed : TKey → List ℕ → List (ℕ × Entry) → Bool
pointed k [] l = false
pointed k (p ∷ ps) l =
    (elim (lookup p l) [ none ↦ false | some e ↦ key_of e == k ]) || pointed k ps l

pub pointed-remove_pointer :
    (k : TKey) (p : ℕ) (e : Entry) (ps : List ℕ) (l : List (ℕ × Entry))
    → AllDistinct l
    → lookup p l ≡ some e
    → (key_of e == k) ≡ false
    → pointed k ps (remove_pointer p l) ≡ pointed k ps l
unfolding pointed
pointed-remove_pointer k p e [] l d h ne = refl
pointed-remove_pointer k p e (q ∷ ps) l d h ne =
    ground (arith, pointed-remove_pointer k p e ps l d h ne, lookup-remove_pointer q p l d)

pub pointed-miss :
    (k : TKey) (p : ℕ) (ps : List ℕ) (l : List (ℕ × Entry))
    → lookup p l ≡ none
    → pointed k (p ∷ ps) l ≡ pointed k ps l
unfolding pointed
pointed-miss k p ps l h = ground arith

pub pointed-hit :
    (k : TKey) (p : ℕ) (ps : List ℕ) (l : List (ℕ × Entry)) (e : Entry)
    → lookup p l ≡ some e
    → pointed k (p ∷ ps) l ≡ (key_of e == k || pointed k ps l)
unfolding pointed
pointed-hit k p ps l e h = ground arith

pub cache_entries-delete_entry :
    (c : Cache) (p : ℕ) (e : Entry)
    → lookup p c.cache_entries ≡ some e
    → (delete_entry c p).0.cache_entries ≡ remove_pointer p c.cache_entries
unfolding delete_entry
cache_entries-delete_entry c p e h = ground arith

-- The third loop takes away exactly the keys that its pointers point to.
pub delete_entries-IsConsistent :
    (ps : List ℕ) (pairs : List ClientClusterPair) {c : Cache}
    → IsConsistent c
    → IsConsistent (delete_entries c ps pairs).0
      × ((k : TKey)
          → has_key k (delete_entries c ps pairs).0.cache_entries
            ≡ (has_key k c.cache_entries && not (pointed k ps c.cache_entries)))
unfolding delete_entries
delete_entries-IsConsistent [] pairs v = (v, λ k. unfold pointed in ground arith)
delete_entries-IsConsistent (p ∷ ps) pairs {c} v =
    let (v', del) = delete_entry-IsConsistent p v in
    let (w, all) =
      delete_entries-IsConsistent ps
        (if is_empty (delete_entry c p).1 then pairs else pairs ++ ((delete_entry c p).1 ∷ []))
        v' in
    elim (Option-cases (lookup p c.cache_entries)) [
      | inl miss ↦
          let same : delete_entry c p ≡ (c, empty_pair, some _) = rw miss at del in
          (w, λ k. ground (arith, all k, same, pointed-miss k p ps c.cache_entries miss))
      | inr (e, hit) ↦
          let gone = rw hit at del in
          (
            w,
            λ k. ground (
              arith,
              all k,
              gone.2 k,
              pointed-hit k p ps c.cache_entries e hit,
              cache_entries-delete_entry c p e hit,
              pointed-remove_pointer k p e ps c.cache_entries v.distinct hit,
            ),
          )
    ]

-- Every entry of the list is found under its pointer.
abbrev AllFound : List (ℕ × Entry) → List (ℕ × Entry) → Type 0
AllFound l = All (λ x. lookup x.0 l ≡ some x.1)

AllFound-cons :
    (a : ℕ) (o : Entry) (l m : List (ℕ × Entry))
    → is_some (lookup a l) ≡ false
    → AllFound l m
    → AllFound ((a, o) ∷ l) m
unfolding lookup
AllFound-cons a o l [] new h = tt
AllFound-cons a o l (x ∷ m) new h = (ground arith, AllFound-cons a o l m new h.1)

AllFound-self : (l : List (ℕ × Entry)) → AllDistinct l → AllFound l l
unfolding lookup
AllFound-self [] d = tt
AllFound-self ((a, o) ∷ l) d = (ground arith, AllFound-cons a o l l d.1 (AllFound-self l d.2))

-- The second loop points at the entries of the pair that no referral has.
pub pointed-entries_to_remove :
    (k : TKey) (refs : ReferralMap) (pair : ClientClusterPair) (l m : List (ℕ × Entry))
    → AllPersistent m
    → AllFound l m
    → pointed k (entries_to_remove m (referral_entries refs) pair) l
      ≡ (has_key k m && (pair_of k == pair && not (has_ref k refs)))
unfolding entries_to_remove pointed has_key
pointed-entries_to_remove k refs pair l [] p f = refl
pointed-entries_to_remove k refs pair l ((a, o) ∷ m) p f = ground (
  arith,
  exist_entry-has_key o (referral_entries refs) (referral_entries-AllPersistent refs) p.0,
  pointed-entries_to_remove k refs pair l m p.1 f.1,
)

-- The check passes for referrals of one pair, and gives that pair.
check_pairs-some :
    (refs : ReferralMap) (prev current pair : ClientClusterPair)
    → AllOf pair refs
    → (is_empty prev ≡ true) ⊎ (prev ≡ pair)
    → check_pairs refs prev current ≡ some (elim refs [ [] ↦ current | _ ↦ pair ])
unfolding check_pairs
check_pairs-some [] prev current pair all h = refl
check_pairs-some ((k, r) ∷ []) prev current pair all h = ground (arith, check_pairs)
check_pairs-some ((k, r) ∷ (k', r') ∷ refs) prev current pair all h = ground (
  arith,
  check_pairs-some ((k', r') ∷ refs) (pair_of_referral k) (pair_of_referral k) pair all.1
      (inr all.0),
)

-- On referrals of one pair the function is the third loop.
pub remove_connections-delete_entries :
    (c : Cache) (r : ReferralKey × NvmeDiscPageEntry) (refs : ReferralMap)
    (pair : ClientClusterPair)
    → AllOf pair (r ∷ refs)
    → remove_connections_not_in_referrals c (r ∷ refs) ≡ (
        let (c', pairs) =
          delete_entries c
            (entries_to_remove c.cache_entries (referral_entries (r ∷ refs)) pair)
            [] in
        (c', pairs, none))
unfolding remove_connections_not_in_referrals
remove_connections-delete_entries c r refs pair all = rw (
  check_pairs-some (r ∷ refs) empty_pair empty_pair pair all (inl is_empty-empty_pair),
  remove_connections_not_in_referrals,
)

-- The keys that the second loop points at.
pub pointed-to_remove :
    (c : Cache) (k : TKey) (refs : ReferralMap) (pair : ClientClusterPair)
    → IsConsistent c
    → pointed k (entries_to_remove c.cache_entries (referral_entries refs) pair) c.cache_entries
      ≡ (has_key k c.cache_entries && (pair_of k == pair && not (has_ref k refs)))
pointed-to_remove c k refs pair v =
    pointed-entries_to_remove k refs pair c.cache_entries c.cache_entries v.persistent
      (AllFound-self c.cache_entries v.distinct)

-- For referrals of one pair, `removeConnectionsNotInReferrals` takes away exactly the keys of that
-- pair that no referral has, and reports no error.
pub remove_connections-IsConsistent :
    (r : ReferralKey × NvmeDiscPageEntry) (refs : ReferralMap) (pair : ClientClusterPair)
    {c : Cache}
    → IsConsistent c
    → AllOf pair (r ∷ refs)
    → IsConsistent (remove_connections_not_in_referrals c (r ∷ refs)).0
      × ((remove_connections_not_in_referrals c (r ∷ refs)).2 ≡ none)
      × ((k : TKey)
          → has_key k (remove_connections_not_in_referrals c (r ∷ refs)).0.cache_entries
            ≡ (has_key k c.cache_entries && not (pair_of k == pair && not (has_ref k (r ∷ refs)))))
remove_connections-IsConsistent r refs pair {c} v all =
    let ps = entries_to_remove c.cache_entries (referral_entries (r ∷ refs)) pair in
    let (w, keys) = delete_entries-IsConsistent ps [] v in
    rw (remove_connections-delete_entries c r refs pair all)
      (w, refl, λ k. ground (arith, keys k, pointed-to_remove c k (r ∷ refs) pair v))
