-- ===== src/ClientConfig/Cache/Referrals.antt =====
-- `HandleReferrals` (pkg/clientconfig/cache.go): after it, the connections of the referrals' cluster
-- are exactly the referrals.
use mathlib.Core.Bool.{Bool-set}
use mathlib.Core.HLevel.{×_prop, Unit-prop, hedberg}
use mathlib.Core.List.{Perm, Permᴰ}
use mathlib.Core.Logic.{∥∥₁_elim}
use discovery_client.Prelude.{
  Bool, true, false, ◌||◌, ◌==◌, ℕ_eq, is_some, List, [], ◌∷◌, ◌++◌, ◌≡◌, refl, arith,
  if◌then◌else◌, ◌∙◌, sym, ap, All,
}
use discovery_client.HostApi.{NvmeDiscPageEntry}
use discovery_client.ClientConfig.Connections.{
  TKey, TKey_eq, ClientClusterPair, ClientClusterPair_eq, ClientClusterPair_discrete, pair_of,
  is_empty,
}
use discovery_client.ClientConfig.Cache.{Cache, add_entry}
use discovery_client.ClientConfig.Referrals.{
  ReferralKey, ReferralMap, get_entry_from_referral, add_connections_from_referrals,
  pair_of_referral, referral_entries,
}
use discovery_client.ClientConfig.Cache.Consistency.{IsConsistent, has_key, AllPersistent}
use discovery_client.ClientConfig.Cache.Entries.{add_entry-IsConsistent}

-- Some referral has the key.
abbrev pub has_ref : TKey → ReferralMap → Bool
has_ref k referrals = has_key k (referral_entries referrals)

-- Every referral is of the given host and cluster.
abbrev pub AllOf : ClientClusterPair → ReferralMap → Type 0
AllOf pair = All (λ r. pair_of_referral r.0 ≡ pair)

pub persistent_ref :
    (k : ReferralKey) (r : NvmeDiscPageEntry) → (get_entry_from_referral k r).persistent ≡ true
unfolding get_entry_from_referral
persistent_ref k r = refl

pub referral_entries-AllPersistent : (refs : ReferralMap) → AllPersistent (referral_entries refs)
unfolding referral_entries get_entry_from_referral
referral_entries-AllPersistent [] = tt
referral_entries-AllPersistent ((k, r) ∷ refs) = (refl, referral_entries-AllPersistent refs)

has_refᴰ-perm : (k : TKey) {a b : ReferralMap} → Permᴰ a b → has_ref k a ≡ has_ref k b
unfolding referral_entries has_key
has_refᴰ-perm k Permᴰ.nil = refl
has_refᴰ-perm k (Permᴰ.cons e p) = ground (arith, has_refᴰ-perm k p)
has_refᴰ-perm k (Permᴰ.swap e f) = ground arith
has_refᴰ-perm k (Permᴰ.trans p q) = has_refᴰ-perm k p ∙ has_refᴰ-perm k q

pub has_ref-perm : (k : TKey) {a b : ReferralMap} → Perm a b → has_ref k a ≡ has_ref k b
has_ref-perm k p = ∥∥₁_elim p (Bool-set _ _) (has_refᴰ-perm k)

pub has_ref-pair :
    (k : TKey) (pair : ClientClusterPair) (refs : ReferralMap)
    → AllOf pair refs
    → (pair_of k == pair) ≡ false
    → has_ref k refs ≡ false
unfolding referral_entries has_key get_entry_from_referral
has_ref-pair k pair [] all ne = refl
has_ref-pair k pair ((rk, r) ∷ refs) all ne = ground (arith, has_ref-pair k pair refs all.1 ne)

-- The first loop adds every referral's key, and takes none away.
pub add_connections-IsConsistent :
    (refs : ReferralMap) (pairs : List ClientClusterPair) {c : Cache}
    → IsConsistent c
    → IsConsistent (add_connections_from_referrals c refs pairs).0
      × ((k : TKey)
          → has_key k (add_connections_from_referrals c refs pairs).0.cache_entries
            ≡ (has_key k c.cache_entries || has_ref k refs))
unfolding add_connections_from_referrals referral_entries has_key
add_connections-IsConsistent [] pairs v = (v, λ k. ground arith)
add_connections-IsConsistent ((rk, r) ∷ refs) pairs {c} v =
    let e = get_entry_from_referral rk r in
    let (v', pair, err, keys) = add_entry-IsConsistent e v (persistent_ref rk r) in
    let (w, all) =
      add_connections-IsConsistent refs
        (if is_some (add_entry c e).2
          then pairs
          else if is_empty (add_entry c e).1
          then pairs
          else pairs ++ ((add_entry c e).1 ∷ []))
        v' in
    (w, λ k. ground (arith, all k, keys k))

ClientClusterPair-set : IsSet ClientClusterPair
ClientClusterPair-set = hedberg ClientClusterPair_discrete

AllOf-prop : (pair : ClientClusterPair) (m : ReferralMap) → IsProp (AllOf pair m)
AllOf-prop pair [] = Unit-prop
AllOf-prop pair (x ∷ m) = ×_prop (ClientClusterPair-set _ _) (AllOf-prop pair m)

AllOf-permᴰ :
    (pair : ClientClusterPair) {a b : ReferralMap} → Permᴰ a b → AllOf pair a → AllOf pair b
AllOf-permᴰ pair Permᴰ.nil h = tt
AllOf-permᴰ pair (Permᴰ.cons e p) h =
    (ap (λ x. pair_of_referral x.0) (sym e) ∙ h.0, AllOf-permᴰ pair p h.1)
AllOf-permᴰ pair (Permᴰ.swap e f) h = (
  ap (λ x. pair_of_referral x.0) (sym f) ∙ h.1.0,
  (ap (λ x. pair_of_referral x.0) (sym e) ∙ h.0, h.1.1),
)
AllOf-permᴰ pair (Permᴰ.trans p q) h = AllOf-permᴰ pair q (AllOf-permᴰ pair p h)

pub AllOf-perm :
    (pair : ClientClusterPair) {a b : ReferralMap} → Perm a b → AllOf pair a → AllOf pair b
AllOf-perm pair {a} {b} p h = ∥∥₁_elim p (AllOf-prop pair b) (λ d. AllOf-permᴰ pair d h)
