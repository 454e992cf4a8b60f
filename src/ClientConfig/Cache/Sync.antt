-- ===== src/ClientConfig/Cache/Sync.antt =====
-- `HandleReferrals` (pkg/clientconfig/cache.go) as a whole: after it, the connections of the
-- referrals' cluster are exactly the referrals.
use mathlib.Core.List.{Perm}
use discovery_client.Prelude.{none, ◌==◌, is_some, [], ◌∷◌, ◌≡◌, arith, if◌then◌else◌}
use discovery_client.HostApi.{NvmeDiscPageEntry}
use discovery_client.ClientConfig.Connections.{
  TKey, TKey_eq, ClientClusterPair, ClientClusterPair_eq, find, pair_of,
}
use discovery_client.ClientConfig.Cache.{Cache}
use discovery_client.ClientConfig.Referrals.{
  ReferralKey, ReferralMap, add_connections_from_referrals, remove_connections_not_in_referrals,
  handle_referrals,
}
use discovery_client.ClientConfig.Cache.Consistency.{IsConsistent}
use discovery_client.ClientConfig.Cache.Referrals.{
  has_ref, AllOf, has_ref-perm, has_ref-pair, add_connections-IsConsistent,
}
use discovery_client.ClientConfig.Cache.Removal.{remove_connections-IsConsistent}

-- The parts of the outcome, whether or not something is to be notified.
pub handle_referrals-parts :
    (c : Cache) (r : ReferralKey × NvmeDiscPageEntry) (first second : ReferralMap)
    → ((handle_referrals c (r ∷ first) second).cache
        ≡ (remove_connections_not_in_referrals
            (add_connections_from_referrals c (r ∷ first) []).0
            second).0)
      × ((handle_referrals c (r ∷ first) second).error
          ≡ (remove_connections_not_in_referrals
              (add_connections_from_referrals c (r ∷ first) []).0
              second).2)
unfolding handle_referrals
handle_referrals-parts c r first second = ground arith

-- On a consistent cache, for a map of referrals of one pair, visited in any two orders,
-- `HandleReferrals` reports no error, keeps the cache consistent, and leaves the pair with a
-- connection for exactly the referrals' keys; the connections of other pairs stay.
pub handle_referrals-sync :
    {c : Cache} (pair : ClientClusterPair) (r s : ReferralKey × NvmeDiscPageEntry)
    (first second : ReferralMap)
    → IsConsistent c
    → Perm (r ∷ first) (s ∷ second)
    → AllOf pair (s ∷ second)
    → let o = handle_referrals c (r ∷ first) (s ∷ second) in
      IsConsistent o.cache
      × (o.error ≡ none)
      × ((k : TKey)
          → is_some (find o.cache.connections k)
            ≡ (if pair_of k == pair then has_ref k (r ∷ first) else is_some (find c.connections k)))
handle_referrals-sync {c} pair r s first second v same all =
    let (w, added) = add_connections-IsConsistent (r ∷ first) [] v in
    let (u, err, kept) = remove_connections-IsConsistent s second pair w all in
    let parts = handle_referrals-parts c r first (s ∷ second) in
    rw (parts.0, parts.1)
      (
        u,
        err,
        λ k. ground (
          arith,
          u.registered k,
          kept k,
          added k,
          v.registered k,
          has_ref-perm k same,
          has_ref-pair k pair (s ∷ second) all,
        ),
      )
