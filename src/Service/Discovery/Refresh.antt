-- ===== src/Service/Discovery/Refresh.antt =====
-- The case of `Start` for an event (service/service.go), up to the cache that `HandleReferrals` leaves
-- (pkg/clientconfig/cache.go).
use mathlib.Core.List.{Perm}
use mathlib.Core.Path.{subst}
use discovery_client.Prelude.{
  ℕ, false, none, ◌||◌, ◌==◌, is_some, if◌then◌else◌, List, [], ◌∷◌, ◌++◌, ◌≡◌, ◌≢◌, arith,
}
use discovery_client.Prelude.Int.{pos}
use discovery_client.HostApi.{NvmeDiscPageEntry, DiscoverRequest, nvme_nqn_nvme, nvme_nqn_disc}
use discovery_client.ClientConfig.Connections.{
  TKey, TKey_eq, ClientClusterPair_eq, Connection, find, pair_of,
}
use discovery_client.ClientConfig.Cache.{Cache}
use discovery_client.ClientConfig.Referrals.{ReferralMap, handle_referrals}
use discovery_client.ClientConfig.Cache.Consistency.{IsConsistent}
use discovery_client.Service.{Service}
use discovery_client.Service.Discovery.{
  Reply, refresh, discover_result, get_discovery_request, of_type, self_referral,
  pair_of_connection, referral_map, get_log_page_entries, handle_event,
}
use discovery_client.Service.Discovery.Events.{has_referral, self_key, event-sync}

module _ {W : Type 0} (discover : W → DiscoverRequest → W × Reply) where
  -- What the host replied, as `service.Discover` reads it.
  abbrev pub reply_to : W → Connection → Reply
  reply_to w conn = discover_result (discover w (get_discovery_request conn 0)).1

  module _ (w : W) (s : Service) (p : ℕ) (conn : Connection) where
    handle_event-ok :
        (reply_to w conn).error ≡ none
        → (handle_event discover w s p conn false).2
          ≡ refresh (of_type nvme_nqn_nvme (reply_to w conn).entries) (
              referral_map conn
                (of_type nvme_nqn_disc (reply_to w conn).entries ++ self_referral conn ∷ [])
                [])
    unfolding handle_event get_log_page_entries
    handle_event-ok e = rw (e, handle_event, get_log_page_entries)

    -- On a consistent cache, an event whose answer is no error leaves the connection's cluster with
    -- a cache connection for exactly the referrals of the answer and the key of the server's
    -- address at the well-known port, which need not be the port it listens at; other clusters keep theirs, the cache stays consistent and no error is
    -- reported. The referral map may be visited in any two orders.
    pub handle_event-sync :
        {c : Cache} (first second : ReferralMap) {es : List NvmeDiscPageEntry} {m : ReferralMap}
        → IsConsistent c
        → (reply_to w conn).error ≡ none
        → (handle_event discover w s p conn false).2 ≡ refresh es m
        → Perm m first
        → Perm m second
        → let o = handle_referrals c first second in
          IsConsistent o.cache
          × (o.error ≡ none)
          × ((k : TKey)
              → is_some (find o.cache.connections k) ≡ (
                  if pair_of k == pair_of_connection conn
                  then has_referral conn k (of_type nvme_nqn_disc (reply_to w conn).entries)
                    || self_key conn == k
                  else is_some (find c.connections k)))
    handle_event-sync {c} first second {es} {m} v e h p₁ p₂ =
        let ds = of_type nvme_nqn_disc (reply_to w conn).entries in
        let same : m ≡ referral_map conn (ds ++ self_referral conn ∷ []) [] =
          ground (arith, h, handle_event-ok e) in
        event-sync conn ds first second v (subst (λ x. Perm x first) same p₁)
          (subst (λ x. Perm x second) same p₂)

    -- A server that listens at another port than the well-known one loses its own connection, if
    -- its answer does not list it.
    pub handle_event-drops_self :
        {c : Cache} (first second : ReferralMap) {es : List NvmeDiscPageEntry} {m : ReferralMap}
        → IsConsistent c
        → (reply_to w conn).error ≡ none
        → (handle_event discover w s p conn false).2 ≡ refresh es m
        → Perm m first
        → Perm m second
        → conn.hostnqn ≡ conn.key.hostnqn
        → conn.key.port ≢ pos 8009
        → has_referral conn conn.key (of_type nvme_nqn_disc (reply_to w conn).entries) ≡ false
        → find (handle_referrals c first second).cache.connections conn.key ≡ none
    handle_event-drops_self first second v e h p₁ p₂ host port out =
        let (_, _, sync) = handle_event-sync first second v e h p₁ p₂ in
        ground (arith, sync conn.key)
