-- ===== src/Service/Discovery/Events.antt =====
-- An event on a live connection (service/service.go) and the cache (pkg/clientconfig/cache.go): which
-- connections the cache has after it.
use mathlib.Core.List.{Perm}
use mathlib.Core.List.Perm
use discovery_client.Prelude.{
  Bool, false, none, ◌||◌, ◌==◌, ℕ_eq, is_some, if◌then◌else◌, List, [], ◌∷◌, ◌++◌, ◌≡◌, refl,
  arith, ap, All,
}
use discovery_client.Prelude.Int.{pos}
use discovery_client.Prelude.Maps.{insert, All-insert}
use discovery_client.HostApi.{NvmeDiscPageEntry}
use discovery_client.ClientConfig.Connections.{
  TKey, TKey_eq, ClientClusterPair_eq, Connection, find, pair_of,
}
use discovery_client.ClientConfig.Cache.{Cache}
use discovery_client.ClientConfig.Referrals.{
  ReferralKey, ReferralKey_eq, ReferralMap, pair_of_referral, get_entry_from_referral,
  referral_entries, handle_referrals,
}
use discovery_client.ClientConfig.Cache.Consistency.{IsConsistent, has_key}
use discovery_client.ClientConfig.Cache.Referrals.{has_ref, AllOf, has_ref-perm, AllOf-perm}
use discovery_client.ClientConfig.Cache.Sync.{handle_referrals-sync}
use discovery_client.Service.Discovery.{
  self_referral, pair_of_connection, referral_map, nvme_tcp_disc_port,
}

-- The key of the connection that a referral asks for.
abbrev pub referral_key : Connection → NvmeDiscPageEntry → TKey
referral_key conn e = record {
  transport = "tcp";
  ip = e.traddr;
  port = pos e.trsvc_id;
  nqn = conn.key.nqn;
  hostnqn = conn.hostnqn;
}

unfoldable pub has_referral : Connection → TKey → List NvmeDiscPageEntry → Bool
has_referral conn k [] = false
has_referral conn k (e ∷ entries) = referral_key conn e == k || has_referral conn k entries

-- Every referral of the map stands under its own key.
abbrev Canonical : Connection → ReferralMap → Type 0
Canonical conn = All (λ x. x.0 ≡ record {
  ip = x.1.traddr;
  port = x.1.trsvc_id;
  dp_sub_nqn = conn.key.nqn;
  hostnqn = conn.hostnqn;
})

has_ref-insert :
    (conn : Connection) (k : TKey) (rk : ReferralKey) (e : NvmeDiscPageEntry) (m : ReferralMap)
    → Canonical conn m
    → Canonical conn ((rk, e) ∷ [])
    → has_ref k (insert rk e m) ≡ (has_ref k m || referral_key conn e == k)
unfolding insert referral_entries has_key get_entry_from_referral
has_ref-insert conn k rk e [] c h = ground arith
has_ref-insert conn k rk e ((j, o) ∷ m) c h = ground (arith, has_ref-insert conn k rk e m c.1 h)

has_ref-referral_map :
    (conn : Connection) (es : List NvmeDiscPageEntry) (m : ReferralMap)
    → Canonical conn m
    → Canonical conn (referral_map conn es m)
      × ((k : TKey) → has_ref k (referral_map conn es m) ≡ (has_ref k m || has_referral conn k es))
unfolding referral_map has_referral
has_ref-referral_map conn [] m c = (c, λ k. ground arith)
has_ref-referral_map conn (e ∷ es) m c =
    let rk : ReferralKey = record {
      ip = e.traddr;
      port = e.trsvc_id;
      dp_sub_nqn = conn.key.nqn;
      hostnqn = conn.hostnqn;
    } in
    let (c', all) = has_ref-referral_map conn es (insert rk e m) (All-insert _ rk e m refl c) in
    (c', λ k. ground (arith, all k, has_ref-insert conn k rk e m c (refl, tt)))

AllOf-Canonical :
    (conn : Connection) (m : ReferralMap) → Canonical conn m → AllOf (pair_of_connection conn) m
AllOf-Canonical conn [] c = tt
AllOf-Canonical conn (x ∷ m) c = (ap pair_of_referral c.0, AllOf-Canonical conn m c.1)

has_referral-append :
    (conn : Connection) (k : TKey) (es : List NvmeDiscPageEntry) (e : NvmeDiscPageEntry)
    → has_referral conn k (es ++ e ∷ []) ≡ (has_referral conn k es || referral_key conn e == k)
unfolding has_referral
has_referral-append conn k [] e = ground arith
has_referral-append conn k (x ∷ es) e = ground (arith, has_referral-append conn k es e)

-- The key of the server itself, at the well-known port.
abbrev pub self_key : Connection → TKey
self_key conn = record {
  transport = "tcp";
  ip = conn.key.ip;
  port = pos nvme_tcp_disc_port;
  nqn = conn.key.nqn;
  hostnqn = conn.hostnqn;
}

-- The referral map of an event, in any order: no referral is of another pair, and the keys are those
-- of the discovery entries and of the server itself.
event_referrals :
    (conn : Connection) (es : List NvmeDiscPageEntry) {m : ReferralMap}
    → Perm (referral_map conn (es ++ self_referral conn ∷ []) []) m
    → AllOf (pair_of_connection conn) m
      × ((k : TKey) → has_ref k m ≡ (has_referral conn k es || self_key conn == k))
unfolding self_referral referral_entries has_key
event_referrals conn es same =
    let all = es ++ self_referral conn ∷ [] in
    let (c, keys) = has_ref-referral_map conn all [] tt in
    (
      AllOf-perm (pair_of_connection conn) same (AllOf-Canonical conn (referral_map conn all []) c),
      λ k.
          ground (
            arith,
            has_ref-perm k same,
            keys k,
            has_referral-append conn k es (self_referral conn),
          ),
    )

-- The cache after the referrals of an event, visited in two orders.
pub event-sync :
    {c : Cache} (conn : Connection) (es : List NvmeDiscPageEntry) (first second : ReferralMap)
    → IsConsistent c
    → Perm (referral_map conn (es ++ self_referral conn ∷ []) []) first
    → Perm (referral_map conn (es ++ self_referral conn ∷ []) []) second
    → let o = handle_referrals c first second in
      IsConsistent o.cache
      × (o.error ≡ none)
      × ((k : TKey)
          → is_some (find o.cache.connections k) ≡ (
              if pair_of k == pair_of_connection conn
              then has_referral conn k es || self_key conn == k
              else is_some (find c.connections k)))
unfolding referral_entries has_key
event-sync conn es [] second v p q =
    absurd (ground (arith, (event_referrals conn es p).1 (self_key conn)))
event-sync conn es (r ∷ first) [] v p q =
    absurd (ground (arith, (event_referrals conn es q).1 (self_key conn)))
event-sync {c} conn es (r ∷ first) (s ∷ second) v p q =
    let (all, keys) = event_referrals conn es q in
    let (w, err, sync) =
      handle_referrals-sync (pair_of_connection conn) r s first second v
        (Perm.trans (Perm.symm p) q) all in
    (w, err, λ k. ground (arith, sync k, (event_referrals conn es p).1 k))
