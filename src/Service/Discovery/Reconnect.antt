-- ===== src/Service/Discovery/Reconnect.antt =====
-- `reconnectToCluster` (service/service.go): the service becomes connected to a cluster.
use discovery_client.Prelude.{
  ℕ, true, false, Option, none, some, ℕ_eq, ℕ_discrete, is_some, List, [], ◌∷◌, ◌≡◌, refl, arith,
  Option-cases, inl, inr, ◌∙◌, ◌≢◌, sym,
}
use discovery_client.Prelude.Maps.{lookup}
use discovery_client.HostApi.{DiscoverRequest}
use discovery_client.ClientConfig.Connections.{
  TKey, ClientClusterPair, ClientClusterPair_eq, ClusterConnections, Connection, set_state,
}
use discovery_client.Service.{Service}
use discovery_client.Service.WellKeyed.{lookup-update}
use discovery_client.Service.Discovery.{
  Reply, discover_result, get_discovery_request, disconnected_at, get_log_page_entries,
  get_live_connection, kato_seconds,
}
use discovery_client.Service.Discovery.Live.{IsLive, Outcome, contains, get_live_connection_lem}

-- What `reconnectToCluster` comes to: nothing to connect to (which is no error), an error, or a live
-- connection, which it starts to listen on and which it sends an event to.
pub data ReconnectOutcome : Type 0 where
  no_connections_found all_failed : ReconnectOutcome
  listening_on : ℕ → ReconnectOutcome

abbrev pub outcome_of : Option ℕ → ReconnectOutcome
outcome_of none = all_failed
outcome_of (some p) = listening_on p

abbrev pub pointers : List (TKey × ℕ) → List ℕ
pointers [] = []
pointers ((_, p) ∷ m) = p ∷ pointers m

-- The service listens on one of the connections, which is live.
abbrev pub ListensTo : ReconnectOutcome → List ℕ → Service → Type 0
ListensTo no_connections_found ps t = ⊥
ListensTo all_failed ps t = ⊥
ListensTo (listening_on q) ps t = (contains ps q ≡ true) × IsLive t q

ListensTo-outcome_of :
    (ps qs : List ℕ) (t : Service) (o : Option ℕ)
    → ((p : ℕ) → contains qs p ≡ contains ps p)
    → Outcome qs t o
    → is_some o ≡ true
    → ListensTo (outcome_of o) ps t
ListensTo-outcome_of ps qs t none same h there = cc
ListensTo-outcome_of ps qs t (some q) same h there = (sym (same q) ∙ h.0, h.1)

module _ {W : Type 0} (discover : W → DiscoverRequest → W × Reply) where
  -- `reconnectToCluster` for the connections of the cluster: `shuffle` is the random order of
  -- `GetRandomConnectionList`.
  unfoldable pub reconnect_among :
      (List ℕ → List ℕ) → W → Service → List (TKey × ℕ) → W × Service × ReconnectOutcome
  reconnect_among shuffle w s [] = (w, s, no_connections_found)
  reconnect_among shuffle w s (x ∷ m) =
      let (w', s', live) = get_live_connection discover w s (shuffle (pointers (x ∷ m))) in
      (w', s', outcome_of live)

  -- `reconnectToCluster`.
  unfoldable pub reconnect_to_cluster :
      (List ℕ → List ℕ) → W → Service → ClientClusterPair → W × Service × ReconnectOutcome
  reconnect_to_cluster shuffle w s pair = elim (lookup pair s.connections) [
    | none ↦ (w, s, no_connections_found)
    | some cc ↦ reconnect_among shuffle w s cc.cluster_connections_map
  ]

  -- The object at the pointer answers a request to discover, whatever the state of the host.
  abbrev pub Answers : List (ℕ × Connection) → ℕ → Type 0
  Answers heap p =
      (conn : Connection) × (lookup p heap ≡ some conn)
      × ((w : W)
          → (discover_result (discover w (get_discovery_request conn kato_seconds)).1).error ≡ none)

  Answers-disconnected_at :
      (s : Service) (p q : ℕ) → Answers s.heap p → Answers (disconnected_at s q).heap p
  unfolding disconnected_at set_state get_discovery_request
  Answers-disconnected_at s p q (conn, there, ok) = elim (ℕ_discrete q p) [
    | yes same ↦ (
      set_state conn false,
      ground (arith, lookup-update q p (λ c. set_state c false) s.heap),
      ok,
    )
    | no other ↦ (conn, ground (arith, lookup-update q p (λ c. set_state c false) s.heap), ok)
  ]

  module _ (w : W) (s : Service) (q : ℕ) (conn : Connection) where
    abbrev asked : W × Reply
    asked = discover w (get_discovery_request conn kato_seconds)

    answered :
        (discover_result asked.1).error ≡ none
        → is_some (get_log_page_entries discover w s q conn kato_seconds).2 ≡ true
    unfolding get_log_page_entries
    answered e = rw (e, get_log_page_entries) refl

    not_answered :
        {x : _}
        → (discover_result asked.1).error ≡ some x
        → get_log_page_entries discover w s q conn kato_seconds
          ≡ (asked.0, disconnected_at s q, none)
    unfolding get_log_page_entries
    not_answered e = rw (e, get_log_page_entries) refl

  -- If one of the connections answers, one is found.
  get_live_connection-Answers :
      (ps : List ℕ) (w : W) (s : Service) (p : ℕ)
      → contains ps p ≡ true
      → Answers s.heap p
      → is_some (get_live_connection discover w s ps).2 ≡ true
  unfolding get_live_connection contains
  get_live_connection-Answers [] w s p h a = cc
  get_live_connection-Answers (q ∷ ps) w s p h a = elim (Option-cases (lookup q s.heap)) [
    | inl miss ↦
        rw (miss, get_live_connection)
          (get_live_connection-Answers ps w s p (ground (arith, miss, a.1)) a)
    | inr (conn, hit) ↦ elim (Option-cases (discover_result (asked w s q conn).1).error) [
      | inl e ↦ rw (hit, get_live_connection) (ground (arith, answered w s q conn e))
      | inr (x, e) ↦
          let other : q ≢ p = λ same. ground (arith, same, hit, a.1, a.2 w, e) in
          rw (hit, get_live_connection)
            (rw (not_answered w s q conn e) (
              get_live_connection-Answers ps (asked w s q conn).0 (disconnected_at s q) p
                (ground (arith, other)) (Answers-disconnected_at s p q a)))
    ]
  ]

  reconnect_among-ListensTo :
      (shuffle : List ℕ → List ℕ) (w : W) (s : Service) (m : List (TKey × ℕ)) (p : ℕ)
      → ((ps : List ℕ) (q : ℕ) → contains (shuffle ps) q ≡ contains ps q)
      → contains (pointers m) p ≡ true
      → Answers s.heap p
      → let r = reconnect_among shuffle w s m in ListensTo r.2 (pointers m) r.1
  unfolding reconnect_among contains
  reconnect_among-ListensTo shuffle w s [] p same there a = cc
  reconnect_among-ListensTo shuffle w s (x ∷ m) p same there a =
      let ps = pointers (x ∷ m) in
      ListensTo-outcome_of ps (shuffle ps) _ _ (same ps)
        (get_live_connection_lem discover w s (shuffle ps))
        (get_live_connection-Answers (shuffle ps) w s p (same ps p ∙ there) a)

  -- If some connection of the cluster is to a server that answers, whatever the host's state and
  -- whatever the other servers do, `reconnectToCluster` ends with a connection of the cluster that
  -- it listens on: it is marked as connected and is its cluster's active connection. The random
  -- order may be any that has the same elements.
  pub reconnect_to_cluster-ListensTo :
      (shuffle : List ℕ → List ℕ) (w : W) (s : Service) (pair : ClientClusterPair)
      (cc : ClusterConnections) (p : ℕ)
      → ((ps : List ℕ) (q : ℕ) → contains (shuffle ps) q ≡ contains ps q)
      → lookup pair s.connections ≡ some cc
      → contains (pointers cc.cluster_connections_map) p ≡ true
      → Answers s.heap p
      → let r = reconnect_to_cluster shuffle w s pair in
        ListensTo r.2 (pointers cc.cluster_connections_map) r.1
  unfolding reconnect_to_cluster
  reconnect_to_cluster-ListensTo shuffle w s pair cc p same found there a =
      rw (found, reconnect_to_cluster) (reconnect_among-ListensTo shuffle w s _ p same there a)
