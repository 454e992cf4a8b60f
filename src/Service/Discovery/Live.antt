-- ===== src/Service/Discovery/Live.antt =====
-- `getLiveConnection` (service/service.go): the connection that it returns is live.
use discovery_client.Prelude.{
  ℕ, String, Bool, true, false, Option, none, some, ◌||◌, ◌&&◌, ◌==◌, not, ℕ_eq, is_some,
  if◌then◌else◌, List, [], ◌∷◌, ◌≡◌, refl, arith, All, Option-cases, inl, inr,
}
use discovery_client.Prelude.Maps.{lookup, lookup-insert}
use discovery_client.HostApi.{DiscoverRequest}
use discovery_client.ClientConfig.Connections.{
  Connection, ClientClusterPair, ClientClusterPair_eq, ConnectionMap, cluster, set_state,
}
use discovery_client.Service.{Service}
use discovery_client.Service.WellKeyed.{lookup-update}
use discovery_client.Service.Active.{active_of}
use discovery_client.Service.Discovery.{
  Reply, LogPages, mark_connected, set_active, discover_result, get_discovery_request, connected,
  disconnected_at, get_log_page_entries, get_live_connection, kato_seconds, pair_of_connection,
}

-- The state of the object at a pointer.
abbrev pub is_up : Service → ℕ → Bool
is_up s p = elim (lookup p s.heap) [ none ↦ false | some c ↦ c.state ]

-- The object at the pointer is connected, and it is the active connection of its cluster.
pub record IsLive (s : Service) (p : ℕ) : Type 0 where
  pub conn : Connection
  pub there : lookup p s.heap ≡ some conn
  pub up : conn.state ≡ true
  pub active : active_of s.connections (pair_of_connection conn) ≡ some p

unfoldable pub contains : List ℕ → ℕ → Bool
contains [] p = false
contains (q ∷ ps) p = q == p || contains ps p

is_up-disconnected_at :
    (s : Service) (p q : ℕ) → is_up (disconnected_at s p) q ≡ (is_up s q && not (p == q))
unfolding disconnected_at set_state
is_up-disconnected_at s p q = ground (arith, lookup-update p q (λ c. set_state c false) s.heap)

mark_connected_lem :
    (kato : ℕ) (id : String) (c : Connection)
    → ((mark_connected kato id c).state ≡ true)
      × (pair_of_connection (mark_connected kato id c) ≡ pair_of_connection c)
unfolding mark_connected set_state
mark_connected_lem kato id c = ground arith

active_of-set_active :
    (cm : ConnectionMap) (pair : ClientClusterPair) (p : ℕ)
    → active_of (set_active cm pair p) pair ≡ some p
unfolding set_active active_of cluster
active_of-set_active cm pair p =
    ground
      (arith, lookup-insert pair pair (record (cluster cm pair) { active_connection = some p }) cm)

connected-IsLive :
    (s : Service) (p : ℕ) (conn : Connection) (kato : ℕ) (r : Reply)
    → lookup p s.heap ≡ some conn
    → IsLive (connected s p conn kato r) p
unfolding connected
connected-IsLive s p conn kato r h =
    let marked = mark_connected_lem kato r.id conn in
    record {
      conn = mark_connected kato r.id conn;
      there = ground (arith, lookup-update p p (mark_connected kato r.id) s.heap);
      up = marked.0;
      active = rw marked.1 (active_of-set_active s.connections (pair_of_connection conn) p);
    }

-- What one attempt leaves behind.
abbrev Attempted : Service → ℕ → Service → Option LogPages → Type 0
Attempted s p t none = t ≡ disconnected_at s p
Attempted s p t (some _) = IsLive t p

-- What the loop leaves behind; `s` is the state before it.
abbrev Searched : Service → List ℕ → Service → Option ℕ → Type 0
Searched s ps t none =
    ((q : ℕ) → is_up s q ≡ false → is_up t q ≡ false) × All (λ p. is_up t p ≡ false) ps
Searched s ps t (some p) = (contains ps p ≡ true) × IsLive t p

-- What `getLiveConnection` promises.
abbrev pub Outcome : List ℕ → Service → Option ℕ → Type 0
Outcome ps t none = All (λ p. is_up t p ≡ false) ps
Outcome ps t (some p) = (contains ps p ≡ true) × IsLive t p

module _ (s s' t : Service) (p : ℕ) (ps : List ℕ) where
  -- A pointer whose object is down, before the rest of the loop.
  Searched-cons :
      (o : Option ℕ)
      → ((q : ℕ) → is_up s q ≡ false → is_up s' q ≡ false)
      → is_up s' p ≡ false
      → Searched s' ps t o
      → Searched s (p ∷ ps) t o
  unfolding contains
  Searched-cons none keep down h = (λ q d. h.0 q (keep q d), (h.0 p down, h.1))
  Searched-cons (some q) keep down h = (ground arith, h.1)

-- The loop goes on only after a failed attempt.
Searched-attempt :
    {W : Type 0} (s s' : Service) (w : W) (p : ℕ) (ps : List ℕ) (pages : Option LogPages)
    (rest : W × Service × Option ℕ)
    → Attempted s p s' pages
    → Searched s' ps rest.1 rest.2
    → let r = if is_some pages then (w, s', some p) else rest in Searched s (p ∷ ps) r.1 r.2
unfolding contains
Searched-attempt s s' w p ps none (w', t, o) e h =
    Searched-cons s s' t p ps o (λ q d. ground (arith, e, is_up-disconnected_at s p q))
      (ground (arith, e, is_up-disconnected_at s p p)) h
Searched-attempt s s' w p ps (some x) rest live h = (ground arith, live)

Outcome-Searched :
    (s : Service) (ps : List ℕ) (t : Service) (o : Option ℕ) → Searched s ps t o → Outcome ps t o
Outcome-Searched s ps t none h = h.1
Outcome-Searched s ps t (some p) h = h

module _ {W : Type 0} (discover : W → DiscoverRequest → W × Reply) where
  attempt :
      (w : W) (s : Service) (p : ℕ) (conn : Connection) (kato : ℕ)
      → lookup p s.heap ≡ some conn
      → Attempted s p
          (get_log_page_entries discover w s p conn kato).1
          (get_log_page_entries discover w s p conn kato).2
  unfolding get_log_page_entries
  attempt w s p conn kato h =
      let r = discover_result (discover w (get_discovery_request conn kato)).1 in
      elim (Option-cases r.error) [
        | inl e ↦ rw (e, get_log_page_entries) (connected-IsLive s p conn kato r h)
        | inr (x, e) ↦ rw (e, get_log_page_entries) refl
      ]

  searched :
      (ps : List ℕ) (w : W) (s : Service)
      → Searched s ps
          (get_live_connection discover w s ps).1
          (get_live_connection discover w s ps).2
  unfolding get_live_connection
  searched [] w s = (λ q d. d, tt)
  searched (p ∷ ps) w s = elim (Option-cases (lookup p s.heap)) [
    | inl miss ↦
        rw (miss, get_live_connection)
          (Searched-cons s s _ p ps _ (λ q d. d) (ground (arith, miss)) (searched ps w s))
    | inr (conn, hit) ↦
        let (w', s', pages) = get_log_page_entries discover w s p conn kato_seconds in
        rw (hit, get_live_connection)
          (Searched-attempt s s' w' p ps pages (get_live_connection discover w' s' ps)
            (attempt w s p conn kato_seconds hit) (searched ps w' s'))
  ]

  -- The connection that `getLiveConnection` returns is one of those tried; its object is marked as
  -- connected and it is its cluster's active connection. If it returns an error, every connection
  -- is marked as not connected.
  pub get_live_connection_lem :
      (w : W) (s : Service) (ps : List ℕ)
      → Outcome ps (get_live_connection discover w s ps).1 (get_live_connection discover w s ps).2
  get_live_connection_lem w s ps = Outcome-Searched s ps _ _ (searched ps w s)
