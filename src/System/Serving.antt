-- ===== src/System/Serving.antt =====
-- The service's own work on its connections (service/service.go) changes neither which connections
-- it has nor their keys.
use discovery_client.Prelude.{
  ℕ, true, false, Option, some, ℕ_eq, is_some, List, [], ◌∷◌, ◌≡◌, refl, arith, Option-cases, inl,
  inr, ◌∙◌, if_both,
}
use discovery_client.Prelude.Maps.{lookup, lookup-insert, All-insert, UniqueKeys-insert}
use discovery_client.HostApi.{DiscoverRequest}
use discovery_client.ClientConfig.Connections.{
  TKey, ClientClusterPair, ClientClusterPair_eq, Connection, ConnectionMap, key_at, find_in,
  cluster, set_state,
}
use discovery_client.Service.{Service, update}
use discovery_client.Service.WellKeyed.{WellKeyed, WellKeyed-heap, Keyed-cluster, lookup-update}
use discovery_client.Service.Discovery.{
  Reply, set_active, mark_connected, connected, disconnected_at, get_log_page_entries,
  get_live_connection, handle_event, kato_seconds, discover_result, get_discovery_request,
  pair_of_connection,
}

-- The service keeps its connections, and the objects keep their keys.
pub record IsQuiet (s t : Service) : Type 0 where
  pub found :
      (q : ClientClusterPair) (k : TKey) → find_in t.connections q k ≡ find_in s.connections q k
  pub keys : (p : ℕ) → key_at t.heap p ≡ key_at s.heap p
  pub keyed : WellKeyed t.heap t.connections

quiet : {s : Service} → WellKeyed s.heap s.connections → IsQuiet s s
quiet w = record { found = λ q k. refl; keys = λ p. refl; keyed = w }

IsQuiet-then : {r s t : Service} → IsQuiet r s → IsQuiet s t → IsQuiet r t
IsQuiet-then f g = record {
  found = λ q k. g.found q k ∙ f.found q k;
  keys = λ p. g.keys p ∙ f.keys p;
  keyed = g.keyed;
}

key_at-update :
    (p q : ℕ) (f : Connection → Connection) (heap : List (ℕ × Connection))
    → ((c : Connection) → (f c).key ≡ c.key)
    → key_at (update p f heap) q ≡ key_at heap q
key_at-update p q f heap same = elim (Option-cases (lookup q heap)) [
  | inl miss ↦ ground (arith, lookup-update p q f heap)
  | inr (c, hit) ↦ ground (arith, lookup-update p q f heap, same c)
]

mark_connected-key : (kato : ℕ) (id : _) (c : Connection) → (mark_connected kato id c).key ≡ c.key
unfolding mark_connected set_state
mark_connected-key kato id c = ground arith

set_state-key : (c : Connection) → (set_state c false).key ≡ c.key
unfolding set_state
set_state-key c = refl

find_in-set_active :
    (cm : ConnectionMap) (pair q : ClientClusterPair) (p : ℕ) (k : TKey)
    → find_in (set_active cm pair p) q k ≡ find_in cm q k
unfolding find_in set_active cluster
find_in-set_active cm pair q p k =
    ground
      (arith, lookup-insert pair q (record (cluster cm pair) { active_connection = some p }) cm)

WellKeyed-set_active :
    (heap : List (ℕ × Connection)) (cm : ConnectionMap) (pair : ClientClusterPair) (p : ℕ)
    → WellKeyed heap cm
    → WellKeyed heap (set_active cm pair p)
unfolding set_active
WellKeyed-set_active heap cm pair p w =
    (All-insert _ pair _ cm (Keyed-cluster heap cm pair w) w.0, UniqueKeys-insert pair _ cm w.1)

connected-IsQuiet :
    (s : Service) (p : ℕ) (conn : Connection) (kato : ℕ) (r : Reply)
    → WellKeyed s.heap s.connections
    → IsQuiet s (connected s p conn kato r)
unfolding connected
connected-IsQuiet s p conn kato r w =
    let f = mark_connected kato r.id in
    let keys = λ (q : ℕ). key_at-update p q f s.heap (mark_connected-key kato r.id) in
    record {
      found = λ q k. find_in-set_active s.connections (pair_of_connection conn) q p k;
      keys = keys;
      keyed =
          WellKeyed-set_active _ s.connections (pair_of_connection conn) p
            (WellKeyed-heap s.heap _ s.connections keys w);
    }

disconnected-IsQuiet :
    (s : Service) (p : ℕ) → WellKeyed s.heap s.connections → IsQuiet s (disconnected_at s p)
unfolding disconnected_at
disconnected-IsQuiet s p w =
    let keys = λ (q : ℕ). key_at-update p q (λ c. set_state c false) s.heap set_state-key in
    record {
      found = λ q k. refl;
      keys = keys;
      keyed = WellKeyed-heap s.heap _ s.connections keys w;
    }

module _ {W : Type 0} (discover : W → DiscoverRequest → W × Reply) where
  get_log_page_entries-IsQuiet :
      (w : W) (s : Service) (p : ℕ) (conn : Connection) (kato : ℕ)
      → WellKeyed s.heap s.connections
      → IsQuiet s (get_log_page_entries discover w s p conn kato).1
  unfolding get_log_page_entries
  get_log_page_entries-IsQuiet w s p conn kato k =
      let r = discover_result (discover w (get_discovery_request conn kato)).1 in
      elim (Option-cases r.error) [
        | inl e ↦ rw (e, get_log_page_entries) (connected-IsQuiet s p conn kato r k)
        | inr (x, e) ↦ rw (e, get_log_page_entries) (disconnected-IsQuiet s p k)
      ]

  -- The search for a live connection is quiet.
  pub get_live_connection-IsQuiet :
      (ps : List ℕ) (w : W) (s : Service)
      → WellKeyed s.heap s.connections
      → IsQuiet s (get_live_connection discover w s ps).1
  unfolding get_live_connection
  get_live_connection-IsQuiet [] w s k = quiet k
  get_live_connection-IsQuiet (p ∷ ps) w s k = elim (Option-cases (lookup p s.heap)) [
    | inl miss ↦ rw (miss, get_live_connection) (get_live_connection-IsQuiet ps w s k)
    | inr (conn, hit) ↦
        let one = get_log_page_entries-IsQuiet w s p conn kato_seconds k in
        let (w', s', pages) = get_log_page_entries discover w s p conn kato_seconds in
        let rest = get_live_connection-IsQuiet ps w' s' one.keyed in
        rw (hit, get_live_connection)
          (if_both (λ (r : W × Service × Option ℕ). IsQuiet s r.1) (is_some pages) one
            (IsQuiet-then one rest))
  ]

  -- So is the handling of an event.
  pub handle_event-IsQuiet :
      (w : W) (s : Service) (p : ℕ) (conn : Connection) (server_change : _)
      → WellKeyed s.heap s.connections
      → IsQuiet s (handle_event discover w s p conn server_change).1
  unfolding handle_event
  handle_event-IsQuiet w s p conn true k = quiet k
  handle_event-IsQuiet w s p conn false k =
      let one = get_log_page_entries-IsQuiet w s p conn 0 k in
      let (w', s', pages) = get_log_page_entries discover w s p conn 0 in
      elim (Option-cases pages) [
        | inl e ↦ rw (e, handle_event) (IsQuiet-then one (disconnected-IsQuiet s' p one.keyed))
        | inr (l, e) ↦ rw (e, handle_event) one
      ]
