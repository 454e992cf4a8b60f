-- ===== src/Service/WellKeyed.antt =====
-- The maps that the cache and the service share (service/service.go, pkg/clientconfig/cache.go):
-- each connection stands under its own key, in the cluster of its key, once.
use mathlib.Core.Path.{subst}
use discovery_client.Prelude.{
  ℕ, Bool, false, Option, none, some, ◌==◌, ℕ_eq, List, [], ◌∷◌, ◌≡◌, refl, arith, ◌∙◌,
  if◌then◌else◌, All, if_cases, eq_of_beq, Option-cases, inl, inr,
}
use discovery_client.Prelude.Maps.{
  lookup, UniqueKeys, UniqueKeys-insert, UniqueKeys-delete, All-insert, All-delete, lookup-insert,
}
use discovery_client.ClientConfig.Connections.{
  TKey, TKey_eq, ClientClusterPair, ClientClusterPair_eq, Connection, ConnectionMap, key_at,
  pair_of, exists_in, cluster, add_connection, delete_connection, stop, or_no_connections,
}
use discovery_client.Service.{update}

-- A cluster's map: every connection under its own key.
abbrev pub Keyed : List (ℕ × Connection) → ClientClusterPair → List (TKey × ℕ) → Type 0
Keyed heap pair m = All (λ x. (key_at heap x.1 ≡ some x.0) × (pair_of x.0 ≡ pair)) m × UniqueKeys m

-- A map of clusters.
abbrev pub WellKeyed : List (ℕ × Connection) → ConnectionMap → Type 0
WellKeyed heap cm = All (λ x. Keyed heap x.0 x.1.cluster_connections_map) cm × UniqueKeys cm

abbrev pub points_to : Option ℕ → ℕ → Bool
points_to none p = false
points_to (some q) p = q == p

-- In such a map `Exists` asks for the connection under its own key.
pub exists_in-lookup :
    (heap : List (ℕ × Connection)) (pair : ClientClusterPair) (m : List (TKey × ℕ)) (key : TKey)
    (p : ℕ)
    → Keyed heap pair m
    → key_at heap p ≡ some key
    → exists_in m p ≡ points_to (lookup key m) p
unfolding exists_in lookup
exists_in-lookup heap pair [] key p k h = refl
exists_in-lookup heap pair ((j, q) ∷ m) key p k h =
    ground (arith, exists_in-lookup heap pair m key p (k.0.1, k.1.1) h)

Keyed-heap :
    (heap heap' : List (ℕ × Connection)) (pair : ClientClusterPair) (m : List (TKey × ℕ))
    → ((p : ℕ) → key_at heap' p ≡ key_at heap p)
    → Keyed heap pair m
    → Keyed heap' pair m
Keyed-heap heap heap' pair [] same k = (tt, tt)
Keyed-heap heap heap' pair ((key, p) ∷ m) same k =
    let rest = Keyed-heap heap heap' pair m same (k.0.1, k.1.1) in
    (((same p ∙ k.0.0.0, k.0.0.1), rest.0), k.1)

-- The keys of the objects are all that matters of the heap.
pub WellKeyed-heap :
    (heap heap' : List (ℕ × Connection)) (cm : ConnectionMap)
    → ((p : ℕ) → key_at heap' p ≡ key_at heap p)
    → WellKeyed heap cm
    → WellKeyed heap' cm
WellKeyed-heap heap heap' [] same w = (tt, tt)
WellKeyed-heap heap heap' ((pair, cc) ∷ cm) same w =
    let rest = WellKeyed-heap heap heap' cm same (w.0.1, w.1.1) in
    ((Keyed-heap heap heap' pair _ same w.0.0, rest.0), w.1)

abbrev pub applied : (Connection → Connection) → Option Connection → Option Connection
applied f none = none
applied f (some c) = some (f c)

pub lookup-update :
    (p q : ℕ) (f : Connection → Connection) (heap : List (ℕ × Connection))
    → lookup q (update p f heap) ≡ (if p == q then applied f (lookup q heap) else lookup q heap)
unfolding update
lookup-update p q f heap = elim (Option-cases (lookup p heap)) [
  | inl missing ↦ rw (missing, update) (ground arith)
  | inr (conn, found) ↦ rw (found, update) (ground (arith, lookup-insert p q (f conn) heap))
]

-- To stop a connection keeps its key.
pub key_at-stop :
    (p q : ℕ) (heap : List (ℕ × Connection)) → key_at (update p stop heap) q ≡ key_at heap q
unfolding stop
key_at-stop p q heap = ground (arith, lookup-update p q stop heap)

-- Every cluster of such a map is such a cluster.
pub Keyed-cluster :
    (heap : List (ℕ × Connection)) (cm : ConnectionMap) (pair : ClientClusterPair)
    → WellKeyed heap cm
    → Keyed heap pair (cluster cm pair).cluster_connections_map
unfolding cluster lookup
Keyed-cluster heap [] pair w = (tt, tt)
Keyed-cluster heap ((q, cc) ∷ cm) pair w =
    let rest = Keyed-cluster heap cm pair (w.0.1, w.1.1) in
    if_cases (λ o. Keyed heap pair (or_no_connections o).cluster_connections_map) (q == pair)
      (λ e. subst (λ x. Keyed heap x cc.cluster_connections_map) (eq_of_beq q pair e) w.0.0)
      (λ e. rest)

pub WellKeyed-add_connection :
    (heap : List (ℕ × Connection)) (cm : ConnectionMap) (key : TKey) (p : ℕ)
    → key_at heap p ≡ some key
    → WellKeyed heap cm
    → WellKeyed heap (add_connection cm key p)
unfolding add_connection
WellKeyed-add_connection heap cm key p h w =
    let k = Keyed-cluster heap cm (pair_of key) w in
    (
      All-insert _ _ _ cm (All-insert _ key p _ (h, refl) k.0, UniqueKeys-insert key p _ k.1) w.0,
      UniqueKeys-insert _ _ cm w.1,
    )

pub WellKeyed-delete_connection :
    (heap : List (ℕ × Connection)) (cm : ConnectionMap) (pair : ClientClusterPair) (key : TKey)
    → WellKeyed heap cm
    → WellKeyed heap (delete_connection cm pair key)
unfolding delete_connection cluster
WellKeyed-delete_connection heap cm pair key w =
    let k = Keyed-cluster heap cm pair w in
    elim (Option-cases (lookup pair cm)) [
      | inl missing ↦ rw (missing, delete_connection) w
      | inr (cc, found) ↦
          let k' : Keyed heap pair cc.cluster_connections_map = rw (found, cluster) at k in
          rw (found, delete_connection)
            (
              All-insert _ pair _ cm (All-delete _ key _ k'.0, UniqueKeys-delete key _ k'.1) w.0,
              UniqueKeys-insert pair _ cm w.1,
            )
    ]

pub key_at-lookup :
    (heap : List (ℕ × Connection)) (pair : ClientClusterPair) (m : List (TKey × ℕ)) (key : TKey)
    (p : ℕ)
    → Keyed heap pair m
    → lookup key m ≡ some p
    → key_at heap p ≡ some key
unfolding lookup
key_at-lookup heap pair [] key p k h = cc
key_at-lookup heap pair ((j, q) ∷ m) key p k h =
    ground (arith, k.0.0, key_at-lookup heap pair m key p (k.0.1, k.1.1))
