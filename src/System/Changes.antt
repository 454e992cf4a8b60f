-- ===== src/System/Changes.antt =====
-- What an operation of the cache (pkg/clientconfig/cache.go) may change without announcing it: the
-- connections of no cluster but those whose pairs it reports.
use discovery_client.Prelude.{
  ℕ, ◌+◌, true, false, some, ℕ_eq, is_some, List, [], ◌∷◌, ◌≡◌, refl, arith, Bool-cases,
  Option-cases, inl, inr, ◌∙◌,
}
use discovery_client.Prelude.Maps.{lookup, insert, lookup-insert}
use discovery_client.ClientConfig.Entry.{Entry}
use discovery_client.ClientConfig.Connections.{
  TKey, TKey_eq, ClientClusterPair, ClientClusterPair_eq, ClusterConnections, Connection,
  ConnectionMap, key_at, find, pair_of, is_empty, add_connection, delete_connection,
  find-delete_connection,
}
use discovery_client.ClientConfig.Cache.{Cache, key_of, add_entry, delete_entry}
use discovery_client.ClientConfig.Cache.Consistency.{IsConsistent, has_key}
use discovery_client.ClientConfig.Cache.Entries.{
  added, stored, add_entry-added, find-added, lookup-added, add_entry-IsConsistent,
  delete_entry-IsConsistent, key_of-connection_for,
}
use discovery_client.ClientConfig.Cache.Message.{has_pair}
use discovery_client.Service.WellKeyed.{
  Keyed, WellKeyed, WellKeyed-add_connection, WellKeyed-delete_connection,
}

-- A heap that keeps the keys of the objects of another.
abbrev pub Keeps : List (ℕ × Connection) → List (ℕ × Connection) → Type 0
Keeps heap heap' = (p : ℕ) (k : TKey) → key_at heap p ≡ some k → key_at heap' p ≡ some k

Keyed-Keeps :
    (heap heap' : List (ℕ × Connection)) (pair : ClientClusterPair) (m : List (TKey × ℕ))
    → Keeps heap heap'
    → Keyed heap pair m
    → Keyed heap' pair m
Keyed-Keeps heap heap' pair [] keeps k = (tt, tt)
Keyed-Keeps heap heap' pair ((key, p) ∷ m) keeps k =
    let rest = Keyed-Keeps heap heap' pair m keeps (k.0.1, k.1.1) in
    (((keeps p key k.0.0.0, k.0.0.1), rest.0), k.1)

pub WellKeyed-Keeps :
    (heap heap' : List (ℕ × Connection)) (cm : ConnectionMap)
    → Keeps heap heap'
    → WellKeyed heap cm
    → WellKeyed heap' cm
WellKeyed-Keeps heap heap' [] keeps w = (tt, tt)
WellKeyed-Keeps heap heap' ((pair, cc) ∷ cm) keeps w =
    let rest = WellKeyed-Keeps heap heap' cm keeps (w.0.1, w.1.1) in
    ((Keyed-Keeps heap heap' pair _ keeps w.0.0, rest.0), w.1)

-- The change of a cache by an operation that reports the pairs.
pub record Changes (c : Cache) (pairs : List ClientClusterPair) (c' : Cache) : Type 0 where
  pub consistent : IsConsistent c'
  pub keyed : WellKeyed c'.heap c'.connections
  pub keeps : Keeps c.heap c'.heap
  pub announced :
      (k : TKey)
      → is_empty (pair_of k) ≡ false
      → has_pair (pair_of k) pairs ≡ false
      → find c'.connections k ≡ find c.connections k
  pub grows :
      (q : ClientClusterPair)
      → is_some (lookup q c'.connections) ≡ false
      → is_some (lookup q c.connections) ≡ false

pub no_change :
    {c : Cache} (pairs : List ClientClusterPair)
    → IsConsistent c
    → WellKeyed c.heap c.connections
    → Changes c pairs c
no_change pairs v w = record {
  consistent = v;
  keyed = w;
  keeps = λ p k h. h;
  announced = λ k named quiet. refl;
  grows = λ q h. h;
}

-- One change after another, where each reported pair is kept.
pub then_change :
    {a b c : Cache} {ps qs : List ClientClusterPair} (rs : List ClientClusterPair)
    → Changes a ps b
    → Changes b qs c
    → ((q : ClientClusterPair)
        → is_empty q ≡ false
        → has_pair q rs ≡ false
        → (has_pair q ps ≡ false) × (has_pair q qs ≡ false))
    → Changes a rs c
then_change rs f g sub = record {
  consistent = g.consistent;
  keyed = g.keyed;
  keeps = λ p k h. g.keeps p k (f.keeps p k h);
  announced = λ k named quiet.
      let s = sub (pair_of k) named quiet in g.announced k named s.1 ∙ f.announced k named s.0;
  grows = λ q h. f.grows q (g.grows q h);
}

grows-insert :
    (cm : ConnectionMap) (pair : ClientClusterPair) (cc : ClusterConnections)
    (q : ClientClusterPair)
    → is_some (lookup q (insert pair cc cm)) ≡ false
    → is_some (lookup q cm) ≡ false
grows-insert cm pair cc q h = ground (arith, lookup-insert pair q cc cm)

grows-delete_connection :
    (cm : ConnectionMap) (pair : ClientClusterPair) (key : TKey) (q : ClientClusterPair)
    → is_some (lookup q (delete_connection cm pair key)) ≡ false
    → is_some (lookup q cm) ≡ false
unfolding delete_connection
grows-delete_connection cm pair key q h = elim (Option-cases (lookup pair cm)) [
  | inl missing ↦ rw (missing, delete_connection) at h
  | inr (cc, found) ↦ grows-insert cm pair _ q (rw (found, delete_connection) at h)
]

added-Keeps : {c : Cache} (e : Entry) → IsConsistent c → Keeps c.heap (added c e).heap
added-Keeps {c} e v p k h = ground (arith, lookup-added c e p, v.heap_below p)

key_at-added :
    (c : Cache) (e : Entry) → key_at (added c e).heap (c.next + 1) ≡ some (key_of (stored c e))
key_at-added c e = ground (arith, lookup-added c e (c.next + 1), key_of-connection_for (stored c e))

grows-added :
    (c : Cache) (e : Entry) (q : ClientClusterPair)
    → is_some (lookup q (added c e).connections) ≡ false
    → is_some (lookup q c.connections) ≡ false
unfolding added add_connection
grows-added c e q h = grows-insert c.connections _ _ q h

added-Changes :
    {c : Cache} (e : Entry)
    → IsConsistent c
    → WellKeyed c.heap c.connections
    → IsConsistent (added c e)
    → Changes c (pair_of (key_of e) ∷ []) (added c e)
unfolding has_pair
added-Changes {c} e v w v' = record {
  consistent = v';
  keyed =
      unfold added in
      WellKeyed-add_connection _ c.connections _ (c.next + 1) (key_at-added c e)
        (WellKeyed-Keeps c.heap _ c.connections (added-Keeps e v) w);
  keeps = added-Keeps e v;
  announced = λ k named quiet. ground (arith, find-added c e k);
  grows = grows-added c e;
}

-- `addEntry` announces what it changes.
pub add_entry-Changes :
    {c : Cache} (e : Entry)
    → IsConsistent c
    → WellKeyed c.heap c.connections
    → e.persistent ≡ true
    → Changes c ((add_entry c e).1 ∷ []) (add_entry c e).0
add_entry-Changes {c} e v w p =
    let v' = (add_entry-IsConsistent e v p).0 in
    elim (Bool-cases (has_key (key_of e) c.cache_entries)) [
      | inl old ↦ rw (add_entry-added e v p, old) (no_change _ v w)
      | inr new ↦
          rw (add_entry-added e v p, new)
            (added-Changes e v w (rw (add_entry-added e v p, new) at v'))
    ]

-- `deleteEntry` announces what it changes.
pub delete_entry-Changes :
    {c : Cache} (p : ℕ)
    → IsConsistent c
    → WellKeyed c.heap c.connections
    → Changes c ((delete_entry c p).1 ∷ []) (delete_entry c p).0
unfolding delete_entry has_pair
delete_entry-Changes {c} p v w =
    let v' = (delete_entry-IsConsistent p v).0 in
    elim (Option-cases (lookup p c.cache_entries)) [
      | inl miss ↦ rw (miss, delete_entry) (no_change _ v w)
      | inr (e, hit) ↦
          rw (hit, delete_entry)
            (record {
              consistent = rw (hit, delete_entry) at v';
              keyed = WellKeyed-delete_connection _ c.connections _ (key_of e) w;
              keeps = λ q k h. h;
              announced = λ k named quiet.
                  ground (arith, find-delete_connection c.connections (key_of e) k);
              grows = grows-delete_connection c.connections _ (key_of e);
            })
    ]
