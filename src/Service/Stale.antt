-- ===== src/Service/Stale.antt =====
-- The inner loop of `removeConnections` (service/service.go), over one cluster.
use discovery_client.Prelude.{
  ℕ, Bool, true, false, Option, none, some, ◌||◌, ◌&&◌, not, ◌==◌, ℕ_eq, List, [], ◌∷◌, ◌≡◌, refl,
  arith, ◌∙◌, if◌then◌else◌, Bool-cases, inl, inr,
}
use discovery_client.Prelude.Maps.{lookup, insert, UniqueKeys}
use discovery_client.ClientConfig.Connections.{
  TKey, TKey_eq, ClientClusterPair, ClientClusterPair_eq, key_at, exists_in, stop, find_in,
  find_in-delete_connection,
}
use discovery_client.Service.{Service, Modified, update, remove_connection, remove_stale}
use discovery_client.Service.WellKeyed.{
  WellKeyed, WellKeyed-heap, key_at-stop, WellKeyed-delete_connection,
}

-- Some connection of the list has the key and is not in the cached map.
unfoldable pub stale : List (TKey × ℕ) → TKey → List (TKey × ℕ) → Bool
stale cached key [] = false
stale cached key ((j, p) ∷ conns) = (j == key && not (exists_in cached p)) || stale cached key conns

-- What one call of the loop does to the map, and to the keys of the objects.
remove_connection-find_in :
    (s : Service) (pair : ClientClusterPair) (active : Option ℕ) (key : TKey) (p : ℕ)
    (q : ClientClusterPair) (k : TKey)
    → find_in (remove_connection s pair active key p).0.connections q k
      ≡ (if pair == q && key == k then none else find_in s.connections q k)
unfolding remove_connection
remove_connection-find_in s pair active key p q k =
    find_in-delete_connection s.connections pair q key k

remove_connection-key_at :
    (s : Service) (pair : ClientClusterPair) (active : Option ℕ) (key : TKey) (p q : ℕ)
    → key_at (remove_connection s pair active key p).0.heap q ≡ key_at s.heap q
unfolding remove_connection
remove_connection-key_at s pair active key p q = key_at-stop p q s.heap

remove_connection-WellKeyed :
    (s : Service) (pair : ClientClusterPair) (active : Option ℕ) (key : TKey) (p : ℕ)
    → WellKeyed s.heap s.connections
    → let s' = (remove_connection s pair active key p).0 in WellKeyed s'.heap s'.connections
unfolding remove_connection
remove_connection-WellKeyed s pair active key p w =
    WellKeyed-heap s.heap (update p stop s.heap) _ (λ q. key_at-stop p q s.heap)
      (WellKeyed-delete_connection s.heap s.connections pair key w)

-- The inner loop of `removeConnections` takes away the stale keys of its cluster.
pub record RemovesStale (s : Service) (pair : ClientClusterPair) (cached conns : List (TKey × ℕ))
    (t : Service) : Type 0 where
  pub found :
      (q : ClientClusterPair) (k : TKey)
      → find_in t.connections q k
        ≡ (if pair == q && stale cached k conns then none else find_in s.connections q k)
  pub keys : (p : ℕ) → key_at t.heap p ≡ key_at s.heap p
  pub keyed : WellKeyed s.heap s.connections → WellKeyed t.heap t.connections

pub remove_stale-RemovesStale :
    (s : Service) (modified : Modified) (pair : ClientClusterPair) (cached : List (TKey × ℕ))
    (active : Option ℕ) (conns : List (TKey × ℕ))
    → RemovesStale s pair cached conns (remove_stale s modified pair cached active conns).0
unfolding remove_stale stale
remove_stale-RemovesStale s modified pair cached active [] = record {
  found = λ q k. ground arith;
  keys = λ p. refl;
  keyed = λ w. w;
}
remove_stale-RemovesStale s modified pair cached active ((key, p) ∷ conns) =
    let s' = (remove_connection s pair active key p).0 in
    let active' = (remove_connection s pair active key p).1 in
    let gone = remove_stale-RemovesStale s' (insert pair true modified) pair cached active' conns in
    let kept = remove_stale-RemovesStale s modified pair cached active conns in
    elim (Bool-cases (exists_in cached p)) [
      | inl there ↦ rw there (record {
        found = λ q k. ground (arith, kept.found q k, there);
        keys = kept.keys;
        keyed = kept.keyed;
      })
      | inr missing ↦ rw missing (record {
        found = λ q k.
            ground
              (arith, gone.found q k, remove_connection-find_in s pair active key p q k, missing);
        keys = λ q. gone.keys q ∙ remove_connection-key_at s pair active key p q;
        keyed = λ w. gone.keyed (remove_connection-WellKeyed s pair active key p w);
      })
    ]

pub stale-lookup :
    (cached : List (TKey × ℕ)) (k : TKey) (m : List (TKey × ℕ))
    → UniqueKeys m
    → stale cached k m ≡ elim (lookup k m) [ none ↦ false | some p ↦ not (exists_in cached p) ]
unfolding stale lookup
stale-lookup cached k [] u = refl
stale-lookup cached k ((j, p) ∷ m) u = ground (arith, stale-lookup cached k m u.1)
