-- ===== src/Prelude/Maps.antt =====
-- A Go map as an association list: the laws say all that a client may rely on.
use mathlib.Core.Path.{◌≡◌, refl}
use mathlib.Core.List.{List, [], ◌∷◌}
use mathlib.Core.Bool.{false}
use mathlib.Core.Option.{Option, none, some}
use native.Mathlib.Omega.{arith}
use discovery_client.Prelude.Tests.{if◌then◌else◌, if_both, if_cases, is_some}
use discovery_client.Prelude.Equality.{Eq, ◌==◌}
use discovery_client.Prelude.Lists.{All}

module _ {ℓ κ} {K : Type ℓ} {V : Type κ} ⦃e : Eq K⦄ where
  unfoldable pub lookup : K → List (K × V) → Option V
  lookup key [] = none
  lookup key ((there, v) ∷ rest) = if there == key then some v else lookup key rest

  unfoldable pub delete : K → List (K × V) → List (K × V)
  delete k [] = []
  delete k ((j, v) ∷ m) = let rest = delete k m in if j == k then rest else (j, v) ∷ rest

  unfoldable pub insert : K → V → List (K × V) → List (K × V)
  insert key new [] = (key, new) ∷ []
  insert key new ((there, v) ∷ rest) =
      if there == key then (key, new) ∷ rest else (there, v) ∷ insert key new rest

  pub lookup-insert :
      (key other : K) (new : V) (m : List (K × V))
      → lookup other (insert key new m) ≡ (if key == other then some new else lookup other m)
  unfolding lookup insert
  lookup-insert key other new [] = refl
  lookup-insert key other new (_ ∷ rest) = ground (arith, lookup-insert key other new rest)

  pub lookup-delete :
      (k j : K) (m : List (K × V)) → lookup j (delete k m) ≡ (if k == j then none else lookup j m)
  unfolding lookup delete
  lookup-delete k j [] = ground arith
  lookup-delete k j ((i, w) ∷ m) = ground (arith, lookup-delete k j m)

  -- No key twice, which a Go map guarantees.
  abbrev pub UniqueKeys : List (K × V) → Type 0
  UniqueKeys [] = Unit
  UniqueKeys ((k, v) ∷ m) = (is_some (lookup k m) ≡ false) × UniqueKeys m

  pub UniqueKeys-insert :
      (k : K) (v : V) (m : List (K × V)) → UniqueKeys m → UniqueKeys (insert k v m)
  unfolding lookup insert
  UniqueKeys-insert k v [] u = (refl, tt)
  UniqueKeys-insert k v ((j, w) ∷ m) u =
      if_cases UniqueKeys (j == k) (λ h. (ground arith, u.1))
        (λ h. (ground (arith, lookup-insert k j v m), UniqueKeys-insert k v m u.1))

  pub UniqueKeys-delete : (k : K) (m : List (K × V)) → UniqueKeys m → UniqueKeys (delete k m)
  unfolding lookup delete
  UniqueKeys-delete k [] u = tt
  UniqueKeys-delete k ((j, w) ∷ m) u =
      if_both UniqueKeys (j == k) (UniqueKeys-delete k m u.1)
        (ground (arith, lookup-delete k j m), UniqueKeys-delete k m u.1)

  -- What holds of the entry that is written and of the others holds of the map.
  pub All-insert {ι} :
      (P : K × V → Type ι) (k : K) (v : V) (m : List (K × V))
      → P (k, v)
      → All P m
      → All P (insert k v m)
  unfolding insert
  All-insert P k v [] p all = (p, tt)
  All-insert P k v ((j, w) ∷ m) p all =
      if_both (All P) (j == k) (p, all.1) (all.0, All-insert P k v m p all.1)

  pub All-delete {ι} :
      (P : K × V → Type ι) (k : K) (m : List (K × V)) → All P m → All P (delete k m)
  unfolding delete
  All-delete P k [] all = tt
  All-delete P k ((j, w) ∷ m) all =
      if_both (All P) (j == k) (All-delete P k m all.1) (all.0, All-delete P k m all.1)
