-- ===== src/Collections/Counts.antt =====
-- How often a string occurs in the results of pkg/collections/functions.go.
use discovery_client.Prelude.{
  ℕ, suc, ◌+◌, ◌-◌, String, Bool, true, false, ◌||◌, ◌&&◌, not, ltb, ◌==◌, String_eq, is_some,
  if◌then◌else◌, List, [], ◌∷◌, ◌++◌, ◌≡◌, refl, arith, take, drop, Bool-cases, inl, inr,
}
use discovery_client.Prelude.Int.{ℤ, pos, negsuc, ltb_ℤ}
use discovery_client.Prelude.Maps.{lookup, insert, lookup-insert}
use discovery_client.Collections.{
  index_from, index, include, note_items, intersection_loop, intersection, remove_at, remove,
  difference_loop, difference, remove_duplications_loop, remove_duplications,
}

-- How often a string occurs.
unfoldable pub count : String → List String → ℕ
count x [] = 0
count x (y ∷ ys) = (if y == x then 1 else 0) + count x ys

count-append : (x : String) (l m : List String) → count x (l ++ m) ≡ count x l + count x m
unfolding count
count-append x [] m = omega arith
count-append x (y ∷ l) m = omega (arith, count-append x l m)

-- What `Index` finds from position `n`.
data Found (n : ℕ) (vs : List String) (t : String) : ℤ → Type 0 where
  missing : count t vs ≡ 0 → Found n vs t (negsuc 0)
  at :
      (i k : ℕ)
      → k ≡ n + i
      → ((x : String)
          → count x (take i vs ++ drop (suc i) vs) + (if t == x then 1 else 0) ≡ count x vs)
      → Found n vs t (pos k)

lookup-note_items :
    (x : String) (items : List String) (m : List (String × Bool))
    → is_some (lookup x (note_items items m)) ≡ (is_some (lookup x m) || ltb 0 (count x items))
unfolding note_items count
lookup-note_items x [] m = ground arith
lookup-note_items x (y ∷ ys) m =
    ground (arith, lookup-note_items x ys (insert y true m), lookup-insert y x true m)

count-intersection_loop :
    (x : String) (items : List String) (m : List (String × Bool)) (c : List String)
    → count x (intersection_loop items m c)
      ≡ count x c + (if is_some (lookup x m) then count x items else 0)
unfolding intersection_loop count
count-intersection_loop x [] m c = ground arith
count-intersection_loop x (y ∷ ys) m c = ground (
  arith,
  count-intersection_loop x ys m (if is_some (lookup y m) then c ++ (y ∷ []) else c),
  count-append x c (y ∷ []),
)

count-difference_loop :
    (x : String) (xs : List String) (m : List (String × Bool)) (diff : List String)
    → count x (difference_loop xs m diff)
      ≡ count x diff + (if is_some (lookup x m) then 0 else count x xs)
unfolding difference_loop count
count-difference_loop x [] m diff = ground arith
count-difference_loop x (y ∷ ys) m diff = ground (
  arith,
  count-difference_loop x ys m (if is_some (lookup y m) then diff else diff ++ (y ∷ [])),
  count-append x diff (y ∷ []),
)

count-remove_duplications_loop :
    (x : String) (ss : List String) (dict : List (String × Bool)) (l : List String)
    → count x (remove_duplications_loop ss dict l)
      ≡ count x l + (if not (is_some (lookup x dict)) && ltb 0 (count x ss) then 1 else 0)
unfolding remove_duplications_loop count
count-remove_duplications_loop x [] dict l = ground arith
count-remove_duplications_loop x (y ∷ ys) dict l = ground (
  arith,
  count-remove_duplications_loop x ys dict l,
  count-remove_duplications_loop x ys (insert y true dict) (l ++ (y ∷ [])),
  count-append x l (y ∷ []),
  lookup-insert y x true dict,
)

Found-shift :
    {n : ℕ} {v : String} {vs : List String} {t : String} {z : ℤ}
    → (v == t) ≡ false
    → Found (suc n) vs t z
    → Found n (v ∷ vs) t z
unfolding count
Found-shift other (missing none_there) = missing (ground arith)
Found-shift {v = v} other (at i k there cut) =
    at (suc i) k (omega arith) (λ x. ground (arith, cut x))

index_from-Found : (n : ℕ) (vs : List String) (t : String) → Found n vs t (index_from vs t n)
unfolding index_from count
index_from-Found n [] t = missing refl
index_from-Found n (v ∷ vs) t = elim (Bool-cases (v == t)) [
  | inl same ↦ rw same (at 0 n (omega arith) (λ x. ground arith))
  | inr other ↦ rw other (Found-shift other (index_from-Found (suc n) vs t))
]

count-remove :
    (x : String) (vs : List String) (t : String)
    → count x (remove vs t).1 ≡ count x vs - (if t == x then 1 else 0)
unfolding remove remove_at index
count-remove x vs t = go (index_from-Found 0 vs t)
  where
    go :
        {z : ℤ}
        → Found 0 vs t z
        → count x (remove_at vs z).1 ≡ count x vs - (if t == x then 1 else 0)
    go (missing none_there) = ground arith
    go (at i k there cut) = ground (arith, cut x)

include-count : (vs : List String) (t : String) → include vs t ≡ ltb 0 (count t vs)
unfolding include index
include-count vs t = go (index_from-Found 0 vs t)
  where
    go : {z : ℤ} → Found 0 vs t z → not (ltb_ℤ z (pos 0)) ≡ ltb 0 (count t vs)
    go (missing none_there) = ground arith
    go (at i k there cut) = ground (arith, cut t)

-- How often a string occurs: `Include` tells whether it does, `Remove` takes off one occurrence of
-- its string, if there is one, `Difference` takes off all that occur in the second slice and
-- `Intersection` of the slices keeps the others of the second, and `RemoveDuplications` leaves one.
pub count_lem :
    (x t : String) (a b : List String)
    → (include a x ≡ ltb 0 (count x a))
      × (count x (remove a t).1 ≡ count x a - (if t == x then 1 else 0))
      × (count x (difference a b) ≡ (if include b x then 0 else count x a))
      × (count x (intersection a b) ≡ (if include a x then count x b else 0))
      × (count x (remove_duplications a) ≡ (if include a x then 1 else 0))
unfolding difference intersection remove_duplications count lookup
count_lem x t a b = (
  include-count a x,
  count-remove x a t,
  ground (
    arith,
    count-difference_loop x a (note_items b []) [],
    lookup-note_items x b [],
    include-count b x,
  ),
  ground (
    arith,
    count-intersection_loop x b (note_items a []) [],
    lookup-note_items x a [],
    include-count a x,
  ),
  ground (arith, count-remove_duplications_loop x a [] [], include-count a x),
)
