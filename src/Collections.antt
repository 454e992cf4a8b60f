-- ===== src/Collections.antt =====
-- pkg/collections/functions.go: functions on slices of strings.
pub mod Counts
use discovery_client.Prelude.{
  ℕ, suc, ◌+◌, String, Bool, true, false, ◌==◌, not, String_eq, ℕ_eq, is_some, if◌then◌else◌, List,
  [], ◌∷◌, ◌++◌, length, take, drop,
}
use discovery_client.Prelude.Int.{ℤ, pos, negsuc, ltb_ℤ}
use discovery_client.Prelude.Maps.{lookup, insert}

-- The loop of `Index`, at position `i`.
unfoldable pub index_from : List String → String → ℕ → ℤ
index_from [] t i = negsuc 0
index_from (v ∷ vs) t i = let rest = index_from vs t (suc i) in if v == t then pos i else rest

-- `Index`.
unfoldable pub index : List String → String → ℤ
index vs t = index_from vs t 0

-- `Include`.
unfoldable pub include : List String → String → Bool
include vs t = not (ltb_ℤ (index vs t) (pos 0))

-- `Any`, and `All`.
unfoldable pub any : List String → (String → Bool) → Bool
any [] f = false
any (v ∷ vs) f = if f v then true else any vs f

unfoldable pub all : List String → (String → Bool) → Bool
all [] f = true
all (v ∷ vs) f = if not (f v) then false else all vs f

-- `Filter`; the loop appends to `vsf`.
unfoldable pub filter_loop : List String → (String → Bool) → List String → List String
filter_loop [] f vsf = vsf
filter_loop (v ∷ vs) f vsf = filter_loop vs f (if f v then vsf ++ (v ∷ []) else vsf)

unfoldable pub filter : List String → (String → Bool) → List String
filter vs f = filter_loop vs f []

-- The loops that make a map of the items of a slice.
unfoldable pub note_items : List String → List (String × Bool) → List (String × Bool)
note_items [] m = m
note_items (item ∷ items) m = note_items items (insert item true m)

-- `Intersection`; the loop appends to `c`.
unfoldable pub intersection_loop : List String → List (String × Bool) → List String → List String
intersection_loop [] m c = c
intersection_loop (item ∷ items) m c =
    intersection_loop items m (if is_some (lookup item m) then c ++ (item ∷ []) else c)

unfoldable pub intersection : List String → List String → List String
intersection a b = intersection_loop b (note_items a []) []

-- `Remove`, from where `Index` found the string: the array of the slice afterwards, and the slice
-- that it returns.
unfoldable pub remove_at : List String → ℤ → List String × List String
remove_at vs (pos idx) =
    let shifted = take idx vs ++ drop (suc idx) vs in (shifted ++ ("" ∷ []), shifted)
remove_at vs (negsuc _) = (vs, vs)

unfoldable pub remove : List String → String → List String × List String
remove vs t = remove_at vs (index vs t)

-- `Difference`; the loop appends to `diff`.
unfoldable pub difference_loop : List String → List (String × Bool) → List String → List String
difference_loop [] mb diff = diff
difference_loop (x ∷ xs) mb diff =
    difference_loop xs mb (if is_some (lookup x mb) then diff else diff ++ (x ∷ []))

unfoldable pub difference : List String → List String → List String
difference a b = difference_loop a (note_items b []) []

-- `RemoveDuplications`.
unfoldable pub remove_duplications_loop :
    List String → List (String × Bool) → List String → List String
remove_duplications_loop [] dict list = list
remove_duplications_loop (s ∷ ss) dict list =
    if is_some (lookup s dict)
    then remove_duplications_loop ss dict list
    else remove_duplications_loop ss (insert s true dict) (list ++ (s ∷ []))

unfoldable pub remove_duplications : List String → List String
remove_duplications list = remove_duplications_loop list [] []

-- `Equal`.
unfoldable pub all_included : List String → List String → Bool
all_included [] b = true
all_included (s ∷ a) b = if not (include b s) then false else all_included a b

unfoldable pub equal : List String → List String → Bool
equal a b = if not (length a == length b) then false else all_included a b
