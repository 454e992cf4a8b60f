-- ===== src/Tests/Collections.antt =====
-- The functions on slices (pkg/collections/functions.go) on concrete inputs.
use discovery_client.Prelude.{
  true, String_eq, [], ◌∷◌, ◌≡◌, refl, String_discrete, ℕ_discrete, List, String,
}
use discovery_client.Collections.{index_from, index, include, all_included, equal}

abbrev twice_a : List String
twice_a = "a" ∷ "a" ∷ "b" ∷ []

abbrev twice_b : List String
twice_b = "a" ∷ "b" ∷ "b" ∷ []

-- Lists of the same strings, in different numbers.
equal_but_different : equal twice_a twice_b ≡ true
unfolding equal all_included include index index_from String_discrete ℕ_discrete
equal_but_different = refl
