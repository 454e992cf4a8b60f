-- ===== src/NvmeHost/Pool/Slots.antt =====
-- The table of pkg/nvme/nvmehost/nvmehost_impl.go as a map from requests to clients.
use discovery_client.Prelude.{
  ℕ, ◌+◌, ◌<◌, true, false, Option, none, some, ◌==◌, ℕ_eq, is_some, if◌then◌else◌, List, [], ◌∷◌,
  ◌≡◌, refl, arith, Bool-cases, inl, inr, if_both,
}
use discovery_client.Prelude.Maps.{lookup, insert, delete, lookup-insert, lookup-delete}
use discovery_client.HostApi.{DiscoverRequest}
use discovery_client.NvmeHost.Pool.{ConnInfo, same_request, find_in_table}

-- The table has each id once, below the counter, and for no two ids the same request.
unfoldable pub Slots : ℕ → List (ℕ × ConnInfo) → Type 0
Slots n [] = Unit
Slots n ((cid, c) ∷ rest) =
    (cid < n)
    × (is_some (lookup cid rest) ≡ false)
    × (find_in_table rest c.request ≡ none)
    × Slots n rest

-- The client that the table has for a request.
unfoldable pub client_for : List (ℕ × ConnInfo) → DiscoverRequest → Option ℕ
client_for [] r = none
client_for ((_, c) ∷ rest) r = if same_request c.request r then some c.client else client_for rest r

pub same_request_trans :
    (a b c : DiscoverRequest) → same_request a b ≡ true → same_request a c ≡ same_request b c
unfolding same_request
same_request_trans a b c h = ground arith

pub same_request_refl : (a : DiscoverRequest) → same_request a a ≡ true
unfolding same_request
same_request_refl a = ground arith

pub same_request-sym : (a b : DiscoverRequest) → same_request a b ≡ same_request b a
unfolding same_request
same_request-sym a b = ground arith

pub lookup_of_found :
    (n cid : ℕ) (t : List (ℕ × ConnInfo)) (r : DiscoverRequest)
    → Slots n t
    → find_in_table t r ≡ some cid
    → (c : ConnInfo) × (lookup cid t ≡ some c) × (same_request c.request r ≡ true)
unfolding Slots find_in_table lookup
lookup_of_found n cid [] r s h = absurd (cc)
lookup_of_found n cid ((k, c) ∷ t) r s h = elim (Bool-cases (same_request c.request r)) [
  | inl same ↦ let e : k ≡ cid = ground arith in rw e (c, ground arith, same)
  | inr other ↦
      let (d, there, same) = lookup_of_found n cid t r s.3 (ground arith) in
      (d, ground (arith, s.1), same)
]

found_of_lookup :
    (n cid : ℕ) (t : List (ℕ × ConnInfo)) (c : ConnInfo) (r : DiscoverRequest)
    → Slots n t
    → lookup cid t ≡ some c
    → same_request c.request r ≡ true
    → (find_in_table t r ≡ some cid) × (client_for t r ≡ some c.client)
unfolding Slots find_in_table lookup client_for
found_of_lookup n cid [] c r s h same = absurd (cc)
found_of_lookup n cid ((k, d) ∷ t) c r s h same = elim (Bool-cases (k == cid)) [
  | inl e ↦ ground arith
  | inr ne ↦
      let (f, g) = found_of_lookup n cid t c r s.3 (ground arith) same in
      let apart : same_request d.request r ≡ false = ground (
        arith,
        same_request_trans c.request r d.request same,
        same_request-sym r d.request,
        same_request-sym c.request d.request,
        found_of_lookup n cid t c d.request s.3 (ground arith),
      ) in
      ground arith
]

pub delete_missing :
    (cid : ℕ) (t : List (ℕ × ConnInfo)) → is_some (lookup cid t) ≡ false → delete cid t ≡ t
unfolding lookup delete
delete_missing cid [] h = refl
delete_missing cid ((k, d) ∷ t) h = ground (arith, delete_missing cid t)

-- The table does not tell equal requests apart.
pub find_same :
    (a b : DiscoverRequest) (t : List (ℕ × ConnInfo))
    → same_request a b ≡ true
    → (find_in_table t a ≡ find_in_table t b) × (client_for t a ≡ client_for t b)
unfolding find_in_table client_for
find_same a b [] h = (refl, refl)
find_same a b ((k, d) ∷ t) h = ground (
  arith,
  find_same a b t h,
  same_request_trans a b d.request h,
  same_request-sym a d.request,
  same_request-sym b d.request,
)

pub client_for-none :
    (t : List (ℕ × ConnInfo)) (r : DiscoverRequest)
    → find_in_table t r ≡ none
    → client_for t r ≡ none
unfolding find_in_table client_for
client_for-none [] r h = refl
client_for-none ((k, d) ∷ t) r h = ground (arith, client_for-none t r)

pub find-delete :
    (n cid : ℕ) (t : List (ℕ × ConnInfo)) (c : ConnInfo) (r : DiscoverRequest)
    → Slots n t
    → lookup cid t ≡ some c
    → (find_in_table (delete cid t) r
        ≡ (if same_request c.request r then none else find_in_table t r))
      × (client_for (delete cid t) r ≡ (if same_request c.request r then none else client_for t r))
unfolding Slots find_in_table lookup client_for delete
find-delete n cid [] c r s h = absurd (cc)
find-delete n cid ((k, d) ∷ t) c r s h = elim (Bool-cases (k == cid)) [
  | inl e ↦
      let is : d ≡ c = ground arith in
      let gone = delete_missing cid t (ground (arith, s.1)) in
      ground (arith, gone, is, find_same d.request r t, client_for-none t d.request s.2)
  | inr ne ↦
      let there : lookup cid t ≡ some c = ground arith in
      ground (
        arith,
        find-delete n cid t c r s.3 there,
        same_request_trans d.request r c.request,
        same_request-sym r c.request,
        same_request-sym c.request d.request,
        found_of_lookup n cid t c d.request s.3 there,
        s.2,
      )
]

find-delete-none :
    (cid : ℕ) (t : List (ℕ × ConnInfo)) (r : DiscoverRequest)
    → find_in_table t r ≡ none
    → find_in_table (delete cid t) r ≡ none
unfolding find_in_table delete
find-delete-none cid [] r h = refl
find-delete-none cid ((k, d) ∷ t) r h = ground (arith, find-delete-none cid t r)

pub Slots-delete : (n cid : ℕ) (t : List (ℕ × ConnInfo)) → Slots n t → Slots n (delete cid t)
unfolding Slots delete
Slots-delete n cid [] s = tt
Slots-delete n cid ((k, d) ∷ t) s = if_both (Slots n) (k == cid) (Slots-delete n cid t s.3) (
  s.0,
  ground (arith, lookup-delete cid k t, s.1),
  find-delete-none cid t d.request s.2,
  Slots-delete n cid t s.3,
)

pub Slots-mono : (n : ℕ) (t : List (ℕ × ConnInfo)) → Slots n t → Slots (n + 1) t
unfolding Slots
Slots-mono n [] s = tt
Slots-mono n ((k, d) ∷ t) s = (omega (arith, s.0), s.1, s.2, Slots-mono n t s.3)

pub lookup_above : (n : ℕ) (t : List (ℕ × ConnInfo)) → Slots n t → is_some (lookup n t) ≡ false
unfolding Slots lookup
lookup_above n [] s = refl
lookup_above n ((k, d) ∷ t) s = ground (arith, s.0, lookup_above n t s.3)

pub below_of_lookup :
    (n cid : ℕ) (t : List (ℕ × ConnInfo)) → Slots n t → is_some (lookup cid t) ≡ true → cid < n
unfolding Slots lookup
below_of_lookup n cid [] s h = absurd (cc)
below_of_lookup n cid ((k, d) ∷ t) s h = ground (arith, s.0, below_of_lookup n cid t s.3)

module _ (cid client : ℕ) (r : DiscoverRequest) where
  abbrev entry : ConnInfo
  entry = record { request = r; client = client }

  find-insert :
      (t : List (ℕ × ConnInfo)) (r' : DiscoverRequest)
      → find_in_table t r' ≡ none
      → same_request r r' ≡ false
      → is_some (lookup cid t) ≡ false
      → find_in_table (insert cid entry t) r' ≡ none
  unfolding find_in_table insert lookup
  find-insert [] r' h apart new = ground arith
  find-insert ((k, d) ∷ t) r' h apart new = ground (arith, find-insert t r')

  -- A request that is not in the table gets a client of its own.
  pub client_for-insert :
      (t : List (ℕ × ConnInfo)) (r' : DiscoverRequest)
      → find_in_table t r ≡ none
      → is_some (lookup cid t) ≡ false
      → client_for (insert cid entry t) r'
        ≡ (if same_request r r' then some client else client_for t r')
  unfolding client_for insert lookup find_in_table
  client_for-insert [] r' h new = ground arith
  client_for-insert ((k, d) ∷ t) r' h new = ground (
    arith,
    client_for-insert t r',
    same_request_trans r r' d.request,
    same_request-sym r d.request,
    same_request-sym r' d.request,
  )

  pub Slots-insert :
      (n : ℕ) (t : List (ℕ × ConnInfo))
      → cid < n
      → Slots n t
      → find_in_table t r ≡ none
      → is_some (lookup cid t) ≡ false
      → Slots n (insert cid entry t)
  unfolding Slots insert lookup find_in_table
  Slots-insert n [] lt s h new = (lt, refl, refl, tt)
  Slots-insert n ((k, d) ∷ t) lt s h new =
      let other : (k == cid) ≡ false = ground arith in
      let apart : same_request d.request r ≡ false = ground arith in
      let missing : is_some (lookup cid t) ≡ false = ground arith in
      rw other (
        s.0,
        ground (arith, lookup-insert cid k entry t, s.1),
        find-insert t d.request s.2 (ground (arith, same_request-sym r d.request)) missing,
        Slots-insert n t lt s.3 (ground arith) missing,
      )
