-- ===== src/ClientConfig/Cache/Consistency.antt =====
-- The invariant of the cache (pkg/clientconfig/cache.go): its entries and its connections are the
-- same keys, each once, and each connection is held under its own key.
use discovery_client.Prelude.{
  ℕ, ◌<◌, Bool, true, false, none, some, ◌||◌, ◌&&◌, not, ◌==◌, ℕ_eq, is_some, List, [], ◌∷◌, ◌++◌,
  ◌≡◌, refl, arith, All, if◌then◌else◌, if_both,
}
use discovery_client.Prelude.Maps.{lookup}
use discovery_client.ClientConfig.Entry.{Entry, compare}
use discovery_client.ClientConfig.Connections.{TKey, TKey_eq, key_at, find}
use discovery_client.ClientConfig.Cache.{
  Cache, key_of, exist_entry, inherit_tmo, maybe_update_host_ids, remove_pointer,
}

-- Some entry has the key.
unfoldable pub has_key : TKey → List (ℕ × Entry) → Bool
has_key k [] = false
has_key k ((_, e) ∷ entries) = key_of e == k || has_key k entries

abbrev pub AllPersistent : List (ℕ × Entry) → Type 0
AllPersistent = All (λ c. c.1.persistent ≡ true)

abbrev pub AllBelow : ℕ → List (ℕ × Entry) → Type 0
AllBelow n = All (λ c. c.0 < n)

-- No two entries share a key or a pointer.
abbrev pub AllDistinct : List (ℕ × Entry) → Type 0
AllDistinct [] = Unit
AllDistinct ((p, e) ∷ entries) =
    (has_key (key_of e) entries ≡ false)
    × (is_some (lookup p entries) ≡ false)
    × AllDistinct entries

pub record IsConsistent (c : Cache) : Type 0 where
  pub persistent : AllPersistent c.cache_entries
  pub distinct : AllDistinct c.cache_entries
  pub below : AllBelow c.next c.cache_entries
  pub registered : (k : TKey) → is_some (find c.connections k) ≡ has_key k c.cache_entries
  pub owned : (k : TKey) (p : ℕ) → find c.connections k ≡ some p → key_at c.heap p ≡ some k
  pub heap_below : (p : ℕ) → is_some (lookup p c.heap) ≡ true → p < c.next

-- Among persistent entries `compare` is the equality of keys.
pub exist_entry-has_key :
    (e : Entry) (l : List (ℕ × Entry))
    → AllPersistent l
    → e.persistent ≡ true
    → exist_entry e l ≡ has_key (key_of e) l
unfolding exist_entry has_key compare
exist_entry-has_key e [] h p = refl
exist_entry-has_key e ((a, o) ∷ l) h p = ground (arith, exist_entry-has_key e l h.1 p)

-- Neither a timeout nor a host id changes what an entry is compared by.
pub key_of-update :
    (hosts : _) (l : List (ℕ × Entry)) (e : Entry)
    → (key_of (maybe_update_host_ids hosts (inherit_tmo l e)) ≡ key_of e)
      × ((maybe_update_host_ids hosts (inherit_tmo l e)).persistent ≡ e.persistent)
unfolding maybe_update_host_ids inherit_tmo
key_of-update hosts l e = ground arith

pub has_key-append :
    (k : TKey) (l : List (ℕ × Entry)) (p : ℕ) (e : Entry)
    → has_key k (l ++ (p, e) ∷ []) ≡ (has_key k l || key_of e == k)
unfolding has_key
has_key-append k [] p e = ground arith
has_key-append k ((q, o) ∷ l) p e = ground (arith, has_key-append k l p e)

lookup-append :
    (q : ℕ) (l : List (ℕ × Entry)) (p : ℕ) (e : Entry)
    → is_some (lookup q (l ++ (p, e) ∷ [])) ≡ (is_some (lookup q l) || p == q)
unfolding lookup
lookup-append q [] p e = ground arith
lookup-append q ((a, o) ∷ l) p e = ground (arith, lookup-append q l p e)

pub lookup_of_below :
    (p n : ℕ) (l : List (ℕ × Entry)) → AllBelow n l → n ≡ p → is_some (lookup p l) ≡ false
unfolding lookup
lookup_of_below p n [] h e = refl
lookup_of_below p n ((a, o) ∷ l) h e = ground (arith, lookup_of_below p n l h.1 e)

pub All-append {κ} :
    (P : ℕ × Entry → Type κ) (l : List (ℕ × Entry)) (x : ℕ × Entry)
    → All P l
    → P x
    → All P (l ++ x ∷ [])
All-append P [] x h px = (px, tt)
All-append P (y ∷ l) x h px = (h.0, All-append P l x h.1 px)

pub AllBelow-mono : (n m : ℕ) (l : List (ℕ × Entry)) → AllBelow n l → n < m → AllBelow m l
AllBelow-mono n m [] h lt = tt
AllBelow-mono n m (y ∷ l) h lt = (omega arith, AllBelow-mono n m l h.1 lt)

pub AllDistinct-append :
    (l : List (ℕ × Entry)) (p : ℕ) (e : Entry)
    → AllDistinct l
    → has_key (key_of e) l ≡ false
    → is_some (lookup p l) ≡ false
    → AllDistinct (l ++ (p, e) ∷ [])
unfolding has_key lookup
AllDistinct-append [] p e d hk hp = (refl, refl, tt)
AllDistinct-append ((a, o) ∷ l) p e d hk hp = (
  ground (arith, has_key-append (key_of o) l p e),
  ground (arith, lookup-append a l p e),
  AllDistinct-append l p e d.2 (ground arith) (ground arith),
)

pub has_key_of_lookup :
    (p : ℕ) (l : List (ℕ × Entry)) (e : Entry) → lookup p l ≡ some e → has_key (key_of e) l ≡ true
unfolding has_key lookup
has_key_of_lookup p [] e h = cc
has_key_of_lookup p ((a, o) ∷ l) e h = ground (arith, has_key_of_lookup p l e)

-- What removing a pointer leaves.
pub has_key-remove_pointer :
    (k : TKey) (p : ℕ) (l : List (ℕ × Entry)) (e : Entry)
    → AllDistinct l
    → lookup p l ≡ some e
    → has_key k (remove_pointer p l) ≡ (has_key k l && not (key_of e == k))
unfolding has_key remove_pointer lookup
has_key-remove_pointer k p [] e d h = cc
has_key-remove_pointer k p ((a, o) ∷ l) e d h =
    ground (arith, has_key-remove_pointer k p l e d.2, has_key_of_lookup p l e)

pub lookup-remove_pointer :
    (q p : ℕ) (l : List (ℕ × Entry))
    → AllDistinct l
    → lookup q (remove_pointer p l) ≡ (if p == q then none else lookup q l)
unfolding remove_pointer lookup
lookup-remove_pointer q p [] d = ground arith
lookup-remove_pointer q p ((a, o) ∷ l) d = ground (arith, lookup-remove_pointer q p l d.2)

pub All-remove_pointer {κ} :
    (P : ℕ × Entry → Type κ) (p : ℕ) (l : List (ℕ × Entry)) → All P l → All P (remove_pointer p l)
unfolding remove_pointer
All-remove_pointer P p [] h = tt
All-remove_pointer P p ((a, o) ∷ l) h =
    if_both (All P) (a == p) h.1 (h.0, All-remove_pointer P p l h.1)

has_key_of_remove :
    (k : TKey) (p : ℕ) (l : List (ℕ × Entry))
    → has_key k l ≡ false
    → has_key k (remove_pointer p l) ≡ false
unfolding has_key remove_pointer
has_key_of_remove k p [] h = refl
has_key_of_remove k p ((a, o) ∷ l) h = ground (arith, has_key_of_remove k p l)

pub AllDistinct-remove_pointer :
    (p : ℕ) (l : List (ℕ × Entry)) → AllDistinct l → AllDistinct (remove_pointer p l)
unfolding remove_pointer
AllDistinct-remove_pointer p [] d = tt
AllDistinct-remove_pointer p ((a, o) ∷ l) d = if_both AllDistinct (a == p) d.2 (
  has_key_of_remove (key_of o) p l d.0,
  ground (arith, lookup-remove_pointer a p l d.2),
  AllDistinct-remove_pointer p l d.2,
)
