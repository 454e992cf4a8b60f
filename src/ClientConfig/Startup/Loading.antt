-- ===== src/ClientConfig/Startup/Loading.antt =====
-- The loops of `sync` (pkg/clientconfig/cache.go) over entries and over files.
use discovery_client.Prelude.{
  Bool, true, false, Option, none, some, ◌||◌, ◌&&◌, not, ◌==◌, List, [], ◌∷◌, ◌++◌, ◌≡◌, refl,
  arith, Bool-cases, inl, inr, All,
}
use discovery_client.ClientConfig.Entry.{Entry, verify}
use discovery_client.ClientConfig.Connections.{
  TKey, TKey_eq, ClientClusterPair, ClientClusterPair_eq, pair_of, is_empty,
}
use discovery_client.ClientConfig.Cache.{Cache, key_of, add_entry}
use discovery_client.ClientConfig.Cache.Consistency.{IsConsistent, has_key}
use discovery_client.ClientConfig.Cache.Entries.{add_entry-IsConsistent}
use discovery_client.ClientConfig.Cache.Message.{has_pair}
use discovery_client.ClientConfig.Cache.Files.{in_file, file_added-IsConsistent}
use discovery_client.ClientConfig.Startup.{
  UserFile, append_pair, sync_entries, load_file, sync_files,
}

pub has_pair-append :
    (q : ClientClusterPair) (xs ys : List ClientClusterPair)
    → has_pair q (xs ++ ys) ≡ (has_pair q xs || has_pair q ys)
unfolding has_pair
has_pair-append q [] ys = refl
has_pair-append q (x ∷ xs) ys = ground (arith, has_pair-append q xs ys)

has_pair-append_pair :
    (q pair : ClientClusterPair) (pairs : List ClientClusterPair)
    → has_pair q (append_pair pair pairs) ≡ (has_pair q pairs || (not (is_empty pair) && pair == q))
unfolding has_pair
has_pair-append_pair q pair pairs = ground (arith, has_pair-append q pairs (pair ∷ []))

-- What loading makes of a cache: the keys that `new` tells are added, and announced.
pub record Loads (c : Cache) (new : TKey → Bool) (pairs : List ClientClusterPair) (c' : Cache)
    (pairs' : List ClientClusterPair) : Type 0 where
  pub consistent : IsConsistent c'
  pub keys : (k : TKey) → has_key k c'.cache_entries ≡ (has_key k c.cache_entries || new k)
  pub kept : (q : ClientClusterPair) → has_pair q pairs ≡ true → has_pair q pairs' ≡ true
  pub announced :
      (k : TKey)
      → has_key k c.cache_entries ≡ false
      → new k ≡ true
      → is_empty (pair_of k) ≡ false
      → has_pair (pair_of k) pairs' ≡ true

-- An entry of the internal file as `createReferralsFile` writes it.
abbrev pub IsGood : Entry → Type 0
IsGood e = (verify e ≡ none) × (e.persistent ≡ true)

pub sync_entries-Loads :
    (entries : List Entry) (pairs : List ClientClusterPair) {c : Cache}
    → IsConsistent c
    → All IsGood entries
    → let r = sync_entries c pairs entries in
      Loads c (λ k. in_file k entries) pairs r.0 r.1 × (r.2 ≡ none)
unfolding sync_entries in_file
sync_entries-Loads [] pairs v good = (
  record {
    consistent = v;
    keys = λ k. ground arith;
    kept = λ q h. h;
    announced = λ k new there. cc;
  },
  refl,
)
sync_entries-Loads (e ∷ entries) pairs {c} v good =
    let (v', changed, err, keys) = add_entry-IsConsistent e v good.0.1 in
    let (c', pair, _) = add_entry c e in
    let rest = sync_entries-Loads entries (append_pair pair pairs) v' good.1 in
    let l = rest.0 in
    rw good.0.0 (
      record {
        consistent = l.consistent;
        keys = λ k. ground (arith, l.keys k, keys k);
        kept = λ q h. l.kept q (ground (arith, has_pair-append_pair q pair pairs));
        announced = λ k new there named. elim (Bool-cases (key_of e == k)) [
          | inl same ↦
              l.kept (pair_of k)
                (ground (arith, has_pair-append_pair (pair_of k) pair pairs, changed))
          | inr other ↦ l.announced k (ground (arith, keys k)) (ground arith) named
        ];
      },
      rest.1,
    )

-- Some file that could be read has the key.
abbrev pub in_user_file : TKey → UserFile → Bool
in_user_file k f = not f.is_dir && elim f.parsed [ none ↦ false | some entries ↦ in_file k entries ]

unfoldable pub in_user_files : TKey → List UserFile → Bool
in_user_files k [] = false
in_user_files k (f ∷ files) = in_user_file k f || in_user_files k files

nothing_loaded :
    {c : Cache} {new : TKey → Bool}
    → IsConsistent c
    → ((k : TKey) → new k ≡ false)
    → Loads c new [] c []
nothing_loaded v none_new = record {
  consistent = v;
  keys = λ k. ground (arith, none_new k);
  kept = λ q h. h;
  announced = λ k new there. ground (arith, none_new k);
}

load_file-Loads :
    (dir : Bool) (parsed : Option (List Entry)) {c : Cache}
    → IsConsistent c
    → let f : UserFile = record { is_dir = dir; parsed = parsed } in
      let r = load_file c f in Loads c (λ k. in_user_file k f) [] r.0 r.1
unfolding load_file has_pair
load_file-Loads true parsed v = nothing_loaded v (λ k. refl)
load_file-Loads false none v = nothing_loaded v (λ k. refl)
load_file-Loads false (some entries) v =
    let (v', ok, keys, announced) = file_added-IsConsistent entries v in
    record { consistent = v'; keys = keys; kept = λ q h. cc; announced = announced }

pub sync_files-Loads :
    (files : List UserFile) (pairs : List ClientClusterPair) {c : Cache}
    → IsConsistent c
    → let r = sync_files c pairs files in Loads c (λ k. in_user_files k files) pairs r.0 r.1
unfolding sync_files in_user_files
sync_files-Loads [] pairs v = record {
  consistent = v;
  keys = λ k. ground arith;
  kept = λ q h. h;
  announced = λ k new there. cc;
}
sync_files-Loads (f ∷ files) pairs {c} v =
    let one = load_file-Loads f.is_dir f.parsed v in
    let (c', more) = load_file c f in
    let rest = sync_files-Loads files (pairs ++ more) one.consistent in
    record {
      consistent = rest.consistent;
      keys = λ k. ground (arith, rest.keys k, one.keys k);
      kept = λ q h. rest.kept q (ground (arith, has_pair-append q pairs more));
      announced = λ k new there named. elim (Bool-cases (in_user_file k f)) [
        | inl same ↦
            rest.kept (pair_of k) (
              ground
                (arith, has_pair-append (pair_of k) pairs more, one.announced k new same named))
        | inr other ↦ rest.announced k (ground (arith, one.keys k)) (ground arith) named
      ];
    }
