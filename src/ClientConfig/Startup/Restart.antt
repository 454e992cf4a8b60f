-- ===== src/ClientConfig/Startup/Restart.antt =====
-- `createReferralsFile` and `sync` (pkg/clientconfig/cache.go): what a cache finds when it starts.
use discovery_client.Prelude.{
  ℕ, Bool, true, false, Option, none, some, ◌||◌, ltb, ℕ_eq, is_some, List, [], ◌∷◌, ◌≡◌, ◌≢◌, refl,
  arith, if◌then◌else◌, All, map, ◌∙◌, ap,
}
use discovery_client.ClientConfig.Entry.{Entry, verify}
use discovery_client.ClientConfig.Connections.{TKey, TKey_eq, pair_of, is_empty}
use discovery_client.ClientConfig.Cache.{Cache, new_cache, add_entry}
use discovery_client.ClientConfig.Cache.Consistency.{IsConsistent, has_key, AllPersistent}
use discovery_client.ClientConfig.Cache.Message.{has_pair}
use discovery_client.ClientConfig.Cache.Files.{in_file, new_cache-IsConsistent}
use discovery_client.ClientConfig.Startup.{
  JsonFile, Disk, UserFile, SyncError, Referrals, regular, returned, succeeds, fails, bad_entry,
  plain_entries, use_internal_json, use_referrals, use_unless_updated, append_pair,
  create_referrals_file, sync_entries, sync_json, sync_user, sync,
}
use discovery_client.ClientConfig.Startup.Loading.{
  IsGood, sync_entries-Loads, in_user_files, sync_files-Loads,
}

-- An entry as the internal file keeps it: `EffectiveHostid` has the tag `json:"-"`.
unfoldable pub saved : Entry → Entry
saved e = record e { effective_hostid = "" }

abbrev pub IsValidEntry : ℕ × Entry → Type 0
IsValidEntry (_, e) = verify e ≡ none

in_file-saved :
    (k : TKey) (l : List (ℕ × Entry)) → in_file k (map saved (plain_entries l)) ≡ has_key k l
unfolding in_file has_key saved
in_file-saved k [] = refl
in_file-saved k ((p, e) ∷ l) = ground (arith, in_file-saved k l)

-- Some entry fails `verify`.
unfoldable pub any_bad : List Entry → Bool
any_bad [] = false
any_bad (e ∷ entries) = is_some (verify e) || any_bad entries

any_bad-saved :
    (l : List (ℕ × Entry)) → any_bad (map saved (plain_entries l)) ≡ any_bad (plain_entries l)
unfolding any_bad saved verify
any_bad-saved [] = refl
any_bad-saved ((p, e) ∷ l) = ap (◌||◌ (is_some (verify e))) (any_bad-saved l)

any_bad-nonempty : (l : List (ℕ × Entry)) → any_bad (plain_entries l) ≡ true → l ≢ []
unfolding any_bad
any_bad-nonempty [] bad e = cc
any_bad-nonempty (x ∷ l) bad e = cc

saved-IsGood :
    (l : List (ℕ × Entry))
    → AllPersistent l
    → All IsValidEntry l
    → All IsGood (map saved (plain_entries l))
unfolding saved verify
saved-IsGood [] persistent valid = tt
saved-IsGood ((p, e) ∷ l) persistent valid =
    ((valid.0, persistent.0), saved-IsGood l persistent.1 valid.1)

-- The files of a restart after `createReferralsFile`.
abbrev pub restarted {ℓ} :
    {A : Type ℓ}
    → (Referrals → A)
    → (written last : ℕ) → Option (List UserFile)
    → Cache
    → JsonFile A
    → Disk A
restarted marshal written last files c json = record {
  json = (create_referrals_file marshal written none c json).0;
  user_update = some last;
  user_files = files;
}

-- What the JSON package does: `Unmarshal` reads what `MarshalIndent` printed.
pub record IsJson {ℓ} {A : Type ℓ} (unmarshal : A → Option Referrals) (marshal : Referrals → A)
    : Type 0 where
  pub reads :
      (t : ℕ) (entries : List Entry)
      → unmarshal (marshal (t, entries)) ≡ some (t, map saved entries)

use_referrals-saved :
    (written last : ℕ) (l : List (ℕ × Entry))
    → ltb written last ≡ false
    → l ≢ []
    → use_referrals (some last) (some (written, map saved (plain_entries l)))
      ≡ returned true (map saved (plain_entries l)) none
unfolding use_referrals use_unless_updated
use_referrals-saved written last [] old h = absurd (h refl)
use_referrals-saved written last ((p, e) ∷ l) old h = rw old refl

use_internal_json-restarted {ℓ} :
    {A : Type ℓ} (unmarshal : A → Option Referrals) (marshal : Referrals → A) (written last : ℕ)
    (files : _) (c : Cache) (json : JsonFile A)
    → IsJson unmarshal marshal
    → ltb written last ≡ false
    → c.cache_entries ≢ []
    → use_internal_json unmarshal (restarted marshal written last files c json)
      ≡ returned true (map saved (plain_entries c.cache_entries)) none
unfolding use_internal_json create_referrals_file
use_internal_json-restarted unmarshal marshal written last files c json j old some_entry =
    rw (j.reads written (plain_entries c.cache_entries))
      (use_referrals-saved written last c.cache_entries old some_entry)

-- `sync` once `useInternalJson` has decided.
sync-decided {ℓ} :
    {A : Type ℓ} (unmarshal : A → Option Referrals) (marshal : Referrals → A) (now : ℕ) (fault : _)
    (c : Cache) (d : Disk A) (decision : Bool) (entries : _)
    → use_internal_json unmarshal d ≡ returned decision entries none
    → sync unmarshal marshal now fault c d
      ≡ (if decision then sync_json c d entries else sync_user marshal now fault c d d.user_files)
unfolding sync
sync-decided unmarshal marshal now fault c d decision entries h = rw (h, sync) refl

sync_json-ok {ℓ} :
    {A : Type ℓ} (c : Cache) (d : Disk A) (entries : _)
    → let r = sync_entries c [] entries in
      r.2 ≡ none
      → sync_json c d entries
        ≡ record { cache = r.0; json = d.json; announced = r.1; ending = succeeds }
unfolding sync_json
sync_json-ok c d entries h = rw (h, sync_json) refl

sync_json-bad {ℓ} :
    {A : Type ℓ} (c : Cache) (d : Disk A) (entries : _) (e : SyncError)
    → let r = sync_entries c [] entries in
      r.2 ≡ some e
      → sync_json c d entries
        ≡ record { cache = r.0; json = d.json; announced = []; ending = fails e }
unfolding sync_json
sync_json-bad c d entries e h = rw (h, sync_json) refl

-- A consistent cache that has at least one entry was saved, and the user's directory has not been
-- updated since: where all of its entries pass `verify`, a new cache starts without an error, is consistent, has exactly the saved
-- keys, leaves the internal file alone, and announces the pair of every saved key.
pub create_referrals_file-sync {ℓ} :
    {A : Type ℓ} (unmarshal : A → Option Referrals) (marshal : Referrals → A) (written last now : ℕ)
    (fault : _) (files : _) (c : Cache) (json : JsonFile A) (hosts : _)
    → IsJson unmarshal marshal
    → ltb written last ≡ false
    → c.cache_entries ≢ []
    → IsConsistent c
    → All IsValidEntry c.cache_entries
    → let d = restarted marshal written last files c json in
      let r = sync unmarshal marshal now fault (new_cache hosts) d in
      (r.ending ≡ succeeds)
      × IsConsistent r.cache
      × ((k : TKey) → has_key k r.cache.cache_entries ≡ has_key k c.cache_entries)
      × (r.json ≡ d.json)
      × ((k : TKey)
          → has_key k c.cache_entries ≡ true
          → is_empty (pair_of k) ≡ false
          → has_pair (pair_of k) r.announced ≡ true)
unfolding new_cache has_key
create_referrals_file-sync unmarshal marshal written last now fault files c json hosts j old
      some_entry v valid =
    let entries = map saved (plain_entries c.cache_entries) in
    let (l, ok) =
      sync_entries-Loads entries [] (new_cache-IsConsistent hosts)
        (saved-IsGood c.cache_entries v.persistent valid) in
    let d = restarted marshal written last files c json in
    let decided =
      use_internal_json-restarted unmarshal marshal written last files c json j old some_entry in
    rw
      (
        sync-decided unmarshal marshal now fault (new_cache hosts) d true entries decided,
        sync_json-ok (new_cache hosts) d entries ok,
      )
      (
        refl,
        l.consistent,
        λ k. l.keys k ∙ in_file-saved k c.cache_entries,
        refl,
        λ k there named. l.announced k refl (in_file-saved k c.cache_entries ∙ there) named,
      )

sync_entries-bad :
    (entries : List Entry) (pairs : _) (c : Cache)
    → any_bad entries ≡ true
    → (sync_entries c pairs entries).2 ≡ some bad_entry
unfolding sync_entries any_bad
sync_entries-bad [] pairs c h = cc
sync_entries-bad (e ∷ entries) pairs c h =
    let (c', pair, _) = add_entry c e in
    ground (arith, sync_entries-bad entries (append_pair pair pairs) c')

-- Where one saved entry fails `verify`, as one made from a referral can, a new cache does not start:
-- `sync` fails and announces nothing.
pub create_referrals_file-sync_bad {ℓ} :
    {A : Type ℓ} (unmarshal : A → Option Referrals) (marshal : Referrals → A) (written last now : ℕ)
    (fault : _) (files : _) (c : Cache) (json : JsonFile A) (hosts : _)
    → IsJson unmarshal marshal
    → ltb written last ≡ false
    → any_bad (plain_entries c.cache_entries) ≡ true
    → let d = restarted marshal written last files c json in
      let r = sync unmarshal marshal now fault (new_cache hosts) d in
      (r.ending ≡ fails bad_entry) × (r.announced ≡ []) × (r.json ≡ d.json)
create_referrals_file-sync_bad unmarshal marshal written last now fault files c json hosts j old
      bad =
    let entries = map saved (plain_entries c.cache_entries) in
    let d = restarted marshal written last files c json in
    let some_entry = any_bad-nonempty c.cache_entries bad in
    let decided =
      use_internal_json-restarted unmarshal marshal written last files c json j old some_entry in
    let failed =
      sync_entries-bad entries [] (new_cache hosts) (any_bad-saved c.cache_entries ∙ bad) in
    rw
      (
        sync-decided unmarshal marshal now fault (new_cache hosts) d true entries decided,
        sync_json-bad (new_cache hosts) d entries bad_entry failed,
      )
      (refl, refl, refl)

-- Where `useInternalJson` decides for the user's files, `sync` never fails: the cache stays
-- consistent and gains exactly the keys of the files that it could read, each new key has its pair
-- announced, unless the pair is empty, and the internal file holds the new entries.
pub sync-user_files {ℓ} :
    {A : Type ℓ} (unmarshal : A → Option Referrals) (marshal : Referrals → A) (now : ℕ) {c : Cache}
    (d : Disk A) (ignored : _) (files : _)
    → use_internal_json unmarshal d ≡ returned false ignored none
    → d.user_files ≡ some files
    → IsConsistent c
    → let r = sync unmarshal marshal now none c d in
      (r.ending ≡ succeeds)
      × IsConsistent r.cache
      × ((k : TKey)
          → has_key k r.cache.cache_entries ≡ (has_key k c.cache_entries || in_user_files k files))
      × (r.json ≡ regular (marshal (now, plain_entries r.cache.cache_entries)))
      × ((k : TKey)
          → has_key k c.cache_entries ≡ false
          → in_user_files k files ≡ true
          → is_empty (pair_of k) ≡ false
          → has_pair (pair_of k) r.announced ≡ true)
unfolding sync_user create_referrals_file
sync-user_files unmarshal marshal now {c} d ignored files decided listed v =
    let l = sync_files-Loads files [] v in
    rw (sync-decided unmarshal marshal now none c d false ignored decided, listed)
      (refl, l.consistent, l.keys, refl, l.announced)
