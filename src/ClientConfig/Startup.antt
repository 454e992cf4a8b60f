-- ===== src/ClientConfig/Startup.antt =====
-- pkg/clientconfig/cache.go: `createReferralsFile`, `useInternalJson` and `sync`, by which the cache
-- starts from the file that an earlier run left or from the user's files.
pub mod Loading
pub mod Restart
use discovery_client.Prelude.{
  ℕ, Bool, true, false, Option, none, some, ltb, ◌==◌, ℕ_eq, is_some, if◌then◌else◌, List, [], ◌∷◌,
  ◌++◌,
}
use discovery_client.ClientConfig.Entry.{Entry, verify}
use discovery_client.ClientConfig.Connections.{ClientClusterPair, is_empty}
use discovery_client.ClientConfig.Cache.{Cache, CacheError, add_entry}
use discovery_client.ClientConfig.Notification.{file_added}

-- What `os.Stat` and `os.ReadFile` find at the path of the internal file. A file that cannot be read
-- has no bytes, so it is an `empty_file`; `A` is the type of the texts that are not empty.
pub data JsonFile {ℓ} (A : Type ℓ) : Type ℓ where
  not_exist stat_failed is_directory empty_file : JsonFile A
  regular : A → JsonFile A

-- The step of `createReferralsFile` that fails.
pub data WriteFault : Type 0 where
  marshal_indent create_temp write_temp sync_temp chmod_temp close_temp rename_temp : WriteFault

-- A file of the user's directory: `parsed` is what `parse` makes of it, `none` for an error.
pub record UserFile : Type 0 where
  pub is_dir : Bool
  pub parsed : Option (List Entry)

-- The files; `none` stands for the error of `lastUpdate`, and for that of `os.ReadDir`. Times are
-- counted in nanoseconds.
pub record Disk {ℓ} (A : Type ℓ) : Type ℓ where
  pub json : JsonFile A
  pub user_update : Option ℕ
  pub user_files : Option (List UserFile)

pub data SyncError : Type 0 where
  bad_json no_update_time bad_entry no_user_files : SyncError

-- What `useInternalJson` returns; it panics where it asks a nil `FileInfo` for its mode.
pub data JsonUse : Type 0 where
  panicked : JsonUse
  returned : Bool → List Entry → Option SyncError → JsonUse

-- The loop of `createReferralsFile`: the entries without their pointers.
abbrev pub plain_entries : List (ℕ × Entry) → List Entry
plain_entries [] = []
plain_entries ((_, e) ∷ entries) = e ∷ plain_entries entries

-- What `json.Unmarshal` makes of the bytes: `referrals`, a time and entries.
abbrev pub Referrals : Type 0
Referrals = ℕ × List Entry

-- The test of the times in `useInternalJson`: `lastUserUpdateTime.After(referralJsonCreationTime)`.
unfoldable pub use_unless_updated : Option ℕ → Referrals → JsonUse
use_unless_updated none refs = returned false [] (some no_update_time)
use_unless_updated (some last) (created, entries) =
    if ltb created last then returned false entries none else returned true entries none

unfoldable pub use_referrals : Option ℕ → Option Referrals → JsonUse
use_referrals user_update none = returned false [] (some bad_json)
use_referrals user_update (some (created, [])) = returned false [] none
use_referrals user_update (some (created, e ∷ entries)) =
    use_unless_updated user_update (created, e ∷ entries)

-- `useInternalJson`.
unfoldable pub use_internal_json {ℓ} : {A : Type ℓ} → (A → Option Referrals) → Disk A → JsonUse
use_internal_json unmarshal d = elim d.json [
  | not_exist ↦ returned false [] none
  | stat_failed ↦ panicked
  | is_directory ↦ returned false [] none
  | empty_file ↦ returned false [] none
  | regular content ↦ use_referrals d.user_update (unmarshal content)
]

-- `createReferralsFile`: the file afterwards, and the error.
unfoldable pub create_referrals_file {ℓ} :
    {A : Type ℓ}
    → (Referrals → A)
    → ℕ
    → Option WriteFault
    → Cache
    → JsonFile A
    → JsonFile A × Option WriteFault
create_referrals_file marshal now none c json =
    (regular (marshal (now, plain_entries c.cache_entries)), none)
create_referrals_file marshal now (some fault) c json = (json, some fault)

-- `append(changedPairs, pair)`, unless the pair is empty.
abbrev pub append_pair : ClientClusterPair → List ClientClusterPair → List ClientClusterPair
append_pair pair pairs = if is_empty pair then pairs else pairs ++ (pair ∷ [])

-- The loop of `sync` over the entries of the internal file.
unfoldable pub sync_entries :
    Cache → List ClientClusterPair → List Entry → Cache × List ClientClusterPair × Option SyncError
sync_entries c pairs [] = (c, pairs, none)
sync_entries c pairs (e ∷ entries) =
    let (c', pair, _) = add_entry c e in
    let rest = sync_entries c' (append_pair pair pairs) entries in
    if is_some (verify e) then (c, pairs, some bad_entry) else rest

-- `fileAdded` on a file of the directory; `sync` ignores its error.
unfoldable pub load_file : Cache → UserFile → Cache × List ClientClusterPair
load_file c f = if f.is_dir then (c, []) else elim f.parsed [
  | none ↦ (c, [])
  | some entries ↦ let (c', pairs, _) = file_added c entries in (c', pairs)
]

-- The loop of `sync` over the files of the user's directory.
unfoldable pub sync_files :
    Cache → List ClientClusterPair → List UserFile → Cache × List ClientClusterPair
sync_files c pairs [] = (c, pairs)
sync_files c pairs (f ∷ files) =
    let (c', more) = load_file c f in sync_files c' (pairs ++ more) files

-- What `sync` leaves: the cache, the internal file, the pairs that its goroutine announces, and
-- how it ends.
pub data Ending : Type 0 where
  crashes succeeds : Ending
  fails : SyncError → Ending

pub record Synced {ℓ} (A : Type ℓ) : Type ℓ where
  pub cache : Cache
  pub json : JsonFile A
  pub announced : List ClientClusterPair
  pub ending : Ending

-- An error of `sync` returns before the goroutine starts.
unfoldable pub sync_json {ℓ} : {A : Type ℓ} → Cache → Disk A → List Entry → Synced A
sync_json c d entries =
    let (c', pairs, err) = sync_entries c [] entries in
    elim err [
      | none ↦ record { cache = c'; json = d.json; announced = pairs; ending = succeeds }
      | some e ↦ record { cache = c'; json = d.json; announced = []; ending = fails e }
    ]

unfoldable pub sync_user {ℓ} :
    {A : Type ℓ}
    → (Referrals → A)
    → ℕ
    → Option WriteFault
    → Cache
    → Disk A
    → Option (List UserFile)
    → Synced A
sync_user marshal now fault c d none = record {
  cache = c;
  json = d.json;
  announced = [];
  ending = fails no_user_files;
}
sync_user marshal now fault c d (some files) =
    let (c', pairs) = sync_files c [] files in
    record {
      cache = c';
      json = (create_referrals_file marshal now fault c' d.json).0;
      announced = pairs;
      ending = succeeds;
    }

-- `sync`.
unfoldable pub sync {ℓ} :
    {A : Type ℓ}
    → (A → Option Referrals)
    → (Referrals → A)
    → ℕ
    → Option WriteFault
    → Cache
    → Disk A
    → Synced A
sync unmarshal marshal now fault c d = elim (use_internal_json unmarshal d) [
  | panicked ↦ record { cache = c; json = d.json; announced = []; ending = crashes }
  | returned use_json entries err ↦
      if is_some err
      then record {
        cache = c;
        json = d.json;
        announced = [];
        ending = elim err [ none ↦ succeeds | some e ↦ fails e ];
      }
      else if use_json
      then sync_json c d entries
      else sync_user marshal now fault c d d.user_files
]
