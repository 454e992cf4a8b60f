-- ===== src/Tests/Startup.antt =====
-- The start of the cache (pkg/clientconfig/cache.go) on concrete inputs: what was saved, and files.
use discovery_client.Prelude.{
  true, false, none, some, ℕ_eq, [], ◌∷◌, ◌≡◌, refl, map, ℕ_discrete, String_discrete,
  Bool_discrete, Bool-cases, Option, List,
}
use discovery_client.Prelude.Int.{ℤ_discrete}
use discovery_client.Prelude.Maps.{lookup, insert, delete}
use discovery_client.ClientConfig.Entry.{compare, is_user, is_referral, verify}
use discovery_client.ClientConfig.Connections.{
  TKey, TKey_eq, TKey_discrete, ClientClusterPair_eq, ClientClusterPair_discrete, find, pair_of,
  is_empty, cluster, add_connection, delete_connection,
}
use discovery_client.ClientConfig.Cache.{
  Cache, add_entry, delete_entry, exist_entry, inherit_tmo, first_user_tmo, get_host_id,
  maybe_update_host_ids, remove_pointer, new_cache,
}
use discovery_client.ClientConfig.Referrals.{
  ReferralMap, handle_referrals, get_entry_from_referral, add_connections_from_referrals,
  check_pairs, referral_entries, entries_to_remove, delete_entries,
  remove_connections_not_in_referrals,
}
use discovery_client.ClientConfig.Cache.Consistency.{IsConsistent, has_key}
use discovery_client.ClientConfig.Cache.Message.{has_pair}
use discovery_client.ClientConfig.Startup.{
  Disk, Referrals, UserFile, not_exist, fails, succeeds, bad_entry, sync, use_internal_json,
}
use discovery_client.ClientConfig.Startup.Restart.{
  IsJson, saved, restarted, any_bad, create_referrals_file-sync, create_referrals_file-sync_bad,
}
use discovery_client.Tests.Data.{entry_at, ref_at, no_entries, one_entry, one_entry-IsConsistent}

program : Unit {0}
unfolding ℕ_discrete String_discrete Bool_discrete ℤ_discrete TKey_discrete
    ClientClusterPair_discrete Bool-cases lookup insert delete compare is_user is_referral find
    is_empty cluster add_connection delete_connection add_entry delete_entry exist_entry inherit_tmo
    first_user_tmo get_host_id maybe_update_host_ids remove_pointer new_cache handle_referrals
    get_entry_from_referral add_connections_from_referrals check_pairs referral_entries
    entries_to_remove delete_entries remove_connections_not_in_referrals verify has_key any_bad
    use_internal_json
program = tt

-- A JSON package whose texts are the values, less the fields that are not printed.
abbrev printed : Referrals → Referrals
printed r = r

abbrev parsed : Referrals → Option Referrals
parsed (t, entries) = some (t, map saved entries)

printed-IsJson : IsJson parsed printed
printed-IsJson = record { reads = λ t entries. refl }

create_referrals_file-sync_example :
    let d = restarted printed 20 10 none one_entry not_exist in
    let r = sync parsed printed 30 none no_entries d in
    (r.ending ≡ succeeds)
    × IsConsistent r.cache
    × ((k : TKey) → has_key k r.cache.cache_entries ≡ has_key k one_entry.cache_entries)
    × (r.json ≡ d.json)
    × ((k : TKey)
        → has_key k one_entry.cache_entries ≡ true
        → is_empty (pair_of k) ≡ false
        → has_pair (pair_of k) r.announced ≡ true)
unfolding program
create_referrals_file-sync_example =
    create_referrals_file-sync parsed printed 20 10 30 none none one_entry not_exist
      (("host", "id") ∷ []) printed-IsJson refl (λ h. cc) one_entry-IsConsistent (refl, tt)

-- A server whose log page has an entry with a port that is not a number, which the host reads as 0.
abbrev bad_referral : ReferralMap
bad_referral = ((ref_at "10.0.0.2").0, record (ref_at "10.0.0.2").1 { trsvc_id = 0 }) ∷ []

abbrev bad_cache : Cache
bad_cache = (handle_referrals one_entry bad_referral bad_referral).cache

create_referrals_file-sync_bad_example :
    let d = restarted printed 20 10 none bad_cache not_exist in
    let r = sync parsed printed 30 none no_entries d in
    (r.ending ≡ fails bad_entry) × (r.announced ≡ []) × (r.json ≡ d.json)
unfolding program
create_referrals_file-sync_bad_example =
    create_referrals_file-sync_bad parsed printed 20 10 30 none none bad_cache not_exist
      (("host", "id") ∷ []) printed-IsJson refl refl

abbrev files : List UserFile
files =
    record { is_dir = true; parsed = none }
    ∷ record { is_dir = false; parsed = none }
    ∷ record { is_dir = false; parsed = some (entry_at "10.0.0.2" ∷ []) }
    ∷ []

abbrev fresh : Disk Referrals
fresh = record { json = not_exist; user_update = some 10; user_files = some files }
