-- ===== src/ClientConfig/Referrals.antt =====
-- pkg/clientconfig/cache.go: `HandleReferrals`.
use discovery_client.Prelude.{
  ℕ, String, true, Option, none, some, ◌&&◌, ◌==◌, not, String_eq, ℕ_eq, is_some, Eq, ℕ_discrete,
  String_discrete, if◌then◌else◌, List, [], ◌∷◌, ◌++◌,
}
use discovery_client.Prelude.Int.{pos}
use discovery_client.HostApi.{NvmeDiscPageEntry}
use discovery_client.ClientConfig.Entry.{Entry, referral}
use discovery_client.ClientConfig.Connections.{
  ClientClusterPair, ClientClusterPair_eq, empty_pair, is_empty,
}
use discovery_client.ClientConfig.Cache.{
  Cache, CacheError, different_pairs, empty_referrals, exist_entry, add_entry, delete_entry,
}

-- `ReferralKey`; a `ReferralMap` is a list in the order in which a loop visits the Go map.
pub record ReferralKey : Type 0 where
  pub ip : String
  pub port : ℕ
  pub dp_sub_nqn : String
  pub hostnqn : String

unfoldable pub ReferralKey_discrete : Discrete ReferralKey
ReferralKey_discrete = hlevel (ℕ_discrete, String_discrete)

instance abbrev pub ReferralKey_eq : Eq ReferralKey
ReferralKey_eq = record { eq_dec = ReferralKey_discrete }

abbrev pub ReferralMap : Type 0
ReferralMap = List (ReferralKey × NvmeDiscPageEntry)

-- `getEntryFromReferral`.
unfoldable pub get_entry_from_referral : ReferralKey → NvmeDiscPageEntry → Entry
get_entry_from_referral ref_key entry = record {
  transport = "tcp";
  trsvcid = pos entry.trsvc_id;
  traddr = entry.traddr;
  hostnqn = ref_key.hostnqn;
  hostid = "";
  subsysnqn = ref_key.dp_sub_nqn;
  persistent = true;
  hostaddr = "";
  entry_source = referral;
  ctrl_loss_tmo = none;
  effective_hostid = "";
}

-- The body of the loop of `addConnectionsFromReferrals`: an error skips the referral.
unfoldable pub add_connections_from_referrals :
    Cache → ReferralMap → List ClientClusterPair → Cache × List ClientClusterPair
add_connections_from_referrals c [] pairs = (c, pairs)
add_connections_from_referrals c ((k, r) ∷ referrals) pairs =
    let (c', pair, err) = add_entry c (get_entry_from_referral k r) in
    add_connections_from_referrals c' referrals
      (if is_some err then pairs else if is_empty pair then pairs else pairs ++ (pair ∷ []))

abbrev pub pair_of_referral : ReferralKey → ClientClusterPair
pair_of_referral k = record { cluster_nqn = k.dp_sub_nqn; host_nqn = k.hostnqn }

-- The first loop of `removeConnectionsNotInReferrals`: the pair of the last referral, or the error.
unfoldable pub check_pairs :
    ReferralMap → ClientClusterPair → ClientClusterPair → Option ClientClusterPair
check_pairs [] prev current = some current
check_pairs ((k, _) ∷ referrals) prev current =
    let rest = check_pairs referrals (pair_of_referral k) (pair_of_referral k) in
    if not (is_empty prev) && not (prev == pair_of_referral k) then none else rest

-- The entries of the referrals, as `existEntry` reads them (their addresses are not read).
unfoldable pub referral_entries : ReferralMap → List (ℕ × Entry)
referral_entries [] = []
referral_entries ((k, r) ∷ referrals) =
    (0, get_entry_from_referral k r) ∷ referral_entries referrals

-- The second loop: the pointers of the entries to remove.
unfoldable pub entries_to_remove : List (ℕ × Entry) → List (ℕ × Entry) → ClientClusterPair → List ℕ
entries_to_remove [] refs current = []
entries_to_remove ((p, e) ∷ entries) refs current =
    let rest = entries_to_remove entries refs current in
    if not (exist_entry e refs)
      && (e.hostnqn == current.host_nqn && e.subsysnqn == current.cluster_nqn)
    then p ∷ rest
    else rest

-- The third loop: a changed pair for each entry that was deleted.
unfoldable pub delete_entries :
    Cache → List ℕ → List ClientClusterPair → Cache × List ClientClusterPair
delete_entries c [] pairs = (c, pairs)
delete_entries c (p ∷ ps) pairs =
    let (c', pair, err) = delete_entry c p in
    delete_entries c' ps (if is_empty pair then pairs else pairs ++ (pair ∷ []))

-- `removeConnectionsNotInReferrals`.
unfoldable pub remove_connections_not_in_referrals :
    Cache → ReferralMap → Cache × List ClientClusterPair × Option CacheError
remove_connections_not_in_referrals c referrals =
    elim (check_pairs referrals empty_pair empty_pair) [
      | none ↦ (c, [], some different_pairs)
      | some current ↦
          let (c', pairs) =
            delete_entries c
              (entries_to_remove c.cache_entries (referral_entries referrals) current) [] in
          (c', pairs, none)
    ]

-- What `HandleReferrals` does besides: it rewrites the referrals file, and starts `notifyChange`.
pub record Outcome : Type 0 where
  pub cache : Cache
  pub referrals_file : Option (List (ℕ × Entry))
  pub notify : Option (List ClientClusterPair)
  pub error : Option CacheError

-- `HandleReferrals`. The Go map is visited twice, each time in an order of its own: `first` and
-- `second` are the two orders. An error of the first loop is logged and dropped.
unfoldable pub handle_referrals : Cache → ReferralMap → ReferralMap → Outcome
handle_referrals c [] second = record {
  cache = c;
  referrals_file = none;
  notify = none;
  error = some empty_referrals;
}
handle_referrals c (r ∷ first) second =
    let (added, new_pairs) = add_connections_from_referrals c (r ∷ first) [] in
    let (final, removed_pairs, err) = remove_connections_not_in_referrals added second in
    elim (new_pairs ++ removed_pairs) [
      | [] ↦ record { cache = final; referrals_file = none; notify = none; error = err }
      | p ∷ ps ↦ record {
        cache = final;
        referrals_file = some final.cache_entries;
        notify = some (p ∷ ps);
        error = err;
      }
    ]
