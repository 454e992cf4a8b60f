-- ===== src/Tests/Data.antt =====
-- The inputs of the tests: two servers of one cluster, as a configuration file and as referrals.
use discovery_client.Prelude.{String, true, none, [], ◌∷◌, refl}
use discovery_client.Prelude.Int.{pos}
use discovery_client.HostApi.{NvmeDiscPageEntry, nvme_nqn_disc}
use discovery_client.ClientConfig.Entry.{Entry, user}
use discovery_client.ClientConfig.Connections.{ClientClusterPair}
use discovery_client.ClientConfig.Cache.{Cache, add_entry, new_cache}
use discovery_client.ClientConfig.Referrals.{ReferralKey}
use discovery_client.ClientConfig.Cache.Consistency.{IsConsistent}
use discovery_client.ClientConfig.Cache.Entries.{add_entry-IsConsistent}
use discovery_client.ClientConfig.Cache.Files.{new_cache-IsConsistent}

abbrev pub entry_at : String → Entry
entry_at ip = record {
  transport = "tcp";
  trsvcid = pos 8009;
  traddr = ip;
  hostnqn = "host";
  hostid = "";
  subsysnqn = "cluster";
  persistent = true;
  hostaddr = "";
  entry_source = user;
  ctrl_loss_tmo = none;
  effective_hostid = "";
}

abbrev referral_key_at : String → ReferralKey
referral_key_at ip = record { ip = ip; port = 8009; dp_sub_nqn = "cluster"; hostnqn = "host" }

abbrev pub referral_at : String → NvmeDiscPageEntry
referral_at ip = record {
  port_id = 0;
  cntl_id = 0;
  trsvc_id = 8009;
  subnqn = "cluster";
  traddr = ip;
  sub_type = nvme_nqn_disc;
}

abbrev pub ref_at : String → ReferralKey × NvmeDiscPageEntry
ref_at ip = (referral_key_at ip, referral_at ip)

abbrev pub our_pair : ClientClusterPair
our_pair = record { cluster_nqn = "cluster"; host_nqn = "host" }

abbrev pub no_entries : Cache
no_entries = new_cache (("host", "id") ∷ [])

abbrev pub one_entry : Cache
one_entry = (add_entry no_entries (entry_at "10.0.0.1")).0

pub no_entries-IsConsistent : IsConsistent no_entries
no_entries-IsConsistent = new_cache-IsConsistent (("host", "id") ∷ [])

pub one_entry-IsConsistent : IsConsistent one_entry
one_entry-IsConsistent =
    (add_entry-IsConsistent (entry_at "10.0.0.1") no_entries-IsConsistent refl).0
