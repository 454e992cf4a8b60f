-- ===== src/HostApi.antt =====
-- pkg/hostapi/host_api.go: what the host tells of a discovery log page.
use discovery_client.Prelude.{ℕ, String}
use discovery_client.Prelude.Int.{ℤ}

-- `NvmeDiscPageEntry`; the numbers are a uint16, and a uint8 for the type.
pub record NvmeDiscPageEntry : Type 0 where
  pub port_id : ℕ
  pub cntl_id : ℕ
  pub trsvc_id : ℕ
  pub subnqn : String
  pub traddr : String
  pub sub_type : ℕ

-- `NVME_NQN_DISC` and `NVME_NQN_NVME` of pkg/nvme/linux/nvme.h.
abbrev pub nvme_nqn_disc : ℕ
nvme_nqn_disc = 1

abbrev pub nvme_nqn_nvme : ℕ
nvme_nqn_nvme = 2

-- `DiscoverRequest`, less the channel for events: the keep-alive time is in seconds, 0 for a connection
-- that does not persist.
pub record DiscoverRequest : Type 0 where
  pub transport : String
  pub traddr : String
  pub trsvcid : ℤ
  pub hostnqn : String
  pub hostaddr : String
  pub kato : ℕ
  pub hostid : String

-- The error of `Discover`: a status of pkg/nvmeclient, or another error.
pub data DiscoverError : Type 0 where
  nvme_client_error : ℕ → DiscoverError
  other_error : DiscoverError
