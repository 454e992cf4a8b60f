-- ===== src/Nvme/LogPage/Fields.antt =====
-- The fields of the command for a log page (pkg/nvme/discovery.go).
use discovery_client.Prelude.{ℕ, ◌*◌, ◌/◌, ◌^◌, ◌<◌, ◌≡◌, arith}
use discovery_client.Nvme.LogPage.{
  nvme_bytes_to_numd, upper32_bits, lower32_bits, new_get_log_page_command, get_log_page_len,
  get_log_page_offset,
}

-- The server reads the offset that the client put into the command, and the length rounded down to
-- whole words of four bytes; a length of 0 stays 0, though its number of words wraps around.
pub get_log_page-new :
    (cmdid size offset nsid : ℕ)
    → size < 2 ^ 32
    → offset < 2 ^ 64
    → let cmd = new_get_log_page_command cmdid size offset nsid in
      (get_log_page_len cmd ≡ size / 4 * 4) × (get_log_page_offset cmd ≡ offset)
unfolding new_get_log_page_command get_log_page_len get_log_page_offset nvme_bytes_to_numd
    upper32_bits lower32_bits
get_log_page-new cmdid size offset nsid hs ho = (omega arith, omega arith)
