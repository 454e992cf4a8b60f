-- ===== src/Nvme/LogPage.antt =====
-- pkg/nvme/discovery.go: the command for a part of the discovery log page, and its execution by the
-- server. A uint32 and a uint64 are numbers that wrap around at `2 ^ 32` and `2 ^ 64`.
pub mod Fields
pub mod Entries
pub mod Pages
use Prim.Native.Nat.{max}
use discovery_client.Prelude.{
  ℕ, zero, suc, ◌+◌, ◌-◌, ◌*◌, ◌/◌, ◌%◌, ◌^◌, String, Bool, true, false, Option, none, some,
  is_some, not, ◌==◌, ℕ_eq, if◌then◌else◌, List, [], ◌∷◌, ◌++◌, ltb,
}
use discovery_client.Nvme.Sgl.{ScatterList, Cursor, new_cursor, write}

-- `GetLogPageCommand`, less the reserved words and the data pointer.
pub record GetLogPageCommand : Type 0 where
  pub opcode : ℕ
  pub flags : ℕ
  pub command_id : ℕ
  pub ns_id : ℕ
  pub lid : ℕ
  pub lsp : ℕ
  pub num_dl : ℕ
  pub num_du : ℕ
  pub lpol : ℕ
  pub lpou : ℕ

-- `nvmeBytesToNumd`.
unfoldable pub nvme_bytes_to_numd : ℕ → ℕ
nvme_bytes_to_numd len = (len / 4 + 2 ^ 32 - 1) % 2 ^ 32

-- `upper32Bits` and `lower32Bits`.
unfoldable pub upper32_bits : ℕ → ℕ
upper32_bits n = n / 2 ^ 16 / 2 ^ 16 % 2 ^ 32

unfoldable pub lower32_bits : ℕ → ℕ
lower32_bits n = n % 2 ^ 32

-- The command of `NewNvmeGetDiscoveryLogPageRequest`.
unfoldable pub new_get_log_page_command : ℕ → ℕ → ℕ → ℕ → GetLogPageCommand
new_get_log_page_command cmdid size offset nsid =
    let dwlen = nvme_bytes_to_numd size in
    record {
      opcode = 0x02;
      flags = 0x40;
      command_id = cmdid;
      ns_id = nsid;
      lid = 0x70;
      lsp = 0x0;
      num_dl = dwlen % 2 ^ 16;
      num_du = dwlen / 2 ^ 16 % 2 ^ 16;
      lpol = lower32_bits offset;
      lpou = upper32_bits offset;
    }

-- `GetLogPageLen`.
unfoldable pub get_log_page_len : GetLogPageCommand → ℕ
get_log_page_len cmd =
    let len = (cmd.num_du * 2 ^ 16 % 2 ^ 32 + cmd.num_dl) % 2 ^ 32 in
    (len + 1) % 2 ^ 32 * 4 % 2 ^ 32

-- `GetLogPageOffset`.
unfoldable pub get_log_page_offset : GetLogPageCommand → ℕ
get_log_page_offset cmd = (cmd.lpou * 2 ^ 32 % 2 ^ 64 + cmd.lpol) % 2 ^ 64

abbrev pub status_success : ℕ
status_success = 0x0

-- `NVME_SC_INTERNAL | NVME_SC_DNR`.
abbrev pub status_internal : ℕ
status_internal = 0x4006

-- The size of an entry, and that of the header.
abbrev pub page_entry_size : ℕ
page_entry_size = 1024

-- What `execute` leaves: the completion's status, the bit that it sets in the controller (if it comes
-- that far), and the data.
pub record Answer : Type 0 where
  pub status : ℕ
  pub rae : Option Bool
  pub sgl_writer : Cursor

-- `retainAsynchronousEvent`: the 15th bit of the command's word 10.
unfoldable pub retain_asynchronous_event : ℕ → Bool
retain_asynchronous_event cdw10 = cdw10 / 2 ^ 15 % 2 == 1

-- `numEntries` of `execute`.
unfoldable pub num_entries : ℕ → ℕ → ℕ
num_entries data_len offset =
    if offset == 0
    then (if ltb page_entry_size data_len
        then (data_len - page_entry_size) / page_entry_size
        else 0)
    else data_len / page_entry_size

-- The offset among the entries: less the header, unless it is 0.
unfoldable pub entry_offset : ℕ → ℕ
entry_offset offset = if ltb 0 offset then (offset + 2 ^ 64 - page_entry_size) % 2 ^ 64 else offset

-- The records of the log page and their bytes, as `struc.Pack` writes them.
module _ {R : Type 0} (pack_header : ℕ → ℕ → List ℕ) (pack_entry : R → List ℕ) where
  -- The loop of `execute` over the entries: whether one of them failed.
  unfoldable pub write_entries : Cursor → List R → Cursor × Bool
  write_entries w [] = (w, false)
  write_entries w (entry ∷ entries) =
      let (w', _, err) = write w (pack_entry entry) in
      let rest = write_entries w' entries in if is_some err then (w', true) else rest

  -- `execute`. `subsystem` is `FillDiscoveryLogPage` of the queue's discovery subsystem, if it has one:
  -- of an offset, a number of entries and a host, it gives entries, the number of all of them, and the
  -- generation counter.
  unfoldable pub execute :
      Option (ℕ → ℕ → String → List R × ℕ × ℕ)
      → GetLogPageCommand
      → ℕ
      → String
      → ScatterList
      → Answer
  execute none cmd cdw10 host_nqn buffer = record {
    status = status_internal;
    rae = none;
    sgl_writer = new_cursor buffer;
  }
  execute (some fill_discovery_log_page) cmd cdw10 host_nqn buffer =
      let data_len = max (get_log_page_len cmd) page_entry_size in
      let n = num_entries data_len (get_log_page_offset cmd) in
      let offset = entry_offset (get_log_page_offset cmd) in
      let (entries, num_rec, gen_counter) = fill_discovery_log_page offset n host_nqn in
      let writer =
        if offset == 0
        then (write (new_cursor buffer) (pack_header gen_counter num_rec)).0
        else new_cursor buffer in
      let (writer', failed) = write_entries writer entries in
      record {
        status = if failed then status_internal else status_success;
        rae = some (retain_asynchronous_event cdw10);
        sgl_writer = writer';
      }
