-- ===== src/NvmeClient/GetLog.antt =====
-- The command by which the client reads a log (pkg/nvmeclient/nvme_client.go), as a server reads it
-- (pkg/nvme/discovery.go).
use discovery_client.Prelude.{ℕ, ◌*◌, ◌/◌, ◌%◌, ◌^◌, ◌<◌, Bool, true, false, ◌≡◌, arith}
use discovery_client.NvmeClient.{AdminCommand, get_log_command}
use discovery_client.Nvme.LogPage.{
  GetLogPageCommand, get_log_page_len, get_log_page_offset, retain_asynchronous_event,
}

-- The command as it arrives: the fields are parts of the words.
abbrev pub received : AdminCommand → GetLogPageCommand
received c = record {
  opcode = 0x02;
  flags = 0;
  command_id = 0;
  ns_id = c.nsid;
  lid = c.cdw10 % 2 ^ 8;
  lsp = c.cdw10 / 2 ^ 8 % 2 ^ 8;
  num_dl = c.cdw10 / 2 ^ 16 % 2 ^ 16;
  num_du = c.cdw11 % 2 ^ 16;
  lpol = c.cdw12;
  lpou = c.cdw13;
}

-- A server reads from the client's command the log's id, the offset, the length in whole words, and the
-- bit that retains events; the event is retained only if asked for, for an lsp below 128.
pub received-get_log_command :
    (nsid log_id lsp lpo lsi len : ℕ) (rae : Bool)
    → log_id < 2 ^ 8
    → lsp < 2 ^ 7
    → lpo < 2 ^ 64
    → len < 2 ^ 32
    → let c = get_log_command nsid log_id lsp lpo lsi rae len in
      ((received c).lid ≡ log_id)
      × (get_log_page_offset (received c) ≡ lpo)
      × (get_log_page_len (received c) ≡ len / 4 * 4)
      × (retain_asynchronous_event c.cdw10 ≡ rae)
unfolding get_log_command get_log_page_offset get_log_page_len retain_asynchronous_event
received-get_log_command nsid log_id lsp lpo lsi len true a b c d =
    (omega arith, omega arith, omega arith, ground arith)
received-get_log_command nsid log_id lsp lpo lsi len false a b c d =
    (omega arith, omega arith, omega arith, ground arith)
