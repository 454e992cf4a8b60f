-- ===== src/NvmeClient.antt =====
-- pkg/nvmeclient/nvme_client.go: the options of a connection, which are written to the kernel or to a
-- log, and the command that reads a log.
pub mod Options
pub mod GetLog
pub mod Discover
pub mod Connect
use discovery_client.Prelude.{
  ℕ, ◌+◌, ◌-◌, ◌*◌, ◌/◌, ◌%◌, ◌^◌, String, Bool, true, false, not, ◌&&◌, ◌==◌, String_eq,
  if◌then◌else◌, List, [], ◌∷◌, ◌++◌,
}
use discovery_client.Prelude.Int.{ℤ, pos, negsuc, ltb_ℤ}

-- `ConnectRequest`.
pub record ConnectRequest : Type 0 where
  pub transport : String
  pub traddr : String
  pub trsvcid : ℤ
  pub hostnqn : String
  pub hostaddr : String
  pub subsysnqn : String
  pub ctrl_loss_tmo : ℤ
  pub max_io_queues : ℤ
  pub hostid : String
  pub kato : ℤ
  pub dh_chap_secret : String
  pub dh_chap_controller_secret : String

-- The value of an option; the options are printed as `key=value`, with commas between them.
pub data Value : Type 0 where
  text : String → Value
  number : ℤ → Value

abbrev pub Options : Type 0
Options = List (String × Value)

-- An option that is written on a condition.
abbrev pub when : Bool → String → Value → Options
when b key value = if b then (key, value) ∷ [] else []

abbrev pub text_option : String → String → Options
text_option key s = when (not (s == "")) key (text s)

abbrev pub number_option : String → ℤ → Options
number_option key n = when (ltb_ℤ (pos 0) n) key (number n)

-- `ToOptions`.
unfoldable pub to_options : ConnectRequest → Options
to_options c =
    (("nqn", text c.subsysnqn) ∷ [])
    ++ (text_option "transport" c.transport
        ++ (text_option "traddr" c.traddr
            ++ (number_option "trsvcid" c.trsvcid
                ++ (text_option "hostnqn" c.hostnqn
                    ++ (text_option "host_traddr" c.hostaddr
                        ++ (when (not (ltb_ℤ c.ctrl_loss_tmo (negsuc 0))) "ctrl_loss_tmo"
                              (number c.ctrl_loss_tmo)
                            ++ (number_option "nr_io_queues" c.max_io_queues
                                ++ (text_option "hostid" c.hostid
                                    ++ (number_option "keep_alive_tmo" c.kato
                                        ++ (text_option "dhchap_secret" c.dh_chap_secret
                                            ++ when
                                                (not (c.dh_chap_secret == "")
                                                  && not (c.dh_chap_controller_secret == ""))
                                                "dhchap_ctrl_secret"
                                                (text c.dh_chap_controller_secret)))))))))))

-- `String`.
unfoldable pub to_string : ConnectRequest → Options
to_string c =
    (("nqn", text c.subsysnqn) ∷ [])
    ++ (text_option "transport" c.transport
        ++ (text_option "traddr" c.traddr
            ++ (number_option "trsvcid" c.trsvcid
                ++ (text_option "hostnqn" c.hostnqn
                    ++ (text_option "host_traddr" c.hostaddr
                        ++ (when (not (ltb_ℤ c.ctrl_loss_tmo (negsuc 0))) "ctrl_loss_tmo"
                              (number c.ctrl_loss_tmo)
                            ++ (number_option "nr_io_queues" c.max_io_queues
                                ++ (text_option "hostid" c.hostid
                                    ++ (number_option "keep_alive_tmo" c.kato
                                        ++ (when (not (c.dh_chap_secret == "")) "dhchap_secret"
                                              (text "redacted")
                                            ++ when
                                                (not (c.dh_chap_secret == "")
                                                  && not (c.dh_chap_controller_secret == ""))
                                                "dhchap_ctrl_secret" (text "redacted")))))))))))

-- The words of the command that `nvmeGetLog` makes.
pub record AdminCommand : Type 0 where
  pub nsid : ℕ
  pub data_len : ℕ
  pub cdw10 : ℕ
  pub cdw11 : ℕ
  pub cdw12 : ℕ
  pub cdw13 : ℕ

-- `nvmeGetLog`, for a buffer of `len` bytes: the parts of word 10 have no bit in common, for a log id
-- and an lsp of 8 bits, and an lsp below 128 if the event is retained.
unfoldable pub get_log_command : ℕ → ℕ → ℕ → ℕ → ℕ → Bool → ℕ → AdminCommand
get_log_command nsid log_id lsp lpo lsi rae len =
    let numd = (len / 4 % 2 ^ 32 + 2 ^ 32 - 1) % 2 ^ 32 in
    let numdu = numd / 2 ^ 16 % 2 ^ 16 in
    let numdl = numd % 2 ^ 16 in
    record {
      nsid = nsid;
      data_len = len % 2 ^ 32;
      cdw10 = log_id + numdl * 2 ^ 16 + (if rae then 2 ^ 15 else 0) + lsp * 2 ^ 8;
      cdw11 = numdu + lsi * 2 ^ 16;
      cdw12 = lpo % 2 ^ 32;
      cdw13 = lpo / 2 ^ 32 % 2 ^ 32;
    }
