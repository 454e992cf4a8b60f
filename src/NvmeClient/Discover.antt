-- ===== src/NvmeClient/Discover.antt =====
-- pkg/nvmeclient/nvme_client.go: the discovery of a server's log page. The kernel, with its devices, is
-- a parameter, over a state of its own; so are the packages net, strconv and strings.
pub mod Stable
use discovery_client.Prelude.{
  ℕ, zero, suc, ◌-◌, ◌%◌, ◌^◌, String, Bool, true, false, Option, none, some, not, ◌&&◌, ◌==◌, ℕ_eq,
  String_eq, if◌then◌else◌, List, [], ◌∷◌, ◌++◌, ltb,
}
use discovery_client.Prelude.Int.{ℤ, pos, negsuc, ltb_ℤ}
use discovery_client.HostApi.{NvmeDiscPageEntry, DiscoverRequest}
use discovery_client.NvmeClient.{Options, text, number, text_option, number_option}

-- `nvmefDiscRspPageHdr`, and `nvmefDiscRspPageEntry` with its texts as they are padded.
pub record PageHeader : Type 0 where
  pub gen_ctr : ℕ
  pub num_rec : ℕ

pub record PageEntry : Type 0 where
  pub sub_type : ℕ
  pub port_id : ℕ
  pub cntl_id : ℕ
  pub trsvc_id : String
  pub subnqn : String
  pub traddr : String

-- An `NvmeClientError` with its status, or another error.
pub data ClientError : Type 0 where
  nvme_client_error : ℕ → ClientError
  unpack_failed : ClientError

pub data Result (A : Type 0) : Type 0 where
  ok : A → Result A
  failed : ClientError → Result A

-- The loop of `nvmfDiscoveryGetLogPage` over the entries in the buffer.
unfoldable pub unpack_entries : ℕ → List PageEntry → Option (List PageEntry)
unpack_entries zero buffer = some []
unpack_entries (suc n) [] = none
unpack_entries (suc n) (e ∷ buffer) = elim (unpack_entries n buffer) [
  | none ↦ none
  | some es ↦ some (e ∷ es)
]

-- Its checks of the header that is read last.
unfoldable pub check_header : PageHeader → PageHeader → List PageEntry → Result (List PageEntry)
check_header read current res =
    if not (read.gen_ctr == current.gen_ctr)
    then failed (nvme_client_error 5)
    else if not (read.num_rec == current.num_rec)
    then failed (nvme_client_error 6)
    else ok res

-- `ToOptions` of a discovery request.
unfoldable pub discover_options : DiscoverRequest → Options
discover_options c =
    (("nqn", text "nqn.2014-08.org.nvmexpress.discovery") ∷ [])
    ++ (text_option "transport" c.transport
        ++ (text_option "traddr" c.traddr
            ++ (number_option "trsvcid" c.trsvcid
                ++ (text_option "hostnqn" c.hostnqn
                    ++ (text_option "host_traddr" c.hostaddr
                        ++ (number_option "keep_alive_tmo" (pos c.kato)
                            ++ text_option "hostid" c.hostid))))))

-- `uint16` of an int64.
abbrev pub uint16_of : ℤ → ℕ
uint16_of (pos n) = n % 2 ^ 16
uint16_of (negsuc n) = 2 ^ 16 - 1 - n % 2 ^ 16

-- The kernel: open a device, read the header of a controller's log, read the log for a number of
-- entries (the header and what the buffer holds), make a controller, remove it.
pub record Kernel (W : Type 0) : Type 0 where
  pub can_open : W → ℕ → Bool
  pub read_header : W → ℕ → W × Option PageHeader
  pub read_log : W → ℕ → ℕ → W × Option (PageHeader × List PageEntry)
  pub add_ctrl : W → Options → W × Option ℕ
  pub remove_ctrl : W → ℕ → W
  pub adjust_traddr : String → Option String
  pub get_or_create_hostid : Option String
  pub parse_int : String → Option ℤ
  pub trim_zeros : String → String

module _ {W : Type 0} (kernel : Kernel W) where
  -- The loop of `Discover` over the entries: one whose port is no number is skipped.
  unfoldable pub convert : List PageEntry → List NvmeDiscPageEntry
  convert [] = []
  convert (e ∷ es) =
      let rest = convert es in
      elim (kernel.parse_int (kernel.trim_zeros e.trsvc_id)) [
        | none ↦ rest
        | some port ↦
            record {
              port_id = e.port_id;
              cntl_id = e.cntl_id;
              trsvc_id = uint16_of port;
              subnqn = kernel.trim_zeros e.subnqn;
              traddr = kernel.trim_zeros e.traddr;
              sub_type = e.sub_type;
            }
            ∷ rest
      ]

  -- `nvmfDiscoveryGetLogPage`, for a controller's instance.
  unfoldable pub discovery_get_log_page : W → ℕ → W × Result (List PageEntry)
  discovery_get_log_page w ctrl =
      if not (kernel.can_open w ctrl)
      then (w, failed (nvme_client_error 7))
      else let (w₁, header) = kernel.read_header w ctrl in
        elim header [
          | none ↦ (w₁, failed (nvme_client_error 4))
          | some h ↦
              let (w₂, log) = kernel.read_log w₁ ctrl h.num_rec in
              let read_again : PageHeader → List PageEntry → W × Result (List PageEntry) =
                λ read res.
                  let (w₃, current) = kernel.read_header w₂ ctrl in
                  elim current [
                    | none ↦ (w₃, failed (nvme_client_error 4))
                    | some now ↦ (w₃, check_header read now res)
                  ] in
              let unpacked : W × Result (List PageEntry) = elim log [
                | none ↦ (w₂, failed (nvme_client_error 4))
                | some (read, buffer) ↦ elim (unpack_entries read.num_rec buffer) [
                  | none ↦ (w₂, failed unpack_failed)
                  | some res ↦ read_again read res
                ]
              ] in
              if h.num_rec == 0 then (w₁, failed (nvme_client_error 2)) else unpacked
        ]

  abbrev converted : Result (List PageEntry) → Result (List NvmeDiscPageEntry)
  converted (ok es) = ok (convert es)
  converted (failed e) = failed e

  -- `Discover`: a controller that does not persist is removed at the end.
  unfoldable pub discover : W → DiscoverRequest → W × Result (List NvmeDiscPageEntry)
  discover w request = elim (kernel.adjust_traddr request.traddr) [
    | none ↦ (w, failed (nvme_client_error 8))
    | some traddr ↦
        let hostid : Option String =
          if request.hostid == "" then kernel.get_or_create_hostid else some request.hostid in
        elim hostid [
          | none ↦ (w, failed (nvme_client_error 8))
          | some id ↦
              let (w₁, ctrl) =
                kernel.add_ctrl w
                  (discover_options (record request { traddr = traddr; hostid = id })) in
              elim ctrl [
                | none ↦ (w₁, failed (nvme_client_error 7))
                | some instance_id ↦
                    let (w₂, log) = discovery_get_log_page w₁ instance_id in
                    (
                      if request.kato == 0 then kernel.remove_ctrl w₂ instance_id else w₂,
                      converted log,
                    )
              ]
        ]
  ]
