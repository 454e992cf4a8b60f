-- ===== src/NvmeClient/Connect.antt =====
-- pkg/nvmeclient/nvme_client.go: the connections to the I/O subsystems of a log page. The kernel is a
-- parameter, over a state of its own; so are the packages net, strings, fmt and retry.
pub mod Retried
use discovery_client.Prelude.{
  ℕ, zero, suc, String, Bool, true, false, Option, none, some, not, ◌&&◌, ◌==◌, ℕ_eq, String_eq,
  is_some, if◌then◌else◌, List, [], ◌∷◌, ◌⊎◌, inl, inr,
}
use discovery_client.Prelude.Int.{ℤ, pos, negsuc}
use discovery_client.HostApi.{NvmeDiscPageEntry}
use discovery_client.AppConfig.{AppConfig}
use discovery_client.NvmeClient.{ConnectRequest, Options, to_options}

-- How `Connect` ends: with a controller, or an `NvmeClientError` of a status.
pub data Connected : Type 0 where
  controller : ℕ → Connected
  client_error : ℕ → Connected

abbrev pub is_connected : Connected → Bool
is_connected (controller c) = true
is_connected (client_error status) = false

-- `AdjustTraddr` and `GetOrCreateHostID`; `strings.HasSuffix` of a name and a dot before a suffix;
-- `fmt.Sprintf` of a name, a dot and a suffix; `strings.Contains`; `addCtrl`, with the text of its
-- error; and `retry.Do`, for a number of attempts of a function that says whether it went well.
pub record Connector (W : Type 0) : Type 0 where
  pub adjust_traddr : String → Option String
  pub get_or_create_hostid : Option String
  pub has_suffix : String → String → Bool
  pub add_suffix : String → String → String
  pub contains : String → String → Bool
  pub add_ctrl : W → Options → W × (String ⊎ ℕ)
  pub retry_do :
      ℕ
      → (W × ConnectRequest × Connected → (W × ConnectRequest × Connected) × Bool)
      → W × ConnectRequest × Connected
      → W × ConnectRequest × Connected

module _ {W : Type 0} (k : Connector W) (aux_suffix : String) where
  unfoldable pub subsystem_name : String → String
  subsystem_name name =
      if not (aux_suffix == "") && not (k.has_suffix name aux_suffix)
      then k.add_suffix name aux_suffix
      else name

  unfoldable pub answer_of : String ⊎ ℕ → Connected
  answer_of (inl text) =
      if k.contains text "operation already in progress" then client_error 9 else client_error 8
  answer_of (inr c) = controller c

  -- `Connect` from the suffix on; the request is changed where it stands.
  unfoldable pub dial : W → ConnectRequest → W × ConnectRequest × Connected
  dial w r =
      let r' : ConnectRequest = record r { subsysnqn = subsystem_name r.subsysnqn } in
      let (w', a) = k.add_ctrl w (to_options r') in (w', r', answer_of a)

  unfoldable pub with_hostid : W → ConnectRequest → W × ConnectRequest × Connected
  with_hostid w r = if not (r.hostid == "") then dial w r else elim k.get_or_create_hostid [
    | none ↦ (w, r, client_error 8)
    | some hostid ↦ dial w (record r { hostid = hostid })
  ]

  -- `Connect`.
  unfoldable pub connect : W → ConnectRequest → W × ConnectRequest × Connected
  connect w r = elim (k.adjust_traddr r.traddr) [
    | none ↦ (w, r, client_error 8)
    | some traddr ↦ with_hostid w (record r { traddr = traddr })
  ]

  -- The function that `connectNVMEDevicesWithRetry` tries.
  unfoldable pub attempt : W × ConnectRequest × Connected → (W × ConnectRequest × Connected) × Bool
  attempt st = let (w, r, c) = connect st.0 st.1 in ((w, r, c), is_connected c)

  abbrev pub found : W × ConnectRequest × Connected → W × Option ℕ
  found (w, r, controller c) = (w, some c)
  found (w, r, client_error status) = (w, none)

  -- The body of the loop of `ConnectAllNVMEDevices` from the result of `Connect` on.
  unfoldable pub connect_again : W × ConnectRequest × Connected → W × Option ℕ
  connect_again (w, r, controller c) = (w, some c)
  connect_again (w, r, client_error status) =
      if status == 9 then (w, none) else found (k.retry_do 5 attempt (w, r, client_error status))

  -- The controller for a request, if one is made.
  unfoldable pub connect_device : W → ConnectRequest → W × Option ℕ
  connect_device w r = connect_again (connect w r)

  module _ (hostnqn hostid transport : String) (max_io_queues kato : ℤ) (ctrl_loss_tmo : Option ℤ)
      (cfg : Option AppConfig) where
    unfoldable pub ctrl_loss_tmo_value : ℤ
    ctrl_loss_tmo_value = elim ctrl_loss_tmo [
      | some tmo ↦ tmo
      | none ↦ elim cfg [ none ↦ negsuc 0 | some c ↦ c.ctrl_loss_tmo ]
    ]

    -- The request for an entry of the log page.
    unfoldable pub request_for : NvmeDiscPageEntry → ConnectRequest
    request_for e = record {
      transport = transport;
      traddr = e.traddr;
      trsvcid = pos e.trsvc_id;
      hostnqn = hostnqn;
      hostaddr = "";
      subsysnqn = e.subnqn;
      ctrl_loss_tmo = ctrl_loss_tmo_value;
      max_io_queues = max_io_queues;
      hostid = hostid;
      kato = kato;
      dh_chap_secret = elim cfg [ none ↦ "" | some c ↦ c.dh_chap_secret ];
      dh_chap_controller_secret = elim cfg [ none ↦ "" | some c ↦ c.dh_chap_ctrl_secret ];
    }

    -- `ConnectAllNVMEDevices`.
    unfoldable pub connect_all_nvme_devices : W → List NvmeDiscPageEntry → W × List ℕ
    connect_all_nvme_devices w [] = (w, [])
    connect_all_nvme_devices w (e ∷ entries) =
        let (w', ctrl) = if e.sub_type == 2 then connect_device w (request_for e) else (w, none) in
        let (w'', ctrls) = connect_all_nvme_devices w' entries in
        (w'', elim ctrl [ none ↦ ctrls | some c ↦ c ∷ ctrls ])
