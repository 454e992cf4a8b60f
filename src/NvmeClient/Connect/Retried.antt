-- ===== src/NvmeClient/Connect/Retried.antt =====
-- How often `ConnectAllNVMEDevices` (pkg/nvmeclient/nvme_client.go) tries a connection, and with what.
use discovery_client.Prelude.{
  ℕ, zero, suc, String, Bool, true, false, Option, none, some, not, ◌==◌, ℕ_eq, ℕ_discrete,
  String_eq, if◌then◌else◌, ◌⊎◌, inl, inr, ◌≡◌, refl, arith, Bool-cases,
}
use discovery_client.NvmeClient.{ConnectRequest, Options, to_options}
use discovery_client.NvmeClient.Connect.{
  Connected, client_error, is_connected, Connector, subsystem_name, answer_of, dial, with_hostid,
  connect, attempt, found, connect_again, connect_device,
}

-- What package retry documents: the first attempt that goes well is the last, and so is the last of
-- the number.
pub record Retries {W : Type 0} (k : Connector W) : Type 0 where
  pub last :
      (f : W × ConnectRequest × Connected → (W × ConnectRequest × Connected) × Bool)
      (st : W × ConnectRequest × Connected)
      → k.retry_do 1 f st ≡ (f st).0
  pub more :
      (n : ℕ) (f : W × ConnectRequest × Connected → (W × ConnectRequest × Connected) × Bool)
      (st : W × ConnectRequest × Connected)
      → k.retry_do (suc (suc n)) f st
        ≡ (if (f st).1 then (f st).0 else k.retry_do (suc n) f (f st).0)

module _ {W : Type 0} (k : Connector W) where
  abbrev or_else : W × Option ℕ → W × (String ⊎ ℕ) → W × Option ℕ
  or_else rest (w, inl text) = rest
  or_else rest (w, inr c) = (w, some c)

  -- Up to a number of tries to make a controller, with the same options.
  unfoldable pub tries : ℕ → W → Options → W × Option ℕ
  tries zero w options = (w, none)
  tries (suc n) w options = let made = k.add_ctrl w options in or_else (tries n made.0 options) made

  abbrev pub unless_refused : Options → W × (String ⊎ ℕ) → W × Option ℕ
  unless_refused options (w, inl text) =
      if k.contains text "operation already in progress" then (w, none) else tries 5 w options
  unless_refused options (w, inr c) = (w, some c)

  module _ (aux_suffix : String) where
    -- A request that `Connect` does not change.
    record IsReady (r : ConnectRequest) : Type 0 where
      address : k.adjust_traddr r.traddr ≡ some r.traddr
      host : (r.hostid == "") ≡ false
      name : subsystem_name k aux_suffix r.subsysnqn ≡ r.subsysnqn

    abbrev dialled : ConnectRequest → W × (String ⊎ ℕ) → W × ConnectRequest × Connected
    dialled r (w, a) = (w, r, answer_of k aux_suffix a)

    connect_ready :
        (w : W) (r : ConnectRequest)
        → IsReady r
        → connect k aux_suffix w r ≡ dialled r (k.add_ctrl w (to_options r))
    unfolding connect with_hostid dial
    connect_ready w r i = rw (i.address, connect) (rw (i.host, i.name) refl)

    connect_fresh :
        (w : W) (r : ConnectRequest) (traddr hostid : String)
        → k.adjust_traddr r.traddr ≡ some traddr
        → (if not (r.hostid == "") then some r.hostid else k.get_or_create_hostid) ≡ some hostid
        → let ready : ConnectRequest = record r {
          traddr = traddr;
          hostid = hostid;
          subsysnqn = subsystem_name k aux_suffix r.subsysnqn;
        } in
          connect k aux_suffix w r ≡ dialled ready (k.add_ctrl w (to_options ready))
    unfolding connect with_hostid dial subsystem_name answer_of
    connect_fresh w r traddr hostid adjusted host = elim (Bool-cases (r.hostid == "")) [
      | inl e ↦
          let given : k.get_or_create_hostid ≡ some hostid = ground (arith, host, e) in
          rw (adjusted, connect) (rw (e, given) refl)
      | inr e ↦
          let same : r.hostid ≡ hostid = ground (arith, host, e) in
          rw (adjusted, connect) (rw (e, same) refl)
    ]

    found-dialled :
        (r : ConnectRequest) (made : W × (String ⊎ ℕ))
        → found k aux_suffix (dialled r made) ≡ or_else (made.0, none) made
    unfolding answer_of
    found-dialled r (w, inl text) = ground arith
    found-dialled r (w, inr c) = refl

    again :
        (n : ℕ) (r : ConnectRequest) (made : W × (String ⊎ ℕ))
        → ((w : W) (c : Connected)
            → found k aux_suffix (k.retry_do (suc n) (attempt k aux_suffix) (w, r, c))
              ≡ tries (suc n) w (to_options r))
        → found k aux_suffix (
            if is_connected (answer_of k aux_suffix made.1)
            then dialled r made
            else k.retry_do (suc n) (attempt k aux_suffix) (dialled r made))
          ≡ or_else (tries (suc n) made.0 (to_options r)) made
    unfolding answer_of
    again n r (w, inl text) next =
        elim (Bool-cases (k.contains text "operation already in progress")) [
          | inl e ↦ rw e (next w (client_error 9))
          | inr e ↦ rw e (next w (client_error 8))
        ]
    again n r (w, inr c) next = refl

    retry-tries :
        Retries k
        → (n : ℕ) (w : W) (r : ConnectRequest) (c : Connected) → IsReady r
        → found k aux_suffix (k.retry_do (suc n) (attempt k aux_suffix) (w, r, c))
          ≡ tries (suc n) w (to_options r)
    unfolding attempt tries answer_of
    retry-tries retries zero w r c i =
        rw (retries.last (attempt k aux_suffix) (w, r, c), connect_ready w r i)
          (found-dialled r (k.add_ctrl w (to_options r)))
    retry-tries retries (suc n) w r c i =
        rw (retries.more n (attempt k aux_suffix) (w, r, c), connect_ready w r i)
          (again n r (k.add_ctrl w (to_options r)) (λ w c. retry-tries retries n w r c i))

    settled :
        Retries k
        → (r : ConnectRequest) (made : W × (String ⊎ ℕ)) → IsReady r
        → connect_again k aux_suffix (dialled r made) ≡ unless_refused (to_options r) made
    unfolding connect_again answer_of ℕ_discrete
    settled retries r (w, inl text) i =
        elim (Bool-cases (k.contains text "operation already in progress")) [
          | inl e ↦ rw e refl
          | inr e ↦ rw e (retry-tries retries 4 w r (client_error 8) i)
        ]
    settled retries r (w, inr c) i = refl

    subsystem_name-again :
        (name : String)
        → k.has_suffix (k.add_suffix name aux_suffix) aux_suffix ≡ true
        → subsystem_name k aux_suffix (subsystem_name k aux_suffix name)
          ≡ subsystem_name k aux_suffix name
    unfolding subsystem_name
    subsystem_name-again name added = ground arith

    -- A connection to an I/O subsystem is tried once, and if it fails otherwise than by being there
    -- already, up to five times more, until one attempt goes well. All attempts have the same options:
    -- the changes that `Connect` makes to the request, which it makes again each time, are made once,
    -- the suffix of the name included. The address of the request can be resolved, a resolved address
    -- resolves to itself, there is an id of the host, and the packages do what they document.
    pub connect_device-tries :
        Retries k
        → (w : W) (r : ConnectRequest) (traddr hostid : String)
        → k.adjust_traddr r.traddr ≡ some traddr
        → k.adjust_traddr traddr ≡ some traddr
        → (if not (r.hostid == "") then some r.hostid else k.get_or_create_hostid) ≡ some hostid
        → (hostid == "") ≡ false
        → k.has_suffix (k.add_suffix r.subsysnqn aux_suffix) aux_suffix ≡ true
        → let options = to_options (record r {
          traddr = traddr;
          hostid = hostid;
          subsysnqn = subsystem_name k aux_suffix r.subsysnqn;
        }) in
          connect_device k aux_suffix w r ≡ unless_refused options (k.add_ctrl w options)
    unfolding connect_device
    connect_device-tries retries w r traddr hostid adjusted stays host some_host added =
        let ready : ConnectRequest = record r {
          traddr = traddr;
          hostid = hostid;
          subsysnqn = subsystem_name k aux_suffix r.subsysnqn;
        } in
        rw (connect_fresh w r traddr hostid adjusted host) (
          settled retries ready (k.add_ctrl w (to_options ready)) (record {
            address = stays;
            host = some_host;
            name = subsystem_name-again r.subsysnqn added;
          }))
