-- ===== src/Nvme/Queue/Connect.antt =====
-- Which commands give a queue (pkg/nvme/nvme_queue.go) its controller.
use discovery_client.Prelude.{
  ℕ, ◌/◌, ◌%◌, ◌^◌, String, Bool, true, false, Option, none, some, not, ◌&&◌, ◌==◌, ℕ_eq, String_eq,
  is_some, if◌then◌else◌, ◌≡◌, refl, arith, if_cases, Bool-cases, inl, inr, ◌≢◌,
}
use discovery_client.Nvme.Sgl.{ScatterList}
use discovery_client.Nvme.Controller.{sc_success}
use discovery_client.Nvme.Queue.{
  ConnectData, Pdu, admin_connect, to_controller, Init, accepted, refused, Queue,
  nvmet_parse_connect_cmd, parse_command, nvmet_request_init, create_nvme_controller, answer,
  discovery_subsys_name, sc_connect_invalid_param_dnr,
}
use discovery_client.Nvme.Queue.Execute.{
  Env, Reaction, answered, pending, panicked, after_create, execute_connect, execute_request,
  executed, handle_command,
}

-- A command that is a connect command.
unfoldable pub asks : Pdu → Bool
asks pdu =
    pdu.flags % 4 == 0 && (pdu.flags / 64 % 4 == 1 && (pdu.opcode == 0x7f && pdu.fc_type == 0x1))

-- The parameters and the data of a connect command that the server accepts.
unfoldable pub welcome : (String → Bool) → Pdu → Option ConnectData → Bool
welcome is_uuid pdu none = false
welcome is_uuid pdu (some d) =
    d.subsys_nqn == discovery_subsys_name
    && (is_uuid d.host_id
        && (pdu.connect.rec_fmt == 0 && (d.cntl_id == 0xffff && not (pdu.connect.sq_size == 0))))

abbrev Asked : Pdu → Init → Type 0
Asked pdu (accepted admin_connect) = asks pdu ≡ true
Asked pdu (accepted (to_controller r)) = ⊥
Asked pdu (refused status) = (status ≢ sc_success) × (asks pdu ≡ false)

init-Asked :
    (queue : Queue) (pdu : Pdu) → queue.ctrl ≡ none → Asked pdu (nvmet_request_init queue pdu)
unfolding nvmet_request_init parse_command nvmet_parse_connect_cmd asks
init-Asked queue pdu none_yet =
    rw (none_yet, nvmet_request_init, parse_command)
      (if_cases (Asked pdu) (not (pdu.flags % 4 == 0)) (λ e. (λ z. omega arith, ground (arith, e)))
        (λ e.
          if_cases (Asked pdu) (not (pdu.flags / 64 % 4 == 1))
            (λ f. (λ z. omega arith, ground (arith, f)))
            (λ f.
              if_cases (Asked pdu) (not (pdu.opcode == 0x7f))
                (λ g. (λ z. omega arith, ground (arith, g)))
                (λ g.
                  if_cases (Asked pdu) (not (pdu.fc_type == 0x1))
                    (λ h. (λ z. omega arith, ground (arith, h)))
                    (λ h. ground (arith, e, f, g, h))))))

-- The completion is an error.
abbrev pub Fails : Reaction → Type 0
Fails (answered c) = c.status ≢ sc_success
Fails pending = ⊥
Fails panicked = ⊥

-- The outcome of a command on a queue without a controller: the first test is whether the queue has a
-- discovery subsystem, the second whether the command is one that the server accepts.
abbrev pub Outcome : Queue → Pdu → Bool → Bool → Queue × Reaction → Type 0
Outcome queue pdu true true h =
    (is_some h.0.ctrl ≡ true)
    × (h.1 ≡ answered (answer pdu sc_success (queue.controller_id % 2 ^ 16)))
Outcome queue pdu false true h = h.1 ≡ panicked
Outcome queue pdu known false h = (h.0 ≡ queue) × Fails h.1

module _ {R : Type 0} (env : Env R) (queue : Queue) (pdu : Pdu) where
  abbrev Done : Bool → Queue × Reaction → Type 0
  Done b r = Outcome queue pdu (is_some env.subsystem) b r

  Done-false :
      (b : Bool) (status result : ℕ)
      → status ≢ sc_success
      → Outcome queue pdu b false (queue, answered (answer pdu status result))
  Done-false true status result bad = (refl, bad)
  Done-false false status result bad = (refl, bad)

  create-Outcome :
      (b : Bool) (host_nqn hostid : String)
      → Outcome queue pdu b
          (not (pdu.connect.sq_size == 0))
          (after_create env queue pdu (create_nvme_controller b queue pdu.connect host_nqn hostid))
  unfolding after_create create_nvme_controller
  create-Outcome true host_nqn hostid = elim (Bool-cases (pdu.connect.sq_size == 0)) [
    | inl empty ↦ rw (empty, create_nvme_controller, after_create) (refl, λ z. omega arith)
    | inr filled ↦ rw (filled, create_nvme_controller, after_create) (refl, refl)
  ]
  create-Outcome false host_nqn hostid = elim (Bool-cases (pdu.connect.sq_size == 0)) [
    | inl empty ↦ rw (empty, create_nvme_controller, after_create) (refl, λ z. omega arith)
    | inr filled ↦ rw (filled, create_nvme_controller, after_create) refl
  ]

  create-Done :
      (d : ConnectData)
      → Done (not (pdu.connect.sq_size == 0)) (
          after_create env queue pdu (
            create_nvme_controller
              (is_some env.subsystem)
              queue
              pdu.connect
              d.host_nqn
              (env.uuid_text d.host_id)))
  create-Done d = create-Outcome (is_some env.subsystem) d.host_nqn (env.uuid_text d.host_id)

  -- A test that the code makes before the others.
  Done-test :
      (b rest : Bool) (status result : ℕ) (y : Queue × Reaction)
      → status ≢ sc_success
      → Done rest y
      → Done (b && rest) (if not b then (queue, answered (answer pdu status result)) else y)
  Done-test true rest status result y bad h = h
  Done-test false rest status result y bad h = Done-false (is_some env.subsystem) status result bad

  execute_connect-Done :
      (sent : Option ConnectData)
      → Done (welcome env.is_uuid pdu sent) (execute_connect env queue pdu sent)
  unfolding execute_connect welcome
  execute_connect-Done none =
      Done-false (is_some env.subsystem) sc_connect_invalid_param_dnr 1 (λ z. omega arith)
  execute_connect-Done (some d) =
      Done-test (d.subsys_nqn == discovery_subsys_name) _ _ _ _ (λ z. omega arith)
        (Done-test (env.is_uuid d.host_id) _ _ _ _ (λ z. omega arith)
          (Done-test (pdu.connect.rec_fmt == 0) _ _ _ _ (λ z. omega arith)
            (Done-test (d.cntl_id == 0xffff) _ _ _ _ (λ z. omega arith) (create-Done d))))

  executed-Outcome :
      (sent : Option ConnectData) (buffer : Option ScatterList) (i : Init)
      → Asked pdu i
      → Outcome queue pdu
          (is_some env.subsystem)
          (asks pdu && welcome env.is_uuid pdu sent)
          (executed env queue pdu sent buffer i)
  unfolding executed execute_request
  executed-Outcome sent buffer (accepted admin_connect) asked = rw asked (execute_connect-Done sent)
  executed-Outcome sent buffer (accepted (to_controller r)) asked = absurd asked
  executed-Outcome sent buffer (refused status) (bad, asked) =
      rw asked (Done-false (is_some env.subsystem) status 0 bad)

  -- On a queue without a controller, a command is answered with success and leaves a controller
  -- exactly if it is a connect command, with data that names the discovery subsystem, a host id that
  -- is a uuid and the dynamic controller id, with record format 0 and a queue size that is not 0, and
  -- the queue has a discovery subsystem. Without one such a command is a panic. Any other command is
  -- answered with an error and changes nothing.
  pub handle_command-Outcome :
      (sent : Option ConnectData) (buffer : Option ScatterList)
      → queue.ctrl ≡ none
      → Outcome queue pdu
          (is_some env.subsystem)
          (asks pdu && welcome env.is_uuid pdu sent)
          (handle_command env queue pdu sent buffer)
  unfolding handle_command
  handle_command-Outcome sent buffer none_yet =
      executed-Outcome sent buffer (nvmet_request_init queue pdu) (init-Asked queue pdu none_yet)
