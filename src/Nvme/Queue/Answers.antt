-- ===== src/Nvme/Queue/Answers.antt =====
-- Every command to a queue (pkg/nvme/nvme_queue.go) is answered under its own id, or waits as a request
-- for an event.
use mathlib.Core.Path.{subst}
use discovery_client.Prelude.{
  ℕ, ◌/◌, ◌%◌, ◌^◌, ◌<◌, String, Bool, true, false, Option, none, some, not, ◌==◌, ℕ_eq, String_eq,
  is_some, if◌then◌else◌, [], ◌∷◌, ◌++◌, ◌≡◌, refl, arith, if_both, ap, ◌∙◌, Bool-cases, ◌&&◌, inl,
  inr,
}
use discovery_client.Nvme.Sgl.{ScatterList, new_scatter_list}
use discovery_client.Nvme.Controller.{Controller, Completion, is_ready}
use discovery_client.Nvme.Queue.{
  ConnectData, Pdu, Command, admin_connect, to_controller, Init, accepted, refused, Queue,
  nvmet_parse_connect_cmd, nvmet_parse_fabrics_command, nvmet_parse_discovery_command,
  parse_command, nvmet_request_init, new_completion_status, create_nvme_controller, answer,
  discovery_subsys_name,
}
use discovery_client.Nvme.Queue.Execute.{
  Env, Reaction, answered, pending, panicked, or_pending, after_create, execute_connect, execute_on,
  execute_request, executed, handle_command, execute_with, execute_to, run_on, writes,
}
use discovery_client.Nvme.Queue.Connect.{welcome}
use discovery_client.Nvme.Queue.Waits.{IsFor, Waits, execute_on-Waits}

-- With a controller, a command is executed on it.
pub execute_request-some :
    {R : Type 0} (env : Env R) (queue : Queue) (pdu : Pdu) (sent : Option ConnectData)
    (buffer : Option ScatterList) (ctrl : Controller) (r : Command)
    → queue.ctrl ≡ some ctrl
    → execute_request env queue pdu sent buffer (to_controller r)
      ≡ execute_with env queue ctrl pdu buffer r
unfolding execute_request execute_to
execute_request-some env queue pdu sent buffer ctrl r there =
    ap (λ o. execute_to env o queue pdu buffer r) there

-- What may become of a command on the queue, where it is known whether the server panics.
abbrev pub Reacts : Queue → Pdu → Bool → Queue → Reaction → Type 0
Reacts queue pdu crash queue' (answered c) = (crash ≡ false) × IsFor pdu c
Reacts queue pdu crash queue' pending =
    (crash ≡ false)
    × ((ctrl : Controller) × (queue.ctrl ≡ some ctrl)
        × (queue'.ctrl
            ≡ some (record ctrl {
              async_event_pending_requests =
                  ctrl.async_event_pending_requests ++ (pdu.command_id ∷ []);
            })))
Reacts queue pdu crash queue' panicked = crash ≡ true

Reacts-or_pending :
    (queue queue' : Queue) (pdu : Pdu) (ctrl ctrl' : Controller) (o : Option Completion)
    → queue.ctrl ≡ some ctrl
    → queue'.ctrl ≡ some ctrl'
    → Waits pdu ctrl ctrl' o
    → Reacts queue pdu false queue' (or_pending o)
Reacts-or_pending queue queue' pdu ctrl ctrl' none e e' w = (refl, (ctrl, e, e' ∙ ap some w))
Reacts-or_pending queue queue' pdu ctrl ctrl' (some c) e e' w = (refl, w)

-- A command that is parsed goes to the controller, or sets one up.
abbrev pub Fits : Option Controller → Init → Type 0
Fits ctrl (refused status) = status < 2 ^ 15
Fits ctrl (accepted admin_connect) = is_some ctrl ≡ false
Fits ctrl (accepted (to_controller r)) = is_some ctrl ≡ true

fabrics-Fits : (ctrl : Controller) (pdu : Pdu) → Fits (some ctrl) (nvmet_parse_fabrics_command pdu)
unfolding nvmet_parse_fabrics_command
fabrics-Fits ctrl pdu =
    if_both (Fits (some ctrl)) (pdu.fc_type == 0x0) refl
      (if_both (Fits (some ctrl)) (pdu.fc_type == 0x4) refl (omega arith))

discovery-Fits :
    (ctrl : Controller) (pdu : Pdu) → Fits (some ctrl) (nvmet_parse_discovery_command ctrl pdu)
unfolding nvmet_parse_discovery_command
discovery-Fits ctrl pdu =
    let both = λ (b : Bool) (x y : Init) (p : Fits (some ctrl) x) (q : Fits (some ctrl) y).
      if_both (Fits (some ctrl)) b {x = x} {y = y} p q in
    both (not (is_ready ctrl.csts)) _ _ (omega arith) (
      both (pdu.opcode == 0x06) _ _ refl (
        both (pdu.opcode == 0x02) _ _ (both (not (pdu.log_page.lid == 0x70)) _ _ (omega arith) refl)
          (both (pdu.opcode == 0x18) _ _ refl (
            both (pdu.opcode == 0x09) _ _ refl (
              both (pdu.opcode == 0x0a) _ _ refl
                (both (pdu.opcode == 0x0c) _ _ refl (omega arith)))))))

connect-Fits : (pdu : Pdu) → Fits none (nvmet_parse_connect_cmd pdu)
unfolding nvmet_parse_connect_cmd
connect-Fits pdu =
    if_both (Fits none) (not (pdu.opcode == 0x7f)) (omega arith)
      (if_both (Fits none) (not (pdu.fc_type == 0x1)) (omega arith) refl)

parse-Fits : (o : Option Controller) (pdu : Pdu) → Fits o (parse_command o pdu)
unfolding parse_command
parse-Fits none pdu = connect-Fits pdu
parse-Fits (some ctrl) pdu =
    if_both (Fits (some ctrl)) (pdu.opcode == 0x7f) (fabrics-Fits ctrl pdu)
      (discovery-Fits ctrl pdu)

pub init-Fits : (queue : Queue) (pdu : Pdu) → Fits queue.ctrl (nvmet_request_init queue pdu)
unfolding nvmet_request_init
init-Fits queue pdu = if_both (Fits queue.ctrl) (not (pdu.flags % 4 == 0)) (omega arith) (
    if_both (Fits queue.ctrl) (not (pdu.flags / 64 % 4 == 1)) (omega arith)
      (parse-Fits queue.ctrl pdu))

module _ {R : Type 0} (env : Env R) (queue : Queue) (pdu : Pdu) (sent : Option ConnectData) where
  abbrev Reacted : Bool → Queue × Reaction → Type 0
  Reacted crash h = Reacts queue pdu crash h.0 h.1

  -- A test that the code makes before the others.
  Reacted-test :
      (b rest : Bool) (status result : ℕ) (y : Queue × Reaction)
      → status < 2 ^ 15
      → Reacted rest y
      → Reacted (b && rest) (if not b then (queue, answered (answer pdu status result)) else y)
  Reacted-test true rest status result y room h = h
  Reacted-test false rest status result y room h = (refl, (refl, room))

  create-Reacted :
      (known : Bool) (host_nqn hostid : String)
      → Reacted (not (pdu.connect.sq_size == 0) && not known) (
          after_create env queue pdu
            (create_nvme_controller known queue pdu.connect host_nqn hostid))
  unfolding after_create create_nvme_controller
  create-Reacted true host_nqn hostid = elim (Bool-cases (pdu.connect.sq_size == 0)) [
    | inl empty ↦ rw (empty, create_nvme_controller, after_create) (refl, (refl, omega arith))
    | inr filled ↦ rw (filled, create_nvme_controller, after_create) (refl, (refl, omega arith))
  ]
  create-Reacted false host_nqn hostid = elim (Bool-cases (pdu.connect.sq_size == 0)) [
    | inl empty ↦ rw (empty, create_nvme_controller, after_create) (refl, (refl, omega arith))
    | inr filled ↦ rw (filled, create_nvme_controller, after_create) refl
  ]

  and_assoc : (a b c : Bool) → ((a && b) && c) ≡ (a && (b && c))
  and_assoc a b c = ground arith

  execute_connect-Reacted :
      (o : Option ConnectData)
      → Reacted
          (welcome env.is_uuid pdu o && not (is_some env.subsystem))
          (execute_connect env queue pdu o)
  unfolding execute_connect welcome
  execute_connect-Reacted none = (refl, (refl, omega arith))
  execute_connect-Reacted (some d) =
      rw
        (
          and_assoc (d.subsys_nqn == discovery_subsys_name),
          and_assoc (env.is_uuid d.host_id),
          and_assoc (pdu.connect.rec_fmt == 0),
          and_assoc (d.cntl_id == 0xffff),
        )
        (Reacted-test (d.subsys_nqn == discovery_subsys_name) _ _ _ _ (omega arith) (
          Reacted-test (env.is_uuid d.host_id) _ _ _ _ (omega arith) (
            Reacted-test (pdu.connect.rec_fmt == 0) _ _ _ _ (omega arith) (
              Reacted-test (d.cntl_id == 0xffff) _ _ _ _ (omega arith)
                (create-Reacted (is_some env.subsystem) d.host_nqn (env.uuid_text d.host_id))))))

  -- A command to the controller makes the server panic: it writes to a nil list.
  unfoldable pub writes_nil : Option ScatterList → Command → Option Controller → Bool
  writes_nil buffer r none = false
  writes_nil buffer r (some ctrl) = not (is_some buffer) && writes env ctrl pdu r

  module _ (buffer : Option ScatterList) where
    -- The execution makes the server panic.
    unfoldable pub crashes : Init → Bool
    crashes (refused status) = false
    crashes (accepted admin_connect) = welcome env.is_uuid pdu sent && not (is_some env.subsystem)
    crashes (accepted (to_controller r)) = writes_nil buffer r queue.ctrl

    run_on-Reacted :
        (ctrl : Controller) (list : ScatterList) (r : Command)
        → queue.ctrl ≡ some ctrl
        → Reacted false (run_on env queue ctrl pdu list r)
    run_on-Reacted ctrl list r there =
        let (ctrl', o) = execute_on env ctrl pdu list r in
        Reacts-or_pending queue (record queue { ctrl = some ctrl' }) pdu ctrl ctrl' o there refl
          (execute_on-Waits env ctrl pdu list r)

  execute_with-Reacted :
      (buffer : Option ScatterList) (ctrl : Controller) (r : Command)
      → queue.ctrl ≡ some ctrl
      → Reacted
          (not (is_some buffer) && writes env ctrl pdu r)
          (execute_with env queue ctrl pdu buffer r)
  unfolding execute_with
  execute_with-Reacted (some list) ctrl r there = run_on-Reacted none ctrl list r there
  execute_with-Reacted none ctrl r there = elim (Bool-cases (writes env ctrl pdu r)) [
    | inl e ↦ rw e refl
    | inr e ↦ rw e (run_on-Reacted none ctrl (new_scatter_list 0 8192) r there)
  ]

  module _ (buffer : Option ScatterList) where
    execute_to-Reacted :
        (o : Option Controller) (r : Command)
        → queue.ctrl ≡ o
        → is_some o ≡ true
        → Reacted (writes_nil buffer r o) (execute_to env o queue pdu buffer r)
    unfolding execute_to writes_nil
    execute_to-Reacted none r there known = cc
    execute_to-Reacted (some ctrl) r there known = execute_with-Reacted buffer ctrl r there

    pub executed-Reacts :
        (i : Init)
        → Fits queue.ctrl i
        → Reacted (crashes buffer i) (executed env queue pdu sent buffer i)
    unfolding executed execute_request crashes
    executed-Reacts (refused status) fits = (refl, (refl, fits))
    executed-Reacts (accepted admin_connect) fits = execute_connect-Reacted sent
    executed-Reacts (accepted (to_controller r)) fits = execute_to-Reacted queue.ctrl r refl fits

    -- What becomes of a command. The server panics exactly if the command is a connect command that it
    -- accepts, but the queue has no discovery subsystem, or if the command writes to the list of its
    -- request, and that is nil. Any other command is answered at once under its own id, with a
    -- status that is not lost when it is shifted into its place, or it is a request for an event and
    -- is appended to those that the controller has pending.
    pub handle_command-Reacts :
        let h = handle_command env queue pdu sent buffer in
        Reacts queue pdu (crashes buffer (nvmet_request_init queue pdu)) h.0 h.1
    unfolding handle_command
    handle_command-Reacts = executed-Reacts (nvmet_request_init queue pdu) (init-Fits queue pdu)

    IsFor-answered :
        (crash : Bool) (r : Queue × Reaction) (c : Completion)
        → Reacted crash r
        → r.1 ≡ answered c
        → IsFor pdu c
    IsFor-answered crash r c h e = (subst (Reacts queue pdu crash r.0) e h).1

    -- The 16 bits of a completion's status lose nothing of the status that the command was answered
    -- with: it is read back by a shift.
    pub new_completion_status-handle_command :
        (c : Completion)
        → (handle_command env queue pdu sent buffer).1 ≡ answered c
        → (new_completion_status c.status / 2 ≡ c.status)
          × (new_completion_status c.status < 2 ^ 16)
    unfolding new_completion_status
    new_completion_status-handle_command c e =
        let room =
          (IsFor-answered (crashes buffer (nvmet_request_init queue pdu))
            (handle_command env queue pdu sent buffer) c handle_command-Reacts e).1 in
        (omega (arith, room), omega arith)
