-- ===== src/Nvme/Queue/Runs.antt =====
-- What holds of a queue (pkg/nvme/nvme_queue.go) and of its controller over every run.
use mathlib.Core.Path.{subst}
use discovery_client.Prelude.{
  ℕ, ◌≤◌, String, Bool, true, false, Option, none, some, not, ◌==◌, ℕ_eq, String_eq, is_some,
  if◌then◌else◌, List, [], ◌∷◌, ◌≡◌, refl, sym, arith, length, Option-cases, Bool-cases, inl, inr,
  ◌≢◌, ap, if_both,
}
use discovery_client.Nvme.Sgl.{ScatterList, new_scatter_list}
use discovery_client.Nvme.Controller.{
  Controller, new_controller, keep_alive_expired, notify_async_event,
}
use discovery_client.Nvme.Controller.Registers.{
  on_expiry, on_notify, at_first, IsSound, Reachable-IsSound,
}
use discovery_client.Nvme.Queue.{
  ConnectData, Pdu, Command, admin_connect, to_controller, Init, accepted, refused, Queue,
  nvmet_request_init, create_nvme_controller, without, destroy, discovery_subsys_name, answer,
}
use discovery_client.Nvme.Queue.Execute.{
  Env, Reaction, answered, after_create, execute_connect, execute_request, execute_with, writes,
  executed, handle_command,
}
use discovery_client.Nvme.Queue.Owned.{
  IsOwned, owned_after, expired-keeps, notify-keeps, execute_on-IsOwned,
}
use discovery_client.Nvme.Queue.Answers.{execute_request-some, Fits, init-Fits}

abbrev applied : (Controller → Controller) → Option Controller → Option Controller
applied f none = none
applied f (some c) = some (f c)

-- The queue and its controller, as far as they are owned by the queue.
abbrev pub Serves : Queue → Option Controller → Type 0
Serves queue none = queue.registered ≡ []
Serves queue (some c) =
    IsOwned queue.id c × (queue.registered ≡ queue.id ∷ []) × (queue.sq_size ≢ 0)

abbrev pub IsServing : Queue → Type 0
IsServing queue = Serves queue queue.ctrl

Serves-applied :
    (queue : Queue) (f : Controller → Controller) (o : Option Controller)
    → ((c : Controller) → IsOwned queue.id c → IsOwned queue.id (f c))
    → Serves queue o
    → Serves queue (applied f o)
Serves-applied queue f none keep v = v
Serves-applied queue f (some c) keep v = (keep c v.0, v.1, v.2)

without_self : (id : ℕ) → without id (id ∷ []) ≡ []
unfolding without
without_self id = ground arith

destroy-none : (queue : Queue) → queue.ctrl ≡ none → destroy queue ≡ record queue { ctrl = none }
unfolding destroy
destroy-none queue e = rw (e, destroy) (ap (λ o. record queue { ctrl = o }) e)

destroy-some :
    (queue : Queue) (c : Controller)
    → queue.ctrl ≡ some c
    → destroy queue ≡ record queue { ctrl = none; registered = without c.id queue.registered }
unfolding destroy
destroy-some queue c e = rw (e, destroy) refl

-- What is known of the queue where it has no controller, and where it has one.
served : (queue : Queue) (o : Option Controller) → queue.ctrl ≡ o → IsServing queue → Serves queue o
served queue o e v = subst (Serves queue) e v

destroy-IsServing : (queue : Queue) → IsServing queue → IsServing (destroy queue)
destroy-IsServing queue v = elim (Option-cases queue.ctrl) [
  | inl e ↦ subst IsServing (sym (destroy-none queue e)) (served queue none e v)
  | inr (c, e) ↦
      let (o, listed, _) = served queue (some c) e v in
      subst IsServing (sym (destroy-some queue c e))
        (ground (arith, listed, o.own_id, without_self queue.id))
]

fresh :
    (id controller_id kato : ℕ) (host_nqn hostid : String)
    → IsOwned id (new_controller id controller_id kato host_nqn hostid)
unfolding new_controller
fresh id controller_id kato host_nqn hostid = record {
  reachable = at_first id controller_id kato host_nqn hostid;
  own_id = refl;
  few = omega arith;
}

-- A test that leaves the queue alone where it fails.
test-IsServing :
    (queue : Queue) (pdu : Pdu) (b : Bool) (status result : ℕ) (y : Queue × Reaction)
    → IsServing queue
    → IsServing y.0
    → IsServing (if not b then (queue, answered (answer pdu status result)) else y).0
test-IsServing queue pdu true status result y v w = w
test-IsServing queue pdu false status result y v w = v

none_of : (o : Option Controller) → is_some o ≡ false → o ≡ none
none_of none h = refl
none_of (some c) h = cc

-- What happens to a queue: a command arrives, the keep-alive timer of its controller expires, the
-- discovery subsystem notifies the controller, or the connection ends.
pub data Input : Type 0 where
  command : Pdu → Option ConnectData → Option ScatterList → Input
  expired notified closed : Input

abbrev on_ctrl : Queue → (Controller → Controller) → Queue
on_ctrl queue f = record queue { ctrl = applied f queue.ctrl }

-- What is known outside of the queue's controller.
abbrev pub Known : Queue → Option Controller → Type 0
Known queue none = queue.registered ≡ []
Known queue (some c) =
    (queue.registered ≡ c.id ∷ [])
    × (queue.sq_size ≢ 0)
    × (length c.async_event_pending_requests ≤ 4)
    × IsSound c

Known-Serves : (queue : Queue) (o : Option Controller) → Serves queue o → Known queue o
Known-Serves queue none v = v
Known-Serves queue (some c) v =
    let (o, listed, size) = v in
    (ground (arith, listed, o.own_id), size, o.few, Reachable-IsSound c o.reachable)

module _ {R : Type 0} (env : Env R) where
  created-IsServing :
      (known : Bool) (queue : Queue) (pdu : Pdu) (host_nqn hostid : String)
      → IsServing queue
      → queue.ctrl ≡ none
      → IsServing
          (after_create env queue pdu
            (create_nvme_controller known queue pdu.connect host_nqn hostid)).0
  unfolding after_create create_nvme_controller
  created-IsServing false queue pdu host_nqn hostid v e =
      elim (Bool-cases (pdu.connect.sq_size == 0)) [
        | inl empty ↦ rw (empty, create_nvme_controller, after_create) v
        | inr filled ↦ rw (filled, create_nvme_controller, after_create) v
      ]
  created-IsServing true queue pdu host_nqn hostid v e =
      elim (Bool-cases (pdu.connect.sq_size == 0)) [
        | inl empty ↦ rw (empty, create_nvme_controller, after_create) v
        | inr filled ↦
            let listed : queue.registered ≡ [] = served queue none e v in
            rw (filled, create_nvme_controller, after_create)
              (
                fresh queue.id queue.controller_id pdu.connect.kato host_nqn hostid,
                ground (arith, listed),
                λ z. ground (arith, filled, z),
              )
      ]

  connect-IsServing :
      (queue : Queue) (pdu : Pdu) (sent : Option ConnectData)
      → IsServing queue
      → queue.ctrl ≡ none
      → IsServing (execute_connect env queue pdu sent).0
  unfolding execute_connect
  connect-IsServing queue pdu none v e = v
  connect-IsServing queue pdu (some d) v e =
      test-IsServing queue pdu (d.subsys_nqn == discovery_subsys_name) _ _ _ v (
        test-IsServing queue pdu (env.is_uuid d.host_id) _ _ _ v (
          test-IsServing queue pdu (pdu.connect.rec_fmt == 0) _ _ _ v (
            test-IsServing queue pdu (d.cntl_id == 0xffff) _ _ _ v (
              created-IsServing (is_some env.subsystem) queue pdu d.host_nqn
                (env.uuid_text d.host_id) v e))))

  with-IsServing :
      (queue : Queue) (c : Controller) (pdu : Pdu) (buffer : Option ScatterList) (r : Command)
      → IsServing queue
      → Serves queue (some c)
      → IsServing (execute_with env queue c pdu buffer r).0
  unfolding execute_with
  with-IsServing queue c pdu (some list) r v (o, listed, size) =
      (execute_on-IsOwned env queue.id c pdu list r o, listed, size)
  with-IsServing queue c pdu none r v (o, listed, size) =
      if_both (λ (h : Queue × Reaction). IsServing h.0) (writes env c pdu r) v
        (execute_on-IsOwned env queue.id c pdu (new_scatter_list 0 8192) r o, listed, size)

  executed-IsServing :
      (queue : Queue) (pdu : Pdu) (sent : Option ConnectData) (buffer : Option ScatterList)
      (i : Init)
      → Fits queue.ctrl i
      → IsServing queue
      → IsServing (executed env queue pdu sent buffer i).0
  unfolding executed execute_request
  executed-IsServing queue pdu sent buffer (refused status) fits v = v
  executed-IsServing queue pdu sent buffer (accepted admin_connect) fits v =
      connect-IsServing queue pdu sent v (none_of queue.ctrl fits)
  executed-IsServing queue pdu sent buffer (accepted (to_controller r)) fits v =
      elim (Option-cases queue.ctrl) [
        | inl missing ↦ ground (arith, fits, missing)
        | inr (c, there) ↦
            subst (λ (h : Queue × Reaction). IsServing h.0)
              (sym (execute_request-some env queue pdu sent buffer c r there))
              (with-IsServing queue c pdu buffer r v (served queue (some c) there v))
      ]

  -- A step of the queue.
  unfoldable pub next : Queue → Input → Queue
  next queue (command pdu sent buffer) = (handle_command env queue pdu sent buffer).0
  next queue expired = on_ctrl queue (λ c. (keep_alive_expired c).0)
  next queue notified = on_ctrl queue (λ c. (notify_async_event c).0)
  next queue closed = destroy queue

  unfoldable pub run : Queue → List Input → Queue
  run queue [] = queue
  run queue (i ∷ inputs) = run (next queue i) inputs

  next-IsServing : (queue : Queue) (i : Input) → IsServing queue → IsServing (next queue i)
  unfolding next handle_command
  next-IsServing queue (command pdu sent buffer) v =
      executed-IsServing queue pdu sent buffer (nvmet_request_init queue pdu) (init-Fits queue pdu)
        v
  next-IsServing queue expired v =
      Serves-applied queue _ queue.ctrl
        (λ c o.
          let k = expired-keeps c in owned_after o (on_expiry c) k.0 (ground (arith, k.1, o.few)))
        v
  next-IsServing queue notified v =
      Serves-applied queue _ queue.ctrl
        (λ c o. let k = notify-keeps c o.few in owned_after o (on_notify c) k.0 k.1) v
  next-IsServing queue closed v = destroy-IsServing queue v

  run-IsServing :
      (queue : Queue) (inputs : List Input) → IsServing queue → IsServing (run queue inputs)
  unfolding run
  run-IsServing queue [] v = v
  run-IsServing queue (i ∷ inputs) v =
      run-IsServing (next queue i) inputs (next-IsServing queue i v)

  -- Over every run of a queue that starts without a controller, the discovery subsystem knows exactly
  -- the controller that the queue has, under the queue's id; the queue's size is then not 0, at most
  -- four requests for events are pending, and the controller is enabled if it is ready, and not
  -- ready if its shutdown is complete.
  pub run-Known :
      (queue : Queue) (inputs : List Input)
      → queue.ctrl ≡ none
      → queue.registered ≡ []
      → let q = run queue inputs in Known q q.ctrl
  run-Known queue inputs e listed =
      let q = run queue inputs in
      Known-Serves q q.ctrl (run-IsServing queue inputs (subst (Serves queue) (sym e) listed))
