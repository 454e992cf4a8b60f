-- ===== src/Nvme/Controller/Events.antt =====
-- The requests for events of a controller (pkg/nvme/controller.go), and its features (discovery.go).
use mathlib.Core.Path.{subst}
use discovery_client.Prelude.{
  ℕ, ◌%◌, ◌^◌, ◌≤◌, ◌<◌, true, false, Option, none, some, ◌==◌, ℕ_eq, List, [], ◌∷◌, ◌++◌, ◌≡◌,
  refl, sym, arith, ap, ◌∙◌, ltb, if◌then◌else◌, length, length-append, append_assoc, Bool-cases,
  inl, inr, ltb→lt, ◌⊎◌, ℕ_discrete,
}
use discovery_client.Nvme.Controller.{
  Controller, Completion, register_async_event_request, notify_async_event, set_features,
  get_features, event_result, sc_success, sc_invalid_field_dnr, sc_async_limit_dnr,
}

-- What a client and the discovery subsystem do, in order.
pub data Input : Type 0 where
  request : ℕ → Input
  notify : Input

-- A controller, the requests that it took, and the completions that it sent for them.
pub record Run : Type 0 where
  pub ctrl : Controller
  pub taken : List ℕ
  pub sent : List ℕ

abbrev after_request : Run → ℕ → Controller × Option Completion → Run
after_request r id (ctrl, none) = record r { ctrl = ctrl; taken = r.taken ++ (id ∷ []) }
after_request r id (ctrl, some _) = record r { ctrl = ctrl }

abbrev after_notify : Run → Controller × Option Completion → Run
after_notify r (ctrl, none) = record r { ctrl = ctrl }
after_notify r (ctrl, some c) = record r { ctrl = ctrl; sent = r.sent ++ (c.command_id ∷ []) }

unfoldable pub next : Run → Input → Run
next r (request id) = after_request r id (register_async_event_request r.ctrl id)
next r notify = after_notify r (notify_async_event r.ctrl)

unfoldable pub run : Run → List Input → Run
run r [] = r
run r (i ∷ inputs) = run (next r i) inputs

-- The requests taken are those answered, in order, and then those pending, at most four.
abbrev pub Balanced : Run → Type 0
Balanced r =
    (r.taken ≡ r.sent ++ r.ctrl.async_event_pending_requests)
    × (length r.ctrl.async_event_pending_requests ≤ 4)

List-cases : (l : List ℕ) → (l ≡ []) ⊎ ((x : ℕ) × (xs : List ℕ) × (l ≡ x ∷ xs))
List-cases [] = inl refl
List-cases (x ∷ xs) = inr (x, xs, refl)

register-room :
    (c : Controller) (id : ℕ)
    → ltb (length c.async_event_pending_requests) 4 ≡ true
    → register_async_event_request c id ≡ (
      record c { async_event_pending_requests = c.async_event_pending_requests ++ (id ∷ []) },
      none,
    )
unfolding register_async_event_request
register-room c id room = rw room

register-full :
    (c : Controller) (id : ℕ)
    → ltb (length c.async_event_pending_requests) 4 ≡ false
    → register_async_event_request c id
      ≡ (c, some (record { command_id = id; status = sc_async_limit_dnr; result = 0 }))
unfolding register_async_event_request
register-full c id full = rw full

module _ (c : Controller) where
  notify-off : c.aen_bit_enabled ≡ false → notify_async_event c ≡ (c, none)
  unfolding notify_async_event
  notify-off off = rw off

  notify-nothing :
      c.aen_bit_enabled ≡ true
      → c.async_event_pending_requests ≡ []
      → notify_async_event c ≡ (c, none)
  unfolding notify_async_event
  notify-nothing on e = ground arith

  notify-first :
      (x : ℕ) (xs : List ℕ)
      → c.aen_bit_enabled ≡ true
      → c.async_event_pending_requests ≡ x ∷ xs
      → notify_async_event c ≡ (
        record c { async_event_pending_requests = xs },
        some (record { command_id = x; status = sc_success; result = event_result }),
      )
  unfolding notify_async_event
  notify-first x xs on e = ground arith

next-Balanced : (r : Run) (i : Input) → Balanced r → Balanced (next r i)
unfolding next notify_async_event
next-Balanced r (request id) b =
    let pending = r.ctrl.async_event_pending_requests in
    elim (Bool-cases (ltb (length pending) 4)) [
      | inl room ↦
          subst (λ x. Balanced (after_request r id x)) (sym (register-room r.ctrl id room))
            (
              ap (λ l. l ++ (id ∷ [])) b.0 ∙ append_assoc r.sent pending (id ∷ []),
              omega (arith, length-append pending (id ∷ []), ltb→lt _ _ room),
            )
      | inr full ↦
          subst (λ x. Balanced (after_request r id x)) (sym (register-full r.ctrl id full)) b
    ]
next-Balanced r notify b = elim (Bool-cases r.ctrl.aen_bit_enabled) [
  | inl on ↦ elim (List-cases r.ctrl.async_event_pending_requests) [
    | inl e ↦ subst (λ x. Balanced (after_notify r x)) (sym (notify-nothing r.ctrl on e)) b
    | inr (x, xs, e) ↦
        let (same, few) = rw e at b in
        subst (λ x. Balanced (after_notify r x)) (sym (notify-first r.ctrl x xs on e))
          (same ∙ sym (append_assoc r.sent (x ∷ []) xs), omega (arith, few))
  ]
  | inr off ↦ subst (λ x. Balanced (after_notify r x)) (sym (notify-off r.ctrl off)) b
]

-- Whatever requests and notifications come, in any order, the requests that a controller has taken are
-- those that it has answered, first come first served and each once, followed by those that are
-- pending, of which there are never more than four.
pub run-Balanced : (r : Run) (inputs : List Input) → Balanced r → Balanced (run r inputs)
unfolding run
run-Balanced r [] b = b
run-Balanced r (i ∷ inputs) b = run-Balanced (next r i) inputs (next-Balanced r i b)

-- The feature of events, set and then read: a value with no bit but the highest is accepted and read
-- back, and any other is refused and changes nothing that is read.
pub get_features-set_features :
    (c : Controller) (id other value : ℕ)
    → value < 2 ^ 32
    → let (d, completion) = set_features c id 0x0b value in
      (completion.status ≡ (if value % 2 ^ 31 == 0 then sc_success else sc_invalid_field_dnr))
      × ((get_features d other 0x0b).result
          ≡ (if value % 2 ^ 31 == 0 then value else (get_features c other 0x0b).result))
unfolding set_features get_features ℕ_discrete
get_features-set_features c id other value h = (ground arith, ground arith)
