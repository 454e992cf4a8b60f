-- ===== src/NvmeHost/Target/Steps.antt =====
-- Single requests of the host (pkg/nvme/nvmehost/tcp_queue.go) against the target (pkg/nvme).
use discovery_client.Prelude.{
  ℕ, ◌+◌, ◌*◌, ◌/◌, ◌%◌, ◌^◌, ◌≤◌, true, false, some, ◌==◌, ℕ_eq, ℕ_discrete, String_eq,
  String_discrete, if◌then◌else◌, List, [], ◌∷◌, ◌≡◌, refl, sym, ap, arith, ◌∙◌, length,
}
use discovery_client.Nvme.Controller.{
  Controller, Completion, is_ready, property_set, property_get, set_features,
  update_controller_configuration,
}
use discovery_client.Nvme.Queue.{Queue, identify_data, discovery_subsys_name}
use discovery_client.Nvme.Queue.Execute.{Env}
use discovery_client.NvmeHost.Commands.{
  AbstractRequest, is_async, new_property_set_request, new_property_get_request,
  new_identify_request, new_set_feature_async_event_request,
}
use discovery_client.NvmeHost.Queue.{RspPdu, rsp, c2h_data}
use discovery_client.NvmeHost.Queue.Answered.{idle, completed, received, ask-rsp, ask-data}
use discovery_client.NvmeHost.Session.{
  Lib, M, ok, go_on, give, bind_ok, Outcome, request_only, check_identify,
  send_set_property_request, send_get_property_request, send_identify_request,
  send_async_event_set_feature,
}
use discovery_client.NvmeHost.Queue.{TcpQueue}
use discovery_client.NvmeHost.Session.Respond.{after, respond_lem, request_only_lem}
use discovery_client.NvmeHost.Session.Received.{copied-received}
use discovery_client.NvmeHost.Target.{serve}
use discovery_client.NvmeHost.Target.Commands.{
  on_wire, serve-property_set, serve-property_get, serve-set_feature_async_event,
}
use discovery_client.NvmeHost.Target.Data.{serve-identify}

-- An operation that goes well, and then what follows.
pub and_then :
    {S A B : Type 0} (f : A → M S B) {r : (S × TcpQueue) × Outcome A} {st : S × TcpQueue} {a : A}
    {out : (S × TcpQueue) × Outcome B}
    → r ≡ (st, ok a)
    → f a st ≡ out
    → go_on f r ≡ out
and_then f h k = bind_ok f h ∙ k

pub request_only-rsp :
    {S : Type 0} (serve : S → AbstractRequest → S × List RspPdu) (lib : Lib) (s s' : S) (id : ℕ)
    (new : ℕ → AbstractRequest) (cqe : Completion)
    → serve s (new id) ≡ (s', rsp cqe ∷ [])
    → cqe.command_id ≡ (new id).cmd_id
    → is_async (new id).request_type ≡ false
    → request_only serve lib new (s, idle id []) ≡ ((s', idle (after id) []), ok tt)
request_only-rsp serve lib s s' id new cqe served same sync =
    request_only_lem serve lib s s' id [] new (idle (after id) []) (completed (new id) cqe)
      (ask-rsp serve s s' (after id) (new id) cqe served same sync)

module _ {R : Type 0} (env : Env R) (lib : Lib) (queue : Queue) (c : Controller)
    (has : queue.ctrl ≡ some c) (id : ℕ) where
  pub send_get_property_request-serve :
      (off : ℕ)
      → send_get_property_request (serve env) lib off ((queue, true), idle id [])
        ≡ (((queue, true), idle (after id) []), ok tt)
  unfolding send_get_property_request new_property_get_request is_async property_get
  send_get_property_request-serve off =
      let attrib = (if off == 0x0 then 1 else 0) % 2 ^ 8 in
      request_only-rsp (serve env) lib (queue, true) (queue, true) id
        (λ i. new_property_get_request i off) (on_wire (property_get c id attrib off))
        (serve-property_get env queue c has id off) (property_get_id c id attrib off) refl
    where
      property_get_id :
          (c : Controller) (id attrib off : ℕ) → (property_get c id attrib off).command_id ≡ id
      property_get_id c id attrib off = ground arith

  pub send_set_property_request-serve :
      (val : ℕ)
      → let c' =
          update_controller_configuration c ((val % 2 ^ 32 + val / 2 ^ 32 * 2 ^ 32) % 2 ^ 32) in
        send_set_property_request (serve env) lib 0x14 val ((queue, true), idle id [])
        ≡ (((record queue { ctrl = some c' }, true), idle (after id) []), ok tt)
  unfolding send_set_property_request new_property_set_request is_async property_set ℕ_discrete
  send_set_property_request-serve val =
      let v = val % 2 ^ 32 + val / 2 ^ 32 * 2 ^ 32 in
      request_only-rsp (serve env) lib (queue, true)
        (record queue { ctrl = some (property_set c id 0 0x14 v).0 }, true) id
        (λ i. new_property_set_request i 0x14 val) (on_wire (property_set c id 0 0x14 v).1)
        (serve-property_set env queue c has id 0x14 val) refl refl

  pub send_identify_request-serve :
      is_ready c.csts ≡ true
      → length (env.pack_id (identify_data c)) ≡ 4096
      → lib.unpack_sub_nqn (env.pack_id (identify_data c)) ≡ some discovery_subsys_name
      → send_identify_request (serve env) lib ((queue, true), idle id [])
        ≡ (((queue, true), idle (after id) []), ok tt)
  unfolding send_identify_request new_identify_request is_async check_identify String_discrete
  send_identify_request-serve ready size name =
      let p = env.pack_id (identify_data c) in
      let (cqe, served, same) = serve-identify env queue c has ready id size in
      let served' : serve env (queue, true) (new_identify_request id)
          ≡ ((queue, true), c2h_data id (length p) p ∷ rsp cqe ∷ []) =
        served ∙ ap (λ n. ((queue, true), c2h_data id n p ∷ rsp cqe ∷ [])) (sym size) in
      let one : 1 ≤ length p = omega (arith, size) in
      let r = new_identify_request id in
      let asked =
        ask-data (serve env) (queue, true) (queue, true) (after id) r cqe p served' one refl same
          refl in
      and_then (λ r. give (check_identify lib r.sgl))
        (respond_lem (serve env) lib (queue, true) (queue, true) id [] (λ i. new_identify_request i)
          (idle (after id) []) (record r { sgl = some (received p); resp = some cqe }) asked)
        (rw (check_identify, copied-received p one, name) refl)

  pub send_async_event_set_feature-serve :
      is_ready c.csts ≡ true
      → send_async_event_set_feature (serve env) lib ((queue, true), idle id []) ≡ (
        (
          (record queue { ctrl = some (record c { aen_bit_enabled = true }) }, true),
          idle (after id) [],
        ),
        ok tt,
      )
  unfolding send_async_event_set_feature new_set_feature_async_event_request is_async set_features
      ℕ_discrete
  send_async_event_set_feature-serve ready =
      let (c', cqe) = set_features c id 0x0b (2 ^ 31) in
      request_only-rsp (serve env) lib (queue, true) (record queue { ctrl = some c' }, true) id
        (λ i. new_set_feature_async_event_request i) (on_wire cqe)
        (serve-set_feature_async_event env queue c has id ready) refl refl
