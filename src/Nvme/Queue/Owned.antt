-- ===== src/Nvme/Queue/Owned.antt =====
-- The commands to the controller of a queue (pkg/nvme/nvme_queue.go) keep what the queue relies on.
use discovery_client.Prelude.{
  ℕ, ◌%◌, ◌^◌, ◌≤◌, Bool, Option, none, some, ℕ_eq, [], ◌∷◌, ◌≡◌, refl, arith, length,
  length-append, ◌∙◌,
}
use discovery_client.Nvme.Sgl.{ScatterList}
use discovery_client.Nvme.Controller.{
  Controller, property_set, set_features, register_async_event_request, keep_alive_expired,
  notify_async_event, update_controller_configuration, start, clear, shut_down, end_shut_down,
}
use discovery_client.Nvme.Controller.Registers.{
  Step, on_property_set, on_register, on_set_features, on_retain, Reachable, after,
}
use discovery_client.Nvme.Queue.{
  Pdu, Command, property_set_request, property_get_request, identify, get_log_page, keep_alive,
  set_features_request, get_features_request, async_event,
}
use discovery_client.Nvme.Queue.Execute.{Env, execute_on, set_rae}

-- A controller as it may be: it was created with the id, and at most four requests are pending.
pub record IsOwned (id : ℕ) (c : Controller) : Type 0 where
  pub reachable : Reachable c
  pub own_id : c.id ≡ id
  pub few : length c.async_event_pending_requests ≤ 4

pub owned_after :
    {id : ℕ} {c d : Controller}
    → IsOwned id c
    → Step c d
    → d.id ≡ c.id
    → length d.async_event_pending_requests ≤ 4
    → IsOwned id d
owned_after {id} {c} {d} o s same few = record {
  reachable = after c d o.reachable s;
  own_id = same ∙ o.own_id;
  few = few;
}

update-keeps :
    (c : Controller) (value : ℕ)
    → ((update_controller_configuration c value).id ≡ c.id)
      × ((update_controller_configuration c value).async_event_pending_requests
          ≡ c.async_event_pending_requests)
unfolding update_controller_configuration start clear shut_down end_shut_down
update-keeps c value = (ground arith, ground arith)

property_set-keeps :
    (c : Controller) (id attrib offset value : ℕ)
    → let d = (property_set c id attrib offset value).0 in
      (d.id ≡ c.id) × (d.async_event_pending_requests ≡ c.async_event_pending_requests)
unfolding property_set
property_set-keeps c id attrib offset value =
    let u = update-keeps c (value % 2 ^ 32) in (ground (arith, u), ground (arith, u))

set_features-keeps :
    (c : Controller) (id cdw10 cdw11 : ℕ)
    → let d = (set_features c id cdw10 cdw11).0 in
      (d.id ≡ c.id) × (d.async_event_pending_requests ≡ c.async_event_pending_requests)
unfolding set_features
set_features-keeps c id cdw10 cdw11 = (ground arith, ground arith)

register-keeps :
    (c : Controller) (id : ℕ)
    → length c.async_event_pending_requests ≤ 4
    → let d = (register_async_event_request c id).0 in
      (d.id ≡ c.id) × (length d.async_event_pending_requests ≤ 4)
unfolding register_async_event_request
register-keeps c id few =
    (ground arith, ground (arith, length-append c.async_event_pending_requests (id ∷ [])))

pub notify-keeps :
    (c : Controller)
    → length c.async_event_pending_requests ≤ 4
    → let d = (notify_async_event c).0 in
      (d.id ≡ c.id) × (length d.async_event_pending_requests ≤ 4)
unfolding notify_async_event
notify-keeps c few = (ground arith, ground arith)

pub expired-keeps :
    (c : Controller)
    → let d = (keep_alive_expired c).0 in
      (d.id ≡ c.id) × (d.async_event_pending_requests ≡ c.async_event_pending_requests)
unfolding keep_alive_expired
expired-keeps c = (ground arith, ground arith)

module _ {R : Type 0} (env : Env R) where
  set_rae-IsOwned :
      (id : ℕ) (c : Controller) (o : Option Bool) → IsOwned id c → IsOwned id (set_rae env c o)
  set_rae-IsOwned id c none v = v
  set_rae-IsOwned id c (some rae) v = owned_after v (on_retain c rae) refl v.few

  pub execute_on-IsOwned :
      (id : ℕ) (c : Controller) (pdu : Pdu) (buffer : ScatterList) (r : Command)
      → IsOwned id c
      → IsOwned id (execute_on env c pdu buffer r).0
  unfolding execute_on
  execute_on-IsOwned id c pdu buffer property_set_request v =
      let k = property_set-keeps c pdu.command_id pdu.attrib pdu.offset pdu.value in
      owned_after v (on_property_set c pdu.command_id pdu.attrib pdu.offset pdu.value) k.0
        (ground (arith, k.1, v.few))
  execute_on-IsOwned id c pdu buffer property_get_request v = v
  execute_on-IsOwned id c pdu buffer identify v = v
  execute_on-IsOwned id c pdu buffer get_log_page v = set_rae-IsOwned id c _ v
  execute_on-IsOwned id c pdu buffer keep_alive v = v
  execute_on-IsOwned id c pdu buffer set_features_request v =
      let k = set_features-keeps c pdu.command_id pdu.cdw10 pdu.cdw11 in
      owned_after v (on_set_features c pdu.command_id pdu.cdw10 pdu.cdw11) k.0
        (ground (arith, k.1, v.few))
  execute_on-IsOwned id c pdu buffer get_features_request v = v
  execute_on-IsOwned id c pdu buffer async_event v =
      let k = register-keeps c pdu.command_id v.few in
      owned_after v (on_register c pdu.command_id) k.0 k.1
