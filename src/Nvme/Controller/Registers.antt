-- ===== src/Nvme/Controller/Registers.antt =====
-- The registers of a controller (pkg/nvme/controller.go, fabrics.go) as a state machine.
use discovery_client.Prelude.{
  ℕ, ◌%◌, ◌^◌, String, Bool, true, false, not, ◌==◌, ℕ_eq, ◌≡◌, refl, arith, if_both, ℕ_discrete,
}
use discovery_client.Nvme.Controller.{
  Controller, Completion, new_controller, cc_en, cc_shn, is_ready, is_failed, is_shut_down, clear,
  start, set_shut_down, shut_down, update_controller_configuration, property_set,
  keep_alive_expired, register_async_event_request, notify_async_event, set_features,
}

-- What happens to a controller: a command is executed, or its keep-alive timer expires.
pub data Step : Controller → Controller → Type 0 where
  on_property_set :
      (c : Controller) (id attrib offset value : ℕ)
      → Step c (property_set c id attrib offset value).0
  on_expiry : (c : Controller) → Step c (keep_alive_expired c).0
  on_register : (c : Controller) (id : ℕ) → Step c (register_async_event_request c id).0
  on_notify : (c : Controller) → Step c (notify_async_event c).0
  on_set_features : (c : Controller) (id cdw10 cdw11 : ℕ) → Step c (set_features c id cdw10 cdw11).0
  on_retain : (c : Controller) (rae : Bool) → Step c (record c { rae = rae })

pub data Reachable : Controller → Type 0 where
  at_first :
      (id controller_id kato : ℕ) (host_nqn hostid : String)
      → Reachable (new_controller id controller_id kato host_nqn hostid)
  after : (c d : Controller) → Reachable c → Step c d → Reachable d

-- A controller that is ready is enabled; one whose shutdown is complete is not ready; and no request
-- for a shutdown stays in the configuration.
pub record IsSound (c : Controller) : Type 0 where
  pub ready : is_ready c.csts ≡ true → cc_en c.cc ≡ true
  pub down : is_shut_down c.csts ≡ true → is_ready c.csts ≡ false
  pub no_request : cc_shn c.cc ≡ false

cleared :
    (c : Controller)
    → (is_ready (clear c).csts ≡ false)
      × (cc_shn (clear c).cc ≡ false)
      × (is_shut_down (clear c).csts ≡ is_shut_down c.csts)
unfolding clear is_ready cc_shn is_shut_down
cleared c = (ground arith, ground arith, ground arith)

started : (c : Controller) → (is_shut_down (start c).csts ≡ false) × ((start c).cc ≡ c.cc)
unfolding start is_shut_down
started c = (ground arith, refl)

shut : (c : Controller) → (is_ready (shut_down c).csts ≡ false) × (cc_shn (shut_down c).cc ≡ false)
unfolding shut_down set_shut_down clear is_ready cc_shn is_shut_down
shut c = (ground arith, ground arith)

update-IsSound :
    (c : Controller) (value : ℕ) → IsSound c → IsSound (update_controller_configuration c value)
unfolding update_controller_configuration
update-IsSound c value s =
    let set : Controller = record c { cc = value } in
    let a = started set in
    let b = cleared set in
    let d = shut set in
    let b' = cleared (start set) in
    let d' = shut (start set) in
    let d'' = shut (clear set) in
    record {
      ready = ground (arith, a, b, d, b', d', d'');
      down = ground (arith, a, b, d, b', d', d'');
      no_request = ground (arith, a, b, d, b', d', d'');
    }

-- A change of other fields keeps a controller sound.
same_registers : (c d : Controller) → c.cc ≡ d.cc → c.csts ≡ d.csts → IsSound c → IsSound d
same_registers c d e f s = record {
  ready = λ h. ground (arith, s.ready);
  down = λ h. ground (arith, s.down);
  no_request = ground (arith, s.no_request);
}

expired-IsSound : (c : Controller) → IsSound c → IsSound (keep_alive_expired c).0
unfolding keep_alive_expired is_failed is_ready is_shut_down
expired-IsSound c s = record {
  ready = ground (arith, s.ready);
  down = ground (arith, s.down);
  no_request = ground (arith, s.no_request);
}

Step-IsSound : (c d : Controller) → Step c d → IsSound c → IsSound d
unfolding property_set register_async_event_request notify_async_event set_features
Step-IsSound c _ (on_property_set _ id attrib offset value) s =
    if_both (λ (r : Controller × Completion). IsSound r.0) (not (attrib % 2 == 0)) s
      (if_both (λ (r : Controller × Completion). IsSound r.0) (offset == 0x14)
        (update-IsSound c (value % 2 ^ 32) s) s)
Step-IsSound c _ (on_expiry _) s = expired-IsSound c s
Step-IsSound c _ (on_register _ id) s = same_registers c _ (ground arith) (ground arith) s
Step-IsSound c _ (on_notify _) s = same_registers c _ (ground arith) (ground arith) s
Step-IsSound c _ (on_set_features _ id cdw10 cdw11) s =
    same_registers c _ (ground arith) (ground arith) s
Step-IsSound c _ (on_retain _ rae) s = same_registers c _ refl refl s

-- In every state that a controller reaches by commands and by the expiry of its keep-alive timer, it
-- is enabled if it is ready, it is not ready if its shutdown is complete, and no request for a
-- shutdown stays in its configuration.
pub Reachable-IsSound : (c : Controller) → Reachable c → IsSound c
unfolding new_controller is_ready is_shut_down cc_shn cc_en ℕ_discrete
Reachable-IsSound _ (at_first id controller_id kato host_nqn hostid) = record {
  ready = λ h. cc;
  down = λ h. refl;
  no_request = ground arith;
}
Reachable-IsSound d (after c _ r s) = Step-IsSound c d s (Reachable-IsSound c r)
