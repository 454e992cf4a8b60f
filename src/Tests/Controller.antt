-- ===== src/Tests/Controller.antt =====
-- A controller (pkg/nvme/controller.go) on concrete inputs.
use discovery_client.Prelude.{true, ℕ_eq, List, [], ◌∷◌, ◌≡◌, refl, arith, ℕ_discrete}
use discovery_client.Nvme.Controller.{
  Controller, new_controller, cc_en, cc_shn, clear, start, supported, set_shut_down, is_shut_down,
  shut_down, end_shut_down, reset_shut_down, update_controller_configuration, property_set,
  property_get, register_async_event_request, notify_async_event,
}
use discovery_client.Nvme.Controller.Registers.{
  IsSound, at_first, after, on_property_set, Reachable-IsSound,
}
use discovery_client.Nvme.Controller.Events.{
  Run, Input, request, notify, next, run, Balanced, run-Balanced,
}

abbrev fresh : Controller
fresh = new_controller 1 2 0 "host" "id"

-- The configuration that enables a controller, with the entry sizes that it supports.
abbrev enabled : Controller
enabled = (property_set fresh 7 0 0x14 0x460001).0

status_of_enabled :
    ((property_get enabled 8 0 0x1c).result ≡ 1)
    × ((property_get (property_set enabled 9 0 0x14 0x464001).0 10 0 0x1c).result ≡ 8)
unfolding ℕ_discrete new_controller cc_en cc_shn clear start supported set_shut_down is_shut_down
    shut_down end_shut_down reset_shut_down update_controller_configuration property_set
    property_get
status_of_enabled = (refl, refl)

Reachable-IsSound_example : IsSound enabled
Reachable-IsSound_example =
    Reachable-IsSound enabled
      (after fresh enabled (at_first 1 2 0 "host" "id") (on_property_set fresh 7 0 0x14 0x460001))

abbrev at_rest : Run
at_rest = record { ctrl = record fresh { aen_bit_enabled = true }; taken = []; sent = [] }

abbrev inputs : List Input
inputs = request 5 ∷ request 6 ∷ notify ∷ []

answered : ((run at_rest inputs).sent ≡ 5 ∷ []) × ((run at_rest inputs).taken ≡ 5 ∷ 6 ∷ [])
unfolding run next register_async_event_request notify_async_event new_controller
answered = (refl, refl)

run-Balanced_example : Balanced (run at_rest inputs)
unfolding new_controller
run-Balanced_example = run-Balanced at_rest inputs (refl, omega arith)
