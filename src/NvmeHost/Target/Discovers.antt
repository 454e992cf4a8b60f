-- ===== src/NvmeHost/Target/Discovers.antt =====
-- A whole discovery of the host (pkg/nvme/nvmehost/tcp_client.go) against the target (pkg/nvme).
use discovery_client.Prelude.{
  is_some, ℕ, ◌+◌, ◌*◌, ◌/◌, ◌%◌, ◌^◌, ◌<◌, String, Bool, true, none, some, ℕ_eq, ℕ_discrete,
  String_eq, List, [], ◌∷◌, ◌≡◌, refl, ap, ◌∙◌, length, take, drop, map,
}
use discovery_client.HostApi.{NvmeDiscPageEntry}
use discovery_client.Nvme.LogPage.{page_entry_size}
use discovery_client.Nvme.Controller.{
  Controller, new_controller, is_ready, update_controller_configuration, start, supported, cc_en,
  cc_shn,
}
use discovery_client.Nvme.Queue.{Queue, IdCtrl, identify_data, discovery_subsys_name}
use discovery_client.Nvme.Queue.Execute.{Env}
use discovery_client.NvmeHost.Commands.{AbstractRequest, is_async, new_admin_connect_request}
use discovery_client.NvmeHost.Queue.{icresp, new_nvme_tcp_queue}
use discovery_client.NvmeHost.Queue.Answered.{idle, completed, ask-first}
use discovery_client.NvmeHost.Session.{
  NvmefDiscRspPageEntry, Lib, M, ◌>>=◌, ◌>>◌, get_log_page_entries, ok, give, send_connect_request,
  send_set_property_request, send_get_property_request, set_controller_configuration,
  set_properties, send_identify_request, send_async_event_set_feature, to_response,
  discover_session,
}
use discovery_client.NvmeHost.Session.Respond.{request_only_lem}
use discovery_client.NvmeHost.Session.Pages.{Unpacks}
use discovery_client.NvmeHost.Target.{serve}
use discovery_client.NvmeHost.Target.Commands.{on_wire}
use discovery_client.NvmeHost.Target.Connect.{joined, connect_data, serve-connect}
use discovery_client.NvmeHost.Target.Serves.{get_log_page_entries-serve}
use discovery_client.NvmeHost.Target.Steps.{
  and_then, send_get_property_request-serve, send_set_property_request-serve,
  send_identify_request-serve, send_async_event_set_feature-serve,
}

module _ {R : Type 0} (env : Env R) (lib : Lib) (queue : Queue) (host_nqn host_id : String) where
  -- The controller of the connection, once it is created, once it is enabled, and at the end.
  abbrev created : Controller
  created =
      new_controller queue.id queue.controller_id 0 host_nqn
        (env.uuid_text (lib.decode_host_id host_id))

  abbrev enabled : Controller
  enabled = record created { cc = 0x460001; csts = 1 }

  abbrev pub configured : Controller
  configured = record enabled { aen_bit_enabled = true }

  update-created : update_controller_configuration created 0x460001 ≡ enabled
  unfolding update_controller_configuration start supported cc_en cc_shn new_controller ℕ_discrete
  update-created = refl

  pub is_ready-enabled : is_ready enabled.csts ≡ true
  unfolding is_ready ℕ_discrete
  is_ready-enabled = refl

  send_connect_request-serve :
      queue.ctrl ≡ none
      → env.is_uuid (lib.decode_host_id host_id) ≡ true
      → is_some env.subsystem ≡ true
      → send_connect_request
          (serve env)
          lib
          host_nqn
          host_id
          ((queue, true), idle 1 (icresp 0 0 ∷ []))
        ≡ (((joined queue created, true), idle 2 []), ok tt)
  unfolding send_connect_request new_admin_connect_request is_async
  send_connect_request-serve free uuid served =
      let new : ℕ → AbstractRequest =
        λ i. new_admin_connect_request i 0 (connect_data (lib.decode_host_id host_id) host_nqn) in
      let cqe =
        on_wire (record { command_id = 1; status = 0; result = queue.controller_id % 2 ^ 16 }) in
      request_only_lem (serve env) lib (queue, true) (joined queue created, true) 1
        (icresp 0 0 ∷ []) new (idle 2 []) (completed (new 1) cqe)
        (ask-first (serve env) (queue, true) (joined queue created, true) 2 (new 1) cqe
          (serve-connect env queue 1 (lib.decode_host_id host_id) host_nqn free uuid served) refl
          refl)

  set_properties-serve :
      set_properties (serve env) lib ((joined queue created, true), idle 2 [])
      ≡ (((joined queue enabled, true), idle 7 []), ok tt)
  unfolding set_properties set_controller_configuration
  set_properties-serve =
      let q = joined queue created in
      let q' = joined queue enabled in
      let set : send_set_property_request (serve env) lib 0x14 0x460001 ((q, true), idle 3 [])
          ≡ (((q', true), idle 4 []), ok tt) =
        send_set_property_request-serve env lib q created refl 3 0x460001
        ∙ ap (λ c. (((joined queue c, true), idle 4 []), ok tt)) update-created in
      let get : ℕ → M (Queue × Bool) (Unit {0}) = send_get_property_request (serve env) lib in
      let configure : M (Queue × Bool) (Unit {0}) =
        set_controller_configuration (serve env) lib 0x460001 in
      and_then (λ _. configure >> (get 0x8 >> get 0x0))
        (send_get_property_request-serve env lib q created refl 2 0x0)
        (and_then (λ _. get 0x8 >> get 0x0)
          (and_then (λ _. get 0x1c) set
            (send_get_property_request-serve env lib q' enabled refl 4 0x1c))
          (and_then (λ _. get 0x0) (send_get_property_request-serve env lib q' enabled refl 5 0x8)
            (send_get_property_request-serve env lib q' enabled refl 6 0x0)))

  -- A discovery up to the log page.
  module _ (free : queue.ctrl ≡ none) (uuid : env.is_uuid (lib.decode_host_id host_id) ≡ true)
      (id_size : (i : IdCtrl) → length (env.pack_id i) ≡ 4096)
      (id_name : (i : IdCtrl)
        → i.sub_nqn ≡ discovery_subsys_name
        → lib.unpack_sub_nqn (env.pack_id i) ≡ some discovery_subsys_name)
      (entry_size : (e : R) → length (env.pack_entry e) ≡ page_entry_size)
      (header_size : (gen n : ℕ) → length (env.pack_header gen n) ≡ page_entry_size)
      (entry_of : R → NvmefDiscRspPageEntry)
      (u : Unpacks env.pack_header env.pack_entry entry_size header_size entry_of lib)
      (log : List R) (gen : ℕ) (fill : ℕ → ℕ → String → List R × ℕ × ℕ)
      (known : env.subsystem ≡ some fill)
      (serves : (o n : ℕ) (host : String)
        → fill o n host ≡ (take n (drop (o / page_entry_size) log), length log, gen)) where
    -- A discovery of the host against the target of this repository, on a new connection whose
    -- initial request is answered, ends without an error, with the entries of the target's log as the
    -- response, with pagination and without. The target takes the id of the host for a uuid, and its
    -- subsystem fills the pages from the log; packed entries, headers and identify data have their
    -- sizes, and the host's library reads what was packed; the size of the log fits in 32 bits, and
    -- its generation counter in 64. The discovery leaves the target with a controller for the host that
    -- is ready, and for which events are enabled.
    pub discover_session-serve :
        (paginated : Bool)
        → gen < 2 ^ 64
        → 1024 * (length log + 1) < 2 ^ 32
        → (id' : ℕ) × (queue' : Queue) × (discover_session
              (serve env)
              lib
              host_nqn
              host_id
              paginated
              ((queue, true), new_nvme_tcp_queue (icresp 0 0 ∷ []))
            ≡ (((queue', true), idle id' []), ok (to_response lib (map entry_of log))))
          × (queue'.ctrl ≡ some configured)
    unfolding discover_session new_nvme_tcp_queue new_controller identify_data
    discover_session-serve paginated young small =
        let q = joined queue enabled in
        let q' = joined queue configured in
        let (id', entries) =
          get_log_page_entries-serve env entry_size header_size entry_of lib u log gen fill known
            serves q' configured refl is_ready-enabled refl paginated 9 young small in
        let set_up : M (Queue × Bool) (Unit {0}) = set_properties (serve env) lib in
        let identify : M (Queue × Bool) (Unit {0}) = send_identify_request (serve env) lib in
        let events : M (Queue × Bool) (Unit {0}) = send_async_event_set_feature (serve env) lib in
        let answer : M (Queue × Bool) (List NvmeDiscPageEntry) =
          get_log_page_entries (serve env) lib paginated >>= λ es. give (ok (to_response lib es)) in
        (
          id',
          q',
          and_then (λ _. set_up >> (identify >> (events >> answer)))
              (send_connect_request-serve free uuid (ap is_some known))
              (and_then (λ _. identify >> (events >> answer)) set_properties-serve
                (and_then (λ _. events >> answer)
                  (send_identify_request-serve env lib q enabled refl 7 is_ready-enabled
                    (id_size (identify_data enabled)) (id_name (identify_data enabled) refl))
                  (and_then (λ _. answer)
                    (send_async_event_set_feature-serve env lib q enabled refl 8 is_ready-enabled)
                    (and_then (λ es. give (ok (to_response lib es))) entries refl)))),
          refl,
        )
