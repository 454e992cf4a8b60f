-- ===== src/Tests/NvmeHost.antt =====
-- The host of pkg/nvme/nvmehost on concrete inputs: it reads the log of a target that has three
-- entries, and keeps connections.
use discovery_client.Prelude.{
  ℕ, ◌/◌, String, true, false, none, some, not, ◌&&◌, ◌||◌, if◌then◌else◌, List, [], ◌∷◌, ◌≡◌, refl,
  arith, length, take, drop, map, replicate, length-replicate, ℕ_eq, ℕ_discrete,
}
use discovery_client.Prelude.Int.{pos}
use discovery_client.Prelude.Maps.{lookup}
use discovery_client.HostApi.{DiscoverRequest}
use discovery_client.Nvme.LogPage.{page_entry_size}
use discovery_client.Nvme.Controller.{Completion, is_ready}
use discovery_client.Nvme.Queue.{Queue}
use discovery_client.Nvme.Queue.Execute.{Env}
use discovery_client.NvmeHost.Commands.{AbstractRequest, new_get_discovery_log_page_request}
use discovery_client.NvmeHost.Pool.{
  Served, answers, fails, times_out, Call, discovers, disconnects, calls, new_host_api, discover,
  same_request,
}
use discovery_client.NvmeHost.Pool.Slots.{Slots}
use discovery_client.NvmeHost.Pool.Requests.{client_of, is_kept, is_answered, discover-Slots}
use discovery_client.NvmeHost.Pool.Accounts.{member, holds, Once, all_lost, calls-Accounts}
use discovery_client.NvmeHost.Queue.{RspPdu, rsp, c2h_data}
use discovery_client.NvmeHost.Queue.Answered.{idle}
use discovery_client.NvmeHost.Session.{
  NvmefDiscRspPageEntry, Lib, ok, failed, aborted, crashed, send_disc_log_page_request, page_loop,
}
use discovery_client.NvmeHost.Session.Pages.{Unpacks}
use discovery_client.NvmeHost.Session.Respond.{after}
use discovery_client.NvmeHost.Session.Errors.{send_disc_log_page_request-crashed, page_loop-aborted}
use discovery_client.NvmeHost.Target.{serve}
use discovery_client.NvmeHost.Target.Discovers.{configured, discover_session-serve}
use discovery_client.Nvme.Queue.{discovery_subsys_name}
use discovery_client.NvmeHost.Queue.{icresp, new_nvme_tcp_queue}
use discovery_client.NvmeHost.Session.{discover_session, to_response}

program : Unit {0}
unfolding is_ready Slots new_host_api ℕ_discrete new_get_discovery_log_page_request
program = tt

-- A record of the log is a port; a page of 1024 bytes begins with it.
abbrev entry_of : ℕ → NvmefDiscRspPageEntry
entry_of e = record {
  sub_type = 2;
  port_id = e;
  cntl_id = 0xffff;
  trsvc_id = "4420";
  subnqn = "nqn";
  traddr = "10.0.0.1";
}

abbrev pack_entry : ℕ → List ℕ
pack_entry e = e ∷ replicate 1023 0

abbrev pack_header : ℕ → ℕ → List ℕ
pack_header gen n = gen ∷ n ∷ replicate 1022 0

pack_entry-size : (e : ℕ) → length (pack_entry e) ≡ page_entry_size
pack_entry-size e = omega (arith, length-replicate {A = ℕ} 1023 0)

pack_header-size : (gen n : ℕ) → length (pack_header gen n) ≡ page_entry_size
pack_header-size gen n = omega (arith, length-replicate {A = ℕ} 1022 0)

abbrev header_of : List ℕ → ℕ × ℕ
header_of (gen ∷ n ∷ rest) = (gen, n)
header_of bytes = (0, 0)

abbrev record_of : List ℕ → NvmefDiscRspPageEntry
record_of (e ∷ rest) = entry_of e
record_of [] = entry_of 0

abbrev lib : Lib
lib = record {
  unpack_header = header_of;
  unpack_entry = record_of;
  unpack_sub_nqn = λ bytes. some discovery_subsys_name;
  atoi = λ text. some (pos 4420);
  decode_host_id = λ text. text;
  rounds = 1000;
}

lib-Unpacks : Unpacks pack_header pack_entry pack_entry-size pack_header-size entry_of lib
lib-Unpacks = record { header = λ gen n young few. refl; entry = λ e. refl }

abbrev log : List ℕ
log = 1 ∷ 2 ∷ 3 ∷ []

abbrev fill : ℕ → ℕ → String → List ℕ × ℕ × ℕ
fill o n host = (take n (drop (o / page_entry_size) log), length log, 5)

abbrev env : Env ℕ
env = record {
  is_uuid = λ s. true;
  uuid_text = λ s. s;
  pack_id = λ i. replicate 4096 0;
  pack_header = pack_header;
  pack_entry = pack_entry;
  subsystem = some fill;
}

abbrev queue : Queue
queue = record {
  id = 1;
  controller_id = 7;
  ctrl = none;
  sq_id = 0;
  cq_id = 0;
  sq_size = 0;
  sqhd = 0;
  sqhd_disabled = false;
  registered = [];
}

discover_session-serve_example :
    (id' : ℕ) × (queue' : Queue) × (discover_session
        (serve env)
        lib
        "host"
        "host id"
        false
        ((queue, true), new_nvme_tcp_queue (icresp 0 0 ∷ []))
      ≡ (((queue', true), idle id' []), ok (to_response lib (map entry_of log))))
    × (queue'.ctrl ≡ some (configured env lib queue "host" "host id"))
discover_session-serve_example =
    discover_session-serve env lib queue "host" "host id" refl refl
      (λ i. length-replicate {A = ℕ} 4096 0) (λ i discovery. refl) pack_entry-size pack_header-size
      entry_of lib-Unpacks log 5 fill refl (λ o n host. refl) false (omega arith) (omega arith)

-- A server that refuses every command.
abbrev refuses : Unit {0} → AbstractRequest → Unit {0} × List RspPdu
refuses s r = (s, rsp (record { command_id = r.cmd_id; status = 4; result = 0 }) ∷ [])

send_disc_log_page_request-crashed_example :
    send_disc_log_page_request refuses lib 1024 0 0 0 (tt, idle 9 [])
    ≡ ((tt, idle (after 9) []), crashed)
unfolding program
send_disc_log_page_request-crashed_example =
    send_disc_log_page_request-crashed refuses lib tt tt 9 1024 0 0 0
      (record { command_id = 9; status = 4; result = 0 }) refl refl

-- A server that sends a header for every part of the log.
abbrev completion : ℕ → Completion
completion id = record { command_id = id; status = 0; result = 0 }

abbrev only_header : List ℕ
only_header = replicate 1024 0

abbrev header_only : Unit {0} → AbstractRequest → Unit {0} × List RspPdu
header_only s r =
    (s, c2h_data r.cmd_id (length only_header) only_header ∷ rsp (completion r.cmd_id) ∷ [])

page_loop-aborted_example :
    page_loop header_only lib 100 3 [] (tt, idle 9 []) ≡ ((tt, idle 109 []), failed aborted)
unfolding program
page_loop-aborted_example =
    page_loop-aborted header_only lib 100 9 3 tt [] only_header completion (omega arith)
      (omega arith) (omega (arith, length-replicate {A = ℕ} 1024 0))
      (omega (arith, length-replicate {A = ℕ} 1024 0)) (λ i. refl) (λ i. refl)

abbrev wants : DiscoverRequest
wants = record {
  transport = "tcp";
  traddr = "10.0.0.1";
  trsvcid = pos 8009;
  hostnqn = "host";
  hostaddr = "";
  kato = 30000;
  hostid = "";
}

abbrev same_again : List Call
same_again =
    discovers wants (answers [])
    ∷ discovers wants fails
    ∷ discovers wants times_out
    ∷ discovers wants (answers [])
    ∷ disconnects 1
    ∷ []

calls-Accounts_example :
    let h = calls new_host_api same_again in
    let lost = all_lost new_host_api same_again [] in
    ((c : ℕ) → member c h.running ≡ (holds c h.conn_tbl || member c lost))
    × Once lost h.conn_tbl
    × Slots h.i h.conn_tbl
calls-Accounts_example = calls-Accounts same_again

new_host_api-Slots : Slots new_host_api.i new_host_api.conn_tbl
unfolding program
new_host_api-Slots = tt

abbrev no_entries : Served
no_entries = answers []

discover-Slots_example :
    let (h', d) = discover new_host_api wants no_entries in
    Slots h'.i h'.conn_tbl
    × (d.failed ≡ not (is_answered no_entries))
    × ((r' : DiscoverRequest)
        → client_of h' r' ≡ (
            if is_kept wants no_entries && same_request wants r'
            then some new_host_api.next_client
            else client_of new_host_api r'))
    × (is_kept wants no_entries ≡ true
        → lookup d.connection_id h'.conn_tbl
          ≡ some (record { request = wants; client = new_host_api.next_client }))
discover-Slots_example = discover-Slots new_host_api wants no_entries new_host_api-Slots
