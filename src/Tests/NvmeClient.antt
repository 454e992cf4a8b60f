-- ===== src/Tests/NvmeClient.antt =====
-- The client's options and commands (pkg/nvmeclient) on concrete inputs.
use discovery_client.NvmeClient.Discover.{
  PageHeader, PageEntry, Kernel, ok, unpack_entries, check_header, discover_options, convert,
  discovery_get_log_page, discover,
}
use discovery_client.NvmeClient.Discover.Stable.{Serves, discovery_get_log_page_lem}
use discovery_client.Prelude.{
  true, ◌==◌, ℕ, ◌+◌, some, ℕ_eq, ℕ_discrete, if◌then◌else◌, ◌*◌, ◌/◌, false, String_discrete,
  Bool-cases, ◌≡◌, ◌≤◌, refl, ap, arith, List, [], ◌∷◌, length, length-replicate, take, replicate,
  zero, suc, String, Bool, ◌⊎◌, inl, inr,
}
use discovery_client.Prelude.Int.{pos, negsuc}
use discovery_client.Nvme.LogPage.{get_log_page_len, get_log_page_offset, retain_asynchronous_event}
use discovery_client.NvmeClient.{ConnectRequest, text, number, to_options, get_log_command}
use discovery_client.NvmeClient.GetLog.{received, received-get_log_command}
use discovery_client.NvmeClient.Connect.{Connected, Connector, subsystem_name, connect_device}
use discovery_client.NvmeClient.Connect.Retried.{Retries, unless_refused, connect_device-tries}

abbrev with_secret : ConnectRequest
with_secret = record {
  transport = "tcp";
  traddr = "10.0.0.1";
  trsvcid = pos 4420;
  hostnqn = "";
  hostaddr = "";
  subsysnqn = "cluster";
  ctrl_loss_tmo = negsuc 0;
  max_io_queues = pos 0;
  hostid = "";
  kato = pos 0;
  dh_chap_secret = "secret";
  dh_chap_controller_secret = "";
}

options_with_secret :
    to_options with_secret
    ≡ ("nqn", text "cluster")
      ∷ ("transport", text "tcp")
      ∷ ("traddr", text "10.0.0.1")
      ∷ ("trsvcid", number (pos 4420))
      ∷ ("ctrl_loss_tmo", number (negsuc 0))
      ∷ ("dhchap_secret", text "secret")
      ∷ []
unfolding to_options String_discrete Bool-cases
options_with_secret = refl

received-get_log_command_example :
    ((received (get_log_command 0 0x70 0 8192 0 false 4096)).lid ≡ 0x70)
    × (get_log_page_offset (received (get_log_command 0 0x70 0 8192 0 false 4096)) ≡ 8192)
    × (get_log_page_len (received (get_log_command 0 0x70 0 8192 0 false 4096)) ≡ 4096 / 4 * 4)
    × (retain_asynchronous_event (get_log_command 0 0x70 0 8192 0 false 4096).cdw10 ≡ false)
received-get_log_command_example =
    received-get_log_command 0 0x70 0 8192 0 4096 false (omega arith) (omega arith) (omega arith)
      (omega arith)

-- A kernel whose state counts the reads. Its log grows by one entry after four of them.
abbrev entry : PageEntry
entry = record {
  sub_type = 2;
  port_id = 1;
  cntl_id = 2;
  trsvc_id = "4420";
  subnqn = "cluster";
  traddr = "10.0.0.1";
}

abbrev log_after : ℕ → List PageEntry
log_after w = replicate (2 + w / 4) entry

abbrev header_after : ℕ → PageHeader
header_after w = record { gen_ctr = w / 4; num_rec = length (log_after w) }

abbrev a_kernel : Kernel ℕ
a_kernel = record {
  can_open = λ w ctrl. true;
  read_header = λ w ctrl. (w + 1, some (header_after (w + 1)));
  read_log = λ w ctrl n. (w + 1, some (header_after w, replicate n entry));
  add_ctrl = λ w options. (w, some 0);
  remove_ctrl = λ w ctrl. w;
  adjust_traddr = λ s. some s;
  get_or_create_hostid = some "id";
  parse_int = λ s. some (pos 4420);
  trim_zeros = λ s. s;
}

take-replicate : (m n : ℕ) → m ≤ n → take m (replicate n entry) ≡ replicate m entry
take-replicate zero n le = refl
take-replicate (suc m) zero le = absurd (omega (arith, le))
take-replicate (suc m) (suc n) le = ap (entry ∷◌) (take-replicate m n (omega (arith, le)))

all_of :
    (m n : ℕ)
    → length (replicate m entry) ≤ n
    → take (length (replicate m entry)) (replicate n entry) ≡ replicate m entry
all_of m n le =
    let size : length (replicate m entry) ≡ m = length-replicate m entry in
    rw size (take-replicate m n (omega (arith, le, size)))

a_kernel-Serves : Serves a_kernel 7
a_kernel-Serves = record {
  log = log_after;
  gen = λ w. w / 4;
  after_header = λ w. w + 1;
  during = λ w n. w;
  after_log = λ w n. w + 1;
  buffer = λ w n. replicate n entry;
  opens = λ w. refl;
  header = λ w. refl;
  log_page = λ w n. refl;
  buffer_size = λ w n. length-replicate n entry;
  whole = λ w n same le. all_of (2 + w / 4) n le;
  header_forward = λ w. omega arith;
  log_forward = λ w n. omega arith;
  counts = λ w w' same. ap (λ g. replicate (2 + g) entry) same;
}

discovery_get_log_page_lem_example :
    (discovery_get_log_page a_kernel 0 7).1 ≡ ok (entry ∷ entry ∷ [])
unfolding ℕ_discrete a_kernel-Serves
discovery_get_log_page_lem_example = discovery_get_log_page_lem a_kernel 7 a_kernel-Serves 0

discovered :
    (discover a_kernel 0 (record {
      transport = "tcp";
      traddr = "10.0.0.1";
      trsvcid = pos 8009;
      hostnqn = "host";
      hostaddr = "";
      kato = 0;
      hostid = "";
    })).1
    ≡ ok (
        record {
          port_id = 1;
          cntl_id = 2;
          trsvc_id = 4420;
          subnqn = "cluster";
          traddr = "10.0.0.1";
          sub_type = 2;
        }
        ∷ record {
          port_id = 1;
          cntl_id = 2;
          trsvc_id = 4420;
          subnqn = "cluster";
          traddr = "10.0.0.1";
          sub_type = 2;
        }
        ∷ [])
unfolding discover discovery_get_log_page convert unpack_entries check_header discover_options
    String_discrete ℕ_discrete Bool-cases
discovered = refl

-- A kernel whose state counts the attempts; the second one goes well.
abbrev Attempt : Type 0
Attempt = ℕ × ConnectRequest × Connected

retry : ℕ → (Attempt → Attempt × Bool) → Attempt → Attempt
retry zero f st = st
retry (suc zero) f st = (f st).0
retry (suc (suc n)) f st =
    let rest = retry (suc n) f (f st).0 in if (f st).1 then (f st).0 else rest

abbrev added : ℕ → String ⊎ ℕ
added w = if w == 1 then inr 7 else inl "timeout"

abbrev second_time : Connector ℕ
second_time = record {
  adjust_traddr = λ s. some s;
  get_or_create_hostid = some "id";
  has_suffix = λ name suffix. true;
  add_suffix = λ name suffix. name;
  contains = λ text part. false;
  add_ctrl = λ w options. (w + 1, added w);
  retry_do = retry;
}

second_time-Retries : Retries second_time
unfolding retry
second_time-Retries = record { last = λ f st. refl; more = λ n f st. refl }

abbrev prepared : ConnectRequest
prepared = record with_secret {
  hostid = "id";
  subsysnqn = subsystem_name second_time "aux" "cluster";
}

connect_device-tries_example :
    connect_device second_time "aux" 0 with_secret
    ≡ unless_refused second_time
        (to_options prepared)
        (second_time.add_ctrl 0 (to_options prepared))
unfolding String_discrete
connect_device-tries_example =
    connect_device-tries second_time "aux" second_time-Retries 0 with_secret "10.0.0.1" "id" refl
      refl refl refl refl
