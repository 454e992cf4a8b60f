-- ===== src/NvmeHost/Session/Respond.antt =====
-- One request of the host and its response (pkg/nvme/nvmehost/tcp_queue.go), where one comes.
use discovery_client.Prelude.{ℕ, ◌+◌, ◌%◌, ◌^◌, some, List, ◌≡◌, refl}
use discovery_client.NvmeHost.Commands.{AbstractRequest}
use discovery_client.NvmeHost.Queue.{RspPdu, TcpQueue, next_cmd_id, ask}
use discovery_client.NvmeHost.Queue.Answered.{idle}
use discovery_client.NvmeHost.Session.{Lib, ok, respond, request_only, give, bind_ok}

-- The id after an id.
abbrev pub after : ℕ → ℕ
after id = (id + 1) % 2 ^ 16

module _ {S : Type 0} (serve : S → AbstractRequest → S × List RspPdu) (lib : Lib) (s s' : S)
    (id : ℕ) (pdus : List RspPdu) (new : ℕ → AbstractRequest) (queue : TcpQueue)
    (r : AbstractRequest)
    (asked : ask serve s (idle (after id) pdus) (new id) ≡ (s', queue, some r)) where
  pub respond_lem : respond serve lib new (s, idle id pdus) ≡ ((s', queue), ok r)
  unfolding respond next_cmd_id
  respond_lem = rw asked refl

  pub request_only_lem : request_only serve lib new (s, idle id pdus) ≡ ((s', queue), ok tt)
  unfolding request_only
  request_only_lem = bind_ok (λ r. give (ok tt)) respond_lem
