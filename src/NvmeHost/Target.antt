-- ===== src/NvmeHost/Target.antt =====
-- The target of this repository (pkg/nvme/tcp_queue.go) as the server of the host: what its queue sends
-- back on each frame.
pub mod Log
pub mod Commands
pub mod Data
pub mod Serves
pub mod Connect
pub mod Steps
pub mod Discovers
use discovery_client.Prelude.{
  ℕ, Bool, true, false, Option, none, some, not, ◌==◌, ℕ_eq, if◌then◌else◌, List, [], ◌∷◌, ◌++◌,
}
use discovery_client.Nvme.Sgl.{ScatterList, new_scatter_list, new_cursor, write}
use discovery_client.Nvme.LogPage.{execute}
use discovery_client.Nvme.Controller.{Controller, Completion}
use discovery_client.Nvme.Queue.{
  Pdu, Command, Request, admin_connect, to_controller, property_set_request, property_get_request,
  identify, get_log_page, keep_alive, set_features_request, get_features_request, async_event, Init,
  accepted, refused, Queue, nvmet_request_init, new_completion_status, identify_data,
}
use discovery_client.Nvme.Queue.Execute.{Env}
use discovery_client.Nvme.Tcp.{
  Frame, Verdict, next_frame, fails, ends_silently, panics, data_len, needs_data_out, receive,
}
use discovery_client.NvmeHost.Commands.{AbstractRequest, frame_of}
use discovery_client.NvmeHost.Queue.{RspPdu, icresp, rsp, c2h_data}
use discovery_client.NvmeHost.Session.{copied}

-- `nvmeConnect`, of the type of the header, its `Plen`, `Pfv` and `Hpda`; `none` closes the queue.
unfoldable pub nvme_connect : ℕ → ℕ → ℕ → ℕ → Option RspPdu
nvme_connect pdu_type plen pfv hpda =
    if not (pdu_type == 0x0)
    then none
    else if not (plen == 128)
    then none
    else if not (pfv == 0)
    then none
    else if not (hpda == 0)
    then none
    else some (icresp 0 0)

module _ {R : Type 0} (env : Env R) where
  -- The list of a request once it is executed, where the command writes to it.
  unfoldable pub filled : Controller → Pdu → ScatterList → Command → ScatterList
  filled ctrl pdu buffer property_set_request = buffer
  filled ctrl pdu buffer property_get_request = buffer
  filled ctrl pdu buffer identify =
      (write (new_cursor buffer) (env.pack_id (identify_data ctrl))).0.sgl
  filled ctrl pdu buffer get_log_page =
      (execute env.pack_header env.pack_entry env.subsystem pdu.log_page pdu.cdw10 ctrl.host_nqn
        buffer).sgl_writer.sgl
  filled ctrl pdu buffer keep_alive = buffer
  filled ctrl pdu buffer set_features_request = buffer
  filled ctrl pdu buffer get_features_request = buffer
  filled ctrl pdu buffer async_event = buffer

  -- `sendDataPdu`, for a request to the controller.
  unfoldable pub send_data_pdu : Option Controller → Pdu → Command → List RspPdu
  send_data_pdu none pdu r = []
  send_data_pdu (some ctrl) pdu r =
      let length = data_len pdu (to_controller r) in
      c2h_data pdu.command_id length (copied (filled ctrl pdu (new_scatter_list length 8192) r))
      ∷ []

  -- The data of a completed request, where `needsDataOut`.
  unfoldable pub data_out : Option Controller → Pdu → Init → Completion → List RspPdu
  data_out ctrl pdu (refused status) c = []
  data_out ctrl pdu (accepted admin_connect) c = []
  data_out ctrl pdu (accepted (to_controller r)) c =
      if needs_data_out (to_controller r) (data_len pdu (to_controller r)) c
      then send_data_pdu ctrl pdu r
      else []

  -- The loop of `pollResponseChannel`, with `sendCqe`: the status is on the wire.
  unfoldable pub poll_response_channel :
      Option Controller → Pdu → Init → List Completion → List RspPdu
  poll_response_channel ctrl pdu request [] = []
  poll_response_channel ctrl pdu request (c ∷ cs) =
      data_out ctrl pdu request c
      ++ rsp (record c { status = new_completion_status c.status })
        ∷ poll_response_channel ctrl pdu request cs

  -- A queue, and whether it still reads; what it sends back on a request of the host.
  unfoldable pub serve : Queue × Bool → AbstractRequest → (Queue × Bool) × List RspPdu
  serve (queue, false) request = ((queue, false), [])
  serve (queue, true) request =
      let f = frame_of request in
      let (queue', cs, verdict) = receive env queue f in
      (
        (
          queue',
          elim verdict [
            | next_frame ↦ true
            | fails ↦ false
            | ends_silently ↦ false
            | panics ↦ false
          ],
        ),
        poll_response_channel queue.ctrl f.pdu (nvmet_request_init queue f.pdu) cs,
      )
