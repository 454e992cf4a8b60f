-- ===== src/Nvme/Tcp.antt =====
-- pkg/nvme/tcp_queue.go and tcp_request.go: the loop that receives the frames of a connection. What
-- comes over the socket is an argument.
pub mod Verdicts
use discovery_client.Prelude.{
  ℕ, ◌+◌, ◌*◌, ◌/◌, ◌%◌, ◌^◌, Bool, true, false, Option, none, some, not, ◌&&◌, ◌==◌, ℕ_eq,
  if◌then◌else◌, List, [], ◌∷◌, ◌++◌, ltb,
}
use discovery_client.Nvme.Sgl.{ScatterList, new_scatter_list}
use discovery_client.Nvme.LogPage.{get_log_page_len}
use discovery_client.Nvme.Controller.{Completion, sc_success, sc_invalid_field_dnr}
use discovery_client.Nvme.Queue.{
  ConnectData, Pdu, Request, admin_connect, to_controller, property_set_request,
  property_get_request, identify, get_log_page, keep_alive, set_features_request,
  get_features_request, async_event, Init, accepted, refused, Queue, nvmet_request_init, answer,
}
use discovery_client.Nvme.Queue.Execute.{
  Env, Reaction, answered, pending, panicked, execute_request,
}

-- A frame: the type and the length of its header, its pdu, the type of the pdu's data descriptor, and
-- the data after the pdu; `none` is data that ends too soon.
pub record Frame : Type 0 where
  pub pdu_type : ℕ
  pub hlen : ℕ
  pub pdu : Pdu
  pub sgl_type : ℕ
  pub data_in : Option (Option ConnectData)

-- How the loop of `handleReceivePdu` goes on: with the next frame, with an error on its channel, for
-- which the queue is closed, not at all and without an error, or in a panic.
pub data Verdict : Type 0 where
  next_frame fails ends_silently panics : Verdict

-- `pduValid`, and `pduSize` of a valid type.
unfoldable pub pdu_valid : ℕ → Bool
pdu_valid pdu_type = if pdu_type == 0x0 then true else pdu_type == 0x4

unfoldable pub pdu_size : ℕ → ℕ
pdu_size pdu_type = if pdu_type == 0x0 then 128 else 72

-- `recvTCPHeader`, once the header is read.
unfoldable pub header_valid : Frame → Bool
header_valid f = if not (pdu_valid f.pdu_type) then false else f.hlen == pdu_size f.pdu_type

-- `isWrite` and `dataLen` of the requests.
unfoldable pub is_write : Request → Bool
is_write admin_connect = true
is_write (to_controller r) = false

unfoldable pub data_len : Pdu → Request → ℕ
data_len pdu admin_connect = 1024
data_len pdu (to_controller property_set_request) = 0
data_len pdu (to_controller property_get_request) = 0
data_len pdu (to_controller identify) = 4096
data_len pdu (to_controller get_log_page) = get_log_page_len pdu.log_page
data_len pdu (to_controller keep_alive) = 0
data_len pdu (to_controller set_features_request) = 0
data_len pdu (to_controller get_features_request) = 0
data_len pdu (to_controller async_event) = 0

-- `NVME_SC_SGL_INVALID_OFFSET | NVME_SC_DNR`.
abbrev pub sc_sgl_invalid_offset_dnr : ℕ
sc_sgl_invalid_offset_dnr = 0x4016

-- `mapData`: the status, and the length of the pdu that it sets.
unfoldable pub map_data : Request → ℕ → ℕ → ℕ × ℕ
map_data r length sgl_type =
    if length == 0
    then (sc_success, 0)
    else if sgl_type == 0x1
    then (if not (is_write r)
        then (sc_invalid_field_dnr, 0)
        else if ltb 65536 length
        then (sc_sgl_invalid_offset_dnr, 0)
        else (sc_success, length))
    else (sc_success, 0)

-- `HasInlineData`, and `NeedDataIn` of a request that is not completed.
unfoldable pub has_inline_data : Request → ℕ → Bool
has_inline_data r pdu_len = is_write r && ltb 0 pdu_len

unfoldable pub need_data_in : Request → Bool
need_data_in r = is_write r

-- `stt & NVME_SC_INVALID_LOG_PAGE == NVME_SC_INVALID_LOG_PAGE`: the bits 0, 3 and 8.
unfoldable pub is_invalid_log_page : ℕ → Bool
is_invalid_log_page status = status % 2 == 1 && (status / 8 % 2 == 1 && status / 256 % 2 == 1)

abbrev pub completions : Reaction → List Completion
completions (answered c) = c ∷ []
completions pending = []
completions panicked = []

abbrev pub going_on : Reaction → Verdict
going_on (answered c) = next_frame
going_on pending = next_frame
going_on panicked = panics

-- The list of a request after `mapData`: nil for a length of 0.
unfoldable pub list_of : ℕ → Option ScatterList
list_of length = if length == 0 then none else some (new_scatter_list length 8192)

-- `needsDataOut`.
unfoldable pub needs_data_out : Request → ℕ → Completion → Bool
needs_data_out r length c = not (is_write r) && (ltb 0 length && c.status == sc_success)

module _ {R : Type 0} (env : Env R) where
  -- The execution of a request once its data is there: `none` is data that ends too soon.
  unfoldable pub execute_frame :
      Queue → Pdu → Request → Option (Option ConnectData) → Queue × List Completion × Verdict
  execute_frame queue pdu r none = (queue, [], fails)
  execute_frame queue pdu r (some sent) =
      let (queue', reaction) = execute_request env queue pdu sent (list_of (data_len pdu r)) r in
      (queue', completions reaction, going_on reaction)

  -- The loop from `mapData` on: its status and the length that it set.
  unfoldable pub mapped_frame : Queue → Frame → Request → ℕ → ℕ → Queue × List Completion × Verdict
  mapped_frame queue f r status pdu_len =
      if not (status == sc_success)
      then (if has_inline_data r pdu_len
          then (queue, [], fails)
          else (queue, answer f.pdu status 0 ∷ [], ends_silently))
      else if need_data_in r
      then (if not (has_inline_data r pdu_len)
          then (queue, [], fails)
          else execute_frame queue f.pdu r f.data_in)
      else execute_frame queue f.pdu r (some none)

  -- The loop from `nvmetRequestInit` on.
  unfoldable pub init_frame : Queue → Frame → Init → Queue × List Completion × Verdict
  init_frame queue f (refused status) =
      (queue, answer f.pdu status 0 ∷ [], if is_invalid_log_page status then next_frame else fails)
  init_frame queue f (accepted r) =
      let (status, pdu_len) = map_data r (data_len f.pdu r) f.sgl_type in
      mapped_frame queue f r status pdu_len

  -- The body of the loop of `handleReceivePdu`.
  unfoldable pub receive : Queue → Frame → Queue × List Completion × Verdict
  receive queue f =
      if not (header_valid f)
      then (queue, [], fails)
      else init_frame queue f (nvmet_request_init queue f.pdu)

  -- The loop over the frames.
  unfoldable pub receive_all : Queue → List Frame → Queue × List Completion × Verdict
  receive_all queue [] = (queue, [], next_frame)
  receive_all queue (f ∷ frames) =
      let (queue', sent, verdict) = receive queue f in
      let (queue'', more, last) = receive_all queue' frames in
      elim verdict [
        | next_frame ↦ (queue'', sent ++ more, last)
        | fails ↦ (queue', sent, fails)
        | panics ↦ (queue', sent, panics)
        | ends_silently ↦ (queue', sent, ends_silently)
      ]
