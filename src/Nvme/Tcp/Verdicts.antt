-- ===== src/Nvme/Tcp/Verdicts.antt =====
-- After which frames the loop of a connection (pkg/nvme/tcp_queue.go) goes on.
use discovery_client.Prelude.{
  ◌/◌, ◌%◌, Bool, Option, none, some, not, ◌&&◌, ◌==◌, ℕ_eq, is_some, if◌then◌else◌, ◌≡◌, refl,
  arith, if_both,
}
use discovery_client.Nvme.Controller.{Controller, is_ready}
use discovery_client.Nvme.Queue.{
  ConnectData, Pdu, Request, admin_connect, to_controller, Init, accepted, refused, Queue,
  nvmet_request_init, parse_command, nvmet_parse_connect_cmd, nvmet_parse_fabrics_command,
  nvmet_parse_discovery_command,
}
use discovery_client.Nvme.Queue.Execute.{Env, Reaction, answered, pending, panicked, executed}
use discovery_client.Nvme.Queue.Connect.{welcome}
use discovery_client.Nvme.Queue.Answers.{
  Reacts, Fits, init-Fits, crashes, writes_nil, executed-Reacts,
}
use discovery_client.Nvme.Tcp.{
  Frame, Verdict, next_frame, fails, ends_silently, panics, going_on, list_of, header_valid,
  is_write, data_len, map_data, has_inline_data, need_data_in, is_invalid_log_page, execute_frame,
  mapped_frame, init_frame, receive,
}

-- The verdict on a frame with a valid header. A command that is refused ends the connection, unless it
-- asks for a log page that is not supported. A connect command must bring all its data with it. A
-- command that reads must not claim to bring data: if it does, the loop ends without an error. The
-- server panics on a connect command that it accepts, if the queue has no discovery subsystem, and on
-- a command that writes its answer although the length of that is 0.
unfoldable pub expected_connect : {R : Type 0} → Env R → Pdu → Option (Option ConnectData) → Verdict
expected_connect env pdu none = fails
expected_connect env pdu (some sent) =
    if welcome env.is_uuid pdu sent && not (is_some env.subsystem) then panics else next_frame

unfoldable pub expected : {R : Type 0} → Env R → Queue → Frame → Init → Verdict
expected env queue f (refused status) = if status == 0x4109 then next_frame else fails
expected env queue f (accepted admin_connect) =
    if f.sgl_type == 0x1 then expected_connect env f.pdu f.data_in else fails
expected env queue f (accepted (to_controller r)) =
    let length = data_len f.pdu (to_controller r) in
    if f.sgl_type == 0x1 && not (length == 0)
    then ends_silently
    else if writes_nil env queue f.pdu none (list_of length) r queue.ctrl
    then panics
    else next_frame

-- The statuses with which a command is refused.
abbrev IsRefusal : Init → Type 0
IsRefusal (accepted r) = Unit
IsRefusal (refused status) = is_invalid_log_page status ≡ (status == 0x4109)

refusals :
    IsRefusal (refused 0x4001)
    × IsRefusal (refused 0x1)
    × IsRefusal (refused 0x4002)
    × IsRefusal (refused 0x4109)
unfolding is_invalid_log_page
refusals = (ground arith, ground arith, ground arith, ground arith)

fabrics-IsRefusal : (pdu : Pdu) → IsRefusal (nvmet_parse_fabrics_command pdu)
unfolding nvmet_parse_fabrics_command
fabrics-IsRefusal pdu =
    if_both IsRefusal (pdu.fc_type == 0x0) tt
      (if_both IsRefusal (pdu.fc_type == 0x4) tt (refusals.0))

connect-IsRefusal : (pdu : Pdu) → IsRefusal (nvmet_parse_connect_cmd pdu)
unfolding nvmet_parse_connect_cmd
connect-IsRefusal pdu =
    if_both IsRefusal (not (pdu.opcode == 0x7f)) refusals.0
      (if_both IsRefusal (not (pdu.fc_type == 0x1)) refusals.0 tt)

discovery-IsRefusal :
    (ctrl : Controller) (pdu : Pdu) → IsRefusal (nvmet_parse_discovery_command ctrl pdu)
unfolding nvmet_parse_discovery_command
discovery-IsRefusal ctrl pdu = if_both IsRefusal (not (is_ready ctrl.csts)) refusals.0 (
    if_both IsRefusal (pdu.opcode == 0x06) tt (
      if_both IsRefusal (pdu.opcode == 0x02)
        (if_both IsRefusal (not (pdu.log_page.lid == 0x70)) refusals.3 tt)
        (if_both IsRefusal (pdu.opcode == 0x18) tt (
          if_both IsRefusal (pdu.opcode == 0x09) tt (
            if_both IsRefusal (pdu.opcode == 0x0a) tt
              (if_both IsRefusal (pdu.opcode == 0x0c) tt refusals.1))))))

parse-IsRefusal : (o : Option Controller) (pdu : Pdu) → IsRefusal (parse_command o pdu)
unfolding parse_command
parse-IsRefusal none pdu = connect-IsRefusal pdu
parse-IsRefusal (some ctrl) pdu =
    if_both IsRefusal (pdu.opcode == 0x7f) (fabrics-IsRefusal pdu) (discovery-IsRefusal ctrl pdu)

init-IsRefusal : (queue : Queue) (pdu : Pdu) → IsRefusal (nvmet_request_init queue pdu)
unfolding nvmet_request_init
init-IsRefusal queue pdu =
    if_both IsRefusal (not (pdu.flags % 4 == 0)) refusals.2 (
      if_both IsRefusal (not (pdu.flags / 64 % 4 == 1)) refusals.2 (parse-IsRefusal queue.ctrl pdu))

module _ {R : Type 0} (env : Env R) (queue : Queue) (f : Frame) where
  going_on-Reacts :
      (crash : Bool) (h : Queue × Reaction)
      → Reacts queue f.pdu crash h.0 h.1
      → going_on h.1 ≡ (if crash then panics else next_frame)
  going_on-Reacts crash (queue', answered c) h = rw (h.0) refl
  going_on-Reacts crash (queue', pending) h = rw (h.0) refl
  going_on-Reacts crash (queue', panicked) h = rw h refl

  execute_frame-verdict :
      (r : Request) (sent : Option ConnectData)
      → Fits queue.ctrl (accepted r)
      → (execute_frame env queue f.pdu r (some sent)).2 ≡ (
          if crashes env queue f.pdu sent (list_of (data_len f.pdu r)) (accepted r)
          then panics
          else next_frame)
  unfolding execute_frame executed
  execute_frame-verdict r sent fits =
      going_on-Reacts (crashes env queue f.pdu sent (list_of (data_len f.pdu r)) (accepted r))
        (executed env queue f.pdu sent (list_of (data_len f.pdu r)) (accepted r))
        (executed-Reacts env queue f.pdu sent (list_of (data_len f.pdu r)) (accepted r) fits)

  connect-verdict :
      (o : Option (Option ConnectData))
      → Fits queue.ctrl (accepted admin_connect)
      → (execute_frame env queue f.pdu admin_connect o).2 ≡ expected_connect env f.pdu o
  unfolding execute_frame expected_connect crashes
  connect-verdict none fits = refl
  connect-verdict (some sent) fits = execute_frame-verdict admin_connect sent fits

  accepted-verdict :
      (r : Request)
      → Fits queue.ctrl (accepted r)
      → (init_frame env queue f (accepted r)).2 ≡ expected env queue f (accepted r)
  unfolding init_frame mapped_frame map_data expected is_write has_inline_data need_data_in crashes
  accepted-verdict admin_connect fits =
      let e = connect-verdict f.data_in fits in unfold data_len in ground (arith, e)
  accepted-verdict (to_controller c) fits =
      let e = execute_frame-verdict (to_controller c) none fits in ground (arith, e)

  init_frame-verdict :
      (i : Init)
      → IsRefusal i
      → Fits queue.ctrl i
      → (init_frame env queue f i).2 ≡ expected env queue f i
  unfolding init_frame expected
  init_frame-verdict (accepted r) h fits = accepted-verdict r fits
  init_frame-verdict (refused status) h fits = ground (arith, h)

  -- How the loop goes on after a frame: with an error, if the header is not valid; or else as the
  -- command says. It goes on with the next frame, except after a refused command (unless that is for
  -- a log page which is not supported), after a connect command without all its data, and after a
  -- command that reads but claims to bring data, where it ends without any error. It ends in a panic on
  -- an accepted connect command to a queue without a discovery subsystem, and on a command that writes
  -- an answer whose length is 0, as a request for the log page may be.
  pub receive-expected :
      (receive env queue f).2
      ≡ (if header_valid f then expected env queue f (nvmet_request_init queue f.pdu) else fails)
  unfolding receive
  receive-expected = ground (
    arith,
    init_frame-verdict (nvmet_request_init queue f.pdu) (init-IsRefusal queue f.pdu)
        (init-Fits queue f.pdu),
  )
