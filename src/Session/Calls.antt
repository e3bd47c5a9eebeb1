-- ===== src/Session/Calls.antt =====
-- src/qwen_tts_bridge/session/worker_session.cpp: the calls of the session's owner. The lock is
-- released while the transport works, so what the transport answers and the callbacks that it
-- makes meanwhile are arguments of each call, and every list of them is possible.
use qwen3_tts_bridge_cpp.Common.{
  ℕ, String, Bool, true, false, not, ◌&&◌, ◌||◌, none, some, List, [], ◌∷◌, ◌==◌, if◌then◌else◌,
}
use qwen3_tts_bridge_cpp.Common.Int.{ℤ}
use qwen3_tts_bridge_cpp.Data.{control_json, EncodeError}
use qwen3_tts_bridge_cpp.Framing.Codec.{encode_frame}
use qwen3_tts_bridge_cpp.Framing.Parser.{clear}
use qwen3_tts_bridge_cpp.Control.Messages.{
  ControlMessage, hello_message, shutdown_message, ControlCodec, control_message_type, is_ok,
}
use qwen3_tts_bridge_cpp.Session.Types.{
  WorkerSession, WorkerSessionState, SendResult, make_session_error, make_transport_error, is_live,
  is_starting, is_ready_state, is_client_to_worker_control, send_result_message,
}
use qwen3_tts_bridge_cpp.Session.Worker.{
  enqueue_event_locked, fail_with_event_locked, mark_outbound_control_locked,
  handle_transport_error, handle_exit, handle_bytes, wait_for_event,
}

pub data Callback : Type 0 where
  bytes_received : List ℕ → Callback
  transport_failed : String → Callback
  peer_exited : ℤ → Callback

-- What `transport_->send` answers, and the callbacks before it answers.
pub record Sending : Type 0 where
  pub meanwhile : List Callback
  pub result : SendResult

-- What the transport does during `start`.
pub record Starting : Type 0 where
  pub transport_started : Bool
  pub at_start : List Callback
  pub hello : Sending
  pub before_wake : List Callback
  pub running : Bool

-- What the transport does during `stop`.
pub record Stopping : Type 0 where
  pub running : Bool
  pub shutdown : Sending
  pub at_stop : List Callback

unfoldable pub is_accepted : SendResult → Bool
is_accepted SendResult.accepted = true
is_accepted _ = false

unfoldable pub is_encoded : EncodeError → Bool
is_encoded EncodeError.no_error = true
is_encoded _ = false

unfoldable pub is_stopped : WorkerSessionState → Bool
is_stopped WorkerSessionState.stopped = true
is_stopped _ = false

unfoldable pub is_stopping : WorkerSessionState → Bool
is_stopping WorkerSessionState.stopping = true
is_stopping _ = false

unfoldable pub is_exited : WorkerSessionState → Bool
is_exited WorkerSessionState.exited = true
is_exited _ = false

module _ {D : Type 0} where
  -- An encoding error of an outbound message.
  unfoldable pub report_encode_error : WorkerSession D → String → WorkerSession D
  report_encode_error s diagnostic =
      if is_starting s.state
      then (fail_with_event_locked s (make_session_error diagnostic) true).0
      else (enqueue_event_locked s (make_session_error diagnostic) true).0

  -- The end of `send_control_frame`, once the transport has answered.
  unfoldable pub finish_send : WorkerSession D → SendResult → WorkerSession D × Bool
  finish_send s result =
      if is_accepted result
      then (s, true)
      else if is_live s.state
      then (
        (fail_with_event_locked s (make_transport_error (send_result_message result)) true).0,
        false,
      )
      else (
        (enqueue_event_locked s (make_transport_error (send_result_message result)) true).0,
        false,
      )

  -- The first critical section of `start`.
  unfoldable pub begin_start : WorkerSession D → WorkerSession D × Bool
  begin_start s =
      if not s.has_transport
        || s.start_attempted
        || not (is_stopped s.state)
        || s.options.max_event_queue_events == 0
        || s.options.max_event_queue_bytes == 0
      then (s, false)
      else (
        record s {
          start_attempted = true;
          state = WorkerSessionState.starting;
          event_queue_overflowed = false;
          parser = clear s.parser;
          events = [];
          queued_event_bytes = 0;
          shutdown_requested = false;
        },
        true,
      )

  -- The first critical section of `stop`. The flags say whether to go on and to send `shutdown`.
  unfoldable pub begin_stop : WorkerSession D → WorkerSession D × Bool × Bool
  begin_stop s = if is_stopped s.state || is_stopping s.state then (s, false, false) else (
    record s { state = if is_exited s.state then s.state else WorkerSessionState.stopping },
    true,
    is_ready_state s.state,
  )

  -- The last one.
  unfoldable pub finish_stop : WorkerSession D → WorkerSession D
  finish_stop s = if is_stopping s.state then record s { state = WorkerSessionState.stopped } else s

-- The calls and callbacks that the session may see.
pub data Action (D : Type 0) : Type 0 where
  starts : Starting → Stopping → Action D
  sends : ℕ → ControlMessage D → Bool → Sending → Action D
  stops : Stopping → Action D
  takes : Action D
  calls_back : Callback → Action D

module _ {D : Type 0} (codec : ControlCodec D) where
  unfoldable pub deliver : WorkerSession D → Callback → WorkerSession D
  deliver s (bytes_received bytes) = (handle_bytes codec s bytes).0
  deliver s (transport_failed message) = handle_transport_error s message
  deliver s (peer_exited status) = handle_exit s status

  unfoldable pub deliver_all : WorkerSession D → List Callback → WorkerSession D
  deliver_all s [] = s
  deliver_all s (c ∷ cs) = deliver_all (deliver s c) cs

  -- `send_control_frame` from the framing of the payload on.
  unfoldable pub send_payload :
      WorkerSession D → ℕ → ControlMessage D → List ℕ → Sending → WorkerSession D × Bool
  send_payload s request_id message payload sending =
      let encoded = encode_frame control_json request_id payload in
      if not (is_encoded encoded.error)
      then (report_encode_error s encoded.message, false)
      else finish_send
          (deliver_all (mark_outbound_control_locked s request_id (control_message_type message))
            sending.meanwhile)
          sending.result

  unfoldable pub send_control_frame :
      WorkerSession D → ℕ → ControlMessage D → Sending → WorkerSession D × Bool
  send_control_frame s request_id message sending =
      let payload = codec.encode_control_message message in
      if not s.has_transport
      then (s, false)
      else if not (is_client_to_worker_control (control_message_type message))
      then (
        (enqueue_event_locked s (make_session_error "cannot send worker-to-client control message")
            true).0,
        false,
      )
      else if not (is_ok payload.error)
      then (report_encode_error s payload.diagnostic, false)
      else send_payload s request_id message payload.payload sending

  unfoldable pub send_control :
      WorkerSession D → ℕ → ControlMessage D → Bool → Sending → WorkerSession D × Bool
  send_control s request_id message running sending =
      if not (is_ready_state s.state) || not s.has_transport || not running
      then (s, false)
      else send_control_frame s request_id message sending

  -- `stop` between its two critical sections.
  unfoldable pub stop_transport : WorkerSession D → Bool → Stopping → WorkerSession D
  stop_transport s send_shutdown env =
      let told =
        if send_shutdown
        then (send_control_frame s 0 (shutdown_message (record { mode = "cancel" })) env.shutdown).0
        else s in
      if s.has_transport && env.running then deliver_all told env.at_stop else s

  unfoldable pub stop : WorkerSession D → Stopping → WorkerSession D
  stop s env =
      let (s', going, send_shutdown) = begin_stop s in
      if going then finish_stop (stop_transport s' send_shutdown env) else s'

  -- `start` after the transport has started and sent `hello`.
  unfoldable pub await_ready : WorkerSession D → Starting → Stopping → WorkerSession D × Bool
  await_ready s env stopping =
      let s' = deliver_all s env.before_wake in
      if is_ready_state s'.state && not s'.event_queue_overflowed && s'.has_transport && env.running
      then (s', true)
      else (stop s' stopping, false)

  unfoldable pub greet : WorkerSession D → Starting → Stopping → WorkerSession D × Bool
  greet s env stopping =
      let hello = hello_message (record {
        client_name = s.options.client_name;
        client_version = s.options.client_version;
      }) in
      let (s', sent) = send_control_frame s 0 hello env.hello in
      if not (is_starting s.state)
      then (stop s stopping, false)
      else if not sent
      then (stop s' stopping, false)
      else await_ready s' env stopping

  unfoldable pub start : WorkerSession D → Starting → Stopping → WorkerSession D × Bool
  start s env stopping =
      let (s', fresh) = begin_start s in
      let started = deliver_all s' env.at_start in
      if not fresh
      then (s', false)
      else if not env.transport_started
      then (record started { state = WorkerSessionState.failed }, false)
      else greet started env stopping

  unfoldable pub step : WorkerSession D → Action D → WorkerSession D
  step s (starts env stopping) = (start s env stopping).0
  step s (sends request_id message running sending) =
      (send_control s request_id message running sending).0
  step s (stops env) = stop s env
  step s takes = elim (wait_for_event s) [ none ↦ s | some r ↦ r.1 ]
  step s (calls_back c) = deliver s c

  unfoldable pub run : WorkerSession D → List (Action D) → WorkerSession D
  run s [] = s
  run s (a ∷ rest) = run (step s a) rest
