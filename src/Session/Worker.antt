-- ===== src/Session/Worker.antt =====
-- src/qwen_tts_bridge/session/worker_session.cpp: what the session does under its lock when the
-- transport calls it. Each function is one private method or one handler of the class. The JSON
-- codec is a parameter. `notify_state_locked` wakes waiting threads, which then look at the state,
-- so it has no part here. `queued_event_bytes` counts bytes that are held in memory, so its sum
-- stays below 2^64 and is not reduced.
use qwen3_tts_bridge_cpp.Common.{
  ℕ, zero, suc, ◌+◌, ◌-◌, min, String, Bool, true, false, not, ◌&&◌, ◌||◌, Option, none, some, List,
  [], ◌∷◌, ◌++◌, ltb, leb, ◌==◌, ◌!=◌, if◌then◌else◌, length,
}
use qwen3_tts_bridge_cpp.Common.Int.{ℤ}
use qwen3_tts_bridge_cpp.Data.{
  Frame, FrameType, control_json, audio_pcm, error_json, unlisted, ParseStatus, need_more_data,
  frame_ready,
}
use qwen3_tts_bridge_cpp.Framing.Parser.{append, parse_next}
use qwen3_tts_bridge_cpp.Control.Messages.{
  ControlMessage, ControlMessageType, ready_message, ControlCodec, control_message_type, is_ok,
  worker_to_client,
}
use qwen3_tts_bridge_cpp.Session.Types.{
  WorkerSession, WorkerSessionEvent, WorkerSessionEventType, WorkerSessionState, empty_event,
  make_session_error, make_protocol_error, make_transport_error, event_payload_size, is_live,
  is_starting, is_ready_state, is_ready_type, is_shutdown_type, is_shutdown_ack_type,
  is_session_level_worker_control, is_request_level_worker_control,
}

module _ {D : Type 0} where
  unfoldable pub enqueue_event_locked :
      WorkerSession D → WorkerSessionEvent D → Bool → WorkerSession D × Bool
  enqueue_event_locked s event exempt_from_limits =
      let payload_size = event_payload_size event in
      let event_count_full = leb s.options.max_event_queue_events (length s.events) in
      let byte_count_full =
        ltb s.options.max_event_queue_bytes payload_size
        || ltb (s.options.max_event_queue_bytes - payload_size) s.queued_event_bytes in
      let overflow : WorkerSessionEvent D =
        make_session_error "worker session event queue overflow" in
      if not exempt_from_limits
        && not s.event_queue_overflowed
        && (event_count_full || byte_count_full)
      then (
        record s {
          event_queue_overflowed = true;
          state = if is_live s.state then WorkerSessionState.failed else s.state;
          queued_event_bytes = s.queued_event_bytes + event_payload_size overflow;
          events = s.events ++ (overflow ∷ []);
        },
        true,
      )
      else if s.event_queue_overflowed && not exempt_from_limits
      then (s, true)
      else (
        record s {
          queued_event_bytes = s.queued_event_bytes + payload_size;
          events = s.events ++ (event ∷ []);
        },
        false,
      )

  unfoldable pub fail_with_event_locked :
      WorkerSession D → WorkerSessionEvent D → Bool → WorkerSession D × Bool
  fail_with_event_locked s event exempt_from_limits =
      enqueue_event_locked
        (record s { state = if is_live s.state then WorkerSessionState.failed else s.state }) event
        exempt_from_limits

  unfoldable pub mark_outbound_control_locked :
      WorkerSession D → ℕ → ControlMessageType → WorkerSession D
  mark_outbound_control_locked s request_id message_type =
      if request_id == 0 && is_shutdown_type message_type
      then record s { shutdown_requested = true }
      else s

  unfoldable pub is_ready_message_allowed_locked : WorkerSession D → ℕ → Bool
  is_ready_message_allowed_locked s request_id = is_starting s.state && request_id == 0

  unfoldable pub is_control_message_allowed_locked : WorkerSession D → ℕ → ControlMessageType → Bool
  is_control_message_allowed_locked s request_id message_type =
      if is_ready_type message_type
      then is_ready_message_allowed_locked s request_id
      else if not (is_ready_state s.state)
      then false
      else if is_shutdown_ack_type message_type
      then request_id == 0 && s.shutdown_requested
      else if is_session_level_worker_control message_type
      then request_id == 0
      else if is_request_level_worker_control message_type
      then request_id != 0
      else false

  unfoldable pub handle_audio_frame_locked : WorkerSession D → Frame → WorkerSession D × Bool
  handle_audio_frame_locked s frame =
      if not (is_ready_state s.state) || frame.header.request_id == 0
      then fail_with_event_locked s
          (make_protocol_error "audio frame is invalid in the current session state") true
      else enqueue_event_locked s
          (record empty_event {
            kind = WorkerSessionEventType.audio;
            request_id = frame.header.request_id;
            audio = frame.payload;
          })
          false

  unfoldable pub handle_transport_error : WorkerSession D → String → WorkerSession D
  handle_transport_error s message =
      if is_live s.state
      then (fail_with_event_locked s (make_transport_error message) true).0
      else (enqueue_event_locked s (make_transport_error message) true).0

  unfoldable pub handle_exit : WorkerSession D → ℤ → WorkerSession D
  handle_exit s exit_status =
      let event : WorkerSessionEvent D = record empty_event {
        kind = WorkerSessionEventType.exited;
        exit_status = exit_status;
      } in
      record ((enqueue_event_locked s event true).0) { state = WorkerSessionState.exited }

  -- The event at the front of the queue, once there is one.
  unfoldable pub wait_for_event : WorkerSession D → Option (WorkerSessionEvent D × WorkerSession D)
  wait_for_event s = elim s.events [
    | [] ↦ none
    | event ∷ rest ↦ some (
      event,
      record s {
        events = rest;
        queued_event_bytes =
            s.queued_event_bytes - min s.queued_event_bytes (event_payload_size event);
      },
    )
  ]

module _ {D : Type 0} (codec : ControlCodec D) where
  -- The end of `handle_control_frame_locked`, for a message that is allowed.
  unfoldable pub accept_control : WorkerSession D → ℕ → ControlMessage D → WorkerSession D × Bool
  accept_control s request_id message =
      let event : WorkerSessionEvent D = record empty_event {
        kind = WorkerSessionEventType.control;
        request_id = request_id;
        control = message;
      } in
      let (queued, should_stop) = enqueue_event_locked s event false in
      elim message [
        | ready_message m ↦
            if should_stop
            then (queued, true)
            else (record queued { ready_message = m; state = WorkerSessionState.ready }, false)
        | _ ↦ (queued, should_stop)
      ]

  unfoldable pub handle_control_frame_locked : WorkerSession D → Frame → WorkerSession D × Bool
  handle_control_frame_locked s frame =
      let decoded = codec.decode_control_message frame.payload worker_to_client in
      if not (is_ok decoded.error)
      then fail_with_event_locked s (make_protocol_error decoded.diagnostic) true
      else if not (
          is_control_message_allowed_locked s frame.header.request_id
            (control_message_type decoded.message))
      then fail_with_event_locked s
          (make_protocol_error "control message is invalid in the current session state") true
      else accept_control s frame.header.request_id decoded.message

  unfoldable pub handle_error_frame_locked : WorkerSession D → Frame → WorkerSession D × Bool
  handle_error_frame_locked s frame =
      let decoded = codec.decode_error_message frame.payload in
      let event : WorkerSessionEvent D = record empty_event {
        kind = WorkerSessionEventType.worker_error;
        request_id = frame.header.request_id;
        error = decoded.message;
      } in
      if not (is_ok decoded.error)
      then fail_with_event_locked s (make_protocol_error decoded.diagnostic) true
      else if is_starting s.state
      then fail_with_event_locked s event true
      else enqueue_event_locked s event false

  unfoldable pub handle_frame_type : WorkerSession D → Frame → FrameType → WorkerSession D × Bool
  handle_frame_type s frame control_json = handle_control_frame_locked s frame
  handle_frame_type s frame audio_pcm = handle_audio_frame_locked s frame
  handle_frame_type s frame error_json = handle_error_frame_locked s frame
  handle_frame_type s frame (unlisted v) =
      fail_with_event_locked s (make_protocol_error "unknown frame type") true

  unfoldable pub handle_frame_locked : WorkerSession D → Frame → WorkerSession D × Bool
  handle_frame_locked s frame = handle_frame_type s frame frame.header.frame_type

  -- The loop of `handle_bytes`; the flag asks to stop the transport.
  unfoldable pub handle_frames : ℕ → WorkerSession D → WorkerSession D × Bool
  handle_frames zero s = (s, false)
  handle_frames (suc fuel) s =
      let (parser, parsed) = parse_next s.parser in
      let s' : WorkerSession D = record s { parser = parser } in
      let (s'', stop) = handle_frame_locked s' parsed.frame in
      let rest = handle_frames fuel s'' in
      elim parsed.status [
        | need_more_data ↦ (s', false)
        | ParseStatus.fatal_error ↦
            ((fail_with_event_locked s' (make_protocol_error parsed.message) true).0, true)
        | frame_ready ↦ if stop then (s'', true) else rest
      ]

  -- Each frame takes bytes, so the buffer's length is fuel enough.
  unfoldable pub handle_bytes : WorkerSession D → List ℕ → WorkerSession D × Bool
  handle_bytes s bytes =
      let parser = append s.parser bytes in
      handle_frames (suc (length parser.buffer)) (record s { parser = parser })
