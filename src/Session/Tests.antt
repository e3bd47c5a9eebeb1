-- ===== src/Session/Tests.antt =====
-- Concrete runs of the worker session, and its theorems at concrete inputs.
use qwen3_tts_bridge_cpp.Common.{ℕ, ◌≡◌, refl, ◌⊎◌, true, false, List, [], ◌∷◌, ◌++◌, arith, length}
use qwen3_tts_bridge_cpp.Common.Words.{add_u64, sub_u64}
use qwen3_tts_bridge_cpp.Data.{Frame, default_header, audio_pcm}
use qwen3_tts_bridge_cpp.Framing.Parser.{append, clear}
use qwen3_tts_bridge_cpp.Framing.Parser.Refines.{pending}
use qwen3_tts_bridge_cpp.Framing.Parser.Stream.{split}
use qwen3_tts_bridge_cpp.Control.Messages.{cancel_message}
use qwen3_tts_bridge_cpp.Session.Fixtures.{
  codec, options, accepts, ready_bytes, audio_bytes, starting, stopping, new_session, ready_session,
}
use qwen3_tts_bridge_cpp.Session.Types.{
  WorkerSession, WorkerSessionState, make_session, make_protocol_error, is_live, is_ready_state,
  is_starting, event_payload_size,
}
use qwen3_tts_bridge_cpp.Session.Worker.{enqueue_event_locked, handle_bytes}
use qwen3_tts_bridge_cpp.Session.Calls.{
  Action, starts, sends, stops, takes, calls_back, bytes_received, transport_failed, run, start,
  stop,
}
use qwen3_tts_bridge_cpp.Session.Types.{
  is_client_to_worker_control, is_session_level_worker_control, is_request_level_worker_control,
  send_result_message, synthesize_payload_size, control_payload_size, is_ready_type,
  is_shutdown_type, is_shutdown_ack_type,
}
use qwen3_tts_bridge_cpp.Session.Worker.{
  fail_with_event_locked, mark_outbound_control_locked, is_ready_message_allowed_locked,
  is_control_message_allowed_locked, handle_audio_frame_locked, handle_transport_error, handle_exit,
  wait_for_event, accept_control, handle_control_frame_locked, handle_error_frame_locked,
  handle_frame_type, handle_frame_locked, handle_frames,
}
use qwen3_tts_bridge_cpp.Session.Calls.{
  is_accepted, is_encoded, is_stopped, is_stopping, is_exited, report_encode_error, finish_send,
  begin_start, begin_stop, finish_stop, deliver, deliver_all, send_payload, send_control_frame,
  send_control, stop_transport, await_ready, greet, step,
}
use qwen3_tts_bridge_cpp.Framing.Parser.{
  read_u16_le, read_u32_le, read_bytes_from, read_u64_le, to_frame_type, has_magic, read_header,
  header_fault, buffered_size, clear, make_fatal, compact_buffer, take_frame, parse_header,
  parse_next,
}
use qwen3_tts_bridge_cpp.Framing.Codec.{
  write_u16_le, write_u32_le, write_u64_le, frame_type_value, is_known_frame_type, max_payload_size,
  encode_error, write_header, encode_frame_header, encode_frame,
}
use qwen3_tts_bridge_cpp.Control.Messages.{control_message_type, is_ok}
use qwen3_tts_bridge_cpp.Session.Invariant.{IsValid, Enqueued, enqueue-Enqueued}
use qwen3_tts_bridge_cpp.Session.Invariant.Runs.{run-IsValid}
use qwen3_tts_bridge_cpp.Session.Phase.{IsOver, run-IsOver, stop-IsOver}
use qwen3_tts_bridge_cpp.Session.Phase.Ack.{told, ack_fails}
use qwen3_tts_bridge_cpp.Session.Phase.Start.{Answers, start-Answers}
use qwen3_tts_bridge_cpp.Session.Dispatch.{Dispatched, dispatch, handle_bytes-Dispatched}
use qwen3_tts_bridge_cpp.Session.Overflow.{run-IsClosed, dispatch_floods}

abbrev failed_session : WorkerSession ℕ
failed_session = record ready_session { state = WorkerSessionState.failed }

-- What a starting session makes of more than its queue takes.
abbrev flooding : List (Action ℕ)
flooding =
    starts
      (record starting {
        before_wake = bytes_received (ready_bytes ++ audio_bytes ++ audio_bytes) ∷ [];
      })
      stopping
    ∷ []

flooding_overflows : (run codec (make_session true options) flooding).event_queue_overflowed ≡ true
unfolding accept_control add_u64 append await_ready begin_start begin_stop buffered_size clear
    compact_buffer control_message_type control_payload_size deliver deliver_all encode_error
    encode_frame encode_frame_header enqueue_event_locked event_payload_size fail_with_event_locked
    finish_send finish_stop frame_type_value greet handle_audio_frame_locked handle_bytes
    handle_control_frame_locked handle_error_frame_locked handle_exit handle_frame_locked
    handle_frame_type handle_frames handle_transport_error has_magic header_fault is_accepted
    is_client_to_worker_control is_control_message_allowed_locked is_encoded is_exited
    is_known_frame_type is_live is_ok is_ready_message_allowed_locked is_ready_state is_ready_type
    is_request_level_worker_control is_session_level_worker_control is_shutdown_ack_type
    is_shutdown_type is_starting is_stopped is_stopping make_fatal make_session
    mark_outbound_control_locked max_payload_size parse_header parse_next read_bytes_from
    read_header read_u16_le read_u32_le read_u64_le report_encode_error run send_control
    send_control_frame send_payload send_result_message start step stop stop_transport sub_u64
    synthesize_payload_size take_frame to_frame_type wait_for_event write_header write_u16_le
    write_u32_le write_u64_le
flooding_overflows = refl

run-IsClosed_example : is_live (run codec (make_session true options) flooding).state ≡ false
run-IsClosed_example = run-IsClosed codec true options flooding flooding_overflows

-- More audio than the queue takes.
abbrev actions : List (Action ℕ)
actions =
    starts starting stopping
    ∷ sends 258 cancel_message true accepts
    ∷ calls_back (bytes_received audio_bytes)
    ∷ takes
    ∷ calls_back (bytes_received (audio_bytes ++ audio_bytes))
    ∷ calls_back (transport_failed "broken pipe")
    ∷ stops stopping
    ∷ []

abbrev audio_frame : Frame
audio_frame = record {
  header = record default_header { frame_type = audio_pcm; request_id = 258; payload_size = 2 };
  payload = 7 ∷ 9 ∷ [];
}

run-IsValid_example : IsValid (run codec (make_session true options) actions)
run-IsValid_example = run-IsValid codec true options actions

start-Answers_example :
    Answers (start codec new_session starting stopping) starting
    ⊎ (start codec new_session starting stopping ≡ (new_session, false))
start-Answers_example = start-Answers codec new_session starting stopping

handle_bytes-Dispatched_example :
    Dispatched codec ready_session
      (split (pending ready_session.parser ++ (audio_bytes ++ (81 ∷ []))))
      (handle_bytes codec ready_session (audio_bytes ++ (81 ∷ [])))
handle_bytes-Dispatched_example =
    handle_bytes-Dispatched codec ready_session (audio_bytes ++ (81 ∷ []))
      (record { within = omega arith }) refl

run-IsOver_example : IsOver (run codec failed_session actions)
run-IsOver_example = run-IsOver codec failed_session actions (unfold is_live in (refl, refl))

stop-IsOver_example : IsOver (stop codec ready_session stopping)
stop-IsOver_example = stop-IsOver codec ready_session stopping refl

enqueue-Enqueued_example :
    Enqueued ready_session
      (make_protocol_error "late")
      false
      (enqueue_event_locked ready_session (make_protocol_error "late") false)
enqueue-Enqueued_example = enqueue-Enqueued ready_session (make_protocol_error "late") false

dispatch_floods_example :
    let r = dispatch codec failed_session (audio_frame ∷ audio_frame ∷ audio_frame ∷ []) in
    (r.1 ≡ false) × (length r.0.events ≡ 3) × (r.0.options ≡ options)
dispatch_floods_example =
    dispatch_floods codec failed_session (audio_frame ∷ audio_frame ∷ audio_frame ∷ [])
      (unfold is_ready_state in refl) (refl, (refl, (refl, tt)))

abbrev ack_frame : Frame
ack_frame = record { header = record default_header { payload_size = 2 }; payload = 7 ∷ 9 ∷ [] }

ack_fails_example :
    let r = handle_control_frame_locked codec (told codec ready_session) ack_frame in
    (r.1 ≡ false)
    × (r.0.state ≡ WorkerSessionState.stopping)
    × (r.0.events
        ≡ make_protocol_error "control message is invalid in the current session state" ∷ [])
ack_fails_example =
    ack_fails codec ready_session ack_frame (unfold is_ready_state in refl) refl
      (unfold is_ok in refl) refl
