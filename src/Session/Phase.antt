-- ===== src/Session/Phase.antt =====
-- The states of the session: a session that has failed, stopped or exited never serves again.
use qwen3_tts_bridge_cpp.Common.{
  ℕ, ◌≡◌, refl, inl, inr, Bool, true, false, some, List, arith, if◌then◌else◌, Bool-cases,
  List-cases,
}
pub mod Ack
pub mod Start
use qwen3_tts_bridge_cpp.Data.{Frame, FrameType, control_json, audio_pcm, error_json, unlisted}
use qwen3_tts_bridge_cpp.Control.Messages.{
  ControlMessageType, ControlCodec, control_message_type, is_ok, worker_to_client,
}
use qwen3_tts_bridge_cpp.Session.Types.{
  WorkerSession, WorkerSessionEvent, WorkerSessionEventType, WorkerSessionState, empty_event,
  make_protocol_error, make_transport_error, is_live, is_starting, is_ready_state,
}
use qwen3_tts_bridge_cpp.Session.Worker.{
  enqueue_event_locked, fail_with_event_locked, mark_outbound_control_locked,
  is_control_message_allowed_locked, is_ready_message_allowed_locked, handle_audio_frame_locked,
  handle_transport_error, handle_exit, handle_control_frame_locked, handle_error_frame_locked,
  handle_frame_type, handle_frame_locked, handle_bytes, wait_for_event,
}
use qwen3_tts_bridge_cpp.Session.Calls.{
  is_exited, is_stopped, is_stopping, Callback, bytes_received, transport_failed, peer_exited,
  Action, Stopping, begin_start, begin_stop, finish_stop, deliver, run, stop,
}
use qwen3_tts_bridge_cpp.Session.Loop.{handle_frames_inv}
use qwen3_tts_bridge_cpp.Session.Rule.{Keeps, run_keeps, stop_transport_keeps}

live_starting :
    (t : WorkerSessionState)
    → is_live t ≡ false
    → (is_starting t ≡ false) × (is_ready_state t ≡ false)
unfolding is_live is_starting is_ready_state
live_starting t h = ground arith

module _ {D : Type 0} where
  -- `start` was tried, and the session is neither starting nor ready.
  abbrev pub IsOver : WorkerSession D → Type 0
  IsOver s = (s.start_attempted ≡ true) × (is_live s.state ≡ false)

  enqueue-IsOver :
      (s : WorkerSession D) (e : WorkerSessionEvent D) (exempt : Bool)
      → IsOver s
      → IsOver (enqueue_event_locked s e exempt).0
  unfolding enqueue_event_locked is_live
  enqueue-IsOver s e exempt h = ground (arith, h)

  fail-IsOver :
      (s : WorkerSession D) (e : WorkerSessionEvent D) (exempt : Bool)
      → IsOver s
      → IsOver (fail_with_event_locked s e exempt).0
  unfolding fail_with_event_locked
  fail-IsOver s e exempt h =
      enqueue-IsOver
        (record s { state = if is_live s.state then WorkerSessionState.failed else s.state }) e
        exempt (ground (arith, h))

  handle_audio-IsOver :
      (s : WorkerSession D) (f : Frame) → IsOver s → IsOver (handle_audio_frame_locked s f).0
  unfolding handle_audio_frame_locked
  handle_audio-IsOver s f h = ground (
    arith,
    fail-IsOver s (make_protocol_error "audio frame is invalid in the current session state") true
        h,
    live_starting s.state h.1,
  )

  begin_stop-IsOver' : (s : WorkerSession D) → s.start_attempted ≡ true → IsOver (begin_stop s).0
  unfolding begin_stop is_live is_stopped is_stopping is_exited
  begin_stop-IsOver' s h = ground arith

module _ {D : Type 0} (codec : ControlCodec D) where
  -- Without being ready the session takes no message but `ready`, and that only when it starts.
  over_refuses :
      (s : WorkerSession D) (id : ℕ) (t : ControlMessageType)
      → IsOver s
      → is_control_message_allowed_locked s id t ≡ false
  unfolding is_control_message_allowed_locked is_ready_message_allowed_locked
  over_refuses s id t h = ground (arith, live_starting s.state h.1)

  handle_control-IsOver :
      (s : WorkerSession D) (f : Frame)
      → IsOver s
      → IsOver (handle_control_frame_locked codec s f).0
  unfolding handle_control_frame_locked
  handle_control-IsOver s f h =
      let decoded = codec.decode_control_message f.payload worker_to_client in
      ground (
        arith,
        over_refuses s f.header.request_id (control_message_type decoded.message) h,
        fail-IsOver s (make_protocol_error decoded.diagnostic) true h,
        fail-IsOver s
            (make_protocol_error "control message is invalid in the current session state") true h,
      )

  handle_error-IsOver :
      (s : WorkerSession D) (f : Frame) → IsOver s → IsOver (handle_error_frame_locked codec s f).0
  unfolding handle_error_frame_locked
  handle_error-IsOver s f h =
      elim (Bool-cases (is_ok (codec.decode_error_message f.payload).error)) [
        | inr bad ↦ rw bad (fail-IsOver s _ true h)
        | inl good ↦ rw good (elim (Bool-cases (is_starting s.state)) [
          | inl k ↦ rw k (fail-IsOver s _ true h)
          | inr k ↦ rw k (enqueue-IsOver s _ false h)
        ])
      ]

  handle_frame_type-IsOver :
      (s : WorkerSession D) (f : Frame) (t : FrameType)
      → IsOver s
      → IsOver (handle_frame_type codec s f t).0
  unfolding handle_frame_type
  handle_frame_type-IsOver s f control_json h = handle_control-IsOver s f h
  handle_frame_type-IsOver s f audio_pcm h = handle_audio-IsOver s f h
  handle_frame_type-IsOver s f error_json h = handle_error-IsOver s f h
  handle_frame_type-IsOver s f (unlisted n) h = fail-IsOver s _ true h

  handle_bytes-IsOver :
      (s : WorkerSession D) (bytes : List ℕ) → IsOver s → IsOver (handle_bytes codec s bytes).0
  unfolding handle_bytes handle_frame_locked
  handle_bytes-IsOver s bytes h =
      handle_frames_inv codec IsOver (λ s h. h)
        (λ s f h. handle_frame_type-IsOver s f f.header.frame_type h)
        (λ s m h. fail-IsOver s (make_protocol_error m) true h) _ _ h

  deliver-IsOver : (s : WorkerSession D) (c : Callback) → IsOver s → IsOver (deliver codec s c)
  unfolding deliver handle_transport_error handle_exit is_live
  deliver-IsOver s (bytes_received bytes) h = handle_bytes-IsOver s bytes h
  deliver-IsOver s (transport_failed m) h = ground (
    arith,
    fail-IsOver s (make_transport_error m) true h,
    enqueue-IsOver s (make_transport_error m) true h,
  )
  deliver-IsOver s (peer_exited status) h = (
    (enqueue-IsOver s
        (record empty_event { kind = WorkerSessionEventType.exited; exit_status = status }) true
        h).0,
    refl,
  )

  mark-IsOver :
      (s : WorkerSession D) (id : ℕ) (t : ControlMessageType)
      → IsOver s
      → IsOver (mark_outbound_control_locked s id t)
  unfolding mark_outbound_control_locked
  mark-IsOver s id t h = ground (arith, h)

  begin_start-IsOver : (s : WorkerSession D) → IsOver s → IsOver (begin_start s).0
  unfolding begin_start
  begin_start-IsOver s h = ground (arith, h)

  begin_stop-IsOver : (s : WorkerSession D) → IsOver s → IsOver (begin_stop s).0
  unfolding begin_stop is_live
  begin_stop-IsOver s h = ground (arith, h)

  finish_stop-IsOver : (s : WorkerSession D) → IsOver s → IsOver (finish_stop s)
  unfolding finish_stop is_live
  finish_stop-IsOver s h = ground (arith, h)

  take-IsOver :
      (s : WorkerSession D) {e : WorkerSessionEvent D} {t : WorkerSession D}
      → wait_for_event s ≡ some (e, t)
      → IsOver s
      → IsOver t
  unfolding wait_for_event
  take-IsOver s h k = elim (List-cases s.events) [
    | inl e ↦ ground (arith, e, h, k)
    | inr (x, xs, e) ↦ ground (arith, e, h, k)
  ]

  keeps_IsOver : Keeps codec IsOver
  unfolding is_live
  keeps_IsOver = record {
    delivers = deliver-IsOver;
    begins_start = begin_start-IsOver;
    refuses = λ s h. (h.0, refl);
    begins_stop = begin_stop-IsOver;
    finishes_stop = finish_stop-IsOver;
    marks = mark-IsOver;
    reports = λ s e _ h. enqueue-IsOver s e true h;
    fails = λ s e _ h. fail-IsOver s e true h;
    hands_out = take-IsOver;
  }

  -- A session that is no longer starting or ready stays so: whatever calls and callbacks follow,
  -- it is never starting or ready again.
  pub run-IsOver :
      (s : WorkerSession D) (actions : List (Action D)) → IsOver s → IsOver (run codec s actions)
  run-IsOver s actions h = run_keeps codec IsOver keeps_IsOver s actions h

  -- `stop` ends every session that was started, whatever the transport does meanwhile: the worker
  -- is then never starting or ready again.
  pub stop-IsOver :
      (s : WorkerSession D) (env : Stopping) → s.start_attempted ≡ true → IsOver (stop codec s env)
  unfolding stop
  stop-IsOver s env h =
      let begun = begin_stop-IsOver' s h in
      elim (Bool-cases (begin_stop s).1) [
        | inl going ↦ rw going (
            finish_stop-IsOver _ (
              stop_transport_keeps codec IsOver keeps_IsOver (begin_stop s).0 (begin_stop s).2 env
                begun))
        | inr idle ↦ rw idle begun
      ]
