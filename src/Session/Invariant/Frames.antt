-- ===== src/Session/Invariant/Frames.antt =====
-- The handlers of frames and callbacks keep the queue valid.
use qwen3_tts_bridge_cpp.Common.{
  ℕ, String, ◌≡◌, refl, inl, inr, true, false, not, ◌||◌, List, arith, ◌==◌, Bool-cases,
}
use qwen3_tts_bridge_cpp.Common.Int.{ℤ}
use qwen3_tts_bridge_cpp.Data.{Frame, FrameType, control_json, audio_pcm, error_json, unlisted}
use qwen3_tts_bridge_cpp.Framing.Parser.{FrameParser, parse_next}
use qwen3_tts_bridge_cpp.Framing.Parser.Refines.{append-IsValid, IsValid as IsValidParser}
use qwen3_tts_bridge_cpp.Control.Messages.{
  ControlMessage, ControlMessageType, ready_message, ReadyMessage, ControlCodec,
  control_message_type, is_ok, worker_to_client,
}
use qwen3_tts_bridge_cpp.Session.Types.{
  WorkerSession, WorkerSessionEventType, WorkerSessionState, empty_event, make_protocol_error,
  is_live, is_starting, is_ready_state, is_session_level_worker_control, is_shutdown_ack_type,
  is_ready_type,
}
use qwen3_tts_bridge_cpp.Session.Worker.{
  enqueue_event_locked, is_control_message_allowed_locked, is_ready_message_allowed_locked,
  handle_audio_frame_locked, handle_transport_error, handle_exit, accept_control,
  handle_control_frame_locked, handle_error_frame_locked, handle_frame_type, handle_frame_locked,
  handle_frames, handle_bytes,
}
use qwen3_tts_bridge_cpp.Framing.Parser.Safety.{parse_next-IsValid}
use qwen3_tts_bridge_cpp.Session.Loop.{handle_frames_inv}
use qwen3_tts_bridge_cpp.Session.Invariant.{
  IsValid, RoutedKind, enqueue-IsValid, fail-IsValid, with_state-IsValid,
}

ready_level :
    (t : ControlMessageType)
    → is_ready_type t ≡ true
    → (is_session_level_worker_control t ≡ true) × (is_shutdown_ack_type t ≡ false)
unfolding is_ready_type is_session_level_worker_control is_shutdown_ack_type
ready_level t h = ground arith

ack_level :
    (t : ControlMessageType)
    → is_shutdown_ack_type t ≡ true
    → is_session_level_worker_control t ≡ true
unfolding is_session_level_worker_control is_shutdown_ack_type
ack_level t h = ground arith

module _ {D : Type 0} where
  handle_audio-IsValid :
      (s : WorkerSession D) (f : Frame) → IsValid s → IsValid (handle_audio_frame_locked s f).0
  unfolding handle_audio_frame_locked
  handle_audio-IsValid s f v =
      elim (Bool-cases (not (is_ready_state s.state) || f.header.request_id == 0)) [
        | inl bad ↦ rw bad (fail-IsValid s _ v tt refl)
        | inr good ↦ rw good (enqueue-IsValid s _ false v (ground (arith, good)) (λ k. cc))
      ]

  pub handle_transport_error-IsValid :
      (s : WorkerSession D) (m : String) → IsValid s → IsValid (handle_transport_error s m)
  unfolding handle_transport_error
  handle_transport_error-IsValid s m v = elim (Bool-cases (is_live s.state)) [
    | inl k ↦ rw k (fail-IsValid s _ v tt refl)
    | inr k ↦ rw k (enqueue-IsValid s _ true v tt (λ x. refl))
  ]

  pub handle_exit-IsValid :
      (s : WorkerSession D) (status : ℤ) → IsValid s → IsValid (handle_exit s status)
  unfolding handle_exit
  handle_exit-IsValid s status v =
      with_state-IsValid _ WorkerSessionState.exited (enqueue-IsValid s _ true v tt (λ x. refl))

  -- What an allowed message is known to be.
  allowed-Routed :
      (s : WorkerSession D) (id : ℕ) (m : ControlMessage D)
      → is_control_message_allowed_locked s id (control_message_type m) ≡ true
      → RoutedKind s.shutdown_requested
          (record empty_event {
            kind = WorkerSessionEventType.control;
            request_id = id;
            control = m;
          })
          WorkerSessionEventType.control
  unfolding is_control_message_allowed_locked is_ready_message_allowed_locked
  allowed-Routed s id m h =
      ground (arith, ready_level (control_message_type m), ack_level (control_message_type m))

  with_parser-IsValid :
      (s : WorkerSession D) (p : FrameParser)
      → IsValid s
      → IsValidParser p
      → IsValid (record s { parser = p })
  with_parser-IsValid s p v w = record {
    routed = v.routed;
    accounted = v.accounted;
    few = v.few;
    small = v.small;
    parser = w;
  }

  with_ready-IsValid :
      (s : WorkerSession D) (m : ReadyMessage) (state : WorkerSessionState)
      → IsValid s
      → IsValid (record s { ready_message = m; state = state })
  with_ready-IsValid s m state v = record {
    routed = v.routed;
    accounted = v.accounted;
    few = v.few;
    small = v.small;
    parser = v.parser;
  }

module _ {D : Type 0} (codec : ControlCodec D) where
  -- Whatever message it is, the session after `accept_control` is the one after the queue, but for
  -- the ready message and the state.
  accept_control-IsValid :
      (s : WorkerSession D) (id : ℕ) (m : ControlMessage D)
      → IsValid s
      → is_control_message_allowed_locked s id (control_message_type m) ≡ true
      → IsValid (accept_control codec s id m).0
  unfolding accept_control
  accept_control-IsValid s id (ready_message r) v h =
      let queued =
        enqueue-IsValid s
          (record empty_event {
            kind = WorkerSessionEventType.control;
            request_id = id;
            control = ready_message r;
          })
          false v (allowed-Routed s id (ready_message r) h) (λ k. cc) in
      ground (
        arith,
        queued,
        with_ready-IsValid
            (enqueue_event_locked s
              (record empty_event {
                kind = WorkerSessionEventType.control;
                request_id = id;
                control = ready_message r;
              })
              false).0
            r WorkerSessionState.ready queued,
      )
  accept_control-IsValid s id m v h =
      enqueue-IsValid s
        (record empty_event { kind = WorkerSessionEventType.control; request_id = id; control = m })
        false v (allowed-Routed s id m h) (λ k. cc)

  handle_control-IsValid :
      (s : WorkerSession D) (f : Frame)
      → IsValid s
      → IsValid (handle_control_frame_locked codec s f).0
  unfolding handle_control_frame_locked
  handle_control-IsValid s f v =
      let decoded = codec.decode_control_message f.payload worker_to_client in
      elim (Bool-cases (is_ok decoded.error)) [
        | inr bad ↦ rw bad (fail-IsValid s _ v tt refl)
        | inl good ↦
            rw good
              (elim (Bool-cases (
                is_control_message_allowed_locked s f.header.request_id
                  (control_message_type decoded.message))) [
                    | inr bad ↦ rw bad (fail-IsValid s _ v tt refl)
                    | inl allowed ↦
                        rw allowed
                          (accept_control-IsValid s f.header.request_id decoded.message v allowed)
                  ])
      ]

  handle_error-IsValid :
      (s : WorkerSession D) (f : Frame)
      → IsValid s
      → IsValid (handle_error_frame_locked codec s f).0
  unfolding handle_error_frame_locked
  handle_error-IsValid s f v =
      elim (Bool-cases (is_ok (codec.decode_error_message f.payload).error)) [
        | inr bad ↦ rw bad (fail-IsValid s _ v tt refl)
        | inl good ↦ rw good (elim (Bool-cases (is_starting s.state)) [
          | inl k ↦ rw k (fail-IsValid s _ v tt refl)
          | inr k ↦ rw k (enqueue-IsValid s _ false v tt (λ x. refl))
        ])
      ]

  handle_frame_type-IsValid :
      (s : WorkerSession D) (f : Frame) (t : FrameType)
      → IsValid s
      → IsValid (handle_frame_type codec s f t).0
  unfolding handle_frame_type
  handle_frame_type-IsValid s f control_json v = handle_control-IsValid s f v
  handle_frame_type-IsValid s f audio_pcm v = handle_audio-IsValid s f v
  handle_frame_type-IsValid s f error_json v = handle_error-IsValid s f v
  handle_frame_type-IsValid s f (unlisted n) v = fail-IsValid s _ v tt refl

  handle_frames-IsValid :
      (n : ℕ) (s : WorkerSession D) → IsValid s → IsValid (handle_frames codec n s).0
  unfolding handle_frame_locked
  handle_frames-IsValid =
      handle_frames_inv codec IsValid
        (λ s v.
          with_parser-IsValid s (parse_next s.parser).0 v (parse_next-IsValid s.parser v.parser))
        (λ s f v. handle_frame_type-IsValid s f f.header.frame_type v)
        (λ s m v. fail-IsValid s (make_protocol_error m) v tt refl)

  pub handle_bytes-IsValid :
      (s : WorkerSession D) (bytes : List ℕ) → IsValid s → IsValid (handle_bytes codec s bytes).0
  unfolding handle_bytes
  handle_bytes-IsValid s bytes v =
      handle_frames-IsValid _ _ (with_parser-IsValid s _ v (append-IsValid s.parser bytes v.parser))
