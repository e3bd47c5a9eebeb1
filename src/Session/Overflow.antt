-- ===== src/Session/Overflow.antt =====
-- A queue that has overflowed, and the events that are exempt from its limits.
use qwen3_tts_bridge_cpp.Common.{
  ℕ, suc, ◌+◌, ◌≡◌, refl, ap, ◌∙◌, inl, inr, Bool, true, false, not, ◌||◌, some, List, [], ◌∷◌,
  arith, ◌==◌, Bool-cases, List-cases, length, All, length-append,
}
use qwen3_tts_bridge_cpp.Data.{Frame, FrameType, control_json, audio_pcm, error_json, unlisted}
use qwen3_tts_bridge_cpp.Control.Messages.{
  ControlMessage, ControlMessageType, ready_message, worker_to_client, ControlCodec,
}
use qwen3_tts_bridge_cpp.Session.Types.{
  WorkerSession, WorkerSessionEvent, WorkerSessionOptions, make_session, make_protocol_error,
  is_live, is_ready_state,
}
use qwen3_tts_bridge_cpp.Session.Worker.{
  enqueue_event_locked, fail_with_event_locked, mark_outbound_control_locked,
  handle_audio_frame_locked, handle_transport_error, handle_exit, accept_control,
  handle_control_frame_locked, handle_error_frame_locked, handle_frame_type, handle_frame_locked,
  handle_bytes, wait_for_event,
}
use qwen3_tts_bridge_cpp.Session.Calls.{
  is_exited, Action, Callback, bytes_received, transport_failed, peer_exited, begin_start,
  begin_stop, finish_stop, deliver, run,
}
use qwen3_tts_bridge_cpp.Session.Loop.{handle_frames_inv}
use qwen3_tts_bridge_cpp.Session.Dispatch.{dispatch}
use qwen3_tts_bridge_cpp.Session.Rule.{Keeps, run_keeps}

module _ {D : Type 0} where
  -- A session whose queue has overflowed is neither starting nor ready.
  abbrev pub IsClosed : WorkerSession D → Type 0
  IsClosed s = s.event_queue_overflowed ≡ true → is_live s.state ≡ false

  enqueue-IsClosed :
      (s : WorkerSession D) (e : WorkerSessionEvent D) (exempt : Bool)
      → IsClosed s
      → IsClosed (enqueue_event_locked s e exempt).0
  unfolding enqueue_event_locked is_live
  enqueue-IsClosed s e exempt h k = ground (arith, h)

  fail-IsClosed :
      (s : WorkerSession D) (e : WorkerSessionEvent D)
      → IsClosed s
      → IsClosed (fail_with_event_locked s e true).0
  unfolding fail_with_event_locked enqueue_event_locked is_live
  fail-IsClosed s e h k = ground (arith, h)

  handle_audio-IsClosed :
      (s : WorkerSession D) (f : Frame) → IsClosed s → IsClosed (handle_audio_frame_locked s f).0
  unfolding handle_audio_frame_locked
  handle_audio-IsClosed s f h =
      elim (Bool-cases (not (is_ready_state s.state) || f.header.request_id == 0)) [
        | inl bad ↦ rw bad (fail-IsClosed s _ h)
        | inr good ↦ rw good (enqueue-IsClosed s _ false h)
      ]

  take-IsClosed :
      (s : WorkerSession D) {e : WorkerSessionEvent D} {t : WorkerSession D}
      → wait_for_event s ≡ some (e, t)
      → IsClosed s
      → IsClosed t
  unfolding wait_for_event
  take-IsClosed s h k l = elim (List-cases s.events) [
    | inl e ↦ ground (arith, e, h)
    | inr (x, xs, e) ↦ ground (arith, e, h, k)
  ]

  begin_start-IsClosed : (s : WorkerSession D) → IsClosed s → IsClosed (begin_start s).0
  unfolding begin_start
  begin_start-IsClosed s h k = ground (arith, h)

  begin_stop-IsClosed : (s : WorkerSession D) → IsClosed s → IsClosed (begin_stop s).0
  unfolding begin_stop is_live is_exited
  begin_stop-IsClosed s h k = ground (arith, h)

  finish_stop-IsClosed : (s : WorkerSession D) → IsClosed s → IsClosed (finish_stop s)
  unfolding finish_stop is_live
  finish_stop-IsClosed s h k = ground (arith, h)

  mark-IsClosed :
      (s : WorkerSession D) (id : ℕ) (t : ControlMessageType)
      → IsClosed s
      → IsClosed (mark_outbound_control_locked s id t)
  unfolding mark_outbound_control_locked
  mark-IsClosed s id t h k = ground (arith, h)

module _ {D : Type 0} (codec : ControlCodec D) where
  -- A ready message that meets a full queue does not make the session ready.
  accept-IsClosed :
      (s : WorkerSession D) (id : ℕ) (m : ControlMessage D)
      → IsClosed s
      → IsClosed (accept_control codec s id m).0
  unfolding accept_control enqueue_event_locked is_live
  accept-IsClosed s id (ready_message r) h k = ground (arith, h)
  accept-IsClosed s id m h k = ground (arith, h)

  handle_control-IsClosed :
      (s : WorkerSession D) (f : Frame)
      → IsClosed s
      → IsClosed (handle_control_frame_locked codec s f).0
  unfolding handle_control_frame_locked
  handle_control-IsClosed s f h k =
      let decoded = codec.decode_control_message f.payload worker_to_client in
      ground (
        arith,
        fail-IsClosed s (make_protocol_error decoded.diagnostic) h,
        fail-IsClosed s
            (make_protocol_error "control message is invalid in the current session state") h,
        accept-IsClosed s f.header.request_id decoded.message h,
      )

  handle_error-IsClosed :
      (s : WorkerSession D) (f : Frame)
      → IsClosed s
      → IsClosed (handle_error_frame_locked codec s f).0
  unfolding handle_error_frame_locked fail_with_event_locked enqueue_event_locked is_live
  handle_error-IsClosed s f h k = ground (arith, h)

  handle_frame-IsClosed :
      (s : WorkerSession D) (f : Frame) (t : FrameType)
      → IsClosed s
      → IsClosed (handle_frame_type codec s f t).0
  unfolding handle_frame_type
  handle_frame-IsClosed s f control_json h = handle_control-IsClosed s f h
  handle_frame-IsClosed s f audio_pcm h = handle_audio-IsClosed s f h
  handle_frame-IsClosed s f error_json h = handle_error-IsClosed s f h
  handle_frame-IsClosed s f (unlisted n) h = fail-IsClosed s _ h

  deliver-IsClosed :
      (s : WorkerSession D) (c : Callback) → IsClosed s → IsClosed (deliver codec s c)
  unfolding deliver handle_bytes handle_frame_locked handle_transport_error handle_exit
      fail_with_event_locked enqueue_event_locked is_live
  deliver-IsClosed s (bytes_received bytes) h k =
      handle_frames_inv codec IsClosed (λ s h. h)
        (λ s f h. handle_frame-IsClosed s f f.header.frame_type h) (λ s m h. fail-IsClosed s _ h) _
        _ h k
  deliver-IsClosed s (transport_failed m) h k = ground (arith, h)
  deliver-IsClosed s (peer_exited status) h k = refl

  keeps_IsClosed : Keeps codec IsClosed
  unfolding is_live
  keeps_IsClosed = record {
    delivers = deliver-IsClosed;
    begins_start = begin_start-IsClosed;
    refuses = λ s h k. refl;
    begins_stop = begin_stop-IsClosed;
    finishes_stop = finish_stop-IsClosed;
    marks = mark-IsClosed;
    reports = λ s e _ h. enqueue-IsClosed s e true h;
    fails = λ s e _ h. fail-IsClosed s e h;
    hands_out = take-IsClosed;
  }

  -- In whatever order the owner's calls and the transport's callbacks come after construction, a
  -- session whose event queue has overflowed is neither starting nor ready.
  pub run-IsClosed :
      (has_transport : Bool) (options : WorkerSessionOptions) (actions : List (Action D))
      → let s = run codec (make_session has_transport options) actions in
        s.event_queue_overflowed ≡ true → is_live s.state ≡ false
  run-IsClosed has_transport options actions =
      run_keeps codec IsClosed keeps_IsClosed (make_session has_transport options) actions
        (unfold make_session is_live in λ k. refl)

  abbrev pub IsAudio : Frame → Type 0
  IsAudio f = f.header.frame_type ≡ audio_pcm

  audio_handled :
      (s : WorkerSession D) (f : Frame)
      → IsAudio f
      → handle_frame_locked codec s f ≡ handle_audio_frame_locked s f
  unfolding handle_frame_locked handle_frame_type
  audio_handled s f e = ap (handle_frame_type codec s f) e

  audio_refused :
      (s : WorkerSession D) (f : Frame)
      → is_ready_state s.state ≡ false
      → let r = handle_audio_frame_locked s f in
        (r.1 ≡ false)
        × (is_ready_state r.0.state ≡ false)
        × (length r.0.events ≡ suc (length s.events))
        × (r.0.options ≡ s.options)
  unfolding handle_audio_frame_locked fail_with_event_locked enqueue_event_locked is_ready_state
      is_live
  audio_refused s f h = ground (
    arith,
    length-append s.events
        (make_protocol_error "audio frame is invalid in the current session state" ∷ []),
  )

  -- While the session is not ready, every audio frame adds one event to the queue, however long
  -- the queue is already and whatever its limits are, and none of them stops the loop.
  pub dispatch_floods :
      (s : WorkerSession D) (fs : List Frame)
      → is_ready_state s.state ≡ false
      → All IsAudio fs
      → let r = dispatch codec s fs in
        (r.1 ≡ false)
        × (length r.0.events ≡ length s.events + length fs)
        × (r.0.options ≡ s.options)
  unfolding dispatch
  dispatch_floods s [] h a = (refl, omega arith, refl)
  dispatch_floods s (f ∷ fs) h a =
      let (on, waits, longer, same) = audio_refused s f h in
      let (quiet, more, kept) = dispatch_floods (handle_audio_frame_locked s f).0 fs waits a.1 in
      rw (audio_handled s f a.0, on) (quiet, omega (arith, more, longer), kept ∙ same)
