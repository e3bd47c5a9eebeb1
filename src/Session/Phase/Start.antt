-- ===== src/Session/Phase/Start.antt =====
-- What the answer of `start` says of the session.
use qwen3_tts_bridge_cpp.Common.{ℕ, ◌≡◌, ◌⊎◌, inl, inr, Bool, true, false, some, arith, List-cases}
use qwen3_tts_bridge_cpp.Data.{Frame, FrameType, control_json, audio_pcm, error_json, unlisted}
use qwen3_tts_bridge_cpp.Control.Messages.{
  ControlMessage, ControlMessageType, hello_message, ready_message, worker_to_client, ControlCodec,
}
use qwen3_tts_bridge_cpp.Session.Types.{
  WorkerSession, WorkerSessionEvent, make_protocol_error, is_live, is_ready_state,
}
use qwen3_tts_bridge_cpp.Session.Worker.{
  enqueue_event_locked, fail_with_event_locked, mark_outbound_control_locked,
  handle_audio_frame_locked, handle_transport_error, handle_exit, accept_control,
  handle_control_frame_locked, handle_error_frame_locked, handle_frame_type, handle_frame_locked,
  handle_bytes, wait_for_event,
}
use qwen3_tts_bridge_cpp.Session.Calls.{
  Callback, bytes_received, transport_failed, peer_exited, Starting, Stopping, begin_start,
  begin_stop, finish_stop, deliver, deliver_all, send_control_frame, await_ready, greet, start,
}
use qwen3_tts_bridge_cpp.Session.Loop.{handle_frames_inv}
use qwen3_tts_bridge_cpp.Session.Rule.{Keeps, deliver_all_keeps, send_keeps}
use qwen3_tts_bridge_cpp.Session.Phase.{IsOver, stop-IsOver}

module _ {D : Type 0} where
  -- `start` was tried.
  abbrev pub WasTried : WorkerSession D → Type 0
  WasTried s = s.start_attempted ≡ true

  enqueue-WasTried :
      (s : WorkerSession D) (e : WorkerSessionEvent D) (exempt : Bool)
      → WasTried s
      → WasTried (enqueue_event_locked s e exempt).0
  unfolding enqueue_event_locked
  enqueue-WasTried s e exempt h = ground arith

  fail-WasTried :
      (s : WorkerSession D) (e : WorkerSessionEvent D) (exempt : Bool)
      → WasTried s
      → WasTried (fail_with_event_locked s e exempt).0
  unfolding fail_with_event_locked enqueue_event_locked
  fail-WasTried s e exempt h = ground arith

  take-WasTried :
      (s : WorkerSession D) {e : WorkerSessionEvent D} {t : WorkerSession D}
      → wait_for_event s ≡ some (e, t)
      → WasTried s
      → WasTried t
  unfolding wait_for_event
  take-WasTried s h k = elim (List-cases s.events) [
    | inl e ↦ ground (arith, e, h, k)
    | inr (x, xs, e) ↦ ground (arith, e, h, k)
  ]

  begin_start-WasTried : (s : WorkerSession D) → WasTried s → WasTried (begin_start s).0
  unfolding begin_start
  begin_start-WasTried s h = ground arith

  begin_stop-WasTried : (s : WorkerSession D) → WasTried s → WasTried (begin_stop s).0
  unfolding begin_stop
  begin_stop-WasTried s h = ground arith

  finish_stop-WasTried : (s : WorkerSession D) → WasTried s → WasTried (finish_stop s)
  unfolding finish_stop
  finish_stop-WasTried s h = ground arith

  mark-WasTried :
      (s : WorkerSession D) (id : ℕ) (t : ControlMessageType)
      → WasTried s
      → WasTried (mark_outbound_control_locked s id t)
  unfolding mark_outbound_control_locked
  mark-WasTried s id t h = ground arith

  begun :
      (s : WorkerSession D)
      → ((begin_start s).1 ≡ true) × WasTried (begin_start s).0 ⊎ (begin_start s ≡ (s, false))
  unfolding begin_start
  begun s = ground arith

  -- The session serves.
  abbrev pub Serves : WorkerSession D → Starting → Type 0
  Serves s env =
      (is_ready_state s.state ≡ true)
      × (s.event_queue_overflowed ≡ false)
      × (s.has_transport ≡ true)
      × (env.running ≡ true)

  abbrev pub Answers : WorkerSession D × Bool → Starting → Type 0
  Answers r env = ((r.1 ≡ true) × Serves r.0 env) ⊎ ((r.1 ≡ false) × IsOver r.0)

module _ {D : Type 0} (codec : ControlCodec D) where
  accept-WasTried :
      (s : WorkerSession D) (id : ℕ) (m : ControlMessage D)
      → WasTried s
      → WasTried (accept_control codec s id m).0
  unfolding accept_control enqueue_event_locked
  accept-WasTried s id (ready_message r) h = ground arith
  accept-WasTried s id m h = ground arith

  frame-WasTried :
      (s : WorkerSession D) (f : Frame) (t : FrameType)
      → WasTried s
      → WasTried (handle_frame_type codec s f t).0
  unfolding handle_frame_type handle_control_frame_locked handle_audio_frame_locked
      handle_error_frame_locked
  frame-WasTried s f control_json h = ground (
    arith,
    fail-WasTried s
        (make_protocol_error (codec.decode_control_message f.payload worker_to_client).diagnostic)
        true h,
    fail-WasTried s (make_protocol_error "control message is invalid in the current session state")
        true h,
    accept-WasTried s f.header.request_id
        (codec.decode_control_message f.payload worker_to_client).message h,
  )
  frame-WasTried s f audio_pcm h =
      unfold fail_with_event_locked enqueue_event_locked in ground arith
  frame-WasTried s f error_json h =
      unfold fail_with_event_locked enqueue_event_locked in ground arith
  frame-WasTried s f (unlisted n) h = fail-WasTried s _ true h

  deliver-WasTried :
      (s : WorkerSession D) (c : Callback) → WasTried s → WasTried (deliver codec s c)
  unfolding deliver handle_bytes handle_frame_locked handle_transport_error handle_exit
      fail_with_event_locked enqueue_event_locked
  deliver-WasTried s (bytes_received bytes) h =
      handle_frames_inv codec WasTried (λ s h. h)
        (λ s f h. frame-WasTried s f f.header.frame_type h) (λ s m h. fail-WasTried s _ true h) _ _
        h
  deliver-WasTried s (transport_failed m) h = ground arith
  deliver-WasTried s (peer_exited status) h = ground arith

  keeps_tried : Keeps codec WasTried
  keeps_tried = record {
    delivers = deliver-WasTried;
    begins_start = begin_start-WasTried;
    refuses = λ s h. h;
    begins_stop = begin_stop-WasTried;
    finishes_stop = finish_stop-WasTried;
    marks = mark-WasTried;
    reports = λ s e _ h. enqueue-WasTried s e true h;
    fails = λ s e _ h. fail-WasTried s e true h;
    hands_out = take-WasTried;
  }

  await_ready-Answers :
      (s : WorkerSession D) (env : Starting) (stopping : Stopping)
      → WasTried s
      → Answers (await_ready codec s env stopping) env
  unfolding await_ready
  await_ready-Answers s env stopping h =
      let woken = deliver_all codec s env.before_wake in
      ground (
        arith,
        stop-IsOver codec woken stopping
            (deliver_all_keeps codec WasTried keeps_tried s env.before_wake h),
      )

  greet-Answers :
      (s : WorkerSession D) (env : Starting) (stopping : Stopping)
      → WasTried s
      → Answers (greet codec s env stopping) env
  unfolding greet
  greet-Answers s env stopping h =
      let hello = hello_message (record {
        client_name = s.options.client_name;
        client_version = s.options.client_version;
      }) in
      let sent = send_control_frame codec s 0 hello env.hello in
      let h' = send_keeps codec WasTried keeps_tried s 0 hello env.hello h in
      ground (
        arith,
        stop-IsOver codec s stopping h,
        stop-IsOver codec sent.0 stopping h',
        await_ready-Answers sent.0 env stopping h',
      )

  -- When `start` answers true, the session is ready, its queue has not overflowed and the
  -- transport runs. When it answers false, either it was refused and nothing has changed, or the
  -- session is over, whatever the transport and the worker did.
  pub start-Answers :
      (s : WorkerSession D) (env : Starting) (stopping : Stopping)
      → Answers (start codec s env stopping) env ⊎ (start codec s env stopping ≡ (s, false))
  unfolding start is_live
  start-Answers s env stopping = elim (begun s) [
    | inr e ↦ inr (ground (arith, e))
    | inl (fresh, h) ↦
        let h' = deliver_all_keeps codec WasTried keeps_tried (begin_start s).0 env.at_start h in
        inl (
          ground (
            arith,
            h',
            greet-Answers (deliver_all codec (begin_start s).0 env.at_start) env stopping h',
          ))
  ]
