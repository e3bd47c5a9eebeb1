-- ===== src/Session/Phase/Ack.antt =====
-- The worker's acknowledgement of the `shutdown` that `stop` sends.
use qwen3_tts_bridge_cpp.Common.{◌≡◌, refl, true, false, [], ◌∷◌, ◌++◌, arith}
use qwen3_tts_bridge_cpp.Data.{Frame}
use qwen3_tts_bridge_cpp.Control.Messages.{
  ControlMessageType, shutdown_ack_message, ControlCodec, control_message_type, is_ok,
  worker_to_client,
}
use qwen3_tts_bridge_cpp.Session.Types.{
  WorkerSession, WorkerSessionState, make_protocol_error, is_live, is_ready_state, is_ready_type,
  is_shutdown_type,
}
use qwen3_tts_bridge_cpp.Session.Worker.{
  enqueue_event_locked, fail_with_event_locked, mark_outbound_control_locked,
  is_control_message_allowed_locked, handle_control_frame_locked,
}
use qwen3_tts_bridge_cpp.Session.Calls.{is_stopped, is_stopping, is_exited, begin_stop}

module _ {D : Type 0} (codec : ControlCodec D) where
  -- The session once `stop` has marked its `shutdown` as sent.
  abbrev pub told : WorkerSession D → WorkerSession D
  told s = mark_outbound_control_locked (begin_stop s).0 0 ControlMessageType.shutdown

  told_lem :
      (s : WorkerSession D)
      → is_ready_state s.state ≡ true
      → told s ≡ record s { state = WorkerSessionState.stopping; shutdown_requested = true }
  unfolding mark_outbound_control_locked begin_stop is_stopped is_stopping is_exited is_ready_state
      is_shutdown_type
  told_lem s h = ground arith

  ack_refused :
      (s : WorkerSession D)
      → s.state ≡ WorkerSessionState.stopping
      → is_control_message_allowed_locked s 0 ControlMessageType.shutdown_ack ≡ false
  unfolding is_control_message_allowed_locked is_ready_state is_ready_type
  ack_refused s h = ground arith

  refused :
      (t : WorkerSession D) (f : Frame)
      → t.state ≡ WorkerSessionState.stopping
      → f.header.request_id ≡ 0
      → is_ok (codec.decode_control_message f.payload worker_to_client).error ≡ true
      → (codec.decode_control_message f.payload worker_to_client).message ≡ shutdown_ack_message
      → let r = handle_control_frame_locked codec t f in
        (r.1 ≡ false)
        × (r.0.state ≡ WorkerSessionState.stopping)
        × (r.0.events
            ≡ t.events
              ++ (make_protocol_error "control message is invalid in the current session state"
                  ∷ []))
  unfolding handle_control_frame_locked fail_with_event_locked enqueue_event_locked is_live
      control_message_type
  refused t f h id decodes ack = ground (arith, ack_refused t h, h, id, decodes, ack)

  -- Whatever the session held when it was ready and `stop` was called: the acknowledgement that the
  -- worker sends, with request id 0, is not queued as a control event. It is queued as a protocol
  -- error, and neither the state changes nor is the transport asked to stop.
  pub ack_fails :
      (s : WorkerSession D) (f : Frame)
      → is_ready_state s.state ≡ true
      → f.header.request_id ≡ 0
      → is_ok (codec.decode_control_message f.payload worker_to_client).error ≡ true
      → (codec.decode_control_message f.payload worker_to_client).message ≡ shutdown_ack_message
      → let r = handle_control_frame_locked codec (told s) f in
        (r.1 ≡ false)
        × (r.0.state ≡ WorkerSessionState.stopping)
        × (r.0.events
            ≡ s.events
              ++ (make_protocol_error "control message is invalid in the current session state"
                  ∷ []))
  ack_fails s f h id decodes ack =
      let t : WorkerSession D = record s {
        state = WorkerSessionState.stopping;
        shutdown_requested = true;
      } in
      rw (told_lem s h) (refused t f refl id decodes ack)
