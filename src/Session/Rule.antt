-- ===== src/Session/Rule.antt =====
-- A rule for what every call and callback of the session keeps: it is enough that the critical
-- sections keep it.
use qwen3_tts_bridge_cpp.Common.{
  ℕ, String, ◌≡◌, refl, inl, inr, Bool, true, false, some, List, [], ◌∷◌, arith, Bool-cases,
  Option-cases,
}
use qwen3_tts_bridge_cpp.Control.Messages.{
  ControlMessage, ControlMessageType, ControlCodec, control_message_type, shutdown_message,
  hello_message,
}
use qwen3_tts_bridge_cpp.Session.Types.{
  WorkerSession, WorkerSessionEvent, WorkerSessionEventType, WorkerSessionState, SendResult,
  make_session_error, make_transport_error, send_result_message,
}
use qwen3_tts_bridge_cpp.Framing.Codec.{encode_frame}
use qwen3_tts_bridge_cpp.Data.{control_json}
use qwen3_tts_bridge_cpp.Session.Worker.{
  enqueue_event_locked, fail_with_event_locked, mark_outbound_control_locked, wait_for_event,
}
use qwen3_tts_bridge_cpp.Session.Calls.{
  Callback, Sending, Starting, Stopping, Action, starts, sends, stops, takes, calls_back,
  is_encoded, report_encode_error, finish_send, begin_start, begin_stop, finish_stop, deliver,
  deliver_all, send_payload, send_control_frame, send_control, stop_transport, stop, await_ready,
  greet, start, step, run,
}

-- The kinds of the events that carry the worker's regular messages.
abbrev pub is_regular_kind : WorkerSessionEventType → Bool
is_regular_kind WorkerSessionEventType.control = true
is_regular_kind WorkerSessionEventType.audio = true
is_regular_kind _ = false

module _ {D : Type 0} (codec : ControlCodec D) where
  -- Every critical section outside the callbacks keeps `P`, and so does every callback.
  pub record Keeps (P : WorkerSession D → Type 0) : Type 0 where
    pub delivers : (s : WorkerSession D) (c : Callback) → P s → P (deliver codec s c)
    pub begins_start : (s : WorkerSession D) → P s → P (begin_start s).0
    pub refuses : (s : WorkerSession D) → P s → P (record s { state = WorkerSessionState.failed })
    pub begins_stop : (s : WorkerSession D) → P s → P (begin_stop s).0
    pub finishes_stop : (s : WorkerSession D) → P s → P (finish_stop s)
    pub marks :
        (s : WorkerSession D) (request_id : ℕ) (t : ControlMessageType)
        → P s
        → P (mark_outbound_control_locked s request_id t)
    pub reports :
        (s : WorkerSession D) (e : WorkerSessionEvent D)
        → is_regular_kind e.kind ≡ false
        → P s
        → P (enqueue_event_locked s e true).0
    pub fails :
        (s : WorkerSession D) (e : WorkerSessionEvent D)
        → is_regular_kind e.kind ≡ false
        → P s
        → P (fail_with_event_locked s e true).0
    pub hands_out :
        (s : WorkerSession D) {e : WorkerSessionEvent D} {t : WorkerSession D}
        → wait_for_event s ≡ some (e, t)
        → P s
        → P t

  module _ (P : WorkerSession D → Type 0) (k : Keeps P) where
    pub deliver_all_keeps :
        (s : WorkerSession D) (cs : List Callback) → P s → P (deliver_all codec s cs)
    unfolding deliver_all
    deliver_all_keeps s [] h = h
    deliver_all_keeps s (c ∷ cs) h = deliver_all_keeps (deliver codec s c) cs (k.delivers s c h)

    report_keeps : (s : WorkerSession D) (m : String) → P s → P (report_encode_error s m)
    unfolding report_encode_error
    report_keeps s m h =
        ground (
          arith,
          k.fails s (make_session_error m) refl h,
          k.reports s (make_session_error m) refl h,
        )

    finish_send_keeps : (s : WorkerSession D) (r : SendResult) → P s → P (finish_send s r).0
    unfolding finish_send
    finish_send_keeps s r h = ground (
      arith,
      k.fails s (make_transport_error (send_result_message r)) refl h,
      k.reports s (make_transport_error (send_result_message r)) refl h,
    )

    send_payload_keeps :
        (s : WorkerSession D) (id : ℕ) (m : ControlMessage D) (payload : List ℕ) (env : Sending)
        → P s
        → P (send_payload codec s id m payload env).0
    unfolding send_payload
    send_payload_keeps s id m payload env h =
        elim (Bool-cases (is_encoded (encode_frame control_json id payload).error)) [
          | inl e ↦ rw e (
              finish_send_keeps _ env.result
                (deliver_all_keeps _ env.meanwhile (k.marks s id (control_message_type m) h)))
          | inr e ↦ rw e (report_keeps s _ h)
        ]

    pub send_keeps :
        (s : WorkerSession D) (id : ℕ) (m : ControlMessage D) (env : Sending)
        → P s
        → P (send_control_frame codec s id m env).0
    unfolding send_control_frame
    send_keeps s id m env h = ground (
      arith,
      k.reports s (make_session_error "cannot send worker-to-client control message") refl h,
      report_keeps s (codec.encode_control_message m).diagnostic h,
      send_payload_keeps s id m (codec.encode_control_message m).payload env h,
    )

    send_control_keeps :
        (s : WorkerSession D) (id : ℕ) (m : ControlMessage D) (running : Bool) (env : Sending)
        → P s
        → P (send_control codec s id m running env).0
    unfolding send_control
    send_control_keeps s id m running env h = ground (arith, send_keeps s id m env h)

    pub stop_transport_keeps :
        (s : WorkerSession D) (tell : Bool) (env : Stopping)
        → P s
        → P (stop_transport codec s tell env)
    unfolding stop_transport
    stop_transport_keeps s true env h = ground (
      arith,
      h,
      deliver_all_keeps _ env.at_stop
          (send_keeps s 0 (shutdown_message (record { mode = "cancel" })) env.shutdown h),
    )
    stop_transport_keeps s false env h = ground (arith, h, deliver_all_keeps s env.at_stop h)

    pub stop_keeps : (s : WorkerSession D) (env : Stopping) → P s → P (stop codec s env)
    unfolding stop
    stop_keeps s env h =
        let begun = k.begins_stop s h in
        ground (
          arith,
          begun,
          k.finishes_stop _ (stop_transport_keeps (begin_stop s).0 (begin_stop s).2 env begun),
        )

    await_keeps :
        (s : WorkerSession D) (env : Starting) (stopping : Stopping)
        → P s
        → P (await_ready codec s env stopping).0
    unfolding await_ready
    await_keeps s env stopping h =
        let h' = deliver_all_keeps s env.before_wake h in
        ground (arith, h', stop_keeps (deliver_all codec s env.before_wake) stopping h')

    greet_keeps :
        (s : WorkerSession D) (env : Starting) (stopping : Stopping)
        → P s
        → P (greet codec s env stopping).0
    unfolding greet
    greet_keeps s env stopping h =
        let hello = hello_message (record {
          client_name = s.options.client_name;
          client_version = s.options.client_version;
        }) in
        let h' = send_keeps s 0 hello env.hello h in
        ground (
          arith,
          stop_keeps s stopping h,
          stop_keeps (send_control_frame codec s 0 hello env.hello).0 stopping h',
          await_keeps (send_control_frame codec s 0 hello env.hello).0 env stopping h',
        )

    pub start_keeps :
        (s : WorkerSession D) (env : Starting) (stopping : Stopping)
        → P s
        → P (start codec s env stopping).0
    unfolding start
    start_keeps s env stopping h =
        let begun = k.begins_start s h in
        let h' = deliver_all_keeps (begin_start s).0 env.at_start begun in
        ground (
          arith,
          begun,
          k.refuses (deliver_all codec (begin_start s).0 env.at_start) h',
          greet_keeps (deliver_all codec (begin_start s).0 env.at_start) env stopping h',
        )

    take_keeps : (s : WorkerSession D) → P s → P (step codec s takes)
    unfolding step
    take_keeps s h = elim (Option-cases (wait_for_event s)) [
      | inl e ↦ ground (arith, e, h)
      | inr (r, e) ↦ ground (arith, e, k.hands_out s e h)
    ]

    step_keeps : (s : WorkerSession D) (a : Action D) → P s → P (step codec s a)
    unfolding step
    step_keeps s (starts env stopping) h = start_keeps s env stopping h
    step_keeps s (sends id m running env) h = send_control_keeps s id m running env h
    step_keeps s (stops env) h = stop_keeps s env h
    step_keeps s takes h = take_keeps s h
    step_keeps s (calls_back c) h = k.delivers s c h

    pub run_keeps :
        (s : WorkerSession D) (actions : List (Action D)) → P s → P (run codec s actions)
    unfolding run
    run_keeps s [] h = h
    run_keeps s (a ∷ rest) h = run_keeps (step codec s a) rest (step_keeps s a h)
