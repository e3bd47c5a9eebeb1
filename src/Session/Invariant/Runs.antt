-- ===== src/Session/Invariant/Runs.antt =====
-- Every call of the session's owner and every callback keeps the queue valid, in any order.
use qwen3_tts_bridge_cpp.Common.{
  ℕ, ◌≡◌, refl, sym, Bool, true, false, List, [], ◌∷◌, arith, if◌then◌else◌, All,
}
use mathlib.Core.Bool.{false≢true}
use qwen3_tts_bridge_cpp.Framing.Parser.{clear}
use qwen3_tts_bridge_cpp.Control.Messages.{ControlMessageType, ControlCodec}
use qwen3_tts_bridge_cpp.Session.Types.{
  WorkerSession, WorkerSessionEvent, WorkerSessionEventType, WorkerSessionState,
  WorkerSessionOptions, make_session,
}
use qwen3_tts_bridge_cpp.Session.Worker.{mark_outbound_control_locked}
use qwen3_tts_bridge_cpp.Session.Calls.{
  Callback, is_exited, bytes_received, transport_failed, peer_exited, Action, begin_start,
  begin_stop, finish_stop, deliver, run,
}
use qwen3_tts_bridge_cpp.Session.Rule.{is_regular_kind, Keeps, run_keeps}
use qwen3_tts_bridge_cpp.Session.Invariant.{
  IsValid, IsRouted, RoutedKind, enqueue-IsValid, fail-IsValid, with_state-IsValid,
  wait_for_event-IsValid,
}
use qwen3_tts_bridge_cpp.Session.Invariant.Frames.{
  handle_bytes-IsValid, handle_transport_error-IsValid, handle_exit-IsValid,
}

module _ {D : Type 0} where
  make_session-IsValid :
      (has_transport : Bool) (options : WorkerSessionOptions)
      → IsValid (make_session {D = D} has_transport options)
  unfolding make_session
  make_session-IsValid has_transport options = record {
    routed = tt;
    accounted = refl;
    few = omega arith;
    small = omega arith;
    parser = record { within = omega arith };
  }

  -- A diagnostic has no request to be routed to.
  plain-Routed :
      (asked : Bool) (e : WorkerSessionEvent D) (kind : WorkerSessionEventType)
      → is_regular_kind kind ≡ false
      → RoutedKind asked e kind
  plain-Routed asked e WorkerSessionEventType.control h = absurd (false≢true (sym h))
  plain-Routed asked e WorkerSessionEventType.audio h = absurd (false≢true (sym h))
  plain-Routed asked e _ h = tt

  -- Asking for the shutdown takes nothing away.
  ask-Routed :
      (asked : Bool) (e : WorkerSessionEvent D) (kind : WorkerSessionEventType)
      → RoutedKind asked e kind
      → RoutedKind true e kind
  ask-Routed asked e WorkerSessionEventType.control h = (h.0, λ k. refl)
  ask-Routed asked e WorkerSessionEventType.audio h = h
  ask-Routed asked e _ h = tt

  ask-All-Routed :
      (asked : Bool) (es : List (WorkerSessionEvent D))
      → All (IsRouted asked) es
      → All (IsRouted true) es
  ask-All-Routed asked [] h = tt
  ask-All-Routed asked (e ∷ es) h = (ask-Routed asked e e.kind h.0, ask-All-Routed asked es h.1)

  asked-IsValid :
      (s : WorkerSession D) → IsValid s → IsValid (record s { shutdown_requested = true })
  asked-IsValid s v = record {
    routed = ask-All-Routed s.shutdown_requested s.events v.routed;
    accounted = v.accounted;
    few = v.few;
    small = v.small;
    parser = v.parser;
  }

  mark-IsValid :
      (s : WorkerSession D) (id : ℕ) (t : ControlMessageType)
      → IsValid s
      → IsValid (mark_outbound_control_locked s id t)
  unfolding mark_outbound_control_locked
  mark-IsValid s id t v = ground (arith, v, asked-IsValid s v)

  begin_start-IsValid : (s : WorkerSession D) → IsValid s → IsValid (begin_start s).0
  unfolding begin_start
  begin_start-IsValid s v =
      let fresh : IsValid (record s {
        start_attempted = true;
        state = WorkerSessionState.starting;
        event_queue_overflowed = false;
        parser = clear s.parser;
        events = [];
        queued_event_bytes = 0;
        shutdown_requested = false;
      }) =
        record {
          routed = tt;
          accounted = refl;
          few = omega arith;
          small = omega arith;
          parser = unfold clear in record { within = omega arith };
        } in
      ground (arith, v, fresh)

  begin_stop-IsValid : (s : WorkerSession D) → IsValid s → IsValid (begin_stop s).0
  unfolding begin_stop
  begin_stop-IsValid s v = ground (
    arith,
    v,
    with_state-IsValid s (if is_exited s.state then s.state else WorkerSessionState.stopping) v,
  )

  finish_stop-IsValid : (s : WorkerSession D) → IsValid s → IsValid (finish_stop s)
  unfolding finish_stop
  finish_stop-IsValid s v = ground (arith, v, with_state-IsValid s WorkerSessionState.stopped v)

module _ {D : Type 0} (codec : ControlCodec D) where
  deliver-IsValid : (s : WorkerSession D) (c : Callback) → IsValid s → IsValid (deliver codec s c)
  unfolding deliver
  deliver-IsValid s (bytes_received bytes) v = handle_bytes-IsValid codec s bytes v
  deliver-IsValid s (transport_failed message) v = handle_transport_error-IsValid s message v
  deliver-IsValid s (peer_exited status) v = handle_exit-IsValid s status v

  keeps_IsValid : Keeps codec IsValid
  keeps_IsValid = record {
    delivers = deliver-IsValid;
    begins_start = begin_start-IsValid;
    refuses = λ s v. with_state-IsValid s WorkerSessionState.failed v;
    begins_stop = begin_stop-IsValid;
    finishes_stop = finish_stop-IsValid;
    marks = mark-IsValid;
    reports = λ s e h v.
        enqueue-IsValid s e true v (plain-Routed s.shutdown_requested e e.kind h) (λ _. h);
    fails = λ s e h v. fail-IsValid s e v (plain-Routed s.shutdown_requested e e.kind h) h;
    hands_out = λ s h v. wait_for_event-IsValid s v h;
  }

  -- Whatever calls the owner makes of a new session, in any order, and whatever the transport
  -- answers, reports and delivers before, between and during them: the queued control and audio
  -- events are at most `max_event_queue_events` and hold at most `max_event_queue_bytes`,
  -- `queued_event_bytes` is the size of what is queued, every queued control message and audio
  -- frame has a request id that fits it, a shutdown acknowledgement is queued only after
  -- `shutdown` was sent, and the parser's buffer is valid.
  pub run-IsValid :
      (has_transport : Bool) (options : WorkerSessionOptions) (actions : List (Action D))
      → IsValid (run codec (make_session has_transport options) actions)
  run-IsValid has_transport options actions =
      run_keeps codec IsValid keeps_IsValid _ actions (make_session-IsValid has_transport options)
