-- ===== src/Session/Invariant.antt =====
-- The queue of the session: what is in it, and what `enqueue_event_locked` keeps true of it.
use qwen3_tts_bridge_cpp.Common.{
  ℕ, ◌+◌, ◌-◌, ◌≤◌, ◌<◌, min, ◌≡◌, refl, sym, ap, ◌∙◌, ◌≢◌, ◌⊎◌, inl, inr, Bool, true, false, ◌||◌,
  some, List, [], ◌∷◌, ◌++◌, arith, ltb, leb, if◌then◌else◌, Bool-cases, length, All,
}
pub mod Frames
pub mod Runs
use mathlib.Core.Bool.{false≢true}
use mathlib.Core.Path.{subst}
use qwen3_tts_bridge_cpp.Framing.Parser.Refines.{IsValid as IsValidParser}
use qwen3_tts_bridge_cpp.Control.Messages.{control_message_type}
use qwen3_tts_bridge_cpp.Session.Rule.{is_regular_kind}
use qwen3_tts_bridge_cpp.Session.Types.{
  WorkerSession, WorkerSessionEvent, WorkerSessionEventType, WorkerSessionState, make_session_error,
  is_live, event_payload_size, is_session_level_worker_control, is_request_level_worker_control,
  is_shutdown_ack_type,
}
use qwen3_tts_bridge_cpp.Session.Worker.{
  enqueue_event_locked, fail_with_event_locked, wait_for_event,
}

module _ {D : Type 0} where
  abbrev pub total : List (WorkerSessionEvent D) → ℕ
  total [] = 0
  total (e ∷ es) = event_payload_size e + total es

  abbrev pub regular_count : List (WorkerSessionEvent D) → ℕ
  regular_count [] = 0
  regular_count (e ∷ es) = (if is_regular_kind e.kind then 1 else 0) + regular_count es

  abbrev pub regular_bytes : List (WorkerSessionEvent D) → ℕ
  regular_bytes [] = 0
  regular_bytes (e ∷ es) =
      (if is_regular_kind e.kind then event_payload_size e else 0) + regular_bytes es

  -- A control event has the request id that its message calls for, and an audio event one that is
  -- not 0. `asked` says whether `shutdown` has been sent.
  abbrev pub RoutedKind : Bool → WorkerSessionEvent D → WorkerSessionEventType → Type 0
  RoutedKind asked e WorkerSessionEventType.control =
      (((is_session_level_worker_control (control_message_type e.control) ≡ true)
          × (e.request_id ≡ 0))
        ⊎ ((is_request_level_worker_control (control_message_type e.control) ≡ true)
            × (e.request_id ≢ 0)))
      × (is_shutdown_ack_type (control_message_type e.control) ≡ true → asked ≡ true)
  RoutedKind asked e WorkerSessionEventType.audio = e.request_id ≢ 0
  RoutedKind asked e _ = Unit {0}

  abbrev pub IsRouted : Bool → WorkerSessionEvent D → Type 0
  IsRouted asked e = RoutedKind asked e e.kind

  pub record IsValid (s : WorkerSession D) : Type 0 where
    pub routed : All (IsRouted s.shutdown_requested) s.events
    pub accounted : s.queued_event_bytes ≡ total s.events
    pub few : regular_count s.events ≤ s.options.max_event_queue_events
    pub small : regular_bytes s.events ≤ s.options.max_event_queue_bytes
    pub parser : IsValidParser s.parser

  total-append :
      (es : List (WorkerSessionEvent D)) (e : WorkerSessionEvent D)
      → total (es ++ (e ∷ [])) ≡ total es + event_payload_size e
  total-append [] e = omega arith
  total-append (x ∷ es) e = omega (arith, total-append es e)

  regular_count-append :
      (es : List (WorkerSessionEvent D)) (e : WorkerSessionEvent D)
      → regular_count (es ++ (e ∷ []))
        ≡ regular_count es + (if is_regular_kind e.kind then 1 else 0)
  regular_count-append [] e = omega arith
  regular_count-append (x ∷ es) e = omega (arith, regular_count-append es e)

  regular_bytes-append :
      (es : List (WorkerSessionEvent D)) (e : WorkerSessionEvent D)
      → regular_bytes (es ++ (e ∷ []))
        ≡ regular_bytes es + (if is_regular_kind e.kind then event_payload_size e else 0)
  regular_bytes-append [] e = omega arith
  regular_bytes-append (x ∷ es) e = omega (arith, regular_bytes-append es e)

  regular_count-le : (es : List (WorkerSessionEvent D)) → regular_count es ≤ length es
  regular_count-le [] = omega arith
  regular_count-le (e ∷ es) = ground (arith, regular_count-le es)

  regular_bytes-le : (es : List (WorkerSessionEvent D)) → regular_bytes es ≤ total es
  regular_bytes-le [] = omega arith
  regular_bytes-le (e ∷ es) = ground (arith, regular_bytes-le es)

  All-snoc :
      (P : WorkerSessionEvent D → Type 0) (es : List (WorkerSessionEvent D))
      (e : WorkerSessionEvent D)
      → All P es
      → P e
      → All P (es ++ (e ∷ []))
  All-snoc P [] e h p = (p, tt)
  All-snoc P (x ∷ es) e h p = (h.0, All-snoc P es e h.1 p)

  -- The session after an event has joined its queue.
  abbrev pushed : WorkerSession D → WorkerSessionEvent D → WorkerSession D
  pushed s e = record s {
    queued_event_bytes = s.queued_event_bytes + event_payload_size e;
    events = s.events ++ (e ∷ []);
  }

  pushed-IsValid :
      (s : WorkerSession D) (e : WorkerSessionEvent D)
      → IsValid s
      → IsRouted s.shutdown_requested e
      → (is_regular_kind e.kind ≡ true
          → (length s.events < s.options.max_event_queue_events)
            × (s.queued_event_bytes + event_payload_size e ≤ s.options.max_event_queue_bytes))
      → IsValid (pushed s e)
  pushed-IsValid s e v r room = record {
    routed = All-snoc (IsRouted s.shutdown_requested) s.events e v.routed r;
    accounted = omega (arith, v.accounted, total-append s.events e);
    few = ground (arith, v.few, regular_count-append s.events e, regular_count-le s.events);
    small =
        ground
          (arith, v.small, v.accounted, regular_bytes-append s.events e, regular_bytes-le s.events);
    parser = v.parser;
  }

  -- The overflow diagnostic takes the event's place.
  abbrev overflow_event : WorkerSessionEvent D
  overflow_event = make_session_error "worker session event queue overflow"

  overflow-IsValid :
      (s : WorkerSession D) (state : WorkerSessionState)
      → IsValid s
      → IsValid (record (pushed s overflow_event) { event_queue_overflowed = true; state = state })
  overflow-IsValid s state v =
      let w = pushed-IsValid s overflow_event v tt (λ k. absurd (false≢true k)) in
      record {
        routed = w.routed;
        accounted = w.accounted;
        few = w.few;
        small = w.small;
        parser = w.parser;
      }

  abbrev full : WorkerSession D → WorkerSessionEvent D → Bool
  full s e =
      leb s.options.max_event_queue_events (length s.events)
      || (ltb s.options.max_event_queue_bytes (event_payload_size e)
          || ltb (s.options.max_event_queue_bytes - event_payload_size e) s.queued_event_bytes)

  -- The session after an event that did not fit.
  abbrev pub overflowing : WorkerSession D → WorkerSession D
  overflowing s = record (pushed s overflow_event) {
    event_queue_overflowed = true;
    state = if is_live s.state then WorkerSessionState.failed else s.state;
  }

  -- There is room for the event in the queue.
  abbrev pub Room : WorkerSession D → WorkerSessionEvent D → Type 0
  Room s e =
      (s.event_queue_overflowed ≡ false)
      × (length s.events < s.options.max_event_queue_events)
      × (s.queued_event_bytes + event_payload_size e ≤ s.options.max_event_queue_bytes)

  -- There is none.
  abbrev pub IsFull : WorkerSession D → WorkerSessionEvent D → Type 0
  IsFull s e =
      (s.options.max_event_queue_events ≤ length s.events)
      ⊎ (s.options.max_event_queue_bytes < s.queued_event_bytes + event_payload_size e)

  -- An event is queued, the overflow diagnostic is queued in its place, or it is dropped.
  pub data Enqueued (s : WorkerSession D) (e : WorkerSessionEvent D) (exempt : Bool)
      (r : WorkerSession D × Bool) : Type 0 where
    queues : (exempt ≡ true) ⊎ Room s e → r ≡ (pushed s e, false) → Enqueued s e exempt r
    overflows :
        exempt ≡ false
        → s.event_queue_overflowed ≡ false
        → IsFull s e
        → r ≡ (overflowing s, true)
        → Enqueued s e exempt r
    drops : exempt ≡ false → s.event_queue_overflowed ≡ true → r ≡ (s, true) → Enqueued s e exempt r

  module _ (s : WorkerSession D) (e : WorkerSessionEvent D) where
    enqueue_exempt : enqueue_event_locked s e true ≡ (pushed s e, false)
    unfolding enqueue_event_locked
    enqueue_exempt = ground arith

    enqueue_dropped : s.event_queue_overflowed ≡ true → enqueue_event_locked s e false ≡ (s, true)
    unfolding enqueue_event_locked
    enqueue_dropped h = ground arith

    enqueue_overflowing :
        s.event_queue_overflowed ≡ false
        → full s e ≡ true
        → enqueue_event_locked s e false ≡ (overflowing s, true)
    unfolding enqueue_event_locked
    enqueue_overflowing h k = ground arith

    enqueue_room :
        s.event_queue_overflowed ≡ false
        → full s e ≡ false
        → enqueue_event_locked s e false ≡ (pushed s e, false)
    unfolding enqueue_event_locked
    enqueue_room h k = ground arith

    full-Room : s.event_queue_overflowed ≡ false → full s e ≡ false → Room s e
    full-Room h k = ground arith

    full-IsFull : full s e ≡ true → IsFull s e
    full-IsFull k = ground arith

    -- `enqueue_event_locked` queues an exempt event, and one that there is room for while the queue
    -- has not overflowed. A regular event for which there is no room is replaced by the overflow
    -- diagnostic, which closes the queue and fails a live session, and behind it every regular
    -- event is dropped. The last two ask to stop the transport.
    pub enqueue-Enqueued : (exempt : Bool) → Enqueued s e exempt (enqueue_event_locked s e exempt)
    enqueue-Enqueued true = queues (inl refl) enqueue_exempt
    enqueue-Enqueued false = elim (Bool-cases s.event_queue_overflowed) [
      | inl over ↦ drops refl over (enqueue_dropped over)
      | inr under ↦ elim (Bool-cases (full s e)) [
        | inl k ↦ overflows refl under (full-IsFull k) (enqueue_overflowing under k)
        | inr k ↦ queues (inr (full-Room under k)) (enqueue_room under k)
      ]
    ]

  Enqueued-IsValid :
      (s : WorkerSession D) (e : WorkerSessionEvent D) (exempt : Bool) (r : WorkerSession D × Bool)
      → IsValid s
      → IsRouted s.shutdown_requested e
      → (exempt ≡ true → is_regular_kind e.kind ≡ false)
      → Enqueued s e exempt r
      → IsValid r.0
  Enqueued-IsValid s e exempt r v w plain (queues (inl h) q) =
      rw q (pushed-IsValid s e v w (λ k. absurd (false≢true (sym (plain h) ∙ k))))
  Enqueued-IsValid s e exempt r v w plain (queues (inr h) q) =
      rw q (pushed-IsValid s e v w (λ k. (h.1, h.2)))
  Enqueued-IsValid s e exempt r v w plain (overflows h k l q) = rw q (overflow-IsValid s _ v)
  Enqueued-IsValid s e exempt r v w plain (drops h k q) = rw q v

  -- Queueing a routed event keeps the queue valid, as long as no regular event is exempt.
  pub enqueue-IsValid :
      (s : WorkerSession D) (e : WorkerSessionEvent D) (exempt : Bool)
      → IsValid s
      → IsRouted s.shutdown_requested e
      → (exempt ≡ true → is_regular_kind e.kind ≡ false)
      → IsValid (enqueue_event_locked s e exempt).0
  enqueue-IsValid s e exempt v w plain =
      Enqueued-IsValid s e exempt (enqueue_event_locked s e exempt) v w plain
        (enqueue-Enqueued s e exempt)

  -- A change of the state alone.
  pub with_state-IsValid :
      (s : WorkerSession D) (state : WorkerSessionState)
      → IsValid s
      → IsValid (record s { state = state })
  with_state-IsValid s state v = record {
    routed = v.routed;
    accounted = v.accounted;
    few = v.few;
    small = v.small;
    parser = v.parser;
  }

  pub fail-IsValid :
      (s : WorkerSession D) (e : WorkerSessionEvent D)
      → IsValid s
      → IsRouted s.shutdown_requested e
      → is_regular_kind e.kind ≡ false
      → IsValid (fail_with_event_locked s e true).0
  unfolding fail_with_event_locked
  fail-IsValid s e v w plain =
      enqueue-IsValid
        (record s { state = if is_live s.state then WorkerSessionState.failed else s.state }) e true
        (with_state-IsValid s _ v) w (λ _. plain)

  -- The session without its oldest event.
  abbrev popped :
      WorkerSession D → WorkerSessionEvent D → List (WorkerSessionEvent D) → WorkerSession D
  popped s e es = record s {
    events = es;
    queued_event_bytes = s.queued_event_bytes - min s.queued_event_bytes (event_payload_size e);
  }

  popped-IsValid :
      (s : WorkerSession D) (e : WorkerSessionEvent D) (es : List (WorkerSessionEvent D))
      → s.events ≡ e ∷ es
      → IsValid s
      → IsValid (popped s e es)
  popped-IsValid s e es h v =
      let routed : All (IsRouted s.shutdown_requested) (e ∷ es) =
        subst (All (IsRouted s.shutdown_requested)) h v.routed in
      record {
        routed = routed.1;
        accounted = omega (arith, v.accounted, ap total h);
        few = omega (arith, v.few, ap regular_count h);
        small = omega (arith, v.small, ap regular_bytes h);
        parser = v.parser;
      }

  wait_for_event_lem :
      (s : WorkerSession D) (events : List (WorkerSessionEvent D)) {e : WorkerSessionEvent D}
      {t : WorkerSession D}
      → s.events ≡ events
      → wait_for_event s ≡ some (e, t)
      → (es : List (WorkerSessionEvent D)) × (s.events ≡ e ∷ es) × (t ≡ popped s e es)
  unfolding wait_for_event
  wait_for_event_lem s [] h k = ground arith
  wait_for_event_lem s (x ∷ es) h k = (es, ground arith, ground arith)

  -- `wait_for_event` takes the oldest event and keeps the rest valid.
  pub wait_for_event-IsValid :
      (s : WorkerSession D) {e : WorkerSessionEvent D} {t : WorkerSession D}
      → IsValid s
      → wait_for_event s ≡ some (e, t)
      → IsValid t
  wait_for_event-IsValid s {e} {t} v h =
      let (es, front, at) = wait_for_event_lem s s.events refl h in
      rw at (popped-IsValid s e es front v)
