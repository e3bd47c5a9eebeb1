-- ===== src/Client/Story/Events.antt =====
-- The handlers of the events of the session, as the callbacks of one request hear them.
use qwen3_tts_bridge_cpp.Common.{
  ℕ, ◌*◌, ◌/◌, ◌^◌, ◌<◌, String, ◌≡◌, refl, ◌∙◌, ◌≢◌, inl, inr, Bool, true, false, not, ◌||◌, ◌&&◌,
  Option, none, some, List, [], ◌∷◌, ◌++◌, ◌≤◌, arith, ◌==◌, if◌then◌else◌, Bool-cases,
  Option-cases, List-cases, Eq-cases, length,
}
use qwen3_tts_bridge_cpp.Common.Words.{add_u64}
use qwen3_tts_bridge_cpp.Data.{AudioFormat, PcmChunk, SpeechTimingChunk}
use qwen3_tts_bridge_cpp.Control.Messages.{
  ControlMessage, ControlCodec, started_message, completed_message, cancelled_message,
}
use qwen3_tts_bridge_cpp.Session.Types.{WorkerSessionEvent, WorkerSessionEventType}
use qwen3_tts_bridge_cpp.Session.Calls.{Stopping}
use qwen3_tts_bridge_cpp.Client.Types.{
  QwenTtsClient, ActiveRequest, TtsCallbacks, PreparedText, Notice, Delivery, exception_reported,
  text_prepared, audio, timing, find, update,
}
use qwen3_tts_bridge_cpp.Client.Deliver.{
  invoke_user_callback, bytes_per_sample, pending_text, deliver_text, deliver_chunk, is_none,
  sample_count_for_audio, make_local_error,
}
use qwen3_tts_bridge_cpp.Client.Requests.{
  fail_request, stop_session, clear_outbound_queue_locked, handle_started, handle_control_event,
  accept_audio, handle_audio_event, handle_worker_error, handle_local_error, handle_event,
  handle_event_of,
}
use qwen3_tts_bridge_cpp.Client.Story.{
  live, hear, hear_all, notices, phase_of, phase, notices-append,
}
use qwen3_tts_bridge_cpp.Client.Story.Pending.{is_round}
use qwen3_tts_bridge_cpp.Client.Story.Map.{find-update, update-IsUnique, update-All}
use qwen3_tts_bridge_cpp.Client.Story.Handlers.{
  AllSet, IsCalled, IsEntry, IsOrderly, Tells, nothing_heard, silence, hear_both, hear_own,
  other_silent, silent-Tells, phase_lem, find-IsEntry, fail-Tells, cancel-Tells, complete-Tells,
  fail_all-Tells,
}

abbrev delivered : ActiveRequest → Bool
delivered r = r.text_context_delivered || not (is_none (pending_text r))

module _ (throws : Delivery → Bool) where
  deliver_text_own :
      (hook : Bool) (id : ℕ) (r : ActiveRequest) (n : ℕ)
      → r.callbacks.on_text_prepared ≡ true
      → is_none r.prepared_text ≡ false
      → hear_all
          (live r.text_context_delivered n)
          (notices id (deliver_text throws r.callbacks.on_text_prepared hook id (pending_text r)))
        ≡ some (live true n)
  unfolding deliver_text pending_text is_none hear
  deliver_text_own hook id r n set there = elim (Bool-cases r.text_context_delivered) [
    | inl h ↦ rw h (silence (live true n) id)
    | inr h ↦ elim (Option-cases r.prepared_text) [
      | inl e ↦ cc
      | inr (text, e) ↦
          rw (h, e)
            (hear_own throws (live false n) (live true n) _ hook id (text_prepared text) set refl)
    ]
  ]

  delivered_lem : (r : ActiveRequest) → is_none r.prepared_text ≡ false → delivered r ≡ true
  unfolding pending_text is_none
  delivered_lem r there = ground (arith, there)

  deliver_text_others :
      (set hook : Bool) (id k : ℕ) (text : Option PreparedText)
      → k ≢ id
      → notices k (deliver_text throws set hook id text) ≡ []
  unfolding deliver_text
  deliver_text_others set hook id k none ne = unfold notices in refl
  deliver_text_others set hook id k (some text) ne =
      other_silent throws set hook k id (text_prepared text) ne

  add_u64_small_result : (a b : ℕ) → add_u64 a b < 2 ^ 64
  unfolding add_u64
  add_u64_small_result a b = omega arith

  add_zero : (n : ℕ) → n < 2 ^ 64 → add_u64 n 0 ≡ n
  unfolding add_u64
  add_zero n h = omega arith

  -- A chunk that begins where the phase says takes the phase to its end.
  deliver_chunk_own :
      (callbacks : TtsCallbacks) (hook : Bool) (chunk : PcmChunk) (n : ℕ)
      → AllSet callbacks
      → chunk.first_sample ≡ n
      → n < 2 ^ 64
      → (length chunk.bytes ≡ 0 → chunk.sample_count ≡ 0)
      → hear_all
          (live true n)
          (notices chunk.request_id (deliver_chunk throws callbacks hook chunk))
        ≡ some (live true (add_u64 n chunk.sample_count))
  unfolding deliver_chunk hear
  deliver_chunk_own callbacks hook chunk n set first small empty =
      let next = add_u64 n chunk.sample_count in
      let heard : SpeechTimingChunk = record {
        request_id = chunk.request_id;
        first_sample = chunk.first_sample;
        sample_count = chunk.sample_count;
        sample_rate = chunk.format.sample_rate;
      } in
      let sounded =
        hear_own throws (live true n) (live true next) callbacks.on_audio hook chunk.request_id
          (audio chunk) set.1 (ground (arith, first)) in
      let timed =
        hear_own throws (live true next) (live true next) callbacks.on_timing hook chunk.request_id
          (timing heard) set.2 (ground (arith, first)) in
      elim (Bool-cases (length chunk.bytes == 0)) [
        | inl h ↦
            rw (h, empty (ground (arith, h)), add_zero n small)
              (silence (live true n) chunk.request_id)
        | inr h ↦ rw h (
            hear_both (live true n) (live true next) (live true next) chunk.request_id _ _ sounded
              (elim (Bool-cases (chunk.sample_count == 0)) [
                | inl z ↦ rw z (silence (live true next) chunk.request_id)
                | inr z ↦ rw z timed
              ]))
      ]

  deliver_chunk_others :
      (callbacks : TtsCallbacks) (hook : Bool) (chunk : PcmChunk) (k : ℕ)
      → k ≢ chunk.request_id
      → notices k (deliver_chunk throws callbacks hook chunk) ≡ []
  unfolding deliver_chunk
  deliver_chunk_others callbacks hook chunk k ne =
      let heard : SpeechTimingChunk = record {
        request_id = chunk.request_id;
        first_sample = chunk.first_sample;
        sample_count = chunk.sample_count;
        sample_rate = chunk.format.sample_rate;
      } in
      elim (Bool-cases (length chunk.bytes == 0)) [
        | inl h ↦ rw h (unfold notices in refl)
        | inr h ↦
            rw
              (
                h,
                notices-append k,
                other_silent throws callbacks.on_audio hook k chunk.request_id (audio chunk) ne,
              )
              (elim (Bool-cases (chunk.sample_count == 0)) [
                | inl z ↦ rw z (unfold notices in refl)
                | inr z ↦ rw z (
                    other_silent throws callbacks.on_timing hook k chunk.request_id (timing heard)
                      ne)
              ])
      ]

  zero_div : (x : ℕ) → 0 / x ≡ 0
  zero_div x = omega arith

  invoked :
      (set hook : Bool) (id : ℕ) (n : Notice)
      → set ≡ true
      → invoke_user_callback throws set hook id n
        ≡ record { owner = id; notice = n }
          ∷ (if throws (record { owner = id; notice = n }) && hook
              then record { owner = id; notice = exception_reported } ∷ []
              else [])
  unfolding invoke_user_callback
  invoked set hook id n e = ground (arith, e)

  text-IsCalled :
      {set : Bool} (hook : Bool) (id : ℕ) (text : Option PreparedText)
      → set ≡ true
      → IsCalled id (deliver_text throws set hook id text)
  unfolding deliver_text invoke_user_callback notices is_round
  text-IsCalled hook id none e = inl refl
  text-IsCalled {set} hook id (some text) e =
      inr (_, _, invoked set hook id (text_prepared text) e, refl, ground (arith, e))

  chunk_round :
      (callbacks : TtsCallbacks) (hook : Bool) (chunk : PcmChunk) (rank : ℕ)
      → AllSet callbacks
      → rank ≤ 1
      → is_round rank (notices chunk.request_id (deliver_chunk throws callbacks hook chunk)) ≡ true
  unfolding deliver_chunk invoke_user_callback notices is_round
  chunk_round callbacks hook chunk rank set l = ground (arith, set.1, set.2, l)

  behind_text :
      (hook : Bool) (id : ℕ) (text : PreparedText) (calls : List Delivery)
      → is_round 1 (notices id calls) ≡ true
      → is_round 0 (
          notices id (
            (record { owner = id; notice = text_prepared text }
              ∷ (if throws (record { owner = id; notice = text_prepared text }) && hook
                  then record { owner = id; notice = exception_reported } ∷ []
                  else []))
            ++ calls))
        ≡ true
  unfolding is_round notices
  behind_text hook id text calls e = ground (arith, e)

  whole_round :
      (callbacks : TtsCallbacks) (hook : Bool) (chunk : PcmChunk) (text : Option PreparedText)
      → AllSet callbacks
      → is_round 0 (
          notices chunk.request_id (
            deliver_text throws callbacks.on_text_prepared hook chunk.request_id text
            ++ deliver_chunk throws callbacks hook chunk))
        ≡ true
  unfolding deliver_text
  whole_round callbacks hook chunk none set = chunk_round callbacks hook chunk 0 set (omega arith)
  whole_round callbacks hook chunk (some text) set =
      rw (invoked callbacks.on_text_prepared hook chunk.request_id (text_prepared text) set.0) (
        behind_text hook chunk.request_id text (deliver_chunk throws callbacks hook chunk)
          (chunk_round callbacks hook chunk 1 set (omega arith)))

  round_owner :
      (callbacks : TtsCallbacks) (hook : Bool) (chunk : PcmChunk) (text : Option PreparedText)
      (d : Delivery) (ds : List Delivery)
      → AllSet callbacks
      → deliver_text throws callbacks.on_text_prepared hook chunk.request_id text
          ++ deliver_chunk throws callbacks hook chunk
        ≡ d ∷ ds
      → d.owner ≡ chunk.request_id
  unfolding deliver_text deliver_chunk invoke_user_callback
  round_owner callbacks hook chunk none d ds set e = ground (arith, set.1, e)
  round_owner callbacks hook chunk (some text) d ds set e = ground (arith, set.0, e)

  -- What an accepted audio event calls.
  round-IsCalled :
      (callbacks : TtsCallbacks) (hook : Bool) (chunk : PcmChunk) (text : Option PreparedText)
      → AllSet callbacks
      → IsCalled chunk.request_id (
          deliver_text throws callbacks.on_text_prepared hook chunk.request_id text
          ++ deliver_chunk throws callbacks hook chunk)
  round-IsCalled callbacks hook chunk text set =
      let calls =
        deliver_text throws callbacks.on_text_prepared hook chunk.request_id text
        ++ deliver_chunk throws callbacks hook chunk in
      elim (List-cases calls) [
        | inl e ↦ inl (rw e (unfold notices in refl))
        | inr (d, ds, e) ↦ inr (
          d,
          ds,
          e,
          round_owner callbacks hook chunk text d ds set e,
          whole_round callbacks hook chunk text set,
        )
      ]

  -- An audio payload without bytes has no samples.
  no_samples :
      (format : AudioFormat) (count : ℕ) → sample_count_for_audio format 0 ≡ some count → count ≡ 0
  unfolding sample_count_for_audio
  no_samples format count e = elim (Option-cases (bytes_per_sample format)) [
    | inl h ↦ ground (arith, h, e)
    | inr (b, h) ↦ ground (arith, h, e, zero_div (b * format.channels))
  ]

module _ (throws : Delivery → Bool) {D : Type 0} where
  -- The entry of a request is replaced, and what its callbacks hear takes it to its new phase.
  updated-Tells :
      (c : QwenTtsClient D) (id : ℕ) (r r' : ActiveRequest) (calls : List Delivery)
      → IsOrderly c
      → find id c.active_requests ≡ some r
      → IsEntry c.next_request_id (id, r')
      → hear_all (phase id c) (notices id calls)
        ≡ some (live r'.text_context_delivered r'.next_sample)
      → ((k : ℕ) → k ≢ id → notices k calls ≡ [])
      → IsCalled id calls
      → Tells throws c (record c { active_requests = update id r' c.active_requests }, calls)
  unfolding phase_of
  updated-Tells c id r r' calls v there entry own others called = record {
    orderly = record {
      unique = update-IsUnique id r' r c.active_requests there v.unique;
      entries = update-All (IsEntry c.next_request_id) id r' c.active_requests entry v.entries;
    };
    story = λ k. elim (Eq-cases k id) [
      | inl same ↦ ground (arith, same, own, find-update id id r' r c.active_requests there)
      | inr ne ↦
          rw (others k ne, find-update k id r' r c.active_requests there)
            (ground (arith, ne, nothing_heard (phase k c)))
    ];
    same_next = refl;
    round = λ k. elim (Eq-cases k id) [
      | inl same ↦ inr (rw same called)
      | inr ne ↦ inr (inl (others k ne))
    ];
  }

  started_present :
      (c : QwenTtsClient D) (id : ℕ) (format : AudioFormat) (r : ActiveRequest)
      → find id c.active_requests ≡ some r
      → handle_started throws c id format ≡ (
        record c {
          active_requests =
              update id
                (record r { audio_format = format; text_context_delivered = delivered r })
                c.active_requests;
        },
        deliver_text throws r.callbacks.on_text_prepared c.options.on_callback_exception id
            (pending_text r),
      )
  unfolding handle_started
  started_present c id format r h = ground (arith, h)

  started_absent :
      (c : QwenTtsClient D) (id : ℕ) (format : AudioFormat)
      → find id c.active_requests ≡ none
      → handle_started throws c id format ≡ (c, [])
  unfolding handle_started
  started_absent c id format h = ground (arith, h)

  started-Tells :
      (c : QwenTtsClient D) (id : ℕ) (format : AudioFormat)
      → IsOrderly c
      → Tells throws c (handle_started throws c id format)
  started-Tells c id format v = elim (Option-cases (find id c.active_requests)) [
    | inl h ↦ rw (started_absent c id format h) (silent-Tells throws c c v refl refl)
    | inr (r, h) ↦
        let e = find-IsEntry throws c id r v h in
        let hook = c.options.on_callback_exception in
        rw (started_present c id format r h) (
          updated-Tells c id r
            (record r { audio_format = format; text_context_delivered = delivered r }) _ v h
            (record {
              nonzero = e.nonzero;
              earlier = e.earlier;
              callbacks = e.callbacks;
              text = e.text;
              bounded = e.bounded;
            })
            (rw (phase_lem throws c id r h, delivered_lem throws r e.text)
              (deliver_text_own throws hook id r r.next_sample e.callbacks.0 e.text))
            (λ k ne. deliver_text_others throws _ hook id k (pending_text r) ne)
            (text-IsCalled throws hook id (pending_text r) e.callbacks.0))
  ]

  accept_audio-Tells :
      (c : QwenTtsClient D) (id : ℕ) (r : ActiveRequest) (bytes : List ℕ) (count : ℕ)
      → IsOrderly c
      → find id c.active_requests ≡ some r
      → (length bytes ≡ 0 → count ≡ 0)
      → Tells throws c (accept_audio throws c id r bytes count)
  unfolding accept_audio
  accept_audio-Tells c id r bytes count v h empty =
      let e = find-IsEntry throws c id r v h in
      let hook = c.options.on_callback_exception in
      let chunk : PcmChunk = record {
        request_id = id;
        format = r.audio_format;
        bytes = bytes;
        first_sample = r.next_sample;
        sample_count = count;
      } in
      updated-Tells c id r
        (record r {
          next_sample = add_u64 r.next_sample count;
          text_context_delivered = delivered r;
        })
        _ v h
        (record {
          nonzero = e.nonzero;
          earlier = e.earlier;
          callbacks = e.callbacks;
          text = e.text;
          bounded = add_u64_small_result throws r.next_sample count;
        })
        (rw (phase_lem throws c id r h, delivered_lem throws r e.text)
          (hear_both (live r.text_context_delivered r.next_sample) (live true r.next_sample)
            (live true (add_u64 r.next_sample count)) id
            (deliver_text throws r.callbacks.on_text_prepared hook id (pending_text r))
            (deliver_chunk throws r.callbacks hook chunk)
            (deliver_text_own throws hook id r r.next_sample e.callbacks.0 e.text)
            (deliver_chunk_own throws r.callbacks hook chunk r.next_sample e.callbacks refl
              e.bounded empty)))
        (λ k ne.
          rw
            (
              notices-append k,
              deliver_text_others throws r.callbacks.on_text_prepared hook id k (pending_text r) ne,
            )
            (deliver_chunk_others throws r.callbacks hook chunk k ne))
        (round-IsCalled throws r.callbacks hook chunk (pending_text r) e.callbacks)

  audio_absent :
      (c : QwenTtsClient D) (id : ℕ) (bytes : List ℕ)
      → find id c.active_requests ≡ none
      → handle_audio_event throws c id bytes ≡ (
        record c { late_audio_after_terminal_count = add_u64 c.late_audio_after_terminal_count 1 },
        [],
      )
  unfolding handle_audio_event
  audio_absent c id bytes h = ground (arith, h)

  audio_counted :
      (c : QwenTtsClient D) (id : ℕ) (bytes : List ℕ) (r : ActiveRequest) (count : ℕ)
      → find id c.active_requests ≡ some r
      → sample_count_for_audio r.audio_format (length bytes) ≡ some count
      → handle_audio_event throws c id bytes ≡ accept_audio throws c id r bytes count
  unfolding handle_audio_event
  audio_counted c id bytes r count h e = ground (arith, h, e)

  audio_uncounted :
      (c : QwenTtsClient D) (id : ℕ) (bytes : List ℕ) (r : ActiveRequest)
      → find id c.active_requests ≡ some r
      → sample_count_for_audio r.audio_format (length bytes) ≡ none
      → handle_audio_event throws c id bytes ≡ (
          if length bytes == 0
          then accept_audio throws c id r bytes 0
          else fail_request throws c id (
              make_local_error id "protocol_error" "invalid_audio_timeline"
                "worker audio payload has an unsupported format or incomplete sample frame"))
  unfolding handle_audio_event
  audio_uncounted c id bytes r h e = ground (arith, h, e)

  audio-Tells :
      (c : QwenTtsClient D) (id : ℕ) (bytes : List ℕ)
      → IsOrderly c
      → Tells throws c (handle_audio_event throws c id bytes)
  audio-Tells c id bytes v = elim (Option-cases (find id c.active_requests)) [
    | inl h ↦ rw (audio_absent c id bytes h) (silent-Tells throws c _ v refl refl)
    | inr (r, h) ↦ elim (Option-cases (sample_count_for_audio r.audio_format (length bytes))) [
      | inl e ↦ rw (audio_uncounted c id bytes r h e) (elim (Bool-cases (length bytes == 0)) [
        | inl z ↦ rw z (accept_audio-Tells c id r bytes 0 v h (λ _. refl))
        | inr z ↦ rw z (fail-Tells throws c id _ v)
      ])
      | inr (count, e) ↦ rw (audio_counted c id bytes r count h e) (
          accept_audio-Tells c id r bytes count v h
            (λ z. no_samples throws r.audio_format count (rw z at e)))
    ]
  ]

  control-Tells :
      (c : QwenTtsClient D) (id : ℕ) (m : ControlMessage D)
      → IsOrderly c
      → Tells throws c (handle_control_event throws c id m)
  unfolding handle_control_event
  control-Tells c id (started_message m) v = started-Tells c id m.audio_format v
  control-Tells c id (completed_message m) v = complete-Tells throws c id m v
  control-Tells c id cancelled_message v = cancel-Tells throws c id v
  control-Tells c id _ v = silent-Tells throws c c v refl refl

  worker_error-Tells :
      (c : QwenTtsClient D) (event : WorkerSessionEvent D)
      → IsOrderly c
      → Tells throws c (handle_worker_error throws c event)
  unfolding handle_worker_error
  worker_error-Tells c event v = elim (Bool-cases (event.request_id == 0)) [
    | inl z ↦ rw z (fail_all-Tells throws c _ v)
    | inr z ↦ rw z (fail-Tells throws c event.request_id _ v)
  ]

  -- What a handler does to the rest of the client first is of no matter to the callbacks.
  pub before-Tells :
      (c c' : QwenTtsClient D) (r : QwenTtsClient D × List Delivery)
      → c'.active_requests ≡ c.active_requests
      → c'.next_request_id ≡ c.next_request_id
      → (IsOrderly c' → Tells throws c' r)
      → IsOrderly c
      → Tells throws c r
  before-Tells c c' r e n t v =
      let told = t (record { unique = rw e v.unique; entries = rw (e, n) v.entries }) in
      record {
        orderly = told.orderly;
        story = λ k. rw e at (told.story k);
        same_next = told.same_next ∙ n;
        round = told.round;
      }

  pub either-Tells :
      (b : Bool) (c : QwenTtsClient D) (r r' : QwenTtsClient D × List Delivery)
      → Tells throws c r
      → Tells throws c r'
      → Tells throws c (if b then r else r')
  either-Tells true c r r' t t' = t
  either-Tells false c r r' t t' = t'

  local_error-Tells :
      (codec : ControlCodec D) (c : QwenTtsClient D) (event : WorkerSessionEvent D)
      (category code : String) (env : Stopping)
      → IsOrderly c
      → Tells throws c (handle_local_error throws codec c event category code env)
  unfolding handle_local_error clear_outbound_queue_locked stop_session
  local_error-Tells codec c event category code env v =
      either-Tells c.terminal_failure_handled c _ _ (silent-Tells throws c c v refl refl)
        (before-Tells c _ _ refl refl (λ w. fail_all-Tells throws _ _ w) v)

  event_of-Tells :
      (codec : ControlCodec D) (c : QwenTtsClient D) (event : WorkerSessionEvent D) (env : Stopping)
      (kind : WorkerSessionEventType)
      → IsOrderly c
      → Tells throws c (handle_event_of throws codec c event env kind)
  unfolding handle_event_of
  event_of-Tells codec c event env WorkerSessionEventType.control v =
      control-Tells c event.request_id event.control v
  event_of-Tells codec c event env WorkerSessionEventType.audio v =
      audio-Tells c event.request_id event.audio v
  event_of-Tells codec c event env WorkerSessionEventType.worker_error v =
      worker_error-Tells c event v
  event_of-Tells codec c event env _ v = local_error-Tells codec c event _ _ env v

  pub event-Tells :
      (codec : ControlCodec D) (c : QwenTtsClient D) (event : WorkerSessionEvent D) (env : Stopping)
      → IsOrderly c
      → Tells throws c (handle_event throws codec c event env)
  unfolding handle_event
  event-Tells codec c event env v = event_of-Tells codec c event env event.kind v
