-- ===== src/Client/Story/Turns.antt =====
-- The steps of a client, as the callbacks of one request hear them.
use qwen3_tts_bridge_cpp.Common.{
  ℕ, String, ◌≡◌, refl, sym, ◌∙◌, ◌≢◌, inl, inr, Bool, true, false, not, ◌||◌, some, List, [], ◌∷◌,
  ◌++◌, arith, ◌==◌, if◌then◌else◌, List-cases, length,
}
use qwen3_tts_bridge_cpp.Control.Messages.{ControlCodec, is_ok, synthesize_message}
use qwen3_tts_bridge_cpp.Session.Calls.{Sending}
use qwen3_tts_bridge_cpp.Client.Types.{
  QwenTtsClient, ActiveRequest, TtsCallbacks, TtsRequest, PreparedText, PreparedTtsRequest,
  Delivery,
}
use qwen3_tts_bridge_cpp.Client.Deliver.{is_none, make_local_error}
use qwen3_tts_bridge_cpp.Client.Text.{same_bytes, is_valid_utf8}
use qwen3_tts_bridge_cpp.Client.Requests.{stop_session, clear_outbound_queue_locked}
use qwen3_tts_bridge_cpp.Client.Calls.{
  refresh_prepared_text_metrics, accept_request, submit_request, synthesize_prepared,
  synthesize_async, reject, cancel_request, enqueue_outbound_locked, write_command,
  begin_stop_client, finish_stop_client, to_control_message, prepare_text, empty_prepared,
}
use qwen3_tts_bridge_cpp.Client.Steps.{
  ClientStep, synthesizes, synthesizes_prepared, cancels, writes, dispatches, receives, begins_stop,
  finishes_stop, Outcome, outcome_of, silent, calling, calls_next, next_call, client_step,
}
use qwen3_tts_bridge_cpp.Client.Story.{
  gone, live, hear_all, notices, phase, contains, Stage, during, sample_of, listen_all,
  notices-append,
}
use qwen3_tts_bridge_cpp.Client.Story.Handlers.{AllSet, IsOrderly, Tells}
use qwen3_tts_bridge_cpp.Client.Story.Pending.{
  Follows, gone_lem, gone_due, nothing_moves, rest_listens, listen_all-append,
}
use qwen3_tts_bridge_cpp.Client.Story.Rounds.{
  listen_nothing, stop_listens, next_call_listens, handler_listens,
}
use qwen3_tts_bridge_cpp.Client.Story.Accept.{
  IsLater, IsLater-refl, IsNew, IsUsed, accept-Accepts, refused-Accepts, either-Accepts,
}
use qwen3_tts_bridge_cpp.Client.Story.Steps.{
  Serves, IsHeard, reject_lem, refused-Serves, accepted-Serves, silent-Serves, dispatch-Tells,
  stop-Tells,
}

-- The stage of a request that has been accepted, and of one that has not.
abbrev pub fresh : Stage
fresh = during (live false 0) 0

abbrev pub unknown : Stage
unknown = during gone 0

module _ {D : Type 0} where
  -- What a step owes to every request, when `p` are the callbacks still to be called.
  pub record Proceeds (c : QwenTtsClient D) (p : List Delivery) (r : Outcome D × List Delivery)
      : Type 0 where
    pub orderly : IsOrderly r.0.client
    pub later : IsLater c.next_request_id r.0.client.next_request_id
    pub new :
        (k : ℕ)
        → contains k r.0.accepted ≡ true
        → IsNew c.next_request_id k × IsUsed r.0.client.next_request_id k
    pub goes_on :
        (k : ℕ) (s : Stage)
        → k ≢ 0
        → contains k r.0.accepted ≡ false
        → Follows s (notices k p) (phase k c)
        → (t : Stage) × (listen_all s (notices k r.0.calls) ≡ some t)
          × Follows t (notices k r.1) (phase k r.0.client)
    pub begun :
        (k : ℕ)
        → k ≢ 0
        → contains k r.0.accepted ≡ true
        → hear_all gone (notices k p) ≡ some gone
        → (listen_all fresh (notices k r.0.calls) ≡ some fresh)
          × Follows fresh (notices k r.1) (phase k r.0.client)

  -- A step that calls nothing but the callback of a request that is refused.
  quiet-Proceeds :
      (c : QwenTtsClient D) (p : List Delivery) (o : Outcome D)
      → Serves c o
      → ((k : ℕ) → k ≢ 0 → notices k o.calls ≡ [])
      → Proceeds c p (o, p)
  unfolding sample_of
  quiet-Proceeds c p o s silent_calls = record {
    orderly = s.orderly;
    later = s.later;
    new = s.new;
    goes_on = λ k t ne no f.
        let same =
          nothing_moves (phase k c) (phase k o.client)
            (rw (no, silent_calls k ne) at (s.story k ne)) in
        (t, rw (silent_calls k ne) (listen_nothing t), rw same at f);
    begun = λ k ne yes h.
        let same =
          nothing_moves (live false 0) (phase k o.client)
            (rw (yes, silent_calls k ne) at (s.story k ne)) in
        (
          rw (silent_calls k ne) (listen_nothing fresh),
          rw (sym same) (
            (gone_lem gone (live false 0) (notices k p) h).1,
            inr (0, 0, gone_due gone 0 0 (notices k p) h),
          ),
        );
  }

  -- A step of the dispatcher, or the end of `stop`.
  calling-Proceeds :
      (c : QwenTtsClient D) (p : List Delivery) (r : Outcome D × List Delivery)
      → r.0.accepted ≡ []
      → IsOrderly r.0.client
      → r.0.client.next_request_id ≡ c.next_request_id
      → ((k : ℕ) (s : Stage)
          → Follows s (notices k p) (phase k c)
          → (t : Stage) × (listen_all s (notices k r.0.calls) ≡ some t)
            × Follows t (notices k r.1) (phase k r.0.client))
      → Proceeds c p r
  unfolding contains
  calling-Proceeds c p r none_new v next goes = record {
    orderly = v;
    later = rw next (IsLater-refl c.next_request_id);
    new = λ k h. ground (arith, none_new, h);
    goes_on = λ k s ne no f. goes k s f;
    begun = λ k ne yes h. ground (arith, none_new, yes);
  }

next_client : {D : Type 0} (c : QwenTtsClient D) (p : List Delivery) → (next_call c p).0.client ≡ c
unfolding next_call
next_client c [] = refl
next_client c (d ∷ ds) = refl

pub next_accepted :
    {D : Type 0} (c : QwenTtsClient D) (p : List Delivery) → (next_call c p).0.accepted ≡ []
unfolding next_call
next_accepted c [] = refl
next_accepted c (d ∷ ds) = refl

no_notices : (k : ℕ) → notices k [] ≡ []
unfolding notices
no_notices k = refl

module _ {D : Type 0} (codec : ControlCodec D) (throws : Delivery → Bool)
    (text_of : List ℕ → String) where
  either-Serves :
      (b : Bool) (c : QwenTtsClient D) (o o' : QwenTtsClient D × ℕ × List Delivery)
      → Serves c (outcome_of o)
      → Serves c (outcome_of o')
      → Serves c (outcome_of (if b then o else o'))
  either-Serves true c o o' s s' = s
  either-Serves false c o o' s s' = s'

  submit-Serves :
      (c : QwenTtsClient D) (request : TtsRequest D) (prepared : PreparedText)
      (callbacks : TtsCallbacks)
      → IsOrderly c
      → AllSet callbacks
      → Serves c (
          outcome_of (
            (submit_request codec text_of c request prepared callbacks).0,
            (submit_request codec text_of c request prepared callbacks).1,
            [],
          ))
  unfolding submit_request is_none
  submit-Serves c request prepared callbacks v set =
      let r : ActiveRequest = record {
        callbacks = callbacks;
        audio_format = request.output;
        prepared_text = some prepared;
        next_sample = 0;
        text_context_delivered = false;
      } in
      let message =
        synthesize_message
          (to_control_message text_of (record request { text = prepared.effective_text })) in
      accepted-Serves throws c r (submit_request codec text_of c request prepared callbacks) set
        refl refl refl v
        (either-Accepts (not (is_ok (codec.encode_control_message message).error)) c r (c, 0)
          (accept_request c request.id r message) (refused-Accepts c r)
          (accept-Accepts c request.id r message v))

  prepared-Serves :
      (c : QwenTtsClient D) (p : PreparedTtsRequest D) (callbacks : TtsCallbacks)
      → IsOrderly c
      → AllSet callbacks
      → Serves c (outcome_of (synthesize_prepared codec text_of c p callbacks))
  unfolding synthesize_prepared
  prepared-Serves c p callbacks v set =
      either-Serves (not (same_bytes p.text.original_text p.request.text)) c _ _
        (refused-Serves throws c callbacks _ v)
        (either-Serves
          (length p.text.effective_text == 0 || not (is_valid_utf8 p.text.effective_text)) c _ _
          (refused-Serves throws c callbacks _ v)
          (submit-Serves c p.request (refresh_prepared_text_metrics p.text) callbacks v set))

  async-Serves :
      (c : QwenTtsClient D) (request : TtsRequest D) (callbacks : TtsCallbacks)
      → IsOrderly c
      → AllSet callbacks
      → Serves c (outcome_of (synthesize_async codec text_of c request callbacks))
  unfolding synthesize_async
  async-Serves c request callbacks v set =
      let p =
        prepare_text c request empty_prepared
          (record { request_id = 0; category = ""; code = ""; message = "" }) in
      either-Serves (not p.accepted) c (c, 0, reject callbacks p.failure)
        (synthesize_prepared codec text_of c (record { request = request; text = p.text })
          callbacks)
        (refused-Serves throws c callbacks p.failure v)
        (prepared-Serves c (record { request = request; text = p.text }) callbacks v set)

  cancel_lem :
      (c : QwenTtsClient D) (id : ℕ)
      → ((cancel_request c id).0.active_requests ≡ c.active_requests)
        × ((cancel_request c id).0.next_request_id ≡ c.next_request_id)
  unfolding cancel_request enqueue_outbound_locked
  cancel_lem c id = ground arith

  write_lem :
      (c : QwenTtsClient D) (runs : Bool) (sending : Sending)
      → ((write_command codec c runs sending).active_requests ≡ c.active_requests)
        × ((write_command codec c runs sending).next_request_id ≡ c.next_request_id)
  unfolding write_command
  write_lem c runs sending = elim (List-cases c.outbound_queue) [
    | inl h ↦ ground (arith, h)
    | inr (x, rest, h) ↦ ground (arith, h)
  ]

  prepared_calls :
      (c : QwenTtsClient D) (p : PreparedTtsRequest D) (callbacks : TtsCallbacks) (k : ℕ)
      → k ≢ 0
      → notices k (synthesize_prepared codec text_of c p callbacks).2 ≡ []
  unfolding synthesize_prepared notices
  prepared_calls c p callbacks k ne = ground (
    arith,
    reject_lem k callbacks
        (make_local_error p.request.id "client_error" "prepared_text_mismatch"
          "prepared text does not match the request source text")
        ne,
    reject_lem k callbacks
        (make_local_error p.request.id "client_error" "invalid_prepared_text"
          "prepared text must be non-empty valid UTF-8")
        ne,
  )

  async_calls :
      (c : QwenTtsClient D) (request : TtsRequest D) (callbacks : TtsCallbacks) (k : ℕ)
      → k ≢ 0
      → notices k (synthesize_async codec text_of c request callbacks).2 ≡ []
  unfolding synthesize_async
  async_calls c request callbacks k ne =
      let p =
        prepare_text c request empty_prepared
          (record { request_id = 0; category = ""; code = ""; message = "" }) in
      ground (
        arith,
        reject_lem k callbacks p.failure ne,
        prepared_calls c (record { request = request; text = p.text }) callbacks k ne,
      )

  -- A step that leaves the requests and calls nothing.
  still-Proceeds :
      (c c' : QwenTtsClient D) (p : List Delivery)
      → IsOrderly c
      → c'.active_requests ≡ c.active_requests
      → c'.next_request_id ≡ c.next_request_id
      → Proceeds c p (silent c', p)
  unfolding notices
  still-Proceeds c c' p v e n =
      quiet-Proceeds c p (silent c') (silent-Serves throws c c' v e n) (λ k ne. refl)

  call-Proceeds :
      (c : QwenTtsClient D) (p : List Delivery) → IsOrderly c → Proceeds c p (next_call c p)
  call-Proceeds c p v =
      calling-Proceeds c p (next_call c p) (next_accepted c p) (rw (next_client c p) v)
        (rw (next_client c p) refl)
        (λ k s f. rw (next_client c p) (next_call_listens c p k s (phase k c) f))

  handler-Proceeds :
      (c : QwenTtsClient D) (r : QwenTtsClient D × List Delivery)
      → Tells throws c r
      → Proceeds c [] (next_call r.0 r.1)
  handler-Proceeds c r told =
      calling-Proceeds c [] (next_call r.0 r.1) (next_accepted r.0 r.1)
        (rw (next_client r.0 r.1) (told.orderly)) (rw (next_client r.0 r.1) (told.same_next))
        (λ k s f.
          rw (next_client r.0 r.1) (handler_listens throws c r told k s (rw (no_notices k) at f)))

  -- `stop` in a callback of the dispatcher.
  nested_stop-Proceeds :
      (c : QwenTtsClient D) (p : List Delivery)
      → IsOrderly c
      → Proceeds c p (calling (finish_stop_client throws c true), p)
  nested_stop-Proceeds c p v =
      let told = stop-Tells throws c true v in
      calling-Proceeds c p _ refl told.orderly told.same_next
        (λ k s f. stop_listens throws c true k s (notices k p) v f)

  -- `stop` behind the join of the dispatcher.
  joined_stop-Proceeds :
      (c : QwenTtsClient D) (p : List Delivery)
      → IsOrderly c
      → Proceeds c p (
        calling ((finish_stop_client throws c false).0, p ++ (finish_stop_client throws c false).1),
        [],
      )
  joined_stop-Proceeds c p v =
      let told = stop-Tells throws c false v in
      calling-Proceeds c p _ refl told.orderly told.same_next (λ k s f.
        let (s', e, f') = rest_listens s (notices k p) (phase k c) f in
        let (t, i, g) = stop_listens throws c false k s' [] v f' in
        (
          t,
          rw (notices-append k p (finish_stop_client throws c false).1)
              (listen_all-append s s' (notices k p) _ e ∙ i),
          rw (no_notices k) g,
        ))

  pub step-Proceeds :
      (c : QwenTtsClient D) (p : List Delivery) (s : ClientStep D)
      → IsOrderly c
      → IsHeard s
      → Proceeds c p (client_step codec throws text_of c p s)
  unfolding client_step begin_stop_client stop_session clear_outbound_queue_locked
  step-Proceeds c p (synthesizes request callbacks) v set =
      quiet-Proceeds c p _ (async-Serves c request callbacks v set)
        (async_calls c request callbacks)
  step-Proceeds c p (synthesizes_prepared request callbacks) v set =
      quiet-Proceeds c p _ (prepared-Serves c request callbacks v set)
        (prepared_calls c request callbacks)
  step-Proceeds c p (cancels id) v _ =
      still-Proceeds c _ p v (cancel_lem c id).0 (cancel_lem c id).1
  step-Proceeds c p (writes runs sending) v _ =
      still-Proceeds c _ p v (write_lem c runs sending).0 (write_lem c runs sending).1
  step-Proceeds c [] (dispatches env) v _ =
      handler-Proceeds c _ (dispatch-Tells throws codec c env v)
  step-Proceeds c (d ∷ ds) (dispatches env) v _ = still-Proceeds c c (d ∷ ds) v refl refl
  step-Proceeds c p calls_next v _ = call-Proceeds c p v
  step-Proceeds c p (receives callback) v _ = still-Proceeds c _ p v refl refl
  step-Proceeds c p (begins_stop env) v _ = still-Proceeds c _ p v refl refl
  step-Proceeds c p (finishes_stop true) v _ = nested_stop-Proceeds c p v
  step-Proceeds c p (finishes_stop false) v _ = joined_stop-Proceeds c p v
