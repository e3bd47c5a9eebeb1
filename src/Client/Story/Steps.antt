-- ===== src/Client/Story/Steps.antt =====
-- Every step of a client tells each request what its story allows.
use qwen3_tts_bridge_cpp.Common.{
  ℕ, ◌≡◌, refl, ◌∙◌, ◌≢◌, inl, inr, Bool, true, false, not, ◌&&◌, ◌||◌, none, some, List, [], arith,
  if◌then◌else◌, Option-cases, Eq-cases,
}
use qwen3_tts_bridge_cpp.Control.Messages.{ControlCodec}
use qwen3_tts_bridge_cpp.Session.Types.{WorkerSession, WorkerSessionEvent}
use qwen3_tts_bridge_cpp.Session.Worker.{wait_for_event}
use qwen3_tts_bridge_cpp.Session.Calls.{Stopping}
use qwen3_tts_bridge_cpp.Client.Types.{
  QwenTtsClient, ActiveRequest, TtsCallbacks, TtsError, Delivery,
}
use qwen3_tts_bridge_cpp.Client.Deliver.{is_none}
use qwen3_tts_bridge_cpp.Client.Requests.{
  handle_event, fail_all_requests, clear_outbound_queue_locked,
}
use qwen3_tts_bridge_cpp.Client.Calls.{
  client_stopped, reject, dispatch_event, finish_stop_client, join_threads,
}
use qwen3_tts_bridge_cpp.Client.Steps.{
  ClientStep, synthesizes, synthesizes_prepared, Outcome, outcome_of, silent, calling,
}
use qwen3_tts_bridge_cpp.Client.Story.{Phase, live, hear_all, notices, phase_of, phase, contains}
use qwen3_tts_bridge_cpp.Client.Story.Handlers.{
  AllSet, IsOrderly, Tells, nothing_heard, silence, silent-Tells, fail_all-Tells,
}
use qwen3_tts_bridge_cpp.Client.Story.Events.{event-Tells, before-Tells, either-Tells}
use qwen3_tts_bridge_cpp.Client.Story.Accept.{
  IsNew, IsUsed, IsLater, IsLater-refl, Accepts, Accepts-IsOrderly,
}

-- The phase in which a request begins that is accepted.
abbrev pub begins : {D : Type 0} → ℕ → QwenTtsClient D → List ℕ → Phase
begins k c accepted = if contains k accepted then live false 0 else phase k c

pub reject_lem :
    (k : ℕ) (callbacks : TtsCallbacks) (e : TtsError) → k ≢ 0 → notices k (reject callbacks e) ≡ []
unfolding notices reject
reject_lem k callbacks e ne = ground (arith, ne)

module _ {D : Type 0} where
  -- What a stretch of a client's life owes to every request.
  pub record Serves (c : QwenTtsClient D) (o : Outcome D) : Type 0 where
    pub orderly : IsOrderly o.client
    pub later : IsLater c.next_request_id o.client.next_request_id
    pub story :
        (k : ℕ)
        → k ≢ 0
        → hear_all (begins k c o.accepted) (notices k o.calls) ≡ some (phase k o.client)
    pub new :
        (k : ℕ)
        → contains k o.accepted ≡ true
        → IsNew c.next_request_id k × IsUsed o.client.next_request_id k

  -- The owner sets all callbacks of the requests that the step submits.
  abbrev pub IsHeard : ClientStep D → Type 0
  IsHeard (synthesizes request callbacks) = AllSet callbacks
  IsHeard (synthesizes_prepared request callbacks) = AllSet callbacks
  IsHeard _ = Unit

  join_threads-Same :
      (c : QwenTtsClient D) (b : Bool)
      → ((join_threads c b).active_requests ≡ c.active_requests)
        × ((join_threads c b).next_request_id ≡ c.next_request_id)
  unfolding join_threads
  join_threads-Same c b = (refl, refl)

module _ (throws : Delivery → Bool) {D : Type 0} where
  pub calling-Serves :
      (c : QwenTtsClient D) (r : QwenTtsClient D × List Delivery)
      → Tells throws c r
      → Serves c (calling r)
  unfolding contains
  calling-Serves c r t = record {
    orderly = t.orderly;
    later = rw t.same_next (IsLater-refl c.next_request_id);
    story = λ k _. t.story k;
    new = λ k h. ground (arith, h);
  }

  pub silent-Serves :
      (c c' : QwenTtsClient D)
      → IsOrderly c
      → c'.active_requests ≡ c.active_requests
      → c'.next_request_id ≡ c.next_request_id
      → Serves c (silent c')
  silent-Serves c c' v e n = calling-Serves c (c', []) (silent-Tells throws c c' v e n)

  -- A request that is refused, with a callback that stands for no request.
  pub refused-Serves :
      (c : QwenTtsClient D) (callbacks : TtsCallbacks) (e : TtsError)
      → IsOrderly c
      → Serves c (outcome_of (c, 0, reject callbacks e))
  unfolding contains
  refused-Serves c callbacks e v = record {
    orderly = v;
    later = IsLater-refl c.next_request_id;
    story = λ k ne. rw (reject_lem k callbacks e ne) (nothing_heard (phase k c));
    new = λ k h. ground (arith, h);
  }

  pub accepted-Serves :
      (c : QwenTtsClient D) (r : ActiveRequest) (o : QwenTtsClient D × ℕ)
      → AllSet r.callbacks
      → is_none r.prepared_text ≡ false
      → r.next_sample ≡ 0
      → r.text_context_delivered ≡ false
      → IsOrderly c
      → Accepts c r o
      → Serves c (outcome_of (o.0, o.1, []))
  unfolding contains phase_of
  accepted-Serves c r o set text first fresh v a =
      let orderly = Accepts-IsOrderly c r o set text first v a in
      elim a.outcome [
        | inl (z, same) ↦ record {
          orderly = orderly;
          later = a.later;
          story = λ k _. rw same (ground (arith, z, silence (phase k c) k));
          new = λ k h. ground (arith, z, h);
        }
        | inr (new, used, added) ↦ record {
          orderly = orderly;
          later = a.later;
          story = λ k ne. rw added (elim (Eq-cases k o.1) [
            | inl e ↦ ground (arith, e, ne, first, fresh, silence (live false 0) k)
            | inr d ↦ ground (arith, d, silence (phase k c) k)
          ]);
          new = λ k h. let e : k ≡ o.1 = ground (arith, h, new.nonzero) in rw e (new, used);
        }
      ]

  dispatch_idle :
      (codec : ControlCodec D) (c : QwenTtsClient D) (env : Stopping)
      → elim c.session [ none ↦ none | some s ↦ wait_for_event s ] ≡ none
      → dispatch_event codec throws c env ≡ (c, [])
  unfolding dispatch_event
  dispatch_idle codec c env h = elim (Option-cases c.session) [
    | inl e ↦ ground (arith, e)
    | inr (s, e) ↦ ground (arith, e, h)
  ]

  dispatch_busy :
      (codec : ControlCodec D) (c : QwenTtsClient D) (env : Stopping) (event : WorkerSessionEvent D)
      (s' : WorkerSession D)
      → elim c.session [ none ↦ none | some s ↦ wait_for_event s ] ≡ some (event, s')
      → dispatch_event codec throws c env
        ≡ handle_event throws codec (record c { session = some s' }) event env
  unfolding dispatch_event
  dispatch_busy codec c env event s' h = elim (Option-cases c.session) [
    | inl e ↦ ground (arith, e, h)
    | inr (s, e) ↦ ground (arith, e, h)
  ]

  pub dispatch-Tells :
      (codec : ControlCodec D) (c : QwenTtsClient D) (env : Stopping)
      → IsOrderly c
      → Tells throws c (dispatch_event codec throws c env)
  dispatch-Tells codec c env v =
      elim (Option-cases (elim c.session [ none ↦ none | some s ↦ wait_for_event s ])) [
        | inl h ↦ rw (dispatch_idle codec c env h) (silent-Tells throws c c v refl refl)
        | inr ((event, s'), h) ↦ rw (dispatch_busy codec c env event s' h) (
            before-Tells throws c (record c { session = some s' }) _ refl refl
              (λ w. event-Tells throws codec (record c { session = some s' }) event env w) v)
      ]

  -- What is done to the rest of the client behind a handler is of no matter either.
  after-Tells :
      (c d : QwenTtsClient D) (r : QwenTtsClient D × List Delivery)
      → d.active_requests ≡ r.0.active_requests
      → d.next_request_id ≡ r.0.next_request_id
      → Tells throws c r
      → Tells throws c (d, r.1)
  after-Tells c d r e n t = record {
    orderly = record { unique = rw e t.orderly.unique; entries = rw (e, n) t.orderly.entries };
    story = λ k. rw e (t.story k);
    same_next = n ∙ t.same_next;
    round = λ k. rw e (t.round k);
  }

  pub stop-Tells :
      (c : QwenTtsClient D) (from_dispatcher : Bool)
      → IsOrderly c
      → Tells throws c (finish_stop_client throws c from_dispatcher)
  unfolding finish_stop_client clear_outbound_queue_locked
  stop-Tells c from_dispatcher v =
      let joined = join_threads c from_dispatcher in
      let failed = fail_all_requests throws joined client_stopped in
      let cleared : QwenTtsClient D = record (clear_outbound_queue_locked failed.0) {
        session = none;
        stopping = false;
        running = false;
        terminal_failure_handled = false;
      } in
      let same = join_threads-Same c from_dispatcher in
      let told =
        before-Tells throws c joined failed same.0 same.1
          (λ w. fail_all-Tells throws joined client_stopped w) v in
      either-Tells throws
        (not failed.0.writer_joinable && (not failed.0.dispatcher_joinable || from_dispatcher)) c
        (cleared, failed.1) failed (after-Tells c cleared failed refl refl told) told
