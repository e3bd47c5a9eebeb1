-- ===== src/Client/Story/Rounds.antt =====
-- What a request hears of `stop`, and of the calls of one handler.
use qwen3_tts_bridge_cpp.Common.{
  ℕ, ◌≡◌, refl, sym, ◌∙◌, inl, inr, Bool, true, none, some, List, [], ◌∷◌, arith, ◌==◌,
  if◌then◌else◌, Bool-cases, Option-cases, Eq-cases, All,
}
use qwen3_tts_bridge_cpp.Client.Types.{
  QwenTtsClient, ActiveRequest, TtsError, Notice, Delivery, error, find,
}
use qwen3_tts_bridge_cpp.Client.Deliver.{make_local_error, invoke_user_callback, fail_each}
use qwen3_tts_bridge_cpp.Client.Requests.{fail_all_requests, clear_outbound_queue_locked}
use qwen3_tts_bridge_cpp.Client.Calls.{client_stopped, finish_stop_client, join_threads}
use qwen3_tts_bridge_cpp.Client.Story.{
  Phase, gone, live, hear, hear_all, notices, phase_of, phase, Stage, during, ended, due_behind,
  sample_of, listen, listen_all, notices-append,
}
use qwen3_tts_bridge_cpp.Client.Story.Map.{IsUnique}
use qwen3_tts_bridge_cpp.Client.Story.Handlers.{
  IsEntry, IsOrderly, Tells, other_silent, fail_each_step, phase_lem,
}
use qwen3_tts_bridge_cpp.Client.Story.Pending.{
  Follows, is_round, stopped, listen_all-append, next_listens, first_listens, quiet, nothing_moves,
  gone_lem,
}
use qwen3_tts_bridge_cpp.Client.Steps.{next_call}

pub listen_nothing : (s : Stage) → listen_all s [] ≡ some s
unfolding listen_all
listen_nothing s = refl

-- The error with which `stop` ends a request.
abbrev told_to : TtsError → ℕ → TtsError
told_to e j = if e.request_id == 0 then record e { request_id = j } else e

told_lem : (e : TtsError) (j due : ℕ) → due_behind (told_to e j) due ≡ due_behind e due
unfolding due_behind
told_lem e j due = elim (Bool-cases (e.request_id == 0)) [ inl h ↦ rw h refl | inr h ↦ rw h refl ]

due_lem : (due : ℕ) → due_behind client_stopped due ≡ due
unfolding due_behind make_local_error
due_lem due = refl

module _ (throws : Delivery → Bool) where
  listens_own :
      (set hook b : Bool) (k m due : ℕ) (e : TtsError)
      → set ≡ true
      → listen_all
          (during (live b m) due)
          (notices k (invoke_user_callback throws set hook k (error e)))
        ≡ some (ended m (due_behind e due))
  unfolding listen_all listen hear notices invoke_user_callback sample_of
  listens_own set hook b k m due e h = ground (arith, h)

  fail_each_others :
      (hook : Bool) (e : TtsError) (m : List (ℕ × ActiveRequest)) (k : ℕ)
      → find k m ≡ none
      → notices k (fail_each throws hook e m) ≡ []
  fail_each_others hook e [] k h = unfold fail_each notices in refl
  fail_each_others hook e ((j, r) ∷ m) k h = elim (Eq-cases k j) [
    | inl same ↦ ground (arith, same, h)
    | inr ne ↦
        let rest : find k m ≡ none = ground (arith, h, ne) in
        rw (fail_each_step throws hook e j r m) (
          rw
            (
              notices-append k,
              other_silent throws r.callbacks.on_error hook k j (error (told_to e j)) ne,
            )
            (fail_each_others hook e m k rest))
  ]

  -- A live request is ended by the error, and what is due stays due.
  fail_each_own :
      (hook : Bool) (e : TtsError) (next : ℕ) (m : List (ℕ × ActiveRequest)) (k : ℕ)
      (r : ActiveRequest) (b : Bool) (n due : ℕ)
      → IsUnique m
      → All (IsEntry next) m
      → find k m ≡ some r
      → listen_all (during (live b n) due) (notices k (fail_each throws hook e m))
        ≡ some (ended n (due_behind e due))
  fail_each_own hook e next [] k r b n due u h f = ground (arith, f)
  fail_each_own hook e next ((j, q) ∷ m) k r b n due u h f = elim (Eq-cases k j) [
    | inl same ↦
        let calls = invoke_user_callback throws q.callbacks.on_error hook j (error (told_to e j)) in
        let absent : find k m ≡ none = rw same u.0 in
        let heard : listen_all (during (live b n) due) (notices k calls)
            ≡ some (ended n (due_behind e due)) =
          rw (same, sym (told_lem e j due))
            (listens_own q.callbacks.on_error hook b j n due (told_to e j) h.0.callbacks.6) in
        rw
          (fail_each_step throws hook e j q m, notices-append k, fail_each_others hook e m k absent)
          (listen_all-append (during (live b n) due) (ended n (due_behind e due)) (notices k calls)
              [] heard
            ∙ listen_nothing _)
    | inr ne ↦
        let there : find k m ≡ some r = ground (arith, f, ne) in
        rw (fail_each_step throws hook e j q m) (
          rw
            (
              notices-append k,
              other_silent throws q.callbacks.on_error hook k j (error (told_to e j)) ne,
            )
            (fail_each_own hook e next m k r b n due u.1 h.1 there))
  ]

  module _ {D : Type 0} where
    stop_calls :
        (c : QwenTtsClient D) (b : Bool)
        → (finish_stop_client throws c b).1
          ≡ fail_each throws c.options.on_callback_exception client_stopped c.active_requests
    unfolding finish_stop_client fail_all_requests join_threads
    stop_calls c b = ground arith

    stop_active :
        (c : QwenTtsClient D) (b : Bool) → (finish_stop_client throws c b).0.active_requests ≡ []
    unfolding finish_stop_client fail_all_requests join_threads clear_outbound_queue_locked
    stop_active c b = ground arith

    pub gone_phase : (k : ℕ) (c : QwenTtsClient D) → c.active_requests ≡ [] → phase k c ≡ gone
    unfolding phase_of
    gone_phase k c e = ground (arith, e)

    absent_phase :
        (k : ℕ) (c : QwenTtsClient D) → find k c.active_requests ≡ none → phase k c ≡ gone
    unfolding phase_of
    absent_phase k c e = rw e refl

    -- `stop` tells a live request that it has ended, and leaves what is due of the handler that runs.
    pub stop_listens :
        (c : QwenTtsClient D) (b : Bool) (k : ℕ) (s : Stage) (ns : List Notice)
        → IsOrderly c
        → Follows s ns (phase k c)
        → (t : Stage) × (listen_all s (notices k (finish_stop_client throws c b).1) ≡ some t)
          × Follows t ns (phase k (finish_stop_client throws c b).0)
    stop_listens c b k s ns v f =
        let over = gone_phase k (finish_stop_client throws c b).0 (stop_active c b) in
        let hook = c.options.on_callback_exception in
        rw (stop_calls c b, over)
          (elim (Option-cases (find k c.active_requests)) [
            | inl h ↦ (
              s,
              rw (fail_each_others hook client_stopped c.active_requests k h) (listen_nothing s),
              rw (absent_phase k c h) at f,
            )
            | inr (r, h) ↦
                let (p, m, due, is, d) =
                  stopped s r.text_context_delivered r.next_sample ns
                    (rw (phase_lem throws c k r h) at f) in
                (
                  ended m due,
                  rw is (
                      fail_each_own hook client_stopped c.next_request_id c.active_requests k r p m
                        due v.unique v.entries h
                      ∙ rw (due_lem due) refl),
                  (refl, d),
                )
          ])

-- The next call of a handler.
pub next_call_listens :
    {D : Type 0} (c : QwenTtsClient D) (p : List Delivery) (k : ℕ) (s : Stage) (q : Phase)
    → Follows s (notices k p) q
    → (t : Stage) × (listen_all s (notices k (next_call c p).0.calls) ≡ some t)
      × Follows t (notices k (next_call c p).1) q
unfolding next_call notices listen_all
next_call_listens c [] k s q f = (s, refl, f)
next_call_listens c (d ∷ ds) k s q f = elim (Bool-cases (k == d.owner)) [
  | inl own ↦
      let (t, e, g) = next_listens s d.notice (notices k ds) q (rw (own, notices) at f) in
      (t, rw (own, listen_all, e) refl, g)
  | inr other ↦ (s, rw other refl, rw (other, notices) at f)
]

own_call :
    {D : Type 0} (c : QwenTtsClient D) (k due : ℕ) (p q : Phase) (d : Delivery) (ds : List Delivery)
    → k == d.owner ≡ true
    → hear_all p (notices k (d ∷ ds)) ≡ some q
    → is_round 0 (notices k (d ∷ ds)) ≡ true
    → (t : Stage) × (listen_all (during p due) (notices k (next_call c (d ∷ ds)).0.calls) ≡ some t)
      × Follows t (notices k (next_call c (d ∷ ds)).1) q
unfolding next_call notices listen_all
own_call c k due p q d ds own h i =
    let (t, one, rest) =
      first_listens p q due d.notice (notices k ds) (rw (own, notices) at h)
        (rw (own, notices) at i) in
    (t, rw (own, listen_all, one) refl, rest)

module _ (throws : Delivery → Bool) {D : Type 0} (c : QwenTtsClient D)
    (r : QwenTtsClient D × List Delivery) (told : Tells throws c r) where
  ended_gone : (k : ℕ) → phase k c ≡ gone → phase k r.0 ≡ gone
  ended_gone k g = (gone_lem (phase k r.0) gone (notices k r.1) (rw g at (told.story k))).0

  -- The dispatcher takes an event: its handler makes the first of its calls.
  pub handler_listens :
      (k : ℕ) (s : Stage)
      → Follows s [] (phase k c)
      → (t : Stage) × (listen_all s (notices k (next_call r.0 r.1).0.calls) ≡ some t)
        × Follows t (notices k (next_call r.0 r.1).1) (phase k r.0)
  handler_listens k s f = elim (told.round k) [
    | inl g ↦
        next_call_listens r.0 r.1 k s (phase k r.0)
          (quiet s (phase k c) (phase k r.0) (notices k r.1) f (told.story k) g)
    | inr (inl none_called) ↦
        let same = nothing_moves (phase k c) (phase k r.0) (rw none_called at (told.story k)) in
        next_call_listens r.0 r.1 k s (phase k r.0) (rw (none_called, sym same) f)
    | inr (inr (d, ds, e, own, round)) ↦ at_stage s f d ds e own round
  ]
    where
      at_stage :
          (s : Stage)
          → Follows s [] (phase k c)
          → (d : Delivery) (ds : List Delivery) → r.1 ≡ d ∷ ds
          → d.owner ≡ k
          → is_round 0 (notices k r.1) ≡ true
          → (t : Stage) × (listen_all s (notices k (next_call r.0 r.1).0.calls) ≡ some t)
            × Follows t (notices k (next_call r.0 r.1).1) (phase k r.0)
      at_stage (during q due) (h, i) d ds e own round = rw e (
          own_call r.0 k due q (phase k r.0) d ds (ground (arith, own))
            (rw (sym (nothing_moves q (phase k c) h), e) at (told.story k)) (rw e at round))
      at_stage (ended m due) (g, i) d ds e own round =
          next_call_listens r.0 r.1 k (ended m due) (phase k r.0) (
            quiet (ended m due) (phase k c) (phase k r.0) (notices k r.1) (g, i) (told.story k)
              (ended_gone k g))
