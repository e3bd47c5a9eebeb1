-- ===== src/Client/Story/Handlers.antt =====
-- Every handler of an event tells each request what its story allows.
use qwen3_tts_bridge_cpp.Common.{
  ℕ, ◌^◌, ◌<◌, ◌≡◌, refl, ◌∙◌, ◌≢◌, ◌⊎◌, inl, inr, Bool, true, false, none, some, List, [], ◌∷◌,
  ◌++◌, arith, ◌==◌, if◌then◌else◌, Option-cases, Eq-cases, All,
}
use qwen3_tts_bridge_cpp.Control.Messages.{CompletedMessage}
use qwen3_tts_bridge_cpp.Client.Types.{
  QwenTtsClient, ActiveRequest, TtsCallbacks, TtsError, Notice, Delivery, completed,
  completion_metadata, cancelled, error, exception_reported, find, erase,
}
use qwen3_tts_bridge_cpp.Client.Deliver.{invoke_user_callback, fail_each, is_none, completion_of}
use qwen3_tts_bridge_cpp.Client.Requests.{
  take_request, complete_request, cancel_request_locally, fail_request, fail_all_requests,
}
use qwen3_tts_bridge_cpp.Client.Story.{
  Phase, gone, closing, live, hear, hear_all, notices, phase_of, phase, notices-append,
  hear_all-append,
}
use qwen3_tts_bridge_cpp.Client.Story.Pending.{is_round}
use qwen3_tts_bridge_cpp.Client.Story.Map.{
  IsUnique, find-erase, erase-IsUnique, find-All, erase-All,
}

abbrev pub AllSet : TtsCallbacks → Type 0
AllSet s =
    (s.on_text_prepared ≡ true)
    × (s.on_audio ≡ true)
    × (s.on_timing ≡ true)
    × (s.on_completed ≡ true)
    × (s.on_completion_metadata ≡ true)
    × (s.on_cancelled ≡ true)
    × (s.on_error ≡ true)

-- An entry of the map, when `next` is the id that comes next.
pub record IsEntry (next : ℕ) (e : ℕ × ActiveRequest) : Type 0 where
  pub nonzero : e.0 ≢ 0
  pub earlier : (next ≡ 0) ⊎ (e.0 < next)
  pub callbacks : AllSet e.1.callbacks
  pub text : is_none e.1.prepared_text ≡ false
  pub bounded : e.1.next_sample < 2 ^ 64

pub record IsOrderly {D : Type 0} (c : QwenTtsClient D) : Type 0 where
  pub unique : IsUnique c.active_requests
  pub entries : All (IsEntry c.next_request_id) c.active_requests

pub nothing_heard : (p : Phase) → hear_all p [] ≡ some p
unfolding hear_all
nothing_heard p = refl

pub silence : (p : Phase) (k : ℕ) → hear_all p (notices k []) ≡ some p
unfolding hear_all notices
silence p k = refl

hear_exception : (p : Phase) → hear p exception_reported ≡ some p
unfolding hear
hear_exception p = refl

pub hear_both :
    (p q r : Phase) (k : ℕ) (xs ys : List Delivery)
    → hear_all p (notices k xs) ≡ some q
    → hear_all q (notices k ys) ≡ some r
    → hear_all p (notices k (xs ++ ys)) ≡ some r
hear_both p q r k xs ys e f = rw (notices-append k xs ys) (hear_all-append p q _ _ e ∙ f)

-- Nothing of a request is called, or what it hears of one event, from the first call on.
abbrev pub IsCalled : ℕ → List Delivery → Type 0
IsCalled k calls =
    (notices k calls ≡ [])
    ⊎ ((d : Delivery) × (ds : List Delivery) × (calls ≡ d ∷ ds)
        × (d.owner ≡ k)
        × (is_round 0 (notices k calls) ≡ true))

find_head :
    (k j : ℕ) (r : ActiveRequest) (m : List (ℕ × ActiveRequest))
    → k ≡ j
    → find k ((j, r) ∷ m) ≡ some r
find_head k j r m same = ground (arith, same)

module _ (throws : Delivery → Bool) where
  pub hear_own :
      (p q : Phase) (set hook : Bool) (k : ℕ) (n : Notice)
      → set ≡ true
      → hear p n ≡ some q
      → hear_all p (notices k (invoke_user_callback throws set hook k n)) ≡ some q
  unfolding hear_all notices invoke_user_callback
  hear_own p q set hook k n e h = ground (arith, e, h, hear_exception q)

  pub other_silent :
      (set hook : Bool) (k j : ℕ) (n : Notice)
      → k ≢ j
      → notices k (invoke_user_callback throws set hook j n) ≡ []
  unfolding notices invoke_user_callback
  other_silent set hook k j n ne = ground (arith, ne)

  pub fail_each_step :
      (hook : Bool) (e : TtsError) (j : ℕ) (r : ActiveRequest) (m : List (ℕ × ActiveRequest))
      → fail_each throws hook e ((j, r) ∷ m)
        ≡ invoke_user_callback throws r.callbacks.on_error hook j
            (error (if e.request_id == 0 then record e { request_id = j } else e))
          ++ fail_each throws hook e m
  unfolding fail_each
  fail_each_step hook e j r m = refl

  -- Every request that is there hears the error.
  fail_each_phase :
      (hook : Bool) (e : TtsError) (next : ℕ) (m : List (ℕ × ActiveRequest))
      → IsUnique m
      → All (IsEntry next) m
      → (k : ℕ) → hear_all (phase_of (find k m)) (notices k (fail_each throws hook e m)) ≡ some gone
  unfolding hear phase_of
  fail_each_phase hook e next [] u h k = unfold fail_each notices hear_all in refl
  fail_each_phase hook e next ((j, r) ∷ m) u h k =
      let told = if e.request_id == 0 then record e { request_id = j } else e in
      rw (fail_each_step hook e j r m) (elim (Eq-cases k j) [
        | inl same ↦
            let calls = invoke_user_callback throws r.callbacks.on_error hook j (error told) in
            hear_both _ gone gone k calls (fail_each throws hook e m)
              (rw (find_head k j r m same, same)
                (hear_own (live r.text_context_delivered r.next_sample) gone r.callbacks.on_error
                  hook j (error told) h.0.callbacks.6 refl))
              (ground (arith, same, u.0, fail_each_phase hook e next m u.1 h.1 k))
        | inr ne ↦
            rw (notices-append k, other_silent r.callbacks.on_error hook k j (error told) ne)
              (ground (arith, ne, fail_each_phase hook e next m u.1 h.1 k))
      ])

module _ (throws : Delivery → Bool) {D : Type 0} where
  -- A handler ends a request, calls nothing of it, or calls what a live request hears of one event.
  abbrev pub IsRound : ℕ → QwenTtsClient D × List Delivery → Type 0
  IsRound k r = (phase k r.0 ≡ gone) ⊎ IsCalled k r.1

  -- What a step owes to every request but for the new one.
  pub record Tells (c : QwenTtsClient D) (r : QwenTtsClient D × List Delivery) : Type 0 where
    pub orderly : IsOrderly r.0
    pub story : (k : ℕ) → hear_all (phase k c) (notices k r.1) ≡ some (phase k r.0)
    pub same_next : r.0.next_request_id ≡ c.next_request_id
    pub round : (k : ℕ) → IsRound k r

  -- The request leaves the map, and what its callbacks hear takes its phase to `gone`.
  erased-Tells :
      (c : QwenTtsClient D) (id : ℕ) (calls : List Delivery)
      → IsOrderly c
      → hear_all (phase id c) (notices id calls) ≡ some gone
      → ((k : ℕ) → k ≢ id → notices k calls ≡ [])
      → Tells c (record c { active_requests = erase id c.active_requests }, calls)
  unfolding phase_of
  erased-Tells c id calls v own others = record {
    orderly = record {
      unique = erase-IsUnique id c.active_requests v.unique;
      entries = erase-All (IsEntry c.next_request_id) id c.active_requests v.entries;
    };
    story = λ k. elim (Eq-cases k id) [
      | inl same ↦ ground (arith, same, own, find-erase id id c.active_requests v.unique)
      | inr ne ↦ ground (
        arith,
        ne,
        others k ne,
        nothing_heard (phase k c),
        find-erase k id c.active_requests v.unique,
      )
    ];
    same_next = refl;
    round = λ k. elim (Eq-cases k id) [
      | inl same ↦ inl (ground (arith, same, find-erase id id c.active_requests v.unique))
      | inr ne ↦ inr (inl (others k ne))
    ];
  }

  -- A handler that leaves the map alone and calls nothing.
  pub silent-Tells :
      (c c' : QwenTtsClient D)
      → IsOrderly c
      → c'.active_requests ≡ c.active_requests
      → c'.next_request_id ≡ c.next_request_id
      → Tells c (c', [])
  unfolding notices hear_all
  silent-Tells c c' v e n = record {
    orderly = record { unique = rw e v.unique; entries = rw (e, n) v.entries };
    story = λ k. rw e refl;
    same_next = n;
    round = λ k. inr (inl refl);
  }

  -- The phase of a request that is there.
  pub phase_lem :
      (c : QwenTtsClient D) (id : ℕ) (r : ActiveRequest)
      → find id c.active_requests ≡ some r
      → phase id c ≡ live r.text_context_delivered r.next_sample
  unfolding phase_of
  phase_lem c id r e = rw e refl

  pub find-IsEntry :
      (c : QwenTtsClient D) (id : ℕ) (r : ActiveRequest)
      → IsOrderly c
      → find id c.active_requests ≡ some r
      → IsEntry c.next_request_id (id, r)
  find-IsEntry c id r v e = find-All (IsEntry c.next_request_id) id r c.active_requests e v.entries

  take_lem :
      (c : QwenTtsClient D) (id : ℕ) (r : ActiveRequest)
      → find id c.active_requests ≡ some r
      → take_request c id ≡ (record c { active_requests = erase id c.active_requests }, some r)
  unfolding take_request
  take_lem c id r e = ground (arith, e)

  take_none :
      (c : QwenTtsClient D) (id : ℕ)
      → find id c.active_requests ≡ none
      → (take_request c id).1 ≡ none
  unfolding take_request
  take_none c id e = ground (arith, e)

  take_active :
      (c : QwenTtsClient D) (id : ℕ)
      → find id c.active_requests ≡ none
      → ((take_request c id).0.active_requests ≡ c.active_requests)
        × ((take_request c id).0.next_request_id ≡ c.next_request_id)
  unfolding take_request
  take_active c id e = ground (arith, e)

  fail_present :
      (c : QwenTtsClient D) (id : ℕ) (e : TtsError) (r : ActiveRequest)
      → find id c.active_requests ≡ some r
      → fail_request throws c id e ≡ (
        record c { active_requests = erase id c.active_requests },
        invoke_user_callback throws r.callbacks.on_error c.options.on_callback_exception id
            (error e),
      )
  unfolding fail_request
  fail_present c id e r h = ground (arith, h, take_lem c id r h)

  fail_absent :
      (c : QwenTtsClient D) (id : ℕ) (e : TtsError)
      → find id c.active_requests ≡ none
      → fail_request throws c id e ≡ ((take_request c id).0, [])
  unfolding fail_request
  fail_absent c id e h = ground (arith, h, take_none c id h)

  cancel_present :
      (c : QwenTtsClient D) (id : ℕ) (r : ActiveRequest)
      → find id c.active_requests ≡ some r
      → cancel_request_locally throws c id ≡ (
        record c { active_requests = erase id c.active_requests },
        invoke_user_callback throws r.callbacks.on_cancelled c.options.on_callback_exception id
            cancelled,
      )
  unfolding cancel_request_locally
  cancel_present c id r h = ground (arith, h, take_lem c id r h)

  cancel_absent :
      (c : QwenTtsClient D) (id : ℕ)
      → find id c.active_requests ≡ none
      → cancel_request_locally throws c id ≡ ((take_request c id).0, [])
  unfolding cancel_request_locally
  cancel_absent c id h = ground (arith, h, take_none c id h)

  complete_present :
      (c : QwenTtsClient D) (id : ℕ) (m : CompletedMessage) (r : ActiveRequest)
      → find id c.active_requests ≡ some r
      → complete_request throws c id m ≡ (
        record c { active_requests = erase id c.active_requests },
        invoke_user_callback throws r.callbacks.on_completion_metadata
              c.options.on_callback_exception id
              (completion_metadata (completion_of m))
            ++ invoke_user_callback throws r.callbacks.on_completed c.options.on_callback_exception
                id completed,
      )
  unfolding complete_request
  complete_present c id m r h = ground (arith, h, take_lem c id r h)

  complete_absent :
      (c : QwenTtsClient D) (id : ℕ) (m : CompletedMessage)
      → find id c.active_requests ≡ none
      → complete_request throws c id m ≡ ((take_request c id).0, [])
  unfolding complete_request
  complete_absent c id m h = ground (arith, h, take_none c id h)

  -- A terminal event of a request that is not there is only counted.
  absent-Tells :
      (c : QwenTtsClient D) (id : ℕ)
      → IsOrderly c
      → find id c.active_requests ≡ none
      → Tells c ((take_request c id).0, [])
  absent-Tells c id v h = silent-Tells c _ v (take_active c id h).0 (take_active c id h).1

  pub fail-Tells :
      (c : QwenTtsClient D) (id : ℕ) (e : TtsError)
      → IsOrderly c
      → Tells c (fail_request throws c id e)
  unfolding hear
  fail-Tells c id e v = elim (Option-cases (find id c.active_requests)) [
    | inl h ↦ rw (fail_absent c id e h) (absent-Tells c id v h)
    | inr (r, h) ↦ rw (fail_present c id e r h) (
        erased-Tells c id _ v
          (rw (phase_lem c id r h)
            (hear_own throws _ gone _ _ id _ (find-IsEntry c id r v h).callbacks.6 refl))
          (λ k ne. other_silent throws _ _ k id _ ne))
  ]

  pub cancel-Tells :
      (c : QwenTtsClient D) (id : ℕ) → IsOrderly c → Tells c (cancel_request_locally throws c id)
  unfolding hear
  cancel-Tells c id v = elim (Option-cases (find id c.active_requests)) [
    | inl h ↦ rw (cancel_absent c id h) (absent-Tells c id v h)
    | inr (r, h) ↦ rw (cancel_present c id r h) (
        erased-Tells c id _ v
          (rw (phase_lem c id r h)
            (hear_own throws _ gone _ _ id _ (find-IsEntry c id r v h).callbacks.5 refl))
          (λ k ne. other_silent throws _ _ k id _ ne))
  ]

  pub complete-Tells :
      (c : QwenTtsClient D) (id : ℕ) (m : CompletedMessage)
      → IsOrderly c
      → Tells c (complete_request throws c id m)
  unfolding hear
  complete-Tells c id m v = elim (Option-cases (find id c.active_requests)) [
    | inl h ↦ rw (complete_absent c id m h) (absent-Tells c id v h)
    | inr (r, h) ↦
        let set = (find-IsEntry c id r v h).callbacks in
        rw (complete_present c id m r h) (
          erased-Tells c id _ v
            (rw (phase_lem c id r h) (
              hear_both _ closing gone id _ _ (hear_own throws _ closing _ _ id _ set.4 refl)
                (hear_own throws closing gone _ _ id _ set.3 refl)))
            (λ k ne.
              rw
                (
                  notices-append k,
                  other_silent throws r.callbacks.on_completion_metadata
                      c.options.on_callback_exception k id (completion_metadata (completion_of m))
                      ne,
                  other_silent throws r.callbacks.on_completed c.options.on_callback_exception k id
                      completed ne,
                )
                refl))
  ]

  pub fail_all-Tells :
      (c : QwenTtsClient D) (e : TtsError) → IsOrderly c → Tells c (fail_all_requests throws c e)
  unfolding fail_all_requests phase_of
  fail_all-Tells c e v = record {
    orderly = record { unique = tt; entries = tt };
    story = λ k.
        fail_each_phase throws c.options.on_callback_exception e c.next_request_id c.active_requests
          v.unique v.entries k;
    same_next = refl;
    round = λ k. inl refl;
  }
