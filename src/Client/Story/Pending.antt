-- ===== src/Client/Story/Pending.antt =====
-- How the stages of a request go on while callbacks of a handler are still to be called.
use qwen3_tts_bridge_cpp.Common.{
  ℕ, ◌+◌, ltb, ◌≡◌, refl, sym, ◌∙◌, ◌≢◌, ◌⊎◌, inl, inr, Bool, true, false, ◌&&◌, none, some, List,
  [], ◌∷◌, ◌++◌, arith, ◌==◌, ◌!=◌, Bool-cases, Option-cases,
}
use qwen3_tts_bridge_cpp.Common.Words.{add_u64}
use qwen3_tts_bridge_cpp.Data.{PcmChunk, SpeechTimingChunk}
use qwen3_tts_bridge_cpp.Client.Types.{
  TtsError, Notice, text_prepared, audio, timing, completed, completion_metadata, cancelled, error,
  exception_reported,
}
use qwen3_tts_bridge_cpp.Client.Story.{
  Phase, gone, closing, live, hear, hear_all, Stage, during, ended, due_after, sample_of,
  due_behind, listen, listen_all, phase_in,
}

-- Behind an error nothing is refused.
abbrev pub IsDue : ℕ → ℕ → List Notice → Type 0
IsDue m due ns = (n : ℕ) × (d : ℕ) × (listen_all (ended m due) ns ≡ some (ended n d))

-- A request in the phase `q` of the client, of which the notices `ns` are still to be called.
abbrev pub Follows : Stage → List Notice → Phase → Type 0
Follows (during p due) ns q = (hear_all p ns ≡ some q) × ((q ≡ gone) ⊎ IsDue (sample_of p) due ns)
Follows (ended m due) ns q = (q ≡ gone) × IsDue m due ns

-- A request that is gone hears reports only, and those change no stage.
pub gone_lem :
    (q p : Phase) (xs : List Notice)
    → hear_all gone xs ≡ some q
    → (q ≡ gone) × (hear_all p xs ≡ some p)
unfolding hear_all hear
gone_lem q p [] e = ground (arith, e)
gone_lem q p (exception_reported ∷ xs) e = gone_lem q p xs e
gone_lem q p (_ ∷ xs) e = ground (arith, e)

pub gone_due :
    (q : Phase) (m due : ℕ) (xs : List Notice)
    → hear_all gone xs ≡ some q
    → listen_all (ended m due) xs ≡ some (ended m due)
unfolding hear_all hear listen_all listen
gone_due q m due [] e = refl
gone_due q m due (exception_reported ∷ xs) e = gone_due q m due xs e
gone_due q m due (_ ∷ xs) e = ground (arith, e)

-- A notice behind an error that is not refused.
ended_next :
    (m due : ℕ) (n : Notice) (ns : List Notice)
    → IsDue m due (n ∷ ns)
    → (m' : ℕ) × (d : ℕ) × (listen (ended m due) n ≡ some (ended m' d)) × IsDue m' d ns
unfolding listen_all listen
ended_next m due exception_reported ns h = (m, due, refl, h)
ended_next m due (audio chunk) ns (a, b, e) =
    elim (Bool-cases (due == 2 && chunk.first_sample == m)) [
      | inl t ↦
          (add_u64 m chunk.sample_count, 1, rw t refl, (a, b, rw (t, listen_all, listen) at e))
      | inr f ↦ ground (arith, f, e)
    ]
ended_next m due (timing heard) ns (a, b, e) =
    elim (Bool-cases (due != 0 && add_u64 heard.first_sample heard.sample_count == m)) [
      | inl t ↦ (m, 0, rw t refl, (a, b, rw (t, listen_all, listen) at e))
      | inr f ↦ ground (arith, f, e)
    ]
ended_next m due _ ns (a, b, e) = ground (arith, e)

ends_stage :
    (p q : Phase) (due : ℕ) (e : TtsError) (ns : List Notice)
    → hear_all p (error e ∷ ns) ≡ some q
    → (s : Stage) × (listen (during p due) (error e) ≡ some s) × Follows s ns q
unfolding hear_all hear listen sample_of
ends_stage (live b m) q due e ns h = (
  ended m (due_behind e due),
  refl,
  ((gone_lem q gone ns h).0, (m, due_behind e due, gone_due q m (due_behind e due) ns h)),
)
ends_stage gone q due e ns h = ground (arith, h)
ends_stage closing q due e ns h = ground (arith, h)

audio_next :
    (m due m' d : ℕ) (chunk : PcmChunk) (r : Phase)
    → hear (live true m) (audio chunk) ≡ some r
    → listen (ended m due) (audio chunk) ≡ some (ended m' d)
    → (m' ≡ sample_of r) × (d ≡ 1)
unfolding hear listen sample_of
audio_next m due m' d chunk r h e = ground (arith, h, e)

timing_next :
    (m due m' d : ℕ) (heard : SpeechTimingChunk) (r : Phase)
    → hear (live true m) (timing heard) ≡ some r
    → listen (ended m due) (timing heard) ≡ some (ended m' d)
    → (m' ≡ sample_of r) × (d ≡ 0)
unfolding hear listen sample_of
timing_next m due m' d heard r h e = ground (arith, h, e)

-- What is due stays due, whatever else is called.
next-IsDue :
    (p r : Phase) (due : ℕ) (n : Notice) (ns : List Notice)
    → hear p n ≡ some r
    → IsDue (sample_of p) due (n ∷ ns)
    → ((e : TtsError) → n ≢ error e)
    → IsDue (sample_of r) (due_after n due) ns
unfolding hear listen_all listen sample_of due_after
next-IsDue p r due exception_reported ns h d ne = ground (arith, h, d)
next-IsDue (live true m) r due (audio chunk) ns h d ne =
    let (m', d', e, i) = ended_next m due (audio chunk) ns d in
    let (same, one) = audio_next m due m' d' chunk r h e in rw (same, one) at i
next-IsDue (live true m) r due (timing heard) ns h d ne =
    let (m', d', e, i) = ended_next m due (timing heard) ns d in
    let (same, zero) = timing_next m due m' d' heard r h e in rw (same, zero) at i
next-IsDue p r due (error e) ns h d ne = elim (ne e refl) [ ]
next-IsDue p r due (text_prepared text) ns h d ne = ground (arith, d.2)
next-IsDue p r due completed ns h d ne = ground (arith, d.2)
next-IsDue p r due (completion_metadata m) ns h d ne = ground (arith, d.2)
next-IsDue p r due cancelled ns h d ne = ground (arith, d.2)
next-IsDue p r due n ns h d ne = ground (arith, h, d.2)

pub error_cases : (n : Notice) → ((e : TtsError) × (n ≡ error e)) ⊎ ((e : TtsError) → n ≢ error e)
error_cases (error e) = inl (e, refl)
error_cases (text_prepared text) = inr (λ e h. cc)
error_cases (audio chunk) = inr (λ e h. cc)
error_cases (timing heard) = inr (λ e h. cc)
error_cases completed = inr (λ e h. cc)
error_cases (completion_metadata m) = inr (λ e h. cc)
error_cases cancelled = inr (λ e h. cc)
error_cases exception_reported = inr (λ e h. cc)

listen_other :
    (p r : Phase) (due : ℕ) (n : Notice)
    → hear p n ≡ some r
    → ((e : TtsError) → n ≢ error e)
    → listen (during p due) n ≡ some (during r (due_after n due))
unfolding listen
listen_other p r due (error e) h ne = elim (ne e refl) [ ]
listen_other p r due (text_prepared text) h ne = rw (h, listen) refl
listen_other p r due (audio chunk) h ne = rw (h, listen) refl
listen_other p r due (timing heard) h ne = rw (h, listen) refl
listen_other p r due completed h ne = rw (h, listen) refl
listen_other p r due (completion_metadata m) h ne = rw (h, listen) refl
listen_other p r due cancelled h ne = rw (h, listen) refl
listen_other p r due exception_reported h ne = rw (h, listen) refl

hear_next :
    (p q : Phase) (n : Notice) (ns : List Notice)
    → hear_all p (n ∷ ns) ≡ some q
    → (r : Phase) × (hear p n ≡ some r) × (hear_all r ns ≡ some q)
unfolding hear_all
hear_next p q n ns e = elim (Option-cases (hear p n)) [
  | inl h ↦ ground (arith, h, e)
  | inr (r, h) ↦ (r, h, rw (h, hear_all) at e)
]

-- The next callback of the handler.
pub next_listens :
    (s : Stage) (n : Notice) (ns : List Notice) (q : Phase)
    → Follows s (n ∷ ns) q
    → (t : Stage) × (listen s n ≡ some t) × Follows t ns q
next_listens (ended m due) n ns q (g, d) =
    let (m', d', e, i) = ended_next m due n ns d in (ended m' d', e, (g, i))
next_listens (during p due) n ns q (h, d) = elim (error_cases n) [
  | inl (e, is) ↦ rw is (ends_stage p q due e ns (rw is at h))
  | inr ne ↦
      let (r, one, rest) = hear_next p q n ns h in
      (
        during r (due_after n due),
        listen_other p r due n one ne,
        (rest, elim d [ inl g ↦ inl g | inr i ↦ inr (next-IsDue p r due n ns one i ne) ]),
      )
]

listen_step :
    (s t : Stage) (n : Notice) (ns : List Notice)
    → listen s n ≡ some t
    → listen_all s (n ∷ ns) ≡ listen_all t ns
unfolding listen_all
listen_step s t n ns e = rw (e, listen_all) refl

-- All callbacks that are left of the handler.
pub rest_listens :
    (s : Stage) (ns : List Notice) (q : Phase)
    → Follows s ns q
    → (t : Stage) × (listen_all s ns ≡ some t) × Follows t [] q
unfolding listen_all
rest_listens s [] q f = (s, refl, f)
rest_listens s (n ∷ ns) q f =
    let (t, e, g) = next_listens s n ns q f in
    let (u, i, h) = rest_listens t ns q g in (u, listen_step s t n ns e ∙ i, h)

pub listen_all-append :
    (s t : Stage) (xs ys : List Notice)
    → listen_all s xs ≡ some t
    → listen_all s (xs ++ ys) ≡ listen_all t ys
unfolding listen_all
listen_all-append s t [] ys e = ground (arith, e)
listen_all-append s t (n ∷ ns) ys e = elim (Option-cases (listen s n)) [
  | inl h ↦ ground (arith, h, e)
  | inr (u, h) ↦
      listen_step s u n (ns ++ ys) h ∙ listen_all-append u t ns ys (rw (h, listen_all) at e)
]

-- When the handler has made its calls, the stage shows the phase of the client.
pub rested : (s : Stage) (q : Phase) → Follows s [] q → phase_in s ≡ q
unfolding phase_in hear_all
rested (during p due) q (h, d) = ground (arith, h)
rested (ended m due) q (g, d) = ground (arith, g)

-- A stage at a phase from which the handler's calls lead to the phase of the client.
pub quiet :
    (s : Stage) (q r : Phase) (ns : List Notice)
    → Follows s [] q
    → hear_all q ns ≡ some r
    → r ≡ gone
    → Follows s ns r
unfolding hear_all
quiet (during p due) q r ns (h, d) e g = (ground (arith, h, e), inl g)
quiet (ended m due) q r ns (g', d) e g = (g, (m, due, gone_due r m due ns (rw g' at e)))

closing_lem : (ns : List Notice) (b : Bool) (n : ℕ) → hear_all closing ns ≢ some (live b n)
unfolding hear_all hear
closing_lem [] b n e = cc
closing_lem (exception_reported ∷ ns) b n e = closing_lem ns b n e
closing_lem (completed ∷ ns) b n e = let (g, _) = gone_lem (live b n) gone ns e in cc
closing_lem (_ ∷ ns) b n e = cc

-- A stage when the client stops at a live phase: the callbacks that are due stay due.
pub stopped :
    (s : Stage) (b : Bool) (n : ℕ) (ns : List Notice)
    → Follows s ns (live b n)
    → (c : Bool) × (m : ℕ) × (due : ℕ) × (s ≡ during (live c m) due) × IsDue m due ns
unfolding sample_of
stopped (during (live c m) due) b n ns (h, d) = elim d [ inl g ↦ cc | inr i ↦ (c, m, due, refl, i) ]
stopped (during gone due) b n ns (h, d) = let (g, _) = gone_lem (live b n) gone ns h in cc
stopped (during closing due) b n ns (h, d) = elim (closing_lem ns b n h) [ ]
stopped (ended m due) b n ns (g, d) = cc

-- The notices of one handler for a request that stays live: its text, its audio and its timing, each
-- at most once and in this order, with reports between them. `rank` says which has been called.
unfoldable pub is_round : ℕ → List Notice → Bool
is_round rank [] = true
is_round rank (text_prepared text ∷ ns) = rank == 0 && is_round 1 ns
is_round rank (audio chunk ∷ ns) = ltb rank 2 && is_round 2 ns
is_round rank (timing heard ∷ ns) = ltb rank 3 && is_round 3 ns
is_round rank (exception_reported ∷ ns) = rank != 0 && is_round rank ns
is_round rank _ = false

audio_due :
    (p r : Phase) (due : ℕ) (chunk : PcmChunk)
    → hear p (audio chunk) ≡ some r
    → due ≡ 2
    → listen (ended (sample_of p) due) (audio chunk) ≡ some (ended (sample_of r) 1)
unfolding hear listen sample_of
audio_due (live true n) r due chunk h e = ground (arith, h, e)
audio_due (live false n) r due chunk h e = cc
audio_due gone r due chunk h e = cc
audio_due closing r due chunk h e = cc

timing_due :
    (p r : Phase) (due : ℕ) (heard : SpeechTimingChunk)
    → hear p (timing heard) ≡ some r
    → due ≢ 0
    → listen (ended (sample_of p) due) (timing heard) ≡ some (ended (sample_of r) 0)
unfolding hear listen sample_of
timing_due (live true n) r due heard h e = ground (arith, h, e)
timing_due (live false n) r due heard h e = cc
timing_due gone r due heard h e = cc
timing_due closing r due heard h e = cc

report_same : (p r : Phase) → hear p exception_reported ≡ some r → r ≡ p
unfolding hear
report_same p r e = ground (arith, e)

report_due : (m due : ℕ) → listen (ended m due) exception_reported ≡ some (ended m due)
unfolding listen
report_due m due = refl

step-IsDue :
    (m due m' d : ℕ) (n : Notice) (ns : List Notice)
    → listen (ended m due) n ≡ some (ended m' d)
    → IsDue m' d ns
    → IsDue m due (n ∷ ns)
step-IsDue m due m' d n ns e (a, b, i) = (a, b, listen_step (ended m due) (ended m' d) n ns e ∙ i)

round-IsDue :
    (p q : Phase) (rank due : ℕ) (ns : List Notice)
    → rank ≢ 0
    → rank + due ≡ 3
    → hear_all p ns ≡ some q
    → is_round rank ns ≡ true
    → IsDue (sample_of p) due ns
unfolding is_round
round-IsDue p q rank due [] z e h i = (sample_of p, due, unfold listen_all in refl)
round-IsDue p q rank due (audio chunk ∷ ns) z e h i =
    let (r, one, rest) = hear_next p q (audio chunk) ns h in
    step-IsDue _ _ _ _ (audio chunk) ns (audio_due p r due chunk one (ground (arith, z, e, i)))
      (round-IsDue r q 2 1 ns (omega arith) refl rest (ground (arith, i)))
round-IsDue p q rank due (timing heard ∷ ns) z e h i =
    let (r, one, rest) = hear_next p q (timing heard) ns h in
    step-IsDue _ _ _ _ (timing heard) ns (timing_due p r due heard one (ground (arith, z, e, i)))
      (round-IsDue r q 3 0 ns (omega arith) refl rest (ground (arith, i)))
round-IsDue p q rank due (exception_reported ∷ ns) z e h i =
    let (r, one, rest) = hear_next p q exception_reported ns h in
    step-IsDue _ _ _ _ exception_reported ns (report_due (sample_of p) due)
      (round-IsDue p q rank due ns z e (rw (report_same p r one) at rest) (ground (arith, i)))
round-IsDue p q rank due (text_prepared text ∷ ns) z e h i = ground (arith, z, i)
round-IsDue p q rank due (_ ∷ ns) z e h i = cc

round_no_error :
    (n : Notice) (ns : List Notice) → is_round 0 (n ∷ ns) ≡ true → (e : TtsError) → n ≢ error e
unfolding is_round
round_no_error (error e) ns i = cc
round_no_error (text_prepared text) ns i = λ e h. cc
round_no_error (audio chunk) ns i = λ e h. cc
round_no_error (timing heard) ns i = λ e h. cc
round_no_error _ ns i = cc

first-IsDue :
    (n : Notice) (ns : List Notice) (due : ℕ) (r q : Phase)
    → is_round 0 (n ∷ ns) ≡ true
    → hear_all r ns ≡ some q
    → IsDue (sample_of r) (due_after n due) ns
unfolding is_round due_after
first-IsDue (text_prepared text) ns due r q i rest =
    round-IsDue r q 1 2 ns (omega arith) refl rest i
first-IsDue (audio chunk) ns due r q i rest = round-IsDue r q 2 1 ns (omega arith) refl rest i
first-IsDue (timing heard) ns due r q i rest = round-IsDue r q 3 0 ns (omega arith) refl rest i
first-IsDue _ ns due r q i rest = cc

-- The first call of a handler for a request that stays live.
pub first_listens :
    (p q : Phase) (due : ℕ) (n : Notice) (ns : List Notice)
    → hear_all p (n ∷ ns) ≡ some q
    → is_round 0 (n ∷ ns) ≡ true
    → (t : Stage) × (listen (during p due) n ≡ some t) × Follows t ns q
first_listens p q due n ns h i =
    let (r, one, rest) = hear_next p q n ns h in
    (
      during r (due_after n due),
      listen_other p r due n one (round_no_error n ns i),
      (rest, inr (first-IsDue n ns due r q i rest)),
    )

pub nothing_moves : (p q : Phase) → hear_all p [] ≡ some q → p ≡ q
unfolding hear_all
nothing_moves p q e = ground (arith, e)

-- What is heard before a request is accepted: reports, which change nothing.
pub before_heard :
    (ns : List Notice) (s : Stage) → hear_all gone ns ≡ some gone → (listen_all s ns ≡ some s)
unfolding hear_all hear listen_all listen due_after
before_heard [] s h = refl
before_heard (exception_reported ∷ ns) (during p due) h = before_heard ns (during p due) h
before_heard (exception_reported ∷ ns) (ended m due) h = before_heard ns (ended m due) h
before_heard (_ ∷ ns) s h = cc

pub unknown_lem :
    (ns : List Notice) (t : Stage)
    → listen_all (during gone 0) ns ≡ some t
    → (t ≡ during gone 0) × (hear_all gone ns ≡ some gone)
unfolding hear_all hear listen_all listen due_after
unknown_lem [] t h = ground (arith, h)
unknown_lem (exception_reported ∷ ns) t h = unknown_lem ns t h
unknown_lem (_ ∷ ns) t h = cc

-- An error ends a live request.
pub listen_error :
    (p : Phase) (due : ℕ) (e : TtsError) (t : Stage)
    → listen (during p due) (error e) ≡ some t
    → (b : Bool) × (m : ℕ) × (d : ℕ) × (p ≡ live b m) × (t ≡ ended m d)
unfolding hear listen sample_of
listen_error (live b m) due e t h = (b, m, due_behind e due, refl, ground (arith, h))
listen_error gone due e t h = cc
listen_error closing due e t h = cc

same_some : (s u : Stage) → some s ≡ some u → s ≡ u
same_some s u e = cc

listen_refused :
    (p : Phase) (due : ℕ) (n : Notice)
    → ((e : TtsError) → n ≢ error e)
    → hear p n ≡ none
    → listen (during p due) n ≡ none
unfolding listen
listen_refused p due (error e) ne h = elim (ne e refl) [ ]
listen_refused p due (text_prepared text) ne h = rw (h, listen) refl
listen_refused p due (audio chunk) ne h = rw (h, listen) refl
listen_refused p due (timing heard) ne h = rw (h, listen) refl
listen_refused p due completed ne h = rw (h, listen) refl
listen_refused p due (completion_metadata m) ne h = rw (h, listen) refl
listen_refused p due cancelled ne h = rw (h, listen) refl
listen_refused p due exception_reported ne h = rw (h, listen) refl

-- Everything else takes the phase on.
pub listen_next :
    (p : Phase) (due : ℕ) (n : Notice) (t : Stage)
    → ((e : TtsError) → n ≢ error e)
    → listen (during p due) n ≡ some t
    → (q : Phase) × (hear p n ≡ some q) × (t ≡ during q (due_after n due))
listen_next p due n t ne h = elim (Option-cases (hear p n)) [
  | inl i ↦ ground (arith, h, listen_refused p due n ne i)
  | inr (q, i) ↦ (q, i, same_some _ _ (sym h ∙ listen_other p q due n i ne))
]
