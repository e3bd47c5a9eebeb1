-- ===== src/Client/Story.antt =====
-- What the callbacks of one request may hear, as a machine that knows nothing of the client.
pub mod Map
pub mod Handlers
pub mod Events
pub mod Accept
pub mod Steps
pub mod Turns
pub mod Runs
pub mod Pending
pub mod Rounds
pub mod Counts
pub mod Promises
use qwen3_tts_bridge_cpp.Common.{
  ℕ, ◌≡◌, refl, inl, inr, Bool, true, false, ◌||◌, ◌&&◌, ◌!=◌, Option, none, some, List, [], ◌∷◌,
  ◌++◌, arith, ◌==◌, if◌then◌else◌, Option-cases,
}
use text.Mathlib.Text.{◌==◌ as ◌≈◌}
use qwen3_tts_bridge_cpp.Common.Words.{add_u64}
use qwen3_tts_bridge_cpp.Client.Types.{
  QwenTtsClient, ActiveRequest, TtsError, Notice, Delivery, text_prepared, audio, timing, completed,
  completion_metadata, cancelled, error, exception_reported, find,
}

-- A request is gone, or between its completion metadata and its completion, or live: whether its
-- text has been delivered, and the sample that comes next.
pub data Phase : Type 0 where
  gone closing : Phase
  live : Bool → ℕ → Phase

-- A live request hears its text once and before its audio, audio without gaps, timing that ends
-- where the audio does, and at any time one terminal event, behind which it hears nothing. A report
-- of a throwing callback may stand anywhere.
unfoldable pub hear : Phase → Notice → Option Phase
hear p exception_reported = some p
hear (live false n) (text_prepared text) = some (live true n)
hear (live true n) (audio chunk) =
    if chunk.first_sample == n then some (live true (add_u64 n chunk.sample_count)) else none
hear (live true n) (timing heard) =
    if add_u64 heard.first_sample heard.sample_count == n then some (live true n) else none
hear (live b n) (completion_metadata m) = some closing
hear closing completed = some gone
hear (live b n) cancelled = some gone
hear (live b n) (error e) = some gone
hear _ _ = none

unfoldable pub hear_all : Phase → List Notice → Option Phase
hear_all p [] = some p
hear_all p (n ∷ ns) = elim (hear p n) [ none ↦ none | some q ↦ hear_all q ns ]

-- What a request may hear when a callback stops the client in the middle of the handler that calls
-- it: `during` a phase, or `ended` by an error, at a sample, with so many callbacks still due from that
-- handler. Behind its text these are its audio and its timing, behind its audio its timing.
pub data Stage : Type 0 where
  during : Phase → ℕ → Stage
  ended : ℕ → ℕ → Stage

unfoldable pub due_after : Notice → ℕ → ℕ
due_after (text_prepared text) due = 2
due_after (audio chunk) due = 1
due_after exception_reported due = due
due_after _ due = 0

unfoldable pub sample_of : Phase → ℕ
sample_of (live b n) = n
sample_of _ = 0

-- Only `stop` leaves something due; the code of its error is client_stopped.
unfoldable pub due_behind : TtsError → ℕ → ℕ
due_behind e due = if e.code ≈ "client_stopped" then due else 0

unfoldable pub listen : Stage → Notice → Option Stage
listen (during p due) (error e) = elim (hear p (error e)) [
  | none ↦ none
  | some q ↦ some (ended (sample_of p) (due_behind e due))
]
listen (during p due) n = elim (hear p n) [
  | none ↦ none
  | some q ↦ some (during q (due_after n due))
]
listen (ended n due) exception_reported = some (ended n due)
listen (ended n due) (audio chunk) =
    if due == 2 && chunk.first_sample == n
    then some (ended (add_u64 n chunk.sample_count) 1)
    else none
listen (ended n due) (timing heard) =
    if due != 0 && add_u64 heard.first_sample heard.sample_count == n
    then some (ended n 0)
    else none
listen (ended n due) _ = none

unfoldable pub listen_all : Stage → List Notice → Option Stage
listen_all s [] = some s
listen_all s (n ∷ ns) = elim (listen s n) [ none ↦ none | some t ↦ listen_all t ns ]

unfoldable pub phase_in : Stage → Phase
phase_in (during p due) = p
phase_in (ended n due) = gone

-- The notices of one request.
unfoldable pub notices : ℕ → List Delivery → List Notice
notices k [] = []
notices k (d ∷ ds) = if k == d.owner then d.notice ∷ notices k ds else notices k ds

-- The phase of a request in the client.
unfoldable pub phase_of : Option ActiveRequest → Phase
phase_of none = gone
phase_of (some r) = live r.text_context_delivered r.next_sample

unfoldable pub contains : ℕ → List ℕ → Bool
contains k [] = false
contains k (j ∷ js) = (k == j) || contains k js

abbrev pub phase : {D : Type 0} → ℕ → QwenTtsClient D → Phase
phase k c = phase_of (find k c.active_requests)

pub contains-append :
    (k : ℕ) (xs ys : List ℕ) → contains k (xs ++ ys) ≡ contains k xs || contains k ys
unfolding contains
contains-append k [] ys = refl
contains-append k (x ∷ xs) ys = ground (arith, contains-append k xs ys)

pub notices-append :
    (k : ℕ) (xs ys : List Delivery) → notices k (xs ++ ys) ≡ notices k xs ++ notices k ys
unfolding notices
notices-append k [] ys = refl
notices-append k (d ∷ ds) ys = ground (arith, notices-append k ds ys)

pub hear_all-append :
    (p q : Phase) (xs ys : List Notice)
    → hear_all p xs ≡ some q
    → hear_all p (xs ++ ys) ≡ hear_all q ys
unfolding hear_all
hear_all-append p q [] ys e = ground (arith, e)
hear_all-append p q (n ∷ ns) ys e = elim (Option-cases (hear p n)) [
  | inl h ↦ ground (arith, h, e)
  | inr (p', h) ↦ rw (h, hear_all) (hear_all-append p' q ns ys (rw (h, hear_all) at e))
]
