-- ===== src/Client/Story/Counts.antt =====
-- What the stages of a request say of its terminal callbacks and of its audio.
use qwen3_tts_bridge_cpp.Common.{
  ℕ, ◌+◌, ◌≡◌, refl, inl, inr, Bool, true, false, some, List, [], ◌∷◌, ◌++◌, arith, if◌then◌else◌,
  Option-cases,
}
use qwen3_tts_bridge_cpp.Common.Words.{add_u64}
use qwen3_tts_bridge_cpp.Data.{PcmChunk}
use qwen3_tts_bridge_cpp.Client.Types.{
  Notice, audio, completed, cancelled, error, timing, exception_reported,
}
use qwen3_tts_bridge_cpp.Client.Story.{
  Phase, gone, closing, live, hear, Stage, during, ended, listen, listen_all, phase_in,
}
use qwen3_tts_bridge_cpp.Client.Story.Pending.{error_cases, listen_error, listen_next}
use qwen3_tts_bridge_cpp.Client.Story.Turns.{fresh, unknown}

-- The terminal callbacks.
unfoldable pub is_terminal : Notice → ℕ
is_terminal completed = 1
is_terminal cancelled = 1
is_terminal (error e) = 1
is_terminal _ = 0

unfoldable pub terminals : List Notice → ℕ
terminals [] = 0
terminals (n ∷ ns) = is_terminal n + terminals ns

unfoldable pub chunk_of : Notice → List PcmChunk
chunk_of (audio chunk) = chunk ∷ []
chunk_of _ = []

unfoldable pub chunks : List Notice → List PcmChunk
chunks [] = []
chunks (n ∷ ns) = chunk_of n ++ chunks ns

-- Each chunk begins where the one before it ends, the first one at `n`.
abbrev pub IsContiguous : ℕ → List PcmChunk → Type 0
IsContiguous n [] = Unit
IsContiguous n (chunk ∷ rest) =
    (chunk.first_sample ≡ n) × IsContiguous (add_u64 n chunk.sample_count) rest

open_count : Phase → ℕ
open_count gone = 0
open_count closing = 1
open_count (live b n) = 1

-- One callback takes one request off the open ones, if it is a terminal one.
hear_count :
    (p q : Phase) (n : Notice) → hear p n ≡ some q → is_terminal n + open_count q ≡ open_count p
unfolding is_terminal open_count hear
hear_count gone q _ e = ground (arith, e)
hear_count closing q _ e = ground (arith, e)
hear_count (live true m) q _ e = ground (arith, e)
hear_count (live false m) q _ e = ground (arith, e)

open_in : Stage → ℕ
open_in (during p due) = open_count p
open_in (ended m due) = 0

-- Behind the error of `stop` there is no terminal callback.
ended_terminal :
    (m due : ℕ) (t : Stage) (n : Notice)
    → listen (ended m due) n ≡ some t
    → is_terminal n + open_in t ≡ 0
unfolding listen is_terminal open_in
ended_terminal m due t exception_reported h = ground (arith, h)
ended_terminal m due t (audio chunk) h = ground (arith, h)
ended_terminal m due t (timing heard) h = ground (arith, h)
ended_terminal m due t _ h = cc

listen_count :
    (s t : Stage) (n : Notice) → listen s n ≡ some t → is_terminal n + open_in t ≡ open_in s
unfolding open_in is_terminal open_count
listen_count (during p due) t n h = elim (error_cases n) [
  | inl (e, is) ↦
      let (b, m, d, at, over) = listen_error p due e t (rw is at h) in rw (is, at, over) refl
  | inr ne ↦ let (q, i, at) = listen_next p due n t ne h in rw at (hear_count p q n i)
]
listen_count (ended m due) t n h = ended_terminal m due t n h

terminals_lem :
    (s t : Stage) (ns : List Notice)
    → listen_all s ns ≡ some t
    → terminals ns + open_in t ≡ open_in s
unfolding terminals listen_all
terminals_lem s t [] e = ground (arith, e)
terminals_lem s t (n ∷ ns) e = elim (Option-cases (listen s n)) [
  | inl h ↦ ground (arith, h, e)
  | inr (r, h) ↦
      ground (arith, listen_count s r n h, terminals_lem r t ns (rw (h, listen_all) at e))
]

-- What a request may hear of audio in a phase.
abbrev IsHeardFrom : Phase → List PcmChunk → Type 0
IsHeardFrom gone cs = cs ≡ []
IsHeardFrom closing cs = cs ≡ []
IsHeardFrom (live b n) cs = IsContiguous n cs

abbrev IsHeardIn : Stage → List PcmChunk → Type 0
IsHeardIn (during p due) cs = IsHeardFrom p cs
IsHeardIn (ended m due) cs = IsContiguous m cs

none_heard : (n : ℕ) (cs : List PcmChunk) → cs ≡ [] → IsContiguous n cs
none_heard n [] e = tt
none_heard n (c ∷ cs) e = cc

hear_chunk :
    (p q : Phase) (n : Notice) (cs : List PcmChunk)
    → hear p n ≡ some q
    → IsHeardFrom q cs
    → IsHeardFrom p (chunk_of n ++ cs)
unfolding chunk_of hear
hear_chunk gone q _ cs e h = ground (arith, e, h)
hear_chunk closing q _ cs e h = ground (arith, e, h)
hear_chunk (live true m) q _ cs e h = ground (arith, e, h, none_heard m cs)
hear_chunk (live false m) q _ cs e h = ground (arith, e, h, none_heard m cs)

from_live :
    (p : Phase) (b : Bool) (m : ℕ) (cs : List PcmChunk)
    → p ≡ live b m
    → IsContiguous m cs
    → IsHeardFrom p cs
from_live (live c n) b m cs e h = let same : n ≡ m = ground (arith, e) in rw same h
from_live gone b m cs e h = cc
from_live closing b m cs e h = cc

ended_chunk :
    (m due : ℕ) (t : Stage) (n : Notice) (cs : List PcmChunk)
    → listen (ended m due) n ≡ some t
    → IsHeardIn t cs
    → IsContiguous m (chunk_of n ++ cs)
unfolding listen chunk_of
ended_chunk m due t exception_reported cs e h =
    let same : t ≡ ended m due = ground (arith, e) in rw same at h
ended_chunk m due t (audio chunk) cs e h =
    let first : chunk.first_sample ≡ m = ground (arith, e) in
    let same : t ≡ ended (add_u64 m chunk.sample_count) 1 = ground (arith, e) in
    (first, rw same at h)
ended_chunk m due t (timing heard) cs e h =
    let same : t ≡ ended m 0 = ground (arith, e) in rw same at h
ended_chunk m due t _ cs e h = cc

listen_chunk :
    (s t : Stage) (n : Notice) (cs : List PcmChunk)
    → listen s n ≡ some t
    → IsHeardIn t cs
    → IsHeardIn s (chunk_of n ++ cs)
unfolding chunk_of
listen_chunk (during p due) t n cs h i = elim (error_cases n) [
  | inl (e, is) ↦
      let (b, m, d, at, over) = listen_error p due e t (rw is at h) in
      rw (is, chunk_of) (from_live p b m cs at (rw over at i))
  | inr ne ↦ let (q, one, at) = listen_next p due n t ne h in hear_chunk p q n cs one (rw at at i)
]
listen_chunk (ended m due) t n cs h i = ended_chunk m due t n cs h i

chunks_lem : (s t : Stage) (ns : List Notice) → listen_all s ns ≡ some t → IsHeardIn s (chunks ns)
unfolding chunks listen_all
chunks_lem (during gone d) t [] e = refl
chunks_lem (during closing d) t [] e = refl
chunks_lem (during (live b n) d) t [] e = tt
chunks_lem (ended m d) t [] e = tt
chunks_lem s t (n ∷ ns) e = elim (Option-cases (listen s n)) [
  | inl h ↦ ground (arith, h, e)
  | inr (r, h) ↦ listen_chunk s r n (chunks ns) h (chunks_lem r t ns (rw (h, listen_all) at e))
]

started_count :
    (b : Bool) (t : Stage) (ns : List Notice)
    → open_in t ≡ 0
    → listen_all (if b then fresh else unknown) ns ≡ some t
    → terminals ns ≡ (if b then 1 else 0)
unfolding open_in open_count
started_count true t ns e h = ground (arith, e, terminals_lem fresh t ns h)
started_count false t ns e h = ground (arith, e, terminals_lem unknown t ns h)

pub ended_count :
    (b : Bool) (t : Stage) (ns : List Notice)
    → phase_in t ≡ gone
    → listen_all (if b then fresh else unknown) ns ≡ some t
    → terminals ns ≡ (if b then 1 else 0)
unfolding open_in open_count phase_in
ended_count b (ended m d) ns e h = started_count b (ended m d) ns (unfold open_in in refl) h
ended_count b (during p d) ns e h = started_count b (during p d) ns (rw e refl) h

pub contiguous_lem :
    (b : Bool) (t : Stage) (ns : List Notice)
    → listen_all (if b then fresh else unknown) ns ≡ some t
    → IsContiguous 0 (chunks ns)
contiguous_lem true t ns e = chunks_lem fresh t ns e
contiguous_lem false t ns e = none_heard 0 (chunks ns) (chunks_lem unknown t ns e)
