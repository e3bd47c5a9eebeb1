-- ===== src/Framing/Parser/Stream.antt =====
-- The parser over a whole stream of chunks, as `WorkerSession::handle_bytes` drives it: append a
-- chunk, then parse until no frame is ready.
use mathlib.Core.List.{append_assoc, append-nil, flatten}
use qwen3_tts_bridge_cpp.Common.{
  ℕ, zero, suc, ◌<◌, ◌≡◌, refl, sym, ap, ◌∙◌, ◌⊎◌, inl, inr, List, [], ◌∷◌, ◌++◌, false, Option,
  some, none, arith, length, length-drop, drop-append, if◌then◌else◌,
}
use qwen3_tts_bridge_cpp.Data.{Frame, frame_ready}
use qwen3_tts_bridge_cpp.Framing.Parser.{
  Fault, FrameParser, append, make_fatal, new_parser, parse_next, need_more_result, ready_result,
}
use qwen3_tts_bridge_cpp.Framing.Parser.Decode.{Decoded, need_more, failed, ready, decode}
use qwen3_tts_bridge_cpp.Framing.Parser.Refines.{
  IsValid, pending, append-IsValid, parse_next-decode,
}
use qwen3_tts_bridge_cpp.Framing.Parser.Prefix.{
  decode-append_failed, decode-failed_length, decode-append_ready, decode-ready_length,
}

-- What a stream of bytes holds: its frames, the fault that ended it, and the bytes of no frame.
pub record Split : Type 0 where
  pub frames : List Frame
  pub fault : Option Fault
  pub rest : List ℕ

abbrev prepend : List Frame → Split → Split
prepend fs s = record s { frames = fs ++ s.frames }

split_fuel : ℕ → List ℕ → Split
split_fuel zero bytes = record { frames = []; fault = none; rest = bytes }
split_fuel (suc n) bytes = elim (decode bytes) [
  | need_more ↦ record { frames = []; fault = none; rest = bytes }
  | failed f ↦ record { frames = []; fault = some f; rest = bytes }
  | ready frame rest ↦ prepend (frame ∷ []) (split_fuel n rest)
]

pub split : List ℕ → Split
split bytes = split_fuel (suc (length bytes)) bytes

pub Decoded-cases :
    (d : Decoded)
    → (d ≡ need_more)
      ⊎ ((f : Fault) × (d ≡ failed f))
      ⊎ ((fr : Frame) × (r : List ℕ) × (d ≡ ready fr r))
Decoded-cases need_more = inl refl
Decoded-cases (failed f) = inr (inl (f, refl))
Decoded-cases (ready fr r) = inr (inr (fr, r, refl))

-- Fuel beyond the number of bytes changes nothing.
split_fuel_enough :
    (n m : ℕ) (bytes : List ℕ)
    → length bytes < n
    → length bytes < m
    → split_fuel n bytes ≡ split_fuel m bytes
unfolding split_fuel
split_fuel_enough zero m bytes h k = absurd (omega arith)
split_fuel_enough (suc n) zero bytes h k = absurd (omega arith)
split_fuel_enough (suc n) (suc m) bytes h k = elim (Decoded-cases (decode bytes)) [
  | inl e ↦ rw (e, split_fuel) refl
  | inr (inl (f, e)) ↦ rw (e, split_fuel) refl
  | inr (inr (fr, r, e)) ↦
      let less = decode-ready_length bytes e in
      rw (e, split_fuel)
        (ap (prepend (fr ∷ [])) (split_fuel_enough n m r (omega arith) (omega arith)))
]

pub split_ready :
    (bytes : List ℕ) {fr : Frame} {r : List ℕ}
    → decode bytes ≡ ready fr r
    → split bytes ≡ prepend (fr ∷ []) (split r)
unfolding split split_fuel
split_ready bytes {fr} {r} e =
    let less = decode-ready_length bytes e in
    rw (e, split, split_fuel)
      (ap (prepend (fr ∷ []))
        (split_fuel_enough (length bytes) (suc (length r)) r (omega arith) (omega arith)))

pub split_need_more :
    (bytes : List ℕ)
    → decode bytes ≡ need_more
    → split bytes ≡ record { frames = []; fault = none; rest = bytes }
unfolding split split_fuel
split_need_more bytes e = rw (e, split, split_fuel) refl

pub split_failed :
    (bytes : List ℕ) {f : Fault}
    → decode bytes ≡ failed f
    → split bytes ≡ record { frames = []; fault = some f; rest = bytes }
unfolding split split_fuel
split_failed bytes e = rw (e, split, split_fuel) refl

-- What more bytes add to a stream.
abbrev Extends : Split → List ℕ → Split → Type 0
Extends s y t =
    ((s.fault ≡ none) × (t ≡ prepend s.frames (split (s.rest ++ y))))
    ⊎ ((f : Fault) × (s.fault ≡ some f) × (t.frames ≡ s.frames) × (t.fault ≡ some f))

prepend-Extends :
    (fr : Frame) (y : List ℕ) (s t : Split)
    → Extends s y t
    → Extends (prepend (fr ∷ []) s) y (prepend (fr ∷ []) t)
prepend-Extends fr y s t (inl (e, h)) = inl (e, ap (prepend (fr ∷ [])) h)
prepend-Extends fr y s t (inr (f, e, h, k)) = inr (f, e, ap (◌∷◌ fr) h, k)

split-append_fuel : (n : ℕ) (x y : List ℕ) → length x < n → Extends (split x) y (split (x ++ y))
split-append_fuel zero x y h = absurd (omega arith)
split-append_fuel (suc n) x y h = elim (Decoded-cases (decode x)) [
  | inl e ↦ rw (split_need_more x e) (inl (refl, refl))
  | inr (inl (f, e)) ↦
      rw
        (
          split_failed x e,
          split_failed (x ++ y) (decode-append_failed x y (decode-failed_length x e) e),
        )
        (inr (f, refl, refl, refl))
  | inr (inr (fr, r, e)) ↦
      rw (split_ready x e, split_ready (x ++ y) (decode-append_ready x y e))
        (prepend-Extends fr y (split r) (split (r ++ y))
          (split-append_fuel n r y (omega (arith, decode-ready_length x e))))
]

split-append : (x y : List ℕ) → Extends (split x) y (split (x ++ y))
split-append x y = split-append_fuel (suc (length x)) x y (omega arith)

-- The loop of `handle_bytes`: parse until no frame is ready.
pub drain : ℕ → FrameParser → List Frame × FrameParser
drain zero p = ([], p)
drain (suc n) p =
    let (p', result) = parse_next p in
    let rest = drain n p' in
    elim result.status [ frame_ready ↦ (result.frame ∷ rest.0, rest.1) | _ ↦ ([], p') ]

-- A chunk arrives. Each frame takes bytes, so the loop ends within this fuel.
pub feed : FrameParser → List ℕ → List Frame × FrameParser
feed p bytes = drain (suc (length (append p bytes).buffer)) (append p bytes)

pub feed_all : FrameParser → List (List ℕ) → List Frame × FrameParser
feed_all p [] = ([], p)
feed_all p (c ∷ cs) =
    let (frames, q) = feed p c in let rest = feed_all q cs in (frames ++ rest.0, rest.1)

abbrev pub fault_of : FrameParser → Option Fault
fault_of p =
    if p.fatal then some (record { error = p.fatal_error; message = p.fatal_message }) else none

-- The parser has delivered what a stream holds.
pub record Delivers (s : Split) (r : List Frame × FrameParser) : Type 0 where
  pub frames : r.0 ≡ s.frames
  pub fault : fault_of r.1 ≡ s.fault
  pub rest : s.fault ≡ none → pending r.1 ≡ s.rest
  pub valid : IsValid r.1

module _ (n : ℕ) (p : FrameParser) where
  drain_need_more : parse_next p ≡ (p, need_more_result) → drain (suc n) p ≡ ([], p)
  unfolding drain
  drain_need_more e = ground arith

  drain_failed :
      (f : Fault) → parse_next p ≡ make_fatal p f → drain (suc n) p ≡ ([], (make_fatal p f).0)
  unfolding drain make_fatal
  drain_failed f e = ground arith

  drain_ready :
      (fr : Frame)
      → (parse_next p).1 ≡ ready_result fr
      → drain (suc n) p ≡ (fr ∷ (drain n (parse_next p).0).0, (drain n (parse_next p).0).1)
  unfolding drain
  drain_ready fr e = ground arith

prepend-Delivers :
    (fs : List Frame) (s : Split) (r : List Frame × FrameParser)
    → Delivers s r
    → Delivers (prepend fs s) (fs ++ r.0, r.1)
prepend-Delivers fs s r d = record {
  frames = ap (◌++◌ fs) d.frames;
  fault = d.fault;
  rest = d.rest;
  valid = d.valid;
}

drain-split :
    (n : ℕ) (p : FrameParser)
    → IsValid p
    → p.fatal ≡ false
    → length (pending p) < n
    → Delivers (split (pending p)) (drain n p)
drain-split zero p v e h = absurd (omega arith)
drain-split (suc n) p v e h =
    let agrees = parse_next-decode p v e in
    elim (Decoded-cases (decode (pending p))) [
      | inl d ↦
          rw (split_need_more (pending p) d, drain_need_more n p (rw d at agrees))
            (record { frames = refl; fault = simp e; rest = λ _. refl; valid = v })
      | inr (inl (f, d)) ↦
          rw (split_failed (pending p) d, drain_failed n p f (rw d at agrees))
            (unfold make_fatal in
              record {
                frames = refl;
                fault = refl;
                rest = λ k. cc;
                valid = record { within = v.within };
              })
      | inr (inr (fr, r, d)) ↦
          let (result, left, valid, alive) = rw d at agrees in
          rw (split_ready (pending p) d, drain_ready n p fr result)
            (prepend-Delivers (fr ∷ []) (split r) (drain n (parse_next p).0) (
              rw (← left) (
                drain-split n (parse_next p).0 valid (alive ∙ e)
                  (rw left (omega (arith, decode-ready_length (pending p) d))))))
    ]

pub fault_of-alive : (p : FrameParser) → fault_of p ≡ none → p.fatal ≡ false
fault_of-alive p e = ground arith

pub pending-append :
    (p : FrameParser) (bytes : List ℕ)
    → IsValid p
    → p.fatal ≡ false
    → pending (append p bytes) ≡ pending p ++ bytes
unfolding append
pending-append p [] v e = ground (arith, append-nil (pending p))
pending-append p (b ∷ bs) v e = ground (arith, drop-append p.read_offset p.buffer (b ∷ bs))

module _ (p : FrameParser) (bytes : List ℕ) where
  pub append-fatal : (append p bytes).fatal ≡ p.fatal
  unfolding append
  append-fatal = ground arith

  pub feed-split :
      IsValid p → p.fatal ≡ false → Delivers (split (pending p ++ bytes)) (feed p bytes)
  unfolding feed
  feed-split v e = rw (← pending-append p bytes v e) (
      drain-split _ _ (append-IsValid p bytes v) (append-fatal ∙ e)
        (omega (arith, length-drop (append p bytes).read_offset (append p bytes).buffer)))

  -- A parser that has failed takes no more bytes and yields no more frames.
  feed_failed : (f : Fault) → fault_of p ≡ some f → feed p bytes ≡ ([], p)
  unfolding feed drain append parse_next
  feed_failed f e = ground arith

-- What two parts of a stream deliver, one after the other.
Delivers-append :
    (s t : Split) (y : List ℕ) (r u : List Frame × FrameParser)
    → Extends s y t
    → Delivers s r
    → (fault_of r.1 ≡ none → Delivers (split (pending r.1 ++ y)) u)
    → ((f : Fault) → fault_of r.1 ≡ some f → u ≡ ([], r.1))
    → Delivers t (r.0 ++ u.0, u.1)
Delivers-append s t y r u (inl (e, h)) d alive dead =
    rw (h, d.frames)
      (prepend-Delivers s.frames (split (s.rest ++ y)) u (rw (d.rest e) at (alive (d.fault ∙ e))))
Delivers-append s t y r u (inr (f, e, h, k)) d alive dead =
    rw (dead f (d.fault ∙ e), append-nil)
      (record {
        frames = d.frames ∙ sym h;
        fault = d.fault ∙ e ∙ sym k;
        rest = λ x. cc;
        valid = d.valid;
      })

feed_all_failed :
    (p : FrameParser) (cs : List (List ℕ)) (f : Fault)
    → fault_of p ≡ some f
    → feed_all p cs ≡ ([], p)
unfolding feed_all
feed_all_failed p [] f e = refl
feed_all_failed p (c ∷ cs) f e = rw (feed_failed p c f e, feed_all) (feed_all_failed p cs f e)

-- No frame and no fault stands at the front of these bytes.
abbrev pub IsDrained : List ℕ → Type 0
IsDrained bytes = split bytes ≡ record { frames = []; fault = none; rest = bytes }

rest-IsDrained :
    (n : ℕ) (x : List ℕ) → length x < n → (split x).fault ≡ none → IsDrained (split x).rest
rest-IsDrained zero x h e = absurd (omega arith)
rest-IsDrained (suc n) x h e = elim (Decoded-cases (decode x)) [
  | inl d ↦ rw (split_need_more x d) (split_need_more x d)
  | inr (inl (f, d)) ↦ cc (split_failed x d)
  | inr (inr (fr, r, d)) ↦
      rw (split_ready x d)
        (rest-IsDrained n r (omega (arith, decode-ready_length x d)) (rw (split_ready x d) at e))
]

feed_all-Delivers :
    (p : FrameParser) (cs : List (List ℕ))
    → IsValid p
    → fault_of p ≡ none
    → IsDrained (pending p)
    → Delivers (split (pending p ++ flatten cs)) (feed_all p cs)
unfolding feed_all flatten
feed_all-Delivers p [] v e h =
    rw (append-nil, h) (record { frames = refl; fault = e; rest = λ _. refl; valid = v })
feed_all-Delivers p (c ∷ cs) v e h = rw (← append_assoc (pending p) c (flatten cs)) (
    Delivers-append (split front) (split (front ++ flatten cs)) (flatten cs) (feed p c)
      (feed_all (feed p c).1 cs) (split-append front (flatten cs)) first
      (λ alive. feed_all-Delivers (feed p c).1 cs first.valid alive (drained alive))
      (λ f dead. feed_all_failed (feed p c).1 cs f dead))
  where
    front : List ℕ
    front = pending p ++ c

    first : Delivers (split front) (feed p c)
    first = feed-split p c v (fault_of-alive p e)

    drained : fault_of (feed p c).1 ≡ none → IsDrained (pending (feed p c).1)
    drained alive =
        let whole = sym first.fault ∙ alive in
        rw (first.rest whole) (rest-IsDrained (suc (length front)) front (omega arith) whole)

pub split-nil : IsDrained []
unfolding decode
split-nil = split_need_more [] refl

-- However a stream of bytes is cut into chunks, a new parser that is fed these chunks yields the
-- frames of the whole stream in their order, ends with the fault of the whole stream or without
-- one, and without one still holds exactly the bytes behind the last frame.
pub feed_all-split : (cs : List (List ℕ)) → Delivers (split (flatten cs)) (feed_all new_parser cs)
feed_all-split cs = feed_all-Delivers new_parser cs (omega arith) refl split-nil
