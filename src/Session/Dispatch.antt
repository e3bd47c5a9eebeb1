-- ===== src/Session/Dispatch.antt =====
-- The loop of `handle_bytes` against the frames that the bytes hold.
use qwen3_tts_bridge_cpp.Common.{
  ℕ, zero, suc, ◌<◌, ◌≡◌, refl, sym, ap, ◌∙◌, inl, inr, Bool, true, false, none, some, List, [],
  ◌∷◌, ◌++◌, arith, if◌then◌else◌, Bool-cases, length, length-drop,
}
use qwen3_tts_bridge_cpp.Data.{
  Frame, FrameType, control_json, audio_pcm, error_json, unlisted, frame_ready,
}
use qwen3_tts_bridge_cpp.Framing.Parser.{
  Fault, FrameParser, append, make_fatal, parse_next, need_more_result,
}
use qwen3_tts_bridge_cpp.Framing.Parser.Refines.{
  IsValid as IsValidParser, append-IsValid, pending, parse_next-decode,
}
use qwen3_tts_bridge_cpp.Framing.Parser.Decode.{decode}
use qwen3_tts_bridge_cpp.Framing.Parser.Prefix.{decode-ready_length}
use qwen3_tts_bridge_cpp.Framing.Parser.Stream.{
  Split, split, split_ready, split_need_more, split_failed, Decoded-cases, append-fatal,
  pending-append,
}
use qwen3_tts_bridge_cpp.Control.Messages.{
  ControlMessage, ready_message, ControlCodec, worker_to_client,
}
use qwen3_tts_bridge_cpp.Session.Types.{WorkerSession, WorkerSessionEvent, make_protocol_error}
use qwen3_tts_bridge_cpp.Session.Worker.{
  enqueue_event_locked, fail_with_event_locked, is_control_message_allowed_locked,
  is_ready_message_allowed_locked, handle_audio_frame_locked, accept_control,
  handle_control_frame_locked, handle_error_frame_locked, handle_frame_type, handle_frame_locked,
  handle_frames, handle_bytes,
}
use qwen3_tts_bridge_cpp.Session.Loop.{loop_more, loop_fatal, loop_frame, parsed, handled}

module _ {D : Type 0} where
  -- The session with another parser.
  abbrev pub with_parser : FrameParser → WorkerSession D × Bool → WorkerSession D × Bool
  with_parser p r = (record r.0 { parser = p }, r.1)

  module _ (p : FrameParser) (s : WorkerSession D) where
    enqueue-with_parser :
        (e : WorkerSessionEvent D) (exempt : Bool)
        → enqueue_event_locked (record s { parser = p }) e exempt
          ≡ with_parser p (enqueue_event_locked s e exempt)
    unfolding enqueue_event_locked
    enqueue-with_parser e exempt = ground arith

    fail-with_parser :
        (e : WorkerSessionEvent D) (exempt : Bool)
        → fail_with_event_locked (record s { parser = p }) e exempt
          ≡ with_parser p (fail_with_event_locked s e exempt)
    unfolding fail_with_event_locked enqueue_event_locked
    fail-with_parser e exempt = ground arith

    audio-with_parser :
        (f : Frame)
        → handle_audio_frame_locked (record s { parser = p }) f
          ≡ with_parser p (handle_audio_frame_locked s f)
    unfolding handle_audio_frame_locked fail_with_event_locked enqueue_event_locked
    audio-with_parser f = ground arith

module _ {D : Type 0} (codec : ControlCodec D) where
  module _ (p : FrameParser) (s : WorkerSession D) where
    accept-with_parser :
        (id : ℕ) (m : ControlMessage D)
        → accept_control codec (record s { parser = p }) id m
          ≡ with_parser p (accept_control codec s id m)
    unfolding accept_control enqueue_event_locked
    accept-with_parser id (ready_message r) = ground arith
    accept-with_parser id m = ground arith

    control-with_parser :
        (f : Frame)
        → handle_control_frame_locked codec (record s { parser = p }) f
          ≡ with_parser p (handle_control_frame_locked codec s f)
    unfolding handle_control_frame_locked is_control_message_allowed_locked
        is_ready_message_allowed_locked
    control-with_parser f =
        let decoded = codec.decode_control_message f.payload worker_to_client in
        ground (
          arith,
          fail-with_parser p s (make_protocol_error decoded.diagnostic) true,
          fail-with_parser p s
              (make_protocol_error "control message is invalid in the current session state") true,
          accept-with_parser f.header.request_id decoded.message,
        )

    error-with_parser :
        (f : Frame)
        → handle_error_frame_locked codec (record s { parser = p }) f
          ≡ with_parser p (handle_error_frame_locked codec s f)
    unfolding handle_error_frame_locked fail_with_event_locked enqueue_event_locked
    error-with_parser f = ground arith

    frame_type-with_parser :
        (f : Frame) (t : FrameType)
        → handle_frame_type codec (record s { parser = p }) f t
          ≡ with_parser p (handle_frame_type codec s f t)
    unfolding handle_frame_type
    frame_type-with_parser f control_json = control-with_parser f
    frame_type-with_parser f audio_pcm = audio-with_parser p s f
    frame_type-with_parser f error_json = error-with_parser f
    frame_type-with_parser f (unlisted n) =
        fail-with_parser p s (make_protocol_error "unknown frame type") true

    frame-with_parser :
        (f : Frame)
        → handle_frame_locked codec (record s { parser = p }) f
          ≡ with_parser p (handle_frame_locked codec s f)
    unfolding handle_frame_locked
    frame-with_parser f = frame_type-with_parser f f.header.frame_type

  -- The frames are handled in their order, until one asks to stop.
  unfoldable pub dispatch : WorkerSession D → List Frame → WorkerSession D × Bool
  dispatch s [] = (s, false)
  dispatch s (f ∷ fs) =
      let r = handle_frame_locked codec s f in let rest = dispatch r.0 fs in if r.1 then r else rest

  dispatch-with_parser :
      (p : FrameParser) (s : WorkerSession D) (fs : List Frame)
      → dispatch (record s { parser = p }) fs ≡ with_parser p (dispatch s fs)
  unfolding dispatch
  dispatch-with_parser p s [] = refl
  dispatch-with_parser p s (f ∷ fs) =
      rw (frame-with_parser p s f, dispatch-with_parser p (handle_frame_locked codec s f).0 fs)
        (elim (Bool-cases (handle_frame_locked codec s f).1) [
          | inl e ↦ rw e refl
          | inr e ↦ rw e refl
        ])

  -- What `handle_bytes` owes to the frames, the fault and the rest of the bytes.
  pub data Dispatched (s : WorkerSession D) (x : Split) (r : WorkerSession D × Bool) : Type 0 where
    halts :
        (p : FrameParser)
        → (dispatch s x.frames).1 ≡ true
        → r ≡ with_parser p (dispatch s x.frames)
        → Dispatched s x r
    ends :
        (p : FrameParser)
        → (dispatch s x.frames).1 ≡ false
        → x.fault ≡ none
        → pending p ≡ x.rest
        → r ≡ with_parser p (dispatch s x.frames)
        → Dispatched s x r
    fails :
        (p : FrameParser) (f : Fault)
        → (dispatch s x.frames).1 ≡ false
        → x.fault ≡ some f
        → r ≡ (
          record (fail_with_event_locked
              (dispatch s x.frames).0
              (make_protocol_error f.message)
              true).0 { parser = p },
          true,
        )
        → Dispatched s x r

  module _ (n : ℕ) (s : WorkerSession D) where
    more-Dispatched :
        parse_next s.parser ≡ (s.parser, need_more_result)
        → Dispatched s
            (record { frames = []; fault = none; rest = pending s.parser })
            (handle_frames codec (suc n) s)
    unfolding dispatch
    more-Dispatched q = ends s.parser refl refl refl (
        loop_more codec n s (ap (λ r. r.1.status) q)
        ∙ ap (λ r. (record s { parser = r.0 }, false)) q)

    fatal-Dispatched :
        (f : Fault)
        → parse_next s.parser ≡ make_fatal s.parser f
        → Dispatched s
            (record { frames = []; fault = some f; rest = pending s.parser })
            (handle_frames codec (suc n) s)
    unfolding dispatch make_fatal
    fatal-Dispatched f q = fails (parse_next s.parser).0 f refl refl (
        loop_fatal codec n s (ap (λ r. r.1.status) q)
        ∙ ap (λ m. ((fail_with_event_locked (parsed codec s) (make_protocol_error m) true).0, true))
            (ap (λ r. r.1.message) q)
        ∙ ap (λ r. (r.0, true))
            (fail-with_parser (parse_next s.parser).0 s (make_protocol_error f.message) true))

  module _ (n : ℕ) (s : WorkerSession D) (fr : Frame) where
    -- The session behind the frame, with the parser behind the frame.
    abbrev behind : WorkerSession D
    behind = record (handle_frame_locked codec s fr).0 { parser = (parse_next s.parser).0 }

    handled_lem :
        (parse_next s.parser).1.frame ≡ fr
        → handled codec s ≡ with_parser (parse_next s.parser).0 (handle_frame_locked codec s fr)
    handled_lem e =
        ap (handle_frame_locked codec (parsed codec s)) e
        ∙ frame-with_parser (parse_next s.parser).0 s fr

    module _ (status : (parse_next s.parser).1.status ≡ frame_ready)
        (frame : (parse_next s.parser).1.frame ≡ fr) where
      loop_halts :
          (handle_frame_locked codec s fr).1 ≡ true
          → handle_frames codec (suc n) s
            ≡ with_parser (parse_next s.parser).0 (handle_frame_locked codec s fr)
      loop_halts e = loop_frame codec n s status ∙ (rw (handled_lem frame, e) refl)

      loop_goes_on :
          (handle_frame_locked codec s fr).1 ≡ false
          → handle_frames codec (suc n) s ≡ handle_frames codec n behind
      loop_goes_on e = loop_frame codec n s status ∙ (rw (handled_lem frame, e) refl)

  module _ (s : WorkerSession D) (fr : Frame) (fs : List Frame) where
    dispatch_halts :
        (handle_frame_locked codec s fr).1 ≡ true
        → dispatch s (fr ∷ fs) ≡ handle_frame_locked codec s fr
    unfolding dispatch
    dispatch_halts e = ground (arith, e)

    dispatch_goes_on :
        (handle_frame_locked codec s fr).1 ≡ false
        → dispatch s (fr ∷ fs) ≡ dispatch (handle_frame_locked codec s fr).0 fs
    unfolding dispatch
    dispatch_goes_on e = ground (arith, e)

  -- Another parser in the session does not show in what it owes.
  forget-Dispatched :
      (q : FrameParser) (s : WorkerSession D) (x : Split) (r : WorkerSession D × Bool)
      → Dispatched (record s { parser = q }) x r
      → Dispatched s x r
  forget-Dispatched q s x r (halts p e h) =
      let same = dispatch-with_parser q s x.frames in
      halts p (ap (λ d. d.1) (sym same) ∙ e) (h ∙ ap (with_parser p) same)
  forget-Dispatched q s x r (ends p e k l h) =
      let same = dispatch-with_parser q s x.frames in
      ends p (ap (λ d. d.1) (sym same) ∙ e) k l (h ∙ ap (with_parser p) same)
  forget-Dispatched q s x r (fails p f e k h) =
      let same = dispatch-with_parser q s x.frames in
      fails p f (ap (λ d. d.1) (sym same) ∙ e) k (
        h
        ∙ ap
            (λ d. (
              record (fail_with_event_locked d.0 (make_protocol_error f.message) true).0 {
                parser = p;
              },
              true,
            ))
            same
        ∙ ap (λ d. (record d.0 { parser = p }, true))
            (fail-with_parser q (dispatch s x.frames).0 (make_protocol_error f.message) true))

  -- A frame that does not stop the loop comes before the rest.
  frame-Dispatched :
      (s : WorkerSession D) (fr : Frame) (x : Split) (r : WorkerSession D × Bool)
      → (handle_frame_locked codec s fr).1 ≡ false
      → Dispatched (handle_frame_locked codec s fr).0 x r
      → Dispatched s (record x { frames = fr ∷ x.frames }) r
  frame-Dispatched s fr x r on (halts p e h) =
      let same = dispatch_goes_on s fr x.frames on in
      halts p (ap (λ d. d.1) same ∙ e) (h ∙ ap (with_parser p) (sym same))
  frame-Dispatched s fr x r on (ends p e k l h) =
      let same = dispatch_goes_on s fr x.frames on in
      ends p (ap (λ d. d.1) same ∙ e) k l (h ∙ ap (with_parser p) (sym same))
  frame-Dispatched s fr x r on (fails p f e k h) =
      let same = dispatch_goes_on s fr x.frames on in
      fails p f (ap (λ d. d.1) same ∙ e) k (
        h
        ∙ ap
            (λ d. (
              record (fail_with_event_locked d.0 (make_protocol_error f.message) true).0 {
                parser = p;
              },
              true,
            ))
            (sym same))

  loop-Dispatched :
      (n : ℕ) (s : WorkerSession D)
      → IsValidParser s.parser
      → s.parser.fatal ≡ false
      → length (pending s.parser) < n
      → Dispatched s (split (pending s.parser)) (handle_frames codec n s)
  loop-Dispatched zero s v e h = absurd (omega arith)
  loop-Dispatched (suc n) s v e h =
      let agrees = parse_next-decode s.parser v e in
      elim (Decoded-cases (decode (pending s.parser))) [
        | inl d ↦ rw (split_need_more (pending s.parser) d) (more-Dispatched n s (rw d at agrees))
        | inr (inl (f, d)) ↦
            rw (split_failed (pending s.parser) d) (fatal-Dispatched n s f (rw d at agrees))
        | inr (inr (fr, r, d)) ↦
            let (result, left, valid, alive) = rw d at agrees in
            let status = ap (λ x. x.status) result in
            let frame = ap (λ x. x.frame) result in
            rw (split_ready (pending s.parser) d)
              (elim (Bool-cases (handle_frame_locked codec s fr).1) [
                | inl halt ↦
                    let same = dispatch_halts s fr (split r).frames halt in
                    halts (parse_next s.parser).0 (ap (λ d. d.1) same ∙ halt) (
                      loop_halts n s fr status frame halt
                      ∙ ap (with_parser (parse_next s.parser).0) (sym same))
                | inr on ↦ rw (loop_goes_on n s fr status frame on) (
                    frame-Dispatched s fr (split r) _ on (
                      forget-Dispatched (parse_next s.parser).0 (handle_frame_locked codec s fr).0
                        (split r) _
                        (rw (← left) (
                          loop-Dispatched n (behind n s fr) valid (alive ∙ e)
                            (rw left (omega (arith, decode-ready_length (pending s.parser) d)))))))
              ])
      ]

  -- `handle_bytes` takes the chunk's bytes behind those that the parser still holds and handles
  -- exactly the frames that these bytes hold, in their order. If one asks to stop, the bytes
  -- behind it have no effect and the transport is stopped. Otherwise, if the bytes hold no fault,
  -- the rest of the bytes stays in the parser and the session goes on. If they hold one, it is
  -- reported as a protocol error behind the events of the frames, and the transport is stopped.
  pub handle_bytes-Dispatched :
      (s : WorkerSession D) (bytes : List ℕ)
      → IsValidParser s.parser
      → s.parser.fatal ≡ false
      → Dispatched s (split (pending s.parser ++ bytes)) (handle_bytes codec s bytes)
  unfolding handle_bytes
  handle_bytes-Dispatched s bytes v e = rw (← pending-append s.parser bytes v e) (
      forget-Dispatched (append s.parser bytes) s _ _ (
        loop-Dispatched _ (record s { parser = append s.parser bytes })
          (append-IsValid s.parser bytes v) (append-fatal s.parser bytes ∙ e)
          (omega (
            arith,
            length-drop (append s.parser bytes).read_offset (append s.parser bytes).buffer,
          ))))
