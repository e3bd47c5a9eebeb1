-- ===== src/Session/Loop.antt =====
-- The loop of `handle_bytes`: a rule for what every round keeps true, and its end.
use qwen3_tts_bridge_cpp.Common.{
  ℕ, zero, suc, String, ◌≡◌, refl, ◌⊎◌, inl, inr, Bool, true, false, arith, if◌then◌else◌,
  Bool-cases,
}
use qwen3_tts_bridge_cpp.Data.{Frame, ParseStatus, need_more_data, frame_ready}
use qwen3_tts_bridge_cpp.Framing.Parser.{parse_next}
use qwen3_tts_bridge_cpp.Control.Messages.{ControlCodec}
use qwen3_tts_bridge_cpp.Session.Types.{WorkerSession, make_protocol_error}
use qwen3_tts_bridge_cpp.Session.Worker.{fail_with_event_locked, handle_frame_locked, handle_frames}

pub ParseStatus-cases :
    (t : ParseStatus) → (t ≡ need_more_data) ⊎ (t ≡ frame_ready) ⊎ (t ≡ ParseStatus.fatal_error)
ParseStatus-cases need_more_data = inl refl
ParseStatus-cases frame_ready = inr (inl refl)
ParseStatus-cases ParseStatus.fatal_error = inr (inr refl)

module _ {D : Type 0} (codec : ControlCodec D) where
  -- The session with the parser's next state.
  abbrev pub parsed : WorkerSession D → WorkerSession D
  parsed s = record s { parser = (parse_next s.parser).0 }

  -- What is done with the frame that the parser yields.
  abbrev pub handled : WorkerSession D → WorkerSession D × Bool
  handled s = handle_frame_locked codec (parsed s) (parse_next s.parser).1.frame

  module _ (n : ℕ) (s : WorkerSession D) where
    pub loop_more :
        (parse_next s.parser).1.status ≡ need_more_data
        → handle_frames codec (suc n) s ≡ (parsed s, false)
    unfolding handle_frames
    loop_more e = ground arith

    pub loop_fatal :
        (parse_next s.parser).1.status ≡ ParseStatus.fatal_error
        → handle_frames codec (suc n) s ≡ (
          (fail_with_event_locked
              (parsed s)
              (make_protocol_error (parse_next s.parser).1.message)
              true).0,
          true,
        )
    unfolding handle_frames
    loop_fatal e = ground arith

    pub loop_frame :
        (parse_next s.parser).1.status ≡ frame_ready
        → handle_frames codec (suc n) s
          ≡ (if (handled s).1 then ((handled s).0, true) else handle_frames codec n (handled s).0)
    unfolding handle_frames
    loop_frame e = ground arith

  pub handle_frames_inv {ℓ} :
      (P : WorkerSession D → Type ℓ)
      → ((s : WorkerSession D) → P s → P (record s { parser = (parse_next s.parser).0 }))
      → ((s : WorkerSession D) (f : Frame) → P s → P (handle_frame_locked codec s f).0)
      → ((s : WorkerSession D) (m : String)
          → P s
          → P (fail_with_event_locked s (make_protocol_error m) true).0)
      → (n : ℕ) (s : WorkerSession D) → P s
      → P (handle_frames codec n s).0
  handle_frames_inv P next frame fail zero s h = unfold handle_frames in h
  handle_frames_inv P next frame fail (suc n) s h =
      elim (ParseStatus-cases (parse_next s.parser).1.status) [
        | inl e ↦ rw (loop_more n s e) (next s h)
        | inr (inr e) ↦ rw (loop_fatal n s e) (fail (parsed s) _ (next s h))
        | inr (inl e) ↦
            let h' = frame (parsed s) (parse_next s.parser).1.frame (next s h) in
            rw (loop_frame n s e) (elim (Bool-cases (handled s).1) [
              | inl halt ↦ rw halt h'
              | inr on ↦ rw on (handle_frames_inv P next frame fail n (handled s).0 h')
            ])
      ]
