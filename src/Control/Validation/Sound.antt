-- ===== src/Control/Validation/Sound.antt =====
-- Which messages pass the checks, stated without them.
use qwen3_tts_bridge_cpp.Common.{
  ℕ, String, ◌≡◌, refl, ◌≢◌, ◌↔◌, Bool, true, false, Option, none, some, arith, ◌==◌,
}
use text.Mathlib.TextEquality.{eq_iff}
use qwen3_tts_bridge_cpp.Data.{AudioFormat}
use qwen3_tts_bridge_cpp.Control.Messages.{
  ControlMessage, hello_message, synthesize_message, cancel_message, ping_message, shutdown_message,
  ready_message, queued_message, started_message, completed_message, cancelled_message,
  pong_message, shutdown_ack_message, SynthesizeMessage, SynthesisSamplingOptions, ErrorMessage,
  is_ok,
}
use qwen3_tts_bridge_cpp.Control.Validation.{
  DoubleOps, Verdict, and_then, is_empty, validate_non_empty_string, validate_audio_format, holds,
  validate_hello, validate_ready, validate_queued, validate_shutdown, validate_error_message,
  bad_temperature, bad_top_p, bad_repetition_penalty, validate_synthesis_sampling,
  validate_reference, validate_synthesize, validate_control_message,
}

abbrev Passes : Verdict → Type 0
Passes v = is_ok v.error ≡ true

and_then-Passes : (v w : Verdict) → Passes (and_then v w) ↔ (Passes v × Passes w)
unfolding and_then
and_then-Passes v w = ground arith

empty_iff : (s : String) → (is_empty s ≡ true) ↔ (s ≡ "")
unfolding is_empty
empty_iff s = eq_iff s ""

non_empty-Passes : (s name : String) → Passes (validate_non_empty_string s name) ↔ (s ≢ "")
unfolding validate_non_empty_string is_ok
non_empty-Passes s name = ground (arith, empty_iff s)

abbrev pub IsSoundFormat : AudioFormat → Type 0
IsSoundFormat f = (f.sample_format ≢ "") × (f.sample_rate ≢ 0) × (f.channels ≢ 0)

pub format-Passes :
    (f : AudioFormat) (name : String) → Passes (validate_audio_format f name) ↔ IsSoundFormat f
unfolding validate_audio_format validate_non_empty_string and_then is_ok
format-Passes f name = ground (arith, empty_iff f.sample_format)

-- What is there is good.
abbrev pub IfGiven {ℓ} : {A : Type ℓ} → (A → Type 0) → Option A → Type 0
IfGiven P none = Unit {0}
IfGiven P (some a) = P a

module _ {D : Type 0} (double : DoubleOps D) where
  -- Finite and in (0, high].
  abbrev pub IsAboveZero : D → D → Type 0
  IsAboveZero high x =
      (double.is_finite x ≡ true)
      × (double.at_most x double.zero_double ≡ false)
      × (double.less_than high x ≡ false)

  -- Finite and in [1, 2].
  abbrev pub IsPenalty : D → Type 0
  IsPenalty x =
      (double.is_finite x ≡ true)
      × (double.less_than x double.one_double ≡ false)
      × (double.less_than double.two_double x ≡ false)

  pub record IsSoundSampling (o : SynthesisSamplingOptions D) : Type 0 where
    pub temperature : IfGiven (IsAboveZero double.two_double) o.temperature
    pub top_k : IfGiven (λ k. k ≢ 0) o.top_k
    pub top_p : IfGiven (IsAboveZero double.one_double) o.top_p
    pub penalty : IfGiven IsPenalty o.repetition_penalty

  holds_iff :
      {A : Type 0} (bad : A → Bool) (P : A → Type 0)
      → ((a : A) → (bad a ≡ false) ↔ P a)
      → (o : Option A) → (holds bad o ≡ false) ↔ IfGiven P o
  unfolding holds
  holds_iff bad P h none = (λ _. tt, λ _. refl)
  holds_iff bad P h (some a) = h a

  temperature_iff : (x : D) → (bad_temperature double x ≡ false) ↔ IsAboveZero double.two_double x
  unfolding bad_temperature
  temperature_iff x = ground arith

  top_p_iff : (x : D) → (bad_top_p double x ≡ false) ↔ IsAboveZero double.one_double x
  unfolding bad_top_p
  top_p_iff x = ground arith

  IsPenalty-iff : (x : D) → (bad_repetition_penalty double x ≡ false) ↔ IsPenalty x
  unfolding bad_repetition_penalty
  IsPenalty-iff x = ground arith

  top_k_iff : (k : ℕ) → ((k == 0) ≡ false) ↔ (k ≢ 0)
  top_k_iff k = ground arith

  sampling_holds :
      (o : SynthesisSamplingOptions D)
      → Passes (validate_synthesis_sampling double o) ↔ (
          (holds (bad_temperature double) o.temperature ≡ false)
          × (holds (λ k. k == 0) o.top_k ≡ false)
          × (holds (bad_top_p double) o.top_p ≡ false)
          × (holds (bad_repetition_penalty double) o.repetition_penalty ≡ false))
  unfolding validate_synthesis_sampling is_ok
  sampling_holds o = ground arith

  sampling-Passes :
      (o : SynthesisSamplingOptions D)
      → Passes (validate_synthesis_sampling double o) ↔ IsSoundSampling o
  sampling-Passes o =
      let t =
        holds_iff (bad_temperature double) (IsAboveZero double.two_double) temperature_iff
          o.temperature in
      let k = holds_iff (λ k. k == 0) (λ k. k ≢ 0) top_k_iff o.top_k in
      let p = holds_iff (bad_top_p double) (IsAboveZero double.one_double) top_p_iff o.top_p in
      let r =
        holds_iff (bad_repetition_penalty double) IsPenalty IsPenalty-iff o.repetition_penalty in
      (
        λ h.
            let (a, b, c, d) = (sampling_holds o).0 h in
            record { temperature = t.0 a; top_k = k.0 b; top_p = p.0 c; penalty = r.0 d },
        λ s. (sampling_holds o).1 (t.1 s.temperature, k.1 s.top_k, p.1 s.top_p, r.1 s.penalty),
      )

  -- Reference fields want a reference path, and a voice excludes all of them.
  abbrev pub IsSoundReference : SynthesizeMessage D → Type 0
  IsSoundReference m =
      (m.reference_audio_path ≡ "" → (m.reference_text ≡ "") × (m.x_vector_only ≡ false))
      × (m.voice_id ≢ ""
          → (m.reference_audio_path ≡ "") × (m.reference_text ≡ "") × (m.x_vector_only ≡ false))

  reference-Passes :
      (m : SynthesizeMessage D) → Passes (validate_reference double m) ↔ IsSoundReference m
  unfolding validate_reference is_ok
  reference-Passes m =
      ground
        (arith, empty_iff m.reference_audio_path, empty_iff m.reference_text, empty_iff m.voice_id)

  -- The messages that may be sent or received.
  abbrev pub IsSound : ControlMessage D → Type 0
  IsSound (hello_message m) = (m.client_name ≢ "") × (m.client_version ≢ "")
  IsSound (synthesize_message m) =
      (m.text ≢ "") × IsSoundReference m × IsSoundSampling m.sampling × IsSoundFormat m.output
  IsSound (shutdown_message m) = m.mode ≡ "cancel"
  IsSound (ready_message m) = (m.worker_version ≢ "") × (m.session_id ≢ "")
  IsSound (queued_message m) = m.has_position ≡ true → m.position ≢ 0
  IsSound (started_message m) = IsSoundFormat m.audio_format
  IsSound _ = Unit {0}

  synthesize-Passes :
      (m : SynthesizeMessage D)
      → Passes (validate_synthesize double m)
        ↔ ((m.text ≢ "") × IsSoundReference m × IsSoundSampling m.sampling × IsSoundFormat m.output)
  unfolding validate_synthesize
  synthesize-Passes m =
      let text = non_empty-Passes m.text "text" in
      let reference = reference-Passes m in
      let sampling = sampling-Passes m.sampling in
      let output = format-Passes m.output "output" in
      let rest =
        and_then-Passes (validate_synthesis_sampling double m.sampling)
          (validate_audio_format m.output "output") in
      let more = and_then-Passes (validate_reference double m) (
        and_then (validate_synthesis_sampling double m.sampling)
          (validate_audio_format m.output "output")) in
      let all = and_then-Passes (validate_non_empty_string m.text "text") (
        and_then (validate_reference double m) (
          and_then (validate_synthesis_sampling double m.sampling)
            (validate_audio_format m.output "output"))) in
      (
        λ h.
            let (a, b) = all.0 h in
            let (c, d) = more.0 b in
            let (e, f) = rest.0 d in (text.0 a, reference.0 c, sampling.0 e, output.0 f),
        λ (a, c, e, f). all.1 (text.1 a, more.1 (reference.1 c, rest.1 (sampling.1 e, output.1 f))),
      )

  -- A message passes the checks just if its texts, numbers and optional fields are sound.
  pub validate_control_message-IsSound :
      (m : ControlMessage D) → (is_ok (validate_control_message double m).error ≡ true) ↔ IsSound m
  unfolding validate_control_message is_ok validate_hello validate_ready validate_queued
      validate_shutdown and_then validate_non_empty_string
  validate_control_message-IsSound (hello_message m) =
      ground (arith, empty_iff m.client_name, empty_iff m.client_version)
  validate_control_message-IsSound (synthesize_message m) = synthesize-Passes m
  validate_control_message-IsSound (shutdown_message m) = ground (arith, eq_iff m.mode "cancel")
  validate_control_message-IsSound (ready_message m) =
      ground (arith, empty_iff m.worker_version, empty_iff m.session_id)
  validate_control_message-IsSound (queued_message m) = ground arith
  validate_control_message-IsSound (started_message m) = format-Passes m.audio_format "audio_format"
  validate_control_message-IsSound cancel_message = (λ _. tt, λ _. refl)
  validate_control_message-IsSound (ping_message m) = (λ _. tt, λ _. refl)
  validate_control_message-IsSound (completed_message m) = (λ _. tt, λ _. refl)
  validate_control_message-IsSound cancelled_message = (λ _. tt, λ _. refl)
  validate_control_message-IsSound (pong_message m) = (λ _. tt, λ _. refl)
  validate_control_message-IsSound shutdown_ack_message = (λ _. tt, λ _. refl)

-- A worker error passes the checks just if all its texts are there.
pub validate_error_message-IsSound :
    (m : ErrorMessage)
    → (is_ok (validate_error_message m).error ≡ true)
      ↔ ((m.category ≢ "") × (m.code ≢ "") × (m.message ≢ ""))
unfolding validate_error_message and_then validate_non_empty_string is_ok
validate_error_message-IsSound m =
    ground (arith, empty_iff m.category, empty_iff m.code, empty_iff m.message)
