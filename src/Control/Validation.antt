-- ===== src/Control/Validation.antt =====
-- src/qwen_tts_bridge/protocol/control/control_validation.cpp: the field checks that a message
-- passes before it is encoded and after it is decoded. A verdict is the error with its diagnostic,
-- which is "" without one. `double` is a parameter.
pub mod Sound
use qwen3_tts_bridge_cpp.Common.{
  zero, String, Bool, false, not, ◌&&◌, ◌||◌, Option, none, some, ltb, ◌==◌, if◌then◌else◌,
}
use text.Mathlib.Text.{◌==◌ as ◌≈◌}
use Prim.Native.String.{◌++◌ as ◌<>◌}
use qwen3_tts_bridge_cpp.Data.{AudioFormat}
use qwen3_tts_bridge_cpp.Control.Messages.{
  ControlMessage, hello_message, synthesize_message, shutdown_message, ready_message,
  queued_message, started_message, HelloMessage, SynthesizeMessage, ShutdownMessage, ReadyMessage,
  QueuedMessage, SynthesisSamplingOptions, ErrorMessage, ControlCodecError, no_error,
  invalid_field_type, is_ok,
}

-- What the checks use of `double`: `std::isfinite`, `a <= b`, `a < b`, and the constants 0, 1 and 2.
pub record DoubleOps (D : Type 0) : Type 0 where
  pub is_finite : D → Bool
  pub at_most : D → D → Bool
  pub less_than : D → D → Bool
  pub zero_double : D
  pub one_double : D
  pub two_double : D

pub record Verdict : Type 0 where
  pub error : ControlCodecError
  pub diagnostic : String

abbrev pub passes : Verdict
passes = record { error = no_error; diagnostic = "" }

abbrev pub fails_with : String → Verdict
fails_with diagnostic = record { error = invalid_field_type; diagnostic = diagnostic }

-- `if (const auto error = ...; error != None) return error;` and what comes next.
unfoldable pub and_then : Verdict → Verdict → Verdict
and_then first next = if is_ok first.error then next else first

unfoldable pub is_empty : String → Bool
is_empty value = value ≈ ""

unfoldable pub validate_non_empty_string : String → String → Verdict
validate_non_empty_string value name =
    if not (is_empty value) then passes else fails_with ("field must not be empty: " <> name)

unfoldable pub validate_audio_format : AudioFormat → String → Verdict
validate_audio_format format name =
    let prefix = name <> "." in
    and_then (validate_non_empty_string format.sample_format (prefix <> "sample_format")) (
      if format.sample_rate == 0
      then fails_with (prefix <> "sample_rate must be greater than zero")
      else if format.channels == 0
      then fails_with (prefix <> "channels must be greater than zero")
      else passes)

-- Whether an optional value is there and bad.
unfoldable pub holds {ℓ} : {A : Type ℓ} → (A → Bool) → Option A → Bool
holds bad none = false
holds bad (some a) = bad a

unfoldable pub validate_hello : HelloMessage → Verdict
validate_hello m =
    and_then (validate_non_empty_string m.client_name "client_name")
      (validate_non_empty_string m.client_version "client_version")

unfoldable pub validate_ready : ReadyMessage → Verdict
validate_ready m =
    and_then (validate_non_empty_string m.worker_version "worker_version")
      (validate_non_empty_string m.session_id "session_id")

unfoldable pub validate_queued : QueuedMessage → Verdict
validate_queued m =
    if not m.has_position || ltb 0 m.position
    then passes
    else fails_with "position must be greater than zero"

unfoldable pub validate_shutdown : ShutdownMessage → Verdict
validate_shutdown m = if m.mode ≈ "cancel" then passes else fails_with "unsupported shutdown mode"

unfoldable pub validate_error_message : ErrorMessage → Verdict
validate_error_message m = and_then (validate_non_empty_string m.category "category") (
    and_then (validate_non_empty_string m.code "code")
      (validate_non_empty_string m.message "message"))

module _ {D : Type 0} (double : DoubleOps D) where
  unfoldable pub bad_temperature : D → Bool
  bad_temperature t =
      not (double.is_finite t)
      || double.at_most t double.zero_double
      || double.less_than double.two_double t

  unfoldable pub bad_top_p : D → Bool
  bad_top_p p =
      not (double.is_finite p)
      || double.at_most p double.zero_double
      || double.less_than double.one_double p

  unfoldable pub bad_repetition_penalty : D → Bool
  bad_repetition_penalty r =
      not (double.is_finite r)
      || double.less_than r double.one_double
      || double.less_than double.two_double r

  unfoldable pub validate_synthesis_sampling : SynthesisSamplingOptions D → Verdict
  validate_synthesis_sampling options =
      if holds bad_temperature options.temperature
      then fails_with "sampling.temperature must be finite and in the interval (0, 2]"
      else if holds (λ k. k == 0) options.top_k
      then fails_with "sampling.top_k must be greater than zero"
      else if holds bad_top_p options.top_p
      then fails_with "sampling.top_p must be finite and in the interval (0, 1]"
      else if holds bad_repetition_penalty options.repetition_penalty
      then fails_with "sampling.repetition_penalty must be finite and in the interval [1, 2]"
      else passes

  -- The two checks on the reference fields.
  unfoldable pub validate_reference : SynthesizeMessage D → Verdict
  validate_reference m =
      if is_empty m.reference_audio_path && (not (is_empty m.reference_text) || m.x_vector_only)
      then fails_with "reference_text and x_vector_only require reference_audio_path"
      else if not (is_empty m.voice_id)
          && (not (is_empty m.reference_audio_path)
              || not (is_empty m.reference_text)
              || m.x_vector_only)
      then fails_with "voice_id cannot be combined with direct reference-audio fields"
      else passes

  unfoldable pub validate_synthesize : SynthesizeMessage D → Verdict
  validate_synthesize m = and_then (validate_non_empty_string m.text "text") (
      and_then (validate_reference m) (
        and_then (validate_synthesis_sampling m.sampling)
          (validate_audio_format m.output "output")))

  unfoldable pub validate_control_message : ControlMessage D → Verdict
  validate_control_message (hello_message m) = validate_hello m
  validate_control_message (synthesize_message m) = validate_synthesize m
  validate_control_message (shutdown_message m) = validate_shutdown m
  validate_control_message (ready_message m) = validate_ready m
  validate_control_message (queued_message m) = validate_queued m
  validate_control_message (started_message m) = validate_audio_format m.audio_format "audio_format"
  validate_control_message _ = passes
