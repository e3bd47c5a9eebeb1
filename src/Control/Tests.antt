-- ===== src/Control/Tests.antt =====
-- The checks of the messages at concrete messages.
use qwen3_tts_bridge_cpp.Common.{ℕ, ◌≡◌, refl, ◌≢◌, ◌↔◌, true, false, none, some, ltb, leb}
use qwen3_tts_bridge_cpp.Control.Messages.{
  synthesize_message, SynthesizeMessage, ErrorMessage, ControlCodecError, is_ok,
}
use qwen3_tts_bridge_cpp.Control.Validation.{
  DoubleOps, and_then, is_empty, validate_non_empty_string, validate_audio_format, holds,
  bad_temperature, bad_top_p, bad_repetition_penalty, validate_synthesis_sampling,
  validate_reference, validate_synthesize, validate_control_message, validate_error_message,
}
use qwen3_tts_bridge_cpp.Control.Validation.Sound.{
  IsSound, validate_control_message-IsSound, validate_error_message-IsSound,
}

-- Hundredths stand in for `double`.
abbrev pub hundredths : DoubleOps ℕ
hundredths = record {
  is_finite = λ x. ltb x 100000;
  at_most = leb;
  less_than = ltb;
  zero_double = 0;
  one_double = 100;
  two_double = 200;
}

abbrev pub request : SynthesizeMessage ℕ
request = record {
  text = "Hello.";
  language = "auto";
  speaker = "";
  instruction = "";
  voice_id = "";
  reference_audio_path = "";
  reference_text = "";
  x_vector_only = false;
  has_seed = true;
  seed = 7;
  sampling = record {
    temperature = some 90;
    top_k = some 50;
    top_p = some 100;
    repetition_penalty = some 105;
    do_sample = none;
  };
  output = record { sample_format = "s16le"; sample_rate = 24000; channels = 1 };
}

request_passes :
    validate_control_message hundredths (synthesize_message request)
    ≡ record { error = ControlCodecError.no_error; diagnostic = "" }
unfolding validate_control_message validate_synthesize validate_reference
    validate_synthesis_sampling validate_audio_format validate_non_empty_string and_then is_ok
    is_empty holds bad_temperature bad_top_p bad_repetition_penalty
request_passes = refl

voice_excludes_reference :
    (validate_control_message hundredths (
      synthesize_message
        (record request { voice_id = "v1"; reference_audio_path = "a.wav" }))).diagnostic
    ≡ "voice_id cannot be combined with direct reference-audio fields"
unfolding validate_control_message validate_synthesize validate_reference
    validate_synthesis_sampling validate_audio_format validate_non_empty_string and_then is_ok
    is_empty
voice_excludes_reference = refl

validate_control_message-IsSound_example :
    (is_ok (validate_control_message hundredths (synthesize_message request)).error ≡ true)
    ↔ IsSound hundredths (synthesize_message request)
validate_control_message-IsSound_example =
    validate_control_message-IsSound hundredths (synthesize_message request)

abbrev pub no_memory : ErrorMessage
no_memory = record { category = "model"; code = "oom"; message = "out of memory" }

validate_error_message-IsSound_example :
    (is_ok (validate_error_message no_memory).error ≡ true)
    ↔ ((no_memory.category ≢ "") × (no_memory.code ≢ "") × (no_memory.message ≢ ""))
validate_error_message-IsSound_example = validate_error_message-IsSound no_memory
