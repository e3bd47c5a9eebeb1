-- ===== src/Control/Encode.antt =====
-- src/qwen_tts_bridge/protocol/control/control_encode.cpp, the writers of control_json.cpp and
-- error_codec.cpp, and the encoders of control_codec.cpp.
use qwen3_tts_bridge_cpp.Common.{
  String, Bool, true, false, not, Option, none, some, List, [], ◌∷◌, map, if◌then◌else◌,
}
use text.Mathlib.Text.{◌==◌ as ◌≈◌}
use qwen3_tts_bridge_cpp.Data.{AudioFormat}
use qwen3_tts_bridge_cpp.Control.Messages.{
  ControlMessage, hello_message, synthesize_message, cancel_message, ping_message, shutdown_message,
  ready_message, queued_message, started_message, completed_message, cancelled_message,
  pong_message, shutdown_ack_message, WorkerCapabilities, SynthesisSamplingOptions, GenerationTrace,
  ErrorMessage, JsonPayloadEncodeResult, ControlCodecError, no_error, encode_failed, is_ok,
}
use qwen3_tts_bridge_cpp.Control.Validation.{
  DoubleOps, validate_control_message, validate_error_message,
}
use qwen3_tts_bridge_cpp.Control.Json.{JsonOps, Dumped, dumped}

-- The fields of an object that are there.
unfoldable pub present : {J : Type 0} → List (String × Option J) → List (String × J)
present [] = []
present ((name, none) ∷ fields) = present fields
present ((name, some j) ∷ fields) = (name, j) ∷ present fields

unfoldable pub given : {J : Type 0} → Bool → J → Option J
given true j = some j
given false j = none

unfoldable pub option_map : {A B : Type 0} → (A → B) → Option A → Option B
option_map f none = none
option_map f (some a) = some (f a)

abbrev pub encode_failure : ControlCodecError → String → JsonPayloadEncodeResult
encode_failure error diagnostic = record { payload = []; error = error; diagnostic = diagnostic }

unfoldable pub is_nil {ℓ} : {A : Type ℓ} → List A → Bool
is_nil [] = true
is_nil (a ∷ rest) = false

module _ {J D : Type 0} (json : JsonOps J D) where
  unfoldable pub object_of : List (String × Option J) → J
  object_of fields = json.make_object (present fields)

  unfoldable pub audio_format_fields : AudioFormat → List (String × Option J)
  audio_format_fields format =
      ("sample_format", some (json.of_string format.sample_format))
      ∷ ("sample_rate", some (json.of_unsigned format.sample_rate))
      ∷ ("channels", some (json.of_unsigned format.channels))
      ∷ []

  unfoldable pub audio_format_to_json : AudioFormat → J
  audio_format_to_json format = object_of (audio_format_fields format)

  unfoldable pub sampling_fields : SynthesisSamplingOptions D → List (String × Option J)
  sampling_fields options =
      ("temperature", option_map json.of_double options.temperature)
      ∷ ("top_k", option_map json.of_unsigned options.top_k)
      ∷ ("top_p", option_map json.of_double options.top_p)
      ∷ ("repetition_penalty", option_map json.of_double options.repetition_penalty)
      ∷ ("do_sample", option_map json.of_bool options.do_sample)
      ∷ []

  unfoldable pub synthesis_sampling_to_json : SynthesisSamplingOptions D → J
  synthesis_sampling_to_json options = object_of (sampling_fields options)

  unfoldable pub capability_fields : WorkerCapabilities → List (String × Option J)
  capability_fields c =
      ("streaming", some (json.of_bool c.streaming))
      ∷ ("cancellation", some (json.of_bool c.cancellation))
      ∷ ("instructions", some (json.of_bool c.instructions))
      ∷ ("voice_clone", some (json.of_bool c.voice_clone))
      ∷ ("sampling_overrides", some (json.of_bool c.sampling_overrides))
      ∷ ("deterministic_seed", some (json.of_bool c.deterministic_seed))
      ∷ ("voice_clone_streaming", some (json.of_bool c.voice_clone_streaming))
      ∷ ("voice_profiles", some (json.of_bool c.voice_profiles))
      ∷ []

  unfoldable pub capabilities_to_json : WorkerCapabilities → J
  capabilities_to_json c = object_of (capability_fields c)

  unfoldable pub trace_fields : GenerationTrace → List (String × Option J)
  trace_fields t =
      ("termination_reason", some (json.of_string t.termination_reason))
      ∷ ("hit_eos", some (json.of_bool t.hit_eos))
      ∷ ("hit_max_seq_len", some (json.of_bool t.hit_max_seq_len))
      ∷ ("hit_max_new_tokens", some (json.of_bool t.hit_max_new_tokens))
      ∷ ("codec_frame_count", some (json.of_unsigned t.codec_frame_count))
      ∷ ("generated_steps", some (json.of_unsigned t.generated_steps))
      ∷ ("emitted_steps", some (json.of_unsigned t.emitted_steps))
      ∷ ("terminal_step_index", some (json.of_unsigned t.terminal_step_index))
      ∷ []

  unfoldable pub trace_to_json : GenerationTrace → J
  trace_to_json t = object_of (trace_fields t)

  unfoldable pub message_fields : ControlMessage D → List (String × Option J)
  message_fields (hello_message m) =
      ("message_type", some (json.of_string "hello"))
      ∷ ("client_name", some (json.of_string m.client_name))
      ∷ ("client_version", some (json.of_string m.client_version))
      ∷ []
  message_fields (synthesize_message m) =
      ("message_type", some (json.of_string "synthesize"))
      ∷ ("text", some (json.of_string m.text))
      ∷ ("language", some (json.of_string m.language))
      ∷ ("instruction", some (json.of_string m.instruction))
      ∷ ("output", some (audio_format_to_json m.output))
      ∷ ("speaker", given (not (m.speaker ≈ "")) (json.of_string m.speaker))
      ∷ ("voice_id", given (not (m.voice_id ≈ "")) (json.of_string m.voice_id))
      ∷ (
        "reference_audio_path",
        given (not (m.reference_audio_path ≈ "")) (json.of_string m.reference_audio_path),
      )
      ∷ ("reference_text", given (not (m.reference_text ≈ "")) (json.of_string m.reference_text))
      ∷ ("x_vector_only", given m.x_vector_only (json.of_bool true))
      ∷ ("seed", given m.has_seed (json.of_unsigned m.seed))
      ∷ (
        "sampling",
        given (not (is_nil (present (sampling_fields m.sampling))))
            (synthesis_sampling_to_json m.sampling),
      )
      ∷ []
  message_fields cancel_message = ("message_type", some (json.of_string "cancel")) ∷ []
  message_fields (ping_message m) =
      ("message_type", some (json.of_string "ping"))
      ∷ ("sequence", given m.has_sequence (json.of_unsigned m.sequence))
      ∷ []
  message_fields (shutdown_message m) =
      ("message_type", some (json.of_string "shutdown"))
      ∷ ("mode", some (json.of_string m.mode))
      ∷ []
  message_fields (ready_message m) =
      ("message_type", some (json.of_string "ready"))
      ∷ ("worker_version", some (json.of_string m.worker_version))
      ∷ ("session_id", some (json.of_string m.session_id))
      ∷ ("capabilities", some (capabilities_to_json m.capabilities))
      ∷ ("warmed_up", given m.has_warmed_up (json.of_bool m.warmed_up))
      ∷ (
        "voice_ids",
        given (not (is_nil m.voice_ids)) (json.of_array (map json.of_string m.voice_ids)),
      )
      ∷ []
  message_fields (queued_message m) =
      ("message_type", some (json.of_string "queued"))
      ∷ ("position", given m.has_position (json.of_unsigned m.position))
      ∷ []
  message_fields (started_message m) =
      ("message_type", some (json.of_string "started"))
      ∷ ("audio_format", some (audio_format_to_json m.audio_format))
      ∷ []
  message_fields (completed_message m) =
      ("message_type", some (json.of_string "completed"))
      ∷ ("execution_outcome", given m.has_execution_outcome (json.of_string m.execution_outcome))
      ∷ ("generation_trace", given m.has_generation_trace (trace_to_json m.generation_trace))
      ∷ []
  message_fields cancelled_message = ("message_type", some (json.of_string "cancelled")) ∷ []
  message_fields (pong_message m) =
      ("message_type", some (json.of_string "pong"))
      ∷ ("sequence", given m.has_sequence (json.of_unsigned m.sequence))
      ∷ []
  message_fields shutdown_ack_message = ("message_type", some (json.of_string "shutdown_ack")) ∷ []

  unfoldable pub control_message_to_json : ControlMessage D → J
  control_message_to_json m = object_of (message_fields m)

  unfoldable pub error_fields : ErrorMessage → List (String × Option J)
  error_fields m =
      ("message_type", some (json.of_string "error"))
      ∷ ("category", some (json.of_string m.category))
      ∷ ("code", some (json.of_string m.code))
      ∷ ("message", some (json.of_string m.message))
      ∷ []

  unfoldable pub error_message_to_json : ErrorMessage → J
  error_message_to_json m = object_of (error_fields m)

  unfoldable pub finish_dump : Dumped → JsonPayloadEncodeResult
  finish_dump (dumped payload) = record { payload = payload; error = no_error; diagnostic = "" }
  finish_dump (Dumped.throws_exception what) = encode_failure encode_failed what
  finish_dump Dumped.throws_unknown = encode_failure encode_failed "unknown JSON encode error"

  unfoldable pub encode_json_payload : J → JsonPayloadEncodeResult
  encode_json_payload j = finish_dump (json.dump j)

  unfoldable pub encode_control_message : DoubleOps D → ControlMessage D → JsonPayloadEncodeResult
  encode_control_message double m =
      let verdict = validate_control_message double m in
      if not (is_ok verdict.error)
      then encode_failure verdict.error verdict.diagnostic
      else encode_json_payload (control_message_to_json m)

  unfoldable pub encode_error_message : ErrorMessage → JsonPayloadEncodeResult
  encode_error_message m =
      let verdict = validate_error_message m in
      if not (is_ok verdict.error)
      then encode_failure verdict.error verdict.diagnostic
      else encode_json_payload (error_message_to_json m)
