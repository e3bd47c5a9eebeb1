-- ===== src/Control/Json.antt =====
-- src/qwen_tts_bridge/protocol/control/control_json.cpp: reading the fields of a JSON object. The
-- value type is the one of a third-party library, so it is a parameter: `J` with what the code calls.
-- A read answers what it has read, or the error with its diagnostic.
use qwen3_tts_bridge_cpp.Common.{
  ℕ, String, Bool, true, false, not, ◌||◌, Option, none, some, List, [], ◌∷◌, ltb, if◌then◌else◌,
}
use text.Mathlib.Text.{◌==◌ as ◌≈◌}
use Prim.Native.String.{◌++◌ as ◌<>◌}
use qwen3_tts_bridge_cpp.Common.Words.{u32_max}
use qwen3_tts_bridge_cpp.Common.Int.{ℤ, pos, negsuc}
use qwen3_tts_bridge_cpp.Common.Result.{Result, ok, err, ◌>>=◌, ◌>>◌}
use qwen3_tts_bridge_cpp.Data.{AudioFormat}
use qwen3_tts_bridge_cpp.Control.Messages.{
  ControlCodecError, missing_required_field, invalid_field_type, unknown_field, WorkerCapabilities,
  SynthesisSamplingOptions, CompletedMessage, GenerationTrace, is_ok,
}
use qwen3_tts_bridge_cpp.Control.Validation.{DoubleOps, Verdict, validate_audio_format}

-- What `Json::parse` does: it returns a value, or throws an error of its own or something else.
pub data Parsed (J : Type 0) : Type 0 where
  value : J → Parsed J
  throws_parse_error : String → Parsed J
  throws_type_error : String → Parsed J
  throws_exception : String → Parsed J
  throws_unknown : Parsed J

-- What `dump` does.
pub data Dumped : Type 0 where
  dumped : List ℕ → Dumped
  throws_exception : String → Dumped
  throws_unknown : Dumped

-- `nlohmann::json`. A test of the type with `get` behind it is one operation. `make_object` builds an
-- object of its fields.
pub record JsonOps (J D : Type 0) : Type 0 where
  pub is_object : J → Bool
  pub find_field : J → String → Option J
  pub keys : J → List String
  pub as_string : J → Option String
  pub as_bool : J → Option Bool
  pub as_unsigned : J → Option ℕ
  pub as_integer : J → Option ℤ
  pub as_double : J → Option D
  pub as_array : J → Option (List J)
  pub of_string : String → J
  pub of_bool : Bool → J
  pub of_unsigned : ℕ → J
  pub of_double : D → J
  pub of_array : List J → J
  pub make_object : List (String × J) → J
  pub parse : List ℕ → Parsed J
  pub dump : J → Dumped

unfoldable pub fails : {A : Type 0} → ControlCodecError → String → Result Verdict A
fails error diagnostic = err (record { error = error; diagnostic = diagnostic })

unfoldable pub is_there {ℓ} : {A : Type ℓ} → Option A → Bool
is_there none = false
is_there (some a) = true

unfoldable pub known : String → List String → Bool
known name [] = false
known name (n ∷ allowed) = name ≈ n || known name allowed

unfoldable pub first_unknown : List String → List String → Option String
first_unknown [] allowed = none
first_unknown (k ∷ names) allowed = if known k allowed then first_unknown names allowed else some k

unfoldable pub narrow_u32 : String → Option ℕ → Result Verdict (Option ℕ)
narrow_u32 name none = ok none
narrow_u32 name (some n) =
    if ltb u32_max n
    then fails invalid_field_type ("field exceeds uint32 range: " <> name)
    else ok (some n)

unfoldable pub require_u32 : String → Option ℕ → Result Verdict ℕ
require_u32 name none = fails missing_required_field ("missing required field: " <> name)
require_u32 name (some n) = ok n

unfoldable pub checked_format : AudioFormat → Result Verdict AudioFormat
checked_format format =
    let verdict = validate_audio_format format "audio_format" in
    if is_ok verdict.error then ok format else err verdict

-- `GenerationTrace()`.
abbrev pub empty_trace : GenerationTrace
empty_trace = record {
  termination_reason = "";
  hit_eos = false;
  hit_max_seq_len = false;
  hit_max_new_tokens = false;
  codec_frame_count = 0;
  generated_steps = 0;
  emitted_steps = 0;
  terminal_step_index = 0;
}

unfoldable pub completed_with : String → Bool → Option GenerationTrace → CompletedMessage
completed_with outcome there none = record {
  has_execution_outcome = there;
  execution_outcome = outcome;
  has_generation_trace = false;
  generation_trace = empty_trace;
}
completed_with outcome there (some trace) = record {
  has_execution_outcome = there;
  execution_outcome = outcome;
  has_generation_trace = true;
  generation_trace = trace;
}

unfoldable pub or_false : Option Bool → Bool
or_false none = false
or_false (some b) = b

module _ {J D : Type 0} (json : JsonOps J D) where
  unfoldable pub has_forbidden_header_field : J → Bool
  has_forbidden_header_field object =
      is_there (json.find_field object "protocol_version")
      || is_there (json.find_field object "request_id")

  unfoldable pub reject_unknown_fields : J → List String → String → Result Verdict (Unit {0})
  reject_unknown_fields object allowed object_name =
      elim (first_unknown (json.keys object) allowed) [
        | none ↦ ok tt
        | some k ↦ fails unknown_field (object_name <> (" contains unknown field: " <> k))
      ]

  unfoldable pub read_string : J → String → Result Verdict String
  read_string j name = elim (json.as_string j) [
    | none ↦ fails invalid_field_type ("field must be a string: " <> name)
    | some s ↦ ok s
  ]

  unfoldable pub read_required_string : J → String → Result Verdict String
  read_required_string object name = elim (json.find_field object name) [
    | none ↦ fails missing_required_field ("missing required field: " <> name)
    | some j ↦ read_string j name
  ]

  -- The variable that is read into keeps its value if the field is missing.
  unfoldable pub read_optional_string : J → String → String → Result Verdict String
  read_optional_string object name out = elim (json.find_field object name) [
    | none ↦ ok out
    | some j ↦ read_string j name
  ]

  unfoldable pub read_items : List J → String → Result Verdict (List String)
  read_items [] name = ok []
  read_items (j ∷ js) name =
      let rest = read_items js name in
      elim (json.as_string j) [
        | none ↦ fails invalid_field_type ("field must contain non-empty strings: " <> name)
        | some s ↦
            if s ≈ ""
            then fails invalid_field_type ("field must contain non-empty strings: " <> name)
            else rest >>= λ items. ok (s ∷ items)
      ]

  unfoldable pub read_optional_string_array : J → String → Result Verdict (List String)
  read_optional_string_array object name = elim (json.find_field object name) [
    | none ↦ ok []
    | some j ↦ elim (json.as_array j) [
      | none ↦ fails invalid_field_type ("field must be an array: " <> name)
      | some items ↦ read_items items name
    ]
  ]

  unfoldable pub read_bool : J → String → Result Verdict Bool
  read_bool j name = elim (json.as_bool j) [
    | none ↦ fails invalid_field_type ("field must be a bool: " <> name)
    | some b ↦ ok b
  ]

  unfoldable pub read_optional_bool : J → String → Result Verdict (Option Bool)
  read_optional_bool object name = elim (json.find_field object name) [
    | none ↦ ok none
    | some j ↦ read_bool j name >>= λ b. ok (some b)
  ]

  unfoldable pub read_required_bool : J → String → Result Verdict Bool
  read_required_bool object name = elim (json.find_field object name) [
    | none ↦ fails missing_required_field ("missing required field: " <> name)
    | some j ↦ read_bool j name
  ]

  unfoldable pub json_to_u64 : J → Option ℕ
  json_to_u64 j = elim (json.as_unsigned j) [
    | some n ↦ some n
    | none ↦ elim (json.as_integer j) [
      | none ↦ none
      | some (pos n) ↦ some n
      | some (negsuc n) ↦ none
    ]
  ]

  unfoldable pub read_optional_u64 : J → String → Result Verdict (Option ℕ)
  read_optional_u64 object name = elim (json.find_field object name) [
    | none ↦ ok none
    | some j ↦ elim (json_to_u64 j) [
      | none ↦ fails invalid_field_type ("field must be a non-negative integer: " <> name)
      | some n ↦ ok (some n)
    ]
  ]

  unfoldable pub read_optional_u32 : J → String → Result Verdict (Option ℕ)
  read_optional_u32 object name = read_optional_u64 object name >>= narrow_u32 name

  unfoldable pub read_required_u32 : J → String → Result Verdict ℕ
  read_required_u32 object name = read_optional_u32 object name >>= require_u32 name

  unfoldable pub read_required_u64 : J → String → Result Verdict ℕ
  read_required_u64 object name = elim (json.find_field object name) [
    | none ↦ fails missing_required_field ("missing required field: " <> name)
    | some j ↦ elim (json.as_unsigned j) [
      | none ↦ fails invalid_field_type ("field must be an unsigned integer: " <> name)
      | some n ↦ ok n
    ]
  ]

  unfoldable pub read_audio_format : J → Result Verdict AudioFormat
  read_audio_format object =
      if not (json.is_object object)
      then fails invalid_field_type "audio format must be an object"
      else do
        sample_format ← read_required_string object "sample_format"
        sample_rate ← read_required_u32 object "sample_rate"
        channels ← read_required_u32 object "channels"
        checked_format (record {
          sample_format = sample_format;
          sample_rate = sample_rate;
          channels = channels;
        })

  unfoldable pub read_optional_audio_format : J → String → AudioFormat → Result Verdict AudioFormat
  read_optional_audio_format object name out = elim (json.find_field object name) [
    | none ↦ ok out
    | some j ↦ read_audio_format j
  ]

  unfoldable pub read_required_audio_format : J → String → Result Verdict AudioFormat
  read_required_audio_format object name = elim (json.find_field object name) [
    | none ↦ fails missing_required_field ("missing required field: " <> name)
    | some j ↦ read_audio_format j
  ]

  unfoldable pub read_optional_finite_double : DoubleOps D → J → String → Result Verdict (Option D)
  read_optional_finite_double double object name = elim (json.find_field object name) [
    | none ↦ ok none
    | some j ↦ elim (json.as_double j) [
      | none ↦ fails invalid_field_type ("field must be a finite number: " <> name)
      | some d ↦
          if double.is_finite d
          then ok (some d)
          else fails invalid_field_type ("field must be a finite number: " <> name)
    ]
  ]

  unfoldable pub read_sampling :
      DoubleOps D → J → String → Result Verdict (SynthesisSamplingOptions D)
  read_sampling double object name = do
    reject_unknown_fields object
        ("temperature" ∷ "top_k" ∷ "top_p" ∷ "repetition_penalty" ∷ "do_sample" ∷ []) name
    temperature ← read_optional_finite_double double object "temperature"
    top_k ← read_optional_u32 object "top_k"
    top_p ← read_optional_finite_double double object "top_p"
    repetition_penalty ← read_optional_finite_double double object "repetition_penalty"
    do_sample ← read_optional_bool object "do_sample"
    ok (record {
      temperature = temperature;
      top_k = top_k;
      top_p = top_p;
      repetition_penalty = repetition_penalty;
      do_sample = do_sample;
    })

  unfoldable pub read_optional_synthesis_sampling :
      DoubleOps D → J → String → Result Verdict (SynthesisSamplingOptions D)
  read_optional_synthesis_sampling double object name = elim (json.find_field object name) [
    | none ↦ ok (record {
      temperature = none;
      top_k = none;
      top_p = none;
      repetition_penalty = none;
      do_sample = none;
    })
    | some j ↦
        if not (json.is_object j)
        then fails invalid_field_type ("field must be an object: " <> name)
        else read_sampling double j name
  ]

  unfoldable pub read_trace : J → Result Verdict GenerationTrace
  read_trace object = do
    termination_reason ← read_required_string object "termination_reason"
    hit_eos ← read_required_bool object "hit_eos"
    hit_max_seq_len ← read_required_bool object "hit_max_seq_len"
    hit_max_new_tokens ← read_required_bool object "hit_max_new_tokens"
    codec_frame_count ← read_required_u64 object "codec_frame_count"
    generated_steps ← read_required_u64 object "generated_steps"
    emitted_steps ← read_required_u64 object "emitted_steps"
    terminal_step_index ← read_required_u64 object "terminal_step_index"
    ok (record {
      termination_reason = termination_reason;
      hit_eos = hit_eos;
      hit_max_seq_len = hit_max_seq_len;
      hit_max_new_tokens = hit_max_new_tokens;
      codec_frame_count = codec_frame_count;
      generated_steps = generated_steps;
      emitted_steps = emitted_steps;
      terminal_step_index = terminal_step_index;
    })

  unfoldable pub read_optional_trace : Option J → Result Verdict (Option GenerationTrace)
  read_optional_trace none = ok none
  read_optional_trace (some trace) =
      if not (json.is_object trace)
      then fails invalid_field_type "generation_trace must be an object"
      else read_trace trace >>= λ t. ok (some t)

  unfoldable pub read_completed_message : J → Result Verdict CompletedMessage
  read_completed_message object = do
    outcome ← read_optional_string object "execution_outcome" ""
    trace ← read_optional_trace (json.find_field object "generation_trace")
    ok (completed_with outcome (is_there (json.find_field object "execution_outcome")) trace)

  unfoldable pub read_capability_fields : J → Result Verdict WorkerCapabilities
  read_capability_fields object = do
    streaming ← read_required_bool object "streaming"
    cancellation ← read_required_bool object "cancellation"
    instructions ← read_required_bool object "instructions"
    voice_clone ← read_required_bool object "voice_clone"
    sampling_overrides ← read_optional_bool object "sampling_overrides"
    deterministic_seed ← read_optional_bool object "deterministic_seed"
    voice_clone_streaming ← read_optional_bool object "voice_clone_streaming"
    voice_profiles ← read_optional_bool object "voice_profiles"
    ok (record {
      streaming = streaming;
      cancellation = cancellation;
      instructions = instructions;
      voice_clone = voice_clone;
      sampling_overrides = or_false sampling_overrides;
      deterministic_seed = or_false deterministic_seed;
      voice_clone_streaming = or_false voice_clone_streaming;
      voice_profiles = or_false voice_profiles;
    })

  unfoldable pub read_capabilities : J → Result Verdict WorkerCapabilities
  read_capabilities object = elim (json.find_field object "capabilities") [
    | none ↦ fails missing_required_field "missing required field: capabilities"
    | some j ↦
        if not (json.is_object j)
        then fails invalid_field_type "field must be an object: capabilities"
        else read_capability_fields j
  ]
