-- ===== src/Control/Decode.antt =====
-- src/qwen_tts_bridge/protocol/control/control_decode.cpp, the decoder of error_codec.cpp, and the
-- codec as its callers see it.
use qwen3_tts_bridge_cpp.Common.{
  ℕ, String, Bool, not, ◌||◌, Option, none, some, List, if◌then◌else◌,
}
use text.Mathlib.Text.{◌==◌ as ◌≈◌}
use Prim.Native.String.{◌++◌ as ◌<>◌}
use qwen3_tts_bridge_cpp.Common.Result.{Result, ok, err, ◌>>=◌}
use qwen3_tts_bridge_cpp.Data.{AudioFormat}
use qwen3_tts_bridge_cpp.Control.Messages.{
  ControlMessage, hello_message, synthesize_message, cancel_message, ping_message, shutdown_message,
  ready_message, queued_message, started_message, completed_message, cancelled_message,
  pong_message, shutdown_ack_message, ErrorMessage, ControlMessageDirection, client_to_worker,
  worker_to_client, ControlDecodeResult, ErrorDecodeResult, ControlCodec, no_error, invalid_json,
  payload_not_object, missing_message_type, invalid_message_type, unknown_message_type,
  invalid_message_direction, forbidden_field, invalid_field_type, is_ok,
}
use qwen3_tts_bridge_cpp.Control.Validation.{
  DoubleOps, Verdict, validate_control_message, validate_error_message,
}
use qwen3_tts_bridge_cpp.Control.Json.{
  JsonOps, Parsed, value, fails, has_forbidden_header_field, read_required_string,
  read_optional_string, read_optional_string_array, read_optional_bool, read_optional_u64,
  read_optional_u32, read_required_audio_format, read_optional_audio_format,
  read_optional_synthesis_sampling, read_completed_message, read_capabilities, or_false, is_there,
}
use qwen3_tts_bridge_cpp.Control.Encode.{encode_control_message}

unfoldable pub is_client_to_worker_message : String → Bool
is_client_to_worker_message type =
    type ≈ "hello" || type ≈ "synthesize" || type ≈ "cancel" || type ≈ "ping" || type ≈ "shutdown"

unfoldable pub is_worker_to_client_message : String → Bool
is_worker_to_client_message type =
    type ≈ "ready"
    || type ≈ "queued"
    || type ≈ "started"
    || type ≈ "completed"
    || type ≈ "cancelled"
    || type ≈ "pong"
    || type ≈ "shutdown_ack"

unfoldable pub direction_allows : String → ControlMessageDirection → Bool
direction_allows type client_to_worker = is_client_to_worker_message type
direction_allows type worker_to_client = is_worker_to_client_message type

unfoldable pub or_zero : Option ℕ → ℕ
or_zero none = 0
or_zero (some n) = n

-- `AudioFormat()`.
abbrev pub default_audio_format : AudioFormat
default_audio_format = record { sample_format = "s16le"; sample_rate = 24000; channels = 1 }

-- `ControlMessage()` and `ErrorMessage()`.
abbrev pub empty_message : {D : Type 0} → ControlMessage D
empty_message = hello_message (record { client_name = ""; client_version = "" })

abbrev pub empty_error_message : ErrorMessage
empty_error_message = record { category = ""; code = ""; message = "" }

unfoldable pub make_control_message :
    {D : Type 0} → Result Verdict (ControlMessage D) → ControlDecodeResult D
make_control_message (ok m) = record { message = m; error = no_error; diagnostic = "" }
make_control_message (err v) = record {
  message = empty_message;
  error = v.error;
  diagnostic = v.diagnostic;
}

unfoldable pub make_error_message : Result Verdict ErrorMessage → ErrorDecodeResult
make_error_message (ok m) = record { message = m; error = no_error; diagnostic = "" }
make_error_message (err v) = record {
  message = empty_error_message;
  error = v.error;
  diagnostic = v.diagnostic;
}

unfoldable pub checked_shutdown : {D : Type 0} → String → Result Verdict (ControlMessage D)
checked_shutdown mode =
    if mode ≈ "cancel"
    then ok (shutdown_message (record { mode = mode }))
    else fails invalid_field_type "unsupported shutdown mode"

module _ {J D : Type 0} (json : JsonOps J D) (double : DoubleOps D) where
  unfoldable pub checked : ControlMessage D → Result Verdict (ControlMessage D)
  checked m =
      let verdict = validate_control_message double m in
      if is_ok verdict.error then ok m else err verdict

  unfoldable pub decode_hello : J → Result Verdict (ControlMessage D)
  decode_hello object = do
    client_name ← read_required_string json object "client_name"
    client_version ← read_required_string json object "client_version"
    checked (hello_message (record { client_name = client_name; client_version = client_version }))

  unfoldable pub decode_synthesize : J → Result Verdict (ControlMessage D)
  decode_synthesize object = do
    text ← read_required_string json object "text"
    language ← read_optional_string json object "language" "auto"
    speaker ← read_optional_string json object "speaker" ""
    instruction ← read_optional_string json object "instruction" ""
    voice_id ← read_optional_string json object "voice_id" ""
    reference_audio_path ← read_optional_string json object "reference_audio_path" ""
    reference_text ← read_optional_string json object "reference_text" ""
    x_vector_only ← read_optional_bool json object "x_vector_only"
    seed ← read_optional_u64 json object "seed"
    sampling ← read_optional_synthesis_sampling json double object "sampling"
    output ← read_optional_audio_format json object "output" default_audio_format
    checked (
        synthesize_message (record {
          text = text;
          language = language;
          speaker = speaker;
          instruction = instruction;
          voice_id = voice_id;
          reference_audio_path = reference_audio_path;
          reference_text = reference_text;
          x_vector_only = or_false x_vector_only;
          has_seed = is_there seed;
          seed = or_zero seed;
          sampling = sampling;
          output = output;
        }))

  unfoldable pub decode_ready : J → Result Verdict (ControlMessage D)
  decode_ready object = do
    worker_version ← read_required_string json object "worker_version"
    session_id ← read_required_string json object "session_id"
    warmed_up ← read_optional_bool json object "warmed_up"
    voice_ids ← read_optional_string_array json object "voice_ids"
    capabilities ← read_capabilities json object
    checked (
        ready_message (record {
          worker_version = worker_version;
          session_id = session_id;
          has_warmed_up = is_there warmed_up;
          warmed_up = or_false warmed_up;
          capabilities = capabilities;
          voice_ids = voice_ids;
        }))

  unfoldable pub decode_ping : J → Result Verdict (ControlMessage D)
  decode_ping object = do
    n ← read_optional_u64 json object "sequence"
    ok (ping_message (record { has_sequence = is_there n; sequence = or_zero n }))

  unfoldable pub decode_shutdown : J → Result Verdict (ControlMessage D)
  decode_shutdown object = read_optional_string json object "mode" "cancel" >>= checked_shutdown

  unfoldable pub decode_queued : J → Result Verdict (ControlMessage D)
  decode_queued object = do
    n ← read_optional_u32 json object "position"
    checked (queued_message (record { has_position = is_there n; position = or_zero n }))

  unfoldable pub decode_started : J → Result Verdict (ControlMessage D)
  decode_started object = do
    format ← read_required_audio_format json object "audio_format"
    checked (started_message (record { audio_format = format }))

  unfoldable pub decode_completed : J → Result Verdict (ControlMessage D)
  decode_completed object = do m ← read_completed_message json object; ok (completed_message m)

  unfoldable pub decode_pong : J → Result Verdict (ControlMessage D)
  decode_pong object = do
    n ← read_optional_u64 json object "sequence"
    ok (pong_message (record { has_sequence = is_there n; sequence = or_zero n }))

  unfoldable pub decode_known_control_message : J → String → Result Verdict (ControlMessage D)
  decode_known_control_message object type =
      if type ≈ "hello"
      then decode_hello object
      else if type ≈ "synthesize"
      then decode_synthesize object
      else if type ≈ "cancel"
      then ok cancel_message
      else if type ≈ "ping"
      then decode_ping object
      else if type ≈ "shutdown"
      then decode_shutdown object
      else if type ≈ "ready"
      then decode_ready object
      else if type ≈ "queued"
      then decode_queued object
      else if type ≈ "started"
      then decode_started object
      else if type ≈ "completed"
      then decode_completed object
      else if type ≈ "cancelled"
      then ok cancelled_message
      else if type ≈ "pong"
      then decode_pong object
      else if type ≈ "shutdown_ack"
      then ok shutdown_ack_message
      else fails unknown_message_type "unknown message_type"

  unfoldable pub decode_typed :
      J → ControlMessageDirection → String → Result Verdict (ControlMessage D)
  decode_typed object direction type =
      if not (is_client_to_worker_message type || is_worker_to_client_message type)
      then fails unknown_message_type ("unknown message_type: " <> type)
      else if not (direction_allows type direction)
      then fails invalid_message_direction
          ("message_type is not valid for this direction: " <> type)
      else decode_known_control_message object type

  unfoldable pub decode_control_object :
      J → ControlMessageDirection → Result Verdict (ControlMessage D)
  decode_control_object object direction =
      if not (json.is_object object)
      then fails payload_not_object "control payload must be a JSON object"
      else if has_forbidden_header_field json object
      then fails forbidden_field "control payload must not contain protocol_version or request_id"
      else elim (json.find_field object "message_type") [
        | none ↦ fails missing_message_type "missing message_type"
        | some type ↦ elim (json.as_string type) [
          | none ↦ fails invalid_message_type "message_type must be a string"
          | some name ↦ decode_typed object direction name
        ]
      ]

  unfoldable pub decode_parsed :
      Parsed J → ControlMessageDirection → Result Verdict (ControlMessage D)
  decode_parsed (value j) direction = decode_control_object j direction
  decode_parsed (Parsed.throws_parse_error what) direction = fails invalid_json what
  decode_parsed (Parsed.throws_type_error what) direction = fails invalid_field_type what
  decode_parsed (Parsed.throws_exception what) direction = fails invalid_json what
  decode_parsed Parsed.throws_unknown direction = fails invalid_json "unknown JSON decode error"

  unfoldable pub decode_control_message : List ℕ → ControlMessageDirection → ControlDecodeResult D
  decode_control_message payload direction =
      make_control_message (decode_parsed (json.parse payload) direction)

module _ {J D : Type 0} (json : JsonOps J D) where
  unfoldable pub read_error_message : J → Result Verdict ErrorMessage
  read_error_message object = do
    category ← read_required_string json object "category"
    code ← read_required_string json object "code"
    message ← read_required_string json object "message"
    let m : ErrorMessage = record { category = category; code = code; message = message }
    let verdict = validate_error_message m
    if is_ok verdict.error then ok m else err verdict

  unfoldable pub decode_error_object : J → Result Verdict ErrorMessage
  decode_error_object object =
      if not (json.is_object object)
      then fails payload_not_object "error payload must be a JSON object"
      else if has_forbidden_header_field json object
      then fails forbidden_field "error payload must not contain protocol_version or request_id"
      else elim (json.find_field object "message_type") [
        | none ↦ fails missing_message_type "missing message_type"
        | some type ↦ elim (json.as_string type) [
          | none ↦ fails invalid_message_type "message_type must be a string"
          | some name ↦
              if name ≈ "error"
              then read_error_message object
              else fails unknown_message_type "error_json must use message_type=error"
        ]
      ]

  unfoldable pub decode_error_parsed : Parsed J → Result Verdict ErrorMessage
  decode_error_parsed (value j) = decode_error_object j
  decode_error_parsed (Parsed.throws_parse_error what) = fails invalid_json what
  decode_error_parsed (Parsed.throws_type_error what) = fails invalid_field_type what
  decode_error_parsed (Parsed.throws_exception what) = fails invalid_json what
  decode_error_parsed Parsed.throws_unknown = fails invalid_json "unknown JSON decode error"

  unfoldable pub decode_error_message : List ℕ → ErrorDecodeResult
  decode_error_message payload = make_error_message (decode_error_parsed (json.parse payload))

  -- The codec of the session and the client.
  unfoldable pub make_codec : DoubleOps D → ControlCodec D
  make_codec double = record {
    encode_control_message = encode_control_message json double;
    decode_control_message = decode_control_message json double;
    decode_error_message = decode_error_message;
  }
