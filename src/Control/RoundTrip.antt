-- ===== src/Control/RoundTrip.antt =====
-- What the JSON codec writes, it reads back.
use qwen3_tts_bridge_cpp.Common.{◌≡◌, refl, ◌∙◌, true, false, none, some, arith}
use qwen3_tts_bridge_cpp.Common.Result.{ok}
use qwen3_tts_bridge_cpp.Control.Messages.{
  ErrorMessage, ControlMessage, hello_message, synthesize_message, cancel_message, ping_message,
  shutdown_message, ready_message, queued_message, started_message, completed_message,
  cancelled_message, pong_message, shutdown_ack_message, no_error, is_ok,
}
use qwen3_tts_bridge_cpp.Control.Validation.{
  validate_error_message, DoubleOps, validate_control_message,
}
use qwen3_tts_bridge_cpp.Control.Json.{value, JsonOps, is_there, has_forbidden_header_field}
use qwen3_tts_bridge_cpp.Control.Encode.{
  error_fields, error_message_to_json, encode_error_message, encode_control_message, object_of,
  message_fields, control_message_to_json,
}
use qwen3_tts_bridge_cpp.Control.Decode.{
  read_error_message, decode_error_object, decode_error_parsed, decode_error_message,
  make_error_message, decode_parsed, decode_control_message, make_control_message,
  decode_known_control_message, decode_typed, decode_control_object, direction_allows,
  is_client_to_worker_message, is_worker_to_client_message,
}
use qwen3_tts_bridge_cpp.Control.Fields.{
  JsonLaws, pick, find-object_of, object_of_object, required_string,
}
use qwen3_tts_bridge_cpp.Control.Arrival.{received, IsTyped, direction_of, name_of}
use qwen3_tts_bridge_cpp.Control.Bodies.{
  hello_back, ping_back, pong_back, queued_back, shutdown_back, started_back, ready_back,
  completed_back, synthesize_back,
}

module _ {J D : Type 0} (json : JsonOps J D) (laws : JsonLaws json) (double : DoubleOps D) where
  known_back :
      (m : ControlMessage D)
      → IsTyped m
      → is_ok (validate_control_message double m).error ≡ true
      → decode_known_control_message json double (control_message_to_json json m) (name_of m)
        ≡ ok (received m)
  unfolding decode_known_control_message name_of received
  known_back (hello_message m) h v = hello_back json laws double m v
  known_back (synthesize_message m) h v = synthesize_back json laws double m h.0 h.1 h.2 v
  known_back cancel_message h v = refl
  known_back (ping_message m) h v = ping_back json laws double m h
  known_back (shutdown_message m) h v = shutdown_back json laws double m v
  known_back (ready_message m) h v = ready_back json laws double m h v
  known_back (queued_message m) h v = queued_back json laws double m h v
  known_back (started_message m) h v = started_back json laws double m h v
  known_back (completed_message m) h v = completed_back json laws double m h
  known_back cancelled_message h v = refl
  known_back (pong_message m) h v = pong_back json laws double m h
  known_back shutdown_ack_message h v = refl

  typed_lem :
      (m : ControlMessage D) (o : J)
      → decode_typed json double o (direction_of m) (name_of m)
        ≡ decode_known_control_message json double o (name_of m)
  unfolding decode_typed name_of direction_of direction_allows is_client_to_worker_message
      is_worker_to_client_message
  typed_lem (hello_message m) o = refl
  typed_lem (synthesize_message m) o = refl
  typed_lem cancel_message o = refl
  typed_lem (ping_message m) o = refl
  typed_lem (shutdown_message m) o = refl
  typed_lem _ o = refl

  header_lem :
      (m : ControlMessage D)
      → (pick "protocol_version" (message_fields json m) ≡ none)
        × (pick "request_id" (message_fields json m) ≡ none)
        × (pick "message_type" (message_fields json m) ≡ some (json.of_string (name_of m)))
  unfolding pick message_fields name_of
  header_lem (hello_message m) = (refl, refl, refl)
  header_lem (synthesize_message m) = (refl, refl, refl)
  header_lem cancel_message = (refl, refl, refl)
  header_lem (ping_message m) = (refl, refl, refl)
  header_lem (shutdown_message m) = (refl, refl, refl)
  header_lem (ready_message m) = (refl, refl, refl)
  header_lem _ = (refl, refl, refl)

  no_header_fields :
      (m : ControlMessage D)
      → has_forbidden_header_field json (control_message_to_json json m) ≡ false
  unfolding has_forbidden_header_field control_message_to_json is_there
  no_header_fields m =
      let found = find-object_of json laws (message_fields json m) in
      let (version, request, _) = header_lem m in
      ground (arith, found "protocol_version" ∙ version, found "request_id" ∙ request)

  object_back :
      (m : ControlMessage D)
      → IsTyped m
      → is_ok (validate_control_message double m).error ≡ true
      → decode_control_object json double (control_message_to_json json m) (direction_of m)
        ≡ ok (received m)
  unfolding decode_control_object control_message_to_json
  object_back m h v =
      let found =
        find-object_of json laws (message_fields json m) "message_type" ∙ (header_lem m).2 in
      let o = control_message_to_json json m in
      ground (
        arith,
        object_of_object json laws (message_fields json m),
        no_header_fields m,
        found,
        laws.string_back (name_of m),
        typed_lem m o,
        known_back m h v,
      )

  encode_valid :
      (m : ControlMessage D)
      → is_ok (encode_control_message json double m).error ≡ true
      → is_ok (validate_control_message double m).error ≡ true
  unfolding encode_control_message
  encode_valid m e = ground (arith, e)

  -- A message whose numbers are within their types, without empty voice ids, that the codec has
  -- encoded: if the library parses the payload as the value that was dumped, decoding it in the
  -- message's direction gives the message, less the values that its flags say are not there.
  pub decode-encode_control_message :
      (m : ControlMessage D)
      → IsTyped m
      → is_ok (encode_control_message json double m).error ≡ true
      → json.parse (encode_control_message json double m).payload
        ≡ value (control_message_to_json json m)
      → decode_control_message json double
          (encode_control_message json double m).payload
          (direction_of m)
        ≡ record { message = received m; error = no_error; diagnostic = "" }
  unfolding decode_control_message decode_parsed make_control_message
  decode-encode_control_message m h e p = rw (p, object_back m h (encode_valid m e)) refl

module _ {J D : Type 0} (json : JsonOps J D) (laws : JsonLaws json) where
  error_object_back :
      (m : ErrorMessage)
      → is_ok (validate_error_message m).error ≡ true
      → decode_error_object json (error_message_to_json json m) ≡ ok m
  unfolding decode_error_object error_message_to_json error_fields pick has_forbidden_header_field
      is_there read_error_message
  error_object_back m v =
      let fields = error_fields json m in
      let o = object_of json fields in
      let found = find-object_of json laws fields in
      ground (
        arith,
        object_of_object json laws fields,
        found "protocol_version",
        found "request_id",
        found "message_type",
        laws.string_back "error",
        v,
        required_string json laws o "category" m.category (found "category"),
        required_string json laws o "code" m.code (found "code"),
        required_string json laws o "message" m.message (found "message"),
      )

  error_encode_valid :
      (m : ErrorMessage)
      → is_ok (encode_error_message json m).error ≡ true
      → is_ok (validate_error_message m).error ≡ true
  unfolding encode_error_message
  error_encode_valid m e = ground (arith, e)

  -- An error message that the codec has encoded: if the library parses the payload as the value that
  -- was dumped, decoding it gives the message.
  pub decode-encode_error_message :
      (m : ErrorMessage)
      → is_ok (encode_error_message json m).error ≡ true
      → json.parse (encode_error_message json m).payload ≡ value (error_message_to_json json m)
      → decode_error_message json (encode_error_message json m).payload
        ≡ record { message = m; error = no_error; diagnostic = "" }
  unfolding decode_error_message decode_error_parsed make_error_message
  decode-encode_error_message m e p = rw (p, error_object_back m (error_encode_valid m e)) refl
