-- ===== src/Control/JsonTests.antt =====
-- The JSON codec over a small value type, at concrete messages.
use qwen3_tts_bridge_cpp.Common.{
  ℕ, String, ◌≡◌, refl, ap, Bool, true, false, Option, none, some, List, [], ◌∷◌, arith, All,
}
use qwen3_tts_bridge_cpp.Common.Result.{ok}
use qwen3_tts_bridge_cpp.Control.Messages.{
  synthesize_message, cancel_message, client_to_worker, no_error, is_ok,
}
use qwen3_tts_bridge_cpp.Control.Validation.{
  and_then, is_empty, validate_non_empty_string, validate_audio_format, holds, bad_temperature,
  bad_top_p, bad_repetition_penalty, validate_synthesis_sampling, validate_reference,
  validate_synthesize, validate_control_message, validate_error_message,
}
use qwen3_tts_bridge_cpp.Control.Json.{
  has_forbidden_header_field, is_there, JsonOps, Parsed, value, dumped,
}
use qwen3_tts_bridge_cpp.Control.Encode.{
  error_fields, error_message_to_json, encode_error_message, present, given, option_map, is_nil,
  object_of, audio_format_fields, audio_format_to_json, sampling_fields, synthesis_sampling_to_json,
  message_fields, control_message_to_json, encode_control_message, encode_json_payload, finish_dump,
}
use qwen3_tts_bridge_cpp.Control.Decode.{
  decode_error_message, decode_control_message, decode_control_object, decode_typed,
  decode_known_control_message, is_client_to_worker_message, is_worker_to_client_message,
  decode_parsed, direction_allows,
}
use qwen3_tts_bridge_cpp.Control.Fields.{JsonLaws, lookup}
use qwen3_tts_bridge_cpp.Control.Arrival.{received, direction_of}
use qwen3_tts_bridge_cpp.Control.RoundTrip.{
  decode-encode_error_message, decode-encode_control_message,
}
use qwen3_tts_bridge_cpp.Control.Checked.{IsGood, decode_parsed-IsGood}
use qwen3_tts_bridge_cpp.Control.Tests.{hundredths, request, no_memory}

mutual
  data Value : Type 0 where
    text : String → Value
    flag : Bool → Value
    number real : ℕ → Value
    items : Items → Value
    fields : Fields → Value

  data Items : Type 0 where
    no_items : Items
    item : Value → Items → Items

  data Fields : Type 0 where
    no_fields : Fields
    field : String → Value → Fields → Fields

abbrev to_items : List Value → Items
to_items [] = no_items
to_items (v ∷ vs) = item v (to_items vs)

abbrev from_items : Items → List Value
from_items no_items = []
from_items (item v vs) = v ∷ from_items vs

abbrev to_fields : List (String × Value) → Fields
to_fields [] = no_fields
to_fields ((n, v) ∷ fs) = field n v (to_fields fs)

abbrev from_fields : Fields → List (String × Value)
from_fields no_fields = []
from_fields (field n v fs) = (n, v) ∷ from_fields fs

from_to_items : (vs : List Value) → from_items (to_items vs) ≡ vs
from_to_items [] = refl
from_to_items (v ∷ vs) = ap (λ ws. v ∷ ws) (from_to_items vs)

from_to_fields : (fs : List (String × Value)) → from_fields (to_fields fs) ≡ fs
from_to_fields [] = refl
from_to_fields ((n, v) ∷ fs) = ap (λ gs. (n, v) ∷ gs) (from_to_fields fs)

abbrev names : List (String × Value) → List String
names [] = []
names ((n, v) ∷ fs) = n ∷ names fs

names-All :
    (P : String → Bool) (fs : List (String × Value))
    → All (λ f. P f.0 ≡ true) fs
    → All (λ k. P k ≡ true) (names fs)
names-All P [] h = tt
names-All P (f ∷ fs) h = (h.0, names-All P fs h.1)

abbrev as_object : Value → Option (List (String × Value))
as_object (fields fs) = some (from_fields fs)
as_object _ = none

abbrev value_ops : (List ℕ → Parsed Value) → JsonOps Value ℕ
value_ops parse = record {
  is_object = λ v. elim (as_object v) [ none ↦ false | some fs ↦ true ];
  find_field = λ v name. elim (as_object v) [ none ↦ none | some fs ↦ lookup name fs ];
  keys = λ v. elim (as_object v) [ none ↦ [] | some fs ↦ names fs ];
  as_string = λ v. elim v [ text s ↦ some s | _ ↦ none ];
  as_bool = λ v. elim v [ flag b ↦ some b | _ ↦ none ];
  as_unsigned = λ v. elim v [ number n ↦ some n | _ ↦ none ];
  as_integer = λ v. none;
  as_double = λ v. elim v [ real d ↦ some d | _ ↦ none ];
  as_array = λ v. elim v [ items vs ↦ some (from_items vs) | _ ↦ none ];
  of_string = text;
  of_bool = flag;
  of_unsigned = number;
  of_double = real;
  of_array = λ vs. items (to_items vs);
  make_object = λ fs. fields (to_fields fs);
  parse = parse;
  dump = λ v. dumped (123 ∷ 125 ∷ []);
}

value_laws : (parse : List ℕ → Parsed Value) → JsonLaws (value_ops parse)
value_laws parse = record {
  made_object = λ fs. refl;
  made_field = λ fs name. rw (from_to_fields fs) refl;
  made_keys = λ P fs h. rw (from_to_fields fs) (names-All P fs h);
  string_back = λ s. refl;
  bool_back = λ b. refl;
  unsigned_back = λ n h. refl;
  double_back = λ d. refl;
  array_back = λ vs. rw (from_to_items vs) refl;
}

abbrev sent : Value
sent =
    control_message_to_json (value_ops (λ bytes. Parsed.throws_unknown))
      (synthesize_message request)

abbrev json : JsonOps Value ℕ
json = value_ops (λ bytes. value sent)

request_encodes :
    is_ok (encode_control_message json hundredths (synthesize_message request)).error ≡ true
unfolding encode_control_message encode_json_payload finish_dump validate_control_message
    validate_synthesize validate_reference validate_synthesis_sampling validate_audio_format
    validate_non_empty_string and_then is_ok is_empty holds bad_temperature bad_top_p
    bad_repetition_penalty
request_encodes = refl

decode-encode_control_message_example :
    decode_control_message json hundredths
      (encode_control_message json hundredths (synthesize_message request)).payload
      client_to_worker
    ≡ record { message = received (synthesize_message request); error = no_error; diagnostic = "" }
unfolding direction_of
decode-encode_control_message_example =
    decode-encode_control_message json (value_laws (λ bytes. value sent)) hundredths
      (synthesize_message request) (omega arith, omega arith, (omega arith, omega arith))
      request_encodes
      (unfold control_message_to_json message_fields object_of audio_format_to_json
          audio_format_fields sampling_fields synthesis_sampling_to_json present given option_map
          is_nil in
        refl)

abbrev cancel_json : JsonOps Value ℕ
cancel_json = value_ops (λ bytes. value (fields (field "message_type" (text "cancel") no_fields)))

cancel_arrives :
    decode_parsed cancel_json hundredths (cancel_json.parse []) client_to_worker ≡ ok cancel_message
unfolding decode_parsed decode_control_object has_forbidden_header_field is_there decode_typed
    decode_known_control_message direction_allows is_client_to_worker_message
    is_worker_to_client_message lookup
cancel_arrives = refl

decode_parsed-IsGood_example : IsGood cancel_json hundredths client_to_worker cancel_message
decode_parsed-IsGood_example =
    decode_parsed-IsGood cancel_json hundredths [] client_to_worker cancel_message cancel_arrives

abbrev sent_error : Value
sent_error = error_message_to_json (value_ops (λ bytes. Parsed.throws_unknown)) no_memory

abbrev error_json : JsonOps Value ℕ
error_json = value_ops (λ bytes. value sent_error)

error_encodes : is_ok (encode_error_message error_json no_memory).error ≡ true
unfolding encode_error_message encode_json_payload finish_dump validate_error_message
    validate_non_empty_string and_then is_ok is_empty
error_encodes = refl

decode-encode_error_message_example :
    decode_error_message error_json (encode_error_message error_json no_memory).payload
    ≡ record { message = no_memory; error = no_error; diagnostic = "" }
decode-encode_error_message_example =
    decode-encode_error_message error_json (value_laws (λ bytes. value sent_error)) no_memory
      error_encodes (unfold error_message_to_json error_fields object_of in refl)
