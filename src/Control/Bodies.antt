-- ===== src/Control/Bodies.antt =====
-- Each kind of control message that the JSON codec writes, it reads back.
use qwen3_tts_bridge_cpp.Common.{
  ℕ, ◌≤◌, String, ◌≡◌, refl, ◌∙◌, Bool, true, false, some, arith, if◌then◌else◌, All,
}
use text.Mathlib.Text.{◌==◌ as ◌≈◌}
use qwen3_tts_bridge_cpp.Common.Words.{u32_max, u64_max}
use qwen3_tts_bridge_cpp.Common.Result.{ok}
use qwen3_tts_bridge_cpp.Data.{AudioFormat}
use qwen3_tts_bridge_cpp.Control.Messages.{
  ControlMessage, hello_message, synthesize_message, ping_message, shutdown_message, ready_message,
  queued_message, started_message, completed_message, pong_message, HelloMessage, SynthesizeMessage,
  PingMessage, PongMessage, ShutdownMessage, QueuedMessage, StartedMessage, ReadyMessage,
  CompletedMessage, GenerationTrace, WorkerCapabilities, is_ok,
}
use qwen3_tts_bridge_cpp.Control.Validation.{DoubleOps, validate_control_message, validate_shutdown}
use qwen3_tts_bridge_cpp.Control.Json.{
  read_optional_audio_format, read_optional_u64, read_optional_u32, read_optional_bool,
  read_optional_string, read_required_audio_format, JsonOps, read_audio_format, read_capabilities,
  read_completed_message, read_optional_trace, or_false,
}
use qwen3_tts_bridge_cpp.Control.Encode.{
  given, object_of, capability_fields, trace_fields, audio_format_to_json, capabilities_to_json,
  trace_to_json, message_fields, control_message_to_json,
}
use qwen3_tts_bridge_cpp.Control.Decode.{
  default_audio_format, checked, decode_hello, decode_synthesize, decode_ping, decode_shutdown,
  decode_ready, decode_queued, decode_started, decode_completed, decode_pong, checked_shutdown,
}
use qwen3_tts_bridge_cpp.Control.Fields.{
  only_here, JsonLaws, pick, IsWithin, find-object_of, object_of_object, required_string,
  optional_string, given_string, optional_bool, optional_u64, optional_u32, given_strings,
}
use qwen3_tts_bridge_cpp.Control.Parts.{
  IsFormat, IsTrace, format_back, trace_back, capabilities_back, sampling_back,
}
use qwen3_tts_bridge_cpp.Control.Arrival.{
  received, given_map, given-IsWithin, given_there, given_zero, given_false, completed_given,
  received_valid, sampling_sound,
}

module _ {J D : Type 0} (json : JsonOps J D) (laws : JsonLaws json) where
  given_u64 :
      (o : J) (name : String) (b : Bool) (n : ℕ)
      → json.find_field o name ≡ given b (json.of_unsigned n)
      → n ≤ u64_max
      → read_optional_u64 json o name ≡ ok (given b n)
  given_u64 o name b n e h =
      optional_u64 json laws o name (given b n) (e ∙ given_map json.of_unsigned b n)
        (given-IsWithin u64_max b n h)

  given_u32 :
      (o : J) (name : String) (b : Bool) (n : ℕ)
      → json.find_field o name ≡ given b (json.of_unsigned n)
      → n ≤ u32_max
      → read_optional_u32 json o name ≡ ok (given b n)
  given_u32 o name b n e h =
      optional_u32 json laws o name (given b n) (e ∙ given_map json.of_unsigned b n)
        (given-IsWithin u32_max b n h)

  given_bool :
      (o : J) (name : String) (b c : Bool)
      → json.find_field o name ≡ given b (json.of_bool c)
      → read_optional_bool json o name ≡ ok (given b c)
  given_bool o name b c e =
      optional_bool json laws o name (given b c) (e ∙ given_map json.of_bool b c)

  given_text :
      (o : J) (name : String) (b : Bool) (s : String)
      → json.find_field o name ≡ given b (json.of_string s)
      → read_optional_string json o name "" ≡ ok (if b then s else "")
  unfolding given read_optional_string
  given_text o name true s e = optional_string json laws o name s "" e
  given_text o name false s e = ground (arith, e)

  required_format :
      (o j : J) (name : String)
      → json.find_field o name ≡ some j
      → read_required_audio_format json o name ≡ read_audio_format json j
  unfolding read_required_audio_format
  required_format o j name e = ground (arith, e)

  capabilities_of :
      (o : J) (c : WorkerCapabilities)
      → json.find_field o "capabilities" ≡ some (capabilities_to_json json c)
      → read_capabilities json o ≡ ok c
  unfolding read_capabilities capabilities_to_json
  capabilities_of o c e = ground (
    arith,
    e,
    object_of_object json laws (capability_fields json c),
    capabilities_back json laws c,
  )

  optional_trace :
      (b : Bool) (t : GenerationTrace)
      → IsTrace t
      → read_optional_trace json (given b (trace_to_json json t)) ≡ ok (given b t)
  unfolding read_optional_trace given trace_to_json
  optional_trace true t h =
      ground (arith, object_of_object json laws (trace_fields json t), trace_back json laws t h)
  optional_trace false t h = refl

  checked_lem :
      (double : DoubleOps D) (m : ControlMessage D)
      → is_ok (validate_control_message double m).error ≡ true
      → checked json double m ≡ ok m
  unfolding checked
  checked_lem double m v = ground (arith, v)

  pub hello_back :
      (double : DoubleOps D) (m : HelloMessage)
      → is_ok (validate_control_message double (hello_message m)).error ≡ true
      → decode_hello json double (control_message_to_json json (hello_message m))
        ≡ ok (hello_message m)
  unfolding decode_hello control_message_to_json message_fields checked pick
  hello_back double m v =
      let fields = message_fields json (hello_message m) in
      let o = object_of json fields in
      rw
        (
          required_string json laws o "client_name" m.client_name
              (find-object_of json laws fields "client_name"),
          required_string json laws o "client_version" m.client_version
              (find-object_of json laws fields "client_version"),
          v,
        )
        refl

  pub ping_back :
      (double : DoubleOps D) (m : PingMessage)
      → m.sequence ≤ u64_max
      → decode_ping json double (control_message_to_json json (ping_message m))
        ≡ ok (received (ping_message m))
  unfolding decode_ping control_message_to_json message_fields pick received
  ping_back double m h =
      let fields = message_fields json (ping_message m) in
      let o = object_of json fields in
      rw
        (
          given_u64 o "sequence" m.has_sequence m.sequence
              (find-object_of json laws fields "sequence" ∙ only_here _) h,
          given_there m.has_sequence m.sequence,
          given_zero m.has_sequence m.sequence,
        )
        refl

  pub pong_back :
      (double : DoubleOps D) (m : PongMessage)
      → m.sequence ≤ u64_max
      → decode_pong json double (control_message_to_json json (pong_message m))
        ≡ ok (received (pong_message m))
  unfolding decode_pong control_message_to_json message_fields pick received
  pong_back double m h =
      let fields = message_fields json (pong_message m) in
      let o = object_of json fields in
      rw
        (
          given_u64 o "sequence" m.has_sequence m.sequence
              (find-object_of json laws fields "sequence" ∙ only_here _) h,
          given_there m.has_sequence m.sequence,
          given_zero m.has_sequence m.sequence,
        )
        refl

  pub queued_back :
      (double : DoubleOps D) (m : QueuedMessage)
      → m.position ≤ u32_max
      → is_ok (validate_control_message double (queued_message m)).error ≡ true
      → decode_queued json double (control_message_to_json json (queued_message m))
        ≡ ok (received (queued_message m))
  unfolding decode_queued control_message_to_json message_fields pick received
  queued_back double m h v =
      let fields = message_fields json (queued_message m) in
      let o = object_of json fields in
      rw
        (
          given_u32 o "position" m.has_position m.position
              (find-object_of json laws fields "position" ∙ only_here _) h,
          given_there m.has_position m.position,
          given_zero m.has_position m.position,
        )
        (checked_lem double (received (queued_message m))
          (received_valid double (queued_message m) v))

  pub shutdown_back :
      (double : DoubleOps D) (m : ShutdownMessage)
      → is_ok (validate_control_message double (shutdown_message m)).error ≡ true
      → decode_shutdown json double (control_message_to_json json (shutdown_message m))
        ≡ ok (shutdown_message m)
  unfolding decode_shutdown control_message_to_json message_fields pick checked_shutdown
      validate_control_message validate_shutdown is_ok
  shutdown_back double m v =
      let fields = message_fields json (shutdown_message m) in
      let o = object_of json fields in
      rw
        (optional_string json laws o "mode" m.mode "cancel"
          (find-object_of json laws fields "mode"))
        (ground (arith, v))

  pub started_back :
      (double : DoubleOps D) (m : StartedMessage)
      → IsFormat m.audio_format
      → is_ok (validate_control_message double (started_message m)).error ≡ true
      → decode_started json double (control_message_to_json json (started_message m))
        ≡ ok (started_message m)
  unfolding decode_started control_message_to_json message_fields pick validate_control_message
  started_back double m h v =
      let fields = message_fields json (started_message m) in
      let o = object_of json fields in
      rw
        (
          required_format o (audio_format_to_json json m.audio_format) "audio_format"
              (find-object_of json laws fields "audio_format"),
          format_back json laws m.audio_format h v,
        )
        (checked_lem double (started_message m) v)

  pub ready_back :
      (double : DoubleOps D) (m : ReadyMessage)
      → All (λ s. (s ≈ "") ≡ false) m.voice_ids
      → is_ok (validate_control_message double (ready_message m)).error ≡ true
      → decode_ready json double (control_message_to_json json (ready_message m))
        ≡ ok (received (ready_message m))
  unfolding decode_ready control_message_to_json message_fields pick received
  ready_back double m h v =
      let fields = message_fields json (ready_message m) in
      let o = object_of json fields in
      let found = find-object_of json laws fields in
      rw
        (
          required_string json laws o "worker_version" m.worker_version (found "worker_version"),
          required_string json laws o "session_id" m.session_id (found "session_id"),
          given_bool o "warmed_up" m.has_warmed_up m.warmed_up (found "warmed_up" ∙ only_here _),
          given_strings json laws o "voice_ids" m.voice_ids (found "voice_ids" ∙ only_here _) h,
          capabilities_of o m.capabilities (found "capabilities"),
          given_there m.has_warmed_up m.warmed_up,
          given_false m.has_warmed_up m.warmed_up,
        )
        (checked_lem double (received (ready_message m))
          (received_valid double (ready_message m) v))

  pub completed_back :
      (double : DoubleOps D) (m : CompletedMessage)
      → IsTrace m.generation_trace
      → decode_completed json double (control_message_to_json json (completed_message m))
        ≡ ok (received (completed_message m))
  unfolding decode_completed control_message_to_json message_fields pick received
      read_completed_message
  completed_back double m h =
      let fields = message_fields json (completed_message m) in
      let o = object_of json fields in
      let found = find-object_of json laws fields in
      let outcome =
        found "execution_outcome"
        ∙ only_here (given m.has_execution_outcome (json.of_string m.execution_outcome)) in
      let trace =
        found "generation_trace"
        ∙ only_here (given m.has_generation_trace (trace_to_json json m.generation_trace)) in
      rw
        (
          given_text o "execution_outcome" m.has_execution_outcome m.execution_outcome outcome,
          outcome,
          trace,
          optional_trace m.has_generation_trace m.generation_trace h,
          given_there m.has_execution_outcome (json.of_string m.execution_outcome),
          completed_given m.has_execution_outcome m.has_generation_trace
              (if m.has_execution_outcome then m.execution_outcome else "") m.generation_trace,
        )
        refl

  given_format :
      (o j : J) (name : String) (out : AudioFormat)
      → json.find_field o name ≡ some j
      → read_optional_audio_format json o name out ≡ read_audio_format json j
  unfolding read_optional_audio_format
  given_format o j name out e = ground (arith, e)

  flag_lem : (b : Bool) → or_false (given b true) ≡ b
  unfolding or_false given
  flag_lem true = refl
  flag_lem false = refl

  pub synthesize_back :
      (double : DoubleOps D) (m : SynthesizeMessage D)
      → m.seed ≤ u64_max
      → IsWithin u32_max m.sampling.top_k
      → IsFormat m.output
      → is_ok (validate_control_message double (synthesize_message m)).error ≡ true
      → decode_synthesize json double (control_message_to_json json (synthesize_message m))
        ≡ ok (received (synthesize_message m))
  unfolding decode_synthesize control_message_to_json message_fields pick received
  synthesize_back double m hs hk hf v =
      let fields = message_fields json (synthesize_message m) in
      let o = object_of json fields in
      let found = find-object_of json laws fields in
      let sound = sampling_sound double m v in
      rw
        (
          required_string json laws o "text" m.text (found "text"),
          optional_string json laws o "language" m.language "auto" (found "language"),
          given_string json laws o "speaker" m.speaker (found "speaker" ∙ only_here _),
          optional_string json laws o "instruction" m.instruction "" (found "instruction"),
          given_string json laws o "voice_id" m.voice_id (found "voice_id" ∙ only_here _),
          given_string json laws o "reference_audio_path" m.reference_audio_path
              (found "reference_audio_path" ∙ only_here _),
          given_string json laws o "reference_text" m.reference_text
              (found "reference_text" ∙ only_here _),
          given_bool o "x_vector_only" m.x_vector_only true (found "x_vector_only" ∙ only_here _),
          given_u64 o "seed" m.has_seed m.seed (found "seed" ∙ only_here _) hs,
          sampling_back json laws double o m.sampling (sound.0, hk, sound.1, sound.2)
              (found "sampling" ∙ only_here _),
          given_format o (audio_format_to_json json m.output) "output" default_audio_format
              (found "output"),
          format_back json laws m.output hf sound.3,
          given_there m.has_seed m.seed,
          given_zero m.has_seed m.seed,
          flag_lem m.x_vector_only,
        )
        (checked_lem double (received (synthesize_message m))
          (received_valid double (synthesize_message m) v))
