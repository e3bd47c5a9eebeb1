-- ===== src/Control/Checked.antt =====
-- What the decoders of messages let through, whatever the JSON library does.
use qwen3_tts_bridge_cpp.Common.{
  ℕ, String, ◌≡◌, refl, inl, inr, Bool, true, false, not, ◌||◌, Option, none, some, List, arith,
  if◌then◌else◌, Bool-cases,
}
use text.Mathlib.Text.{◌==◌ as ◌≈◌}
use text.Mathlib.TextEquality.{eq_iff}
use qwen3_tts_bridge_cpp.Common.Result.{Result, ok, err, ◌>>=◌}
use qwen3_tts_bridge_cpp.Control.Messages.{
  HelloMessage, SynthesizeMessage, ReadyMessage, QueuedMessage, StartedMessage, ControlMessage,
  hello_message, synthesize_message, cancel_message, ready_message, queued_message, started_message,
  cancelled_message, shutdown_ack_message, ControlMessageDirection, client_to_worker,
  worker_to_client, missing_message_type, invalid_message_type, is_ok,
}
use qwen3_tts_bridge_cpp.Control.Validation.{
  DoubleOps, Verdict, validate_control_message, validate_shutdown,
}
use qwen3_tts_bridge_cpp.Control.Json.{
  read_required_string, read_optional_bool, read_optional_u64, read_optional_u32,
  read_optional_synthesis_sampling, read_optional_audio_format, read_optional_string_array,
  read_capabilities, read_required_audio_format, read_completed_message, JsonOps, Parsed, value,
  fails, has_forbidden_header_field, read_optional_string,
}
use qwen3_tts_bridge_cpp.Control.Decode.{
  default_audio_format, checked, decode_hello, decode_synthesize, decode_ping, decode_shutdown,
  decode_ready, decode_queued, decode_started, decode_completed, decode_pong,
  decode_known_control_message, decode_typed, decode_control_object, decode_parsed,
  checked_shutdown, direction_allows, is_client_to_worker_message, is_worker_to_client_message,
}
use qwen3_tts_bridge_cpp.Control.Arrival.{direction_of}

-- Every value that is returned is good.
abbrev Yields : {A : Type 0} → (A → Type 0) → Result Verdict A → Type 0
Yields P (ok a) = P a
Yields P (err e) = Unit

bind-Yields :
    {A B : Type 0} (P : B → Type 0) (r : Result Verdict A) (f : A → Result Verdict B)
    → ((a : A) → Yields P (f a))
    → Yields P (r >>= f)
bind-Yields P (ok a) f h = h a
bind-Yields P (err e) f h = tt

if-Yields :
    {A : Type 0} (P : A → Type 0) (b : Bool) (r r' : Result Verdict A)
    → (b ≡ true → Yields P r)
    → Yields P r'
    → Yields P (if b then r else r')
if-Yields P true r r' h i = h refl
if-Yields P false r r' h i = i

module _ {J D : Type 0} (json : JsonOps J D) (double : DoubleOps D) where
  abbrev pub IsGood : ControlMessageDirection → ControlMessage D → Type 0
  IsGood direction m =
      (is_ok (validate_control_message double m).error ≡ true) × (direction_of m ≡ direction)

  checked-Yields :
      (direction : ControlMessageDirection) (m : ControlMessage D)
      → direction_of m ≡ direction
      → Yields (IsGood direction) (checked json double m)
  unfolding checked
  checked-Yields direction m d =
      elim (Bool-cases (is_ok (validate_control_message double m).error)) [
        | inl v ↦ rw v (v, d)
        | inr v ↦ rw v tt
      ]

  shutdown-Yields : (mode : String) → Yields (IsGood client_to_worker) (checked_shutdown mode)
  unfolding checked_shutdown validate_control_message validate_shutdown direction_of is_ok fails
  shutdown-Yields mode = elim (Bool-cases (mode ≈ "cancel")) [
    | inl v ↦ rw v (ground (arith, v), refl)
    | inr v ↦ rw v tt
  ]

  hello_checked :
      (m : HelloMessage) → Yields (IsGood client_to_worker) (checked json double (hello_message m))
  unfolding direction_of
  hello_checked m = checked-Yields client_to_worker (hello_message m) refl

  synthesize_checked :
      (m : SynthesizeMessage D)
      → Yields (IsGood client_to_worker) (checked json double (synthesize_message m))
  unfolding direction_of
  synthesize_checked m = checked-Yields client_to_worker (synthesize_message m) refl

  ready_checked :
      (m : ReadyMessage) → Yields (IsGood worker_to_client) (checked json double (ready_message m))
  unfolding direction_of
  ready_checked m = checked-Yields worker_to_client (ready_message m) refl

  queued_checked :
      (m : QueuedMessage)
      → Yields (IsGood worker_to_client) (checked json double (queued_message m))
  unfolding direction_of
  queued_checked m = checked-Yields worker_to_client (queued_message m) refl

  started_checked :
      (m : StartedMessage)
      → Yields (IsGood worker_to_client) (checked json double (started_message m))
  unfolding direction_of
  started_checked m = checked-Yields worker_to_client (started_message m) refl

  hello-Yields : (o : J) → Yields (IsGood client_to_worker) (decode_hello json double o)
  unfolding decode_hello
  hello-Yields o =
      bind-Yields (IsGood client_to_worker) (read_required_string json o "client_name") _ λ name.
        bind-Yields (IsGood client_to_worker) (read_required_string json o "client_version") _
          λ version. hello_checked _

  synthesize-Yields : (o : J) → Yields (IsGood client_to_worker) (decode_synthesize json double o)
  unfolding decode_synthesize
  synthesize-Yields o =
      bind-Yields (IsGood client_to_worker) (read_required_string json o "text") _ λ text.
        bind-Yields (IsGood client_to_worker) (read_optional_string json o "language" "auto") _
          λ language.
            bind-Yields (IsGood client_to_worker) (read_optional_string json o "speaker" "") _
              λ speaker.
                bind-Yields (IsGood client_to_worker) (read_optional_string json o "instruction" "")
                  _
                  λ instruction.
                    bind-Yields (IsGood client_to_worker)
                      (read_optional_string json o "voice_id" "") _
                      λ voice_id.
                        bind-Yields (IsGood client_to_worker)
                          (read_optional_string json o "reference_audio_path" "") _
                          λ path.
                            bind-Yields (IsGood client_to_worker)
                              (read_optional_string json o "reference_text" "") _
                              λ reference.
                                bind-Yields (IsGood client_to_worker)
                                  (read_optional_bool json o "x_vector_only") _
                                  λ only.
                                    bind-Yields (IsGood client_to_worker)
                                      (read_optional_u64 json o "seed") _
                                      λ seed.
                                        bind-Yields (IsGood client_to_worker)
                                          (read_optional_synthesis_sampling json double o
                                            "sampling")
                                          _
                                          λ sampling.
                                            bind-Yields (IsGood client_to_worker)
                                              (read_optional_audio_format json o "output"
                                                default_audio_format)
                                              _ λ output. synthesize_checked _

  ping-Yields : (o : J) → Yields (IsGood client_to_worker) (decode_ping json double o)
  unfolding decode_ping validate_control_message direction_of is_ok
  ping-Yields o =
      bind-Yields (IsGood client_to_worker) (read_optional_u64 json o "sequence") _
        λ n. (refl, refl)

  pong-Yields : (o : J) → Yields (IsGood worker_to_client) (decode_pong json double o)
  unfolding decode_pong validate_control_message direction_of is_ok
  pong-Yields o =
      bind-Yields (IsGood worker_to_client) (read_optional_u64 json o "sequence") _
        λ n. (refl, refl)

  stop-Yields : (o : J) → Yields (IsGood client_to_worker) (decode_shutdown json double o)
  unfolding decode_shutdown
  stop-Yields o =
      bind-Yields (IsGood client_to_worker) (read_optional_string json o "mode" "cancel") _
        λ mode. shutdown-Yields mode

  ready-Yields : (o : J) → Yields (IsGood worker_to_client) (decode_ready json double o)
  unfolding decode_ready
  ready-Yields o =
      bind-Yields (IsGood worker_to_client) (read_required_string json o "worker_version") _
        λ version.
          bind-Yields (IsGood worker_to_client) (read_required_string json o "session_id") _
            λ session.
              bind-Yields (IsGood worker_to_client) (read_optional_bool json o "warmed_up") _
                λ warm.
                  bind-Yields (IsGood worker_to_client)
                    (read_optional_string_array json o "voice_ids") _
                    λ voices.
                      bind-Yields (IsGood worker_to_client) (read_capabilities json o) _
                        λ capabilities. ready_checked _

  queued-Yields : (o : J) → Yields (IsGood worker_to_client) (decode_queued json double o)
  unfolding decode_queued
  queued-Yields o =
      bind-Yields (IsGood worker_to_client) (read_optional_u32 json o "position") _
        λ n. queued_checked _

  started-Yields : (o : J) → Yields (IsGood worker_to_client) (decode_started json double o)
  unfolding decode_started
  started-Yields o =
      bind-Yields (IsGood worker_to_client) (read_required_audio_format json o "audio_format") _
        λ format. started_checked _

  completed-Yields : (o : J) → Yields (IsGood worker_to_client) (decode_completed json double o)
  unfolding decode_completed validate_control_message direction_of is_ok
  completed-Yields o =
      bind-Yields (IsGood worker_to_client) (read_completed_message json o) _ λ m. (refl, refl)

  -- The branch of a name that only one direction allows.
  client_branch :
      (type name : String) (direction : ControlMessageDirection)
      (r : Result Verdict (ControlMessage D))
      → direction_allows type direction ≡ true
      → direction_allows name worker_to_client ≡ false
      → Yields (IsGood client_to_worker) r
      → (type ≈ name) ≡ true
      → Yields (IsGood direction) r
  client_branch type name client_to_worker r a n y e = y
  client_branch type name worker_to_client r a n y e =
      let same = (eq_iff type name).0 e in
      let allowed : direction_allows name worker_to_client ≡ true = rw same at a in cc

  worker_branch :
      (type name : String) (direction : ControlMessageDirection)
      (r : Result Verdict (ControlMessage D))
      → direction_allows type direction ≡ true
      → direction_allows name client_to_worker ≡ false
      → Yields (IsGood worker_to_client) r
      → (type ≈ name) ≡ true
      → Yields (IsGood direction) r
  worker_branch type name worker_to_client r a n y e = y
  worker_branch type name client_to_worker r a n y e =
      let same = (eq_iff type name).0 e in
      let allowed : direction_allows name client_to_worker ≡ true = rw same at a in cc

  known-Yields :
      (o : J) (type : String) (direction : ControlMessageDirection)
      → direction_allows type direction ≡ true
      → Yields (IsGood direction) (decode_known_control_message json double o type)
  unfolding decode_known_control_message direction_allows is_client_to_worker_message
      is_worker_to_client_message fails direction_of validate_control_message is_ok
  known-Yields o type direction a =
      if-Yields (IsGood direction) (type ≈ "hello") (decode_hello json double o) _
        (client_branch type "hello" direction (decode_hello json double o) a refl (hello-Yields o))
        (if-Yields (IsGood direction) (type ≈ "synthesize") (decode_synthesize json double o) _
          (client_branch type "synthesize" direction (decode_synthesize json double o) a refl
            (synthesize-Yields o))
          (if-Yields (IsGood direction) (type ≈ "cancel") (ok cancel_message) _
            (client_branch type "cancel" direction (ok cancel_message) a refl (refl, refl))
            (if-Yields (IsGood direction) (type ≈ "ping") (decode_ping json double o) _
              (client_branch type "ping" direction (decode_ping json double o) a refl
                (ping-Yields o))
              (if-Yields (IsGood direction) (type ≈ "shutdown") (decode_shutdown json double o) _
                (client_branch type "shutdown" direction (decode_shutdown json double o) a refl
                  (stop-Yields o))
                (if-Yields (IsGood direction) (type ≈ "ready") (decode_ready json double o) _
                  (worker_branch type "ready" direction (decode_ready json double o) a refl
                    (ready-Yields o))
                  (if-Yields (IsGood direction) (type ≈ "queued") (decode_queued json double o) _
                    (worker_branch type "queued" direction (decode_queued json double o) a refl
                      (queued-Yields o))
                    (if-Yields (IsGood direction) (type ≈ "started") (decode_started json double o)
                      _
                      (worker_branch type "started" direction (decode_started json double o) a refl
                        (started-Yields o))
                      (if-Yields (IsGood direction) (type ≈ "completed")
                        (decode_completed json double o) _
                        (worker_branch type "completed" direction (decode_completed json double o) a
                          refl (completed-Yields o))
                        (if-Yields (IsGood direction) (type ≈ "cancelled") (ok cancelled_message) _
                          (worker_branch type "cancelled" direction (ok cancelled_message) a refl
                            (refl, refl))
                          (if-Yields (IsGood direction) (type ≈ "pong") (decode_pong json double o)
                            _
                            (worker_branch type "pong" direction (decode_pong json double o) a refl
                              (pong-Yields o))
                            (if-Yields (IsGood direction) (type ≈ "shutdown_ack")
                              (ok shutdown_ack_message) _
                              (worker_branch type "shutdown_ack" direction (ok shutdown_ack_message)
                                a refl (refl, refl))
                              (tt))))))))))))

  typed-Yields :
      (o : J) (direction : ControlMessageDirection) (type : String)
      → Yields (IsGood direction) (decode_typed json double o direction type)
  unfolding decode_typed fails
  typed-Yields o direction type = elim (Bool-cases (direction_allows type direction)) [
    | inl a ↦
        if-Yields (IsGood direction)
          (not (is_client_to_worker_message type || is_worker_to_client_message type)) _ _ (λ _. tt)
          (if-Yields (IsGood direction) (not (direction_allows type direction)) _ _ (λ _. tt)
            (known-Yields o type direction a))
    | inr a ↦ rw a (
        if-Yields (IsGood direction)
          (not (is_client_to_worker_message type || is_worker_to_client_message type)) _ _ (λ _. tt)
          tt)
  ]

  string-Yields :
      (o : J) (direction : ControlMessageDirection) (name : Option String)
      → Yields (IsGood direction) (elim name [
        | none ↦ fails invalid_message_type "message_type must be a string"
        | some n ↦ decode_typed json double o direction n
      ])
  unfolding fails
  string-Yields o direction none = tt
  string-Yields o direction (some n) = typed-Yields o direction n

  name-Yields :
      (o : J) (direction : ControlMessageDirection) (type : Option J)
      → Yields (IsGood direction) (elim type [
        | none ↦ fails missing_message_type "missing message_type"
        | some j ↦ elim (json.as_string j) [
          | none ↦ fails invalid_message_type "message_type must be a string"
          | some n ↦ decode_typed json double o direction n
        ]
      ])
  unfolding fails
  name-Yields o direction none = tt
  name-Yields o direction (some j) = string-Yields o direction (json.as_string j)

  object-Yields :
      (o : J) (direction : ControlMessageDirection)
      → Yields (IsGood direction) (decode_control_object json double o direction)
  unfolding decode_control_object fails
  object-Yields o direction =
      if-Yields (IsGood direction) (not (json.is_object o)) _ _ (λ _. tt)
        (if-Yields (IsGood direction) (has_forbidden_header_field json o) _ _ (λ _. tt)
          (name-Yields o direction (json.find_field o "message_type")))

  parsed-Yields :
      (p : Parsed J) (direction : ControlMessageDirection)
      → Yields (IsGood direction) (decode_parsed json double p direction)
  unfolding decode_parsed fails
  parsed-Yields (value j) direction = object-Yields j direction
  parsed-Yields _ direction = tt

  -- Whatever the JSON library makes of a payload: each message that decoding it returns passes the
  -- checks of a message, and goes in the direction that was asked for.
  pub decode_parsed-IsGood :
      (payload : List ℕ) (direction : ControlMessageDirection) (m : ControlMessage D)
      → decode_parsed json double (json.parse payload) direction ≡ ok m
      → IsGood direction m
  decode_parsed-IsGood payload direction m e =
      rw e at (parsed-Yields (json.parse payload) direction)
