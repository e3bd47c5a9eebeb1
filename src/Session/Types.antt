-- ===== src/Session/Types.antt =====
-- src/qwen_tts_bridge/session/worker_session.hpp and the first helpers of worker_session.cpp: the
-- session's types. `D` is the type `double`.
use qwen3_tts_bridge_cpp.Common.{
  ℕ, ◌+◌, String, len, Bool, true, false, List, [], if◌then◌else◌, length,
}
use qwen3_tts_bridge_cpp.Common.Int.{ℤ, pos}
use qwen3_tts_bridge_cpp.Framing.Parser.{FrameParser, new_parser}
use qwen3_tts_bridge_cpp.Control.Messages.{
  ControlMessage, ControlMessageType, hello_message, synthesize_message, shutdown_message,
  ready_message, started_message, SynthesizeMessage, ReadyMessage, ErrorMessage,
}

pub record WorkerSessionOptions : Type 0 where
  pub client_name : String
  pub client_version : String
  pub max_event_queue_events : ℕ
  pub max_event_queue_bytes : ℕ

pub data WorkerSessionEventType : Type 0 where
  control audio worker_error transport_error protocol_error session_error exited :
      WorkerSessionEventType

pub data WorkerSessionState : Type 0 where
  stopped starting ready stopping failed exited : WorkerSessionState

pub data SendResult : Type 0 where
  accepted would_block closed failed : SendResult

abbrev pub empty_error : ErrorMessage
empty_error = record { category = ""; code = ""; message = "" }

-- `ControlMessage()` holds an empty `HelloMessage`.
abbrev pub empty_control : {D : Type 0} → ControlMessage D
empty_control = hello_message (record { client_name = ""; client_version = "" })

unfoldable pub is_client_to_worker_control : ControlMessageType → Bool
is_client_to_worker_control ControlMessageType.hello = true
is_client_to_worker_control ControlMessageType.synthesize = true
is_client_to_worker_control ControlMessageType.cancel = true
is_client_to_worker_control ControlMessageType.ping = true
is_client_to_worker_control ControlMessageType.shutdown = true
is_client_to_worker_control _ = false

unfoldable pub is_session_level_worker_control : ControlMessageType → Bool
is_session_level_worker_control ControlMessageType.ready = true
is_session_level_worker_control ControlMessageType.pong = true
is_session_level_worker_control ControlMessageType.shutdown_ack = true
is_session_level_worker_control _ = false

unfoldable pub is_request_level_worker_control : ControlMessageType → Bool
is_request_level_worker_control ControlMessageType.queued = true
is_request_level_worker_control ControlMessageType.started = true
is_request_level_worker_control ControlMessageType.completed = true
is_request_level_worker_control ControlMessageType.cancelled = true
is_request_level_worker_control _ = false

unfoldable pub send_result_message : SendResult → String
send_result_message SendResult.would_block = "transport would block while sending control frame"
send_result_message SendResult.closed = "transport is closed while sending control frame"
send_result_message SendResult.failed = "transport failed to send control frame"
send_result_message SendResult.accepted = "transport rejected outbound control frame"

pub record WorkerSessionEvent (D : Type 0) : Type 0 where
  pub kind : WorkerSessionEventType
  pub request_id : ℕ
  pub control : ControlMessage D
  pub error : ErrorMessage
  pub audio : List ℕ
  pub exit_status : ℤ
  pub message : String

-- The member initializers of `WorkerSessionEvent`.
abbrev pub empty_event : {D : Type 0} → WorkerSessionEvent D
empty_event = record {
  kind = WorkerSessionEventType.session_error;
  request_id = 0;
  control = empty_control;
  error = empty_error;
  audio = [];
  exit_status = pos 0;
  message = "";
}

abbrev pub make_session_error : {D : Type 0} → String → WorkerSessionEvent D
make_session_error message = record empty_event {
  kind = WorkerSessionEventType.session_error;
  message = message;
}

abbrev pub make_protocol_error : {D : Type 0} → String → WorkerSessionEvent D
make_protocol_error message = record empty_event {
  kind = WorkerSessionEventType.protocol_error;
  message = message;
}

abbrev pub make_transport_error : {D : Type 0} → String → WorkerSessionEvent D
make_transport_error message = record empty_event {
  kind = WorkerSessionEventType.transport_error;
  message = message;
}

unfoldable pub synthesize_payload_size : {D : Type 0} → SynthesizeMessage D → ℕ
synthesize_payload_size m =
    len m.text
    + len m.language
    + len m.speaker
    + len m.instruction
    + len m.voice_id
    + len m.reference_audio_path
    + len m.reference_text
    + len m.output.sample_format
    + (if m.has_seed then 32 else 0)

unfoldable pub control_payload_size : {D : Type 0} → ControlMessage D → ℕ
control_payload_size (hello_message m) = len m.client_name + len m.client_version
control_payload_size (synthesize_message m) = synthesize_payload_size m
control_payload_size (shutdown_message m) = len m.mode
control_payload_size (ready_message m) = len m.worker_version + len m.session_id
control_payload_size (started_message m) = len m.audio_format.sample_format
control_payload_size _ = 0

unfoldable pub event_payload_size : {D : Type 0} → WorkerSessionEvent D → ℕ
event_payload_size e =
    length e.audio
    + control_payload_size e.control
    + len e.message
    + len e.error.category
    + len e.error.code
    + len e.error.message

-- `ReadyMessage()`.
abbrev pub empty_ready : ReadyMessage
empty_ready = record {
  worker_version = "";
  session_id = "";
  has_warmed_up = false;
  warmed_up = false;
  capabilities = record {
    streaming = false;
    cancellation = false;
    instructions = false;
    voice_clone = false;
    sampling_overrides = false;
    deterministic_seed = false;
    voice_clone_streaming = false;
    voice_profiles = false;
  };
  voice_ids = [];
}

-- The class. `has_transport` is `transport_ != nullptr`.
pub record WorkerSession (D : Type 0) : Type 0 where
  pub has_transport : Bool
  pub options : WorkerSessionOptions
  pub parser : FrameParser
  pub events : List (WorkerSessionEvent D)
  pub queued_event_bytes : ℕ
  pub state : WorkerSessionState
  pub event_queue_overflowed : Bool
  pub start_attempted : Bool
  pub shutdown_requested : Bool
  pub ready_message : ReadyMessage

-- The constructor.
unfoldable pub make_session : {D : Type 0} → Bool → WorkerSessionOptions → WorkerSession D
make_session has_transport options = record {
  has_transport = has_transport;
  options = options;
  parser = new_parser;
  events = [];
  queued_event_bytes = 0;
  state = WorkerSessionState.stopped;
  event_queue_overflowed = false;
  start_attempted = false;
  shutdown_requested = false;
  ready_message = empty_ready;
}

-- The two states in which a failure moves the session to `failed`.
unfoldable pub is_live : WorkerSessionState → Bool
is_live WorkerSessionState.starting = true
is_live WorkerSessionState.ready = true
is_live _ = false

unfoldable pub is_starting : WorkerSessionState → Bool
is_starting WorkerSessionState.starting = true
is_starting _ = false

unfoldable pub is_ready_state : WorkerSessionState → Bool
is_ready_state WorkerSessionState.ready = true
is_ready_state _ = false

unfoldable pub is_ready_type : ControlMessageType → Bool
is_ready_type ControlMessageType.ready = true
is_ready_type _ = false

unfoldable pub is_shutdown_type : ControlMessageType → Bool
is_shutdown_type ControlMessageType.shutdown = true
is_shutdown_type _ = false

unfoldable pub is_shutdown_ack_type : ControlMessageType → Bool
is_shutdown_ack_type ControlMessageType.shutdown_ack = true
is_shutdown_ack_type _ = false
