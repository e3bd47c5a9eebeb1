-- ===== src/Control/Messages.antt =====
-- src/qwen_tts_bridge/protocol/control/control_messages.hpp and control_codec.cpp: the messages.
-- `D` is the type `double`, of which this file uses nothing.
use qwen3_tts_bridge_cpp.Common.{ℕ, String, Bool, true, false, Option, List}
use qwen3_tts_bridge_cpp.Data.{AudioFormat}

pub data ControlMessageDirection : Type 0 where
  client_to_worker worker_to_client : ControlMessageDirection

pub data ControlMessageType : Type 0 where
  hello synthesize cancel ping shutdown ready queued started : ControlMessageType
  completed cancelled pong shutdown_ack : ControlMessageType

pub data ControlCodecError : Type 0 where
  no_error invalid_json payload_not_object missing_message_type : ControlCodecError
  invalid_message_type unknown_message_type invalid_message_direction : ControlCodecError
  missing_required_field invalid_field_type forbidden_field unknown_field : ControlCodecError
  encode_failed : ControlCodecError

pub record WorkerCapabilities : Type 0 where
  pub streaming : Bool
  pub cancellation : Bool
  pub instructions : Bool
  pub voice_clone : Bool
  pub sampling_overrides : Bool
  pub deterministic_seed : Bool
  pub voice_clone_streaming : Bool
  pub voice_profiles : Bool

pub record HelloMessage : Type 0 where
  pub client_name : String
  pub client_version : String

pub record SynthesisSamplingOptions (D : Type 0) : Type 0 where
  pub temperature : Option D
  pub top_k : Option ℕ
  pub top_p : Option D
  pub repetition_penalty : Option D
  pub do_sample : Option Bool

pub record SynthesizeMessage (D : Type 0) : Type 0 where
  pub text : String
  pub language : String
  pub speaker : String
  pub instruction : String
  pub voice_id : String
  pub reference_audio_path : String
  pub reference_text : String
  pub x_vector_only : Bool
  pub has_seed : Bool
  pub seed : ℕ
  pub sampling : SynthesisSamplingOptions D
  pub output : AudioFormat

pub record PingMessage : Type 0 where
  pub has_sequence : Bool
  pub sequence : ℕ

pub record ShutdownMessage : Type 0 where
  pub mode : String

pub record ReadyMessage : Type 0 where
  pub worker_version : String
  pub session_id : String
  pub has_warmed_up : Bool
  pub warmed_up : Bool
  pub capabilities : WorkerCapabilities
  pub voice_ids : List String

pub record QueuedMessage : Type 0 where
  pub has_position : Bool
  pub position : ℕ

pub record StartedMessage : Type 0 where
  pub audio_format : AudioFormat

pub record GenerationTrace : Type 0 where
  pub termination_reason : String
  pub hit_eos : Bool
  pub hit_max_seq_len : Bool
  pub hit_max_new_tokens : Bool
  pub codec_frame_count : ℕ
  pub generated_steps : ℕ
  pub emitted_steps : ℕ
  pub terminal_step_index : ℕ

pub record CompletedMessage : Type 0 where
  pub has_execution_outcome : Bool
  pub execution_outcome : String
  pub has_generation_trace : Bool
  pub generation_trace : GenerationTrace

pub record PongMessage : Type 0 where
  pub has_sequence : Bool
  pub sequence : ℕ

-- The variant. The messages with no field are constructors with none.
pub data ControlMessage (D : Type 0) : Type 0 where
  hello_message : HelloMessage → ControlMessage D
  synthesize_message : SynthesizeMessage D → ControlMessage D
  cancel_message : ControlMessage D
  ping_message : PingMessage → ControlMessage D
  shutdown_message : ShutdownMessage → ControlMessage D
  ready_message : ReadyMessage → ControlMessage D
  queued_message : QueuedMessage → ControlMessage D
  started_message : StartedMessage → ControlMessage D
  completed_message : CompletedMessage → ControlMessage D
  cancelled_message : ControlMessage D
  pong_message : PongMessage → ControlMessage D
  shutdown_ack_message : ControlMessage D

unfoldable pub control_message_type : {D : Type 0} → ControlMessage D → ControlMessageType
control_message_type (hello_message m) = hello
control_message_type (synthesize_message m) = synthesize
control_message_type cancel_message = cancel
control_message_type (ping_message m) = ping
control_message_type (shutdown_message m) = shutdown
control_message_type (ready_message m) = ready
control_message_type (queued_message m) = queued
control_message_type (started_message m) = started
control_message_type (completed_message m) = completed
control_message_type cancelled_message = cancelled
control_message_type (pong_message m) = pong
control_message_type shutdown_ack_message = shutdown_ack

pub record ErrorMessage : Type 0 where
  pub category : String
  pub code : String
  pub message : String

pub record ControlDecodeResult (D : Type 0) : Type 0 where
  pub message : ControlMessage D
  pub error : ControlCodecError
  pub diagnostic : String

pub record ErrorDecodeResult : Type 0 where
  pub message : ErrorMessage
  pub error : ControlCodecError
  pub diagnostic : String

pub record JsonPayloadEncodeResult : Type 0 where
  pub payload : List ℕ
  pub error : ControlCodecError
  pub diagnostic : String

-- The results' conversion to `bool`.
unfoldable pub is_ok : ControlCodecError → Bool
is_ok no_error = true
is_ok _ = false

-- The JSON codec, as its callers see it.
pub record ControlCodec (D : Type 0) : Type 0 where
  pub encode_control_message : ControlMessage D → JsonPayloadEncodeResult
  pub decode_control_message : List ℕ → ControlMessageDirection → ControlDecodeResult D
  pub decode_error_message : List ℕ → ErrorDecodeResult
