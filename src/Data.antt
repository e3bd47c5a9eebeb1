-- ===== src/Data.antt =====
-- src/qwen_tts_bridge/data (enums.hpp, protocol_types.hpp, audio_types.hpp): the protocol's
-- constants and the values that the bridge's parts exchange. A byte vector is a list of numbers,
-- and `IsByte` is what makes one of its elements a `std::byte`.
use qwen3_tts_bridge_cpp.Common.{ℕ, ◌*◌, ◌^◌, ◌<◌, List, String}

abbrev pub IsByte : ℕ → Type 0
IsByte b = b < 256

abbrev pub IsU16 : ℕ → Type 0
IsU16 v = v < 2 ^ 16

abbrev pub IsU32 : ℕ → Type 0
IsU32 v = v < 2 ^ 32

abbrev pub IsU64 : ℕ → Type 0
IsU64 v = v < 2 ^ 64

-- `struct ProtocolLimits`.
abbrev pub protocol_version : ℕ
protocol_version = 1

abbrev pub min_header_size : ℕ
min_header_size = 24

abbrev pub max_header_size : ℕ
max_header_size = 256

abbrev pub max_control_payload_bytes : ℕ
max_control_payload_bytes = 1024 * 1024

abbrev pub max_audio_payload_bytes : ℕ
max_audio_payload_bytes = 16 * 1024 * 1024

abbrev pub max_error_payload_bytes : ℕ
max_error_payload_bytes = 1024 * 1024

abbrev pub max_frame_payload_bytes : ℕ
max_frame_payload_bytes = 16 * 1024 * 1024

-- The enum stands on `std::uint16_t`, so a value of it may be none of the three: `unlisted`.
pub data FrameType : Type 0 where
  control_json audio_pcm error_json : FrameType
  unlisted : ℕ → FrameType

pub data ParseStatus : Type 0 where
  need_more_data frame_ready fatal_error : ParseStatus

pub data ProtocolError : Type 0 where
  no_error invalid_magic unsupported_protocol_version header_too_small : ProtocolError
  header_too_large unknown_frame_type unsupported_flags payload_too_large : ProtocolError

pub data EncodeError : Type 0 where
  no_error unsupported_protocol_version unsupported_header_size unknown_frame_type : EncodeError
  unsupported_flags payload_size_mismatch payload_too_large : EncodeError

pub record FrameHeader : Type 0 where
  pub protocol_version : ℕ
  pub header_size : ℕ
  pub frame_type : FrameType
  pub flags : ℕ
  pub payload_size : ℕ
  pub request_id : ℕ

pub record Frame : Type 0 where
  pub header : FrameHeader
  pub payload : List ℕ

-- The member initializers of `FrameHeader`.
abbrev pub default_header : FrameHeader
default_header = record {
  protocol_version = protocol_version;
  header_size = min_header_size;
  frame_type = control_json;
  flags = 0;
  payload_size = 0;
  request_id = 0;
}

pub record ParseResult : Type 0 where
  pub status : ParseStatus
  pub error : ProtocolError
  pub message : String
  pub frame : Frame

pub record EncodeResult : Type 0 where
  pub bytes : List ℕ
  pub error : EncodeError
  pub message : String

pub record AudioFormat : Type 0 where
  pub sample_format : String
  pub sample_rate : ℕ
  pub channels : ℕ

pub record PcmChunk : Type 0 where
  pub request_id : ℕ
  pub format : AudioFormat
  pub bytes : List ℕ
  pub first_sample : ℕ
  pub sample_count : ℕ

pub record SpeechTimingChunk : Type 0 where
  pub request_id : ℕ
  pub first_sample : ℕ
  pub sample_count : ℕ
  pub sample_rate : ℕ
