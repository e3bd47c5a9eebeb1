-- ===== src/Framing/Parser.antt =====
-- src/qwen_tts_bridge/protocol/framing/frame_parser.cpp: the incremental parser.
pub mod Bytes
pub mod Decode
pub mod Refines
pub mod Prefix
pub mod Stream
pub mod Safety
use qwen3_tts_bridge_cpp.Common.{
  ℕ, zero, suc, ◌+◌, ◌-◌, ◌*◌, ◌/◌, ◌%◌, ◌^◌, bit_or, List, [], ◌∷◌, ◌++◌, Bool, true, false, not,
  ◌||◌, Option, none, some, String, length, get_or, take, drop, ltb, leb, ◌==◌, ◌!=◌, if◌then◌else◌,
}
use qwen3_tts_bridge_cpp.Common.Words.{add_u64, sub_u64}
use qwen3_tts_bridge_cpp.Data.{
  FrameType, control_json, audio_pcm, error_json, unlisted, Frame, ParseResult, ParseStatus,
  need_more_data, frame_ready, ProtocolError, default_header, protocol_version, min_header_size,
  max_header_size, max_frame_payload_bytes,
}
use qwen3_tts_bridge_cpp.Framing.Codec.{magic, is_known_frame_type, max_payload_size}

-- `data[i]`; the callers have checked that it is there.
abbrev pub byte_at : List ℕ → ℕ → ℕ
byte_at bytes i = get_or bytes i 0

unfoldable pub read_u16_le : List ℕ → ℕ
read_u16_le bytes = bit_or (byte_at bytes 0) (byte_at bytes 1 * 2 ^ 8) % 2 ^ 16

unfoldable pub read_u32_le : List ℕ → ℕ
read_u32_le bytes =
    bit_or (bit_or (bit_or (byte_at bytes 0) (byte_at bytes 1 * 2 ^ 8)) (byte_at bytes 2 * 2 ^ 16))
      (byte_at bytes 3 * 2 ^ 24)
    % 2 ^ 32

-- The loop's rounds from `i` on.
unfoldable pub read_bytes_from : ℕ → ℕ → List ℕ → ℕ → ℕ
read_bytes_from zero i bytes value = value
read_bytes_from (suc rounds) i bytes value =
    read_bytes_from rounds (i + 1) bytes (bit_or value (byte_at bytes i * 2 ^ (i * 8) % 2 ^ 64))

unfoldable pub read_u64_le : List ℕ → ℕ
unfolding read_bytes_from
read_u64_le bytes = read_bytes_from 8 0 bytes 0

unfoldable pub to_frame_type : ℕ → FrameType
to_frame_type value =
    if value == 1
    then control_json
    else if value == 2
    then audio_pcm
    else if value == 3
    then error_json
    else unlisted value

-- The loop of `has_magic`, over the magic bytes that are left and their index.
magic_from : List ℕ → ℕ → List ℕ → Bool
magic_from [] i bytes = true
magic_from (m ∷ ms) i bytes =
    let rest = magic_from ms (i + 1) bytes in if byte_at bytes i != m then false else rest

unfoldable pub has_magic : List ℕ → Bool
unfolding magic_from
has_magic bytes = magic_from magic 0 bytes

-- The six integers that `parse_next` reads behind the magic.
pub record RawHeader : Type 0 where
  pub protocol_version : ℕ
  pub header_size : ℕ
  pub type_value : ℕ
  pub flags : ℕ
  pub payload_size : ℕ
  pub request_id : ℕ

unfoldable pub read_header : List ℕ → RawHeader
read_header bytes = record {
  protocol_version = read_u16_le (drop 4 bytes);
  header_size = read_u16_le (drop 6 bytes);
  type_value = read_u16_le (drop 8 bytes);
  flags = read_u16_le (drop 10 bytes);
  payload_size = read_u32_le (drop 12 bytes);
  request_id = read_u64_le (drop 16 bytes);
}

-- A framing error with its diagnostic text.
pub record Fault : Type 0 where
  pub error : ProtocolError
  pub message : String

abbrev fault : ProtocolError → String → Option Fault
fault error message = some (record { error = error; message = message })

-- The guards of `parse_next` behind the magic, in their order.
unfoldable pub header_fault : RawHeader → Option Fault
header_fault h =
    if h.protocol_version != protocol_version
    then fault ProtocolError.unsupported_protocol_version "unsupported protocol version"
    else if ltb h.header_size min_header_size
    then fault ProtocolError.header_too_small "header size is smaller than v1 minimum"
    else if ltb max_header_size h.header_size
    then fault ProtocolError.header_too_large "header size exceeds v1 maximum"
    else if not (is_known_frame_type h.type_value)
    then fault ProtocolError.unknown_frame_type "unknown frame type"
    else if h.flags != 0
    then fault ProtocolError.unsupported_flags "unsupported frame flags"
    else if ltb max_frame_payload_bytes h.payload_size
        || ltb (max_payload_size (to_frame_type h.type_value)) h.payload_size
    then fault ProtocolError.payload_too_large "payload size exceeds v1 limit"
    else if ltb (add_u64 h.header_size h.payload_size) h.header_size
    then fault ProtocolError.payload_too_large "frame size overflow"
    else none

pub record FrameParser : Type 0 where
  pub buffer : List ℕ
  pub read_offset : ℕ
  pub fatal : Bool
  pub fatal_error : ProtocolError
  pub fatal_message : String

abbrev pub new_parser : FrameParser
new_parser = record {
  buffer = [];
  read_offset = 0;
  fatal = false;
  fatal_error = ProtocolError.no_error;
  fatal_message = "";
}

-- `append` of a vector; the overload on a pointer ignores a null one and the size 0.
unfoldable pub append : FrameParser → List ℕ → FrameParser
append p bytes = if p.fatal || length bytes == 0 then p else record p { buffer = p.buffer ++ bytes }

unfoldable pub buffered_size : FrameParser → ℕ
buffered_size p = sub_u64 (length p.buffer) p.read_offset

unfoldable pub clear : FrameParser → FrameParser
clear p = new_parser

abbrev pub empty_frame : Frame
empty_frame = record { header = default_header; payload = [] }

-- `ParseResult()`.
abbrev pub need_more_result : ParseResult
need_more_result = record {
  status = need_more_data;
  error = ProtocolError.no_error;
  message = "";
  frame = empty_frame;
}

-- `fatal(error, message)`.
abbrev pub fatal_result : Fault → ParseResult
fatal_result f = record {
  status = ParseStatus.fatal_error;
  error = f.error;
  message = f.message;
  frame = empty_frame;
}

abbrev pub ready_result : Frame → ParseResult
ready_result frame = record {
  status = frame_ready;
  error = ProtocolError.no_error;
  message = "";
  frame = frame;
}

unfoldable pub make_fatal : FrameParser → Fault → FrameParser × ParseResult
make_fatal p f =
    (record p { fatal = true; fatal_error = f.error; fatal_message = f.message }, fatal_result f)

abbrev pub compact_threshold : ℕ
compact_threshold = 64 * 1024

unfoldable pub compact_buffer : FrameParser → FrameParser
compact_buffer p =
    if p.read_offset == 0
    then p
    else if p.read_offset == length p.buffer
    then record p { buffer = []; read_offset = 0 }
    else if leb compact_threshold p.read_offset || ltb (length p.buffer / 2) p.read_offset
    then record p { buffer = drop p.read_offset p.buffer; read_offset = 0 }
    else p

abbrev pub frame_of : RawHeader → List ℕ → Frame
frame_of h payload = record {
  header = record {
    protocol_version = h.protocol_version;
    header_size = h.header_size;
    frame_type = to_frame_type h.type_value;
    flags = h.flags;
    payload_size = h.payload_size;
    request_id = h.request_id;
  };
  payload = payload;
}

-- The end of `parse_next`, once the header has passed its guards.
unfoldable pub take_frame : FrameParser → RawHeader → FrameParser × ParseResult
take_frame p h =
    let total = add_u64 h.header_size h.payload_size in
    let body = take (total - h.header_size) (drop (p.read_offset + h.header_size) p.buffer) in
    if ltb (buffered_size p) total then (p, need_more_result) else (
      compact_buffer (record p { read_offset = p.read_offset + total }),
      ready_result (frame_of h body),
    )

unfoldable pub parse_header : FrameParser → List ℕ → FrameParser × ParseResult
parse_header p bytes =
    if not (has_magic bytes)
    then make_fatal p
        (record { error = ProtocolError.invalid_magic; message = "invalid frame magic" })
    else elim (header_fault (read_header bytes)) [
      | some f ↦ make_fatal p f
      | none ↦ take_frame p (read_header bytes)
    ]

unfoldable pub parse_next : FrameParser → FrameParser × ParseResult
parse_next p =
    if p.fatal
    then (p, fatal_result (record { error = p.fatal_error; message = p.fatal_message }))
    else if ltb (buffered_size p) min_header_size
    then (p, need_more_result)
    else parse_header p (drop p.read_offset p.buffer)
