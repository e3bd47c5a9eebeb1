-- ===== src/Framing/Codec.antt =====
-- src/qwen_tts_bridge/protocol/framing/frame_codec.cpp: frames to bytes.
-- `v & 0xff` is `v % 256` and `v >> k` is `v / 2 ^ k`.
pub mod Outcomes
use qwen3_tts_bridge_cpp.Common.{
  ℕ, zero, suc, ◌+◌, ◌*◌, ◌/◌, ◌%◌, ◌^◌, List, [], ◌∷◌, ◌++◌, Bool, not, ◌||◌, String, length, ltb,
  ◌==◌, ◌!=◌, if◌then◌else◌,
}
use qwen3_tts_bridge_cpp.Common.Words.{u32_max}
use qwen3_tts_bridge_cpp.Data.{
  FrameType, control_json, audio_pcm, error_json, unlisted, EncodeError, FrameHeader, EncodeResult,
  default_header, protocol_version, min_header_size, max_control_payload_bytes,
  max_audio_payload_bytes, max_error_payload_bytes, max_frame_payload_bytes,
}

-- 'Q', 'T', 'B', '1'.
abbrev pub magic : List ℕ
magic = b'Q' ∷ b'T' ∷ b'B' ∷ b'1' ∷ []

unfoldable pub write_u16_le : List ℕ → ℕ → List ℕ
write_u16_le out value = out ++ (value % 256 ∷ value / 2 ^ 8 % 256 ∷ [])

unfoldable pub write_u32_le : List ℕ → ℕ → List ℕ
write_u32_le out value =
    out ++ (value % 256 ∷ value / 2 ^ 8 % 256 ∷ value / 2 ^ 16 % 256 ∷ value / 2 ^ 24 % 256 ∷ [])

-- The loop's rounds from `i` on.
write_bytes_from : ℕ → ℕ → List ℕ → ℕ → List ℕ
write_bytes_from zero i out value = out
write_bytes_from (suc rounds) i out value =
    write_bytes_from rounds (i + 1) (out ++ (value / 2 ^ (i * 8) % 256 ∷ [])) value

unfoldable pub write_u64_le : List ℕ → ℕ → List ℕ
unfolding write_bytes_from
write_u64_le out value = write_bytes_from 8 0 out value

-- `static_cast<std::uint16_t>(frame_type)`.
unfoldable pub frame_type_value : FrameType → ℕ
frame_type_value control_json = 1
frame_type_value audio_pcm = 2
frame_type_value error_json = 3
frame_type_value (unlisted v) = v

unfoldable pub is_known_frame_type : ℕ → Bool
is_known_frame_type value = value == 1 || value == 2 || value == 3

unfoldable pub max_payload_size : FrameType → ℕ
max_payload_size control_json = max_control_payload_bytes
max_payload_size audio_pcm = max_audio_payload_bytes
max_payload_size error_json = max_error_payload_bytes
max_payload_size (unlisted v) = 0

unfoldable pub encode_error : EncodeError → String → EncodeResult
encode_error error message = record { bytes = []; error = error; message = message }

-- What the encoder pushes before the payload.
unfoldable pub write_header : FrameHeader → ℕ → List ℕ
unfolding write_u16_le write_u32_le write_u64_le frame_type_value
write_header header size =
    let out = write_u16_le magic header.protocol_version in
    let out = write_u16_le out header.header_size in
    let out = write_u16_le out (frame_type_value header.frame_type) in
    let out = write_u16_le out header.flags in
    let out = write_u32_le out (size % 2 ^ 32) in write_u64_le out header.request_id

-- The overload on a header.
unfoldable pub encode_frame_header : FrameHeader → List ℕ → EncodeResult
unfolding encode_error
encode_frame_header header payload =
    if header.protocol_version != protocol_version
    then encode_error EncodeError.unsupported_protocol_version "unsupported protocol version"
    else if header.header_size != min_header_size
    then encode_error EncodeError.unsupported_header_size "v1 encoder cannot emit header extensions"
    else if not (is_known_frame_type (frame_type_value header.frame_type))
    then encode_error EncodeError.unknown_frame_type "unknown frame type"
    else if header.flags != 0
    then encode_error EncodeError.unsupported_flags "unsupported frame flags"
    else if ltb u32_max (length payload)
    then encode_error EncodeError.payload_too_large "payload size exceeds uint32 limit"
    else if header.payload_size != length payload
    then encode_error EncodeError.payload_size_mismatch
        "header payload_size does not match payload bytes"
    else if ltb max_frame_payload_bytes (length payload)
        || ltb (max_payload_size header.frame_type) (length payload)
    then encode_error EncodeError.payload_too_large "payload size exceeds v1 limit"
    else record {
      bytes = write_header header (length payload) ++ payload;
      error = EncodeError.no_error;
      message = "";
    }

-- The overload on a frame type and a request.
unfoldable pub encode_frame : FrameType → ℕ → List ℕ → EncodeResult
unfolding encode_frame_header
encode_frame frame_type request_id payload =
    encode_frame_header
      (record default_header {
        frame_type = frame_type;
        request_id = request_id;
        payload_size = length payload % 2 ^ 32;
      })
      payload
