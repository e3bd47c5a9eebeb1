-- ===== src/Framing/Codec/Outcomes.antt =====
-- What the encoder answers, for each header and payload.
use qwen3_tts_bridge_cpp.Common.{
  ℕ, ◌+◌, ◌*◌, ◌≤◌, ◌≡◌, refl, ◌≢◌, ◌↔◌, ◌⊎◌, true, List, [], ◌++◌, arith, length, length-append,
}
use qwen3_tts_bridge_cpp.Data.{
  FrameType, FrameHeader, EncodeError, control_json, audio_pcm, error_json, unlisted,
}
use qwen3_tts_bridge_cpp.Framing.Codec.{
  is_known_frame_type, frame_type_value, max_payload_size, write_header, encode_frame_header,
  encode_frame,
}

-- The frames that the encoder takes, and what it makes of them.
pub record Encoded (h : FrameHeader) (payload : List ℕ) : Type 0 where
  pub version : h.protocol_version ≡ 1
  pub header_size : h.header_size ≡ 24
  pub known : is_known_frame_type (frame_type_value h.frame_type) ≡ true
  pub flags : h.flags ≡ 0
  pub size : h.payload_size ≡ length payload
  pub small : length payload ≤ 16 * 1024 * 1024
  pub fits : length payload ≤ max_payload_size h.frame_type
  pub bytes : (encode_frame_header h payload).bytes ≡ write_header h (length payload) ++ payload

pub encode_frame_header-Encoded :
    (h : FrameHeader) (payload : List ℕ)
    → (encode_frame_header h payload).error ≡ EncodeError.no_error
    → Encoded h payload
unfolding encode_frame_header
encode_frame_header-Encoded h payload e = ground arith

max_payload_size-le : (t : FrameType) → max_payload_size t ≤ 16 * 1024 * 1024
unfolding max_payload_size
max_payload_size-le control_json = omega arith
max_payload_size-le audio_pcm = omega arith
max_payload_size-le error_json = omega arith
max_payload_size-le (unlisted v) = omega arith

length-write_header : (h : FrameHeader) (n : ℕ) → length (write_header h n) ≡ 24
unfolding write_header
length-write_header h n = refl

-- The encoder that takes a frame type succeeds exactly when the type is known and the payload is
-- within the type's limit.
pub encode_frame_succeeds :
    (t : FrameType) (request_id : ℕ) (payload : List ℕ)
    → ((encode_frame t request_id payload).error ≡ EncodeError.no_error)
      ↔ ((is_known_frame_type (frame_type_value t) ≡ true) × (length payload ≤ max_payload_size t))
unfolding encode_frame encode_frame_header
encode_frame_succeeds t request_id payload =
    (λ e. ground arith, λ h. ground (arith, max_payload_size-le t))

-- A result with no error holds 24 bytes more than the payload, and any other holds none.
pub length-encode_frame_header :
    (h : FrameHeader) (payload : List ℕ)
    → let r = encode_frame_header h payload in
      ((r.error ≡ EncodeError.no_error) × (length r.bytes ≡ 24 + length payload))
      ⊎ ((r.error ≢ EncodeError.no_error) × (r.bytes ≡ []))
unfolding encode_frame_header
length-encode_frame_header h payload = ground (
  arith,
  length-append (write_header h (length payload)) payload,
  length-write_header h (length payload),
)
