-- ===== src/Framing/Parser/Decode.antt =====
-- The specification of `parse_next`: what the bytes that have arrived say, with no buffer, offset
-- or compaction.
use qwen3_tts_bridge_cpp.Common.{
  ℕ, ◌+◌, ◌≤◌, ◌≡◌, List, true, not, arith, some, none, length, take, drop, ltb, if◌then◌else◌,
}
use qwen3_tts_bridge_cpp.Data.{Frame, ProtocolError, min_header_size}
use qwen3_tts_bridge_cpp.Framing.Parser.{
  RawHeader, Fault, has_magic, read_header, header_fault, frame_of,
}

pub data Decoded : Type 0 where
  need_more : Decoded
  failed : Fault → Decoded
  ready : Frame → List ℕ → Decoded

abbrev pub invalid_magic_fault : Fault
invalid_magic_fault = record {
  error = ProtocolError.invalid_magic;
  message = "invalid frame magic";
}

unfoldable pub decode_frame : RawHeader → List ℕ → Decoded
decode_frame h bytes =
    if ltb (length bytes) (h.header_size + h.payload_size)
    then need_more
    else ready (frame_of h (take h.payload_size (drop h.header_size bytes)))
        (drop (h.header_size + h.payload_size) bytes)

unfoldable pub decode_header : List ℕ → Decoded
unfolding decode_frame
decode_header bytes =
    if not (has_magic bytes)
    then failed invalid_magic_fault
    else elim (header_fault (read_header bytes)) [
      | some f ↦ failed f
      | none ↦ decode_frame (read_header bytes) bytes
    ]

unfoldable pub decode : List ℕ → Decoded
unfolding decode_header
decode bytes = if ltb (length bytes) min_header_size then need_more else decode_header bytes

module _ (bytes : List ℕ) (h : RawHeader) where
  -- A whole frame stands at the front of `bytes`, and `h` is its header.
  pub record HoldsFrame : Type 0 where
    pub magic : has_magic bytes ≡ true
    pub header : read_header bytes ≡ h
    pub sound : header_fault h ≡ none
    pub minimum : 24 ≤ length bytes
    pub whole : h.header_size + h.payload_size ≤ length bytes

  pub decode-HoldsFrame :
      HoldsFrame
      → decode bytes
        ≡ ready
            (frame_of h (take h.payload_size (drop h.header_size bytes)))
            (drop (h.header_size + h.payload_size) bytes)
  unfolding decode
  decode-HoldsFrame v = rw (v.header) (ground arith)

-- `decode` yields a frame only there.
pub HoldsFrame-decode :
    (bytes : List ℕ) {frame : Frame} {rest : List ℕ}
    → decode bytes ≡ ready frame rest
    → (h : RawHeader) × HoldsFrame bytes h
      × (frame ≡ frame_of h (take h.payload_size (drop h.header_size bytes)))
      × (rest ≡ drop (h.header_size + h.payload_size) bytes)
unfolding decode
HoldsFrame-decode bytes e = (read_header bytes, ground arith, ground arith, ground arith)
