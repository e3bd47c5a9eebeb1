-- ===== src/Framing/RoundTrip.antt =====
-- What the encoder writes, the parser reads back.
use qwen3_tts_bridge_cpp.Common.{
  ℕ, ◌+◌, ◌*◌, ◌/◌, ◌%◌, ◌^◌, ◌≡◌, refl, sym, ap, ◌∙◌, List, All, [], ◌∷◌, ◌++◌, true, false, none,
  arith, length, take, drop, length-append, drop-append_self, drop-drop, take-append_self,
}
use mathlib.Core.List.{append_assoc, flatten}
use qwen3_tts_bridge_cpp.Common.Words.{add_u64_small}
use qwen3_tts_bridge_cpp.Data.{
  IsU16, IsU32, IsU64, FrameType, Frame, FrameHeader, EncodeError, control_json, audio_pcm,
  error_json, unlisted,
}
use qwen3_tts_bridge_cpp.Framing.Codec.{
  is_known_frame_type, frame_type_value, write_u32_le, write_u64_le, write_header,
  encode_frame_header,
}
use qwen3_tts_bridge_cpp.Framing.Parser.{
  RawHeader, new_parser, read_u16_le, read_u32_le, read_u64_le, to_frame_type, has_magic,
  read_header, header_fault, frame_of,
}
use qwen3_tts_bridge_cpp.Framing.Codec.Outcomes.{Encoded, encode_frame_header-Encoded}
use qwen3_tts_bridge_cpp.Framing.Parser.Bytes.{read_u16_le_lem, read_u32_le_lem, read_u64_le_lem}
use qwen3_tts_bridge_cpp.Framing.Parser.Stream.{
  split, split_ready, split-nil, feed_all, feed_all-split, fault_of-alive,
}
use qwen3_tts_bridge_cpp.Framing.Parser.Refines.{pending}
use qwen3_tts_bridge_cpp.Framing.Parser.Decode.{HoldsFrame, ready, decode, decode-HoldsFrame}

-- `unlisted` stands for a value that is none of the enumerators.
abbrev pub IsCanonical : FrameType → Type 0
IsCanonical (unlisted v) = is_known_frame_type v ≡ false
IsCanonical _ = Unit {0}

abbrev raw_header : FrameHeader → ℕ → RawHeader
raw_header h size = record {
  protocol_version = h.protocol_version;
  header_size = h.header_size;
  type_value = frame_type_value h.frame_type;
  flags = h.flags;
  payload_size = size;
  request_id = h.request_id;
}

has_magic-write_header :
    (h : FrameHeader) (size : ℕ) (rest : List ℕ) → has_magic (write_header h size ++ rest) ≡ true
unfolding has_magic write_header
has_magic-write_header h size rest = refl

length-write_header :
    (h : FrameHeader) (size : ℕ) (rest : List ℕ)
    → length (write_header h size ++ rest) ≡ 24 + length rest
unfolding write_header
length-write_header h size rest = omega arith

u16_of_bytes : (v : ℕ) → IsU16 v → (v % 256 + v / 2 ^ 8 % 256 * 2 ^ 8) % 2 ^ 16 ≡ v
u16_of_bytes v h = omega arith

u32_round :
    (v : ℕ) → IsU32 v → (rest : List ℕ) → read_u32_le (write_u32_le [] (v % 2 ^ 32) ++ rest) ≡ v
unfolding write_u32_le
u32_round v h rest =
    read_u32_le_lem (v % 2 ^ 32 % 256) _ _ _ rest (omega arith) (omega arith) (omega arith)
    ∙ omega arith

u64_round : (v : ℕ) → IsU64 v → (rest : List ℕ) → read_u64_le (write_u64_le [] v ++ rest) ≡ v
unfolding write_u64_le
u64_round v h rest =
    read_u64_le_lem (v / 2 ^ 0 % 256) _ _ _ _ _ _ _ rest (omega arith) (omega arith) (omega arith)
      (omega arith) (omega arith) (omega arith) (omega arith) (omega arith)
    ∙ omega arith

u16_round : (v : ℕ) → IsU16 v → (rest : List ℕ) → read_u16_le (v % 256 ∷ v / 2 ^ 8 % 256 ∷ rest) ≡ v
u16_round v hv rest = read_u16_le_lem _ _ rest (omega arith) ∙ u16_of_bytes v hv

read_header-write_header :
    (h : FrameHeader) (size : ℕ) (rest : List ℕ)
    → IsU16 h.protocol_version
    → IsU16 h.header_size
    → IsU16 (frame_type_value h.frame_type)
    → IsU16 h.flags
    → IsU32 size
    → IsU64 h.request_id
    → read_header (write_header h size ++ rest) ≡ raw_header h size
unfolding read_header write_header
read_header-write_header h size rest hv hh ht hf hs hr =
    let bytes = write_header h size ++ rest in
    let version : read_u16_le (drop 4 bytes) ≡ h.protocol_version =
      u16_round h.protocol_version hv (drop 6 bytes) in
    let header_size : read_u16_le (drop 6 bytes) ≡ h.header_size =
      u16_round h.header_size hh (drop 8 bytes) in
    let type_value : read_u16_le (drop 8 bytes) ≡ frame_type_value h.frame_type =
      u16_round (frame_type_value h.frame_type) ht (drop 10 bytes) in
    let flags : read_u16_le (drop 10 bytes) ≡ h.flags = u16_round h.flags hf (drop 12 bytes) in
    let payload_size : read_u32_le (drop 12 bytes) ≡ size = u32_round size hs (drop 16 bytes) in
    let request_id : read_u64_le (drop 16 bytes) ≡ h.request_id = u64_round h.request_id hr rest in
    λ i. record {
      protocol_version = version i;
      header_size = header_size i;
      type_value = type_value i;
      flags = flags i;
      payload_size = payload_size i;
      request_id = request_id i;
    }

to_frame_type-frame_type_value :
    (t : FrameType)
    → IsCanonical t
    → is_known_frame_type (frame_type_value t) ≡ true
    → to_frame_type (frame_type_value t) ≡ t
unfolding to_frame_type frame_type_value
to_frame_type-frame_type_value control_json c k = refl
to_frame_type-frame_type_value audio_pcm c k = refl
to_frame_type-frame_type_value error_json c k = refl
to_frame_type-frame_type_value (unlisted v) c k = cc

frame_type_value-IsU16 :
    (t : FrameType) → is_known_frame_type (frame_type_value t) ≡ true → IsU16 (frame_type_value t)
unfolding is_known_frame_type
frame_type_value-IsU16 t k = ground arith

header_fault-raw_header :
    (h : FrameHeader) (payload : List ℕ)
    → Encoded h payload
    → IsCanonical h.frame_type
    → header_fault (raw_header h (length payload)) ≡ none
unfolding header_fault
header_fault-raw_header h payload e c = ground (
  arith,
  to_frame_type-frame_type_value h.frame_type c e.known,
  add_u64_small 24 (length payload),
)

module _ (h : FrameHeader) (payload rest : List ℕ) (v : Encoded h payload) (hr : IsU64 h.request_id)
    (c : IsCanonical h.frame_type) where
  held :
      HoldsFrame
        (write_header h (length payload) ++ (payload ++ rest))
        (raw_header h (length payload))
  held = record {
    magic = has_magic-write_header h (length payload) (payload ++ rest);
    header =
        read_header-write_header h (length payload) (payload ++ rest) (omega (arith, v.version))
          (omega (arith, v.header_size)) (frame_type_value-IsU16 h.frame_type v.known)
          (omega (arith, v.flags)) (omega (arith, v.small)) hr;
    sound = header_fault-raw_header h payload v c;
    minimum = omega (arith, length-write_header h (length payload) (payload ++ rest));
    whole = omega (
      arith,
      v.header_size,
      length-write_header h (length payload) (payload ++ rest),
      length-append payload rest,
    );
  }

  -- The frame and the rest that are cut out of the bytes.
  read_back :
      ready
        (frame_of (raw_header h (length payload)) (
          take
            (length payload)
            (drop h.header_size (write_header h (length payload) ++ (payload ++ rest)))))
        (drop
          (h.header_size + length payload)
          (write_header h (length payload) ++ (payload ++ rest)))
      ≡ ready (record { header = h; payload = payload }) rest
  unfolding write_header
  read_back =
      let n = length payload in
      let bytes = write_header h n ++ (payload ++ rest) in
      let body : take n (drop h.header_size bytes) ≡ payload =
        ap (λ (k : ℕ). take n (drop k bytes)) v.header_size
        ∙ take-append_self n payload rest refl in
      let tail : drop (h.header_size + n) bytes ≡ rest =
        ap (λ (k : ℕ). drop (k + n) bytes) v.header_size
        ∙ sym (drop-drop 24 n bytes)
        ∙ drop-append_self n payload rest refl in
      let kind = to_frame_type-frame_type_value h.frame_type c v.known in
      λ i.
        ready
          (record {
            header = record h { frame_type = kind i; payload_size = (sym v.size) i };
            payload = body i;
          })
          (tail i)

-- The parser's reading of an encoded frame followed by anything is that frame, with every header
-- field and the whole payload, and what follows is left over. The encoder has accepted the frame,
-- its request id fits 64 bits, and a listed frame type is given by its enumerator.
pub decode-encode_frame_header :
    (h : FrameHeader) (payload rest : List ℕ)
    → IsU64 h.request_id
    → IsCanonical h.frame_type
    → (encode_frame_header h payload).error ≡ EncodeError.no_error
    → decode ((encode_frame_header h payload).bytes ++ rest)
      ≡ ready (record { header = h; payload = payload }) rest
decode-encode_frame_header h payload rest hr c e =
    let v = encode_frame_header-Encoded h payload e in
    rw (v.bytes) (
      rw (append_assoc (write_header h (length payload)) payload rest)
        (decode-HoldsFrame _ _ (held h payload rest v hr c) ∙ read_back h payload rest v hr c))

abbrev pub IsEncodable : Frame → Type 0
IsEncodable f =
    IsU64 f.header.request_id
    × IsCanonical f.header.frame_type
    × ((encode_frame_header f.header f.payload).error ≡ EncodeError.no_error)

-- The bytes of the frames, one after the other.
abbrev pub encode_all : List Frame → List ℕ
encode_all [] = []
encode_all (f ∷ fs) = (encode_frame_header f.header f.payload).bytes ++ encode_all fs

split-encode_all :
    (fs : List Frame)
    → All IsEncodable fs
    → split (encode_all fs) ≡ record { frames = fs; fault = none; rest = [] }
split-encode_all [] h = split-nil
split-encode_all (f ∷ fs) ((hr, c, e), hs) =
    split_ready _ (decode-encode_frame_header f.header f.payload (encode_all fs) hr c e)
    ∙ rw (split-encode_all fs hs) refl

-- Frames that the encoder accepts are sent one after the other, and the bytes arrive cut into any
-- chunks. The parser then yields these frames in their order, meets no fault, and holds no byte.
pub feed_all-encode_all :
    (fs : List Frame) (cs : List (List ℕ))
    → All IsEncodable fs
    → flatten cs ≡ encode_all fs
    → let (frames, q) = feed_all new_parser cs in
      (frames ≡ fs) × (q.fatal ≡ false) × (pending q ≡ [])
feed_all-encode_all fs cs h e =
    let whole : split (flatten cs) ≡ record { frames = fs; fault = none; rest = [] } =
      ap split e ∙ split-encode_all fs h in
    let d = rw whole at (feed_all-split cs) in
    (d.frames, fault_of-alive (feed_all new_parser cs).1 d.fault, d.rest refl)
