-- ===== src/Framing/Parser/Safety.antt =====
-- What a caller of `parse_next` may rely on, whatever bytes arrive.
use qwen3_tts_bridge_cpp.Common.Words.{add_u64}
use qwen3_tts_bridge_cpp.Common.{
  ℕ, ◌+◌, ◌*◌, ◌≤◌, ◌<◌, ◌≡◌, refl, sym, ap, ◌∙◌, inl, inr, List, true, false, none, arith, length,
  take, drop, length-take, length-drop, Bool-cases,
}
use qwen3_tts_bridge_cpp.Data.{Frame, ParseResult, ParseStatus, frame_ready, need_more_data}
use qwen3_tts_bridge_cpp.Framing.Codec.{is_known_frame_type, frame_type_value, max_payload_size}
use qwen3_tts_bridge_cpp.Framing.Parser.{
  RawHeader, Fault, FrameParser, append, buffered_size, compact_buffer, header_fault, to_frame_type,
  parse_next, make_fatal, take_frame, parse_header, frame_of, read_header,
}
use qwen3_tts_bridge_cpp.Framing.Parser.Decode.{
  Decoded, need_more, failed, ready, decode, HoldsFrame-decode,
}
use qwen3_tts_bridge_cpp.Framing.Parser.Refines.{
  IsValid, pending, Agrees, parse_next-decode, buffered_size-pending,
}

-- The frames that may come out of the parser: what the encoder checks, but for header extensions.
pub record IsWellFormed (f : Frame) : Type 0 where
  pub version : f.header.protocol_version ≡ 1
  pub header_lo : 24 ≤ f.header.header_size
  pub header_hi : f.header.header_size ≤ 256
  pub known : is_known_frame_type (frame_type_value f.header.frame_type) ≡ true
  pub flags : f.header.flags ≡ 0
  pub size : length f.payload ≡ f.header.payload_size
  pub fits : length f.payload ≤ max_payload_size f.header.frame_type

known-to_frame_type :
    (v : ℕ)
    → is_known_frame_type v ≡ true
    → is_known_frame_type (frame_type_value (to_frame_type v)) ≡ true
unfolding is_known_frame_type to_frame_type frame_type_value
known-to_frame_type v e = ground arith

frame_of-IsWellFormed :
    (h : RawHeader) (body : List ℕ)
    → header_fault h ≡ none
    → length body ≡ h.payload_size
    → IsWellFormed (frame_of h body)
unfolding header_fault
frame_of-IsWellFormed h body e n = ground (arith, known-to_frame_type h.type_value)

decode-IsWellFormed :
    (bytes : List ℕ) {f : Frame} {rest : List ℕ}
    → decode bytes ≡ ready f rest
    → IsWellFormed f × (length bytes ≡ f.header.header_size + length f.payload + length rest)
decode-IsWellFormed bytes e =
    let (h, v, ef, er) = HoldsFrame-decode bytes e in
    let total = h.header_size + h.payload_size in
    let n : length (take h.payload_size (drop h.header_size bytes)) ≡ h.payload_size = omega (
      arith,
      v.whole,
      length-take h.payload_size (drop h.header_size bytes),
      length-drop h.header_size bytes,
    ) in
    rw ef (
      frame_of-IsWellFormed h _ v.sound n,
      rw er (omega (arith, n, v.whole, length-drop total bytes)),
    )

-- The bytes before the read offset that the parser may keep.
abbrev IsCompact : FrameParser → Type 0
IsCompact p = (p.read_offset < 64 * 1024) × (2 * p.read_offset ≤ length p.buffer)

compact_buffer-IsCompact : (p : FrameParser) → IsCompact (compact_buffer p)
unfolding compact_buffer
compact_buffer-IsCompact p = ground arith

take_frame-IsCompact :
    (p : FrameParser) (h : RawHeader)
    → (take_frame p h).1.status ≡ frame_ready
    → IsCompact (take_frame p h).0
unfolding take_frame
take_frame-IsCompact p h e = ground (
  arith,
  compact_buffer-IsCompact
      (record p { read_offset = p.read_offset + add_u64 h.header_size h.payload_size }),
)

parse_next-IsCompact :
    (p : FrameParser) → (parse_next p).1.status ≡ frame_ready → IsCompact (parse_next p).0
unfolding parse_next parse_header make_fatal
parse_next-IsCompact p e =
    ground (arith, take_frame-IsCompact p (read_header (drop p.read_offset p.buffer)))

ready-alive : (p : FrameParser) → (parse_next p).1.status ≡ frame_ready → p.fatal ≡ false
unfolding parse_next
ready-alive p e = ground arith

Agrees-ready :
    (p : FrameParser) (d : Decoded) (r : FrameParser × ParseResult)
    → Agrees p d r
    → r.1.status ≡ frame_ready
    → (d ≡ ready r.1.frame (pending r.0)) × IsValid r.0
unfolding make_fatal
Agrees-ready p need_more r a e = ground arith
Agrees-ready p (failed f) r a e = ground arith
Agrees-ready p (ready f rest) r a e = ground arith

-- A frame that `parse_next` delivers has version 1, a known type, no flags, a header of 24 to 256
-- bytes, and a payload of the size that its header gives and within its type's limit. It takes
-- exactly its header's and payload's bytes from the parser, which stays valid and keeps fewer than
-- 64 KiB of bytes that it has read, and at most half of its buffer.
pub parse_next_ready :
    (p : FrameParser)
    → IsValid p
    → (parse_next p).1.status ≡ frame_ready
    → let (q, result) = parse_next p in
      IsWellFormed result.frame
      × (buffered_size p
          ≡ result.frame.header.header_size + length result.frame.payload + buffered_size q)
      × IsValid q
      × (q.read_offset < 64 * 1024)
      × (2 * q.read_offset ≤ length q.buffer)
parse_next_ready p v e =
    let (d, w) =
      Agrees-ready p (decode (pending p)) (parse_next p) (parse_next-decode p v (ready-alive p e))
        e in
    let (form, size) = decode-IsWellFormed (pending p) d in
    let (small, half) = parse_next-IsCompact p e in
    (
      form,
      omega (arith, size, buffered_size-pending p v, buffered_size-pending (parse_next p).0 w),
      w,
      small,
      half,
    )

make_fatal_stays :
    (p : FrameParser) (f : Fault) (bytes : List ℕ)
    → parse_next (append (make_fatal p f).0 bytes) ≡ make_fatal p f
unfolding parse_next append make_fatal
make_fatal_stays p f bytes = refl

fatal_stays :
    (p : FrameParser) (bytes : List ℕ)
    → p.fatal ≡ true
    → parse_next (append (parse_next p).0 bytes) ≡ parse_next p
unfolding parse_next append
fatal_stays p bytes e = ground arith

statuses_differ : need_more_data ≡ ParseStatus.fatal_error → ⊥
statuses_differ e = cc

ready_differs : frame_ready ≡ ParseStatus.fatal_error → ⊥
ready_differs e = cc

Agrees-fatal :
    (p : FrameParser) (d : Decoded) (r : FrameParser × ParseResult)
    → Agrees p d r
    → r.1.status ≡ ParseStatus.fatal_error
    → (f : Fault) × (r ≡ make_fatal p f)
Agrees-fatal p need_more r a e = absurd (statuses_differ (ap (λ r. r.1.status) (sym a) ∙ e))
Agrees-fatal p (failed f) r a e = (f, a)
Agrees-fatal p (ready f rest) r a e = absurd (ready_differs (ap (λ r. r.status) (sym a.0) ∙ e))

-- After a fatal error a valid parser returns that error for ever, whatever is appended, and
-- neither its buffer nor anything else of its state changes.
pub parse_next-append_fatal :
    (p : FrameParser) (bytes : List ℕ)
    → IsValid p
    → (parse_next p).1.status ≡ ParseStatus.fatal_error
    → parse_next (append (parse_next p).0 bytes) ≡ parse_next p
parse_next-append_fatal p bytes v e = elim (Bool-cases p.fatal) [
  | inl dead ↦ fatal_stays p bytes dead
  | inr alive ↦
      let (f, h) =
        Agrees-fatal p (decode (pending p)) (parse_next p) (parse_next-decode p v alive) e in
      rw h (make_fatal_stays p f bytes)
]

Agrees-IsValid :
    (p : FrameParser) (d : Decoded) (r : FrameParser × ParseResult)
    → IsValid p
    → Agrees p d r
    → IsValid r.0
unfolding make_fatal
Agrees-IsValid p need_more r v a = ground arith
Agrees-IsValid p (failed f) r v a = ground arith
Agrees-IsValid p (ready f rest) r v a = a.2

parse_next-dead : (p : FrameParser) → p.fatal ≡ true → (parse_next p).0 ≡ p
unfolding parse_next
parse_next-dead p e = ground arith

pub parse_next-IsValid : (p : FrameParser) → IsValid p → IsValid (parse_next p).0
parse_next-IsValid p v = elim (Bool-cases p.fatal) [
  | inl dead ↦ rw (parse_next-dead p dead) v
  | inr alive ↦ Agrees-IsValid p (decode (pending p)) (parse_next p) v (parse_next-decode p v alive)
]
