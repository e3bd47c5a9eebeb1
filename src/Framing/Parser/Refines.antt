-- ===== src/Framing/Parser/Refines.antt =====
-- `parse_next` implements `decode` on the bytes that the parser still holds.
use qwen3_tts_bridge_cpp.Common.{
  ℕ, ◌+◌, ◌-◌, ◌*◌, ◌≤◌, ◌≡◌, refl, sym, ap, ◌∙◌, inl, inr, List, false, none, arith, length, take,
  drop, length-append, length-drop, drop-drop, drop-length, Bool-cases, Option-cases, ltb, ltb→le,
}
use qwen3_tts_bridge_cpp.Common.Words.{add_u64_small, sub_u64_small}
use qwen3_tts_bridge_cpp.Data.{ParseResult}
use qwen3_tts_bridge_cpp.Framing.Parser.{
  RawHeader, FrameParser, append, buffered_size, compact_buffer, make_fatal, need_more_result,
  ready_result, has_magic, read_header, header_fault, take_frame, parse_header, parse_next,
  frame_of,
}
use qwen3_tts_bridge_cpp.Framing.Parser.Decode.{
  Decoded, need_more, failed, ready, decode_frame, decode_header, decode,
}

pub record IsValid (p : FrameParser) : Type 0 where
  pub within : p.read_offset ≤ length p.buffer

-- The bytes that have arrived and are in no frame yet.
abbrev pub pending : FrameParser → List ℕ
pending p = drop p.read_offset p.buffer

pub buffered_size-pending : (p : FrameParser) → IsValid p → buffered_size p ≡ length (pending p)
unfolding buffered_size
buffered_size-pending p v = omega (
  arith,
  sub_u64_small (length p.buffer) p.read_offset v.within,
  length-drop p.read_offset p.buffer,
)

compact_buffer-IsValid : (p : FrameParser) → IsValid p → IsValid (compact_buffer p)
unfolding compact_buffer
compact_buffer-IsValid p v = ground arith

compact_buffer-fatal : (p : FrameParser) → (compact_buffer p).fatal ≡ p.fatal
unfolding compact_buffer
compact_buffer-fatal p = ground arith

pending-compact_buffer : (p : FrameParser) → IsValid p → pending (compact_buffer p) ≡ pending p
unfolding compact_buffer
pending-compact_buffer p v = ground (arith, drop-length p.read_offset p.buffer)

pub append-IsValid : (p : FrameParser) (bytes : List ℕ) → IsValid p → IsValid (append p bytes)
unfolding append
append-IsValid p bytes v = ground (arith, length-append p.buffer bytes)

-- What a header that passes the guards is known to hold.
pub header_fault-none :
    (h : RawHeader)
    → header_fault h ≡ none
    → (24 ≤ h.header_size) × (h.header_size ≤ 256) × (h.payload_size ≤ 16 * 1024 * 1024)
unfolding header_fault
header_fault-none h e = ground arith

-- The state and result that `parse_next` owes to what `decode` says.
abbrev pub Agrees : FrameParser → Decoded → FrameParser × ParseResult → Type 0
Agrees p need_more r = r ≡ (p, need_more_result)
Agrees p (failed f) r = r ≡ make_fatal p f
Agrees p (ready frame rest) r =
    (r.1 ≡ ready_result frame) × (pending r.0 ≡ rest) × IsValid r.0 × (r.0.fatal ≡ p.fatal)

take_frame-Agrees :
    (p : FrameParser) (h : RawHeader)
    → IsValid p
    → header_fault h ≡ none
    → Agrees p (decode_frame h (pending p)) (take_frame p h)
unfolding take_frame decode_frame
take_frame-Agrees p h v e =
    let (lo, hi, small) = header_fault-none h e in
    rw (add_u64_small h.header_size h.payload_size (omega arith)) (
      rw (buffered_size-pending p v)
        (elim (Bool-cases (ltb (length (pending p)) (h.header_size + h.payload_size))) [
          | inl short ↦ rw short refl
          | inr long ↦ rw long (
            ap (λ b. ready_result (frame_of h b)) body,
            pending-compact_buffer next (next-IsValid long)
                ∙ sym (drop-drop p.read_offset total p.buffer),
            compact_buffer-IsValid next (next-IsValid long),
            compact_buffer-fatal next,
          )
        ]))
  where
    total : ℕ
    total = h.header_size + h.payload_size

    next : FrameParser
    next = record p { read_offset = p.read_offset + total }

    body :
        take (total - h.header_size) (drop (p.read_offset + h.header_size) p.buffer)
        ≡ take h.payload_size (drop h.header_size (pending p))
    body =
        let e : total - h.header_size ≡ h.payload_size = omega arith in
        rw (drop-drop p.read_offset h.header_size p.buffer)
          (ap (λ (n : ℕ). take n (drop (p.read_offset + h.header_size) p.buffer)) e)

    next-IsValid : ltb (length (pending p)) total ≡ false → IsValid next
    next-IsValid long =
        omega (arith, ltb→le (length (pending p)) total long, length-drop p.read_offset p.buffer)

parse_header-Agrees :
    (p : FrameParser)
    → IsValid p
    → Agrees p (decode_header (pending p)) (parse_header p (pending p))
unfolding parse_header decode_header
parse_header-Agrees p v = elim (Bool-cases (has_magic (pending p))) [
  | inr bad ↦ rw bad refl
  | inl good ↦ rw good (elim (Option-cases (header_fault (read_header (pending p)))) [
    | inl none' ↦ rw none' (take_frame-Agrees p (read_header (pending p)) v none')
    | inr (f, some') ↦ rw some' refl
  ])
]

-- On a parser that has met no error, `parse_next` returns what the bytes that it holds say: it
-- asks for more data and changes nothing, or fails and keeps the fault, or returns the frame, keeps
-- the bytes behind it and stays valid.
pub parse_next-decode :
    (p : FrameParser) → IsValid p → p.fatal ≡ false → Agrees p (decode (pending p)) (parse_next p)
unfolding parse_next decode
parse_next-decode p v e = simp e (
    rw (buffered_size-pending p v) (elim (Bool-cases (ltb (length (pending p)) 24)) [
      | inl short ↦ rw short refl
      | inr long ↦ rw long (parse_header-Agrees p v)
    ]))
