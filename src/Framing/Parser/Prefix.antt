-- ===== src/Framing/Parser/Prefix.antt =====
-- What `decode` says of some bytes it says of those bytes with more behind them.
use mathlib.Core.Path.{ap₂}
use qwen3_tts_bridge_cpp.Common.{
  ℕ, ◌+◌, ◌≤◌, ◌<◌, ◌≡◌, sym, ap, ◌∙◌, List, ◌++◌, arith, length, get_or, take, drop, length-append,
  length-drop, drop-append, take-append, get_or-append,
}
use qwen3_tts_bridge_cpp.Framing.Parser.{
  RawHeader, Fault, read_u16_le, read_u32_le, read_u64_le, has_magic, read_header, frame_of,
}
use qwen3_tts_bridge_cpp.Data.{Frame}
use qwen3_tts_bridge_cpp.Framing.Parser.Refines.{header_fault-none}
use qwen3_tts_bridge_cpp.Framing.Parser.Decode.{
  failed, ready, decode, HoldsFrame, decode-HoldsFrame, HoldsFrame-decode,
}

module _ (x y : List ℕ) where
  at : (i : ℕ) → i < length x → get_or (x ++ y) i 0 ≡ get_or x i 0
  at i h = get_or-append i x y 0 h

  read_u16_le-append : 2 ≤ length x → read_u16_le (x ++ y) ≡ read_u16_le x
  unfolding read_u16_le
  read_u16_le-append h = rw (at 0 (omega arith), at 1 (omega arith))

  read_u32_le-append : 4 ≤ length x → read_u32_le (x ++ y) ≡ read_u32_le x
  unfolding read_u32_le
  read_u32_le-append h =
      rw (at 0 (omega arith), at 1 (omega arith), at 2 (omega arith), at 3 (omega arith))

  read_u64_le-append : 8 ≤ length x → read_u64_le (x ++ y) ≡ read_u64_le x
  unfolding read_u64_le
  read_u64_le-append h = rw (
    at 0 (omega arith),
    at 1 (omega arith),
    at 2 (omega arith),
    at 3 (omega arith),
    at 4 (omega arith),
    at 5 (omega arith),
    at 6 (omega arith),
    at 7 (omega arith),
  )

  has_magic-append : 4 ≤ length x → has_magic (x ++ y) ≡ has_magic x
  unfolding has_magic
  has_magic-append h =
      rw (at 0 (omega arith), at 1 (omega arith), at 2 (omega arith), at 3 (omega arith))

module _ (x y : List ℕ) (h : 24 ≤ length x) where
  field_u16 : (k : ℕ) → k ≤ 22 → read_u16_le (drop k (x ++ y)) ≡ read_u16_le (drop k x)
  field_u16 k hk =
      ap read_u16_le (drop-append k x y (omega arith))
      ∙ read_u16_le-append (drop k x) y (omega (arith, length-drop k x))

  read_header-append : read_header (x ++ y) ≡ read_header x
  unfolding read_header
  read_header-append = rw (
    field_u16 4 (omega arith),
    field_u16 6 (omega arith),
    field_u16 8 (omega arith),
    field_u16 10 (omega arith),
    drop-append 12 x y (omega arith),
    read_u32_le-append (drop 12 x) y (omega (arith, length-drop 12 x)),
    drop-append 16 x y (omega arith),
    read_u64_le-append (drop 16 x) y (omega (arith, length-drop 16 x)),
  )

  -- A framing error is not mended by more bytes.
  pub decode-append_failed : {f : Fault} → decode x ≡ failed f → decode (x ++ y) ≡ failed f
  unfolding decode
  decode-append_failed e =
      ground (arith, has_magic-append x y, read_header-append, length-append x y)

pub decode-failed_length : (x : List ℕ) {f : Fault} → decode x ≡ failed f → 24 ≤ length x
unfolding decode
decode-failed_length x e = ground arith

HoldsFrame-append : (x y : List ℕ) (h : RawHeader) → HoldsFrame x h → HoldsFrame (x ++ y) h
HoldsFrame-append x y h v = record {
  magic = has_magic-append x y (omega (arith, v.minimum)) ∙ v.magic;
  header = read_header-append x y v.minimum ∙ v.header;
  sound = v.sound;
  minimum = omega (arith, v.minimum, length-append x y);
  whole = omega (arith, v.whole, length-append x y);
}

-- A frame that has arrived is found whatever follows it, and what follows joins the rest.
pub decode-append_ready :
    (x y : List ℕ) {frame : Frame} {rest : List ℕ}
    → decode x ≡ ready frame rest
    → decode (x ++ y) ≡ ready frame (rest ++ y)
decode-append_ready x y e =
    let (h, v, ef, er) = HoldsFrame-decode x e in
    let n = h.payload_size in
    let room : n ≤ length (drop h.header_size x) =
      omega (arith, v.whole, length-drop h.header_size x) in
    let body : take n (drop h.header_size (x ++ y)) ≡ take n (drop h.header_size x) =
      ap (take n) (drop-append h.header_size x y (omega (arith, v.whole)))
      ∙ take-append n (drop h.header_size x) y room in
    decode-HoldsFrame (x ++ y) h (HoldsFrame-append x y h v)
    ∙ ap₂ ready (ap (frame_of h) body ∙ sym ef)
        (drop-append (h.header_size + n) x y v.whole ∙ ap (λ r. r ++ y) (sym er))

-- Every frame takes 24 bytes at least.
pub decode-ready_length :
    (x : List ℕ) {frame : Frame} {rest : List ℕ}
    → decode x ≡ ready frame rest
    → length rest + 24 ≤ length x
decode-ready_length x e =
    let (h, v, ef, er) = HoldsFrame-decode x e in
    rw er (
      omega (
        arith,
        v.whole,
        header_fault-none h v.sound,
        length-drop (h.header_size + h.payload_size) x,
      ))
