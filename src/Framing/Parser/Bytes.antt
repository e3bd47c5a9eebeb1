-- ===== src/Framing/Parser/Bytes.antt =====
-- What the readers of frame_parser.cpp compute, in plain arithmetic.
use qwen3_tts_bridge_cpp.Common.{ℕ, ◌+◌, ◌*◌, ◌%◌, ◌^◌, ◌<◌, bit_or, ◌≡◌, List, ◌∷◌, arith}
use qwen3_tts_bridge_cpp.Common.Bits.{bit_or_disjoint}
use qwen3_tts_bridge_cpp.Data.{IsByte}
use qwen3_tts_bridge_cpp.Framing.Parser.{read_u16_le, read_u32_le, read_u64_le}

pub read_u16_le_lem :
    (b0 b1 : ℕ) (rest : List ℕ)
    → IsByte b0
    → read_u16_le (b0 ∷ b1 ∷ rest) ≡ (b0 + b1 * 2 ^ 8) % 2 ^ 16
unfolding read_u16_le
read_u16_le_lem b0 b1 rest h = rw (bit_or_disjoint 8 b0 b1 h)

pub read_u32_le_lem :
    (b0 b1 b2 b3 : ℕ) (rest : List ℕ)
    → IsByte b0
    → IsByte b1
    → IsByte b2
    → read_u32_le (b0 ∷ b1 ∷ b2 ∷ b3 ∷ rest)
      ≡ (b0 + b1 * 2 ^ 8 + b2 * 2 ^ 16 + b3 * 2 ^ 24) % 2 ^ 32
unfolding read_u32_le
read_u32_le_lem b0 b1 b2 b3 rest h0 h1 h2 =
    rw (bit_or_disjoint 8 b0 b1 h0, bit_or_disjoint 16 (b0 + b1 * 2 ^ 8) b2 (omega arith))
      (rw (bit_or_disjoint 24 (b0 + b1 * 2 ^ 8 + b2 * 2 ^ 16) b3 (omega arith)))

-- One round of the loop: a byte that is shifted to bit `k` joins a value below it.
or_byte :
    (k value b : ℕ)
    → value < 2 ^ k
    → b * 2 ^ k < 2 ^ 64
    → bit_or value (b * 2 ^ k % 2 ^ 64) ≡ value + b * 2 ^ k
or_byte k value b h fits =
    let e : b * 2 ^ k % 2 ^ 64 ≡ b * 2 ^ k = omega arith in rw e (bit_or_disjoint k value b h)

pub read_u64_le_lem :
    (b0 b1 b2 b3 b4 b5 b6 b7 : ℕ) (rest : List ℕ)
    → IsByte b0
    → IsByte b1
    → IsByte b2
    → IsByte b3
    → IsByte b4
    → IsByte b5
    → IsByte b6
    → IsByte b7
    → read_u64_le (b0 ∷ b1 ∷ b2 ∷ b3 ∷ b4 ∷ b5 ∷ b6 ∷ b7 ∷ rest)
      ≡ b0
        + b1 * 2 ^ 8
        + b2 * 2 ^ 16
        + b3 * 2 ^ 24
        + b4 * 2 ^ 32
        + b5 * 2 ^ 40
        + b6 * 2 ^ 48
        + b7 * 2 ^ 56
unfolding read_u64_le
read_u64_le_lem b0 b1 b2 b3 b4 b5 b6 b7 rest h0 h1 h2 h3 h4 h5 h6 h7 =
    let v0 = b0 in
    let v1 = b0 + b1 * 2 ^ 8 in
    let v2 = v1 + b2 * 2 ^ 16 in
    let v3 = v2 + b3 * 2 ^ 24 in
    let v4 = v3 + b4 * 2 ^ 32 in
    let v5 = v4 + b5 * 2 ^ 40 in
    let v6 = v5 + b6 * 2 ^ 48 in
    let e0 : bit_or 0 (b0 * 2 ^ 0 % 2 ^ 64) ≡ b0 =
      omega (arith, or_byte 0 0 b0 (omega arith) (omega arith)) in
    rw e0 (
      rw (or_byte 8 v0 b1 (omega arith) (omega arith)) (
        rw (or_byte 16 v1 b2 (omega arith) (omega arith)) (
          rw (or_byte 24 v2 b3 (omega arith) (omega arith)) (
            rw (or_byte 32 v3 b4 (omega arith) (omega arith)) (
              rw (or_byte 40 v4 b5 (omega arith) (omega arith)) (
                rw (or_byte 48 v5 b6 (omega arith) (omega arith))
                  (or_byte 56 v6 b7 (omega arith) (omega arith))))))))
