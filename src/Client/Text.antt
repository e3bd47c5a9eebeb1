-- ===== src/Client/Text.antt =====
-- src/qwen_tts_bridge/client/qwen_tts_client.cpp: UTF-8 and the text metrics. On a byte `v`,
-- `v & 0x1F` is `v % 32`, `v & 0xC0` is 0x80 just if `v / 64` is 2, and `(p << 6) | (v & 0x3F)` is
-- `p * 64 + v % 64`.
use qwen3_tts_bridge_cpp.Common.{
  ℕ, zero, suc, ◌+◌, ◌-◌, ◌*◌, ◌/◌, ◌%◌, Bool, true, false, ◌&&◌, ◌||◌, Option, none, some, List,
  [], ◌∷◌, ltb, leb, ◌==◌, ◌!=◌, if◌then◌else◌, length, drop,
}

-- The bits of the code point in the lead byte, and how many bytes follow it.
unfoldable pub lead_of : ℕ → Option (ℕ × ℕ)
lead_of lead =
    if leb 0xc2 lead && leb lead 0xdf
    then some (lead % 32, 1)
    else if leb 0xe0 lead && leb lead 0xef
    then some (lead % 16, 2)
    else if leb 0xf0 lead && leb lead 0xf4
    then some (lead % 8, 3)
    else none

-- The loop over the continuation bytes: the code point and the bytes behind it.
unfoldable pub continue_with : ℕ → ℕ → List ℕ → Option (ℕ × List ℕ)
continue_with zero code_point bytes = some (code_point, bytes)
continue_with (suc count) code_point [] = none
continue_with (suc count) code_point (b ∷ bytes) =
    if b / 64 != 2 then none else continue_with count (code_point * 64 + b % 64) bytes

-- The last test of a round.
unfoldable pub is_bad_code_point : ℕ → ℕ → Bool
is_bad_code_point continuation_count code_point =
    (continuation_count == 2 && ltb code_point 0x800)
    || (continuation_count == 3 && ltb code_point 0x10000)
    || ltb 0x10ffff code_point
    || (leb 0xd800 code_point && leb code_point 0xdfff)

-- One round of the loop of `is_valid_utf8`: the bytes behind the character, or none if it is bad.
unfoldable pub next_character : ℕ → List ℕ → Option (List ℕ)
next_character lead bytes = if leb lead 0x7f then some bytes else elim (lead_of lead) [
  | none ↦ none
  | some (bits, count) ↦ elim (continue_with count bits bytes) [
    | none ↦ none
    | some (code_point, rest) ↦ if is_bad_code_point count code_point then none else some rest
  ]
]

unfoldable pub is_valid_utf8_from : ℕ → List ℕ → Bool
is_valid_utf8_from zero bytes = false
is_valid_utf8_from (suc fuel) [] = true
is_valid_utf8_from (suc fuel) (lead ∷ bytes) = elim (next_character lead bytes) [
  | none ↦ false
  | some rest ↦ is_valid_utf8_from fuel rest
]

-- Each round takes a byte.
unfoldable pub is_valid_utf8 : List ℕ → Bool
is_valid_utf8 value = is_valid_utf8_from (suc (length value)) value

unfoldable pub is_unicode_space : ℕ → Bool
is_unicode_space code_point =
    code_point == 0x9
    || code_point == 0xa
    || code_point == 0xb
    || code_point == 0xc
    || code_point == 0xd
    || code_point == 0x20
    || code_point == 0xa0
    || code_point == 0x1680
    || (leb 0x2000 code_point && leb code_point 0x200a)
    || code_point == 0x2028
    || code_point == 0x2029
    || code_point == 0x202f
    || code_point == 0x205f
    || code_point == 0x3000

-- The width of a character and the bits of its lead byte, as `count_non_space_utf8_bytes` has them.
unfoldable pub width_of : ℕ → ℕ × ℕ
width_of lead = elim (lead_of lead) [ none ↦ (1, lead) | some (bits, count) ↦ (suc count, bits) ]

-- The code point of `count` more bytes, read without a test. Behind the text there is nothing to
-- read, which the model reads as 0.
unfoldable pub code_point_of : ℕ → ℕ → List ℕ → ℕ
code_point_of zero code_point bytes = code_point
code_point_of (suc count) code_point [] = code_point_of count (code_point * 64) []
code_point_of (suc count) code_point (b ∷ bytes) =
    code_point_of count (code_point * 64 + b % 64) bytes

unfoldable pub count_non_space_from : ℕ → List ℕ → ℕ → ℕ
count_non_space_from zero bytes result = result
count_non_space_from (suc fuel) [] result = result
count_non_space_from (suc fuel) (lead ∷ bytes) result =
    let (width, bits) = width_of lead in
    count_non_space_from fuel (drop (width - 1) bytes)
      (if is_unicode_space (code_point_of (width - 1) bits bytes) then result else result + width)

unfoldable pub count_non_space_utf8_bytes : List ℕ → ℕ
count_non_space_utf8_bytes value = count_non_space_from (length value) value 0

unfoldable pub same_bytes : List ℕ → List ℕ → Bool
same_bytes [] [] = true
same_bytes [] (y ∷ ys) = false
same_bytes (x ∷ xs) [] = false
same_bytes (x ∷ xs) (y ∷ ys) = x == y && same_bytes xs ys
