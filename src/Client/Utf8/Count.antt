-- ===== src/Client/Utf8/Count.antt =====
-- `count_non_space_utf8_bytes` against the encoding.
use qwen3_tts_bridge_cpp.Common.{
  ℕ, zero, suc, ◌+◌, ◌-◌, ◌*◌, ◌/◌, ◌%◌, ◌≤◌, ◌<◌, ◌≡◌, refl, ◌∙◌, some, List, [], ◌∷◌, ◌++◌, arith,
  if◌then◌else◌, length, drop, All, Bool, true, false, ◌&&◌, ◌||◌, leb, ◌==◌, length-append,
}
use qwen3_tts_bridge_cpp.Client.Text.{
  lead_of, is_unicode_space, width_of, code_point_of, count_non_space_from,
  count_non_space_utf8_bytes,
}
use qwen3_tts_bridge_cpp.Client.Utf8.{
  IsScalar, encode, encode_all, Width, one, two, three, four, encode_one, encode_two, encode_three,
  encode_four, lead_two, lead_three, lead_four, Width-cases, encode_some,
}

-- The code points other than U+0085 with the property White_Space of the Unicode character database,
-- as ranges.
abbrev pub white_space : List (ℕ × ℕ)
white_space =
    (0x9, 0xd)
    ∷ (0x20, 0x20)
    ∷ (0xa0, 0xa0)
    ∷ (0x1680, 0x1680)
    ∷ (0x2000, 0x200a)
    ∷ (0x2028, 0x2029)
    ∷ (0x202f, 0x202f)
    ∷ (0x205f, 0x205f)
    ∷ (0x3000, 0x3000)
    ∷ []

unfoldable pub is_within : ℕ → List (ℕ × ℕ) → Bool
is_within c [] = false
is_within c ((first, last) ∷ ranges) = (leb first c && leb c last) || is_within c ranges

-- The bytes of the characters that are not white space.
unfoldable pub non_space_bytes : List ℕ → ℕ
non_space_bytes [] = 0
non_space_bytes (c ∷ cs) =
    (if is_within c white_space then 0 else length (encode c)) + non_space_bytes cs

point_lem :
    (c a : ℕ) (ranges : List (ℕ × ℕ)) → is_within c ((a, a) ∷ ranges) ≡ c == a || is_within c ranges
unfolding is_within
point_lem c a ranges = ground arith

breaks_lem :
    (c : ℕ) → c == 0x9 || c == 0xa || c == 0xb || c == 0xc || c == 0xd ≡ leb 0x9 c && leb c 0xd
breaks_lem c = ground arith

separators_lem :
    (c : ℕ) (before : Bool)
    → before || c == 0x2028 || c == 0x2029 ≡ before || (leb 0x2028 c && leb c 0x2029)
separators_lem c before = ground arith

or_assoc : (a b c : Bool) → (a || b) || c ≡ a || (b || c)
or_assoc true b c = refl
or_assoc false b c = refl

range_lem :
    (c a b : ℕ) (ranges : List (ℕ × ℕ))
    → is_within c ((a, b) ∷ ranges) ≡ (leb a c && leb c b) || is_within c ranges
unfolding is_within
range_lem c a b ranges = refl

last_lem : (c a : ℕ) → is_within c ((a, a) ∷ []) ≡ c == a
unfolding is_within
last_lem c a = ground arith

is_unicode_space_lem : (c : ℕ) → is_unicode_space c ≡ is_within c white_space
unfolding is_unicode_space
is_unicode_space_lem c =
    rw
      (
        breaks_lem c,
        separators_lem c,
        or_assoc,
        or_assoc,
        or_assoc,
        or_assoc,
        or_assoc,
        or_assoc,
        or_assoc,
        range_lem c 0x9 0xd,
        point_lem c 0x20,
        point_lem c 0xa0,
        point_lem c 0x1680,
        range_lem c 0x2000 0x200a,
        range_lem c 0x2028 0x2029,
        point_lem c 0x202f,
        point_lem c 0x205f,
        last_lem c 0x3000,
      )
      refl

code_point_step :
    (n c x : ℕ) (rest : List ℕ)
    → x < 64
    → code_point_of (suc n) c ((0x80 + x) ∷ rest) ≡ code_point_of n (c * 64 + x) rest
unfolding code_point_of
code_point_step n c x rest h = ground (arith, h)

code_point_end : (c : ℕ) (rest : List ℕ) → code_point_of 0 c rest ≡ c
unfolding code_point_of
code_point_end c rest = refl

-- A round of the count over a character whose width and code point are known.
count_lem :
    (fuel lead width bits c result : ℕ) (bytes rest : List ℕ)
    → width_of lead ≡ (width, bits)
    → drop (width - 1) bytes ≡ rest
    → code_point_of (width - 1) bits bytes ≡ c
    → count_non_space_from (suc fuel) (lead ∷ bytes) result
      ≡ count_non_space_from fuel rest (if is_unicode_space c then result else result + width)
unfolding count_non_space_from
count_lem fuel lead width bits c result bytes rest w d e = ground (arith, w, d, e)

lead_one : (c : ℕ) → c ≤ 0x7f → width_of c ≡ (1, c)
unfolding width_of lead_of
lead_one c h = ground (arith, h)

width_some :
    (lead bits count : ℕ) → lead_of lead ≡ some (bits, count) → width_of lead ≡ (suc count, bits)
unfolding width_of
width_some lead bits count e = ground (arith, e)

count_round :
    (fuel c result : ℕ) (rest : List ℕ)
    → IsScalar c
    → count_non_space_from (suc fuel) (encode c ++ rest) result
      ≡ count_non_space_from fuel rest
          (if is_unicode_space c then result else result + length (encode c))
count_round fuel c result rest s = counted (Width-cases c)
  where
    counted :
        Width c
        → count_non_space_from (suc fuel) (encode c ++ rest) result
          ≡ count_non_space_from fuel rest
              (if is_unicode_space c then result else result + length (encode c))
    counted (one h) =
        rw (encode_one c h)
          (count_lem fuel c 1 c c result rest rest (lead_one c h) refl (code_point_end c rest))
    counted (two g h) =
        let low : c / 64 * 64 + c % 64 ≡ c = omega arith in
        rw (encode_two c g h) (
          count_lem fuel (0xc0 + c / 64) 2 (c / 64) c result ((0x80 + c % 64) ∷ rest) rest
            (width_some (0xc0 + c / 64) (c / 64) 1 (lead_two (c / 64) (omega arith) (omega arith)))
            refl
            (code_point_step 0 (c / 64) (c % 64) rest (omega arith)
              ∙ rw low (code_point_end c rest)))
    counted (three g h) =
        let low : (c / 4096 * 64 + c / 64 % 64) * 64 + c % 64 ≡ c = omega arith in
        rw (encode_three c g h) (
          count_lem fuel (0xe0 + c / 4096) 3 (c / 4096) c result
            ((0x80 + c / 64 % 64) ∷ (0x80 + c % 64) ∷ rest) rest
            (width_some (0xe0 + c / 4096) (c / 4096) 2 (lead_three (c / 4096) (omega arith))) refl
            (code_point_step 1 (c / 4096) (c / 64 % 64) ((0x80 + c % 64) ∷ rest) (omega arith)
              ∙ code_point_step 0 (c / 4096 * 64 + c / 64 % 64) (c % 64) rest (omega arith)
              ∙ rw low (code_point_end c rest)))
    counted (four g) =
        let low : ((c / 262144 * 64 + c / 4096 % 64) * 64 + c / 64 % 64) * 64 + c % 64 ≡ c =
          omega arith in
        rw (encode_four c g) (
          count_lem fuel (0xf0 + c / 262144) 4 (c / 262144) c result
            ((0x80 + c / 4096 % 64) ∷ (0x80 + c / 64 % 64) ∷ (0x80 + c % 64) ∷ rest) rest
            (width_some (0xf0 + c / 262144) (c / 262144) 3 (lead_four (c / 262144) (omega arith)))
            refl
            (code_point_step 2 (c / 262144) (c / 4096 % 64)
                ((0x80 + c / 64 % 64) ∷ (0x80 + c % 64) ∷ rest) (omega arith)
              ∙ code_point_step 1 (c / 262144 * 64 + c / 4096 % 64) (c / 64 % 64)
                  ((0x80 + c % 64) ∷ rest) (omega arith)
              ∙ code_point_step 0 ((c / 262144 * 64 + c / 4096 % 64) * 64 + c / 64 % 64) (c % 64)
                  rest (omega arith)
              ∙ rw low (code_point_end c rest)))

count_all :
    (fuel : ℕ) (cs : List ℕ) (result : ℕ)
    → All IsScalar cs
    → length (encode_all cs) ≤ fuel
    → count_non_space_from fuel (encode_all cs) result ≡ result + non_space_bytes cs
unfolding encode_all non_space_bytes count_non_space_from
count_all zero [] result s h = omega arith
count_all zero (c ∷ cs) result s h =
    ground (arith, h, encode_some c, length-append (encode c) (encode_all cs))
count_all (suc fuel) [] result s h = omega arith
count_all (suc fuel) (c ∷ cs) result s h =
    let shorter : length (encode_all cs) ≤ fuel =
      ground (arith, h, encode_some c, length-append (encode c) (encode_all cs)) in
    count_round fuel c result (encode_all cs) s.0
    ∙ count_all fuel cs (if is_unicode_space c then result else result + length (encode c)) s.1
        shorter
    ∙ ground (arith, is_unicode_space_lem c)

-- On the encodings of scalar values, `count_non_space_utf8_bytes` is the sum of the lengths of the
-- encodings of those that are not white space.
pub count_non_space_utf8_bytes_lem :
    (cs : List ℕ)
    → All IsScalar cs
    → count_non_space_utf8_bytes (encode_all cs) ≡ non_space_bytes cs
unfolding count_non_space_utf8_bytes
count_non_space_utf8_bytes_lem cs s =
    count_all (length (encode_all cs)) cs 0 s (omega arith) ∙ omega arith
