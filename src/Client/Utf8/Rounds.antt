-- ===== src/Client/Utf8/Rounds.antt =====
-- A round of `is_valid_utf8` reads an encoding.
use qwen3_tts_bridge_cpp.Common.{
  ℕ, suc, ◌+◌, ◌*◌, ◌/◌, ◌%◌, ◌≤◌, ◌<◌, ◌≡◌, refl, ◌∙◌, false, Option, none, some, List, [], ◌∷◌,
  ◌++◌, arith,
}
use qwen3_tts_bridge_cpp.Client.Text.{lead_of, continue_with, is_bad_code_point, next_character}
use qwen3_tts_bridge_cpp.Client.Utf8.{
  IsScalar, encode, Width, one, two, three, four, encode_one, encode_two, encode_three, encode_four,
  lead_two, lead_three, lead_four, Width-cases,
}

continue_step :
    (n c x : ℕ) (rest : List ℕ)
    → x < 64
    → continue_with (suc n) c ((0x80 + x) ∷ rest) ≡ continue_with n (c * 64 + x) rest
unfolding continue_with
continue_step n c x rest h = ground (arith, h)

continue_end : (c : ℕ) (rest : List ℕ) → continue_with 0 c rest ≡ some (c, rest)
unfolding continue_with
continue_end c rest = refl

-- A character whose lead byte and continuation bytes are good.
round_lem :
    (lead bits count c : ℕ) (bytes rest : List ℕ)
    → 0x7f < lead
    → lead_of lead ≡ some (bits, count)
    → continue_with count bits bytes ≡ some (c, rest)
    → is_bad_code_point count c ≡ false
    → next_character lead bytes ≡ some rest
unfolding next_character
round_lem lead bits count c bytes rest h l e good = ground (arith, h, l, e, good)

good_lem :
    (count c : ℕ)
    → IsScalar c
    → (count ≡ 2 → 0x800 ≤ c)
    → (count ≡ 3 → 0x10000 ≤ c)
    → is_bad_code_point count c ≡ false
unfolding is_bad_code_point
good_lem count c s h i = ground (arith, s, h, i)

unfoldable pub next_of : List ℕ → Option (List ℕ)
next_of [] = none
next_of (lead ∷ bytes) = next_character lead bytes

-- A round reads one encoding.
pub round_encode : (c : ℕ) (rest : List ℕ) → IsScalar c → next_of (encode c ++ rest) ≡ some rest
unfolding next_of next_character
round_encode c rest s = read_back (Width-cases c)
  where
    read_back : Width c → next_of (encode c ++ rest) ≡ some rest
    read_back (one h) = rw (encode_one c h) (ground (arith, h))
    read_back (two g h) =
        let low : c / 64 * 64 + c % 64 ≡ c = omega arith in
        rw (encode_two c g h) (
          round_lem (0xc0 + c / 64) (c / 64) 1 c ((0x80 + c % 64) ∷ rest) rest (omega arith)
            (lead_two (c / 64) (omega arith) (omega arith))
            (continue_step 0 (c / 64) (c % 64) rest (omega arith) ∙ (rw low (continue_end c rest)))
            (good_lem 1 c s (ground arith) (ground arith)))
    read_back (three g h) =
        let low : (c / 4096 * 64 + c / 64 % 64) * 64 + c % 64 ≡ c = omega arith in
        rw (encode_three c g h) (
          round_lem (0xe0 + c / 4096) (c / 4096) 2 c ((0x80 + c / 64 % 64) ∷ (0x80 + c % 64) ∷ rest)
            rest (omega arith) (lead_three (c / 4096) (omega arith))
            (continue_step 1 (c / 4096) (c / 64 % 64) ((0x80 + c % 64) ∷ rest) (omega arith)
              ∙ continue_step 0 (c / 4096 * 64 + c / 64 % 64) (c % 64) rest (omega arith)
              ∙ (rw low (continue_end c rest)))
            (good_lem 2 c s (ground (arith, g)) (ground arith)))
    read_back (four g) =
        let low : ((c / 262144 * 64 + c / 4096 % 64) * 64 + c / 64 % 64) * 64 + c % 64 ≡ c =
          omega arith in
        rw (encode_four c g) (
          round_lem (0xf0 + c / 262144) (c / 262144) 3 c
            ((0x80 + c / 4096 % 64) ∷ (0x80 + c / 64 % 64) ∷ (0x80 + c % 64) ∷ rest) rest
            (omega arith) (lead_four (c / 262144) (omega arith))
            (continue_step 2 (c / 262144) (c / 4096 % 64)
                ((0x80 + c / 64 % 64) ∷ (0x80 + c % 64) ∷ rest) (omega arith)
              ∙ continue_step 1 (c / 262144 * 64 + c / 4096 % 64) (c / 64 % 64)
                  ((0x80 + c % 64) ∷ rest) (omega arith)
              ∙ continue_step 0 ((c / 262144 * 64 + c / 4096 % 64) * 64 + c / 64 % 64) (c % 64) rest
                  (omega arith)
              ∙ (rw low (continue_end c rest)))
            (good_lem 3 c s (ground arith) (ground (arith, g))))
