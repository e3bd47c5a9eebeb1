-- ===== src/Client/Utf8/Back.antt =====
-- What a round of `is_valid_utf8` reads is an encoding.
use qwen3_tts_bridge_cpp.Common.{
  ℕ, suc, ◌+◌, ◌-◌, ◌*◌, ◌/◌, ◌%◌, ◌≤◌, ◌<◌, ◌≡◌, refl, inl, inr, false, ◌&&◌, none, some, List, [],
  ◌∷◌, ◌++◌, arith, leb, ◌!=◌, leb→le, Bool-cases, Option-cases,
}
use qwen3_tts_bridge_cpp.Client.Text.{lead_of, continue_with, is_bad_code_point, next_character}
use qwen3_tts_bridge_cpp.Client.Utf8.{
  IsScalar, encode, encode_one, encode_two, encode_three, encode_four, lead_two, lead_three,
  lead_four,
}

-- What a continuation that has been read says of the bytes.
continue_back :
    (n c : ℕ) (bytes : List ℕ) (p : ℕ × List ℕ)
    → continue_with (suc n) c bytes ≡ some p
    → (x : ℕ) × (rest : List ℕ) × (bytes ≡ (0x80 + x) ∷ rest)
      × (x < 64)
      × (continue_with n (c * 64 + x) rest ≡ some p)
unfolding continue_with
continue_back n c [] p e = cc
continue_back n c (b ∷ bytes) p e = elim (Bool-cases (b / 64 != 2)) [
  | inl h ↦ cc
  | inr h ↦ (b % 64, bytes, ground (arith, h), omega arith, ground (arith, h, e))
]

-- The lead bytes.
data Lead (lead : ℕ) : Type 0 where
  leads_bad : lead_of lead ≡ none → Lead lead
  leads_two : (x : ℕ) → 2 ≤ x → x < 32 → lead ≡ 0xc0 + x → Lead lead
  leads_three : (x : ℕ) → x < 16 → lead ≡ 0xe0 + x → Lead lead
  leads_four : (x : ℕ) → x < 5 → lead ≡ 0xf0 + x → Lead lead

Lead-cases : (lead : ℕ) → Lead lead
unfolding lead_of
Lead-cases lead = elim (Bool-cases (leb 0xc2 lead && leb lead 0xdf)) [
  | inl h ↦ leads_two (lead - 0xc0) (ground (arith, h)) (ground (arith, h)) (ground (arith, h))
  | inr h ↦ elim (Bool-cases (leb 0xe0 lead && leb lead 0xef)) [
    | inl i ↦ leads_three (lead - 0xe0) (ground (arith, i)) (ground (arith, i))
    | inr i ↦ elim (Bool-cases (leb 0xf0 lead && leb lead 0xf4)) [
      | inl j ↦ leads_four (lead - 0xf0) (ground (arith, j)) (ground (arith, j))
      | inr j ↦ leads_bad (ground (arith, h, i, j))
    ]
  ]
]

-- What a round says that reads a character of several bytes.
round_back :
    (lead bits count : ℕ) (bytes rest : List ℕ)
    → 0x7f < lead
    → lead_of lead ≡ some (bits, count)
    → next_character lead bytes ≡ some rest
    → (c : ℕ) × (continue_with count bits bytes ≡ some (c, rest))
      × (is_bad_code_point count c ≡ false)
unfolding next_character
round_back lead bits count bytes rest h l e = elim (Option-cases (continue_with count bits bytes)) [
  | inl i ↦ ground (arith, h, l, e, i)
  | inr ((c, rest'), i) ↦ elim (Bool-cases (is_bad_code_point count c)) [
    | inl j ↦ ground (arith, h, l, e, i, j)
    | inr j ↦ (c, ground (arith, h, l, e, i, j), j)
  ]
]

abbrev pub Read : ℕ → List ℕ → List ℕ → Type 0
Read lead bytes rest = (c : ℕ) × IsScalar c × (lead ∷ bytes ≡ encode c ++ rest)

back-IsScalar :
    (count c : ℕ)
    → is_bad_code_point count c ≡ false
    → IsScalar c × (count ≡ 2 → 0x800 ≤ c) × (count ≡ 3 → 0x10000 ≤ c)
unfolding is_bad_code_point
back-IsScalar count c h = (ground (arith, h), λ e. ground (arith, h, e), λ e. ground (arith, h, e))

end_back : (v c : ℕ) (r rest : List ℕ) → continue_with 0 v r ≡ some (c, rest) → (c ≡ v) × (r ≡ rest)
unfolding continue_with
end_back v c r rest e = ground (arith, e)

two_back :
    (x : ℕ) (bytes rest : List ℕ)
    → 2 ≤ x
    → x < 32
    → next_character (0xc0 + x) bytes ≡ some rest
    → Read (0xc0 + x) bytes rest
two_back x bytes rest g h e =
    let (c, read, good) = round_back (0xc0 + x) x 1 bytes rest (omega arith) (lead_two x g h) e in
    let (y, r1, shape, low, ended) = continue_back 0 x bytes (c, rest) read in
    let (is_c, is_rest) = end_back (x * 64 + y) c r1 rest ended in
    let (scalar, _, _) = back-IsScalar 1 c good in
    let high : c / 64 ≡ x = omega arith in
    let last : c % 64 ≡ y = omega arith in
    (c, scalar, rw (encode_two c (omega arith) (omega arith), high, last, shape, is_rest) refl)

three_shape :
    (x y z c : ℕ) (bytes r1 r2 rest : List ℕ)
    → x < 16
    → y < 64
    → z < 64
    → 0x800 ≤ c
    → c ≡ (x * 64 + y) * 64 + z
    → bytes ≡ (0x80 + y) ∷ r1
    → r1 ≡ (0x80 + z) ∷ r2
    → r2 ≡ rest
    → (0xe0 + x) ∷ bytes ≡ encode c ++ rest
three_shape x y z c bytes r1 r2 rest hx hy hz least is_c e1 e2 e3 =
    let high : c / 4096 ≡ x = omega arith in
    let middle : c / 64 % 64 ≡ y = omega arith in
    let last : c % 64 ≡ z = omega arith in
    rw (encode_three c (omega arith) (omega arith), high, middle, last, e1, e2, e3) refl

four_shape :
    (x y z w c : ℕ) (bytes r1 r2 r3 rest : List ℕ)
    → x < 5
    → y < 64
    → z < 64
    → w < 64
    → 0x10000 ≤ c
    → c ≡ ((x * 64 + y) * 64 + z) * 64 + w
    → bytes ≡ (0x80 + y) ∷ r1
    → r1 ≡ (0x80 + z) ∷ r2
    → r2 ≡ (0x80 + w) ∷ r3
    → r3 ≡ rest
    → (0xf0 + x) ∷ bytes ≡ encode c ++ rest
four_shape x y z w c bytes r1 r2 r3 rest hx hy hz hw least is_c e1 e2 e3 e4 =
    let high : c / 262144 ≡ x = omega arith in
    let upper : c / 4096 % 64 ≡ y = omega arith in
    let middle : c / 64 % 64 ≡ z = omega arith in
    let last : c % 64 ≡ w = omega arith in
    rw (encode_four c (omega arith), high, upper, middle, last, e1, e2, e3, e4) refl

three_back :
    (x : ℕ) (bytes rest : List ℕ)
    → x < 16
    → next_character (0xe0 + x) bytes ≡ some rest
    → Read (0xe0 + x) bytes rest
three_back x bytes rest h e =
    let (c, read, good) = round_back (0xe0 + x) x 2 bytes rest (omega arith) (lead_three x h) e in
    let (y, r1, shape, low, more) = continue_back 1 x bytes (c, rest) read in
    let (z, r2, shape2, low2, ended) = continue_back 0 (x * 64 + y) r1 (c, rest) more in
    let (is_c, is_rest) = end_back ((x * 64 + y) * 64 + z) c r2 rest ended in
    let (scalar, least, _) = back-IsScalar 2 c good in
    (
      c,
      scalar,
      three_shape x y z c bytes r1 r2 rest h low low2 (least refl) is_c shape shape2 is_rest,
    )

four_back :
    (x : ℕ) (bytes rest : List ℕ)
    → x < 5
    → next_character (0xf0 + x) bytes ≡ some rest
    → Read (0xf0 + x) bytes rest
four_back x bytes rest h e =
    let (c, read, good) = round_back (0xf0 + x) x 3 bytes rest (omega arith) (lead_four x h) e in
    let (y, r1, shape, low, more) = continue_back 2 x bytes (c, rest) read in
    let (z, r2, shape2, low2, more2) = continue_back 1 (x * 64 + y) r1 (c, rest) more in
    let (w, r3, shape3, low3, ended) = continue_back 0 ((x * 64 + y) * 64 + z) r2 (c, rest) more2 in
    let (is_c, is_rest) = end_back (((x * 64 + y) * 64 + z) * 64 + w) c r3 rest ended in
    let (scalar, _, least) = back-IsScalar 3 c good in
    (
      c,
      scalar,
      four_shape x y z w c bytes r1 r2 r3 rest h low low2 low3 (least refl) is_c shape shape2 shape3
          is_rest,
    )

bad_back :
    (lead : ℕ) (bytes rest : List ℕ)
    → 0x7f < lead
    → lead_of lead ≡ none
    → next_character lead bytes ≡ some rest
    → Read lead bytes rest
unfolding next_character
bad_back lead bytes rest h b e = ground (arith, h, b, e)

-- Each round reads one encoding.
pub character_back :
    (lead : ℕ) (bytes rest : List ℕ) → next_character lead bytes ≡ some rest → Read lead bytes rest
unfolding next_character
character_back lead bytes rest e = elim (Bool-cases (leb lead 0x7f)) [
  | inl h ↦ (lead, ground (arith, h), rw (encode_one lead (leb→le _ _ h)) (ground (arith, h, e)))
  | inr h ↦ elim (Lead-cases lead) [
    | leads_bad b ↦ bad_back lead bytes rest (ground (arith, h)) b e
    | leads_two x g i j ↦ rw j (two_back x bytes rest g i (rw j at e))
    | leads_three x i j ↦ rw j (three_back x bytes rest i (rw j at e))
    | leads_four x i j ↦ rw j (four_back x bytes rest i (rw j at e))
  ]
]
