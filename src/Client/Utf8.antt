-- ===== src/Client/Utf8.antt =====
-- src/qwen_tts_bridge/client/qwen_tts_client.cpp: its readers of UTF-8 against the encoding of
-- RFC 3629.
pub mod Rounds
pub mod Back
pub mod Valid
pub mod Count
use qwen3_tts_bridge_cpp.Common.{
  ℕ, ◌+◌, ◌/◌, ◌%◌, ◌≤◌, ◌<◌, ◌≡◌, ◌⊎◌, inl, inr, some, List, [], ◌∷◌, ◌++◌, arith, leb,
  if◌then◌else◌, leb→le, Bool-cases, length,
}
use qwen3_tts_bridge_cpp.Client.Text.{lead_of}

-- A Unicode scalar value.
abbrev pub IsScalar : ℕ → Type 0
IsScalar c = (c ≤ 0x10ffff) × ((c < 0xd800) ⊎ (0xdfff < c))

unfoldable pub encode : ℕ → List ℕ
encode c =
    if leb c 0x7f
    then c ∷ []
    else if leb c 0x7ff
    then (0xc0 + c / 64) ∷ (0x80 + c % 64) ∷ []
    else if leb c 0xffff
    then (0xe0 + c / 4096) ∷ (0x80 + c / 64 % 64) ∷ (0x80 + c % 64) ∷ []
    else (0xf0 + c / 262144) ∷ (0x80 + c / 4096 % 64) ∷ (0x80 + c / 64 % 64) ∷ (0x80 + c % 64) ∷ []

unfoldable pub encode_all : List ℕ → List ℕ
encode_all [] = []
encode_all (c ∷ cs) = encode c ++ encode_all cs

-- The four shapes of an encoding.
pub encode_one : (c : ℕ) → c ≤ 0x7f → encode c ≡ c ∷ []
unfolding encode
encode_one c h = ground (arith, h)

pub encode_two : (c : ℕ) → 0x7f < c → c ≤ 0x7ff → encode c ≡ (0xc0 + c / 64) ∷ (0x80 + c % 64) ∷ []
unfolding encode
encode_two c g h = ground (arith, g, h)

pub encode_three :
    (c : ℕ)
    → 0x7ff < c
    → c ≤ 0xffff
    → encode c ≡ (0xe0 + c / 4096) ∷ (0x80 + c / 64 % 64) ∷ (0x80 + c % 64) ∷ []
unfolding encode
encode_three c g h = ground (arith, g, h)

pub encode_four :
    (c : ℕ)
    → 0xffff < c
    → encode c
      ≡ (0xf0 + c / 262144) ∷ (0x80 + c / 4096 % 64) ∷ (0x80 + c / 64 % 64) ∷ (0x80 + c % 64) ∷ []
unfolding encode
encode_four c g = ground (arith, g)

-- The length of an encoding.
pub data Width (c : ℕ) : Type 0 where
  one : c ≤ 0x7f → Width c
  two : 0x7f < c → c ≤ 0x7ff → Width c
  three : 0x7ff < c → c ≤ 0xffff → Width c
  four : 0xffff < c → Width c

pub Width-cases : (c : ℕ) → Width c
Width-cases c = elim (Bool-cases (leb c 0x7f)) [
  | inl h ↦ one (leb→le _ _ h)
  | inr h ↦ elim (Bool-cases (leb c 0x7ff)) [
    | inl i ↦ two (ground (arith, h)) (leb→le _ _ i)
    | inr i ↦ elim (Bool-cases (leb c 0xffff)) [
      | inl j ↦ three (ground (arith, i)) (leb→le _ _ j)
      | inr j ↦ four (ground (arith, j))
    ]
  ]
]

-- What the lead byte of each shape says.
pub lead_two : (x : ℕ) → 2 ≤ x → x < 32 → lead_of (0xc0 + x) ≡ some (x, 1)
unfolding lead_of
lead_two x g h = ground (arith, g, h)

pub lead_three : (x : ℕ) → x < 16 → lead_of (0xe0 + x) ≡ some (x, 2)
unfolding lead_of
lead_three x h = ground (arith, h)

pub lead_four : (x : ℕ) → x < 5 → lead_of (0xf0 + x) ≡ some (x, 3)
unfolding lead_of
lead_four x h = ground (arith, h)

pub encode_some : (c : ℕ) → 0 < length (encode c)
unfolding encode
encode_some c = ground arith
