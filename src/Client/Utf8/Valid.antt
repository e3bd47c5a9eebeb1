-- ===== src/Client/Utf8/Valid.antt =====
-- `is_valid_utf8` against the encoding.
use qwen3_tts_bridge_cpp.Common.{
  ℕ, zero, suc, ◌<◌, ◌≡◌, refl, sym, ◌∙◌, ◌↔◌, inl, inr, true, false, none, some, List, [], ◌∷◌,
  ◌++◌, arith, Option-cases, List-cases, length, All, length-append,
}
use qwen3_tts_bridge_cpp.Client.Text.{next_character, is_valid_utf8_from, is_valid_utf8}
use qwen3_tts_bridge_cpp.Client.Utf8.{IsScalar, encode, encode_all, encode_some}
use qwen3_tts_bridge_cpp.Client.Utf8.Rounds.{round_encode, next_of}
use qwen3_tts_bridge_cpp.Client.Utf8.Back.{character_back}

valid_step :
    (fuel lead : ℕ) (bytes rest : List ℕ)
    → next_character lead bytes ≡ some rest
    → is_valid_utf8_from (suc fuel) (lead ∷ bytes) ≡ is_valid_utf8_from fuel rest
unfolding is_valid_utf8_from
valid_step fuel lead bytes rest e = ground (arith, e)

valid_stop :
    (fuel lead : ℕ) (bytes : List ℕ)
    → next_character lead bytes ≡ none
    → is_valid_utf8_from (suc fuel) (lead ∷ bytes) ≡ false
unfolding is_valid_utf8_from
valid_stop fuel lead bytes e = ground (arith, e)

-- Bytes that are the encodings of scalar values.
abbrev pub IsEncoded : List ℕ → Type 0
IsEncoded bytes = (cs : List ℕ) × All IsScalar cs × (bytes ≡ encode_all cs)

valid_back : (fuel : ℕ) (bytes : List ℕ) → is_valid_utf8_from fuel bytes ≡ true → IsEncoded bytes
unfolding is_valid_utf8_from encode_all
valid_back zero bytes e = cc
valid_back (suc fuel) [] e = ([], tt, refl)
valid_back (suc fuel) (lead ∷ bytes) e = elim (Option-cases (next_character lead bytes)) [
  | inl h ↦ ground (arith, e, valid_stop fuel lead bytes h)
  | inr (rest, h) ↦
      let (c, scalar, shape) = character_back lead bytes rest h in
      let (cs, scalars, shapes) =
        valid_back fuel rest (sym (valid_step fuel lead bytes rest h) ∙ e) in
      (c ∷ cs, (scalar, scalars), shape ∙ rw shapes refl)
]

valid_forth :
    (fuel : ℕ) (cs : List ℕ)
    → All IsScalar cs
    → length (encode_all cs) < fuel
    → is_valid_utf8_from fuel (encode_all cs) ≡ true
unfolding is_valid_utf8_from encode_all next_of
valid_forth zero cs s h = ground (arith, h)
valid_forth (suc fuel) [] s h = refl
valid_forth (suc fuel) (c ∷ cs) s h =
    let rest = encode_all cs in
    let shorter : length rest < fuel =
      ground (arith, h, encode_some c, length-append (encode c) rest) in
    elim (List-cases (encode c ++ rest)) [
      | inl e ↦ ground (arith, rw (e, next_of) at (round_encode c rest s.0))
      | inr (lead, bytes, e) ↦
          rw (e, valid_step fuel lead bytes rest (rw (e, next_of) at (round_encode c rest s.0)))
            (valid_forth fuel cs s.1 shorter)
    ]

-- The function `is_valid_utf8` answers true for the encodings of sequences of scalar values, and for
-- no other bytes.
pub is_valid_utf8_lem : (bytes : List ℕ) → (is_valid_utf8 bytes ≡ true) ↔ IsEncoded bytes
unfolding is_valid_utf8
is_valid_utf8_lem bytes = (
  λ e. valid_back (suc (length bytes)) bytes e,
  λ (cs, scalars, e). rw e (valid_forth (suc (length (encode_all cs))) cs scalars (omega arith)),
)
