-- ===== src/Client/Story/Map.antt =====
-- The client's map of requests.
use qwen3_tts_bridge_cpp.Common.{
  ℕ, ◌≡◌, inl, inr, none, some, List, [], ◌∷◌, arith, ◌==◌, if◌then◌else◌, Bool-cases, All,
}
use qwen3_tts_bridge_cpp.Client.Types.{find, erase, update}

module _ {ℓ} {V : Type ℓ} where
  -- No key stands twice.
  abbrev pub IsUnique : List (ℕ × V) → Type ℓ
  IsUnique [] = Unit
  IsUnique ((k, v) ∷ m) = (find k m ≡ none) × IsUnique m

  pub find-update :
      (j k : ℕ) (v w : V) (m : List (ℕ × V))
      → find k m ≡ some w
      → find j (update k v m) ≡ (if j == k then some v else find j m)
  find-update j k v w [] e = cc
  find-update j k v w (x ∷ m) e = ground (arith, find-update j k v w m)

  pub find-erase :
      (j k : ℕ) (m : List (ℕ × V))
      → IsUnique m
      → find j (erase k m) ≡ (if j == k then none else find j m)
  find-erase j k [] u = ground arith
  find-erase j k (x ∷ m) u = ground (arith, find-erase j k m u.1)

  pub erase-IsUnique : (k : ℕ) (m : List (ℕ × V)) → IsUnique m → IsUnique (erase k m)
  erase-IsUnique k [] u = u
  erase-IsUnique k (x ∷ m) u = ground (arith, erase-IsUnique k m u.1, find-erase x.0 k m u.1)

  pub update-IsUnique :
      (k : ℕ) (v w : V) (m : List (ℕ × V))
      → find k m ≡ some w
      → IsUnique m
      → IsUnique (update k v m)
  update-IsUnique k v w [] e u = u
  update-IsUnique k v w (x ∷ m) e u =
      ground (arith, update-IsUnique k v w m, find-update x.0 k v w m)

  pub find-All :
      (P : ℕ × V → Type 0) (k : ℕ) (v : V) (m : List (ℕ × V))
      → find k m ≡ some v
      → All P m
      → P (k, v)
  find-All P k v [] e h = cc
  find-All P k v (x ∷ m) e h = elim (Bool-cases (k == x.0)) [
    | inl same ↦ ground (arith, same, e, h)
    | inr other ↦ find-All P k v m (ground (arith, other, e)) h.1
  ]

  pub erase-All : (P : ℕ × V → Type 0) (k : ℕ) (m : List (ℕ × V)) → All P m → All P (erase k m)
  erase-All P k [] h = h
  erase-All P k (x ∷ m) h = elim (Bool-cases (k == x.0)) [
    | inl same ↦ rw same h.1
    | inr other ↦ rw other (h.0, erase-All P k m h.1)
  ]

  pub update-All :
      (P : ℕ × V → Type 0) (k : ℕ) (v : V) (m : List (ℕ × V))
      → P (k, v)
      → All P m
      → All P (update k v m)
  update-All P k v [] p h = h
  update-All P k v (x ∷ m) p h = elim (Bool-cases (k == x.0)) [
    | inl same ↦ ground (arith, same, p, h)
    | inr other ↦ rw other (h.0, update-All P k v m p h.1)
  ]
