-- ===== src/Control/Fields.antt =====
-- The readers of fields on objects that the writers have made. `JsonLaws` is what the library's
-- documentation says of its values.
use qwen3_tts_bridge_cpp.Common.{
  ℕ, ◌≤◌, String, ◌≡◌, refl, ◌∙◌, inl, inr, Bool, true, false, not, Option, none, some, List, [],
  ◌∷◌, map, arith, if◌then◌else◌, Bool-cases, All,
}
use text.Mathlib.Text.{◌==◌ as ◌≈◌}
use text.Mathlib.TextEquality.{eq_iff}
use qwen3_tts_bridge_cpp.Common.Words.{u32_max, u64_max}
use qwen3_tts_bridge_cpp.Common.Result.{ok}
use qwen3_tts_bridge_cpp.Control.Json.{
  JsonOps, read_string, read_required_string, read_optional_string, read_items,
  read_optional_string_array, read_bool, read_optional_bool, read_required_bool, json_to_u64,
  read_optional_u64, read_optional_u32, narrow_u32, require_u32, read_required_u32,
  read_required_u64, known, first_unknown,
}
use qwen3_tts_bridge_cpp.Control.Encode.{present, given, option_map, object_of, is_nil}

unfoldable pub lookup : {J : Type 0} → String → List (String × J) → Option J
lookup name [] = none
lookup name ((n, j) ∷ fields) = if name ≈ n then some j else lookup name fields

pub record JsonLaws {J D : Type 0} (json : JsonOps J D) : Type 0 where
  pub made_object : (fields : List (String × J)) → json.is_object (json.make_object fields) ≡ true
  pub made_field :
      (fields : List (String × J)) (name : String)
      → json.find_field (json.make_object fields) name ≡ lookup name fields
  -- An object has no keys but the names of its fields.
  pub made_keys :
      (P : String → Bool) (fields : List (String × J))
      → All (λ f. P f.0 ≡ true) fields
      → All (λ k. P k ≡ true) (json.keys (json.make_object fields))
  pub string_back : (s : String) → json.as_string (json.of_string s) ≡ some s
  pub bool_back : (b : Bool) → json.as_bool (json.of_bool b) ≡ some b
  pub unsigned_back : (n : ℕ) → n ≤ u64_max → json.as_unsigned (json.of_unsigned n) ≡ some n
  pub double_back : (d : D) → json.as_double (json.of_double d) ≡ some d
  pub array_back : (js : List J) → json.as_array (json.of_array js) ≡ some js

-- The value of a field among fields that may be left out.
unfoldable pub pick : {J : Type 0} → String → List (String × Option J) → Option J
pick name [] = none
pick name ((n, v) ∷ fields) =
    let rest = pick name fields in
    if name ≈ n then (elim v [ none ↦ rest | some j ↦ some j ]) else rest

lookup-present :
    {J : Type 0} (name : String) (fields : List (String × Option J))
    → lookup name (present fields) ≡ pick name fields
unfolding lookup present pick
lookup-present name [] = refl
lookup-present name ((n, none) ∷ fields) = ground (arith, lookup-present name fields)
lookup-present name ((n, some j) ∷ fields) = ground (arith, lookup-present name fields)

abbrev pub IsWithin : ℕ → Option ℕ → Type 0
IsWithin bound none = Unit
IsWithin bound (some n) = n ≤ bound

-- What `pick` leaves of a field that stands alone.
pub only_here :
    {J : Type 0} (v : Option J) → elim v as (λ _. Option J) [ none ↦ none | some j ↦ some j ] ≡ v
only_here none = refl
only_here (some j) = refl

pub present-All :
    {J : Type 0} (P : String → Bool) (fields : List (String × Option J))
    → All (λ f. P f.0 ≡ true) fields
    → All (λ f. P f.0 ≡ true) (present fields)
unfolding present
present-All P [] h = tt
present-All P ((n, none) ∷ fields) h = present-All P fields h.1
present-All P ((n, some j) ∷ fields) h = (h.0, present-All P fields h.1)

pub first_unknown_lem :
    (names allowed : List String)
    → All (λ k. known k allowed ≡ true) names
    → first_unknown names allowed ≡ none
unfolding first_unknown
first_unknown_lem [] allowed h = refl
first_unknown_lem (k ∷ names) allowed h = ground (arith, h.0, first_unknown_lem names allowed h.1)

module _ {J D : Type 0} (json : JsonOps J D) (laws : JsonLaws json) where
  pub find-object_of :
      (fields : List (String × Option J)) (name : String)
      → json.find_field (object_of json fields) name ≡ pick name fields
  unfolding object_of
  find-object_of fields name = laws.made_field (present fields) name ∙ lookup-present name fields

  pub object_of_object :
      (fields : List (String × Option J)) → json.is_object (object_of json fields) ≡ true
  unfolding object_of
  object_of_object fields = laws.made_object (present fields)

  pub required_string :
      (o : J) (name s : String)
      → json.find_field o name ≡ some (json.of_string s)
      → read_required_string json o name ≡ ok s
  unfolding read_required_string read_string
  required_string o name s e = ground (arith, e, laws.string_back s)

  pub optional_string :
      (o : J) (name s out : String)
      → json.find_field o name ≡ some (json.of_string s)
      → read_optional_string json o name out ≡ ok s
  unfolding read_optional_string read_string
  optional_string o name s out e = ground (arith, e, laws.string_back s)

  -- A string that is written if it is not empty.
  pub given_string :
      (o : J) (name s : String)
      → json.find_field o name ≡ given (not (s ≈ "")) (json.of_string s)
      → read_optional_string json o name "" ≡ ok s
  unfolding read_optional_string read_string given
  given_string o name s e = elim (Bool-cases (s ≈ "")) [
    | inl h ↦ ground (arith, e, h, eq_iff s "")
    | inr h ↦ ground (arith, e, h, laws.string_back s)
  ]

  pub required_bool :
      (o : J) (name : String) (b : Bool)
      → json.find_field o name ≡ some (json.of_bool b)
      → read_required_bool json o name ≡ ok b
  unfolding read_required_bool read_bool
  required_bool o name b e = ground (arith, e, laws.bool_back b)

  pub optional_bool :
      (o : J) (name : String) (b : Option Bool)
      → json.find_field o name ≡ option_map json.of_bool b
      → read_optional_bool json o name ≡ ok b
  unfolding read_optional_bool read_bool option_map
  optional_bool o name none e = ground (arith, e)
  optional_bool o name (some b) e = ground (arith, e, laws.bool_back b)

  pub optional_u64 :
      (o : J) (name : String) (n : Option ℕ)
      → json.find_field o name ≡ option_map json.of_unsigned n
      → IsWithin u64_max n
      → read_optional_u64 json o name ≡ ok n
  unfolding read_optional_u64 json_to_u64 option_map
  optional_u64 o name none e h = ground (arith, e)
  optional_u64 o name (some n) e h = ground (arith, e, laws.unsigned_back n h)

  pub required_u64 :
      (o : J) (name : String) (n : ℕ)
      → json.find_field o name ≡ some (json.of_unsigned n)
      → n ≤ u64_max
      → read_required_u64 json o name ≡ ok n
  unfolding read_required_u64
  required_u64 o name n e h = ground (arith, e, laws.unsigned_back n h)

  pub optional_u32 :
      (o : J) (name : String) (n : Option ℕ)
      → json.find_field o name ≡ option_map json.of_unsigned n
      → IsWithin u32_max n
      → read_optional_u32 json o name ≡ ok n
  unfolding read_optional_u32 narrow_u32
  optional_u32 o name none e h = ground (arith, optional_u64 o name none e tt)
  optional_u32 o name (some n) e h = ground (arith, h, optional_u64 o name (some n) e (omega arith))

  pub required_u32 :
      (o : J) (name : String) (n : ℕ)
      → json.find_field o name ≡ some (json.of_unsigned n)
      → n ≤ u32_max
      → read_required_u32 json o name ≡ ok n
  unfolding read_required_u32 require_u32 option_map
  required_u32 o name n e h = ground (arith, optional_u32 o name (some n) e h)

  items_lem :
      (name : String) (items : List String)
      → All (λ s. (s ≈ "") ≡ false) items
      → read_items json (map json.of_string items) name ≡ ok items
  unfolding read_items
  items_lem name [] h = refl
  items_lem name (s ∷ items) h = ground (arith, laws.string_back s, h.0, items_lem name items h.1)

  pub given_strings :
      (o : J) (name : String) (items : List String)
      → json.find_field o name
        ≡ given (not (is_nil items)) (json.of_array (map json.of_string items))
      → All (λ s. (s ≈ "") ≡ false) items
      → read_optional_string_array json o name ≡ ok items
  unfolding read_optional_string_array given is_nil
  given_strings o name [] e h = ground (arith, e)
  given_strings o name (s ∷ items) e h =
      ground
        (arith, e, laws.array_back (map json.of_string (s ∷ items)), items_lem name (s ∷ items) h)
