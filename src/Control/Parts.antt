-- ===== src/Control/Parts.antt =====
-- The parts of messages that the JSON codec writes, it reads back.
use qwen3_tts_bridge_cpp.Common.{
  ℕ, ◌≤◌, String, ◌≡◌, refl, ◌∙◌, inl, inr, Bool, true, not, Option, none, some, List, [], ◌∷◌,
  arith, Bool-cases, All,
}
use qwen3_tts_bridge_cpp.Common.Words.{u32_max, u64_max}
use qwen3_tts_bridge_cpp.Common.Result.{ok}
use qwen3_tts_bridge_cpp.Data.{AudioFormat}
use qwen3_tts_bridge_cpp.Control.Messages.{
  GenerationTrace, WorkerCapabilities, SynthesisSamplingOptions, is_ok,
}
use qwen3_tts_bridge_cpp.Control.Validation.{DoubleOps, validate_audio_format}
use qwen3_tts_bridge_cpp.Control.Json.{
  JsonOps, read_audio_format, checked_format, read_optional_finite_double, read_sampling,
  read_optional_synthesis_sampling, read_trace, read_capability_fields, or_false, known,
  reject_unknown_fields,
}
use qwen3_tts_bridge_cpp.Control.Encode.{
  present, given, option_map, object_of, is_nil, audio_format_fields, capability_fields,
  trace_fields, audio_format_to_json, sampling_fields, synthesis_sampling_to_json,
  capabilities_to_json, trace_to_json,
}
use qwen3_tts_bridge_cpp.Control.Fields.{
  only_here, present-All, first_unknown_lem, JsonLaws, pick, IsWithin, find-object_of,
  object_of_object, required_string, required_bool, optional_bool, required_u64, optional_u32,
  required_u32,
}

-- The numbers of a message are in the range of their types, and no voice id is empty.
abbrev pub IsFormat : AudioFormat → Type 0
IsFormat f = (f.sample_rate ≤ u32_max) × (f.channels ≤ u32_max)

abbrev pub IsTrace : GenerationTrace → Type 0
IsTrace t =
    (t.codec_frame_count ≤ u64_max)
    × (t.generated_steps ≤ u64_max)
    × (t.emitted_steps ≤ u64_max)
    × (t.terminal_step_index ≤ u64_max)

abbrev pub IsFinite : {D : Type 0} → DoubleOps D → Option D → Type 0
IsFinite double none = Unit
IsFinite double (some d) = double.is_finite d ≡ true

abbrev pub IsSampling : {D : Type 0} → DoubleOps D → SynthesisSamplingOptions D → Type 0
IsSampling double s =
    IsFinite double s.temperature
    × IsWithin u32_max s.top_k
    × IsFinite double s.top_p
    × IsFinite double s.repetition_penalty

abbrev sampling_of :
    {D : Type 0}
    → Option D
    → Option ℕ
    → Option D
    → Option D
    → Option Bool
    → SynthesisSamplingOptions D
sampling_of t k p r b = record {
  temperature = t;
  top_k = k;
  top_p = p;
  repetition_penalty = r;
  do_sample = b;
}

module _ {J D : Type 0} (json : JsonOps J D) (laws : JsonLaws json) where
  pub format_back :
      (f : AudioFormat)
      → IsFormat f
      → is_ok (validate_audio_format f "audio_format").error ≡ true
      → read_audio_format json (audio_format_to_json json f) ≡ ok f
  unfolding read_audio_format audio_format_to_json audio_format_fields checked_format pick
  format_back f h v =
      let fields = audio_format_fields json f in
      let o = object_of json fields in
      rw
        (
          object_of_object json laws fields,
          required_string json laws o "sample_format" f.sample_format
              (find-object_of json laws fields "sample_format"),
          required_u32 json laws o "sample_rate" f.sample_rate
              (find-object_of json laws fields "sample_rate") h.0,
          required_u32 json laws o "channels" f.channels
              (find-object_of json laws fields "channels") h.1,
          v,
        )
        refl

  pub trace_back : (t : GenerationTrace) → IsTrace t → read_trace json (trace_to_json json t) ≡ ok t
  unfolding read_trace trace_to_json trace_fields pick
  trace_back t h =
      let fields = trace_fields json t in
      let o = object_of json fields in
      let found = find-object_of json laws fields in
      rw
        (
          required_string json laws o "termination_reason" t.termination_reason
              (found "termination_reason"),
          required_bool json laws o "hit_eos" t.hit_eos (found "hit_eos"),
          required_bool json laws o "hit_max_seq_len" t.hit_max_seq_len (found "hit_max_seq_len"),
          required_bool json laws o "hit_max_new_tokens" t.hit_max_new_tokens
              (found "hit_max_new_tokens"),
          required_u64 json laws o "codec_frame_count" t.codec_frame_count
              (found "codec_frame_count") h.0,
          required_u64 json laws o "generated_steps" t.generated_steps (found "generated_steps")
              h.1,
          required_u64 json laws o "emitted_steps" t.emitted_steps (found "emitted_steps") h.2,
          required_u64 json laws o "terminal_step_index" t.terminal_step_index
              (found "terminal_step_index") h.3,
        )
        refl

  pub capabilities_back :
      (c : WorkerCapabilities) → read_capability_fields json (capabilities_to_json json c) ≡ ok c
  unfolding read_capability_fields capabilities_to_json capability_fields pick option_map or_false
  capabilities_back c =
      let fields = capability_fields json c in
      let o = object_of json fields in
      let found = find-object_of json laws fields in
      rw
        (
          required_bool json laws o "streaming" c.streaming (found "streaming"),
          required_bool json laws o "cancellation" c.cancellation (found "cancellation"),
          required_bool json laws o "instructions" c.instructions (found "instructions"),
          required_bool json laws o "voice_clone" c.voice_clone (found "voice_clone"),
          optional_bool json laws o "sampling_overrides" (some c.sampling_overrides)
              (found "sampling_overrides"),
          optional_bool json laws o "deterministic_seed" (some c.deterministic_seed)
              (found "deterministic_seed"),
          optional_bool json laws o "voice_clone_streaming" (some c.voice_clone_streaming)
              (found "voice_clone_streaming"),
          optional_bool json laws o "voice_profiles" (some c.voice_profiles)
              (found "voice_profiles"),
        )
        refl

  -- The reads of a double.
  optional_double :
      (double : DoubleOps D) (o : J) (name : String) (d : Option D)
      → json.find_field o name ≡ option_map json.of_double d
      → IsFinite double d
      → read_optional_finite_double json double o name ≡ ok d
  unfolding read_optional_finite_double option_map
  optional_double double o name none e h = ground (arith, e)
  optional_double double o name (some d) e h = ground (arith, e, h, laws.double_back d)

  nothing_unknown :
      (o : J) (allowed : List String) (name : String)
      → All (λ k. known k allowed ≡ true) (json.keys o)
      → reject_unknown_fields json o allowed name ≡ ok tt
  unfolding reject_unknown_fields
  nothing_unknown o allowed name h = ground (arith, first_unknown_lem (json.keys o) allowed h)

  pub sampling_fields_back :
      (double : DoubleOps D) (s : SynthesisSamplingOptions D)
      → IsSampling double s
      → read_sampling json double (synthesis_sampling_to_json json s) "sampling" ≡ ok s
  unfolding read_sampling synthesis_sampling_to_json sampling_fields pick known object_of
  sampling_fields_back double s h =
      let fields = sampling_fields json s in
      let o = object_of json fields in
      let allowed = "temperature" ∷ "top_k" ∷ "top_p" ∷ "repetition_penalty" ∷ "do_sample" ∷ [] in
      let found = find-object_of json laws fields in
      let names : All (λ f. known f.0 allowed ≡ true) fields =
        (refl, (refl, (refl, (refl, (refl, tt))))) in
      let keys =
        laws.made_keys (λ k. known k allowed) (present fields)
          (present-All (λ k. known k allowed) fields names) in
      rw
        (
          nothing_unknown o allowed "sampling" keys,
          optional_double double o "temperature" s.temperature
              (found "temperature" ∙ only_here (option_map json.of_double s.temperature)) h.0,
          optional_u32 json laws o "top_k" s.top_k
              (found "top_k" ∙ only_here (option_map json.of_unsigned s.top_k)) h.1,
          optional_double double o "top_p" s.top_p
              (found "top_p" ∙ only_here (option_map json.of_double s.top_p)) h.2,
          optional_double double o "repetition_penalty" s.repetition_penalty
              (found "repetition_penalty"
                ∙ only_here (option_map json.of_double s.repetition_penalty))
              h.3,
          optional_bool json laws o "do_sample" s.do_sample
              (found "do_sample" ∙ only_here (option_map json.of_bool s.do_sample)),
        )
        refl

  sampling_object :
      (s : SynthesisSamplingOptions D) → json.is_object (synthesis_sampling_to_json json s) ≡ true
  unfolding synthesis_sampling_to_json
  sampling_object s = object_of_object json laws (sampling_fields json s)

  nothing_given :
      (t : Option D) (k : Option ℕ) (p r : Option D) (b : Option Bool)
      → is_nil (present (sampling_fields json (sampling_of t k p r b))) ≡ true
      → sampling_of t k p r b ≡ sampling_of none none none none none
  unfolding is_nil present sampling_fields option_map
  nothing_given (some x) k p r b h = cc
  nothing_given none (some x) p r b h = cc
  nothing_given none none (some x) r b h = cc
  nothing_given none none none (some x) b h = cc
  nothing_given none none none none (some x) h = cc
  nothing_given none none none none none h = refl

  pub sampling_back :
      (double : DoubleOps D) (o : J) (s : SynthesisSamplingOptions D)
      → IsSampling double s
      → json.find_field o "sampling"
        ≡ given
            (not (is_nil (present (sampling_fields json s))))
            (synthesis_sampling_to_json json s)
      → read_optional_synthesis_sampling json double o "sampling" ≡ ok s
  unfolding read_optional_synthesis_sampling given
  sampling_back double o s h e = elim (Bool-cases (is_nil (present (sampling_fields json s)))) [
    | inl n ↦ ground (
      arith,
      e,
      n,
      nothing_given s.temperature s.top_k s.top_p s.repetition_penalty s.do_sample n,
    )
    | inr n ↦ ground (arith, e, n, sampling_object s, sampling_fields_back double s h)
  ]
