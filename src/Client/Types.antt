-- ===== src/Client/Types.antt =====
-- src/qwen_tts_bridge/client/client_types.hpp and qwen_tts_client.hpp: the client's types. Spoken
-- texts are lists of bytes, since the hooks may return any bytes; `D` is the type `double`.
use qwen3_tts_bridge_cpp.Common.{
  ℕ, String, Bool, Option, none, some, List, [], ◌∷◌, ◌==◌, if◌then◌else◌,
}
use qwen3_tts_bridge_cpp.Data.{AudioFormat, PcmChunk, SpeechTimingChunk}
use qwen3_tts_bridge_cpp.Control.Messages.{ControlMessage}
use qwen3_tts_bridge_cpp.Session.Types.{WorkerSession, WorkerSessionOptions}

pub record TextPreparationWarning : Type 0 where
  pub code : String
  pub message : String
  pub offset : ℕ
  pub span_length : ℕ

pub record TextStressDecision : Type 0 where
  pub word : String
  pub stressed_vowel : Option ℕ
  pub from_dictionary : Bool
  pub reason : String

pub record TtsSamplingOptions (D : Type 0) : Type 0 where
  pub temperature : Option D
  pub top_k : Option ℕ
  pub top_p : Option D
  pub repetition_penalty : Option D
  pub do_sample : Option Bool

pub record TtsRequest (D : Type 0) : Type 0 where
  pub id : ℕ
  pub text : List ℕ
  pub language : String
  pub speaker : String
  pub instruction : String
  pub voice_id : String
  pub reference_audio_path : String
  pub reference_text : String
  pub x_vector_only : Bool
  pub has_seed : Bool
  pub seed : ℕ
  pub sampling : TtsSamplingOptions D
  pub output : AudioFormat

pub record PreparedText : Type 0 where
  pub original_text : List ℕ
  pub effective_text : List ℕ
  pub utf8_bytes : ℕ
  pub non_space_utf8_bytes : ℕ
  pub was_modified : Bool
  pub frontend_normalized_text : List ℕ
  pub frontend_pronunciation_text : List ℕ
  pub frontend_warnings : List TextPreparationWarning
  pub frontend_stress_decisions : List TextStressDecision
  pub frontend_has_uncertainty : Bool

pub record PreparedTtsRequest (D : Type 0) : Type 0 where
  pub request : TtsRequest D
  pub text : PreparedText

pub record TtsError : Type 0 where
  pub request_id : ℕ
  pub category : String
  pub code : String
  pub message : String

pub record TtsCompletion : Type 0 where
  pub execution_outcome : String
  pub has_generation_trace : Bool
  pub termination_reason : String
  pub hit_eos : Bool
  pub hit_max_seq_len : Bool
  pub hit_max_new_tokens : Bool
  pub codec_frame_count : ℕ
  pub generated_steps : ℕ
  pub emitted_steps : ℕ
  pub terminal_step_index : ℕ

-- Which of the callbacks are set.
pub record TtsCallbacks : Type 0 where
  pub on_text_prepared : Bool
  pub on_audio : Bool
  pub on_timing : Bool
  pub on_completed : Bool
  pub on_completion_metadata : Bool
  pub on_cancelled : Bool
  pub on_error : Bool

-- The callbacks' calls, with their arguments. `exception_reported` is `on_callback_exception`.
pub data Notice : Type 0 where
  text_prepared : PreparedText → Notice
  audio : PcmChunk → Notice
  timing : SpeechTimingChunk → Notice
  completed : Notice
  completion_metadata : TtsCompletion → Notice
  cancelled : Notice
  error : TtsError → Notice
  exception_reported : Notice

-- A call of a callback of the request `owner`.
pub record Delivery : Type 0 where
  pub owner : ℕ
  pub notice : Notice

-- What a structured text preparer does: it fills its arguments and answers, or it throws, with a
-- `std::exception` or with something else.
pub data Preparation : Type 0 where
  answers : Bool → PreparedText → TtsError → Preparation
  throws : PreparedText → TtsError → String → Preparation
  throws_unknown : PreparedText → TtsError → Preparation

-- The same for a text preprocessor.
pub data Processing : Type 0 where
  returns : List ℕ → Processing
  throws : String → Processing
  throws_unknown : Processing

pub record QwenTtsClientOptions (D : Type 0) : Type 0 where
  pub session : WorkerSessionOptions
  pub max_outbound_commands : ℕ
  pub max_outbound_command_bytes : ℕ
  pub on_callback_exception : Bool
  pub text_preprocessor : Option (TtsRequest D → Processing)
  pub text_preparer : Option (TtsRequest D → PreparedText → TtsError → Preparation)

pub record ActiveRequest : Type 0 where
  pub callbacks : TtsCallbacks
  pub audio_format : AudioFormat
  pub prepared_text : Option PreparedText
  pub next_sample : ℕ
  pub text_context_delivered : Bool

pub record OutboundCommand (D : Type 0) : Type 0 where
  pub request_id : ℕ
  pub message : ControlMessage D
  pub queued_bytes : ℕ

-- The class. A thread is known by whether it can be joined.
pub record QwenTtsClient (D : Type 0) : Type 0 where
  pub session : Option (WorkerSession D)
  pub options : QwenTtsClientOptions D
  pub active_requests : List (ℕ × ActiveRequest)
  pub outbound_queue : List (OutboundCommand D)
  pub queued_outbound_bytes : ℕ
  pub writer_joinable : Bool
  pub dispatcher_joinable : Bool
  pub next_request_id : ℕ
  pub running : Bool
  pub stopping : Bool
  pub terminal_failure_handled : Bool
  pub late_audio_after_terminal_count : ℕ
  pub duplicate_terminal_event_count : ℕ

-- `unordered_map` by its entries.
module _ {ℓ} {V : Type ℓ} where
  abbrev pub find : ℕ → List (ℕ × V) → Option V
  find k [] = none
  find k ((j, v) ∷ m) = if k == j then some v else find k m

  abbrev pub erase : ℕ → List (ℕ × V) → List (ℕ × V)
  erase k [] = []
  erase k ((j, v) ∷ m) = if k == j then m else (j, v) ∷ erase k m

  -- A write through the iterator that `find` has found.
  abbrev pub update : ℕ → V → List (ℕ × V) → List (ℕ × V)
  update k v [] = []
  update k v ((j, w) ∷ m) = if k == j then (j, v) ∷ m else (j, w) ∷ update k v m

  -- `emplace` keeps an entry that is there.
  abbrev pub emplace : ℕ → V → List (ℕ × V) → List (ℕ × V)
  emplace k v m = elim (find k m) [ none ↦ (k, v) ∷ m | some _ ↦ m ]
