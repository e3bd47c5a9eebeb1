-- ===== src/Client/Deliver.antt =====
-- src/qwen_tts_bridge/client/qwen_tts_client.cpp: the calls of a request's callbacks that a handler
-- has to make, without the lock and behind its changes of the client. `throws` says which of them
-- throw.
use qwen3_tts_bridge_cpp.Common.{
  ℕ, ◌*◌, ◌/◌, ◌%◌, String, Bool, true, false, not, ◌&&◌, ◌||◌, Option, none, some, List, [], ◌∷◌,
  ◌++◌, ltb, ◌==◌, ◌!=◌, if◌then◌else◌, length,
}
use text.Mathlib.Text.{◌==◌ as ◌≈◌}
use qwen3_tts_bridge_cpp.Common.Words.{u32_max}
use qwen3_tts_bridge_cpp.Data.{AudioFormat, PcmChunk, SpeechTimingChunk}
use qwen3_tts_bridge_cpp.Control.Messages.{CompletedMessage}
use qwen3_tts_bridge_cpp.Client.Types.{
  ActiveRequest, TtsCallbacks, TtsError, TtsCompletion, PreparedText, Notice, Delivery,
  text_prepared, audio, timing, error, exception_reported,
}

unfoldable pub bytes_per_sample : AudioFormat → Option ℕ
bytes_per_sample format =
    if format.sample_format ≈ "u8"
    then some 1
    else if format.sample_format ≈ "s16le"
    then some 2
    else if format.sample_format ≈ "s24le"
    then some 3
    else if (format.sample_format ≈ "s32le") || (format.sample_format ≈ "f32le")
    then some 4
    else none

unfoldable pub sample_count_for_audio : AudioFormat → ℕ → Option ℕ
sample_count_for_audio format byte_count = elim (bytes_per_sample format) [
  | none ↦ none
  | some sample_bytes ↦
      let frame_bytes = sample_bytes * format.channels in
      if format.channels == 0
      then none
      else if frame_bytes == 0 || byte_count % frame_bytes != 0
      then none
      else if ltb u32_max (byte_count / frame_bytes)
      then none
      else some (byte_count / frame_bytes)
]

unfoldable pub make_local_error : ℕ → String → String → String → TtsError
make_local_error request_id category code message = record {
  request_id = request_id;
  category = category;
  code = code;
  message = message;
}

unfoldable pub is_none {ℓ} : {A : Type ℓ} → Option A → Bool
is_none none = true
is_none (some a) = false

unfoldable pub completion_of : CompletedMessage → TtsCompletion
completion_of m = record {
  execution_outcome = m.execution_outcome;
  has_generation_trace = m.has_generation_trace;
  termination_reason = m.generation_trace.termination_reason;
  hit_eos = m.generation_trace.hit_eos;
  hit_max_seq_len = m.generation_trace.hit_max_seq_len;
  hit_max_new_tokens = m.generation_trace.hit_max_new_tokens;
  codec_frame_count = m.generation_trace.codec_frame_count;
  generated_steps = m.generation_trace.generated_steps;
  emitted_steps = m.generation_trace.emitted_steps;
  terminal_step_index = m.generation_trace.terminal_step_index;
}

-- The text of a request, if it has not been delivered yet.
unfoldable pub pending_text : ActiveRequest → Option PreparedText
pending_text r = if r.text_context_delivered then none else r.prepared_text

module _ (throws : Delivery → Bool) where
  -- `invoke_user_callback`, if the callback is set. `hook` says whether `on_callback_exception` is.
  unfoldable pub invoke_user_callback : Bool → Bool → ℕ → Notice → List Delivery
  invoke_user_callback set hook owner notice =
      let call : Delivery = record { owner = owner; notice = notice } in
      let report : Delivery = record { owner = owner; notice = exception_reported } in
      if not set then [] else if throws call && hook then call ∷ report ∷ [] else call ∷ []

  -- The loop of `fail_all_requests`.
  unfoldable pub fail_each : Bool → TtsError → List (ℕ × ActiveRequest) → List Delivery
  fail_each hook e [] = []
  fail_each hook e ((request_id, r) ∷ rest) =
      invoke_user_callback r.callbacks.on_error hook request_id
        (error (if e.request_id == 0 then record e { request_id = request_id } else e))
      ++ fail_each hook e rest

  unfoldable pub deliver_text : Bool → Bool → ℕ → Option PreparedText → List Delivery
  deliver_text set hook request_id none = []
  deliver_text set hook request_id (some text) =
      invoke_user_callback set hook request_id (text_prepared text)

  -- The end of `handle_audio_event`.
  unfoldable pub deliver_chunk : TtsCallbacks → Bool → PcmChunk → List Delivery
  deliver_chunk callbacks hook chunk =
      let heard : SpeechTimingChunk = record {
        request_id = chunk.request_id;
        first_sample = chunk.first_sample;
        sample_count = chunk.sample_count;
        sample_rate = chunk.format.sample_rate;
      } in
      if length chunk.bytes == 0
      then []
      else invoke_user_callback callbacks.on_audio hook chunk.request_id (audio chunk)
        ++ (if chunk.sample_count == 0
            then []
            else invoke_user_callback callbacks.on_timing hook chunk.request_id (timing heard))
