-- ===== src/Control/Arrival.antt =====
-- What of a control message arrives at the other side, and in which direction it goes.
use qwen3_tts_bridge_cpp.Common.{
  ℕ, ◌≤◌, String, ◌≡◌, refl, Bool, true, false, ◌&&◌, Option, none, some, arith, if◌then◌else◌, All,
}
use text.Mathlib.Text.{◌==◌ as ◌≈◌}
use qwen3_tts_bridge_cpp.Common.Words.{u32_max, u64_max}
use qwen3_tts_bridge_cpp.Control.Messages.{
  ControlMessage, hello_message, synthesize_message, cancel_message, ping_message, shutdown_message,
  ready_message, queued_message, started_message, completed_message, cancelled_message,
  pong_message, shutdown_ack_message, SynthesizeMessage, GenerationTrace, ControlMessageDirection,
  client_to_worker, worker_to_client, is_ok,
}
use qwen3_tts_bridge_cpp.Control.Validation.{
  DoubleOps, validate_audio_format, validate_control_message, validate_ready, validate_queued,
  validate_synthesize, validate_reference,
}
use qwen3_tts_bridge_cpp.Control.Validation.Sound.{
  IfGiven, validate_control_message-IsSound, format-Passes,
}
use qwen3_tts_bridge_cpp.Control.Json.{completed_with, empty_trace, or_false, is_there}
use qwen3_tts_bridge_cpp.Control.Encode.{given, option_map}
use qwen3_tts_bridge_cpp.Control.Decode.{or_zero}
use qwen3_tts_bridge_cpp.Control.Fields.{IsWithin}
use qwen3_tts_bridge_cpp.Control.Parts.{IsFormat, IsTrace, IsFinite}

-- What of a message arrives: a value that a flag says is not there is not sent.
unfoldable pub received : {D : Type 0} → ControlMessage D → ControlMessage D
received (synthesize_message m) =
    synthesize_message (record m { seed = if m.has_seed then m.seed else 0 })
received (ping_message m) =
    ping_message (record m { sequence = if m.has_sequence then m.sequence else 0 })
received (ready_message m) = ready_message (record m { warmed_up = m.has_warmed_up && m.warmed_up })
received (queued_message m) =
    queued_message (record m { position = if m.has_position then m.position else 0 })
received (completed_message m) = completed_message (record m {
  execution_outcome = if m.has_execution_outcome then m.execution_outcome else "";
  generation_trace = if m.has_generation_trace then m.generation_trace else empty_trace;
})
received (pong_message m) =
    pong_message (record m { sequence = if m.has_sequence then m.sequence else 0 })
received m = m

pub given_map :
    {A B : Type 0} (f : A → B) (b : Bool) (a : A) → given b (f a) ≡ option_map f (given b a)
unfolding given option_map
given_map f true a = refl
given_map f false a = refl

pub given-IsWithin : (bound : ℕ) (b : Bool) (n : ℕ) → n ≤ bound → IsWithin bound (given b n)
unfolding given
given-IsWithin bound true n h = h
given-IsWithin bound false n h = tt

pub given_there : {A : Type 0} (b : Bool) (a : A) → is_there (given b a) ≡ b
unfolding given is_there
given_there true a = refl
given_there false a = refl

pub given_zero : (b : Bool) (n : ℕ) → or_zero (given b n) ≡ (if b then n else 0)
unfolding given or_zero
given_zero true n = refl
given_zero false n = refl

pub given_false : (b c : Bool) → or_false (given b c) ≡ b && c
unfolding given or_false
given_false true c = refl
given_false false c = refl

pub completed_given :
    (there c : Bool) (s : String) (t : GenerationTrace)
    → completed_with s there (given c t) ≡ record {
      has_execution_outcome = there;
      execution_outcome = s;
      has_generation_trace = c;
      generation_trace = if c then t else empty_trace;
    }
unfolding completed_with given
completed_given there true s t = refl
completed_given there false s t = refl

-- The checks do not look at what is not sent.
pub received_valid :
    {D : Type 0} (double : DoubleOps D) (m : ControlMessage D)
    → is_ok (validate_control_message double m).error ≡ true
    → is_ok (validate_control_message double (received m)).error ≡ true
unfolding received validate_control_message validate_queued validate_ready validate_synthesize
    validate_reference
received_valid double (queued_message m) v = ground (arith, v)
received_valid double (hello_message m) v = v
received_valid double (synthesize_message m) v = v
received_valid double (shutdown_message m) v = v
received_valid double (ready_message m) v = v
received_valid double (started_message m) v = v
received_valid double _ v = v

if_given :
    {D : Type 0} (double : DoubleOps D) {P : D → Type 0} (d : Option D)
    → ((x : D) → P x → double.is_finite x ≡ true)
    → IfGiven P d
    → IsFinite double d
if_given double none f h = tt
if_given double (some d) f h = f d h

-- What the checks say of the doubles and the format of a message.
pub sampling_sound :
    {D : Type 0} (double : DoubleOps D) (m : SynthesizeMessage D)
    → is_ok (validate_control_message double (synthesize_message m)).error ≡ true
    → IsFinite double m.sampling.temperature
      × IsFinite double m.sampling.top_p
      × IsFinite double m.sampling.repetition_penalty
      × (is_ok (validate_audio_format m.output "audio_format").error ≡ true)
sampling_sound double m v =
    let sound = (validate_control_message-IsSound double (synthesize_message m)).0 v in
    let sampling = sound.2 in
    (
      if_given double m.sampling.temperature (λ d h. h.0) sampling.temperature,
      if_given double m.sampling.top_p (λ d h. h.0) sampling.top_p,
      if_given double m.sampling.repetition_penalty (λ d h. h.0) sampling.penalty,
      (format-Passes m.output "audio_format").1 sound.3,
    )

-- The numbers of a message are within their types, and no voice id is empty.
abbrev pub IsTyped : {D : Type 0} → ControlMessage D → Type 0
IsTyped (synthesize_message m) =
    (m.seed ≤ u64_max) × IsWithin u32_max m.sampling.top_k × IsFormat m.output
IsTyped (ping_message m) = m.sequence ≤ u64_max
IsTyped (pong_message m) = m.sequence ≤ u64_max
IsTyped (queued_message m) = m.position ≤ u32_max
IsTyped (started_message m) = IsFormat m.audio_format
IsTyped (ready_message m) = All (λ s. (s ≈ "") ≡ false) m.voice_ids
IsTyped (completed_message m) = IsTrace m.generation_trace
IsTyped _ = Unit

-- Who sends a message.
unfoldable pub direction_of : {D : Type 0} → ControlMessage D → ControlMessageDirection
direction_of (hello_message m) = client_to_worker
direction_of (synthesize_message m) = client_to_worker
direction_of cancel_message = client_to_worker
direction_of (ping_message m) = client_to_worker
direction_of (shutdown_message m) = client_to_worker
direction_of _ = worker_to_client

unfoldable pub name_of : {D : Type 0} → ControlMessage D → String
name_of (hello_message m) = "hello"
name_of (synthesize_message m) = "synthesize"
name_of cancel_message = "cancel"
name_of (ping_message m) = "ping"
name_of (shutdown_message m) = "shutdown"
name_of (ready_message m) = "ready"
name_of (queued_message m) = "queued"
name_of (started_message m) = "started"
name_of (completed_message m) = "completed"
name_of cancelled_message = "cancelled"
name_of (pong_message m) = "pong"
name_of shutdown_ack_message = "shutdown_ack"
