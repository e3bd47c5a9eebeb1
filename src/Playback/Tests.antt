-- ===== src/Playback/Tests.antt =====
-- Concrete runs of the playback receipt, and its theorems at concrete inputs.
use mathlib.Core.List.{Mem}
use qwen3_tts_bridge_cpp.Common.{
  ℕ, String, ◌≡◌, refl, inl, inr, true, false, List, [], ◌∷◌, arith, ltb, All,
}
use qwen3_tts_bridge_cpp.Common.Result.{ok, err}
use qwen3_tts_bridge_cpp.Common.Floats.{FloatOps}
use qwen3_tts_bridge_cpp.Data.{PcmChunk}
use qwen3_tts_bridge_cpp.Playback.Receipt.{
  PlaybackReceiptProbe, PlaybackReceiptStatus, PlaybackCue, PlaybackCursorSnapshot, active,
  uninitialized, selected, outside_cue_timeline, empty_receipt, range_end, make_probe, begin,
  append_cue, accept_cue, select,
}
use qwen3_tts_bridge_cpp.Playback.Receipt.Invariant.{
  Call, begins, observes, invalidates, appends, terminates, IsValid, accepted_samples, run,
  run-make_probe-IsValid,
}
use qwen3_tts_bridge_cpp.Playback.Receipt.Timeline.{
  IsCurrent, Covers, select_inside, select_outside,
}
use qwen3_tts_bridge_cpp.Playback.Receipt.Lifecycle.{begin_once, run-late}

-- Numbers stand in for the floats: thousandths, of which those below 5000 count as finite.
abbrev thousandths : FloatOps
thousandths = record { Float = ℕ; zero_float = 0; is_finite = λ f. ltb f 5000 }

abbrev cue_at : ℕ → PlaybackCue thousandths
cue_at first = record {
  playback_epoch = 4;
  request_id = 7;
  first_sample = first;
  sample_count = 10;
  mouth_open = 500;
  activity = 250;
}

abbrev new_probe : PlaybackReceiptProbe thousandths
new_probe = record {
  max_cues = 3;
  lifecycle_state = uninitialized;
  playback_epoch = 0;
  request_id = 0;
  next_pcm_sample = 0;
  next_cue_sample = 0;
  pcm_started = false;
  cue_started = false;
  receipt = empty_receipt;
  cues = [];
}

abbrev begun_probe : PlaybackReceiptProbe thousandths
begun_probe = record new_probe {
  lifecycle_state = active;
  playback_epoch = 4;
  request_id = 7;
  receipt = record empty_receipt { playback_epoch = 4; request_id = 7 };
}

-- Two cues from sample 5 on, at 24 kHz.
abbrev cued_probe : PlaybackReceiptProbe thousandths
cued_probe = record begun_probe {
  cue_started = true;
  next_cue_sample = 25;
  cues = cue_at 5 ∷ cue_at 15 ∷ [];
  receipt = record empty_receipt {
    playback_epoch = 4;
    request_id = 7;
    sample_rate = 24000;
    cue_count = 2;
    cue_sample_count = 20;
  };
}

cued_probe-IsValid : IsValid thousandths cued_probe
cued_probe-IsValid = ground arith

made : make_probe thousandths 3 ≡ ok new_probe
unfolding make_probe
made = refl

begun : begin thousandths new_probe 4 7 ≡ ok begun_probe
unfolding begin
begun = refl

appended : (append_cue thousandths begun_probe (cue_at 5)).1 ≡ PlaybackReceiptStatus.accepted
unfolding append_cue accept_cue range_end
appended = refl

-- A gap between cues is refused.
gap_refused :
    (append_cue thousandths cued_probe (cue_at 26)).1 ≡ PlaybackReceiptStatus.discontinuous_cue
unfolding append_cue accept_cue range_end
gap_refused = refl

abbrev chunk_at : ℕ → PcmChunk
chunk_at sample = record {
  request_id = 7;
  format = record { sample_rate = 24000; channels = 1; sample_format = "s16le" };
  bytes = [];
  first_sample = sample;
  sample_count = 10;
}

abbrev history : List (Call thousandths)
history =
    begins 4 7
    ∷ observes 4 (chunk_at 0)
    ∷ observes 4 (chunk_at 10)
    ∷ observes 4 (chunk_at 30)
    ∷ appends (cue_at 5)
    ∷ appends (cue_at 15)
    ∷ terminates 4 7
    ∷ invalidates 9
    ∷ []

run-make_probe-IsValid_example :
    IsValid thousandths (run thousandths new_probe history)
    × ((run thousandths new_probe history).receipt.pcm_sample_count
        ≡ accepted_samples thousandths new_probe history 0)
run-make_probe-IsValid_example =
    run-make_probe-IsValid thousandths 3 new_probe history (omega arith) made (omega arith)

abbrev cursor : ℕ → PlaybackCursorSnapshot
cursor sample = record {
  playback_epoch = 4;
  request_id = 7;
  utterance_sample = sample;
  sample_rate = 24000;
  position_available = true;
}

cursor-IsCurrent : (sample : ℕ) → IsCurrent thousandths cued_probe (cursor sample)
cursor-IsCurrent sample = ground arith

select_inside_example :
    let r = select thousandths cued_probe (cursor 17) in
    (r.status ≡ selected)
    × Mem r.cue cued_probe.cues
    × Covers thousandths 17 r.cue
    × All (λ d. Covers thousandths 17 d → d ≡ r.cue) cued_probe.cues
select_inside_example =
    select_inside thousandths cued_probe (cursor 17) cued_probe-IsValid (cursor-IsCurrent 17)
      (omega arith) (omega arith)

select_outside_example : (select thousandths cued_probe (cursor 25)).status ≡ outside_cue_timeline
select_outside_example =
    select_outside thousandths cued_probe (cursor 25) cued_probe-IsValid (cursor-IsCurrent 25)
      (inr (omega arith))

begin_once_example :
    (text : String) × (begin thousandths (run thousandths begun_probe history) 4 8 ≡ err text)
begin_once_example = begin_once thousandths new_probe begun_probe 4 7 8 history begun

abbrev late_calls : List (Call thousandths)
late_calls = appends (record (cue_at 25) { playback_epoch = 3 }) ∷ terminates 5 7 ∷ []

run-late_example : run thousandths cued_probe late_calls ≡ cued_probe
run-late_example =
    run-late thousandths cued_probe late_calls
      ((tt, inl (omega arith)), ((tt, inl (omega arith)), tt))
