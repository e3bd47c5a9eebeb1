-- ===== src/Playback/Receipt.antt =====
-- src/qwen_tts_bridge/playback/playback_receipt.hpp and playback_receipt.cpp: the probe that checks
-- PCM and mouth cues against one playback epoch and request, and selects a cue for a cursor.
-- A `const` or `noexcept` method is a function of the probe; the others return the new probe.
pub mod Invariant
pub mod Timeline
pub mod Lifecycle
use qwen3_tts_bridge_cpp.Common.{
  ℕ, ◌+◌, ◌-◌, String, Bool, true, false, not, ◌&&◌, ◌||◌, Option, none, some, List, [], ◌∷◌, ◌++◌,
  ltb, leb, ◌==◌, ◌!=◌, if◌then◌else◌, length,
}
use qwen3_tts_bridge_cpp.Common.Words.{u64_max, add_u64}
use qwen3_tts_bridge_cpp.Common.Result.{Result, ok, err}
use qwen3_tts_bridge_cpp.Common.Floats.{FloatOps}
use qwen3_tts_bridge_cpp.Data.{PcmChunk}

pub data PlaybackReceiptStatus : Type 0 where
  accepted stale_epoch stale_request invalid_range invalid_sample_rate : PlaybackReceiptStatus
  sample_rate_mismatch discontinuous_pcm discontinuous_cue : PlaybackReceiptStatus
  cue_history_full already_terminal : PlaybackReceiptStatus

pub data SelectionStatus : Type 0 where
  selected cursor_unavailable stale_epoch stale_request : SelectionStatus
  sample_rate_mismatch outside_cue_timeline : SelectionStatus

pub data LifecycleState : Type 0 where
  uninitialized active invalidated : LifecycleState

pub record PlaybackCursorSnapshot : Type 0 where
  pub playback_epoch : ℕ
  pub request_id : ℕ
  pub utterance_sample : ℕ
  pub sample_rate : ℕ
  pub position_available : Bool

pub record PlaybackReceipt : Type 0 where
  pub playback_epoch : ℕ
  pub request_id : ℕ
  pub pcm_chunk_count : ℕ
  pub pcm_sample_count : ℕ
  pub cue_count : ℕ
  pub cue_sample_count : ℕ
  pub sample_rate : ℕ
  pub pcm_contiguous : Bool
  pub cue_contiguous : Bool
  pub cue_history_overflow : Bool
  pub terminal : Bool

-- `PlaybackReceipt{}`.
abbrev pub empty_receipt : PlaybackReceipt
empty_receipt = record {
  playback_epoch = 0;
  request_id = 0;
  pcm_chunk_count = 0;
  pcm_sample_count = 0;
  cue_count = 0;
  cue_sample_count = 0;
  sample_rate = 0;
  pcm_contiguous = true;
  cue_contiguous = true;
  cue_history_overflow = false;
  terminal = false;
}

-- `range_end`: the end of a range of samples, unless it is empty or passes 2^64 - 1.
unfoldable pub range_end : ℕ → ℕ → Option ℕ
range_end first_sample sample_count =
    if sample_count == 0 || ltb (u64_max - sample_count) first_sample
    then none
    else some (first_sample + sample_count)

unfoldable pub is_invalidated : LifecycleState → Bool
is_invalidated invalidated = true
is_invalidated _ = false

module _ (fl : FloatOps) where
  open fl use {Float, zero_float, is_finite}

  pub record PlaybackCue : Type 0 where
    pub playback_epoch : ℕ
    pub request_id : ℕ
    pub first_sample : ℕ
    pub sample_count : ℕ
    pub mouth_open : Float
    pub activity : Float

  -- `PlaybackCue{}`.
  abbrev pub empty_cue : PlaybackCue
  empty_cue = record {
    playback_epoch = 0;
    request_id = 0;
    first_sample = 0;
    sample_count = 0;
    mouth_open = zero_float;
    activity = zero_float;
  }

  pub record PlaybackCueSelection : Type 0 where
    pub status : SelectionStatus
    pub playback_epoch : ℕ
    pub request_id : ℕ
    pub cursor_sample : ℕ
    pub cue : PlaybackCue

  pub record PlaybackReceiptProbe : Type 0 where
    pub max_cues : ℕ
    pub lifecycle_state : LifecycleState
    pub playback_epoch : ℕ
    pub request_id : ℕ
    pub next_pcm_sample : ℕ
    pub next_cue_sample : ℕ
    pub pcm_started : Bool
    pub cue_started : Bool
    pub receipt : PlaybackReceipt
    pub cues : List PlaybackCue

  -- The constructor.
  unfoldable pub make_probe : ℕ → Result String PlaybackReceiptProbe
  make_probe max_cues =
      if max_cues == 0
      then err "playback receipt cue history must be bounded"
      else ok (record {
        max_cues = max_cues;
        lifecycle_state = uninitialized;
        playback_epoch = 0;
        request_id = 0;
        next_pcm_sample = 0;
        next_cue_sample = 0;
        pcm_started = false;
        cue_started = false;
        receipt = empty_receipt;
        cues = [];
      })

  unfoldable pub begin : PlaybackReceiptProbe → ℕ → ℕ → Result String PlaybackReceiptProbe
  unfolding is_invalidated
  begin p playback_epoch request_id =
      let replacement_epoch_claim =
        is_invalidated p.lifecycle_state && playback_epoch == p.playback_epoch in
      if playback_epoch == 0 || request_id == 0
      then err "playback receipt requires non-zero epoch and request id"
      else if not replacement_epoch_claim && leb playback_epoch p.playback_epoch
      then err "playback receipt epoch must increase monotonically"
      else ok (record p {
        lifecycle_state =
            if replacement_epoch_claim || ltb p.playback_epoch playback_epoch
            then active
            else p.lifecycle_state;
        playback_epoch = playback_epoch;
        request_id = request_id;
        next_pcm_sample = 0;
        next_cue_sample = 0;
        pcm_started = false;
        cue_started = false;
        cues = [];
        receipt = record empty_receipt { playback_epoch = playback_epoch; request_id = request_id };
      })

  unfoldable pub invalidate : PlaybackReceiptProbe → ℕ → Result String PlaybackReceiptProbe
  invalidate p playback_epoch =
      if playback_epoch == 0
      then err "playback receipt epoch must be non-zero"
      else if leb playback_epoch p.playback_epoch
      then err "playback receipt epoch must increase monotonically"
      else ok (record p {
        playback_epoch = playback_epoch;
        lifecycle_state = invalidated;
        request_id = 0;
        next_pcm_sample = 0;
        next_cue_sample = 0;
        pcm_started = false;
        cue_started = false;
        cues = [];
        receipt = record empty_receipt { playback_epoch = playback_epoch };
      })

  -- `observe_pcm` once the range has been found to end at `end_sample`.
  unfoldable pub accept_pcm :
      PlaybackReceiptProbe → PcmChunk → ℕ → PlaybackReceiptProbe × PlaybackReceiptStatus
  accept_pcm p chunk end_sample =
      let receipt =
        if p.receipt.sample_rate == 0
        then record (p.receipt) { sample_rate = chunk.format.sample_rate }
        else p.receipt in
      if p.pcm_started && chunk.first_sample != p.next_pcm_sample
      then (
        record p { receipt = record receipt { pcm_contiguous = false } },
        PlaybackReceiptStatus.discontinuous_pcm,
      )
      else if not p.pcm_started && chunk.first_sample != 0
      then (
        record p { receipt = record receipt { pcm_contiguous = false } },
        PlaybackReceiptStatus.discontinuous_pcm,
      )
      else (
        record p {
          pcm_started = true;
          next_pcm_sample = end_sample;
          receipt = record receipt {
            pcm_chunk_count = add_u64 receipt.pcm_chunk_count 1;
            pcm_sample_count = end_sample;
          };
        },
        PlaybackReceiptStatus.accepted,
      )

  unfoldable pub observe_pcm :
      PlaybackReceiptProbe → ℕ → PcmChunk → PlaybackReceiptProbe × PlaybackReceiptStatus
  observe_pcm p playback_epoch chunk =
      if playback_epoch != p.playback_epoch
      then (p, PlaybackReceiptStatus.stale_epoch)
      else if p.request_id == 0 || chunk.request_id != p.request_id
      then (p, PlaybackReceiptStatus.stale_request)
      else if p.receipt.terminal
      then (p, PlaybackReceiptStatus.already_terminal)
      else if chunk.sample_count == 0
      then (p, PlaybackReceiptStatus.invalid_range)
      else if chunk.format.sample_rate == 0
      then (p, PlaybackReceiptStatus.invalid_sample_rate)
      else if p.receipt.sample_rate != 0 && p.receipt.sample_rate != chunk.format.sample_rate
      then (p, PlaybackReceiptStatus.sample_rate_mismatch)
      else elim (range_end chunk.first_sample chunk.sample_count) [
        | none ↦ (p, PlaybackReceiptStatus.invalid_range)
        | some end_sample ↦ accept_pcm p chunk end_sample
      ]

  -- `append_cue` once the range has been found to end at `end_sample`.
  unfoldable pub accept_cue :
      PlaybackReceiptProbe → PlaybackCue → ℕ → PlaybackReceiptProbe × PlaybackReceiptStatus
  accept_cue p cue end_sample =
      if p.cue_started && cue.first_sample != p.next_cue_sample
      then (
        record p { receipt = record (p.receipt) { cue_contiguous = false } },
        PlaybackReceiptStatus.discontinuous_cue,
      )
      else if leb p.max_cues (length p.cues)
      then (
        record p { receipt = record (p.receipt) { cue_history_overflow = true } },
        PlaybackReceiptStatus.cue_history_full,
      )
      else if ltb (u64_max - cue.sample_count) p.receipt.cue_sample_count
      then (p, PlaybackReceiptStatus.invalid_range)
      else (
        record p {
          cue_started = true;
          next_cue_sample = end_sample;
          cues = p.cues ++ (cue ∷ []);
          receipt = record (p.receipt) {
            cue_count = add_u64 p.receipt.cue_count 1;
            cue_sample_count = add_u64 p.receipt.cue_sample_count cue.sample_count;
          };
        },
        PlaybackReceiptStatus.accepted,
      )

  unfoldable pub append_cue :
      PlaybackReceiptProbe → PlaybackCue → PlaybackReceiptProbe × PlaybackReceiptStatus
  append_cue p cue =
      if cue.playback_epoch != p.playback_epoch
      then (p, PlaybackReceiptStatus.stale_epoch)
      else if p.request_id == 0 || cue.request_id != p.request_id
      then (p, PlaybackReceiptStatus.stale_request)
      else if p.receipt.terminal
      then (p, PlaybackReceiptStatus.already_terminal)
      else if cue.sample_count == 0
      then (p, PlaybackReceiptStatus.invalid_range)
      else if not (is_finite cue.mouth_open) || not (is_finite cue.activity)
      then (p, PlaybackReceiptStatus.invalid_range)
      else elim (range_end cue.first_sample cue.sample_count) [
        | none ↦ (p, PlaybackReceiptStatus.invalid_range)
        | some end_sample ↦ accept_cue p cue end_sample
      ]

  -- A cue covers a sample position.
  unfoldable pub covers : PlaybackCue → ℕ → Bool
  covers cue sample = elim (range_end cue.first_sample cue.sample_count) [
    | none ↦ false
    | some end_sample ↦ leb cue.first_sample sample && ltb sample end_sample
  ]

  -- The loop of `select`: the first cue that covers the position.
  unfoldable pub find_cue : List PlaybackCue → ℕ → Option PlaybackCue
  find_cue [] sample = none
  find_cue (cue ∷ cues) sample =
      let rest = find_cue cues sample in if covers cue sample then some cue else rest

  unfoldable pub select : PlaybackReceiptProbe → PlaybackCursorSnapshot → PlaybackCueSelection
  select p snapshot =
      let selection : SelectionStatus → PlaybackCue → PlaybackCueSelection = λ status cue. record {
        status = status;
        playback_epoch = snapshot.playback_epoch;
        request_id = snapshot.request_id;
        cursor_sample = snapshot.utterance_sample;
        cue = cue;
      } in
      if snapshot.playback_epoch != p.playback_epoch
      then selection SelectionStatus.stale_epoch empty_cue
      else if p.request_id == 0 || snapshot.request_id != p.request_id
      then selection SelectionStatus.stale_request empty_cue
      else if not snapshot.position_available
      then selection cursor_unavailable empty_cue
      else if p.receipt.sample_rate == 0 || snapshot.sample_rate != p.receipt.sample_rate
      then selection SelectionStatus.sample_rate_mismatch empty_cue
      else elim (find_cue p.cues snapshot.utterance_sample) [
        | some cue ↦ selection selected cue
        | none ↦ selection outside_cue_timeline empty_cue
      ]

  unfoldable pub mark_terminal : PlaybackReceiptProbe → ℕ → ℕ → PlaybackReceiptProbe × Bool
  mark_terminal p playback_epoch request_id =
      if playback_epoch != p.playback_epoch
        || p.request_id == 0
        || request_id != p.request_id
        || p.receipt.terminal
      then (p, false)
      else (record p { receipt = record (p.receipt) { terminal = true } }, true)
