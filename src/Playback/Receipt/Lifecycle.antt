-- ===== src/Playback/Receipt/Lifecycle.antt =====
-- Epochs and the terminal mark over histories of calls.
use qwen3_tts_bridge_cpp.Common.{
  ℕ, ◌≤◌, ◌<◌, String, ◌≡◌, refl, ◌≢◌, ◌⊎◌, inl, inr, true, ◌||◌, List, [], ◌∷◌, arith, ◌==◌,
  Bool-cases, Option-cases, All,
}
use qwen3_tts_bridge_cpp.Common.Result.{ok, err}
use qwen3_tts_bridge_cpp.Common.Floats.{FloatOps}
use qwen3_tts_bridge_cpp.Data.{PcmChunk}
use qwen3_tts_bridge_cpp.Playback.Receipt.{
  PlaybackReceiptProbe, PlaybackCue, invalidated, range_end, begin, invalidate, accept_pcm,
  observe_pcm, accept_cue, append_cue, mark_terminal,
}
use qwen3_tts_bridge_cpp.Playback.Receipt.Invariant.{
  Call, begins, invalidates, observes, appends, terminates, after, step, run,
}

module _ (fl : FloatOps) where
  -- The epoch `e` has been begun: the probe is past it, or at it and not waiting for a claim.
  record IsSpent (e : ℕ) (p : PlaybackReceiptProbe fl) : Type 0 where
    passed : e ≤ p.playback_epoch
    claimed : p.lifecycle_state ≡ invalidated → e < p.playback_epoch

  accept_pcm-IsSpent :
      (e : ℕ) (p : PlaybackReceiptProbe fl) (chunk : PcmChunk) (stop : ℕ)
      → IsSpent e p
      → IsSpent e (accept_pcm fl p chunk stop).0
  unfolding accept_pcm
  accept_pcm-IsSpent e p chunk stop h = ground arith

  observe_pcm-IsSpent :
      (e : ℕ) (p : PlaybackReceiptProbe fl) (epoch : ℕ) (chunk : PcmChunk)
      → IsSpent e p
      → IsSpent e (observe_pcm fl p epoch chunk).0
  unfolding observe_pcm
  observe_pcm-IsSpent e p epoch chunk h =
      elim (Option-cases (range_end chunk.first_sample chunk.sample_count)) [
        | inl bad ↦ ground (arith, bad)
        | inr (stop, good) ↦ ground (arith, good, accept_pcm-IsSpent e p chunk stop)
      ]

  accept_cue-IsSpent :
      (e : ℕ) (p : PlaybackReceiptProbe fl) (cue : PlaybackCue fl) (stop : ℕ)
      → IsSpent e p
      → IsSpent e (accept_cue fl p cue stop).0
  unfolding accept_cue
  accept_cue-IsSpent e p cue stop h = ground arith

  append_cue-IsSpent :
      (e : ℕ) (p : PlaybackReceiptProbe fl) (cue : PlaybackCue fl)
      → IsSpent e p
      → IsSpent e (append_cue fl p cue).0
  unfolding append_cue
  append_cue-IsSpent e p cue h = elim (Option-cases (range_end cue.first_sample cue.sample_count)) [
    | inl bad ↦ ground (arith, bad)
    | inr (stop, good) ↦ ground (arith, good, accept_cue-IsSpent e p cue stop)
  ]

  begin-IsSpent :
      (e : ℕ) (p : PlaybackReceiptProbe fl) (epoch request : ℕ)
      → IsSpent e p
      → IsSpent e (after fl p (begin fl p epoch request))
  unfolding begin
  begin-IsSpent e p epoch request h = ground arith

  invalidate-IsSpent :
      (e : ℕ) (p : PlaybackReceiptProbe fl) (epoch : ℕ)
      → IsSpent e p
      → IsSpent e (after fl p (invalidate fl p epoch))
  unfolding invalidate
  invalidate-IsSpent e p epoch h = ground arith

  mark_terminal-IsSpent :
      (e : ℕ) (p : PlaybackReceiptProbe fl) (epoch request : ℕ)
      → IsSpent e p
      → IsSpent e (mark_terminal fl p epoch request).0
  unfolding mark_terminal
  mark_terminal-IsSpent e p epoch request h = ground arith

  step-IsSpent :
      (e : ℕ) (p : PlaybackReceiptProbe fl) (c : Call fl) → IsSpent e p → IsSpent e (step fl p c)
  unfolding step
  step-IsSpent e p (begins epoch request) h = begin-IsSpent e p epoch request h
  step-IsSpent e p (invalidates epoch) h = invalidate-IsSpent e p epoch h
  step-IsSpent e p (observes epoch chunk) h = observe_pcm-IsSpent e p epoch chunk h
  step-IsSpent e p (appends cue) h = append_cue-IsSpent e p cue h
  step-IsSpent e p (terminates epoch request) h = mark_terminal-IsSpent e p epoch request h

  run-IsSpent :
      (e : ℕ) (p : PlaybackReceiptProbe fl) (cs : List (Call fl))
      → IsSpent e p
      → IsSpent e (run fl p cs)
  unfolding run
  run-IsSpent e p [] h = h
  run-IsSpent e p (c ∷ cs) h = run-IsSpent e (step fl p c) cs (step-IsSpent e p c h)

  begun-IsSpent :
      (p q : PlaybackReceiptProbe fl) (e request : ℕ) → begin fl p e request ≡ ok q → IsSpent e q
  unfolding begin
  begun-IsSpent p q e request h = ground arith

  spent_refused :
      (p : PlaybackReceiptProbe fl) (e request : ℕ)
      → IsSpent e p
      → (text : String) × (begin fl p e request ≡ err text)
  unfolding begin
  spent_refused p e request h = elim (Bool-cases (e == 0 || request == 0)) [
    | inl zero' ↦ ("playback receipt requires non-zero epoch and request id", ground (arith, zero'))
    | inr valid ↦ ("playback receipt epoch must increase monotonically", ground (arith, valid))
  ]

  -- Once an epoch has begun it cannot begin again: whatever calls follow, `begin` at that epoch throws.
  pub begin_once :
      (p q : PlaybackReceiptProbe fl) (e request later : ℕ) (cs : List (Call fl))
      → begin fl p e request ≡ ok q
      → (text : String) × (begin fl (run fl q cs) e later ≡ err text)
  begin_once p q e request later cs h =
      spent_refused (run fl q cs) e later (run-IsSpent e q cs (begun-IsSpent p q e request h))

  -- The calls that carry audio, cues and the end of playback.
  abbrev pub IsPlayback : Call fl → Type 0
  IsPlayback (begins epoch request) = ⊥
  IsPlayback (invalidates epoch) = ⊥
  IsPlayback _ = Unit {0}

  -- The epoch that such a call is addressed to.
  abbrev pub epoch_of : Call fl → ℕ
  epoch_of (begins epoch request) = epoch
  epoch_of (invalidates epoch) = epoch
  epoch_of (observes epoch chunk) = epoch
  epoch_of (appends cue) = cue.playback_epoch
  epoch_of (terminates epoch request) = epoch

  -- Such a call is for another epoch, or playback has ended.
  abbrev pub IsLate : PlaybackReceiptProbe fl → Call fl → Type 0
  IsLate p c = IsPlayback c × ((epoch_of c ≢ p.playback_epoch) ⊎ (p.receipt.terminal ≡ true))

  step-late : (p : PlaybackReceiptProbe fl) (c : Call fl) → IsLate p c → step fl p c ≡ p
  unfolding step observe_pcm append_cue mark_terminal
  step-late p (begins epoch request) h = absurd h.0
  step-late p (invalidates epoch) h = absurd h.0
  step-late p (observes epoch chunk) h = ground arith
  step-late p (appends cue) h = ground arith
  step-late p (terminates epoch request) h = ground arith

  -- Any number of PCM chunks, cues and terminal marks that are for another epoch, or that come
  -- after the terminal mark, leave the whole probe as it is.
  pub run-late :
      (p : PlaybackReceiptProbe fl) (cs : List (Call fl)) → All (IsLate p) cs → run fl p cs ≡ p
  unfolding run
  run-late p [] h = refl
  run-late p (c ∷ cs) h = rw (step-late p c h.0) (run-late p cs h.1)
