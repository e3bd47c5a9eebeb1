-- ===== src/Playback/Receipt/Invariant.antt =====
-- What every history of calls keeps true of the probe.
use qwen3_tts_bridge_cpp.Common.{
  ℕ, ◌+◌, ◌≤◌, ◌<◌, String, ◌≡◌, refl, sym, ◌∙◌, inl, inr, Bool, true, false, some, List, [], ◌∷◌,
  ◌++◌, arith, if◌then◌else◌, Option-cases, length, All, length-append,
}
use qwen3_tts_bridge_cpp.Common.Words.{u64_max, add_u64, add_u64_small}
use qwen3_tts_bridge_cpp.Common.Result.{Result, ok, err}
use qwen3_tts_bridge_cpp.Common.Floats.{FloatOps}
use qwen3_tts_bridge_cpp.Data.{PcmChunk, IsU32}
use qwen3_tts_bridge_cpp.Playback.Receipt.{
  PlaybackReceiptProbe, PlaybackCue, PlaybackReceiptStatus, range_end, make_probe, begin,
  invalidate, accept_pcm, observe_pcm, accept_cue, append_cue, mark_terminal,
}

pub range_end-some :
    (first count stop : ℕ)
    → IsU32 count
    → range_end first count ≡ some stop
    → (stop ≡ first + count) × (0 < count) × (first + count ≤ u64_max)
unfolding range_end
range_end-some first count stop w e = ground arith

module _ (fl : FloatOps) where
  -- The cues cover `start` to `stop`, each beginning where the one before it ends.
  abbrev pub Chain : ℕ → List (PlaybackCue fl) → ℕ → Type 0
  Chain start [] stop = start ≡ stop
  Chain start (c ∷ cs) stop =
      (c.first_sample ≡ start)
      × (0 < c.sample_count)
      × (c.first_sample + c.sample_count ≤ u64_max)
      × Chain (c.first_sample + c.sample_count) cs stop

  -- The first sample of the timeline, and where it would begin if it is empty.
  abbrev pub start_of : List (PlaybackCue fl) → ℕ → ℕ
  start_of [] stop = stop
  start_of (c ∷ cs) stop = c.first_sample

  abbrev pub total : List (PlaybackCue fl) → ℕ
  total [] = 0
  total (c ∷ cs) = c.sample_count + total cs

  abbrev pub not_empty : List (PlaybackCue fl) → Bool
  not_empty [] = false
  not_empty (c ∷ cs) = true

  abbrev pub Owned : ℕ → ℕ → List (PlaybackCue fl) → Type 0
  Owned epoch request [] = Unit {0}
  Owned epoch request (c ∷ cs) =
      (c.playback_epoch ≡ epoch) × (c.request_id ≡ request) × Owned epoch request cs

  pub record IsValid (p : PlaybackReceiptProbe fl) : Type 0 where
    pub chain : Chain (start_of p.cues p.next_cue_sample) p.cues p.next_cue_sample
    pub owned : Owned p.playback_epoch p.request_id p.cues
    pub started : p.cue_started ≡ not_empty p.cues
    pub bounded : length p.cues ≤ p.max_cues
    pub counted : p.receipt.cue_count ≡ length p.cues
    pub covered : p.receipt.cue_sample_count ≡ total p.cues
    pub heard : p.receipt.pcm_sample_count ≡ p.next_pcm_sample
    pub epoch : p.receipt.playback_epoch ≡ p.playback_epoch
    pub request : p.receipt.request_id ≡ p.request_id
    pub limit : p.max_cues ≤ u64_max

  pub Chain-total :
      (start : ℕ) (cs : List (PlaybackCue fl)) (stop : ℕ)
      → Chain start cs stop
      → start + total cs ≡ stop
  Chain-total start [] stop h = omega arith
  Chain-total start (c ∷ cs) stop h =
      omega (arith, Chain-total (c.first_sample + c.sample_count) cs stop h.3)

  Chain-snoc :
      (start : ℕ) (cs : List (PlaybackCue fl)) (stop : ℕ) (c : PlaybackCue fl)
      → Chain start cs stop
      → c.first_sample ≡ stop
      → 0 < c.sample_count
      → c.first_sample + c.sample_count ≤ u64_max
      → Chain start (cs ++ (c ∷ [])) (c.first_sample + c.sample_count)
  Chain-snoc start [] stop c h e n b = (omega arith, n, b, refl)
  Chain-snoc start (x ∷ cs) stop c h e n b =
      (h.0, h.1, h.2, Chain-snoc (x.first_sample + x.sample_count) cs stop c h.3 e n b)

  total-append :
      (cs : List (PlaybackCue fl)) (c : PlaybackCue fl)
      → total (cs ++ (c ∷ [])) ≡ total cs + c.sample_count
  total-append [] c = omega arith
  total-append (x ∷ cs) c = omega (arith, total-append cs c)

  Owned-append :
      (epoch request : ℕ) (cs : List (PlaybackCue fl)) (c : PlaybackCue fl)
      → Owned epoch request cs
      → c.playback_epoch ≡ epoch
      → c.request_id ≡ request
      → Owned epoch request (cs ++ (c ∷ []))
  Owned-append epoch request [] c h e r = (e, r, tt)
  Owned-append epoch request (x ∷ cs) c h e r = (h.0, h.1, Owned-append epoch request cs c h.2 e r)

  not_empty-append :
      (cs : List (PlaybackCue fl)) (c : PlaybackCue fl) → not_empty (cs ++ (c ∷ [])) ≡ true
  not_empty-append [] c = refl
  not_empty-append (x ∷ cs) c = refl

  -- A cue that joins the timeline.
  timeline-append :
      (cs : List (PlaybackCue fl)) (stop : ℕ) (c : PlaybackCue fl)
      → Chain (start_of cs stop) cs stop
      → (not_empty cs ≡ true → c.first_sample ≡ stop)
      → 0 < c.sample_count
      → c.first_sample + c.sample_count ≤ u64_max
      → Chain
          (start_of (cs ++ (c ∷ [])) (c.first_sample + c.sample_count))
          (cs ++ (c ∷ []))
          (c.first_sample + c.sample_count)
        × (total cs + c.sample_count ≤ u64_max)
  timeline-append [] stop c h e n b = ((refl, n, b, refl), omega arith)
  timeline-append (x ∷ cs) stop c h e n b = (
    Chain-snoc x.first_sample (x ∷ cs) stop c h (e refl) n b,
    omega (arith, Chain-total x.first_sample (x ∷ cs) stop h, e refl),
  )

  -- The probe after a cue that has passed every test.
  abbrev joined : PlaybackReceiptProbe fl → PlaybackCue fl → PlaybackReceiptProbe fl
  joined p cue = record p {
    cue_started = true;
    next_cue_sample = cue.first_sample + cue.sample_count;
    cues = p.cues ++ (cue ∷ []);
    receipt = record (p.receipt) {
      cue_count = add_u64 p.receipt.cue_count 1;
      cue_sample_count = add_u64 p.receipt.cue_sample_count cue.sample_count;
    };
  }

  module _ (p : PlaybackReceiptProbe fl) (cue : PlaybackCue fl) (v : IsValid p)
      (e : cue.playback_epoch ≡ p.playback_epoch) (r : cue.request_id ≡ p.request_id)
      (n : 0 < cue.sample_count) (b : cue.first_sample + cue.sample_count ≤ u64_max) where
    joined-IsValid :
        (p.cue_started ≡ true → cue.first_sample ≡ p.next_cue_sample)
        → length p.cues < p.max_cues
        → IsValid (joined p cue)
    joined-IsValid next room =
        let (chain, small) =
          timeline-append p.cues p.next_cue_sample cue v.chain (λ k. next (v.started ∙ k)) n b in
        let size = length-append p.cues (cue ∷ []) in
        record {
          chain = chain;
          owned = Owned-append p.playback_epoch p.request_id p.cues cue v.owned e r;
          started = sym (not_empty-append p.cues cue);
          bounded = omega (arith, size);
          counted = omega (arith, size, v.counted, v.limit, add_u64_small p.receipt.cue_count 1);
          covered = omega (
            arith,
            v.covered,
            total-append p.cues cue,
            add_u64_small p.receipt.cue_sample_count cue.sample_count,
          );
          heard = v.heard;
          epoch = v.epoch;
          request = v.request;
          limit = v.limit;
        }

    accept_cue_whole : IsValid (accept_cue fl p cue (cue.first_sample + cue.sample_count)).0
    unfolding accept_cue
    accept_cue_whole = ground (arith, joined-IsValid)

  accept_cue-IsValid :
      (p : PlaybackReceiptProbe fl) (cue : PlaybackCue fl) (stop : ℕ)
      → IsU32 cue.sample_count
      → range_end cue.first_sample cue.sample_count ≡ some stop
      → IsValid p
      → cue.playback_epoch ≡ p.playback_epoch
      → cue.request_id ≡ p.request_id
      → IsValid (accept_cue fl p cue stop).0
  accept_cue-IsValid p cue stop w k v e r =
      let (at, n, b) = range_end-some cue.first_sample cue.sample_count stop w k in
      rw at (accept_cue_whole p cue v e r n b)

  append_cue-IsValid :
      (p : PlaybackReceiptProbe fl) (cue : PlaybackCue fl)
      → IsU32 cue.sample_count
      → IsValid p
      → IsValid (append_cue fl p cue).0
  unfolding append_cue
  append_cue-IsValid p cue w v = elim (Option-cases (range_end cue.first_sample cue.sample_count)) [
    | inl bad ↦ ground (arith, bad)
    | inr (stop, good) ↦ ground (arith, good, accept_cue-IsValid p cue stop w good v)
  ]

  accept_pcm-IsValid :
      (p : PlaybackReceiptProbe fl) (chunk : PcmChunk) (stop : ℕ)
      → IsValid p
      → IsValid (accept_pcm fl p chunk stop).0
  unfolding accept_pcm
  accept_pcm-IsValid p chunk stop v = ground arith

  observe_pcm-IsValid :
      (p : PlaybackReceiptProbe fl) (epoch : ℕ) (chunk : PcmChunk)
      → IsValid p
      → IsValid (observe_pcm fl p epoch chunk).0
  unfolding observe_pcm
  observe_pcm-IsValid p epoch chunk v =
      elim (Option-cases (range_end chunk.first_sample chunk.sample_count)) [
        | inl bad ↦ ground (arith, bad)
        | inr (stop, good) ↦ ground (arith, good, accept_pcm-IsValid p chunk stop v)
      ]

  -- The calls that may change a probe. What throws leaves the probe as it was.
  pub data Call : Type 0 where
    begins : ℕ → ℕ → Call
    invalidates : ℕ → Call
    observes : ℕ → PcmChunk → Call
    appends : PlaybackCue fl → Call
    terminates : ℕ → ℕ → Call

  abbrev pub after :
      PlaybackReceiptProbe fl → Result String (PlaybackReceiptProbe fl) → PlaybackReceiptProbe fl
  after p (ok q) = q
  after p (err e) = p

  unfoldable pub step : PlaybackReceiptProbe fl → Call → PlaybackReceiptProbe fl
  step p (begins epoch request) = after p (begin fl p epoch request)
  step p (invalidates epoch) = after p (invalidate fl p epoch)
  step p (observes epoch chunk) = (observe_pcm fl p epoch chunk).0
  step p (appends cue) = (append_cue fl p cue).0
  step p (terminates epoch request) = (mark_terminal fl p epoch request).0

  unfoldable pub run : PlaybackReceiptProbe fl → List Call → PlaybackReceiptProbe fl
  run p [] = p
  run p (c ∷ cs) = run (step p c) cs

  -- The widths of the arguments.
  abbrev pub IsTyped : Call → Type 0
  IsTyped (appends cue) = IsU32 cue.sample_count
  IsTyped _ = Unit {0}

  begin-IsValid :
      (p : PlaybackReceiptProbe fl) (epoch request : ℕ)
      → IsValid p
      → IsValid (after p (begin fl p epoch request))
  unfolding begin
  begin-IsValid p epoch request v = ground arith

  invalidate-IsValid :
      (p : PlaybackReceiptProbe fl) (epoch : ℕ)
      → IsValid p
      → IsValid (after p (invalidate fl p epoch))
  unfolding invalidate
  invalidate-IsValid p epoch v = ground arith

  mark_terminal-IsValid :
      (p : PlaybackReceiptProbe fl) (epoch request : ℕ)
      → IsValid p
      → IsValid (mark_terminal fl p epoch request).0
  unfolding mark_terminal
  mark_terminal-IsValid p epoch request v = ground arith

  pub step-IsValid :
      (p : PlaybackReceiptProbe fl) (c : Call) → IsTyped c → IsValid p → IsValid (step p c)
  unfolding step
  step-IsValid p (begins epoch request) w v = begin-IsValid p epoch request v
  step-IsValid p (invalidates epoch) w v = invalidate-IsValid p epoch v
  step-IsValid p (observes epoch chunk) w v = observe_pcm-IsValid p epoch chunk v
  step-IsValid p (appends cue) w v = append_cue-IsValid p cue w v
  step-IsValid p (terminates epoch request) w v = mark_terminal-IsValid p epoch request v

  run-IsValid :
      (p : PlaybackReceiptProbe fl) (cs : List Call)
      → All IsTyped cs
      → IsValid p
      → IsValid (run p cs)
  unfolding run
  run-IsValid p [] w v = v
  run-IsValid p (c ∷ cs) (w, ws) v = run-IsValid (step p c) cs ws (step-IsValid p c w v)

  make_probe-IsValid :
      (max_cues : ℕ) (p : PlaybackReceiptProbe fl)
      → max_cues ≤ u64_max
      → make_probe fl max_cues ≡ ok p
      → IsValid p
  unfolding make_probe
  make_probe-IsValid max_cues p b e = ground arith

  unfoldable pub is_accepted : PlaybackReceiptStatus → Bool
  is_accepted PlaybackReceiptStatus.accepted = true
  is_accepted _ = false

  -- The samples of the accepted PCM chunks since the last epoch began, from the answers of the calls.
  unfoldable pub samples_after : PlaybackReceiptProbe fl → Call → ℕ → ℕ
  samples_after p (begins epoch request) n = elim (begin fl p epoch request) [
    | ok q ↦ 0
    | err e ↦ n
  ]
  samples_after p (invalidates epoch) n = elim (invalidate fl p epoch) [ ok q ↦ 0 | err e ↦ n ]
  samples_after p (observes epoch chunk) n =
      if is_accepted (observe_pcm fl p epoch chunk).1 then n + chunk.sample_count else n
  samples_after p _ n = n

  unfoldable pub accepted_samples : PlaybackReceiptProbe fl → List Call → ℕ → ℕ
  accepted_samples p [] n = n
  accepted_samples p (c ∷ cs) n = accepted_samples (step p c) cs (samples_after p c n)

  record Hears (p : PlaybackReceiptProbe fl) (n : ℕ) : Type 0 where
    count : p.receipt.pcm_sample_count ≡ n
    next : p.next_pcm_sample ≡ n
    none_yet : p.pcm_started ≡ false → n ≡ 0

  begin-Hears :
      (p : PlaybackReceiptProbe fl) (epoch request n : ℕ)
      → Hears p n
      → Hears (step p (begins epoch request)) (samples_after p (begins epoch request) n)
  unfolding step samples_after begin
  begin-Hears p epoch request n h = ground arith

  invalidate-Hears :
      (p : PlaybackReceiptProbe fl) (epoch n : ℕ)
      → Hears p n
      → Hears (step p (invalidates epoch)) (samples_after p (invalidates epoch) n)
  unfolding step samples_after invalidate
  invalidate-Hears p epoch n h = ground arith

  range_end-sum : (first count stop : ℕ) → range_end first count ≡ some stop → stop ≡ first + count
  unfolding range_end
  range_end-sum first count stop e = ground (arith, e)

  accept_pcm-Hears :
      (p : PlaybackReceiptProbe fl) (chunk : PcmChunk) (stop n : ℕ)
      → stop ≡ chunk.first_sample + chunk.sample_count
      → Hears p n
      → Hears
          (accept_pcm fl p chunk stop).0
          (if is_accepted (accept_pcm fl p chunk stop).1 then n + chunk.sample_count else n)
  unfolding accept_pcm is_accepted
  accept_pcm-Hears p chunk stop n e h = ground (arith, e, h.count, h.next, h.none_yet)

  observe-Hears :
      (p : PlaybackReceiptProbe fl) (epoch : ℕ) (chunk : PcmChunk) (n : ℕ)
      → Hears p n
      → Hears (step p (observes epoch chunk)) (samples_after p (observes epoch chunk) n)
  unfolding step samples_after observe_pcm is_accepted
  observe-Hears p epoch chunk n h =
      elim (Option-cases (range_end chunk.first_sample chunk.sample_count)) [
        | inl bad ↦ ground (arith, bad)
        | inr (stop, good) ↦ ground (
          arith,
          good,
          accept_pcm-Hears p chunk stop n
              (range_end-sum chunk.first_sample chunk.sample_count stop good) h,
        )
      ]

  append-Hears :
      (p : PlaybackReceiptProbe fl) (cue : PlaybackCue fl) (n : ℕ)
      → Hears p n
      → Hears (step p (appends cue)) n
  unfolding step append_cue accept_cue
  append-Hears p cue n h = elim (Option-cases (range_end cue.first_sample cue.sample_count)) [
    | inl bad ↦ ground (arith, bad)
    | inr (stop, good) ↦ ground (arith, good, h.count, h.next, h.none_yet)
  ]

  terminate-Hears :
      (p : PlaybackReceiptProbe fl) (epoch request n : ℕ)
      → Hears p n
      → Hears (step p (terminates epoch request)) n
  unfolding step mark_terminal
  terminate-Hears p epoch request n h = ground (arith, h.count, h.next, h.none_yet)

  step-Hears :
      (p : PlaybackReceiptProbe fl) (c : Call) (n : ℕ)
      → Hears p n
      → Hears (step p c) (samples_after p c n)
  unfolding samples_after
  step-Hears p (begins epoch request) n h = begin-Hears p epoch request n h
  step-Hears p (invalidates epoch) n h = invalidate-Hears p epoch n h
  step-Hears p (observes epoch chunk) n h = observe-Hears p epoch chunk n h
  step-Hears p (appends cue) n h = append-Hears p cue n h
  step-Hears p (terminates epoch request) n h = terminate-Hears p epoch request n h

  run-Hears :
      (p : PlaybackReceiptProbe fl) (cs : List Call) (n : ℕ)
      → Hears p n
      → Hears (run p cs) (accepted_samples p cs n)
  unfolding run accepted_samples
  run-Hears p [] n h = h
  run-Hears p (c ∷ cs) n h = run-Hears (step p c) cs (samples_after p c n) (step-Hears p c n h)

  make_probe-Hears :
      (max_cues : ℕ) (p : PlaybackReceiptProbe fl) → make_probe fl max_cues ≡ ok p → Hears p 0
  unfolding make_probe
  make_probe-Hears max_cues p e = ground (arith, e)

  -- After any calls with arguments of their declared widths, a probe that the constructor made
  -- keeps cues of its epoch and request only, without gaps between them and within its bound, and
  -- its receipt counts them and their samples. Its count of PCM samples is the sum of the samples of
  -- the chunks that `observe_pcm` has accepted since an epoch last began or ended.
  pub run-make_probe-IsValid :
      (max_cues : ℕ) (p : PlaybackReceiptProbe fl) (cs : List Call)
      → max_cues ≤ u64_max
      → make_probe fl max_cues ≡ ok p
      → All IsTyped cs
      → IsValid (run p cs) × ((run p cs).receipt.pcm_sample_count ≡ accepted_samples p cs 0)
  run-make_probe-IsValid max_cues p cs b e w = (
    run-IsValid p cs w (make_probe-IsValid max_cues p b e),
    (run-Hears p cs 0 (make_probe-Hears max_cues p e)).count,
  )
