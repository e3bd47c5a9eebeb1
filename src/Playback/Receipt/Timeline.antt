-- ===== src/Playback/Receipt/Timeline.antt =====
-- `select` on the timeline of a valid probe.
use mathlib.Core.List.{Mem, mem-cons_self, mem-cons_of_mem}
use qwen3_tts_bridge_cpp.Common.{
  ℕ, ◌+◌, ◌≤◌, ◌<◌, ◌≡◌, refl, ◌∙◌, ◌≢◌, ◌⊎◌, inl, inr, Bool, true, false, ◌&&◌, none, some, List,
  [], ◌∷◌, arith, ltb, leb, Bool-cases, All,
}
use qwen3_tts_bridge_cpp.Common.Words.{u64_max}
use qwen3_tts_bridge_cpp.Common.Floats.{FloatOps}
use qwen3_tts_bridge_cpp.Playback.Receipt.{
  PlaybackReceiptProbe, PlaybackCue, PlaybackCursorSnapshot, selected, outside_cue_timeline,
  range_end, covers, find_cue, select,
}
use qwen3_tts_bridge_cpp.Playback.Receipt.Invariant.{Chain, Chain-total, start_of, IsValid}

module _ (fl : FloatOps) where
  abbrev pub Covers : ℕ → PlaybackCue fl → Type 0
  Covers s c = (c.first_sample ≤ s) × (s < c.first_sample + c.sample_count)

  abbrev covers_test : PlaybackCue fl → ℕ → Bool
  covers_test c s = leb c.first_sample s && ltb s (c.first_sample + c.sample_count)

  covers_lem :
      (c : PlaybackCue fl) (s : ℕ)
      → 0 < c.sample_count
      → c.first_sample + c.sample_count ≤ u64_max
      → covers fl c s ≡ covers_test c s
  unfolding covers range_end
  covers_lem c s n b = ground arith

  -- Nothing of a chain covers a sample before its start.
  before_start :
      (start : ℕ) (cs : List (PlaybackCue fl)) (stop s : ℕ)
      → Chain fl start cs stop
      → s < start
      → All (λ c. ¬ Covers s c) cs
  before_start start [] stop s h k = tt
  before_start start (c ∷ cs) stop s h k =
      (λ x. omega arith, before_start (c.first_sample + c.sample_count) cs stop s h.3 (omega arith))

  find_cue_outside :
      (start : ℕ) (cs : List (PlaybackCue fl)) (stop s : ℕ)
      → Chain fl start cs stop
      → (s < start) ⊎ (stop ≤ s)
      → find_cue fl cs s ≡ none
  unfolding find_cue
  find_cue_outside start [] stop s h k = refl
  find_cue_outside start (c ∷ cs) stop s h k = ground (
    arith,
    covers_lem c s h.1 h.2,
    Chain-total fl (c.first_sample + c.sample_count) cs stop h.3,
    find_cue_outside (c.first_sample + c.sample_count) cs stop s h.3,
  )

  -- The cue that `find_cue` returns.
  pub record Found (s : ℕ) (cs : List (PlaybackCue fl)) (c : PlaybackCue fl) : Type 0 where
    pub found : find_cue fl cs s ≡ some c
    pub member : Mem c cs
    pub covering : Covers s c
    pub unique : All (λ d. Covers s d → d ≡ c) cs

  All-map {κ μ} :
      (P : PlaybackCue fl → Type κ) (Q : PlaybackCue fl → Type μ)
      → ((c : PlaybackCue fl) → P c → Q c)
      → (cs : List (PlaybackCue fl)) → All P cs
      → All Q cs
  All-map P Q f [] h = tt
  All-map P Q f (c ∷ cs) h = (f c h.0, All-map P Q f cs h.1)

  find_cue_here :
      (c : PlaybackCue fl) (cs : List (PlaybackCue fl)) (stop s : ℕ)
      → Chain fl c.first_sample (c ∷ cs) stop
      → Covers s c
      → Found s (c ∷ cs) c
  unfolding find_cue
  find_cue_here c cs stop s h k = record {
    found = ground (arith, covers_lem c s h.1 h.2);
    member = mem-cons_self;
    covering = k;
    unique = (
      λ x. refl,
      All-map (λ d. ¬ Covers s d) (λ d. Covers s d → d ≡ c) (λ d out x. absurd (out x)) cs
          (before_start (c.first_sample + c.sample_count) cs stop s h.3 k.1),
    );
  }

  find_cue_there :
      (c d : PlaybackCue fl) (cs : List (PlaybackCue fl)) (s : ℕ)
      → covers fl c s ≡ false
      → ¬ Covers s c
      → Found s cs d
      → Found s (c ∷ cs) d
  unfolding find_cue
  find_cue_there c d cs s e out f = record {
    found = rw e f.found;
    member = mem-cons_of_mem c f.member;
    covering = f.covering;
    unique = (λ x. absurd (out x), f.unique);
  }

  find_cue_inside :
      (start : ℕ) (cs : List (PlaybackCue fl)) (stop s : ℕ)
      → Chain fl start cs stop
      → start ≤ s
      → s < stop
      → (c : PlaybackCue fl) × Found s cs c
  find_cue_inside start [] stop s h lo hi = absurd (omega arith)
  find_cue_inside start (c ∷ cs) stop s h lo hi = elim (Bool-cases (covers_test c s)) [
    | inl yes' ↦ (c, find_cue_here c cs stop s (refl, h.1, h.2, h.3) (ground arith))
    | inr no' ↦
        let (d, f) =
          find_cue_inside (c.first_sample + c.sample_count) cs stop s h.3 (ground arith) hi in
        (d, find_cue_there c d cs s (covers_lem c s h.1 h.2 ∙ no') (λ k. ground arith) f)
  ]

  -- The snapshot is of the probe's epoch, request and sample rate, and has a position.
  pub record IsCurrent (p : PlaybackReceiptProbe fl) (snapshot : PlaybackCursorSnapshot)
      : Type 0 where
    pub epoch : snapshot.playback_epoch ≡ p.playback_epoch
    pub request : snapshot.request_id ≡ p.request_id
    pub routed : p.request_id ≢ 0
    pub rate : snapshot.sample_rate ≡ p.receipt.sample_rate
    pub known_rate : p.receipt.sample_rate ≢ 0
    pub position : snapshot.position_available ≡ true

  select_found :
      (p : PlaybackReceiptProbe fl) (snapshot : PlaybackCursorSnapshot) (c : PlaybackCue fl)
      → IsCurrent p snapshot
      → find_cue fl p.cues snapshot.utterance_sample ≡ some c
      → ((select fl p snapshot).status ≡ selected) × ((select fl p snapshot).cue ≡ c)
  unfolding select
  select_found p snapshot c h e = ground arith

  select_missing :
      (p : PlaybackReceiptProbe fl) (snapshot : PlaybackCursorSnapshot)
      → IsCurrent p snapshot
      → find_cue fl p.cues snapshot.utterance_sample ≡ none
      → (select fl p snapshot).status ≡ outside_cue_timeline
  unfolding select
  select_missing p snapshot h e = ground arith

  -- For a current snapshot a valid probe selects a cue when the cursor is inside the timeline of
  -- its cues: one that the probe holds, that covers the cursor, and that is the only one to do so.
  pub select_inside :
      (p : PlaybackReceiptProbe fl) (snapshot : PlaybackCursorSnapshot)
      → IsValid fl p
      → IsCurrent p snapshot
      → start_of fl p.cues p.next_cue_sample ≤ snapshot.utterance_sample
      → snapshot.utterance_sample < p.next_cue_sample
      → let r = select fl p snapshot in
        (r.status ≡ selected)
        × Mem r.cue p.cues
        × Covers snapshot.utterance_sample r.cue
        × All (λ d. Covers snapshot.utterance_sample d → d ≡ r.cue) p.cues
  select_inside p snapshot v h lo hi =
      let s = snapshot.utterance_sample in
      let (c, f) =
        find_cue_inside (start_of fl p.cues p.next_cue_sample) p.cues p.next_cue_sample s v.chain lo
          hi in
      let (status, cue) = select_found p snapshot c h f.found in
      rw cue (status, f.member, f.covering, f.unique)

  -- For a current snapshot a valid probe answers that the cursor is outside the timeline when the
  -- cursor is before its first cue or not before the end of its last.
  pub select_outside :
      (p : PlaybackReceiptProbe fl) (snapshot : PlaybackCursorSnapshot)
      → IsValid fl p
      → IsCurrent p snapshot
      → (snapshot.utterance_sample < start_of fl p.cues p.next_cue_sample)
        ⊎ (p.next_cue_sample ≤ snapshot.utterance_sample)
      → (select fl p snapshot).status ≡ outside_cue_timeline
  select_outside p snapshot v h out = select_missing p snapshot h (
      find_cue_outside (start_of fl p.cues p.next_cue_sample) p.cues p.next_cue_sample
        snapshot.utterance_sample v.chain out)
