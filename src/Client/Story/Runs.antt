-- ===== src/Client/Story/Runs.antt =====
-- The runs of a client, as the callbacks of one request hear them.
use qwen3_tts_bridge_cpp.Common.{
  ℕ, String, ◌≡◌, refl, ◌∙◌, ◌≢◌, inl, inr, Bool, true, false, ◌||◌, some, List, [], ◌∷◌, ◌++◌,
  arith, if◌then◌else◌, Bool-cases, All,
}
use qwen3_tts_bridge_cpp.Control.Messages.{ControlCodec}
use qwen3_tts_bridge_cpp.Client.Types.{QwenTtsClient, Delivery}
use qwen3_tts_bridge_cpp.Client.Steps.{ClientStep, Outcome, client_step, client_run}
use qwen3_tts_bridge_cpp.Client.Story.{
  gone, hear_all, notices, phase_of, phase, contains, contains-append, Stage, listen_all, phase_in,
  notices-append,
}
use qwen3_tts_bridge_cpp.Client.Story.Handlers.{IsOrderly}
use qwen3_tts_bridge_cpp.Client.Story.Pending.{
  Follows, before_heard, unknown_lem, rest_listens, listen_all-append, rested,
}
use qwen3_tts_bridge_cpp.Client.Story.Accept.{IsNew, IsNew-IsUsed, IsNew-later, new_lem}
use qwen3_tts_bridge_cpp.Client.Story.Steps.{IsHeard}
use qwen3_tts_bridge_cpp.Client.Story.Turns.{fresh, unknown, step-Proceeds}

either_fresh : (b : Bool) → (if b then fresh else fresh) ≡ fresh
either_fresh true = refl
either_fresh false = refl

-- What the id `k` hears, from the stage `s` on or, if it is accepted meanwhile, as a live request.
abbrev pub Hears : {D : Type 0} → ℕ → Stage → Outcome D → Type 0
Hears k s o =
    (t : Stage) × (listen_all (if contains k o.accepted then fresh else s) (notices k o.calls)
      ≡ some t)
    × (phase_in t ≡ phase k o.client)

module _ {D : Type 0} (codec : ControlCodec D) (throws : Delivery → Bool)
    (text_of : List ℕ → String) where
  run_step :
      (c : QwenTtsClient D) (p : List Delivery) (s : ClientStep D) (steps : List (ClientStep D))
      (k : ℕ)
      → let r = client_step codec throws text_of c p s in
        let o = client_run codec throws text_of r.0.client r.1 steps in
        contains k (client_run codec throws text_of c p (s ∷ steps)).accepted
        ≡ contains k r.0.accepted || contains k o.accepted
  unfolding client_run
  run_step c p s steps k = contains-append k _ _

  -- An id that is accepted later is new.
  pub run-IsNew :
      (c : QwenTtsClient D) (p : List Delivery) (steps : List (ClientStep D)) (k : ℕ)
      → IsOrderly c
      → All IsHeard steps
      → contains k (client_run codec throws text_of c p steps).accepted ≡ true
      → IsNew c.next_request_id k
  unfolding client_run contains
  run-IsNew c p [] k v h e = cc
  run-IsNew c p (s ∷ steps) k v h e =
      let r = client_step codec throws text_of c p s in
      let first = step-Proceeds codec throws text_of c p s v h.0 in
      elim (Bool-cases (contains k r.0.accepted)) [
        | inl i ↦ (first.new k i).0
        | inr i ↦ IsNew-later _ _ k first.later (
            run-IsNew r.0.client r.1 steps k first.orderly h.1
              (ground (arith, e, i, run_step c p s steps k)))
      ]

  unknown_heard :
      (c : QwenTtsClient D) (p : List Delivery) (k : ℕ) (s : Stage)
      → IsOrderly c
      → Follows s (notices k p) (phase k c)
      → IsNew c.next_request_id k
      → s ≡ unknown
      → hear_all gone (notices k p) ≡ some gone
  unfolding phase_of
  unknown_heard c p k s v f m is =
      let absent = new_lem c.next_request_id k c.active_requests m v.entries in
      (rw (is, absent, phase_of) at f).0

  listen_both :
      (s t : Stage) (k : ℕ) (xs ys : List Delivery)
      → listen_all s (notices k xs) ≡ some t
      → listen_all s (notices k (xs ++ ys)) ≡ listen_all t (notices k ys)
  listen_both s t k xs ys e = rw (notices-append k xs ys) (listen_all-append s t _ _ e)

  pub run-Hears :
      (c : QwenTtsClient D) (p : List Delivery) (steps : List (ClientStep D)) (k : ℕ) (s : Stage)
      → IsOrderly c
      → All IsHeard steps
      → k ≢ 0
      → Follows s (notices k p) (phase k c)
      → (IsNew c.next_request_id k → s ≡ unknown)
      → Hears k s (client_run codec throws text_of c p steps)
  unfolding client_run contains
  run-Hears c p [] k s v h ne f n =
      let (t, e, g) = rest_listens s (notices k p) (phase k c) f in (t, e, rested t (phase k c) g)
  run-Hears c p (x ∷ steps) k s v h ne f n =
      let r = client_step codec throws text_of c p x in
      let o = client_run codec throws text_of r.0.client r.1 steps in
      let first = step-Proceeds codec throws text_of c p x v h.0 in
      rw (contains-append k r.0.accepted o.accepted) (elim (Bool-cases (contains k r.0.accepted)) [
        | inl i ↦
            let (is_new, used) = first.new k i in
            let (e, g) = first.begun k ne i (unknown_heard c p k s v f is_new (n is_new)) in
            let (t, e', q) =
              run-Hears r.0.client r.1 steps k fresh first.orderly h.1 ne g
                (λ m. elim (IsNew-IsUsed _ k m used) [ ]) in
            (
              t,
              rw i (
                  listen_both fresh fresh k r.0.calls o.calls e
                  ∙ rw (either_fresh (contains k o.accepted)) at e'),
              q,
            )
        | inr i ↦
            let (s', e, g) = first.goes_on k s ne i f in
            let (t, e', q) =
              run-Hears r.0.client r.1 steps k s' first.orderly h.1 ne g
                (λ m. (unknown_lem _ s' (rw (n (IsNew-later _ _ k first.later m)) at e)).0) in
            (
              t,
              rw i (elim (Bool-cases (contains k o.accepted)) [
                | inl j ↦
                    let m = run-IsNew r.0.client r.1 steps k first.orderly h.1 j in
                    let reports =
                      (unknown_lem _ s' (rw (n (IsNew-later _ _ k first.later m)) at e)).1 in
                    rw j (
                      listen_both fresh fresh k r.0.calls o.calls (before_heard _ fresh reports)
                      ∙ rw j at e')
                | inr j ↦ rw j (listen_both s s' k r.0.calls o.calls e ∙ rw j at e')
              ]),
              q,
            )
      ])
