-- ===== src/Client/Story/Promises.antt =====
-- src/qwen_tts_bridge/client/qwen_tts_client.cpp: what a started client promises to its owner.
use qwen3_tts_bridge_cpp.Common.{
  ℕ, ◌+◌, ◌≤◌, String, ◌≡◌, refl, ◌∙◌, ◌≢◌, ◌⊎◌, inl, inr, Bool, true, false, some, List, [], ◌∷◌,
  ◌++◌, arith, ◌==◌, if◌then◌else◌, Bool-cases, All,
}
use qwen3_tts_bridge_cpp.Control.Messages.{ControlCodec}
use qwen3_tts_bridge_cpp.Session.Calls.{Starting, Stopping}
use qwen3_tts_bridge_cpp.Client.Types.{QwenTtsClient, QwenTtsClientOptions, Delivery}
use qwen3_tts_bridge_cpp.Client.Requests.{fail_all_requests, clear_outbound_queue_locked}
use qwen3_tts_bridge_cpp.Client.Calls.{
  synthesize_async, synthesize_prepared, finish_stop_client, start_client, run_session,
}
use qwen3_tts_bridge_cpp.Client.Steps.{
  synthesizes, synthesizes_prepared, ClientStep, finishes_stop, cancels, writes, dispatches,
  receives, begins_stop, calls_next, client_step, client_run, life,
}
use qwen3_tts_bridge_cpp.Client.Story.{
  gone, live, hear_all, notices, phase_of, phase, contains, Stage, during, listen_all, phase_in,
}
use qwen3_tts_bridge_cpp.Client.Story.Handlers.{IsOrderly}
use qwen3_tts_bridge_cpp.Client.Story.Steps.{IsHeard}
use qwen3_tts_bridge_cpp.Client.Story.Counts.{
  terminals, chunks, IsContiguous, ended_count, contiguous_lem,
}
use qwen3_tts_bridge_cpp.Client.Story.Turns.{unknown, next_accepted, step-Proceeds}
use qwen3_tts_bridge_cpp.Client.Story.Runs.{Hears, run-Hears}

abbrev pub IsAscending : ℕ → List ℕ → Type 0
IsAscending n [] = Unit
IsAscending n (k ∷ ks) = (n ≤ k) × IsAscending (k + 1) ks

module _ {D : Type 0} (codec : ControlCodec D) (throws : Delivery → Bool) where
  -- A client that has been started has no requests.
  started_lem :
      (c : QwenTtsClient D) (has_transport : Bool) (options : QwenTtsClientOptions D)
      (env : Starting) (stopping : Stopping) (threads_start : Bool)
      → (start_client codec throws c has_transport options env stopping threads_start).1 ≡ true
      → ((start_client codec throws c has_transport options env stopping
            threads_start).0.active_requests
          ≡ [])
        × ((start_client codec throws c has_transport options env stopping
              threads_start).0.next_request_id
            ≡ 1)
  unfolding start_client run_session
  started_lem c has_transport options env stopping threads_start h = ground (arith, h)

one_or_none :
    (id : ℕ)
    → ((if id == 0 then [] else id ∷ []) ≡ [])
      ⊎ ((j : ℕ) × ((if id == 0 then [] else id ∷ []) ≡ j ∷ []))
one_or_none id = elim (Bool-cases (id == 0)) [
  | inl h ↦ inl (rw h refl)
  | inr h ↦ inr (id, rw h refl)
]

contains_one : (id : ℕ) → contains id (id ∷ []) ≡ true
unfolding contains
contains_one id = ground arith

module _ {D : Type 0} (codec : ControlCodec D) (throws : Delivery → Bool)
    (text_of : List ℕ → String) where
  fresh-IsOrderly : (c : QwenTtsClient D) → c.active_requests ≡ [] → IsOrderly c
  fresh-IsOrderly c e = record { unique = rw e tt; entries = rw e tt }

  gone_phase : (k : ℕ) (c : QwenTtsClient D) → c.active_requests ≡ [] → phase k c ≡ gone
  unfolding phase_of
  gone_phase k c e = ground (arith, e)

  -- From a client without requests, each callback finds its request in its stage.
  fresh_story :
      (c : QwenTtsClient D) (steps : List (ClientStep D)) (k : ℕ)
      → c.active_requests ≡ []
      → All IsHeard steps
      → k ≢ 0
      → Hears k unknown (client_run codec throws text_of c [] steps)
  unfolding hear_all notices
  fresh_story c steps k e h ne =
      run-Hears codec throws text_of c [] steps k unknown (fresh-IsOrderly c e) h ne
        (rw (gone_phase k c e) (refl, inl refl)) (λ m. refl)

  one_at_most :
      (c : QwenTtsClient D) (p : List Delivery) (s : ClientStep D)
      → ((client_step codec throws text_of c p s).0.accepted ≡ [])
        ⊎ ((id : ℕ) × ((client_step codec throws text_of c p s).0.accepted ≡ id ∷ []))
  unfolding client_step
  one_at_most c p (synthesizes request callbacks) =
      one_or_none (synthesize_async codec text_of c request callbacks).1
  one_at_most c p (synthesizes_prepared request callbacks) =
      one_or_none (synthesize_prepared codec text_of c request callbacks).1
  one_at_most c [] (dispatches env) = inl (next_accepted _ _)
  one_at_most c p calls_next = inl (next_accepted c p)
  one_at_most c p (finishes_stop true) = inl refl
  one_at_most c p (finishes_stop false) = inl refl
  one_at_most c (d ∷ ds) (dispatches env) = inl refl
  one_at_most c p (cancels id) = inl refl
  one_at_most c p (writes runs sending) = inl refl
  one_at_most c p (receives callback) = inl refl
  one_at_most c p (begins_stop env) = inl refl

  run-IsAscending :
      (c : QwenTtsClient D) (p : List Delivery) (steps : List (ClientStep D)) (n : ℕ)
      → IsOrderly c
      → All IsHeard steps
      → (c.next_request_id ≡ 0) ⊎ (n ≤ c.next_request_id)
      → IsAscending n (client_run codec throws text_of c p steps).accepted
  unfolding client_run
  run-IsAscending c p [] n v h l = tt
  run-IsAscending c p (s ∷ steps) n v h l =
      let first = step-Proceeds codec throws text_of c p s v h.0 in
      let r = client_step codec throws text_of c p s in
      let o = r.0 in
      elim (one_at_most c p s) [
        | inl e ↦ rw e (
            run-IsAscending o.client r.1 steps n first.orderly h.1 (ground (arith, l, first.later)))
        | inr (id, e) ↦
            let new = first.new id (rw e (contains_one id)) in
            rw e (
              ground (arith, l, new.0.open_ids, new.0.reached),
              run-IsAscending o.client r.1 steps (id + 1) first.orderly h.1 (ground (arith, new.1)),
            )
      ]

  all_stops :
      (steps : List (ClientStep D)) (b : Bool)
      → All IsHeard steps
      → All IsHeard (steps ++ finishes_stop b ∷ [])
  all_stops [] b h = (tt, tt)
  all_stops (s ∷ steps) b h = (h.0, all_stops steps b h.1)

  stopped_lem :
      (c : QwenTtsClient D) (p : List Delivery) (b : Bool)
      → (client_step codec throws text_of c p (finishes_stop b)).0.client.active_requests ≡ []
  unfolding client_step finish_stop_client fail_all_requests clear_outbound_queue_locked
  stopped_lem c p true = ground arith
  stopped_lem c p false = ground arith

  ended_lem :
      (c : QwenTtsClient D) (p : List Delivery) (steps : List (ClientStep D)) (b : Bool)
      → (client_run codec throws text_of c p (steps ++ finishes_stop b ∷ [])).client.active_requests
        ≡ []
  unfolding client_run
  ended_lem c p [] b = stopped_lem c p b
  ended_lem c p (s ∷ steps) b =
      let r = client_step codec throws text_of c p s in ended_lem r.0.client r.1 steps b

  -- Of a client that has been started, and whose requests are submitted with all callbacks set: what
  -- the callbacks of an id other than 0 hear is a word of the machine `listen`, from a live request if
  -- the id has been accepted and from none otherwise, and when the last handler has made its calls
  -- the stage of the machine shows the phase of the id in the client.
  pub calls_follow_story :
      (c : QwenTtsClient D) (has_transport : Bool) (options : QwenTtsClientOptions D)
      (env : Starting) (stopping : Stopping) (threads_start : Bool) (steps : List (ClientStep D))
      (k : ℕ)
      → (start_client codec throws c has_transport options env stopping threads_start).1 ≡ true
      → All IsHeard steps
      → k ≢ 0
      → let o =
          life codec throws text_of c has_transport options env stopping threads_start steps in
        (s : Stage) × (listen_all
            (if contains k o.accepted then during (live false 0) 0 else during gone 0)
            (notices k o.calls)
          ≡ some s)
        × (phase_in s ≡ phase k o.client)
  unfolding life
  calls_follow_story c has_transport options env stopping threads_start steps k started h ne =
      fresh_story _ steps k
        (started_lem codec throws c has_transport options env stopping threads_start started).0 h ne

  -- Of a client that has been started, whose requests are submitted with all callbacks set, and that
  -- is stopped at the end: each id other than 0 hears one terminal callback if it has been accepted,
  -- and none otherwise.
  pub every_request_ends :
      (c : QwenTtsClient D) (has_transport : Bool) (options : QwenTtsClientOptions D)
      (env : Starting) (stopping : Stopping) (threads_start : Bool) (steps : List (ClientStep D))
      (b : Bool) (k : ℕ)
      → (start_client codec throws c has_transport options env stopping threads_start).1 ≡ true
      → All IsHeard steps
      → k ≢ 0
      → terminals (
          notices k
            (life codec throws text_of c has_transport options env stopping threads_start
              (steps ++ finishes_stop b ∷ [])).calls)
        ≡ (if contains k
              (life codec throws text_of c has_transport options env stopping threads_start
                (steps ++ finishes_stop b ∷ [])).accepted
            then 1
            else 0)
  unfolding life
  every_request_ends c has_transport options env stopping threads_start steps b k started h ne =
      let stops = steps ++ finishes_stop b ∷ [] in
      let first =
        (start_client codec throws c has_transport options env stopping threads_start).0 in
      let empty =
        (started_lem codec throws c has_transport options env stopping threads_start started).0 in
      let (s, heard, at) = fresh_story first stops k empty (all_stops steps b h) ne in
      let left =
        gone_phase k (client_run codec throws text_of first [] stops).client
          (ended_lem first [] steps b) in
      ended_count (contains k (client_run codec throws text_of first [] stops).accepted) s _
        (at ∙ left) heard

  -- Of a client that has been started, and whose requests are submitted with all callbacks set: the
  -- first chunk that an id other than 0 hears begins at sample 0, and each further one where the one
  -- before it ends.
  pub audio-IsContiguous :
      (c : QwenTtsClient D) (has_transport : Bool) (options : QwenTtsClientOptions D)
      (env : Starting) (stopping : Stopping) (threads_start : Bool) (steps : List (ClientStep D))
      (k : ℕ)
      → (start_client codec throws c has_transport options env stopping threads_start).1 ≡ true
      → All IsHeard steps
      → k ≢ 0
      → IsContiguous 0 (
          chunks (
            notices k
              (life codec throws text_of c has_transport options env stopping threads_start
                steps).calls))
  unfolding life
  audio-IsContiguous c has_transport options env stopping threads_start steps k started h ne =
      let first =
        (start_client codec throws c has_transport options env stopping threads_start).0 in
      let empty =
        (started_lem codec throws c has_transport options env stopping threads_start started).0 in
      let (s, heard, _) = fresh_story first steps k empty h ne in
      contiguous_lem (contains k (client_run codec throws text_of first [] steps).accepted) s _
        heard

  -- Of a client that has been started, and whose requests are submitted with all callbacks set: the
  -- ids that it accepts ascend from 1, so that none is 0 and none is accepted twice.
  pub accepted-IsAscending :
      (c : QwenTtsClient D) (has_transport : Bool) (options : QwenTtsClientOptions D)
      (env : Starting) (stopping : Stopping) (threads_start : Bool) (steps : List (ClientStep D))
      → (start_client codec throws c has_transport options env stopping threads_start).1 ≡ true
      → All IsHeard steps
      → IsAscending 1
          (life codec throws text_of c has_transport options env stopping threads_start
            steps).accepted
  unfolding life
  accepted-IsAscending c has_transport options env stopping threads_start steps started h =
      let (empty, one) =
        started_lem codec throws c has_transport options env stopping threads_start started in
      run-IsAscending _ [] steps 1 (fresh-IsOrderly _ empty) h (ground (arith, one))
