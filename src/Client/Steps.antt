-- ===== src/Client/Steps.antt =====
-- src/qwen_tts_bridge/client/qwen_tts_client.cpp: what can happen to a client that runs, in any
-- order: calls of its owner, rounds of its threads, and callbacks of the transport. The dispatcher
-- calls the callbacks of an event one by one and without the lock, so that between two of them there
-- may be steps of other threads, and calls that the callback itself has made. `pending` are the
-- callbacks that its handler has still to call.
use qwen3_tts_bridge_cpp.Common.{
  ℕ, String, Bool, true, false, none, some, List, [], ◌∷◌, ◌++◌, ◌==◌, if◌then◌else◌,
}
use qwen3_tts_bridge_cpp.Control.Messages.{ControlCodec}
use qwen3_tts_bridge_cpp.Session.Calls.{Starting, Stopping, Sending, Callback, deliver}
use qwen3_tts_bridge_cpp.Client.Types.{
  QwenTtsClientOptions, QwenTtsClient, TtsRequest, PreparedTtsRequest, TtsCallbacks, Delivery,
}
use qwen3_tts_bridge_cpp.Client.Calls.{
  start_client, synthesize_async, synthesize_prepared, cancel_request, write_command,
  dispatch_event, begin_stop_client, finish_stop_client,
}

pub data ClientStep (D : Type 0) : Type 0 where
  synthesizes : TtsRequest D → TtsCallbacks → ClientStep D
  synthesizes_prepared : PreparedTtsRequest D → TtsCallbacks → ClientStep D
  cancels : ℕ → ClientStep D
  writes : Bool → Sending → ClientStep D
  dispatches : Stopping → ClientStep D
  calls_next : ClientStep D
  receives : Callback → ClientStep D
  begins_stop : Stopping → ClientStep D
  finishes_stop : Bool → ClientStep D

-- The client behind a step, the request that it has accepted, and the callbacks that it has called.
pub record Outcome (D : Type 0) : Type 0 where
  pub client : QwenTtsClient D
  pub accepted : List ℕ
  pub calls : List Delivery

abbrev pub outcome_of : {D : Type 0} → QwenTtsClient D × ℕ × List Delivery → Outcome D
outcome_of (c, request_id, calls) = record {
  client = c;
  accepted = if request_id == 0 then [] else request_id ∷ [];
  calls = calls;
}

abbrev pub silent : {D : Type 0} → QwenTtsClient D → Outcome D
silent c = record { client = c; accepted = []; calls = [] }

abbrev pub calling : {D : Type 0} → QwenTtsClient D × List Delivery → Outcome D
calling (c, calls) = record { client = c; accepted = []; calls = calls }

-- The handler that runs calls its next callback.
unfoldable pub next_call :
    {D : Type 0} → QwenTtsClient D → List Delivery → Outcome D × List Delivery
next_call c [] = (silent c, [])
next_call c (d ∷ ds) = (calling (c, d ∷ []), ds)

module _ {D : Type 0} (codec : ControlCodec D) (throws : Delivery → Bool)
    (text_of : List ℕ → String) where
  -- The dispatcher takes an event when it has no callbacks left to call, and calls the first one of
  -- that event. A `stop` from another thread has waited for the dispatcher at its join; a `stop` from
  -- a callback does not wait, and its calls come before those that are pending.
  unfoldable pub client_step :
      QwenTtsClient D → List Delivery → ClientStep D → Outcome D × List Delivery
  client_step c pending (synthesizes request callbacks) =
      (outcome_of (synthesize_async codec text_of c request callbacks), pending)
  client_step c pending (synthesizes_prepared request callbacks) =
      (outcome_of (synthesize_prepared codec text_of c request callbacks), pending)
  client_step c pending (cancels request_id) = (silent (cancel_request c request_id).0, pending)
  client_step c pending (writes transport_runs sending) =
      (silent (write_command codec c transport_runs sending), pending)
  client_step c [] (dispatches env) =
      let (c', calls) = dispatch_event codec throws c env in next_call c' calls
  client_step c (d ∷ ds) (dispatches env) = (silent c, d ∷ ds)
  client_step c pending calls_next = next_call c pending
  client_step c pending (receives callback) = (
    silent (record c {
      session = elim c.session [ none ↦ none | some s ↦ some (deliver codec s callback) ];
    }),
    pending,
  )
  client_step c pending (begins_stop env) = (silent (begin_stop_client codec c env), pending)
  client_step c pending (finishes_stop true) = (calling (finish_stop_client throws c true), pending)
  client_step c pending (finishes_stop false) =
      let (c', calls) = finish_stop_client throws c false in (calling (c', pending ++ calls), [])

  -- Behind the last step the handler that runs calls what is left.
  unfoldable pub client_run : QwenTtsClient D → List Delivery → List (ClientStep D) → Outcome D
  client_run c pending [] = calling (c, pending)
  client_run c pending (s ∷ steps) =
      let (first, left) = client_step c pending s in
      let rest = client_run first.client left steps in
      record {
        client = rest.client;
        accepted = first.accepted ++ rest.accepted;
        calls = first.calls ++ rest.calls;
      }

  -- Steps of a client from its start on.
  unfoldable pub life :
      QwenTtsClient D
      → Bool
      → QwenTtsClientOptions D
      → Starting
      → Stopping
      → Bool
      → List (ClientStep D)
      → Outcome D
  life c has_transport options env stopping threads_start steps =
      client_run (start_client codec throws c has_transport options env stopping threads_start).0 []
        steps
