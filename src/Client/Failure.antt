-- ===== src/Client/Failure.antt =====
-- src/qwen_tts_bridge/client/qwen_tts_client.cpp: the client behind a failure of its session.
use qwen3_tts_bridge_cpp.Common.{ℕ, String, ◌≡◌, Bool, true, false, List, [], arith}
use qwen3_tts_bridge_cpp.Control.Messages.{ControlCodec}
use qwen3_tts_bridge_cpp.Session.Types.{WorkerSessionEvent, WorkerSessionEventType}
use qwen3_tts_bridge_cpp.Session.Calls.{Stopping}
use qwen3_tts_bridge_cpp.Client.Types.{
  QwenTtsClient, TtsRequest, PreparedText, PreparedTtsRequest, TtsCallbacks, Delivery,
}
use qwen3_tts_bridge_cpp.Client.Requests.{
  fail_all_requests, handle_local_error, handle_event_of, handle_event, stop_session,
  clear_outbound_queue_locked,
}
use qwen3_tts_bridge_cpp.Client.Calls.{
  is_running, refresh_prepared_text_metrics, prepare_text, empty_prepared, accept_request,
  submit_request, synthesize_prepared, synthesize_async, cancel_request,
}

-- The events that end a session.
unfoldable pub is_local_failure : WorkerSessionEventType → Bool
is_local_failure WorkerSessionEventType.control = false
is_local_failure WorkerSessionEventType.audio = false
is_local_failure WorkerSessionEventType.worker_error = false
is_local_failure _ = true

-- A client that takes no further requests.
pub record IsClosed {D : Type 0} (codec : ControlCodec D) (text_of : List ℕ → String)
    (c : QwenTtsClient D) : Type 0 where
  pub no_requests : c.active_requests ≡ []
  pub no_commands : c.outbound_queue ≡ []
  pub no_bytes : c.queued_outbound_bytes ≡ 0
  pub refuses :
      (request : TtsRequest D) (callbacks : TtsCallbacks)
      → (synthesize_async codec text_of c request callbacks).1 ≡ 0
  pub refuses_prepared :
      (p : PreparedTtsRequest D) (callbacks : TtsCallbacks)
      → (synthesize_prepared codec text_of c p callbacks).1 ≡ 0
  pub ignores : (id : ℕ) → (cancel_request c id).1 ≡ false

module _ {D : Type 0} (codec : ControlCodec D) (text_of : List ℕ → String) where
  submit_refused :
      (c : QwenTtsClient D) (request : TtsRequest D) (prepared : PreparedText)
      (callbacks : TtsCallbacks)
      → is_running c ≡ false
      → (submit_request codec text_of c request prepared callbacks).1 ≡ 0
  unfolding submit_request accept_request
  submit_refused c request prepared callbacks h = ground (arith, h)

  prepared_refused :
      (c : QwenTtsClient D) (p : PreparedTtsRequest D) (callbacks : TtsCallbacks)
      → is_running c ≡ false
      → (synthesize_prepared codec text_of c p callbacks).1 ≡ 0
  unfolding synthesize_prepared
  prepared_refused c p callbacks h =
      ground (arith, submit_refused c p.request (refresh_prepared_text_metrics p.text) callbacks h)

  synthesize_refused :
      (c : QwenTtsClient D) (request : TtsRequest D) (callbacks : TtsCallbacks)
      → is_running c ≡ false
      → (synthesize_async codec text_of c request callbacks).1 ≡ 0
  unfolding synthesize_async
  synthesize_refused c request callbacks h =
      let p =
        prepare_text c request empty_prepared
          (record { request_id = 0; category = ""; code = ""; message = "" }) in
      ground (arith, prepared_refused c (record { request = request; text = p.text }) callbacks h)

  cancel_refused :
      (c : QwenTtsClient D) (id : ℕ) → is_running c ≡ false → (cancel_request c id).1 ≡ false
  unfolding cancel_request
  cancel_refused c id h = ground (arith, h)

  closed_lem :
      (c : QwenTtsClient D)
      → c.active_requests ≡ []
      → c.outbound_queue ≡ []
      → c.queued_outbound_bytes ≡ 0
      → is_running c ≡ false
      → IsClosed codec text_of c
  closed_lem c a q n h = record {
    no_requests = a;
    no_commands = q;
    no_bytes = n;
    refuses = λ request callbacks. synthesize_refused c request callbacks h;
    refuses_prepared = λ p callbacks. prepared_refused c p callbacks h;
    ignores = λ id. cancel_refused c id h;
  }

module _ {D : Type 0} (throws : Delivery → Bool) (codec : ControlCodec D)
    (text_of : List ℕ → String) where
  local_error_closes :
      (c : QwenTtsClient D) (event : WorkerSessionEvent D) (category code : String) (env : Stopping)
      → c.terminal_failure_handled ≡ false
      → IsClosed codec text_of (handle_local_error throws codec c event category code env).0
  unfolding handle_local_error fail_all_requests stop_session clear_outbound_queue_locked is_running
  local_error_closes c event category code env h =
      closed_lem codec text_of _ (ground (arith, h)) (ground (arith, h)) (ground (arith, h))
        (ground (arith, h))

  failure_of_closes :
      (c : QwenTtsClient D) (event : WorkerSessionEvent D) (env : Stopping)
      (kind : WorkerSessionEventType)
      → is_local_failure kind ≡ true
      → c.terminal_failure_handled ≡ false
      → IsClosed codec text_of (handle_event_of throws codec c event env kind).0
  unfolding is_local_failure handle_event_of
  failure_of_closes c event env WorkerSessionEventType.control f h = cc
  failure_of_closes c event env WorkerSessionEventType.audio f h = cc
  failure_of_closes c event env WorkerSessionEventType.worker_error f h = cc
  failure_of_closes c event env _ f h = local_error_closes c event _ _ env h

  -- The first event of a session's end leaves a client without requests and without commands. It
  -- refuses whatever is submitted, prepared or not, and ignores every cancellation.
  pub local_failure_closes :
      (c : QwenTtsClient D) (event : WorkerSessionEvent D) (env : Stopping)
      → is_local_failure event.kind ≡ true
      → c.terminal_failure_handled ≡ false
      → IsClosed codec text_of (handle_event throws codec c event env).0
  unfolding handle_event
  local_failure_closes c event env f h = failure_of_closes c event env event.kind f h
