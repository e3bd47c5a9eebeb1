-- ===== src/Client/Requests.antt =====
-- src/qwen_tts_bridge/client/qwen_tts_client.cpp: what the dispatcher thread makes of the session's
-- events. Each function is a method; it returns the client and the callbacks that it has to call, in
-- their order. They are called one by one, by the steps of Client/Steps.
use qwen3_tts_bridge_cpp.Common.{
  ℕ, String, Bool, true, false, not, ◌||◌, Option, none, some, List, [], ◌++◌, ◌==◌, if◌then◌else◌,
  length,
}
use text.Mathlib.Text.{◌==◌ as ◌≈◌}
use qwen3_tts_bridge_cpp.Common.Words.{add_u64}
use qwen3_tts_bridge_cpp.Data.{AudioFormat}
use qwen3_tts_bridge_cpp.Control.Messages.{
  ControlMessage, ControlCodec, started_message, completed_message, cancelled_message,
  CompletedMessage,
}
use qwen3_tts_bridge_cpp.Session.Types.{WorkerSessionEvent, WorkerSessionEventType}
use qwen3_tts_bridge_cpp.Session.Calls.{Stopping, stop}
use qwen3_tts_bridge_cpp.Client.Types.{
  QwenTtsClient, ActiveRequest, TtsError, Delivery, completed, completion_metadata, cancelled,
  error, find, erase, update,
}
use qwen3_tts_bridge_cpp.Client.Deliver.{
  sample_count_for_audio, make_local_error, is_none, completion_of, pending_text,
  invoke_user_callback, fail_each, deliver_text, deliver_chunk,
}

module _ {D : Type 0} where
  -- The common part of the terminal events: the request leaves the map.
  unfoldable pub take_request : QwenTtsClient D → ℕ → QwenTtsClient D × Option ActiveRequest
  take_request c request_id = elim (find request_id c.active_requests) [
    | none ↦ (
      record c { duplicate_terminal_event_count = add_u64 c.duplicate_terminal_event_count 1 },
      none,
    )
    | some r ↦ (record c { active_requests = erase request_id c.active_requests }, some r)
  ]

  unfoldable pub clear_outbound_queue_locked : QwenTtsClient D → QwenTtsClient D
  clear_outbound_queue_locked c = record c { outbound_queue = []; queued_outbound_bytes = 0 }

  -- `session->stop()`.
  unfoldable pub stop_session : ControlCodec D → QwenTtsClient D → Stopping → QwenTtsClient D
  stop_session codec c env = record c {
    session = elim c.session [ none ↦ none | some s ↦ some (stop codec s env) ];
  }

module _ (throws : Delivery → Bool) where
  module _ {D : Type 0} where
    unfoldable pub complete_request :
        QwenTtsClient D → ℕ → CompletedMessage → QwenTtsClient D × List Delivery
    complete_request c request_id m =
        let (c', taken) = take_request c request_id in
        let hook = c.options.on_callback_exception in
        elim taken [
          | none ↦ (c', [])
          | some r ↦ (
            c',
            invoke_user_callback throws r.callbacks.on_completion_metadata hook request_id
                  (completion_metadata (completion_of m))
                ++ invoke_user_callback throws r.callbacks.on_completed hook request_id completed,
          )
        ]

    unfoldable pub cancel_request_locally : QwenTtsClient D → ℕ → QwenTtsClient D × List Delivery
    cancel_request_locally c request_id =
        let (c', taken) = take_request c request_id in
        elim taken [
          | none ↦ (c', [])
          | some r ↦ (
            c',
            invoke_user_callback throws r.callbacks.on_cancelled c.options.on_callback_exception
                request_id cancelled,
          )
        ]

    unfoldable pub fail_request : QwenTtsClient D → ℕ → TtsError → QwenTtsClient D × List Delivery
    fail_request c request_id e =
        let (c', taken) = take_request c request_id in
        elim taken [
          | none ↦ (c', [])
          | some r ↦ (
            c',
            invoke_user_callback throws r.callbacks.on_error c.options.on_callback_exception
                request_id (error e),
          )
        ]

    unfoldable pub fail_all_requests : QwenTtsClient D → TtsError → QwenTtsClient D × List Delivery
    fail_all_requests c e = (
      record c { active_requests = [] },
      fail_each throws c.options.on_callback_exception e c.active_requests,
    )

    unfoldable pub handle_started :
        QwenTtsClient D → ℕ → AudioFormat → QwenTtsClient D × List Delivery
    handle_started c request_id format = elim (find request_id c.active_requests) [
      | none ↦ (c, [])
      | some r ↦
          let r' : ActiveRequest = record r {
            audio_format = format;
            text_context_delivered = r.text_context_delivered || not (is_none (pending_text r));
          } in
          (
            record c { active_requests = update request_id r' c.active_requests },
            deliver_text throws r.callbacks.on_text_prepared c.options.on_callback_exception
                request_id (pending_text r),
          )
    ]

    unfoldable pub handle_control_event :
        QwenTtsClient D → ℕ → ControlMessage D → QwenTtsClient D × List Delivery
    handle_control_event c request_id (started_message m) =
        handle_started c request_id m.audio_format
    handle_control_event c request_id (completed_message m) = complete_request c request_id m
    handle_control_event c request_id cancelled_message = cancel_request_locally c request_id
    handle_control_event c request_id _ = (c, [])

    -- An audio event of the request `r`, of `count` samples.
    unfoldable pub accept_audio :
        QwenTtsClient D → ℕ → ActiveRequest → List ℕ → ℕ → QwenTtsClient D × List Delivery
    accept_audio c request_id r bytes count =
        let hook = c.options.on_callback_exception in
        let r' : ActiveRequest = record r {
          next_sample = add_u64 r.next_sample count;
          text_context_delivered = r.text_context_delivered || not (is_none (pending_text r));
        } in
        (
          record c { active_requests = update request_id r' c.active_requests },
          deliver_text throws r.callbacks.on_text_prepared hook request_id (pending_text r)
              ++ deliver_chunk throws r.callbacks hook (record {
                request_id = request_id;
                format = r.audio_format;
                bytes = bytes;
                first_sample = r.next_sample;
                sample_count = count;
              }),
        )

    unfoldable pub handle_audio_event :
        QwenTtsClient D → ℕ → List ℕ → QwenTtsClient D × List Delivery
    handle_audio_event c request_id bytes = elim (find request_id c.active_requests) [
      | none ↦ (
        record c { late_audio_after_terminal_count = add_u64 c.late_audio_after_terminal_count 1 },
        [],
      )
      | some r ↦ elim (sample_count_for_audio r.audio_format (length bytes)) [
        | some count ↦ accept_audio c request_id r bytes count
        | none ↦
            if length bytes == 0
            then accept_audio c request_id r bytes 0
            else fail_request c request_id (
                make_local_error request_id "protocol_error" "invalid_audio_timeline"
                  "worker audio payload has an unsupported format or incomplete sample frame")
      ]
    ]

    unfoldable pub handle_worker_error :
        QwenTtsClient D → WorkerSessionEvent D → QwenTtsClient D × List Delivery
    handle_worker_error c event =
        let e : TtsError = record {
          request_id = event.request_id;
          category = event.error.category;
          code = event.error.code;
          message = event.error.message;
        } in
        if event.request_id == 0 then fail_all_requests c e else fail_request c event.request_id e

    unfoldable pub handle_local_error :
        ControlCodec D
        → QwenTtsClient D
        → WorkerSessionEvent D
        → String
        → String
        → Stopping
        → QwenTtsClient D × List Delivery
    handle_local_error codec c event category code env =
        let c' =
          clear_outbound_queue_locked
            (record c { terminal_failure_handled = true; running = false; stopping = true }) in
        let message = if event.message ≈ "" then code else event.message in
        if c.terminal_failure_handled
        then (c, [])
        else fail_all_requests (stop_session codec c' env)
            (make_local_error event.request_id category code message)

    unfoldable pub handle_event_of :
        ControlCodec D
        → QwenTtsClient D
        → WorkerSessionEvent D
        → Stopping
        → WorkerSessionEventType
        → QwenTtsClient D × List Delivery
    handle_event_of codec c event env WorkerSessionEventType.control =
        handle_control_event c event.request_id event.control
    handle_event_of codec c event env WorkerSessionEventType.audio =
        handle_audio_event c event.request_id event.audio
    handle_event_of codec c event env WorkerSessionEventType.worker_error =
        handle_worker_error c event
    handle_event_of codec c event env WorkerSessionEventType.transport_error =
        handle_local_error codec c event "transport_error" "transport_error" env
    handle_event_of codec c event env WorkerSessionEventType.protocol_error =
        handle_local_error codec c event "protocol_error" "protocol_error" env
    handle_event_of codec c event env WorkerSessionEventType.session_error =
        handle_local_error codec c event "session_error" "session_error" env
    handle_event_of codec c event env WorkerSessionEventType.exited =
        handle_local_error codec c event "transport_error" "worker_exited" env

    unfoldable pub handle_event :
        ControlCodec D
        → QwenTtsClient D
        → WorkerSessionEvent D
        → Stopping
        → QwenTtsClient D × List Delivery
    handle_event codec c event env = handle_event_of codec c event env event.kind
