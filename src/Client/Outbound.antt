-- ===== src/Client/Outbound.antt =====
-- src/qwen_tts_bridge/client/qwen_tts_client.cpp: the bounds of the queue of commands.
use qwen3_tts_bridge_cpp.Common.{
  ℕ, ◌+◌, ◌≤◌, String, ◌≡◌, refl, ◌⊎◌, inl, inr, Bool, true, false, some, List, [], ◌∷◌, ◌++◌,
  arith, ◌==◌, if◌then◌else◌, Bool-cases, Option-cases, List-cases, length, length-append,
}
use qwen3_tts_bridge_cpp.Control.Messages.{
  cancel_message, ControlMessage, ControlCodec, synthesize_message, started_message,
  completed_message, cancelled_message, CompletedMessage,
}
use qwen3_tts_bridge_cpp.Data.{AudioFormat}
use qwen3_tts_bridge_cpp.Session.Types.{WorkerSessionEvent, WorkerSessionEventType}
use qwen3_tts_bridge_cpp.Session.Worker.{wait_for_event}
use qwen3_tts_bridge_cpp.Session.Calls.{Starting, Stopping, Sending}
use qwen3_tts_bridge_cpp.Client.Types.{
  QwenTtsClient, QwenTtsClientOptions, OutboundCommand, ActiveRequest, TtsCallbacks, TtsError,
  TtsRequest, PreparedText, PreparedTtsRequest, Delivery, find, emplace,
}
use qwen3_tts_bridge_cpp.Client.Deliver.{make_local_error, sample_count_for_audio}
use qwen3_tts_bridge_cpp.Client.Requests.{
  take_request, complete_request, cancel_request_locally, fail_request, fail_all_requests,
  handle_started, handle_control_event, accept_audio, handle_audio_event, handle_worker_error,
  handle_local_error, handle_event_of, handle_event, stop_session, clear_outbound_queue_locked,
}
use qwen3_tts_bridge_cpp.Client.Calls.{
  to_control_message, prepare_text, empty_prepared, refresh_prepared_text_metrics,
  outbound_command_size, allocate_request_id_locked, accept_request, submit_request,
  synthesize_prepared, synthesize_async, cancel_request, enqueue_outbound_locked, write_command,
  dispatch_event, begin_stop_client, finish_stop_client, join_threads, start_client, run_session,
}
use qwen3_tts_bridge_cpp.Client.Steps.{
  ClientStep, synthesizes, synthesizes_prepared, cancels, writes, dispatches, calls_next, next_call,
  receives, begins_stop, finishes_stop, client_step, client_run, life,
}

unfoldable pub total_bytes : {D : Type 0} → List (OutboundCommand D) → ℕ
total_bytes [] = 0
total_bytes (command ∷ rest) = outbound_command_size command.message + total_bytes rest

-- Each command remembers its size.
abbrev pub AllSized : {D : Type 0} → List (OutboundCommand D) → Type 0
AllSized [] = Unit
AllSized (command ∷ rest) =
    (command.queued_bytes ≡ outbound_command_size command.message) × AllSized rest

-- The queue is within the limits of the options, and its bytes are accounted for.
abbrev pub IsBounded : {D : Type 0} → QwenTtsClient D → Type 0
IsBounded c =
    (length c.outbound_queue ≤ c.options.max_outbound_commands)
    × (c.queued_outbound_bytes ≡ total_bytes c.outbound_queue)
    × (c.queued_outbound_bytes ≤ c.options.max_outbound_command_bytes)
    × AllSized c.outbound_queue

total_bytes-append :
    {D : Type 0} (xs : List (OutboundCommand D)) (x : OutboundCommand D)
    → total_bytes (xs ++ x ∷ []) ≡ total_bytes xs + outbound_command_size x.message
unfolding total_bytes
total_bytes-append [] x = omega arith
total_bytes-append (y ∷ xs) x = ground (arith, total_bytes-append xs x)

AllSized-append :
    {D : Type 0} (xs : List (OutboundCommand D)) (x : OutboundCommand D)
    → AllSized xs
    → x.queued_bytes ≡ outbound_command_size x.message
    → AllSized (xs ++ x ∷ [])
AllSized-append [] x h e = (e, tt)
AllSized-append (y ∷ xs) x h e = (h.0, AllSized-append xs x h.1 e)

-- The options stay, and the queue stays or is cleared.
abbrev Keeps : {D : Type 0} → QwenTtsClient D → QwenTtsClient D → Type 0
Keeps c c' =
    (c'.options ≡ c.options)
    × (((c'.outbound_queue ≡ c.outbound_queue)
          × (c'.queued_outbound_bytes ≡ c.queued_outbound_bytes))
        ⊎ ((c'.outbound_queue ≡ []) × (c'.queued_outbound_bytes ≡ 0)))

module _ {D : Type 0} where
  keeps_IsBounded : (c c' : QwenTtsClient D) → Keeps c c' → IsBounded c → IsBounded c'
  unfolding total_bytes
  keeps_IsBounded c c' (o, inl (q, n)) b = ground (arith, o, q, n, b)
  keeps_IsBounded c c' (o, inr (q, n)) b = ground (arith, o, q, n, b)

  keeps_if :
      (b : Bool) (c x y : QwenTtsClient D) → Keeps c x → Keeps c y → Keeps c (if b then x else y)
  keeps_if true c x y h i = h
  keeps_if false c x y h i = i

  take_keeps : (c : QwenTtsClient D) (id : ℕ) → Keeps c (take_request c id).0
  unfolding take_request
  take_keeps c id = elim (Option-cases (find id c.active_requests)) [
    | inl h ↦ ground (arith, h)
    | inr (r, h) ↦ ground (arith, h)
  ]

module _ {D : Type 0} (throws : Delivery → Bool) where
  fail_keeps :
      (c : QwenTtsClient D) (id : ℕ) (e : TtsError) → Keeps c (fail_request throws c id e).0
  unfolding fail_request
  fail_keeps c id e = elim (Option-cases (take_request c id).1) [
    | inl h ↦ ground (arith, h, take_keeps c id)
    | inr (r, h) ↦ ground (arith, h, take_keeps c id)
  ]

  cancel_keeps : (c : QwenTtsClient D) (id : ℕ) → Keeps c (cancel_request_locally throws c id).0
  unfolding cancel_request_locally
  cancel_keeps c id = elim (Option-cases (take_request c id).1) [
    | inl h ↦ ground (arith, h, take_keeps c id)
    | inr (r, h) ↦ ground (arith, h, take_keeps c id)
  ]

  complete_keeps :
      (c : QwenTtsClient D) (id : ℕ) (m : CompletedMessage)
      → Keeps c (complete_request throws c id m).0
  unfolding complete_request
  complete_keeps c id m = elim (Option-cases (take_request c id).1) [
    | inl h ↦ ground (arith, h, take_keeps c id)
    | inr (r, h) ↦ ground (arith, h, take_keeps c id)
  ]

  started_keeps :
      (c : QwenTtsClient D) (id : ℕ) (format : AudioFormat)
      → Keeps c (handle_started throws c id format).0
  unfolding handle_started
  started_keeps c id format = elim (Option-cases (find id c.active_requests)) [
    | inl h ↦ ground (arith, h)
    | inr (r, h) ↦ ground (arith, h)
  ]

  audio_keeps :
      (c : QwenTtsClient D) (id : ℕ) (bytes : List ℕ)
      → Keeps c (handle_audio_event throws c id bytes).0
  unfolding handle_audio_event accept_audio
  audio_keeps c id bytes = elim (Option-cases (find id c.active_requests)) [
    | inl h ↦ ground (arith, h)
    | inr (r, h) ↦ elim (Option-cases (sample_count_for_audio r.audio_format (length bytes))) [
      | inl e ↦ ground (
        arith,
        h,
        e,
        fail_keeps c id (
            make_local_error id "protocol_error" "invalid_audio_timeline"
              "worker audio payload has an unsupported format or incomplete sample frame"),
      )
      | inr (count, e) ↦ ground (arith, h, e)
    ]
  ]

  control_keeps :
      (c : QwenTtsClient D) (id : ℕ) (m : ControlMessage D)
      → Keeps c (handle_control_event throws c id m).0
  unfolding handle_control_event
  control_keeps c id (started_message m) = started_keeps c id m.audio_format
  control_keeps c id (completed_message m) = complete_keeps c id m
  control_keeps c id cancelled_message = cancel_keeps c id
  control_keeps c id _ = (refl, inl (refl, refl))

  worker_error_keeps :
      (c : QwenTtsClient D) (event : WorkerSessionEvent D)
      → Keeps c (handle_worker_error throws c event).0
  unfolding handle_worker_error fail_all_requests
  worker_error_keeps c event = elim (Bool-cases (event.request_id == 0)) [
    | inl h ↦ rw h (refl, inl (refl, refl))
    | inr h ↦ rw h (fail_keeps c event.request_id _)
  ]

  local_error_keeps :
      (codec : ControlCodec D) (c : QwenTtsClient D) (event : WorkerSessionEvent D)
      (category code : String) (env : Stopping)
      → Keeps c (handle_local_error throws codec c event category code env).0
  unfolding handle_local_error fail_all_requests stop_session clear_outbound_queue_locked
  local_error_keeps codec c event category code env = elim (Bool-cases c.terminal_failure_handled) [
    | inl h ↦ ground (arith, h)
    | inr h ↦ ground (arith, h)
  ]

  event_keeps :
      (codec : ControlCodec D) (c : QwenTtsClient D) (event : WorkerSessionEvent D) (env : Stopping)
      (kind : WorkerSessionEventType)
      → Keeps c (handle_event_of throws codec c event env kind).0
  unfolding handle_event_of
  event_keeps codec c event env WorkerSessionEventType.control =
      control_keeps c event.request_id event.control
  event_keeps codec c event env WorkerSessionEventType.audio =
      audio_keeps c event.request_id event.audio
  event_keeps codec c event env WorkerSessionEventType.worker_error = worker_error_keeps c event
  event_keeps codec c event env _ = local_error_keeps codec c event _ _ env

  dispatch_keeps :
      (codec : ControlCodec D) (c : QwenTtsClient D) (env : Stopping)
      → Keeps c (dispatch_event codec throws c env).0
  unfolding dispatch_event handle_event
  dispatch_keeps codec c env = elim (Option-cases c.session) [
    | inl h ↦ ground (arith, h)
    | inr (s, h) ↦ elim (Option-cases (wait_for_event s)) [
      | inl e ↦ ground (arith, h, e)
      | inr ((event, s'), e) ↦
          ground
            (arith, h, e, event_keeps codec (record c { session = some s' }) event env event.kind)
    ]
  ]

  stop_keeps : (c : QwenTtsClient D) (b : Bool) → Keeps c (finish_stop_client throws c b).0
  unfolding finish_stop_client join_threads fail_all_requests clear_outbound_queue_locked
  stop_keeps c b = ground arith

next_call_client :
    {D : Type 0} (c : QwenTtsClient D) (p : List Delivery) → (next_call c p).0.client ≡ c
unfolding next_call
next_call_client c [] = refl
next_call_client c (d ∷ ds) = refl

module _ {D : Type 0} where
  enqueue_lem :
      (c : QwenTtsClient D) (command : OutboundCommand D)
      → IsBounded c
      → IsBounded (enqueue_outbound_locked c command).0
  unfolding enqueue_outbound_locked total_bytes
  enqueue_lem c command b =
      let kept = record command { queued_bytes = outbound_command_size command.message } in
      ground (
        arith,
        b,
        total_bytes-append c.outbound_queue kept,
        length-append c.outbound_queue (kept ∷ []),
        AllSized-append c.outbound_queue kept b.3 refl,
      )

  cancel_lem : (c : QwenTtsClient D) (id : ℕ) → IsBounded c → IsBounded (cancel_request c id).0
  unfolding cancel_request
  cancel_lem c id b =
      let command : OutboundCommand D = record {
        request_id = id;
        message = cancel_message;
        queued_bytes = 0;
      } in
      ground (arith, b, enqueue_lem c command)

  write_lem :
      (codec : ControlCodec D) (c : QwenTtsClient D) (runs : Bool) (sending : Sending)
      → IsBounded c
      → IsBounded (write_command codec c runs sending)
  unfolding write_command total_bytes
  write_lem codec c runs sending b = elim (List-cases c.outbound_queue) [
    | inl h ↦ ground (arith, h, b)
    | inr (x, rest, h) ↦ ground (arith, h, b)
  ]

  allocate_keeps : (c : QwenTtsClient D) (id : ℕ) → Keeps c (allocate_request_id_locked c id).0
  unfolding allocate_request_id_locked
  allocate_keeps c id = ground arith

  accept_lem :
      (c : QwenTtsClient D) (id : ℕ) (r : ActiveRequest) (message : ControlMessage D)
      → IsBounded c
      → IsBounded (accept_request c id r message).0
  unfolding accept_request
  accept_lem c id r message b =
      let a = allocate_request_id_locked c id in
      let listed : QwenTtsClient D = record a.0 {
        active_requests = emplace a.1 r a.0.active_requests;
      } in
      let command : OutboundCommand D = record {
        request_id = a.1;
        message = message;
        queued_bytes = 0;
      } in
      let allocated = keeps_IsBounded c a.0 (allocate_keeps c id) b in
      let queued = enqueue_lem listed command allocated in ground (arith, b, allocated, queued)

module _ {D : Type 0} (codec : ControlCodec D) (text_of : List ℕ → String) where
  submit_lem :
      (c : QwenTtsClient D) (request : TtsRequest D) (prepared : PreparedText)
      (callbacks : TtsCallbacks)
      → IsBounded c
      → IsBounded (submit_request codec text_of c request prepared callbacks).0
  unfolding submit_request
  submit_lem c request prepared callbacks b =
      let r : ActiveRequest = record {
        callbacks = callbacks;
        audio_format = request.output;
        prepared_text = some prepared;
        next_sample = 0;
        text_context_delivered = false;
      } in
      ground (
        arith,
        b,
        accept_lem c request.id r
            (synthesize_message
              (to_control_message text_of (record request { text = prepared.effective_text })))
            b,
      )

  prepared_lem :
      (c : QwenTtsClient D) (p : PreparedTtsRequest D) (callbacks : TtsCallbacks)
      → IsBounded c
      → IsBounded (synthesize_prepared codec text_of c p callbacks).0
  unfolding synthesize_prepared
  prepared_lem c p callbacks b =
      ground (arith, b, submit_lem c p.request (refresh_prepared_text_metrics p.text) callbacks b)

  synthesize_lem :
      (c : QwenTtsClient D) (request : TtsRequest D) (callbacks : TtsCallbacks)
      → IsBounded c
      → IsBounded (synthesize_async codec text_of c request callbacks).0
  unfolding synthesize_async
  synthesize_lem c request callbacks b =
      let p =
        prepare_text c request empty_prepared
          (record { request_id = 0; category = ""; code = ""; message = "" }) in
      ground (arith, b, prepared_lem c (record { request = request; text = p.text }) callbacks b)

module _ {D : Type 0} (codec : ControlCodec D) (throws : Delivery → Bool)
    (text_of : List ℕ → String) where
  step_lem :
      (c : QwenTtsClient D) (p : List Delivery) (s : ClientStep D)
      → IsBounded c
      → IsBounded (client_step codec throws text_of c p s).0.client
  unfolding client_step begin_stop_client stop_session clear_outbound_queue_locked total_bytes
  step_lem c p (synthesizes request callbacks) b =
      synthesize_lem codec text_of c request callbacks b
  step_lem c p (synthesizes_prepared request callbacks) b =
      prepared_lem codec text_of c request callbacks b
  step_lem c p (cancels id) b = cancel_lem c id b
  step_lem c p (writes runs sending) b = write_lem codec c runs sending b
  step_lem c [] (dispatches env) b =
      rw
        (next_call_client (dispatch_event codec throws c env).0
          (dispatch_event codec throws c env).1)
        (keeps_IsBounded c (dispatch_event codec throws c env).0 (dispatch_keeps throws codec c env)
          b)
  step_lem c (d ∷ ds) (dispatches env) b = b
  step_lem c p calls_next b = rw (next_call_client c p) b
  step_lem c p (receives callback) b = b
  step_lem c p (begins_stop env) b = ground arith
  step_lem c p (finishes_stop true) b =
      keeps_IsBounded c (finish_stop_client throws c true).0 (stop_keeps throws c true) b
  step_lem c p (finishes_stop false) b =
      keeps_IsBounded c (finish_stop_client throws c false).0 (stop_keeps throws c false) b

  run_lem :
      (c : QwenTtsClient D) (p : List Delivery) (steps : List (ClientStep D))
      → IsBounded c
      → IsBounded (client_run codec throws text_of c p steps).client
  unfolding client_run
  run_lem c p [] b = b
  run_lem c p (s ∷ steps) b =
      let r = client_step codec throws text_of c p s in
      run_lem r.0.client r.1 steps (step_lem c p s b)

  start_lem :
      (c : QwenTtsClient D) (has_transport : Bool) (options : QwenTtsClientOptions D)
      (env : Starting) (stopping : Stopping) (threads_start : Bool)
      → (start_client codec throws c has_transport options env stopping threads_start).1 ≡ true
      → ((start_client codec throws c has_transport options env stopping
            threads_start).0.outbound_queue
          ≡ [])
        × ((start_client codec throws c has_transport options env stopping
              threads_start).0.queued_outbound_bytes
            ≡ 0)
        × ((start_client codec throws c has_transport options env stopping threads_start).0.options
            ≡ options)
  unfolding start_client run_session clear_outbound_queue_locked
  start_lem c has_transport options env stopping threads_start h = ground (arith, h)

  -- Of a client that has been started: whatever happens to it, its queue holds no more commands than
  -- its options allow, `queued_outbound_bytes` is the sum of what `outbound_command_size` answers for
  -- their messages, this sum is within the limit of the options, and each command in the queue
  -- carries its own part of it.
  pub outbound-IsBounded :
      (c : QwenTtsClient D) (has_transport : Bool) (options : QwenTtsClientOptions D)
      (env : Starting) (stopping : Stopping) (threads_start : Bool) (steps : List (ClientStep D))
      → (start_client codec throws c has_transport options env stopping threads_start).1 ≡ true
      → IsBounded
          (life codec throws text_of c has_transport options env stopping threads_start
            steps).client
  unfolding life total_bytes
  outbound-IsBounded c has_transport options env stopping threads_start steps started =
      let (empty, bytes, same) =
        start_lem c has_transport options env stopping threads_start started in
      run_lem (start_client codec throws c has_transport options env stopping threads_start).0 []
        steps (ground (arith, empty, bytes))
