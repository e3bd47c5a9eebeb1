-- ===== src/Client/Calls.antt =====
-- src/qwen_tts_bridge/client/qwen_tts_client.cpp: the calls of the client's owner and the rounds of
-- its two threads. `text_of` reads the bytes of a text that has passed `is_valid_utf8`.
use qwen3_tts_bridge_cpp.Common.{
  ℕ, ◌+◌, ◌-◌, min, String, len, Bool, true, false, not, ◌&&◌, ◌||◌, none, some, List, [], ◌∷◌,
  ◌++◌, ltb, leb, ◌==◌, ◌!=◌, if◌then◌else◌, length,
}
use Prim.Native.String.{◌++◌ as ◌<>◌}
use text.Mathlib.Text.{◌==◌ as ◌≈◌}
use qwen3_tts_bridge_cpp.Common.Words.{u64_max}
use qwen3_tts_bridge_cpp.Control.Messages.{
  ControlMessage, hello_message, synthesize_message, cancel_message, shutdown_message,
  SynthesizeMessage, ControlCodec, is_ok,
}
use qwen3_tts_bridge_cpp.Session.Types.{WorkerSession, make_session, is_ready_state}
use qwen3_tts_bridge_cpp.Session.Worker.{wait_for_event}
use qwen3_tts_bridge_cpp.Session.Calls.{Starting, Stopping, Sending, start, send_control}
use qwen3_tts_bridge_cpp.Client.Types.{
  QwenTtsClient, QwenTtsClientOptions, OutboundCommand, ActiveRequest, TtsRequest,
  PreparedTtsRequest, TtsCallbacks, TtsError, PreparedText, Preparation, answers, Processing,
  returns, Delivery, error, find, erase, emplace,
}
use qwen3_tts_bridge_cpp.Client.Text.{is_valid_utf8, count_non_space_utf8_bytes, same_bytes}
use qwen3_tts_bridge_cpp.Client.Deliver.{make_local_error, is_none}
use qwen3_tts_bridge_cpp.Client.Requests.{
  clear_outbound_queue_locked, stop_session, handle_event, fail_all_requests,
}

unfoldable pub refresh_prepared_text_metrics : PreparedText → PreparedText
refresh_prepared_text_metrics prepared = record prepared {
  utf8_bytes = length prepared.effective_text;
  non_space_utf8_bytes = count_non_space_utf8_bytes prepared.effective_text;
  was_modified = not (same_bytes prepared.original_text prepared.effective_text);
}

unfoldable pub outbound_command_fixed_overhead : ℕ
outbound_command_fixed_overhead = 64

unfoldable pub outbound_command_size : {D : Type 0} → ControlMessage D → ℕ
outbound_command_size (hello_message m) =
    outbound_command_fixed_overhead + len m.client_name + len m.client_version
outbound_command_size (synthesize_message m) =
    outbound_command_fixed_overhead
    + len m.text
    + len m.language
    + len m.speaker
    + len m.instruction
    + len m.voice_id
    + len m.reference_audio_path
    + len m.reference_text
    + len m.output.sample_format
    + (if m.has_seed then 32 else 0)
outbound_command_size (shutdown_message m) = outbound_command_fixed_overhead + len m.mode
outbound_command_size _ = outbound_command_fixed_overhead

-- The members before `start`.
unfoldable pub make_client : {D : Type 0} → QwenTtsClientOptions D → QwenTtsClient D
make_client options = record {
  session = none;
  options = options;
  active_requests = [];
  outbound_queue = [];
  queued_outbound_bytes = 0;
  writer_joinable = false;
  dispatcher_joinable = false;
  next_request_id = 1;
  running = false;
  stopping = false;
  terminal_failure_handled = false;
  late_audio_after_terminal_count = 0;
  duplicate_terminal_event_count = 0;
}

-- What `prepare_text` answers: the flag, and what it leaves in its arguments.
pub record Prepared : Type 0 where
  pub accepted : Bool
  pub text : PreparedText
  pub failure : TtsError

module _ {D : Type 0} where
  abbrev pub refusal : TtsRequest D → PreparedText → String → String → String → Prepared
  refusal request prepared category code message = record {
    accepted = false;
    text = prepared;
    failure = make_local_error request.id category code message;
  }

  -- The checks behind a structured preparer that has answered true.
  unfoldable pub check_prepared : TtsRequest D → PreparedText → TtsError → Prepared
  check_prepared request prepared e =
      if not (same_bytes prepared.original_text request.text)
      then refusal request prepared "client_error" "prepared_text_mismatch"
          "structured text preparation returned a mismatched source text"
      else if not (is_valid_utf8 prepared.effective_text)
      then refusal request prepared "client_error" "invalid_utf8_text"
          "text preparation returned invalid UTF-8"
      else if length prepared.effective_text == 0
      then refusal request prepared "request_error" "empty_text"
          "synthesis text is empty after preprocessing"
      else record { accepted = true; text = refresh_prepared_text_metrics prepared; failure = e }

  unfoldable pub finish_preparer : TtsRequest D → Preparation → Prepared
  finish_preparer request (answers true prepared e) = check_prepared request prepared e
  finish_preparer request (answers false prepared e) =
      if e.code ≈ ""
      then refusal request prepared "client_error" "text_preprocessing_failed"
          "structured text preparation failed"
      else record { accepted = false; text = prepared; failure = e }
  finish_preparer request (Preparation.throws prepared e what) =
      refusal request prepared "client_error" "text_preprocessing_failed"
        ("text preprocessing failed: " <> what)
  finish_preparer request (Preparation.throws_unknown prepared e) =
      refusal request prepared "client_error" "text_preprocessing_failed"
        "text preprocessing failed: unknown exception"

  unfoldable pub finish_preprocessor :
      TtsRequest D → PreparedText → TtsError → Processing → Prepared
  finish_preprocessor request prepared e (returns processed_text) =
      if not (is_valid_utf8 processed_text)
      then refusal request prepared "client_error" "invalid_utf8_text"
          "text preprocessing returned invalid UTF-8"
      else if length processed_text == 0
      then refusal request prepared "request_error" "empty_text"
          "synthesis text is empty after preprocessing"
      else record {
        accepted = true;
        text =
            refresh_prepared_text_metrics
              (record prepared { original_text = request.text; effective_text = processed_text });
        failure = e;
      }
  finish_preprocessor request prepared e (Processing.throws what) =
      refusal request prepared "client_error" "text_preprocessing_failed"
        ("text preprocessing failed: " <> what)
  finish_preprocessor request prepared e Processing.throws_unknown =
      refusal request prepared "client_error" "text_preprocessing_failed"
        "text preprocessing failed: unknown exception"

  unfoldable pub prepare_text : QwenTtsClient D → TtsRequest D → PreparedText → TtsError → Prepared
  prepare_text c request prepared e = elim c.options.text_preparer [
    | some preparer ↦ finish_preparer request (preparer request prepared e)
    | none ↦ finish_preprocessor request prepared e (elim c.options.text_preprocessor [
      | none ↦ returns request.text
      | some preprocessor ↦ preprocessor request
    ])
  ]

  unfoldable pub allocate_request_id_locked : QwenTtsClient D → ℕ → QwenTtsClient D × ℕ
  allocate_request_id_locked c requested_id =
      if c.next_request_id == 0
      then (c, 0)
      else if requested_id != 0
      then (if ltb requested_id c.next_request_id
            || not (is_none (find requested_id c.active_requests))
          then (c, 0)
          else (
            record c { next_request_id = if requested_id == u64_max then 0 else requested_id + 1 },
            requested_id,
          ))
      else (
        record c {
          next_request_id = if c.next_request_id == u64_max then 0 else c.next_request_id + 1;
        },
        c.next_request_id,
      )

  unfoldable pub enqueue_outbound_locked :
      QwenTtsClient D → OutboundCommand D → QwenTtsClient D × Bool
  enqueue_outbound_locked c command =
      let command_bytes = outbound_command_size command.message in
      if leb c.options.max_outbound_commands (length c.outbound_queue)
      then (c, false)
      else if ltb c.options.max_outbound_command_bytes command_bytes
          || ltb (c.options.max_outbound_command_bytes - command_bytes) c.queued_outbound_bytes
      then (c, false)
      else (
        record c {
          queued_outbound_bytes = c.queued_outbound_bytes + command_bytes;
          outbound_queue =
              c.outbound_queue ++ (record command { queued_bytes = command_bytes } ∷ []);
        },
        true,
      )

  -- `running_ && !stopping_ && session_ != nullptr`
  unfoldable pub is_running : QwenTtsClient D → Bool
  is_running c = c.running && not c.stopping && not (is_none c.session)

  unfoldable pub cancel_request : QwenTtsClient D → ℕ → QwenTtsClient D × Bool
  cancel_request c request_id =
      if request_id == 0
      then (c, false)
      else if not (is_running c) || is_none (find request_id c.active_requests)
      then (c, false)
      else enqueue_outbound_locked c
          (record { request_id = request_id; message = cancel_message; queued_bytes = 0 })

  -- The critical section of `synthesize_async`.
  unfoldable pub accept_request :
      QwenTtsClient D → ℕ → ActiveRequest → ControlMessage D → QwenTtsClient D × ℕ
  accept_request c requested_id r message =
      let (c', request_id) = allocate_request_id_locked c requested_id in
      let listed = record c' { active_requests = emplace request_id r c'.active_requests } in
      let (c'', queued) =
        enqueue_outbound_locked listed
          (record { request_id = request_id; message = message; queued_bytes = 0 }) in
      if not (is_running c)
      then (c, 0)
      else if request_id == 0
      then (c', 0)
      else if not queued
      then (record c'' { active_requests = erase request_id c''.active_requests }, 0)
      else (c'', request_id)

  -- One round of the writer thread; the flag and the answer are the transport's.
  unfoldable pub write_command : ControlCodec D → QwenTtsClient D → Bool → Sending → QwenTtsClient D
  write_command codec c transport_runs sending = elim c.outbound_queue [
    | [] ↦ c
    | command ∷ rest ↦ record c {
      outbound_queue = rest;
      queued_outbound_bytes =
          c.queued_outbound_bytes - min c.queued_outbound_bytes command.queued_bytes;
      session = elim c.session [
        | none ↦ none
        | some s ↦
            some (send_control codec s command.request_id command.message transport_runs sending).0
      ];
    }
  ]

  -- `join_threads`: the writer never calls it, and the dispatcher only from a callback.
  unfoldable pub join_threads : QwenTtsClient D → Bool → QwenTtsClient D
  join_threads c called_from_dispatcher = record c {
    writer_joinable = false;
    dispatcher_joinable = c.dispatcher_joinable && called_from_dispatcher;
  }

  unfoldable pub reap_finished_threads : QwenTtsClient D → Bool → QwenTtsClient D
  reap_finished_threads c called_from_dispatcher =
      let c' = join_threads c called_from_dispatcher in
      if not c'.running && not c'.stopping && not c'.writer_joinable && not c'.dispatcher_joinable
      then record (clear_outbound_queue_locked c') {
        session = none;
        terminal_failure_handled = false;
      }
      else c'

  -- `stop` up to the joins.
  unfoldable pub begin_stop_client : ControlCodec D → QwenTtsClient D → Stopping → QwenTtsClient D
  begin_stop_client codec c env =
      stop_session codec
        (clear_outbound_queue_locked (record c { running = false; stopping = true })) env

  unfoldable pub available_voice_ids : QwenTtsClient D → List String
  available_voice_ids c = if not (is_running c) then [] else elim c.session [
    | none ↦ []
    | some s ↦ if is_ready_state s.state then s.ready_message.voice_ids else []
  ]

abbrev pub client_stopped : TtsError
client_stopped =
    make_local_error 0 "client_error" "client_stopped"
      "QwenTtsClient stopped before request reached a terminal event"

module _ (throws : Delivery → Bool) {D : Type 0} where
  -- `stop` once the threads have been joined.
  unfoldable pub finish_stop_client : QwenTtsClient D → Bool → QwenTtsClient D × List Delivery
  finish_stop_client c called_from_dispatcher =
      let joined = join_threads c called_from_dispatcher in
      let (c', calls) = fail_all_requests throws joined client_stopped in
      if not c'.writer_joinable && (not c'.dispatcher_joinable || called_from_dispatcher)
      then (
        record (clear_outbound_queue_locked c') {
          session = none;
          stopping = false;
          running = false;
          terminal_failure_handled = false;
        },
        calls,
      )
      else (c', calls)

module _ {D : Type 0} (codec : ControlCodec D) (throws : Delivery → Bool) where
  -- A round of the dispatcher thread: it takes the oldest event of the session and handles it.
  unfoldable pub dispatch_event : QwenTtsClient D → Stopping → QwenTtsClient D × List Delivery
  dispatch_event c env = elim c.session [
    | none ↦ (c, [])
    | some s ↦ elim (wait_for_event s) [
      | none ↦ (c, [])
      | some (event, s') ↦ handle_event throws codec (record c { session = some s' }) event env
    ]
  ]

  -- `start` behind its guards, once the new session has started or not.
  unfoldable pub run_session :
      QwenTtsClient D
      → QwenTtsClientOptions D
      → WorkerSession D × Bool
      → Bool
      → Stopping
      → QwenTtsClient D × Bool × List Delivery
  run_session c options started threads_start env =
      let ready = record (clear_outbound_queue_locked c) {
        options = options;
        session = some started.0;
        active_requests = [];
        next_request_id = 1;
        running = true;
        stopping = false;
        terminal_failure_handled = false;
        late_audio_after_terminal_count = 0;
        duplicate_terminal_event_count = 0;
      } in
      let (stopped, calls) = finish_stop_client throws (begin_stop_client codec ready env) false in
      if not started.1
      then (c, false, [])
      else if not threads_start
      then (stopped, false, calls)
      else (record ready { writer_joinable = true; dispatcher_joinable = true }, true, [])

  -- `has_transport` says whether the transport is there, `threads_start` whether the threads can be
  -- created.
  unfoldable pub start_client :
      QwenTtsClient D
      → Bool
      → QwenTtsClientOptions D
      → Starting
      → Stopping
      → Bool
      → QwenTtsClient D × Bool × List Delivery
  start_client c has_transport options env stopping threads_start =
      let reaped = reap_finished_threads c false in
      if not has_transport
        || options.max_outbound_commands == 0
        || options.max_outbound_command_bytes == 0
      then (c, false, [])
      else if c.running || c.stopping
      then (c, false, [])
      else if reaped.running
          || reaped.stopping
          || not (is_none reaped.session)
          || reaped.writer_joinable
          || reaped.dispatcher_joinable
      then (reaped, false, [])
      else run_session reaped options (start codec (make_session true options.session) env stopping)
          threads_start stopping

-- A callback that is called before the request is accepted; its exceptions are dropped.
unfoldable pub reject : TtsCallbacks → TtsError → List Delivery
reject callbacks e = if callbacks.on_error then record { owner = 0; notice = error e } ∷ [] else []

-- `PreparedText()` and `TtsError()`.
abbrev pub empty_prepared : PreparedText
empty_prepared = record {
  original_text = [];
  effective_text = [];
  utf8_bytes = 0;
  non_space_utf8_bytes = 0;
  was_modified = false;
  frontend_normalized_text = [];
  frontend_pronunciation_text = [];
  frontend_warnings = [];
  frontend_stress_decisions = [];
  frontend_has_uncertainty = false;
}

unfoldable pub to_control_message :
    {D : Type 0} → (List ℕ → String) → TtsRequest D → SynthesizeMessage D
to_control_message text_of request = record {
  text = text_of request.text;
  language = request.language;
  speaker = request.speaker;
  instruction = request.instruction;
  voice_id = request.voice_id;
  reference_audio_path = request.reference_audio_path;
  reference_text = request.reference_text;
  x_vector_only = request.x_vector_only;
  has_seed = request.has_seed;
  seed = request.seed;
  sampling = record {
    temperature = request.sampling.temperature;
    top_k = request.sampling.top_k;
    top_p = request.sampling.top_p;
    repetition_penalty = request.sampling.repetition_penalty;
    do_sample = request.sampling.do_sample;
  };
  output = request.output;
}

module _ {D : Type 0} (codec : ControlCodec D) (text_of : List ℕ → String) where
  -- `synthesize_async` of a prepared request, behind its checks.
  unfoldable pub submit_request :
      QwenTtsClient D → TtsRequest D → PreparedText → TtsCallbacks → QwenTtsClient D × ℕ
  submit_request c request prepared callbacks =
      let message =
        synthesize_message
          (to_control_message text_of (record request { text = prepared.effective_text })) in
      if not (is_ok (codec.encode_control_message message).error)
      then (c, 0)
      else accept_request c request.id
          (record {
            callbacks = callbacks;
            audio_format = request.output;
            prepared_text = some prepared;
            next_sample = 0;
            text_context_delivered = false;
          })
          message

  unfoldable pub synthesize_prepared :
      QwenTtsClient D → PreparedTtsRequest D → TtsCallbacks → QwenTtsClient D × ℕ × List Delivery
  synthesize_prepared c prepared_request callbacks =
      let request = prepared_request.request in
      let prepared = prepared_request.text in
      let (c', request_id) =
        submit_request c request (refresh_prepared_text_metrics prepared) callbacks in
      if not (same_bytes prepared.original_text request.text)
      then (
        c,
        0,
        reject callbacks (
            make_local_error request.id "client_error" "prepared_text_mismatch"
              "prepared text does not match the request source text"),
      )
      else if length prepared.effective_text == 0 || not (is_valid_utf8 prepared.effective_text)
      then (
        c,
        0,
        reject callbacks (
            make_local_error request.id "client_error" "invalid_prepared_text"
              "prepared text must be non-empty valid UTF-8"),
      )
      else (c', request_id, [])

  unfoldable pub synthesize_async :
      QwenTtsClient D → TtsRequest D → TtsCallbacks → QwenTtsClient D × ℕ × List Delivery
  synthesize_async c request callbacks =
      let p =
        prepare_text c request empty_prepared
          (record { request_id = 0; category = ""; code = ""; message = "" }) in
      if not p.accepted
      then (c, 0, reject callbacks p.failure)
      else synthesize_prepared c (record { request = request; text = p.text }) callbacks
