-- ===== src/Client/Tests.antt =====
-- Concrete runs of the client, and its theorems at concrete inputs.
use qwen3_tts_bridge_cpp.Common.{
  ℕ, String, ◌≡◌, refl, ◌↔◌, Bool, true, false, none, some, List, [], ◌∷◌, ◌++◌, arith, ◌==◌,
  if◌then◌else◌, length, All,
}
use qwen3_tts_bridge_cpp.Common.Words.{add_u64, sub_u64}
use qwen3_tts_bridge_cpp.Framing.Parser.{append, clear}
use qwen3_tts_bridge_cpp.Session.Fixtures.{
  codec, options, accepts, audio_bytes, starting, stopping, ready_session,
}
use qwen3_tts_bridge_cpp.Session.Types.{
  WorkerSessionEvent, WorkerSessionEventType, empty_event, make_session, is_live, is_ready_state,
  is_starting, event_payload_size,
}
use qwen3_tts_bridge_cpp.Session.Worker.{enqueue_event_locked, handle_bytes}
use qwen3_tts_bridge_cpp.Session.Calls.{bytes_received, run, start, stop}
use qwen3_tts_bridge_cpp.Session.Types.{
  is_client_to_worker_control, is_session_level_worker_control, is_request_level_worker_control,
  send_result_message, synthesize_payload_size, control_payload_size, is_ready_type,
  is_shutdown_type, is_shutdown_ack_type,
}
use qwen3_tts_bridge_cpp.Session.Worker.{
  fail_with_event_locked, mark_outbound_control_locked, is_ready_message_allowed_locked,
  is_control_message_allowed_locked, handle_audio_frame_locked, handle_transport_error, handle_exit,
  wait_for_event, accept_control, handle_control_frame_locked, handle_error_frame_locked,
  handle_frame_type, handle_frame_locked, handle_frames,
}
use qwen3_tts_bridge_cpp.Session.Calls.{
  is_accepted, is_encoded, is_stopped, is_stopping, is_exited, report_encode_error, finish_send,
  begin_start, begin_stop, finish_stop, deliver, deliver_all, send_payload, send_control_frame,
  send_control, stop_transport, await_ready, greet, step,
}
use qwen3_tts_bridge_cpp.Framing.Parser.{
  read_u16_le, read_u32_le, read_bytes_from, read_u64_le, to_frame_type, has_magic, read_header,
  header_fault, buffered_size, clear, make_fatal, compact_buffer, take_frame, parse_header,
  parse_next,
}
use qwen3_tts_bridge_cpp.Framing.Codec.{
  write_u16_le, write_u32_le, write_u64_le, frame_type_value, is_known_frame_type, max_payload_size,
  encode_error, write_header, encode_frame_header, encode_frame,
}
use qwen3_tts_bridge_cpp.Control.Messages.{control_message_type, is_ok}
use qwen3_tts_bridge_cpp.Client.Types.{
  Notice, error, audio, QwenTtsClient, QwenTtsClientOptions, TtsCallbacks, TtsRequest, Delivery,
}
use qwen3_tts_bridge_cpp.Client.Text.{
  lead_of, continue_with, is_bad_code_point, next_character, is_valid_utf8_from, is_valid_utf8,
  is_unicode_space, width_of, code_point_of, count_non_space_from, count_non_space_utf8_bytes,
  same_bytes,
}
use qwen3_tts_bridge_cpp.Client.Deliver.{
  bytes_per_sample, sample_count_for_audio, make_local_error, is_none, completion_of, pending_text,
  invoke_user_callback, fail_each, deliver_text, deliver_chunk,
}
use qwen3_tts_bridge_cpp.Client.Requests.{
  take_request, clear_outbound_queue_locked, stop_session, complete_request, cancel_request_locally,
  fail_request, fail_all_requests, handle_started, handle_control_event, accept_audio,
  handle_audio_event, handle_worker_error, handle_local_error, handle_event_of, handle_event,
}
use qwen3_tts_bridge_cpp.Client.Calls.{
  refresh_prepared_text_metrics, outbound_command_fixed_overhead, outbound_command_size,
  make_client, check_prepared, finish_preparer, finish_preprocessor, prepare_text,
  allocate_request_id_locked, enqueue_outbound_locked, is_running, cancel_request, accept_request,
  write_command, join_threads, reap_finished_threads, begin_stop_client, finish_stop_client,
  dispatch_event, run_session, start_client, to_control_message, submit_request, reject,
  synthesize_prepared, synthesize_async,
}
use qwen3_tts_bridge_cpp.Client.Steps.{
  ClientStep, synthesizes, writes, dispatches, receives, begins_stop, finishes_stop, next_call,
  client_step, client_run, life,
}
use qwen3_tts_bridge_cpp.Client.Story.{
  gone, live, Stage, during, listen_all, phase_in, notices, phase, phase_of, contains,
}
use qwen3_tts_bridge_cpp.Client.Story.Handlers.{AllSet}
use qwen3_tts_bridge_cpp.Client.Story.Counts.{terminals, is_terminal, chunks, IsContiguous}
use qwen3_tts_bridge_cpp.Client.Story.Promises.{
  IsAscending, calls_follow_story, every_request_ends, audio-IsContiguous, accepted-IsAscending,
}
use qwen3_tts_bridge_cpp.Client.Story.Steps.{IsHeard}
use qwen3_tts_bridge_cpp.Client.Outbound.{IsBounded, outbound-IsBounded}
use qwen3_tts_bridge_cpp.Client.Failure.{is_local_failure, IsClosed, local_failure_closes}
use qwen3_tts_bridge_cpp.Client.Utf8.{encode_all}
use qwen3_tts_bridge_cpp.Client.Utf8.Valid.{IsEncoded, is_valid_utf8_lem}
use qwen3_tts_bridge_cpp.Client.Utf8.Count.{non_space_bytes, count_non_space_utf8_bytes_lem}

abbrev client_options : QwenTtsClientOptions ℕ
client_options = record {
  session = options;
  max_outbound_commands = 2;
  max_outbound_command_bytes = 1000;
  on_callback_exception = true;
  text_preprocessor = none;
  text_preparer = none;
}

abbrev callbacks : TtsCallbacks
callbacks = record {
  on_text_prepared = true;
  on_audio = true;
  on_timing = true;
  on_completed = true;
  on_completion_metadata = true;
  on_cancelled = true;
  on_error = true;
}

-- The request 258 of the text "hi".
abbrev request : TtsRequest ℕ
request = record {
  id = 258;
  text = 104 ∷ 105 ∷ [];
  language = "";
  speaker = "";
  instruction = "";
  voice_id = "";
  reference_audio_path = "";
  reference_text = "";
  x_vector_only = false;
  has_seed = false;
  seed = 0;
  sampling = record {
    temperature = none;
    top_k = none;
    top_p = none;
    repetition_penalty = none;
    do_sample = none;
  };
  output = record { sample_format = "s16le"; sample_rate = 24000; channels = 1 };
}

-- Only the error callbacks throw.
abbrev throws : Delivery → Bool
throws d = is_terminal d.notice == 1

abbrev text_of : List ℕ → String
text_of bytes = "hi"

abbrev steps : List (ClientStep ℕ)
steps =
    synthesizes request callbacks
    ∷ writes true accepts
    ∷ receives (bytes_received audio_bytes)
    ∷ dispatches stopping
    ∷ dispatches stopping
    ∷ []

abbrev all_set : AllSet callbacks
all_set = (refl, refl, refl, refl, refl, refl, refl)

abbrev all_heard : All IsHeard steps
all_heard = (all_set, (tt, (tt, (tt, (tt, tt)))))

-- The first callback of the audio event stops the client.
abbrev nested_stop : List (ClientStep ℕ)
nested_stop = steps ++ begins_stop stopping ∷ finishes_stop true ∷ []

abbrev nested_heard : All IsHeard nested_stop
nested_heard = (all_set, (tt, (tt, (tt, (tt, (tt, (tt, tt)))))))

client_starts :
    (start_client codec throws
      (make_client client_options)
      true
      client_options
      starting
      stopping
      true).1
    ≡ true
unfolding accept_control add_u64 append await_ready begin_start begin_stop buffered_size clear
    compact_buffer control_message_type control_payload_size deliver deliver_all encode_error
    encode_frame encode_frame_header enqueue_event_locked event_payload_size fail_with_event_locked
    finish_send finish_stop frame_type_value greet handle_audio_frame_locked handle_bytes
    handle_control_frame_locked handle_error_frame_locked handle_exit handle_frame_locked
    handle_frame_type handle_frames handle_transport_error has_magic header_fault is_accepted
    is_client_to_worker_control is_control_message_allowed_locked is_encoded is_exited
    is_known_frame_type is_live is_ok is_ready_message_allowed_locked is_ready_state is_ready_type
    is_request_level_worker_control is_session_level_worker_control is_shutdown_ack_type
    is_shutdown_type is_starting is_stopped is_stopping make_fatal make_session
    mark_outbound_control_locked max_payload_size parse_header parse_next read_bytes_from
    read_header read_u16_le read_u32_le read_u64_le report_encode_error run send_control
    send_control_frame send_payload send_result_message start step stop stop_transport sub_u64
    synthesize_payload_size take_frame to_frame_type wait_for_event write_header write_u16_le
    write_u32_le write_u64_le start_client reap_finished_threads join_threads make_client is_none
    clear_outbound_queue_locked run_session
client_starts = refl

-- One request is accepted and hears four callbacks: its text, a chunk, its timing, and, when the
-- client is stopped, an error, behind which a report stands.
one_accepted :
    (life codec throws text_of
      (make_client client_options)
      true
      client_options
      starting
      stopping
      true
      (steps ++ finishes_stop false ∷ [])).accepted
    ≡ 258 ∷ []
unfolding accept_control add_u64 append await_ready begin_start begin_stop buffered_size clear
    compact_buffer control_message_type control_payload_size deliver deliver_all encode_error
    encode_frame encode_frame_header enqueue_event_locked event_payload_size fail_with_event_locked
    finish_send finish_stop frame_type_value greet handle_audio_frame_locked handle_bytes
    handle_control_frame_locked handle_error_frame_locked handle_exit handle_frame_locked
    handle_frame_type handle_frames handle_transport_error has_magic header_fault is_accepted
    is_client_to_worker_control is_control_message_allowed_locked is_encoded is_exited
    is_known_frame_type is_live is_ok is_ready_message_allowed_locked is_ready_state is_ready_type
    is_request_level_worker_control is_session_level_worker_control is_shutdown_ack_type
    is_shutdown_type is_starting is_stopped is_stopping make_fatal make_session
    mark_outbound_control_locked max_payload_size parse_header parse_next read_bytes_from
    read_header read_u16_le read_u32_le read_u64_le report_encode_error run send_control
    send_control_frame send_payload send_result_message start step stop stop_transport sub_u64
    synthesize_payload_size take_frame to_frame_type wait_for_event write_header write_u16_le
    write_u32_le write_u64_le lead_of continue_with is_bad_code_point next_character
    is_valid_utf8_from is_valid_utf8 is_unicode_space width_of code_point_of count_non_space_from
    count_non_space_utf8_bytes same_bytes bytes_per_sample sample_count_for_audio make_local_error
    is_none completion_of pending_text invoke_user_callback fail_each deliver_text deliver_chunk
    take_request clear_outbound_queue_locked stop_session complete_request cancel_request_locally
    fail_request fail_all_requests handle_started handle_control_event accept_audio
    handle_audio_event handle_worker_error handle_local_error handle_event_of handle_event
    refresh_prepared_text_metrics outbound_command_fixed_overhead outbound_command_size make_client
    check_prepared finish_preparer finish_preprocessor prepare_text allocate_request_id_locked
    enqueue_outbound_locked is_running cancel_request accept_request write_command join_threads
    reap_finished_threads begin_stop_client finish_stop_client dispatch_event run_session
    start_client to_control_message submit_request reject synthesize_prepared synthesize_async
    client_step client_run next_call life contains notices phase_of is_terminal
one_accepted = refl

five_calls :
    length
      (life codec throws text_of
        (make_client client_options)
        true
        client_options
        starting
        stopping
        true
        (steps ++ finishes_stop false ∷ [])).calls
    ≡ 5
unfolding accept_control add_u64 append await_ready begin_start begin_stop buffered_size clear
    compact_buffer control_message_type control_payload_size deliver deliver_all encode_error
    encode_frame encode_frame_header enqueue_event_locked event_payload_size fail_with_event_locked
    finish_send finish_stop frame_type_value greet handle_audio_frame_locked handle_bytes
    handle_control_frame_locked handle_error_frame_locked handle_exit handle_frame_locked
    handle_frame_type handle_frames handle_transport_error has_magic header_fault is_accepted
    is_client_to_worker_control is_control_message_allowed_locked is_encoded is_exited
    is_known_frame_type is_live is_ok is_ready_message_allowed_locked is_ready_state is_ready_type
    is_request_level_worker_control is_session_level_worker_control is_shutdown_ack_type
    is_shutdown_type is_starting is_stopped is_stopping make_fatal make_session
    mark_outbound_control_locked max_payload_size parse_header parse_next read_bytes_from
    read_header read_u16_le read_u32_le read_u64_le report_encode_error run send_control
    send_control_frame send_payload send_result_message start step stop stop_transport sub_u64
    synthesize_payload_size take_frame to_frame_type wait_for_event write_header write_u16_le
    write_u32_le write_u64_le lead_of continue_with is_bad_code_point next_character
    is_valid_utf8_from is_valid_utf8 is_unicode_space width_of code_point_of count_non_space_from
    count_non_space_utf8_bytes same_bytes bytes_per_sample sample_count_for_audio make_local_error
    is_none completion_of pending_text invoke_user_callback fail_each deliver_text deliver_chunk
    take_request clear_outbound_queue_locked stop_session complete_request cancel_request_locally
    fail_request fail_all_requests handle_started handle_control_event accept_audio
    handle_audio_event handle_worker_error handle_local_error handle_event_of handle_event
    refresh_prepared_text_metrics outbound_command_fixed_overhead outbound_command_size make_client
    check_prepared finish_preparer finish_preprocessor prepare_text allocate_request_id_locked
    enqueue_outbound_locked is_running cancel_request accept_request write_command join_threads
    reap_finished_threads begin_stop_client finish_stop_client dispatch_event run_session
    start_client to_control_message submit_request reject synthesize_prepared synthesize_async
    client_step client_run next_call life contains notices phase_of is_terminal
five_calls = refl

unfoldable is_audio : Notice → Bool
is_audio (audio chunk) = true
is_audio _ = false

unfoldable is_error : Notice → Bool
is_error (error e) = true
is_error _ = false

-- The error stands behind the text, and the chunk behind the error and the report of its exception.
unfoldable order_of : List Delivery → List Bool
order_of [] = []
order_of (d ∷ ds) = is_error d.notice ∷ is_audio d.notice ∷ order_of ds

audio_behind_error :
    order_of
      (life codec throws text_of
        (make_client client_options)
        true
        client_options
        starting
        stopping
        true
        nested_stop).calls
    ≡ false ∷ false ∷ true ∷ false ∷ false ∷ false ∷ false ∷ true ∷ false ∷ false ∷ []
unfolding accept_control add_u64 append await_ready begin_start begin_stop buffered_size clear
    compact_buffer control_message_type control_payload_size deliver deliver_all encode_error
    encode_frame encode_frame_header enqueue_event_locked event_payload_size fail_with_event_locked
    finish_send finish_stop frame_type_value greet handle_audio_frame_locked handle_bytes
    handle_control_frame_locked handle_error_frame_locked handle_exit handle_frame_locked
    handle_frame_type handle_frames handle_transport_error has_magic header_fault is_accepted
    is_client_to_worker_control is_control_message_allowed_locked is_encoded is_exited
    is_known_frame_type is_live is_ok is_ready_message_allowed_locked is_ready_state is_ready_type
    is_request_level_worker_control is_session_level_worker_control is_shutdown_ack_type
    is_shutdown_type is_starting is_stopped is_stopping make_fatal make_session
    mark_outbound_control_locked max_payload_size parse_header parse_next read_bytes_from
    read_header read_u16_le read_u32_le read_u64_le report_encode_error run send_control
    send_control_frame send_payload send_result_message start step stop stop_transport sub_u64
    synthesize_payload_size take_frame to_frame_type wait_for_event write_header write_u16_le
    write_u32_le write_u64_le lead_of continue_with is_bad_code_point next_character
    is_valid_utf8_from is_valid_utf8 is_unicode_space width_of code_point_of count_non_space_from
    count_non_space_utf8_bytes same_bytes bytes_per_sample sample_count_for_audio make_local_error
    is_none completion_of pending_text invoke_user_callback fail_each deliver_text deliver_chunk
    take_request clear_outbound_queue_locked stop_session complete_request cancel_request_locally
    fail_request fail_all_requests handle_started handle_control_event accept_audio
    handle_audio_event handle_worker_error handle_local_error handle_event_of handle_event
    refresh_prepared_text_metrics outbound_command_fixed_overhead outbound_command_size make_client
    check_prepared finish_preparer finish_preprocessor prepare_text allocate_request_id_locked
    enqueue_outbound_locked is_running cancel_request accept_request write_command join_threads
    reap_finished_threads begin_stop_client finish_stop_client dispatch_event run_session
    start_client to_control_message submit_request reject synthesize_prepared synthesize_async
    client_step client_run next_call life contains notices phase_of is_terminal order_of is_audio
    is_error
audio_behind_error = refl

calls_follow_story_example :
    let o =
      life codec throws text_of
        (make_client client_options)
        true
        client_options
        starting
        stopping
        true
        nested_stop in
    (s : Stage) × (listen_all
        (if contains 258 o.accepted then during (live false 0) 0 else during gone 0)
        (notices 258 o.calls)
      ≡ some s)
    × (phase_in s ≡ phase 258 o.client)
calls_follow_story_example =
    calls_follow_story codec throws text_of (make_client client_options) true client_options
      starting stopping true nested_stop 258 client_starts nested_heard (ground arith)

every_request_ends_example :
    let o =
      life codec throws text_of
        (make_client client_options)
        true
        client_options
        starting
        stopping
        true
        (steps ++ finishes_stop false ∷ []) in
    terminals (notices 258 o.calls) ≡ (if contains 258 o.accepted then 1 else 0)
every_request_ends_example =
    every_request_ends codec throws text_of (make_client client_options) true client_options
      starting stopping true steps false 258 client_starts all_heard (ground arith)

audio-IsContiguous_example : IsContiguous 0 (
    chunks (
      notices 258
        (life codec throws text_of
          (make_client client_options)
          true
          client_options
          starting
          stopping
          true
          steps).calls))
audio-IsContiguous_example =
    audio-IsContiguous codec throws text_of (make_client client_options) true client_options
      starting stopping true steps 258 client_starts all_heard (ground arith)

accepted-IsAscending_example :
    IsAscending 1
      (life codec throws text_of
        (make_client client_options)
        true
        client_options
        starting
        stopping
        true
        steps).accepted
accepted-IsAscending_example =
    accepted-IsAscending codec throws text_of (make_client client_options) true client_options
      starting stopping true steps client_starts all_heard

outbound-IsBounded_example :
    IsBounded
      (life codec throws text_of
        (make_client client_options)
        true
        client_options
        starting
        stopping
        true
        steps).client
outbound-IsBounded_example =
    outbound-IsBounded codec throws text_of (make_client client_options) true client_options
      starting stopping true steps client_starts

is_valid_utf8_lem_example :
    (is_valid_utf8 (104 ∷ 0xe2 ∷ 0x82 ∷ 0xac ∷ []) ≡ true)
    ↔ IsEncoded (104 ∷ 0xe2 ∷ 0x82 ∷ 0xac ∷ [])
is_valid_utf8_lem_example = is_valid_utf8_lem (104 ∷ 0xe2 ∷ 0x82 ∷ 0xac ∷ [])

count_non_space_utf8_bytes_lem_example :
    count_non_space_utf8_bytes (encode_all (104 ∷ 0x2009 ∷ 0x20ac ∷ []))
    ≡ non_space_bytes (104 ∷ 0x2009 ∷ 0x20ac ∷ [])
count_non_space_utf8_bytes_lem_example =
    count_non_space_utf8_bytes_lem (104 ∷ 0x2009 ∷ 0x20ac ∷ [])
      (ground arith, (ground arith, (ground arith, tt)))

abbrev failed_client : QwenTtsClient ℕ
failed_client = record (make_client client_options) { session = some ready_session; running = true }

abbrev exit_event : WorkerSessionEvent ℕ
exit_event = record empty_event { kind = WorkerSessionEventType.exited }

local_failure_closes_example :
    IsClosed codec text_of (handle_event throws codec failed_client exit_event stopping).0
local_failure_closes_example =
    local_failure_closes throws codec text_of failed_client exit_event stopping
      (unfold is_local_failure in refl) (unfold make_client in refl)
