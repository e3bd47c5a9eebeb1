-- ===== src/Session/Fixtures.antt =====
-- Inputs for the tests of the worker session and the client.
use qwen3_tts_bridge_cpp.Common.{ℕ, true, false, List, [], ◌∷◌}
use qwen3_tts_bridge_cpp.Common.Int.{pos}
use qwen3_tts_bridge_cpp.Framing.Parser.{new_parser}
use qwen3_tts_bridge_cpp.Control.Messages.{
  ControlMessage, ControlCodec, ready_message, cancelled_message, shutdown_ack_message, no_error,
}
use qwen3_tts_bridge_cpp.Session.Types.{
  WorkerSession, WorkerSessionOptions, WorkerSessionState, SendResult, empty_ready,
}
use qwen3_tts_bridge_cpp.Session.Calls.{Sending, Starting, Stopping, bytes_received, peer_exited}

-- A payload stands for `ready` if it is empty, for `cancelled` if it has one byte, and otherwise
-- for `shutdown_ack`.
abbrev message_of : List ℕ → ControlMessage ℕ
message_of [] = ready_message empty_ready
message_of (b ∷ []) = cancelled_message
message_of (b ∷ c ∷ bs) = shutdown_ack_message

abbrev pub codec : ControlCodec ℕ
codec = record {
  encode_control_message = λ m. record { payload = 1 ∷ []; error = no_error; diagnostic = "" };
  decode_control_message =
      λ bytes direction. record { message = message_of bytes; error = no_error; diagnostic = "" };
  decode_error_message = λ bytes. record {
    message = record { category = "model"; code = "oom"; message = "out of memory" };
    error = no_error;
    diagnostic = "";
  };
}

abbrev pub options : WorkerSessionOptions
options = record {
  client_name = "client";
  client_version = "0.2.0";
  max_event_queue_events = 2;
  max_event_queue_bytes = 100;
}

abbrev pub accepts : Sending
accepts = record { meanwhile = []; result = SendResult.accepted }

-- The frames `ready` and audio for the request 258.
abbrev pub ready_bytes : List ℕ
ready_bytes =
    81 ∷ 84 ∷ 66 ∷ 49 ∷ 1 ∷ 0 ∷ 24 ∷ 0 ∷ 1 ∷ 0 ∷ 0 ∷ 0 ∷ 0 ∷ 0 ∷ 0 ∷ 0 ∷ 0 ∷ 0 ∷ 0 ∷ 0 ∷ 0 ∷ 0 ∷ 0
    ∷ 0 ∷ []

abbrev pub audio_bytes : List ℕ
audio_bytes =
    81 ∷ 84 ∷ 66 ∷ 49 ∷ 1 ∷ 0 ∷ 24 ∷ 0 ∷ 2 ∷ 0 ∷ 0 ∷ 0 ∷ 2 ∷ 0 ∷ 0 ∷ 0 ∷ 2 ∷ 1 ∷ 0 ∷ 0 ∷ 0 ∷ 0 ∷ 0
    ∷ 0 ∷ 7 ∷ 9 ∷ []

abbrev pub starting : Starting
starting = record {
  transport_started = true;
  at_start = [];
  hello = accepts;
  before_wake = bytes_received ready_bytes ∷ [];
  running = true;
}

abbrev pub stopping : Stopping
stopping = record { running = true; shutdown = accepts; at_stop = peer_exited (pos 0) ∷ [] }

abbrev pub new_session : WorkerSession ℕ
new_session = record {
  has_transport = true;
  options = options;
  parser = new_parser;
  events = [];
  queued_event_bytes = 0;
  state = WorkerSessionState.stopped;
  event_queue_overflowed = false;
  start_attempted = false;
  shutdown_requested = false;
  ready_message = empty_ready;
}

abbrev pub ready_session : WorkerSession ℕ
ready_session = record new_session { start_attempted = true; state = WorkerSessionState.ready }
