-- ===== src/Lib.antt =====
-- Verification of the C++ core of QwenTTSBridge: the side of the bridge that starts a worker
-- process, speaks the framed protocol v1 with it and follows what is played.
--
-- The parts and how they interact. A transport (`src/qwen_tts_bridge/transport`) moves bytes to and
-- from the worker. `WorkerSession` (`src/qwen_tts_bridge/session`) owns it: it gives the bytes that
-- arrive to the `FrameParser` (`protocol/framing`), decodes the control and error frames with the
-- JSON codec (`protocol/control`), checks them against its state and queues events for its owner,
-- and it encodes outgoing messages with the codec and `encode_frame`. The audio that the owner
-- takes from the events is played, and `PlaybackReceiptProbe` (`playback`) keeps the samples and
-- the animation cues of one playback epoch and selects the cue of a playback cursor. `WavWriter`
-- (`audio`) saves PCM to a file. `QwenTtsClient` (`client`) stands above a session: it prepares
-- texts, gives each request an id, queues commands for its writer thread, and its dispatcher thread
-- turns the session's events into calls of the requests' callbacks.
--
-- Files, and the code under `src/qwen_tts_bridge/` that each models:
--   Common                shared names, lists, Boolean tests, words of 64 bits, bytes; `FloatOps`
--                         stands for `float` with `std::isfinite`
--   Data                  `data/enums.hpp`, `data/protocol_types.hpp`, `data/audio_types.hpp`
--   Framing/Codec         `protocol/framing/frame_codec.cpp`; Framing/Codec/Outcomes is about its
--                         errors
--   Framing/Parser        `protocol/framing/frame_parser.cpp`. Framing/Parser/Decode is the
--                         specification: what bytes hold a frame, written without buffer, offset
--                         or state. Bytes, Refines, Prefix, Stream and Safety are about the class
--   Framing/RoundTrip     the encoder against the parser
--   Control/Messages      `protocol/control/control_messages.hpp` and `control_message_type`; the
--                         record `ControlCodec` is the codec as the session sees it
--   Control/Validation    `protocol/control/control_validation.cpp`; Sound says which messages
--                         are sound
--   Control/Json          the readers of fields in `protocol/control/control_json.cpp`, over any
--                         JSON library: the record `JsonOps`
--   Control/Encode        `protocol/control/control_encode.cpp` and the encoders
--   Control/Decode        `protocol/control/control_decode.cpp` and `error_codec.cpp`, and the codec
--   Control/Fields        the laws of the library and the readers on written objects; Parts, Arrival,
--                         Bodies and RoundTrip lead from there to whole messages; Checked is about
--                         what the decoders let through
--   Session/Types         `session/worker_session.hpp`, the first helpers of
--                         `session/worker_session.cpp`, `SendResult` of `transport/i_transport.hpp`
--   Session/Worker        the private methods and the transport's handlers of `WorkerSession`
--   Session/Calls         `start`, `send_control`, `stop` and the steps that a session can make
--   Session/Loop          the loop of `handle_bytes`; Session/Dispatch is the loop against the
--                         frames of the byte stream
--   Session/Rule          a rule that carries an invariant over all calls and callbacks
--   Session/Invariant     the event queue, with Frames for the handlers and Runs for the calls
--   Session/Phase         the life of a session; Start is about the answer of `start`, Ack
--                         about the acknowledgement of a shutdown
--   Session/Overflow      the overflow of the event queue
--   Client/Types          `client/client_types.hpp`, `client/qwen_tts_client.hpp`
--   Client/Text           the readers of UTF-8 in `client/qwen_tts_client.cpp`; Client/Utf8 is the
--                         encoding of RFC 3629, with Rounds, Back, Valid and Count against the
--                         readers
--   Client/Deliver        the calls of callbacks, in the same file, like
--   Client/Requests       what `dispatcher_loop` makes of an event, and
--   Client/Calls          the calls of the owner and the rounds of the two threads
--   Client/Steps          the steps that a client can make, and its runs from `start` on
--   Client/Story          what one request may hear, as a machine that knows nothing of the client;
--                         Map, Handlers, Events, Accept and Steps follow it through the handlers,
--                         Pending, Rounds, Turns and Runs through the calls of their callbacks one by
--                         one, and Counts and Promises say what it means for the owner
--   Client/Outbound       the queue of commands; Client/Failure is about the end of a session
--   Playback/Receipt      `playback/playback_receipt.cpp`, with Invariant, Timeline, Lifecycle
--   Audio/WavWriter       `audio/wav_writer.cpp`; Recording is about a whole recording,
--                         Bounds about its sizes and about streams that fail
--   */Tests               concrete runs
--
-- How the code is modelled. A class is a record, a method a function from the record to the record
-- and its answer, an exception an error value. Bytes and integers are natural numbers; what the
-- code computes in a machine word is reduced by `% 2 ^ w`, and `std::size_t` has 64 bits. The sizes
-- of memory that is held (`queued_event_bytes_`) are plain sums, which stay below 2^64.
-- A method of `WorkerSession` that holds the lock throughout is one step. Where `start`,
-- `send_control` and `stop` release the lock to call the transport, what the transport answers and
-- the list of callbacks that it makes meanwhile are arguments, `Starting`, `Sending` and `Stopping`,
-- and the theorems hold for all of them. A wait for a condition or a time-out ends after some
-- callbacks; its outcome is read from the state, as the code does.
-- A client is driven by steps: a call of its owner, one round of its writer or its dispatcher, and a
-- callback of the transport, in any order. `stop` is two steps, before and behind the joins of the
-- threads. A handler returns the client and the callbacks that it has to call, which the code calls
-- without the lock and behind all changes of the handler. The steps call them one by one: between two
-- of them there may be steps of other threads, and the calls that a callback makes itself, `stop`
-- among them. The map of the
-- active requests is a list of entries. Which callbacks throw is an argument, and so is what reads
-- the bytes of a text as a string. Texts are lists of bytes.
-- `is_valid_utf8` and `count_non_space_utf8_bytes` run on fuel. Each round takes a byte, so the length
-- of the text, with one more round for the end, is enough; the theorems about them speak of all texts.
-- The frame loop of `handle_bytes` runs on fuel. A frame takes at least 24 bytes, so one more than
-- the length of the buffer is enough, which Session.Dispatch and Framing.Parser.Stream prove by
-- describing the outcome without fuel.
--
-- Not modelled: the JSON library, whose values, parser and printer are a parameter of the codec (the
-- session and the client are stated for every codec); calls that the owner makes from a second
-- thread while its first is inside `start`, `send_control` or `stop` of a session; the transport's
-- processes and pipes; the audio devices and the audio post-processing; the native worker and the
-- Python worker; printing of receipts as JSON.
pub mod Common
pub mod Data
pub mod Framing
pub mod Control
pub mod Session
pub mod Client
pub mod Playback
pub mod Audio
