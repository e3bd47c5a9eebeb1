-- ===== src/Framing/Tests.antt =====
-- Concrete runs of the framing code, and the framing theorems at concrete inputs.
use mathlib.Core.List.{flatten}
use qwen3_tts_bridge_cpp.Common.{
  ℕ, ◌+◌, ◌*◌, ◌≤◌, ◌<◌, ◌≡◌, refl, ◌≢◌, ◌↔◌, ◌⊎◌, true, false, List, [], ◌∷◌, ◌++◌, arith, length,
  take, drop,
}
use qwen3_tts_bridge_cpp.Common.Words.{add_u64, sub_u64}
use qwen3_tts_bridge_cpp.Data.{
  Frame, EncodeError, ParseStatus, default_header, audio_pcm, frame_ready,
}
use qwen3_tts_bridge_cpp.Framing.Codec.{
  encode_frame, encode_frame_header, write_header, is_known_frame_type, frame_type_value,
  max_payload_size,
}
use qwen3_tts_bridge_cpp.Framing.Codec.Outcomes.{encode_frame_succeeds, length-encode_frame_header}
use qwen3_tts_bridge_cpp.Framing.Parser.{
  FrameParser, new_parser, append, parse_next, buffered_size, read_u16_le, read_u32_le, read_u64_le,
  read_header, has_magic, header_fault, to_frame_type, parse_header, take_frame, make_fatal,
}
use qwen3_tts_bridge_cpp.Framing.Parser.Decode.{decode, ready}
use qwen3_tts_bridge_cpp.Framing.Parser.Refines.{IsValid, pending, Agrees, parse_next-decode}
use qwen3_tts_bridge_cpp.Framing.Parser.Stream.{split, feed_all, Delivers, feed_all-split}
use qwen3_tts_bridge_cpp.Framing.Parser.Safety.{
  IsWellFormed, parse_next_ready, parse_next-append_fatal,
}
use qwen3_tts_bridge_cpp.Framing.RoundTrip.{
  decode-encode_frame_header, feed_all-encode_all, encode_all,
}

abbrev hello : Frame
hello = record {
  header = record default_header { frame_type = audio_pcm; request_id = 0x0102; payload_size = 2 };
  payload = 7 ∷ 9 ∷ [];
}

abbrev hello_bytes : List ℕ
hello_bytes =
    81 ∷ 84 ∷ 66 ∷ 49 ∷ 1 ∷ 0 ∷ 24 ∷ 0 ∷ 2 ∷ 0 ∷ 0 ∷ 0 ∷ 2 ∷ 0 ∷ 0 ∷ 0 ∷ 2 ∷ 1 ∷ 0 ∷ 0 ∷ 0 ∷ 0 ∷ 0
    ∷ 0 ∷ 7 ∷ 9 ∷ []

hello_encodes :
    encode_frame audio_pcm 0x0102 (7 ∷ 9 ∷ [])
    ≡ record { bytes = hello_bytes; error = EncodeError.no_error; message = "" }
unfolding encode_frame write_header is_known_frame_type frame_type_value max_payload_size
hello_encodes = refl

hello_no_error : (encode_frame_header hello.header hello.payload).error ≡ EncodeError.no_error
unfolding encode_frame_header is_known_frame_type frame_type_value max_payload_size
hello_no_error = refl

abbrev received : FrameParser
received = record new_parser { buffer = hello_bytes ++ (5 ∷ []) }

received_ready : (parse_next received).1.status ≡ frame_ready
unfolding sub_u64 add_u64 parse_next parse_header take_frame buffered_size has_magic read_header
    header_fault read_u16_le read_u32_le read_u64_le is_known_frame_type max_payload_size
    to_frame_type
received_ready = refl

abbrev garbled : FrameParser
garbled = record new_parser { buffer = 80 ∷ hello_bytes }

garbled_fatal : (parse_next garbled).1.status ≡ ParseStatus.fatal_error
unfolding sub_u64 parse_next parse_header make_fatal buffered_size has_magic
garbled_fatal = refl

encode_frame_succeeds_example :
    ((encode_frame audio_pcm 3 (7 ∷ [])).error ≡ EncodeError.no_error)
    ↔ ((is_known_frame_type (frame_type_value audio_pcm) ≡ true) × (1 ≤ max_payload_size audio_pcm))
encode_frame_succeeds_example = encode_frame_succeeds audio_pcm 3 (7 ∷ [])

length-encode_frame_header_example :
    let r = encode_frame_header hello.header hello.payload in
    ((r.error ≡ EncodeError.no_error) × (length r.bytes ≡ 26))
    ⊎ ((r.error ≢ EncodeError.no_error) × (r.bytes ≡ []))
length-encode_frame_header_example = length-encode_frame_header hello.header hello.payload

decode-encode_frame_header_example :
    decode ((encode_frame_header hello.header hello.payload).bytes ++ (5 ∷ []))
    ≡ ready hello (5 ∷ [])
decode-encode_frame_header_example =
    decode-encode_frame_header hello.header hello.payload (5 ∷ []) (omega arith) tt hello_no_error

parse_next-decode_example : Agrees received (decode (pending received)) (parse_next received)
parse_next-decode_example = parse_next-decode received (omega arith) refl

parse_next_ready_example :
    let (q, result) = parse_next received in
    IsWellFormed result.frame
    × (buffered_size received
        ≡ result.frame.header.header_size + length result.frame.payload + buffered_size q)
    × IsValid q
    × (q.read_offset < 64 * 1024)
    × (2 * q.read_offset ≤ length q.buffer)
parse_next_ready_example = parse_next_ready received (omega arith) received_ready

parse_next-append_fatal_example :
    parse_next (append (parse_next garbled).0 (1 ∷ 2 ∷ [])) ≡ parse_next garbled
parse_next-append_fatal_example =
    parse_next-append_fatal garbled (1 ∷ 2 ∷ []) (omega arith) garbled_fatal

abbrev pieces : List (List ℕ)
pieces = take 10 hello_bytes ∷ drop 10 hello_bytes ∷ []

feed_all-split_example : Delivers (split (flatten pieces)) (feed_all new_parser pieces)
feed_all-split_example = feed_all-split pieces

flatten-pieces : flatten pieces ≡ encode_all (hello ∷ [])
unfolding flatten encode_frame_header write_header is_known_frame_type frame_type_value
    max_payload_size
flatten-pieces = refl

feed_all-encode_all_example :
    let (frames, q) = feed_all new_parser pieces in
    (frames ≡ hello ∷ []) × (q.fatal ≡ false) × (pending q ≡ [])
feed_all-encode_all_example =
    feed_all-encode_all (hello ∷ []) pieces ((omega arith, tt, hello_no_error), tt) flatten-pieces
