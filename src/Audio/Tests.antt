-- ===== src/Audio/Tests.antt =====
-- Concrete runs of the WAV writer, and its theorems at concrete inputs.
use qwen3_tts_bridge_cpp.Common.{ℕ, ◌≡◌, refl, true, false, none, List, [], ◌∷◌, arith}
use mathlib.Core.List.{flatten}
use qwen3_tts_bridge_cpp.Common.Result.{ok}
use qwen3_tts_bridge_cpp.Audio.WavWriter.{
  works, breaks, WavWriter, store, fmt_chunk_size, riff_size_without_data,
  is_supported_bits_per_sample, wav_u16_le, wav_u32_le, wav_header, begin_file, make_wav_writer,
  close,
}
use qwen3_tts_bridge_cpp.Audio.WavWriter.Recording.{write_all, HasFormat, finished, close-write_all}
use qwen3_tts_bridge_cpp.Audio.WavWriter.Bounds.{Answers, Call, writes, after_all, close-after_all}

-- Mono at 24 kHz with 16 bits.
abbrev mono : WavWriter
mono = record {
  file = record {
    bytes =
        82 ∷ 73 ∷ 70 ∷ 70 ∷ 36 ∷ 0 ∷ 0 ∷ 0 ∷ 87 ∷ 65 ∷ 86 ∷ 69 ∷ 102 ∷ 109 ∷ 116 ∷ 32 ∷ 16 ∷ 0 ∷ 0
        ∷ 0 ∷ 1 ∷ 0 ∷ 1 ∷ 0 ∷ 192 ∷ 93 ∷ 0 ∷ 0 ∷ 128 ∷ 187 ∷ 0 ∷ 0 ∷ 2 ∷ 0 ∷ 16 ∷ 0 ∷ 100 ∷ 97 ∷ 116
        ∷ 97 ∷ 0 ∷ 0 ∷ 0 ∷ 0 ∷ [];
    good = true;
  };
  path = "out.wav";
  sample_rate = 24000;
  channels = 1;
  bits_per_sample = 16;
  block_align = 2;
  data_size = 0;
  closed = false;
}

made : make_wav_writer "out.wav" 24000 1 16 true works ≡ ok mono
unfolding make_wav_writer begin_file store wav_header wav_u16_le wav_u32_le fmt_chunk_size
    riff_size_without_data is_supported_bits_per_sample
made = refl

abbrev chunks : List (List ℕ)
chunks = (1 ∷ 2 ∷ []) ∷ [] ∷ (3 ∷ 4 ∷ 5 ∷ 6 ∷ []) ∷ []

close-write_all_example :
    HasFormat 24000 1 16 mono
    × (close (write_all mono chunks) works works ≡ (finished mono (flatten chunks), none))
close-write_all_example =
    close-write_all "out.wav" 24000 1 16 mono chunks made (omega arith) (omega arith)
      (refl, (refl, (refl, tt))) (unfold flatten in omega arith)

abbrev calls : List Call
calls =
    writes false (1 ∷ 2 ∷ []) works
    ∷ writes false (7 ∷ []) works
    ∷ writes false (3 ∷ 4 ∷ []) (breaks (82 ∷ []))
    ∷ []

close-after_all_example : Answers "out.wav" (close (after_all mono calls) works works)
close-after_all_example =
    close-after_all "out.wav" 24000 1 16 true works mono calls works works made
