-- ===== src/Audio/WavWriter.antt =====
-- src/qwen_tts_bridge/audio/wav_writer.cpp: the RIFF/WAVE writer. An exception is its text. What
-- the stream does is an argument of each call: it works, or it breaks and leaves some bytes in the
-- file, and then writes nothing any more.
pub mod Recording
pub mod Bounds
use qwen3_tts_bridge_cpp.Common.{
  ℕ, zero, ◌+◌, ◌-◌, ◌*◌, ◌/◌, ◌%◌, ◌^◌, String, len, Bool, true, false, not, ◌&&◌, ◌||◌, Option,
  none, some, List, [], ◌∷◌, ◌++◌, ltb, ◌==◌, ◌!=◌, if◌then◌else◌, length, take, drop,
}
use Prim.Native.String.{◌++◌ as ◌<>◌}
use qwen3_tts_bridge_cpp.Common.Words.{u16_max, u32_max}
use qwen3_tts_bridge_cpp.Common.Result.{Result, ok, err}

-- `std::ofstream`: the file's bytes and the stream's state.
pub record Stream : Type 0 where
  pub bytes : List ℕ
  pub good : Bool

pub data Medium : Type 0 where
  works : Medium
  breaks : List ℕ → Medium

-- The file gets new contents, if the stream is good and stays so.
unfoldable pub store : Stream → List ℕ → Medium → Stream
store s bytes works = if s.good then record s { bytes = bytes } else s
store s bytes (breaks left) = if s.good then record { bytes = left; good = false } else s

-- `seekp(position)` and a write in the middle of the file.
unfoldable pub overwrite : ℕ → List ℕ → List ℕ → List ℕ
overwrite position bytes file = take position file ++ (bytes ++ drop (position + length bytes) file)

unfoldable pub fmt_chunk_size : ℕ
fmt_chunk_size = 16

unfoldable pub riff_size_without_data : ℕ
riff_size_without_data = 36

unfoldable pub is_supported_bits_per_sample : ℕ → Bool
is_supported_bits_per_sample value = value == 8 || value == 16 || value == 24 || value == 32

unfoldable pub wav_u16_le : ℕ → List ℕ
wav_u16_le value = value % 256 ∷ value / 2 ^ 8 % 256 ∷ []

unfoldable pub wav_u32_le : ℕ → List ℕ
wav_u32_le value =
    value % 256 ∷ value / 2 ^ 8 % 256 ∷ value / 2 ^ 16 % 256 ∷ value / 2 ^ 24 % 256 ∷ []

pub record WavWriter : Type 0 where
  pub file : Stream
  pub path : String
  pub sample_rate : ℕ
  pub channels : ℕ
  pub bits_per_sample : ℕ
  pub block_align : ℕ
  pub data_size : ℕ
  pub closed : Bool

-- The bytes that `write_header` writes, once its sizes have passed `checked_u32`.
unfoldable pub wav_header : WavWriter → ℕ → List ℕ
wav_header w data_size =
    (b'R' ∷ b'I' ∷ b'F' ∷ b'F' ∷ [])
    ++ (wav_u32_le (riff_size_without_data + data_size)
        ++ ((b'W' ∷ b'A' ∷ b'V' ∷ b'E' ∷ b'f' ∷ b'm' ∷ b't' ∷ b' ' ∷ [])
            ++ (wav_u32_le fmt_chunk_size
                ++ (wav_u16_le 1
                    ++ (wav_u16_le w.channels
                        ++ (wav_u32_le w.sample_rate
                            ++ (wav_u32_le (w.sample_rate * w.block_align)
                                ++ (wav_u16_le w.block_align
                                    ++ (wav_u16_le w.bits_per_sample
                                        ++ ((b'd' ∷ b'a' ∷ b't' ∷ b'a' ∷ [])
                                            ++ wav_u32_le data_size))))))))))

-- The constructor's last part, on the writer that it has filled in.
unfoldable pub begin_file : WavWriter → Bool → Medium → Result String WavWriter
begin_file w opens medium =
    let started = record w {
      closed = false;
      file = store (record { bytes = []; good = true }) (wav_header w 0) medium;
    } in
    if not opens
    then err ("failed to open WAV file: " <> w.path)
    else if ltb u32_max (w.sample_rate * w.block_align)
    then err "byte rate exceeds uint32 range"
    else if not started.file.good
    then err ("failed to write WAV header: " <> w.path)
    else ok started

-- The constructor. `opens` says whether the file can be opened.
unfoldable pub make_wav_writer : String → ℕ → ℕ → ℕ → Bool → Medium → Result String WavWriter
make_wav_writer path sample_rate channels bits_per_sample opens medium =
    let block_align = channels * (bits_per_sample / 8) % 2 ^ 32 in
    if len path == 0
    then err "output WAV path is empty"
    else if sample_rate == 0
    then err "sample rate must be greater than zero"
    else if channels == 0
    then err "channel count must be greater than zero"
    else if not (is_supported_bits_per_sample bits_per_sample)
    then err "bits per sample must be 8, 16, 24, or 32"
    else if block_align == 0 || ltb u16_max block_align
    then err "WAV block alignment exceeds uint16 range"
    else begin_file
        (record {
          file = record { bytes = []; good = false };
          path = path;
          sample_rate = sample_rate;
          channels = channels;
          bits_per_sample = bits_per_sample;
          block_align = block_align;
          data_size = 0;
          closed = true;
        })
        opens medium

unfoldable pub max_data_size : ℕ
max_data_size = u32_max - riff_size_without_data

-- The data of `write_pcm` once its guards have passed.
unfoldable pub append_pcm : WavWriter → List ℕ → Medium → WavWriter × Option String
append_pcm w data_ medium =
    let file = store w.file (w.file.bytes ++ data_) medium in
    if not file.good
    then (record w { file = file }, some ("failed to write PCM data: " <> w.path))
    else (record w { file = file; data_size = w.data_size + length data_ }, none)

-- `is_null` says whether the pointer is null; the size is the length of `data_`. The answer is the
-- exception, if there is one.
unfoldable pub write_pcm : WavWriter → Bool → List ℕ → Medium → WavWriter × Option String
write_pcm w is_null data_ medium =
    let size = length data_ in
    if w.closed
    then (w, some "cannot write PCM to a closed WAV file")
    else if is_null && size != 0
    then (w, some "PCM data pointer is null")
    else if size == 0
    then (w, none)
    else if size % w.block_align != 0
    then (w, some "PCM chunk does not contain complete sample frames")
    else if ltb max_data_size w.data_size || ltb (max_data_size - w.data_size) size
    then (w, some "WAV file would exceed the RIFF 4 GiB limit")
    else append_pcm w data_ medium

-- The sizes stand at the positions 4 and 40.
unfoldable pub patched : WavWriter → List ℕ
patched w =
    overwrite 40 (wav_u32_le w.data_size)
      (overwrite 4 (wav_u32_le (riff_size_without_data + w.data_size)) w.file.bytes)

unfoldable pub patch_header : WavWriter → Medium → WavWriter × Option String
patch_header w medium =
    let w' = record w { file = store w.file (patched w) medium } in
    if ltb u32_max w.data_size
    then (w, some "WAV data size exceeds uint32 range")
    else if ltb u32_max (riff_size_without_data + w.data_size)
    then (w, some "RIFF chunk size exceeds uint32 range")
    else if not w'.file.good
    then (w', some ("failed to patch WAV header: " <> w.path))
    else (w', none)

-- `close`; the stream has a part when the header is patched, and when it is flushed.
unfoldable pub close : WavWriter → Medium → Medium → WavWriter × Option String
close w patching flushing =
    let (w', failure) = patch_header w patching in
    let flushed = store w'.file w'.file.bytes flushing in
    if w.closed then (w, none) else elim failure [
      | some message ↦ (w', some message)
      | none ↦
          if not flushed.good
          then (record w' { file = flushed }, some ("failed to flush WAV file: " <> w.path))
          else (record w' { file = flushed; closed = true }, none)
    ]
