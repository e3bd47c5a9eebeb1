-- ===== src/Audio/WavWriter/Recording.antt =====
-- What the WAV writer leaves in the file.
use qwen3_tts_bridge_cpp.Common.{
  ℕ, ◌+◌, ◌-◌, ◌*◌, ◌/◌, ◌%◌, ◌^◌, ◌≤◌, ◌<◌, String, ◌≡◌, refl, ap, ◌∙◌, true, false, none, List,
  [], ◌∷◌, ◌++◌, arith, length, All, length-append,
}
use mathlib.Core.List.{flatten, append_assoc, append-nil}
use qwen3_tts_bridge_cpp.Common.Result.{ok}
use qwen3_tts_bridge_cpp.Audio.WavWriter.{
  works, WavWriter, store, overwrite, riff_size_without_data, is_supported_bits_per_sample,
  wav_u16_le, wav_u32_le, wav_header, begin_file, make_wav_writer, max_data_size, append_pcm,
  write_pcm, patched, patch_header, close,
}

-- The open writer whose file has the data behind a header of no data.
abbrev pub with_data : WavWriter → List ℕ → WavWriter
with_data w bytes = record w {
  file = record { bytes = wav_header w 0 ++ bytes; good = true };
  data_size = length bytes;
  closed = false;
}

-- The same file when it is finished.
abbrev pub finished : WavWriter → List ℕ → WavWriter
finished w bytes = record w {
  file = record { bytes = wav_header w (length bytes) ++ bytes; good = true };
  data_size = length bytes;
  closed = true;
}

-- What a RIFF file can hold.
abbrev pub Fits : List ℕ → Type 0
Fits bytes = length bytes ≤ 0xffff_ffff - 36

-- The writer has the format that it was made for.
pub record HasFormat (sample_rate channels bits_per_sample : ℕ) (w : WavWriter) : Type 0 where
  pub same_rate : w.sample_rate ≡ sample_rate
  pub same_channels : w.channels ≡ channels
  pub same_bits : w.bits_per_sample ≡ bits_per_sample
  pub aligned : w.block_align ≡ channels * (bits_per_sample / 8)

-- The header is as long as its patches expect, and the patches change its sizes alone.
patched-header :
    (w : WavWriter) (bytes : List ℕ)
    → w.file.bytes ≡ wav_header w 0 ++ bytes
    → patched w ≡ wav_header w w.data_size ++ bytes
unfolding patched overwrite wav_header wav_u16_le wav_u32_le
patched-header w bytes h = rw h refl

begins :
    (path : String) (r c b : ℕ) {w : WavWriter}
    → make_wav_writer path r c b true works ≡ ok w
    → c < 2 ^ 16
    → b < 2 ^ 16
    → (w.sample_rate ≡ r)
      × (w.channels ≡ c)
      × (w.bits_per_sample ≡ b)
      × (w.block_align ≡ c * (b / 8))
      × (w.closed ≡ false)
      × (w.data_size ≡ 0)
      × (w.file ≡ record { bytes = wav_header w 0; good = true })
unfolding make_wav_writer begin_file store is_supported_bits_per_sample wav_header
begins path r c b {w} h hc hb = ground (arith, h, hc, hb)

make-HasFormat :
    (path : String) (r c b : ℕ) {w : WavWriter}
    → make_wav_writer path r c b true works ≡ ok w
    → c < 2 ^ 16
    → b < 2 ^ 16
    → HasFormat r c b w × (w ≡ with_data w [])
make-HasFormat path r c b {w} h hc hb =
    let (rate, chans, bits, align, live, empty, file) = begins path r c b h hc hb in
    (
      record { same_rate = rate; same_channels = chans; same_bits = bits; aligned = align },
      rw (append-nil (wav_header w 0)) (ground (arith, live, empty, file)),
    )

append-with_data :
    (w : WavWriter) (bytes chunk : List ℕ)
    → append_pcm (with_data w bytes) chunk works ≡ (with_data w (bytes ++ chunk), none)
unfolding append_pcm store wav_header
append-with_data w bytes chunk =
    rw (append_assoc (wav_header w 0) bytes chunk, length-append bytes chunk) refl

-- A chunk of whole frames that fits is written behind the data; nothing else changes.
write_pcm-with_data :
    (w : WavWriter) (bytes chunk : List ℕ)
    → length chunk % w.block_align ≡ 0
    → length bytes + length chunk ≤ 0xffff_ffff - 36
    → write_pcm (with_data w bytes) false chunk works ≡ (with_data w (bytes ++ chunk), none)
unfolding write_pcm max_data_size riff_size_without_data
write_pcm-with_data w bytes [] e k = rw (append-nil bytes) refl
write_pcm-with_data w bytes (b ∷ bs) e k = ground (arith, append-with_data w bytes (b ∷ bs))

close-with_data :
    (w : WavWriter) (bytes : List ℕ)
    → Fits bytes
    → close (with_data w bytes) works works ≡ (finished w bytes, none)
unfolding close patch_header store riff_size_without_data wav_header
close-with_data w bytes k = ground (arith, patched-header (with_data w bytes) bytes refl)

-- `write_pcm` of one chunk after the other.
abbrev pub write_all : WavWriter → List (List ℕ) → WavWriter
write_all w [] = w
write_all w (c ∷ cs) = write_all (write_pcm w false c works).0 cs

abbrev pub IsWhole : WavWriter → List ℕ → Type 0
IsWhole w chunk = length chunk % w.block_align ≡ 0

write_all-with_data :
    (w : WavWriter) (bytes : List ℕ) (chunks : List (List ℕ))
    → All (IsWhole w) chunks
    → Fits (bytes ++ flatten chunks)
    → write_all (with_data w bytes) chunks ≡ with_data w (bytes ++ flatten chunks)
unfolding flatten
write_all-with_data w bytes [] h k = rw (append-nil bytes) refl
write_all-with_data w bytes (c ∷ cs) h k =
    let room : length bytes + length c ≤ 0xffff_ffff - 36 =
      omega (arith, k, length-append bytes (c ++ flatten cs), length-append c (flatten cs)) in
    rw (write_pcm-with_data w bytes c h.0 room) (
      rw (← append_assoc bytes c (flatten cs))
        (write_all-with_data w (bytes ++ c) cs h.1 (rw (append_assoc bytes c (flatten cs)) k)))

-- A writer that its constructor made writes any chunks of whole frames that fit a RIFF file and is
-- then closed, with a stream that works. The file then holds the header of its format with the
-- size of all the data, and behind it the chunks in their order, and `close` reports no error.
pub close-write_all :
    (path : String) (sample_rate channels bits_per_sample : ℕ) (w : WavWriter)
    (chunks : List (List ℕ))
    → make_wav_writer path sample_rate channels bits_per_sample true works ≡ ok w
    → channels < 2 ^ 16
    → bits_per_sample < 2 ^ 16
    → All (IsWhole w) chunks
    → Fits (flatten chunks)
    → HasFormat sample_rate channels bits_per_sample w
      × (close (write_all w chunks) works works ≡ (finished w (flatten chunks), none))
close-write_all path r c b w chunks h hc hb whole fits =
    let (format, fresh) = make-HasFormat path r c b h hc hb in
    (
      format,
      ap (λ v. close (write_all v chunks) works works) fresh
          ∙ rw (write_all-with_data w [] chunks whole fits)
              (close-with_data w (flatten chunks) fits),
    )
