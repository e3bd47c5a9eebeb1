-- ===== src/Audio/WavWriter/Bounds.antt =====
-- The sizes of a WAV file, whatever is asked of the writer and whatever its stream does.
use qwen3_tts_bridge_cpp.Common.{
  ℕ, ◌+◌, ◌-◌, ◌≤◌, String, ◌≡◌, ◌⊎◌, Bool, true, false, Option, none, some, refl, ◌∙◌, List, [],
  ◌∷◌, arith, length,
}
use Prim.Native.String.{◌++◌ as ◌<>◌}
use qwen3_tts_bridge_cpp.Common.Result.{ok}
use qwen3_tts_bridge_cpp.Audio.WavWriter.{
  Medium, WavWriter, store, riff_size_without_data, begin_file, make_wav_writer, max_data_size,
  append_pcm, write_pcm, patch_header, close,
}

pub data Call : Type 0 where
  writes : Bool → List ℕ → Medium → Call
  closes : Medium → Medium → Call

abbrev pub after : WavWriter → Call → WavWriter
after w (writes is_null bytes medium) = (write_pcm w is_null bytes medium).0
after w (closes patching flushing) = (close w patching flushing).0

abbrev pub after_all : WavWriter → List Call → WavWriter
after_all w [] = w
after_all w (c ∷ cs) = after_all (after w c) cs

-- The two 32-bit sizes of the header can hold the data.
pub record IsBounded (w : WavWriter) : Type 0 where
  pub bound : w.data_size ≤ 0xffff_ffff - 36

make-IsBounded :
    (path : String) (r c b : ℕ) (opens : Bool) (medium : Medium) {w : WavWriter}
    → make_wav_writer path r c b opens medium ≡ ok w
    → IsBounded w
unfolding make_wav_writer begin_file
make-IsBounded path r c b opens medium h = record { bound = ground (arith, h) }

make-path :
    (path : String) (r c b : ℕ) (opens : Bool) (medium : Medium) {w : WavWriter}
    → make_wav_writer path r c b opens medium ≡ ok w
    → w.path ≡ path
unfolding make_wav_writer begin_file
make-path path r c b opens medium h = ground (arith, h)

after-path : (w : WavWriter) (c : Call) → (after w c).path ≡ w.path
unfolding write_pcm append_pcm close patch_header
after-path w (writes is_null bytes medium) = ground arith
after-path w (closes patching flushing) = ground arith

after_all-path : (w : WavWriter) (calls : List Call) → (after_all w calls).path ≡ w.path
after_all-path w [] = refl
after_all-path w (c ∷ cs) = after_all-path (after w c) cs ∙ after-path w c

append-size :
    (w : WavWriter) (bytes : List ℕ) (medium : Medium)
    → (append_pcm w bytes medium).0.data_size ≤ w.data_size + length bytes
unfolding append_pcm
append-size w bytes medium = ground arith

write_pcm-IsBounded :
    (w : WavWriter) (is_null : Bool) (bytes : List ℕ) (medium : Medium)
    → IsBounded w
    → IsBounded (write_pcm w is_null bytes medium).0
unfolding write_pcm max_data_size riff_size_without_data
write_pcm-IsBounded w is_null bytes medium v = record {
  bound = ground (arith, v.bound, append-size w bytes medium);
}

close-size :
    (w : WavWriter) (patching flushing : Medium)
    → (close w patching flushing).0.data_size ≡ w.data_size
unfolding close patch_header
close-size w patching flushing = ground arith

after_all-IsBounded :
    (w : WavWriter) (calls : List Call) → IsBounded w → IsBounded (after_all w calls)
after_all-IsBounded w [] v = v
after_all-IsBounded w (writes is_null bytes medium ∷ cs) v =
    after_all-IsBounded (write_pcm w is_null bytes medium).0 cs
      (write_pcm-IsBounded w is_null bytes medium v)
after_all-IsBounded w (closes patching flushing ∷ cs) v =
    after_all-IsBounded (close w patching flushing).0 cs
      (record { bound = omega (arith, v.bound, close-size w patching flushing) })

-- An answer of `close`: success, or one of the two messages of a stream that has failed.
abbrev pub Answers : String → WavWriter × Option String → Type 0
Answers path r =
    ((r.1 ≡ none) × (r.0.closed ≡ true))
    ⊎ (((r.1 ≡ some ("failed to patch WAV header: " <> path))
          ⊎ (r.1 ≡ some ("failed to flush WAV file: " <> path)))
        × (r.0.file.good ≡ false)
        × (r.0.closed ≡ false))

-- The size checks of `patch_header` never fail, so that `close` reports an error only for a
-- stream that has failed.
close_reports :
    (w : WavWriter) (patching flushing : Medium)
    → IsBounded w
    → Answers w.path (close w patching flushing)
unfolding close patch_header store riff_size_without_data
close_reports w patching flushing v = ground (arith, v.bound)

-- Whatever is written to a writer that its constructor made, however often it is closed, and
-- whenever its stream fails: a further `close` succeeds and the writer is closed, or the stream has
-- failed, the message says that patching the header or flushing the file of this path failed, and
-- the writer stays open.
pub close-after_all :
    (path : String) (sample_rate channels bits_per_sample : ℕ) (opens : Bool) (medium : Medium)
    (w : WavWriter) (calls : List Call) (patching flushing : Medium)
    → make_wav_writer path sample_rate channels bits_per_sample opens medium ≡ ok w
    → Answers path (close (after_all w calls) patching flushing)
close-after_all path r c b opens medium w calls patching flushing h =
    rw (after_all-path w calls ∙ make-path path r c b opens medium h) at (
      close_reports (after_all w calls) patching flushing
        (after_all-IsBounded w calls (make-IsBounded path r c b opens medium h)))
