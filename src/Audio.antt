-- ===== src/Audio.antt =====
-- src/qwen_tts_bridge/audio: the WAV writer.
pub mod WavWriter
mod Tests
