-- ===== src/Playback.antt =====
-- src/qwen_tts_bridge/playback: what playback observes of the audio that it plays.
pub mod Receipt
mod Tests
