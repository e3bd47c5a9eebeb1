-- ===== src/Framing.antt =====
-- src/qwen_tts_bridge/protocol/framing: the binary frames of protocol v1.
pub mod Codec
pub mod Parser
pub mod RoundTrip
mod Tests
