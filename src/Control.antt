-- ===== src/Control.antt =====
-- src/qwen_tts_bridge/protocol/control: the JSON control messages of protocol v1.
pub mod Messages
pub mod Validation
pub mod Json
pub mod Encode
pub mod Decode
pub mod Fields
pub mod Checked
pub mod Parts
pub mod Arrival
pub mod Bodies
pub mod RoundTrip
mod JsonTests
mod Tests
