-- ===== src/Client.antt =====
-- src/qwen_tts_bridge/client: the client above the worker session.
pub mod Types
pub mod Text
pub mod Deliver
pub mod Requests
pub mod Calls
pub mod Steps
pub mod Utf8
pub mod Outbound
pub mod Failure
pub mod Story
mod Tests
