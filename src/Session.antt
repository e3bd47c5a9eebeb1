-- ===== src/Session.antt =====
-- src/qwen_tts_bridge/session: the worker session.
pub mod Types
pub mod Worker
pub mod Calls
pub mod Rule
pub mod Loop
pub mod Dispatch
pub mod Invariant
pub mod Phase
pub mod Overflow
pub mod Fixtures
mod Tests
