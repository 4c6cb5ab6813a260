-- ===== src/Protocol/RoundTrip.antt =====
-- Round trips of the protocol types, one module per source file.
pub mod Types
pub mod Initialize
pub mod Tools
pub mod Http
pub mod Hooks
pub mod Services
pub mod Channel
pub mod Provider
pub mod Stt
pub mod Tts
pub mod Voice
pub mod Log
pub mod Messages
