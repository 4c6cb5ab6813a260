-- ===== src/Extension/Correctness.antt =====
-- What a composite extension guarantees to its host.
pub mod Buffers
pub mod Conversation
pub mod Dispatch
pub mod Handlers
pub mod Lifecycle
pub mod Loop
pub mod Registration
pub mod Routing
pub mod Session
pub mod Shutdown
