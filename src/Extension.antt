-- ===== src/Extension.antt =====
-- extension: the runner of an extension. `Emitter` and `Handler` say what an extension's code may
-- do, `Dispatcher` is the request loop, and `Run` routes to the handlers that are registered.
pub mod Emitter
pub mod Handler
pub mod Dispatcher
pub mod Channel
pub mod Provider
pub mod Tool
pub mod Tts
pub mod Stt
pub mod Hook
pub mod Http
pub mod Service
pub mod Composite
pub mod Run
pub mod Answers
pub mod Correctness
