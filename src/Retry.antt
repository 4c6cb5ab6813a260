-- ===== src/Retry.antt =====
-- retry: retrying with backoff (retry/retry.go) and the circuit breaker (retry/breaker.go).
pub mod Floats
pub mod Backoff
pub mod Transient
pub mod Breaker
