-- ===== src/Examples.antt =====
-- Concrete inputs: fixtures, tests, and the theorems at an input.
mod Fixtures
mod Retries
mod Requests
mod Runs
mod Sessions
mod Schemas
mod Goroutines
mod Characters
mod Codec
mod Exchanges
mod Initializations
