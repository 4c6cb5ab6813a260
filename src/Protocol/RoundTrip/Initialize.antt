-- ===== src/Protocol/RoundTrip/Initialize.antt =====
-- protocol/initialize.go: round trips of its types.
mod Params
mod Definitions
mod Results
pub use Params.*
pub use Definitions.*
pub use Results.*
