-- ===== src/Protocol/RoundTrip/Provider.antt =====
-- protocol/provider.go: round trips of its types.
mod Messages
mod Streams
mod Capabilities
pub use Messages.*
pub use Streams.*
pub use Capabilities.*
