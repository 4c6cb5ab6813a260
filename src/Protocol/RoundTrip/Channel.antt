-- ===== src/Protocol/RoundTrip/Channel.antt =====
-- protocol/channel.go: round trips of its types.
mod Messages
mod Sending
mod Activity
mod Prompts
mod Capabilities
pub use Messages.*
pub use Sending.*
pub use Activity.*
pub use Prompts.*
pub use Capabilities.*
