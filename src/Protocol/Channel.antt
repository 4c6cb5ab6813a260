-- ===== src/Protocol/Channel.antt =====
-- protocol/channel.go: channel messages. A table lists the fields of a struct with their tags.
mod Messages
mod Sending
mod Activity
mod Prompts
mod Capabilities
unfoldable pub use Messages.*
unfoldable pub use Sending.*
unfoldable pub use Activity.*
unfoldable pub use Prompts.*
unfoldable pub use Capabilities.*
