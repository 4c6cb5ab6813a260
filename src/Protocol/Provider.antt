-- ===== src/Protocol/Provider.antt =====
-- protocol/provider.go: LLM providers. A table lists the fields of a struct with their tags.
mod Messages
mod Streams
mod Capabilities
unfoldable pub use Messages.*
unfoldable pub use Streams.*
unfoldable pub use Capabilities.*
