-- ===== src/Protocol/Initialize.antt =====
-- protocol/initialize.go: the initialize handshake and the registrations. A table lists the fields of a
-- struct with their tags.
mod Params
mod Definitions
mod Results
unfoldable pub use Params.*
unfoldable pub use Definitions.*
unfoldable pub use Results.*
