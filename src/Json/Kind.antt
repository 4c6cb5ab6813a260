-- ===== src/Json/Kind.antt =====
-- How encoding/json writes and reads each Go type that the protocol uses.
-- Reading changes a value in place: a JSON null leaves a scalar or a struct as it was.
mod Scalars
mod Values
mod Containers
mod Texts
unfoldable pub use Scalars.*
unfoldable pub use Values.*
unfoldable pub use Containers.*
unfoldable pub use Texts.*
