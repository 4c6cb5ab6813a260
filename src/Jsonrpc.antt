-- ===== src/Jsonrpc.antt =====
-- jsonrpc/transport.go: JSON-RPC messages as lines of JSON. `Scanner` is what it uses of bufio,
-- `Transport` the code of the file, and `Concurrent` its lock.
pub mod Scanner
pub mod Writer
pub mod Concurrent
pub mod Transport
