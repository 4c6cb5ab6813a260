-- ===== src/Lib.antt =====
-- The extension SDK of kova: what an extension's process reads, decides and writes, and the retry
-- helpers that it may use.
--
-- The host starts an extension and speaks JSON-RPC 2.0 with it, a message per line. The transport
-- (jsonrpc) turns bytes into requests and messages into lines, the runner (extension) answers each
-- request through the handlers that the extension registers, and protocol holds the messages. The
-- package retry stands alone.
--
-- - Errors.antt: Go's error values with errors.Is and errors.As, as far as the SDK inspects them.
-- - Retry/Backoff.antt and Retry/Transient.antt: retry/retry.go. `do_retry` is `Do`, `do_with_result`
--   is `DoWithResult`, `is_transient` is `IsTransient`. An `Env` says what the i-th use of the
--   callback, the context, the timer and the random source gives; `Floats` is float64.
-- - Retry/Breaker.antt: retry/breaker.go. `admit` and `settle` are the two critical sections of
--   `Breaker.Do`; a list of `Event`s is an interleaving of the sections of any goroutines.
-- - Json: how encoding/json maps Go values to JSON values: `Kind` for a type, `Field` for a field
--   with its tag, `struct_kind` for a struct. The text of a value is the parameter `Encoding`, which
--   also says what float64 a number of a map is decoded to. Json/Marshal.antt: what json.Marshal
--   rejects (`invalid`: NaN, a func, an invalid raw message) is an error of `encode`.
-- - Protocol: the structs and constants of protocol/*.go, one module for each source file.
-- - Jsonrpc/Scanner.antt and Jsonrpc/Writer.antt: bufio.Scanner and io.Writer as they are used.
--   Jsonrpc/Transport.antt: jsonrpc/transport.go. A reader is the bytes that it gives, a writer the
--   bytes written so far and a script of the calls that fail. Jsonrpc/Concurrent.antt: `writeLine` of
--   any number of goroutines as a step relation, a step for Lock, each Write and Unlock.
-- - Extension/Channel.antt to Extension/Service.antt: the eight interfaces with their dispatch
--   functions, extension/channel.go to extension/service.go. Extension/Handler.antt: what a method may
--   do, and the pieces that the dispatch functions share.
-- - Extension/Emitter.antt, Extension/Dispatcher.antt: extension/extension.go. `loop` is the loop of
--   `dispatcher.run`. Extension/Composite.antt, Extension/Run.antt: extension/run.go.
-- - Harness.antt, Harness/Calls.antt and Harness/Helpers.antt: harness/harness.go, the host's side in
--   a test. `Fatal` is why t.Fatalf stops the test. Harness/Exchange.antt and
--   Harness/Initialization.antt connect it to an extension by two pipes.
-- - GenerateSchemas.antt: cmd/generate-schemas/main.go. A `Toolbox` is what it uses of the schema
--   library, encoding/json and os.
-- - Examples: concrete inputs. Examples/Codec.antt is an encoding with all the laws of `IsFaithful`.
--
-- Fuel: `read_from`, `loop` and the loops of the harness take at most one round for each byte of the
-- input, and are given one unit more than there are bytes. An extension's method is a finite
-- program of emissions: one that blocks for ever or panics is not modelled.
--
-- Not modelled: what log/slog does with a log line (`SetupLogging` only configures it) and what the
-- schema library reads off a Go type. The runner is modelled as the only writer of its transport; what
-- goroutines that an extension starts itself write between its messages is modelled for the transport
-- alone. Contexts are reduced to when they end. A Go string is a text: invalid UTF-8, which encoding/json
-- replaces, is not modelled. The float64 conversions of the delays are those of values in int64's
-- range, and what Go does outside of it is not modelled. A number of nanoseconds is not negative, and the
-- breaker's clock does not go back.

pub mod Prelude
pub mod Errors
pub mod Retry
pub mod Json
pub mod Protocol
pub mod Jsonrpc
pub mod Extension
pub mod Harness
pub mod GenerateSchemas
pub mod Examples
