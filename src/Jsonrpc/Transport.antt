-- ===== src/Jsonrpc/Transport.antt =====
-- jsonrpc/transport.go: `Transport` as one goroutine uses it; `Concurrent` has the goroutines that
-- write at the same time.
pub mod Framing
pub mod Inputs
pub mod Reading
pub mod Writing
use extension_sdk_go.Prelude.{
  ℕ, zero, suc, String, Option, none, some, List, [], length, ℤ, Result, ok, err, ◌∷◌,
}
use extension_sdk_go.Errors.{Error, sentinel, eof, text, wrap}
use extension_sdk_go.Json.{Json}
use extension_sdk_go.Json.Encoding.{Encoding}
use extension_sdk_go.Json.Kind.{Kind}
use extension_sdk_go.Protocol.Types.{
  Request, request_kind, Response, response_kind, Notification, notification_kind,
}
use extension_sdk_go.Jsonrpc.Scanner.{Scanner, new_scanner, scan}
use extension_sdk_go.Jsonrpc.Writer.{Writer, write}

abbrev pub default_buffer_size : ℕ
default_buffer_size = 1_048_576

abbrev pub large_buffer_size : ℕ
large_buffer_size = 16_777_216

pub record Transport : Type 0 where
  pub scanner : Scanner
  pub writer : Writer

-- The reader is the bytes that it gives and the error, if not io.EOF, with which it ends.
unfoldable pub new_transport : List ℕ → Option Error → Writer → (buf_size : ℕ) → Transport
new_transport input read_err w buf_size = record {
  scanner = new_scanner input read_err buf_size;
  writer = w;
}

module _ ⦃enc : Encoding⦄ where
  -- json.Unmarshal into a zero value: of a text, and of a RawMessage, which is nil or a value.
  unfoldable pub unmarshal_value : {T : Type 0} → Kind T → Json → Result Error T
  unmarshal_value k j = elim (k.unmarshal j k.zero_value) [
    | some v ↦ ok v
    | none ↦ err (text (enc.type_message j))
  ]

  unfoldable pub unmarshal : {T : Type 0} → Kind T → List ℕ → Result Error T
  unmarshal k bytes = elim (enc.parse bytes) [
    | some j ↦ unmarshal_value k j
    | none ↦ err (text (enc.syntax_message bytes))
  ]

  unfoldable pub unmarshal_raw : {T : Type 0} → Kind T → Option Json → Result Error T
  unmarshal_raw k (some j) = unmarshal_value k j
  unmarshal_raw k none = err (text (enc.syntax_message []))

  -- A token of the scanner as a request.
  abbrev pub request_of : List ℕ → Scanner → Result Error Request × Scanner
  request_of line s = elim (unmarshal request_kind line) [
    | ok req ↦ (ok req, s)
    | err e ↦ (err (wrap "unmarshal request" e), s)
  ]

  abbrev pub no_token : Scanner → Result Error Request × Scanner
  no_token s = elim s.failed [ some e ↦ (err (wrap "read" e), s) | none ↦ (err (sentinel eof), s) ]

  -- The loop of `ReadRequest`, which skips empty lines. Each round takes at least one byte, so more
  -- fuel than there are bytes is enough (`Reading.read_from_fuel`).
  unfoldable pub read_from : (fuel : ℕ) → Scanner → Result Error Request × Scanner
  read_from zero s = (err (sentinel eof), s)
  read_from (suc fuel) s =
      let (token, s') = scan s in
      elim token [
        | none ↦ no_token s'
        | some [] ↦ read_from fuel s'
        | some (c ∷ line) ↦ request_of (c ∷ line) s'
      ]

  unfoldable pub read_request : Transport → Result Error Request × Transport
  unfolding read_from
  read_request t =
      let (r, s) = read_from (suc (length t.scanner.input)) t.scanner in
      (r, record t { scanner = s })

  -- `writeLine` of a value that json.Marshal has turned into `j`: two calls of Write.
  unfoldable pub write_line : Json → Transport → Option Error × Transport
  write_line j t =
      let (e, w) = write (enc.print j) t.writer in
      elim e [
        | some e' ↦ (some (wrap "write" e'), record t { writer = w })
        | none ↦
            let (f, w') = write (b'\n' ∷ []) w in
            elim f [
              | some f' ↦ (some (wrap "write newline" f'), record t { writer = w' })
              | none ↦ (none, record t { writer = w' })
            ]
      ]

  -- The payload is what json.Marshal gives for the result, or its error.
  unfoldable pub send_response : ℤ → Result Error Json → Transport → Option Error × Transport
  send_response id (err e) t = (some (wrap "marshal result" e), t)
  send_response id (ok data') t =
      write_line
        (response_kind.marshal
          (record { jsonrpc = "2.0"; result = some data'; error = none; id = id }))
        t

  unfoldable pub send_error :
      ℤ → (code : ℤ) → (message : String) → Transport → Option Error × Transport
  send_error id code message t =
      write_line
        (response_kind.marshal (record {
          jsonrpc = "2.0";
          result = none;
          error = some (record { code = code; message = message });
          id = id;
        }))
        t

  unfoldable pub send_notification :
      (method : String) → Result Error Json → Transport → Option Error × Transport
  send_notification method (err e) t = (some (wrap "marshal notification params" e), t)
  send_notification method (ok data') t =
      write_line
        (notification_kind.marshal
          (record { jsonrpc = "2.0"; method = method; params = some data' }))
        t
