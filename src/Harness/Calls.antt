-- ===== src/Harness/Calls.antt =====
-- harness/harness.go: the calls of the host. A payload is what json.Marshal gives, or its error.
use extension_sdk_go.Prelude.{
  ℕ, zero, suc, String, true, Option, none, some, [], length, ℤ, pos, eq_ℤ, Result, ok, err, ◌+◌,
  ◌∷◌, ◌++◌, if◌then◌else◌,
}
use extension_sdk_go.Errors.{Error}
use extension_sdk_go.Json.{Json, Members, end}
use extension_sdk_go.Json.Marshal.{encode}
use extension_sdk_go.Json.Encoding.{Encoding}
use extension_sdk_go.Protocol.Constants.{method_initialize, method_shutdown}
use extension_sdk_go.Protocol.Types.{Request, request_kind, RpcError, Response}
use extension_sdk_go.Protocol.Initialize.{
  InitializeParams, initialize_params_kind, initialize_result_kind, Registrations,
}
use extension_sdk_go.Jsonrpc.Writer.{write}
use extension_sdk_go.Jsonrpc.Transport.{unmarshal_raw}
use extension_sdk_go.Harness.{
  Fatal, marshal_params, write_request, id_mismatch, error_returned, expected_error,
  unmarshal_initialize, Test, response, notification, read_message, store_notification,
}

-- A nil params is `none`.
abbrev pub Params : Type 0
Params = Option (Result Error Json)

abbrev pub raw_params : Params → Result Error (Option Json)
raw_params none = ok none
raw_params (some (ok j)) = ok (some j)
raw_params (some (err e)) = err e

-- What a caller expects of the response to its method.
abbrev pub result_of : String → Response → Result Fatal (Option Json)
result_of method r = elim r.error [ some e ↦ err (error_returned method e) | none ↦ ok r.result ]

abbrev pub error_of : String → Response → Result Fatal RpcError
error_of method r = elim r.error [ some e ↦ ok e | none ↦ err (expected_error method) ]

abbrev pub checked : {A : Type 0} → ℤ → (Response → Result Fatal A) → Response → Result Fatal A
checked id expect r = if eq_ℤ r.id id then expect r else err (id_mismatch r.id id)

module _ ⦃enc : Encoding⦄ where
  unfoldable pub send_request : ℤ → String → Params → Test (Unit {0})
  send_request id method params fk = elim (raw_params params) [
    | err e ↦ (err (marshal_params e), fk)
    | ok raw ↦
        let req : Request = record { jsonrpc = "2.0"; method = method; params = raw; id = id } in
        let (e, w) = write (enc.print (request_kind.marshal req) ++ (b'\n' ∷ [])) fk.to_ext in
        let fk' = record fk { to_ext = w } in
        elim e [ some e' ↦ (err (write_request e'), fk') | none ↦ (ok tt, fk') ]
  ]

  -- The loop of `callInternal` and `CallExpectError`. Each message takes a byte at least.
  unfoldable pub receive :
      {A : Type 0} → (fuel : ℕ) → ℤ → (Response → Result Fatal A) → (stopped : Fatal) → Test A
  receive zero id expect stopped fk = (err stopped, fk)
  receive (suc fuel) id expect stopped fk =
      let (m, fk') = read_message fk in
      elim m [
        | err f ↦ (err f, fk')
        | ok (notification n) ↦ receive fuel id expect stopped (store_notification n fk')
        | ok (response r) ↦ (checked id expect r, fk')
      ]

  unfoldable pub call_with :
      {A : Type 0} → (String → Response → Result Fatal A) → String → Params → Test A
  unfolding receive
  call_with expect method params fk =
      let id = pos (fk.next_id + 1) in
      let (sent, fk') = send_request id method params (record fk { next_id = fk.next_id + 1 }) in
      elim sent [
        | err f ↦ (err f, fk')
        | ok _ ↦
            receive (suc (length fk'.scanner.input)) id (expect method) (expected_error method) fk'
      ]

  unfoldable pub call_internal : String → Params → Test (Option Json)
  call_internal method params fk = call_with result_of method params fk

  unfoldable pub call : String → Params → Test (Option Json)
  call method params fk = call_internal method params fk

  unfoldable pub call_expect_error : String → Params → Test RpcError
  call_expect_error method params fk = call_with error_of method params fk

  -- The temporary directory is an argument; a nil config is an empty map.
  unfoldable pub initialize : Option Members → (temp_dir : String) → Test Registrations
  initialize config temp_dir fk =
      let params : InitializeParams = record {
        config = some (elim config [ some ms ↦ ms | none ↦ end ]);
        extension_root = temp_dir;
        agent_name = "";
        agent_version = "";
      } in
      let (r, fk') =
        call method_initialize (some (encode (initialize_params_kind.marshal params))) fk in
      elim r [
        | err f ↦ (err f, fk')
        | ok result ↦ elim (unmarshal_raw initialize_result_kind result) [
          | ok init ↦ (ok init.registrations, fk')
          | err e ↦ (err (unmarshal_initialize e), fk')
        ]
      ]

  unfoldable pub shutdown : Test (Unit {0})
  shutdown fk =
      let (r, fk') = call method_shutdown none fk in
      elim r [ err f ↦ (err f, fk') | ok _ ↦ (ok tt, record fk' { closed = true }) ]
