-- ===== src/Harness/Helpers.antt =====
-- harness/harness.go: the helpers of tests.
use extension_sdk_go.Prelude.{String, Option, none, some, Result, ok, err, ◌+++◌}
use extension_sdk_go.Errors.{itoa}
use extension_sdk_go.Json.{Json}
use extension_sdk_go.Json.Encoding.{Encoding}
use extension_sdk_go.Json.Kind.{Kind}
use extension_sdk_go.Protocol.Types.{RpcError}
use extension_sdk_go.Jsonrpc.Transport.{unmarshal_raw}
use extension_sdk_go.Harness.{Fatal, unmarshal_failed}

-- `data'` is the json.RawMessage.
unfoldable pub must_unmarshal :
    ⦃enc : Encoding⦄ {A : Type 0} → Kind A → (data' : Option Json) → Result Fatal A
must_unmarshal k data' = elim (unmarshal_raw k data') [
  | ok v ↦ ok v
  | err e ↦ err (unmarshal_failed e)
]

-- `quote` is the verb %q of fmt.
abbrev pub format_error : (quote : String → String) → Option RpcError → String
format_error quote none = "<nil>"
format_error quote (some e) = "code=" +++ itoa e.code +++ " message=" +++ quote e.message
