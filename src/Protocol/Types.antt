-- ===== src/Protocol/Types.antt =====
-- protocol/types.go: the JSON-RPC envelopes. A table lists the fields of a struct with their tags.
use extension_sdk_go.Prelude.{String, Option, none, List, [], ℤ, pos, ◌∷◌}
use extension_sdk_go.Json.{Json}
use extension_sdk_go.Json.Kind.{string_kind, int_kind, raw_kind, pointer_kind, Kind}
use extension_sdk_go.Json.Struct.{Field, field, omitempty, struct_kind}

pub record Request : Type 0 where
  pub jsonrpc : String
  pub method : String
  pub params : Option Json
  pub id : ℤ

abbrev pub zero_request : Request
zero_request = record { jsonrpc = ""; method = ""; params = none; id = pos 0 }

unfoldable pub request_fields : List (Field Request)
request_fields =
    field "jsonrpc" string_kind (λ r. r.jsonrpc) (λ v r. record r { jsonrpc = v })
    ∷ field "method" string_kind (λ r. r.method) (λ v r. record r { method = v })
    ∷ omitempty "params" raw_kind (λ r. r.params) (λ v r. record r { params = v })
    ∷ field "id" int_kind (λ r. r.id) (λ v r. record r { id = v })
    ∷ []

unfoldable pub request_kind : Kind Request
request_kind = struct_kind zero_request request_fields

pub record RpcError : Type 0 where
  pub code : ℤ
  pub message : String

-- Error().
abbrev pub rpc_error_message : RpcError → String
rpc_error_message e = e.message

abbrev pub zero_rpc_error : RpcError
zero_rpc_error = record { code = pos 0; message = "" }

unfoldable pub rpc_error_fields : List (Field RpcError)
rpc_error_fields =
    field "code" int_kind (λ r. r.code) (λ v r. record r { code = v })
    ∷ field "message" string_kind (λ r. r.message) (λ v r. record r { message = v })
    ∷ []

unfoldable pub rpc_error_kind : Kind RpcError
rpc_error_kind = struct_kind zero_rpc_error rpc_error_fields

pub record Response : Type 0 where
  pub jsonrpc : String
  pub result : Option Json
  pub error : Option RpcError
  pub id : ℤ

abbrev pub zero_response : Response
zero_response = record { jsonrpc = ""; result = none; error = none; id = pos 0 }

unfoldable pub response_fields : List (Field Response)
response_fields =
    field "jsonrpc" string_kind (λ r. r.jsonrpc) (λ v r. record r { jsonrpc = v })
    ∷ omitempty "result" raw_kind (λ r. r.result) (λ v r. record r { result = v })
    ∷ omitempty "error" (pointer_kind rpc_error_kind) (λ r. r.error) (λ v r. record r { error = v })
    ∷ field "id" int_kind (λ r. r.id) (λ v r. record r { id = v })
    ∷ []

unfoldable pub response_kind : Kind Response
response_kind = struct_kind zero_response response_fields

pub record Notification : Type 0 where
  pub jsonrpc : String
  pub method : String
  pub params : Option Json

abbrev pub zero_notification : Notification
zero_notification = record { jsonrpc = ""; method = ""; params = none }

unfoldable pub notification_fields : List (Field Notification)
notification_fields =
    field "jsonrpc" string_kind (λ r. r.jsonrpc) (λ v r. record r { jsonrpc = v })
    ∷ field "method" string_kind (λ r. r.method) (λ v r. record r { method = v })
    ∷ omitempty "params" raw_kind (λ r. r.params) (λ v r. record r { params = v })
    ∷ []

unfoldable pub notification_kind : Kind Notification
notification_kind = struct_kind zero_notification notification_fields
