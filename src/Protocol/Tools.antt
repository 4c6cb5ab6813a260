-- ===== src/Protocol/Tools.antt =====
-- protocol/tools.go: tool calls. A table lists the fields of a struct with their tags.
use extension_sdk_go.Prelude.{String, Bool, false, Option, none, List, [], ◌∷◌}
use extension_sdk_go.Json.{Members}
use extension_sdk_go.Json.Encoding.{Encoding}
use extension_sdk_go.Json.Kind.{string_kind, bool_kind, any_map_kind, pointer_kind, Kind}
use extension_sdk_go.Json.Struct.{Field, field, omitempty, struct_kind}
use extension_sdk_go.Protocol.Initialize.{CallContext, call_context_kind}

pub record ToolCallParams : Type 0 where
  pub name : String
  pub input : Option Members
  pub context : Option CallContext

abbrev pub zero_tool_call_params : ToolCallParams
zero_tool_call_params = record { name = ""; input = none; context = none }

unfoldable pub tool_call_params_fields : ⦃e : Encoding⦄ → List (Field ToolCallParams)
tool_call_params_fields =
    field "name" string_kind (λ r. r.name) (λ v r. record r { name = v })
    ∷ field "input" any_map_kind (λ r. r.input) (λ v r. record r { input = v })
    ∷ omitempty "context" (pointer_kind call_context_kind) (λ r. r.context)
        (λ v r. record r { context = v })
    ∷ []

unfoldable pub tool_call_params_kind : ⦃e : Encoding⦄ → Kind ToolCallParams
tool_call_params_kind = struct_kind zero_tool_call_params tool_call_params_fields

pub record ToolCallResult : Type 0 where
  pub output : String
  pub is_error : Bool

abbrev pub zero_tool_call_result : ToolCallResult
zero_tool_call_result = record { output = ""; is_error = false }

unfoldable pub tool_call_result_fields : List (Field ToolCallResult)
tool_call_result_fields =
    field "output" string_kind (λ r. r.output) (λ v r. record r { output = v })
    ∷ field "is_error" bool_kind (λ r. r.is_error) (λ v r. record r { is_error = v })
    ∷ []

unfoldable pub tool_call_result_kind : Kind ToolCallResult
tool_call_result_kind = struct_kind zero_tool_call_result tool_call_result_fields
