-- ===== src/Protocol/RoundTrip/Tools.antt =====
-- protocol/tools.go: round trips of its types.
use extension_sdk_go.Json.Encoding.{Encoding}
use extension_sdk_go.Prelude.{refl}
use extension_sdk_go.Json.Kind.{string_kind, bool_kind, any_map_kind, pointer_kind}
use extension_sdk_go.Json.Struct.{find_field, struct_kind}
use extension_sdk_go.Json.RoundTrip.{
  IsLawful, string-IsLawful, bool-IsLawful, any_map-IsLawful, pointer-IsLawful, struct-IsLawful,
}
use extension_sdk_go.Protocol.Tools.{
  zero_tool_call_params, tool_call_params_fields, tool_call_params_kind, zero_tool_call_result,
  tool_call_result_fields, tool_call_result_kind,
}
use extension_sdk_go.Protocol.Initialize.{zero_call_context, call_context_fields, call_context_kind}
use extension_sdk_go.Protocol.RoundTrip.Initialize.{CallContext-IsLawful}

pub ToolCallParams-IsLawful : ⦃e : Encoding⦄ → IsLawful tool_call_params_kind
unfolding tool_call_params_kind tool_call_params_fields find_field string_kind any_map_kind
    pointer_kind struct_kind call_context_kind
ToolCallParams-IsLawful = struct-IsLawful zero_tool_call_params tool_call_params_fields λ s. (
  refl,
  refl,
  refl,
  string-IsLawful,
  (
    refl,
    refl,
    refl,
    any_map-IsLawful,
    (
      refl,
      refl,
      refl,
      (pointer-IsLawful zero_call_context call_context_fields CallContext-IsLawful),
      record { lower = refl },
    ),
  ),
)

pub ToolCallResult-IsLawful : IsLawful tool_call_result_kind
unfolding tool_call_result_kind tool_call_result_fields find_field string_kind bool_kind
ToolCallResult-IsLawful = struct-IsLawful zero_tool_call_result tool_call_result_fields λ s.
    (refl, refl, refl, string-IsLawful, (refl, refl, refl, bool-IsLawful, record { lower = refl }))
