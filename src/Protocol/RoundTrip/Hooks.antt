-- ===== src/Protocol/RoundTrip/Hooks.antt =====
-- protocol/hooks.go: round trips of its types.
use extension_sdk_go.Json.Encoding.{Encoding}
use extension_sdk_go.Prelude.{refl}
use extension_sdk_go.Json.Kind.{string_kind, any_map_kind}
use extension_sdk_go.Json.Struct.{find_field}
use extension_sdk_go.Json.RoundTrip.{IsLawful, string-IsLawful, any_map-IsLawful, struct-IsLawful}
use extension_sdk_go.Protocol.Hooks.{
  zero_hook_event_params, hook_event_params_fields, hook_event_params_kind, zero_hook_event_result,
  hook_event_result_fields, hook_event_result_kind,
}

pub HookEventParams-IsLawful : ⦃e : Encoding⦄ → IsLawful hook_event_params_kind
unfolding hook_event_params_kind hook_event_params_fields find_field string_kind any_map_kind
HookEventParams-IsLawful = struct-IsLawful zero_hook_event_params hook_event_params_fields λ s. (
  refl,
  refl,
  refl,
  string-IsLawful,
  (refl, refl, refl, any_map-IsLawful, record { lower = refl }),
)

pub HookEventResult-IsLawful : IsLawful hook_event_result_kind
unfolding hook_event_result_kind hook_event_result_fields find_field string_kind
HookEventResult-IsLawful = struct-IsLawful zero_hook_event_result hook_event_result_fields λ s. (
  refl,
  refl,
  refl,
  string-IsLawful,
  (refl, refl, refl, string-IsLawful, record { lower = refl }),
)
