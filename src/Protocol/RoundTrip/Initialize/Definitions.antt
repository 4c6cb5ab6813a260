-- ===== src/Protocol/RoundTrip/Initialize/Definitions.antt =====
-- protocol/initialize.go: round trips of what an extension can register.
use extension_sdk_go.Json.Encoding.{Encoding}
use extension_sdk_go.Prelude.{refl}
use extension_sdk_go.Json.Kind.{string_kind, any_map_kind, list_kind, slice_kind}
use extension_sdk_go.Json.Struct.{find_field}
use extension_sdk_go.Json.RoundTrip.{
  IsLawful, string-IsLawful, any_map-IsLawful, list-IsLawful, slice-IsLawful, struct-IsLawful,
}
use extension_sdk_go.Protocol.Initialize.{
  zero_tool_def, tool_def_fields, tool_def_kind, zero_http_route_def, http_route_def_fields,
  http_route_def_kind, zero_hook_def, hook_def_fields, hook_def_kind, zero_service_def,
  service_def_fields, service_def_kind, zero_provider_def, provider_def_fields, provider_def_kind,
  zero_tts_provider_def, tts_provider_def_fields, tts_provider_def_kind, zero_cli_def,
  cli_def_fields, cli_def_kind,
}

pub ToolDef-IsLawful : ⦃e : Encoding⦄ → IsLawful tool_def_kind
unfolding tool_def_kind tool_def_fields find_field string_kind any_map_kind
ToolDef-IsLawful = struct-IsLawful zero_tool_def tool_def_fields λ s. (
  refl,
  refl,
  refl,
  string-IsLawful,
  (
    refl,
    refl,
    refl,
    string-IsLawful,
    (refl, refl, refl, any_map-IsLawful, record { lower = refl }),
  ),
)

pub HttpRouteDef-IsLawful : IsLawful http_route_def_kind
unfolding http_route_def_kind http_route_def_fields find_field string_kind slice_kind
HttpRouteDef-IsLawful = struct-IsLawful zero_http_route_def http_route_def_fields λ s. (
  refl,
  refl,
  refl,
  string-IsLawful,
  (refl, refl, refl, (slice-IsLawful string_kind string-IsLawful), record { lower = refl }),
)

pub HookDef-IsLawful : IsLawful hook_def_kind
unfolding hook_def_kind hook_def_fields find_field string_kind slice_kind
HookDef-IsLawful = struct-IsLawful zero_hook_def hook_def_fields λ s. (
  refl,
  refl,
  refl,
  (slice-IsLawful string_kind string-IsLawful),
  (refl, refl, refl, string-IsLawful, record { lower = refl }),
)

pub ServiceDef-IsLawful : IsLawful service_def_kind
unfolding service_def_kind service_def_fields find_field string_kind
ServiceDef-IsLawful = struct-IsLawful zero_service_def service_def_fields λ s. (
  refl,
  refl,
  refl,
  string-IsLawful,
  (refl, refl, refl, string-IsLawful, record { lower = refl }),
)

pub ProviderDef-IsLawful : IsLawful provider_def_kind
unfolding provider_def_kind provider_def_fields find_field string_kind
ProviderDef-IsLawful = struct-IsLawful zero_provider_def provider_def_fields λ s. (
  refl,
  refl,
  refl,
  string-IsLawful,
  (refl, refl, refl, string-IsLawful, record { lower = refl }),
)

pub TtsProviderDef-IsLawful : IsLawful tts_provider_def_kind
unfolding tts_provider_def_kind tts_provider_def_fields find_field string_kind
TtsProviderDef-IsLawful = struct-IsLawful zero_tts_provider_def tts_provider_def_fields λ s. (
  refl,
  refl,
  refl,
  string-IsLawful,
  (refl, refl, refl, string-IsLawful, record { lower = refl }),
)

pub CliDef-IsLawful : IsLawful cli_def_kind
unfolding cli_def_kind cli_def_fields find_field string_kind list_kind
CliDef-IsLawful = struct-IsLawful zero_cli_def cli_def_fields λ s. (
  refl,
  refl,
  refl,
  string-IsLawful,
  (
    refl,
    refl,
    refl,
    string-IsLawful,
    (
      refl,
      refl,
      refl,
      string-IsLawful,
      (refl, refl, refl, (list-IsLawful string_kind string-IsLawful), record { lower = refl }),
    ),
  ),
)
