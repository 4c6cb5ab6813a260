-- ===== src/Protocol/RoundTrip/Initialize/Results.antt =====
-- protocol/initialize.go: round trips of the result of the handshake, and the context of a call.
use extension_sdk_go.Json.Encoding.{Encoding}
use extension_sdk_go.Prelude.{refl}
use extension_sdk_go.Json.Kind.{string_kind, list_kind}
use extension_sdk_go.Json.Struct.{find_field, struct_kind}
use extension_sdk_go.Json.RoundTrip.{IsLawful, string-IsLawful, list-IsLawful, struct-IsLawful}
use extension_sdk_go.Protocol.Initialize.{
  tool_def_kind, http_route_def_kind, hook_def_kind, service_def_kind, provider_def_kind,
  tts_provider_def_kind, cli_def_kind, zero_registrations, registrations_fields, registrations_kind,
  zero_initialize_result, initialize_result_fields, initialize_result_kind, zero_call_context,
  call_context_fields, call_context_kind,
}
use extension_sdk_go.Protocol.Stt.{stt_provider_def_kind}
use extension_sdk_go.Protocol.RoundTrip.Stt.{SttProviderDef-IsLawful}
use extension_sdk_go.Protocol.RoundTrip.Initialize.Definitions.{
  ToolDef-IsLawful, HttpRouteDef-IsLawful, HookDef-IsLawful, ServiceDef-IsLawful,
  ProviderDef-IsLawful, TtsProviderDef-IsLawful, CliDef-IsLawful,
}

pub Registrations-IsLawful : ⦃e : Encoding⦄ → IsLawful registrations_kind
unfolding registrations_kind registrations_fields find_field list_kind struct_kind cli_def_kind
    http_route_def_kind hook_def_kind provider_def_kind stt_provider_def_kind service_def_kind
    tts_provider_def_kind tool_def_kind
Registrations-IsLawful = struct-IsLawful zero_registrations registrations_fields λ s. (
  refl,
  refl,
  refl,
  (list-IsLawful tool_def_kind ToolDef-IsLawful),
  (
    refl,
    refl,
    refl,
    (list-IsLawful http_route_def_kind HttpRouteDef-IsLawful),
    (
      refl,
      refl,
      refl,
      (list-IsLawful hook_def_kind HookDef-IsLawful),
      (
        refl,
        refl,
        refl,
        (list-IsLawful service_def_kind ServiceDef-IsLawful),
        (
          refl,
          refl,
          refl,
          (list-IsLawful provider_def_kind ProviderDef-IsLawful),
          (
            refl,
            refl,
            refl,
            (list-IsLawful tts_provider_def_kind TtsProviderDef-IsLawful),
            (
              refl,
              refl,
              refl,
              (list-IsLawful stt_provider_def_kind SttProviderDef-IsLawful),
              (
                refl,
                refl,
                refl,
                (list-IsLawful cli_def_kind CliDef-IsLawful),
                record { lower = refl },
              ),
            ),
          ),
        ),
      ),
    ),
  ),
)

pub InitializeResult-IsLawful : ⦃e : Encoding⦄ → IsLawful initialize_result_kind
unfolding initialize_result_kind initialize_result_fields find_field string_kind struct_kind
    registrations_kind
InitializeResult-IsLawful = struct-IsLawful zero_initialize_result initialize_result_fields λ s. (
  refl,
  refl,
  refl,
  string-IsLawful,
  (refl, refl, refl, Registrations-IsLawful, record { lower = refl }),
)

pub CallContext-IsLawful : IsLawful call_context_kind
unfolding call_context_kind call_context_fields find_field string_kind
CallContext-IsLawful = struct-IsLawful zero_call_context call_context_fields λ s. (
  refl,
  refl,
  refl,
  string-IsLawful,
  (
    refl,
    refl,
    refl,
    string-IsLawful,
    (
      refl,
      refl,
      refl,
      string-IsLawful,
      (refl, refl, refl, string-IsLawful, record { lower = refl }),
    ),
  ),
)
