-- ===== src/Protocol/RoundTrip/Services.antt =====
-- protocol/services.go: round trips of its types.
use extension_sdk_go.Json.Encoding.{Encoding}
use extension_sdk_go.Prelude.{refl}
use extension_sdk_go.Json.Kind.{string_kind, bool_kind, any_map_kind}
use extension_sdk_go.Json.Struct.{find_field}
use extension_sdk_go.Json.RoundTrip.{
  IsLawful, string-IsLawful, bool-IsLawful, any_map-IsLawful, struct-IsLawful,
}
use extension_sdk_go.Protocol.Services.{
  zero_service_start_params, service_start_params_fields, service_start_params_kind,
  zero_service_start_result, service_start_result_fields, service_start_result_kind,
  zero_service_health_params, service_health_params_fields, service_health_params_kind,
  zero_service_health_result, service_health_result_fields, service_health_result_kind,
  zero_service_stop_params, service_stop_params_fields, service_stop_params_kind,
  zero_service_stop_result, service_stop_result_fields, service_stop_result_kind,
}

pub ServiceStartParams-IsLawful : ⦃e : Encoding⦄ → IsLawful service_start_params_kind
unfolding service_start_params_kind service_start_params_fields find_field string_kind any_map_kind
ServiceStartParams-IsLawful =
    struct-IsLawful zero_service_start_params service_start_params_fields λ s. (
      refl,
      refl,
      refl,
      string-IsLawful,
      (refl, refl, refl, any_map-IsLawful, record { lower = refl }),
    )

pub ServiceStartResult-IsLawful : IsLawful service_start_result_kind
unfolding service_start_result_kind service_start_result_fields find_field bool_kind
ServiceStartResult-IsLawful =
    struct-IsLawful zero_service_start_result service_start_result_fields
      λ s. (refl, refl, refl, bool-IsLawful, record { lower = refl })

pub ServiceHealthParams-IsLawful : IsLawful service_health_params_kind
unfolding service_health_params_kind service_health_params_fields find_field string_kind
ServiceHealthParams-IsLawful =
    struct-IsLawful zero_service_health_params service_health_params_fields
      λ s. (refl, refl, refl, string-IsLawful, record { lower = refl })

pub ServiceHealthResult-IsLawful : IsLawful service_health_result_kind
unfolding service_health_result_kind service_health_result_fields find_field string_kind
ServiceHealthResult-IsLawful =
    struct-IsLawful zero_service_health_result service_health_result_fields λ s. (
      refl,
      refl,
      refl,
      string-IsLawful,
      (refl, refl, refl, string-IsLawful, record { lower = refl }),
    )

pub ServiceStopParams-IsLawful : IsLawful service_stop_params_kind
unfolding service_stop_params_kind service_stop_params_fields find_field string_kind
ServiceStopParams-IsLawful =
    struct-IsLawful zero_service_stop_params service_stop_params_fields
      λ s. (refl, refl, refl, string-IsLawful, record { lower = refl })

pub ServiceStopResult-IsLawful : IsLawful service_stop_result_kind
unfolding service_stop_result_kind service_stop_result_fields find_field bool_kind
ServiceStopResult-IsLawful =
    struct-IsLawful zero_service_stop_result service_stop_result_fields
      λ s. (refl, refl, refl, bool-IsLawful, record { lower = refl })
