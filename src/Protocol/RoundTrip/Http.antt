-- ===== src/Protocol/RoundTrip/Http.antt =====
-- protocol/http.go: round trips of its types.
use extension_sdk_go.Prelude.{refl}
use extension_sdk_go.Json.Encoding.{Encoding, IsFaithful}
use extension_sdk_go.Json.Kind.{string_kind, int_kind, string_map_kind, bytes_kind}
use extension_sdk_go.Json.Struct.{find_field}
use extension_sdk_go.Json.RoundTrip.{
  IsLawful, string-IsLawful, int-IsLawful, string_map-IsLawful, bytes-IsLawful, struct-IsLawful,
}
use extension_sdk_go.Protocol.Http.{
  zero_http_request_params, http_request_params_fields, http_request_params_kind,
  zero_http_response_result, http_response_result_fields, http_response_result_kind,
}

pub HttpRequestParams-IsLawful :
    ⦃e : Encoding⦄ → (faithful : IsFaithful e) → IsLawful http_request_params_kind
unfolding http_request_params_kind http_request_params_fields find_field string_kind string_map_kind
    bytes_kind
HttpRequestParams-IsLawful faithful =
    struct-IsLawful zero_http_request_params http_request_params_fields λ s. (
      refl,
      refl,
      refl,
      string-IsLawful,
      (
        refl,
        refl,
        refl,
        string-IsLawful,
        (
          refl,
          refl,
          refl,
          string_map-IsLawful,
          (refl, refl, refl, (bytes-IsLawful faithful), record { lower = refl }),
        ),
      ),
    )

pub HttpResponseResult-IsLawful :
    ⦃e : Encoding⦄ → (faithful : IsFaithful e) → IsLawful http_response_result_kind
unfolding http_response_result_kind http_response_result_fields find_field int_kind string_map_kind
    bytes_kind
HttpResponseResult-IsLawful faithful =
    struct-IsLawful zero_http_response_result http_response_result_fields λ s. (
      refl,
      refl,
      refl,
      int-IsLawful,
      (
        refl,
        refl,
        refl,
        string_map-IsLawful,
        (refl, refl, refl, (bytes-IsLawful faithful), record { lower = refl }),
      ),
    )
