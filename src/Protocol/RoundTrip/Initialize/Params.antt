-- ===== src/Protocol/RoundTrip/Initialize/Params.antt =====
-- protocol/initialize.go: round trips of the params of the handshake.
use extension_sdk_go.Json.Encoding.{Encoding}
use extension_sdk_go.Prelude.{refl}
use extension_sdk_go.Json.Kind.{string_kind, any_map_kind}
use extension_sdk_go.Json.Struct.{find_field}
use extension_sdk_go.Json.RoundTrip.{IsLawful, string-IsLawful, any_map-IsLawful, struct-IsLawful}
use extension_sdk_go.Protocol.Initialize.{
  zero_initialize_params, initialize_params_fields, initialize_params_kind,
}

pub InitializeParams-IsLawful : ⦃e : Encoding⦄ → IsLawful initialize_params_kind
unfolding initialize_params_kind initialize_params_fields find_field string_kind any_map_kind
InitializeParams-IsLawful = struct-IsLawful zero_initialize_params initialize_params_fields λ s. (
  refl,
  refl,
  refl,
  any_map-IsLawful,
  (
    refl,
    refl,
    refl,
    string-IsLawful,
    (
      refl,
      refl,
      refl,
      string-IsLawful,
      (refl, refl, refl, string-IsLawful, record { lower = refl }),
    ),
  ),
)
