-- ===== src/Protocol/RoundTrip/Provider/Capabilities.antt =====
-- protocol/provider.go: round trips of what a provider can do.
use extension_sdk_go.Prelude.{refl}
use extension_sdk_go.Json.Kind.{string_kind, bool_kind, int_kind, list_kind}
use extension_sdk_go.Json.Struct.{find_field}
use extension_sdk_go.Json.RoundTrip.{
  IsLawful, string-IsLawful, bool-IsLawful, int-IsLawful, list-IsLawful, struct-IsLawful,
}
use extension_sdk_go.Protocol.Provider.{
  zero_provider_capabilities_params, provider_capabilities_params_fields,
  provider_capabilities_params_kind, zero_provider_capabilities_result,
  provider_capabilities_result_fields, provider_capabilities_result_kind,
}

pub ProviderCapabilitiesParams-IsLawful : IsLawful provider_capabilities_params_kind
unfolding provider_capabilities_params_kind provider_capabilities_params_fields find_field
    string_kind
ProviderCapabilitiesParams-IsLawful =
    struct-IsLawful zero_provider_capabilities_params provider_capabilities_params_fields
      λ s. (refl, refl, refl, string-IsLawful, record { lower = refl })

pub ProviderCapabilitiesResult-IsLawful : IsLawful provider_capabilities_result_kind
unfolding provider_capabilities_result_kind provider_capabilities_result_fields find_field
    string_kind bool_kind int_kind list_kind
ProviderCapabilitiesResult-IsLawful =
    struct-IsLawful zero_provider_capabilities_result provider_capabilities_result_fields λ s. (
      refl,
      refl,
      refl,
      (list-IsLawful string_kind string-IsLawful),
      (
        refl,
        refl,
        refl,
        bool-IsLawful,
        (
          refl,
          refl,
          refl,
          bool-IsLawful,
          (
            refl,
            refl,
            refl,
            bool-IsLawful,
            (
              refl,
              refl,
              refl,
              int-IsLawful,
              (
                refl,
                refl,
                refl,
                int-IsLawful,
                (refl, refl, refl, int-IsLawful, record { lower = refl }),
              ),
            ),
          ),
        ),
      ),
    )
