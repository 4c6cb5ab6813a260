-- ===== src/Protocol/Provider/Capabilities.antt =====
-- protocol/provider.go: what a provider can do.
use extension_sdk_go.Prelude.{String, Bool, false, List, [], ℤ, pos, ◌∷◌}
use extension_sdk_go.Json.Kind.{string_kind, bool_kind, int_kind, list_kind, Kind}
use extension_sdk_go.Json.Struct.{Field, field, omitempty, struct_kind}

pub record ProviderCapabilitiesParams : Type 0 where
  pub model : String

abbrev pub zero_provider_capabilities_params : ProviderCapabilitiesParams
zero_provider_capabilities_params = record { model = "" }

unfoldable pub provider_capabilities_params_fields : List (Field ProviderCapabilitiesParams)
provider_capabilities_params_fields =
    omitempty "model" string_kind (λ r. r.model) (λ v r. record r { model = v }) ∷ []

unfoldable pub provider_capabilities_params_kind : Kind ProviderCapabilitiesParams
provider_capabilities_params_kind =
    struct_kind zero_provider_capabilities_params provider_capabilities_params_fields

pub record ProviderCapabilitiesResult : Type 0 where
  pub models : List String
  pub supports_streaming : Bool
  pub supports_vision : Bool
  pub supports_audio_output : Bool
  pub max_images : ℤ
  pub max_tokens : ℤ
  pub context_window : ℤ

abbrev pub zero_provider_capabilities_result : ProviderCapabilitiesResult
zero_provider_capabilities_result = record {
  models = [];
  supports_streaming = false;
  supports_vision = false;
  supports_audio_output = false;
  max_images = pos 0;
  max_tokens = pos 0;
  context_window = pos 0;
}

unfoldable pub provider_capabilities_result_fields : List (Field ProviderCapabilitiesResult)
provider_capabilities_result_fields =
    omitempty "models" (list_kind string_kind) (λ r. r.models) (λ v r. record r { models = v })
    ∷ field "supports_streaming" bool_kind (λ r. r.supports_streaming)
        (λ v r. record r { supports_streaming = v })
    ∷ omitempty "supports_vision" bool_kind (λ r. r.supports_vision)
        (λ v r. record r { supports_vision = v })
    ∷ omitempty "supports_audio_output" bool_kind (λ r. r.supports_audio_output)
        (λ v r. record r { supports_audio_output = v })
    ∷ omitempty "max_images" int_kind (λ r. r.max_images) (λ v r. record r { max_images = v })
    ∷ omitempty "max_tokens" int_kind (λ r. r.max_tokens) (λ v r. record r { max_tokens = v })
    ∷ omitempty "context_window" int_kind (λ r. r.context_window)
        (λ v r. record r { context_window = v })
    ∷ []

unfoldable pub provider_capabilities_result_kind : Kind ProviderCapabilitiesResult
provider_capabilities_result_kind =
    struct_kind zero_provider_capabilities_result provider_capabilities_result_fields
