-- ===== src/Protocol/RoundTrip/Log.antt =====
-- protocol/log.go: round trips of its types.
use extension_sdk_go.Json.Encoding.{Encoding}
use extension_sdk_go.Prelude.{refl}
use extension_sdk_go.Json.Kind.{string_kind, any_map_kind}
use extension_sdk_go.Json.Struct.{find_field}
use extension_sdk_go.Json.RoundTrip.{IsLawful, string-IsLawful, any_map-IsLawful, struct-IsLawful}
use extension_sdk_go.Protocol.Log.{
  zero_log_entry, log_entry_fields, log_entry_kind, zero_log_params, log_params_fields,
  log_params_kind,
}

pub LogEntry-IsLawful : ⦃e : Encoding⦄ → IsLawful log_entry_kind
unfolding log_entry_kind log_entry_fields find_field string_kind any_map_kind
LogEntry-IsLawful = struct-IsLawful zero_log_entry log_entry_fields λ s. (
  refl,
  refl,
  refl,
  string-IsLawful,
  (
    refl,
    refl,
    refl,
    string-IsLawful,
    (
      refl,
      refl,
      refl,
      string-IsLawful,
      (refl, refl, refl, any_map-IsLawful, record { lower = refl }),
    ),
  ),
)

pub LogParams-IsLawful : IsLawful log_params_kind
unfolding log_params_kind log_params_fields find_field string_kind
LogParams-IsLawful = struct-IsLawful zero_log_params log_params_fields λ s. (
  refl,
  refl,
  refl,
  string-IsLawful,
  (refl, refl, refl, string-IsLawful, record { lower = refl }),
)
