-- ===== src/Protocol/RoundTrip/Types.antt =====
-- protocol/types.go: round trips of its types.
use extension_sdk_go.Prelude.{refl}
use extension_sdk_go.Json.Kind.{string_kind, int_kind, raw_kind, pointer_kind}
use extension_sdk_go.Json.Struct.{find_field, struct_kind}
use extension_sdk_go.Json.RoundTrip.{
  IsLawful, string-IsLawful, int-IsLawful, raw-IsLawful, pointer-IsLawful, struct-IsLawful,
}
use extension_sdk_go.Protocol.Types.{
  zero_request, request_fields, request_kind, zero_rpc_error, rpc_error_fields, rpc_error_kind,
  zero_response, response_fields, response_kind, zero_notification, notification_fields,
  notification_kind,
}

pub Request-IsLawful : IsLawful request_kind
unfolding request_kind request_fields find_field string_kind int_kind raw_kind
Request-IsLawful = struct-IsLawful zero_request request_fields λ s. (
  refl,
  refl,
  refl,
  string-IsLawful,
  (
    refl,
    refl,
    refl,
    string-IsLawful,
    (refl, refl, refl, raw-IsLawful, (refl, refl, refl, int-IsLawful, record { lower = refl })),
  ),
)

pub RpcError-IsLawful : IsLawful rpc_error_kind
unfolding rpc_error_kind rpc_error_fields find_field string_kind int_kind
RpcError-IsLawful = struct-IsLawful zero_rpc_error rpc_error_fields λ s.
    (refl, refl, refl, int-IsLawful, (refl, refl, refl, string-IsLawful, record { lower = refl }))

pub Response-IsLawful : IsLawful response_kind
unfolding response_kind response_fields find_field string_kind int_kind raw_kind pointer_kind
    struct_kind rpc_error_kind
Response-IsLawful = struct-IsLawful zero_response response_fields λ s. (
  refl,
  refl,
  refl,
  string-IsLawful,
  (
    refl,
    refl,
    refl,
    raw-IsLawful,
    (
      refl,
      refl,
      refl,
      (pointer-IsLawful zero_rpc_error rpc_error_fields RpcError-IsLawful),
      (refl, refl, refl, int-IsLawful, record { lower = refl }),
    ),
  ),
)

pub Notification-IsLawful : IsLawful notification_kind
unfolding notification_kind notification_fields find_field string_kind raw_kind
Notification-IsLawful = struct-IsLawful zero_notification notification_fields λ s. (
  refl,
  refl,
  refl,
  string-IsLawful,
  (refl, refl, refl, string-IsLawful, (refl, refl, refl, raw-IsLawful, record { lower = refl })),
)
