-- ===== src/Protocol/Services.antt =====
-- protocol/services.go: background services. A table lists the fields of a struct with their tags.
use extension_sdk_go.Prelude.{String, Bool, false, Option, none, List, [], ◌∷◌}
use extension_sdk_go.Json.{Members}
use extension_sdk_go.Json.Encoding.{Encoding}
use extension_sdk_go.Json.Kind.{string_kind, bool_kind, any_map_kind, Kind}
use extension_sdk_go.Json.Struct.{Field, field, omitempty, struct_kind}

-- `ServiceHealthStatus` is a string; these are its values.
abbrev pub service_healthy : String
service_healthy = "healthy"

abbrev pub service_degraded : String
service_degraded = "degraded"

abbrev pub service_unhealthy : String
service_unhealthy = "unhealthy"

pub record ServiceStartParams : Type 0 where
  pub id : String
  pub config : Option Members

abbrev pub zero_service_start_params : ServiceStartParams
zero_service_start_params = record { id = ""; config = none }

unfoldable pub service_start_params_fields : ⦃e : Encoding⦄ → List (Field ServiceStartParams)
service_start_params_fields =
    field "id" string_kind (λ r. r.id) (λ v r. record r { id = v })
    ∷ omitempty "config" any_map_kind (λ r. r.config) (λ v r. record r { config = v })
    ∷ []

unfoldable pub service_start_params_kind : ⦃e : Encoding⦄ → Kind ServiceStartParams
service_start_params_kind = struct_kind zero_service_start_params service_start_params_fields

pub record ServiceStartResult : Type 0 where
  pub ok : Bool

abbrev pub zero_service_start_result : ServiceStartResult
zero_service_start_result = record { ok = false }

unfoldable pub service_start_result_fields : List (Field ServiceStartResult)
service_start_result_fields = field "ok" bool_kind (λ r. r.ok) (λ v r. record r { ok = v }) ∷ []

unfoldable pub service_start_result_kind : Kind ServiceStartResult
service_start_result_kind = struct_kind zero_service_start_result service_start_result_fields

pub record ServiceHealthParams : Type 0 where
  pub id : String

abbrev pub zero_service_health_params : ServiceHealthParams
zero_service_health_params = record { id = "" }

unfoldable pub service_health_params_fields : List (Field ServiceHealthParams)
service_health_params_fields = field "id" string_kind (λ r. r.id) (λ v r. record r { id = v }) ∷ []

unfoldable pub service_health_params_kind : Kind ServiceHealthParams
service_health_params_kind = struct_kind zero_service_health_params service_health_params_fields

pub record ServiceHealthResult : Type 0 where
  pub status : String
  pub message : String

abbrev pub zero_service_health_result : ServiceHealthResult
zero_service_health_result = record { status = ""; message = "" }

unfoldable pub service_health_result_fields : List (Field ServiceHealthResult)
service_health_result_fields =
    field "status" string_kind (λ r. r.status) (λ v r. record r { status = v })
    ∷ omitempty "message" string_kind (λ r. r.message) (λ v r. record r { message = v })
    ∷ []

unfoldable pub service_health_result_kind : Kind ServiceHealthResult
service_health_result_kind = struct_kind zero_service_health_result service_health_result_fields

pub record ServiceStopParams : Type 0 where
  pub id : String

abbrev pub zero_service_stop_params : ServiceStopParams
zero_service_stop_params = record { id = "" }

unfoldable pub service_stop_params_fields : List (Field ServiceStopParams)
service_stop_params_fields = field "id" string_kind (λ r. r.id) (λ v r. record r { id = v }) ∷ []

unfoldable pub service_stop_params_kind : Kind ServiceStopParams
service_stop_params_kind = struct_kind zero_service_stop_params service_stop_params_fields

pub record ServiceStopResult : Type 0 where
  pub ok : Bool

abbrev pub zero_service_stop_result : ServiceStopResult
zero_service_stop_result = record { ok = false }

unfoldable pub service_stop_result_fields : List (Field ServiceStopResult)
service_stop_result_fields = field "ok" bool_kind (λ r. r.ok) (λ v r. record r { ok = v }) ∷ []

unfoldable pub service_stop_result_kind : Kind ServiceStopResult
service_stop_result_kind = struct_kind zero_service_stop_result service_stop_result_fields
