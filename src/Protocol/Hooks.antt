-- ===== src/Protocol/Hooks.antt =====
-- protocol/hooks.go: lifecycle hooks. A table lists the fields of a struct with their tags.
use extension_sdk_go.Prelude.{String, Option, none, List, [], ◌∷◌}
use extension_sdk_go.Json.{Members}
use extension_sdk_go.Json.Encoding.{Encoding}
use extension_sdk_go.Json.Kind.{string_kind, any_map_kind, Kind}
use extension_sdk_go.Json.Struct.{Field, field, omitempty, struct_kind}

pub record HookEventParams : Type 0 where
  pub event : String
  pub «data» : Option Members

abbrev pub zero_hook_event_params : HookEventParams
zero_hook_event_params = record { event = ""; «data» = none }

unfoldable pub hook_event_params_fields : ⦃e : Encoding⦄ → List (Field HookEventParams)
hook_event_params_fields =
    field "event" string_kind (λ r. r.event) (λ v r. record r { event = v })
    ∷ field "data" any_map_kind (λ r. r.«data») (λ v r. record r { «data» = v })
    ∷ []

unfoldable pub hook_event_params_kind : ⦃e : Encoding⦄ → Kind HookEventParams
hook_event_params_kind = struct_kind zero_hook_event_params hook_event_params_fields

pub record HookEventResult : Type 0 where
  pub action : String
  pub message : String

abbrev pub zero_hook_event_result : HookEventResult
zero_hook_event_result = record { action = ""; message = "" }

unfoldable pub hook_event_result_fields : List (Field HookEventResult)
hook_event_result_fields =
    omitempty "action" string_kind (λ r. r.action) (λ v r. record r { action = v })
    ∷ omitempty "message" string_kind (λ r. r.message) (λ v r. record r { message = v })
    ∷ []

unfoldable pub hook_event_result_kind : Kind HookEventResult
hook_event_result_kind = struct_kind zero_hook_event_result hook_event_result_fields
