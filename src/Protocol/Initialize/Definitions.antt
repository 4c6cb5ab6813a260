-- ===== src/Protocol/Initialize/Definitions.antt =====
-- protocol/initialize.go: what an extension can register.
use extension_sdk_go.Prelude.{String, Option, none, List, [], ◌∷◌}
use extension_sdk_go.Json.{Members}
use extension_sdk_go.Json.Encoding.{Encoding}
use extension_sdk_go.Json.Kind.{string_kind, any_map_kind, list_kind, slice_kind, Kind}
use extension_sdk_go.Json.Struct.{Field, field, omitempty, struct_kind}

pub record ToolDef : Type 0 where
  pub name : String
  pub description : String
  pub input_schema : Option Members

abbrev pub zero_tool_def : ToolDef
zero_tool_def = record { name = ""; description = ""; input_schema = none }

unfoldable pub tool_def_fields : ⦃e : Encoding⦄ → List (Field ToolDef)
tool_def_fields =
    field "name" string_kind (λ r. r.name) (λ v r. record r { name = v })
    ∷ field "description" string_kind (λ r. r.description) (λ v r. record r { description = v })
    ∷ field "input_schema" any_map_kind (λ r. r.input_schema) (λ v r. record r { input_schema = v })
    ∷ []

unfoldable pub tool_def_kind : ⦃e : Encoding⦄ → Kind ToolDef
tool_def_kind = struct_kind zero_tool_def tool_def_fields

pub record HttpRouteDef : Type 0 where
  pub path : String
  pub methods : Option (List String)

abbrev pub zero_http_route_def : HttpRouteDef
zero_http_route_def = record { path = ""; methods = none }

unfoldable pub http_route_def_fields : List (Field HttpRouteDef)
http_route_def_fields =
    field "path" string_kind (λ r. r.path) (λ v r. record r { path = v })
    ∷ field "methods" (slice_kind string_kind) (λ r. r.methods) (λ v r. record r { methods = v })
    ∷ []

unfoldable pub http_route_def_kind : Kind HttpRouteDef
http_route_def_kind = struct_kind zero_http_route_def http_route_def_fields

pub record HookDef : Type 0 where
  pub events : Option (List String)
  pub matcher : String

abbrev pub zero_hook_def : HookDef
zero_hook_def = record { events = none; matcher = "" }

unfoldable pub hook_def_fields : List (Field HookDef)
hook_def_fields =
    field "events" (slice_kind string_kind) (λ r. r.events) (λ v r. record r { events = v })
    ∷ omitempty "matcher" string_kind (λ r. r.matcher) (λ v r. record r { matcher = v })
    ∷ []

unfoldable pub hook_def_kind : Kind HookDef
hook_def_kind = struct_kind zero_hook_def hook_def_fields

pub record ServiceDef : Type 0 where
  pub id : String
  pub description : String

abbrev pub zero_service_def : ServiceDef
zero_service_def = record { id = ""; description = "" }

unfoldable pub service_def_fields : List (Field ServiceDef)
service_def_fields =
    field "id" string_kind (λ r. r.id) (λ v r. record r { id = v })
    ∷ omitempty "description" string_kind (λ r. r.description) (λ v r. record r { description = v })
    ∷ []

unfoldable pub service_def_kind : Kind ServiceDef
service_def_kind = struct_kind zero_service_def service_def_fields

pub record ProviderDef : Type 0 where
  pub name : String
  pub description : String

abbrev pub zero_provider_def : ProviderDef
zero_provider_def = record { name = ""; description = "" }

unfoldable pub provider_def_fields : List (Field ProviderDef)
provider_def_fields =
    field "name" string_kind (λ r. r.name) (λ v r. record r { name = v })
    ∷ omitempty "description" string_kind (λ r. r.description) (λ v r. record r { description = v })
    ∷ []

unfoldable pub provider_def_kind : Kind ProviderDef
provider_def_kind = struct_kind zero_provider_def provider_def_fields

pub record TtsProviderDef : Type 0 where
  pub name : String
  pub description : String

abbrev pub zero_tts_provider_def : TtsProviderDef
zero_tts_provider_def = record { name = ""; description = "" }

unfoldable pub tts_provider_def_fields : List (Field TtsProviderDef)
tts_provider_def_fields =
    field "name" string_kind (λ r. r.name) (λ v r. record r { name = v })
    ∷ omitempty "description" string_kind (λ r. r.description) (λ v r. record r { description = v })
    ∷ []

unfoldable pub tts_provider_def_kind : Kind TtsProviderDef
tts_provider_def_kind = struct_kind zero_tts_provider_def tts_provider_def_fields

pub record CliDef : Type 0 where
  pub name : String
  pub description : String
  pub command : String
  pub args : List String

abbrev pub zero_cli_def : CliDef
zero_cli_def = record { name = ""; description = ""; command = ""; args = [] }

unfoldable pub cli_def_fields : List (Field CliDef)
cli_def_fields =
    field "name" string_kind (λ r. r.name) (λ v r. record r { name = v })
    ∷ omitempty "description" string_kind (λ r. r.description) (λ v r. record r { description = v })
    ∷ omitempty "command" string_kind (λ r. r.command) (λ v r. record r { command = v })
    ∷ omitempty "args" (list_kind string_kind) (λ r. r.args) (λ v r. record r { args = v })
    ∷ []

unfoldable pub cli_def_kind : Kind CliDef
cli_def_kind = struct_kind zero_cli_def cli_def_fields
