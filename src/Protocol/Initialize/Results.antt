-- ===== src/Protocol/Initialize/Results.antt =====
-- protocol/initialize.go: the result of the handshake, and the context of a call.
use extension_sdk_go.Prelude.{String, List, [], ◌∷◌}
use extension_sdk_go.Json.Encoding.{Encoding}
use extension_sdk_go.Json.Kind.{string_kind, list_kind, Kind}
use extension_sdk_go.Json.Struct.{Field, field, omitempty, struct_kind}
use extension_sdk_go.Protocol.Stt.{SttProviderDef, stt_provider_def_kind}
use extension_sdk_go.Protocol.Initialize.Definitions.{
  ToolDef, tool_def_kind, HttpRouteDef, http_route_def_kind, HookDef, hook_def_kind, ServiceDef,
  service_def_kind, ProviderDef, provider_def_kind, TtsProviderDef, tts_provider_def_kind, CliDef,
  cli_def_kind,
}

pub record Registrations : Type 0 where
  pub tools : List ToolDef
  pub http_routes : List HttpRouteDef
  pub hooks : List HookDef
  pub services : List ServiceDef
  pub providers : List ProviderDef
  pub tts_providers : List TtsProviderDef
  pub stt_providers : List SttProviderDef
  pub cli_commands : List CliDef

abbrev pub zero_registrations : Registrations
zero_registrations = record {
  tools = [];
  http_routes = [];
  hooks = [];
  services = [];
  providers = [];
  tts_providers = [];
  stt_providers = [];
  cli_commands = [];
}

unfoldable pub registrations_fields : ⦃e : Encoding⦄ → List (Field Registrations)
registrations_fields =
    omitempty "tools" (list_kind tool_def_kind) (λ r. r.tools) (λ v r. record r { tools = v })
    ∷ omitempty "http_routes" (list_kind http_route_def_kind) (λ r. r.http_routes)
        (λ v r. record r { http_routes = v })
    ∷ omitempty "hooks" (list_kind hook_def_kind) (λ r. r.hooks) (λ v r. record r { hooks = v })
    ∷ omitempty "services" (list_kind service_def_kind) (λ r. r.services)
        (λ v r. record r { services = v })
    ∷ omitempty "providers" (list_kind provider_def_kind) (λ r. r.providers)
        (λ v r. record r { providers = v })
    ∷ omitempty "tts_providers" (list_kind tts_provider_def_kind) (λ r. r.tts_providers)
        (λ v r. record r { tts_providers = v })
    ∷ omitempty "stt_providers" (list_kind stt_provider_def_kind) (λ r. r.stt_providers)
        (λ v r. record r { stt_providers = v })
    ∷ omitempty "cli_commands" (list_kind cli_def_kind) (λ r. r.cli_commands)
        (λ v r. record r { cli_commands = v })
    ∷ []

unfoldable pub registrations_kind : ⦃e : Encoding⦄ → Kind Registrations
registrations_kind = struct_kind zero_registrations registrations_fields

pub record InitializeResult : Type 0 where
  pub protocol_version : String
  pub registrations : Registrations

abbrev pub zero_initialize_result : InitializeResult
zero_initialize_result = record { protocol_version = ""; registrations = zero_registrations }

unfoldable pub initialize_result_fields : ⦃e : Encoding⦄ → List (Field InitializeResult)
initialize_result_fields =
    omitempty "protocol_version" string_kind (λ r. r.protocol_version)
      (λ v r. record r { protocol_version = v })
    ∷ field "registrations" registrations_kind (λ r. r.registrations)
        (λ v r. record r { registrations = v })
    ∷ []

unfoldable pub initialize_result_kind : ⦃e : Encoding⦄ → Kind InitializeResult
initialize_result_kind = struct_kind zero_initialize_result initialize_result_fields

pub record CallContext : Type 0 where
  pub agent_id : String
  pub session_id : String
  pub platform : String
  pub channel_id : String

abbrev pub zero_call_context : CallContext
zero_call_context = record { agent_id = ""; session_id = ""; platform = ""; channel_id = "" }

unfoldable pub call_context_fields : List (Field CallContext)
call_context_fields =
    omitempty "agent_id" string_kind (λ r. r.agent_id) (λ v r. record r { agent_id = v })
    ∷ omitempty "session_id" string_kind (λ r. r.session_id) (λ v r. record r { session_id = v })
    ∷ omitempty "platform" string_kind (λ r. r.platform) (λ v r. record r { platform = v })
    ∷ omitempty "channel_id" string_kind (λ r. r.channel_id) (λ v r. record r { channel_id = v })
    ∷ []

unfoldable pub call_context_kind : Kind CallContext
call_context_kind = struct_kind zero_call_context call_context_fields
