-- ===== src/Protocol/Initialize/Params.antt =====
-- protocol/initialize.go: the params of the handshake.
use extension_sdk_go.Prelude.{String, Option, none, List, [], ◌∷◌}
use extension_sdk_go.Json.{Members}
use extension_sdk_go.Json.Encoding.{Encoding}
use extension_sdk_go.Json.Kind.{string_kind, any_map_kind, Kind}
use extension_sdk_go.Json.Struct.{Field, field, omitempty, struct_kind}

pub record InitializeParams : Type 0 where
  pub config : Option Members
  pub extension_root : String
  pub agent_name : String
  pub agent_version : String

abbrev pub zero_initialize_params : InitializeParams
zero_initialize_params = record {
  config = none;
  extension_root = "";
  agent_name = "";
  agent_version = "";
}

unfoldable pub initialize_params_fields : ⦃e : Encoding⦄ → List (Field InitializeParams)
initialize_params_fields =
    field "config" any_map_kind (λ r. r.config) (λ v r. record r { config = v })
    ∷ field "extension_root" string_kind (λ r. r.extension_root)
        (λ v r. record r { extension_root = v })
    ∷ omitempty "agent_name" string_kind (λ r. r.agent_name) (λ v r. record r { agent_name = v })
    ∷ omitempty "agent_version" string_kind (λ r. r.agent_version)
        (λ v r. record r { agent_version = v })
    ∷ []

unfoldable pub initialize_params_kind : ⦃e : Encoding⦄ → Kind InitializeParams
initialize_params_kind = struct_kind zero_initialize_params initialize_params_fields
