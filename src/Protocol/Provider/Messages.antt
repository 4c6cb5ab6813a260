-- ===== src/Protocol/Provider/Messages.antt =====
-- protocol/provider.go: messages for a model.
use extension_sdk_go.Prelude.{String, Bool, false, Option, none, List, [], ℤ, pos, ◌∷◌}
use extension_sdk_go.Json.{Json}
use extension_sdk_go.Json.Kind.{
  string_kind, bool_kind, int_kind, raw_kind, pointer_kind, list_kind, slice_kind, Kind,
}
use extension_sdk_go.Json.Struct.{Field, field, omitempty, struct_kind}
use extension_sdk_go.Protocol.Initialize.{CallContext, call_context_kind}

pub record ProviderContentBlock : Type 0 where
  pub type : String
  pub text : String
  pub id : String
  pub name : String
  pub input : Option Json
  pub output : String
  pub is_error : Bool

abbrev pub zero_provider_content_block : ProviderContentBlock
zero_provider_content_block = record {
  type = "";
  text = "";
  id = "";
  name = "";
  input = none;
  output = "";
  is_error = false;
}

unfoldable pub provider_content_block_fields : List (Field ProviderContentBlock)
provider_content_block_fields =
    field "type" string_kind (λ r. r.type) (λ v r. record r { type = v })
    ∷ omitempty "text" string_kind (λ r. r.text) (λ v r. record r { text = v })
    ∷ omitempty "id" string_kind (λ r. r.id) (λ v r. record r { id = v })
    ∷ omitempty "name" string_kind (λ r. r.name) (λ v r. record r { name = v })
    ∷ omitempty "input" raw_kind (λ r. r.input) (λ v r. record r { input = v })
    ∷ omitempty "output" string_kind (λ r. r.output) (λ v r. record r { output = v })
    ∷ omitempty "is_error" bool_kind (λ r. r.is_error) (λ v r. record r { is_error = v })
    ∷ []

unfoldable pub provider_content_block_kind : Kind ProviderContentBlock
provider_content_block_kind = struct_kind zero_provider_content_block provider_content_block_fields

pub record ProviderMessage : Type 0 where
  pub role : String
  pub content : Option (List ProviderContentBlock)

abbrev pub zero_provider_message : ProviderMessage
zero_provider_message = record { role = ""; content = none }

unfoldable pub provider_message_fields : List (Field ProviderMessage)
provider_message_fields =
    field "role" string_kind (λ r. r.role) (λ v r. record r { role = v })
    ∷ field "content" (slice_kind provider_content_block_kind) (λ r. r.content)
        (λ v r. record r { content = v })
    ∷ []

unfoldable pub provider_message_kind : Kind ProviderMessage
provider_message_kind = struct_kind zero_provider_message provider_message_fields

pub record ProviderToolDef : Type 0 where
  pub name : String
  pub description : String
  pub input_schema : Option Json

abbrev pub zero_provider_tool_def : ProviderToolDef
zero_provider_tool_def = record { name = ""; description = ""; input_schema = none }

unfoldable pub provider_tool_def_fields : List (Field ProviderToolDef)
provider_tool_def_fields =
    field "name" string_kind (λ r. r.name) (λ v r. record r { name = v })
    ∷ omitempty "description" string_kind (λ r. r.description) (λ v r. record r { description = v })
    ∷ field "input_schema" raw_kind (λ r. r.input_schema) (λ v r. record r { input_schema = v })
    ∷ []

unfoldable pub provider_tool_def_kind : Kind ProviderToolDef
provider_tool_def_kind = struct_kind zero_provider_tool_def provider_tool_def_fields

pub record ProviderCreateMessageParams : Type 0 where
  pub model : String
  pub max_tokens : ℤ
  pub system_prompt : String
  pub messages : Option (List ProviderMessage)
  pub tools : List ProviderToolDef
  pub context : Option CallContext
  pub stream_id : String

abbrev pub zero_provider_create_message_params : ProviderCreateMessageParams
zero_provider_create_message_params = record {
  model = "";
  max_tokens = pos 0;
  system_prompt = "";
  messages = none;
  tools = [];
  context = none;
  stream_id = "";
}

unfoldable pub provider_create_message_params_fields : List (Field ProviderCreateMessageParams)
provider_create_message_params_fields =
    field "model" string_kind (λ r. r.model) (λ v r. record r { model = v })
    ∷ field "max_tokens" int_kind (λ r. r.max_tokens) (λ v r. record r { max_tokens = v })
    ∷ omitempty "system_prompt" string_kind (λ r. r.system_prompt)
        (λ v r. record r { system_prompt = v })
    ∷ field "messages" (slice_kind provider_message_kind) (λ r. r.messages)
        (λ v r. record r { messages = v })
    ∷ omitempty "tools" (list_kind provider_tool_def_kind) (λ r. r.tools)
        (λ v r. record r { tools = v })
    ∷ omitempty "context" (pointer_kind call_context_kind) (λ r. r.context)
        (λ v r. record r { context = v })
    ∷ omitempty "stream_id" string_kind (λ r. r.stream_id) (λ v r. record r { stream_id = v })
    ∷ []

unfoldable pub provider_create_message_params_kind : Kind ProviderCreateMessageParams
provider_create_message_params_kind =
    struct_kind zero_provider_create_message_params provider_create_message_params_fields

pub record ProviderCreateMessageResult : Type 0 where
  pub content : Option (List ProviderContentBlock)
  pub stop_reason : String
  pub input_tokens : ℤ
  pub output_tokens : ℤ
  pub cache_read_tokens : ℤ
  pub cache_create_tokens : ℤ

abbrev pub zero_provider_create_message_result : ProviderCreateMessageResult
zero_provider_create_message_result = record {
  content = none;
  stop_reason = "";
  input_tokens = pos 0;
  output_tokens = pos 0;
  cache_read_tokens = pos 0;
  cache_create_tokens = pos 0;
}

unfoldable pub provider_create_message_result_fields : List (Field ProviderCreateMessageResult)
provider_create_message_result_fields =
    field "content" (slice_kind provider_content_block_kind) (λ r. r.content)
      (λ v r. record r { content = v })
    ∷ field "stop_reason" string_kind (λ r. r.stop_reason) (λ v r. record r { stop_reason = v })
    ∷ omitempty "input_tokens" int_kind (λ r. r.input_tokens) (λ v r. record r { input_tokens = v })
    ∷ omitempty "output_tokens" int_kind (λ r. r.output_tokens)
        (λ v r. record r { output_tokens = v })
    ∷ omitempty "cache_read_tokens" int_kind (λ r. r.cache_read_tokens)
        (λ v r. record r { cache_read_tokens = v })
    ∷ omitempty "cache_create_tokens" int_kind (λ r. r.cache_create_tokens)
        (λ v r. record r { cache_create_tokens = v })
    ∷ []

unfoldable pub provider_create_message_result_kind : Kind ProviderCreateMessageResult
provider_create_message_result_kind =
    struct_kind zero_provider_create_message_result provider_create_message_result_fields
