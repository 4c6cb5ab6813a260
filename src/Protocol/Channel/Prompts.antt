-- ===== src/Protocol/Channel/Prompts.antt =====
-- protocol/channel.go: prompts to the user.
use extension_sdk_go.Prelude.{String, Bool, false, List, [], ℤ, pos, ◌∷◌}
use extension_sdk_go.Json.Kind.{string_kind, bool_kind, int_kind, list_kind, Kind}
use extension_sdk_go.Json.Struct.{Field, field, omitempty, struct_kind}

pub record PromptOption : Type 0 where
  pub label : String
  pub value : String
  pub style : String

abbrev pub zero_prompt_option : PromptOption
zero_prompt_option = record { label = ""; value = ""; style = "" }

unfoldable pub prompt_option_fields : List (Field PromptOption)
prompt_option_fields =
    field "label" string_kind (λ r. r.label) (λ v r. record r { label = v })
    ∷ field "value" string_kind (λ r. r.value) (λ v r. record r { value = v })
    ∷ omitempty "style" string_kind (λ r. r.style) (λ v r. record r { style = v })
    ∷ []

unfoldable pub prompt_option_kind : Kind PromptOption
prompt_option_kind = struct_kind zero_prompt_option prompt_option_fields

pub record PromptUserParams : Type 0 where
  pub channel_id : String
  pub user_id : String
  pub message : String
  pub options : List PromptOption
  pub allow_text : Bool
  pub text_placeholder : String
  pub timeout_seconds : ℤ

abbrev pub zero_prompt_user_params : PromptUserParams
zero_prompt_user_params = record {
  channel_id = "";
  user_id = "";
  message = "";
  options = [];
  allow_text = false;
  text_placeholder = "";
  timeout_seconds = pos 0;
}

unfoldable pub prompt_user_params_fields : List (Field PromptUserParams)
prompt_user_params_fields =
    field "channel_id" string_kind (λ r. r.channel_id) (λ v r. record r { channel_id = v })
    ∷ omitempty "user_id" string_kind (λ r. r.user_id) (λ v r. record r { user_id = v })
    ∷ field "message" string_kind (λ r. r.message) (λ v r. record r { message = v })
    ∷ omitempty "options" (list_kind prompt_option_kind) (λ r. r.options)
        (λ v r. record r { options = v })
    ∷ omitempty "allow_text" bool_kind (λ r. r.allow_text) (λ v r. record r { allow_text = v })
    ∷ omitempty "text_placeholder" string_kind (λ r. r.text_placeholder)
        (λ v r. record r { text_placeholder = v })
    ∷ omitempty "timeout_seconds" int_kind (λ r. r.timeout_seconds)
        (λ v r. record r { timeout_seconds = v })
    ∷ []

unfoldable pub prompt_user_params_kind : Kind PromptUserParams
prompt_user_params_kind = struct_kind zero_prompt_user_params prompt_user_params_fields

pub record PromptUserResult : Type 0 where
  pub selected_option : String
  pub text : String
  pub timed_out : Bool
  pub dismissed : Bool

abbrev pub zero_prompt_user_result : PromptUserResult
zero_prompt_user_result = record {
  selected_option = "";
  text = "";
  timed_out = false;
  dismissed = false;
}

unfoldable pub prompt_user_result_fields : List (Field PromptUserResult)
prompt_user_result_fields =
    omitempty "selected_option" string_kind (λ r. r.selected_option)
      (λ v r. record r { selected_option = v })
    ∷ omitempty "text" string_kind (λ r. r.text) (λ v r. record r { text = v })
    ∷ omitempty "timed_out" bool_kind (λ r. r.timed_out) (λ v r. record r { timed_out = v })
    ∷ omitempty "dismissed" bool_kind (λ r. r.dismissed) (λ v r. record r { dismissed = v })
    ∷ []

unfoldable pub prompt_user_result_kind : Kind PromptUserResult
prompt_user_result_kind = struct_kind zero_prompt_user_result prompt_user_result_fields
