-- ===== src/Protocol/RoundTrip/Channel/Prompts.antt =====
-- protocol/channel.go: round trips of prompts to the user.
use extension_sdk_go.Prelude.{refl}
use extension_sdk_go.Json.Kind.{string_kind, bool_kind, int_kind, list_kind}
use extension_sdk_go.Json.Struct.{find_field, struct_kind}
use extension_sdk_go.Json.RoundTrip.{
  IsLawful, string-IsLawful, bool-IsLawful, int-IsLawful, list-IsLawful, struct-IsLawful,
}
use extension_sdk_go.Protocol.Channel.{
  zero_prompt_option, prompt_option_fields, prompt_option_kind, zero_prompt_user_params,
  prompt_user_params_fields, prompt_user_params_kind, zero_prompt_user_result,
  prompt_user_result_fields, prompt_user_result_kind,
}

pub PromptOption-IsLawful : IsLawful prompt_option_kind
unfolding prompt_option_kind prompt_option_fields find_field string_kind
PromptOption-IsLawful = struct-IsLawful zero_prompt_option prompt_option_fields λ s. (
  refl,
  refl,
  refl,
  string-IsLawful,
  (refl, refl, refl, string-IsLawful, (refl, refl, refl, string-IsLawful, record { lower = refl })),
)

pub PromptUserParams-IsLawful : IsLawful prompt_user_params_kind
unfolding prompt_user_params_kind prompt_user_params_fields find_field string_kind bool_kind
    int_kind list_kind struct_kind prompt_option_kind
PromptUserParams-IsLawful = struct-IsLawful zero_prompt_user_params prompt_user_params_fields λ s. (
  refl,
  refl,
  refl,
  string-IsLawful,
  (
    refl,
    refl,
    refl,
    string-IsLawful,
    (
      refl,
      refl,
      refl,
      string-IsLawful,
      (
        refl,
        refl,
        refl,
        (list-IsLawful prompt_option_kind PromptOption-IsLawful),
        (
          refl,
          refl,
          refl,
          bool-IsLawful,
          (
            refl,
            refl,
            refl,
            string-IsLawful,
            (refl, refl, refl, int-IsLawful, record { lower = refl }),
          ),
        ),
      ),
    ),
  ),
)

pub PromptUserResult-IsLawful : IsLawful prompt_user_result_kind
unfolding prompt_user_result_kind prompt_user_result_fields find_field string_kind bool_kind
PromptUserResult-IsLawful = struct-IsLawful zero_prompt_user_result prompt_user_result_fields λ s. (
  refl,
  refl,
  refl,
  string-IsLawful,
  (
    refl,
    refl,
    refl,
    string-IsLawful,
    (refl, refl, refl, bool-IsLawful, (refl, refl, refl, bool-IsLawful, record { lower = refl })),
  ),
)
