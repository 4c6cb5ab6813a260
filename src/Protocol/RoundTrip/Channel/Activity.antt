-- ===== src/Protocol/RoundTrip/Channel/Activity.antt =====
-- protocol/channel.go: round trips of typing and reactions.
use extension_sdk_go.Prelude.{refl}
use extension_sdk_go.Json.Kind.{string_kind}
use extension_sdk_go.Json.Struct.{find_field}
use extension_sdk_go.Json.RoundTrip.{IsLawful, string-IsLawful, struct-IsLawful}
use extension_sdk_go.Protocol.Channel.{
  zero_channel_typing_params, channel_typing_params_fields, channel_typing_params_kind,
  zero_channel_reaction_add_params, channel_reaction_add_params_fields,
  channel_reaction_add_params_kind, zero_channel_reaction_remove_params,
  channel_reaction_remove_params_fields, channel_reaction_remove_params_kind,
}

pub ChannelTypingParams-IsLawful : IsLawful channel_typing_params_kind
unfolding channel_typing_params_kind channel_typing_params_fields find_field string_kind
ChannelTypingParams-IsLawful =
    struct-IsLawful zero_channel_typing_params channel_typing_params_fields
      λ s. (refl, refl, refl, string-IsLawful, record { lower = refl })

pub ChannelReactionAddParams-IsLawful : IsLawful channel_reaction_add_params_kind
unfolding channel_reaction_add_params_kind channel_reaction_add_params_fields find_field string_kind
ChannelReactionAddParams-IsLawful =
    struct-IsLawful zero_channel_reaction_add_params channel_reaction_add_params_fields λ s. (
      refl,
      refl,
      refl,
      string-IsLawful,
      (
        refl,
        refl,
        refl,
        string-IsLawful,
        (refl, refl, refl, string-IsLawful, record { lower = refl }),
      ),
    )

pub ChannelReactionRemoveParams-IsLawful : IsLawful channel_reaction_remove_params_kind
unfolding channel_reaction_remove_params_kind channel_reaction_remove_params_fields find_field
    string_kind
ChannelReactionRemoveParams-IsLawful =
    struct-IsLawful zero_channel_reaction_remove_params channel_reaction_remove_params_fields λ s. (
      refl,
      refl,
      refl,
      string-IsLawful,
      (
        refl,
        refl,
        refl,
        string-IsLawful,
        (refl, refl, refl, string-IsLawful, record { lower = refl }),
      ),
    )
