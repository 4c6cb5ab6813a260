-- ===== src/Protocol/Channel/Activity.antt =====
-- protocol/channel.go: typing and reactions.
use extension_sdk_go.Prelude.{String, List, [], ◌∷◌}
use extension_sdk_go.Json.Kind.{string_kind, Kind}
use extension_sdk_go.Json.Struct.{Field, field, struct_kind}

pub record ChannelTypingParams : Type 0 where
  pub channel_id : String

abbrev pub zero_channel_typing_params : ChannelTypingParams
zero_channel_typing_params = record { channel_id = "" }

unfoldable pub channel_typing_params_fields : List (Field ChannelTypingParams)
channel_typing_params_fields =
    field "channel_id" string_kind (λ r. r.channel_id) (λ v r. record r { channel_id = v }) ∷ []

unfoldable pub channel_typing_params_kind : Kind ChannelTypingParams
channel_typing_params_kind = struct_kind zero_channel_typing_params channel_typing_params_fields

pub record ChannelReactionAddParams : Type 0 where
  pub channel_id : String
  pub message_id : String
  pub emoji : String

abbrev pub zero_channel_reaction_add_params : ChannelReactionAddParams
zero_channel_reaction_add_params = record { channel_id = ""; message_id = ""; emoji = "" }

unfoldable pub channel_reaction_add_params_fields : List (Field ChannelReactionAddParams)
channel_reaction_add_params_fields =
    field "channel_id" string_kind (λ r. r.channel_id) (λ v r. record r { channel_id = v })
    ∷ field "message_id" string_kind (λ r. r.message_id) (λ v r. record r { message_id = v })
    ∷ field "emoji" string_kind (λ r. r.emoji) (λ v r. record r { emoji = v })
    ∷ []

unfoldable pub channel_reaction_add_params_kind : Kind ChannelReactionAddParams
channel_reaction_add_params_kind =
    struct_kind zero_channel_reaction_add_params channel_reaction_add_params_fields

pub record ChannelReactionRemoveParams : Type 0 where
  pub channel_id : String
  pub message_id : String
  pub emoji : String

abbrev pub zero_channel_reaction_remove_params : ChannelReactionRemoveParams
zero_channel_reaction_remove_params = record { channel_id = ""; message_id = ""; emoji = "" }

unfoldable pub channel_reaction_remove_params_fields : List (Field ChannelReactionRemoveParams)
channel_reaction_remove_params_fields =
    field "channel_id" string_kind (λ r. r.channel_id) (λ v r. record r { channel_id = v })
    ∷ field "message_id" string_kind (λ r. r.message_id) (λ v r. record r { message_id = v })
    ∷ field "emoji" string_kind (λ r. r.emoji) (λ v r. record r { emoji = v })
    ∷ []

unfoldable pub channel_reaction_remove_params_kind : Kind ChannelReactionRemoveParams
channel_reaction_remove_params_kind =
    struct_kind zero_channel_reaction_remove_params channel_reaction_remove_params_fields
