-- ===== src/Protocol/Channel/Messages.antt =====
-- protocol/channel.go: messages that a channel receives.
use extension_sdk_go.Prelude.{ℕ, String, Bool, false, Option, none, List, [], ◌∷◌}
use extension_sdk_go.Json.Encoding.{Encoding}
use extension_sdk_go.Json.Kind.{string_kind, bool_kind, list_kind, bytes_kind, Kind}
use extension_sdk_go.Json.Struct.{Field, field, omitempty, struct_kind}

pub record ChannelMessageImage : Type 0 where
  pub «data» : Option (List ℕ)
  pub mime_type : String
  pub filename : String

abbrev pub zero_channel_message_image : ChannelMessageImage
zero_channel_message_image = record { «data» = none; mime_type = ""; filename = "" }

unfoldable pub channel_message_image_fields : ⦃e : Encoding⦄ → List (Field ChannelMessageImage)
channel_message_image_fields =
    field "data" bytes_kind (λ r. r.«data») (λ v r. record r { «data» = v })
    ∷ field "mime_type" string_kind (λ r. r.mime_type) (λ v r. record r { mime_type = v })
    ∷ omitempty "filename" string_kind (λ r. r.filename) (λ v r. record r { filename = v })
    ∷ []

unfoldable pub channel_message_image_kind : ⦃e : Encoding⦄ → Kind ChannelMessageImage
channel_message_image_kind = struct_kind zero_channel_message_image channel_message_image_fields

pub record ChannelMessageParams : Type 0 where
  pub channel_id : String
  pub message_id : String
  pub user_id : String
  pub username : String
  pub text : String
  pub platform : String
  pub is_slash_command : Bool
  pub interaction_id : String
  pub explicit : Bool
  pub direct_message : Bool
  pub thread : Bool
  pub thread_id : String
  pub reply_to_id : String
  pub images : List ChannelMessageImage

abbrev pub zero_channel_message_params : ChannelMessageParams
zero_channel_message_params = record {
  channel_id = "";
  message_id = "";
  user_id = "";
  username = "";
  text = "";
  platform = "";
  is_slash_command = false;
  interaction_id = "";
  explicit = false;
  direct_message = false;
  thread = false;
  thread_id = "";
  reply_to_id = "";
  images = [];
}

unfoldable pub channel_message_params_fields : ⦃e : Encoding⦄ → List (Field ChannelMessageParams)
channel_message_params_fields =
    field "channel_id" string_kind (λ r. r.channel_id) (λ v r. record r { channel_id = v })
    ∷ omitempty "message_id" string_kind (λ r. r.message_id) (λ v r. record r { message_id = v })
    ∷ omitempty "user_id" string_kind (λ r. r.user_id) (λ v r. record r { user_id = v })
    ∷ omitempty "username" string_kind (λ r. r.username) (λ v r. record r { username = v })
    ∷ field "text" string_kind (λ r. r.text) (λ v r. record r { text = v })
    ∷ field "platform" string_kind (λ r. r.platform) (λ v r. record r { platform = v })
    ∷ omitempty "is_slash_command" bool_kind (λ r. r.is_slash_command)
        (λ v r. record r { is_slash_command = v })
    ∷ omitempty "interaction_id" string_kind (λ r. r.interaction_id)
        (λ v r. record r { interaction_id = v })
    ∷ omitempty "explicit" bool_kind (λ r. r.explicit) (λ v r. record r { explicit = v })
    ∷ omitempty "direct_message" bool_kind (λ r. r.direct_message)
        (λ v r. record r { direct_message = v })
    ∷ omitempty "thread" bool_kind (λ r. r.thread) (λ v r. record r { thread = v })
    ∷ omitempty "thread_id" string_kind (λ r. r.thread_id) (λ v r. record r { thread_id = v })
    ∷ omitempty "reply_to_id" string_kind (λ r. r.reply_to_id) (λ v r. record r { reply_to_id = v })
    ∷ omitempty "images" (list_kind channel_message_image_kind) (λ r. r.images)
        (λ v r. record r { images = v })
    ∷ []

unfoldable pub channel_message_params_kind : ⦃e : Encoding⦄ → Kind ChannelMessageParams
channel_message_params_kind = struct_kind zero_channel_message_params channel_message_params_fields
