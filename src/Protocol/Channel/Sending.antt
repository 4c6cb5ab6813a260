-- ===== src/Protocol/Channel/Sending.antt =====
-- protocol/channel.go: messages that are sent to a channel.
use extension_sdk_go.Prelude.{ℕ, String, Bool, false, Option, none, List, [], ℤ, pos, ◌∷◌}
use extension_sdk_go.Json.Encoding.{Encoding}
use extension_sdk_go.Json.Kind.{
  string_kind, bool_kind, int_kind, list_kind, slice_kind, bytes_kind, Kind,
}
use extension_sdk_go.Json.Struct.{Field, field, omitempty, struct_kind}

pub record ChannelSendAttachment : Type 0 where
  pub «data» : Option (List ℕ)
  pub mime_type : String
  pub filename : String

abbrev pub zero_channel_send_attachment : ChannelSendAttachment
zero_channel_send_attachment = record { «data» = none; mime_type = ""; filename = "" }

unfoldable pub channel_send_attachment_fields : ⦃e : Encoding⦄ → List (Field ChannelSendAttachment)
channel_send_attachment_fields =
    field "data" bytes_kind (λ r. r.«data») (λ v r. record r { «data» = v })
    ∷ field "mime_type" string_kind (λ r. r.mime_type) (λ v r. record r { mime_type = v })
    ∷ field "filename" string_kind (λ r. r.filename) (λ v r. record r { filename = v })
    ∷ []

unfoldable pub channel_send_attachment_kind : ⦃e : Encoding⦄ → Kind ChannelSendAttachment
channel_send_attachment_kind =
    struct_kind zero_channel_send_attachment channel_send_attachment_fields

pub record ChannelSendComponent : Type 0 where
  pub label : String
  pub custom_id : String
  pub style : ℤ

abbrev pub zero_channel_send_component : ChannelSendComponent
zero_channel_send_component = record { label = ""; custom_id = ""; style = pos 0 }

unfoldable pub channel_send_component_fields : List (Field ChannelSendComponent)
channel_send_component_fields =
    field "label" string_kind (λ r. r.label) (λ v r. record r { label = v })
    ∷ field "custom_id" string_kind (λ r. r.custom_id) (λ v r. record r { custom_id = v })
    ∷ field "style" int_kind (λ r. r.style) (λ v r. record r { style = v })
    ∷ []

unfoldable pub channel_send_component_kind : Kind ChannelSendComponent
channel_send_component_kind = struct_kind zero_channel_send_component channel_send_component_fields

pub record ChannelSendParams : Type 0 where
  pub channel_id : String
  pub text : String
  pub images : List ChannelSendAttachment
  pub audio : List ChannelSendAttachment
  pub files : List ChannelSendAttachment
  pub components : List (Option (List ChannelSendComponent))
  pub is_slash_command_response : Bool
  pub interaction_id : String

abbrev pub zero_channel_send_params : ChannelSendParams
zero_channel_send_params = record {
  channel_id = "";
  text = "";
  images = [];
  audio = [];
  files = [];
  components = [];
  is_slash_command_response = false;
  interaction_id = "";
}

unfoldable pub channel_send_params_fields : ⦃e : Encoding⦄ → List (Field ChannelSendParams)
channel_send_params_fields =
    field "channel_id" string_kind (λ r. r.channel_id) (λ v r. record r { channel_id = v })
    ∷ field "text" string_kind (λ r. r.text) (λ v r. record r { text = v })
    ∷ omitempty "images" (list_kind channel_send_attachment_kind) (λ r. r.images)
        (λ v r. record r { images = v })
    ∷ omitempty "audio" (list_kind channel_send_attachment_kind) (λ r. r.audio)
        (λ v r. record r { audio = v })
    ∷ omitempty "files" (list_kind channel_send_attachment_kind) (λ r. r.files)
        (λ v r. record r { files = v })
    ∷ omitempty "components" (list_kind (slice_kind channel_send_component_kind))
        (λ r. r.components) (λ v r. record r { components = v })
    ∷ omitempty "is_slash_command_response" bool_kind (λ r. r.is_slash_command_response)
        (λ v r. record r { is_slash_command_response = v })
    ∷ omitempty "interaction_id" string_kind (λ r. r.interaction_id)
        (λ v r. record r { interaction_id = v })
    ∷ []

unfoldable pub channel_send_params_kind : ⦃e : Encoding⦄ → Kind ChannelSendParams
channel_send_params_kind = struct_kind zero_channel_send_params channel_send_params_fields
