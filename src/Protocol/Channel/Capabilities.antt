-- ===== src/Protocol/Channel/Capabilities.antt =====
-- protocol/channel.go: what a channel can do.
use extension_sdk_go.Prelude.{String, Bool, false, List, [], ℤ, pos, ◌∷◌}
use extension_sdk_go.Json.Kind.{string_kind, bool_kind, int_kind, list_kind, Kind}
use extension_sdk_go.Json.Struct.{Field, field, omitempty, struct_kind}

pub record ChannelCapabilities : Type 0 where
  pub supports_text : Bool
  pub supports_images : Bool
  pub supports_audio : Bool
  pub supports_files : Bool
  pub supports_voice : Bool
  pub supports_reactions : Bool
  pub supports_buttons : Bool
  pub supports_modals : Bool
  pub supports_typing : Bool
  pub supports_threads : Bool
  pub supports_dms : Bool
  pub supports_mentions : Bool
  pub supports_markdown : Bool
  pub supports_native_commands : Bool
  pub supports_text_commands : Bool
  pub max_message_len : ℤ
  pub max_file_size : ℤ
  pub audio_formats : List String
  pub image_formats : List String
  pub formatting_hints : List String

abbrev pub zero_channel_capabilities : ChannelCapabilities
zero_channel_capabilities = record {
  supports_text = false;
  supports_images = false;
  supports_audio = false;
  supports_files = false;
  supports_voice = false;
  supports_reactions = false;
  supports_buttons = false;
  supports_modals = false;
  supports_typing = false;
  supports_threads = false;
  supports_dms = false;
  supports_mentions = false;
  supports_markdown = false;
  supports_native_commands = false;
  supports_text_commands = false;
  max_message_len = pos 0;
  max_file_size = pos 0;
  audio_formats = [];
  image_formats = [];
  formatting_hints = [];
}

unfoldable pub channel_capabilities_fields : List (Field ChannelCapabilities)
channel_capabilities_fields =
    field "supports_text" bool_kind (λ r. r.supports_text) (λ v r. record r { supports_text = v })
    ∷ omitempty "supports_images" bool_kind (λ r. r.supports_images)
        (λ v r. record r { supports_images = v })
    ∷ omitempty "supports_audio" bool_kind (λ r. r.supports_audio)
        (λ v r. record r { supports_audio = v })
    ∷ omitempty "supports_files" bool_kind (λ r. r.supports_files)
        (λ v r. record r { supports_files = v })
    ∷ omitempty "supports_voice" bool_kind (λ r. r.supports_voice)
        (λ v r. record r { supports_voice = v })
    ∷ omitempty "supports_reactions" bool_kind (λ r. r.supports_reactions)
        (λ v r. record r { supports_reactions = v })
    ∷ omitempty "supports_buttons" bool_kind (λ r. r.supports_buttons)
        (λ v r. record r { supports_buttons = v })
    ∷ omitempty "supports_modals" bool_kind (λ r. r.supports_modals)
        (λ v r. record r { supports_modals = v })
    ∷ omitempty "supports_typing" bool_kind (λ r. r.supports_typing)
        (λ v r. record r { supports_typing = v })
    ∷ omitempty "supports_threads" bool_kind (λ r. r.supports_threads)
        (λ v r. record r { supports_threads = v })
    ∷ omitempty "supports_dms" bool_kind (λ r. r.supports_dms)
        (λ v r. record r { supports_dms = v })
    ∷ omitempty "supports_mentions" bool_kind (λ r. r.supports_mentions)
        (λ v r. record r { supports_mentions = v })
    ∷ omitempty "supports_markdown" bool_kind (λ r. r.supports_markdown)
        (λ v r. record r { supports_markdown = v })
    ∷ omitempty "supports_native_commands" bool_kind (λ r. r.supports_native_commands)
        (λ v r. record r { supports_native_commands = v })
    ∷ omitempty "supports_text_commands" bool_kind (λ r. r.supports_text_commands)
        (λ v r. record r { supports_text_commands = v })
    ∷ omitempty "max_message_len" int_kind (λ r. r.max_message_len)
        (λ v r. record r { max_message_len = v })
    ∷ omitempty "max_file_size" int_kind (λ r. r.max_file_size)
        (λ v r. record r { max_file_size = v })
    ∷ omitempty "audio_formats" (list_kind string_kind) (λ r. r.audio_formats)
        (λ v r. record r { audio_formats = v })
    ∷ omitempty "image_formats" (list_kind string_kind) (λ r. r.image_formats)
        (λ v r. record r { image_formats = v })
    ∷ omitempty "formatting_hints" (list_kind string_kind) (λ r. r.formatting_hints)
        (λ v r. record r { formatting_hints = v })
    ∷ []

unfoldable pub channel_capabilities_kind : Kind ChannelCapabilities
channel_capabilities_kind = struct_kind zero_channel_capabilities channel_capabilities_fields

pub record ChannelCapabilitiesParams : Type 0 where
  pub channel_id : String

abbrev pub zero_channel_capabilities_params : ChannelCapabilitiesParams
zero_channel_capabilities_params = record { channel_id = "" }

unfoldable pub channel_capabilities_params_fields : List (Field ChannelCapabilitiesParams)
channel_capabilities_params_fields =
    omitempty "channel_id" string_kind (λ r. r.channel_id) (λ v r. record r { channel_id = v }) ∷ []

unfoldable pub channel_capabilities_params_kind : Kind ChannelCapabilitiesParams
channel_capabilities_params_kind =
    struct_kind zero_channel_capabilities_params channel_capabilities_params_fields

pub record ChannelCapabilitiesResult : Type 0 where
  pub capabilities : ChannelCapabilities

abbrev pub zero_channel_capabilities_result : ChannelCapabilitiesResult
zero_channel_capabilities_result = record { capabilities = zero_channel_capabilities }

unfoldable pub channel_capabilities_result_fields : List (Field ChannelCapabilitiesResult)
channel_capabilities_result_fields =
    field "capabilities" channel_capabilities_kind (λ r. r.capabilities)
      (λ v r. record r { capabilities = v })
    ∷ []

unfoldable pub channel_capabilities_result_kind : Kind ChannelCapabilitiesResult
channel_capabilities_result_kind =
    struct_kind zero_channel_capabilities_result channel_capabilities_result_fields
