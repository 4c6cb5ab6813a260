-- ===== src/Protocol/Tts.antt =====
-- protocol/tts.go: text to speech. A table lists the fields of a struct with their tags.
use extension_sdk_go.Prelude.{String, Option, none, List, [], ◌∷◌}
use extension_sdk_go.Json.Encoding.{Encoding}
use extension_sdk_go.Json.Kind.{string_kind, Float64, zero_float64, float_kind, slice_kind, Kind}
use extension_sdk_go.Json.Struct.{Field, field, omitempty, struct_kind}

pub record TtsSynthesizeParams : Type 0 where
  pub text : String
  pub voice : String
  pub model : String
  pub format : String
  pub speed : Float64

abbrev pub zero_tts_synthesize_params : TtsSynthesizeParams
zero_tts_synthesize_params = record {
  text = "";
  voice = "";
  model = "";
  format = "";
  speed = zero_float64;
}

unfoldable pub tts_synthesize_params_fields : ⦃e : Encoding⦄ → List (Field TtsSynthesizeParams)
tts_synthesize_params_fields =
    field "text" string_kind (λ r. r.text) (λ v r. record r { text = v })
    ∷ field "voice" string_kind (λ r. r.voice) (λ v r. record r { voice = v })
    ∷ omitempty "model" string_kind (λ r. r.model) (λ v r. record r { model = v })
    ∷ omitempty "format" string_kind (λ r. r.format) (λ v r. record r { format = v })
    ∷ omitempty "speed" float_kind (λ r. r.speed) (λ v r. record r { speed = v })
    ∷ []

unfoldable pub tts_synthesize_params_kind : ⦃e : Encoding⦄ → Kind TtsSynthesizeParams
tts_synthesize_params_kind = struct_kind zero_tts_synthesize_params tts_synthesize_params_fields

pub record TtsSynthesizeResult : Type 0 where
  pub audio_base64 : String
  pub format : String
  pub content_type : String

abbrev pub zero_tts_synthesize_result : TtsSynthesizeResult
zero_tts_synthesize_result = record { audio_base64 = ""; format = ""; content_type = "" }

unfoldable pub tts_synthesize_result_fields : List (Field TtsSynthesizeResult)
tts_synthesize_result_fields =
    field "audio_base64" string_kind (λ r. r.audio_base64) (λ v r. record r { audio_base64 = v })
    ∷ field "format" string_kind (λ r. r.format) (λ v r. record r { format = v })
    ∷ field "content_type" string_kind (λ r. r.content_type) (λ v r. record r { content_type = v })
    ∷ []

unfoldable pub tts_synthesize_result_kind : Kind TtsSynthesizeResult
tts_synthesize_result_kind = struct_kind zero_tts_synthesize_result tts_synthesize_result_fields

pub record TtsVoice : Type 0 where
  pub id : String
  pub name : String
  pub description : String
  pub language : String

abbrev pub zero_tts_voice : TtsVoice
zero_tts_voice = record { id = ""; name = ""; description = ""; language = "" }

unfoldable pub tts_voice_fields : List (Field TtsVoice)
tts_voice_fields =
    field "id" string_kind (λ r. r.id) (λ v r. record r { id = v })
    ∷ field "name" string_kind (λ r. r.name) (λ v r. record r { name = v })
    ∷ omitempty "description" string_kind (λ r. r.description) (λ v r. record r { description = v })
    ∷ omitempty "language" string_kind (λ r. r.language) (λ v r. record r { language = v })
    ∷ []

unfoldable pub tts_voice_kind : Kind TtsVoice
tts_voice_kind = struct_kind zero_tts_voice tts_voice_fields

pub record TtsVoicesResult : Type 0 where
  pub voices : Option (List TtsVoice)

abbrev pub zero_tts_voices_result : TtsVoicesResult
zero_tts_voices_result = record { voices = none }

unfoldable pub tts_voices_result_fields : List (Field TtsVoicesResult)
tts_voices_result_fields =
    field "voices" (slice_kind tts_voice_kind) (λ r. r.voices) (λ v r. record r { voices = v }) ∷ []

unfoldable pub tts_voices_result_kind : Kind TtsVoicesResult
tts_voices_result_kind = struct_kind zero_tts_voices_result tts_voices_result_fields
