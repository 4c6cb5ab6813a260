-- ===== src/Protocol/Stt.antt =====
-- protocol/stt.go: speech to text. A table lists the fields of a struct with their tags.
use extension_sdk_go.Prelude.{String, Option, none, List, [], ℤ, pos, ◌∷◌}
use extension_sdk_go.Json.Encoding.{Encoding}
use extension_sdk_go.Json.Kind.{
  string_kind, int_kind, Float64, zero_float64, float_kind, list_kind, slice_kind, Kind,
}
use extension_sdk_go.Json.Struct.{Field, field, omitempty, struct_kind}

pub record SttProviderDef : Type 0 where
  pub name : String
  pub description : String

abbrev pub zero_stt_provider_def : SttProviderDef
zero_stt_provider_def = record { name = ""; description = "" }

unfoldable pub stt_provider_def_fields : List (Field SttProviderDef)
stt_provider_def_fields =
    field "name" string_kind (λ r. r.name) (λ v r. record r { name = v })
    ∷ omitempty "description" string_kind (λ r. r.description) (λ v r. record r { description = v })
    ∷ []

unfoldable pub stt_provider_def_kind : Kind SttProviderDef
stt_provider_def_kind = struct_kind zero_stt_provider_def stt_provider_def_fields

pub record SttTranscribeParams : Type 0 where
  pub audio_base64 : String
  pub format : String
  pub sample_rate : ℤ
  pub channels : ℤ
  pub language : String
  pub model : String
  pub user_id : String
  pub channel_id : String

abbrev pub zero_stt_transcribe_params : SttTranscribeParams
zero_stt_transcribe_params = record {
  audio_base64 = "";
  format = "";
  sample_rate = pos 0;
  channels = pos 0;
  language = "";
  model = "";
  user_id = "";
  channel_id = "";
}

unfoldable pub stt_transcribe_params_fields : List (Field SttTranscribeParams)
stt_transcribe_params_fields =
    field "audio_base64" string_kind (λ r. r.audio_base64) (λ v r. record r { audio_base64 = v })
    ∷ field "format" string_kind (λ r. r.format) (λ v r. record r { format = v })
    ∷ omitempty "sample_rate" int_kind (λ r. r.sample_rate) (λ v r. record r { sample_rate = v })
    ∷ omitempty "channels" int_kind (λ r. r.channels) (λ v r. record r { channels = v })
    ∷ omitempty "language" string_kind (λ r. r.language) (λ v r. record r { language = v })
    ∷ omitempty "model" string_kind (λ r. r.model) (λ v r. record r { model = v })
    ∷ omitempty "user_id" string_kind (λ r. r.user_id) (λ v r. record r { user_id = v })
    ∷ omitempty "channel_id" string_kind (λ r. r.channel_id) (λ v r. record r { channel_id = v })
    ∷ []

unfoldable pub stt_transcribe_params_kind : Kind SttTranscribeParams
stt_transcribe_params_kind = struct_kind zero_stt_transcribe_params stt_transcribe_params_fields

pub record SttSegment : Type 0 where
  pub start_time : Float64
  pub end_time : Float64
  pub text : String

abbrev pub zero_stt_segment : SttSegment
zero_stt_segment = record { start_time = zero_float64; end_time = zero_float64; text = "" }

unfoldable pub stt_segment_fields : ⦃e : Encoding⦄ → List (Field SttSegment)
stt_segment_fields =
    field "start" float_kind (λ r. r.start_time) (λ v r. record r { start_time = v })
    ∷ field "end" float_kind (λ r. r.end_time) (λ v r. record r { end_time = v })
    ∷ field "text" string_kind (λ r. r.text) (λ v r. record r { text = v })
    ∷ []

unfoldable pub stt_segment_kind : ⦃e : Encoding⦄ → Kind SttSegment
stt_segment_kind = struct_kind zero_stt_segment stt_segment_fields

pub record SttTranscribeResult : Type 0 where
  pub text : String
  pub language : String
  pub confidence : Float64
  pub segments : List SttSegment

abbrev pub zero_stt_transcribe_result : SttTranscribeResult
zero_stt_transcribe_result = record {
  text = "";
  language = "";
  confidence = zero_float64;
  segments = [];
}

unfoldable pub stt_transcribe_result_fields : ⦃e : Encoding⦄ → List (Field SttTranscribeResult)
stt_transcribe_result_fields =
    field "text" string_kind (λ r. r.text) (λ v r. record r { text = v })
    ∷ omitempty "language" string_kind (λ r. r.language) (λ v r. record r { language = v })
    ∷ omitempty "confidence" float_kind (λ r. r.confidence) (λ v r. record r { confidence = v })
    ∷ omitempty "segments" (list_kind stt_segment_kind) (λ r. r.segments)
        (λ v r. record r { segments = v })
    ∷ []

unfoldable pub stt_transcribe_result_kind : ⦃e : Encoding⦄ → Kind SttTranscribeResult
stt_transcribe_result_kind = struct_kind zero_stt_transcribe_result stt_transcribe_result_fields

pub record SttModel : Type 0 where
  pub id : String
  pub name : String
  pub description : String
  pub language : String

abbrev pub zero_stt_model : SttModel
zero_stt_model = record { id = ""; name = ""; description = ""; language = "" }

unfoldable pub stt_model_fields : List (Field SttModel)
stt_model_fields =
    field "id" string_kind (λ r. r.id) (λ v r. record r { id = v })
    ∷ field "name" string_kind (λ r. r.name) (λ v r. record r { name = v })
    ∷ omitempty "description" string_kind (λ r. r.description) (λ v r. record r { description = v })
    ∷ omitempty "language" string_kind (λ r. r.language) (λ v r. record r { language = v })
    ∷ []

unfoldable pub stt_model_kind : Kind SttModel
stt_model_kind = struct_kind zero_stt_model stt_model_fields

pub record SttModelsResult : Type 0 where
  pub models : Option (List SttModel)

abbrev pub zero_stt_models_result : SttModelsResult
zero_stt_models_result = record { models = none }

unfoldable pub stt_models_result_fields : List (Field SttModelsResult)
stt_models_result_fields =
    field "models" (slice_kind stt_model_kind) (λ r. r.models) (λ v r. record r { models = v }) ∷ []

unfoldable pub stt_models_result_kind : Kind SttModelsResult
stt_models_result_kind = struct_kind zero_stt_models_result stt_models_result_fields
