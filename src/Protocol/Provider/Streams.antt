-- ===== src/Protocol/Provider/Streams.antt =====
-- protocol/provider.go: streams of a model's output.
use extension_sdk_go.Prelude.{String, List, [], ℤ, pos, ◌∷◌}
use extension_sdk_go.Json.Kind.{string_kind, int_kind, Kind}
use extension_sdk_go.Json.Struct.{Field, field, omitempty, struct_kind}

pub record StreamChunkParams : Type 0 where
  pub stream_id : String
  pub type : String
  pub text : String
  pub tool_id : String
  pub tool_name : String
  pub tool_input : String
  pub index : ℤ

abbrev pub zero_stream_chunk_params : StreamChunkParams
zero_stream_chunk_params = record {
  stream_id = "";
  type = "";
  text = "";
  tool_id = "";
  tool_name = "";
  tool_input = "";
  index = pos 0;
}

unfoldable pub stream_chunk_params_fields : List (Field StreamChunkParams)
stream_chunk_params_fields =
    field "stream_id" string_kind (λ r. r.stream_id) (λ v r. record r { stream_id = v })
    ∷ field "type" string_kind (λ r. r.type) (λ v r. record r { type = v })
    ∷ omitempty "text" string_kind (λ r. r.text) (λ v r. record r { text = v })
    ∷ omitempty "tool_id" string_kind (λ r. r.tool_id) (λ v r. record r { tool_id = v })
    ∷ omitempty "tool_name" string_kind (λ r. r.tool_name) (λ v r. record r { tool_name = v })
    ∷ omitempty "tool_input" string_kind (λ r. r.tool_input) (λ v r. record r { tool_input = v })
    ∷ field "index" int_kind (λ r. r.index) (λ v r. record r { index = v })
    ∷ []

unfoldable pub stream_chunk_params_kind : Kind StreamChunkParams
stream_chunk_params_kind = struct_kind zero_stream_chunk_params stream_chunk_params_fields

pub record StreamEndParams : Type 0 where
  pub stream_id : String
  pub total_chunks : ℤ

abbrev pub zero_stream_end_params : StreamEndParams
zero_stream_end_params = record { stream_id = ""; total_chunks = pos 0 }

unfoldable pub stream_end_params_fields : List (Field StreamEndParams)
stream_end_params_fields =
    field "stream_id" string_kind (λ r. r.stream_id) (λ v r. record r { stream_id = v })
    ∷ field "total_chunks" int_kind (λ r. r.total_chunks) (λ v r. record r { total_chunks = v })
    ∷ []

unfoldable pub stream_end_params_kind : Kind StreamEndParams
stream_end_params_kind = struct_kind zero_stream_end_params stream_end_params_fields

pub record StreamErrorParams : Type 0 where
  pub stream_id : String
  pub code : ℤ
  pub message : String

abbrev pub zero_stream_error_params : StreamErrorParams
zero_stream_error_params = record { stream_id = ""; code = pos 0; message = "" }

unfoldable pub stream_error_params_fields : List (Field StreamErrorParams)
stream_error_params_fields =
    field "stream_id" string_kind (λ r. r.stream_id) (λ v r. record r { stream_id = v })
    ∷ field "code" int_kind (λ r. r.code) (λ v r. record r { code = v })
    ∷ field "message" string_kind (λ r. r.message) (λ v r. record r { message = v })
    ∷ []

unfoldable pub stream_error_params_kind : Kind StreamErrorParams
stream_error_params_kind = struct_kind zero_stream_error_params stream_error_params_fields
