-- ===== src/Protocol/Http.antt =====
-- protocol/http.go: HTTP routes. A table lists the fields of a struct with their tags.
use extension_sdk_go.Prelude.{ℕ, String, Option, none, List, [], ℤ, pos, ◌∷◌}
use extension_sdk_go.Json.Encoding.{Encoding}
use extension_sdk_go.Json.Kind.{string_kind, int_kind, string_map_kind, bytes_kind, Kind}
use extension_sdk_go.Json.Struct.{Field, field, omitempty, struct_kind}

pub record HttpRequestParams : Type 0 where
  pub method : String
  pub path : String
  pub headers : Option (List (String × String))
  pub body : Option (List ℕ)

abbrev pub zero_http_request_params : HttpRequestParams
zero_http_request_params = record { method = ""; path = ""; headers = none; body = none }

unfoldable pub http_request_params_fields : ⦃e : Encoding⦄ → List (Field HttpRequestParams)
http_request_params_fields =
    field "method" string_kind (λ r. r.method) (λ v r. record r { method = v })
    ∷ field "path" string_kind (λ r. r.path) (λ v r. record r { path = v })
    ∷ field "headers" string_map_kind (λ r. r.headers) (λ v r. record r { headers = v })
    ∷ omitempty "body" bytes_kind (λ r. r.body) (λ v r. record r { body = v })
    ∷ []

unfoldable pub http_request_params_kind : ⦃e : Encoding⦄ → Kind HttpRequestParams
http_request_params_kind = struct_kind zero_http_request_params http_request_params_fields

pub record HttpResponseResult : Type 0 where
  pub status_code : ℤ
  pub headers : Option (List (String × String))
  pub body : Option (List ℕ)

abbrev pub zero_http_response_result : HttpResponseResult
zero_http_response_result = record { status_code = pos 0; headers = none; body = none }

unfoldable pub http_response_result_fields : ⦃e : Encoding⦄ → List (Field HttpResponseResult)
http_response_result_fields =
    field "status_code" int_kind (λ r. r.status_code) (λ v r. record r { status_code = v })
    ∷ omitempty "headers" string_map_kind (λ r. r.headers) (λ v r. record r { headers = v })
    ∷ omitempty "body" bytes_kind (λ r. r.body) (λ v r. record r { body = v })
    ∷ []

unfoldable pub http_response_result_kind : ⦃e : Encoding⦄ → Kind HttpResponseResult
http_response_result_kind = struct_kind zero_http_response_result http_response_result_fields
