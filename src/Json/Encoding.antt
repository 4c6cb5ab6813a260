-- ===== src/Json/Encoding.antt =====
-- What the SDK uses of encoding/json and encoding/base64 beyond the mapping of Go types: the text of
-- a value. The text of an error message is theirs too.
use extension_sdk_go.Prelude.{
  ℕ, String, Bool, true, not, Option, some, List, [], All, ℤ, ◌≡◌, ◌≢◌, ◌&&◌, ◌==◌,
}
use extension_sdk_go.Json.{Json}

pub record Encoding : Type 0 where
  -- The compact text of a value, and the value of a text (`none` if it is no JSON).
  pub print : Json → List ℕ
  pub parse : List ℕ → Option Json
  pub syntax_message : List ℕ → String
  -- The message of the type error at a value that does not fit the Go type.
  pub type_message : Json → String
  pub base64 : List ℕ → String
  pub unbase64 : String → Option (List ℕ)
  -- The float64 that a number is decoded to, as it is written again; `none` if it is out of range.
  pub float64 : ℤ → ℕ → Option (ℤ × ℕ)

-- A byte that may stand in a line: neither "\n" nor "\r".
abbrev pub plain_byte : ℕ → Bool
plain_byte c = not (c == b'\n') && not (c == b'\r')

-- A compact text parses back, is not empty and has no line break in it, since control characters
-- are escaped; base64 decodes back.
pub record IsFaithful (e : Encoding) : Type 0 where
  pub parse-print : (j : Json) → e.parse (e.print j) ≡ some j
  pub print-ne-nil : (j : Json) → e.print j ≢ []
  pub print_plain : (j : Json) → All (λ c. plain_byte c ≡ true) (e.print j)
  pub unbase64-base64 : (bs : List ℕ) → e.unbase64 (e.base64 bs) ≡ some bs
