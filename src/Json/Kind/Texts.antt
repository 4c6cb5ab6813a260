-- ===== src/Json/Kind/Texts.antt =====
-- How encoding/json writes and reads maps of strings, and bytes.
use mathlib.Core.Option
use extension_sdk_go.Prelude.{ℕ, String, Bool, true, false, Option, none, some, List, [], ◌∷◌}
use extension_sdk_go.Json.{Json, null, str, obj, Members, end, member}
use extension_sdk_go.Json.Encoding.{Encoding}
use extension_sdk_go.Json.Kind.Scalars.{Kind, read_string}
use extension_sdk_go.Json.Kind.Values.{is_none}

-- map[string]string: nil is `none`.
unfoldable pub write_pairs : List (String × String) → Members
write_pairs [] = end
write_pairs ((k, v) ∷ m) = member k (str v) (write_pairs m)

unfoldable pub read_pairs : Members → Option (List (String × String))
unfolding read_string
read_pairs end = some []
read_pairs (member k j ms) = elim (read_string j "") [
  | none ↦ none
  | some v ↦ Option.map (λ m. (k, v) ∷ m) (read_pairs ms)
]

abbrev write_string_map : Option (List (String × String)) → Json
write_string_map none = null
write_string_map (some m) = obj (write_pairs m)

read_string_map : Json → Option (List (String × String)) → Option (Option (List (String × String)))
read_string_map null old = some none
read_string_map (obj ms) old = Option.map some (read_pairs ms)
read_string_map _ old = none

abbrev pairs_is_empty : Option (List (String × String)) → Bool
pairs_is_empty none = true
pairs_is_empty (some []) = true
pairs_is_empty (some (_ ∷ _)) = false

unfoldable pub string_map_kind : Kind (Option (List (String × String)))
unfolding write_pairs read_pairs read_string_map
string_map_kind = record {
  zero_value = none;
  is_empty = pairs_is_empty;
  is_zero = is_none;
  fits = λ m. true;
  marshal = write_string_map;
  unmarshal = read_string_map;
}

-- []byte: base64 text, and null for nil.
abbrev read_bytes : ⦃e : Encoding⦄ → Json → Option (List ℕ) → Option (Option (List ℕ))
read_bytes null old = some none
read_bytes ⦃e⦄ (str s) old = Option.map some (e.unbase64 s)
read_bytes _ old = none

abbrev write_bytes : ⦃e : Encoding⦄ → Option (List ℕ) → Json
write_bytes none = null
write_bytes ⦃e⦄ (some bs) = str (e.base64 bs)

abbrev bytes_is_empty : Option (List ℕ) → Bool
bytes_is_empty none = true
bytes_is_empty (some []) = true
bytes_is_empty (some (_ ∷ _)) = false

unfoldable pub bytes_kind : ⦃e : Encoding⦄ → Kind (Option (List ℕ))
bytes_kind = record {
  zero_value = none;
  is_empty = bytes_is_empty;
  is_zero = is_none;
  fits = λ bs. true;
  marshal = write_bytes;
  unmarshal = read_bytes;
}
