-- ===== src/Json/Kind/Values.antt =====
-- How encoding/json writes and reads values that are kept as they are.
use extension_sdk_go.Prelude.{Bool, true, false, Option, none, some}
use extension_sdk_go.Json.{Json, null, obj, Members, end, member}
use extension_sdk_go.Json.Encoding.{Encoding}
use extension_sdk_go.Json.Marshal.{rejected}
use extension_sdk_go.Json.Numbers.{as_any_members, members_any}
use extension_sdk_go.Json.Kind.Scalars.{Kind}

-- json.RawMessage: nil is `none`, and the text `null` is a message too.
abbrev write_raw : Option Json → Json
write_raw none = null
write_raw (some j) = j

abbrev pub is_none {ℓ} : {A : Type ℓ} → Option A → Bool
is_none none = true
is_none (some _) = false

abbrev raw_fits : Option Json → Bool
raw_fits none = false
raw_fits (some j) = is_none (rejected j)

unfoldable pub raw_kind : Kind (Option Json)
unfolding rejected
raw_kind = record {
  zero_value = none;
  is_empty = is_none;
  is_zero = is_none;
  fits = raw_fits;
  marshal = write_raw;
  unmarshal = λ j old. some (some j);
}

-- map[string]any: nil is `none`. Its numbers are decoded to float64. The members of a map of the model
-- have no order that is observed.
abbrev write_any_map : Option Members → Json
write_any_map none = null
write_any_map (some ms) = obj ms

abbrev map_is_empty : Option Members → Bool
map_is_empty none = true
map_is_empty (some end) = true
map_is_empty (some (member _ _ _)) = false

abbrev decoded_map : Option Members → Option (Option Members)
decoded_map none = none
decoded_map (some ms) = some (some ms)

module _ ⦃enc : Encoding⦄ where
  read_any_map : Json → Option Members → Option (Option Members)
  unfolding as_any_members
  read_any_map null old = some none
  read_any_map (obj ms) old = decoded_map (as_any_members ms)
  read_any_map _ old = none

  abbrev any_map_fits : Option Members → Bool
  any_map_fits none = true
  any_map_fits (some ms) = members_any ms

  unfoldable pub any_map_kind : Kind (Option Members)
  unfolding read_any_map members_any
  any_map_kind = record {
    zero_value = none;
    is_empty = map_is_empty;
    is_zero = is_none;
    fits = any_map_fits;
    marshal = write_any_map;
    unmarshal = read_any_map;
  }
