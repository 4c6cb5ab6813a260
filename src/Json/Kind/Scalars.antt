-- ===== src/Json/Kind/Scalars.antt =====
-- How encoding/json writes and reads strings, booleans and numbers.
use extension_sdk_go.Prelude.{
  ℕ, zero, String, Bool, true, false, not, Option, none, some, text_eq, ℤ, pos, eq_ℤ, in_int64,
  ◌&&◌, ◌==◌, if◌then◌else◌,
}
use extension_sdk_go.Json.{Json, null, bool, num, str, invalid}
use extension_sdk_go.Json.Encoding.{Encoding}
use extension_sdk_go.Json.Numbers.{is_float}

-- `zero_value` is what `var v T` holds and `is_empty` is the test of omitempty. `fits` says which
-- values come back when they are written and read, and `is_zero` which come back when they are left
-- out.
pub record Kind (T : Type 0) : Type 0 where
  pub zero_value : T
  pub is_empty : T → Bool
  pub is_zero : T → Bool
  pub fits : T → Bool
  pub marshal : T → Json
  pub unmarshal : Json → T → Option T

unfoldable pub read_string : Json → String → Option String
read_string null old = some old
read_string (str s) old = some s
read_string _ old = none

unfoldable pub string_kind : Kind String
unfolding read_string
string_kind = record {
  zero_value = "";
  is_empty = λ s. text_eq s "";
  is_zero = λ s. text_eq s "";
  fits = λ s. true;
  marshal = str;
  unmarshal = read_string;
}

read_bool : Json → Bool → Option Bool
read_bool null old = some old
read_bool (bool b) old = some b
read_bool _ old = none

unfoldable pub bool_kind : Kind Bool
unfolding read_bool
bool_kind = record {
  zero_value = false;
  is_empty = not;
  is_zero = not;
  fits = λ b. true;
  marshal = bool;
  unmarshal = read_bool;
}

-- A number with a fraction, or out of range, is an error for an integer type.
read_int : Json → ℤ → Option ℤ
read_int null old = some old
read_int (num m zero) old = if in_int64 m then some m else none
read_int _ old = none

-- int64, and int on a 64-bit machine.
unfoldable pub int_kind : Kind ℤ
unfolding read_int
int_kind = record {
  zero_value = pos 0;
  is_empty = λ n. eq_ℤ n (pos 0);
  is_zero = λ n. eq_ℤ n (pos 0);
  fits = in_int64;
  marshal = λ n. num n 0;
  unmarshal = read_int;
}

-- A float64 by the decimal number that it is written as, or one that has no JSON text: a NaN or an
-- infinity, with the error of json.Marshal.
pub data Float64 : Type 0 where
  finite : (digits : ℤ) → (places : ℕ) → Float64
  not_finite : String → Float64

abbrev pub zero_float64 : Float64
zero_float64 = finite (pos 0) 0

abbrev is_zero_float64 : Float64 → Bool
is_zero_float64 (finite m e) = eq_ℤ m (pos 0) && e == 0
is_zero_float64 (not_finite message) = false

abbrev write_float : Float64 → Json
write_float (finite m e) = num m e
write_float (not_finite message) = invalid message

abbrev decoded_float : Option (ℤ × ℕ) → Option Float64
decoded_float none = none
decoded_float (some x) = some (finite x.0 x.1)

module _ ⦃enc : Encoding⦄ where
  read_float : Json → Float64 → Option Float64
  read_float null old = some old
  read_float (num m e) old = decoded_float (enc.float64 m e)
  read_float _ old = none

  abbrev float_fits : Float64 → Bool
  float_fits (finite m e) = is_float m e
  float_fits (not_finite message) = false

  unfoldable pub float_kind : Kind Float64
  unfolding read_float
  float_kind = record {
    zero_value = zero_float64;
    is_empty = is_zero_float64;
    is_zero = is_zero_float64;
    fits = float_fits;
    marshal = write_float;
    unmarshal = read_float;
  }
