-- ===== src/Examples/Codec.antt =====
-- A prefix code for JSON values, as an encoding with every law of encoding/json that is relied on.
pub mod Laws
use extension_sdk_go.Prelude.{
  ℕ, zero, suc, Bool, Option, none, some, List, [], map, ltb, length, ℤ, pos, negsuc, ◌+◌, ◌-◌, ◌^◌,
  ◌∷◌, ◌==◌, if◌then◌else◌,
}
use mathlib.Core.Option
use extension_sdk_go.Json.{
  Json, null, bool, num, str, arr, obj, invalid, Items, nil, item, Members, end, member,
}
use extension_sdk_go.Json.Encoding.{Encoding, IsFaithful, plain_byte}
use extension_sdk_go.Examples.Characters.{
  codes_of, text_of, text_of-codes_of, text_of_bytes, bytes_of_text, bytes_of_text-text_of_bytes,
}

-- Every code is 14 or more, so none is a line break. 14 ends a list of numbers.
abbrev put_numbers : List ℕ → List ℕ → List ℕ
put_numbers [] r = 14 ∷ r
put_numbers (n ∷ ns) r = (n + 15) ∷ put_numbers ns r

abbrev take_numbers : List ℕ → List ℕ × List ℕ
take_numbers [] = ([], [])
take_numbers (c ∷ cs) =
    let (ns, r) = take_numbers cs in if c == 14 then ([], cs) else ((c - 15) ∷ ns, r)

pub data Tag : Type 0 where
  tag_null : Tag
  tag_bool : Tag
  tag_num : Tag
  tag_str : Tag
  tag_arr : Tag
  tag_obj : Tag
  tag_invalid : Tag

abbrev tag_of : ℕ → Tag
tag_of c =
    if c == 14
    then tag_null
    else if c == 15
    then tag_bool
    else if c == 16
    then tag_num
    else if c == 17
    then tag_str
    else if c == 18
    then tag_arr
    else if c == 19
    then tag_obj
    else tag_invalid

abbrev put_number : ℤ → ℕ → List ℕ → List ℕ
put_number (pos n) e r = 14 ∷ (n + 14) ∷ (e + 14) ∷ r
put_number (negsuc n) e r = 15 ∷ (n + 14) ∷ (e + 14) ∷ r

mutual
  put_json : Json → List ℕ → List ℕ
  put_json null r = 14 ∷ r
  put_json (bool b) r = 15 ∷ (if b then 15 else 14) ∷ r
  put_json (num m e) r = 16 ∷ put_number m e r
  put_json (str s) r = 17 ∷ put_numbers (codes_of s) r
  put_json (arr js) r = 18 ∷ put_items js r
  put_json (obj ms) r = 19 ∷ put_members ms r
  put_json (invalid m) r = 20 ∷ put_numbers (codes_of m) r

  put_items : Items → List ℕ → List ℕ
  put_items nil r = 14 ∷ r
  put_items (item j js) r = 15 ∷ put_json j (put_items js r)

  put_members : Members → List ℕ → List ℕ
  put_members end r = 14 ∷ r
  put_members (member k j ms) r = 15 ∷ put_numbers (codes_of k) (put_json j (put_members ms r))

abbrev take_bool : List ℕ → Option (Json × List ℕ)
take_bool [] = none
take_bool (c ∷ cs) = some (bool (c == 15), cs)

abbrev take_number : List ℕ → Option (Json × List ℕ)
take_number (c ∷ n ∷ e ∷ cs) =
    some (num (if c == 14 then pos (n - 14) else negsuc (n - 14)) (e - 14), cs)
take_number _ = none

abbrev take_text : List ℕ → Option (Json × List ℕ)
take_text cs = let (ns, r) = take_numbers cs in some (str (text_of ns), r)

abbrev take_invalid : List ℕ → Option (Json × List ℕ)
take_invalid cs = let (ns, r) = take_numbers cs in some (invalid (text_of ns), r)

mutual
  take_json : (fuel : ℕ) → List ℕ → Option (Json × List ℕ)
  take_json zero cs = none
  take_json (suc fuel) [] = none
  take_json (suc fuel) (c ∷ cs) = elim (tag_of c) [
    | tag_null ↦ some (null, cs)
    | tag_bool ↦ take_bool cs
    | tag_num ↦ take_number cs
    | tag_str ↦ take_text cs
    | tag_arr ↦ Option.map (λ x. (arr x.0, x.1)) (take_items fuel cs)
    | tag_obj ↦ Option.map (λ x. (obj x.0, x.1)) (take_members fuel cs)
    | tag_invalid ↦ take_invalid cs
  ]

  take_items : (fuel : ℕ) → List ℕ → Option (Items × List ℕ)
  take_items zero cs = none
  take_items (suc fuel) [] = none
  take_items (suc fuel) (c ∷ cs) = elim (tag_of c) [
    | tag_null ↦ some (nil, cs)
    | _ ↦ elim (take_json fuel cs) [
      | none ↦ none
      | some x ↦ Option.map (λ y. (item x.0 y.0, y.1)) (take_items fuel x.1)
    ]
  ]

  take_members : (fuel : ℕ) → List ℕ → Option (Members × List ℕ)
  take_members zero cs = none
  take_members (suc fuel) [] = none
  take_members (suc fuel) (c ∷ cs) = elim (tag_of c) [
    | tag_null ↦ some (end, cs)
    | _ ↦
        let (k, cs') = take_numbers cs in
        elim (take_json fuel cs') [
          | none ↦ none
          | some x ↦ Option.map (λ y. (member (text_of k) x.0 y.0, y.1)) (take_members fuel x.1)
        ]
  ]

unfoldable pub print_json : Json → List ℕ
unfolding put_json
print_json j = put_json j []

unfoldable pub parse_json : List ℕ → Option Json
unfolding take_json
parse_json bytes = Option.map (λ x. x.0) (take_json (length bytes) bytes)

-- An integer below 2^53.
abbrev pub in_int53 : ℤ → Bool
in_int53 (pos n) = ltb n (2 ^ 53)
in_int53 (negsuc n) = ltb n (2 ^ 53)

instance abbrev pub codec : Encoding
codec = record {
  print = print_json;
  parse = parse_json;
  syntax_message = λ bytes. "syntax";
  type_message = λ j. "type";
  base64 = text_of_bytes;
  unbase64 = λ s. some (bytes_of_text s);
  float64 = λ m e. if in_int53 m then some (m, e) else none;
}
