-- ===== src/Examples/Codec/Laws.antt =====
-- The laws of the prefix code.
use extension_sdk_go.Prelude.{
  ℕ, zero, suc, String, refl, ap, Bool, true, false, some, List, [], arith, length, All, ℤ, pos,
  negsuc, ◌+◌, ◌-◌, ◌≤◌, ◌<◌, ◌≡◌, ◌∙◌, ◌≢◌, ◌∷◌, if◌then◌else◌,
}
use mathlib.Core.Option
use extension_sdk_go.Json.{
  invalid, Json, null, bool, num, str, arr, obj, Items, nil, item, Members, end, member,
}
use extension_sdk_go.Json.Encoding.{IsFaithful, plain_byte}
use extension_sdk_go.Examples.Characters.{
  codes_of, text_of, text_of-codes_of, bytes_of_text-text_of_bytes,
}
use extension_sdk_go.Examples.Codec.{
  codec, put_numbers, take_numbers, put_number, put_json, put_items, put_members, take_bool,
  take_number, take_text, take_invalid, take_json, take_items, take_members, print_json, parse_json,
}

take_numbers-put_numbers : (ns r : List ℕ) → take_numbers (put_numbers ns r) ≡ (ns, r)
take_numbers-put_numbers [] r = refl
take_numbers-put_numbers (n ∷ ns) r = ground (arith, take_numbers-put_numbers ns r)

put_numbers-length : (ns r : List ℕ) → length r < length (put_numbers ns r)
put_numbers-length [] r = omega arith
put_numbers-length (n ∷ ns) r = omega (arith, put_numbers-length ns r)

put_number-length : (m : ℤ) (e : ℕ) (r : List ℕ) → length r < length (put_number m e r)
put_number-length (pos n) e r = omega arith
put_number-length (negsuc n) e r = omega arith

mutual
  unfolding put_json put_items put_members

  put_json-length : (j : Json) (r : List ℕ) → length r < length (put_json j r)
  put_json-length null r = omega arith
  put_json-length (bool b) r = omega arith
  put_json-length (num m e) r = omega (arith, put_number-length m e r)
  put_json-length (str s) r = omega (arith, put_numbers-length (codes_of s) r)
  put_json-length (arr js) r = omega (arith, put_items-length js r)
  put_json-length (obj ms) r = omega (arith, put_members-length ms r)
  put_json-length (invalid m) r = omega (arith, put_numbers-length (codes_of m) r)

  put_items-length : (js : Items) (r : List ℕ) → length r < length (put_items js r)
  put_items-length nil r = omega arith
  put_items-length (item j js) r =
      omega (arith, put_json-length j (put_items js r), put_items-length js r)

  put_members-length : (ms : Members) (r : List ℕ) → length r < length (put_members ms r)
  put_members-length end r = omega arith
  put_members-length (member k j ms) r =
      let rest = put_json j (put_members ms r) in
      omega (
        arith,
        put_numbers-length (codes_of k) rest,
        put_json-length j (put_members ms r),
        put_members-length ms r,
      )

take_number-put_number :
    (m : ℤ) (e : ℕ) (r : List ℕ) → take_number (put_number m e r) ≡ some (num m e, r)
take_number-put_number (pos n) e r =
    let same : n + 14 - 14 ≡ n = omega arith in
    let same' : e + 14 - 14 ≡ e = omega arith in
    ap (λ x. some (num (pos x) (e + 14 - 14), r)) same ∙ ap (λ x. some (num (pos n) x, r)) same'
take_number-put_number (negsuc n) e r =
    let same : n + 14 - 14 ≡ n = omega arith in
    let same' : e + 14 - 14 ≡ e = omega arith in
    ap (λ x. some (num (negsuc x) (e + 14 - 14), r)) same
    ∙ ap (λ x. some (num (negsuc n) x, r)) same'

take_bool-put : (b : Bool) (r : List ℕ) → take_bool ((if b then 15 else 14) ∷ r) ≡ some (bool b, r)
take_bool-put true r = refl
take_bool-put false r = refl

take_text-put : (s : String) (r : List ℕ) → take_text (put_numbers (codes_of s) r) ≡ some (str s, r)
take_text-put s r =
    ap (λ x. some (str (text_of x.0), x.1)) (take_numbers-put_numbers (codes_of s) r)
    ∙ ap (λ x. some (str x, r)) (text_of-codes_of s)

take_invalid-put :
    (m : String) (r : List ℕ) → take_invalid (put_numbers (codes_of m) r) ≡ some (invalid m, r)
take_invalid-put m r =
    ap (λ x. some (invalid (text_of x.0), x.1)) (take_numbers-put_numbers (codes_of m) r)
    ∙ ap (λ x. some (invalid x, r)) (text_of-codes_of m)

mutual
  unfolding put_json put_items put_members take_json take_items take_members

  take_json-put_json :
      (j : Json) (fuel : ℕ) (r : List ℕ)
      → length (put_json j r) ≤ fuel
      → take_json fuel (put_json j r) ≡ some (j, r)
  take_json-put_json j zero r h = absurd (omega (arith, put_json-length j r))
  take_json-put_json null (suc fuel) r h = refl
  take_json-put_json (bool b) (suc fuel) r h = take_bool-put b r
  take_json-put_json (num m e) (suc fuel) r h = take_number-put_number m e r
  take_json-put_json (str s) (suc fuel) r h = take_text-put s r
  take_json-put_json (invalid m) (suc fuel) r h = take_invalid-put m r
  take_json-put_json (arr js) (suc fuel) r h =
      ap (λ o. Option.map (λ x. (arr x.0, x.1)) o) (take_items-put_items js fuel r (omega arith))
  take_json-put_json (obj ms) (suc fuel) r h =
      ap (λ o. Option.map (λ x. (obj x.0, x.1)) o)
        (take_members-put_members ms fuel r (omega arith))

  take_items-put_items :
      (js : Items) (fuel : ℕ) (r : List ℕ)
      → length (put_items js r) ≤ fuel
      → take_items fuel (put_items js r) ≡ some (js, r)
  take_items-put_items js zero r h = absurd (omega (arith, put_items-length js r))
  take_items-put_items nil (suc fuel) r h = refl
  take_items-put_items (item j js) (suc fuel) r h =
      let first = take_json-put_json j fuel (put_items js r) (omega arith) in
      let others =
        take_items-put_items js fuel r (omega (arith, put_json-length j (put_items js r))) in
      rw first (rw others refl)

  take_members-put_members :
      (ms : Members) (fuel : ℕ) (r : List ℕ)
      → length (put_members ms r) ≤ fuel
      → take_members fuel (put_members ms r) ≡ some (ms, r)
  take_members-put_members ms zero r h = absurd (omega (arith, put_members-length ms r))
  take_members-put_members end (suc fuel) r h = refl
  take_members-put_members (member k j ms) (suc fuel) r h =
      let rest = put_json j (put_members ms r) in
      let name = take_numbers-put_numbers (codes_of k) rest in
      let longer = put_numbers-length (codes_of k) rest in
      let first = take_json-put_json j fuel (put_members ms r) (omega arith) in
      let others =
        take_members-put_members ms fuel r
          (omega (arith, longer, put_json-length j (put_members ms r))) in
      rw name (
        rw first (
          rw others (
            ap (λ x. some (member (text_of x.0) j ms, r)) name
            ∙ ap (λ x. some (member x j ms, r)) (text_of-codes_of k))))

abbrev Plain : List ℕ → Type 0
Plain cs = All (λ c. plain_byte c ≡ true) cs

large-Plain : (c : ℕ) → 14 ≤ c → plain_byte c ≡ true
large-Plain c h = ground arith

put_numbers-Plain : (ns r : List ℕ) → Plain r → Plain (put_numbers ns r)
put_numbers-Plain [] r h = (refl, h)
put_numbers-Plain (n ∷ ns) r h = (large-Plain (n + 15) (omega arith), put_numbers-Plain ns r h)

put_number-Plain : (m : ℤ) (e : ℕ) (r : List ℕ) → Plain r → Plain (put_number m e r)
put_number-Plain (pos n) e r h =
    (refl, (large-Plain (n + 14) (omega arith), (large-Plain (e + 14) (omega arith), h)))
put_number-Plain (negsuc n) e r h =
    (refl, (large-Plain (n + 14) (omega arith), (large-Plain (e + 14) (omega arith), h)))

mutual
  unfolding put_json put_items put_members

  put_json-Plain : (j : Json) (r : List ℕ) → Plain r → Plain (put_json j r)
  put_json-Plain null r h = (refl, h)
  put_json-Plain (bool true) r h = (refl, (refl, h))
  put_json-Plain (bool false) r h = (refl, (refl, h))
  put_json-Plain (num m e) r h = (refl, put_number-Plain m e r h)
  put_json-Plain (str s) r h = (refl, put_numbers-Plain (codes_of s) r h)
  put_json-Plain (invalid m) r h = (refl, put_numbers-Plain (codes_of m) r h)
  put_json-Plain (arr js) r h = (refl, put_items-Plain js r h)
  put_json-Plain (obj ms) r h = (refl, put_members-Plain ms r h)

  put_items-Plain : (js : Items) (r : List ℕ) → Plain r → Plain (put_items js r)
  put_items-Plain nil r h = (refl, h)
  put_items-Plain (item j js) r h =
      (refl, put_json-Plain j (put_items js r) (put_items-Plain js r h))

  put_members-Plain : (ms : Members) (r : List ℕ) → Plain r → Plain (put_members ms r)
  put_members-Plain end r h = (refl, h)
  put_members-Plain (member k j ms) r h =
      let rest = put_json-Plain j (put_members ms r) (put_members-Plain ms r h) in
      (refl, put_numbers-Plain (codes_of k) (put_json j (put_members ms r)) rest)

parse_json-print_json : (j : Json) → parse_json (print_json j) ≡ some j
unfolding parse_json print_json
parse_json-print_json j =
    ap (λ o. Option.map (λ x. x.0) o)
      (take_json-put_json j (length (put_json j [])) [] (omega arith))

print_json-ne-nil : (j : Json) → print_json j ≢ []
unfolding print_json
print_json-ne-nil j h = let l = put_json-length j [] in absurd (omega (arith, ap length h, l))

print_json-Plain : (j : Json) → Plain (print_json j)
unfolding print_json
print_json-Plain j = put_json-Plain j [] tt

pub codec-IsFaithful : IsFaithful codec
codec-IsFaithful = record {
  parse-print = parse_json-print_json;
  print-ne-nil = print_json-ne-nil;
  print_plain = print_json-Plain;
  unbase64-base64 = λ bs. ap (λ x. some x) (bytes_of_text-text_of_bytes bs);
}
