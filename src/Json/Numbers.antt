-- ===== src/Json/Numbers.antt =====
-- Numbers that encoding/json decodes into a float64, in a struct or in a map[string]any.
use extension_sdk_go.Prelude.{
  ℕ, refl, sym, ap, Bool, true, false, Option, none, some, arith, ℤ, eq_ℤ, eq_ℤ_iff, ◌≡◌, ◌∙◌, ◌&&◌,
  ◌==◌,
}
use extension_sdk_go.Json.{
  Json, null, bool, num, str, arr, obj, invalid, Items, nil, item, Members, end, member,
}
use extension_sdk_go.Json.Encoding.{Encoding}

abbrev as_num : Option (ℤ × ℕ) → Option Json
as_num none = none
as_num (some x) = some (num x.0 x.1)

module _ ⦃enc : Encoding⦄ where
  -- The value that a JSON value is decoded to as an `any`, written as JSON; `none` if a number is out of
  -- range.
  unfoldable mutual
    pub as_any : Json → Option Json
    as_any null = some null
    as_any (bool b) = some (bool b)
    as_any (num m e) = as_num (enc.float64 m e)
    as_any (str s) = some (str s)
    as_any (arr js) = elim (as_any_items js) [ none ↦ none | some js' ↦ some (arr js') ]
    as_any (obj ms) = elim (as_any_members ms) [ none ↦ none | some ms' ↦ some (obj ms') ]
    as_any (invalid m) = some (invalid m)

    pub as_any_items : Items → Option Items
    as_any_items nil = some nil
    as_any_items (item j js) = elim (as_any j) [
      | none ↦ none
      | some j' ↦ elim (as_any_items js) [ none ↦ none | some js' ↦ some (item j' js') ]
    ]

    pub as_any_members : Members → Option Members
    as_any_members end = some end
    as_any_members (member k j ms) = elim (as_any j) [
      | none ↦ none
      | some j' ↦ elim (as_any_members ms) [ none ↦ none | some ms' ↦ some (member k j' ms') ]
    ]

  abbrev is_same : ℤ → ℕ → Option (ℤ × ℕ) → Bool
  is_same m e none = false
  is_same m e (some x) = eq_ℤ m x.0 && e == x.1

  -- The number is that of a float64, as it is written.
  unfoldable pub is_float : ℤ → ℕ → Bool
  is_float m e = is_same m e (enc.float64 m e)

  same_float : (m : ℤ) (e : ℕ) (o : Option (ℤ × ℕ)) → is_same m e o ≡ true → o ≡ some (m, e)
  same_float m e none h = absurd (cc)
  same_float m e (some (m', e')) h =
      let same : m ≡ m' = (eq_ℤ_iff m m').0 (ground arith) in
      let same' : e ≡ e' = ground arith in
      ap (λ x. some (x, e')) (sym same) ∙ ap (λ x. some (m, x)) (sym same')

  pub float64-known : (m : ℤ) (e : ℕ) → is_float m e ≡ true → enc.float64 m e ≡ some (m, e)
  unfolding is_float
  float64-known m e h = same_float m e (enc.float64 m e) h

  -- A value of which every part can be marshalled and every number is a float64.
  unfoldable mutual
    pub is_any : Json → Bool
    is_any null = true
    is_any (bool b) = true
    is_any (num m e) = is_float m e
    is_any (str s) = true
    is_any (arr js) = are_any js
    is_any (obj ms) = members_any ms
    is_any (invalid m) = false

    pub are_any : Items → Bool
    are_any nil = true
    are_any (item j js) = is_any j && are_any js

    pub members_any : Members → Bool
    members_any end = true
    members_any (member k j ms) = is_any j && members_any ms

  mutual
    unfolding as_any as_any_items as_any_members is_any are_any members_any

    as_any-same : (j : Json) → is_any j ≡ true → as_any j ≡ some j
    as_any-same null h = refl
    as_any-same (bool b) h = refl
    as_any-same (num m e) h = ap as_num (float64-known m e h)
    as_any-same (str s) h = refl
    as_any-same (arr js) h = rw (as_any_items-same js h) refl
    as_any-same (obj ms) h = rw (as_any_members-same ms h) refl
    as_any-same (invalid m) h = absurd (cc)

    as_any_items-same : (js : Items) → are_any js ≡ true → as_any_items js ≡ some js
    as_any_items-same nil h = refl
    as_any_items-same (item j js) h =
        rw (as_any-same j (ground arith)) (rw (as_any_items-same js (ground arith)) refl)

    pub as_any_members-same : (ms : Members) → members_any ms ≡ true → as_any_members ms ≡ some ms
    as_any_members-same end h = refl
    as_any_members-same (member k j ms) h =
        rw (as_any-same j (ground arith)) (rw (as_any_members-same ms (ground arith)) refl)
