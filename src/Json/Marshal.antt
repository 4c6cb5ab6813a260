-- ===== src/Json/Marshal.antt =====
-- json.Marshal of a value, which fails if it meets a part that it rejects.
use extension_sdk_go.Prelude.{
  String, inl, inr, Option, none, some, Option-cases, Result, ok, err, ◌≡◌,
}
use extension_sdk_go.Errors.{Error, text}
use extension_sdk_go.Json.{
  Json, null, bool, num, str, arr, obj, invalid, Items, nil, item, Members, end, member,
}

abbrev first_of : Option String → Option String → Option String
first_of (some m) other = some m
first_of none other = other

-- The error of the first part that is rejected.
unfoldable mutual
  pub rejected : Json → Option String
  rejected null = none
  rejected (bool b) = none
  rejected (num m e) = none
  rejected (str s) = none
  rejected (arr js) = rejected_items js
  rejected (obj ms) = rejected_members ms
  rejected (invalid m) = some m

  pub rejected_items : Items → Option String
  rejected_items nil = none
  rejected_items (item j js) = first_of (rejected j) (rejected_items js)

  pub rejected_members : Members → Option String
  rejected_members end = none
  rejected_members (member k j ms) = first_of (rejected j) (rejected_members ms)

unfoldable pub encode : Json → Result Error Json
unfolding rejected
encode j = elim (rejected j) [ none ↦ ok j | some m ↦ err (text m) ]

-- What is marshalled is the value itself.
pub encode-ok : (j j' : Json) → encode j ≡ ok j' → j' ≡ j
unfolding encode
encode-ok j j' h = elim (Option-cases (rejected j)) [
  | inl e ↦ let h' = rw (e, encode) at h in cc
  | inr (m, e) ↦ let h' = rw (e, encode) at h in absurd (cc)
]
