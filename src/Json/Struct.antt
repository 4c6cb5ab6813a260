-- ===== src/Json/Struct.antt =====
-- How encoding/json writes and reads a struct, by the list of its fields and their tags.
-- A member of no field's name, in whatever case, is skipped, and the last of two members of one field
-- wins.
use mathlib.Core.Option
use extension_sdk_go.Prelude.{
  String, Bool, true, false, Option, none, some, List, [], text_eq, ◌&&◌, ◌∷◌, if◌then◌else◌,
}
use extension_sdk_go.Json.{Json, null, obj, Members, end, member}
use extension_sdk_go.Json.Names.{equal_fold}
use extension_sdk_go.Json.Kind.{Kind}

pub record Field (S : Type 0) : Type 1 where
  pub T : Type 0
  pub name : String
  pub kind : Kind T
  pub omit_empty : Bool
  pub get : S → T
  pub set : T → S → S

module _ {S T : Type 0} where
  -- A field with the tag `json:"name"`, and one with `json:"name,omitempty"`.
  abbrev pub field : String → Kind T → (S → T) → (T → S → S) → Field S
  field name kind get set = record {
    T = T;
    name = name;
    kind = kind;
    omit_empty = false;
    get = get;
    set = set;
  }

  abbrev pub omitempty : String → Kind T → (S → T) → (T → S → S) → Field S
  omitempty name kind get set = record {
    T = T;
    name = name;
    kind = kind;
    omit_empty = true;
    get = get;
    set = set;
  }

module _ {S : Type 0} where
  abbrev pub is_omitted : Field S → S → Bool
  is_omitted f s = f.omit_empty && f.kind.is_empty (f.get s)

  unfoldable pub write_fields : List (Field S) → S → Members
  write_fields [] s = end
  write_fields (f ∷ fs) s =
      let rest = write_fields fs s in
      if is_omitted f s then rest else member f.name (f.kind.marshal (f.get s)) rest

  unfoldable pub find_exact : List (Field S) → String → Option (Field S)
  find_exact [] k = none
  find_exact (f ∷ fs) k = if text_eq f.name k then some f else find_exact fs k

  unfoldable pub find_folded : List (Field S) → String → Option (Field S)
  find_folded [] k = none
  find_folded (f ∷ fs) k = if equal_fold f.name k then some f else find_folded fs k

  -- The field of that very name, or else the first that differs from it in case only.
  unfoldable pub find_field : List (Field S) → String → Option (Field S)
  unfolding find_exact find_folded
  find_field fs k = elim (find_exact fs k) [ some f ↦ some f | none ↦ find_folded fs k ]

  abbrev pub read_into : Option (Field S) → Json → S → Option S
  read_into none j s = some s
  read_into (some f) j s = Option.map (λ v. f.set v s) (f.kind.unmarshal j (f.get s))

  unfoldable pub read_members : List (Field S) → Members → S → Option S
  unfolding find_field
  read_members fs end s = some s
  read_members fs (member k j ms) s = elim (read_into (find_field fs k) j s) [
    | none ↦ none
    | some s' ↦ read_members fs ms s'
  ]

  read_struct : List (Field S) → Json → S → Option S
  unfolding read_members
  read_struct fs null s = some s
  read_struct fs (obj ms) s = read_members fs ms s
  read_struct fs _ s = none

  unfoldable pub fits_fields : List (Field S) → S → Bool
  fits_fields [] s = true
  fits_fields (f ∷ fs) s =
      (if is_omitted f s then f.kind.is_zero (f.get s) else f.kind.fits (f.get s))
      && fits_fields fs s

  unfoldable pub struct_kind : S → List (Field S) → Kind S
  unfolding write_fields read_struct fits_fields
  struct_kind zero_value fs = record {
    zero_value = zero_value;
    is_empty = λ s. false;
    is_zero = λ s. false;
    fits = fits_fields fs;
    marshal = λ s. obj (write_fields fs s);
    unmarshal = read_struct fs;
  }
