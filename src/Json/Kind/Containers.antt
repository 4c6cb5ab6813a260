-- ===== src/Json/Kind/Containers.antt =====
-- How encoding/json writes and reads pointers, lists and slices.
use mathlib.Core.Option
use extension_sdk_go.Prelude.{Bool, true, false, Option, none, some, List, [], ◌&&◌, ◌∷◌}
use extension_sdk_go.Json.{Json, null, arr, Items, nil, item}
use extension_sdk_go.Json.Kind.Scalars.{Kind}
use extension_sdk_go.Json.Kind.Values.{is_none}

module _ {A : Type 0} (k : Kind A) where
  -- A pointer: nil is `none`.
  abbrev write_pointer : Option A → Json
  write_pointer none = null
  write_pointer (some a) = k.marshal a

  abbrev target : Option A → A
  target none = k.zero_value
  target (some a) = a

  abbrev read_pointer : Json → Option A → Option (Option A)
  read_pointer null old = some none
  read_pointer j old = Option.map some (k.unmarshal j (target old))

  abbrev fits_pointer : Option A → Bool
  fits_pointer none = true
  fits_pointer (some a) = k.fits a

  unfoldable pub pointer_kind : Kind (Option A)
  pointer_kind = record {
    zero_value = none;
    is_empty = is_none;
    is_zero = is_none;
    fits = fits_pointer;
    marshal = write_pointer;
    unmarshal = read_pointer;
  }

  unfoldable pub write_items : List A → Items
  write_items [] = nil
  write_items (a ∷ as') = item (k.marshal a) (write_items as')

  unfoldable pub read_items : Items → Option (List A)
  read_items nil = some []
  read_items (item j js) = elim (k.unmarshal j k.zero_value) [
    | none ↦ none
    | some a ↦ Option.map (λ as'. a ∷ as') (read_items js)
  ]

  unfoldable pub fits_all : List A → Bool
  fits_all [] = true
  fits_all (a ∷ as') = k.fits a && fits_all as'

  abbrev pub list_is_empty : List A → Bool
  list_is_empty [] = true
  list_is_empty (_ ∷ _) = false

  -- A slice under omitempty, where nil and the empty slice are written alike.
  abbrev read_list : Json → List A → Option (List A)
  read_list null old = some []
  read_list (arr js) old = read_items js
  read_list _ old = none

  unfoldable pub list_kind : Kind (List A)
  unfolding write_items read_items fits_all
  list_kind = record {
    zero_value = [];
    is_empty = list_is_empty;
    is_zero = list_is_empty;
    fits = fits_all;
    marshal = λ as'. arr (write_items as');
    unmarshal = read_list;
  }

  -- A slice that is always written: nil is `none`, and is written as null.
  abbrev write_slice : Option (List A) → Json
  write_slice none = null
  write_slice (some as') = arr (write_items as')

  abbrev read_slice : Json → Option (List A) → Option (Option (List A))
  read_slice null old = some none
  read_slice (arr js) old = Option.map some (read_items js)
  read_slice _ old = none

  abbrev fits_slice : Option (List A) → Bool
  fits_slice none = true
  fits_slice (some as') = fits_all as'

  unfoldable pub slice_kind : Kind (Option (List A))
  unfolding write_items read_items fits_all
  slice_kind = record {
    zero_value = none;
    is_empty = is_none;
    is_zero = is_none;
    fits = fits_slice;
    marshal = write_slice;
    unmarshal = read_slice;
  }
