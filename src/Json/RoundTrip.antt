-- ===== src/Json/RoundTrip.antt =====
-- Reading a value back that encoding/json has written.
use mathlib.Core.Logic.{Lift}
use extension_sdk_go.Prelude.{
  ℕ, String, refl, ap, subst, inl, inr, true, Option, none, some, List, [], arith, eq_iff,
  Bool-cases, pos, eq_ℤ_iff, ◌≡◌, ◌∙◌, ◌∷◌,
}
use extension_sdk_go.Json.{Json, Members}
use extension_sdk_go.Json.Encoding.{Encoding, IsFaithful}
use extension_sdk_go.Json.Numbers.{float64-known, as_any_members-same}
use extension_sdk_go.Json.Kind.{
  Float64, finite, not_finite, zero_float64, Kind, string_kind, bool_kind, int_kind, float_kind,
  raw_kind, is_none, any_map_kind, pointer_kind, write_items, read_items, fits_all, list_kind,
  slice_kind, write_pairs, read_pairs, string_map_kind, bytes_kind,
}
use extension_sdk_go.Json.Struct.{
  Field, is_omitted, write_fields, find_field, read_into, read_members, fits_fields, struct_kind,
}

-- A value that fits is read back into a zero value, and only the zero value is left out.
pub record IsLawful {T : Type 0} (k : Kind T) : Type 0 where
  pub back : (v : T) → k.fits v ≡ true → k.unmarshal (k.marshal v) k.zero_value ≡ some v
  pub zero : (v : T) → k.is_zero v ≡ true → v ≡ k.zero_value

pub string-IsLawful : IsLawful string_kind
unfolding string_kind
string-IsLawful = record { back = λ v h. refl; zero = λ v h. (eq_iff v "").0 h }

pub bool-IsLawful : IsLawful bool_kind
unfolding bool_kind
bool-IsLawful = record { back = λ v h. refl; zero = λ v h. ground arith }

pub int-IsLawful : IsLawful int_kind
unfolding int_kind
int-IsLawful = record { back = λ v h. rw h refl; zero = λ v h. (eq_ℤ_iff v (pos 0)).0 h }

float_back :
    ⦃enc : Encoding⦄
    → (v : Float64) → float_kind.fits v ≡ true
    → float_kind.unmarshal (float_kind.marshal v) zero_float64 ≡ some v
unfolding float_kind
float_back (finite m e) h = rw (float64-known m e h) refl
float_back (not_finite message) h = absurd (cc)

float_zero : ⦃enc : Encoding⦄ → (v : Float64) → float_kind.is_zero v ≡ true → v ≡ zero_float64
unfolding float_kind
float_zero (finite m e) h =
    let same : m ≡ pos 0 = (eq_ℤ_iff m (pos 0)).0 (ground arith) in
    let same' : e ≡ 0 = ground arith in ap (λ x. finite x e) same ∙ ap (λ x. finite (pos 0) x) same'
float_zero (not_finite message) h = absurd (cc)

pub float-IsLawful : ⦃enc : Encoding⦄ → IsLawful float_kind
unfolding float_kind
float-IsLawful = record { back = float_back; zero = float_zero }

zero_of_is_none {ℓ} : {A : Type ℓ} (o : Option A) → is_none o ≡ true → o ≡ none
zero_of_is_none none h = refl
zero_of_is_none (some a) h = cc

raw_back :
    (v : Option Json)
    → raw_kind.fits v ≡ true
    → raw_kind.unmarshal (raw_kind.marshal v) none ≡ some v
unfolding raw_kind
raw_back none h = cc
raw_back (some j) h = refl

pub raw-IsLawful : IsLawful raw_kind
unfolding raw_kind
raw-IsLawful = record { back = raw_back; zero = zero_of_is_none }

any_map_back :
    ⦃enc : Encoding⦄
    → (v : Option Members) → any_map_kind.fits v ≡ true
    → any_map_kind.unmarshal (any_map_kind.marshal v) none ≡ some v
unfolding any_map_kind
any_map_back none h = refl
any_map_back (some ms) h = rw (as_any_members-same ms h) refl

pub any_map-IsLawful : ⦃enc : Encoding⦄ → IsLawful any_map_kind
unfolding any_map_kind
any_map-IsLawful = record { back = any_map_back; zero = zero_of_is_none }

module _ {A : Type 0} (k : Kind A) (lawful : IsLawful k) where
  read_items-write_items :
      (as' : List A) → fits_all k as' ≡ true → read_items k (write_items k as') ≡ some as'
  unfolding read_items write_items fits_all
  read_items-write_items [] h = refl
  read_items-write_items (a ∷ as') h =
      let here = lawful.back a (ground arith) in
      let rest = read_items-write_items as' (ground arith) in rw here (rw rest refl)

  list_zero : (as' : List A) → (list_kind k).is_zero as' ≡ true → as' ≡ []
  unfolding list_kind
  list_zero [] h = refl
  list_zero (a ∷ as') h = cc

  pub list-IsLawful : IsLawful (list_kind k)
  unfolding list_kind
  list-IsLawful = record { back = read_items-write_items; zero = list_zero }

  slice_back :
      (v : Option (List A))
      → (slice_kind k).fits v ≡ true
      → (slice_kind k).unmarshal ((slice_kind k).marshal v) none ≡ some v
  unfolding slice_kind
  slice_back none h = refl
  slice_back (some as') h = rw (read_items-write_items as' h) refl

  pub slice-IsLawful : IsLawful (slice_kind k)
  unfolding slice_kind
  slice-IsLawful = record { back = slice_back; zero = zero_of_is_none }

-- The fields of a table, from the value read so far on: each name finds its field, each field is
-- still at its zero value, and setting them all gives the struct back.
module _ {S : Type 0} (all : List (Field S)) (s : S) where
  abbrev pub Steps : S → List (Field S) → Type 1
  Steps acc [] = Lift (acc ≡ s)
  Steps acc (f ∷ fs) =
      (find_field all f.name ≡ some f)
      × (f.get acc ≡ f.kind.zero_value)
      × (f.set f.kind.zero_value acc ≡ acc)
      × IsLawful f.kind
      × Steps (f.set (f.get s) acc) fs

read_pairs-write_pairs : (m : List (String × String)) → read_pairs (write_pairs m) ≡ some m
unfolding read_pairs write_pairs
read_pairs-write_pairs [] = refl
read_pairs-write_pairs ((k, v) ∷ m) = rw (read_pairs-write_pairs m) refl

string_map_back :
    (v : Option (List (String × String)))
    → string_map_kind.unmarshal (string_map_kind.marshal v) none ≡ some v
unfolding string_map_kind
string_map_back none = refl
string_map_back (some m) = rw (read_pairs-write_pairs m) refl

pub string_map-IsLawful : IsLawful string_map_kind
unfolding string_map_kind
string_map-IsLawful = record { back = λ v h. string_map_back v; zero = zero_of_is_none }

module _ ⦃e : Encoding⦄ (faithful : IsFaithful e) where
  bytes_back : (v : Option (List ℕ)) → bytes_kind.unmarshal (bytes_kind.marshal v) none ≡ some v
  unfolding bytes_kind
  bytes_back none = refl
  bytes_back (some bs) = rw (faithful.unbase64-base64 bs) refl

  pub bytes-IsLawful : IsLawful bytes_kind
  unfolding bytes_kind
  bytes-IsLawful = record { back = λ v h. bytes_back v; zero = zero_of_is_none }

module _ {S : Type 0} (all : List (Field S)) (s : S) where
  -- One written member, read back, sets its field.
  read_written :
      (f : Field S) (acc : S)
      → f.get acc ≡ f.kind.zero_value
      → IsLawful f.kind
      → f.kind.fits (f.get s) ≡ true
      → read_into (some f) (f.kind.marshal (f.get s)) acc ≡ some (f.set (f.get s) acc)
  read_written f acc blank lawful h = rw blank (rw (lawful.back (f.get s) h) refl)

  read_members-write_fields :
      (fs : List (Field S)) (acc : S)
      → Steps all s acc fs
      → fits_fields fs s ≡ true
      → read_members all (write_fields fs s) acc ≡ some s
  unfolding read_members write_fields fits_fields
  read_members-write_fields [] acc steps h = ap some steps.lower
  read_members-write_fields (f ∷ fs) acc (found, blank, still, lawful, steps) h =
      let rest = read_members-write_fields fs (f.set (f.get s) acc) steps (ground arith) in
      elim (Bool-cases (is_omitted f s)) [
        | inl skipped ↦
            let none_there : f.get s ≡ f.kind.zero_value = lawful.zero (f.get s) (ground arith) in
            let same : f.set (f.get s) acc ≡ acc = ap (λ v. f.set v acc) none_there ∙ still in
            rw skipped (subst (λ a. read_members all (write_fields fs s) a ≡ some s) same rest)
        | inr written ↦
            rw written
              (rw (found, read_members) (rw (read_written f acc blank lawful (ground arith)) rest))
      ]

-- A struct is lawful as soon as its table steps from the zero value to every value.
pub struct-IsLawful :
    {S : Type 0} (zero_value : S) (fs : List (Field S))
    → ((s : S) → Steps fs s zero_value fs)
    → IsLawful (struct_kind zero_value fs)
unfolding struct_kind
struct-IsLawful zero_value fs steps = record {
  back = λ s h. read_members-write_fields fs s fs zero_value (steps s) h;
  zero = λ s h. cc;
}

-- So is a pointer to it.
module _ {S : Type 0} (zero_value : S) (fs : List (Field S))
    (lawful : IsLawful (struct_kind zero_value fs)) where
  pointer_back :
      (v : Option S)
      → let k = pointer_kind (struct_kind zero_value fs) in
        k.fits v ≡ true → k.unmarshal (k.marshal v) none ≡ some v
  unfolding pointer_kind struct_kind
  pointer_back none h = refl
  pointer_back (some s) h = rw (lawful.back s h) refl

  pub pointer-IsLawful : IsLawful (pointer_kind (struct_kind zero_value fs))
  unfolding pointer_kind
  pointer-IsLawful = record { back = pointer_back; zero = zero_of_is_none }
