-- ===== src/Examples/Characters.antt =====
-- Characters and texts as numbers.
use extension_sdk_go.Prelude.{
  ℕ, zero, suc, String, refl, ap, Option, none, some, List, [], map, ◌≡◌, ◌∙◌, ◌∷◌, ◌==◌,
  if◌then◌else◌,
}
use Prim.Native.Nat.{compare, Ordering}
use Prim.Native.Char.{Char, char, code, IsLt, IsScalar, nul}
use Prim.Native.String.{[] as empty, ◌∷◌ as ◌∷ˢ◌}
use text.Mathlib.TextBridge.{of_list}

-- The condition of `IsScalar`, by its three comparisons.
abbrev Upper : Ordering → Ordering → Type 0
Upper Ordering.lt o = IsLt o
Upper Ordering.eq _ = ⊥
Upper Ordering.gt _ = ⊥

abbrev Scalar : Ordering → Ordering → Ordering → Type 0
Scalar Ordering.lt _ _ = Unit
Scalar Ordering.eq o p = Upper o p
Scalar Ordering.gt o p = Upper o p

abbrev is_lt : (o : Ordering) → Option (IsLt o)
is_lt Ordering.lt = some tt
is_lt Ordering.eq = none
is_lt Ordering.gt = none

abbrev is_upper : (o p : Ordering) → Option (Upper o p)
is_upper Ordering.lt p = is_lt p
is_upper Ordering.eq p = none
is_upper Ordering.gt p = none

abbrev is_scalar : (o p q : Ordering) → Option (Scalar o p q)
is_scalar Ordering.lt p q = some tt
is_scalar Ordering.eq p q = is_upper p q
is_scalar Ordering.gt p q = is_upper p q

is_lt_known : (o : Ordering) (h : IsLt o) → is_lt o ≡ some h
is_lt_known Ordering.lt h = refl
is_lt_known Ordering.eq h = absurd h
is_lt_known Ordering.gt h = absurd h

is_upper_known : (o p : Ordering) (h : Upper o p) → is_upper o p ≡ some h
is_upper_known Ordering.lt p h = is_lt_known p h
is_upper_known Ordering.eq p h = absurd h
is_upper_known Ordering.gt p h = absurd h

is_scalar_known : (o p q : Ordering) (h : Scalar o p q) → is_scalar o p q ≡ some h
is_scalar_known Ordering.lt p q h = refl
is_scalar_known Ordering.eq p q h = is_upper_known p q h
is_scalar_known Ordering.gt p q h = is_upper_known p q h

abbrev char_from : (n : ℕ) → Option (IsScalar n) → Char
char_from n none = nul
char_from n (some h) = char n h

-- The character with the number.
unfoldable char_of : ℕ → Char
char_of n = char_from n (is_scalar (compare n 55296) (compare 57343 n) (compare n 1114112))

char_of-code : (c : Char) → char_of (code c) ≡ c
unfolding char_of
char_of-code (char n h) =
    ap (λ o. char_from n o)
      (is_scalar_known (compare n 55296) (compare 57343 n) (compare n 1114112) h)

-- The characters of a text.
unfoldable pub chars : String → List Char
chars empty = []
chars (c ∷ˢ s) = c ∷ chars s

of_list-chars : (s : String) → of_list (chars s) ≡ s
unfolding chars
of_list-chars empty = refl
of_list-chars (c ∷ˢ s) = ap (λ t. c ∷ˢ t) (of_list-chars s)

chars-of_list : (cs : List Char) → chars (of_list cs) ≡ cs
unfolding chars
chars-of_list [] = refl
chars-of_list (c ∷ cs) = ap (λ ds. c ∷ ds) (chars-of_list cs)

abbrev pub codes_of : String → List ℕ
codes_of s = map code (chars s)

unfoldable pub text_of : List ℕ → String
unfolding char_of
text_of ns = of_list (map char_of ns)

chars_back : (cs : List Char) → map char_of (map code cs) ≡ cs
chars_back [] = refl
chars_back (c ∷ cs) =
    ap (λ x. x ∷ map char_of (map code cs)) (char_of-code c) ∙ ap (λ x. c ∷ x) (chars_back cs)

pub text_of-codes_of : (s : String) → text_of (codes_of s) ≡ s
unfolding text_of
text_of-codes_of s = ap of_list (chars_back (chars s)) ∙ of_list-chars s

-- A number in strokes.
abbrev strokes : ℕ → List Char → List Char
strokes zero cs = char b'b' tt ∷ cs
strokes (suc n) cs = char b'a' tt ∷ strokes n cs

abbrev all_strokes : List ℕ → List Char
all_strokes [] = []
all_strokes (n ∷ ns) = strokes n (all_strokes ns)

abbrev one_more : List ℕ → List ℕ
one_more [] = []
one_more (n ∷ ns) = suc n ∷ ns

abbrev counted : List Char → List ℕ
counted [] = []
counted (c ∷ cs) = let ns = counted cs in if code c == b'a' then one_more ns else 0 ∷ ns

counted-strokes : (n : ℕ) (cs : List Char) → counted (strokes n cs) ≡ n ∷ counted cs
counted-strokes zero cs = refl
counted-strokes (suc n) cs = ap one_more (counted-strokes n cs)

counted-all_strokes : (ns : List ℕ) → counted (all_strokes ns) ≡ ns
counted-all_strokes [] = refl
counted-all_strokes (n ∷ ns) =
    counted-strokes n (all_strokes ns) ∙ ap (λ x. n ∷ x) (counted-all_strokes ns)

-- Bytes as a text.
unfoldable pub text_of_bytes : List ℕ → String
text_of_bytes bytes = of_list (all_strokes bytes)

unfoldable pub bytes_of_text : String → List ℕ
bytes_of_text s = counted (chars s)

pub bytes_of_text-text_of_bytes : (bytes : List ℕ) → bytes_of_text (text_of_bytes bytes) ≡ bytes
unfolding bytes_of_text text_of_bytes
bytes_of_text-text_of_bytes bytes =
    ap counted (chars-of_list (all_strokes bytes)) ∙ counted-all_strokes bytes
