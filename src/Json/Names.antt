-- ===== src/Json/Names.antt =====
-- The names of JSON members, as encoding/json matches them with the fields of a struct.
use Prim.Native.Char.{code}
use Prim.Native.String.{[] as empty, ◌∷◌ as ◌∷ˢ◌}
use extension_sdk_go.Prelude.{ℕ, String, Bool, true, false, leb, ◌-◌, ◌&&◌, ◌==◌, if◌then◌else◌}

-- Case folding, as far as a name in ASCII can tell: the Kelvin sign folds to K and the long s to S.
abbrev fold_code : ℕ → ℕ
fold_code c =
    if leb b'a' c && leb c b'z'
    then c - 32
    else if c == 0x212A
    then b'K'
    else if c == 0x017F
    then b'S'
    else c

-- Two names that differ in case only.
unfoldable pub equal_fold : String → String → Bool
equal_fold empty empty = true
equal_fold (c ∷ˢ s) (d ∷ˢ t) = fold_code (code c) == fold_code (code d) && equal_fold s t
equal_fold empty (d ∷ˢ t) = false
equal_fold (c ∷ˢ s) empty = false
