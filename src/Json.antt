-- ===== src/Json.antt =====
-- The values that encoding/json reads and writes, and how it maps Go types to them.
-- `Kind` holds the rules for one Go type and `Struct` those for a struct by its field tags.
pub mod Encoding
pub mod Marshal
pub mod Numbers
pub mod Kind
pub mod Names
pub mod Struct
pub mod RoundTrip
use extension_sdk_go.Prelude.{ℕ, String, Bool, ℤ}

-- `num m e` is the number m / 10^e, as written; an object keeps the order of its members. `invalid`
-- stands for a Go value, or a raw message, that json.Marshal rejects with that error: a NaN, a func in
-- a map[string]any, a json.RawMessage that is no JSON.
mutual
  pub data Json : Type 0 where
    null : Json
    bool : Bool → Json
    num : ℤ → ℕ → Json
    str : String → Json
    arr : Items → Json
    obj : Members → Json
    invalid : String → Json

  pub data Items : Type 0 where
    nil : Items
    item : Json → Items → Items

  pub data Members : Type 0 where
    end : Members
    member : String → Json → Members → Members
