-- ===== src/Jsonrpc/Writer.antt =====
-- The io.Writer that a transport writes to.
use extension_sdk_go.Prelude.{ℕ, zero, suc, Option, none, some, List, [], ◌∷◌, ◌++◌}
use extension_sdk_go.Errors.{Error}

-- What one call of Write does: it takes all bytes, or the first `n` and returns an error.
pub data Outcome : Type 0 where
  full : Outcome
  short : (n : ℕ) → Error → Outcome

-- `written` holds the bytes taken so far and `script` how the next calls end; past its end they are
-- full. Every writer's behaviour in a run is such a script.
pub record Writer : Type 0 where
  pub written : List ℕ
  pub script : List Outcome

pub take : ℕ → List ℕ → List ℕ
take zero bs = []
take (suc n) [] = []
take (suc n) (b ∷ bs) = b ∷ take n bs

abbrev write_as : List Outcome → List ℕ → Writer → Option Error × Writer
write_as [] bs w = (none, record w { written = w.written ++ bs })
write_as (full ∷ script) bs w = (none, record { written = w.written ++ bs; script = script })
write_as (short n e ∷ script) bs w =
    (some e, record { written = w.written ++ take n bs; script = script })

unfoldable pub write : List ℕ → Writer → Option Error × Writer
unfolding take
write bs w = write_as w.script bs w
