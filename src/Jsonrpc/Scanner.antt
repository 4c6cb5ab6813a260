-- ===== src/Jsonrpc/Scanner.antt =====
-- bufio.Scanner with its ScanLines function, as jsonrpc/transport.go and harness/harness.go use it.
use extension_sdk_go.Prelude.{
  ℕ, max, Option, none, some, List, [], leb, length, ◌∷◌, ◌==◌, if◌then◌else◌,
}
use extension_sdk_go.Errors.{Error, sentinel, too_long}

-- `input` holds the bytes not yet scanned and `read_err` the error, other than io.EOF, with which the
-- reader ends. `limit` is the size to which the buffer may grow, and `failed` what Err() returns.
pub record Scanner : Type 0 where
  pub input : List ℕ
  pub read_err : Option Error
  pub limit : ℕ
  pub failed : Option Error

-- `scanner.Buffer(make([]byte, 0, 64*1024), size)`: the limit is the larger of the two sizes.
unfoldable pub new_scanner : List ℕ → Option Error → (size : ℕ) → Scanner
new_scanner input read_err size = record {
  input = input;
  read_err = read_err;
  limit = max 65536 size;
  failed = none;
}

-- The bytes before the first "\n", and those after it if there is one.
unfoldable pub cut_line : List ℕ → List ℕ × Option (List ℕ)
cut_line [] = ([], none)
cut_line (c ∷ cs) =
    let (line, rest) = cut_line cs in if c == b'\n' then ([], some cs) else (c ∷ line, rest)

-- A "\r" at the end of a line is dropped.
unfoldable pub drop_cr : List ℕ → List ℕ
drop_cr [] = []
drop_cr (c ∷ []) = if c == b'\r' then [] else c ∷ []
drop_cr (c ∷ d ∷ cs) = c ∷ drop_cr (d ∷ cs)

-- Scan(), with the bytes of the line if it returns true. A line that fills the buffer ends the scan;
-- at the end of the input what is left is a last line, unless nothing is left.
abbrev pub scan_line : List ℕ → Option (List ℕ) → Scanner → Option (List ℕ) × Scanner
scan_line line (some rest) s = (some (drop_cr line), record s { input = rest })
scan_line [] none s = (none, record s { failed = s.read_err })
scan_line (c ∷ line) none s = (some (drop_cr (c ∷ line)), record s { input = [] })

unfoldable pub scan : Scanner → Option (List ℕ) × Scanner
unfolding cut_line drop_cr
scan s =
    let (line, rest) = cut_line s.input in
    if leb s.limit (length line)
    then (none, record s { failed = some (sentinel too_long) })
    else scan_line line rest s
