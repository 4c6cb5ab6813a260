-- ===== src/GenerateSchemas/Environment.antt =====
-- What the schema generator uses of github.com/google/jsonschema-go, encoding/json and os.
use extension_sdk_go.Prelude.{ℕ, String, false, Option, none, List, text_eq, Result, ok, ◌≡◌}
use extension_sdk_go.Errors.{Error}

-- `for_type` is jsonschema.ForType of the type with the name, under the fixed options; `mkdir_all`
-- makes the directory schemas.
pub record Toolbox : Type 1 where
  pub Schema : Type 0
  pub for_type : String → Result Error Schema
  pub with_title : String → Schema → Schema
  pub marshal_indent : Schema → Result Error (List ℕ)
  pub Disk : Type 0
  pub mkdir_all : Disk → Option Error × Disk
  pub read_file : Disk → String → Result Error (List ℕ)
  pub write_file : Disk → String → List ℕ → Option Error × Disk

module _ (box : Toolbox) where
  open box use {Disk, mkdir_all, read_file, write_file}

  -- A file reads back as it was last written, also if the directory is made again; other files are
  -- not touched by a write. Making a directory that is there succeeds.
  pub record IsLawful : Type 1 where
    pub HasDir : Disk → Type 0
    pub HasDir-mkdir_all : (s : Disk) → (mkdir_all s).0 ≡ none → HasDir (mkdir_all s).1
    pub HasDir-write_file :
        (s : Disk) (p : String) (d : List ℕ) → HasDir s → HasDir (write_file s p d).1
    pub mkdir_all-HasDir : (s : Disk) → HasDir s → (mkdir_all s).0 ≡ none
    pub read_file-mkdir_all :
        (s : Disk) (p : String) → HasDir s → read_file (mkdir_all s).1 p ≡ read_file s p
    pub read_file-write_file :
        (s : Disk) (p : String) (d : List ℕ)
        → (write_file s p d).0 ≡ none
        → read_file (write_file s p d).1 p ≡ ok d
    pub read_file-other :
        (s : Disk) (p q : String) (d : List ℕ)
        → text_eq p q ≡ false
        → read_file (write_file s p d).1 q ≡ read_file s q
