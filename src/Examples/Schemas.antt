-- ===== src/Examples/Schemas.antt =====
-- The schema generator with a file system in memory.
use extension_sdk_go.Prelude.{
  ℕ, String, refl, inl, inr, Bool, true, false, Option, none, some, List, [], arith, text_eq,
  eq_iff, Bool-cases, All, Result, ok, err, ◌≡◌, ◌↔◌, ◌∷◌, if◌then◌else◌,
}
use extension_sdk_go.Errors.{Error, text}
use extension_sdk_go.GenerateSchemas.Environment.{Toolbox, IsLawful}
use extension_sdk_go.GenerateSchemas.{main, generate_schemas}
use extension_sdk_go.GenerateSchemas.Generate.{UpToDate, generate_schemas_lem}
use extension_sdk_go.GenerateSchemas.Check.{check-disk, check_iff, main_round_trip}

-- A disk: whether the directory is there, and the files, the last one written first.
record Disk : Type 0 where
  made : Bool
  files : List (String × List ℕ)

abbrev find_file : List (String × List ℕ) → String → Result Error (List ℕ)
find_file [] q = err (text "no such file")
find_file ((p, d) ∷ files) q = let older = find_file files q in if text_eq p q then ok d else older

abbrev store_file : Disk → String → List ℕ → Option Error × Disk
store_file s p d =
    if s.made
    then (none, record s { files = (p, d) ∷ s.files })
    else (some (text "no such directory"), s)

-- The text of a schema is {} or {"}, by its title.
abbrev text_of_schema : String → List ℕ
text_of_schema title = if text_eq title "Request" then b'{' ∷ b'}' ∷ [] else b'{' ∷ b'"' ∷ b'}' ∷ []

abbrev memory : Toolbox
memory = record {
  Schema = String;
  for_type = λ name. ok "";
  with_title = λ name schema. name;
  marshal_indent = λ schema. ok (text_of_schema schema);
  Disk = Disk;
  mkdir_all = λ s. (none, record s { made = true });
  read_file = λ s p. find_file s.files p;
  write_file = store_file;
}

keeps_dir : (s : Disk) (p : String) (d : List ℕ) → s.made ≡ true → (store_file s p d).1.made ≡ true
keeps_dir s p d h = ground arith

reads_back :
    (s : Disk) (p : String) (d : List ℕ)
    → (store_file s p d).0 ≡ none
    → find_file (store_file s p d).1.files p ≡ ok d
reads_back s p d h = elim (Bool-cases s.made) [
  | inl made ↦ rw made (rw ((eq_iff p p).1 refl) refl)
  | inr absent ↦ let h' = rw absent at h in absurd (cc)
]

reads_others :
    (s : Disk) (p q : String) (d : List ℕ)
    → text_eq p q ≡ false
    → find_file (store_file s p d).1.files q ≡ find_file s.files q
reads_others s p q d h = elim (Bool-cases s.made) [
  | inl made ↦ rw made (rw h refl)
  | inr absent ↦ rw absent refl
]

abbrev memory-IsLawful : IsLawful memory
memory-IsLawful = record {
  HasDir = λ s. s.made ≡ true;
  HasDir-mkdir_all = λ s h. refl;
  HasDir-write_file = keeps_dir;
  mkdir_all-HasDir = λ s h. refl;
  read_file-mkdir_all = λ s p h. refl;
  read_file-write_file = reads_back;
  read_file-other = reads_others;
}

abbrev empty_disk : Disk
empty_disk = record { made = false; files = [] }

abbrev two_types : List String
two_types = "Request" ∷ "Response" ∷ []

-- What a run without --check leaves.
abbrev generated : Disk
generated = record {
  made = true;
  files =
      ("schemas/Response.json", b'{' ∷ b'"' ∷ b'}' ∷ b'\n' ∷ [])
      ∷ ("schemas/Request.json", b'{' ∷ b'}' ∷ b'\n' ∷ [])
      ∷ [];
}

generated-ends : (generate_schemas memory false two_types empty_disk).disk ≡ generated
unfolding generate_schemas
generated-ends = refl

status-zero : (generate_schemas memory false two_types empty_disk).status ≡ 0
unfolding generate_schemas
status-zero = refl

generate_schemas_lem_example :
    let t = (generate_schemas memory false two_types empty_disk).disk in
    All (UpToDate memory t) two_types × (t.made ≡ true)
generate_schemas_lem_example =
    generate_schemas_lem memory memory-IsLawful two_types empty_disk refl status-zero

check-disk_example :
    (generate_schemas memory true two_types empty_disk).disk ≡ record empty_disk { made = true }
check-disk_example = check-disk memory two_types empty_disk

check_iff_example :
    ((generate_schemas memory true two_types generated).status ≡ 0)
    ↔ All (UpToDate memory generated) two_types
check_iff_example = check_iff memory two_types generated refl

-- A file that is missing.
missing : (generate_schemas memory true two_types empty_disk).status ≡ 1
unfolding generate_schemas
missing = refl

main-zero : (main memory false empty_disk).status ≡ 0
unfolding main
main-zero = refl

main_round_trip_example : (main memory true (main memory false empty_disk).disk).status ≡ 0
main_round_trip_example = main_round_trip memory empty_disk memory-IsLawful main-zero
