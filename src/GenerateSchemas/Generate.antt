-- ===== src/GenerateSchemas/Generate.antt =====
-- What a run without --check leaves on disk.
use extension_sdk_go.Prelude.{
  ℕ, String, refl, inl, inr, Bool, true, false, not, List, [], arith, text_eq, Option-cases, length,
  All, ok, Result-cases, List-cases, snoc-ne-nil, ◌≡◌, ◌∙◌, ◌&&◌, ◌∷◌,
}
use extension_sdk_go.GenerateSchemas.Environment.{Toolbox, IsLawful}
use extension_sdk_go.GenerateSchemas.{
  out_path, Report, render, emit_file, visit, visit_all, finish, generate_schemas,
}

-- No type of the list has the path, and no two have the same.
abbrev fresh : String → List String → Bool
fresh path [] = true
fresh path (name ∷ names) = not (text_eq (out_path name) path) && fresh path names

abbrev pub distinct : List String → Bool
distinct [] = true
distinct (name ∷ names) = fresh (out_path name) names && distinct names

module _ (box : Toolbox) where
  open box use {Disk, mkdir_all, read_file, write_file}

  -- The file of the type has the text that is generated for it.
  pub record UpToDate (s : Disk) (name : String) : Type 0 where
    pub text : List ℕ
    pub generated : render box name ≡ ok text
    pub stored : read_file s (out_path name) ≡ ok text

  module _ (lawful : IsLawful box) where
    open lawful use {
      HasDir, HasDir-mkdir_all, HasDir-write_file, read_file-write_file, read_file-other,
      read_file-mkdir_all,
    }

    visit-other :
        (name q : String) (s : Disk) (r : Report)
        → text_eq (out_path name) q ≡ false
        → read_file (visit box false name s r).1 q ≡ read_file s q
    unfolding visit emit_file
    visit-other name q s r d = elim (Result-cases (render box name)) [
      | inr (e, f) ↦ rw (f, visit) refl
      | inl (data', f) ↦ elim (Option-cases (write_file s (out_path name) data').0) [
        | inl w ↦ rw (f, visit) (rw (w, emit_file) (read_file-other s (out_path name) q data' d))
        | inr (e, w) ↦
            rw (f, visit) (rw (w, emit_file) (read_file-other s (out_path name) q data' d))
      ]
    ]

    visit-HasDir :
        (name : String) (s : Disk) (r : Report) → HasDir s → HasDir (visit box false name s r).1
    unfolding visit emit_file
    visit-HasDir name s r h = elim (Result-cases (render box name)) [
      | inr (e, f) ↦ rw (f, visit) h
      | inl (data', f) ↦ elim (Option-cases (write_file s (out_path name) data').0) [
        | inl w ↦ rw (f, visit) (rw (w, emit_file) (HasDir-write_file s (out_path name) data' h))
        | inr (e, w) ↦
            rw (f, visit) (rw (w, emit_file) (HasDir-write_file s (out_path name) data' h))
      ]
    ]

    -- A round that adds no error has written the file.
    visit-clean :
        (name : String) (s : Disk) (r : Report)
        → (visit box false name s r).0.errors ≡ []
        → (r.errors ≡ []) × UpToDate (visit box false name s r).1 name
    unfolding visit emit_file
    visit-clean name s r h = elim (Result-cases (render box name)) [
      | inr (e, f) ↦ let h' = rw (f, visit) at h in absurd (snoc-ne-nil r.errors e h')
      | inl (data', f) ↦ elim (Option-cases (write_file s (out_path name) data').0) [
        | inl w ↦
            let h' = rw (w, emit_file) at (rw (f, visit) at h) in
            rw (f, visit)
              (rw (w, emit_file)
                (
                  h',
                  record {
                    text = data';
                    generated = f;
                    stored = read_file-write_file s (out_path name) data' w;
                  },
                ))
        | inr (e, w) ↦
            let h' = rw (w, emit_file) at (rw (f, visit) at h) in absurd (snoc-ne-nil r.errors _ h')
      ]
    ]

    visit_all-other :
        (q : String) (names : List String) (s : Disk) (r : Report)
        → fresh q names ≡ true
        → read_file (visit_all box false names s r).1 q ≡ read_file s q
    unfolding visit_all
    visit_all-other q [] s r f = refl
    visit_all-other q (name ∷ names) s r f =
        let (r', s') = visit box false name s r in
        visit_all-other q names s' r' (ground arith) ∙ visit-other name q s r (ground arith)

    visit_all-HasDir :
        (names : List String) (s : Disk) (r : Report)
        → HasDir s
        → HasDir (visit_all box false names s r).1
    unfolding visit_all
    visit_all-HasDir [] s r h = h
    visit_all-HasDir (name ∷ names) s r h =
        let (r', s') = visit box false name s r in
        visit_all-HasDir names s' r' (visit-HasDir name s r h)

    UpToDate-same :
        (name : String) (s t : Disk)
        → read_file t (out_path name) ≡ read_file s (out_path name)
        → UpToDate s name
        → UpToDate t name
    UpToDate-same name s t same u = record {
      text = u.text;
      generated = u.generated;
      stored = same ∙ u.stored;
    }

    visit_all-clean :
        (names : List String) (s : Disk) (r : Report)
        → distinct names ≡ true
        → (visit_all box false names s r).0.errors ≡ []
        → (r.errors ≡ []) × All (UpToDate (visit_all box false names s r).1) names
    unfolding visit_all
    visit_all-clean [] s r d h = (h, tt)
    visit_all-clean (name ∷ names) s r d h =
        let (r', s') = visit box false name s r in
        let (clean, rest) = visit_all-clean names s' r' (ground arith) h in
        let (clean', here) = visit-clean name s r clean in
        (
          clean',
          (
            UpToDate-same name s' _ (visit_all-other (out_path name) names s' r' (ground arith))
                here,
            rest,
          ),
        )

    -- The report of a run that exits with 0 has no errors.
    finish-clean :
        (count : ℕ) (r : Report) (s : Disk)
        → (finish box false count r s).status ≡ 0
        → r.errors ≡ []
    unfolding finish
    finish-clean count r s h = elim (List-cases r.errors) [
      | inl e ↦ e
      | inr (x, xs, e) ↦ let h' = rw (e, finish) at h in absurd (omega arith)
    ]

    -- A run without --check that exits with 0 leaves for every type of the table the file with the
    -- text that is generated for it, if no two types have the same file name. Files of other names are
    -- as before, and the directory is there.
    pub generate_schemas_lem :
        (names : List String) (s : Disk)
        → distinct names ≡ true
        → (generate_schemas box false names s).status ≡ 0
        → let t = (generate_schemas box false names s).disk in All (UpToDate t) names × HasDir t
    unfolding generate_schemas finish
    generate_schemas_lem names s d h = elim (Option-cases (mkdir_all s).0) [
      | inr (e, m) ↦ let h' = rw (m, generate_schemas) at h in absurd (omega arith)
      | inl m ↦
          let s' = (mkdir_all s).1 in
          let (r, t) =
            visit_all box false names s' (record { errors = []; drifts = []; printed = [] }) in
          let h' = rw (m, generate_schemas) at h in
          let clean = finish-clean (length names) r t h' in
          rw (m, generate_schemas)
            (rw (clean, finish)
              (
                (visit_all-clean names s' _ d clean).1,
                visit_all-HasDir names s' _ (HasDir-mkdir_all s m),
              ))
    ]
