-- ===== src/GenerateSchemas/Check.antt =====
-- What a run with --check finds, and what it does to the disk.
use extension_sdk_go.Prelude.{
  ℕ, String, refl, sym, ap, subst, inl, inr, Bool, true, false, none, List, [], arith, Bool-cases,
  Option-cases, length, All, ok, Result-cases, List-cases, snoc-ne-nil, ◌≡◌, ◌∙◌, ◌↔◌, ◌∷◌,
}
use extension_sdk_go.GenerateSchemas.Environment.{Toolbox, IsLawful}
use extension_sdk_go.GenerateSchemas.{
  types, out_path, Report, render, compare_file, same_bytes, same_bytes_iff, visit, visit_all,
  finish, generate_schemas, main,
}
use extension_sdk_go.GenerateSchemas.Generate.{distinct, UpToDate, generate_schemas_lem}

module _ (box : Toolbox) where
  open box use {Disk, mkdir_all, read_file, write_file}

  -- Neither an error nor a drift.
  record IsClean (r : Report) : Type 0 where
    no_errors : r.errors ≡ []
    no_drifts : r.drifts ≡ []

  visit-disk : (name : String) (s : Disk) (r : Report) → (visit box true name s r).1 ≡ s
  unfolding visit compare_file
  visit-disk name s r = elim (Result-cases (render box name)) [
    | inr (e, f) ↦ rw (f, visit) refl
    | inl (data', f) ↦ elim (Result-cases (read_file s (out_path name))) [
      | inl (old, g) ↦ rw (f, visit) (rw (g, compare_file) refl)
      | inr (e, g) ↦ rw (f, visit) (rw (g, compare_file) refl)
    ]
  ]

  visit_all-disk :
      (names : List String) (s : Disk) (r : Report) → (visit_all box true names s r).1 ≡ s
  unfolding visit_all
  visit_all-disk [] s r = refl
  visit_all-disk (name ∷ names) s r =
      let (r', s') = visit box true name s r in visit_all-disk names s' r' ∙ visit-disk name s r

  finish-disk :
      (check : Bool) (count : ℕ) (r : Report) (s : Disk) → (finish box check count r s).disk ≡ s
  unfolding finish
  finish-disk check count r s = ground arith

  -- A run with --check writes no file: whatever it finds, it leaves the disk as making the directory
  -- has left it.
  pub check-disk :
      (names : List String) (s : Disk) → (generate_schemas box true names s).disk ≡ (mkdir_all s).1
  unfolding generate_schemas
  check-disk names s = elim (Option-cases (mkdir_all s).0) [
    | inr (e, m) ↦ rw (m, generate_schemas) refl
    | inl m ↦
        let s' = (mkdir_all s).1 in
        let x = visit_all box true names s' (record { errors = []; drifts = []; printed = [] }) in
        rw (m, generate_schemas)
          (finish-disk true (length names) x.0 x.1 ∙ visit_all-disk names s' _)
  ]

  -- A round that reports nothing, and a file that is up to date.
  visit-IsClean :
      (name : String) (s : Disk) (r : Report)
      → IsClean (visit box true name s r).0
      → IsClean r × UpToDate box s name
  unfolding visit compare_file
  visit-IsClean name s r c = elim (Result-cases (render box name)) [
    | inr (e, f) ↦ let h = rw (f, visit) at c.no_errors in absurd (snoc-ne-nil r.errors e h)
    | inl (data', f) ↦ elim (Result-cases (read_file s (out_path name))) [
      | inr (e, g) ↦
          let h = rw (g, compare_file) at (rw (f, visit) at c.no_drifts) in
          absurd (snoc-ne-nil r.drifts _ h)
      | inl (old, g) ↦ elim (Bool-cases (same_bytes data' old)) [
        | inr b ↦
            let h =
              rw (b, compare_file) at (rw (g, compare_file) at (rw (f, visit) at c.no_drifts)) in
            absurd (snoc-ne-nil r.drifts _ h)
        | inl b ↦
            let h = rw (b, compare_file) at (rw (g, compare_file) at (rw (f, visit) at c)) in
            (
              h,
              record {
                text = data';
                generated = f;
                stored = g ∙ ap (λ x. ok x) (sym ((same_bytes_iff data' old).0 b));
              },
            )
      ]
    ]
  ]

  visit-same :
      (name : String) (s : Disk) (r : Report)
      → UpToDate box s name
      → visit box true name s r ≡ (r, s)
  unfolding visit compare_file
  visit-same name s r u =
      rw (u.generated, visit)
        (rw (u.stored, compare_file) (rw ((same_bytes_iff u.text u.text).1 refl) refl))

  visit_all-IsClean :
      (names : List String) (s : Disk) (r : Report)
      → IsClean (visit_all box true names s r).0
      → IsClean r × All (UpToDate box s) names
  unfolding visit_all
  visit_all-IsClean [] s r c = (c, tt)
  visit_all-IsClean (name ∷ names) s r c =
      let (r', s') = visit box true name s r in
      let (clean, rest) = visit_all-IsClean names s' r' c in
      let (clean', here) = visit-IsClean name s r clean in
      (clean', (here, subst (λ t. All (UpToDate box t) names) (visit-disk name s r) rest))

  visit_all-same :
      (names : List String) (s : Disk) (r : Report)
      → All (UpToDate box s) names
      → visit_all box true names s r ≡ (r, s)
  unfolding visit_all
  visit_all-same [] s r u = refl
  visit_all-same (name ∷ names) s r u =
      ap (λ x. visit_all box true names x.1 x.0) (visit-same name s r u.0)
      ∙ visit_all-same names s r u.1

  finish-IsClean :
      (count : ℕ) (r : Report) (s : Disk) → (finish box true count r s).status ≡ 0 → IsClean r
  unfolding finish
  finish-IsClean count r s h = elim (List-cases r.errors) [
    | inr (x, xs, e) ↦ let h' = rw (e, finish) at h in absurd (omega arith)
    | inl e ↦ elim (List-cases r.drifts) [
      | inr (x, xs, d) ↦ let h' = rw (d, finish) at (rw (e, finish) at h) in absurd (omega arith)
      | inl d ↦ record { no_errors = e; no_drifts = d }
    ]
  ]

  -- If the directory can be made, a run with --check exits with 0 exactly when every type of the table
  -- has a file with the text that is generated for it.
  pub check_iff :
      (names : List String) (s : Disk)
      → (mkdir_all s).0 ≡ none
      → ((generate_schemas box true names s).status ≡ 0) ↔ All (UpToDate box (mkdir_all s).1) names
  unfolding generate_schemas finish
  check_iff names s m =
      let s' = (mkdir_all s).1 in
      let r0 : Report = record { errors = []; drifts = []; printed = [] } in
      (
        (λ h.
            let h' = rw (m, generate_schemas) at h in
            (visit_all-IsClean names s' r0 (finish-IsClean (length names) _ _ h')).1),
        (λ u.
            rw (m, generate_schemas)
              (ap (λ x. (finish box true (length names) x.0 x.1).status)
                (visit_all-same names s' r0 u))),
      )

  -- The file of a type is as before after the directory has been made again.
  UpToDate-mkdir_all :
      (lawful : IsLawful box) (names : List String) (s : Disk)
      → IsLawful.HasDir lawful s
      → All (UpToDate box s) names
      → All (UpToDate box (mkdir_all s).1) names
  UpToDate-mkdir_all lawful [] s h u = tt
  UpToDate-mkdir_all lawful (name ∷ names) s h u = (
    record {
      text = u.0.text;
      generated = u.0.generated;
      stored = lawful.read_file-mkdir_all s (out_path name) h ∙ u.0.stored;
    },
    UpToDate-mkdir_all lawful names s h u.1,
  )

  types-distinct : distinct types ≡ true
  types-distinct = refl

  -- A run that exits with 0 without --check leaves a disk on which a run with --check exits with 0.
  pub main_round_trip :
      (s : Disk)
      → IsLawful box
      → (main box false s).status ≡ 0
      → (main box true (main box false s).disk).status ≡ 0
  unfolding main
  main_round_trip s lawful h =
      let (up_to_date, has_dir) = generate_schemas_lem box lawful types s types-distinct h in
      let t = (generate_schemas box false types s).disk in
      (check_iff types t (lawful.mkdir_all-HasDir t has_dir)).1
        (UpToDate-mkdir_all lawful types t has_dir up_to_date)
