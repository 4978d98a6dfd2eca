-- ===== src/Rosters/Changes/Revalidated.antt =====
-- The students of a roster that was validated, and of one that is validated again with other students.
use mathlib.Core.Path.{subst}
use pds_core.Base.{
  ℕ, suc, ◌≡◌, refl, sym, ◌∙◌, ap, inl, inr, true, not, Option, none, List, [], ◌∷◌, map, Text, ok,
  strip, strip_idem, In, >>=-eq-ok, >>-guard-inv, text_eq, ok-inj,
}
use pds_core.Dict.{Dict, get}
use pds_core.Files.{FilePath}
use pds_core.Rosters.{
  empty_roster, StudentRecord, Roster, Row, Reading, value_of, text_or_empty, read_fields,
  roster_required_columns, blank_row, read_row, read_rows, add_row, student_record, is_empty,
  check_class, check_student, validate_columns, unless_issues, validate_roster_rows,
  inconsistent_roster_class_id,
}
use pds_core.Rosters.Checks.{valid-IsValidRow, checked-Agrees, require_values-kept}
use pds_core.Rosters.Rows.{empty-append, and_iff}
use pds_core.Rosters.Accepted.{
  IsRoster, validate_roster_rows-IsRoster, unless_issues-inv, roster_of-inv,
}
use pds_core.Rosters.Changes.{
  student_to_csv_row, validate_with_students, validate_roster, extra_issues,
}
use pds_core.Rosters.Changes.Stored.{stored, student_record-stored, read_fields-IsStripped}
use pds_core.Rosters.Changes.Reread.{IsHeader, student_record-csv}

-- A valid row holds the values of its cells.
checked_row :
    (n : ℕ) (columns : List Text) (expected : Option Text) (seen : List Text) (given : Dict Text)
    → is_empty
        (check_student n seen (check_class n expected (read_row n columns given)).1).1.invalid
      ≡ true
    → (check_student n seen (check_class n expected (read_row n columns given)).1).1
      ≡ read_fields n given columns blank_row
unfolding read_row
checked_row n columns expected seen given h =
    let v = valid-IsValidRow n columns expected seen given h in
    let same = v.known.same ∙ v.classed.same in
    let (kept, _) =
      require_values-kept n roster_required_columns (read_fields n given columns blank_row)
        (sym (ap (λ (r : Row). is_empty r.invalid) same) ∙ h) in
    same ∙ kept

-- Rows without an issue: the students are those of their cells.
read_rows-each :
    (n : ℕ) (columns : List Text) (expected : Option Text) (seen : List Text) (given : Dict Text)
    (rows : List (Dict Text))
    → is_empty (read_rows n columns expected seen (given ∷ rows)).issues ≡ true
    → (e : Option Text) × (k : List Text) × (is_empty (read_rows (suc n) columns e k rows).issues
        ≡ true)
      × ((read_rows n columns expected seen (given ∷ rows)).students
          ≡ student_record (map strip columns) (read_fields n given columns blank_row)
            ∷ (read_rows (suc n) columns e k rows).students)
unfolding read_rows add_row
read_rows-each n columns expected seen given rows h =
    let classed : Option Text × Row = check_class n expected (read_row n columns given) in
    let known : List Text × Row = check_student n seen classed.1 in
    let rest : Reading = read_rows (suc n) columns classed.0 known.0 rows in
    let both = sym (empty-append known.1.issues rest.issues) ∙ h in
    let valid : is_empty known.1.invalid ≡ true =
      sym (checked-Agrees n columns expected seen given) ∙ (and_iff _ _ both).0 in
    let row = checked_row n columns expected seen given valid in
    (
      classed.0,
      known.0,
      (and_iff _ _ both).1,
      rw valid (ap (λ x. student_record (map strip columns) x ∷ rest.students) row),
    )

read_rows-stored :
    (n : ℕ) (columns : List Text) (expected : Option Text) (seen : List Text)
    (rows : List (Dict Text))
    → is_empty (read_rows n columns expected seen rows).issues ≡ true
    → (s : StudentRecord) → In s (read_rows n columns expected seen rows).students
    → stored (map strip columns) s ≡ s
unfolding read_rows value_of strip text_or_empty get
read_rows-stored n columns expected seen [] h s i = absurd i
read_rows-stored n columns expected seen (given ∷ rows) h s i =
    let (e, k, clean, students) = read_rows-each n columns expected seen given rows h in
    elim (subst (In s) students i) [
      | inl same ↦
          subst (λ x. stored (map strip columns) x ≡ x) (sym same)
            (student_record-stored (map strip columns) (read_fields n given columns blank_row)
              (read_fields-IsStripped n given columns blank_row (λ c. refl)))
      | inr j ↦ read_rows-stored (suc n) columns e k rows clean s j
    ]

map-clean : (cs : List Text) → ((c : Text) → In c cs → strip c ≡ c) → map strip cs ≡ cs
map-clean [] h = refl
map-clean (c ∷ cs) h = rw (h c (inl refl), map-clean cs (λ d i. h d (inr i))) refl

map-IsClean : (cs : List Text) (c : Text) → In c (map strip cs) → strip c ≡ c
map-IsClean [] c i = absurd i
map-IsClean (d ∷ cs) c (inl e) = ap strip e ∙ strip_idem d ∙ sym e
map-IsClean (d ∷ cs) c (inr i) = map-IsClean cs c i

read_rows-csv :
    (n : ℕ) (columns : List Text) (expected : Option Text) (seen : List Text)
    (ss : List StudentRecord)
    → IsHeader columns
    → is_empty (read_rows n columns expected seen (map (student_to_csv_row columns) ss)).issues
      ≡ true
    → (read_rows n columns expected seen (map (student_to_csv_row columns) ss)).students
      ≡ map (stored columns) ss
unfolding read_rows
read_rows-csv n columns expected seen [] v h = refl
read_rows-csv n columns expected seen (s ∷ ss) v h =
    let (e, k, clean, students) =
      read_rows-each n columns expected seen (student_to_csv_row columns s)
        (map (student_to_csv_row columns) ss) h in
    let first =
      ap (λ cs. student_record cs (read_fields n (student_to_csv_row columns s) columns blank_row))
        (map-clean columns v.clean)
      ∙ student_record-csv n columns s v in
    students
    ∙ ap (λ x. x ∷ (read_rows (suc n) columns e k (map (student_to_csv_row columns) ss)).students)
        first
    ∙ ap (λ l. stored columns s ∷ l) (read_rows-csv (suc n) columns e k ss v clean)

-- An accepted roster has the students of its rows, which have no issue.
validate_roster_rows-inv :
    (columns : List Text) (rows : List (Dict Text)) (source : Option FilePath) (r : Roster)
    → validate_roster_rows columns rows source ≡ ok r
    → (is_empty (read_rows 2 columns none [] rows).issues ≡ true)
      × (r.students ≡ (read_rows 2 columns none [] rows).students)
unfolding validate_roster_rows
validate_roster_rows-inv columns rows source r h =
    let (normalized, _, h1) = >>=-eq-ok (validate_columns columns) _ h in
    let (_, h2) = >>-guard-inv (not (is_empty rows)) (empty_roster ∷ []) _ h1 in
    let reading : Reading = read_rows 2 columns none [] rows in
    let (u, clean, h3) = >>=-eq-ok (unless_issues reading.issues tt) _ h2 in
    let (no_issue, _) = unless_issues-inv reading.issues tt u clean in
    let (_, _, made) = roster_of-inv normalized source reading.students reading.expected r h3 in
    (no_issue, ap (λ (x : Roster). x.students) (sym made))

-- A roster whose columns and students are stripped, with a cell for every column.
pub record IsStored (v : Roster) : Type 0 where
  pub header : IsHeader v.columns
  pub fixed : (s : StudentRecord) → In s v.students → stored v.columns s ≡ s

pub validate_roster-IsStored : (roster v : Roster) → validate_roster roster ≡ ok v → IsStored v
unfolding validate_roster validate_with_students
validate_roster-IsStored roster v h =
    let (_, _, h1) =
      >>=-eq-ok (unless_issues (extra_issues 2 roster.columns roster.students) tt) _ h in
    let rows : List (Dict Text) = map (student_to_csv_row roster.columns) roster.students in
    let (w, read, h2) =
      >>=-eq-ok (validate_roster_rows roster.columns rows roster.source_path) _ h1 in
    let (_, h3) =
      >>-guard-inv (text_eq w.class_id roster.class_id)
        (inconsistent_roster_class_id roster.class_id ∷ []) _ h2 in
    let (valid, _, columns) =
      validate_roster_rows-IsRoster roster.columns rows roster.source_path w read in
    let (clean, students) =
      validate_roster_rows-inv roster.columns rows roster.source_path w read in
    subst IsStored (ok-inj h3) (record {
      header = record {
        clean = λ c i. map-IsClean roster.columns c (subst (In c) columns i);
        required = valid.required;
      };
      fixed = λ s i.
          ap (λ cs. stored cs s) columns
          ∙ read_rows-stored 2 roster.columns none [] rows clean s (subst (In s) students i);
    })

-- Other students in a valid roster: they are kept in their order, with stripped values.
pub validate_with_students-stored :
    (v : Roster) (ss : List StudentRecord) (r : Roster)
    → IsHeader v.columns
    → validate_with_students v ss ≡ ok r
    → IsRoster r × (r.columns ≡ v.columns) × (r.students ≡ map (stored v.columns) ss)
unfolding validate_with_students
validate_with_students-stored v ss r header h =
    let rows : List (Dict Text) = map (student_to_csv_row v.columns) ss in
    let (valid, _, columns) = validate_roster_rows-IsRoster v.columns rows v.source_path r h in
    let (clean, students) = validate_roster_rows-inv v.columns rows v.source_path r h in
    (
      valid,
      columns ∙ map-clean v.columns header.clean,
      students ∙ read_rows-csv 2 v.columns none [] ss header clean,
    )
