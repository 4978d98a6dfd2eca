-- ===== src/Rosters/Changes.antt =====
-- The changes of pds_core/rosters.py to a roster in memory: each validates the whole roster again.
pub mod Stored
pub mod Reread
pub mod Revalidated
pub mod Lookups
pub mod Effects
pub mod Kept
use pds_core.Base.{
  ℕ, suc, Bool, true, false, not, Option, none, some, List, [], ◌∷◌, ◌++◌, map, Text, lit, ok, err,
  ◌>>=◌, ◌>>◌, guard, keep, any, elem, text_eq, strip, length, ◌==◌, if◌then◌else◌,
}
use pds_core.Dict.{Dict, get, put, has}
use pds_core.Files.{FilePath}
use pds_core.Rosters.{
  RosterIssue, unsupported_extra_field, inconsistent_roster_class_id, mismatched_class_id,
  unsupported_field, already_present, missing_student_id, final_student, Validated,
  roster_required_columns, StudentRecord, Roster, unless_issues, text_or_empty, is_empty,
  validate_roster_rows,
}

-- `_student_to_csv_row`: the value of one column
unfoldable pub csv_value : StudentRecord → Text → Text
csv_value s column =
    if text_eq column (lit "class_id")
    then s.class_id
    else if text_eq column (lit "student_id")
    then s.student_id
    else if text_eq column (lit "last_name")
    then s.last_name
    else if text_eq column (lit "first_name")
    then s.first_name
    else if text_eq column (lit "period")
    then s.period
    else text_or_empty (get column s.extra_fields)

unfoldable pub student_to_csv_row : List Text → StudentRecord → Dict Text
student_to_csv_row columns s = map (λ c. (c, csv_value s c)) columns

unfoldable pub unsupported_extra_fields : StudentRecord → List Text → List Text
unsupported_extra_fields s columns =
    keep (λ f. not (elem f columns)) (map (λ e. e.0) s.extra_fields)

unfoldable pub extra_issues : ℕ → List Text → List StudentRecord → List RosterIssue
extra_issues n columns [] = []
extra_issues n columns (s ∷ ss) =
    map (unsupported_extra_field n) (unsupported_extra_fields s columns)
    ++ extra_issues (suc n) columns ss

unfoldable pub validate_with_students : Roster → List StudentRecord → Validated Roster
validate_with_students r ss =
    validate_roster_rows r.columns (map (student_to_csv_row r.columns) ss) r.source_path

-- `_validate_roster_instance`
unfoldable pub validate_roster : Roster → Validated Roster
validate_roster r = do
  unless_issues (extra_issues 2 r.columns r.students) tt
  v ← validate_with_students r r.students
  guard (text_eq v.class_id r.class_id) (inconsistent_roster_class_id r.class_id ∷ [])
  ok v

-- `_validate_mutation_student`
unfoldable pub validate_student : Roster → StudentRecord → Validated (Unit {0})
validate_student r s = do
  guard (text_eq s.class_id r.class_id) (mismatched_class_id s.class_id ∷ [])
  guard (is_empty (unsupported_extra_fields s r.columns)) (unsupported_field s.student_id ∷ [])

unfoldable pub is_student : Text → StudentRecord → Bool
is_student id s = text_eq s.student_id id

unfoldable pub add_student_record : Roster → StudentRecord → Validated Roster
add_student_record roster s = do
  r ← validate_roster roster
  validate_student r s
  guard (not (any (is_student s.student_id) r.students)) (already_present s.student_id ∷ [])
  validate_with_students r (r.students ++ s ∷ [])

unfoldable pub replace_student : StudentRecord → List StudentRecord → List StudentRecord
replace_student s [] = []
replace_student s (t ∷ ts) =
    let rest = replace_student s ts in if is_student s.student_id t then s ∷ rest else t ∷ rest

unfoldable pub replace_student_record : Roster → StudentRecord → Validated Roster
replace_student_record roster s = do
  r ← validate_roster roster
  validate_student r s
  guard (any (is_student s.student_id) r.students) (missing_student_id s.student_id ∷ [])
  validate_with_students r (replace_student s r.students)

unfoldable pub upsert_student_record : Roster → StudentRecord → Validated Roster
upsert_student_record roster s = do
  r ← validate_roster roster
  validate_student r s
  let replaced = any (is_student s.student_id) r.students
  validate_with_students r
      (if replaced then replace_student s r.students else replace_student s r.students ++ s ∷ [])

unfoldable pub remove_student_record : Roster → Text → Validated Roster
remove_student_record roster id = do
  r ← validate_roster roster
  let students = keep (λ s. not (is_student id s)) r.students
  guard (not (length students == length r.students)) (missing_student_id id ∷ [])
  guard (not (is_empty students)) (final_student id ∷ [])
  validate_with_students r students
