-- ===== src/Examples/Classes.antt =====
-- A class of two students.
use pds_core.Dict.{put, get}
use pds_core.Identifiers.{validate_identifier, identifier_match}
use pds_core.Rosters.{
  add_row, unless_issues, first_of, student_of, class_of, header_issues, read_rows, roster_of,
  is_empty, missing_columns, read_field, text_or_empty, require_values, student_record,
  validate_columns, check_student, row_value, read_row, value_of, extra_fields_of, read_fields,
  check_class, flag,
}
use pds_core.Rosters.Changes.{
  validate_student, is_student, replace_student_record, unsupported_extra_fields,
  add_student_record, validate_with_students, replace_student, upsert_student_record, extra_issues,
  remove_student_record, csv_value, student_to_csv_row,
}
use pds_core.Base.{
  ◌≡◌, refl, none, List, [], ◌∷◌, map, length, Text, lit, ok, err, strip, text_eq, lower,
}
use pds_core.Dict.{Dict}
use pds_core.Rosters.{
  StudentRecord, Roster, validate_roster_rows, roster_required_columns, duplicate_student_id,
}
use pds_core.Rosters.Accepted.{IsRoster, validate_roster_rows-IsRoster}
use pds_core.Rosters.Changes.{validate_roster}
use pds_core.Rosters.Changes.Kept.{add, change, Changed, change-IsRoster}

running : Unit {0}
unfolding text_eq strip lower get put validate_identifier identifier_match missing_columns
    header_issues unless_issues validate_columns flag text_or_empty value_of first_of row_value
    read_field read_fields require_values class_of check_class student_of check_student
    extra_fields_of student_record is_empty add_row read_row read_rows roster_of
    validate_roster_rows csv_value student_to_csv_row unsupported_extra_fields extra_issues
    validate_with_students validate_roster validate_student is_student add_student_record
    replace_student replace_student_record upsert_student_record remove_student_record change
running = tt

abbrev student : Text → StudentRecord
student id = record {
  class_id = lit "c1";
  student_id = id;
  last_name = lit "Last";
  first_name = lit "First";
  period = lit "1";
  extra_fields = [];
}

abbrev row : Text → Dict Text
row id =
    (lit "class_id", lit "c1")
    ∷ (lit "student_id", id)
    ∷ (lit "last_name", lit "Last")
    ∷ (lit "first_name", lit " First ")
    ∷ (lit "period", lit "1")
    ∷ []

abbrev roster : List StudentRecord → Roster
roster ss = record {
  class_id = lit "c1";
  students = ss;
  columns = roster_required_columns;
  source_path = none;
}

read :
    validate_roster_rows roster_required_columns (row (lit "s1") ∷ []) none
    ≡ ok (roster (student (lit "s1") ∷ []))
unfolding running
read = refl

validate_roster_rows-IsRoster_example :
    IsRoster (roster (student (lit "s1") ∷ []))
    × (length (student (lit "s1") ∷ []) ≡ length (row (lit "s1") ∷ []))
    × (roster_required_columns ≡ map strip roster_required_columns)
validate_roster_rows-IsRoster_example =
    validate_roster_rows-IsRoster roster_required_columns (row (lit "s1") ∷ []) none
      (roster (student (lit "s1") ∷ [])) read

-- The same student twice is an issue of the second row.
twice :
    validate_roster_rows roster_required_columns (row (lit "s1") ∷ row (lit "s1") ∷ []) none
    ≡ err (duplicate_student_id 3 (lit "s1") ∷ [])
unfolding running
twice = refl

added :
    change (add (student (lit "s2"))) (roster (student (lit "s1") ∷ []))
    ≡ ok (roster (student (lit "s1") ∷ student (lit "s2") ∷ []))
unfolding running
added = refl

change-IsRoster_example :
    (v : Roster) × (validate_roster (roster (student (lit "s1") ∷ [])) ≡ ok v)
    × (IsRoster (roster (student (lit "s1") ∷ student (lit "s2") ∷ []))
        × (roster_required_columns ≡ v.columns)
        × Changed
            (add (student (lit "s2")))
            v
            (roster (student (lit "s1") ∷ student (lit "s2") ∷ [])))
change-IsRoster_example =
    change-IsRoster (add (student (lit "s2"))) (roster (student (lit "s1") ∷ []))
      (roster (student (lit "s1") ∷ student (lit "s2") ∷ [])) added
