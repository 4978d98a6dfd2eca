-- ===== src/Rosters/Creation.antt =====
-- The creation of a roster and the names for display of pds_core/rosters.py.
use pds_core.Base.{
  ◌||◌, Option, none, some, List, [], ◌∷◌, ◌++◌, map, Text, lit, elem, text_eq, strip,
  if◌then◌else◌,
}
use pds_core.Dict.{Dict, get, put, has}
use pds_core.Files.{FilePath}
use pds_core.Rosters.{
  Validated, roster_required_columns, StudentRecord, Roster, text_or_empty, validate_roster_rows,
}

unfoldable pub add_column : Text → List Text → List Text
add_column column columns =
    if text_eq column (lit "class_id") || elem column columns
    then columns
    else columns ++ column ∷ []

unfoldable pub add_columns : Dict Text → List Text → List Text
add_columns [] columns = columns
add_columns ((key, v) ∷ student) columns = add_columns student (add_column (strip key) columns)

unfoldable pub infer_columns : List (Dict Text) → List Text → List Text
infer_columns [] columns = columns
infer_columns (student ∷ students) columns = infer_columns students (add_columns student columns)

-- `row.setdefault(key.strip(), value)`, for each item
unfoldable pub strip_keys : Dict Text → Dict Text → Dict Text
strip_keys [] row = row
strip_keys ((key, v) ∷ student) row =
    strip_keys student (if has (strip key) row then row else put (strip key) v row)

unfoldable pub created_row : Text → Dict Text → Dict Text
created_row class_id student = put (lit "class_id") class_id (strip_keys student [])

unfoldable pub columns_or_inferred : Option (List Text) → List (Dict Text) → List Text
columns_or_inferred none students = infer_columns students roster_required_columns
columns_or_inferred (some columns) students = columns

unfoldable pub create_roster :
    Text → List (Dict Text) → Option (List Text) → Option FilePath → Validated Roster
create_roster class_id students columns source =
    validate_roster_rows (columns_or_inferred columns students)
      (map (created_row class_id) students) source

unfoldable pub preferred_or : Text → Text → Text
preferred_or [] first_name = first_name
preferred_or (c ∷ s) first_name = c ∷ s

unfoldable pub student_display_name : StudentRecord → Text
student_display_name s =
    preferred_or (strip (text_or_empty (get (lit "preferred_name") s.extra_fields))) s.first_name
    ++ (lit " " ++ s.last_name)

unfoldable pub student_sort_name : StudentRecord → Text
student_sort_name s = s.last_name ++ (lit ", " ++ s.first_name)

unfoldable pub lookup_from : Dict StudentRecord → List StudentRecord → Dict StudentRecord
lookup_from d [] = d
lookup_from d (s ∷ ss) = lookup_from (put s.student_id s d) ss

unfoldable pub student_lookup : Roster → Dict StudentRecord
student_lookup r = lookup_from [] r.students
