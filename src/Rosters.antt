-- ===== src/Rosters.antt =====
-- pds_core/rosters.py: the rows of a roster are validated together, and every issue is reported. Cells are
-- texts. CSV files are read and written outside this model.
pub mod Agreement
pub mod Checks
pub mod Rows
pub mod Accepted
pub mod Changes
pub mod Creation
use pds_core.Base.{
  ℕ, zero, suc, Bool, true, false, not, ◌&&◌, ◌||◌, Option, none, some, List, [], ◌∷◌, ◌++◌, map,
  Text, lit, Outcome, ok, err, ◌>>=◌, ◌>>◌, guard, keep, any, elem, text_eq, strip, if◌then◌else◌,
}
use pds_core.Json.{str}
use pds_core.Dict.{Dict, get, put}
use pds_core.Files.{FilePath}
use pds_core.Identifiers.{IdentifierError, validate_identifier}

-- The row numbers are those of a CSV file, whose header is row 1.
pub data RosterIssue : Type 0 where
  blank_header : RosterIssue
  duplicate_header missing_required_column : Text → RosterIssue
  empty_roster : RosterIssue
  missing_required_field blank_required_value : ℕ → Text → RosterIssue
  invalid_class_id inconsistent_class_id invalid_student_id duplicate_student_id :
      ℕ → Text → RosterIssue
  unsupported_extra_field : ℕ → Text → RosterIssue
  inconsistent_roster_class_id mismatched_class_id : Text → RosterIssue
  unsupported_field : Text → RosterIssue
  already_present missing_student_id final_student : Text → RosterIssue

abbrev pub Validated : Type 0 → Type 0
Validated A = Outcome (List RosterIssue) A

abbrev pub roster_required_columns : List Text
roster_required_columns =
    lit "class_id" ∷ lit "student_id" ∷ lit "last_name" ∷ lit "first_name" ∷ lit "period" ∷ []

pub record StudentRecord : Type 0 where
  pub class_id : Text
  pub student_id : Text
  pub last_name : Text
  pub first_name : Text
  pub period : Text
  pub extra_fields : Dict Text

pub record Roster : Type 0 where
  pub class_id : Text
  pub students : List StudentRecord
  pub columns : List Text
  pub source_path : Option FilePath

unfoldable pub missing_columns : List Text → List Text → List RosterIssue
missing_columns seen [] = []
missing_columns seen (c ∷ cs) =
    let rest = missing_columns seen cs in
    if elem c seen then rest else missing_required_column c ∷ rest

unfoldable pub header_issues : List Text → List Text → List RosterIssue
header_issues seen [] = missing_columns seen roster_required_columns
header_issues seen (c ∷ cs) =
    let rest = header_issues (strip c ∷ seen) cs in
    if text_eq (strip c) []
    then blank_header ∷ rest
    else if elem (strip c) seen
    then duplicate_header (strip c) ∷ rest
    else rest

-- Raises where there is an issue.
unfoldable pub unless_issues : {A : Type 0} → List RosterIssue → A → Validated A
unless_issues [] a = ok a
unless_issues (i ∷ is) a = err (i ∷ is)

unfoldable pub validate_columns : List Text → Validated (List Text)
validate_columns columns = unless_issues (header_issues [] columns) (map strip columns)

-- What is known of a row: the values, and the columns that are invalid, with their issues.
pub record Row : Type 0 where
  pub values : Dict Text
  pub invalid : List Text
  pub issues : List RosterIssue

unfoldable pub flag : Text → RosterIssue → Row → Row
flag column issue r = record r { invalid = column ∷ r.invalid; issues = r.issues ++ issue ∷ [] }

-- `values.get(column, "")`
unfoldable pub text_or_empty : Option Text → Text
text_or_empty none = []
text_or_empty (some s) = s

unfoldable pub value_of : Text → Row → Text
value_of column r = text_or_empty (get column r.values)

unfoldable pub first_of : Option Text → Bool → Option Text → Option Text
first_of (some v) other o = some v
first_of none true o = o
first_of none false o = none

-- `_row_value`
unfoldable pub row_value : Dict Text → Text → Text → Option Text
row_value given raw column = first_of (get raw given) (not (text_eq column raw)) (get column given)

unfoldable pub read_field : ℕ → Text → Option Text → Row → Row
read_field n column (some v) r = record r { values = put column (strip v) r.values }
read_field n column none r =
    if elem column roster_required_columns
    then flag column (missing_required_field n column) r
    else record r { values = put column [] r.values }

unfoldable pub read_fields : ℕ → Dict Text → List Text → Row → Row
read_fields n given [] r = r
read_fields n given (raw ∷ columns) r =
    read_fields n given columns (read_field n (strip raw) (row_value given raw (strip raw)) r)

unfoldable pub require_values : ℕ → List Text → Row → Row
require_values n [] r = r
require_values n (c ∷ cs) r = require_values n cs (
    if not (elem c r.invalid) && text_eq (value_of c r) []
    then flag c (blank_required_value n c) r
    else r)

unfoldable pub class_of :
    ℕ → Option Text → Text → Row → Outcome IdentifierError Text → Option Text × Row
class_of n expected c r (err e) = (expected, flag (lit "class_id") (invalid_class_id n c) r)
class_of n none c r (ok s) = (some c, r)
class_of n (some x) c r (ok s) =
    if text_eq c x
    then (some x, r)
    else (some x, flag (lit "class_id") (inconsistent_class_id n c) r)

unfoldable pub check_class : ℕ → Option Text → Row → Option Text × Row
check_class n expected r =
    if not (text_eq (value_of (lit "class_id") r) []) && not (elem (lit "class_id") r.invalid)
    then class_of n expected (value_of (lit "class_id") r) r
        (validate_identifier "class_id" (str (value_of (lit "class_id") r)))
    else (expected, r)

unfoldable pub student_of :
    ℕ → List Text → Text → Row → Outcome IdentifierError Text → List Text × Row
student_of n seen s r (err e) = (seen, flag (lit "student_id") (invalid_student_id n s) r)
student_of n seen s r (ok t) =
    (s ∷ seen, if elem s seen then flag (lit "student_id") (duplicate_student_id n s) r else r)

unfoldable pub check_student : ℕ → List Text → Row → List Text × Row
check_student n seen r =
    if not (text_eq (value_of (lit "student_id") r) []) && not (elem (lit "student_id") r.invalid)
    then student_of n seen (value_of (lit "student_id") r) r
        (validate_identifier "student_id" (str (value_of (lit "student_id") r)))
    else (seen, r)

unfoldable pub extra_fields_of : List Text → Row → Dict Text
extra_fields_of columns r =
    map (λ c. (c, value_of c r)) (keep (λ c. not (elem c roster_required_columns)) columns)

unfoldable pub student_record : List Text → Row → StudentRecord
student_record columns r = record {
  class_id = value_of (lit "class_id") r;
  student_id = value_of (lit "student_id") r;
  last_name = value_of (lit "last_name") r;
  first_name = value_of (lit "first_name") r;
  period = value_of (lit "period") r;
  extra_fields = extra_fields_of columns r;
}

-- What the rows give: their students and issues, and the class id of the first row that has one.
pub record Reading : Type 0 where
  pub students : List StudentRecord
  pub expected : Option Text
  pub issues : List RosterIssue

unfoldable pub is_empty : {A : Type 0} → List A → Bool
is_empty [] = true
is_empty (x ∷ xs) = false

unfoldable pub add_row : List Text → Row → Reading → Reading
add_row columns r rest = record rest {
  students = if is_empty r.invalid then student_record columns r ∷ rest.students else rest.students;
  issues = r.issues ++ rest.issues;
}

abbrev pub blank_row : Row
blank_row = record { values = []; invalid = []; issues = [] }

-- The values of a row, before its ids are compared with those of the rows before it.
unfoldable pub read_row : ℕ → List Text → Dict Text → Row
read_row n columns given =
    require_values n roster_required_columns (read_fields n given columns blank_row)

unfoldable pub read_rows : ℕ → List Text → Option Text → List Text → List (Dict Text) → Reading
read_rows n columns expected seen [] = record { students = []; expected = expected; issues = [] }
read_rows n columns expected seen (given ∷ rows) =
    let classed : Option Text × Row = check_class n expected (read_row n columns given) in
    let known : List Text × Row = check_student n seen classed.1 in
    add_row (map strip columns) known.1 (read_rows (suc n) columns classed.0 known.0 rows)

unfoldable pub roster_of :
    List Text → Option FilePath → List StudentRecord → Option Text → Validated Roster
roster_of columns source students none = err (empty_roster ∷ [])
roster_of columns source students (some c) =
    ok (record { class_id = c; students = students; columns = columns; source_path = source })

unfoldable pub validate_roster_rows :
    List Text → List (Dict Text) → Option FilePath → Validated Roster
validate_roster_rows columns rows source = do
  normalized ← validate_columns columns
  guard (not (is_empty rows)) (empty_roster ∷ [])
  let reading = read_rows 2 columns none [] rows
  unless_issues reading.issues tt
  roster_of normalized source reading.students reading.expected
