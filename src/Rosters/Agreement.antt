-- ===== src/Rosters/Agreement.antt =====
-- An issue and its invalid column are recorded together.
use pds_core.Base.{
  ℕ, ◌≡◌, refl, inl, inr, Bool, true, false, not, ◌&&◌, Option, none, some, List, [], ◌∷◌, ◌++◌,
  Text, elem, text_eq, strip, Bool-cases, if◌then◌else◌,
}
use pds_core.Dict.{Dict}
use pds_core.Rosters.{
  RosterIssue, blank_required_value, missing_required_field, roster_required_columns, Row, flag,
  value_of, read_field, read_fields, row_value, require_values, is_empty,
}

-- A column is invalid exactly where there is an issue.
abbrev pub Agrees : Row → Type 0
Agrees r = is_empty r.issues ≡ is_empty r.invalid

pub flag-Agrees : (column : Text) (issue : RosterIssue) (r : Row) → Agrees (flag column issue r)
unfolding flag is_empty
flag-Agrees column issue r = ended r.issues
  where
    ended : (is : List RosterIssue) → is_empty (is ++ issue ∷ []) ≡ false
    ended [] = refl
    ended (i ∷ is) = refl

read_field-Agrees :
    (n : ℕ) (column : Text) (o : Option Text) (r : Row)
    → Agrees r
    → Agrees (read_field n column o r)
unfolding read_field
read_field-Agrees n column (some v) r a = a
read_field-Agrees n column none r a = elim (Bool-cases (elem column roster_required_columns)) [
  | inl e ↦ rw e (flag-Agrees column (missing_required_field n column) r)
  | inr e ↦ rw e a
]

pub read_fields-Agrees :
    (n : ℕ) (given : Dict Text) (columns : List Text) (r : Row)
    → Agrees r
    → Agrees (read_fields n given columns r)
unfolding read_fields
read_fields-Agrees n given [] r a = a
read_fields-Agrees n given (raw ∷ columns) r a =
    read_fields-Agrees n given columns _
      (read_field-Agrees n (strip raw) (row_value given raw (strip raw)) r a)

pub require_values-Agrees :
    (n : ℕ) (cs : List Text) (r : Row) → Agrees r → Agrees (require_values n cs r)
unfolding require_values
require_values-Agrees n [] r a = a
require_values-Agrees n (c ∷ cs) r a =
    require_values-Agrees n cs _ (blank (not (elem c r.invalid) && text_eq (value_of c r) []))
  where
    blank : (b : Bool) → Agrees (if b then flag c (blank_required_value n c) r else r)
    blank true = flag-Agrees c (blank_required_value n c) r
    blank false = a
