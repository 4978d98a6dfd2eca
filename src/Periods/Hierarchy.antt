-- ===== src/Periods/Hierarchy.antt =====
-- `validate_academic_period_hierarchy` and `_validate_no_cycles` of pds_core/academic_periods.py.
pub mod Graph
pub mod Walks
pub mod Ends
pub mod Collected
pub mod Accepted
pub mod Complete
use pds_core.Base.{
  ℕ, zero, suc, ◌+◌, Bool, true, false, not, ◌&&◌, ◌||◌, Option, none, some, List, [], ◌∷◌, ◌++◌,
  map, Text, Outcome, ok, err, ◌>>=◌, ◌>>◌, guard, each, elem, any, length, ◌==◌, text_eq, text_ltb,
  sort_by, if◌then◌else◌,
}
use pds_core.Json.{ℤ, int_eq, key_error}
use pds_core.Dict.{Dict, get, put, has}
use pds_core.Time.{date_ltb}
use pds_core.SchoolYears.{school_year_match}
use pds_core.Periods.{
  PeriodError, mapping, duplicate_period, outside_school_year, own_parent, missing_parent,
  outside_parent, duplicate_sequence, cycle, unending, Checked, AcademicPeriod,
  validate_academic_period, period_school_year,
}

-- Runs a check on each item; the first exception ends the loop.
unfoldable pub check_each {ℓ} :
    {A : Type ℓ} → (A → Checked (Unit {0})) → List A → Checked (Unit {0})
check_each f [] = ok tt
check_each f (x ∷ xs) = f x >> check_each f xs

unfoldable pub collect : Dict AcademicPeriod → List AcademicPeriod → Checked (Dict AcademicPeriod)
collect by_id [] = ok by_id
collect by_id (p ∷ rest) = do
  guard (not (has p.period_id by_id)) duplicate_period
  collect (put p.period_id p by_id) rest

-- `{int(start), int(end)}`; the match has succeeded when the year was validated.
unfoldable pub in_school_year : Text → ℕ → Bool
in_school_year year y = elim (school_year_match year) [
  | none ↦ false
  | some (start, last) ↦ y == start || y == last
]

unfoldable pub check_parent :
    Dict AcademicPeriod → AcademicPeriod → Option Text → Checked (Unit {0})
check_parent by_id p none = ok tt
check_parent by_id p (some parent) = do
  guard (not (text_eq parent p.period_id)) own_parent
  guard (has parent by_id) missing_parent

unfoldable pub check_period : Text → Dict AcademicPeriod → AcademicPeriod → Checked (Unit {0})
check_period year by_id p = do
  guard (in_school_year year p.start_date.year) outside_school_year
  guard (in_school_year year p.end_date.year) outside_school_year
  check_parent by_id p p.parent_period_id

-- The `while` loop: the path from `current` up to a root or to an id that is complete. The path is
-- kept from its last id back. The fuel bounds its length; `unending` is no exception of the source.
unfoldable pub walk :
    ℕ → Dict AcademicPeriod → (complete path : List Text) → Option Text → Checked (List Text)
walk fuel by_id complete path none = ok path
walk zero by_id complete path (some id) = err unending
walk (suc fuel) by_id complete path (some id) =
    if elem id complete then ok path else if elem id path then err cycle else elim (get id by_id) [
      | none ↦ err (mapping key_error)
      | some p ↦ walk fuel by_id complete (id ∷ path) p.parent_period_id
    ]

-- One round of the `for` loop: the path that is added to the complete ids.
unfoldable pub start_path :
    ℕ → Dict AcademicPeriod → (complete : List Text) (start : Text) → Checked (List Text)
start_path fuel by_id complete start =
    if elem start complete then ok [] else walk fuel by_id complete [] (some start)

-- The `for` loop over the start ids; it returns the complete ids.
unfoldable pub walk_each :
    ℕ → Dict AcademicPeriod → (complete starts : List Text) → Checked (List Text)
walk_each fuel by_id complete [] = ok complete
walk_each fuel by_id complete (start ∷ rest) = do
  path ← start_path fuel by_id complete start
  walk_each fuel by_id (path ++ complete) rest

abbrev pub ids : Dict AcademicPeriod → List Text
ids = map (λ e. e.0)

unfoldable pub validate_no_cycles : Dict AcademicPeriod → Checked (Unit {0})
validate_no_cycles by_id = do
  walk_each (suc (length by_id)) by_id [] (sort_by text_ltb (ids by_id))
  ok tt

unfoldable pub option_eq : Option Text → Option Text → Bool
option_eq none none = true
option_eq (some s) (some t) = text_eq s t
option_eq _ _ = false

-- The entries of `sibling_sequences`: a parent and a sequence each.
abbrev pub Siblings : Type 0
Siblings = List (Option Text × ℤ)

unfoldable pub seen : Option Text → ℤ → Siblings → Bool
unfolding option_eq
seen parent n = any (λ e. option_eq parent e.0 && int_eq n e.1)

unfoldable pub contained : Dict AcademicPeriod → AcademicPeriod → Option Text → Checked (Unit {0})
contained by_id p none = ok tt
contained by_id p (some id) = elim (get id by_id) [
  | none ↦ err (mapping key_error)
  | some parent ↦
      guard (not (date_ltb p.start_date parent.start_date || date_ltb parent.end_date p.end_date))
        outside_parent
]

unfoldable pub check_siblings :
    Dict AcademicPeriod → Siblings → List AcademicPeriod → Checked (Unit {0})
check_siblings by_id met [] = ok tt
check_siblings by_id met (p ∷ rest) = do
  contained by_id p p.parent_period_id
  guard (not (seen p.parent_period_id p.sequence met)) duplicate_sequence
  check_siblings by_id ((p.parent_period_id, p.sequence) ∷ met) rest

abbrev pub id_ltb : AcademicPeriod → AcademicPeriod → Bool
id_ltb p q = text_ltb p.period_id q.period_id

unfoldable pub validate_academic_period_hierarchy :
    Text → List AcademicPeriod → Checked (List AcademicPeriod)
validate_academic_period_hierarchy school_year periods = do
  year ← period_school_year school_year
  collected ← each validate_academic_period periods
  by_id ← collect [] collected
  check_each (check_period year by_id) collected
  validate_no_cycles by_id
  check_siblings by_id [] collected
  ok (sort_by id_ltb collected)
