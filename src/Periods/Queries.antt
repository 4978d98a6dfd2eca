-- ===== src/Periods/Queries.antt =====
-- Lookups of pds_core/academic_period_queries.py: one period by its id, and its ancestors.
pub mod Ancestors
pub mod Trees
use pds_core.Base.{
  ℕ, zero, suc, Bool, true, false, Option, none, some, List, [], ◌∷◌, Text, Outcome, ok, err, ◌>>=◌,
  ◌>>◌, reraise, length, text_eq, if◌then◌else◌,
}
use pds_core.Dict.{Dict, get}
use pds_core.Periods.{PeriodError, AcademicPeriod, AcademicPeriodCalendar, make_academic_period_ref}
use pds_core.Periods.Calendars.{validate_academic_period_calendar, index_from, index}

pub data QueryError : Type 0 where
  invalid : PeriodError → QueryError
  not_found key_error unending : QueryError

abbrev pub Queried : Type 0 → Type 0
Queried A = Outcome QueryError A

-- The first period with the id.
unfoldable pub find_by_id : Text → List AcademicPeriod → Option AcademicPeriod
find_by_id id [] = none
find_by_id id (p ∷ ps) = if text_eq p.period_id id then some p else find_by_id id ps

unfoldable pub find_academic_period :
    AcademicPeriodCalendar → Text → Queried (Option AcademicPeriod)
unfolding find_by_id
find_academic_period calendar id = do
  c ← reraise invalid (validate_academic_period_calendar calendar)
  r ← reraise invalid (make_academic_period_ref c.school_year id)
  ok (find_by_id r.period_id c.periods)

unfoldable pub required_period : Option AcademicPeriod → Queried AcademicPeriod
required_period none = err not_found
required_period (some p) = ok p

unfoldable pub get_academic_period : AcademicPeriodCalendar → Text → Queried AcademicPeriod
unfolding find_academic_period required_period
get_academic_period calendar id = do found ← find_academic_period calendar id; required_period found

-- The `while` loop. The fuel bounds its rounds; `unending` is no exception of the source.
unfoldable pub climb : ℕ → Dict AcademicPeriod → Option Text → Queried (List AcademicPeriod)
climb fuel by_id none = ok []
climb zero by_id (some parent) = err unending
climb (suc fuel) by_id (some parent) = elim (get parent by_id) [
  | none ↦ err key_error
  | some p ↦ do rest ← climb fuel by_id p.parent_period_id; ok (p ∷ rest)
]

unfoldable pub list_academic_period_ancestors :
    AcademicPeriodCalendar → Text → Queried (List AcademicPeriod)
unfolding get_academic_period climb
list_academic_period_ancestors calendar id = do
  c ← reraise invalid (validate_academic_period_calendar calendar)
  p ← get_academic_period c id
  climb (length (index c)) (index c) p.parent_period_id
