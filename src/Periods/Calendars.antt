-- ===== src/Periods/Calendars.antt =====
-- The calendar revisions of pds_core/academic_periods.py and the transitions between them.
pub mod Transitions
pub mod Accepted
use pds_core.Base.{
  Bool, true, false, not, Option, none, some, List, [], ◌∷◌, Text, lit, Outcome, ok, err, ◌>>=◌,
  ◌>>◌, guard, all, text_eq,
}
use pds_core.Json.{ℤ, int_ltb, key_error}
use pds_core.Dict.{Dict, get, put, has}
use pds_core.Time.{DateTime, is_aware, before, same_instant}
use pds_core.Periods.{
  PeriodError, mapping, naive, bad_schema_version, bad_record_type, updated_before_created,
  not_positive, other_school_year, stale_revision, created_at_changed, updated_earlier,
  removed_period, type_changed, Checked, AcademicPeriod, AcademicPeriodCalendar, is_positive,
  period_school_year,
}
use pds_core.Periods.Hierarchy.{check_each, validate_academic_period_hierarchy}

abbrev pub calendar_record_type : Text
calendar_record_type = lit "academic_period_calendar"

-- The constructor call with its `__post_init__`, on the fields of a calendar.
unfoldable pub validate_academic_period_calendar :
    AcademicPeriodCalendar → Checked AcademicPeriodCalendar
validate_academic_period_calendar c = do
  guard (text_eq c.schema_version (lit "1")) bad_schema_version
  guard (text_eq c.record_type calendar_record_type) bad_record_type
  year ← period_school_year c.school_year
  guard (is_positive c.calendar_revision) not_positive
  guard (is_aware c.created_at) naive
  guard (is_aware c.updated_at) naive
  guard (not (before c.updated_at c.created_at)) updated_before_created
  periods ← validate_academic_period_hierarchy year c.periods
  ok (record c { school_year = year; periods = periods })

-- `{period.period_id: period for period in periods}`
unfoldable pub index_from : Dict AcademicPeriod → List AcademicPeriod → Dict AcademicPeriod
index_from d [] = d
index_from d (p ∷ ps) = index_from (put p.period_id p d) ps

abbrev pub index : AcademicPeriodCalendar → Dict AcademicPeriod
index c = index_from [] c.periods

unfoldable pub keeps_id : Dict AcademicPeriod → Text × AcademicPeriod → Checked (Unit {0})
keeps_id candidate (id, p) = guard (has id candidate) removed_period

unfoldable pub keeps_type : Dict AcademicPeriod → Text × AcademicPeriod → Checked (Unit {0})
keeps_type candidate (id, p) = elim (get id candidate) [
  | none ↦ err (mapping key_error)
  | some q ↦ guard (text_eq q.period_type p.period_type) type_changed
]

-- The tests of the transition on two calendars that are validated.
unfoldable pub check_transition :
    (previous candidate : AcademicPeriodCalendar) → Checked AcademicPeriodCalendar
check_transition previous candidate = do
  guard (text_eq candidate.school_year previous.school_year) other_school_year
  guard (int_ltb previous.calendar_revision candidate.calendar_revision) stale_revision
  guard (same_instant candidate.created_at previous.created_at) created_at_changed
  guard (not (before candidate.updated_at previous.updated_at)) updated_earlier
  check_each (keeps_id (index candidate)) (index previous)
  check_each (keeps_type (index candidate)) (index previous)
  ok candidate

unfoldable pub validate_academic_period_calendar_transition :
    (previous candidate : AcademicPeriodCalendar) → Checked AcademicPeriodCalendar
validate_academic_period_calendar_transition previous candidate = do
  p ← validate_academic_period_calendar previous
  c ← validate_academic_period_calendar candidate
  check_transition p c
