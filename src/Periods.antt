-- ===== src/Periods.antt =====
-- pds_core/academic_periods.py: academic periods and their validated calendars.
pub mod Fields
pub mod Hierarchy
pub mod Calendars
pub mod Shapes
pub mod RoundTrips
pub mod Equality
pub mod Storage
pub mod Queries
use pds_core.Base.{
  is_control, ℕ, zero, suc, Bool, true, false, not, ◌&&◌, ◌||◌, Option, none, some, List, [], ◌∷◌,
  Text, lit, Outcome, ok, err, ◌>>=◌, ◌>>◌, guard, reraise, any, elem, leb, ◌==◌, text_eq, strip,
  String,
}
use pds_core.Json.{Value, ℤ, pos, negsuc, str, MappingError}
use pds_core.Time.{Date, date_ltb, DateTime, is_aware, before}
use pds_core.Identifiers.{IdentifierError, validate_identifier}
use pds_core.SchoolYears.{SchoolYearValidationError, validate_school_year}

pub data PeriodError : Type 0 where
  identifier : IdentifierError → PeriodError
  school_year : SchoolYearValidationError → PeriodError
  mapping : MappingError → PeriodError
  bad_type bad_lifecycle label_blank label_space label_control : PeriodError
  start_after_end naive bad_schema_version bad_record_type updated_before_created : PeriodError
  not_positive not_string not_integer bad_date bad_datetime : PeriodError
  duplicate_period outside_school_year own_parent missing_parent outside_parent : PeriodError
  duplicate_sequence periods_not_list other_school_year stale_revision created_at_changed :
      PeriodError
  updated_earlier removed_period type_changed not_object : PeriodError
  cycle unending : PeriodError

abbrev pub Checked : Type 0 → Type 0
Checked A = Outcome PeriodError A

abbrev pub period_types : List Text
period_types =
    lit "marking_period"
    ∷ lit "semester"
    ∷ lit "quarter"
    ∷ lit "trimester"
    ∷ lit "progress_window"
    ∷ lit "custom"
    ∷ []

abbrev pub lifecycles : List Text
lifecycles = lit "planned" ∷ lit "active" ∷ lit "closed" ∷ lit "cancelled" ∷ []

pub record AcademicPeriodRef : Type 0 where
  pub school_year : Text
  pub period_id : Text

pub record AcademicPeriod : Type 0 where
  pub period_id : Text
  pub period_type : Text
  pub label : Text
  pub start_date : Date
  pub end_date : Date
  pub parent_period_id : Option Text
  pub sequence : ℤ
  pub lifecycle : Text

pub record AcademicPeriodCalendar : Type 0 where
  pub schema_version : Text
  pub record_type : Text
  pub school_year : Text
  pub calendar_revision : ℤ
  pub created_at : DateTime
  pub updated_at : DateTime
  pub periods : List AcademicPeriod

unfoldable pub validate_label : Text → Checked Text
validate_label s = do
  guard (not (text_eq (strip s) [])) label_blank
  guard (text_eq s (strip s)) label_space
  guard (not (any is_control s)) label_control
  ok s

abbrev pub is_positive : ℤ → Bool
is_positive (pos zero) = false
is_positive (pos (suc n)) = true
is_positive (negsuc n) = false

unfoldable pub period_identifier : String → Text → Checked Text
period_identifier name s = reraise identifier (validate_identifier name (str s))

unfoldable pub optional_parent : Option Text → Checked (Option Text)
optional_parent none = ok none
optional_parent (some s) = do period_identifier "parent_period_id" s; ok (some s)

-- The constructor call with its `__post_init__`, on the fields of a period.
unfoldable pub validate_academic_period : AcademicPeriod → Checked AcademicPeriod
validate_academic_period p = do
  period_identifier "period_id" p.period_id
  guard (elem p.period_type period_types) bad_type
  validate_label p.label
  guard (not (date_ltb p.end_date p.start_date)) start_after_end
  optional_parent p.parent_period_id
  guard (is_positive p.sequence) not_positive
  guard (elem p.lifecycle lifecycles) bad_lifecycle
  ok p

unfoldable pub period_school_year : Text → Checked Text
period_school_year s = reraise school_year (validate_school_year (str s))

unfoldable pub make_academic_period_ref : Text → Text → Checked AcademicPeriodRef
make_academic_period_ref year id = do
  y ← period_school_year year
  i ← period_identifier "period_id" id
  ok (record { school_year = y; period_id = i })
