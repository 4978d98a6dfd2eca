-- ===== src/Examples.antt =====
-- Concrete inputs: texts for dates and times, a school year with its calendars, and the definitions
-- that the examples run.
pub mod Routes
pub mod Calendars
pub mod Files
pub mod Years
pub mod Pages
pub mod Registrations
pub mod Publications
pub mod Shelves
pub mod Compatibility
pub mod Classes
use pds_core.Base.{ℕ, ◌≡◌, refl, Option, none, some, List, [], ◌∷◌, Text, lit}
use pds_core.Json.{ℤ, pos, negsuc}
use pds_core.Time.{Date, DateTime, IsoText}
use pds_core.Periods.{AcademicPeriod, AcademicPeriodCalendar}

-- A time is written as its numbers.
abbrev offset_text : Option ℤ → Text
offset_text none = []
offset_text (some (pos n)) = n ∷ []
offset_text (some (negsuc n)) = n ∷ n ∷ []

abbrev offset_of : Text → Option (Option ℤ)
offset_of [] = some none
offset_of (n ∷ []) = some (some (pos n))
offset_of (n ∷ m ∷ []) = some (some (negsuc n))
offset_of _ = none

abbrev time_of : ℕ → Option (Option ℤ) → Option DateTime
time_of t none = none
time_of t (some o) = some (record { instant = t; offset = o })

abbrev read_time : Text → Option DateTime
read_time [] = none
read_time (t ∷ s) = time_of t (offset_of s)

pub read_time-offset_text :
    (t : ℕ) (o : Option ℤ)
    → read_time (t ∷ offset_text o) ≡ some (record { instant = t; offset = o })
read_time-offset_text t none = refl
read_time-offset_text t (some (pos n)) = refl
read_time-offset_text t (some (negsuc n)) = refl

abbrev read_date : Text → Option Date
read_date (y ∷ m ∷ d ∷ []) = some (record { year = y; month = m; day = d })
read_date _ = none

abbrev pub plain : IsoText
plain = record {
  isoformat = λ t. t.instant ∷ offset_text t.offset;
  fromisoformat = read_time;
  reads = λ t. read_time-offset_text t.instant t.offset;
  date_isoformat = λ d. d.year ∷ d.month ∷ d.day ∷ [];
  date_fromisoformat = read_date;
  date_reads = λ d. refl;
}

abbrev pub at : ℕ → DateTime
at t = record { instant = t; offset = some (pos 0) }

abbrev pub day : ℕ → ℕ → ℕ → Date
day y m d = record { year = y; month = m; day = d }

abbrev pub school_year_text : Text
school_year_text = lit "2025-2026"

abbrev pub semester : AcademicPeriod
semester = record {
  period_id = lit "s1";
  period_type = lit "semester";
  label = lit "Fall";
  start_date = day 2025 9 1;
  end_date = day 2026 1 31;
  parent_period_id = none;
  sequence = pos 1;
  lifecycle = lit "active";
}

abbrev pub quarter : AcademicPeriod
quarter = record {
  period_id = lit "q1";
  period_type = lit "quarter";
  label = lit "Q1";
  start_date = day 2025 9 1;
  end_date = day 2025 11 1;
  parent_period_id = some (lit "s1");
  sequence = pos 1;
  lifecycle = lit "planned";
}

abbrev pub calendar : ℕ → List AcademicPeriod → AcademicPeriodCalendar
calendar n ps = record {
  schema_version = lit "1";
  record_type = lit "academic_period_calendar";
  school_year = school_year_text;
  calendar_revision = pos n;
  created_at = at 10;
  updated_at = at 20;
  periods = ps;
}
