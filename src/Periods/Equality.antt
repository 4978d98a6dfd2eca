-- ===== src/Periods/Equality.antt =====
-- `==` on the frozen dataclasses of pds_core/academic_periods.py, which the storage compares.
use pds_core.Base.{
  ◌≡◌, refl, Bool, true, false, ◌&&◌, List, [], ◌∷◌, text_eq, text_eq_refl, ◌==◌, arith, ℕ,
}
use pds_core.Json.{ℤ, int_eq, int_eq_iff}
use pds_core.Time.{Date, same_instant}
use pds_core.Periods.{AcademicPeriod, AcademicPeriodCalendar}
use pds_core.Periods.Hierarchy.{option_eq}
use pds_core.Periods.Hierarchy.Collected.{option_eq_iff}

unfoldable pub date_eq : Date → Date → Bool
date_eq a b = a.year == b.year && a.month == b.month && a.day == b.day

unfoldable pub period_eq : AcademicPeriod → AcademicPeriod → Bool
unfolding date_eq
period_eq p q =
    text_eq p.period_id q.period_id
    && text_eq p.period_type q.period_type
    && text_eq p.label q.label
    && date_eq p.start_date q.start_date
    && date_eq p.end_date q.end_date
    && option_eq p.parent_period_id q.parent_period_id
    && int_eq p.sequence q.sequence
    && text_eq p.lifecycle q.lifecycle

unfoldable pub periods_eq : List AcademicPeriod → List AcademicPeriod → Bool
periods_eq [] [] = true
periods_eq (p ∷ ps) (q ∷ qs) = period_eq p q && periods_eq ps qs
periods_eq _ _ = false

unfoldable pub calendar_eq : AcademicPeriodCalendar → AcademicPeriodCalendar → Bool
calendar_eq c d =
    text_eq c.schema_version d.schema_version
    && text_eq c.record_type d.record_type
    && text_eq c.school_year d.school_year
    && int_eq c.calendar_revision d.calendar_revision
    && same_instant c.created_at d.created_at
    && same_instant c.updated_at d.updated_at
    && periods_eq c.periods d.periods

==-refl : (n : ℕ) → (n == n) ≡ true
==-refl n = ground arith

pub int_eq_refl : (n : ℤ) → int_eq n n ≡ true
int_eq_refl n = (int_eq_iff n n).1 refl

period_eq_refl : (p : AcademicPeriod) → period_eq p p ≡ true
unfolding period_eq date_eq
period_eq_refl p =
    rw
      (
        text_eq_refl p.period_id,
        text_eq_refl p.period_type,
        text_eq_refl p.label,
        ==-refl p.start_date.year,
        ==-refl p.start_date.month,
        ==-refl p.start_date.day,
        ==-refl p.end_date.year,
        ==-refl p.end_date.month,
        ==-refl p.end_date.day,
        (option_eq_iff p.parent_period_id p.parent_period_id).1 refl,
        int_eq_refl p.sequence,
      )
      (text_eq_refl p.lifecycle)

periods_eq_refl : (ps : List AcademicPeriod) → periods_eq ps ps ≡ true
unfolding periods_eq
periods_eq_refl [] = refl
periods_eq_refl (p ∷ ps) = rw (period_eq_refl p) (periods_eq_refl ps)

pub calendar_eq_refl : (c : AcademicPeriodCalendar) → calendar_eq c c ≡ true
unfolding calendar_eq
calendar_eq_refl c =
    rw
      (
        text_eq_refl c.schema_version,
        text_eq_refl c.record_type,
        text_eq_refl c.school_year,
        int_eq_refl c.calendar_revision,
        ==-refl c.created_at.instant,
        ==-refl c.updated_at.instant,
      )
      (periods_eq_refl c.periods)
