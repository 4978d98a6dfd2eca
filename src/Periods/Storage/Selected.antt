-- ===== src/Periods/Storage/Selected.antt =====
-- What a successful write has tested and what is current after it.
use mathlib.Core.Path.{subst}
use pds_core.Base.{
  ◌≡◌, refl, sym, ap, ◌∙◌, inl, inr, Option, none, some, List, ok, ◌>>=◌, guard, reraise,
  reraise-eq-ok, >>=-eq-ok, guard-eq-ok, text_eq, text_eq_refl, Option-cases, arith, Decides-inv,
}
use pds_core.Json.{
  Value, null, bool, int, float, str, list, dict, item, exact_mapping, ℤ, pos, int_eq, int_eq_iff,
}
use pds_core.Time.{IsoText}
use pds_core.SchoolYears.{validate_school_year}
use pds_core.Periods.{AcademicPeriodCalendar, period_school_year, school_year}
use pds_core.Periods.Calendars.{
  check_transition, validate_academic_period_calendar, validate_academic_period_calendar_transition,
}
use pds_core.Periods.Calendars.Accepted.{IsCalendar, IsCalendar-ok}
use pds_core.Periods.Calendars.Transitions.{check_transition-Decides}
use pds_core.Periods.Shapes.{academic_period_calendar_to_dict, academic_period_calendar_from_dict}
use pds_core.Periods.RoundTrips.{calendar_round_trip}
use pds_core.Periods.Equality.{int_eq_refl}
use pds_core.Periods.Storage.{
  holds, Folder, find_file, is_text, pointer_revision, pointer_from_fields, load_current_pointer,
  get_current_revision, read_calendar, positive_revision, load_revision, pointed, load_pointed,
  load_current, stale, list_revisions, not_first, invalid,
}
use pds_core.Periods.Storage.Write.{pointer_value, check_first, check_current, validate_write_state}

validated :
    (c : AcademicPeriodCalendar)
    → IsCalendar c
    → validate_school_year (str c.school_year) ≡ ok c.school_year
unfolding period_school_year
validated c v = reraise-eq-ok school_year _ v.dated

-- The pointer that is written for a valid calendar names its revision.
load_current_pointer-pointer_value :
    (c : AcademicPeriodCalendar)
    → IsCalendar c
    → load_current_pointer c.school_year (some (holds (pointer_value c)))
      ≡ ok (some c.calendar_revision)
unfolding load_current_pointer pointer_value pointer_from_fields item text_eq is_text
    pointer_revision
load_current_pointer-pointer_value c v =
    rw (validated c v, v.positive, text_eq_refl c.school_year) refl

transition-same :
    (p c : AcademicPeriodCalendar) {d : AcademicPeriodCalendar}
    → IsCalendar c
    → validate_academic_period_calendar_transition p c ≡ ok d
    → validate_academic_period_calendar_transition p c ≡ ok c
unfolding validate_academic_period_calendar_transition
transition-same p c {d} v h =
    let (q, previous, h1) = >>=-eq-ok (validate_academic_period_calendar p) _ h in
    let (b, candidate, h2) = >>=-eq-ok (validate_academic_period_calendar c) _ h1 in
    let same : b ≡ c = cc (candidate, IsCalendar-ok c v) in
    let (kept, _) = Decides-inv _ b _ (check_transition-Decides q b) h2 in
    rw (previous, IsCalendar-ok c v)
      (subst (λ x. check_transition q x ≡ ok x) same (h2 ∙ ap ok kept))

module _ (iso : IsoText) where
  -- A content that is no mapping is no calendar.
  read_calendar-holds :
      (v : Value) (c : AcademicPeriodCalendar)
      → academic_period_calendar_from_dict iso v ≡ ok c
      → IsCalendar c
      → read_calendar iso (some (holds v)) ≡ ok c
  unfolding read_calendar academic_period_calendar_from_dict exact_mapping
  read_calendar-holds null c h w = cc
  read_calendar-holds (bool b) c h w = cc
  read_calendar-holds (int n) c h w = cc
  read_calendar-holds (float n) c h w = cc
  read_calendar-holds (str s) c h w = cc
  read_calendar-holds (list l) c h w = cc
  read_calendar-holds (dict fs) c h w = rw (h, IsCalendar-ok c w) refl

  pub load_revision-new :
      (c : AcademicPeriodCalendar) (content : Value) (f : Folder)
      → IsCalendar c
      → academic_period_calendar_to_dict iso c ≡ ok content
      → find_file c.calendar_revision f.entries ≡ some (holds content)
      → load_revision iso c.school_year c.calendar_revision f ≡ ok c
  unfolding load_revision positive_revision
  load_revision-new c content f v written found =
      let read : academic_period_calendar_from_dict iso content ≡ ok c =
        ap (λ m. m >>= academic_period_calendar_from_dict iso) (sym written)
        ∙ calendar_round_trip iso c
        ∙ IsCalendar-ok c v in
      rw
        (
          validated c v,
          v.positive,
          found,
          read_calendar-holds content c read v,
          text_eq_refl c.school_year,
          int_eq_refl c.calendar_revision,
        )
        refl

  pub load_current-new :
      (c : AcademicPeriodCalendar) (content : Value) (f : Folder)
      → IsCalendar c
      → academic_period_calendar_to_dict iso c ≡ ok content
      → find_file c.calendar_revision f.entries ≡ some (holds content)
      → f.current ≡ some (holds (pointer_value c))
      → load_current iso c.school_year f ≡ ok (some c)
  unfolding load_current load_pointed pointed load_revision
  load_current-new c content f v written found pointer =
      rw
        (
          validated c v,
          pointer,
          load_current_pointer-pointer_value c v,
          load_revision-new c content f v written found,
          int_eq_refl c.calendar_revision,
        )
        refl

  -- What was current before the calendar: its predecessor, which it may follow, or nothing.
  abbrev pub Follows : AcademicPeriodCalendar → Option ℤ → Folder → Type 0
  Follows c none f = c.calendar_revision ≡ pos 1
  Follows c (some n) f =
      (p : AcademicPeriodCalendar) × (load_revision iso c.school_year n f ≡ ok p)
      × (validate_academic_period_calendar_transition p c ≡ ok c)

  check_current-inv :
      (c : AcademicPeriodCalendar) (n : ℤ) (f : Folder) (numbers : List ℤ) (current : Option ℤ)
      {u : Unit {0}}
      → IsCalendar c
      → check_current iso c n f numbers current ≡ ok u
      → (current ≡ some n) × Follows c (some n) f
  unfolding check_current
  check_current-inv c n f numbers none v h = cc
  check_current-inv c n f numbers (some m) v h =
      let (_, same, h1) = >>=-eq-ok (guard (int_eq m n) stale) _ h in
      let (p, loaded, h2) = >>=-eq-ok (load_revision iso c.school_year m f) _ h1 in
      let (d, follows, _) =
        >>=-eq-ok (reraise invalid (validate_academic_period_calendar_transition p c)) _ h2 in
      let at : m ≡ n = (int_eq_iff m n).0 (guard-eq-ok _ stale same) in
      (
        ap some at,
        (
          p,
          subst (λ k. load_revision iso c.school_year k f ≡ ok p) at loaded,
          transition-same p c v (reraise-eq-ok invalid _ follows),
        ),
      )

  pub validate_write_state-inv :
      (c : AcademicPeriodCalendar) (expected : Option ℤ) (f : Folder) {u : Unit {0}}
      → IsCalendar c
      → check_first expected c ≡ ok tt
      → validate_write_state iso c expected f ≡ ok u
      → (get_current_revision c.school_year f ≡ ok expected) × Follows c expected f
  unfolding validate_write_state check_first
  validate_write_state-inv c none f v first h =
      let (current, got, h1) = >>=-eq-ok (get_current_revision c.school_year f) _ h in
      let (numbers, listed, h2) = >>=-eq-ok (list_revisions iso c.school_year f) _ h1 in
      let nothing : current ≡ none = elim (Option-cases current) [
        | inl e ↦ e
        | inr (n, e) ↦ absurd (ground (arith, e))
      ] in
      (
        got ∙ ap ok nothing,
        (int_eq_iff c.calendar_revision (pos 1)).0 (guard-eq-ok _ not_first first),
      )
  validate_write_state-inv c (some n) f v first h =
      let (current, got, h1) = >>=-eq-ok (get_current_revision c.school_year f) _ h in
      let (numbers, listed, h2) = >>=-eq-ok (list_revisions iso c.school_year f) _ h1 in
      let (same, follows) = check_current-inv c n f numbers current v h2 in
      (got ∙ ap ok same, follows)
