-- ===== src/Periods/Calendars/Accepted.antt =====
-- What an accepted calendar satisfies, and that accepting it again changes nothing.
use mathlib.Core.Path.{subst}
use pds_core.Base.{
  ◌≡◌, refl, ap, ◌∙◌, true, false, List, Text, ok, guard, In, In-sort_by, NoDup-map-sort_by,
  sort_by, sort_by-Ordered, sort_by_fixed, text_ltb_asym, reraise-eq-ok, arith, >>=-eq-ok, text_eq,
  lit, not, guard-eq-ok,
}
use pds_core.Json.{str}
use pds_core.Time.{is_aware, before}
use pds_core.SchoolYears.Laws.{validate_school_year-IsSchoolYear, validate_school_year-ok}
use pds_core.Periods.{
  bad_schema_version, bad_record_type, naive, not_positive, updated_before_created, AcademicPeriod,
  AcademicPeriodCalendar, is_positive, period_school_year, school_year,
}
use pds_core.Periods.Hierarchy.{id_ltb, validate_academic_period_hierarchy}
use pds_core.Periods.Hierarchy.Collected.{sibling_key}
use pds_core.Periods.Hierarchy.Accepted.{
  Rises, at_root, above, IsHierarchy, validate_academic_period_hierarchy-IsHierarchy,
}
use pds_core.Periods.Hierarchy.Complete.{validate_academic_period_hierarchy-ok}
use pds_core.Periods.Calendars.{validate_academic_period_calendar, calendar_record_type}

Rises-map :
    (ps qs : List AcademicPeriod) (p : AcademicPeriod)
    → ((q : AcademicPeriod) → In q ps → In q qs)
    → Rises ps p
    → Rises qs p
Rises-map ps qs p f (at_root q e) = at_root p e
Rises-map ps qs p f (above q r j e up) = above p r (f r j) e (Rises-map ps qs r f up)

abbrev sorted : List AcademicPeriod → List AcademicPeriod
sorted = sort_by id_ltb

sorted-IsHierarchy :
    (year : Text) (ps : List AcademicPeriod) → IsHierarchy year ps → IsHierarchy year (sorted ps)
sorted-IsHierarchy year ps v =
    let back : (p : AcademicPeriod) → In p (sorted ps) → In p ps =
      λ p. (In-sort_by id_ltb p ps).0 in
    let to : (p : AcademicPeriod) → In p ps → In p (sorted ps) = λ p. (In-sort_by id_ltb p ps).1 in
    record {
      valid = λ p i. v.valid p (back p i);
      distinct = NoDup-map-sort_by id_ltb (λ p. p.period_id) ps v.distinct;
      siblings = NoDup-map-sort_by id_ltb sibling_key ps v.siblings;
      starts_in_year = λ p i. v.starts_in_year p (back p i);
      ends_in_year = λ p i. v.ends_in_year p (back p i);
      within = λ p i a e. let (q, j, n, s, t) = v.within p (back p i) a e in (q, to q j, n, s, t);
      rises = λ p i. Rises-map ps (sorted ps) p to (v.rises p (back p i));
    }

-- An accepted list of periods is accepted again, and kept as it is.
validate_academic_period_hierarchy_idem :
    (year : Text) (ps qs : List AcademicPeriod)
    → validate_academic_period_hierarchy year ps ≡ ok qs
    → validate_academic_period_hierarchy year qs ≡ ok qs
validate_academic_period_hierarchy_idem year ps qs h =
    let (y, dated, v, _, _) = validate_academic_period_hierarchy-IsHierarchy year ps qs h in
    let accepted = validate_academic_period_hierarchy-ok year y ps dated v in
    let same : sorted ps ≡ qs = cc (accepted, h) in
    let again =
      validate_academic_period_hierarchy-ok year y (sorted ps) dated (sorted-IsHierarchy y ps v) in
    let settled : sorted (sorted ps) ≡ sorted ps =
      sort_by_fixed id_ltb (sorted ps)
        (sort_by-Ordered id_ltb (λ p q. text_ltb_asym p.period_id q.period_id) ps) in
    subst (λ l. validate_academic_period_hierarchy year l ≡ ok l) same (again ∙ ap ok settled)

period_school_year_idem :
    (s : Text) {year : Text} → period_school_year s ≡ ok year → period_school_year year ≡ ok year
unfolding period_school_year
period_school_year_idem s h =
    let valid = validate_school_year-IsSchoolYear (str s) (reraise-eq-ok school_year _ h) in
    rw (validate_school_year-ok _ valid)

pub record IsCalendar (c : AcademicPeriodCalendar) : Type 0 where
  pub version : text_eq c.schema_version (lit "1") ≡ true
  pub kind : text_eq c.record_type calendar_record_type ≡ true
  pub dated : period_school_year c.school_year ≡ ok c.school_year
  pub positive : is_positive c.calendar_revision ≡ true
  pub created : is_aware c.created_at ≡ true
  pub updated : is_aware c.updated_at ≡ true
  pub order : before c.updated_at c.created_at ≡ false
  pub hierarchy : validate_academic_period_hierarchy c.school_year c.periods ≡ ok c.periods

pub IsCalendar-ok :
    (c : AcademicPeriodCalendar) → IsCalendar c → validate_academic_period_calendar c ≡ ok c
unfolding validate_academic_period_calendar
IsCalendar-ok c v =
    rw (v.version, v.kind, v.dated, v.positive, v.created, v.updated, v.order, v.hierarchy) refl

IsCalendar-from :
    (b : AcademicPeriodCalendar) (year : Text) (ps : List AcademicPeriod)
    → text_eq b.schema_version (lit "1") ≡ true
    → text_eq b.record_type calendar_record_type ≡ true
    → period_school_year b.school_year ≡ ok year
    → is_positive b.calendar_revision ≡ true
    → is_aware b.created_at ≡ true
    → is_aware b.updated_at ≡ true
    → not (before b.updated_at b.created_at) ≡ true
    → validate_academic_period_hierarchy year b.periods ≡ ok ps
    → IsCalendar (record b { school_year = year; periods = ps })
IsCalendar-from b year ps version kind dated positive created updated order accepted = record {
  version = version;
  kind = kind;
  dated = period_school_year_idem b.school_year dated;
  positive = positive;
  created = created;
  updated = updated;
  order = ground arith;
  hierarchy = validate_academic_period_hierarchy_idem year b.periods ps accepted;
}

pub validate_academic_period_calendar-IsCalendar :
    (b c : AcademicPeriodCalendar) → validate_academic_period_calendar b ≡ ok c → IsCalendar c
unfolding validate_academic_period_calendar
validate_academic_period_calendar-IsCalendar b c h =
    let (_, version, h1) =
      >>=-eq-ok (guard (text_eq b.schema_version (lit "1")) bad_schema_version) _ h in
    let (_, kind, h2) =
      >>=-eq-ok (guard (text_eq b.record_type calendar_record_type) bad_record_type) _ h1 in
    let (year, dated, h3) = >>=-eq-ok (period_school_year b.school_year) _ h2 in
    let (_, positive, h4) = >>=-eq-ok (guard (is_positive b.calendar_revision) not_positive) _ h3 in
    let (_, created, h5) = >>=-eq-ok (guard (is_aware b.created_at) naive) _ h4 in
    let (_, updated, h6) = >>=-eq-ok (guard (is_aware b.updated_at) naive) _ h5 in
    let (_, order, h7) =
      >>=-eq-ok (guard (not (before b.updated_at b.created_at)) updated_before_created) _ h6 in
    let (ps, accepted, h8) = >>=-eq-ok (validate_academic_period_hierarchy year b.periods) _ h7 in
    let same : record b { school_year = year; periods = ps } ≡ c = cc h8 in
    subst IsCalendar same (
      IsCalendar-from b year ps (guard-eq-ok _ _ version) (guard-eq-ok _ _ kind) dated
        (guard-eq-ok _ _ positive) (guard-eq-ok _ _ created) (guard-eq-ok _ _ updated)
        (guard-eq-ok _ _ order) accepted)

-- A calendar that was returned is accepted again, and nothing of it changes.
validate_academic_period_calendar_idem :
    (b c : AcademicPeriodCalendar)
    → validate_academic_period_calendar b ≡ ok c
    → validate_academic_period_calendar c ≡ ok c
validate_academic_period_calendar_idem b c h =
    IsCalendar-ok c (validate_academic_period_calendar-IsCalendar b c h)
