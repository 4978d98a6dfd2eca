-- ===== src/Periods/RoundTrips.antt =====
-- Periods and calendars through dictionaries.
use pds_core.Base.{
  ◌≡◌, refl, inl, inr, Option, none, some, List, [], ◌∷◌, Text, ok, ◌>>=◌, text_eq, text_eq_refl,
  In, Decides-ok, true, Outcome-cases,
}
use pds_core.Json.{Items, str, item, exact_mapping, dict, nil, cons}
use pds_core.Time.{Date, DateTime, is_aware, IsoText}
use pds_core.Periods.{AcademicPeriod, AcademicPeriodCalendar}
use pds_core.Periods.Fields.{IsPeriod, validate_academic_period-Decides}
use pds_core.Periods.Hierarchy.Accepted.{validate_academic_period_hierarchy-IsHierarchy}
use pds_core.Periods.Calendars.{validate_academic_period_calendar}
use pds_core.Periods.Calendars.Accepted.{
  IsCalendar, IsCalendar-ok, validate_academic_period_calendar-IsCalendar,
}
use pds_core.Periods.Shapes.{
  require_str, require_int, period_item, period_string, parent_value, parent_to_value,
  date_from_iso, datetime_from_iso, period_fields, academic_period_to_dict,
  academic_period_from_dict, periods_to_items, periods_from_items, calendar_fields,
  academic_period_calendar_to_dict, periods_list, academic_period_calendar_from_dict,
}

-- the functions that read a dictionary, for the `unfolding` lines below
reading : Unit {0}
unfolding exact_mapping item require_str require_int period_item period_string text_eq
reading = tt

parent_value-parent_to_value : (o : Option Text) → parent_value (parent_to_value o) ≡ ok o
unfolding parent_value parent_to_value
parent_value-parent_to_value none = refl
parent_value-parent_to_value (some s) = refl

module _ (iso : IsoText) where
  open iso use {isoformat, fromisoformat, reads, date_isoformat, date_fromisoformat, date_reads}

  date_from_iso-isoformat : (d : Date) → date_from_iso iso (str (date_isoformat d)) ≡ ok d
  unfolding date_from_iso require_str
  date_from_iso-isoformat d = rw (date_reads d, text_eq_refl (date_isoformat d)) refl

  datetime_from_iso-isoformat :
      (d : DateTime) → is_aware d ≡ true → datetime_from_iso iso (str (isoformat d)) ≡ ok d
  unfolding datetime_from_iso require_str
  datetime_from_iso-isoformat d h = rw (reads d, h) refl

  period_to_dict-ok :
      (p : AcademicPeriod)
      → IsPeriod p
      → academic_period_to_dict iso p ≡ ok (dict (period_fields iso p))
  unfolding academic_period_to_dict
  period_to_dict-ok p v = rw (Decides-ok _ p _ (validate_academic_period-Decides p) v) refl

  period_from_dict-fields :
      (p : AcademicPeriod)
      → IsPeriod p
      → academic_period_from_dict iso (dict (period_fields iso p)) ≡ ok p
  unfolding reading academic_period_from_dict period_fields
  period_from_dict-fields p v =
      rw
        (
          parent_value-parent_to_value p.parent_period_id,
          date_from_iso-isoformat p.start_date,
          date_from_iso-isoformat p.end_date,
        )
        (Decides-ok _ p _ (validate_academic_period-Decides p) v)

  periods_round_trip :
      (ps : List AcademicPeriod)
      → ((p : AcademicPeriod) → In p ps → IsPeriod p)
      → (items : Items) × (periods_to_items iso ps ≡ ok items)
        × (periods_from_items iso items ≡ ok ps)
  unfolding periods_to_items periods_from_items
  periods_round_trip [] v = (nil, refl, refl)
  periods_round_trip (p ∷ ps) v =
      let (items, written, read) = periods_round_trip ps (λ q i. v q (inr i)) in
      let valid = v p (inl refl) in
      (
        cons (dict (period_fields iso p)) items,
        rw (period_to_dict-ok p valid, written) refl,
        rw (period_from_dict-fields p valid, read) refl,
      )

  calendar_fields-read :
      (c : AcademicPeriodCalendar) (items : Items)
      → IsCalendar c
      → periods_from_items iso items ≡ ok c.periods
      → academic_period_calendar_from_dict iso (dict (calendar_fields iso c items)) ≡ ok c
  unfolding reading academic_period_calendar_from_dict calendar_fields periods_list
  calendar_fields-read c items v h =
      rw
        (
          h,
          datetime_from_iso-isoformat c.created_at v.created,
          datetime_from_iso-isoformat c.updated_at v.updated,
        )
        (IsCalendar-ok c v)

  -- Writing a calendar as a dictionary and reading it back is the same as validating it: a valid
  -- calendar comes back as its validated form, and an invalid one raises the validation's exception.
  pub calendar_round_trip :
      (c : AcademicPeriodCalendar)
      → (academic_period_calendar_to_dict iso c >>= academic_period_calendar_from_dict iso)
        ≡ validate_academic_period_calendar c
  unfolding academic_period_calendar_to_dict
  calendar_round_trip c = elim (Outcome-cases (validate_academic_period_calendar c)) [
    | inl (b, e) ↦
        let v = validate_academic_period_calendar-IsCalendar c b e in
        let (_, _, h, _, _) =
          validate_academic_period_hierarchy-IsHierarchy b.school_year b.periods b.periods
            v.hierarchy in
        let (items, written, read) = periods_round_trip b.periods h.valid in
        rw (e, written) (calendar_fields-read b items v read)
    | inr (x, e) ↦ rw e refl
  ]
