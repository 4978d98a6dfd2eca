-- ===== src/Periods/Shapes.antt =====
-- The `to_dict` and `from_dict` functions of pds_core/academic_periods.py.
use pds_core.Base.{
  Option, none, some, List, [], ◌∷◌, String, Text, lit, ok, err, ◌>>=◌, ◌>>◌, guard, reraise,
  text_eq,
}
use pds_core.Json.{
  Value, null, int, str, list, dict, Items, nil, cons, Fields, end, field, ℤ, item, exact_mapping,
}
use pds_core.Time.{Date, DateTime, is_aware, IsoText}
use pds_core.Periods.{
  Checked, mapping, naive, not_string, not_integer, bad_date, bad_datetime, periods_not_list,
  AcademicPeriodRef, AcademicPeriod, AcademicPeriodCalendar, validate_academic_period,
  make_academic_period_ref,
}
use pds_core.Periods.Calendars.{validate_academic_period_calendar}

unfoldable pub require_str : Value → Checked Text
require_str (str s) = ok s
require_str _ = err not_string

unfoldable pub require_int : Value → Checked ℤ
require_int (int n) = ok n
require_int _ = err not_integer

unfoldable pub period_item : Fields → String → Checked Value
period_item fs name = reraise mapping (item (lit name) fs)

unfoldable pub period_string : Fields → String → Checked Text
unfolding require_str period_item
period_string fs name = do v ← period_item fs name; require_str v

unfoldable pub parent_value : Value → Checked (Option Text)
parent_value null = ok none
parent_value (str s) = ok (some s)
parent_value _ = err not_string

unfoldable pub parent_to_value : Option Text → Value
parent_to_value none = null
parent_to_value (some s) = str s

abbrev pub ref_keys : List Text
ref_keys = lit "school_year" ∷ lit "period_id" ∷ []

abbrev pub period_keys : List Text
period_keys =
    lit "period_id"
    ∷ lit "period_type"
    ∷ lit "label"
    ∷ lit "start_date"
    ∷ lit "end_date"
    ∷ lit "parent_period_id"
    ∷ lit "sequence"
    ∷ lit "lifecycle"
    ∷ []

abbrev pub calendar_keys : List Text
calendar_keys =
    lit "schema_version"
    ∷ lit "record_type"
    ∷ lit "school_year"
    ∷ lit "calendar_revision"
    ∷ lit "created_at"
    ∷ lit "updated_at"
    ∷ lit "periods"
    ∷ []

unfoldable pub academic_period_ref_to_dict : AcademicPeriodRef → Checked Value
academic_period_ref_to_dict value = do
  r ← make_academic_period_ref value.school_year value.period_id
  ok (
      dict (
        field (lit "school_year") (str r.school_year)
          (field (lit "period_id") (str r.period_id) end)))

unfoldable pub academic_period_ref_from_dict : Value → Checked AcademicPeriodRef
unfolding period_string
academic_period_ref_from_dict given = do
  fs ← reraise mapping (exact_mapping given ref_keys)
  year ← period_string fs "school_year"
  id ← period_string fs "period_id"
  make_academic_period_ref year id

module _ (iso : IsoText) where
  open iso use {isoformat, fromisoformat, date_isoformat, date_fromisoformat}

  unfoldable pub date_from_iso : Value → Checked Date
  unfolding require_str
  date_from_iso v = do
    text ← require_str v
    elim (date_fromisoformat text) [
      | none ↦ err bad_date
      | some d ↦ guard (text_eq (date_isoformat d) text) bad_date >> ok d
    ]

  unfoldable pub datetime_from_iso : Value → Checked DateTime
  unfolding require_str
  datetime_from_iso v = do
    text ← require_str v
    elim (fromisoformat text) [
      | none ↦ err bad_datetime
      | some d ↦ guard (is_aware d) naive >> ok d
    ]

  unfoldable pub period_fields : AcademicPeriod → Fields
  unfolding parent_to_value
  period_fields p = field (lit "period_id") (str p.period_id) (
      field (lit "period_type") (str p.period_type) (
        field (lit "label") (str p.label) (
          field (lit "start_date") (str (date_isoformat p.start_date)) (
            field (lit "end_date") (str (date_isoformat p.end_date)) (
              field (lit "parent_period_id") (parent_to_value p.parent_period_id) (
                field (lit "sequence") (int p.sequence)
                  (field (lit "lifecycle") (str p.lifecycle) end)))))))

  unfoldable pub academic_period_to_dict : AcademicPeriod → Checked Value
  academic_period_to_dict value = do p ← validate_academic_period value; ok (dict (period_fields p))

  unfoldable pub academic_period_from_dict : Value → Checked AcademicPeriod
  unfolding date_from_iso period_item period_string require_int parent_value
  academic_period_from_dict given = do
    fs ← reraise mapping (exact_mapping given period_keys)
    above ← period_item fs "parent_period_id"
    parent ← parent_value above
    id ← period_string fs "period_id"
    kind ← period_string fs "period_type"
    label ← period_string fs "label"
    start ← period_item fs "start_date"
    start_date ← date_from_iso start
    last ← period_item fs "end_date"
    end_date ← date_from_iso last
    number ← period_item fs "sequence"
    sequence ← require_int number
    lifecycle ← period_string fs "lifecycle"
    validate_academic_period (record {
      period_id = id;
      period_type = kind;
      label = label;
      start_date = start_date;
      end_date = end_date;
      parent_period_id = parent;
      sequence = sequence;
      lifecycle = lifecycle;
    })

  unfoldable pub periods_to_items : List AcademicPeriod → Checked Items
  periods_to_items [] = ok nil
  periods_to_items (p ∷ ps) = do
    v ← academic_period_to_dict p
    vs ← periods_to_items ps
    ok (cons v vs)

  unfoldable pub periods_from_items : Items → Checked (List AcademicPeriod)
  periods_from_items nil = ok []
  periods_from_items (cons v vs) = do
    p ← academic_period_from_dict v
    ps ← periods_from_items vs
    ok (p ∷ ps)

  unfoldable pub calendar_fields : AcademicPeriodCalendar → Items → Fields
  calendar_fields c items = field (lit "schema_version") (str c.schema_version) (
      field (lit "record_type") (str c.record_type) (
        field (lit "school_year") (str c.school_year) (
          field (lit "calendar_revision") (int c.calendar_revision) (
            field (lit "created_at") (str (isoformat c.created_at)) (
              field (lit "updated_at") (str (isoformat c.updated_at))
                (field (lit "periods") (list items) end))))))

  unfoldable pub academic_period_calendar_to_dict : AcademicPeriodCalendar → Checked Value
  academic_period_calendar_to_dict value = do
    c ← validate_academic_period_calendar value
    items ← periods_to_items c.periods
    ok (dict (calendar_fields c items))

  unfoldable pub periods_list : Value → Checked (List AcademicPeriod)
  periods_list (list items) = periods_from_items items
  periods_list _ = err periods_not_list

  unfoldable pub academic_period_calendar_from_dict : Value → Checked AcademicPeriodCalendar
  unfolding datetime_from_iso period_item period_string require_int periods_list
  academic_period_calendar_from_dict given = do
    fs ← reraise mapping (exact_mapping given calendar_keys)
    listed ← period_item fs "periods"
    periods ← periods_list listed
    version ← period_string fs "schema_version"
    kind ← period_string fs "record_type"
    year ← period_string fs "school_year"
    number ← period_item fs "calendar_revision"
    revision ← require_int number
    created ← period_item fs "created_at"
    created_at ← datetime_from_iso created
    updated ← period_item fs "updated_at"
    updated_at ← datetime_from_iso updated
    validate_academic_period_calendar (record {
      schema_version = version;
      record_type = kind;
      school_year = year;
      calendar_revision = revision;
      created_at = created_at;
      updated_at = updated_at;
      periods = periods;
    })
