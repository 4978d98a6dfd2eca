-- ===== src/SchoolYears/Workspace.antt =====
-- The state file of pds_core/school_years.py and the operations on it. `StateFile` is what stands at
-- `school_year_state_path`; `writable` says whether the operating system lets a write succeed. A
-- write goes to a temporary file that replaces the old one, so a failed write leaves the old one.
pub mod Lifecycle
pub mod Events
use pds_core.Base.{
  Bool, true, not, ◌&&◌, Option, none, some, List, [], ◌∷◌, Text, lit, Outcome, ok, err, ◌>>=◌,
  ◌>>◌, guard, reraise, all, elem, text_eq, if◌then◌else◌,
}
use pds_core.Json.{
  Value, null, str, dict, Fields, end, field, MappingError, item, keys, missing_keys, unknown_keys,
}
use pds_core.Time.{DateTime, is_aware, before, IsoText}
use pds_core.SchoolYears.{SchoolYearValidationError, validate_school_year}

pub data SchoolYearStateError : Type 0 where
  school_year : SchoolYearValidationError → SchoolYearStateError
  mapping : MappingError → SchoolYearStateError
  naive not_text bad_iso closed_too_early : SchoolYearStateError
  unreadable not_object write_failed other_year_open none_open already_closed : SchoolYearStateError

abbrev pub Checked : Type 0 → Type 0
Checked A = Outcome SchoolYearStateError A

pub record SchoolYearState : Type 0 where
  pub active_school_year : Text
  pub opened_at : DateTime
  pub closed_at : Option DateTime

abbrev pub optional_aware : Option DateTime → Bool
optional_aware none = true
optional_aware (some d) = is_aware d

-- `_validate_closed_at_order`
abbrev pub in_order : DateTime → Option DateTime → Bool
in_order opened none = true
in_order opened (some closed) = not (before closed opened)

-- The constructor call with its `__post_init__`.
unfoldable pub make_state : Value → DateTime → Option DateTime → Checked SchoolYearState
make_state year opened closed = do
  y ← reraise school_year (validate_school_year year)
  guard (is_aware opened) naive
  guard (optional_aware closed) naive
  guard (in_order opened closed) closed_too_early
  ok (record { active_school_year = y; opened_at = opened; closed_at = closed })

abbrev pub state_keys : List Text
state_keys = lit "active_school_year" ∷ lit "opened_at" ∷ lit "closed_at" ∷ []

-- The exact test of `_state_from_dict`: unknown keys are reported before missing ones.
unfoldable pub exact_state : Fields → Checked (Unit {0})
exact_state fs = do
  guard (all (λ k. elem k state_keys) (keys fs)) (mapping unknown_keys)
  guard (all (λ k. elem k (keys fs)) state_keys) (mapping missing_keys)

pub data StateFile : Type 0 where
  missing garbage : StateFile
  holds : Value → StateFile

module _ (iso : IsoText) where
  open iso use {isoformat, fromisoformat}

  datetime_from_json : Value → Checked DateTime
  datetime_from_json (str s) = elim (fromisoformat s) [
    | none ↦ err bad_iso
    | some d ↦ guard (is_aware d) naive >> ok d
  ]
  datetime_from_json _ = err not_text

  optional_datetime : Value → Checked (Option DateTime)
  unfolding datetime_from_json
  optional_datetime null = ok none
  optional_datetime v = do d ← datetime_from_json v; ok (some d)

  optional_iso : Option DateTime → Value
  optional_iso none = null
  optional_iso (some d) = str (isoformat d)

  unfoldable pub state_to_dict : SchoolYearState → Fields
  unfolding optional_iso
  state_to_dict s = field (lit "active_school_year") (str s.active_school_year) (
      field (lit "opened_at") (str (isoformat s.opened_at))
        (field (lit "closed_at") (optional_iso s.closed_at) end))

  unfoldable pub state_from_dict : Fields → Checked SchoolYearState
  unfolding optional_datetime
  state_from_dict fs = do
    exact_state fs
    given ← reraise mapping (item (lit "closed_at") fs)
    closed ← optional_datetime given
    year ← reraise mapping (item (lit "active_school_year") fs)
    at ← reraise mapping (item (lit "opened_at") fs)
    opened ← datetime_from_json at
    make_state year opened closed

  unfoldable pub load_school_year_state : StateFile → Checked (Option SchoolYearState)
  load_school_year_state missing = ok none
  load_school_year_state garbage = err unreadable
  load_school_year_state (holds (dict fs)) = do s ← state_from_dict fs; ok (some s)
  load_school_year_state (holds _) = err not_object

  unfoldable pub get_active_school_year : StateFile → Checked (Option Text)
  get_active_school_year file = do
    found ← load_school_year_state file
    elim found [
      | none ↦ ok none
      | some s ↦ elim s.closed_at [ none ↦ ok (some s.active_school_year) | some _ ↦ ok none ]
    ]

  unfoldable pub write_state :
      Bool → SchoolYearState → StateFile → Checked SchoolYearState × StateFile
  write_state writable s file =
      if writable then (ok s, holds (dict (state_to_dict s))) else (err write_failed, file)

  -- What `open_school_year` does with the state that it found.
  unfoldable pub open_over :
      Bool
      → SchoolYearState
      → Bool
      → StateFile
      → Option SchoolYearState
      → Checked SchoolYearState × StateFile
  unfolding write_state
  open_over writable s overwrite file none = write_state writable s file
  open_over writable s overwrite file (some old) = elim old.closed_at [
    | some _ ↦ write_state writable s file
    | none ↦
        if text_eq old.active_school_year s.active_school_year && not overwrite
        then (ok old, file)
        else if not overwrite
        then (err other_year_open, file)
        else write_state writable s file
  ]

  unfoldable pub open_school_year :
      (writable : Bool) (year : Text) (opened_at : DateTime) (overwrite : Bool)
      → StateFile
      → Checked SchoolYearState × StateFile
  unfolding open_over
  open_school_year writable year opened_at overwrite file =
      elim (make_state (str year) opened_at none) [
        | err e ↦ (err e, file)
        | ok s ↦ elim (load_school_year_state file) [
          | err e ↦ (err e, file)
          | ok found ↦ open_over writable s overwrite file found
        ]
      ]

  -- What `close_school_year` does with the state that it found.
  unfoldable pub close_over :
      Bool → DateTime → StateFile → Option SchoolYearState → Checked SchoolYearState × StateFile
  unfolding write_state
  close_over writable closed_at file none = (err none_open, file)
  close_over writable closed_at file (some old) = elim old.closed_at [
    | some _ ↦ (err already_closed, file)
    | none ↦ elim (make_state (str old.active_school_year) old.opened_at (some closed_at)) [
      | err e ↦ (err e, file)
      | ok s ↦ write_state writable s file
    ]
  ]

  unfoldable pub close_school_year :
      (writable : Bool) (closed_at : DateTime) → StateFile → Checked SchoolYearState × StateFile
  unfolding close_over
  close_school_year writable closed_at file = elim (load_school_year_state file) [
    | err e ↦ (err e, file)
    | ok found ↦ close_over writable closed_at file found
  ]
