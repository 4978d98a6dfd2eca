-- ===== src/SchoolYears/Workspace/Lifecycle.antt =====
-- What a workspace's school year does over its life.
use mathlib.Core.Path.{subst}
use pds_core.Base.{
  ◌≡◌, refl, ◌⊎◌, inl, inr, Bool, true, Option, none, some, Text, lit, ok, err, reraise, text_eq,
  arith, >>=-eq-ok, reraise-eq-ok,
}
use pds_core.Json.{Value, str, dict, Fields, item}
use pds_core.Time.{DateTime, is_aware, IsoText}
use pds_core.SchoolYears.{validate_school_year}
use pds_core.SchoolYears.Laws.{
  IsSchoolYear, validate_school_year-IsSchoolYear, validate_school_year-ok,
}
use pds_core.SchoolYears.Workspace.{
  SchoolYearStateError, mapping, school_year, SchoolYearState, optional_aware, in_order, make_state,
  StateFile, missing, holds, exact_state, datetime_from_json, optional_datetime, optional_iso,
  state_to_dict, state_from_dict, load_school_year_state, get_active_school_year, write_state,
  open_over, open_school_year, close_over, close_school_year,
}

pub record IsState (s : SchoolYearState) : Type 0 where
  pub year : IsSchoolYear s.active_school_year
  pub opened : is_aware s.opened_at ≡ true
  pub closed : optional_aware s.closed_at ≡ true
  pub order : in_order s.opened_at s.closed_at ≡ true

make_state-inv :
    (y : Value) (o : DateTime) (c : Option DateTime) {s : SchoolYearState}
    → make_state y o c ≡ ok s
    → IsState s
      × (s.opened_at ≡ o)
      × (s.closed_at ≡ c)
      × (validate_school_year y ≡ ok s.active_school_year)
unfolding make_state
make_state-inv y o c {s} h =
    let (t, named, h1) = >>=-eq-ok (reraise school_year (validate_school_year y)) _ h in
    let valid = validate_school_year-IsSchoolYear y (reraise-eq-ok school_year _ named) in
    let kept : t ≡ s.active_school_year = ground arith in
    (
      record {
        year = subst IsSchoolYear kept valid;
        opened = ground arith;
        closed = ground arith;
        order = ground arith;
      },
      ground arith,
      ground arith,
      cc (reraise-eq-ok school_year (validate_school_year y) named),
    )

make_state-ok :
    (s : SchoolYearState)
    → IsState s
    → make_state (str s.active_school_year) s.opened_at s.closed_at ≡ ok s
unfolding make_state
make_state-ok s v = rw (validate_school_year-ok s.active_school_year v.year) (ground arith)

module _ (iso : IsoText) where
  open iso use {isoformat, fromisoformat, reads}

  datetime_from_json-isoformat :
      (d : DateTime) → is_aware d ≡ true → datetime_from_json iso (str (isoformat d)) ≡ ok d
  unfolding datetime_from_json
  datetime_from_json-isoformat d h = ground (arith, reads d)

  optional_datetime-iso :
      (o : Option DateTime)
      → optional_aware o ≡ true
      → optional_datetime iso (optional_iso iso o) ≡ ok o
  unfolding optional_datetime optional_iso
  optional_datetime-iso none h = refl
  optional_datetime-iso (some d) h = rw (datetime_from_json-isoformat d h)

  -- A valid state is read back from the dictionary that is written.
  state_round_trip :
      (s : SchoolYearState) → IsState s → state_from_dict iso (state_to_dict iso s) ≡ ok s
  unfolding state_from_dict state_to_dict exact_state item text_eq
  state_round_trip s v = rw (
    optional_datetime-iso s.closed_at v.closed,
    datetime_from_json-isoformat s.opened_at v.opened,
    make_state-ok s v,
  )

  load-written :
      (s : SchoolYearState)
      → IsState s
      → load_school_year_state iso (holds (dict (state_to_dict iso s))) ≡ ok (some s)
  unfolding load_school_year_state
  load-written s v = rw (state_round_trip s v)

  -- A state that was loaded is valid.
  state_from_dict-IsState :
      (fs : Fields) {s : SchoolYearState} → state_from_dict iso fs ≡ ok s → IsState s
  unfolding state_from_dict
  state_from_dict-IsState fs h =
      let (_, _, h1) = >>=-eq-ok (exact_state fs) _ h in
      let (given, _, h2) = >>=-eq-ok (reraise mapping (item (lit "closed_at") fs)) _ h1 in
      let (closed, _, h3) = >>=-eq-ok (optional_datetime iso given) _ h2 in
      let (year, _, h4) = >>=-eq-ok (reraise mapping (item (lit "active_school_year") fs)) _ h3 in
      let (at, _, h5) = >>=-eq-ok (reraise mapping (item (lit "opened_at") fs)) _ h4 in
      let (opened, _, h6) = >>=-eq-ok (datetime_from_json iso at) _ h5 in
      (make_state-inv year opened closed h6).0

  load-IsState :
      (file : StateFile) {s : SchoolYearState}
      → load_school_year_state iso file ≡ ok (some s)
      → IsState s
  unfolding load_school_year_state
  load-IsState missing h = cc
  load-IsState (holds (dict fs)) h =
      let (s, found, same) = >>=-eq-ok (state_from_dict iso fs) _ h in
      state_from_dict-IsState fs (ground arith)
  load-IsState _ h = cc

  -- An opening that raises leaves the state file as it was, whatever the reason.
  pub open_school_year_atomic :
      (writable : Bool) (year : Text) (at : DateTime) (overwrite : Bool) (file : StateFile)
      {e : SchoolYearStateError}
      → (open_school_year iso writable year at overwrite file).0 ≡ err e
      → (open_school_year iso writable year at overwrite file).1 ≡ file
  unfolding open_school_year open_over
  open_school_year_atomic writable year at overwrite file h = ground arith

  -- A closing that raises leaves the state file as it was, whatever the reason.
  pub close_school_year_atomic :
      (writable : Bool) (at : DateTime) (file : StateFile) {e : SchoolYearStateError}
      → (close_school_year iso writable at file).0 ≡ err e
      → (close_school_year iso writable at file).1 ≡ file
  unfolding close_school_year close_over
  close_school_year_atomic writable at file h = ground arith

  -- The two ways in which a school year is opened: it is written, or it was open already.
  open-result :
      (writable : Bool) (year : Text) (at : DateTime) (overwrite : Bool) (file : StateFile)
      {s : SchoolYearState}
      → (open_school_year iso writable year at overwrite file).0 ≡ ok s
      → (make_state (str year) at none ≡ ok s)
          × ((open_school_year iso writable year at overwrite file).1
              ≡ holds (dict (state_to_dict iso s)))
        ⊎ (load_school_year_state iso file ≡ ok (some s))
          × (s.closed_at ≡ none)
          × ((open_school_year iso writable year at overwrite file).1 ≡ file)
  unfolding open_school_year open_over write_state
  open-result writable year at overwrite file h = ground arith

  close-result :
      (writable : Bool) (at : DateTime) (file : StateFile) {s : SchoolYearState}
      → (close_school_year iso writable at file).0 ≡ ok s
      → (old : SchoolYearState) × (load_school_year_state iso file ≡ ok (some old))
        × (old.closed_at ≡ none)
        × (make_state (str old.active_school_year) old.opened_at (some at) ≡ ok s)
        × ((close_school_year iso writable at file).1 ≡ holds (dict (state_to_dict iso s)))
  unfolding close_school_year close_over write_state
  close-result writable at file h = ground arith

  -- After a successful open, the state that was returned is the one that is loaded; it is valid and
  -- not closed, and its year is the active one.
  pub load-open :
      (writable : Bool) (year : Text) (at : DateTime) (overwrite : Bool) (file : StateFile)
      (s : SchoolYearState)
      → (open_school_year iso writable year at overwrite file).0 ≡ ok s
      → IsState s
        × (s.closed_at ≡ none)
        × (load_school_year_state iso (open_school_year iso writable year at overwrite file).1
            ≡ ok (some s))
        × (get_active_school_year iso (open_school_year iso writable year at overwrite file).1
            ≡ ok (some s.active_school_year))
  unfolding get_active_school_year
  load-open writable year at overwrite file s h =
      elim (open-result writable year at overwrite file h) [
        | inl (made, written) ↦
            let (v, _, fresh, _) = make_state-inv (str year) at none made in
            let loaded = load-written s v in (v, fresh, rw written loaded, ground (arith, loaded))
        | inr (loaded, fresh, same) ↦
            (load-IsState file loaded, fresh, rw same loaded, ground arith)
      ]

  -- After a successful close, the closed state is loaded: it keeps the year and the opening time of
  -- the open state that was found, it is closed at the given time, and no year is active.
  pub load-close :
      (writable : Bool) (at : DateTime) (file : StateFile) (s : SchoolYearState)
      → (close_school_year iso writable at file).0 ≡ ok s
      → (old : SchoolYearState) × (load_school_year_state iso file ≡ ok (some old))
        × (old.closed_at ≡ none)
        × IsState s
        × (s.active_school_year ≡ old.active_school_year)
        × (s.opened_at ≡ old.opened_at)
        × (s.closed_at ≡ some at)
        × (load_school_year_state iso (close_school_year iso writable at file).1 ≡ ok (some s))
        × (get_active_school_year iso (close_school_year iso writable at file).1 ≡ ok none)
  unfolding get_active_school_year
  load-close writable at file s h =
      let (old, found, was_open, made, written) = close-result writable at file h in
      let (v, same, closed, named) =
        make_state-inv (str old.active_school_year) old.opened_at (some at) made in
      let loaded = load-written s v in
      (
        old,
        found,
        was_open,
        v,
        cc (validate_school_year-ok _ (load-IsState file found).year),
        same,
        closed,
        rw written loaded,
        ground (arith, loaded),
      )
