-- ===== src/Examples/Years.antt =====
-- The school year of a workspace.
use pds_core.Base.{◌≡◌, refl, true, false, none, some, [], ◌∷◌, lit, ok, err, strip, text_eq}
use pds_core.Json.{str, item}
use pds_core.Time.{digit}
use pds_core.SchoolYears.{validate_school_year, required_text, school_year_match}
use pds_core.SchoolYears.Workspace.{
  other_year_open, write_failed, SchoolYearState, StateFile, missing, make_state, exact_state,
  state_to_dict, state_from_dict, load_school_year_state, get_active_school_year, write_state,
  open_over, open_school_year, close_over, close_school_year,
}
use pds_core.SchoolYears.Workspace.Lifecycle.{IsState, load-open, load-close}
use pds_core.SchoolYears.Workspace.Events.{
  opening, closing, IsLoadable, happen_all, happen_all-IsLoadable,
}
use pds_core.Examples.{plain, at, school_year_text}

running : Unit {0}
unfolding validate_school_year required_text school_year_match strip text_eq digit item make_state
    exact_state state_to_dict state_from_dict load_school_year_state get_active_school_year
    write_state open_over open_school_year close_over close_school_year
running = tt

abbrev opened : SchoolYearState
opened = record { active_school_year = school_year_text; opened_at = at 10; closed_at = none }

abbrev closed : SchoolYearState
closed = record opened { closed_at = some (at 30) }

abbrev open_file : StateFile
open_file = (open_school_year plain true (lit " 2025-2026") (at 10) false missing).1

padded_valid : validate_school_year (str (lit " 2025-2026")) ≡ ok school_year_text
unfolding running
padded_valid = refl

opens : (open_school_year plain true (lit " 2025-2026") (at 10) false missing).0 ≡ ok opened
unfolding running
opens = refl

load-open_example :
    IsState opened
    × (opened.closed_at ≡ none)
    × (load_school_year_state plain open_file ≡ ok (some opened))
    × (get_active_school_year plain open_file ≡ ok (some school_year_text))
load-open_example = load-open plain true (lit " 2025-2026") (at 10) false missing opened opens

closes : (close_school_year plain true (at 30) open_file).0 ≡ ok closed
unfolding running
closes = refl

load-close_example :
    (old : SchoolYearState) × (load_school_year_state plain open_file ≡ ok (some old))
    × (old.closed_at ≡ none)
    × IsState closed
    × (closed.active_school_year ≡ old.active_school_year)
    × (closed.opened_at ≡ old.opened_at)
    × (closed.closed_at ≡ some (at 30))
    × (load_school_year_state plain (close_school_year plain true (at 30) open_file).1
        ≡ ok (some closed))
    × (get_active_school_year plain (close_school_year plain true (at 30) open_file).1 ≡ ok none)
load-close_example = load-close plain true (at 30) open_file closed closes

other_refused :
    (open_school_year plain true (lit "2026-2027") (at 20) false open_file).0 ≡ err other_year_open
unfolding running
other_refused = refl

close_fails : (close_school_year plain false (at 30) open_file).0 ≡ err write_failed
unfolding running
close_fails = refl

missing_IsLoadable : IsLoadable plain missing
unfolding running
missing_IsLoadable = record { found = none; loads = refl }

happen_all-IsLoadable_example : IsLoadable plain (
    happen_all plain
      (opening true school_year_text (at 10) false ∷ closing false (at 30) ∷ [])
      missing)
happen_all-IsLoadable_example =
    happen_all-IsLoadable plain
      (opening true school_year_text (at 10) false ∷ closing false (at 30) ∷ []) missing
      missing_IsLoadable
