-- ===== src/Periods/Queries/Trees.antt =====
-- The children, descendants and display order of pds_core/academic_period_queries.py.
pub mod Children
pub mod Forests
pub mod Displayed
pub mod Descendants
use pds_core.Base.{
  ℕ, zero, suc, Bool, true, false, not, ◌&&◌, ◌||◌, Option, none, some, List, [], ◌∷◌, ◌++◌, map,
  Text, Outcome, ok, err, ◌>>=◌, ◌>>◌, guard, reraise, keep, elem, length, text_eq, text_ltb,
  sort_by, if◌then◌else◌,
}
use pds_core.Json.{int_eq, int_ltb}
use pds_core.Time.{Date, date_ltb}
use pds_core.Periods.{
  AcademicPeriod, AcademicPeriodCalendar, bad_type, bad_lifecycle, period_types, lifecycles,
}
use pds_core.Periods.Hierarchy.{option_eq}
use pds_core.Periods.Calendars.{validate_academic_period_calendar}
use pds_core.Periods.Queries.{invalid, unending, Queried, get_academic_period}

-- `dict[str | None, list[AcademicPeriod]]`
abbrev pub ByParent : Type 0
ByParent = List (Option Text × List AcademicPeriod)

-- `collected.setdefault(k, []).append(p)`
unfoldable pub append_child : Option Text → AcademicPeriod → ByParent → ByParent
append_child k p [] = (k, p ∷ []) ∷ []
append_child k p ((j, ps) ∷ d) =
    let rest = append_child k p d in if option_eq j k then (j, ps ++ p ∷ []) ∷ d else (j, ps) ∷ rest

unfoldable pub collect_children : ByParent → List AcademicPeriod → ByParent
collect_children d [] = d
collect_children d (p ∷ ps) = collect_children (append_child p.parent_period_id p d) ps

-- `key=lambda period: (period.sequence, period.period_id)`
unfoldable pub child_ltb : AcademicPeriod → AcademicPeriod → Bool
child_ltb a b =
    int_ltb a.sequence b.sequence
    || (int_eq a.sequence b.sequence && text_ltb a.period_id b.period_id)

unfoldable pub sort_children : ByParent → ByParent
sort_children [] = []
sort_children ((k, ps) ∷ d) = (k, sort_by child_ltb ps) ∷ sort_children d

unfoldable pub by_parent : AcademicPeriodCalendar → ByParent
by_parent c = sort_children (collect_children [] c.periods)

-- `by_parent.get(k, ())`
unfoldable pub children_of : Option Text → ByParent → List AcademicPeriod
children_of k [] = []
children_of k ((j, ps) ∷ d) = let rest = children_of k d in if option_eq j k then ps else rest

-- `_preorder_periods`, with the top of the stack first. The fuel bounds its rounds; `unending` is no
-- exception of the source.
unfoldable pub preorder : ℕ → ByParent → List AcademicPeriod → Queried (List AcademicPeriod)
preorder fuel d [] = ok []
preorder zero d (p ∷ stack) = err unending
preorder (suc fuel) d (p ∷ stack) = do
  rest ← preorder fuel d (children_of (some p.period_id) d ++ stack)
  ok (p ∷ rest)

-- `_calendar`
unfoldable pub queried : AcademicPeriodCalendar → Queried AcademicPeriodCalendar
queried calendar = reraise invalid (validate_academic_period_calendar calendar)

unfoldable pub list_academic_periods : AcademicPeriodCalendar → Queried (List AcademicPeriod)
list_academic_periods calendar = do
  c ← queried calendar
  preorder (length c.periods) (by_parent c) (children_of none (by_parent c))

unfoldable pub list_root_academic_periods : AcademicPeriodCalendar → Queried (List AcademicPeriod)
list_root_academic_periods calendar = do c ← queried calendar; ok (children_of none (by_parent c))

unfoldable pub list_child_academic_periods :
    AcademicPeriodCalendar → Text → Queried (List AcademicPeriod)
list_child_academic_periods calendar id = do
  c ← queried calendar
  parent ← get_academic_period c id
  ok (children_of (some parent.period_id) (by_parent c))

unfoldable pub list_academic_period_descendants :
    AcademicPeriodCalendar → Text → Queried (List AcademicPeriod)
list_academic_period_descendants calendar id = do
  c ← queried calendar
  parent ← get_academic_period c id
  preorder (length c.periods) (by_parent c) (children_of (some parent.period_id) (by_parent c))

unfoldable pub list_academic_periods_by_type :
    AcademicPeriodCalendar → Text → Queried (List AcademicPeriod)
list_academic_periods_by_type calendar period_type = do
  guard (elem period_type period_types) (invalid bad_type)
  ps ← list_academic_periods calendar
  ok (keep (λ p. text_eq p.period_type period_type) ps)

unfoldable pub list_academic_periods_by_lifecycle :
    AcademicPeriodCalendar → Text → Queried (List AcademicPeriod)
list_academic_periods_by_lifecycle calendar lifecycle = do
  guard (elem lifecycle lifecycles) (invalid bad_lifecycle)
  ps ← list_academic_periods calendar
  ok (keep (λ p. text_eq p.lifecycle lifecycle) ps)

unfoldable pub list_academic_periods_containing_date :
    AcademicPeriodCalendar → Date → Queried (List AcademicPeriod)
list_academic_periods_containing_date calendar target = do
  ps ← list_academic_periods calendar
  ok (keep (λ p. not (date_ltb target p.start_date) && not (date_ltb p.end_date target)) ps)
