-- ===== src/Examples/Calendars.antt =====
-- A calendar of a semester and its quarter.
use pds_core.Base.{
  ◌≡◌, refl, inl, inr, Option, none, some, List, [], ◌∷◌, Text, lit, ok, err, Bool, true, sort_by,
  strip, text_ltb, NoDup,
}
use pds_core.Json.{int_eq, int_ltb}
use pds_core.Dict.{get, put}
use pds_core.Time.{date_ltb, digit}
use pds_core.Identifiers.{validate_identifier, identifier_match}
use pds_core.SchoolYears.{validate_school_year, required_text, school_year_match}
use pds_core.Periods.{
  AcademicPeriod, AcademicPeriodCalendar, validate_academic_period, validate_label,
  period_identifier, optional_parent, period_school_year,
}
use pds_core.Periods.Hierarchy.{
  check_each, collect, in_school_year, check_parent, check_period, walk, start_path, walk_each,
  validate_no_cycles, option_eq, seen, contained, check_siblings,
  validate_academic_period_hierarchy, id_ltb,
}
use pds_core.Periods.Calendars.{
  validate_academic_period_calendar, index_from, keeps_id, keeps_type, check_transition,
  validate_academic_period_calendar_transition,
}
use mathlib.Core.Path.{subst}
use pds_core.Base.{
  if◌then◌else◌, false, In, ◌↔◌, ◌⊎◌, Ordered, Decides-inv, sym, ap, ◌∙◌, ◌>>=◌, Text, text_eq,
  lower,
}
use pds_core.Dict.{Dict}
use pds_core.Periods.{cycle}
use pds_core.Periods.Fields.{IsPeriod, validate_academic_period-Decides}
use pds_core.Periods.Hierarchy.{ids}
use pds_core.Periods.Hierarchy.Graph.{Ancestor, IsRooted, Closed}
use pds_core.Periods.Hierarchy.Ends.{validate_no_cycles_decides}
use pds_core.Periods.Hierarchy.Accepted.{
  at_root, IsHierarchy, validate_academic_period_hierarchy-IsHierarchy,
}
use pds_core.Periods.Hierarchy.Complete.{validate_academic_period_hierarchy-ok}
use pds_core.Periods.Calendars.Transitions.{validate_academic_period_calendar_transition_trans}
use pds_core.Periods.Shapes.{academic_period_calendar_to_dict, academic_period_calendar_from_dict}
use pds_core.Periods.{make_academic_period_ref}
use pds_core.Periods.Queries.{
  find_by_id, find_academic_period, required_period, get_academic_period,
  list_academic_period_ancestors,
}
use pds_core.Periods.Queries.Ancestors.{IsChain, list_academic_period_ancestors-IsChain}
use pds_core.Periods.Queries.Trees.{by_parent, children_of, list_academic_periods}
use pds_core.Periods.Queries.Trees.Forests.{IsForest}
use pds_core.Periods.Queries.Trees.Displayed.{list_academic_periods-IsComplete}
use pds_core.Periods.RoundTrips.{calendar_round_trip}
use pds_core.Examples.{plain, school_year_text, semester, quarter, calendar}

unfoldable pub running : Unit {0}
unfolding sort_by strip text_ltb int_eq int_ltb get put date_ltb digit validate_identifier
    identifier_match validate_school_year required_text school_year_match validate_academic_period
    validate_label period_identifier optional_parent period_school_year check_each collect
    in_school_year check_parent check_period walk start_path walk_each validate_no_cycles option_eq
    seen contained check_siblings validate_academic_period_hierarchy
    validate_academic_period_calendar index_from keeps_id keeps_type check_transition
    validate_academic_period_calendar_transition text_eq lower
running = tt

-- The periods are given in another order than they are kept in.
abbrev pub given : List AcademicPeriod
given = semester ∷ quarter ∷ []

abbrev pub kept : List AcademicPeriod
kept = quarter ∷ semester ∷ []

pub hierarchy_accepted : validate_academic_period_hierarchy school_year_text given ≡ ok kept
unfolding running
hierarchy_accepted = refl

pub first_accepted : validate_academic_period_calendar (calendar 1 given) ≡ ok (calendar 1 kept)
unfolding running
first_accepted = refl

second_follows :
    validate_academic_period_calendar_transition (calendar 1 given) (calendar 2 given)
    ≡ ok (calendar 2 kept)
unfolding running
second_follows = refl

third_follows :
    validate_academic_period_calendar_transition (calendar 2 given) (calendar 3 given)
    ≡ ok (calendar 3 kept)
unfolding running
third_follows = refl

validate_academic_period_hierarchy-IsHierarchy_example :
    (year : Text) × (period_school_year school_year_text ≡ ok year)
    × IsHierarchy year given
    × ((p : AcademicPeriod) → In p kept ↔ In p given)
    × Ordered id_ltb kept
validate_academic_period_hierarchy-IsHierarchy_example =
    validate_academic_period_hierarchy-IsHierarchy school_year_text given kept hierarchy_accepted

year_accepted : period_school_year school_year_text ≡ ok school_year_text
unfolding running
year_accepted = refl

pub alone_accepted :
    validate_academic_period_hierarchy school_year_text (semester ∷ []) ≡ ok (semester ∷ [])
unfolding running
alone_accepted = refl

semester-IsPeriod : IsPeriod semester
unfolding running
semester-IsPeriod = (Decides-inv _ semester _ (validate_academic_period-Decides semester) alone).1
  where
    alone : validate_academic_period semester ≡ ok semester
    alone = refl

alone_IsHierarchy : IsHierarchy school_year_text (semester ∷ [])
unfolding running
alone_IsHierarchy = record {
  valid = λ p i. subst IsPeriod (sym (only p i)) semester-IsPeriod;
  distinct = ((λ i. i), tt);
  siblings = ((λ i. i), tt);
  starts_in_year = λ p i.
      ap (λ (x : AcademicPeriod). in_school_year school_year_text x.start_date.year) (only p i);
  ends_in_year = λ p i.
      ap (λ (x : AcademicPeriod). in_school_year school_year_text x.end_date.year) (only p i);
  within = λ p i a e.
      absurd (none-ne-some (sym (ap (λ (x : AcademicPeriod). x.parent_period_id) (only p i)) ∙ e));
  rises = λ p i. at_root p (ap (λ (x : AcademicPeriod). x.parent_period_id) (only p i));
}
  where
    only : (p : AcademicPeriod) → In p (semester ∷ []) → p ≡ semester
    only p (inl e) = e
    only p (inr i) = absurd i

    none-ne-some : {a : Text} → ¬ (Path (Option Text) none (some a))
    none-ne-some e = cc

validate_academic_period_hierarchy-ok_example :
    validate_academic_period_hierarchy school_year_text (semester ∷ [])
    ≡ ok (sort_by id_ltb (semester ∷ []))
validate_academic_period_hierarchy-ok_example =
    validate_academic_period_hierarchy-ok school_year_text school_year_text (semester ∷ [])
      year_accepted alone_IsHierarchy

abbrev below : AcademicPeriod
below = record semester { parent_period_id = some (lit "q1") }

-- Two periods that are each other's parents.
abbrev ring : Dict AcademicPeriod
ring = (lit "q1", quarter) ∷ (lit "s1", below) ∷ []

ring_Closed : Closed ring
unfolding running
ring_Closed id a r = elim (choose (text_eq id (lit "q1")) (text_eq id (lit "s1")) r.found) [
  | inl e ↦ inr (inl (sym (some-inj (ap (λ (x : AcademicPeriod). x.parent_period_id) e ∙ r.named))))
  | inr e ↦ inl (sym (some-inj (ap (λ (x : AcademicPeriod). x.parent_period_id) e ∙ r.named)))
]
  where
    some-inj : {b : Text} → some b ≡ some a → b ≡ a
    some-inj e = cc

    choose :
        (b c : Bool) {p : AcademicPeriod}
        → (if b then some quarter else if c then some below else none) ≡ some p
        → (quarter ≡ p) ⊎ (below ≡ p)
    choose true c h = inl cc
    choose false true h = inr cc
    choose false false h = cc

validate_no_cycles_decides_example :
    ((validate_no_cycles ring ≡ ok tt) × ((id : Text) → In id (ids ring) → IsRooted ring id))
    ⊎ ((validate_no_cycles ring ≡ err cycle) × ((id : Text) × Ancestor ring id id))
validate_no_cycles_decides_example = validate_no_cycles_decides ring ring_Closed

validate_academic_period_calendar_transition_trans_example :
    validate_academic_period_calendar_transition (calendar 1 given) (calendar 3 given)
    ≡ ok (calendar 3 kept)
validate_academic_period_calendar_transition_trans_example =
    validate_academic_period_calendar_transition_trans (calendar 1 given) (calendar 2 given)
      (calendar 3 given) (calendar 2 kept) (calendar 3 kept) second_follows third_follows

calendar_round_trip_example :
    (academic_period_calendar_to_dict plain (calendar 1 given)
      >>= academic_period_calendar_from_dict plain)
    ≡ validate_academic_period_calendar (calendar 1 given)
calendar_round_trip_example = calendar_round_trip plain (calendar 1 given)

quarter_found : get_academic_period (calendar 1 given) (lit "q1") ≡ ok quarter
unfolding running make_academic_period_ref find_by_id find_academic_period required_period
    get_academic_period
quarter_found = refl

list_academic_period_ancestors-IsChain_example :
    (c : AcademicPeriodCalendar) × (validate_academic_period_calendar (calendar 1 given) ≡ ok c)
    × In quarter c.periods
    × ((qs : List AcademicPeriod) × (list_academic_period_ancestors (calendar 1 given) (lit "q1")
          ≡ ok qs)
        × IsChain c.periods quarter qs)
list_academic_period_ancestors-IsChain_example =
    list_academic_period_ancestors-IsChain (calendar 1 given) (lit "q1") quarter quarter_found

list_academic_periods-IsComplete_example :
    (ps : List AcademicPeriod) × (list_academic_periods (calendar 1 given) ≡ ok ps)
    × NoDup ps
    × ((p : AcademicPeriod) → In p ps ↔ In p kept)
    × IsForest (by_parent (calendar 1 kept)) (children_of none (by_parent (calendar 1 kept))) ps
list_academic_periods-IsComplete_example =
    list_academic_periods-IsComplete (calendar 1 given) (calendar 1 kept) first_accepted
