-- ===== src/Periods/Queries/Trees/Children.antt =====
-- The dictionary of children holds, under each parent, the periods with that parent.
use pds_core.Base.{
  ◌≡◌, refl, sym, ◌∙◌, ap, inl, inr, ◌↔◌, Bool, true, false, Option, List, [], ◌∷◌, ◌++◌, Text,
  keep, In, NoDup, arith, Bool-cases, if◌then◌else◌, sort_by, In-sort_by, keep-In, In-keep,
  NoDup-keep, NoDup-sort_by, append_assoc, append-nil,
}
use pds_core.Periods.{AcademicPeriod, AcademicPeriodCalendar}
use pds_core.Periods.Hierarchy.{option_eq}
use pds_core.Periods.Hierarchy.Collected.{option_eq_iff}
use pds_core.Periods.Queries.Trees.{
  ByParent, append_child, collect_children, child_ltb, sort_children, by_parent, children_of,
}

abbrev has_parent : Option Text → AcademicPeriod → Bool
has_parent k p = option_eq p.parent_period_id k

children_of-append_child :
    (k : Option Text) (p : AcademicPeriod) (j : Option Text) (d : ByParent)
    → children_of k (append_child j p d)
      ≡ (if option_eq j k then children_of k d ++ p ∷ [] else children_of k d)
unfolding children_of append_child
children_of-append_child k p j [] = ground arith
children_of-append_child k p j ((i, ps) ∷ d) = ground (
  arith,
  children_of-append_child k p j d,
  option_eq_iff i j,
  option_eq_iff j k,
  option_eq_iff i k,
)

children_of-collect_children :
    (k : Option Text) (d : ByParent) (ps : List AcademicPeriod)
    → children_of k (collect_children d ps) ≡ children_of k d ++ keep (has_parent k) ps
unfolding collect_children
children_of-collect_children k d [] = sym (append-nil (children_of k d))
children_of-collect_children k d (p ∷ ps) =
    children_of-collect_children k (append_child p.parent_period_id p d) ps
    ∙ ap (λ l. l ++ keep (has_parent k) ps) (children_of-append_child k p p.parent_period_id d)
    ∙ moved (has_parent k p)
  where
    moved :
        (b : Bool)
        → (if b then children_of k d ++ p ∷ [] else children_of k d) ++ keep (has_parent k) ps
          ≡ children_of k d ++ (if b then p ∷ keep (has_parent k) ps else keep (has_parent k) ps)
    moved true = append_assoc (children_of k d) (p ∷ []) (keep (has_parent k) ps)
    moved false = refl

children_of-sort_children :
    (k : Option Text) (d : ByParent)
    → children_of k (sort_children d) ≡ sort_by child_ltb (children_of k d)
unfolding children_of sort_children sort_by
children_of-sort_children k [] = refl
children_of-sort_children k ((j, ps) ∷ d) = elim (Bool-cases (option_eq j k)) [
  | inl e ↦ rw e refl
  | inr e ↦ rw e (children_of-sort_children k d)
]

children_of-by_parent :
    (k : Option Text) (c : AcademicPeriodCalendar)
    → children_of k (by_parent c) ≡ sort_by child_ltb (keep (has_parent k) c.periods)
unfolding by_parent children_of
children_of-by_parent k c =
    children_of-sort_children k (collect_children [] c.periods)
    ∙ ap (sort_by child_ltb) (children_of-collect_children k [] c.periods)

-- The children of a parent are the periods of the calendar with that parent.
pub children_of-In :
    (k : Option Text) (c : AcademicPeriodCalendar) (p : AcademicPeriod)
    → In p (children_of k (by_parent c)) ↔ (In p c.periods × (p.parent_period_id ≡ k))
children_of-In k c p = (
  (λ i.
      let j =
        (In-sort_by child_ltb p (keep (has_parent k) c.periods)).0
          (rw (children_of-by_parent k c) at i) in
      let (known, named) = keep-In (has_parent k) p c.periods j in
      (known, (option_eq_iff p.parent_period_id k).0 named)),
  (λ h. rw (children_of-by_parent k c) (
      (In-sort_by child_ltb p (keep (has_parent k) c.periods)).1
        (In-keep (has_parent k) p c.periods h.0 ((option_eq_iff p.parent_period_id k).1 h.1)))),
)

pub NoDup-children_of :
    (k : Option Text) (c : AcademicPeriodCalendar)
    → NoDup c.periods
    → NoDup (children_of k (by_parent c))
NoDup-children_of k c d = rw (children_of-by_parent k c) (
    NoDup-sort_by child_ltb (keep (has_parent k) c.periods) (NoDup-keep (has_parent k) c.periods d))
