-- ===== src/Periods/Queries/Trees/Displayed.antt =====
-- The display order holds each period once: the loop over the stack ends.
use mathlib.Core.Path.{subst}
use pds_core.Base.{
  ℕ, zero, suc, ◌+◌, ◌≤◌, ◌≡◌, refl, sym, ◌∙◌, ap, inl, inr, ◌⊎◌, ◌↔◌, none, some, List, [], ◌∷◌,
  ◌++◌, Text, ok, In, NoDup, arith, length, length-append, pigeonhole, append-In, In-left, In-right,
  NoDup-append, NoDup-unmapped, same_key, some-inj,
}
use pds_core.Periods.{AcademicPeriod, AcademicPeriodCalendar}
use pds_core.Periods.Hierarchy.Accepted.{
  Rises, at_root, above, validate_academic_period_hierarchy-IsHierarchy,
}
use pds_core.Periods.Calendars.{validate_academic_period_calendar}
use pds_core.Periods.Calendars.Accepted.{validate_academic_period_calendar-IsCalendar}
use pds_core.Periods.Queries.Trees.{
  by_parent, children_of, preorder, queried, list_academic_periods,
}
use pds_core.Periods.Queries.Trees.Forests.{IsForest, preorder-IsForest}
use pds_core.Periods.Queries.Trees.Children.{children_of-In, NoDup-children_of}

-- An item keeps its place when one is popped and others are pushed.
moved :
    (p q : AcademicPeriod) (cs visited stack : List AcademicPeriod)
    → In q visited ⊎ In q (p ∷ stack)
    → In q (p ∷ visited) ⊎ In q (cs ++ stack)
moved p q cs visited stack (inl i) = inl (inr i)
moved p q cs visited stack (inr (inl e)) = inl (inl e)
moved p q cs visited stack (inr (inr i)) = inr (In-right q cs stack i)

-- An item that is there after the pop was there before, or was pushed.
origin :
    (p q : AcademicPeriod) (cs visited stack : List AcademicPeriod)
    → In q (p ∷ visited) ⊎ In q (cs ++ stack)
    → In q cs ⊎ (In q visited ⊎ In q (p ∷ stack))
origin p q cs visited stack (inl (inl e)) = inr (inr (inl e))
origin p q cs visited stack (inl (inr i)) = inr (inl i)
origin p q cs visited stack (inr i) = elim (append-In q cs stack i) [
  | inl j ↦ inl j
  | inr j ↦ inr (inr (inr j))
]

module _ (c : AcademicPeriodCalendar) (distinct : NoDup c.periods)
    (same_id : (p q : AcademicPeriod)
      → In p c.periods
      → In q c.periods
      → p.period_id ≡ q.period_id
      → p ≡ q) where
  -- `visited` was popped and `stack` was not: together they are distinct periods of the calendar. A
  -- period is in one of them if it is a root or its parent was popped, and only then.
  record IsVisit (visited stack : List AcademicPeriod) : Type 0 where
    pub popped : NoDup visited
    pub waiting : NoDup stack
    pub apart : (p : AcademicPeriod) → In p visited → ¬ In p stack
    pub known : (p : AcademicPeriod) → In p visited ⊎ In p stack → In p c.periods
    pub root :
        (p : AcademicPeriod)
        → In p c.periods
        → p.parent_period_id ≡ none
        → In p visited ⊎ In p stack
    pub child :
        (p q : AcademicPeriod)
        → In p c.periods
        → In q visited
        → p.parent_period_id ≡ some q.period_id
        → In p visited ⊎ In p stack
    pub reached :
        (p : AcademicPeriod) (a : Text)
        → In p visited ⊎ In p stack
        → p.parent_period_id ≡ some a
        → (q : AcademicPeriod) × In q visited × (q.period_id ≡ a)

  abbrev children : AcademicPeriod → List AcademicPeriod
  children p = children_of (some p.period_id) (by_parent c)

  -- A child of what is popped was not there before.
  pushed_is_new :
      (p q : AcademicPeriod) (visited stack : List AcademicPeriod)
      → IsVisit visited (p ∷ stack)
      → In q (children p)
      → ¬ (In q visited ⊎ In q (p ∷ stack))
  pushed_is_new p q visited stack v i j =
      let (_, named) = (children_of-In (some p.period_id) c q).0 i in
      let (r, k, same) = v.reached q p.period_id j named in
      v.apart p
        (subst (λ x. In x visited)
          (same_id r p (v.known r (inl k)) (v.known p (inr (inl refl))) same) k)
        (inl refl)

  IsVisit-pop :
      (p : AcademicPeriod) (visited stack : List AcademicPeriod)
      → IsVisit visited (p ∷ stack)
      → IsVisit (p ∷ visited) (children p ++ stack)
  IsVisit-pop p visited stack v = record {
    popped = ((λ i. v.apart p i (inl refl)), v.popped);
    waiting =
        NoDup-append (children p) stack (NoDup-children_of (some p.period_id) c distinct)
          v.waiting.1 (λ q i j. pushed_is_new p q visited stack v i (inr (inr j)));
    apart = λ q i j. elim (append-In q (children p) stack j) [
      | inl k ↦ pushed_is_new p q visited stack v k (elim i [ inl e ↦ inr (inl e) | inr l ↦ inl l ])
      | inr k ↦ elim i [
        | inl e ↦ v.waiting.0 (subst (λ x. In x stack) e k)
        | inr l ↦ v.apart q l (inr k)
      ]
    ];
    known = λ q i. elim (origin p q (children p) visited stack i) [
      | inl k ↦ ((children_of-In (some p.period_id) c q).0 k).0
      | inr k ↦ v.known q k
    ];
    root = λ q i e. moved p q (children p) visited stack (v.root q i e);
    child = λ q r i j named. elim j [
      | inl e ↦ inr (
          In-left q (children p) stack (
            (children_of-In (some p.period_id) c q).1
              (i, named ∙ ap (λ (x : AcademicPeriod). some x.period_id) e)))
      | inr k ↦ moved p q (children p) visited stack (v.child q r i k named)
    ];
    reached = λ q a i named. elim (origin p q (children p) visited stack i) [
      | inl k ↦
          (p, inl refl, some-inj (sym ((children_of-In (some p.period_id) c q).0 k).1 ∙ named))
      | inr k ↦ let (r, j, same) = v.reached q a k named in (r, inr j, same)
    ];
  }

  -- The periods that are still to be popped.
  record IsRest (visited rest : List AcademicPeriod) : Type 0 where
    pub single : NoDup rest
    pub new : (p : AcademicPeriod) → In p rest → In p c.periods × (¬ In p visited)
    pub all_there : (p : AcademicPeriod) → In p c.periods → In p visited ⊎ In p rest

  -- With an empty stack, everything that has a root above it was popped.
  finished :
      (visited : List AcademicPeriod) (p : AcademicPeriod)
      → IsVisit visited []
      → Rises c.periods p
      → In p c.periods
      → In p visited
  finished visited p v (at_root _ none_above) i = elim (v.root p i none_above) [
    | inl j ↦ j
    | inr j ↦ absurd j
  ]
  finished visited p v (above _ q known named r) i =
      elim (v.child p q i (finished visited q v r known) named) [ inl j ↦ j | inr j ↦ absurd j ]

  preorder-IsRest :
      (rises : (p : AcademicPeriod) → In p c.periods → Rises c.periods p) (fuel : ℕ)
      (visited stack : List AcademicPeriod)
      → IsVisit visited stack
      → length c.periods ≤ fuel + length visited
      → (rest : List AcademicPeriod) × (preorder fuel (by_parent c) stack ≡ ok rest)
        × IsRest visited rest
  unfolding preorder
  preorder-IsRest rises fuel visited [] v enough = (
    [],
    refl,
    record {
      single = tt;
      new = λ p i. absurd i;
      all_there = λ p i. inl (finished visited p v (rises p i) i);
    },
  )
  preorder-IsRest rises zero visited (p ∷ stack) v enough =
      let bound =
        pigeonhole (visited ++ p ∷ stack) c.periods
          (NoDup-append visited (p ∷ stack) v.popped v.waiting v.apart)
          (λ q i. v.known q (append-In q visited (p ∷ stack) i)) in
      absurd (omega (arith, bound, enough, length-append visited (p ∷ stack)))
  preorder-IsRest rises (suc fuel) visited (p ∷ stack) v enough =
      let (rest, ended, r) =
        preorder-IsRest rises fuel (p ∷ visited) (children p ++ stack)
          (IsVisit-pop p visited stack v) (omega (arith, enough)) in
      (
        p ∷ rest,
        rw ended refl,
        record {
          single = ((λ i. (r.new p i).1 (inl refl)), r.single);
          new = λ q i. elim i [
            | inl e ↦
                subst (λ x. In x c.periods × (¬ In x visited)) (sym e)
                  (v.known p (inr (inl refl)), (λ j. v.apart p j (inl refl)))
            | inr j ↦ let (known, fresh) = r.new q j in (known, (λ k. fresh (inr k)))
          ];
          all_there = λ q i. elim (r.all_there q i) [
            | inl j ↦ elim j [ inl e ↦ inr (inl e) | inr k ↦ inl k ]
            | inr j ↦ inr (inr j)
          ];
        },
      )

  IsVisit-roots : IsVisit [] (children_of none (by_parent c))
  IsVisit-roots = record {
    popped = tt;
    waiting = NoDup-children_of none c distinct;
    apart = λ p i. absurd i;
    known = λ p i. elim i [ inl j ↦ absurd j | inr j ↦ ((children_of-In none c p).0 j).0 ];
    root = λ p i e. inr ((children_of-In none c p).1 (i, e));
    child = λ p q i j. absurd j;
    reached = λ p a i named. elim i [
      | inl j ↦ absurd j
      | inr j ↦ cc (((children_of-In none c p).0 j).1, named)
    ];
  }

-- The display order of a valid calendar is returned, and it holds each period of the calendar exactly
-- once, in the depth-first preorder over the roots and the children of each period: the loop over the
-- stack ends.
pub list_academic_periods-IsComplete :
    (calendar c : AcademicPeriodCalendar)
    → validate_academic_period_calendar calendar ≡ ok c
    → (ps : List AcademicPeriod) × (list_academic_periods calendar ≡ ok ps)
      × NoDup ps
      × ((p : AcademicPeriod) → In p ps ↔ In p c.periods)
      × IsForest (by_parent c) (children_of none (by_parent c)) ps
unfolding list_academic_periods queried
list_academic_periods-IsComplete calendar c accepted =
    let v = validate_academic_period_calendar-IsCalendar calendar c accepted in
    let (_, _, h, _, _) =
      validate_academic_period_hierarchy-IsHierarchy c.school_year c.periods c.periods
        v.hierarchy in
    let distinct = NoDup-unmapped (λ (p : AcademicPeriod). p.period_id) c.periods h.distinct in
    let (ps, ended, r) =
      preorder-IsRest c distinct
        (same_key (λ (p : AcademicPeriod). p.period_id) c.periods h.distinct) h.rises
        (length c.periods) [] (children_of none (by_parent c))
        (IsVisit-roots c distinct
          (same_key (λ (p : AcademicPeriod). p.period_id) c.periods h.distinct))
        (omega arith) in
    (
      ps,
      rw accepted ended,
      r.single,
      (λ p. ((λ i. (r.new p i).0), (λ i. elim (r.all_there p i) [ inl j ↦ absurd j | inr j ↦ j ]))),
      preorder-IsForest (by_parent c) (length c.periods) _ ps ended,
    )
