-- ===== src/Periods/Hierarchy/Complete.antt =====
-- The converse of what an accepted hierarchy satisfies.
use mathlib.Core.Path.{subst}
use pds_core.Base.{
  ◌≡◌, refl, ap, ◌∙◌, ◌≢◌, inl, inr, true, false, Option, none, some, List, [], ◌∷◌, map, Text, ok,
  each, In, NoDup, text_eq, text_eq-false, arith, Bool-cases, sort_by, Decides-ok, suc,
}
use pds_core.Json.{ℤ, int_eq, int_eq_iff}
use pds_core.Dict.{Dict, get, put, has, get-put}
use pds_core.Periods.{Checked, AcademicPeriod, validate_academic_period, period_school_year}
use pds_core.Periods.Fields.{IsPeriod, validate_academic_period-Decides}
use pds_core.Periods.Hierarchy.{
  check_each, collect, check_parent, check_period, validate_no_cycles, contained, check_siblings,
  id_ltb, ids, option_eq, Siblings, seen, validate_academic_period_hierarchy,
}
use pds_core.Periods.Hierarchy.Graph.{
  top, step, IsRooted, IsRooted-acyclic, Ancestor, direct, further,
}
use pds_core.Periods.Hierarchy.Walks.{get-In, In-get}
use pds_core.Periods.Hierarchy.Ends.{validate_no_cycles_decides}
use pds_core.Periods.Hierarchy.Collected.{
  period_ids, Collected, collect-Collected, sibling_key, option_eq_iff,
}
use pds_core.Periods.Hierarchy.Accepted.{
  Rises, at_root, above, IsHierarchy, check_period-Closed, found-In,
}

each-ok :
    (ps : List AcademicPeriod)
    → ((p : AcademicPeriod) → In p ps → IsPeriod p)
    → each validate_academic_period ps ≡ ok ps
each-ok [] v = refl
each-ok (p ∷ ps) v = rw (
  Decides-ok _ p _ (validate_academic_period-Decides p) (v p (inl refl)),
  each-ok ps (λ q i. v q (inr i)),
)

each_check-ok :
    (f : AcademicPeriod → Checked (Unit {0})) (ps : List AcademicPeriod)
    → ((p : AcademicPeriod) → In p ps → f p ≡ ok tt)
    → check_each f ps ≡ ok tt
unfolding check_each
each_check-ok f [] h = refl
each_check-ok f (p ∷ ps) h = rw (h p (inl refl)) (each_check-ok f ps (λ q i. h q (inr i)))

pub collect-ok :
    (d : Dict AcademicPeriod) (ps : List AcademicPeriod)
    → NoDup (period_ids ps)
    → ((k : Text) → In k (period_ids ps) → get k d ≡ none)
    → (by_id : Dict AcademicPeriod) × (collect d ps ≡ ok by_id)
unfolding collect
collect-ok d [] n fresh = (d, refl)
collect-ok d (p ∷ ps) n fresh =
    let (by_id, e) = collect-ok (put p.period_id p d) ps n.1 (λ k i.
      rw
        (
          get-put p.period_id k p d,
          text_eq-false k p.period_id (λ same. n.0 (subst (λ x. In x (period_ids ps)) same i)),
        )
        (fresh k (inr i))) in
    (by_id, ground (arith, fresh p.period_id (inl refl)))

seen-inv :
    (parent : Option Text) (n : ℤ) (met : Siblings) → seen parent n met ≡ true → In (parent, n) met
unfolding seen
seen-inv parent n [] h = cc
seen-inv parent n ((a, m) ∷ met) h = elim (Bool-cases (option_eq parent a)) [
  | inl e ↦ elim (Bool-cases (int_eq n m)) [
    | inl f ↦ inl (λ i. ((option_eq_iff parent a).0 e i, (int_eq_iff n m).0 f i))
    | inr f ↦ inr (seen-inv parent n met (ground arith))
  ]
  | inr e ↦ inr (seen-inv parent n met (ground arith))
]

check_siblings-ok :
    (by_id : Dict AcademicPeriod) (met : Siblings) (ps : List AcademicPeriod)
    → ((p : AcademicPeriod) → In p ps → contained by_id p p.parent_period_id ≡ ok tt)
    → NoDup (map sibling_key ps)
    → ((k : Option Text × ℤ) → In k (map sibling_key ps) → ¬ In k met)
    → check_siblings by_id met ps ≡ ok tt
unfolding check_siblings
check_siblings-ok by_id met [] inside n fresh = refl
check_siblings-ok by_id met (p ∷ ps) inside n fresh =
    elim (Bool-cases (seen p.parent_period_id p.sequence met)) [
      | inl e ↦
          absurd (fresh (sibling_key p) (inl refl) (seen-inv p.parent_period_id p.sequence met e))
      | inr e ↦
          rw (inside p (inl refl), e)
            (check_siblings-ok by_id (sibling_key p ∷ met) ps (λ q i. inside q (inr i)) n.1
              (λ k i j. elim j [
                | inl same ↦ n.0 (subst (λ x. In x (map sibling_key ps)) same i)
                | inr m ↦ fresh k (inr i) m
              ]))
    ]

module _ (year : Text) (ps : List AcademicPeriod) (v : IsHierarchy year ps)
    (by_id : Dict AcademicPeriod) (c : Collected [] by_id ps) where
  has-In : (p : AcademicPeriod) → In p ps → has p.period_id by_id ≡ true
  has-In p i = ground (arith, c.holds p i)

  pub Rises-IsRooted : (p : AcademicPeriod) → In p ps → Rises ps p → IsRooted by_id p.period_id
  Rises-IsRooted p i (at_root q e) = (0, top p (c.holds p i) e)
  Rises-IsRooted p i (above q r j e up) =
      let (n, h) = Rises-IsRooted r j up in
      (suc n, step (record { period = p; found = c.holds p i; named = e }) h)

  all-IsRooted : (id : Text) → In id (ids by_id) → IsRooted by_id id
  all-IsRooted id i =
      let (p, found) = In-get id by_id i in
      let (j, named) = found-In by_id ps c id p found in
      subst (λ x. IsRooted by_id x) named (Rises-IsRooted p j (v.rises p j))

  not_own_parent : (p : AcademicPeriod) → In p ps → p.parent_period_id ≢ some p.period_id
  not_own_parent p i e =
      IsRooted-acyclic by_id (Rises-IsRooted p i (v.rises p i))
        (direct (record { period = p; found = c.holds p i; named = e }))

  check_parent-ok :
      (p : AcademicPeriod)
      → In p ps
      → (o : Option Text) → p.parent_period_id ≡ o
      → check_parent by_id p o ≡ ok tt
  unfolding check_parent
  check_parent-ok p i none e = refl
  check_parent-ok p i (some a) e =
      let (q, j, named, _, _) = v.within p i a e in
      let other : text_eq a p.period_id ≡ false =
        text_eq-false a p.period_id (λ same. not_own_parent p i (e ∙ ap some same)) in
      let known : has a by_id ≡ true = subst (λ x. has x by_id ≡ true) named (has-In q j) in
      ground (arith, other, known)

  check_period-ok : (p : AcademicPeriod) → In p ps → check_period year by_id p ≡ ok tt
  unfolding check_period
  check_period-ok p i =
      rw (v.starts_in_year p i, v.ends_in_year p i) (check_parent-ok p i p.parent_period_id refl)

  contained-ok :
      (p : AcademicPeriod)
      → In p ps
      → (o : Option Text) → p.parent_period_id ≡ o
      → contained by_id p o ≡ ok tt
  unfolding contained
  contained-ok p i none e = refl
  contained-ok p i (some a) e =
      let (q, j, named, starts, ends) = v.within p i a e in
      let found : get a by_id ≡ some q = subst (λ x. get x by_id ≡ some q) named (c.holds q j) in
      ground (arith, found, starts, ends)

  starts-In : (id : Text) {a : Text} → Ancestor by_id id a → In id (ids by_id)
  starts-In id (direct r) = get-In id by_id {p = r.period} r.found
  starts-In id (further up r) = starts-In id up

  no_cycles-ok : validate_no_cycles by_id ≡ ok tt
  no_cycles-ok =
      elim (validate_no_cycles_decides by_id
        (check_period-Closed by_id ps c year check_period-ok)) [
          | inl (e, _) ↦ e
          | inr (_, (id, up)) ↦
              absurd (IsRooted-acyclic by_id (all-IsRooted id (starts-In id up)) up)
        ]

-- A hierarchy of a school year is accepted.
pub validate_academic_period_hierarchy-ok :
    (school_year year : Text) (ps : List AcademicPeriod)
    → period_school_year school_year ≡ ok year
    → IsHierarchy year ps
    → validate_academic_period_hierarchy school_year ps ≡ ok (sort_by id_ltb ps)
unfolding validate_academic_period_hierarchy get
validate_academic_period_hierarchy-ok school_year year ps dated v =
    let (by_id, gathered) = collect-ok [] ps v.distinct (λ k i. refl) in
    let c = collect-Collected [] ps gathered in
    let checked : check_each (check_period year by_id) ps ≡ ok tt =
      each_check-ok (check_period year by_id) ps (check_period-ok year ps v by_id c) in
    rw (
      dated,
      each-ok ps v.valid,
      gathered,
      checked,
      no_cycles-ok year ps v by_id c,
      check_siblings-ok by_id [] ps
          (λ p i. contained-ok year ps v by_id c p i p.parent_period_id refl) v.siblings
          (λ k i j. j),
    )
