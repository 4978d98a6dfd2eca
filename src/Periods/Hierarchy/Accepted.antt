-- ===== src/Periods/Hierarchy/Accepted.antt =====
-- What an accepted hierarchy satisfies.
use mathlib.Core.Path.{subst}
use pds_core.Base.{
  ℕ, ◌≡◌, ◌↔◌, inl, inr, true, false, none, some, List, [], map, Text, ok, each, In, NoDup, arith,
  >>=-eq-ok, Option-cases, In-sort_by, Ordered, sort_by-Ordered, text_ltb_asym, sort_by,
}
use pds_core.Dict.{Dict, get, has}
use pds_core.Time.{date_ltb}
use pds_core.Periods.{AcademicPeriod, validate_academic_period, period_school_year}
use pds_core.Periods.Fields.{IsPeriod}
use pds_core.Periods.Hierarchy.{
  check_each, collect, in_school_year, check_parent, check_period, validate_no_cycles, contained,
  check_siblings, id_ltb, ids, validate_academic_period_hierarchy,
}
use pds_core.Periods.Hierarchy.Graph.{Height, top, step, IsRooted, Closed}
use pds_core.Periods.Hierarchy.Walks.{get-In, In-get}
use pds_core.Periods.Hierarchy.Ends.{validate_no_cycles_decides}
use pds_core.Periods.Hierarchy.Collected.{
  check_each-ok, each-validated, period_ids, Collected, collect-Collected, sibling_key,
  check_siblings-SiblingsInOrder,
}

-- By parents that stand in the list, the period has a root above it.
pub data Rises (ps : List AcademicPeriod) : AcademicPeriod → Type 0 where
  at_root : (p : AcademicPeriod) → p.parent_period_id ≡ none → Rises ps p
  above :
      (p q : AcademicPeriod)
      → In q ps
      → p.parent_period_id ≡ some q.period_id
      → Rises ps q
      → Rises ps p

-- The period lies within the dates of its parent, which stands in the list.
abbrev pub IsWithin : List AcademicPeriod → AcademicPeriod → Type 0
IsWithin ps p =
    (a : Text)
    → p.parent_period_id ≡ some a
    → (q : AcademicPeriod) × In q ps
      × (q.period_id ≡ a)
      × (date_ltb p.start_date q.start_date ≡ false)
      × (date_ltb q.end_date p.end_date ≡ false)

pub record IsHierarchy (year : Text) (ps : List AcademicPeriod) : Type 0 where
  pub valid : (p : AcademicPeriod) → In p ps → IsPeriod p
  pub distinct : NoDup (period_ids ps)
  pub siblings : NoDup (map sibling_key ps)
  pub starts_in_year : (p : AcademicPeriod) → In p ps → in_school_year year p.start_date.year ≡ true
  pub ends_in_year : (p : AcademicPeriod) → In p ps → in_school_year year p.end_date.year ≡ true
  pub within : (p : AcademicPeriod) → In p ps → IsWithin ps p
  pub rises : (p : AcademicPeriod) → In p ps → Rises ps p

module _ (by_id : Dict AcademicPeriod) (ps : List AcademicPeriod) (c : Collected [] by_id ps) where
  pub found-In :
      (k : Text) (p : AcademicPeriod) → get k by_id ≡ some p → In p ps × (p.period_id ≡ k)
  unfolding get
  found-In k p e = elim (c.only k p e) [ inl g ↦ cc | inr i ↦ i ]

  Height-In : {id : Text} {n : ℕ} → Height by_id id n → In id (ids by_id)
  Height-In {id} (top q found none_above) = get-In id by_id {p = q} found
  Height-In {id} (step r h) = get-In id by_id {p = r.period} r.found

  pub check_period-Closed :
      (year : Text)
      → ((p : AcademicPeriod) → In p ps → check_period year by_id p ≡ ok tt)
      → Closed by_id
  unfolding check_period check_parent
  check_period-Closed year checked id a r =
      let (i, named) = found-In id r.period r.found in
      let known : has a by_id ≡ true = ground (arith, checked r.period i, r.named) in
      elim (Option-cases (get a by_id)) [
        | inl absent ↦ cc
        | inr (p, found) ↦ get-In a by_id {p = p} found
      ]

  Height-Rises :
      {id : Text} {n : ℕ}
      → Height by_id id n
      → (p : AcademicPeriod) → get id by_id ≡ some p
      → Rises ps p
  Height-Rises (top q found none_above) p e =
      let same : q ≡ p = cc (found, e) in
      at_root p (subst (λ (x : AcademicPeriod). x.parent_period_id ≡ none) same none_above)
  Height-Rises (step {a = a} r h) p e =
      let same : r.period ≡ p = cc (r.found, e) in
      let (q, found) = In-get a by_id (Height-In h) in
      let (i, named) = found-In a q found in
      above p q i
        (subst (λ (x : AcademicPeriod). x.parent_period_id ≡ some q.period_id) same
          (rw named r.named))
        (Height-Rises h q found)

  contained-IsWithin :
      (p : AcademicPeriod) → contained by_id p p.parent_period_id ≡ ok tt → IsWithin ps p
  unfolding contained
  contained-IsWithin p h a named = elim (Option-cases (get a by_id)) [
    | inl absent ↦ absurd (ground arith)
    | inr (q, found) ↦
        let (i, same) = found-In a q found in (q, i, same, ground arith, ground arith)
  ]

no_cycles-IsRooted :
    (by_id : Dict AcademicPeriod) (u : Unit {0})
    → Closed by_id
    → validate_no_cycles by_id ≡ ok u
    → (id : Text) → In id (ids by_id)
    → IsRooted by_id id
no_cycles-IsRooted by_id u closed h = elim (validate_no_cycles_decides by_id closed) [
  | inl (_, rooted) ↦ rooted
  | inr (e, _) ↦ cc
]

checks-IsHierarchy :
    (year : Text) (ps : List AcademicPeriod) (by_id : Dict AcademicPeriod) (t u v : Unit {0})
    → ((p : AcademicPeriod) → In p ps → IsPeriod p)
    → collect [] ps ≡ ok by_id
    → check_each (check_period year by_id) ps ≡ ok t
    → validate_no_cycles by_id ≡ ok u
    → check_siblings by_id [] ps ≡ ok v
    → IsHierarchy year ps
unfolding check_period
checks-IsHierarchy year ps by_id t u v valid gathered checked acyclic in_order =
    let c = collect-Collected [] ps gathered in
    let each_checked : (p : AcademicPeriod) → In p ps → check_period year by_id p ≡ ok tt =
      λ p i. check_each-ok (check_period year by_id) ps t p checked i in
    let s = check_siblings-SiblingsInOrder by_id [] ps v in_order in
    let rooted =
      no_cycles-IsRooted by_id u (check_period-Closed by_id ps c year each_checked) acyclic in
    record {
      valid = valid;
      distinct = c.distinct;
      siblings = s.distinct;
      starts_in_year = λ p i. ground (arith, each_checked p i);
      ends_in_year = λ p i. ground (arith, each_checked p i);
      within = λ p i. contained-IsWithin by_id ps c p (s.within p i);
      rises = λ p i.
          let found = c.holds p i in
          let (n, h) = rooted p.period_id (get-In p.period_id by_id {p = p} found) in
          Height-Rises by_id ps c h p found;
    }

-- An accepted list of periods is returned sorted by id, and it is a hierarchy of the school year:
-- every period is valid and lies in one of the two years and within its parent, ids are distinct,
-- siblings have distinct sequences, and from every period parents lead up to a root.
pub validate_academic_period_hierarchy-IsHierarchy :
    (school_year : Text) (ps qs : List AcademicPeriod)
    → validate_academic_period_hierarchy school_year ps ≡ ok qs
    → (year : Text) × (period_school_year school_year ≡ ok year)
      × IsHierarchy year ps
      × ((p : AcademicPeriod) → In p qs ↔ In p ps)
      × Ordered id_ltb qs
unfolding validate_academic_period_hierarchy
validate_academic_period_hierarchy-IsHierarchy school_year ps qs h =
    let (year, dated, h1) = >>=-eq-ok (period_school_year school_year) _ h in
    let (xs, each_valid, h2) = >>=-eq-ok (each validate_academic_period ps) _ h1 in
    let (by_id, gathered, h3) = >>=-eq-ok (collect [] xs) _ h2 in
    let (t, checked, h4) = >>=-eq-ok (check_each (check_period year by_id) xs) _ h3 in
    let (u, acyclic, h5) = >>=-eq-ok (validate_no_cycles by_id) _ h4 in
    let (v, in_order, h6) = >>=-eq-ok (check_siblings by_id [] xs) _ h5 in
    let (same, valid) = each-validated ps each_valid in
    let sorted : sort_by id_ltb ps ≡ qs = cc (h6, same) in
    (
      year,
      dated,
      checks-IsHierarchy year ps by_id t u v valid
          (subst (λ l. collect [] l ≡ ok by_id) same gathered)
          (subst (λ l. check_each (check_period year by_id) l ≡ ok t) same checked) acyclic
          (subst (λ l. check_siblings by_id [] l ≡ ok v) same in_order),
      subst (λ l. (p : AcademicPeriod) → In p l ↔ In p ps) sorted (λ p. In-sort_by id_ltb p ps),
      subst (λ l. Ordered id_ltb l) sorted
          (sort_by-Ordered id_ltb (λ p q. text_ltb_asym p.period_id q.period_id) ps),
    )
