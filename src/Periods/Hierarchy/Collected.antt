-- ===== src/Periods/Hierarchy/Collected.antt =====
-- The dictionary of the periods by their ids, and the loops over the periods.
use mathlib.Core.Path.{subst}
use pds_core.Base.{
  ◌≡◌, refl, sym, ap, ◌∙◌, ◌↔◌, ◌⊎◌, inl, inr, true, not, Option, none, some, List, [], ◌∷◌, map,
  Text, ok, guard, each, In, NoDup, text_eq, text_eq_iff, arith, >>=-eq-ok, guard-eq-ok, Bool-cases,
  Decides, Decides-map, Decides-then, Decides-inv,
}
use pds_core.Json.{ℤ, int_eq_iff}
use pds_core.Dict.{Dict, get, put, has, get-put}
use pds_core.Periods.{
  Checked, AcademicPeriod, duplicate_period, duplicate_sequence, validate_academic_period,
}
use pds_core.Periods.Fields.{IsPeriod, validate_academic_period-Decides}
use pds_core.Periods.Hierarchy.{
  check_each, collect, option_eq, Siblings, seen, contained, check_siblings,
}

pub check_each-ok :
    {A : Type 0} (f : A → Checked (Unit {0})) (xs : List A) (u : Unit {0}) (x : A)
    → check_each f xs ≡ ok u
    → In x xs
    → f x ≡ ok tt
unfolding check_each
check_each-ok f [] u x h i = absurd i
check_each-ok f (y ∷ xs) u x h i =
    let (_, here, rest) = >>=-eq-ok (f y) _ h in
    elim i [ inl e ↦ rw e here | inr j ↦ check_each-ok f xs u x rest j ]

pub check_each-Decides :
    {A : Type 0} (f : A → Checked (Unit {0})) (xs : List A) (P : A → Type 0)
    → ((x : A) → Decides (f x) tt (P x))
    → Decides (check_each f xs) tt ((x : A) → In x xs → P x)
unfolding check_each
check_each-Decides f [] P d = inl (refl, (λ x i. absurd i))
check_each-Decides f (y ∷ xs) P d =
    Decides-map _ tt _ _
      (
        (λ h x i. elim i [ inl e ↦ subst P (sym e) h.0 | inr j ↦ h.1 x j ]),
        (λ h. (h y (inl refl), (λ x i. h x (inr i)))),
      )
      (Decides-then (f y) tt _ tt _ _ (d y) (check_each-Decides f xs P d))

-- The periods are kept as they are, and each is valid.
pub each-validated :
    (ps : List AcademicPeriod) {qs : List AcademicPeriod}
    → each validate_academic_period ps ≡ ok qs
    → (qs ≡ ps) × ((p : AcademicPeriod) → In p ps → IsPeriod p)
each-validated [] h = (cc, (λ p i. absurd i))
each-validated (p ∷ ps) h =
    let (q, one, h1) = >>=-eq-ok (validate_academic_period p) _ h in
    let (qs, others, h2) = >>=-eq-ok (each validate_academic_period ps) _ h1 in
    let (same, valid) = Decides-inv _ p _ (validate_academic_period-Decides p) one in
    let (same', valid') = each-validated ps others in
    (cc, (λ x i. elim i [ inl e ↦ subst IsPeriod (sym e) valid | inr j ↦ valid' x j ]))

abbrev pub period_ids : List AcademicPeriod → List Text
period_ids = map (λ p. p.period_id)

In-period_ids :
    (p : AcademicPeriod) (ps : List AcademicPeriod) → In p ps → In p.period_id (period_ids ps)
In-period_ids p [] i = absurd i
In-period_ids p (q ∷ ps) (inl e) = inl (ap (λ (x : AcademicPeriod). x.period_id) e)
In-period_ids p (q ∷ ps) (inr i) = inr (In-period_ids p ps i)

-- What `collect` makes of the dictionary that it starts with.
pub record Collected (d by_id : Dict AcademicPeriod) (ps : List AcademicPeriod) : Type 0 where
  pub keeps : (k : Text) (p : AcademicPeriod) → get k d ≡ some p → get k by_id ≡ some p
  pub holds : (p : AcademicPeriod) → In p ps → get p.period_id by_id ≡ some p
  pub only :
      (k : Text) (p : AcademicPeriod)
      → get k by_id ≡ some p
      → (get k d ≡ some p) ⊎ In p ps × (p.period_id ≡ k)
  pub fresh : (k : Text) → In k (period_ids ps) → get k d ≡ none
  pub distinct : NoDup (period_ids ps)

pub collect-Collected :
    (d : Dict AcademicPeriod) (ps : List AcademicPeriod) {by_id : Dict AcademicPeriod}
    → collect d ps ≡ ok by_id
    → Collected d by_id ps
unfolding collect
collect-Collected d [] {by_id} h =
    let same : d ≡ by_id = cc in
    record {
      keeps = λ k p e. subst (λ x. get k x ≡ some p) same e;
      holds = λ p i. absurd i;
      only = λ k p e. inl (subst (λ x. get k x ≡ some p) (sym same) e);
      fresh = λ k i. absurd i;
      distinct = tt;
    }
collect-Collected d (q ∷ ps) {by_id} h =
    let (_, unseen, rest) = >>=-eq-ok (guard (not (has q.period_id d)) duplicate_period) _ h in
    let c = collect-Collected (put q.period_id q d) ps rest in
    let new : get q.period_id d ≡ none = ground arith in
    let first : get q.period_id (put q.period_id q d) ≡ some q =
      ground (arith, get-put q.period_id q.period_id q d, text_eq_iff q.period_id q.period_id) in
    record {
      keeps = λ k p e.
          c.keeps k p (ground (arith, get-put q.period_id k q d, text_eq_iff k q.period_id));
      holds = λ p i. elim i [
        | inl e ↦ subst (λ x. get x.period_id by_id ≡ some x) (sym e) (c.keeps q.period_id q first)
        | inr j ↦ c.holds p j
      ];
      only = λ k p e. elim (c.only k p e) [
        | inl g ↦ elim (Bool-cases (text_eq k q.period_id)) [
          | inl at ↦
              let same : p ≡ q = ground (arith, get-put q.period_id k q d) in
              let named : k ≡ q.period_id = (text_eq_iff k q.period_id).0 at in
              inr (inl same, ap (λ (x : AcademicPeriod). x.period_id) same ∙ sym named)
          | inr other ↦ inl (ground (arith, get-put q.period_id k q d))
        ]
        | inr (i, named) ↦ inr (inr i, named)
      ];
      fresh = λ k i. elim i [
        | inl e ↦ subst (λ x. get x d ≡ none) (sym e) new
        | inr j ↦ ground (arith, get-put q.period_id k q d, c.fresh k j)
      ];
      distinct = ((λ i. cc (first, c.fresh q.period_id i)), c.distinct);
    }

pub option_eq_iff : (a b : Option Text) → (option_eq a b ≡ true) ↔ (a ≡ b)
unfolding option_eq
option_eq_iff none none = ground arith
option_eq_iff none (some t) = ground arith
option_eq_iff (some s) none = ground arith
option_eq_iff (some s) (some t) = ground (arith, text_eq_iff s t)

abbrev pub sibling_key : AcademicPeriod → Option Text × ℤ
sibling_key p = (p.parent_period_id, p.sequence)

seen-In :
    (parent : Option Text) (n : ℤ) (met : Siblings) → In (parent, n) met → seen parent n met ≡ true
unfolding seen
seen-In parent n [] i = absurd i
seen-In parent n ((a, m) ∷ met) (inl e) = ground (
  arith,
  option_eq_iff parent a,
  int_eq_iff n m,
  ap (λ (x : Option Text × ℤ). x.0) e,
  ap (λ (x : Option Text × ℤ). x.1) e,
)
seen-In parent n ((a, m) ∷ met) (inr i) = ground (arith, seen-In parent n met i)

-- Every child lies within its parent's dates, and no two siblings have one sequence.
pub record SiblingsInOrder (by_id : Dict AcademicPeriod) (met : Siblings) (ps : List AcademicPeriod)
    : Type 0 where
  pub within : (p : AcademicPeriod) → In p ps → contained by_id p p.parent_period_id ≡ ok tt
  pub unmet : (k : Option Text × ℤ) → In k (map sibling_key ps) → ¬ In k met
  pub distinct : NoDup (map sibling_key ps)

pub check_siblings-SiblingsInOrder :
    (by_id : Dict AcademicPeriod) (met : Siblings) (ps : List AcademicPeriod) (u : Unit {0})
    → check_siblings by_id met ps ≡ ok u
    → SiblingsInOrder by_id met ps
unfolding check_siblings
check_siblings-SiblingsInOrder by_id met [] u h = record {
  within = λ p i. absurd i;
  unmet = λ k i. absurd i;
  distinct = tt;
}
check_siblings-SiblingsInOrder by_id met (q ∷ ps) u h =
    let (_, inside, h1) = >>=-eq-ok (contained by_id q q.parent_period_id) _ h in
    let (_, test, h2) =
      >>=-eq-ok (guard (not (seen q.parent_period_id q.sequence met)) duplicate_sequence) _ h1 in
    let r = check_siblings-SiblingsInOrder by_id (sibling_key q ∷ met) ps u h2 in
    let new : ¬ In (sibling_key q) met = λ i.
      cc (guard-eq-ok _ duplicate_sequence test, seen-In q.parent_period_id q.sequence met i) in
    record {
      within = λ p i. elim i [ inl e ↦ rw e inside | inr j ↦ r.within p j ];
      unmet = λ k i. elim i [
        | inl e ↦ (λ j. new (subst (λ x. In x met) e j))
        | inr j ↦ (λ m. r.unmet k j (inr m))
      ];
      distinct = ((λ i. r.unmet (sibling_key q) i (inl refl)), r.distinct);
    }
