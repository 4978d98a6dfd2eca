-- ===== src/Periods/Queries/Ancestors.antt =====
-- The loop over the ancestors ends.
use mathlib.Core.Path.{subst}
use pds_core.Base.{
  some-inj, ok-inj, ℕ, zero, suc, ◌≤◌, ◌<◌, ◌≡◌, refl, sym, ap, ◌∙◌, inl, inr, Option, none, some,
  List, [], ◌∷◌, Text, ok, reraise, reraise-eq-ok, >>=-eq-ok, guard, In, NoDup, length, pigeonhole,
  text_eq, text_eq_iff, Bool-cases, arith, not,
}
use pds_core.Dict.{Dict, get, put, has}
use pds_core.Periods.{
  AcademicPeriod, AcademicPeriodCalendar, duplicate_period, make_academic_period_ref,
}
use pds_core.Periods.Hierarchy.{collect, ids}
use pds_core.Periods.Hierarchy.Graph.{Height, top, step, Height-unique}
use pds_core.Periods.Hierarchy.Walks.{get-In}
use pds_core.Periods.Hierarchy.Ends.{length-ids}
use pds_core.Periods.Hierarchy.Collected.{Collected, collect-Collected}
use pds_core.Periods.Hierarchy.Accepted.{found-In, validate_academic_period_hierarchy-IsHierarchy}
use pds_core.Periods.Hierarchy.Complete.{collect-ok, Rises-IsRooted}
use pds_core.Periods.Calendars.{validate_academic_period_calendar, index_from, index}
use pds_core.Periods.Calendars.Accepted.{
  IsCalendar, IsCalendar-ok, validate_academic_period_calendar-IsCalendar,
}
use pds_core.Periods.Queries.{
  invalid, find_by_id, find_academic_period, required_period, get_academic_period, climb,
  list_academic_period_ancestors,
}

-- The parents of the period, one after the other up to a root, all in the list.
abbrev pub IsChain : List AcademicPeriod → AcademicPeriod → List AcademicPeriod → Type 0
IsChain ps p [] = p.parent_period_id ≡ none
IsChain ps p (q ∷ qs) = (p.parent_period_id ≡ some q.period_id) × In q ps × IsChain ps q qs

get-nil : (k : Text) → get {V = AcademicPeriod} k [] ≡ none
unfolding get
get-nil k = refl

-- The dictionary by comprehension is the one that the validation collects.
index_from-collect :
    (d : Dict AcademicPeriod) (ps : List AcademicPeriod) {by_id : Dict AcademicPeriod}
    → collect d ps ≡ ok by_id
    → index_from d ps ≡ by_id
unfolding index_from collect
index_from-collect d [] h = cc
index_from-collect d (p ∷ ps) h =
    let (_, _, rest) = >>=-eq-ok (guard (not (has p.period_id d)) duplicate_period) _ h in
    index_from-collect (put p.period_id p d) ps rest

module _ (by_id : Dict AcademicPeriod) where
  Height-get :
      {id : Text} {n : ℕ} → Height by_id id n → (q : AcademicPeriod) × (get id by_id ≡ some q)
  Height-get (top q found none_above) = (q, found)
  Height-get (step r h) = (r.period, r.found)

  -- The ids from a height down to a root.
  pub record IsDescent (id : Text) (n : ℕ) (l : List Text) : Type 0 where
    pub long : length l ≡ suc n
    pub known : (a : Text) → In a l → In a (ids by_id)
    pub lower : (a : Text) → In a l → (m : ℕ) × Height by_id a m × (m ≤ n)
    pub distinct : NoDup l

  Height-IsDescent : {id : Text} {n : ℕ} → Height by_id id n → (l : List Text) × IsDescent id n l
  Height-IsDescent {id} {n} (top q found none_above) = (
    id ∷ [],
    record {
      long = refl;
      known = λ a i. elim i [
        | inl e ↦ subst (λ x. In x (ids by_id)) (sym e) (get-In id by_id {p = q} found)
        | inr j ↦ absurd j
      ];
      lower = λ a i. elim i [
        | inl e ↦ (0, subst (λ x. Height by_id x 0) (sym e) (top q found none_above), omega arith)
        | inr j ↦ absurd j
      ];
      distinct = ((λ i. i), tt);
    },
  )
  Height-IsDescent {id} (step {n = n} r h) =
      let (l, v) = Height-IsDescent h in
      (
        id ∷ l,
        record {
          long = ap suc v.long;
          known = λ a i. elim i [
            | inl e ↦ subst (λ x. In x (ids by_id)) (sym e) (get-In id by_id {p = r.period} r.found)
            | inr j ↦ v.known a j
          ];
          lower = λ a i. elim i [
            | inl e ↦ (suc n, subst (λ x. Height by_id x (suc n)) (sym e) (step r h), omega arith)
            | inr j ↦ let (m, k, less) = v.lower a j in (m, k, omega (arith, less))
          ];
          distinct = (
            (λ i.
                let (m, k, less) = v.lower id i in
                let same = Height-unique by_id (step r h) k in absurd (omega (arith, less, same))),
            v.distinct,
          );
        },
      )

  -- A height is below the number of periods.
  Height-bound : {id : Text} {n : ℕ} → Height by_id id n → n < length (ids by_id)
  Height-bound h =
      let (l, v) = Height-IsDescent h in
      omega (arith, v.long, pigeonhole l (ids by_id) v.distinct v.known)

module _ (by_id : Dict AcademicPeriod) (ps : List AcademicPeriod) (c : Collected [] by_id ps) where
  climb-suc :
      (fuel : ℕ) (a : Text) (q : AcademicPeriod) (qs : List AcademicPeriod)
      → get a by_id ≡ some q
      → climb fuel by_id q.parent_period_id ≡ ok qs
      → climb (suc fuel) by_id (some a) ≡ ok (q ∷ qs)
  unfolding climb
  climb-suc fuel a q qs found rest = ground (arith, found, rest)

  climb-IsChain :
      (fuel : ℕ) {id : Text} {n : ℕ} (p : AcademicPeriod)
      → Height by_id id n
      → get id by_id ≡ some p
      → n ≤ fuel
      → (qs : List AcademicPeriod) × (climb fuel by_id p.parent_period_id ≡ ok qs) × IsChain ps p qs
  unfolding climb
  climb-IsChain fuel p (top q found none_above) e less =
      let root : p.parent_period_id ≡ none =
        subst (λ (x : AcademicPeriod). x.parent_period_id ≡ none) (some-inj (sym found ∙ e))
          none_above in
      ([], rw root refl, root)
  climb-IsChain zero p (step r h) e less = absurd (omega (arith, less))
  climb-IsChain (suc fuel) p (step {a = a} r h) e less =
      let named : p.parent_period_id ≡ some a =
        subst (λ (x : AcademicPeriod). x.parent_period_id ≡ some a) (some-inj (sym r.found ∙ e))
          r.named in
      let (q, found) = Height-get by_id h in
      let (qs, rest, chain) = climb-IsChain fuel q h found (omega (arith, less)) in
      let (i, same) = found-In by_id ps c a q found in
      (
        q ∷ qs,
        ap (climb (suc fuel) by_id) named ∙ climb-suc fuel a q qs found rest,
        (named ∙ ap some (sym same), i, chain),
      )

-- In a valid calendar every period has a height.
climb-IsCalendar :
    (c : AcademicPeriodCalendar) (p : AcademicPeriod)
    → IsCalendar c
    → In p c.periods
    → (qs : List AcademicPeriod) × (climb (length (index c)) (index c) p.parent_period_id ≡ ok qs)
      × IsChain c.periods p qs
climb-IsCalendar c p v i =
    let (year, _, h, _, _) =
      validate_academic_period_hierarchy-IsHierarchy c.school_year c.periods c.periods
        v.hierarchy in
    let (by_id, gathered) = collect-ok [] c.periods h.distinct (λ k _. get-nil k) in
    let d = collect-Collected [] c.periods gathered in
    let (n, height) = Rises-IsRooted year c.periods h by_id d p i (h.rises p i) in
    let less = Height-bound by_id height in
    subst
      (λ (x : Dict AcademicPeriod).
        (qs : List AcademicPeriod) × (climb (length x) x p.parent_period_id ≡ ok qs)
        × IsChain c.periods p qs)
      (sym (index_from-collect [] c.periods gathered))
      (climb-IsChain by_id c.periods d (length by_id) p height (d.holds p i)
        (omega (arith, less, length-ids by_id by_id)))

find_by_id-In :
    (id : Text) (ps : List AcademicPeriod) {p : AcademicPeriod}
    → find_by_id id ps ≡ some p
    → In p ps × (p.period_id ≡ id)
unfolding find_by_id
find_by_id-In id [] h = cc
find_by_id-In id (q ∷ ps) {p} h = elim (Bool-cases (text_eq q.period_id id)) [
  | inl e ↦
      let same : q ≡ p = ground (arith, e, h) in
      (
        inl (sym same),
        subst (λ (x : AcademicPeriod). x.period_id ≡ id) same ((text_eq_iff q.period_id id).0 e),
      )
  | inr e ↦ let (i, named) = find_by_id-In id ps (ground (arith, e, h)) in (inr i, named)
]

required_period-inv :
    (o : Option AcademicPeriod) {p : AcademicPeriod} → required_period o ≡ ok p → o ≡ some p
unfolding required_period
required_period-inv none h = cc
required_period-inv (some q) h = cc

pub get_academic_period-In :
    (calendar : AcademicPeriodCalendar) (id : Text) (p : AcademicPeriod)
    → get_academic_period calendar id ≡ ok p
    → (c : AcademicPeriodCalendar) × (validate_academic_period_calendar calendar ≡ ok c)
      × IsCalendar c
      × In p c.periods
      × (get_academic_period c id ≡ ok p)
unfolding get_academic_period find_academic_period
get_academic_period-In calendar id p h =
    let (found, sought, h1) = >>=-eq-ok (find_academic_period calendar id) _ h in
    let (c, valid, h2) =
      >>=-eq-ok (reraise invalid (validate_academic_period_calendar calendar)) _ sought in
    let (r, asked, h3) =
      >>=-eq-ok (reraise invalid (make_academic_period_ref c.school_year id)) _ h2 in
    let accepted = reraise-eq-ok invalid _ valid in
    let v = validate_academic_period_calendar-IsCalendar calendar c accepted in
    let some_p = required_period-inv found h1 in
    let (i, _) = find_by_id-In r.period_id c.periods (ok-inj h3 ∙ some_p) in
    (c, accepted, v, i, rw (IsCalendar-ok c v, reraise-eq-ok invalid _ asked) (rw (ok-inj h3) h1))

-- The ancestors of every period that is found are returned: the loop ends, and it looks up only ids
-- that the calendar has. They are the parents of the period, one after the other up to a root.
pub list_academic_period_ancestors-IsChain :
    (calendar : AcademicPeriodCalendar) (id : Text) (p : AcademicPeriod)
    → get_academic_period calendar id ≡ ok p
    → (c : AcademicPeriodCalendar) × (validate_academic_period_calendar calendar ≡ ok c)
      × In p c.periods
      × ((qs : List AcademicPeriod) × (list_academic_period_ancestors calendar id ≡ ok qs)
          × IsChain c.periods p qs)
unfolding list_academic_period_ancestors
list_academic_period_ancestors-IsChain calendar id p h =
    let (c, accepted, v, i, again) = get_academic_period-In calendar id p h in
    let (qs, climbed, chain) = climb-IsCalendar c p v i in
    (c, accepted, i, (qs, rw (accepted, again) climbed, chain))
