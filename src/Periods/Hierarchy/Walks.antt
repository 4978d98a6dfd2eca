-- ===== src/Periods/Hierarchy/Walks.antt =====
-- The cycle test: it always ends, it passes exactly where every period has a root above it, and
-- where it fails there is a cycle.
use mathlib.Core.Path.{subst}
use pds_core.Base.{
  ℕ, zero, suc, ◌≡◌, refl, sym, ◌⊎◌, inl, inr, Option, none, some, List, [], ◌∷◌, ◌++◌, Text, ok,
  In, elem, elem→Mem, Bool-cases, Option-cases, text_eq, text_eq_iff, arith, >>=-eq-ok,
}
use pds_core.Dict.{Dict, get}
use pds_core.Periods.{AcademicPeriod}
use pds_core.Periods.Hierarchy.{walk, start_path, walk_each, ids}
use pds_core.Periods.Hierarchy.Graph.{top, step, IsRooted}

In-append : (a : Text) (xs ys : List Text) → In a (xs ++ ys) → In a xs ⊎ In a ys
In-append a [] ys h = inr h
In-append a (x ∷ xs) ys (inl e) = inl (inl e)
In-append a (x ∷ xs) ys (inr h) = elim (In-append a xs ys h) [ inl i ↦ inl (inr i) | inr i ↦ inr i ]

pub get-In :
    (k : Text) (d : Dict AcademicPeriod) {p : AcademicPeriod} → get k d ≡ some p → In k (ids d)
unfolding get
get-In k [] h = cc
get-In k ((j, q) ∷ d) {p} h = elim (Bool-cases (text_eq k j)) [
  | inl same ↦ inl ((text_eq_iff k j).0 same)
  | inr other ↦ inr (get-In k d {p = p} (ground arith))
]

pub In-get :
    (k : Text) (d : Dict AcademicPeriod) → In k (ids d) → (p : AcademicPeriod) × (get k d ≡ some p)
unfolding get
In-get k [] h = absurd h
In-get k ((j, q) ∷ d) h = elim (Bool-cases (text_eq k j)) [
  | inl same ↦ (q, ground arith)
  | inr other ↦ let (p, e) = In-get k d (ground (arith, text_eq_iff k j)) in (p, ground arith)
]

module _ (by_id : Dict AcademicPeriod) where
  abbrev RootedOr : Option Text → Type 0
  RootedOr none = Unit
  RootedOr (some id) = IsRooted by_id id

  rise :
      (id : Text) (p : AcademicPeriod) (o : Option Text)
      → get id by_id ≡ some p
      → p.parent_period_id ≡ o
      → RootedOr o
      → IsRooted by_id id
  rise id p none found e h = (0, top p found e)
  rise id p (some a) found e (n, h) =
      (suc n, step (record { period = p; found = found; named = e }) h)

  abbrev pub AllRooted : List Text → Type 0
  AllRooted l = (id : Text) → In id l → IsRooted by_id id

  -- Where a walk ends without an exception, its start has a root above it, and so has every id
  -- that it adds to the path.
  walk-IsRooted :
      (fuel : ℕ) (complete path : List Text) (current : Option Text) {last : List Text}
      → walk fuel by_id complete path current ≡ ok last
      → AllRooted complete
      → RootedOr current × ((id : Text) → In id last → In id path ⊎ IsRooted by_id id)
  unfolding walk
  walk-IsRooted fuel complete path none {last} h done =
      let same : path ≡ last = cc in (tt, (λ id i. inl (subst (In id) (sym same) i)))
  walk-IsRooted zero complete path (some id) h done = cc
  walk-IsRooted (suc fuel) complete path (some id) {last} h done =
      elim (Bool-cases (elem id complete)) [
        | inl met ↦
            let same : path ≡ last = ground arith in
            (done id ((elem→Mem id complete).0 met), (λ x i. inl (subst (In x) (sym same) i)))
        | inr unmet ↦ elim (Bool-cases (elem id path)) [
          | inl again ↦ absurd (ground arith)
          | inr fresh ↦ elim (Option-cases (get id by_id)) [
            | inl absent ↦ absurd (ground arith)
            | inr (p, found) ↦
                let h' : walk fuel by_id complete (id ∷ path) p.parent_period_id ≡ ok last =
                  ground arith in
                let (up, rest) =
                  walk-IsRooted fuel complete (id ∷ path) p.parent_period_id h' done in
                let rooted = rise id p p.parent_period_id found refl up in
                (
                  rooted,
                  (λ x i. elim (rest x i) [
                    | inl (inl e) ↦ inr (subst (λ y. IsRooted by_id y) (sym e) rooted)
                    | inl (inr j) ↦ inl j
                    | inr r ↦ inr r
                  ]),
                )
          ]
        ]
      ]

  start_path-IsRooted :
      (fuel : ℕ) (complete : List Text) (start : Text) {path : List Text}
      → start_path fuel by_id complete start ≡ ok path
      → AllRooted complete
      → IsRooted by_id start × AllRooted path
  unfolding start_path
  start_path-IsRooted fuel complete start {path} h done = elim (Bool-cases (elem start complete)) [
    | inl met ↦
        let same : [] ≡ path = ground arith in
        (
          done start ((elem→Mem start complete).0 met),
          (λ id i. absurd (subst (In id) (sym same) i)),
        )
    | inr unmet ↦
        let h' : walk fuel by_id complete [] (some start) ≡ ok path = ground arith in
        let (rooted, rest) = walk-IsRooted fuel complete [] (some start) h' done in
        (rooted, (λ id i. elim (rest id i) [ inl j ↦ absurd j | inr r ↦ r ]))
  ]

  pub walk_each-IsRooted :
      (fuel : ℕ) (complete starts : List Text) {last : List Text}
      → walk_each fuel by_id complete starts ≡ ok last
      → AllRooted complete
      → AllRooted starts
  unfolding walk_each
  walk_each-IsRooted fuel complete [] h done id i = absurd i
  walk_each-IsRooted fuel complete (start ∷ rest) h done id i =
      let (path, one, more) = >>=-eq-ok (start_path fuel by_id complete start) _ h in
      let (rooted, all_path) = start_path-IsRooted fuel complete start one done in
      let done' : AllRooted (path ++ complete) =
        λ x j. elim (In-append x path complete j) [ inl k ↦ all_path x k | inr k ↦ done x k ] in
      elim i [
        | inl e ↦ subst (λ y. IsRooted by_id y) (sym e) rooted
        | inr j ↦ walk_each-IsRooted fuel (path ++ complete) rest more done' id j
      ]
