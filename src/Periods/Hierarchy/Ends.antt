-- ===== src/Periods/Hierarchy/Ends.antt =====
-- The cycle test ends within its fuel: it passes, or it reports a cycle and there is one.
use mathlib.Core.Path.{subst}
use pds_core.Base.{
  ℕ, zero, suc, ◌+◌, ◌<◌, ◌≡◌, refl, sym, ap, ◌⊎◌, inl, inr, Option, none, some, List, [], ◌∷◌,
  ◌++◌, Text, ok, err, In, elem, elem→Mem, length, NoDup, pigeonhole, Bool-cases, text_ltb, sort_by,
  In-sort_by, arith,
}
use pds_core.Dict.{Dict, get}
use pds_core.Periods.{cycle, Checked, AcademicPeriod}
use pds_core.Periods.Hierarchy.{walk, start_path, walk_each, ids, validate_no_cycles}
use pds_core.Periods.Hierarchy.Graph.{IsParent, Ancestor, direct, further, IsRooted, Closed}
use pds_core.Periods.Hierarchy.Walks.{In-get, walk_each-IsRooted}

module _ (by_id : Dict AcademicPeriod) where
  abbrev Cyclic : Type 0
  Cyclic = (id : Text) × Ancestor by_id id id

  -- A run passes, or it raises the cycle error and there is a cycle.
  abbrev Settled : {A : Type 0} → Checked A → Type 0
  Settled {A} m = ((a : A) × (m ≡ ok a)) ⊎ ((m ≡ err cycle) × Cyclic)

  -- What holds of a walk with this path behind it.
  record Trail (fuel : ℕ) (path : List Text) (current : Option Text) : Type 0 where
    distinct : NoDup path
    known : (j : Text) → In j path → In j (ids by_id)
    room : length (ids by_id) < length path + fuel
    behind : (c j : Text) → current ≡ some c → In j path → Ancestor by_id j c
    inside : (c : Text) → current ≡ some c → In c (ids by_id)

  Trail-next :
      {fuel : ℕ} {path : List Text} (id : Text) (p : AcademicPeriod)
      → Closed by_id
      → Trail (suc fuel) path (some id)
      → get id by_id ≡ some p
      → ¬ In id path
      → Trail fuel (id ∷ path) p.parent_period_id
  Trail-next {fuel} {path} id p closed t found fresh =
      let up : (c : Text) → p.parent_period_id ≡ some c → IsParent by_id id c =
        λ c e. record { period = p; found = found; named = e } in
      record {
        distinct = (fresh, t.distinct);
        known = λ j i. elim i [
          | inl e ↦ subst (λ x. In x (ids by_id)) (sym e) (t.inside id refl)
          | inr k ↦ t.known j k
        ];
        room = omega (arith, t.room);
        behind = λ c j e i. elim i [
          | inl same ↦ subst (λ x. Ancestor by_id x c) (sym same) (direct (up c e))
          | inr k ↦ further (t.behind id j refl k) (up c e)
        ];
        inside = λ c e. closed id c (up c e);
      }

  walk-Settled :
      (fuel : ℕ) (complete path : List Text) (current : Option Text)
      → Closed by_id
      → Trail fuel path current
      → Settled (walk fuel by_id complete path current)
  unfolding walk
  walk-Settled fuel complete path none closed t = inl (path, refl)
  walk-Settled zero complete path (some id) closed t =
      let bound = pigeonhole path (ids by_id) t.distinct t.known in absurd (omega (arith, t.room))
  walk-Settled (suc fuel) complete path (some id) closed t = elim (Bool-cases (elem id complete)) [
    | inl met ↦ inl (path, ground arith)
    | inr unmet ↦ elim (Bool-cases (elem id path)) [
      | inl again ↦ inr (ground arith, (id, t.behind id id refl ((elem→Mem id path).0 again)))
      | inr fresh ↦
          let (p, found) = In-get id by_id (t.inside id refl) in
          let new : ¬ In id path = λ i. cc (fresh, (elem→Mem id path).1 i) in
          elim (walk-Settled fuel complete (id ∷ path) p.parent_period_id closed
            (Trail-next id p closed t found new)) [
              | inl (last, e) ↦ inl (last, ground arith)
              | inr (e, c) ↦ inr (ground arith, c)
            ]
    ]
  ]

  start_path-Settled :
      (fuel : ℕ) (complete : List Text) (start : Text)
      → Closed by_id
      → In start (ids by_id)
      → length (ids by_id) < fuel
      → Settled (start_path fuel by_id complete start)
  unfolding start_path
  start_path-Settled fuel complete start closed i room = elim (Bool-cases (elem start complete)) [
    | inl met ↦ inl ([], ground arith)
    | inr unmet ↦ rw unmet (
        walk-Settled fuel complete [] (some start) closed (record {
          distinct = tt;
          known = λ j h. absurd h;
          room = omega arith;
          behind = λ c j e h. absurd h;
          inside = λ c e. let same : start ≡ c = cc in subst (λ x. In x (ids by_id)) same i;
        }))
  ]

  walk_each-Settled :
      (fuel : ℕ) (complete starts : List Text)
      → Closed by_id
      → ((id : Text) → In id starts → In id (ids by_id))
      → length (ids by_id) < fuel
      → Settled (walk_each fuel by_id complete starts)
  unfolding walk_each
  walk_each-Settled fuel complete [] closed known room = inl (complete, refl)
  walk_each-Settled fuel complete (start ∷ rest) closed known room =
      elim (start_path-Settled fuel complete start closed (known start (inl refl)) room) [
        | inl (path, e) ↦
            rw e (
              walk_each-Settled fuel (path ++ complete) rest closed (λ id i. known id (inr i)) room)
        | inr (e, c) ↦ inr (rw e, c)
      ]

  pub length-ids : (d : Dict AcademicPeriod) → length (ids d) ≡ length d
  length-ids [] = refl
  length-ids (e ∷ d) = ap suc (length-ids d)

  -- Where every parent is a period, the cycle test passes and every period has a root above it, or
  -- it raises the cycle error and some period is its own ancestor. It never runs out of fuel and
  -- never looks up a missing id.
  pub validate_no_cycles_decides :
      Closed by_id
      → ((validate_no_cycles by_id ≡ ok tt) × ((id : Text) → In id (ids by_id) → IsRooted by_id id))
        ⊎ ((validate_no_cycles by_id ≡ err cycle) × ((id : Text) × Ancestor by_id id id))
  unfolding validate_no_cycles
  validate_no_cycles_decides closed =
      let starts = sort_by text_ltb (ids by_id) in
      elim (walk_each-Settled (suc (length by_id)) [] starts closed
        (λ id i. (In-sort_by text_ltb id (ids by_id)).0 i) (omega (arith, length-ids by_id))) [
          | inl (last, e) ↦ inl (
            rw e,
            (λ id i.
                walk_each-IsRooted by_id (suc (length by_id)) [] starts e (λ x h. absurd h) id
                  ((In-sort_by text_ltb id (ids by_id)).1 i)),
          )
          | inr (e, c) ↦ inr (rw e, c)
        ]
