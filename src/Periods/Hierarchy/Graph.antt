-- ===== src/Periods/Hierarchy/Graph.antt =====
-- The parent relation of a set of periods: roots, ancestors and heights.
use mathlib.Core.Path.{subst}
use pds_core.Base.{ℕ, zero, suc, ◌<◌, ◌≡◌, refl, sym, ap, ◌∙◌, none, some, Text, In, arith}
use pds_core.Dict.{Dict, get}
use pds_core.Periods.{AcademicPeriod}
use pds_core.Periods.Hierarchy.{ids}

module _ (by_id : Dict AcademicPeriod) where
  -- The parent of `id` is `parent`.
  pub record IsParent (id parent : Text) : Type 0 where
    pub period : AcademicPeriod
    pub found : get id by_id ≡ some period
    pub named : period.parent_period_id ≡ some parent

  pub data Ancestor (id : Text) : Text → Type 0 where
    direct : {a : Text} → IsParent id a → Ancestor id a
    further : {a b : Text} → Ancestor id a → IsParent a b → Ancestor id b

  -- `n` parents above `id` stands a root.
  pub data Height : Text → ℕ → Type 0 where
    top :
        {id : Text} (p : AcademicPeriod)
        → get id by_id ≡ some p
        → p.parent_period_id ≡ none
        → Height id zero
    step : {id a : Text} {n : ℕ} → IsParent id a → Height a n → Height id (suc n)

  abbrev pub IsRooted : Text → Type 0
  IsRooted id = (n : ℕ) × Height id n

  IsParent-unique : {id a b : Text} → IsParent id a → IsParent id b → a ≡ b
  IsParent-unique {id} q r =
      let same : q.period ≡ r.period = cc (q.found, r.found) in
      cc (q.named, r.named, ap (λ (p : AcademicPeriod). p.parent_period_id) same)

  root_has_no-IsParent :
      {id a : Text} (p : AcademicPeriod)
      → get id by_id ≡ some p
      → p.parent_period_id ≡ none
      → ¬ IsParent id a
  root_has_no-IsParent {id} p found none_above r =
      let same : p ≡ r.period = cc (found, r.found) in
      cc (none_above, r.named, ap (λ (x : AcademicPeriod). x.parent_period_id) same)

  -- A parent has one unit of height less.
  Height-parent :
      {id a : Text} {n : ℕ} → Height id n → IsParent id a → (m : ℕ) × (n ≡ suc m) × Height a m
  Height-parent (top p found none_above) r = absurd (root_has_no-IsParent p found none_above r)
  Height-parent {a = a} (step {n = m} q h) r =
      (m, refl, subst (λ x. Height x m) (IsParent-unique q r) h)

  pub Height-unique : {id : Text} {n m : ℕ} → Height id n → Height id m → n ≡ m
  Height-unique (top p found none_above) (top q _ _) = refl
  Height-unique (top p found none_above) (step r h) =
      absurd (root_has_no-IsParent p found none_above r)
  Height-unique (step r h) k =
      let (m, e, h') = Height-parent k r in ap suc (Height-unique h h') ∙ sym e

  Ancestor-Height :
      {id a : Text} {n : ℕ} → Ancestor id a → Height id n → (m : ℕ) × Height a m × (m < n)
  Ancestor-Height (direct r) h = let (m, e, k) = Height-parent h r in (m, k, omega arith)
  Ancestor-Height (further up r) h =
      let (m, k, less) = Ancestor-Height up h in
      let (l, e, k') = Height-parent k r in (l, k', omega arith)

  -- What has a root above it is not its own ancestor.
  pub IsRooted-acyclic : {id : Text} → IsRooted id → ¬ Ancestor id id
  IsRooted-acyclic (n, h) up =
      let (m, k, less) = Ancestor-Height up h in
      let same = Height-unique h k in absurd (omega arith)

  abbrev pub Closed : Type 0
  Closed = (id a : Text) → IsParent id a → In a (ids by_id)
