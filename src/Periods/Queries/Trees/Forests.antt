-- ===== src/Periods/Queries/Trees/Forests.antt =====
-- The loop over the stack returns the depth-first preorder.
use mathlib.Core.Path.{subst}
use pds_core.Base.{
  ℕ, zero, suc, ◌+◌, ◌≤◌, ◌≡◌, refl, sym, ◌∙◌, ap, inl, inr, some, List, [], ◌∷◌, ◌++◌, ok,
  >>=-eq-ok, In, arith, length, length-append, append-In, append_assoc, ok-inj,
}
use pds_core.Periods.{AcademicPeriod}
use pds_core.Periods.Queries.Trees.{ByParent, children_of, preorder}

module _ (d : ByParent) where
  -- Each period of the first list is followed by its descendants, and then by the rest.
  pub data IsForest : List AcademicPeriod → List AcademicPeriod → Type 0 where
    empty : IsForest [] []
    tree :
        (p : AcademicPeriod) {below ps rest : List AcademicPeriod}
        → IsForest (children_of (some p.period_id) d) below
        → IsForest ps rest
        → IsForest (p ∷ ps) (p ∷ below ++ rest)

  IsForest-split :
      (ps qs : List AcademicPeriod) {rs : List AcademicPeriod}
      → IsForest (ps ++ qs) rs
      → (xs ys : List AcademicPeriod) × IsForest ps xs × IsForest qs ys × (xs ++ ys ≡ rs)
  IsForest-split [] qs {rs} f = ([], rs, empty, f, refl)
  IsForest-split (p ∷ ps) qs (tree _ {below = below} {rest = rest} f g) =
      let (xs, ys, h, k, e) = IsForest-split ps qs g in
      (
        p ∷ below ++ xs,
        ys,
        tree p f h,
        k,
        ap (λ l. p ∷ l) (append_assoc below xs ys ∙ ap (λ l. below ++ l) e),
      )

  pub preorder-IsForest :
      (fuel : ℕ) (stack rs : List AcademicPeriod)
      → preorder fuel d stack ≡ ok rs
      → IsForest stack rs
  unfolding preorder
  preorder-IsForest fuel [] rs h = subst (IsForest []) (ok-inj h) empty
  preorder-IsForest zero (p ∷ stack) rs h = cc
  preorder-IsForest (suc fuel) (p ∷ stack) rs h =
      let (rest, popped, e) =
        >>=-eq-ok (preorder fuel d (children_of (some p.period_id) d ++ stack)) _ h in
      let (xs, ys, f, g, split) =
        IsForest-split (children_of (some p.period_id) d) stack
          (preorder-IsForest fuel _ rest popped) in
      subst (IsForest (p ∷ stack)) (ap (λ l. p ∷ l) split ∙ ok-inj e) (tree p f g)

  preorder-more :
      (fuel more : ℕ) (stack : List AcademicPeriod) {rs : List AcademicPeriod}
      → preorder fuel d stack ≡ ok rs
      → fuel ≤ more
      → preorder more d stack ≡ ok rs
  unfolding preorder
  preorder-more fuel more [] h less = h
  preorder-more zero more (p ∷ stack) h less = cc
  preorder-more (suc fuel) zero (p ∷ stack) h less = absurd (omega (arith, less))
  preorder-more (suc fuel) (suc more) (p ∷ stack) h less =
      let (rest, popped, e) =
        >>=-eq-ok (preorder fuel d (children_of (some p.period_id) d ++ stack)) _ h in
      rw (preorder-more fuel more _ popped (omega (arith, less))) e

  preorder-append :
      (m n fuel : ℕ) (ps qs : List AcademicPeriod) {xs ys : List AcademicPeriod}
      → preorder m d ps ≡ ok xs
      → preorder n d qs ≡ ok ys
      → m + n ≤ fuel
      → preorder fuel d (ps ++ qs) ≡ ok (xs ++ ys)
  unfolding preorder
  preorder-append m n fuel [] qs {xs} {ys} h k enough =
      preorder-more n fuel qs (k ∙ ap (λ l. ok (l ++ ys)) (ok-inj h)) (omega (arith, enough))
  preorder-append zero n fuel (p ∷ ps) qs h k enough = cc
  preorder-append (suc m) n zero (p ∷ ps) qs h k enough = absurd (omega (arith, enough))
  preorder-append (suc m) n (suc fuel) (p ∷ ps) qs {xs} {ys} h k enough =
      let (rest, popped, e) =
        >>=-eq-ok (preorder m d (children_of (some p.period_id) d ++ ps)) _ h in
      let longer =
        ap (preorder fuel d) (sym (append_assoc (children_of (some p.period_id) d) ps qs))
        ∙ preorder-append m n fuel _ qs popped k (omega (arith, enough)) in
      rw longer (ap (λ l. ok (l ++ ys)) (ok-inj e))

  pub forest-preorder :
      {ps rs : List AcademicPeriod} (fuel : ℕ)
      → IsForest ps rs
      → length rs ≤ fuel
      → preorder fuel d ps ≡ ok rs
  unfolding preorder
  forest-preorder fuel empty less = refl
  forest-preorder zero (tree p f g) less = absurd (omega (arith, less))
  forest-preorder (suc fuel) (tree p {below} {ps} {rest} f g) less =
      let joined =
        preorder-append (length below) (length rest) fuel (children_of (some p.period_id) d) ps
          (forest-preorder (length below) f (omega arith))
          (forest-preorder (length rest) g (omega arith))
          (omega (arith, less, length-append below rest)) in
      rw joined refl

  -- The descendants of a period are listed in every preorder that lists it.
  pub IsForest-In :
      {ps rs : List AcademicPeriod} (q : AcademicPeriod)
      → IsForest ps rs
      → In q rs
      → (below : List AcademicPeriod) × IsForest (children_of (some q.period_id) d) below
        × (length below ≤ length rs)
  IsForest-In q empty i = absurd i
  IsForest-In q (tree p {below = below} {rest = rest} f g) (inl e) = (
    below,
    subst (λ (x : AcademicPeriod). IsForest (children_of (some x.period_id) d) below) (sym e) f,
    omega (arith, length-append below rest),
  )
  IsForest-In q (tree p {below = below} {rest = rest} f g) (inr i) =
      elim (append-In q below rest i) [
        | inl j ↦
            let (xs, h, less) = IsForest-In q f j in
            (xs, h, omega (arith, less, length-append below rest))
        | inr j ↦
            let (xs, h, less) = IsForest-In q g j in
            (xs, h, omega (arith, less, length-append below rest))
      ]
