-- ===== src/Base/Strict.antt =====
-- Lists in which each item comes before all the later ones.
use mathlib.Core.Path.{◌≡◌, refl, sym, subst}
use mathlib.Core.Logic.{inl, inr}
use mathlib.Core.Bool.{Bool, true, false}
use mathlib.Core.List.{List, [], ◌∷◌}
use pds_core.Base.Lists.{In}
use pds_core.Base.Pigeonhole.{NoDup}

module _ {A : Type 0} (less : A → A → Bool) where
  abbrev pub Increasing : List A → Type 0
  Increasing [] = Unit
  Increasing (x ∷ xs) = ((y : A) → In y xs → less x y ≡ true) × Increasing xs

  module _ (irrefl : (x : A) → less x x ≡ false)
      (trans : (x y z : A) → less x y ≡ true → less y z ≡ true → less x z ≡ true) where
    pub Increasing-NoDup : (xs : List A) → Increasing xs → NoDup xs
    Increasing-NoDup [] h = tt
    Increasing-NoDup (x ∷ xs) h = ((λ i. cc (h.0 x i, irrefl x)), Increasing-NoDup xs h.1)

    -- The first items of two such lists with the same items are the same.
    same_first :
        (x y : A) (xs ys : List A)
        → Increasing (x ∷ xs)
        → Increasing (y ∷ ys)
        → In x (y ∷ ys)
        → In y (x ∷ xs)
        → x ≡ y
    same_first x y xs ys h k (inl e) j = e
    same_first x y xs ys h k (inr i) (inl e) = sym e
    same_first x y xs ys h k (inr i) (inr j) =
        absurd (cc (trans x y x (h.0 y j) (k.0 x i), irrefl x))

    later : (x a : A) (xs ys : List A) → Increasing (x ∷ xs) → In a xs → In a (x ∷ ys) → In a ys
    later x a xs ys h i (inl e) = absurd (cc (subst (λ b. less x b ≡ true) e (h.0 a i), irrefl x))
    later x a xs ys h i (inr j) = j

    -- Two such lists with the same items are equal.
    pub ordered-Increasing :
        (xs ys : List A)
        → Increasing xs
        → Increasing ys
        → ((a : A) → In a xs → In a ys)
        → ((a : A) → In a ys → In a xs)
        → xs ≡ ys
    ordered-Increasing [] [] h k f g = refl
    ordered-Increasing [] (y ∷ ys) h k f g = absurd (g y (inl refl))
    ordered-Increasing (x ∷ xs) [] h k f g = absurd (f x (inl refl))
    ordered-Increasing (x ∷ xs) (y ∷ ys) h k f g =
        let same = same_first x y xs ys h k (f x (inl refl)) (g y (inl refl)) in
        let k_x : Increasing (x ∷ ys) = subst (λ z. Increasing (z ∷ ys)) (sym same) k in
        let f_x : (a : A) → In a xs → In a (x ∷ ys) =
          λ a i. subst (λ z. In a (z ∷ ys)) (sym same) (f a (inr i)) in
        let g_x : (a : A) → In a ys → In a (x ∷ xs) = λ a i. g a (inr i) in
        let rest =
          ordered-Increasing xs ys h.1 k.1 (λ a i. later x a xs ys h i (f_x a i))
            (λ a i. later x a ys xs k_x i (g_x a i)) in
        λ i. same i ∷ rest i
