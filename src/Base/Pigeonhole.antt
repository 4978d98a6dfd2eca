-- ===== src/Base/Pigeonhole.antt =====
-- A list without repetitions is no longer than a list that holds all of its items.
use mathlib.Core.Path.{◌≡◌, refl, sym, ◌∙◌}
use mathlib.Core.Logic.{◌≢◌, inl, inr}
use mathlib.Core.List.{List, [], ◌∷◌}
use native.Mathlib.Omega.{arith}
use Prim.Native.Nat.{suc, ◌≤◌}
use pds_core.Base.Lists.{In, length}

module _ {A : Type 0} where
  abbrev pub NoDup : List A → Type 0
  NoDup [] = Unit
  NoDup (x ∷ xs) = (¬ In x xs) × NoDup xs

  without : (x : A) (ys : List A) → In x ys → List A
  without x [] i = absurd i
  without x (y ∷ ys) (inl e) = ys
  without x (y ∷ ys) (inr i) = y ∷ without x ys i

  length-without : (x : A) (ys : List A) (i : In x ys) → suc (length (without x ys i)) ≡ length ys
  unfolding without
  length-without x [] i = absurd i
  length-without x (y ∷ ys) (inl e) = refl
  length-without x (y ∷ ys) (inr i) = omega (arith, length-without x ys i)

  In-without : (a x : A) (ys : List A) (i : In x ys) → a ≢ x → In a ys → In a (without x ys i)
  unfolding without
  In-without a x [] i n h = absurd i
  In-without a x (y ∷ ys) (inl e) n (inl f) = absurd (n (f ∙ sym e))
  In-without a x (y ∷ ys) (inl e) n (inr h) = h
  In-without a x (y ∷ ys) (inr i) n (inl f) = inl f
  In-without a x (y ∷ ys) (inr i) n (inr h) = inr (In-without a x ys i n h)

  pub pigeonhole :
      (xs ys : List A) → NoDup xs → ((a : A) → In a xs → In a ys) → length xs ≤ length ys
  pigeonhole [] ys d f = omega arith
  pigeonhole (x ∷ xs) ys d f =
      let i = f x (inl refl) in
      omega (
        arith,
        length-without x ys i,
        pigeonhole xs (without x ys i) d.1
            (λ a h. In-without a x ys i (λ e. d.0 (rw (← e) h)) (f a (inr h))),
      )
