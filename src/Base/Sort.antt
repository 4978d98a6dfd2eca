-- ===== src/Base/Sort.antt =====
-- Python's `sorted`, by an order of the caller. It is stable, as `sorted` is.
use mathlib.Core.Path.{◌≡◌, refl, sym}
use mathlib.Core.Logic.{◌↔◌, ◌⊎◌, inl, inr}
use mathlib.Core.Bool.{Bool, true, false, ◌&&◌, ◌||◌}
use mathlib.Core.List.{List, [], ◌∷◌, map}
use native.Mathlib.Omega.{arith}
use Prim.Native.Nat.{suc}
use pds_core.Base.Tests.{if◌then◌else◌, Bool-cases}
use pds_core.Base.Pigeonhole.{NoDup}
use pds_core.Base.Lists.{In, length, all, any}

-- Before the first item that comes after it: `less x y` tests that `x` must stand before `y`.
abbrev pub insert_by {ℓ} : {A : Type ℓ} → (A → A → Bool) → A → List A → List A
insert_by less x [] = x ∷ []
insert_by less x (y ∷ ys) = if less y x then y ∷ insert_by less x ys else x ∷ y ∷ ys

unfoldable pub sort_by {ℓ} : {A : Type ℓ} → (A → A → Bool) → List A → List A
sort_by less [] = []
sort_by less (x ∷ xs) = insert_by less x (sort_by less xs)

module _ {ℓ} {A : Type ℓ} (less : A → A → Bool) (p : A → Bool) where
  all-insert_by : (x : A) (ys : List A) → all p (insert_by less x ys) ≡ (p x && all p ys)
  all-insert_by x [] = refl
  all-insert_by x (y ∷ ys) = ground (arith, all-insert_by x ys)

  pub all-sort_by : (xs : List A) → all p (sort_by less xs) ≡ all p xs
  unfolding sort_by
  all-sort_by [] = refl
  all-sort_by (x ∷ xs) = ground (arith, all-insert_by x (sort_by less xs), all-sort_by xs)

  pub any-insert_by : (x : A) (ys : List A) → any p (insert_by less x ys) ≡ (p x || any p ys)
  any-insert_by x [] = refl
  any-insert_by x (y ∷ ys) = ground (arith, any-insert_by x ys)

  pub any-sort_by : (xs : List A) → any p (sort_by less xs) ≡ any p xs
  unfolding sort_by
  any-sort_by [] = refl
  any-sort_by (x ∷ xs) = ground (arith, any-insert_by x (sort_by less xs), any-sort_by xs)

module _ {A : Type 0} (less : A → A → Bool) where
  In-insert_by : (a x : A) (ys : List A) → In a (insert_by less x ys) ↔ ((a ≡ x) ⊎ In a ys)
  In-insert_by a x [] = ((λ h. h), (λ h. h))
  In-insert_by a x (y ∷ ys) = elim (Bool-cases (less y x)) [
    | inl e ↦
        rw e
          ((λ h. ground (arith, In-insert_by a x ys)), (λ h. ground (arith, In-insert_by a x ys)))
    | inr e ↦ rw e ((λ h. h), (λ h. h))
  ]

  pub In-sort_by : (a : A) (xs : List A) → In a (sort_by less xs) ↔ In a xs
  unfolding sort_by
  In-sort_by a [] = ((λ h. h), (λ h. h))
  In-sort_by a (x ∷ xs) = ground (arith, In-insert_by a x (sort_by less xs), In-sort_by a xs)

  length-insert_by : (x : A) (ys : List A) → length (insert_by less x ys) ≡ suc (length ys)
  length-insert_by x [] = refl
  length-insert_by x (y ∷ ys) = ground (arith, length-insert_by x ys)

  pub length-sort_by : (xs : List A) → length (sort_by less xs) ≡ length xs
  unfolding sort_by
  length-sort_by [] = refl
  length-sort_by (x ∷ xs) = ground (arith, length-insert_by x (sort_by less xs), length-sort_by xs)

-- Neither of two neighbours must stand after the other.
abbrev pub Ordered {ℓ} : {A : Type ℓ} → (A → A → Bool) → List A → Type 0
Ordered less [] = Unit
Ordered less (x ∷ []) = Unit
Ordered less (x ∷ y ∷ ys) = (less y x ≡ false) × Ordered less (y ∷ ys)

module _ {ℓ} {A : Type ℓ} (less : A → A → Bool)
    (asym : (x y : A) → less x y ≡ true → less y x ≡ false) where
  insert_by-Ordered : (x : A) (ys : List A) → Ordered less ys → Ordered less (insert_by less x ys)
  insert_by-Ordered x [] h = tt
  insert_by-Ordered x (y ∷ []) h = elim (Bool-cases (less y x)) [
    | inl e ↦ rw e (asym y x e, tt)
    | inr e ↦ rw e (e, tt)
  ]
  insert_by-Ordered x (y ∷ z ∷ ys) h = elim (Bool-cases (less y x)) [
    | inl e ↦
        let rest = insert_by-Ordered x (z ∷ ys) h.1 in
        rw e (elim (Bool-cases (less z x)) [
          | inl f ↦ rw f (h.0, rw f at rest)
          | inr f ↦ rw f (asym y x e, (f, h.1))
        ])
    | inr e ↦ rw e (e, h)
  ]

  pub sort_by-Ordered : (xs : List A) → Ordered less (sort_by less xs)
  unfolding sort_by
  sort_by-Ordered [] = tt
  sort_by-Ordered (x ∷ xs) = insert_by-Ordered x (sort_by less xs) (sort_by-Ordered xs)

module _ {ℓ} {A : Type ℓ} (less : A → A → Bool) where
  -- A list in order is left as it is.
  pub sort_by_fixed : (xs : List A) → Ordered less xs → sort_by less xs ≡ xs
  unfolding sort_by
  sort_by_fixed [] h = refl
  sort_by_fixed (x ∷ []) h = refl
  sort_by_fixed (x ∷ y ∷ ys) h = rw (sort_by_fixed (y ∷ ys) h.1, h.0)

module _ {A K : Type 0} (less : A → A → Bool) (key : A → K) where
  In-map-insert_by :
      (k : K) (x : A) (ys : List A)
      → In k (map key (insert_by less x ys))
      → (k ≡ key x) ⊎ In k (map key ys)
  In-map-insert_by k x [] i = i
  In-map-insert_by k x (y ∷ ys) i = elim (Bool-cases (less y x)) [
    | inl e ↦ elim (rw e at i) [
      | inl same ↦ inr (inl same)
      | inr j ↦ elim (In-map-insert_by k x ys j) [ inl same ↦ inl same | inr l ↦ inr (inr l) ]
    ]
    | inr e ↦ rw e at i
  ]

  NoDup-map-insert_by :
      (x : A) (ys : List A)
      → ¬ In (key x) (map key ys)
      → NoDup (map key ys)
      → NoDup (map key (insert_by less x ys))
  NoDup-map-insert_by x [] n d = (n, d)
  NoDup-map-insert_by x (y ∷ ys) n d = elim (Bool-cases (less y x)) [
    | inl e ↦ rw e (
      (λ i. elim (In-map-insert_by (key y) x ys i) [
        | inl same ↦ n (inl (sym same))
        | inr j ↦ d.0 j
      ]),
      NoDup-map-insert_by x ys (λ i. n (inr i)) d.1,
    )
    | inr e ↦ rw e (n, d)
  ]

  In-map-sort_by : (k : K) (xs : List A) → In k (map key (sort_by less xs)) → In k (map key xs)
  unfolding sort_by
  In-map-sort_by k [] i = i
  In-map-sort_by k (x ∷ xs) i = elim (In-map-insert_by k x (sort_by less xs) i) [
    | inl same ↦ inl same
    | inr j ↦ inr (In-map-sort_by k xs j)
  ]

  pub NoDup-map-sort_by : (xs : List A) → NoDup (map key xs) → NoDup (map key (sort_by less xs))
  unfolding sort_by
  NoDup-map-sort_by [] d = d
  NoDup-map-sort_by (x ∷ xs) d =
      NoDup-map-insert_by x (sort_by less xs) (λ i. d.0 (In-map-sort_by (key x) xs i))
        (NoDup-map-sort_by xs d.1)
