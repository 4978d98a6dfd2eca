-- ===== src/Base/Unions.antt =====
-- The items of two lists in a row, and lists without a common item.
use mathlib.Core.Path.{subst, ◌≡◌, refl, sym, ◌∙◌, ap}
use mathlib.Core.Logic.{inl, inr, ◌⊎◌}
use mathlib.Core.Bool.{Bool, true}
use mathlib.Core.List.{map, List, [], ◌∷◌, ◌++◌}
use pds_core.Base.Tests.{Bool-cases}
use pds_core.Base.Lists.{In, keep}
use pds_core.Base.Pigeonhole.{NoDup}
use pds_core.Base.Sort.{sort_by, NoDup-map-sort_by}

module _ {A : Type 0} where
  pub append_assoc : (xs ys zs : List A) → (xs ++ ys) ++ zs ≡ xs ++ (ys ++ zs)
  append_assoc [] ys zs = refl
  append_assoc (x ∷ xs) ys zs = ap (λ l. x ∷ l) (append_assoc xs ys zs)

  pub append-nil : (xs : List A) → xs ++ [] ≡ xs
  append-nil [] = refl
  append-nil (x ∷ xs) = ap (λ l. x ∷ l) (append-nil xs)

  pub append-In : (a : A) (xs ys : List A) → In a (xs ++ ys) → In a xs ⊎ In a ys
  append-In a [] ys i = inr i
  append-In a (x ∷ xs) ys (inl e) = inl (inl e)
  append-In a (x ∷ xs) ys (inr i) = elim (append-In a xs ys i) [
    | inl j ↦ inl (inr j)
    | inr j ↦ inr j
  ]

  pub In-left : (a : A) (xs ys : List A) → In a xs → In a (xs ++ ys)
  In-left a [] ys i = absurd i
  In-left a (x ∷ xs) ys (inl e) = inl e
  In-left a (x ∷ xs) ys (inr i) = inr (In-left a xs ys i)

  pub In-right : (a : A) (xs ys : List A) → In a ys → In a (xs ++ ys)
  In-right a [] ys i = i
  In-right a (x ∷ xs) ys i = inr (In-right a xs ys i)

  pub NoDup-append :
      (xs ys : List A) → NoDup xs → NoDup ys → ((a : A) → In a xs → ¬ In a ys) → NoDup (xs ++ ys)
  NoDup-append [] ys dx dy apart = dy
  NoDup-append (x ∷ xs) ys dx dy apart = (
    (λ i. elim (append-In x xs ys i) [ inl j ↦ dx.0 j | inr j ↦ apart x (inl refl) j ]),
    NoDup-append xs ys dx.1 dy (λ a j. apart a (inr j)),
  )

  pub keep-In : (p : A → Bool) (a : A) (xs : List A) → In a (keep p xs) → In a xs × (p a ≡ true)
  keep-In p a [] i = absurd i
  keep-In p a (x ∷ xs) i = elim (Bool-cases (p x)) [
    | inl e ↦ elim (rw e at i) [
      | inl same ↦ (inl same, ap p same ∙ e)
      | inr j ↦ let (k, t) = keep-In p a xs j in (inr k, t)
    ]
    | inr e ↦ let (k, t) = keep-In p a xs (rw e at i) in (inr k, t)
  ]

  pub In-keep : (p : A → Bool) (a : A) (xs : List A) → In a xs → p a ≡ true → In a (keep p xs)
  In-keep p a [] i h = i
  In-keep p a (x ∷ xs) (inl e) h = rw (sym (ap p e) ∙ h) (inl e)
  In-keep p a (x ∷ xs) (inr i) h = elim (Bool-cases (p x)) [
    | inl e ↦ rw e (inr (In-keep p a xs i h))
    | inr e ↦ rw e (In-keep p a xs i h)
  ]

  pub NoDup-keep : (p : A → Bool) (xs : List A) → NoDup xs → NoDup (keep p xs)
  NoDup-keep p [] d = d
  NoDup-keep p (x ∷ xs) d = elim (Bool-cases (p x)) [
    | inl e ↦ rw e ((λ i. d.0 (keep-In p x xs i).0), NoDup-keep p xs d.1)
    | inr e ↦ rw e (NoDup-keep p xs d.1)
  ]

  map-same : (xs : List A) → map (λ x. x) xs ≡ xs
  map-same [] = refl
  map-same (x ∷ xs) = ap (λ l. x ∷ l) (map-same xs)

  pub NoDup-sort_by : (less : A → A → Bool) (xs : List A) → NoDup xs → NoDup (sort_by less xs)
  NoDup-sort_by less xs d =
      subst NoDup (map-same (sort_by less xs))
        (NoDup-map-sort_by less (λ x. x) xs (subst NoDup (sym (map-same xs)) d))

  pub map-In : {B : Type 0} (f : A → B) (x : A) (xs : List A) → In x xs → In (f x) (map f xs)
  map-In f x [] i = i
  map-In f x (y ∷ ys) (inl e) = inl (ap f e)
  map-In f x (y ∷ ys) (inr i) = inr (map-In f x ys i)

  pub NoDup-unmapped : {B : Type 0} (f : A → B) (xs : List A) → NoDup (map f xs) → NoDup xs
  NoDup-unmapped f [] d = d
  NoDup-unmapped f (x ∷ xs) d = ((λ i. d.0 (map-In f x xs i)), NoDup-unmapped f xs d.1)

  -- Distinct keys name distinct items.
  pub same_key :
      {B : Type 0} (f : A → B) (xs : List A)
      → NoDup (map f xs)
      → (a b : A) → In a xs
      → In b xs
      → f a ≡ f b
      → a ≡ b
  same_key f [] d a b i j e = absurd i
  same_key f (x ∷ xs) d a b (inl p) (inl q) e = p ∙ sym q
  same_key f (x ∷ xs) d a b (inl p) (inr j) e =
      absurd (d.0 (subst (λ y. In y (map f xs)) (sym e ∙ ap f p) (map-In f b xs j)))
  same_key f (x ∷ xs) d a b (inr i) (inl q) e =
      absurd (d.0 (subst (λ y. In y (map f xs)) (e ∙ ap f q) (map-In f a xs i)))
  same_key f (x ∷ xs) d a b (inr i) (inr j) e = same_key f xs d.1 a b i j e
