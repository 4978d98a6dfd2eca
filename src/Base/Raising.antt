-- ===== src/Base/Raising.antt =====
-- A function that may raise returns an `Outcome`: its value, or the exception as a value.
use mathlib.Core.Path.{◌≡◌, refl}
use mathlib.Core.Logic.{◌⊎◌, inl, inr}
use mathlib.Core.Bool.{Bool, true, false}
use mathlib.Core.List.{List, [], ◌∷◌}

pub data Outcome {ℓ κ} (E : Type ℓ) (A : Type κ) : Type (ℓ ⊔ κ) where
  ok : A → Outcome E A
  err : E → Outcome E A

module _ {ℓ} {E : Type ℓ} where
  infixl 5 ◌>>=◌ ◌>>◌
  abbrev pub ◌>>=◌ {κ μ} : {A : Type κ} {B : Type μ} → Outcome E A → (A → Outcome E B) → Outcome E B
  ok a >>= f = f a
  err e >>= f = err e

  abbrev pub ◌>>◌ {κ μ} : {A : Type κ} {B : Type μ} → Outcome E A → Outcome E B → Outcome E B
  m >> k = m >>= λ _. k

  -- `if not test: raise e`
  abbrev pub guard : Bool → E → Outcome E (Unit {0})
  guard true e = ok tt
  guard false e = err e

  -- `except ...: raise ... from error`
  abbrev pub reraise {κ μ} : {F : Type κ} {A : Type μ} → (E → F) → Outcome E A → Outcome F A
  reraise f (ok a) = ok a
  reraise f (err e) = err (f e)

  -- Runs `f` on each item in order; the first exception ends the loop.
  abbrev pub each {κ μ} :
      {A : Type κ} {B : Type μ} → (A → Outcome E B) → List A → Outcome E (List B)
  each f [] = ok []
  each f (x ∷ xs) = do y ← f x; ys ← each f xs; ok (y ∷ ys)

  pub >>=-eq-ok {κ μ} :
      {A : Type κ} {B : Type μ} (m : Outcome E A) (next : A → Outcome E B) {y : B}
      → (m >>= next) ≡ ok y
      → (x : A) × (m ≡ ok x) × (next x ≡ ok y)
  >>=-eq-ok (ok x) next p = (x, refl, p)
  >>=-eq-ok (err e) next p = cc

  pub guard-eq-ok : (b : Bool) (e : E) {u : Unit {0}} → guard b e ≡ ok u → b ≡ true
  guard-eq-ok true e h = refl
  guard-eq-ok false e h = cc

  pub >>-guard-inv {κ} :
      {A : Type κ} (b : Bool) (e : E) (next : Outcome E A) {y : A}
      → (guard b e >> next) ≡ ok y
      → (b ≡ true) × (next ≡ ok y)
  >>-guard-inv true e next h = (refl, h)
  >>-guard-inv false e next h = cc

  pub ok-inj {κ} : {A : Type κ} {a b : A} → Path (Outcome E A) (ok a) (ok b) → a ≡ b
  ok-inj e = cc

  pub err-inj {κ} : {A : Type κ} {x y : E} → Path (Outcome E A) (err x) (err y) → x ≡ y
  err-inj e = cc

  pub Outcome-cases {κ} :
      {A : Type κ} (m : Outcome E A) → ((a : A) × (m ≡ ok a)) ⊎ ((e : E) × (m ≡ err e))
  Outcome-cases (ok a) = inl (a, refl)
  Outcome-cases (err e) = inr (e, refl)

pub reraise-eq-ok {ℓ κ μ} :
    {E : Type ℓ} {F : Type κ} {A : Type μ} (f : E → F) (m : Outcome E A) {a : A}
    → reraise f m ≡ ok a
    → m ≡ ok a
reraise-eq-ok f (ok b) h = cc
reraise-eq-ok f (err e) h = cc
