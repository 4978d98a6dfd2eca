-- ===== src/Base/Validators.antt =====
-- A validator returns its argument or raises. `Decides m a P`: the call `m` returns `a` where `P`
-- holds, and raises where it does not.
use mathlib.Core.Path.{◌≡◌, refl}
use mathlib.Core.Logic.{◌↔◌, ◌⊎◌, inl, inr}
use mathlib.Core.Bool.{Bool, true, false, not}
use pds_core.Base.Raising.{Outcome, ok, err, ◌>>=◌, ◌>>◌, guard, reraise}

abbrev pub Decides : {E A : Type 0} → Outcome E A → A → Type 0 → Type 0
Decides {E} m a P = (m ≡ ok a) × P ⊎ ((e : E) × (m ≡ err e)) × ¬ P

pub not_iff : (b : Bool) → (not b ≡ true) ↔ (b ≡ false)
not_iff true = ((λ h. cc), (λ h. cc))
not_iff false = ((λ h. refl), (λ h. refl))

pub same_iff : (b : Bool) → (b ≡ true) ↔ (b ≡ true)
same_iff b = ((λ h. h), (λ h. h))

module _ {E A : Type 0} where
  pub Decides-iff :
      (m : Outcome E A) (a b : A) (P : Type 0) → Decides m a P → (m ≡ ok b) ↔ ((b ≡ a) × P)
  Decides-iff m a b P (inl (e, p)) = ((λ h. (cc, p)), (λ h. cc))
  Decides-iff m a b P (inr ((x, e), n)) = ((λ h. cc), (λ h. absurd (n h.1)))

  pub Decides-ok : (m : Outcome E A) (a : A) (P : Type 0) → Decides m a P → P → m ≡ ok a
  Decides-ok m a P d p = (Decides-iff m a a P d).1 (refl, p)

  pub Decides-inv :
      (m : Outcome E A) (a : A) {b : A} (P : Type 0) → Decides m a P → m ≡ ok b → (b ≡ a) × P
  Decides-inv m a {b} P d h = (Decides-iff m a b P d).0 h

  pub Decides-map : (m : Outcome E A) (a : A) (P Q : Type 0) → P ↔ Q → Decides m a P → Decides m a Q
  Decides-map m a P Q f (inl (e, p)) = inl (e, f.0 p)
  Decides-map m a P Q f (inr (x, n)) = inr (x, (λ q. n (f.1 q)))

  pub Decides-return : (a : A) → Decides {E = E} (ok a) a Unit
  Decides-return a = inl (refl, tt)

  pub Decides-guard :
      (t : Bool) (e : E) (k : Outcome E A) (a : A) (P Q : Type 0)
      → (t ≡ true) ↔ P
      → Decides k a Q
      → Decides (guard t e >> k) a (P × Q)
  Decides-guard true e k a P Q f (inl (h, q)) = inl (h, (f.0 refl, q))
  Decides-guard true e k a P Q f (inr (x, n)) = inr (x, (λ h. n h.1))
  Decides-guard false e k a P Q f d = inr ((e, refl), (λ h. cc (f.1 h.0)))

pub Decides-then :
    {E A B : Type 0} (m : Outcome E A) (a : A) (k : A → Outcome E B) (b : B) (P Q : Type 0)
    → Decides m a P
    → Decides (k a) b Q
    → Decides (m >>= k) b (P × Q)
Decides-then m a k b P Q (inl (e, p)) (inl (f, q)) = inl (rw e f, (p, q))
Decides-then m a k b P Q (inl (e, p)) (inr ((x, f), n)) = inr ((x, rw e f), (λ h. n h.1))
Decides-then m a k b P Q (inr ((x, e), n)) d = inr ((x, rw e refl), (λ h. n h.0))

pub Decides-reraise :
    {E F A : Type 0} (f : E → F) (m : Outcome E A) (a : A) (P : Type 0)
    → Decides m a P
    → Decides (reraise f m) a P
Decides-reraise f m a P (inl (e, p)) = inl (rw e refl, p)
Decides-reraise f m a P (inr ((x, e), n)) = inr ((f x, rw e refl), n)
