-- ===== src/Base/Strip.antt =====
-- `strip` leaves a text with no surrounding space, so a second `strip` changes nothing.
use mathlib.Core.List.{reverse, reverse-append, reverse-reverse}
use mathlib.Core.Path.{◌≡◌, refl, sym, ap, ◌∙◌, subst}
use mathlib.Core.Bool.{false}
use mathlib.Core.List.{[], ◌∷◌, ◌++◌}
use mathlib.Core.Logic.{inl, inr}
use pds_core.Base.Tests.{Bool-cases}
use pds_core.Base.Lists.{Text, is_space, lstrip, strip}

-- The text does not begin with a space.
abbrev StartsClean : Text → Type 0
StartsClean [] = Unit
StartsClean (c ∷ s) = is_space c ≡ false

lstrip-StartsClean : (s : Text) → StartsClean (lstrip s)
unfolding lstrip
lstrip-StartsClean [] = tt
lstrip-StartsClean (c ∷ s) = elim (Bool-cases (is_space c)) [
  | inl e ↦ rw e (lstrip-StartsClean s)
  | inr e ↦ rw e e
]

lstrip_clean : (s : Text) → StartsClean s → lstrip s ≡ s
unfolding lstrip
lstrip_clean [] h = refl
lstrip_clean (c ∷ s) h = rw h

lstrip_suffix : (s : Text) → (p : Text) × (s ≡ p ++ lstrip s)
unfolding lstrip
lstrip_suffix [] = ([], refl)
lstrip_suffix (c ∷ s) = elim (Bool-cases (is_space c)) [
  | inl e ↦ let (p, q) = lstrip_suffix s in (c ∷ p, rw e (ap (λ t. c ∷ t) q))
  | inr e ↦ ([], rw e)
]

StartsClean-prefix : (s t : Text) → StartsClean (s ++ t) → StartsClean s
StartsClean-prefix [] t h = tt
StartsClean-prefix (c ∷ s) t h = h

strip-StartsClean : (s : Text) → StartsClean (strip s)
unfolding strip
strip-StartsClean s =
    let t = lstrip s in
    let (p, q) = lstrip_suffix (reverse t) in
    let whole : t ≡ reverse (lstrip (reverse t)) ++ reverse p =
      sym (reverse-reverse t) ∙ ap reverse q ∙ reverse-append p (lstrip (reverse t)) in
    StartsClean-prefix _ (reverse p) (subst StartsClean whole (lstrip-StartsClean s))

pub strip_idem : (s : Text) → strip (strip s) ≡ strip s
unfolding strip
strip_idem s =
    let u = lstrip (reverse (lstrip s)) in
    let front : lstrip (reverse u) ≡ reverse u =
      lstrip_clean (reverse u) (unfold strip in strip-StartsClean s) in
    let back : lstrip u ≡ u = lstrip_clean u (lstrip-StartsClean (reverse (lstrip s))) in
    ap (λ t. reverse (lstrip (reverse t))) front
    ∙ ap (λ t. reverse (lstrip t)) (reverse-reverse u)
    ∙ ap reverse back
