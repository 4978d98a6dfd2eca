-- ===== src/Publications/Series/Members.antt =====
-- The records of a series by their revisions.
use mathlib.Core.Path.{subst}
use pds_core.Base.{
  same_key, ◌≡◌, refl, sym, ap, ◌∙◌, inl, inr, Bool, true, false, List, [], ◌∷◌, any, length, In,
  NoDup, pigeonhole, arith, Bool-cases,
}
use pds_core.Json.{int_eq, int_eq_iff}
use pds_core.Publications.{PublicationRecord}
use pds_core.Publications.Series.Links.{revisions}

pub any-In :
    (p : PublicationRecord → Bool) (rs : List PublicationRecord)
    → any p rs ≡ true
    → (r : PublicationRecord) × In r rs × (p r ≡ true)
any-In p [] h = cc
any-In p (s ∷ rs) h = elim (Bool-cases (p s)) [
  | inl e ↦ (s, inl refl, e)
  | inr e ↦ let (r, i, t) = any-In p rs (rw e at h) in (r, inr i, t)
]

pub unmatched :
    (p : PublicationRecord → Bool) (r : PublicationRecord) (rs : List PublicationRecord)
    → any p rs ≡ false
    → p r ≡ true
    → ¬ In r rs
unmatched p r [] h t i = i
unmatched p r (s ∷ rs) h t (inl e) = cc (ap p (sym e) ∙ t, h)
unmatched p r (s ∷ rs) h t (inr i) = unmatched p r rs (ground (arith, h)) t i

pub covered :
    (xs vs : List PublicationRecord) (a : PublicationRecord)
    → NoDup xs
    → ((r : PublicationRecord) → In r xs → In r vs)
    → length xs ≡ length vs
    → NoDup (revisions vs)
    → In a vs
    → In a xs
covered xs vs a d f long single i = elim (Bool-cases (any same_revision xs)) [
  | inl e ↦
      let (r, j, t) = any-In same_revision xs e in
      let revision = (int_eq_iff a.record_set_revision r.record_set_revision).0 t in
      subst (λ x. In x xs)
        (sym (
          same_key (λ (x : PublicationRecord). x.record_set_revision) vs single a r i (f r j)
            revision))
        j
  | inr e ↦
      let new = unmatched same_revision a xs e ((int_eq_iff _ _).1 refl) in
      absurd (
        omega (
          arith,
          long,
          pigeonhole (a ∷ xs) vs (new, d)
              (λ r j. elim j [ inl same ↦ subst (λ x. In x vs) (sym same) i | inr k ↦ f r k ]),
        ))
]
  where
    same_revision : PublicationRecord → Bool
    same_revision r = int_eq a.record_set_revision r.record_set_revision
