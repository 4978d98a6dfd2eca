-- ===== src/Publications/Series/Ordering.antt =====
-- The order by revision in which a series is returned.
use mathlib.Core.Path.{subst}
use pds_core.Base.{
  ◌≡◌, refl, sym, inl, inr, Bool, true, false, ◌&&◌, ◌||◌, List, [], ◌∷◌, Text, text_ltb,
  text_ltb_asym, NoDup, Ordered, Increasing, sort_by, sort_by-Ordered, NoDup-map-sort_by, arith,
  ◌≢◌,
}
use pds_core.Json.{ℤ, pos, negsuc, int_eq, int_ltb, int_ltb_trans}
use pds_core.Publications.{PublicationRecord}
use pds_core.Publications.Series.{series_ltb}
use pds_core.Publications.Series.Links.{revisions}

abbrev pub by_revision : PublicationRecord → PublicationRecord → Bool
by_revision a b = int_ltb a.record_set_revision b.record_set_revision

pub int_ltb_irrefl : (a : ℤ) → int_ltb a a ≡ false
unfolding int_ltb
int_ltb_irrefl (pos n) = ground arith
int_ltb_irrefl (negsuc n) = ground arith

int_ltb_total : (a b : ℤ) → int_ltb a b ≡ false → a ≢ b → int_ltb b a ≡ true
unfolding int_ltb
int_ltb_total (pos a) (pos b) h n = ground (arith, n)
int_ltb_total (pos a) (negsuc b) h n = refl
int_ltb_total (negsuc a) (pos b) h n = cc
int_ltb_total (negsuc a) (negsuc b) h n = ground (arith, n)

key_asym :
    (m n : ℤ) (s t : Text)
    → int_ltb m n || (int_eq m n && text_ltb s t) ≡ true
    → int_ltb n m || (int_eq n m && text_ltb t s) ≡ false
unfolding int_ltb int_eq
key_asym (pos m) (pos n) s t h = ground (arith, text_ltb_asym s t)
key_asym (pos m) (negsuc n) s t h = ground (arith, text_ltb_asym s t)
key_asym (negsuc m) (pos n) s t h = ground (arith, text_ltb_asym s t)
key_asym (negsuc m) (negsuc n) s t h = ground (arith, text_ltb_asym s t)

series_ltb_asym : (a b : PublicationRecord) → series_ltb a b ≡ true → series_ltb b a ≡ false
unfolding series_ltb
series_ltb_asym a b h =
    key_asym a.record_set_revision b.record_set_revision a.publication_id b.publication_id h

before_next :
    (x y : PublicationRecord)
    → series_ltb y x ≡ false
    → x.record_set_revision ≢ y.record_set_revision
    → by_revision x y ≡ true
unfolding series_ltb
before_next x y h n =
    int_ltb_total y.record_set_revision x.record_set_revision (ground (arith, h)) (λ e. n (sym e))

-- Where no revision stands twice, the order is by revision alone.
Ordered-Increasing :
    (rs : List PublicationRecord)
    → Ordered series_ltb rs
    → NoDup (revisions rs)
    → Increasing by_revision rs
Ordered-Increasing [] h d = tt
Ordered-Increasing (x ∷ []) h d = ((λ y i. absurd i), tt)
Ordered-Increasing (x ∷ y ∷ rs) h d =
    let rest = Ordered-Increasing (y ∷ rs) h.1 d.1 in
    let next = before_next x y h.0 (λ e. d.0 (inl e)) in
    (
      (λ z i. elim i [
        | inl e ↦ subst (λ k. by_revision x k ≡ true) (sym e) next
        | inr j ↦
            int_ltb_trans x.record_set_revision y.record_set_revision z.record_set_revision next
              (rest.0 z j)
      ]),
      rest,
    )

pub sort_by-Increasing :
    (rs : List PublicationRecord)
    → NoDup (revisions rs)
    → Increasing by_revision (sort_by series_ltb rs)
sort_by-Increasing rs d =
    Ordered-Increasing (sort_by series_ltb rs) (sort_by-Ordered series_ltb series_ltb_asym rs)
      (NoDup-map-sort_by series_ltb (λ (r : PublicationRecord). r.record_set_revision) rs d)
