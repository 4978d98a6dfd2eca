-- ===== src/Publications/Series/Ends.antt =====
-- The loop over a series ends: its bound is never reached.
use mathlib.Core.Path.{subst}
use pds_core.Base.{
  ℕ, zero, suc, ◌+◌, ◌≡◌, refl, sym, ap, ◌≢◌, inl, inr, Option, none, some, List, [], ◌∷◌, Text, ok,
  err, elem, elem→Mem, length, map, In, NoDup, pigeonhole, arith, Bool-cases, some-inj,
}
use pds_core.Dict.{Dict, get}
use pds_core.Publications.{PublicationRecord, unending}
use pds_core.Publications.Series.{link_records, follow}
use pds_core.Publications.Series.Links.{empty-IsLinked, link_records-IsLinked}

abbrev ids : List PublicationRecord → List Text
ids = map (λ (r : PublicationRecord). r.publication_id)

length-ids : (rs : List PublicationRecord) → length (ids rs) ≡ length rs
length-ids [] = refl
length-ids (r ∷ rs) = omega (arith, length-ids rs)

In-ids :
    (r : PublicationRecord) (rs : List PublicationRecord) → In r rs → In r.publication_id (ids rs)
In-ids r [] i = absurd i
In-ids r (s ∷ rs) (inl e) = inl (ap (λ (x : PublicationRecord). x.publication_id) e)
In-ids r (s ∷ rs) (inr i) = inr (In-ids r rs i)

-- The next record, if there is one, stands in the list.
abbrev Stands : List PublicationRecord → Option PublicationRecord → Type 0
Stands vs o = (r : PublicationRecord) → o ≡ some r → In r vs

module _ (vs : List PublicationRecord) (d : Dict PublicationRecord)
    (inside : (id : Text) → Stands vs (get id d)) where
  follow-ne-unending :
      (n : ℕ) (visited : List Text) (o : Option PublicationRecord)
      → NoDup visited
      → ((id : Text) → In id visited → In id (ids vs))
      → Stands vs o
      → length visited + n ≡ suc (length vs)
      → follow n d visited o ≢ err unending
  unfolding follow
  follow-ne-unending zero visited none single known stands bound = λ h. cc
  follow-ne-unending (suc n) visited none single known stands bound = λ h. cc
  follow-ne-unending zero visited (some r) single known stands bound =
      absurd (omega (arith, bound, pigeonhole visited (ids vs) single known, length-ids vs))
  follow-ne-unending (suc n) visited (some r) single known stands bound =
      elim (Bool-cases (elem r.publication_id visited)) [
        | inl e ↦ λ h. cc (rw e at h)
        | inr e ↦ λ h.
            let fresh : ¬ In r.publication_id visited =
              λ i. cc ((elem→Mem r.publication_id visited).1 i, e) in
            let more : (id : Text) → In id (r.publication_id ∷ visited) → In id (ids vs) = λ id i.
              elim i [
                | inl same ↦ subst (λ x. In x (ids vs)) (sym same) (In-ids r vs (stands r refl))
                | inr j ↦ known id j
              ] in
            follow-ne-unending n (r.publication_id ∷ visited) (get r.publication_id d)
              (fresh, single) more (inside r.publication_id) (omega (arith, bound)) (rw e at h)
      ]

-- The walk over a series ends: from any record of the list, with one iteration more than it has records,
-- the loop over the linked successors never reaches its bound.
pub follow-ne-unending_linked :
    (vs : List PublicationRecord) (by_id d : Dict PublicationRecord) (root : PublicationRecord)
    → link_records by_id vs [] ≡ ok d
    → In root vs
    → follow (suc (length vs)) d [] (some root) ≢ err unending
follow-ne-unending_linked vs by_id d root linked i =
    let table =
      link_records-IsLinked by_id [] d vs vs (λ r j. j) (empty-IsLinked by_id vs) linked in
    follow-ne-unending vs d (λ id r e. (table id r e).0) (suc (length vs)) [] (some root) tt
      (λ id j. absurd j) (λ r e. subst (λ x. In x vs) (some-inj e) i) (omega arith)
