-- ===== src/Publications/Series/Chains.antt =====
-- An accepted series is one chain, returned in the order of its supersessions.
use mathlib.Core.Path.{subst}
use pds_core.Base.{
  keep-In, ℕ, zero, suc, ◌+◌, ◌≡◌, refl, sym, ap, ◌∙◌, inl, inr, ◌↔◌, true, false, not, Option,
  none, some, List, [], ◌∷◌, Text, ok, each, all, keep, elem, length, In, In-sort_by, NoDup,
  Increasing, Increasing-NoDup, ordered-Increasing, ==_iff, ◌==◌, arith, >>=-eq-ok, >>-guard-inv,
  ok-inj, some-inj, Bool-cases, sort_by,
}
use pds_core.Json.{int_ltb_trans}
use pds_core.Dict.{Dict, get, has}
use pds_core.Publications.{
  PublicationError, PublicationRecord, validate_publication_record, mixed_series, bad_roots,
  bad_heads, disconnected,
}
use pds_core.Publications.Fields.{validate_publication_record-IsPublication}
use pds_core.Publications.Series.{
  validate_publication_supersession, index_records, is_root, exactly_one, link_records, follow,
  series_ltb, order_series, validate_publication_record_series, same_series,
}
use pds_core.Publications.Series.Links.{
  revisions, IsLinked, empty-IsLinked, index_records-In, index_records-NoDup, link_records-IsLinked,
  validate_publication_supersession-inv,
}
use pds_core.Publications.Series.Members.{covered}
use pds_core.Publications.Series.Ordering.{by_revision, int_ltb_irrefl, sort_by-Increasing}

-- Each record is an accepted supersession of the one before it.
abbrev pub Follows : PublicationRecord → List PublicationRecord → Type 0
Follows r [] = Unit
Follows r (s ∷ rest) = (validate_publication_supersession r s ≡ ok s) × Follows s rest

abbrev pub IsChain : List PublicationRecord → Type 0
IsChain [] = Unit
IsChain (r ∷ rest) = (r.supersedes_publication_id ≡ none) × Follows r rest

-- The records that the loop visits from `o` on.
abbrev IsPath : Dict PublicationRecord → Option PublicationRecord → List PublicationRecord → Type 0
IsPath d o [] = o ≡ none
IsPath d o (r ∷ rs) = (o ≡ some r) × IsPath d (get r.publication_id d) rs

follow-IsPath :
    (n : ℕ) (d : Dict PublicationRecord) (visited out : List Text) (o : Option PublicationRecord)
    → follow n d visited o ≡ ok out
    → (rs : List PublicationRecord) × IsPath d o rs × (length out ≡ length rs + length visited)
unfolding follow
follow-IsPath zero d visited out none h = ([], refl, omega (arith, ap length (sym (ok-inj h))))
follow-IsPath (suc n) d visited out none h = ([], refl, omega (arith, ap length (sym (ok-inj h))))
follow-IsPath zero d visited out (some r) h = cc
follow-IsPath (suc n) d visited out (some r) h = elim (Bool-cases (elem r.publication_id visited)) [
  | inl e ↦ cc (rw e at h)
  | inr e ↦
      let (rs, path, long) =
        follow-IsPath n d (r.publication_id ∷ visited) out (get r.publication_id d) (rw e at h) in
      (r ∷ rs, (refl, path), omega (arith, long))
]

abbrev AreAccepted : List PublicationRecord → Type 0
AreAccepted vs = (r : PublicationRecord) → In r vs → validate_publication_record r ≡ ok r

module _ (vs : List PublicationRecord) (accepted : AreAccepted vs) where
  module _ (by_id d : Dict PublicationRecord)
      (found : (r : PublicationRecord) → In r vs → get r.publication_id by_id ≡ some r)
      (linked : IsLinked by_id vs d) where
    -- The successor that the table has for a record.
    successor-Follows :
        (r s : PublicationRecord)
        → In r vs
        → get r.publication_id d ≡ some s
        → In s vs × (validate_publication_supersession r s ≡ ok s)
    successor-Follows r s i e =
        let (j, (p, at, x, super)) = linked r.publication_id s e in
        let same : p ≡ r = some-inj (sym at ∙ found r i) in
        let super_r : validate_publication_supersession r s ≡ ok x =
          subst (λ y. validate_publication_supersession y s ≡ ok x) same super in
        let (kept, _, _) =
          validate_publication_supersession-inv r s (accepted s j) (accepted r i) super_r in
        (j, super_r ∙ ap ok (sym kept))

    IsPath-Follows :
        (r : PublicationRecord) (rs : List PublicationRecord)
        → In r vs
        → IsPath d (get r.publication_id d) rs
        → Follows r rs × ((s : PublicationRecord) → In s rs → In s vs)
    IsPath-Follows r [] i path = (tt, (λ s j. absurd j))
    IsPath-Follows r (s ∷ rs) i path =
        let (j, super) = successor-Follows r s i path.0 in
        let (rest, inside) = IsPath-Follows s rs j path.1 in
        (
          (super, rest),
          (λ t k. elim k [ inl e ↦ subst (λ x. In x vs) (sym e) j | inr l ↦ inside t l ]),
        )

  -- Along a chain the revisions rise.
  Follows-Increasing :
      (r : PublicationRecord) (rs : List PublicationRecord)
      → ((s : PublicationRecord) → In s (r ∷ rs) → In s vs)
      → Follows r rs
      → Increasing by_revision (r ∷ rs)
  Follows-Increasing r [] f h = ((λ y i. absurd i), tt)
  Follows-Increasing r (s ∷ rs) f h =
      let rest = Follows-Increasing s rs (λ t i. f t (inr i)) h.1 in
      let (_, rises, _) =
        validate_publication_supersession-inv r s (accepted s (f s (inr (inl refl))))
          (accepted r (f r (inl refl))) h.0 in
      (
        (λ t i. elim i [
          | inl e ↦ subst (λ k. by_revision r k ≡ true) (sym e) rises
          | inr j ↦
              int_ltb_trans r.record_set_revision s.record_set_revision t.record_set_revision rises
                (rest.0 t j)
        ]),
        rest,
      )

  root-IsChain :
      (r : PublicationRecord) (rs : List PublicationRecord)
      → is_root r ≡ true
      → Follows r rs
      → IsChain (r ∷ rs)
  root-IsChain r rs h f = (rootless r.supersedes_publication_id h, f)
    where
      rootless : (o : Option Text) → (elim o [ none ↦ true | some _ ↦ false ]) ≡ true → o ≡ none
      rootless none e = refl
      rootless (some s) e = cc

  sorted-IsChain :
      (by_id d : Dict PublicationRecord) (root : PublicationRecord) (rs : List PublicationRecord)
      → ((r : PublicationRecord) → In r vs → get r.publication_id by_id ≡ some r)
      → IsLinked by_id vs d
      → NoDup (revisions vs)
      → In root vs
      → is_root root ≡ true
      → IsPath d (some root) rs
      → length rs ≡ length vs
      → IsChain (sort_by series_ltb vs)
  sorted-IsChain by_id d root [] found linked single i rootless path long = cc
  sorted-IsChain by_id d root (r ∷ rs) found linked single i rootless path long =
      let same : r ≡ root = sym (some-inj path.0) in
      let i_r : In r vs = subst (λ x. In x vs) (sym same) i in
      let (chain, inside) = IsPath-Follows by_id d found linked r rs i_r path.1 in
      let within : (x : PublicationRecord) → In x (r ∷ rs) → In x vs =
        λ x j. elim j [ inl e ↦ subst (λ y. In y vs) (sym e) i_r | inr k ↦ inside x k ] in
      let rises = Follows-Increasing r rs within chain in
      let distinct = Increasing-NoDup by_revision irrefl trans (r ∷ rs) rises in
      let equal =
        ordered-Increasing by_revision irrefl trans (r ∷ rs) (sort_by series_ltb vs) rises
          (sort_by-Increasing vs single) (λ x j. (In-sort_by series_ltb x vs).1 (within x j))
          (λ x j.
            covered (r ∷ rs) vs x distinct within long single ((In-sort_by series_ltb x vs).0 j)) in
      subst IsChain equal (root-IsChain r rs (ap is_root same ∙ rootless) chain)
    where
      irrefl : (x : PublicationRecord) → by_revision x x ≡ false
      irrefl x = int_ltb_irrefl x.record_set_revision

      trans :
          (x y z : PublicationRecord)
          → by_revision x y ≡ true
          → by_revision y z ≡ true
          → by_revision x z ≡ true
      trans x y z = int_ltb_trans x.record_set_revision y.record_set_revision z.record_set_revision

each-AreAccepted :
    (rs vs : List PublicationRecord) → each validate_publication_record rs ≡ ok vs → AreAccepted vs
each-AreAccepted [] vs h r i = absurd (subst (In r) (sym (ok-inj h)) i)
each-AreAccepted (x ∷ rs) vs h r i =
    let (y, first, h1) = >>=-eq-ok (validate_publication_record x) _ h in
    let (ys, rest, h2) = >>=-eq-ok (each validate_publication_record rs) _ h1 in
    elim (subst (In r) (sym (ok-inj h2)) i) [
      | inl e ↦
          subst (λ z. validate_publication_record z ≡ ok z) (sym e)
            (validate_publication_record-IsPublication x y first).0.accepted
      | inr j ↦ each-AreAccepted rs ys rest r j
    ]

exactly_one-inv :
    (e : PublicationError) (rs : List PublicationRecord) {r : PublicationRecord}
    → exactly_one e rs ≡ ok r
    → In r rs
unfolding exactly_one
exactly_one-inv e [] h = cc
exactly_one-inv e (r ∷ []) h = inl (sym (ok-inj h))
exactly_one-inv e (r ∷ s ∷ rs) h = cc

order_series-IsChain :
    (vs out : List PublicationRecord)
    → AreAccepted vs
    → order_series vs ≡ ok out
    → IsChain out × ((r : PublicationRecord) → In r out ↔ In r vs)
unfolding order_series
order_series-IsChain [] out accepted h =
    subst (λ l. IsChain l × ((r : PublicationRecord) → In r l ↔ In r [])) (ok-inj h)
      (tt, (λ r. ((λ i. i), (λ i. i))))
order_series-IsChain (first ∷ rest) out accepted h =
    let vs : List PublicationRecord = first ∷ rest in
    let (_, h1) = >>-guard-inv (all (λ r. same_series r first) rest) mixed_series _ h in
    let (by_id, indexed, h2) = >>=-eq-ok (index_records vs [] []) _ h1 in
    let (root, rooted, h3) = >>=-eq-ok (exactly_one bad_roots (keep is_root vs)) _ h2 in
    let (d, linked, h4) = >>=-eq-ok (link_records by_id vs []) _ h3 in
    let (_, _, h5) =
      >>=-eq-ok (exactly_one bad_heads (keep (λ r. not (has r.publication_id d)) vs)) _ h4 in
    let (visited, followed, h6) = >>=-eq-ok (follow (suc (length vs)) d [] (some root)) _ h5 in
    let (counted, h7) = >>-guard-inv (length visited == length vs) disconnected _ h6 in
    let (i, rootless) = keep-In is_root root vs (exactly_one-inv bad_roots _ rooted) in
    let (rs, path, long) = follow-IsPath (suc (length vs)) d [] visited (some root) followed in
    let all_of : length rs ≡ length vs =
      omega (arith, long, (==_iff (length visited) (length vs)).0 counted) in
    let chain =
      sorted-IsChain vs accepted by_id d root rs
        (λ r j. index_records-In vs [] [] by_id r indexed j)
        (link_records-IsLinked by_id [] d vs vs (λ r j. j) (empty-IsLinked by_id vs) linked)
        (index_records-NoDup vs [] [] by_id indexed).0 i rootless path all_of in
    subst (λ l. IsChain l × ((r : PublicationRecord) → In r l ↔ In r vs)) (ok-inj h7)
      (chain, (λ r. In-sort_by series_ltb r vs))

-- An accepted series is a chain: what is returned holds exactly the validated records, its first record
-- supersedes none, and each of the others is an accepted supersession of the one before it.
pub validate_publication_record_series-IsChain :
    (rs out : List PublicationRecord)
    → validate_publication_record_series rs ≡ ok out
    → (vs : List PublicationRecord) × (each validate_publication_record rs ≡ ok vs)
      × ((r : PublicationRecord) → In r out ↔ In r vs)
      × IsChain out
unfolding validate_publication_record_series
validate_publication_record_series-IsChain rs out h =
    let (vs, validated, ordered) = >>=-eq-ok (each validate_publication_record rs) _ h in
    let (chain, same) = order_series-IsChain vs out (each-AreAccepted rs vs validated) ordered in
    (vs, validated, same, chain)
