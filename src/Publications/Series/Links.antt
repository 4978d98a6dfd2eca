-- ===== src/Publications/Series/Links.antt =====
-- What the two loops over the records of a series leave in their tables.
use mathlib.Core.Path.{subst}
use pds_core.Base.{
  text_eq_refl, some-inj, ◌≡◌, refl, sym, ap, ◌∙◌, ◌⊎◌, inl, inr, true, false, not, Option, none,
  some, List, [], ◌∷◌, Text, ok, ◌>>◌, guard, any, map, In, NoDup, text_eq, text_eq_iff, Bool-cases,
  >>-guard-inv, >>=-eq-ok, ok-inj, arith, not_iff,
}
use pds_core.Json.{ℤ, int_eq, int_eq_iff, int_ltb}
use pds_core.Dict.{Dict, get, put, has, get-put}
use pds_core.Time.{before}
use pds_core.Routing.{work_eq}
use pds_core.Publications.{
  PublicationRecord, validate_publication_record, other_predecessor, other_work, other_kind,
  other_set, stale_revision, earlier, duplicate_publication, duplicate_revision, branching,
}
use pds_core.Publications.Series.{
  names, validate_publication_supersession, index_records, add_successor, link_record, link_records,
}

-- A lookup after `d[id] = r`.
get-put-inv :
    (id key : Text) (r x : PublicationRecord) (d : Dict PublicationRecord)
    → get key (put id r d) ≡ some x
    → ((key ≡ id) × (r ≡ x)) ⊎ (get key d ≡ some x)
get-put-inv id key r x d found = elim (Bool-cases (text_eq key id)) [
  | inl e ↦
      let chosen = rw e at (sym (get-put id key r d) ∙ found) in
      inl ((text_eq_iff key id).0 e, some-inj chosen)
  | inr e ↦ inr (rw e at (sym (get-put id key r d) ∙ found))
]

get-put_same :
    (id : Text) (r : PublicationRecord) (d : Dict PublicationRecord) → get id (put id r d) ≡ some r
get-put_same id r d = get-put id id r d ∙ rw (text_eq_refl id) refl

-- Another key than a fresh one.
get-put_fresh :
    (id key : Text) (r x : PublicationRecord) (d : Dict PublicationRecord)
    → not (has id d) ≡ true
    → get key d ≡ some x
    → get key (put id r d) ≡ some x
get-put_fresh id key r x d fresh found = elim (Bool-cases (text_eq key id)) [
  | inl e ↦
      absurd (present (get id d) fresh (ap (λ k. get k d) (sym ((text_eq_iff key id).0 e)) ∙ found))
  | inr e ↦ get-put id key r d ∙ rw e found
]
  where
    present :
        (o : Option PublicationRecord)
        → not (elim o [ none ↦ false | some _ ↦ true ]) ≡ true
        → ¬ (o ≡ some x)
    present none h = λ e. cc
    present (some y) h = λ e. cc

index_records-get :
    (rs : List PublicationRecord) (d : Dict PublicationRecord) (ns : List ℤ)
    (by_id : Dict PublicationRecord) (id : Text) (x : PublicationRecord)
    → index_records rs d ns ≡ ok by_id
    → get id d ≡ some x
    → get id by_id ≡ some x
unfolding index_records
index_records-get [] d ns by_id id x e found = ap (get id) (sym (ok-inj e)) ∙ found
index_records-get (r ∷ rs) d ns by_id id x e found =
    let (fresh, e1) = >>-guard-inv _ duplicate_publication _ e in
    let (_, e2) = >>-guard-inv _ duplicate_revision _ e1 in
    index_records-get rs (put r.publication_id r d) (r.record_set_revision ∷ ns) by_id id x e2
      (get-put_fresh r.publication_id id r x d fresh found)

-- Each record is found under its id.
pub index_records-In :
    (rs : List PublicationRecord) (d : Dict PublicationRecord) (ns : List ℤ)
    (by_id : Dict PublicationRecord) (r : PublicationRecord)
    → index_records rs d ns ≡ ok by_id
    → In r rs
    → get r.publication_id by_id ≡ some r
unfolding index_records
index_records-In [] d ns by_id x e i = absurd i
index_records-In (r ∷ rs) d ns by_id x e i =
    let (_, e1) = >>-guard-inv _ duplicate_publication _ e in
    let (_, e2) = >>-guard-inv _ duplicate_revision _ e1 in
    elim i [
      | inl same ↦
          subst (λ y. get y.publication_id by_id ≡ some y) (sym same)
            (index_records-get rs (put r.publication_id r d) (r.record_set_revision ∷ ns) by_id
              r.publication_id r e2 (get-put_same r.publication_id r d))
      | inr j ↦
          index_records-In rs (put r.publication_id r d) (r.record_set_revision ∷ ns) by_id x e2 j
    ]

abbrev pub revisions : List PublicationRecord → List ℤ
revisions = map (λ (r : PublicationRecord). r.record_set_revision)

absent_revision : (n : ℤ) (ns : List ℤ) → any (int_eq n) ns ≡ false → ¬ In n ns
absent_revision n [] h i = i
absent_revision n (m ∷ ns) h (inl e) = ground (arith, int_eq_iff n m)
absent_revision n (m ∷ ns) h (inr i) = absent_revision n ns (ground arith) i

-- No revision stands twice, neither in the list nor among those that were seen before.
pub index_records-NoDup :
    (rs : List PublicationRecord) (d : Dict PublicationRecord) (ns : List ℤ)
    (by_id : Dict PublicationRecord)
    → index_records rs d ns ≡ ok by_id
    → NoDup (revisions rs) × ((n : ℤ) → In n ns → ¬ In n (revisions rs))
unfolding index_records
index_records-NoDup [] d ns by_id e = (tt, (λ n i j. j))
index_records-NoDup (r ∷ rs) d ns by_id e =
    let (_, e1) = >>-guard-inv _ duplicate_publication _ e in
    let (fresh, e2) = >>-guard-inv _ duplicate_revision _ e1 in
    let (single, apart) =
      index_records-NoDup rs (put r.publication_id r d) (r.record_set_revision ∷ ns) by_id e2 in
    let new = absent_revision r.record_set_revision ns ((not_iff _).0 fresh) in
    (
      (apart r.record_set_revision (inl refl), single),
      λ n i j. elim j [ inl same ↦ new (subst (λ m. In m ns) same i) | inr k ↦ apart n (inr i) k ],
    )

-- What an accepted supersession returns, and its revisions.
pub validate_publication_supersession-inv :
    (p r : PublicationRecord) {s : PublicationRecord}
    → validate_publication_record r ≡ ok r
    → validate_publication_record p ≡ ok p
    → validate_publication_supersession p r ≡ ok s
    → (r ≡ s)
      × (int_ltb p.record_set_revision r.record_set_revision ≡ true)
      × (names r.supersedes_publication_id p.publication_id ≡ true)
unfolding validate_publication_supersession
validate_publication_supersession-inv p r {s} v u h =
    let (named, h1) = >>-guard-inv _ other_predecessor _ accepted in
    let (_, h2) = >>-guard-inv _ other_work _ h1 in
    let (_, h3) = >>-guard-inv _ other_kind _ h2 in
    let (_, h4) = >>-guard-inv _ other_set _ h3 in
    let (rises, h5) = >>-guard-inv _ stale_revision _ h4 in
    let (_, h6) = >>-guard-inv _ earlier _ h5 in (ok-inj h6, rises, named)
  where
    accepted :
        (guard (names r.supersedes_publication_id p.publication_id) other_predecessor
          >> (guard (work_eq r.work p.work) other_work
              >> (guard (text_eq r.publication_kind p.publication_kind) other_kind
                  >> (guard (text_eq r.record_set_id p.record_set_id) other_set
                      >> (guard (int_ltb p.record_set_revision r.record_set_revision) stale_revision
                          >> (guard (not (before r.published_at p.published_at)) earlier
                              >> ok r))))))
        ≡ ok s
    accepted = rw (u, v) at h

-- Each successor in the table is an accepted one of the record that the index has under the key.
abbrev pub IsLinked :
    Dict PublicationRecord → List PublicationRecord → Dict PublicationRecord → Type 0
IsLinked by_id rs d =
    (id : Text) (s : PublicationRecord)
    → get id d ≡ some s
    → In s rs
      × ((p : PublicationRecord) × (get id by_id ≡ some p)
          × (x : PublicationRecord) × (validate_publication_supersession p s ≡ ok x))

pub empty-IsLinked :
    (by_id : Dict PublicationRecord) (rs : List PublicationRecord) → IsLinked by_id rs []
unfolding get
empty-IsLinked by_id rs id s e = cc

link_record-IsLinked :
    (by_id d linked : Dict PublicationRecord) (rs : List PublicationRecord) (r : PublicationRecord)
    (o : Option Text)
    → In r rs
    → IsLinked by_id rs d
    → link_record by_id r o d ≡ ok linked
    → IsLinked by_id rs linked
unfolding link_record add_successor
link_record-IsLinked by_id d linked rs r none i h e = subst (IsLinked by_id rs) (ok-inj e) h
link_record-IsLinked by_id d linked rs r (some id) i h e = added (get id by_id) refl e
  where
    added :
        (o : Option PublicationRecord)
        → get id by_id ≡ o
        → add_successor r id o d ≡ ok linked
        → IsLinked by_id rs linked
    added none at k = cc
    added (some p) at k =
        let (_, k1) = >>-guard-inv _ branching _ k in
        let (x, super, k2) = >>=-eq-ok (validate_publication_supersession p r) _ k1 in
        subst (IsLinked by_id rs) (ok-inj k2) (λ key s found.
          elim (get-put-inv id key r s d found) [
            | inl (same_key, same) ↦ (
              subst (λ y. In y rs) same i,
              (
                p,
                ap (λ t. get t by_id) same_key ∙ at,
                x,
                subst (λ y. validate_publication_supersession p y ≡ ok x) same super,
              ),
            )
            | inr old ↦ h key s old
          ])

pub link_records-IsLinked :
    (by_id d linked : Dict PublicationRecord) (all_rs rs : List PublicationRecord)
    → ((r : PublicationRecord) → In r rs → In r all_rs)
    → IsLinked by_id all_rs d
    → link_records by_id rs d ≡ ok linked
    → IsLinked by_id all_rs linked
unfolding link_records
link_records-IsLinked by_id d linked all_rs [] f h e = subst (IsLinked by_id all_rs) (ok-inj e) h
link_records-IsLinked by_id d linked all_rs (r ∷ rs) f h e =
    let (next, first, e1) = >>=-eq-ok (link_record by_id r r.supersedes_publication_id d) _ e in
    link_records-IsLinked by_id next linked all_rs rs (λ x i. f x (inr i))
      (link_record-IsLinked by_id d next all_rs r r.supersedes_publication_id (f r (inl refl)) h
        first)
      e1
