-- ===== src/Publications/Storage/Listed.antt =====
-- The listing of a record set holds exactly the stored publications of the set.
use mathlib.Core.Path.{subst}
use pds_core.Base.{
  ◌≡◌, refl, sym, ◌∙◌, ap, ◌↔◌, inl, inr, true, Option, none, some, List, [], ◌∷◌, Text, Outcome,
  ok, ◌>>=◌, reraise, each, keep, elem, In, text_eq, text_eq_iff, arith, >>=-eq-ok, >>-guard-inv,
  reraise-eq-ok, ok-inj, keep-In, In-keep, text_ltb, In-sort_by, Bool-cases, Decides-inv,
}
use pds_core.Json.{Value, null, bool, int, float, str, list, dict, exact_mapping}
use pds_core.Time.{IsoText}
use pds_core.Files.{Content, garbage, undecodable, holds}
use pds_core.Routing.Laws.{work_eq_iff, validate_module_work_ref-Decides}
use pds_core.Publications.{
  mapping, Published, bad_kind, routing, PublicationRecord, publication_kinds, publication_work,
  validate_publication_record, is_publication_id, mapping,
}
use pds_core.Publications.Fields.{validate_publication_record-IsPublication}
use pds_core.Routing.Shapes.{module_work_ref_from_dict}
use pds_core.Publications.Shapes.{
  publication_record_from_dict, datetime_from_iso, optional_int, optional_str, require_int,
  publication_keys, publication_item, capability_items, source_from_value, publication_string,
  datetime_from_iso,
}
use pds_core.Publications.Series.Chains.{validate_publication_record_series-IsChain}
use pds_core.Publications.Storage.{
  invalid, bad_record, other_id, bad_series, stray_entry, Entry, file, stray, find_file, stored_id,
  read_publication, load_publication_record, list_ids, list_publication_ids,
  list_publication_records, in_record_set, checked_record_set, list_publication_record_set,
}

-- `s` is of the record set of `r`.
pub record IsSameSet (r s : PublicationRecord) : Type 0 where
  pub work : s.work ≡ r.work
  pub kind : s.publication_kind ≡ r.publication_kind
  pub set : s.record_set_id ≡ r.record_set_id

in_record_set_iff :
    (r s : PublicationRecord)
    → (in_record_set r.work r.publication_kind r.record_set_id s ≡ true) ↔ IsSameSet r s
in_record_set_iff r s =
    let tested : (in_record_set r.work r.publication_kind r.record_set_id s ≡ true) ↔ (
        (s.work ≡ r.work)
        × (s.publication_kind ≡ r.publication_kind)
        × (s.record_set_id ≡ r.record_set_id)) =
      ground (
        arith,
        work_eq_iff s.work r.work,
        text_eq_iff s.publication_kind r.publication_kind,
        text_eq_iff s.record_set_id r.record_set_id,
      ) in
    (
      (λ h. let (w, k, n) = tested.0 h in record { work = w; kind = k; set = n }),
      (λ h. tested.1 (h.work, h.kind, h.set)),
    )

-- Whatever `m` returns is a publication that validation accepts.
abbrev IsReader : Published PublicationRecord → Type 0
IsReader m = (r : PublicationRecord) → m ≡ ok r → validate_publication_record r ≡ ok r

IsReader-bind :
    {A : Type 0} (m : Published A) (f : A → Published PublicationRecord)
    → ((a : A) → IsReader (f a))
    → IsReader (m >>= f)
IsReader-bind m f k r h = let (a, _, h1) = >>=-eq-ok m f h in k a r h1

IsReader-validate : (s : PublicationRecord) → IsReader (validate_publication_record s)
IsReader-validate s r h = (validate_publication_record-IsPublication s r h).0.accepted

-- The items that `each` gives.
each-In :
    {E A B : Type 0} (f : A → Outcome E B) (xs : List A) (ys : List B)
    → each f xs ≡ ok ys
    → (b : B) → In b ys ↔ ((a : A) × In a xs × (f a ≡ ok b))
each-In f [] ys h b = ((λ i. absurd (subst (In b) (sym (ok-inj h)) i)), (λ t. absurd (t.1)))
each-In {E} {A} {B} f (x ∷ xs) ys h b =
    let (y, first, h1) = >>=-eq-ok (f x) _ h in
    let (zs, others, h2) = >>=-eq-ok (each f xs) _ h1 in
    let rest = each-In f xs zs others b in
    let same : y ∷ zs ≡ ys = ok-inj h2 in
    (
      (λ i. elim (subst (In b) (sym same) i) [
        | inl e ↦ (x, inl refl, first ∙ ap ok (sym e))
        | inr j ↦ let (a, k, e) = rest.0 j in (a, inr k, e)
      ]),
      (λ t.
          let (a, i, e) = t in
          subst (In b) same (elim i [
            | inl s ↦ inl (ok-inj (sym e ∙ ap f s ∙ first))
            | inr j ↦ inr (rest.1 (a, j, e))
          ])),
    )

each-accepted :
    (rs : List PublicationRecord)
    → ((r : PublicationRecord) → In r rs → validate_publication_record r ≡ ok r)
    → each validate_publication_record rs ≡ ok rs
each-accepted [] h = refl
each-accepted (r ∷ rs) h = rw (h r (inl refl), each-accepted rs (λ s i. h s (inr i))) refl

module _ (iso : IsoText) where
  publication_record_from_dict-IsReader :
      (v : Value) → IsReader (publication_record_from_dict iso v)
  unfolding publication_record_from_dict
  publication_record_from_dict-IsReader v =
      IsReader-bind (reraise mapping (exact_mapping v publication_keys)) _ (λ fs.
        IsReader-bind (publication_item fs "capabilities") _ (λ a1.
          IsReader-bind (capability_items a1) _ (λ _.
            IsReader-bind (publication_item fs "work") _ (λ a3.
              IsReader-bind (reraise routing (module_work_ref_from_dict a3)) _ (λ _.
                IsReader-bind (publication_item fs "source_record") _ (λ a5.
                  IsReader-bind (reraise routing (source_from_value a5)) _ (λ _.
                    IsReader-bind (publication_item fs "academic_work_registration_revision") _
                      (λ a7. IsReader-bind (optional_int a7) _ (λ _.
                        IsReader-bind (publication_item fs "supersedes_publication_id") _ (λ a9.
                          IsReader-bind (optional_str a9) _ (λ _.
                            IsReader-bind (publication_string fs "schema_version") _ (λ _.
                              IsReader-bind (publication_string fs "record_type") _ (λ _.
                                IsReader-bind (publication_string fs "publication_id") _ (λ _.
                                  IsReader-bind (publication_string fs "publication_kind") _ (λ _.
                                    IsReader-bind (publication_string fs "record_set_id") _ (λ _.
                                      IsReader-bind (publication_item fs "record_set_revision") _
                                        (λ a16. IsReader-bind (require_int a16) _ (λ _.
                                          IsReader-bind
                                            (publication_string fs "manifest_contract_version") _
                                            (λ _.
                                              IsReader-bind (publication_string fs "manifest_path")
                                                _
                                                (λ _.
                                                  IsReader-bind
                                                    (publication_string fs
                                                      "manifest_digest_algorithm")
                                                    _
                                                    (λ _.
                                                      IsReader-bind
                                                        (publication_string fs "manifest_digest") _
                                                        (λ _.
                                                          IsReader-bind
                                                            (publication_item fs "published_at") _
                                                            (λ a22.
                                                            IsReader-bind
                                                            (datetime_from_iso iso a22) _
                                                            (λ _.
                                                            IsReader-validate
                                                            _))))))))))))))))))))))))

  read_publication-accepted :
      (o : Option Content) (r : PublicationRecord)
      → read_publication iso o ≡ ok r
      → validate_publication_record r ≡ ok r
  unfolding read_publication
  read_publication-accepted none r h = cc
  read_publication-accepted (some garbage) r h = cc
  read_publication-accepted (some undecodable) r h = cc
  read_publication-accepted (some (holds null)) r h = cc
  read_publication-accepted (some (holds (bool b))) r h = cc
  read_publication-accepted (some (holds (int n))) r h = cc
  read_publication-accepted (some (holds (float x))) r h = cc
  read_publication-accepted (some (holds (str s))) r h = cc
  read_publication-accepted (some (holds (list vs))) r h = cc
  read_publication-accepted (some (holds (dict fs))) r h =
      publication_record_from_dict-IsReader (dict fs) r (reraise-eq-ok bad_record _ h)

  read_publication-present :
      (o : Option Content) (s : PublicationRecord)
      → read_publication iso o ≡ ok s
      → (c : Content) × (o ≡ some c)
  unfolding read_publication
  read_publication-present none s h = cc
  read_publication-present (some c) s h = (c, refl)

  -- A publication that is loaded has the id of its file, and validation accepts it.
  pub load_publication_record-accepted :
      (id : Text) (es : List Entry) (r : PublicationRecord)
      → load_publication_record iso id es ≡ ok r
      → (r.publication_id ≡ id)
        × (validate_publication_record r ≡ ok r)
        × ((c : Content) × (find_file id es ≡ some c))
  unfolding load_publication_record
  load_publication_record-accepted id es r h =
      let (_, _, h1) = >>=-eq-ok (stored_id id) _ h in
      let (s, read, h2) = >>=-eq-ok (read_publication iso (find_file id es)) _ h1 in
      let (same, h3) = >>-guard-inv (text_eq s.publication_id id) other_id _ h2 in
      let equal : s ≡ r = ok-inj h3 in
      (
        ap (λ (x : PublicationRecord). x.publication_id) (sym equal)
            ∙ (text_eq_iff s.publication_id id).0 same,
        subst (λ x. validate_publication_record x ≡ ok x) equal
            (read_publication-accepted _ s read),
        read_publication-present (find_file id es) s read,
      )

  list_ids-In :
      (directory es : List Entry) (ids : List Text) (id : Text) (c : Content)
      → list_ids iso directory es ≡ ok ids
      → find_file id es ≡ some c
      → In id ids
  unfolding list_ids find_file
  list_ids-In directory [] ids id c h k = cc
  list_ids-In directory (stray ∷ es) ids id c h k = cc
  list_ids-In directory (file key x ∷ es) ids id c h k =
      let (_, h1) = >>-guard-inv (is_publication_id key) stray_entry _ h in
      let (_, _, h2) = >>=-eq-ok (load_publication_record iso key directory) _ h1 in
      let (rest, listed, h3) = >>=-eq-ok (list_ids iso directory es) _ h2 in
      subst (In id) (ok-inj h3) (elim (Bool-cases (text_eq id key)) [
        | inl e ↦ inl ((text_eq_iff id key).0 e)
        | inr e ↦ inr (list_ids-In directory es rest id c listed (rw e at k))
      ])

  list_publication_records-In :
      (es : List Entry) (rs : List PublicationRecord)
      → list_publication_records iso es ≡ ok rs
      → (s : PublicationRecord) → In s rs ↔ (load_publication_record iso s.publication_id es ≡ ok s)
  unfolding list_publication_records list_publication_ids
  list_publication_records-In es rs h s =
      let (ids, named, h1) = >>=-eq-ok (list_publication_ids iso es) _ h in
      let (found, listed, h2) = >>=-eq-ok (list_ids iso es es) _ named in
      let given = each-In (λ id. load_publication_record iso id es) ids rs h1 s in
      (
        (λ i.
            let (id, _, loaded) = given.0 i in
            let (same, _, _) = load_publication_record-accepted id es s loaded in
            ap (λ x. load_publication_record iso x es) same ∙ loaded),
        (λ loaded.
            let (_, _, (c, there)) =
              load_publication_record-accepted s.publication_id es s loaded in
            let i = list_ids-In es es found s.publication_id c listed there in
            given.1 (
              s.publication_id,
              subst (In s.publication_id) (ok-inj h2)
                  ((In-sort_by text_ltb s.publication_id found).1 i),
              loaded,
            )),
      )

  -- What is listed of the record set of `r` are the stored publications of that set.
  pub list_publication_record_set-In :
      (r : PublicationRecord) (es : List Entry) (rs : List PublicationRecord)
      → list_publication_record_set iso r.work r.publication_kind r.record_set_id es ≡ ok rs
      → (s : PublicationRecord)
      → In s rs ↔ ((load_publication_record iso s.publication_id es ≡ ok s) × IsSameSet r s)
  unfolding list_publication_record_set publication_work
  list_publication_record_set-In r es rs h s =
      let (w, worked, h1) = >>=-eq-ok (reraise invalid (publication_work r.work)) _ h in
      let (same, _) =
        Decides-inv _ r.work _ (validate_module_work_ref-Decides r.work)
          (reraise-eq-ok routing _ (reraise-eq-ok invalid _ worked)) in
      let (_, h2) =
        >>-guard-inv (elem r.publication_kind publication_kinds) (invalid bad_kind) _ h1 in
      let (_, _, h3) = >>=-eq-ok (checked_record_set r.record_set_id) _ h2 in
      let (records, listed, h4) = >>=-eq-ok (list_publication_records iso es) _ h3 in
      let filed = list_publication_records-In es records listed in
      let kept : List PublicationRecord =
        keep (in_record_set w r.publication_kind r.record_set_id) records in
      let (vs, validated, members, _) =
        validate_publication_record_series-IsChain kept rs (reraise-eq-ok bad_series _ h4) in
      let loaded : (t : PublicationRecord) → In t kept → validate_publication_record t ≡ ok t =
        λ t i.
          let (j, _) = keep-In (in_record_set w r.publication_kind r.record_set_id) t records i in
          (load_publication_record-accepted t.publication_id es t ((filed t).0 j)).1 in
      let all_kept : kept ≡ vs = ok-inj (sym (each-accepted kept loaded) ∙ validated) in
      let (to, fro) = members s in
      let (tested, untested) = in_record_set_iff r s in
      (
        (λ i.
            let (j, t) =
              keep-In (in_record_set w r.publication_kind r.record_set_id) s records
                (subst (In s) (sym all_kept) (to i)) in
            (
              (filed s).0 j,
              tested
                  (subst (λ x. in_record_set x r.publication_kind r.record_set_id s ≡ true) same t),
            )),
        (λ t. fro (
            subst (In s) all_kept (
              In-keep (in_record_set w r.publication_kind r.record_set_id) s records
                ((filed s).1 t.0)
                (subst (λ x. in_record_set x r.publication_kind r.record_set_id s ≡ true) (sym same)
                  (untested t.1))))),
      )
