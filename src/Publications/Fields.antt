-- ===== src/Publications/Fields.antt =====
-- What the constructors of publications and withdrawals accept.
use mathlib.Core.Path.{subst}
use pds_core.Base.{
  reraise, ◌≡◌, refl, sym, ap, ◌∙◌, true, not, ◌||◌, List, [], ◌∷◌, Text, ok, all, elem, text_eq,
  text_eq_iff, text_ltb, text_ltb_asym, sort_by, sort_by-Ordered, sort_by_fixed, insert_by,
  all-sort_by, arith, >>=-eq-ok, >>-guard-inv, ok-inj, Decides-inv, reraise-eq-ok,
}
use pds_core.Time.{is_aware}
use pds_core.Periods.{is_positive}
use pds_core.Routing.{validate_module_work_ref}
use pds_core.Routing.Laws.{IsWork, validate_module_work_ref-Decides}
use pds_core.Publications.Manifests.{validate_publication_manifest_path-IsWork}
use pds_core.Publications.{
  is_publication_id, bad_schema_version, bad_record_type, bad_id, set_not_lowercase, not_positive,
  bad_algorithm, bad_digest, naive, check_source, check_predecessor, check_registration_revision,
  publication_identifier, validate_publication_manifest_path, bad_capability, duplicate_capability,
  PublicationRecord, publication_capabilities, has_repeats, sorted_capabilities, check_identity,
  check_binding, check_capabilities, validate_publication_record, publication_work, routing,
}

elem-insert_by :
    (a x : Text) (ys : List Text) → elem a (insert_by text_ltb x ys) ≡ (text_eq a x || elem a ys)
elem-insert_by a x [] = refl
elem-insert_by a x (y ∷ ys) = ground (arith, elem-insert_by a x ys)

has_repeats-insert_by :
    (x : Text) (ys : List Text)
    → has_repeats (insert_by text_ltb x ys) ≡ (elem x ys || has_repeats ys)
unfolding has_repeats
has_repeats-insert_by x [] = refl
has_repeats-insert_by x (y ∷ ys) =
    ground
      (arith, text_eq_iff x y, text_eq_iff y x, elem-insert_by y x ys, has_repeats-insert_by x ys)

has_repeats-sort_by : (xs : List Text) → has_repeats (sort_by text_ltb xs) ≡ has_repeats xs
unfolding has_repeats sort_by
has_repeats-sort_by [] = refl
has_repeats-sort_by (x ∷ xs) = ground (
  arith,
  has_repeats-insert_by x (sort_by text_ltb xs),
  elem-sort_by x xs,
  has_repeats-sort_by xs,
)
  where
    elem-sort_by : (a : Text) (ys : List Text) → elem a (sort_by text_ltb ys) ≡ elem a ys
    elem-sort_by a [] = refl
    elem-sort_by a (y ∷ ys) =
        ground (arith, elem-insert_by a y (sort_by text_ltb ys), elem-sort_by a ys)

-- Sorted capabilities are accepted again, and kept in their order.
sorted_capabilities_idem :
    (cs ds : List Text) → sorted_capabilities cs ≡ ok ds → sorted_capabilities ds ≡ ok ds
unfolding sorted_capabilities
sorted_capabilities_idem cs ds h =
    let (known, h1) = >>-guard-inv _ bad_capability _ h in
    let (single, h2) = >>-guard-inv _ duplicate_capability _ h1 in
    subst (λ l. sorted_capabilities l ≡ ok l) (ok-inj h2) (again known single)
  where
    again :
        all (λ c. elem c publication_capabilities) cs ≡ true
        → not (has_repeats cs) ≡ true
        → sorted_capabilities (sort_by text_ltb cs) ≡ ok (sort_by text_ltb cs)
    again known single =
        rw
          (
            all-sort_by text_ltb (λ c. elem c publication_capabilities) cs,
            known,
            has_repeats-sort_by cs,
            single,
            sort_by_fixed text_ltb (sort_by text_ltb cs)
                (sort_by-Ordered text_ltb text_ltb_asym cs),
          )
          refl

-- A publication that is accepted is accepted again, and unchanged: its capabilities stand in order.
pub validate_publication_record_idem :
    (r s : PublicationRecord)
    → validate_publication_record r ≡ ok s
    → validate_publication_record s ≡ ok s
unfolding validate_publication_record check_identity
validate_publication_record_idem r s h =
    let (_, identity, h1) = >>=-eq-ok (check_identity r) _ h in
    let (cs, capabilities, h2) = >>=-eq-ok (sorted_capabilities r.capabilities) _ h1 in
    let (_, binding, h3) = >>=-eq-ok (check_binding (record r { capabilities = cs })) _ h2 in
    subst (λ x. validate_publication_record x ≡ ok x) (ok-inj h3)
      (again cs identity (sorted_capabilities_idem _ cs capabilities) binding)
  where
    again :
        (cs : List Text) {u v : Unit {0}}
        → check_identity (record r { capabilities = cs }) ≡ ok u
        → sorted_capabilities cs ≡ ok cs
        → check_binding (record r { capabilities = cs }) ≡ ok v
        → validate_publication_record (record r { capabilities = cs })
          ≡ ok (record r { capabilities = cs })
    again cs identity capabilities binding = rw (identity, capabilities, binding) refl

check_identity-inv :
    (r : PublicationRecord) {u : Unit {0}}
    → check_identity r ≡ ok u
    → (is_publication_id r.publication_id ≡ true)
      × IsWork r.work
      × (check_source r.work r.source_record ≡ ok tt)
unfolding check_identity publication_work
check_identity-inv r h =
    let (_, h1) = >>-guard-inv _ bad_schema_version _ h in
    let (_, h2) = >>-guard-inv _ bad_record_type _ h1 in
    let (identified, h3) = >>-guard-inv _ bad_id _ h2 in
    let (w, accepted, h4) = >>=-eq-ok (reraise routing (validate_module_work_ref r.work)) _ h3 in
    let (same, valid) =
      Decides-inv _ r.work _ (validate_module_work_ref-Decides r.work)
        (reraise-eq-ok routing _ accepted) in
    let (_, source, _) = >>=-eq-ok (check_source w r.source_record) _ h4 in
    (identified, valid, subst (λ x. check_source x r.source_record ≡ ok tt) same source)

check_binding-inv :
    (r : PublicationRecord) {u : Unit {0}}
    → check_binding r ≡ ok u
    → (validate_publication_manifest_path r.work r.manifest_path ≡ ok r.manifest_path)
      × (is_positive r.record_set_revision ≡ true)
      × (is_aware r.published_at ≡ true)
      × (check_predecessor r.publication_id r.supersedes_publication_id ≡ ok tt)
unfolding check_binding
check_binding-inv r h =
    let (_, _, h1) = >>=-eq-ok (check_capabilities r.publication_kind r.capabilities) _ h in
    let (_, _, h2) = >>=-eq-ok (publication_identifier "record_set_id" r.record_set_id) _ h1 in
    let (_, h3) = >>-guard-inv _ set_not_lowercase _ h2 in
    let (positive, h4) = >>-guard-inv _ not_positive _ h3 in
    let (_, _, h5) =
      >>=-eq-ok (publication_identifier "manifest_contract_version" r.manifest_contract_version) _
        h4 in
    let (p, path, h6) =
      >>=-eq-ok (validate_publication_manifest_path r.work r.manifest_path) _ h5 in
    let (_, h7) = >>-guard-inv _ bad_algorithm _ h6 in
    let (_, h8) = >>-guard-inv _ bad_digest _ h7 in
    let (aware, h9) = >>-guard-inv _ naive _ h8 in
    let (_, _, h10) =
      >>=-eq-ok
        (check_registration_revision r.publication_kind r.academic_work_registration_revision) _
        h9 in
    (
      path ∙ ap ok (validate_publication_manifest_path-IsWork r.work r.manifest_path p path).0,
      positive,
      aware,
      h10,
    )

-- An accepted publication, as the constructor leaves it.
pub record IsPublication (r : PublicationRecord) : Type 0 where
  pub accepted : validate_publication_record r ≡ ok r
  pub identified : is_publication_id r.publication_id ≡ true
  pub worked : IsWork r.work
  pub sourced : check_source r.work r.source_record ≡ ok tt
  pub manifest : validate_publication_manifest_path r.work r.manifest_path ≡ ok r.manifest_path
  pub positive : is_positive r.record_set_revision ≡ true
  pub aware : is_aware r.published_at ≡ true
  pub followed : check_predecessor r.publication_id r.supersedes_publication_id ≡ ok tt

-- What the constructor returns is its argument, with the capabilities in order.
pub validate_publication_record-IsPublication :
    (r s : PublicationRecord)
    → validate_publication_record r ≡ ok s
    → IsPublication s × (s ≡ record r { capabilities = s.capabilities })
unfolding validate_publication_record check_identity
validate_publication_record-IsPublication r s h =
    let (_, identity, h1) = >>=-eq-ok (check_identity r) _ h in
    let (cs, _, h2) = >>=-eq-ok (sorted_capabilities r.capabilities) _ h1 in
    let (_, binding, h3) = >>=-eq-ok (check_binding (record r { capabilities = cs })) _ h2 in
    let same : record r { capabilities = cs } ≡ s = ok-inj h3 in
    let (identified, worked, sourced) = check_identity-inv r identity in
    let (manifest, positive, aware, followed) =
      check_binding-inv (record r { capabilities = cs }) binding in
    let kept =
      subst (λ x. validate_publication_record x ≡ ok x) (sym same)
        (validate_publication_record_idem r s h) in
    subst
      (λ (x : PublicationRecord).
        IsPublication x × (x ≡ record r { capabilities = x.capabilities }))
      same
      (
        record {
          accepted = kept;
          identified = identified;
          worked = worked;
          sourced = sourced;
          manifest = manifest;
          positive = positive;
          aware = aware;
          followed = followed;
        },
        refl,
      )
