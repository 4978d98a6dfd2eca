-- ===== src/Publications/Compatibility/Profiles.antt =====
-- What an accepted profile guarantees.
use mathlib.Core.Path.{subst}
use pds_core.Base.{
  ◌≡◌, refl, sym, ◌∙◌, ap, inl, inr, ◌↔◌, true, false, not, ◌||◌, some, List, [], ◌∷◌, map, Text,
  ok, find, elem, elem→Mem, text_eq, text_eq_iff, In, NoDup, NoDup-map-sort_by, same_key,
  Bool-cases, arith, >>=-eq-ok, >>-guard-inv, ok-inj, some-inj, not_iff,
}
use pds_core.Publications.{has_repeats}
use pds_core.Publications.Compatibility.{
  PublicationProducerProfile, contract_kinds, contract_ltb, lowercase_profile_identifier,
  producer_display_name, versions, no_contracts, duplicate_kind, no_work_contract,
  validate_publication_producer_profile,
}

has_repeats-NoDup : (ss : List Text) → has_repeats ss ≡ false → NoDup ss
unfolding has_repeats
has_repeats-NoDup [] h = tt
has_repeats-NoDup (s ∷ ss) h =
    ((λ i. cc ((elem→Mem s ss).1 i, not_in h)), has_repeats-NoDup ss (ground (arith, h)))
  where
    not_in : (elem s ss || has_repeats ss) ≡ false → elem s ss ≡ false
    not_in e = ground (arith, e)

module _ {A : Type 0} (key : A → Text) where
  find_by-found :
      (k : Text) (xs : List A) (x : A)
      → find (λ y. text_eq (key y) k) xs ≡ some x
      → In x xs × (key x ≡ k)
  find_by-found k [] x h = cc
  find_by-found k (y ∷ ys) x h = elim (Bool-cases (text_eq (key y) k)) [
    | inl e ↦
        let same : y ≡ x = some-inj (rw e at h) in
        (inl (sym same), ap key (sym same) ∙ (text_eq_iff (key y) k).0 e)
    | inr e ↦ let (i, named) = find_by-found k ys x (rw e at h) in (inr i, named)
  ]

  find_by-only :
      (k : Text) (xs : List A) (x : A)
      → NoDup (map key xs)
      → In x xs
      → key x ≡ k
      → find (λ y. text_eq (key y) k) xs ≡ some x
  find_by-only k [] x d i e = absurd i
  find_by-only k (y ∷ ys) x d i e = elim (Bool-cases (text_eq (key y) k)) [
    | inl t ↦
        let same = same_key key (y ∷ ys) d y x (inl refl) i ((text_eq_iff (key y) k).0 t ∙ sym e) in
        rw t (ap some same)
    | inr t ↦ elim i [
      | inl same ↦ cc (t, (text_eq_iff (key y) k).1 (ap key (sym same) ∙ e))
      | inr j ↦ rw t (find_by-only k ys x d.1 j e)
    ]
  ]

  -- The first item with a key is the one with that key.
  pub find_by-In :
      (k : Text) (xs : List A)
      → NoDup (map key xs)
      → (x : A) → (find (λ y. text_eq (key y) k) xs ≡ some x) ↔ (In x xs × (key x ≡ k))
  find_by-In k xs d x = (find_by-found k xs x, (λ h. find_by-only k xs x d h.0 h.1))

-- The kinds of the contracts of an accepted profile are distinct, and nothing but their order changes.
pub validate_publication_producer_profile-NoDup :
    (profile p : PublicationProducerProfile)
    → validate_publication_producer_profile profile ≡ ok p
    → NoDup (contract_kinds p.publication_contracts)
unfolding validate_publication_producer_profile
validate_publication_producer_profile-NoDup profile p h =
    let (_, _, h1) = >>=-eq-ok (lowercase_profile_identifier "module_id" profile.module_id) _ h in
    let (_, _, h2) = >>=-eq-ok (producer_display_name profile.display_name) _ h1 in
    let (_, _, h3) =
      >>=-eq-ok (versions false profile.supported_core_publication_schema_versions) _ h2 in
    let (_, _, h4) =
      >>=-eq-ok (versions true profile.supported_academic_work_contract_versions) _ h3 in
    let (_, h5) = >>-guard-inv _ no_contracts _ h4 in
    let (single, h6) =
      >>-guard-inv (not (has_repeats (contract_kinds profile.publication_contracts))) duplicate_kind
        _ h5 in
    let (_, h7) = >>-guard-inv _ no_work_contract _ h6 in
    subst (λ (x : PublicationProducerProfile). NoDup (contract_kinds x.publication_contracts))
      (ok-inj h7)
      (NoDup-map-sort_by contract_ltb _ profile.publication_contracts
        (has_repeats-NoDup _ ((not_iff _).0 single)))
