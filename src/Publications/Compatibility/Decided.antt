-- ===== src/Publications/Compatibility/Decided.antt =====
-- The evaluation of a publication decides whether it agrees with the profile of its module.
use mathlib.Core.Path.{subst}
use pds_core.Base.{
  ◌≡◌, refl, sym, ◌∙◌, ap, inl, inr, ◌⊎◌, ◌↔◌, Bool, true, false, ◌&&◌, Option, none, some, List,
  [], ◌∷◌, ◌++◌, Text, lit, ok, all, all-append, elem, elem→Mem, text_eq, text_eq_iff, text_ltb, In,
  sort_by, In-sort_by, Bool-cases, arith, some-inj, NoDup,
}
use pds_core.Routing.{ModuleRecordRef}
use pds_core.Publications.{PublicationRecord, is_academic, validate_publication_record}
use pds_core.WorkRegistrations.{AcademicWorkRegistration}
use pds_core.Publications.Compatibility.{
  SourceRecordContractSupport, PublicationContractSupport, PublicationProducerProfile,
  PublicationCompatibilityResult, is_empty, unless, unique, is_code, named, strip_prefix,
  contract_name, make_result, find_contract, find_source, version_code, row_code, source_code,
  contract_codes, profile_codes, registration_supported, registration_codes, is_given,
  check_given_registration, validate_publication_producer_profile,
  evaluate_publication_compatibility, contract_kinds,
}
use pds_core.Publications.Compatibility.Profiles.{
  find_by-In, validate_publication_producer_profile-NoDup,
}

abbrev pub AllowsVersion : SourceRecordContractSupport → Option Text → Type 0
AllowsVersion row none = row.allows_unversioned ≡ true
AllowsVersion row (some v) = In v row.contract_versions

abbrev pub AllowsSource :
    PublicationProducerProfile → PublicationContractSupport → Option ModuleRecordRef → Type 0
AllowsSource q c none = c.allows_missing_source_record ≡ true
AllowsSource q c (some source) =
    (row : SourceRecordContractSupport) × (find_source source.record_kind c.source_record_contracts
      ≡ some row)
    × (source.module_id ≡ q.module_id)
    × AllowsVersion row source.contract_version

pub record Supports (p : PublicationRecord) (q : PublicationProducerProfile)
    (c : PublicationContractSupport) : Type 0 where
  pub manifest : In p.manifest_contract_version c.manifest_contract_versions
  pub capable : all (λ s. elem s c.supported_capabilities) p.capabilities ≡ true
  pub sourced : AllowsSource q c p.source_record

-- The profile `q` declares what the publication `p` needs, with the registration `r` of its work.
pub record IsCompatible (p : PublicationRecord) (q : PublicationProducerProfile)
    (r : Option AcademicWorkRegistration) : Type 0 where
  pub owned : p.work.module_id ≡ q.module_id
  pub schema : In p.schema_version q.supported_core_publication_schema_versions
  pub registered :
      is_academic p.publication_kind ≡ true
      → (x : AcademicWorkRegistration) × (r ≡ some x)
        × In x.producer_contract_version q.supported_academic_work_contract_versions
  pub contract :
      (c : PublicationContractSupport) × (In c q.publication_contracts
        × (c.publication_kind ≡ p.publication_kind))
      × Supports p q c

is_empty-append : (xs ys : List Text) → is_empty (xs ++ ys) ≡ (is_empty xs && is_empty ys)
unfolding is_empty
is_empty-append [] ys = refl
is_empty-append (x ∷ xs) ys = refl

is_empty-unless : (b : Bool) (code : Text) → is_empty (unless b code) ≡ b
unfolding is_empty unless
is_empty-unless true code = refl
is_empty-unless false code = refl

unless-coded : (b : Bool) (code : Text) → is_code code ≡ true → all is_code (unless b code) ≡ true
unfolding unless
unless-coded true code h = refl
unless-coded false code h = ground (arith, h)

registration_code : is_code (lit "contracts.registration_version_incompatible") ≡ true
unfolding is_code named strip_prefix contract_name
registration_code = refl

version_code-coded :
    (row : SourceRecordContractSupport) (o : Option Text) → all is_code (version_code row o) ≡ true
unfolding version_code is_code named strip_prefix contract_name
version_code-coded row none = unless-coded row.allows_unversioned _ refl
version_code-coded row (some v) = unless-coded (elem v row.contract_versions) _ refl

row_code-coded :
    (q : PublicationProducerProfile) (source : ModuleRecordRef)
    (o : Option SourceRecordContractSupport)
    → all is_code (row_code q source o) ≡ true
unfolding row_code is_code named strip_prefix contract_name
row_code-coded q source none = refl
row_code-coded q source (some row) = elim (Bool-cases (text_eq source.module_id q.module_id)) [
  | inl e ↦ rw e (version_code-coded row source.contract_version)
  | inr e ↦ rw e refl
]

source_code-coded :
    (q : PublicationProducerProfile) (c : PublicationContractSupport) (o : Option ModuleRecordRef)
    → all is_code (source_code q c o) ≡ true
unfolding source_code is_code named strip_prefix contract_name
source_code-coded q c none = unless-coded c.allows_missing_source_record _ refl
source_code-coded q c (some source) = row_code-coded q source _

both :
    (xs ys : List Text)
    → all is_code xs ≡ true
    → all is_code ys ≡ true
    → all is_code (xs ++ ys) ≡ true
both xs ys h k = all-append is_code xs ys ∙ rw h k

contract_codes-coded :
    (p : PublicationRecord) (q : PublicationProducerProfile) (o : Option PublicationContractSupport)
    → all is_code (contract_codes p q o) ≡ true
unfolding contract_codes is_code named strip_prefix contract_name
contract_codes-coded p q none = refl
contract_codes-coded p q (some c) =
    both (unless (elem p.manifest_contract_version c.manifest_contract_versions) _) _
      (unless-coded (elem p.manifest_contract_version c.manifest_contract_versions) _ refl)
      (both (unless (all (λ s. elem s c.supported_capabilities) p.capabilities) _) _
        (unless-coded (all (λ s. elem s c.supported_capabilities) p.capabilities) _ refl)
        (source_code-coded q c p.source_record))

profile_codes-coded :
    (p : PublicationRecord) (q : PublicationProducerProfile)
    → all is_code (profile_codes p q) ≡ true
unfolding profile_codes is_code named strip_prefix contract_name
profile_codes-coded p q =
    both (unless (text_eq p.work.module_id q.module_id) _) _
      (unless-coded (text_eq p.work.module_id q.module_id) _ refl)
      (unless-coded (elem p.schema_version q.supported_core_publication_schema_versions) _ refl)

profile_codes_iff :
    (p : PublicationRecord) (q : PublicationProducerProfile)
    → (is_empty (profile_codes p q) ≡ true) ↔ (
        (p.work.module_id ≡ q.module_id)
        × In p.schema_version q.supported_core_publication_schema_versions)
unfolding profile_codes
profile_codes_iff p q =
    rw
      (
        is_empty-append
            (unless (text_eq p.work.module_id q.module_id)
              (lit "contracts.profile_module_mismatch"))
            _,
        is_empty-unless,
        is_empty-unless,
      )
      (ground (
        arith,
        text_eq_iff p.work.module_id q.module_id,
        elem→Mem p.schema_version q.supported_core_publication_schema_versions,
      ))

version_code_iff :
    (row : SourceRecordContractSupport) (o : Option Text)
    → (is_empty (version_code row o) ≡ true) ↔ AllowsVersion row o
unfolding version_code
version_code_iff row none = rw (is_empty-unless) ((λ h. h), (λ h. h))
version_code_iff row (some v) = rw (is_empty-unless) (elem→Mem v row.contract_versions)

row_code_iff :
    (q : PublicationProducerProfile) (source : ModuleRecordRef)
    (o : Option SourceRecordContractSupport)
    → (is_empty (row_code q source o) ≡ true) ↔ (
        (row : SourceRecordContractSupport) × (o ≡ some row)
        × (source.module_id ≡ q.module_id)
        × AllowsVersion row source.contract_version)
unfolding row_code is_empty
row_code_iff q source none = ((λ h. cc), (λ h. cc (h.1)))
row_code_iff q source (some row) = elim (Bool-cases (text_eq source.module_id q.module_id)) [
  | inl e ↦ rw e (
    (λ h. (
      row,
      refl,
      (text_eq_iff source.module_id q.module_id).0 e,
      (version_code_iff row source.contract_version).0 h,
    )),
    (λ h.
        let (x, same, _, allowed) = h in
        (version_code_iff row source.contract_version).1
          (subst (λ y. AllowsVersion y source.contract_version) (sym (some-inj same)) allowed)),
  )
  | inr e ↦ rw e (
    (λ h. cc),
    (λ h.
        let (x, same, owned, allowed) = h in
        cc (e, (text_eq_iff source.module_id q.module_id).1 owned)),
  )
]

source_code_iff :
    (q : PublicationProducerProfile) (c : PublicationContractSupport) (o : Option ModuleRecordRef)
    → (is_empty (source_code q c o) ≡ true) ↔ AllowsSource q c o
unfolding source_code
source_code_iff q c none = rw (is_empty-unless) ((λ h. h), (λ h. h))
source_code_iff q c (some source) =
    row_code_iff q source (find_source source.record_kind c.source_record_contracts)

all_three : (a b d : Bool) → a ≡ true → b ≡ true → d ≡ true → (a && (b && d)) ≡ true
all_three a b d ha hb hd = ground arith

supported_codes_iff :
    (p : PublicationRecord) (q : PublicationProducerProfile) (c : PublicationContractSupport)
    → (is_empty (contract_codes p q (some c)) ≡ true) ↔ Supports p q c
unfolding contract_codes
supported_codes_iff p q c =
    let manifest =
      unless (elem p.manifest_contract_version c.manifest_contract_versions)
        (lit "contracts.manifest_version_incompatible") in
    let capable =
      unless (all (λ s. elem s c.supported_capabilities) p.capabilities)
        (lit "contracts.capability_incompatible") in
    let split =
      is_empty-append manifest (capable ++ source_code q c p.source_record)
      ∙ ap (λ b. is_empty manifest && b)
          (is_empty-append capable (source_code q c p.source_record)) in
    let named = elem→Mem p.manifest_contract_version c.manifest_contract_versions in
    let sourced = source_code_iff q c p.source_record in
    rw (split, is_empty-unless, is_empty-unless)
      (
        (λ h. record {
          manifest = named.0 (ground (arith, h));
          capable = ground (arith, h);
          sourced = sourced.0 (ground (arith, h));
        }),
        (λ h. all_three _ _ _ (named.1 h.manifest) h.capable (sourced.1 h.sourced)),
      )

found_codes_iff :
    (p : PublicationRecord) (q : PublicationProducerProfile) (o : Option PublicationContractSupport)
    → ((c : PublicationContractSupport)
        → (o ≡ some c) ↔ (In c q.publication_contracts × (c.publication_kind ≡ p.publication_kind)))
    → (is_empty (contract_codes p q o) ≡ true) ↔ (
        (c : PublicationContractSupport) × (In c q.publication_contracts
          × (c.publication_kind ≡ p.publication_kind))
        × Supports p q c)
unfolding contract_codes is_empty
found_codes_iff p q none f = ((λ h. cc), (λ h. let (c, known, _) = h in cc ((f c).1 known)))
found_codes_iff p q (some c) f = (
  (λ h. (c, (f c).0 refl, (supported_codes_iff p q c).0 h)),
  (λ h.
      let (x, known, supports) = h in
      (supported_codes_iff p q c).1
        (subst (Supports p q) (sym (some-inj ((f x).1 known))) supports)),
)

registration_supported_iff :
    (q : PublicationProducerProfile) (o : Option AcademicWorkRegistration)
    → (registration_supported q o ≡ true) ↔ (
        (x : AcademicWorkRegistration) × (o ≡ some x)
        × In x.producer_contract_version q.supported_academic_work_contract_versions)
unfolding registration_supported
registration_supported_iff q none = ((λ h. cc), (λ h. cc (h.1)))
registration_supported_iff q (some r) = (
  (λ h. (
    r,
    refl,
    (elem→Mem r.producer_contract_version q.supported_academic_work_contract_versions).0 h,
  )),
  (λ h.
      let (x, same, known) = h in
      (elem→Mem r.producer_contract_version q.supported_academic_work_contract_versions).1 (
        subst
          (λ (y : AcademicWorkRegistration).
            In y.producer_contract_version q.supported_academic_work_contract_versions)
          (sym (some-inj same)) known)),
)

-- The codes of the registration, where it may be given.
registration_codes-ok :
    (p : PublicationRecord) (q : PublicationProducerProfile) (r : Option AcademicWorkRegistration)
    → (is_academic p.publication_kind ≡ true) ⊎ (r ≡ none)
    → (codes : List Text) × (registration_codes p q r ≡ ok codes)
      × (all is_code codes ≡ true)
      × ((is_empty codes ≡ true) ↔ (
          is_academic p.publication_kind ≡ true
          → (x : AcademicWorkRegistration) × (r ≡ some x)
            × In x.producer_contract_version q.supported_academic_work_contract_versions))
unfolding registration_codes is_given is_empty
registration_codes-ok p q r allowed = elim (Bool-cases (is_academic p.publication_kind)) [
  | inl e ↦
      let code = lit "contracts.registration_version_incompatible" in
      let iff = registration_supported_iff q r in
      (
        unless (registration_supported q r) code,
        rw e refl,
        unless-coded (registration_supported q r) code registration_code,
        (
          (λ h _. iff.0 (sym (is_empty-unless (registration_supported q r) code) ∙ h)),
          (λ h. is_empty-unless (registration_supported q r) code ∙ iff.1 (h e)),
        ),
      )
  | inr e ↦
      let missing : r ≡ none = elim allowed [ inl t ↦ cc (t, e) | inr same ↦ same ] in
      ([], rw (e, missing) refl, refl, ((λ _ t. cc (t, e)), (λ _. refl)))
]

unique-In : (s : Text) (ss : List Text) → In s ss → In s (unique ss)
unfolding unique
unique-In s [] i = i
unique-In s (t ∷ ss) i = elim (Bool-cases (elem t (unique ss))) [
  | inl e ↦ elim i [
    | inl same ↦ rw e (subst (λ x. In x (unique ss)) (sym same) ((elem→Mem t (unique ss)).0 e))
    | inr j ↦ rw e (unique-In s ss j)
  ]
  | inr e ↦ elim i [ inl same ↦ rw e (inl same) | inr j ↦ rw e (inr (unique-In s ss j)) ]
]

-- The result for the given codes, which agrees with itself.
make_result-ok :
    (raw : List Text)
    → all is_code raw ≡ true
    → (result : PublicationCompatibilityResult) × (make_result (is_empty raw) raw ≡ ok result)
      × (result.compatible ≡ is_empty raw)
      × ((result.codes ≡ []) ↔ (result.compatible ≡ true))
unfolding make_result is_empty unique sort_by
make_result-ok [] h =
    (record { compatible = true; codes = [] }, refl, refl, ((λ _. refl), (λ _. refl)))
make_result-ok (s ∷ ss) h = (
  record { compatible = false; codes = sort_by text_ltb (unique (s ∷ ss)) },
  rw h refl,
  refl,
  (
    (λ e. absurd (
        subst (In s) e
          ((In-sort_by text_ltb s (unique (s ∷ ss))).1 (unique-In s (s ∷ ss) (inl refl))))),
    (λ e. cc),
  ),
)

all_codes_iff :
    (p : PublicationRecord) (q : PublicationProducerProfile) (r : Option AcademicWorkRegistration)
    (codes : List Text)
    → NoDup (contract_kinds q.publication_contracts)
    → ((is_empty codes ≡ true) ↔ (
        is_academic p.publication_kind ≡ true
        → (x : AcademicWorkRegistration) × (r ≡ some x)
          × In x.producer_contract_version q.supported_academic_work_contract_versions))
    → (is_empty (
          profile_codes p q
          ++ (codes
              ++ contract_codes p q (find_contract p.publication_kind q.publication_contracts)))
        ≡ true)
      ↔ IsCompatible p q r
unfolding find_contract
all_codes_iff p q r codes d registered =
    let found = find_contract p.publication_kind q.publication_contracts in
    let contracts = found_codes_iff p q found (
      find_by-In (λ (c : PublicationContractSupport). c.publication_kind) p.publication_kind
        q.publication_contracts d) in
    let profiles = profile_codes_iff p q in
    let split =
      is_empty-append (profile_codes p q) (codes ++ contract_codes p q found)
      ∙ ap (λ b. is_empty (profile_codes p q) && b)
          (is_empty-append codes (contract_codes p q found)) in
    rw split (
      (λ h. record {
        owned = (profiles.0 (ground (arith, h))).0;
        schema = (profiles.0 (ground (arith, h))).1;
        registered = registered.0 (ground (arith, h));
        contract = contracts.0 (ground (arith, h));
      }),
      (λ h.
          all_three _ _ _ (profiles.1 (h.owned, h.schema)) (registered.1 h.registered)
            (contracts.1 h.contract)),
    )

-- The evaluation of a valid publication against a valid profile never raises, where a given registration
-- is valid and the one that the publication names, and an intervention has none. It finds the publication
-- compatible exactly when the profile declares what the publication needs, and lists no code exactly
-- then.
pub evaluate_publication_compatibility_iff :
    (publication p : PublicationRecord) (profile q : PublicationProducerProfile)
    (registration r : Option AcademicWorkRegistration)
    → validate_publication_record publication ≡ ok p
    → validate_publication_producer_profile profile ≡ ok q
    → check_given_registration p registration ≡ ok r
    → (is_academic p.publication_kind ≡ true) ⊎ (r ≡ none)
    → (result : PublicationCompatibilityResult) × (evaluate_publication_compatibility publication
          profile registration
        ≡ ok result)
      × ((result.compatible ≡ true) ↔ IsCompatible p q r)
      × ((result.codes ≡ []) ↔ (result.compatible ≡ true))
unfolding evaluate_publication_compatibility
evaluate_publication_compatibility_iff publication p profile q registration r valid declared given
      allowed =
    let (codes, registered, coded, named) = registration_codes-ok p q r allowed in
    let found = find_contract p.publication_kind q.publication_contracts in
    let every = profile_codes p q ++ (codes ++ contract_codes p q found) in
    let (result, evaluated, agrees, listed) = make_result-ok every (
      both (profile_codes p q) _ (profile_codes-coded p q)
        (both codes _ coded (contract_codes-coded p q found))) in
    let decided =
      all_codes_iff p q r codes (validate_publication_producer_profile-NoDup profile q declared)
        named in
    (
      result,
      rw (valid, declared, given, registered) evaluated,
      ((λ h. decided.0 (sym agrees ∙ h)), (λ h. agrees ∙ decided.1 h)),
      listed,
    )
