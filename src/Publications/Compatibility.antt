-- ===== src/Publications/Compatibility.antt =====
-- pds_core/publication_compatibility.py: what the module that produces publications declares of them, and
-- whether a publication agrees with it. A frozenset is the list of its members.
pub mod Profiles
pub mod Decided
use pds_core.Base.{
  ℕ, Bool, true, false, not, ◌&&◌, ◌||◌, Option, none, some, List, [], ◌∷◌, ◌++◌, map, Text, lit,
  String, Outcome, ok, err, ◌>>=◌, ◌>>◌, guard, reraise, any, all, elem, each, find, leb, ltb, ◌==◌,
  length, text_eq, text_ltb, strip, lower, sort_by, if◌then◌else◌,
}
use pds_core.Json.{str, ℤ, int_eq}
use pds_core.Identifiers.{IdentifierError, validate_identifier}
use pds_core.Pds2.{split}
use pds_core.Routing.{ModuleRecordRef, work_eq}
use pds_core.Publications.{
  PublicationError, PublicationRecord, publication_kinds, publication_capabilities, is_academic,
  has_repeats, validate_publication_record,
}
use pds_core.WorkRegistrations.{
  WorkError, AcademicWorkRegistration, validate_academic_work_registration,
}

pub data CompatibilityError : Type 0 where
  identifier : IdentifierError → CompatibilityError
  not_lowercase empty_set bad_reader_contract bad_distribution : CompatibilityError
  bad_kind bad_capability duplicate_source duplicate_reader unsupported_reader : CompatibilityError
  bad_name no_contracts duplicate_kind no_work_contract duplicate_module : CompatibilityError
  bad_code disagreeing : CompatibilityError
  bad_publication : PublicationError → CompatibilityError
  bad_registration : WorkError → CompatibilityError
  other_work other_revision unexpected_registration : CompatibilityError
  -- `PublicationProducerDiscoveryError`
  not_loaded not_callable provider_failed other_profile : CompatibilityError

abbrev pub Profiled : Type 0 → Type 0
Profiled A = Outcome CompatibilityError A

pub record SourceRecordContractSupport : Type 0 where
  pub record_kind : Text
  pub contract_versions : List Text
  pub allows_unversioned : Bool

pub record PublicationReaderSupport : Type 0 where
  pub manifest_contract_version : Text
  pub distribution_name : Text
  pub reader_contract_version : Text

pub record PublicationContractSupport : Type 0 where
  pub publication_kind : Text
  pub manifest_contract_versions : List Text
  pub supported_capabilities : List Text
  pub source_record_contracts : List SourceRecordContractSupport
  pub allows_missing_source_record : Bool
  pub reader_support : List PublicationReaderSupport

pub record PublicationProducerProfile : Type 0 where
  pub module_id : Text
  pub display_name : Text
  pub supported_core_publication_schema_versions : List Text
  pub supported_academic_work_contract_versions : List Text
  pub publication_contracts : List PublicationContractSupport

pub record PublicationCompatibilityResult : Type 0 where
  pub compatible : Bool
  pub codes : List Text

abbrev pub profile_identifier : String → Text → Profiled Text
profile_identifier name s = reraise identifier (validate_identifier name (str s))

unfoldable pub lowercase_profile_identifier : String → Text → Profiled Text
lowercase_profile_identifier name s = do
  profile_identifier name s
  guard (text_eq s (lower s)) not_lowercase
  ok s

abbrev pub is_lower : ℕ → Bool
is_lower c = leb 97 c && leb c 122

abbrev pub is_digit : ℕ → Bool
is_digit c = leb 48 c && leb c 57

-- `[a-z][a-z0-9_]*`
unfoldable pub contract_name : Text → Bool
contract_name [] = false
contract_name (c ∷ s) = is_lower c && all (λ x. is_lower x || is_digit x || x == 95) s

unfoldable pub reader_contract_id : Text → Profiled Text
reader_contract_id s = guard (leb (length s) 128 && contract_name s) bad_reader_contract >> ok s

-- `[a-z0-9]+`
unfoldable pub distribution_part : Text → Bool
distribution_part [] = false
distribution_part (c ∷ s) = all (λ x. is_lower x || is_digit x) (c ∷ s)

-- `[a-z0-9]+(?:-[a-z0-9]+)*` is a list of parts with hyphens between them.
unfoldable pub reader_distribution : Text → Profiled Text
reader_distribution s =
    guard (leb (length s) 128 && all distribution_part (split 45 s)) bad_distribution >> ok s

unfoldable pub version_identifiers : List Text → Profiled (Unit {0})
version_identifiers [] = ok tt
version_identifiers (s ∷ ss) = profile_identifier "versions" s >> version_identifiers ss

unfoldable pub is_empty : List Text → Bool
is_empty [] = true
is_empty (s ∷ ss) = false

-- `_versions`
unfoldable pub versions : Bool → List Text → Profiled (Unit {0})
versions allow_empty ss = do
  version_identifiers ss
  guard (not (is_empty ss) || allow_empty) empty_set

unfoldable pub make_source_support :
    SourceRecordContractSupport → Profiled SourceRecordContractSupport
make_source_support r = do
  lowercase_profile_identifier "record_kind" r.record_kind
  versions false r.contract_versions
  ok r

unfoldable pub make_reader_support : PublicationReaderSupport → Profiled PublicationReaderSupport
make_reader_support r = do
  profile_identifier "manifest_contract_version" r.manifest_contract_version
  reader_distribution r.distribution_name
  reader_contract_id r.reader_contract_version
  ok r

unfoldable pub source_ltb : SourceRecordContractSupport → SourceRecordContractSupport → Bool
source_ltb a b = text_ltb a.record_kind b.record_kind

unfoldable pub reader_ltb : PublicationReaderSupport → PublicationReaderSupport → Bool
reader_ltb a b = text_ltb a.manifest_contract_version b.manifest_contract_version

abbrev pub source_kinds : List SourceRecordContractSupport → List Text
source_kinds = map (λ (r : SourceRecordContractSupport). r.record_kind)

abbrev pub reader_versions : List PublicationReaderSupport → List Text
reader_versions = map (λ (r : PublicationReaderSupport). r.manifest_contract_version)

-- The constructor call with its `__post_init__`.
unfoldable pub make_contract_support :
    PublicationContractSupport → Profiled PublicationContractSupport
make_contract_support c = do
  guard (elem c.publication_kind publication_kinds) bad_kind
  versions false c.manifest_contract_versions
  guard (all (λ s. elem s publication_capabilities) c.supported_capabilities) bad_capability
  guard (not (has_repeats (source_kinds c.source_record_contracts))) duplicate_source
  guard (not (has_repeats (reader_versions c.reader_support))) duplicate_reader
  guard (all (λ s. elem s c.manifest_contract_versions) (reader_versions c.reader_support))
      unsupported_reader
  ok (record c {
    source_record_contracts = sort_by source_ltb c.source_record_contracts;
    reader_support = sort_by reader_ltb c.reader_support;
  })

-- Its control characters are those below 32, 127 and the two separators.
unfoldable pub name_control : ℕ → Bool
name_control c = ltb c 32 || c == 127 || c == 0x2028 || c == 0x2029

unfoldable pub producer_display_name : Text → Profiled (Unit {0})
producer_display_name s =
    guard (not (text_eq (strip s) []) && text_eq s (strip s) && not (any name_control s)) bad_name

abbrev pub contract_kinds : List PublicationContractSupport → List Text
contract_kinds = map (λ (c : PublicationContractSupport). c.publication_kind)

unfoldable pub contract_ltb : PublicationContractSupport → PublicationContractSupport → Bool
contract_ltb a b = text_ltb a.publication_kind b.publication_kind

-- The constructor call with its `__post_init__`.
unfoldable pub validate_publication_producer_profile :
    PublicationProducerProfile → Profiled PublicationProducerProfile
validate_publication_producer_profile p = do
  lowercase_profile_identifier "module_id" p.module_id
  producer_display_name p.display_name
  versions false p.supported_core_publication_schema_versions
  versions true p.supported_academic_work_contract_versions
  guard (not (is_empty (contract_kinds p.publication_contracts))) no_contracts
  guard (not (has_repeats (contract_kinds p.publication_contracts))) duplicate_kind
  guard
      (not (
        is_empty p.supported_academic_work_contract_versions
        && any (λ k. text_eq k (lit "academic_result_set"))
            (contract_kinds p.publication_contracts)))
      no_work_contract
  ok (record p { publication_contracts = sort_by contract_ltb p.publication_contracts })

unfoldable pub profile_ltb : PublicationProducerProfile → PublicationProducerProfile → Bool
profile_ltb a b = text_ltb a.module_id b.module_id

abbrev pub profile_modules : List PublicationProducerProfile → List Text
profile_modules = map (λ (p : PublicationProducerProfile). p.module_id)

-- `PublicationProducerRegistry(profiles)`
unfoldable pub make_producer_registry :
    List PublicationProducerProfile → Profiled (List PublicationProducerProfile)
make_producer_registry ps = do
  qs ← each validate_publication_producer_profile ps
  guard (not (has_repeats (profile_modules qs))) duplicate_module
  ok (sort_by profile_ltb qs)

-- `PublicationProducerRegistry.get`
unfoldable pub get_producer :
    List PublicationProducerProfile → Text → Profiled (Option PublicationProducerProfile)
get_producer registry id = do
  lowercase_profile_identifier "module_id" id
  ok (find (λ p. text_eq p.module_id id) registry)

-- `^contracts\.[a-z][a-z0-9_]*$`
unfoldable pub strip_prefix : Text → Text → Option Text
strip_prefix [] s = some s
strip_prefix (c ∷ p) [] = none
strip_prefix (c ∷ p) (d ∷ s) = let rest = strip_prefix p s in if c == d then rest else none

unfoldable pub named : Option Text → Bool
named none = false
named (some s) = contract_name s

unfoldable pub is_code : Text → Bool
is_code s = named (strip_prefix (lit "contracts.") s)

-- `set(codes)`
unfoldable pub unique : List Text → List Text
unique [] = []
unique (s ∷ ss) = let rest = unique ss in if elem s rest then rest else s ∷ rest

-- `PublicationCompatibilityResult(compatible=…, codes=…)`
unfoldable pub make_result : Bool → List Text → Profiled PublicationCompatibilityResult
make_result compatible raw = do
  guard (all is_code raw) bad_code
  guard (if compatible then is_empty raw else not (is_empty raw)) disagreeing
  ok (record { compatible = compatible; codes = sort_by text_ltb (unique raw) })

-- A code that is appended where the test fails.
unfoldable pub unless : Bool → Text → List Text
unless b code = if b then [] else code ∷ []

unfoldable pub find_contract :
    Text → List PublicationContractSupport → Option PublicationContractSupport
find_contract kind cs = find (λ c. text_eq c.publication_kind kind) cs

unfoldable pub find_source :
    Text → List SourceRecordContractSupport → Option SourceRecordContractSupport
find_source kind rs = find (λ r. text_eq r.record_kind kind) rs

unfoldable pub find_reader : Text → List PublicationReaderSupport → Option PublicationReaderSupport
find_reader version rs = find (λ r. text_eq r.manifest_contract_version version) rs

unfoldable pub reader_of :
    Text → Option PublicationContractSupport → Option PublicationReaderSupport
reader_of version none = none
reader_of version (some c) = find_reader version c.reader_support

unfoldable pub lookup_publication_reader_support :
    PublicationProducerProfile → Text → Text → Profiled (Option PublicationReaderSupport)
lookup_publication_reader_support profile kind version = do
  p ← validate_publication_producer_profile profile
  guard (elem kind publication_kinds) bad_kind
  profile_identifier "manifest_contract_version" version
  ok (reader_of version (find_contract kind p.publication_contracts))

-- `publication.academic_work_registration_revision == registration.registration_revision`
unfoldable pub same_revision : Option ℤ → ℤ → Bool
same_revision none n = false
same_revision (some m) n = int_eq m n

unfoldable pub check_given_registration :
    PublicationRecord → Option AcademicWorkRegistration → Profiled (Option AcademicWorkRegistration)
check_given_registration p none = ok none
check_given_registration p (some given) = do
  r ← reraise bad_registration (validate_academic_work_registration given)
  guard (work_eq r.work p.work) other_work
  guard (same_revision p.academic_work_registration_revision r.registration_revision) other_revision
  ok (some r)

unfoldable pub registration_supported :
    PublicationProducerProfile → Option AcademicWorkRegistration → Bool
registration_supported q none = false
registration_supported q (some r) =
    elem r.producer_contract_version q.supported_academic_work_contract_versions

unfoldable pub is_given : Option AcademicWorkRegistration → Bool
is_given none = false
is_given (some r) = true

unfoldable pub registration_codes :
    PublicationRecord
    → PublicationProducerProfile
    → Option AcademicWorkRegistration
    → Profiled (List Text)
registration_codes p q registration =
    if is_academic p.publication_kind
    then ok (
        unless (registration_supported q registration)
          (lit "contracts.registration_version_incompatible"))
    else (guard (not (is_given registration)) unexpected_registration >> ok [])

unfoldable pub version_code : SourceRecordContractSupport → Option Text → List Text
version_code row none =
    unless row.allows_unversioned (lit "contracts.source_record_version_incompatible")
version_code row (some v) =
    unless (elem v row.contract_versions) (lit "contracts.source_record_version_incompatible")

unfoldable pub row_code :
    PublicationProducerProfile → ModuleRecordRef → Option SourceRecordContractSupport → List Text
row_code q source none = lit "contracts.source_record_kind_incompatible" ∷ []
row_code q source (some row) =
    if text_eq source.module_id q.module_id
    then version_code row source.contract_version
    else lit "contracts.source_record_kind_incompatible" ∷ []

unfoldable pub source_code :
    PublicationProducerProfile → PublicationContractSupport → Option ModuleRecordRef → List Text
source_code q c none =
    unless c.allows_missing_source_record (lit "contracts.source_record_missing_incompatible")
source_code q c (some source) =
    row_code q source (find_source source.record_kind c.source_record_contracts)

unfoldable pub contract_codes :
    PublicationRecord → PublicationProducerProfile → Option PublicationContractSupport → List Text
contract_codes p q none = lit "contracts.publication_kind_incompatible" ∷ []
contract_codes p q (some c) =
    unless (elem p.manifest_contract_version c.manifest_contract_versions)
      (lit "contracts.manifest_version_incompatible")
    ++ (unless (all (λ s. elem s c.supported_capabilities) p.capabilities)
          (lit "contracts.capability_incompatible")
        ++ source_code q c p.source_record)

unfoldable pub profile_codes : PublicationRecord → PublicationProducerProfile → List Text
profile_codes p q =
    unless (text_eq p.work.module_id q.module_id) (lit "contracts.profile_module_mismatch")
    ++ unless (elem p.schema_version q.supported_core_publication_schema_versions)
        (lit "contracts.publication_schema_incompatible")

unfoldable pub evaluate_publication_compatibility :
    PublicationRecord
    → PublicationProducerProfile
    → Option AcademicWorkRegistration
    → Profiled PublicationCompatibilityResult
evaluate_publication_compatibility publication profile registration = do
  p ← reraise bad_publication (validate_publication_record publication)
  q ← validate_publication_producer_profile profile
  r ← check_given_registration p registration
  registered ← registration_codes p q r
  let codes =
      profile_codes p q
      ++ (registered
          ++ contract_codes p q (find_contract p.publication_kind q.publication_contracts))
  make_result (is_empty codes) codes

-- An installed entry point: it cannot be loaded, it loads what is no function, the function raises, or it
-- returns a profile.
pub data Provided : Type 0 where
  broken uncallable raising : Provided
  provides : PublicationProducerProfile → Provided

pub record ProducerPoint : Type 0 where
  pub name : Text
  pub provided : Provided

unfoldable pub provided_profile : Provided → Profiled PublicationProducerProfile
provided_profile broken = err not_loaded
provided_profile uncallable = err not_callable
provided_profile raising = err provider_failed
provided_profile (provides p) =
    reraise (λ _. provider_failed) (validate_publication_producer_profile p)

unfoldable pub discover_profile : ProducerPoint → Profiled PublicationProducerProfile
discover_profile point = do
  lowercase_profile_identifier "entry point name" point.name
  p ← provided_profile point.provided
  guard (text_eq p.module_id point.name) other_profile
  ok p

unfoldable pub point_ltb : ProducerPoint → ProducerPoint → Bool
point_ltb a b = text_ltb a.name b.name

unfoldable pub discover_publication_producer_profiles :
    List ProducerPoint → Profiled (List PublicationProducerProfile)
discover_publication_producer_profiles points = do
  ps ← each discover_profile (sort_by point_ltb points)
  make_producer_registry ps

unfoldable pub build_publication_producer_registry :
    List PublicationProducerProfile
    → Bool
    → List ProducerPoint
    → Profiled (List PublicationProducerProfile)
build_publication_producer_registry explicit discover_installed points =
    if discover_installed
    then (discover_publication_producer_profiles points >>= λ found.
        make_producer_registry (explicit ++ found))
    else make_producer_registry explicit
