-- ===== src/Examples/Compatibility.antt =====
-- A publication and the profile of its module.
use pds_core.Dict.{get, put}
use pds_core.Identifiers.{validate_identifier, identifier_match}
use pds_core.Json.{int_ltb, int_eq}
use pds_core.Pds2.{split}
use pds_core.Publications.{
  publication_identifier, check_predecessor, last_component, sorted_capabilities,
  check_registration_revision, ends_with, after_prefix, has_repeats,
  validate_publication_manifest_path, publication_work, check_source, check_capabilities,
  check_binding, is_publication_id, check_identity, has_more,
}
use pds_core.Publications.Compatibility.{
  name_control, contract_ltb, same_revision, producer_display_name, is_empty, profile_codes,
  profile_ltb, discover_profile, version_identifiers, make_contract_support, make_reader_support,
  lowercase_profile_identifier, build_publication_producer_registry, registration_supported, unless,
  reader_of, find_source, discover_publication_producer_profiles, registration_codes,
  lookup_publication_reader_support, contract_codes, find_contract, point_ltb, source_code,
  reader_contract_id, versions, row_code, provided_profile, distribution_part, find_reader,
  make_result, is_code, source_ltb, version_code, named, is_given, reader_ltb, unique,
  make_source_support, strip_prefix, contract_name, reader_distribution,
}
use pds_core.Publications.Series.{
  link_records, names, series_ltb, add_successor, same_series, link_record, follow,
  validate_publication_record_series, order_series, index_records, exactly_one,
  validate_publication_supersession,
}
use pds_core.Routes.{is_anchored, relative_to}
use pds_core.Routing.{validate_module_work_ref, lowercase_identifier, work_eq, route_identifier}
use pds_core.WorkRegistrations.{
  validate_academic_work_registration_transition, version_eq, check_sources,
  registration_identifier, check_declaration, validate_title, repeated_source, registration_work,
  sorted_sources, version_ltb,
}
use pds_core.Base.{
  ◌>>=◌, ◌≡◌, refl, ◌↔◌, inl, true, false, some, [], ◌∷◌, lit, ok, strip, text_eq, text_ltb, lower,
  sort_by,
}
use pds_core.Publications.{is_academic, validate_publication_record}
use pds_core.WorkRegistrations.{AcademicWorkRegistration, validate_academic_work_registration}
use pds_core.Publications.Compatibility.{
  PublicationContractSupport, PublicationProducerProfile, PublicationCompatibilityResult,
  validate_publication_producer_profile, check_given_registration,
  evaluate_publication_compatibility, make_producer_registry, get_producer,
}
use pds_core.Publications.Compatibility.Decided.{
  IsCompatible, evaluate_publication_compatibility_iff,
}
use pds_core.Json.{pos}
use pds_core.WorkRegistrations.Transitions.{
  IsTransition, validate_academic_work_registration_transition_iff,
}
use pds_core.WorkRegistrations.Shapes.{
  academic_work_registration_to_dict, academic_work_registration_from_dict,
}
use pds_core.WorkRegistrations.Shapes.RoundTrip.{academic_work_registration_round_trip}
use pds_core.Examples.{at, plain}
use pds_core.Examples.Publications.{one}
use pds_core.Examples.Shelves.{registration}

running : Unit {0}
unfolding int_eq int_ltb get put validate_identifier identifier_match split work_eq
    validate_module_work_ref route_identifier lowercase_identifier strip text_eq text_ltb lower
    sort_by is_anchored relative_to after_prefix is_publication_id publication_work has_more
    last_component ends_with validate_publication_manifest_path has_repeats sorted_capabilities
    publication_identifier check_source check_capabilities check_registration_revision
    check_predecessor check_identity check_binding validate_publication_record names
    validate_publication_supersession same_series index_records exactly_one add_successor
    link_record link_records follow series_ltb order_series validate_publication_record_series
    lowercase_profile_identifier contract_name reader_contract_id distribution_part
    reader_distribution version_identifiers is_empty versions make_source_support
    make_reader_support source_ltb reader_ltb make_contract_support name_control
    producer_display_name contract_ltb validate_publication_producer_profile profile_ltb
    make_producer_registry get_producer strip_prefix named is_code unique make_result unless
    find_contract find_source find_reader reader_of lookup_publication_reader_support same_revision
    check_given_registration registration_supported is_given registration_codes version_code
    row_code source_code contract_codes profile_codes evaluate_publication_compatibility
    provided_profile discover_profile point_ltb discover_publication_producer_profiles
    build_publication_producer_registry registration_work registration_identifier validate_title
    version_eq version_ltb check_sources repeated_source sorted_sources check_declaration
    validate_academic_work_registration validate_academic_work_registration_transition
running = tt

abbrev contract : PublicationContractSupport
contract = record {
  publication_kind = lit "academic_result_set";
  manifest_contract_versions = lit "1" ∷ [];
  supported_capabilities = lit "points" ∷ lit "question_evidence" ∷ [];
  source_record_contracts = [];
  allows_missing_source_record = true;
  reader_support = [];
}

abbrev profile : PublicationProducerProfile
profile = record {
  module_id = lit "m1";
  display_name = lit "Module 1";
  supported_core_publication_schema_versions = lit "1" ∷ [];
  supported_academic_work_contract_versions = lit "1" ∷ [];
  publication_contracts = contract ∷ [];
}

valid : validate_publication_record one ≡ ok one
unfolding running
valid = refl

declared : validate_publication_producer_profile profile ≡ ok profile
unfolding running
declared = refl

given : check_given_registration one (some registration) ≡ ok (some registration)
unfolding running
given = refl

academic : is_academic one.publication_kind ≡ true
unfolding running
academic = refl

evaluate_publication_compatibility_iff_example :
    (result : PublicationCompatibilityResult) × (evaluate_publication_compatibility one profile
        (some registration)
      ≡ ok result)
    × ((result.compatible ≡ true) ↔ IsCompatible one profile (some registration))
    × ((result.codes ≡ []) ↔ (result.compatible ≡ true))
evaluate_publication_compatibility_iff_example =
    evaluate_publication_compatibility_iff one one profile profile (some registration)
      (some registration) valid declared given (inl academic)

-- The other module does not produce the publication.
refused :
    evaluate_publication_compatibility one
      (record profile { module_id = lit "m2" })
      (some registration)
    ≡ ok (record { compatible = false; codes = lit "contracts.profile_module_mismatch" ∷ [] })
unfolding running
refused = refl

-- The work is closed by its next revision.
abbrev closed : AcademicWorkRegistration
closed = record registration {
  registration_revision = pos 2;
  lifecycle = lit "closed";
  updated_at = at 5;
}

moved : validate_academic_work_registration_transition registration closed ≡ ok closed
unfolding running
moved = refl

validate_academic_work_registration_transition_iff_example :
    (validate_academic_work_registration_transition registration closed ≡ ok closed) ↔ (
      (p : AcademicWorkRegistration) × (validate_academic_work_registration registration ≡ ok p)
      × (validate_academic_work_registration closed ≡ ok closed)
      × IsTransition p closed)
validate_academic_work_registration_transition_iff_example =
    validate_academic_work_registration_transition_iff registration closed closed

academic_work_registration_round_trip_example :
    (academic_work_registration_to_dict plain registration
      >>= academic_work_registration_from_dict plain)
    ≡ validate_academic_work_registration registration
academic_work_registration_round_trip_example =
    academic_work_registration_round_trip plain registration
