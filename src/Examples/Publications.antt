-- ===== src/Examples/Publications.antt =====
-- A record set that was published twice, and a withdrawal.
use pds_core.Base.{
  ◌≡◌, ◌≢◌, ◌↔◌, refl, ℕ, true, none, some, List, [], ◌∷◌, ◌++◌, Text, lit, ok, err, ◌>>=◌, each,
  all, In, inl, sort_by, strip, text_eq, text_ltb, lower, Option,
}
use pds_core.Json.{pos, int_eq, int_ltb}
use pds_core.Dict.{Dict, get, put}
use pds_core.Identifiers.{validate_identifier, identifier_match}
use pds_core.Pds2.{split}
use pds_core.Routing.{
  ModuleWorkRef, work_eq, validate_module_work_ref, route_identifier, lowercase_identifier,
}
use pds_core.Routing.Laws.{IsWork}
use pds_core.Routes.{is_anchored, relative_to}
use pds_core.Routes.Distinct.{work_parts}
use pds_core.Routes.Safe.{is_component}
use pds_core.Publications.{
  unending, PublicationRecord, PublicationWithdrawal, after_prefix, is_publication_id,
  publication_work, has_more, last_component, ends_with, validate_publication_manifest_path,
  has_repeats, sorted_capabilities, publication_identifier, check_source, check_capabilities,
  check_registration_revision, check_predecessor, check_identity, check_binding,
  validate_publication_record, validate_publication_withdrawal,
}
use pds_core.Publications.Manifests.{validate_publication_manifest_path-IsWork}
use pds_core.Publications.Fields.{validate_publication_record_idem}
use pds_core.Publications.Shapes.{
  publication_record_to_dict, publication_record_from_dict, publication_withdrawal_to_dict,
  publication_withdrawal_from_dict,
}
use pds_core.Publications.Shapes.RoundTrips.{
  publication_record_round_trip, publication_withdrawal_round_trip,
}
use pds_core.Publications.Series.{
  names, validate_publication_supersession, same_series, index_records, exactly_one, add_successor,
  link_record, link_records, follow, series_ltb, order_series, validate_publication_record_series,
}
use pds_core.Publications.Series.Chains.{IsChain, validate_publication_record_series-IsChain}
use pds_core.Publications.Series.Ends.{follow-ne-unending_linked}
use pds_core.Examples.{plain, at}

running : Unit {0}
unfolding int_eq int_ltb get put validate_identifier identifier_match split work_eq
    validate_module_work_ref route_identifier lowercase_identifier strip text_eq text_ltb lower
    sort_by is_anchored relative_to after_prefix is_publication_id publication_work has_more
    last_component ends_with validate_publication_manifest_path has_repeats sorted_capabilities
    publication_identifier check_source check_capabilities check_registration_revision
    check_predecessor check_identity check_binding validate_publication_record names
    validate_publication_supersession same_series index_records exactly_one add_successor
    link_record link_records follow series_ltb order_series validate_publication_record_series
running = tt

abbrev pub work : ModuleWorkRef
work = record { module_id = lit "m1"; class_id = lit "c1"; work_id = lit "w1" }

abbrev manifest : Text
manifest = lit "classes/c1/modules/m1/work/w1/results.json"

abbrev pub id_a : Text
id_a = lit "pub_0123456789abcdef0123456789abcdef"

abbrev pub id_b : Text
id_b = lit "pub_fedcba9876543210fedcba9876543210"

abbrev pub digest : Text
digest = lit "0123456789abcdef0123456789abcdef0123456789abcdef0123456789abcdef"

abbrev publication : Text → ℕ → Option Text → PublicationRecord
publication id n before = record {
  schema_version = lit "1";
  record_type = lit "publication_record";
  publication_id = id;
  work = work;
  source_record = none;
  publication_kind = lit "academic_result_set";
  capabilities = lit "points" ∷ lit "question_evidence" ∷ [];
  record_set_id = lit "set";
  record_set_revision = pos n;
  manifest_contract_version = lit "1";
  manifest_path = manifest;
  manifest_digest_algorithm = lit "sha256";
  manifest_digest = digest;
  published_at = at n;
  academic_work_registration_revision = some (pos 1);
  supersedes_publication_id = before;
}

abbrev pub one : PublicationRecord
one = publication id_a 1 none

abbrev pub two : PublicationRecord
two = publication id_b 2 (some id_a)

abbrev unsorted : PublicationRecord
unsorted = record one { capabilities = lit "question_evidence" ∷ lit "points" ∷ [] }

accepted_manifest : validate_publication_manifest_path work manifest ≡ ok manifest
unfolding running
accepted_manifest = refl

validate_publication_manifest_path-IsWork_example :
    (manifest ≡ manifest)
    × IsWork work
    × (all is_component (split 47 manifest) ≡ true)
    × (ends_with (lit ".json") (last_component (split 47 manifest)) ≡ true)
    × ((parts : List Text) × (split 47 manifest ≡ work_parts work ++ parts) × (parts ≢ []))
validate_publication_manifest_path-IsWork_example =
    validate_publication_manifest_path-IsWork work manifest manifest accepted_manifest

accepted : validate_publication_record unsorted ≡ ok one
unfolding running
accepted = refl

validate_publication_record_idem_example : validate_publication_record one ≡ ok one
validate_publication_record_idem_example = validate_publication_record_idem unsorted one accepted

publication_record_round_trip_example :
    (publication_record_to_dict plain unsorted >>= publication_record_from_dict plain)
    ≡ validate_publication_record unsorted
publication_record_round_trip_example = publication_record_round_trip plain unsorted

abbrev pub withdrawal : PublicationWithdrawal
withdrawal = record {
  schema_version = lit "1";
  record_type = lit "publication_withdrawal";
  publication_id = id_a;
  withdrawn_at = at 5;
  reason = lit "wrong key";
}

publication_withdrawal_round_trip_example :
    (publication_withdrawal_to_dict plain withdrawal >>= publication_withdrawal_from_dict plain)
    ≡ validate_publication_withdrawal withdrawal
publication_withdrawal_round_trip_example = publication_withdrawal_round_trip plain withdrawal

-- The later publication is given first.
ordered : validate_publication_record_series (two ∷ one ∷ []) ≡ ok (one ∷ two ∷ [])
unfolding running
ordered = refl

validate_publication_record_series-IsChain_example :
    (vs : List PublicationRecord) × (each validate_publication_record (two ∷ one ∷ []) ≡ ok vs)
    × ((r : PublicationRecord) → In r (one ∷ two ∷ []) ↔ In r vs)
    × IsChain (one ∷ two ∷ [])
validate_publication_record_series-IsChain_example =
    validate_publication_record_series-IsChain (two ∷ one ∷ []) (one ∷ two ∷ []) ordered

abbrev index : Dict PublicationRecord
index = (id_a, one) ∷ (id_b, two) ∷ []

linked : link_records index (one ∷ two ∷ []) [] ≡ ok ((id_a, two) ∷ [])
unfolding running
linked = refl

follow-ne-unending_linked_example : follow 3 ((id_a, two) ∷ []) [] (some one) ≢ err unending
follow-ne-unending_linked_example =
    follow-ne-unending_linked (one ∷ two ∷ []) index ((id_a, two) ∷ []) one linked (inl refl)
