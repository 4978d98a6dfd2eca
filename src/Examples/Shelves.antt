-- ===== src/Examples/Shelves.antt =====
-- A record set that is written twice, and its head withdrawn.
use pds_core.Publications.{
  validate_reason, check_binding, validate_publication_withdrawal, after_prefix, last_component,
  validate_publication_manifest_path, is_publication_id, check_capabilities, check_source,
  check_registration_revision, ends_with, has_repeats, publication_work, check_identity,
  publication_identifier, check_predecessor, sorted_capabilities, has_more, PublicationWithdrawal,
}
use pds_core.Publications.Series.{
  validate_publication_record_series, add_successor, validate_publication_withdrawal_relationship,
  same_series, names, series_ltb, validate_publication_supersession, exactly_one, link_records,
  index_records, follow, link_record, order_series,
}
use pds_core.Publications.Shapes.{
  datetime_from_iso, publication_withdrawal_to_dict, publication_record_to_dict, int_or_null,
  texts_to_items, require_str, publication_item, publication_fields,
  publication_withdrawal_from_dict, publication_string, source_from_value, items_to_texts,
  optional_str, publication_record_from_dict, source_to_value, capability_items, item_text,
  require_int, optional_int,
}
use pds_core.Publications.Storage.{
  read_publication, read_withdrawal, same_withdrawal, checked_record_set, list_publication_records,
  get_current_publication_record, list_ids, load_publication_record, unsuperseded, single_head,
  list_publication_ids, current_of, not_withdrawn, stored_id, list_publication_record_set,
}
use pds_core.Publications.Storage.Equality.{
  publication_eq, metadata_eq, revision_eq, source_eq, withdrawal_eq, texts_eq,
}
use pds_core.Publications.Storage.Withdraw.{
  validate_withdrawal_state, prepare_withdrawal, write_prepared_withdrawal, finish_withdrawal,
  check_persisted, withdraw_locked, refuse_withdrawn, persist_withdrawal, verify_withdrawal,
  complete_withdrawal,
}
use pds_core.Publications.Storage.Write.{
  check_head, with_lock, complete, verify_manifest, is_first, release, verify_persisted,
  write_prepared, series_lock_path, check_current, check_revisions, discard, write_locked,
  is_read_error, validate_registration_relationship, check_registration, persist, after, finish,
  write_exclusively, validate_write_state, read_history, prepare,
}
use pds_core.Routes.{relative_to, is_anchored}
use pds_core.Routing.Shapes.{
  module_record_ref_from_dict, route_locator_to_dict, module_record_ref_to_dict,
  module_work_ref_to_dict, optional_string, module_work_ref_from_dict, work_from_fields,
  optional_value, route_locator_from_dict,
}
use pds_core.WorkRegistrations.{version_eq}
use pds_core.Base.{
  ◌≡◌, refl, true, none, some, [], lit, ok, strip, text_eq, text_ltb, lower, sort_by, Option,
}
use pds_core.Json.{pos, exact_mapping, item, int_eq, int_ltb}
use pds_core.Dict.{get, put}
use pds_core.Files.{Content, is_present, path_eq, garbage}
use pds_core.Identifiers.{validate_identifier, identifier_match}
use pds_core.Pds2.{split}
use pds_core.Routing.{
  require_exact_mapping, string_item, make_module_work_ref, work_eq, validate_module_work_ref,
  route_identifier, lowercase_identifier,
}
use pds_core.Publications.{PublicationRecord, validate_publication_record}
use pds_core.WorkRegistrations.{AcademicWorkRegistration}
use pds_core.Publications.Storage.{
  Stored, Shelf, find_file, series_head, load_publication_withdrawal,
}
use pds_core.Publications.Storage.Write.{
  missing, digested, PublicationDisk, Registrations, write_publication_record,
}
use pds_core.Publications.Storage.Write.Kept.{write_publication_record-present}
use pds_core.Publications.Storage.Write.Chained.{IsAdded, write_publication_record-IsAdded}
use pds_core.Publications.Storage.Withdraw.{write_publication_withdrawal}
use pds_core.Publications.Storage.Withdraw.Gone.{
  IsWithdrawn, write_publication_withdrawal-IsWithdrawn,
}
use pds_core.Examples.{plain, at}
use pds_core.Examples.Publications.{work, id_a, id_b, digest, one, two, withdrawal}

running : Unit {0}
unfolding int_eq int_ltb get put validate_identifier identifier_match split work_eq
    validate_module_work_ref route_identifier lowercase_identifier strip text_eq text_ltb lower
    sort_by is_anchored relative_to after_prefix is_publication_id publication_work has_more
    last_component ends_with validate_publication_manifest_path has_repeats sorted_capabilities
    publication_identifier check_source check_capabilities check_registration_revision
    check_predecessor check_identity check_binding validate_publication_record names
    validate_publication_supersession same_series index_records exactly_one add_successor
    link_record link_records follow series_ltb order_series validate_publication_record_series
    find_file is_present path_eq stored_id unsuperseded single_head series_head checked_record_set
    exact_mapping item require_exact_mapping string_item make_module_work_ref read_publication
    load_publication_record read_withdrawal same_withdrawal load_publication_withdrawal list_ids
    list_publication_ids list_publication_records list_publication_record_set not_withdrawn
    current_of get_current_publication_record source_eq texts_eq revision_eq metadata_eq
    publication_eq withdrawal_eq verify_manifest check_current check_registration
    validate_registration_relationship series_lock_path is_read_error read_history check_revisions
    is_first check_head after discard write_exclusively complete release with_lock
    validate_write_state verify_persisted finish persist write_locked prepare write_prepared
    write_publication_record refuse_withdrawn check_persisted complete_withdrawal prepare_withdrawal
    validate_withdrawal_state verify_withdrawal finish_withdrawal persist_withdrawal withdraw_locked
    write_prepared_withdrawal write_publication_withdrawal validate_reason
    validate_publication_withdrawal validate_publication_withdrawal_relationship version_eq
    require_str require_int publication_item publication_string optional_int optional_str
    int_or_null texts_to_items item_text items_to_texts capability_items source_to_value
    source_from_value datetime_from_iso publication_fields publication_record_to_dict
    publication_record_from_dict publication_withdrawal_to_dict publication_withdrawal_from_dict
    module_work_ref_to_dict work_from_fields module_work_ref_from_dict route_locator_to_dict
    route_locator_from_dict optional_value optional_string module_record_ref_to_dict
    module_record_ref_from_dict
running = tt

abbrev option_or : Content → Option Content → Content
option_or d none = d
option_or d (some c) = c

abbrev disk : PublicationDisk
disk = record {
  makes_folders = true;
  makes_lock = true;
  writes = true;
  reads_back = true;
  removes = true;
  first_manifest = digested digest;
  locked_manifest = digested digest;
  last_manifest = digested digest;
}

abbrev pub registration : AcademicWorkRegistration
registration = record {
  schema_version = lit "1";
  record_type = lit "academic_work_registration";
  work = work;
  registration_revision = pos 1;
  producer_contract_version = lit "1";
  title = lit "Work";
  work_kind = lit "quiz";
  academic_intent = lit "formative";
  lifecycle = lit "active";
  created_at = at 0;
  updated_at = at 0;
  source_records = [];
}

abbrev registrations : Registrations
registrations = record { current = λ w. ok (some registration); exact = λ w n. ok registration }

abbrev empty : Shelf
empty = record { publications = []; withdrawals = []; locks = [] }

-- The first publication is written.
abbrev written : Stored (Unit {0}) × Shelf
written = write_publication_record plain disk registrations registrations one empty

stored : written.0 ≡ ok tt
unfolding running
stored = refl

-- The second one supersedes it.
abbrev rewritten : Stored (Unit {0}) × Shelf
rewritten = write_publication_record plain disk registrations registrations two written.1

restored : rewritten.0 ≡ ok tt
unfolding running
restored = refl

write_publication_record-IsAdded_example :
    (r : PublicationRecord) × (validate_publication_record two ≡ ok r)
    × IsAdded plain r written.1 rewritten.1
write_publication_record-IsAdded_example =
    write_publication_record-IsAdded plain disk registrations registrations two written.1 restored

-- The file of the first one.
abbrev first_file : Option Content
first_file = find_file id_a written.1.publications

abbrev first_content : Content
first_content = option_or garbage first_file

found : find_file id_a written.1.publications ≡ some first_content
unfolding running
found = refl

-- The manifest was lost before the last check: the new file is removed again.
abbrev lost : PublicationDisk
lost = record disk { last_manifest = missing }

write_publication_record-present_example :
    find_file id_a
      (write_publication_record plain lost registrations registrations two written.1).1.publications
    ≡ some first_content
write_publication_record-present_example =
    write_publication_record-present plain lost registrations registrations two written.1 id_a
      first_content found

abbrev withdrawal_b : PublicationWithdrawal
withdrawal_b = record withdrawal { publication_id = id_b }

abbrev withdrawn : Stored (Unit {0}) × Shelf
withdrawn = write_publication_withdrawal plain disk withdrawal_b rewritten.1

taken_back : withdrawn.0 ≡ ok tt
unfolding running
taken_back = refl

write_publication_withdrawal-IsWithdrawn_example :
    IsWithdrawn plain withdrawal_b rewritten.1 withdrawn.1
write_publication_withdrawal-IsWithdrawn_example =
    write_publication_withdrawal-IsWithdrawn plain disk withdrawal_b rewritten.1 taken_back
