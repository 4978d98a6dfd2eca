-- ===== src/Publications/Shapes.antt =====
-- The `to_dict` and `from_dict` functions of pds_core/publication_records.py.
pub mod RoundTrips
use pds_core.Base.{
  Option, none, some, List, [], ◌∷◌, String, Text, lit, Outcome, ok, err, ◌>>=◌, ◌>>◌, guard,
  reraise,
}
use pds_core.Json.{
  Value, null, int, str, list, dict, Items, nil, cons, Fields, end, field, ℤ, item, exact_mapping,
}
use pds_core.Time.{DateTime, is_aware, IsoText}
use pds_core.Routing.{Routed, ModuleRecordRef}
use pds_core.Routing.Shapes.{
  module_work_ref_to_dict, module_work_ref_from_dict, module_record_ref_to_dict,
  module_record_ref_from_dict, optional_value,
}
use pds_core.Publications.{
  Published, mapping, routing, not_string, not_integer, bad_datetime, naive, capabilities_not_list,
  PublicationRecord, PublicationWithdrawal, validate_publication_record,
  validate_publication_withdrawal,
}

abbrev pub publication_keys : List Text
publication_keys =
    lit "schema_version"
    ∷ lit "record_type"
    ∷ lit "publication_id"
    ∷ lit "work"
    ∷ lit "source_record"
    ∷ lit "publication_kind"
    ∷ lit "capabilities"
    ∷ lit "record_set_id"
    ∷ lit "record_set_revision"
    ∷ lit "manifest_contract_version"
    ∷ lit "manifest_path"
    ∷ lit "manifest_digest_algorithm"
    ∷ lit "manifest_digest"
    ∷ lit "published_at"
    ∷ lit "academic_work_registration_revision"
    ∷ lit "supersedes_publication_id"
    ∷ []

abbrev pub withdrawal_keys : List Text
withdrawal_keys =
    lit "schema_version"
    ∷ lit "record_type"
    ∷ lit "publication_id"
    ∷ lit "withdrawn_at"
    ∷ lit "reason"
    ∷ []

unfoldable pub require_str : Value → Published Text
require_str (str s) = ok s
require_str _ = err not_string

unfoldable pub require_int : Value → Published ℤ
require_int (int n) = ok n
require_int _ = err not_integer

-- `mapping["name"]`, and `_require_str(mapping["name"], "name")`
unfoldable pub publication_item : Fields → String → Published Value
publication_item fs name = reraise mapping (item (lit name) fs)

unfoldable pub publication_string : Fields → String → Published Text
publication_string fs name = do v ← publication_item fs name; require_str v

unfoldable pub optional_int : Value → Published (Option ℤ)
optional_int null = ok none
optional_int v = do n ← require_int v; ok (some n)

unfoldable pub optional_str : Value → Published (Option Text)
optional_str null = ok none
optional_str v = do s ← require_str v; ok (some s)

unfoldable pub int_or_null : Option ℤ → Value
int_or_null none = null
int_or_null (some n) = int n

unfoldable pub texts_to_items : List Text → Items
texts_to_items [] = nil
texts_to_items (s ∷ ss) = cons (str s) (texts_to_items ss)

-- An item that is no string is no capability, and neither is the empty text that stands for it.
unfoldable pub item_text : Value → Text
item_text (str s) = s
item_text _ = []

unfoldable pub items_to_texts : Items → List Text
items_to_texts nil = []
items_to_texts (cons v vs) = item_text v ∷ items_to_texts vs

unfoldable pub capability_items : Value → Published (List Text)
capability_items (list vs) = ok (items_to_texts vs)
capability_items _ = err capabilities_not_list

unfoldable pub source_to_value : Option ModuleRecordRef → Routed Value
source_to_value none = ok null
source_to_value (some r) = module_record_ref_to_dict r

unfoldable pub source_from_value : Value → Routed (Option ModuleRecordRef)
source_from_value null = ok none
source_from_value v = do r ← module_record_ref_from_dict v; ok (some r)

module _ (iso : IsoText) where
  open iso use {isoformat, fromisoformat}

  unfoldable pub datetime_from_iso : Value → Published DateTime
  datetime_from_iso v = do
    text ← require_str v
    elim (fromisoformat text) [
      | none ↦ err bad_datetime
      | some d ↦ guard (is_aware d) naive >> ok d
    ]

  unfoldable pub publication_fields : PublicationRecord → Value → Value → Fields
  publication_fields r work source = field (lit "schema_version") (str r.schema_version) (
      field (lit "record_type") (str r.record_type) (
        field (lit "publication_id") (str r.publication_id) (
          field (lit "work") work (
            field (lit "source_record") source (
              field (lit "publication_kind") (str r.publication_kind) (
                field (lit "capabilities") (list (texts_to_items r.capabilities)) (
                  field (lit "record_set_id") (str r.record_set_id) (
                    field (lit "record_set_revision") (int r.record_set_revision) (
                      field (lit "manifest_contract_version") (str r.manifest_contract_version) (
                        field (lit "manifest_path") (str r.manifest_path) (
                          field (lit "manifest_digest_algorithm") (str r.manifest_digest_algorithm)
                            (field (lit "manifest_digest") (str r.manifest_digest) (
                              field (lit "published_at") (str (isoformat r.published_at)) (
                                field (lit "academic_work_registration_revision")
                                  (int_or_null r.academic_work_registration_revision)
                                  (field (lit "supersedes_publication_id")
                                    (optional_value r.supersedes_publication_id) end)))))))))))))))

  unfoldable pub publication_record_to_dict : PublicationRecord → Published Value
  publication_record_to_dict value = do
    r ← validate_publication_record value
    work ← reraise routing (module_work_ref_to_dict r.work)
    source ← reraise routing (source_to_value r.source_record)
    ok (dict (publication_fields r work source))

  unfoldable pub publication_record_from_dict : Value → Published PublicationRecord
  publication_record_from_dict given = do
    fs ← reraise mapping (exact_mapping given publication_keys)
    listed ← publication_item fs "capabilities"
    capabilities ← capability_items listed
    given_work ← publication_item fs "work"
    work ← reraise routing (module_work_ref_from_dict given_work)
    given_source ← publication_item fs "source_record"
    source ← reraise routing (source_from_value given_source)
    given_revision ← publication_item fs "academic_work_registration_revision"
    registration ← optional_int given_revision
    given_predecessor ← publication_item fs "supersedes_publication_id"
    supersedes ← optional_str given_predecessor
    schema_version ← publication_string fs "schema_version"
    record_type ← publication_string fs "record_type"
    id ← publication_string fs "publication_id"
    kind ← publication_string fs "publication_kind"
    set ← publication_string fs "record_set_id"
    given_number ← publication_item fs "record_set_revision"
    number ← require_int given_number
    contract ← publication_string fs "manifest_contract_version"
    path ← publication_string fs "manifest_path"
    algorithm ← publication_string fs "manifest_digest_algorithm"
    digest ← publication_string fs "manifest_digest"
    given_time ← publication_item fs "published_at"
    published ← datetime_from_iso given_time
    validate_publication_record (record {
      schema_version = schema_version;
      record_type = record_type;
      publication_id = id;
      work = work;
      source_record = source;
      publication_kind = kind;
      capabilities = capabilities;
      record_set_id = set;
      record_set_revision = number;
      manifest_contract_version = contract;
      manifest_path = path;
      manifest_digest_algorithm = algorithm;
      manifest_digest = digest;
      published_at = published;
      academic_work_registration_revision = registration;
      supersedes_publication_id = supersedes;
    })

  unfoldable pub publication_withdrawal_to_dict : PublicationWithdrawal → Published Value
  publication_withdrawal_to_dict value = do
    d ← validate_publication_withdrawal value
    ok (
        dict (
          field (lit "schema_version") (str d.schema_version) (
            field (lit "record_type") (str d.record_type) (
              field (lit "publication_id") (str d.publication_id) (
                field (lit "withdrawn_at") (str (isoformat d.withdrawn_at))
                  (field (lit "reason") (str d.reason) end))))))

  unfoldable pub publication_withdrawal_from_dict : Value → Published PublicationWithdrawal
  publication_withdrawal_from_dict given = do
    fs ← reraise mapping (exact_mapping given withdrawal_keys)
    schema_version ← publication_string fs "schema_version"
    record_type ← publication_string fs "record_type"
    id ← publication_string fs "publication_id"
    given_time ← publication_item fs "withdrawn_at"
    withdrawn ← datetime_from_iso given_time
    reason ← publication_string fs "reason"
    validate_publication_withdrawal (record {
      schema_version = schema_version;
      record_type = record_type;
      publication_id = id;
      withdrawn_at = withdrawn;
      reason = reason;
    })
