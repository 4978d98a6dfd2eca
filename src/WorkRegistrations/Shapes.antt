-- ===== src/WorkRegistrations/Shapes.antt =====
-- The `to_dict` and `from_dict` functions of pds_core/academic_work_registrations.py.
pub mod RoundTrip
use pds_core.Base.{
  Option, none, some, List, [], ◌∷◌, String, Text, lit, Outcome, ok, err, ◌>>=◌, ◌>>◌, guard,
  reraise,
}
use pds_core.Json.{
  Value, int, str, list, dict, Items, nil, cons, Fields, end, field, ℤ, item, exact_mapping,
}
use pds_core.Time.{DateTime, is_aware, IsoText}
use pds_core.Routing.{Routed, ModuleRecordRef}
use pds_core.Routing.Shapes.{
  module_work_ref_to_dict, module_work_ref_from_dict, module_record_ref_to_dict,
  module_record_ref_from_dict,
}
use pds_core.WorkRegistrations.{
  Declared, mapping, routing, not_string, not_integer, bad_datetime, naive, sources_not_list,
  AcademicWorkRegistration, validate_academic_work_registration,
}

abbrev pub registration_keys : List Text
registration_keys =
    lit "schema_version"
    ∷ lit "record_type"
    ∷ lit "work"
    ∷ lit "registration_revision"
    ∷ lit "producer_contract_version"
    ∷ lit "title"
    ∷ lit "work_kind"
    ∷ lit "academic_intent"
    ∷ lit "lifecycle"
    ∷ lit "created_at"
    ∷ lit "updated_at"
    ∷ lit "source_records"
    ∷ []

unfoldable pub require_str : Value → Declared Text
require_str (str s) = ok s
require_str _ = err not_string

unfoldable pub require_int : Value → Declared ℤ
require_int (int n) = ok n
require_int _ = err not_integer

-- `mapping["name"]`, and `_require_str(mapping["name"], "name")`
unfoldable pub registration_item : Fields → String → Declared Value
registration_item fs name = reraise mapping (item (lit name) fs)

unfoldable pub registration_string : Fields → String → Declared Text
registration_string fs name = do v ← registration_item fs name; require_str v

unfoldable pub sources_to_items : List ModuleRecordRef → Routed Items
sources_to_items [] = ok nil
sources_to_items (r ∷ rs) = do
  v ← module_record_ref_to_dict r
  vs ← sources_to_items rs
  ok (cons v vs)

unfoldable pub sources_from_items : Items → Routed (List ModuleRecordRef)
sources_from_items nil = ok []
sources_from_items (cons v vs) = do
  r ← module_record_ref_from_dict v
  rs ← sources_from_items vs
  ok (r ∷ rs)

unfoldable pub records_list : Value → Declared Items
records_list (list vs) = ok vs
records_list _ = err sources_not_list

module _ (iso : IsoText) where
  open iso use {isoformat, fromisoformat}

  unfoldable pub datetime_from_iso : Value → Declared DateTime
  datetime_from_iso v = do
    text ← require_str v
    elim (fromisoformat text) [
      | none ↦ err bad_datetime
      | some d ↦ guard (is_aware d) naive >> ok d
    ]

  unfoldable pub datetime_item : Fields → String → Declared DateTime
  datetime_item fs name = do v ← registration_item fs name; datetime_from_iso v

  unfoldable pub registration_fields : AcademicWorkRegistration → Value → Items → Fields
  registration_fields r work sources = field (lit "schema_version") (str r.schema_version) (
      field (lit "record_type") (str r.record_type) (
        field (lit "work") work (
          field (lit "registration_revision") (int r.registration_revision) (
            field (lit "producer_contract_version") (str r.producer_contract_version) (
              field (lit "title") (str r.title) (
                field (lit "work_kind") (str r.work_kind) (
                  field (lit "academic_intent") (str r.academic_intent) (
                    field (lit "lifecycle") (str r.lifecycle) (
                      field (lit "created_at") (str (isoformat r.created_at)) (
                        field (lit "updated_at") (str (isoformat r.updated_at))
                          (field (lit "source_records") (list sources) end)))))))))))

  unfoldable pub academic_work_registration_to_dict : AcademicWorkRegistration → Declared Value
  academic_work_registration_to_dict value = do
    r ← validate_academic_work_registration value
    work ← reraise routing (module_work_ref_to_dict r.work)
    sources ← reraise routing (sources_to_items r.source_records)
    ok (dict (registration_fields r work sources))

  unfoldable pub academic_work_registration_from_dict : Value → Declared AcademicWorkRegistration
  academic_work_registration_from_dict given = do
    fs ← reraise mapping (exact_mapping given registration_keys)
    listed ← registration_item fs "source_records"
    items ← records_list listed
    given_work ← registration_item fs "work"
    work ← reraise routing (module_work_ref_from_dict given_work)
    sources ← reraise routing (sources_from_items items)
    schema_version ← registration_string fs "schema_version"
    record_type ← registration_string fs "record_type"
    given_number ← registration_item fs "registration_revision"
    number ← require_int given_number
    contract ← registration_string fs "producer_contract_version"
    title ← registration_string fs "title"
    kind ← registration_string fs "work_kind"
    intent ← registration_string fs "academic_intent"
    lifecycle ← registration_string fs "lifecycle"
    created ← datetime_item fs "created_at"
    updated ← datetime_item fs "updated_at"
    validate_academic_work_registration (record {
      schema_version = schema_version;
      record_type = record_type;
      work = work;
      registration_revision = number;
      producer_contract_version = contract;
      title = title;
      work_kind = kind;
      academic_intent = intent;
      lifecycle = lifecycle;
      created_at = created;
      updated_at = updated;
      source_records = sources;
    })
