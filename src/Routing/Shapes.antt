-- ===== src/Routing/Shapes.antt =====
-- The `to_dict` and `from_dict` functions of pds_core/routing_models.py.
use pds_core.Base.{Option, none, some, String, Text, lit, ok, ◌>>=◌, ◌>>◌, guard, reraise, text_eq}
use pds_core.Json.{Value, null, str, dict, Fields, end, field, item}
use pds_core.Routing.{
  Routed, mapping, bad_schema, pds2_schema, ModuleWorkRef, RouteLocator, ModuleRecordRef,
  validate_module_work_ref, make_module_work_ref, validate_route_locator, make_route_locator,
  validate_module_record_ref, make_module_record_ref, require_string, string_item,
  require_exact_mapping, module_work_ref_keys, route_locator_keys, module_record_ref_keys,
}

unfoldable pub module_work_ref_to_dict : ModuleWorkRef → Routed Value
module_work_ref_to_dict value = do
  w ← validate_module_work_ref value
  ok (
      dict (
        field (lit "module_id") (str w.module_id)
          (field (lit "class_id") (str w.class_id) (field (lit "work_id") (str w.work_id) end))))

-- `ModuleWorkRef(module_id=…, class_id=…, work_id=…)` from a mapping.
unfoldable pub work_from_fields : Fields → Routed ModuleWorkRef
work_from_fields fs = do
  m ← string_item fs "module_id"
  c ← string_item fs "class_id"
  w ← string_item fs "work_id"
  make_module_work_ref m c w

unfoldable pub module_work_ref_from_dict : Value → Routed ModuleWorkRef
module_work_ref_from_dict v = do
  fs ← require_exact_mapping v module_work_ref_keys
  work_from_fields fs

unfoldable pub route_locator_to_dict : RouteLocator → Routed Value
route_locator_to_dict value = do
  l ← validate_route_locator value
  ok (
      dict (
        field (lit "schema") (str l.schema) (
          field (lit "module_id") (str l.module_id) (
            field (lit "class_id") (str l.class_id) (
              field (lit "work_id") (str l.work_id)
                (field (lit "route_id") (str l.route_id) end))))))

unfoldable pub route_locator_from_dict : Value → Routed RouteLocator
route_locator_from_dict v = do
  fs ← require_exact_mapping v route_locator_keys
  s ← string_item fs "schema"
  guard (text_eq s pds2_schema) bad_schema
  w ← work_from_fields fs
  r ← string_item fs "route_id"
  make_route_locator pds2_schema w r

unfoldable pub optional_value : Option Text → Value
optional_value none = null
optional_value (some s) = str s

unfoldable pub optional_string : Value → String → Routed (Option Text)
optional_string null name = ok none
optional_string v name = do s ← require_string v name; ok (some s)

unfoldable pub module_record_ref_to_dict : ModuleRecordRef → Routed Value
unfolding optional_value
module_record_ref_to_dict value = do
  r ← validate_module_record_ref value
  ok (
      dict (
        field (lit "module_id") (str r.module_id) (
          field (lit "record_kind") (str r.record_kind) (
            field (lit "record_id") (str r.record_id)
              (field (lit "contract_version") (optional_value r.contract_version) end)))))

unfoldable pub module_record_ref_from_dict : Value → Routed ModuleRecordRef
unfolding optional_string
module_record_ref_from_dict v = do
  fs ← require_exact_mapping v module_record_ref_keys
  given ← reraise mapping (item (lit "contract_version") fs)
  version ← optional_string given "contract_version"
  m ← string_item fs "module_id"
  k ← string_item fs "record_kind"
  r ← string_item fs "record_id"
  make_module_record_ref m k r version
