-- ===== src/Routing.antt =====
-- pds_core/routing_models.py: the identities that a PDS2 page route names, with their validation and
-- their exact dictionary shapes. Frozen dataclasses are records; `make_…` is the constructor call
-- with its `__post_init__`. A message is told by its error constructor and the field that it names.
pub mod Laws
pub mod Shapes
pub mod RoundTrips
pub mod Freezing
pub mod Registrations
use pds_core.Base.{
  ◌&&◌, Bool, true, false, List, [], ◌∷◌, Option, none, some, String, Text, lit, Outcome, ok, err,
  ◌>>=◌, ◌>>◌, guard, reraise, elem, text_eq, lower,
}
use pds_core.Json.{Value, null, str, dict, Fields, end, field, MappingError, item, exact_mapping}
use pds_core.Identifiers.{IdentifierError, validate_identifier}

pub data RoutingModelError : Type 0 where
  identifier : IdentifierError → RoutingModelError
  mapping : MappingError → RoutingModelError
  not_lowercase not_string : String → RoutingModelError
  bad_schema bad_schema_version module_mismatch locator_mismatch : RoutingModelError
  bad_timestamp bad_status bad_fallback bad_details : RoutingModelError

abbrev pub Routed : Type 0 → Type 0
Routed A = Outcome RoutingModelError A

abbrev pub pds2_schema : Text
pds2_schema = lit "PDS2"

pub record ModuleWorkRef : Type 0 where
  pub module_id : Text
  pub class_id : Text
  pub work_id : Text

-- `a == b`
unfoldable pub work_eq : ModuleWorkRef → ModuleWorkRef → Bool
work_eq a b =
    text_eq a.module_id b.module_id && text_eq a.class_id b.class_id && text_eq a.work_id b.work_id

-- `RouteLocator` repeats the three names of its work as properties.
pub record RouteLocator : Type 0 where
  pub schema : Text
  pub work : ModuleWorkRef
  pub open work use *
  pub route_id : Text

pub record ModuleRecordRef : Type 0 where
  pub module_id : Text
  pub record_kind : Text
  pub record_id : Text
  pub contract_version : Option Text

unfoldable pub route_identifier : String → Value → Routed Text
route_identifier name v = reraise identifier (validate_identifier name v)

unfoldable pub lowercase_identifier : String → Value → Routed Text
lowercase_identifier name v = do
  s ← route_identifier name v
  guard (text_eq s (lower s)) (not_lowercase name)
  ok s

unfoldable pub validate_module_work_ref : ModuleWorkRef → Routed ModuleWorkRef
validate_module_work_ref w = do
  lowercase_identifier "module_id" (str w.module_id)
  route_identifier "class_id" (str w.class_id)
  route_identifier "work_id" (str w.work_id)
  ok w

unfoldable pub make_module_work_ref : Text → Text → Text → Routed ModuleWorkRef
make_module_work_ref m c w =
    validate_module_work_ref (record { module_id = m; class_id = c; work_id = w })

unfoldable pub validate_route_locator : RouteLocator → Routed RouteLocator
validate_route_locator l = do
  guard (text_eq l.schema pds2_schema) bad_schema
  validate_module_work_ref l.work
  route_identifier "route_id" (str l.route_id)
  ok l

unfoldable pub make_route_locator : Text → ModuleWorkRef → Text → Routed RouteLocator
make_route_locator s w r = validate_route_locator (record { schema = s; work = w; route_id = r })

optional_identifier : String → Option Text → Routed (Option Text)
optional_identifier name none = ok none
optional_identifier name (some s) = do route_identifier name (str s); ok (some s)

unfoldable pub validate_module_record_ref : ModuleRecordRef → Routed ModuleRecordRef
unfolding optional_identifier
validate_module_record_ref r = do
  lowercase_identifier "module_id" (str r.module_id)
  lowercase_identifier "record_kind" (str r.record_kind)
  route_identifier "record_id" (str r.record_id)
  optional_identifier "contract_version" r.contract_version
  ok r

unfoldable pub make_module_record_ref : Text → Text → Text → Option Text → Routed ModuleRecordRef
make_module_record_ref m k r v =
    validate_module_record_ref
      (record { module_id = m; record_kind = k; record_id = r; contract_version = v })

unfoldable pub require_string : Value → String → Routed Text
require_string (str s) name = ok s
require_string _ name = err (not_string name)

-- `_require_string(mapping["name"], "name")`
unfoldable pub string_item : Fields → String → Routed Text
unfolding require_string
string_item fs name = do v ← reraise mapping (item (lit name) fs); require_string v name

unfoldable pub require_exact_mapping : Value → List Text → Routed Fields
require_exact_mapping v expected = reraise mapping (exact_mapping v expected)

abbrev pub module_work_ref_keys : List Text
module_work_ref_keys = lit "module_id" ∷ lit "class_id" ∷ lit "work_id" ∷ []

abbrev pub route_locator_keys : List Text
route_locator_keys = lit "schema" ∷ lit "route_id" ∷ module_work_ref_keys

abbrev pub module_record_ref_keys : List Text
module_record_ref_keys =
    lit "module_id" ∷ lit "record_kind" ∷ lit "record_id" ∷ lit "contract_version" ∷ []
