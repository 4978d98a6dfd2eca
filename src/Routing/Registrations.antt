-- ===== src/Routing/Registrations.antt =====
-- `RouteRegistration` and `RouteResolution` of pds_core/routing_models.py. The details of a module are
-- frozen when a registration is made and thawed when they are read.
pub mod RoundTrip
use pds_core.Base.{
  is_control, ◌&&◌, ℕ, ◌/◌, ◌%◌, Bool, true, false, not, Option, none, some, List, [], ◌∷◌, Text,
  lit, Outcome, ok, err, ◌>>=◌, ◌>>◌, guard, reraise, elem, any, text_eq, strip, ◌==◌, leb,
}
use pds_core.Json.{
  Value, null, bool, int, float, str, list, dict, Items, nil, cons, Fields, end, field, ℤ, item,
}
use pds_core.Time.{is_aware, IsoText}
use pds_core.Files.{FilePath}
use pds_core.Routing.{
  work_eq, Routed, mapping, module_mismatch, locator_mismatch, bad_schema_version, bad_timestamp,
  bad_status, bad_fallback, bad_details, RouteLocator, ModuleRecordRef, validate_route_locator,
  validate_module_record_ref, string_item, require_exact_mapping,
}
use pds_core.Routing.Freezing.{FrozenFields, freeze_mapping, thaw_mapping}
use pds_core.Routing.Shapes.{
  route_locator_to_dict, route_locator_from_dict, module_record_ref_to_dict,
  module_record_ref_from_dict,
}

abbrev pub route_registration_statuses : List Text
route_registration_statuses =
    lit "active"
    ∷ lit "inactive"
    ∷ lit "retired"
    ∷ lit "superseded"
    ∷ lit "cancelled"
    ∷ lit "invalidated"
    ∷ []

abbrev pub route_registration_keys : List Text
route_registration_keys =
    lit "schema_version"
    ∷ lit "locator"
    ∷ lit "target"
    ∷ lit "created_at"
    ∷ lit "status"
    ∷ lit "human_fallback"
    ∷ lit "module_details"
    ∷ []

pub record RouteRegistration : Type 0 where
  pub schema_version : Text
  pub locator : RouteLocator
  pub target : ModuleRecordRef
  pub created_at : Text
  pub status : Text
  pub human_fallback : Text
  pub module_details : FrozenFields

unfoldable pub validate_human_fallback : Text → Routed (Unit {0})
validate_human_fallback s = do
  guard (not (text_eq s [])) bad_fallback
  guard (text_eq s (strip s)) bad_fallback
  guard (not (any is_control s)) bad_fallback

module _ (iso : IsoText) where
  open iso use {fromisoformat}

  unfoldable pub validate_iso_timestamp : Text → Routed (Unit {0})
  validate_iso_timestamp s = elim (fromisoformat s) [
    | none ↦ err bad_timestamp
    | some d ↦ guard (is_aware d) bad_timestamp
  ]

  unfoldable pub validate_registration_fields : RouteRegistration → Routed (Unit {0})
  validate_registration_fields r = do
    guard (text_eq r.schema_version (lit "1")) bad_schema_version
    validate_route_locator r.locator
    validate_module_record_ref r.target
    guard (text_eq r.target.module_id r.locator.module_id) module_mismatch
    validate_iso_timestamp r.created_at
    guard (elem r.status route_registration_statuses) bad_status
    validate_human_fallback r.human_fallback

  unfoldable pub validate_route_registration : RouteRegistration → Routed RouteRegistration
  validate_route_registration r = do
    validate_registration_fields r
    thaw_mapping r.module_details
    ok r

  -- The constructor call: the details are frozen after the fields are tested.
  unfoldable pub make_route_registration :
      Text → RouteLocator → ModuleRecordRef → Text → Text → Text → Fields → Routed RouteRegistration
  make_route_registration version locator target created status fallback details = do
    validate_registration_fields (record {
      schema_version = version;
      locator = locator;
      target = target;
      created_at = created;
      status = status;
      human_fallback = fallback;
      module_details = FrozenFields.end;
    })
    frozen ← freeze_mapping details
    ok (record {
      schema_version = version;
      locator = locator;
      target = target;
      created_at = created;
      status = status;
      human_fallback = fallback;
      module_details = frozen;
    })

  unfoldable pub route_registration_to_dict : RouteRegistration → Routed Value
  route_registration_to_dict value = do
    r ← validate_route_registration value
    locator ← route_locator_to_dict r.locator
    target ← module_record_ref_to_dict r.target
    details ← thaw_mapping r.module_details
    ok (
        dict (
          field (lit "schema_version") (str r.schema_version) (
            field (lit "locator") locator (
              field (lit "target") target (
                field (lit "created_at") (str r.created_at) (
                  field (lit "status") (str r.status) (
                    field (lit "human_fallback") (str r.human_fallback)
                      (field (lit "module_details") (dict details) end))))))))

  unfoldable pub details_mapping : Value → Routed Fields
  details_mapping (dict fs) = ok fs
  details_mapping _ = err bad_details

  unfoldable pub route_registration_from_dict : Value → Routed RouteRegistration
  route_registration_from_dict v = do
    fs ← require_exact_mapping v route_registration_keys
    given ← reraise mapping (item (lit "module_details") fs)
    details ← details_mapping given
    version ← string_item fs "schema_version"
    l ← reraise mapping (item (lit "locator") fs)
    locator ← route_locator_from_dict l
    t ← reraise mapping (item (lit "target") fs)
    target ← module_record_ref_from_dict t
    created ← string_item fs "created_at"
    status ← string_item fs "status"
    fallback ← string_item fs "human_fallback"
    make_route_registration version locator target created status fallback details

-- The equality of two locators.
unfoldable pub locator_eq : RouteLocator → RouteLocator → Bool
locator_eq a b = text_eq a.schema b.schema && work_eq a.work b.work && text_eq a.route_id b.route_id

pub record RouteResolution : Type 0 where
  pub locator : RouteLocator
  pub registration : RouteRegistration
  pub class_root : FilePath
  pub module_root : FilePath
  pub work_root : FilePath

-- The constructor call.
unfoldable pub make_route_resolution :
    IsoText
    → RouteLocator
    → RouteRegistration
    → FilePath
    → FilePath
    → FilePath
    → Routed RouteResolution
make_route_resolution iso locator registration class_root module_root work_root = do
  validate_route_locator locator
  validate_route_registration iso registration
  guard (locator_eq locator registration.locator) locator_mismatch
  ok (record {
    locator = locator;
    registration = registration;
    class_root = class_root;
    module_root = module_root;
    work_root = work_root;
  })
