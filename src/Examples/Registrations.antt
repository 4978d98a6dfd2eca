-- ===== src/Examples/Registrations.antt =====
-- A route that is registered, resolved and dispatched.
use pds_core.Base.{
  ◌≡◌, refl, ◌≢◌, ℕ, suc, true, false, none, some, List, [], ◌∷◌, ◌++◌, Text, lit, ok, err, ◌>>=◌,
  strip, text_eq, lower, all,
}
use pds_core.Json.{ℤ, pos, int_ltb}
use pds_core.Dict.{get, put}
use pds_core.Files.{garbage, FilePath, Files, path_eq, find_path, remove_path, is_present}
use pds_core.Identifiers.{validate_identifier, identifier_match}
use pds_core.Pds2.{split}
use pds_core.Routing.{
  ModuleWorkRef, RouteLocator, work_eq, validate_route_locator, validate_module_work_ref,
  validate_module_record_ref, route_identifier, lowercase_identifier,
}
use pds_core.Routing.Laws.{IsWork}
use pds_core.Routing.Shapes.{
  module_work_ref_to_dict, route_locator_to_dict, module_record_ref_to_dict, optional_value,
}
use pds_core.Routing.Freezing.{Frozen, FrozenFields, is_finite, freeze_value, thaw_value}
use pds_core.Routing.Registrations.{
  RouteRegistration, validate_human_fallback, validate_iso_timestamp, validate_registration_fields,
  validate_route_registration, route_registration_to_dict, route_registration_from_dict, locator_eq,
}
use pds_core.Routing.Registrations.RoundTrip.{IsRegistration, route_registration_round_trip}
use pds_core.Routes.{
  class_dir, class_modules_dir, class_module_dir, module_work_collection_dir, module_work_dir,
  module_routes_dir, route_registration_path, is_anchored, slashes, relative_to, below,
  relative_components, safe_module_work_descendant,
}
use pds_core.Routes.Distinct.{work_parts, route_registration_path_inj}
use pds_core.Routes.Safe.{
  is_component, safe_module_work_descendant-IsBelow, safe_module_work_descendant_inj,
}
use pds_core.Routes.Store.{
  RegistrationStoreError, unwritten, RouteDisk, remove_incomplete, create_file,
  prepare_registration, write_prepared, write_route_registration, resolve_route_registration,
}
use pds_core.Routes.Store.Written.{
  write_route_registration-present, write_route_registration-failed,
}
use pds_core.Routes.Store.Resolved.{
  resolution_of, write_route_registration-resolve, resolve_route_registration-IsRegistration,
}
use pds_core.Routes.Store.Exclusive.{write_route_registration-again}
use pds_core.Routes.Store.Dispatched.{dispatch_stored, IsCompatible, dispatch_stored-write}
use pds_core.Modules.{ModuleProfile, ModuleRegistry}
use pds_core.Modules.Dispatch.{RouteDispatchRequest, validate_registration}
use pds_core.Examples.{plain}

running : Unit {0}
unfolding int_ltb get put validate_identifier identifier_match validate_route_locator
    validate_module_work_ref work_eq validate_module_record_ref route_identifier
    lowercase_identifier strip text_eq lower path_eq find_path remove_path is_present
    module_work_ref_to_dict route_locator_to_dict module_record_ref_to_dict optional_value is_finite
    freeze_value thaw_value validate_human_fallback validate_iso_timestamp
    validate_registration_fields validate_route_registration route_registration_to_dict locator_eq
    class_dir class_modules_dir class_module_dir module_work_collection_dir module_work_dir
    module_routes_dir route_registration_path is_anchored slashes relative_to below
    relative_components safe_module_work_descendant split remove_incomplete create_file
    prepare_registration write_prepared write_route_registration
running = tt

abbrev work : ModuleWorkRef
work = record { module_id = lit "m1"; class_id = lit "c1"; work_id = lit "w1" }

abbrev locator : RouteLocator
locator = record { schema = lit "PDS2"; work = work; route_id = lit "r1" }

-- The time of creation is a text that `plain` reads.
abbrev registration : Text → RouteRegistration
registration status = record {
  schema_version = lit "1";
  locator = locator;
  target = record {
    module_id = lit "m1";
    record_kind = lit "sheet";
    record_id = lit "a";
    contract_version = none;
  };
  created_at = 10 ∷ 0 ∷ [];
  status = status;
  human_fallback = lit "Page 1";
  module_details = FrozenFields.field (lit "page") (Frozen.int (pos 1)) FrozenFields.end;
}

abbrev active : RouteRegistration
active = registration (lit "active")

abbrev root : FilePath
root = lit "workspace" ∷ []

abbrev path : FilePath
path =
    lit "workspace"
    ∷ lit "classes"
    ∷ lit "c1"
    ∷ lit "modules"
    ∷ lit "m1"
    ∷ lit "work"
    ∷ lit "w1"
    ∷ lit "routes"
    ∷ lit "r1.json"
    ∷ []

abbrev disk : RouteDisk
disk = record { makes_folder = true; creates = true; writes = true; removes = true; reads = true }

abbrev full : RouteDisk
full = record disk { writes = false }

-- Another file of the workspace.
abbrev before : Files
before = ((lit "workspace" ∷ lit "notes.json" ∷ []), garbage) ∷ []

abbrev after : Files
after = (write_route_registration plain disk root active before).1

written : (write_route_registration plain disk root active before).0 ≡ ok path
unfolding running
written = refl

unwritten_full : (write_route_registration plain full root active before).0 ≡ err unwritten
unfolding running
unwritten_full = refl

noted : find_path (lit "workspace" ∷ lit "notes.json" ∷ []) before ≡ some garbage
unfolding running
noted = refl

write_route_registration-resolve_example :
    resolve_route_registration plain disk root locator after ≡ ok (resolution_of root active)
write_route_registration-resolve_example =
    write_route_registration-resolve plain disk root active before path refl written

write_route_registration-present_example :
    find_path (lit "workspace" ∷ lit "notes.json" ∷ []) after ≡ some garbage
write_route_registration-present_example =
    write_route_registration-present plain disk root active before
      (lit "workspace" ∷ lit "notes.json" ∷ []) garbage noted

write_route_registration-failed_example :
    find_path path (write_route_registration plain full root active before).1
    ≡ find_path path before
write_route_registration-failed_example =
    write_route_registration-failed plain full root active before unwritten refl unwritten_full path

write_route_registration-again_example :
    (e : RegistrationStoreError) × (write_route_registration plain disk root
        (registration (lit "retired"))
        after
      ≡ (err e, after))
write_route_registration-again_example =
    write_route_registration-again plain disk disk root active (registration (lit "retired")) before
      path written refl

resolve_route_registration-IsRegistration_example :
    (r : RouteRegistration) × (r.locator ≡ locator)
    × IsRegistration plain r
    × (resolution_of root active ≡ resolution_of root r)
resolve_route_registration-IsRegistration_example =
    resolve_route_registration-IsRegistration plain disk root locator after
      (resolution_of root active)
      (write_route_registration-resolve plain disk root active before path refl written)

route_registration_round_trip_example :
    (route_registration_to_dict plain active >>= route_registration_from_dict plain)
    ≡ validate_route_registration plain active
route_registration_round_trip_example = route_registration_round_trip plain active

located : route_registration_path root locator ≡ ok path
unfolding running
located = refl

route_registration_path_inj_example : locator ≡ locator
route_registration_path_inj_example =
    route_registration_path_inj root locator locator path located located

abbrev scan_path : FilePath
scan_path =
    lit "workspace"
    ∷ lit "classes"
    ∷ lit "c1"
    ∷ lit "modules"
    ∷ lit "m1"
    ∷ lit "work"
    ∷ lit "w1"
    ∷ lit "scans"
    ∷ lit "a.png"
    ∷ []

safe : safe_module_work_descendant root work (lit "scans/a.png") ≡ ok scan_path
unfolding running
safe = refl

safe_windows : safe_module_work_descendant root work (lit "scans\\a.png") ≡ ok scan_path
unfolding running
safe_windows = refl

safe_module_work_descendant-IsBelow_example :
    IsWork work
    × ((parts : List Text) × (scan_path ≡ root ++ (work_parts work ++ parts))
        × (parts ≢ [])
        × (all is_component parts ≡ true))
safe_module_work_descendant-IsBelow_example =
    safe_module_work_descendant-IsBelow root work (lit "scans/a.png") scan_path safe

safe_module_work_descendant_inj_example : work ≡ work
safe_module_work_descendant_inj_example =
    safe_module_work_descendant_inj root work work (lit "scans/a.png") (lit "scans\\a.png")
      scan_path safe safe_windows

-- The handler counts its calls and returns the page number.
abbrev profile : ModuleProfile (Files × ℕ) Text ℤ Text
profile = record {
  module_id = lit "m1";
  display_name = lit "Module";
  supported_core_routing_contract_versions = lit "1" ∷ [];
  supported_qr_schemas = lit "PDS2" ∷ [];
  supported_route_registration_schema_versions = lit "1" ∷ [];
  dispatchable_route_statuses = lit "active" ∷ [];
  route_handler = λ r scan page w. (ok page, (w.0, suc w.1));
  registration_validator = none;
}

abbrev registry : ModuleRegistry (Files × ℕ) Text ℤ Text
registry = (lit "m1", profile) ∷ []

abbrev page : RouteDispatchRequest Text
page = record { locator = locator; retained_source = lit "scan"; source_page_number = pos 3 }

compatible : IsCompatible plain ℕ Text ℤ Text registry page active profile
unfolding running
compatible = record {
  owner = refl;
  owned = refl;
  contract = refl;
  schema = refl;
  version = refl;
  status = refl;
}

positive : int_ltb (pos 0) (pos 3) ≡ true
unfolding running
positive = refl

dispatch_stored-write_example :
    dispatch_stored plain ℕ Text ℤ Text disk root registry page (after, 0)
    ≡ validate_registration
        (Files × ℕ)
        Text
        ℤ
        Text
        RegistrationStoreError
        page
        profile
        (resolution_of root active)
        none
        (after, 0)
dispatch_stored-write_example =
    dispatch_stored-write plain ℕ Text ℤ Text disk root active before path 0 registry profile page
      refl written refl positive compatible
