-- ===== src/Examples/Pages.antt =====
-- Pages that are dispatched to a module which counts the pages that it handles.
use pds_core.Base.{
  zero, false, ◌⊎◌, ◌≡◌, refl, ◌≢◌, ℕ, suc, none, [], ◌∷◌, Text, lit, Outcome, ok, err, strip,
  text_eq, lower,
}
use pds_core.Json.{ℤ, pos, int_ltb}
use pds_core.Dict.{get, put}
use pds_core.Identifiers.{validate_identifier, identifier_match}
use pds_core.Routing.{
  RouteLocator, validate_route_locator, validate_module_work_ref, route_identifier,
  lowercase_identifier,
}
use pds_core.Routing.Freezing.{FrozenFields}
use pds_core.Modules.{
  register, validate_module_profile, validate_display_name, validate_members,
  validate_frozen_identifiers, validate_frozen_dispatch_statuses, RouteResolution,
  already_registered, ModuleProfile, ModuleRegistry, validate_module_id, require, registered,
}
use pds_core.Modules.Dispatch.{
  DispatchError, escaped, of_storage, RouteDispatchRequest, RouteDispatchSuccess,
  validate_dispatch_request, registry_error, check_preload_compatibility,
  check_registration_compatibility, admit, handled, handle, after_validator, validate_registration,
  run_module, dispatch_route, outcome_of, append_outcome, dispatch_routes,
}
use pds_core.Modules.Dispatch.Admitted.{IsAdmitted, dispatch_route-IsAdmitted}
use pds_core.Modules.Dispatch.Escapes.{dispatch_route-ne-escaped}
use pds_core.Modules.Dispatch.Batches.{Completes, Stops, dispatch_routes_ends}

running : Unit {0}
unfolding int_ltb get put register validate_module_profile validate_display_name validate_members
    validate_frozen_identifiers validate_frozen_dispatch_statuses validate_identifier
    identifier_match validate_route_locator validate_module_work_ref route_identifier
    lowercase_identifier validate_module_id require registered strip text_eq lower
    validate_dispatch_request registry_error check_preload_compatibility
    check_registration_compatibility admit handled handle after_validator validate_registration
    run_module dispatch_route outcome_of append_outcome dispatch_routes
running = tt

abbrev locator : RouteLocator
locator = record {
  schema = lit "PDS2";
  work = record { module_id = lit "m1"; class_id = lit "c1"; work_id = lit "w1" };
  route_id = lit "r1";
}

abbrev resolution : RouteResolution
resolution = record {
  locator = locator;
  registration = record {
    schema_version = lit "1";
    locator = locator;
    target = record {
      module_id = lit "m1";
      record_kind = lit "work";
      record_id = lit "a";
      contract_version = none;
    };
    created_at = lit "2025-09-01T00:00:00+00:00";
    status = lit "active";
    human_fallback = lit "Page 1";
    module_details = FrozenFields.end;
  };
  class_root = lit "c1" ∷ [];
  module_root = lit "c1" ∷ lit "m1" ∷ [];
  work_root = lit "c1" ∷ lit "m1" ∷ lit "w1" ∷ [];
}

abbrev resolve : RouteLocator → ℕ → Outcome Text RouteResolution
resolve l calls = ok resolution

-- The handler counts its calls and returns the page number.
abbrev profile : ModuleProfile ℕ Text ℤ Text
profile = record {
  module_id = lit "m1";
  display_name = lit "Module";
  supported_core_routing_contract_versions = lit "1" ∷ [];
  supported_qr_schemas = lit "PDS2" ∷ [];
  supported_route_registration_schema_versions = lit "1" ∷ [];
  dispatchable_route_statuses = lit "active" ∷ [];
  route_handler = λ r scan page calls. (ok page, suc calls);
  registration_validator = none;
}

abbrev registry : ModuleRegistry ℕ Text ℤ Text
registry = (lit "m1", profile) ∷ []

abbrev no_profiles : (W S R X : Type 0) → ModuleRegistry W S R X
no_profiles W S R X = []

abbrev page : ℤ → RouteDispatchRequest Text
page n = record { locator = locator; retained_source = lit "scan"; source_page_number = n }

abbrev done : ℤ → RouteDispatchSuccess ℕ Text ℤ Text
done n = record { request = page n; profile = profile; resolution = resolution; module_result = n }

abbrev dispatch :
    RouteDispatchRequest Text
    → ℕ
    → Outcome (DispatchError Text Text) (RouteDispatchSuccess ℕ Text ℤ Text) × ℕ
dispatch = dispatch_route ℕ Text ℤ Text Text resolve registry

dispatched : (dispatch (page (pos 3)) 0).0 ≡ ok (done (pos 3))
unfolding running
dispatched = refl

dispatch_route-IsAdmitted_example :
    Path (RouteDispatchRequest Text) (page (pos 3)) (page (pos 3))
    × IsAdmitted ℕ Text ℤ Text Text (λ l. resolve l 0) registry (page (pos 3)) profile resolution
dispatch_route-IsAdmitted_example =
    dispatch_route-IsAdmitted ℕ Text ℤ Text Text resolve registry (page (pos 3)) 0 (done (pos 3))
      dispatched

dispatch_route-ne-escaped_example : (dispatch (page (pos 3)) 0).0 ≢ err (escaped already_registered)
dispatch_route-ne-escaped_example =
    dispatch_route-ne-escaped ℕ Text ℤ Text Text resolve registry (page (pos 3)) 0
      already_registered

-- The storage raises what is not caught, once a page was handled.
abbrev broken : RouteLocator → ℕ → Outcome Text RouteResolution
broken l zero = ok resolution
broken l (suc calls) = err (lit "ValueError")

dispatch_routes_ends_example :
    Completes ℕ Text ℤ Text Text
      (λ x. false)
      broken
      registry
      (page (pos 0) ∷ page (pos 3) ∷ page (pos 4) ∷ [])
      0
    ⊎ Stops ℕ Text ℤ Text Text
        (λ x. false)
        broken
        registry
        (page (pos 0) ∷ page (pos 3) ∷ page (pos 4) ∷ [])
        0
dispatch_routes_ends_example =
    dispatch_routes_ends ℕ Text ℤ Text Text (λ x. false) broken registry
      (page (pos 0) ∷ page (pos 3) ∷ page (pos 4) ∷ []) 0

stopped :
    dispatch_routes ℕ Text ℤ Text Text
      (λ x. false)
      broken
      registry
      (page (pos 3) ∷ page (pos 4) ∷ page (pos 5) ∷ [])
      0
    ≡ (err (of_storage (lit "ValueError")), 1)
unfolding running
stopped = refl

registers : register profile (no_profiles ℕ Text ℤ Text) ≡ ok registry
unfolding running
registers = refl
