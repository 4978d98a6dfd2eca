-- ===== src/Modules/Dispatch.antt =====
-- pds_core/module_dispatch.py: one page of a scan is dispatched to the module that owns its route,
-- and a batch of pages one after the other. `resolve` is what `resolve_route_registration` finds for
-- a locator in a state; the dispatch uses nothing else of the stored registrations.
pub mod Admitted
pub mod Accepted
pub mod Escapes
pub mod Batches
use pds_core.Base.{
  ℕ, Bool, true, false, not, ◌&&◌, Option, none, some, List, [], ◌∷◌, Text, lit, Outcome, ok, err,
  ◌>>=◌, ◌>>◌, guard, reraise, elem, leb, text_eq, if◌then◌else◌,
}
use pds_core.Json.{ℤ, pos, int_ltb}
use pds_core.Routing.{RoutingModelError, RouteLocator, validate_route_locator}
use pds_core.Modules.{
  RouteRegistration, RouteResolution, ModuleProfileError, RegistryError, profile_error,
  already_registered, unsupported, core_routing_contract_version, ModuleProfile, ModuleRegistry,
  require,
}

-- The exceptions of a dispatch. `P` are those of the stored registrations. `escaped` are the
-- exceptions of the registry that `dispatch_routes` does not catch.
pub data DispatchError (P X : Type 0) : Type 0 where
  bad_request : RoutingModelError → DispatchError P X
  bad_page : DispatchError P X
  unsupported_module : DispatchError P X
  no_core_contract no_qr_schema other_module no_registration_schema not_dispatchable :
      DispatchError P X
  validation_failed : X → DispatchError P X
  validator_returned : DispatchError P X
  handling_failed : X → DispatchError P X
  unresolved : P → DispatchError P X
  escaped : RegistryError → DispatchError P X

pub record RouteDispatchRequest (S : Type 0) : Type 0 where
  pub locator : RouteLocator
  pub retained_source : S
  pub source_page_number : ℤ

abbrev pub Dispatched : Type 0 → Type 0 → Type 0 → Type 0
Dispatched P X A = Outcome (DispatchError P X) A

pub record RouteDispatchSuccess (W S R X : Type 0) : Type 0 where
  pub request : RouteDispatchRequest S
  pub profile : ModuleProfile W S R X
  pub resolution : RouteResolution
  pub module_result : R

pub data RouteDispatchOutcome (W S R X P : Type 0) : Type 0 where
  success : RouteDispatchSuccess W S R X → RouteDispatchOutcome W S R X P
  failure : RouteDispatchRequest S → DispatchError P X → RouteDispatchOutcome W S R X P

-- An exception that ends a batch: of the registry, or of the stored registrations.
pub data Uncaught (P : Type 0) : Type 0 where
  of_registry : RegistryError → Uncaught P
  of_storage : P → Uncaught P

module _ (W S R X P : Type 0) where
  unfoldable pub validate_dispatch_request :
      RouteDispatchRequest S → Dispatched P X (RouteDispatchRequest S)
  validate_dispatch_request q = do
    reraise bad_request (validate_route_locator q.locator)
    guard (int_ltb (pos 0) q.source_page_number) bad_page
    ok q

  unfoldable pub registry_error : RegistryError → DispatchError P X
  registry_error unsupported = unsupported_module
  registry_error already_registered = escaped already_registered
  registry_error (profile_error e) = escaped (profile_error e)

  unfoldable pub check_preload_compatibility :
      ModuleProfile W S R X → RouteDispatchRequest S → Dispatched P X (Unit {0})
  check_preload_compatibility p q = do
    guard (elem core_routing_contract_version p.supported_core_routing_contract_versions)
        no_core_contract
    guard (elem q.locator.schema p.supported_qr_schemas) no_qr_schema

  unfoldable pub check_registration_compatibility :
      ModuleProfile W S R X → RouteDispatchRequest S → RouteResolution → Dispatched P X (Unit {0})
  check_registration_compatibility p q found = do
    guard
        (text_eq q.locator.module_id p.module_id
          && text_eq found.registration.locator.module_id p.module_id
          && text_eq found.registration.target.module_id p.module_id)
        other_module
    guard (elem found.registration.schema_version p.supported_route_registration_schema_versions)
        no_registration_schema
    guard (elem found.registration.status p.dispatchable_route_statuses) not_dispatchable

  -- What is tested before code of the module runs: the profile and the resolution.
  unfoldable pub admit :
      (RouteLocator → Outcome P RouteResolution)
      → ModuleRegistry W S R X
      → RouteDispatchRequest S
      → Dispatched P X (ModuleProfile W S R X × RouteResolution)
  unfolding registry_error
  admit resolve registry request = do
    q ← validate_dispatch_request request
    p ← reraise registry_error (require registry q.locator.module_id)
    check_preload_compatibility p q
    found ← reraise unresolved (resolve q.locator)
    check_registration_compatibility p q found
    ok (p, found)

  -- What becomes of the handler's result.
  unfoldable pub handled :
      RouteDispatchRequest S
      → ModuleProfile W S R X
      → RouteResolution
      → Outcome X R × W
      → Dispatched P X (RouteDispatchSuccess W S R X) × W
  handled q p found (err x, w) = (err (handling_failed x), w)
  handled q p found (ok r, w) =
      (ok (record { request = q; profile = p; resolution = found; module_result = r }), w)

  unfoldable pub handle :
      RouteDispatchRequest S
      → ModuleProfile W S R X
      → RouteResolution
      → W
      → Dispatched P X (RouteDispatchSuccess W S R X) × W
  unfolding handled
  handle q p found w =
      handled q p found (p.route_handler found q.retained_source q.source_page_number w)

  unfoldable pub after_validator :
      RouteDispatchRequest S
      → ModuleProfile W S R X
      → RouteResolution
      → Outcome X Bool × W
      → Dispatched P X (RouteDispatchSuccess W S R X) × W
  unfolding handle
  after_validator q p found (err x, w) = (err (validation_failed x), w)
  after_validator q p found (ok false, w) = (err validator_returned, w)
  after_validator q p found (ok true, w) = handle q p found w

  unfoldable pub validate_registration :
      RouteDispatchRequest S
      → ModuleProfile W S R X
      → RouteResolution
      → Option (RouteRegistration → W → Outcome X Bool × W)
      → W
      → Dispatched P X (RouteDispatchSuccess W S R X) × W
  unfolding handle after_validator
  validate_registration q p found none w = handle q p found w
  validate_registration q p found (some validator) w =
      after_validator q p found (validator found.registration w)

  unfoldable pub run_module :
      RouteDispatchRequest S
      → W
      → Dispatched P X (ModuleProfile W S R X × RouteResolution)
      → Dispatched P X (RouteDispatchSuccess W S R X) × W
  unfolding validate_registration
  run_module q w (err e) = (err e, w)
  run_module q w (ok (p, found)) = validate_registration q p found p.registration_validator w

  unfoldable pub dispatch_route :
      (RouteLocator → W → Outcome P RouteResolution)
      → ModuleRegistry W S R X
      → RouteDispatchRequest S
      → W
      → Dispatched P X (RouteDispatchSuccess W S R X) × W
  unfolding admit run_module
  dispatch_route resolve registry q w = run_module q w (admit (λ l. resolve l w) registry q)

  -- What the `for` loop appends for a request, or the exception that it does not catch. `caught` says
  -- which exceptions of the stored registrations are of a class that it names.
  unfoldable pub outcome_of :
      (P → Bool)
      → RouteDispatchRequest S
      → Dispatched P X (RouteDispatchSuccess W S R X)
      → Outcome (Uncaught P) (RouteDispatchOutcome W S R X P)
  outcome_of caught q (ok s) = ok (success s)
  outcome_of caught q (err (escaped e)) = err (of_registry e)
  outcome_of caught q (err (unresolved x)) =
      if caught x then ok (failure q (unresolved x)) else err (of_storage x)
  outcome_of caught q (err e) = ok (failure q e)

  -- The first outcome, and those of the rest with the state after them; `w` is the state before.
  unfoldable pub append_outcome :
      Outcome (Uncaught P) (RouteDispatchOutcome W S R X P)
      → W
      → Outcome (Uncaught P) (List (RouteDispatchOutcome W S R X P)) × W
      → Outcome (Uncaught P) (List (RouteDispatchOutcome W S R X P)) × W
  append_outcome (err e) w rest = (err e, w)
  append_outcome (ok o) w (err e, v) = (err e, v)
  append_outcome (ok o) w (ok os, v) = (ok (o ∷ os), v)

  unfoldable pub dispatch_routes :
      (P → Bool)
      → (RouteLocator → W → Outcome P RouteResolution)
      → ModuleRegistry W S R X
      → List (RouteDispatchRequest S)
      → W
      → Outcome (Uncaught P) (List (RouteDispatchOutcome W S R X P)) × W
  unfolding outcome_of append_outcome dispatch_route
  dispatch_routes caught resolve registry [] w = (ok [], w)
  dispatch_routes caught resolve registry (q ∷ qs) w =
      let (r, v) = dispatch_route resolve registry q w in
      append_outcome (outcome_of caught q r) v (dispatch_routes caught resolve registry qs v)
