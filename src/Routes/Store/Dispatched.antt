-- ===== src/Routes/Store/Dispatched.antt =====
-- Dispatch over the stored registrations: a page whose registration was written reaches its module.
use mathlib.Core.Path.{subst}
use pds_core.Base.{Bool, false, List, Outcome, ◌≡◌, refl, sym, ◌∙◌, ap, true, some, ok, elem}
use pds_core.Json.{pos, int_ltb}
use pds_core.Time.{IsoText}
use pds_core.Dict.{get}
use pds_core.Files.{FilePath, Files}
use pds_core.Routing.{RouteLocator}
use pds_core.Routing.Laws.{IsLocator}
use pds_core.Modules.{
  RouteRegistration, RouteResolution, ModuleProfile, ModuleRegistry, core_routing_contract_version,
}
use pds_core.Modules.Dispatch.{
  RouteDispatchRequest, RouteDispatchSuccess, Dispatched, Uncaught, RouteDispatchOutcome,
  dispatch_routes, run_module, validate_registration, dispatch_route,
}
use pds_core.Modules.Dispatch.Admitted.{IsAdmitted}
use pds_core.Modules.Dispatch.Accepted.{IsAdmitted-admit}
use pds_core.Routes.Store.{
  RegistrationStoreError, bad_path, undecoded, Kept, RouteDisk, write_route_registration,
  resolve_route_registration,
}
use pds_core.Routes.Store.Written.{write_route_registration-ok}
use pds_core.Routes.Store.Resolved.{
  prepare_registration-inv, resolution_of, write_route_registration-resolve,
}

-- The `except` of `dispatch_routes`, for the exceptions of the stored registrations.
unfoldable pub is_caught : RegistrationStoreError → Bool
is_caught (bad_path e) = false
is_caught undecoded = false
is_caught _ = true

-- `M` is what the modules keep beside the stored registrations.
module _ (iso : IsoText) (M S R X : Type 0) where
  -- The `resolve_route_registration` that a dispatch calls.
  abbrev pub resolve_stored : RouteDisk → FilePath → RouteLocator → Files × M → Kept RouteResolution
  resolve_stored disk root l w = resolve_route_registration iso disk root l w.0

  abbrev pub dispatch_stored :
      RouteDisk
      → FilePath
      → ModuleRegistry (Files × M) S R X
      → RouteDispatchRequest S
      → Files × M
      → Dispatched RegistrationStoreError X (RouteDispatchSuccess (Files × M) S R X) × (Files × M)
  dispatch_stored disk root =
      dispatch_route (Files × M) S R X RegistrationStoreError (resolve_stored disk root)

  abbrev pub dispatch_stored_routes :
      RouteDisk
      → FilePath
      → ModuleRegistry (Files × M) S R X
      → List (RouteDispatchRequest S)
      → Files × M
      → Outcome
          (Uncaught RegistrationStoreError)
          (List (RouteDispatchOutcome (Files × M) S R X RegistrationStoreError))
        × (Files × M)
  dispatch_stored_routes disk root =
      dispatch_routes (Files × M) S R X RegistrationStoreError is_caught (resolve_stored disk root)

  -- The profile that a registry holds for the module accepts the request and the registration.
  pub record IsCompatible (registry : ModuleRegistry (Files × M) S R X) (q : RouteDispatchRequest S)
      (r : RouteRegistration) (p : ModuleProfile (Files × M) S R X) : Type 0 where
    pub owner : get r.locator.module_id registry ≡ some p
    pub owned : r.locator.module_id ≡ p.module_id
    pub contract :
        elem core_routing_contract_version p.supported_core_routing_contract_versions ≡ true
    pub schema : elem r.locator.schema p.supported_qr_schemas ≡ true
    pub version : elem r.schema_version p.supported_route_registration_schema_versions ≡ true
    pub status : elem r.status p.dispatchable_route_statuses ≡ true

  -- A page is dispatched as soon as its route is registered: where the write of a registration
  -- succeeded, its file can be read, the page has a positive number and the profile of the module is
  -- compatible, the dispatch runs the validator of the module and then its handler, on that very
  -- registration and on the roots of its class, module and work.
  pub dispatch_stored-write :
      (disk : RouteDisk) (root : FilePath) (r : RouteRegistration) (fs : Files) (path : FilePath)
      (m : M) (registry : ModuleRegistry (Files × M) S R X) (p : ModuleProfile (Files × M) S R X)
      (q : RouteDispatchRequest S)
      → disk.reads ≡ true
      → (write_route_registration iso disk root r fs).0 ≡ ok path
      → q.locator ≡ r.locator
      → int_ltb (pos 0) q.source_page_number ≡ true
      → IsCompatible registry q r p
      → dispatch_stored disk root registry q ((write_route_registration iso disk root r fs).1, m)
        ≡ validate_registration
            (Files × M)
            S
            R
            X
            RegistrationStoreError
            q
            p
            (resolution_of root r)
            p.registration_validator
            ((write_route_registration iso disk root r fs).1, m)
  unfolding dispatch_route run_module
  dispatch_stored-write disk root r fs path m registry p q readable written asked paged v =
      let (_, prepared, _, _) = write_route_registration-ok iso disk root r fs path written in
      let (valid, _, _) = prepare_registration-inv iso root r path _ prepared in
      let w : Files × M = ((write_route_registration iso disk root r fs).1, m) in
      let admitted : IsAdmitted (Files × M) S R X RegistrationStoreError
          (λ l. resolve_stored disk root l w) registry q p (resolution_of root r) =
        record {
          locator = subst IsLocator (sym asked) valid.0.located;
          page = paged;
          owner = ap (λ (l : RouteLocator). get l.module_id registry) asked ∙ v.owner;
          contract = v.contract;
          schema = ap (λ (l : RouteLocator). elem l.schema p.supported_qr_schemas) asked ∙ v.schema;
          resolved =
              ap (λ l. resolve_stored disk root l w) asked
              ∙ write_route_registration-resolve iso disk root r fs path readable written;
          owned = ap (λ (l : RouteLocator). l.module_id) asked ∙ v.owned;
          registered = v.owned;
          targeted = valid.0.of_module ∙ v.owned;
          version = v.version;
          status = v.status;
        } in
      rw
        (IsAdmitted-admit (Files × M) S R X RegistrationStoreError
          (λ l. resolve_stored disk root l w) registry q p (resolution_of root r) admitted)
        refl
