-- ===== src/Modules/Dispatch/Accepted.antt =====
-- A request that meets every condition reaches the code of its module.
use pds_core.Base.{◌≡◌, refl, Outcome, ok, text_eq_iff, Decides-ok}
use pds_core.Routing.{RouteLocator}
use pds_core.Routing.Laws.{validate_route_locator-Decides}
use pds_core.Modules.{RouteResolution, ModuleProfile, ModuleRegistry, registered}
use pds_core.Modules.Dispatch.{
  RouteDispatchRequest, validate_dispatch_request, check_preload_compatibility,
  check_registration_compatibility, admit,
}
use pds_core.Modules.Dispatch.Admitted.{IsAdmitted, require-lowercase}

module _ (W S R X P : Type 0) (resolve : RouteLocator → Outcome P RouteResolution)
    (registry : ModuleRegistry W S R X) where
  pub IsAdmitted-admit :
      (q : RouteDispatchRequest S) (p : ModuleProfile W S R X) (found : RouteResolution)
      → IsAdmitted W S R X P resolve registry q p found
      → admit W S R X P resolve registry q ≡ ok (p, found)
  unfolding admit validate_dispatch_request check_preload_compatibility
      check_registration_compatibility registered
  IsAdmitted-admit q p found v =
      rw
        (
          Decides-ok _ q.locator _ (validate_route_locator-Decides q.locator) v.locator,
          v.page,
          require-lowercase W S R X P resolve registry q.locator.module_id v.locator.1.0,
          v.owner,
          v.contract,
          v.schema,
          v.resolved,
          (text_eq_iff _ _).1 v.owned,
          (text_eq_iff _ _).1 v.registered,
          (text_eq_iff _ _).1 v.targeted,
          v.version,
          v.status,
        )
        refl
