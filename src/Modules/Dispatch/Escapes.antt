-- ===== src/Modules/Dispatch/Escapes.antt =====
-- Which exceptions leave a dispatch.
use mathlib.Core.Path.{subst}
use pds_core.Base.{
  err-inj, ◌≡◌, refl, sym, ap, ◌≢◌, Bool, true, false, ◌&&◌, Option, none, some, ok, err, Outcome,
  ◌>>=◌, ◌>>◌, guard, reraise, elem, text_eq,
}
use pds_core.Json.{pos, int_ltb}
use pds_core.Dict.{get}
use pds_core.Routing.{RouteLocator, validate_route_locator}
use pds_core.Modules.{
  RouteResolution, RegistryError, core_routing_contract_version, ModuleProfile, ModuleRegistry,
  require, registered, RouteRegistration,
}
use pds_core.Modules.Dispatch.{
  DispatchError, escaped, RouteDispatchRequest, Dispatched, validate_dispatch_request,
  registry_error, check_preload_compatibility, check_registration_compatibility, admit, handled,
  handle, after_validator, validate_registration, run_module, dispatch_route, bad_request, bad_page,
  no_core_contract, unresolved, other_module, no_registration_schema, RoutingModelError,
  not_dispatchable, no_qr_schema,
}
use pds_core.Modules.Dispatch.Admitted.{require-lowercase, validate_dispatch_request-inv}

module _ (W S R X P : Type 0) (resolve : RouteLocator → Outcome P RouteResolution)
    (registry : ModuleRegistry W S R X) where
  -- The exception is none that the batch would not catch.
  abbrev Caught : {A : Type 0} → Dispatched P X A → Type 0
  Caught {A} m = (e : RegistryError) → ¬ (Path (Dispatched P X A) m (err (escaped e)))

  Caught-bind :
      {A B : Type 0} (m : Dispatched P X A) (f : A → Dispatched P X B)
      → Caught m
      → ((a : A) → m ≡ ok a → Caught (f a))
      → Caught (m >>= f)
  Caught-bind (ok a) f c h = h a refl
  Caught-bind {A} {B} (err x) f c h = λ e k. c e (ap err (err-inj k))

  Caught-guard :
      (b : Bool) (x : DispatchError P X)
      → ((e : RegistryError) → x ≢ escaped e)
      → Caught (guard b x)
  Caught-guard true x h = λ e k. cc
  Caught-guard false x h = λ e k. h e (err-inj k)

  Caught-check :
      {A : Type 0} (b : Bool) (x : DispatchError P X) (k : Dispatched P X A)
      → ((e : RegistryError) → x ≢ escaped e)
      → Caught k
      → Caught (guard b x >> k)
  Caught-check true x k h c = c
  Caught-check false x k h c = λ e f. h e (err-inj f)

  Caught-registered :
      (o : Option (ModuleProfile W S R X))
      → Caught (reraise (registry_error W S R X P) (registered o))
  unfolding registered registry_error
  Caught-registered none = λ e k. cc
  Caught-registered (some p) = λ e k. cc

  Caught-request : (q : RouteDispatchRequest S) → Caught (validate_dispatch_request W S R X P q)
  unfolding validate_dispatch_request
  Caught-request q =
      Caught-bind (reraise bad_request (validate_route_locator q.locator)) _
        (located (validate_route_locator q.locator))
        (λ _ _.
          Caught-bind (guard (int_ltb (pos 0) q.source_page_number) bad_page) _
            (Caught-guard _ bad_page (λ e k. cc)) (λ _ _ e k. cc))
    where
      located : (m : Outcome RoutingModelError RouteLocator) → Caught (reraise bad_request m)
      located (ok l) = λ e k. cc
      located (err x) = λ e k. cc

  Caught-resolved : (m : Outcome P RouteResolution) → Caught (reraise unresolved m)
  Caught-resolved (ok l) = λ e k. cc
  Caught-resolved (err x) = λ e k. cc

  Caught-preload :
      (p : ModuleProfile W S R X) (q : RouteDispatchRequest S)
      → Caught (check_preload_compatibility W S R X P p q)
  unfolding check_preload_compatibility
  Caught-preload p q =
      Caught-check (elem core_routing_contract_version p.supported_core_routing_contract_versions)
        no_core_contract _ (λ e k. cc)
        (Caught-guard (elem q.locator.schema p.supported_qr_schemas) no_qr_schema (λ e k. cc))

  Caught-registration :
      (p : ModuleProfile W S R X) (q : RouteDispatchRequest S) (found : RouteResolution)
      → Caught (check_registration_compatibility W S R X P p q found)
  unfolding check_registration_compatibility
  Caught-registration p q found =
      Caught-check
        (text_eq q.locator.module_id p.module_id
          && text_eq found.registration.locator.module_id p.module_id
          && text_eq found.registration.target.module_id p.module_id)
        other_module _ (λ e k. cc)
        (Caught-check
          (elem found.registration.schema_version p.supported_route_registration_schema_versions)
          no_registration_schema _ (λ e k. cc)
          (Caught-guard (elem found.registration.status p.dispatchable_route_statuses)
            not_dispatchable (λ e k. cc)))

  Caught-admit : (q : RouteDispatchRequest S) → Caught (admit W S R X P resolve registry q)
  unfolding admit
  Caught-admit q =
      Caught-bind (validate_dispatch_request W S R X P q) _ (Caught-request q) (λ k asked.
        let (same, located, _) = validate_dispatch_request-inv W S R X P resolve registry q asked in
        Caught-bind (reraise (registry_error W S R X P) (require registry k.locator.module_id)) _
          (subst
            (λ (x : RouteDispatchRequest S).
              Caught (reraise (registry_error W S R X P) (require registry x.locator.module_id)))
            (sym same)
            (rw (require-lowercase W S R X P resolve registry q.locator.module_id located.1.0)
              (Caught-registered (get q.locator.module_id registry))))
          (λ p _.
            Caught-bind (check_preload_compatibility W S R X P p k) _ (Caught-preload p k) (λ _ _.
              Caught-bind (reraise unresolved (resolve k.locator)) _
                (Caught-resolved (resolve k.locator))
                (λ found _.
                  Caught-bind (check_registration_compatibility W S R X P p k found) _
                    (Caught-registration p k found) (λ _ _ e h. cc)))))

  Caught-handled :
      (q : RouteDispatchRequest S) (p : ModuleProfile W S R X) (found : RouteResolution)
      (r : Outcome X R × W)
      → Caught (handled W S R X P q p found r).0
  unfolding handled
  Caught-handled q p found (err x, w) = λ e k. cc
  Caught-handled q p found (ok x, w) = λ e k. cc

  Caught-after_validator :
      (q : RouteDispatchRequest S) (p : ModuleProfile W S R X) (found : RouteResolution)
      (r : Outcome X Bool × W)
      → Caught (after_validator W S R X P q p found r).0
  unfolding after_validator handle
  Caught-after_validator q p found (err x, w) = λ e k. cc
  Caught-after_validator q p found (ok false, w) = λ e k. cc
  Caught-after_validator q p found (ok true, w) = Caught-handled q p found _

  Caught-validate_registration :
      (q : RouteDispatchRequest S) (p : ModuleProfile W S R X) (found : RouteResolution)
      (o : Option (RouteRegistration → W → Outcome X Bool × W)) (w : W)
      → Caught (validate_registration W S R X P q p found o w).0
  unfolding validate_registration handle
  Caught-validate_registration q p found none w = Caught-handled q p found _
  Caught-validate_registration q p found (some f) w = Caught-after_validator q p found _

  run_module-ne-escaped :
      (q : RouteDispatchRequest S) (w : W) (e : RegistryError)
      → (run_module W S R X P q w (admit W S R X P resolve registry q)).0 ≢ err (escaped e)
  unfolding run_module
  run_module-ne-escaped q w e = ran (admit W S R X P resolve registry q) (Caught-admit q) e
    where
      ran :
          (m : Dispatched P X (ModuleProfile W S R X × RouteResolution))
          → Caught m
          → Caught (run_module W S R X P q w m).0
      ran (err x) c = λ d k. c d (ap err (err-inj k))
      ran (ok (p, found)) c = Caught-validate_registration q p found p.registration_validator w

module _ (W S R X P : Type 0) (resolve : RouteLocator → W → Outcome P RouteResolution)
    (registry : ModuleRegistry W S R X) where
  -- No exception of the registry leaves a dispatch but that of an unsupported module, which the
  -- batch catches: the module id of a valid locator is one that the registry accepts.
  pub dispatch_route-ne-escaped :
      (q : RouteDispatchRequest S) (w : W) (e : RegistryError)
      → (dispatch_route W S R X P resolve registry q w).0 ≢ err (escaped e)
  unfolding dispatch_route
  dispatch_route-ne-escaped q w e =
      run_module-ne-escaped W S R X P (λ l. resolve l w) registry q w e
