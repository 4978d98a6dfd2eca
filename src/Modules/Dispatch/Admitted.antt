-- ===== src/Modules/Dispatch/Admitted.antt =====
-- Which requests reach the code of a module.
use mathlib.Core.Path.{subst}
use pds_core.Base.{
  ok-inj, ◌≡◌, refl, sym, ap, ◌∙◌, ◌⊎◌, inl, inr, Bool, true, false, ◌&&◌, Option, none, some, Text,
  ok, err, Outcome, ◌>>=◌, ◌>>◌, guard, reraise, reraise-eq-ok, >>=-eq-ok, guard-eq-ok, elem,
  text_eq, text_eq_iff, lower, Decides-ok, Decides-inv, Outcome-cases,
}
use pds_core.Json.{pos, int_ltb}
use pds_core.Dict.{get}
use pds_core.Identifiers.Laws.{validate_identifier-Decides}
use pds_core.Routing.{RouteLocator, validate_route_locator}
use pds_core.Routing.Laws.{IsLowercase, IsLocator, validate_route_locator-Decides}
use pds_core.Modules.{
  RouteResolution, core_routing_contract_version, ModuleProfile, ModuleRegistry, validate_module_id,
  require, registered, RouteRegistration,
}
use pds_core.Modules.Dispatch.{
  RouteDispatchRequest, Dispatched, RouteDispatchSuccess, validate_dispatch_request, registry_error,
  check_preload_compatibility, check_registration_compatibility, admit, handled, handle,
  after_validator, validate_registration, run_module, dispatch_route, bad_request, bad_page,
  no_core_contract, unresolved, other_module, no_registration_schema, not_dispatchable,
  no_qr_schema,
}

validate_module_id-ok : (s : Text) → IsLowercase s → validate_module_id s ≡ ok s
unfolding validate_module_id
validate_module_id-ok s (v, low) =
    rw
      (
        Decides-ok _ s _ (validate_identifier-Decides "module_id" s) v,
        (text_eq_iff s (lower s)).1 low,
      )
      refl

err-ne-ok : {E A : Type 0} {e : E} {a : A} → ¬ (Path (Outcome E A) (err e) (ok a))
err-ne-ok h = cc

module _ (W S R X P : Type 0) (resolve : RouteLocator → Outcome P RouteResolution)
    (registry : ModuleRegistry W S R X) where
  -- The request may be handled by the profile `p` under the registration that was found.
  pub record IsAdmitted (q : RouteDispatchRequest S) (p : ModuleProfile W S R X)
      (found : RouteResolution) : Type 0 where
    pub locator : IsLocator q.locator
    pub page : int_ltb (pos 0) q.source_page_number ≡ true
    pub owner : get q.locator.module_id registry ≡ some p
    pub contract :
        elem core_routing_contract_version p.supported_core_routing_contract_versions ≡ true
    pub schema : elem q.locator.schema p.supported_qr_schemas ≡ true
    pub resolved : resolve q.locator ≡ ok found
    pub owned : q.locator.module_id ≡ p.module_id
    pub registered : found.registration.locator.module_id ≡ p.module_id
    pub targeted : found.registration.target.module_id ≡ p.module_id
    pub version :
        elem found.registration.schema_version p.supported_route_registration_schema_versions ≡ true
    pub status : elem found.registration.status p.dispatchable_route_statuses ≡ true

  pub validate_dispatch_request-inv :
      (q : RouteDispatchRequest S) {k : RouteDispatchRequest S}
      → validate_dispatch_request W S R X P q ≡ ok k
      → (k ≡ q) × IsLocator q.locator × (int_ltb (pos 0) q.source_page_number ≡ true)
  unfolding validate_dispatch_request
  validate_dispatch_request-inv q h =
      let (l, located, h1) =
        >>=-eq-ok (reraise bad_request (validate_route_locator q.locator)) _ h in
      let (_, paged, h2) = >>=-eq-ok (guard (int_ltb (pos 0) q.source_page_number) bad_page) _ h1 in
      let (_, v) =
        Decides-inv _ q.locator _ (validate_route_locator-Decides q.locator)
          (reraise-eq-ok bad_request _ located) in
      (cc h2, v, guard-eq-ok _ bad_page paged)

  pub require-lowercase :
      (id : Text) → IsLowercase id → require registry id ≡ registered (get id registry)
  unfolding require
  require-lowercase id v = rw (validate_module_id-ok id v) refl

  registered-inv :
      (o : Option (ModuleProfile W S R X)) {p : ModuleProfile W S R X}
      → registered o ≡ ok p
      → o ≡ some p
  unfolding registered
  registered-inv none h = cc
  registered-inv (some x) h = cc

  both : (a b : Bool) → a && b ≡ true → (a ≡ true) × (b ≡ true)
  both true true h = (refl, refl)
  both true false h = cc
  both false b h = cc

  -- `admit` on a request that is valid.
  admit_valid : RouteDispatchRequest S → Dispatched P X (ModuleProfile W S R X × RouteResolution)
  admit_valid q = do
    p ← reraise (registry_error W S R X P) (require registry q.locator.module_id)
    check_preload_compatibility W S R X P p q
    found ← reraise unresolved (resolve q.locator)
    check_registration_compatibility W S R X P p q found
    ok (p, found)

  checked-IsAdmitted :
      (q : RouteDispatchRequest S) (p : ModuleProfile W S R X) (found : RouteResolution)
      {t u : Unit {0}}
      → IsLocator q.locator
      → int_ltb (pos 0) q.source_page_number ≡ true
      → get q.locator.module_id registry ≡ some p
      → check_preload_compatibility W S R X P p q ≡ ok t
      → resolve q.locator ≡ ok found
      → check_registration_compatibility W S R X P p q found ≡ ok u
      → IsAdmitted q p found
  unfolding check_preload_compatibility check_registration_compatibility
  checked-IsAdmitted q p found located paged owner preload resolved checked =
      let (_, contract, h1) =
        >>=-eq-ok
          (guard (elem core_routing_contract_version p.supported_core_routing_contract_versions)
            no_core_contract)
          _ preload in
      let (_, ids, h2) =
        >>=-eq-ok
          (guard
            (text_eq q.locator.module_id p.module_id
              && text_eq found.registration.locator.module_id p.module_id
              && text_eq found.registration.target.module_id p.module_id)
            other_module)
          _ checked in
      let (_, version, h3) =
        >>=-eq-ok
          (guard
            (elem found.registration.schema_version p.supported_route_registration_schema_versions)
            no_registration_schema)
          _ h2 in
      let (others, target) = both _ _ (guard-eq-ok _ other_module ids) in
      let (asked, stored) = both _ _ others in
      record {
        locator = located;
        page = paged;
        owner = owner;
        contract = guard-eq-ok _ no_core_contract contract;
        schema = guard-eq-ok _ no_qr_schema h1;
        resolved = resolved;
        owned = (text_eq_iff _ _).0 asked;
        registered = (text_eq_iff _ _).0 stored;
        targeted = (text_eq_iff _ _).0 target;
        version = guard-eq-ok _ no_registration_schema version;
        status = guard-eq-ok _ not_dispatchable h3;
      }

  admit_valid-IsAdmitted :
      (q : RouteDispatchRequest S) (p : ModuleProfile W S R X) (found : RouteResolution)
      → IsLocator q.locator
      → int_ltb (pos 0) q.source_page_number ≡ true
      → admit_valid q ≡ ok (p, found)
      → IsAdmitted q p found
  unfolding admit_valid
  admit_valid-IsAdmitted q p found located paged h =
      let (x, owned, h1) =
        >>=-eq-ok (reraise (registry_error W S R X P) (require registry q.locator.module_id)) _ h in
      let (t, preload, h2) = >>=-eq-ok (check_preload_compatibility W S R X P x q) _ h1 in
      let (y, resolved, h3) = >>=-eq-ok (reraise unresolved (resolve q.locator)) _ h2 in
      let (u, checked, h4) = >>=-eq-ok (check_registration_compatibility W S R X P x q y) _ h3 in
      let owner : get q.locator.module_id registry ≡ some x = registered-inv _ (
        sym (require-lowercase q.locator.module_id located.1.0)
        ∙ reraise-eq-ok (registry_error W S R X P) _ owned) in
      let pair : Path (Dispatched P X (ModuleProfile W S R X × RouteResolution)) (ok (x, y))
          (ok (p, found)) =
        h4 in
      let v =
        checked-IsAdmitted q x y located paged owner preload (reraise-eq-ok unresolved _ resolved)
          checked in
      subst (λ k. IsAdmitted q k.0 k.1) (ok-inj pair) v

  admit-IsAdmitted :
      (q : RouteDispatchRequest S) (p : ModuleProfile W S R X) (found : RouteResolution)
      → admit W S R X P resolve registry q ≡ ok (p, found)
      → IsAdmitted q p found
  unfolding admit admit_valid require
  admit-IsAdmitted q p found h =
      let (k, asked, h1) = >>=-eq-ok (validate_dispatch_request W S R X P q) _ h in
      let (same, located, paged) = validate_dispatch_request-inv q asked in
      admit_valid-IsAdmitted q p found located paged
        (subst (λ x. admit_valid x ≡ ok (p, found)) same h1)

module _ (W S R X P : Type 0) (resolve : RouteLocator → W → Outcome P RouteResolution)
    (registry : ModuleRegistry W S R X) where
  -- What a dispatch returns was admitted.
  run_module-IsAdmitted :
      (q : RouteDispatchRequest S) (w : W)
      (m : Dispatched P X (ModuleProfile W S R X × RouteResolution))
      (s : RouteDispatchSuccess W S R X)
      → (run_module W S R X P q w m).0 ≡ ok s
      → (s.request ≡ q) × (m ≡ ok (s.profile, s.resolution))
  unfolding run_module validate_registration after_validator handle handled
  run_module-IsAdmitted q w (err e) s h = cc
  run_module-IsAdmitted q w (ok (p, found)) s h = validated p.registration_validator h
    where
      ran :
          (r : Outcome X R × W)
          → (handled W S R X P q p found r).0 ≡ ok s
          → (s.request ≡ q)
            × (Path
                (Dispatched P X (ModuleProfile W S R X × RouteResolution))
                (ok (p, found))
                (ok (s.profile, s.resolution)))
      ran (err x, v) k = absurd (err-ne-ok k)
      ran (ok x, v) k =
          let same = ok-inj k in
          (
            ap (λ (t : RouteDispatchSuccess W S R X). t.request) (sym same),
            ap (λ (t : RouteDispatchSuccess W S R X). ok (t.profile, t.resolution)) same,
          )

      checked :
          (r : Outcome X Bool × W)
          → (after_validator W S R X P q p found r).0 ≡ ok s
          → (s.request ≡ q)
            × (Path
                (Dispatched P X (ModuleProfile W S R X × RouteResolution))
                (ok (p, found))
                (ok (s.profile, s.resolution)))
      checked (err x, v) k = absurd (err-ne-ok k)
      checked (ok false, v) k = absurd (err-ne-ok k)
      checked (ok true, v) k = ran _ k

      validated :
          (o : Option (RouteRegistration → W → Outcome X Bool × W))
          → (validate_registration W S R X P q p found o w).0 ≡ ok s
          → (s.request ≡ q)
            × (Path
                (Dispatched P X (ModuleProfile W S R X × RouteResolution))
                (ok (p, found))
                (ok (s.profile, s.resolution)))
      validated none k = ran _ k
      validated (some f) k = checked _ k

  -- A dispatch that returns a success returns it for its request, and the request was admitted for
  -- the profile and the registration that it names.
  pub dispatch_route-IsAdmitted :
      (q : RouteDispatchRequest S) (w : W) (s : RouteDispatchSuccess W S R X)
      → (dispatch_route W S R X P resolve registry q w).0 ≡ ok s
      → (s.request ≡ q) × IsAdmitted W S R X P (λ l. resolve l w) registry q s.profile s.resolution
  unfolding dispatch_route
  dispatch_route-IsAdmitted q w s h =
      let (same, admitted) =
        run_module-IsAdmitted q w (admit W S R X P (λ l. resolve l w) registry q) s h in
      (
        same,
        admit-IsAdmitted W S R X P (λ l. resolve l w) registry q s.profile s.resolution admitted,
      )

  -- The state of the modules is as before, or the request was admitted: no code of a module runs
  -- for a request that is refused.
  dispatch_route-unchanged :
      (q : RouteDispatchRequest S) (w : W)
      → ((dispatch_route W S R X P resolve registry q w).1 ≡ w)
        ⊎ ((p : ModuleProfile W S R X) × (found : RouteResolution) × IsAdmitted W S R X P
              (λ l. resolve l w)
              registry
              q
              p
              found)
  unfolding dispatch_route run_module
  dispatch_route-unchanged q w =
      elim (Outcome-cases (admit W S R X P (λ l. resolve l w) registry q)) [
        | inl ((p, found), e) ↦
            inr (p, found, admit-IsAdmitted W S R X P (λ l. resolve l w) registry q p found e)
        | inr (x, e) ↦ inl (rw e refl)
      ]
