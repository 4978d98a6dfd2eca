-- ===== src/Routing/Registrations/RoundTrip.antt =====
-- Which route registrations are accepted, and their way through dictionaries.
use pds_core.Base.{
  ◌≡◌, refl, inl, inr, true, lit, ok, err, ◌>>=◌, ◌>>◌, elem, text_eq, text_eq_iff, Decides,
  Decides-map, Decides-guard, Decides-then, Decides-ok, same_iff, >>=-eq-ok, ◌∙◌,
}
use pds_core.Json.{Fields, item, exact_mapping}
use pds_core.Time.{IsoText}
use pds_core.Routing.{Routed, require_string, string_item, require_exact_mapping}
use pds_core.Routing.Laws.{
  IsLocator, IsRecordRef, validate_route_locator-Decides, validate_module_record_ref-Decides,
}
use pds_core.Routing.Freezing.{thaw_mapping, freeze_mapping}
use pds_core.Routing.Freezing.Laws.{thawed_mapping, read_back}
use pds_core.Routing.Shapes.{route_locator_to_dict, module_record_ref_to_dict}
use pds_core.Routing.RoundTrips.{route_locator_round_trip, module_record_ref_round_trip}
use pds_core.Routing.Registrations.{
  RouteRegistration, route_registration_statuses, validate_human_fallback, validate_iso_timestamp,
  validate_registration_fields, validate_route_registration, make_route_registration,
  route_registration_to_dict, details_mapping, route_registration_from_dict,
}

-- the functions that read a dictionary, for the `unfolding` lines below
reading : Unit {0}
unfolding require_exact_mapping exact_mapping string_item item require_string text_eq
reading = tt

-- A test that returns nothing decides whether it returns.
Decides-test : (m : Routed (Unit {0})) → Decides m tt (m ≡ ok tt)
Decides-test (ok x) = inl (refl, refl)
Decides-test (err e) = inr ((e, refl), (λ h. cc))

Decides-made : {A B : Type 0} (m : Routed A) (b : B) → Decides (m >> ok b) b ((a : A) × (m ≡ ok a))
Decides-made (ok a) b = inl (refl, (a, refl))
Decides-made (err e) b = inr ((e, refl), (λ h. cc h.1))

module _ (iso : IsoText) where
  -- What the tests of the fields accept, but for the details.
  pub record IsRegistered (r : RouteRegistration) : Type 0 where
    pub versioned : r.schema_version ≡ lit "1"
    pub located : IsLocator r.locator
    pub targeted : IsRecordRef r.target
    pub of_module : r.target.module_id ≡ r.locator.module_id
    pub dated : validate_iso_timestamp iso r.created_at ≡ ok tt
    pub known_status : elem r.status route_registration_statuses ≡ true
    pub printable : validate_human_fallback r.human_fallback ≡ ok tt

  abbrev pub IsRegistration : RouteRegistration → Type 0
  IsRegistration r = IsRegistered r × ((fs : Fields) × (thaw_mapping r.module_details ≡ ok fs))

  validate_registration_fields-Decides :
      (r : RouteRegistration) → Decides (validate_registration_fields iso r) tt (IsRegistered r)
  unfolding validate_registration_fields
  validate_registration_fields-Decides r =
      Decides-map _ tt _ _
        (
          (λ h. record {
            versioned = h.0;
            located = h.1.0;
            targeted = h.1.1.0;
            of_module = h.1.1.1.0;
            dated = h.1.1.1.1.0;
            known_status = h.1.1.1.1.1.0;
            printable = h.1.1.1.1.1.1;
          }),
          (λ h. (
            h.versioned,
            (h.located, (h.targeted, (h.of_module, (h.dated, (h.known_status, h.printable))))),
          )),
        )
        (Decides-guard _ _ _ tt _ _ (text_eq_iff r.schema_version (lit "1")) (
          Decides-then _ r.locator _ tt _ _ (validate_route_locator-Decides r.locator) (
            Decides-then _ r.target _ tt _ _ (validate_module_record_ref-Decides r.target) (
              Decides-guard _ _ _ tt _ _ (text_eq_iff r.target.module_id r.locator.module_id) (
                Decides-then _ tt _ tt _ _ (Decides-test (validate_iso_timestamp iso r.created_at))
                  (Decides-guard _ _ _ tt _ _ (same_iff (elem r.status route_registration_statuses))
                    (Decides-test (validate_human_fallback r.human_fallback))))))))

  pub validate_route_registration-Decides :
      (r : RouteRegistration) → Decides (validate_route_registration iso r) r (IsRegistration r)
  unfolding validate_route_registration
  validate_route_registration-Decides r =
      Decides-then _ tt _ r _ _ (validate_registration_fields-Decides r)
        (Decides-made (thaw_mapping r.module_details) r)

  made_again :
      (r : RouteRegistration) (fs : Fields)
      → IsRegistered r
      → freeze_mapping fs ≡ ok r.module_details
      → make_route_registration iso r.schema_version r.locator r.target r.created_at r.status
          r.human_fallback fs
        ≡ ok r
  unfolding make_route_registration validate_registration_fields
  made_again r fs v frozen =
      rw (Decides-ok _ tt _ (validate_registration_fields-Decides r) v, frozen) refl

  -- Writing a route registration as a dictionary and reading it back is the same as validating it, errors
  -- included.
  pub route_registration_round_trip :
      (r : RouteRegistration)
      → (route_registration_to_dict iso r >>= route_registration_from_dict iso)
        ≡ validate_route_registration iso r
  unfolding reading route_registration_to_dict route_registration_from_dict details_mapping
  route_registration_round_trip r = elim (validate_route_registration-Decides r) [
    | inl (e, (v, (fs, thawed))) ↦
        let (_, l_written, l_read) = >>=-eq-ok (route_locator_to_dict r.locator) _ (
          route_locator_round_trip r.locator
          ∙ Decides-ok _ r.locator _ (validate_route_locator-Decides r.locator) v.located) in
        let (_, t_written, t_read) = >>=-eq-ok (module_record_ref_to_dict r.target) _ (
          module_record_ref_round_trip r.target
          ∙ Decides-ok _ r.target _ (validate_module_record_ref-Decides r.target) v.targeted) in
        rw (e, l_written, t_written, thawed, l_read, t_read)
          (made_again r fs v (read_back _ freeze_mapping (thawed_mapping r.module_details) thawed))
    | inr ((x, e), n) ↦ rw e refl
  ]
