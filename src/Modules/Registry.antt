-- ===== src/Modules/Registry.antt =====
-- What the registry holds after a profile was registered.
use mathlib.Core.Path.{subst}
use pds_core.Base.{
  ok-inj, ◌≡◌, refl, sym, ap, ◌∙◌, ◌≢◌, inl, inr, true, false, not, Option, none, some, Text, ok,
  guard, reraise, reraise-eq-ok, >>=-eq-ok, guard-eq-ok, text_eq_iff, text_eq-false, text_eq_refl,
  lower, Decides, Decides-map, Decides-then, Decides-guard, Decides-return, Decides-reraise,
  Decides-inv,
}
use pds_core.Dict.{get, put, has, get-put}
use pds_core.Identifiers.Laws.{validate_identifier-Decides}
use pds_core.Routing.Laws.{IsLowercase}
use pds_core.Modules.{
  validate_display_name, validate_frozen_identifiers, validate_frozen_dispatch_statuses, identifier,
  already_registered, profile_error, ModuleProfile, ModuleRegistry, validate_module_id,
  validate_module_profile, register, registered, require,
}

validate_module_id-Decides : (s : Text) → Decides (validate_module_id s) s (IsLowercase s)
unfolding validate_module_id
validate_module_id-Decides s =
    Decides-then _ s _ s _ _
      (Decides-reraise identifier _ s _ (validate_identifier-Decides "module_id" s))
      (Decides-map _ s ((s ≡ lower s) × Unit) _ ((λ h. h.0), (λ h. (h, tt)))
        (Decides-guard _ _ _ s _ _ (text_eq_iff s (lower s)) (Decides-return s)))

module _ (W S R X : Type 0) where
  validate_module_profile-inv :
      (p : ModuleProfile W S R X) {q : ModuleProfile W S R X}
      → validate_module_profile p ≡ ok q
      → (p ≡ q) × (validate_module_id p.module_id ≡ ok p.module_id)
  unfolding validate_module_profile
  validate_module_profile-inv p {q} h =
      let (id, named, h1) = >>=-eq-ok (validate_module_id p.module_id) _ h in
      let (_, _, h2) = >>=-eq-ok (validate_display_name p.display_name) _ h1 in
      let (_, _, h3) =
        >>=-eq-ok (validate_frozen_identifiers p.supported_core_routing_contract_versions) _ h2 in
      let (_, _, h4) = >>=-eq-ok (validate_frozen_identifiers p.supported_qr_schemas) _ h3 in
      let (_, _, h5) =
        >>=-eq-ok (validate_frozen_identifiers p.supported_route_registration_schema_versions) _
          h4 in
      let (_, _, h6) =
        >>=-eq-ok (validate_frozen_dispatch_statuses p.dispatchable_route_statuses) _ h5 in
      let (same, _) = Decides-inv _ p.module_id _ (validate_module_id-Decides p.module_id) named in
      (ok-inj h6, named ∙ ap ok same)

  -- A profile that was registered is required under its module id, where nothing was registered
  -- before, and what is required under every other id is as before.
  register-require :
      (p : ModuleProfile W S R X) (r s : ModuleRegistry W S R X)
      → register p r ≡ ok s
      → (require s p.module_id ≡ ok p)
        × (get p.module_id r ≡ none)
        × ((id : Text) → id ≢ p.module_id → require s id ≡ require r id)
  unfolding register require registered
  register-require p r s h =
      let (q, valid, h1) = >>=-eq-ok (reraise profile_error (validate_module_profile p)) _ h in
      let (_, fresh, h2) = >>=-eq-ok (guard (not (has q.module_id r)) already_registered) _ h1 in
      let (same, named) = validate_module_profile-inv p (reraise-eq-ok profile_error _ valid) in
      let stored : put p.module_id p r ≡ s =
        subst (λ (x : ModuleProfile W S R X). put x.module_id x r ≡ s) (sym same) (ok-inj h2) in
      let absent : not (has p.module_id r) ≡ true =
        subst (λ (x : ModuleProfile W S R X). not (has x.module_id r) ≡ true) (sym same)
          (guard-eq-ok _ already_registered fresh) in
      subst
        (λ (t : ModuleRegistry W S R X).
          (require t p.module_id ≡ ok p)
          × (get p.module_id r ≡ none)
          × ((id : Text) → id ≢ p.module_id → require t id ≡ require r id))
        stored
        (
          rw (named, get-put p.module_id p.module_id p r, text_eq_refl p.module_id) refl,
          not_has p.module_id absent,
          λ id other. unchanged id other (validate_module_id-Decides id),
        )
    where
      unchanged :
          (id : Text)
          → id ≢ p.module_id
          → Decides (validate_module_id id) id (IsLowercase id)
          → require (put p.module_id p r) id ≡ require r id
      unchanged id other (inl (e, v)) =
          rw (e, get-put p.module_id id p r, text_eq-false id p.module_id other) refl
      unchanged id other (inr ((x, e), n)) = rw e refl

      not_has : (k : Text) → not (has k r) ≡ true → get k r ≡ none
      not_has k e = absent_of (get k r) e
        where
          absent_of :
              (o : Option (ModuleProfile W S R X))
              → not (elim o [ none ↦ false | some _ ↦ true ]) ≡ true
              → o ≡ none
          absent_of none e = refl
          absent_of (some x) e = cc
