-- ===== src/Modules.antt =====
-- pds_core/module_profiles.py: the profile of a module and the registry of the profiles, by module
-- id. A module's handler and its validator of registrations are code of the module: they act on a
-- state `W`, with the stored files in it, and may raise an exception `X`. `S` is a retained source
-- scan and `R` is what a handler returns.
pub mod Dispatch
pub mod Registry
use pds_core.Base.{
  is_control, ℕ, Bool, true, false, not, Option, none, some, List, [], ◌∷◌, Text, lit, String,
  Outcome, ok, err, ◌>>=◌, ◌>>◌, guard, reraise, any, all, elem, text_eq, text_ltb, strip, lower,
  sort_by, map,
}
use pds_core.Json.{ℤ, str, Fields}
use pds_core.Dict.{Dict, get, put, has}
use pds_core.Identifiers.{IdentifierError, validate_identifier}
pub use pds_core.Routing.Registrations.{
  RouteRegistration, RouteResolution, route_registration_statuses,
}

pub data ModuleProfileError : Type 0 where
  identifier : IdentifierError → ModuleProfileError
  not_lowercase name_empty name_space name_control empty_set bad_status : ModuleProfileError

pub data RegistryError : Type 0 where
  profile_error : ModuleProfileError → RegistryError
  already_registered : RegistryError
  unsupported : RegistryError

abbrev pub core_routing_contract_version : Text
core_routing_contract_version = lit "1"

-- The results of a set of exceptions, and a state.
abbrev pub Effect : Type 0 → Type 0 → Type 0 → Type 0
Effect W E A = W → Outcome E A × W

pub record ModuleProfile (W S R X : Type 0) : Type 0 where
  pub module_id : Text
  pub display_name : Text
  pub supported_core_routing_contract_versions : List Text
  pub supported_qr_schemas : List Text
  pub supported_route_registration_schema_versions : List Text
  pub dispatchable_route_statuses : List Text
  pub route_handler : RouteResolution → S → ℤ → Effect W X R
  -- Its result says whether it returned `None`.
  pub registration_validator : Option (RouteRegistration → Effect W X Bool)

abbrev pub Profiled : Type 0 → Type 0
Profiled A = Outcome ModuleProfileError A

abbrev pub safe_identifier : String → Text → Profiled Text
safe_identifier name s = reraise identifier (validate_identifier name (str s))

unfoldable pub validate_module_id : Text → Profiled Text
validate_module_id s = do
  safe_identifier "module_id" s
  guard (text_eq s (lower s)) not_lowercase
  ok s

unfoldable pub validate_display_name : Text → Profiled (Unit {0})
validate_display_name s = do
  guard (not (text_eq s [])) name_empty
  guard (text_eq s (strip s)) name_space
  guard (not (any is_control s)) name_control

unfoldable pub validate_members : List Text → Profiled (Unit {0})
validate_members [] = ok tt
validate_members (s ∷ ss) = safe_identifier "member" s >> validate_members ss

unfoldable pub validate_frozen_identifiers : List Text → Profiled (Unit {0})
unfolding validate_members
validate_frozen_identifiers [] = err empty_set
validate_frozen_identifiers (s ∷ ss) = validate_members (s ∷ ss)

unfoldable pub validate_frozen_dispatch_statuses : List Text → Profiled (Unit {0})
unfolding validate_frozen_identifiers
validate_frozen_dispatch_statuses ss = do
  validate_frozen_identifiers ss
  guard (all (λ s. elem s route_registration_statuses) ss) bad_status

module _ {W S R X : Type 0} where
  unfoldable pub validate_module_profile : ModuleProfile W S R X → Profiled (ModuleProfile W S R X)
  validate_module_profile p = do
    validate_module_id p.module_id
    validate_display_name p.display_name
    validate_frozen_identifiers p.supported_core_routing_contract_versions
    validate_frozen_identifiers p.supported_qr_schemas
    validate_frozen_identifiers p.supported_route_registration_schema_versions
    validate_frozen_dispatch_statuses p.dispatchable_route_statuses
    ok p

abbrev pub ModuleRegistry : Type 0 → Type 0 → Type 0 → Type 0 → Type 0
ModuleRegistry W S R X = Dict (ModuleProfile W S R X)

module _ {W S R X : Type 0} where
  unfoldable pub register :
      ModuleProfile W S R X
      → ModuleRegistry W S R X
      → Outcome RegistryError (ModuleRegistry W S R X)
  register profile registry = do
    p ← reraise profile_error (validate_module_profile profile)
    guard (not (has p.module_id registry)) already_registered
    ok (put p.module_id p registry)

  -- `ModuleRegistry(profiles)`
  unfoldable pub register_all :
      List (ModuleProfile W S R X)
      → ModuleRegistry W S R X
      → Outcome RegistryError (ModuleRegistry W S R X)
  register_all [] registry = ok registry
  register_all (p ∷ ps) registry = do r ← register p registry; register_all ps r

  unfoldable pub registered :
      Option (ModuleProfile W S R X) → Outcome RegistryError (ModuleProfile W S R X)
  registered none = err unsupported
  registered (some p) = ok p

  unfoldable pub require :
      ModuleRegistry W S R X → Text → Outcome RegistryError (ModuleProfile W S R X)
  unfolding registered
  require registry id = do
    s ← reraise profile_error (validate_module_id id)
    registered (get s registry)

  unfoldable pub module_ids : ModuleRegistry W S R X → List Text
  module_ids registry = sort_by text_ltb (map (λ e. e.0) registry)
