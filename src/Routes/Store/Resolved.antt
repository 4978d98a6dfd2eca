-- ===== src/Routes/Store/Resolved.antt =====
-- A stored route registration is resolved to what was written, and to nothing else.
use mathlib.Core.Path.{subst}
use pds_core.Base.{
  Bool-cases, ◌++◌, inl, inr, ◌≡◌, refl, sym, ◌∙◌, ap, true, Option, none, some, ok, ◌>>=◌, ◌>>◌,
  reraise, guard, text_eq_iff, text_eq_refl, arith, >>=-eq-ok, reraise-eq-ok, >>-guard-inv, ok-inj,
  Decides-inv, Decides-ok, ◌↔◌,
}
use pds_core.Json.{Value, null, bool, int, float, str, list, dict, exact_mapping}
use pds_core.Time.{IsoText}
use pds_core.Files.{Content, garbage, undecodable, holds, FilePath, Files, find_path}
use pds_core.Routing.{RouteLocator, validate_route_locator, require_exact_mapping}
use pds_core.Routing.Laws.{work_eq_iff, IsLocator, validate_route_locator-Decides}
use pds_core.Routing.Registrations.{
  RouteRegistration, RouteResolution, validate_route_registration, route_registration_to_dict,
  route_registration_from_dict, locator_eq, make_route_resolution,
}
use pds_core.Routing.Registrations.RoundTrip.{
  IsRegistration, validate_route_registration-Decides, route_registration_round_trip,
}
use pds_core.Routes.{route_registration_path}
use pds_core.Routes.Distinct.{
  class_parts, module_parts, work_parts, class_dir-IsIdentifier, class_module_dir-IsLowercase,
  module_work_dir-IsWork, route_registration_path-IsLocator,
}
use pds_core.Routes.Store.{
  invalid, bad_path, bad_registration, other_locator, RouteDisk, prepare_registration,
  write_route_registration, read_registration, open_registration, load_route_registration,
  resolve_route_registration,
}
use pds_core.Routes.Store.Written.{write_route_registration-ok}

locator_eq_iff : (a b : RouteLocator) → (locator_eq a b ≡ true) ↔ (a ≡ b)
unfolding locator_eq
locator_eq_iff a b = (
  (λ h. ground (
    arith,
    h,
    text_eq_iff a.schema b.schema,
    work_eq_iff a.work b.work,
    text_eq_iff a.route_id b.route_id,
  )),
  (λ h.
      rw (h, text_eq_refl b.schema, (work_eq_iff b.work b.work).1 refl, text_eq_refl b.route_id)
        refl),
)

-- The roots of a locator below the root of a workspace.
abbrev pub resolution_of : FilePath → RouteRegistration → RouteResolution
resolution_of root r = record {
  locator = r.locator;
  registration = r;
  class_root = root ++ class_parts r.locator.class_id;
  module_root = root ++ module_parts r.locator.class_id r.locator.module_id;
  work_root = root ++ work_parts r.locator.work;
}

module _ (iso : IsoText) where
  prepare_registration-IsRegistration :
      (root : FilePath) (r : RouteRegistration)
      → IsRegistration iso r
      → prepare_registration iso root r ≡ (
          reraise bad_path (route_registration_path root r.locator) >>= λ p.
          reraise invalid (route_registration_to_dict iso r) >>= λ content. ok (p, content))
  unfolding prepare_registration
  prepare_registration-IsRegistration root r v =
      rw (Decides-ok _ r _ (validate_route_registration-Decides iso r) v) refl

  pub prepare_registration-inv :
      (root : FilePath) (r : RouteRegistration) (p : FilePath) (v : Value)
      → prepare_registration iso root r ≡ ok (p, v)
      → IsRegistration iso r
        × (route_registration_path root r.locator ≡ ok p)
        × (route_registration_from_dict iso v ≡ ok r)
  unfolding prepare_registration
  prepare_registration-inv root r p v h =
      let (_, accepted, _) = >>=-eq-ok (reraise invalid (validate_route_registration iso r)) _ h in
      let (_, valid) =
        Decides-inv _ r _ (validate_route_registration-Decides iso r)
          (reraise-eq-ok invalid _ accepted) in
      let (q, path, h1) =
        >>=-eq-ok (reraise bad_path (route_registration_path root r.locator)) _
          (sym (prepare_registration-IsRegistration root r valid) ∙ h) in
      let (x, content, h2) = >>=-eq-ok (reraise invalid (route_registration_to_dict iso r)) _ h1 in
      let given = ok-inj h2 in
      let written : route_registration_to_dict iso r ≡ ok x = reraise-eq-ok invalid _ content in
      let back : (route_registration_to_dict iso r >>= route_registration_from_dict iso) ≡ ok r =
        route_registration_round_trip iso r
        ∙ Decides-ok _ r _ (validate_route_registration-Decides iso r) valid in
      let (y, wrote, read) = >>=-eq-ok (route_registration_to_dict iso r) _ back in
      let back_x : route_registration_from_dict iso x ≡ ok r =
        sym (ap (route_registration_from_dict iso) (ok-inj (sym wrote ∙ written))) ∙ read in
      (
        valid,
        reraise-eq-ok bad_path _ path ∙ ap (λ (k : FilePath × Value). ok k.0) given,
        sym (ap (λ (k : FilePath × Value). route_registration_from_dict iso k.1) given) ∙ back_x,
      )

  read_registration-written :
      (r : RouteRegistration) (v : Value)
      → IsRegistration iso r
      → route_registration_from_dict iso v ≡ ok r
      → read_registration iso (some (holds v)) ≡ ok r
  unfolding read_registration route_registration_from_dict require_exact_mapping exact_mapping
  read_registration-written r null v h = cc
  read_registration-written r (bool b) v h = cc
  read_registration-written r (int n) v h = cc
  read_registration-written r (float x) v h = cc
  read_registration-written r (str s) v h = cc
  read_registration-written r (list vs) v h = cc
  read_registration-written r (dict fs) v h =
      rw (h, Decides-ok _ r _ (validate_route_registration-Decides iso r) v) refl

  -- The registration that a locator leads to.
  load_route_registration-found :
      (disk : RouteDisk) (root : FilePath) (l : RouteLocator) (p : FilePath) (fs : Files)
      → IsLocator l
      → route_registration_path root l ≡ ok p
      → load_route_registration iso disk root l fs ≡ (
          open_registration iso disk (find_path p fs) >>= λ r.
          guard (locator_eq r.locator l) other_locator >> ok r)
  unfolding load_route_registration
  load_route_registration-found disk root l p fs v e =
      rw (Decides-ok _ l _ (validate_route_locator-Decides l) v, e) refl

  read_registration-inv :
      (o : Option Content) (r : RouteRegistration)
      → read_registration iso o ≡ ok r
      → IsRegistration iso r
  unfolding read_registration
  read_registration-inv none r h = cc
  read_registration-inv (some garbage) r h = cc
  read_registration-inv (some undecodable) r h = cc
  read_registration-inv (some (holds null)) r h = cc
  read_registration-inv (some (holds (bool b))) r h = cc
  read_registration-inv (some (holds (int n))) r h = cc
  read_registration-inv (some (holds (float x))) r h = cc
  read_registration-inv (some (holds (str s))) r h = cc
  read_registration-inv (some (holds (list vs))) r h = cc
  read_registration-inv (some (holds (dict fs))) r h =
      let (x, _, h1) =
        >>=-eq-ok (reraise bad_registration (route_registration_from_dict iso (dict fs))) _ h in
      let (same, valid) =
        Decides-inv _ x _ (validate_route_registration-Decides iso x)
          (reraise-eq-ok bad_registration _ h1) in
      subst (IsRegistration iso) (sym same) valid

  open_registration-inv :
      (disk : RouteDisk) (o : Option Content) (r : RouteRegistration)
      → open_registration iso disk o ≡ ok r
      → IsRegistration iso r
  unfolding open_registration
  open_registration-inv disk none r h = cc
  open_registration-inv disk (some c) r h = elim (Bool-cases disk.reads) [
    | inl e ↦ read_registration-inv (some c) r (rw e at h)
    | inr e ↦ absurd (cc (rw e at h))
  ]

  load_route_registration-inv :
      (disk : RouteDisk) (root : FilePath) (l : RouteLocator) (fs : Files) (r : RouteRegistration)
      → load_route_registration iso disk root l fs ≡ ok r
      → IsLocator l × (r.locator ≡ l) × IsRegistration iso r
  unfolding load_route_registration
  load_route_registration-inv disk root l fs r h =
      let (_, accepted, _) = >>=-eq-ok (reraise invalid (validate_route_locator l)) _ h in
      let (_, located) =
        Decides-inv _ l _ (validate_route_locator-Decides l) (reraise-eq-ok invalid _ accepted) in
      let path = route_registration_path-IsLocator root l located in
      let (x, opened, h1) =
        >>=-eq-ok (open_registration iso disk (find_path _ fs)) _
          (sym (load_route_registration-found disk root l _ fs located path) ∙ h) in
      let (same, h2) = >>-guard-inv _ other_locator _ h1 in
      (
        located,
        subst (λ (k : RouteRegistration). k.locator ≡ l) (ok-inj h2)
            ((locator_eq_iff x.locator l).0 same),
        subst (IsRegistration iso) (ok-inj h2) (open_registration-inv disk _ x opened),
      )

  -- A registration that can be loaded is resolved.
  resolve_route_registration-load :
      (disk : RouteDisk) (root : FilePath) (r : RouteRegistration) (fs : Files)
      → load_route_registration iso disk root r.locator fs ≡ ok r
      → resolve_route_registration iso disk root r.locator fs ≡ ok (resolution_of root r)
  unfolding resolve_route_registration make_route_resolution
  resolve_route_registration-load disk root r fs loaded =
      let (located, _, valid) = load_route_registration-inv disk root r.locator fs r loaded in
      let accepted = Decides-ok _ r.locator _ (validate_route_locator-Decides r.locator) located in
      rw
        (
          accepted,
          loaded,
          class_dir-IsIdentifier root r.locator.class_id located.1.1,
          class_module_dir-IsLowercase root r.locator.class_id r.locator.module_id located.1.1
              located.1.0,
          module_work_dir-IsWork root r.locator.work located.1,
          accepted,
          Decides-ok _ r _ (validate_route_registration-Decides iso r) valid,
          (locator_eq_iff r.locator r.locator).1 refl,
        )
        refl

  -- What a locator is resolved to is an accepted registration of that very locator, with the roots of
  -- the locator's class, module and work.
  pub resolve_route_registration-IsRegistration :
      (disk : RouteDisk) (root : FilePath) (l : RouteLocator) (fs : Files) (found : RouteResolution)
      → resolve_route_registration iso disk root l fs ≡ ok found
      → (r : RouteRegistration) × (r.locator ≡ l)
        × IsRegistration iso r
        × (found ≡ resolution_of root r)
  unfolding resolve_route_registration make_route_resolution
  resolve_route_registration-IsRegistration disk root l fs found h =
      let (k, accepted, h1) = >>=-eq-ok (reraise invalid (validate_route_locator l)) _ h in
      let (same, _) =
        Decides-inv _ l _ (validate_route_locator-Decides l) (reraise-eq-ok invalid _ accepted) in
      let (r, loaded, _) = >>=-eq-ok (load_route_registration iso disk root k fs) _ h1 in
      let (_, own, valid) = load_route_registration-inv disk root k fs r loaded in
      let at_l : r.locator ≡ l = own ∙ same in
      (
        r,
        at_l,
        valid,
        ok-inj (
            sym h
            ∙ at l r at_l
                (subst (λ x. load_route_registration iso disk root x fs ≡ ok r) same loaded)),
      )
    where
      at :
          (x : RouteLocator) (r : RouteRegistration)
          → r.locator ≡ x
          → load_route_registration iso disk root x fs ≡ ok r
          → resolve_route_registration iso disk root x fs ≡ ok (resolution_of root r)
      at x r own =
          subst
            (λ x.
              load_route_registration iso disk root x fs ≡ ok r
              → resolve_route_registration iso disk root x fs ≡ ok (resolution_of root r))
            own (resolve_route_registration-load disk root r fs)

  load_route_registration-holds :
      (disk : RouteDisk) (root : FilePath) (r : RouteRegistration) (p : FilePath) (v : Value)
      (fs : Files)
      → disk.reads ≡ true
      → IsRegistration iso r
      → route_registration_path root r.locator ≡ ok p
      → route_registration_from_dict iso v ≡ ok r
      → find_path p fs ≡ some (holds v)
      → load_route_registration iso disk root r.locator fs ≡ ok r
  unfolding open_registration
  load_route_registration-holds disk root r p v fs readable valid path back found =
      load_route_registration-found disk root r.locator p fs valid.0.located path
      ∙ rw
          (
            found,
            readable,
            read_registration-written r v valid back,
            (locator_eq_iff r.locator r.locator).1 refl,
          )
          refl

  -- What is written can be resolved: where the write of a registration succeeds and its file can be
  -- read, its locator is resolved to the registration itself and to the roots of its class, its module
  -- and its work.
  pub write_route_registration-resolve :
      (disk : RouteDisk) (root : FilePath) (r : RouteRegistration) (fs : Files) (p : FilePath)
      → disk.reads ≡ true
      → (write_route_registration iso disk root r fs).0 ≡ ok p
      → resolve_route_registration iso disk root r.locator
          (write_route_registration iso disk root r fs).1
        ≡ ok (resolution_of root r)
  write_route_registration-resolve disk root r fs p readable h =
      let (v, prepared, _, found) = write_route_registration-ok iso disk root r fs p h in
      let (valid, path, back) = prepare_registration-inv root r p v prepared in
      resolve_route_registration-load disk root r _
        (load_route_registration-holds disk root r p v _ readable valid path back found)
