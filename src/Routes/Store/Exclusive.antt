-- ===== src/Routes/Store/Exclusive.antt =====
-- The registration of a locator is written once.
use pds_core.Base.{
  ◌≡◌, refl, sym, ◌∙◌, ap, some, ok, err, inl, inr, Bool-cases, ok-inj, Bool-cases, ok-inj,
}
use pds_core.Json.{Value}
use pds_core.Time.{IsoText}
use pds_core.Files.{Content, holds, FilePath, Files, find_path, is_present}
use pds_core.Routing.Registrations.{RouteRegistration}
use pds_core.Routes.{route_registration_path}
use pds_core.Routes.Store.{
  RegistrationStoreError, already_exists, no_folder, Kept, RouteDisk, create_file,
  prepare_registration, write_prepared, write_route_registration,
}
use pds_core.Routes.Store.Written.{write_route_registration-ok}
use pds_core.Routes.Store.Resolved.{prepare_registration-inv}

module _ (iso : IsoText) where
  -- Where there is a file at the path, nothing is written.
  write_prepared-present :
      (disk : RouteDisk) (p : FilePath) (v : Value) (fs : Files) (c : Content)
      → find_path p fs ≡ some c
      → (e : RegistrationStoreError) × (write_prepared disk (ok (p, v)) fs ≡ (err e, fs))
  unfolding write_prepared create_file is_present
  write_prepared-present disk p v fs c h = elim (Bool-cases disk.makes_folder) [
    | inl e ↦ (already_exists, rw (e, h) refl)
    | inr e ↦ (no_folder, rw e refl)
  ]

  -- After a registration was written, every later write for the same locator raises and changes
  -- nothing, whatever it carries.
  pub write_route_registration-again :
      (disk later : RouteDisk) (root : FilePath) (r s : RouteRegistration) (fs : Files)
      (p : FilePath)
      → (write_route_registration iso disk root r fs).0 ≡ ok p
      → s.locator ≡ r.locator
      → (e : RegistrationStoreError) × (write_route_registration iso later root s
            (write_route_registration iso disk root r fs).1
          ≡ (err e, (write_route_registration iso disk root r fs).1))
  unfolding write_route_registration
  write_route_registration-again disk later root r s fs p h same =
      let (v, prepared, _, found) = write_route_registration-ok iso disk root r fs p h in
      let (_, path, _) = prepare_registration-inv iso root r p v prepared in
      refused _ found path (prepare_registration iso root s) refl
    where
      refused :
          (gs : Files) {v : Value}
          → find_path p gs ≡ some (holds v)
          → route_registration_path root r.locator ≡ ok p
          → (m : Kept (FilePath × Value)) → prepare_registration iso root s ≡ m
          → (e : RegistrationStoreError) × (write_prepared later m gs ≡ (err e, gs))
      refused gs found path (err e) prepared = (e, refl)
      refused gs found path (ok (q, w)) prepared =
          let (_, path_s, _) = prepare_registration-inv iso root s q w prepared in
          let at : q ≡ p = ok-inj (sym path_s ∙ ap (route_registration_path root) same ∙ path) in
          write_prepared-present later q w gs _ (ap (λ x. find_path x gs) at ∙ found)
