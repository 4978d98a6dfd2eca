-- ===== src/Routes/Store/Written.antt =====
-- What a write of a route registration does to the files, whether it succeeds or fails.
use pds_core.Base.{◌≡◌, refl, ◌≢◌, Bool, true, false, some, ◌∷◌, ok, err, arith}
use pds_core.Json.{Value}
use pds_core.Time.{IsoText}
use pds_core.Files.{
  Content, garbage, holds, FilePath, Files, find_path, is_present, path_eq_iff, path_eq_refl,
  remove_path-find,
}
use pds_core.Routing.Registrations.{RouteRegistration}
use pds_core.Routes.Store.{
  RegistrationStoreError, Kept, RouteDisk, remove_incomplete, create_file, prepare_registration,
  write_prepared, write_route_registration,
}

-- the steps of a write, for the `unfolding` lines below
writing : Unit {0}
unfolding create_file remove_incomplete is_present find_path
writing = tt

create_file-present :
    (disk : RouteDisk) (p q : FilePath) (v : Value) (fs : Files) (c : Content)
    → find_path q fs ≡ some c
    → find_path q (create_file disk p v fs).1 ≡ some c
unfolding writing
create_file-present disk p q v fs c h =
    ground (arith, path_eq_iff q p, remove_path-find p q ((p, garbage) ∷ fs))

create_file-other :
    (disk : RouteDisk) (p q : FilePath) (v : Value) (fs : Files)
    → q ≢ p
    → find_path q (create_file disk p v fs).1 ≡ find_path q fs
unfolding writing
create_file-other disk p q v fs h =
    ground (arith, path_eq_iff q p, remove_path-find p q ((p, garbage) ∷ fs))

create_file-failed :
    (disk : RouteDisk) (p q : FilePath) (v : Value) (fs : Files) (e : RegistrationStoreError)
    → disk.removes ≡ true
    → (create_file disk p v fs).0 ≡ err e
    → find_path q (create_file disk p v fs).1 ≡ find_path q fs
unfolding writing
create_file-failed disk p q v fs e r h =
    ground (arith, path_eq_iff q p, remove_path-find p q ((p, garbage) ∷ fs))

create_file-ok :
    (disk : RouteDisk) (p : FilePath) (v : Value) (fs : Files) {q : FilePath}
    → (create_file disk p v fs).0 ≡ ok q
    → (q ≡ p)
      × (is_present (find_path p fs) ≡ false)
      × (find_path p (create_file disk p v fs).1 ≡ some (holds v))
unfolding writing
create_file-ok disk p v fs h =
    (ground (arith, h), ground (arith, h), ground (arith, h, path_eq_refl p))

module _ (iso : IsoText) where
  -- Whatever a write does, each file that was there keeps its content.
  pub write_route_registration-present :
      (disk : RouteDisk) (root : FilePath) (r : RouteRegistration) (fs : Files) (q : FilePath)
      (c : Content)
      → find_path q fs ≡ some c
      → find_path q (write_route_registration iso disk root r fs).1 ≡ some c
  unfolding write_route_registration
  write_route_registration-present disk root r fs q c h =
      kept (prepare_registration iso root r) disk.makes_folder
    where
      kept :
          (m : Kept (FilePath × Value)) (b : Bool)
          → find_path q (write_prepared (record disk { makes_folder = b }) m fs).1 ≡ some c
      kept (err e) b = h
      kept (ok (p, v)) true = create_file-present (record disk { makes_folder = true }) p q v fs c h
      kept (ok (p, v)) false = h

  -- A write that raises leaves the files as they were, where an incomplete file can be removed.
  pub write_route_registration-failed :
      (disk : RouteDisk) (root : FilePath) (r : RouteRegistration) (fs : Files)
      (e : RegistrationStoreError)
      → disk.removes ≡ true
      → (write_route_registration iso disk root r fs).0 ≡ err e
      → (q : FilePath)
      → find_path q (write_route_registration iso disk root r fs).1 ≡ find_path q fs
  unfolding write_route_registration
  write_route_registration-failed disk root r fs e removes h q =
      same (prepare_registration iso root r) disk.makes_folder h
    where
      same :
          (m : Kept (FilePath × Value)) (b : Bool)
          → (write_prepared (record disk { makes_folder = b }) m fs).0 ≡ err e
          → find_path q (write_prepared (record disk { makes_folder = b }) m fs).1 ≡ find_path q fs
      same (err x) b k = refl
      same (ok (p, v)) true k =
          create_file-failed (record disk { makes_folder = true }) p q v fs e removes k
      same (ok (p, v)) false k = refl

  pub write_route_registration-ok :
      (disk : RouteDisk) (root : FilePath) (r : RouteRegistration) (fs : Files) (p : FilePath)
      → (write_route_registration iso disk root r fs).0 ≡ ok p
      → (v : Value) × (prepare_registration iso root r ≡ ok (p, v))
        × (is_present (find_path p fs) ≡ false)
        × (find_path p (write_route_registration iso disk root r fs).1 ≡ some (holds v))
  unfolding write_route_registration
  write_route_registration-ok disk root r fs p h =
      made (prepare_registration iso root r) disk.makes_folder h
    where
      made :
          (m : Kept (FilePath × Value)) (b : Bool)
          → (write_prepared (record disk { makes_folder = b }) m fs).0 ≡ ok p
          → (v : Value) × (m ≡ ok (p, v))
            × (is_present (find_path p fs) ≡ false)
            × (find_path p (write_prepared (record disk { makes_folder = b }) m fs).1
                ≡ some (holds v))
      made (err x) b k = cc
      made (ok (t, v)) true k =
          let (same, absent, found) =
            create_file-ok (record disk { makes_folder = true }) t v fs k in
          (v, cc, cc, cc)
      made (ok (t, v)) false k = cc
