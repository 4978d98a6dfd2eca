-- ===== src/Routes/Store.antt =====
-- pds_core/route_registrations.py: the stored registrations of routes. A `RouteDisk` says which calls
-- of the operating system succeed. The order of the entries of a dict, which `sort_keys` changes in a
-- file, is not modelled: no reader depends on it, and `==` does not either.
pub mod Written
pub mod Resolved
pub mod Exclusive
pub mod Dispatched
use pds_core.Base.{
  Bool, true, false, Option, none, some, List, [], ◌∷◌, Outcome, ok, err, ◌>>=◌, ◌>>◌, guard,
  reraise, if◌then◌else◌, not,
}
use pds_core.Json.{Value, dict}
use pds_core.Time.{IsoText}
use pds_core.Files.{
  Content, garbage, undecodable, holds, FilePath, Files, find_path, remove_path, is_present,
}
use pds_core.Routing.{RoutingModelError, RouteLocator, validate_route_locator}
use pds_core.Routing.Registrations.{
  RouteRegistration, RouteResolution, validate_route_registration, route_registration_to_dict,
  route_registration_from_dict, locator_eq, make_route_resolution,
}
use pds_core.Routes.{
  PathError, class_dir, class_module_dir, module_work_dir, route_registration_path,
}

pub data RegistrationStoreError : Type 0 where
  invalid : RoutingModelError → RegistrationStoreError
  bad_path : PathError → RegistrationStoreError
  -- `RouteRegistrationWriteError`
  no_folder already_exists unwritten : RegistrationStoreError
  -- `RouteRegistrationReadError`
  not_found unreadable not_object : RegistrationStoreError
  bad_registration : RoutingModelError → RegistrationStoreError
  -- `RouteRegistrationIntegrityError`
  other_locator : RegistrationStoreError
  -- The exception of json.load on undecodable text, which nothing catches.
  undecoded : RegistrationStoreError

abbrev pub Kept : Type 0 → Type 0
Kept A = Outcome RegistrationStoreError A

pub record RouteDisk : Type 0 where
  pub makes_folder : Bool
  -- `open` with the mode `x`, where there is no such file
  pub creates : Bool
  -- the write into the new file
  pub writes : Bool
  -- `_remove_incomplete_registration` succeeds; it ignores a failure.
  pub removes : Bool
  pub reads : Bool

-- `_remove_incomplete_registration`
unfoldable pub remove_incomplete : RouteDisk → FilePath → Files → Files
remove_incomplete disk p fs = if disk.removes then remove_path p fs else fs

-- The new file, and what is left of it where the write fails.
unfoldable pub create_file : RouteDisk → FilePath → Value → Files → Kept FilePath × Files
create_file disk p content fs =
    if is_present (find_path p fs)
    then (err already_exists, fs)
    else if not disk.creates
    then (err unwritten, fs)
    else if disk.writes
    then (ok p, (p, holds content) ∷ fs)
    else (err unwritten, remove_incomplete disk p ((p, garbage) ∷ fs))

unfoldable pub write_prepared : RouteDisk → Kept (FilePath × Value) → Files → Kept FilePath × Files
write_prepared disk (err e) fs = (err e, fs)
write_prepared disk (ok (p, content)) fs =
    if disk.makes_folder then create_file disk p content fs else (err no_folder, fs)

module _ (iso : IsoText) where
  -- What is tested and computed before the disk is touched.
  unfoldable pub prepare_registration : FilePath → RouteRegistration → Kept (FilePath × Value)
  prepare_registration root registration = do
    r ← reraise invalid (validate_route_registration iso registration)
    p ← reraise bad_path (route_registration_path root r.locator)
    content ← reraise invalid (route_registration_to_dict iso r)
    ok (p, content)

  unfoldable pub write_route_registration :
      RouteDisk → FilePath → RouteRegistration → Files → Kept FilePath × Files
  unfolding write_prepared
  write_route_registration disk root registration =
      write_prepared disk (prepare_registration root registration)

  -- The content of a file, parsed and validated.
  unfoldable pub read_registration : Option Content → Kept RouteRegistration
  read_registration none = err not_found
  read_registration (some garbage) = err unreadable
  read_registration (some undecodable) = err undecoded
  read_registration (some (holds (dict fs))) = do
    r ← reraise bad_registration (route_registration_from_dict iso (dict fs))
    reraise bad_registration (validate_route_registration iso r)
  read_registration (some (holds _)) = err not_object

  -- A file that the operating system refuses to read.
  unfoldable pub open_registration : RouteDisk → Option Content → Kept RouteRegistration
  open_registration disk none = err not_found
  open_registration disk (some c) =
      if disk.reads then read_registration (some c) else err unreadable

  unfoldable pub load_route_registration :
      RouteDisk → FilePath → RouteLocator → Files → Kept RouteRegistration
  load_route_registration disk root locator fs = do
    requested ← reraise invalid (validate_route_locator locator)
    p ← reraise bad_path (route_registration_path root requested)
    r ← open_registration disk (find_path p fs)
    guard (locator_eq r.locator requested) other_locator
    ok r

  unfoldable pub resolve_route_registration :
      RouteDisk → FilePath → RouteLocator → Files → Kept RouteResolution
  resolve_route_registration disk root locator fs = do
    requested ← reraise invalid (validate_route_locator locator)
    registration ← load_route_registration disk root requested fs
    class_root ← reraise bad_path (class_dir root requested.class_id)
    module_root ← reraise bad_path (class_module_dir root requested.class_id requested.module_id)
    work_root ← reraise bad_path (module_work_dir root requested.work)
    reraise invalid
        (make_route_resolution iso requested registration class_root module_root work_root)
