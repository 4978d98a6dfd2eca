-- ===== src/Routes.antt =====
-- pds_core/routes.py: where the files of a class, of a module and of its work stand. A path is its
-- components, as `pathlib` has them on POSIX systems.
pub mod Safe
pub mod Distinct
pub mod Store
use pds_core.Base.{
  ℕ, Bool, true, false, not, ◌&&◌, ◌||◌, Option, none, some, List, [], ◌∷◌, ◌++◌, map, Text, lit,
  Outcome, ok, err, ◌>>=◌, ◌>>◌, guard, reraise, any, elem, text_eq, strip, lower, ◌==◌,
  if◌then◌else◌,
}
use pds_core.Json.{str}
use pds_core.Files.{FilePath}
use pds_core.Identifiers.{IdentifierError, validate_identifier}
use pds_core.Pds2.{split}
use pds_core.Routing.{
  RoutingModelError, ModuleWorkRef, RouteLocator, validate_module_work_ref, validate_route_locator,
}

pub data PathError : Type 0 where
  identifier : IdentifierError → PathError
  routing : RoutingModelError → PathError
  -- `ModuleWorkPathError`
  not_lowercase empty_path padded_path nul_path absolute_path : PathError
  empty_component traversal outside no_descendant : PathError

abbrev pub Located : Type 0 → Type 0
Located A = Outcome PathError A

abbrev pub classes_dir : FilePath → FilePath
classes_dir root = root ++ lit "classes" ∷ []

unfoldable pub class_dir : FilePath → Text → Located FilePath
class_dir root class_id = do
  reraise identifier (validate_identifier "class_id" (str class_id))
  ok (classes_dir root ++ class_id ∷ [])

unfoldable pub class_roster_path : FilePath → Text → Located FilePath
class_roster_path root class_id = do
  dir ← class_dir root class_id
  ok (dir ++ lit "roster.csv" ∷ [])

unfoldable pub class_metadata_path : FilePath → Text → Located FilePath
class_metadata_path root class_id = do
  dir ← class_dir root class_id
  ok (dir ++ lit "class.json" ∷ [])

unfoldable pub class_modules_dir : FilePath → Text → Located FilePath
class_modules_dir root class_id = do dir ← class_dir root class_id; ok (dir ++ lit "modules" ∷ [])

unfoldable pub class_module_dir : FilePath → Text → Text → Located FilePath
class_module_dir root class_id module_id = do
  modules_root ← class_modules_dir root class_id
  m ← reraise identifier (validate_identifier "module_id" (str module_id))
  guard (text_eq m (lower m)) not_lowercase
  ok (modules_root ++ m ∷ [])

unfoldable pub module_work_collection_dir : FilePath → Text → Text → Located FilePath
module_work_collection_dir root class_id module_id = do
  dir ← class_module_dir root class_id module_id
  ok (dir ++ lit "work" ∷ [])

unfoldable pub module_work_dir : FilePath → ModuleWorkRef → Located FilePath
module_work_dir root work = do
  w ← reraise routing (validate_module_work_ref work)
  dir ← module_work_collection_dir root w.class_id w.module_id
  ok (dir ++ w.work_id ∷ [])

unfoldable pub module_routes_dir : FilePath → ModuleWorkRef → Located FilePath
module_routes_dir root work = do dir ← module_work_dir root work; ok (dir ++ lit "routes" ∷ [])

unfoldable pub route_registration_path : FilePath → RouteLocator → Located FilePath
route_registration_path root locator = do
  l ← reraise routing (validate_route_locator locator)
  dir ← module_routes_dir root l.work
  ok (dir ++ (l.route_id ++ lit ".json") ∷ [])

-- `is_absolute`, a drive or a root, in either spelling of paths: the text starts with a slash or a
-- backslash, or its second character is a colon. (The first character of a drive is any character for
-- the pathlib of Python 3.12 and later, and a letter for that of Python 3.11.)
unfoldable pub is_anchored : Text → Bool
is_anchored [] = false
is_anchored (c ∷ []) = c == 47 || c == 92
is_anchored (c ∷ d ∷ s) = c == 47 || c == 92 || d == 58

-- `text.replace("\\", "/")`
unfoldable pub slashes : Text → Text
slashes = map (λ c. if c == 92 then 47 else c)

-- `path.relative_to(base)`
unfoldable pub relative_to : FilePath → FilePath → Option FilePath
relative_to p [] = some p
relative_to [] (t ∷ base) = none
relative_to (s ∷ p) (t ∷ base) = if text_eq s t then relative_to p base else none

unfoldable pub below : Option FilePath → FilePath → Located FilePath
below none p = err outside
below (some []) p = err no_descendant
below (some (s ∷ rest)) p = ok p

-- The components of the text, once it is tested.
unfoldable pub relative_components : Text → Located (List Text)
relative_components path_text = do
  guard (not (text_eq path_text [])) empty_path
  guard (text_eq path_text (strip path_text)) padded_path
  guard (not (any (λ c. c == 0) path_text)) nul_path
  guard (not (is_anchored path_text)) absolute_path
  let components = split 47 (slashes path_text)
  guard (not (any (λ s. text_eq s []) components)) empty_component
  guard (not (any (λ s. elem s (lit "." ∷ lit ".." ∷ [])) components)) traversal
  ok components

unfoldable pub safe_module_work_descendant : FilePath → ModuleWorkRef → Text → Located FilePath
safe_module_work_descendant root work path_text = do
  w ← reraise routing (validate_module_work_ref work)
  components ← relative_components path_text
  work_root ← module_work_dir root w
  below (relative_to (work_root ++ components) work_root) (work_root ++ components)
