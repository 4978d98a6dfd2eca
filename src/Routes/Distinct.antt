-- ===== src/Routes/Distinct.antt =====
-- Valid names give the paths, and different names give different paths.
use mathlib.Core.List.{append_assoc}
use pds_core.Base.{
  length, length-append, >>=-eq-ok, reraise-eq-ok, arith, ok-inj, ◌≡◌, refl, ◌∙◌, sym, ap, List, [],
  ◌∷◌, ◌++◌, Text, lit, ok, reraise, text_eq_iff, lower, Decides-ok, Decides-inv,
}
use pds_core.Files.{FilePath}
use pds_core.Identifiers.Laws.{IsIdentifier, validate_identifier-Decides}
use pds_core.Routing.{ModuleWorkRef, RouteLocator, validate_route_locator}
use pds_core.Routing.Laws.{
  IsLowercase, IsWork, IsLocator, validate_module_work_ref-Decides, validate_route_locator-Decides,
}
use pds_core.Routes.{
  routing, class_dir, class_modules_dir, class_module_dir, module_work_collection_dir,
  module_work_dir, module_routes_dir, route_registration_path,
}

abbrev pub class_parts : Text → List Text
class_parts c = lit "classes" ∷ c ∷ []

abbrev pub module_parts : Text → Text → List Text
module_parts c m = lit "classes" ∷ c ∷ lit "modules" ∷ m ∷ []

abbrev pub work_parts : ModuleWorkRef → List Text
work_parts w =
    lit "classes" ∷ w.class_id ∷ lit "modules" ∷ w.module_id ∷ lit "work" ∷ w.work_id ∷ []

-- the composed paths, for the `unfolding` lines below
paths : Unit {0}
unfolding class_dir class_modules_dir class_module_dir module_work_collection_dir module_work_dir
    module_routes_dir route_registration_path
paths = tt

pub class_dir-IsIdentifier :
    (root : FilePath) (c : Text) → IsIdentifier c → class_dir root c ≡ ok (root ++ class_parts c)
unfolding paths
class_dir-IsIdentifier root c h =
    rw
      (
        Decides-ok _ c _ (validate_identifier-Decides "class_id" c) h,
        append_assoc root (lit "classes" ∷ []) (c ∷ []),
      )
      refl

pub class_module_dir-IsLowercase :
    (root : FilePath) (c m : Text)
    → IsIdentifier c
    → IsLowercase m
    → class_module_dir root c m ≡ ok (root ++ module_parts c m)
unfolding class_module_dir class_modules_dir
class_module_dir-IsLowercase root c m h k =
    rw
      (
        class_dir-IsIdentifier root c h,
        append_assoc root (class_parts c) (lit "modules" ∷ []),
        Decides-ok _ m _ (validate_identifier-Decides "module_id" m) k.0,
        (text_eq_iff m (lower m)).1 k.1,
        append_assoc root (class_parts c ++ lit "modules" ∷ []) (m ∷ []),
      )
      refl

pub module_work_dir-IsWork :
    (root : FilePath) (w : ModuleWorkRef)
    → IsWork w
    → module_work_dir root w ≡ ok (root ++ work_parts w)
unfolding module_work_dir module_work_collection_dir
module_work_dir-IsWork root w v =
    rw
      (
        Decides-ok _ w _ (validate_module_work_ref-Decides w) v,
        class_module_dir-IsLowercase root w.class_id w.module_id v.1 v.0,
        append_assoc root (module_parts w.class_id w.module_id) (lit "work" ∷ []),
        append_assoc root (module_parts w.class_id w.module_id ++ lit "work" ∷ []) (w.work_id ∷ []),
      )
      refl

pub route_registration_path-IsLocator :
    (root : FilePath) (l : RouteLocator)
    → IsLocator l
    → route_registration_path root l
      ≡ ok (root ++ (work_parts l.work ++ lit "routes" ∷ (l.route_id ++ lit ".json") ∷ []))
unfolding route_registration_path module_routes_dir
route_registration_path-IsLocator root l v =
    rw
      (
        Decides-ok _ l _ (validate_route_locator-Decides l) v,
        module_work_dir-IsWork root l.work v.1,
        append_assoc root (work_parts l.work) (lit "routes" ∷ []),
        append_assoc root (work_parts l.work ++ lit "routes" ∷ [])
            ((l.route_id ++ lit ".json") ∷ []),
      )
      refl

pub cancel_root : (root : FilePath) {p q : FilePath} → root ++ p ≡ root ++ q → p ≡ q
cancel_root [] h = h
cancel_root (s ∷ root) h = cancel_root root cc

-- Equal paths have equal names in them.
pub work_parts_inj :
    (w x : ModuleWorkRef) (p q : FilePath)
    → work_parts w ++ p ≡ work_parts x ++ q
    → (w ≡ x) × (p ≡ q)
work_parts_inj w x p q h = (cc, cc)

cancel_suffix : (s t u : Text) → s ++ u ≡ t ++ u → s ≡ t
cancel_suffix [] [] u h = refl
cancel_suffix [] (y ∷ t) u h = absurd (omega (arith, ap length h, length-append t u))
cancel_suffix (x ∷ s) [] u h = absurd (omega (arith, ap length h, length-append s u))
cancel_suffix (x ∷ s) (y ∷ t) u h =
    let same : s ≡ t = cancel_suffix s t u cc in let first : x ≡ y = cc in cc

route_registration_path-inv :
    (root : FilePath) (l : RouteLocator) {p : FilePath}
    → route_registration_path root l ≡ ok p
    → IsLocator l
      × (p ≡ root ++ (work_parts l.work ++ lit "routes" ∷ (l.route_id ++ lit ".json") ∷ []))
unfolding route_registration_path
route_registration_path-inv root l {p} h =
    let (_, accepted, _) = >>=-eq-ok (reraise routing (validate_route_locator l)) _ h in
    let valid =
      (Decides-inv _ l _ (validate_route_locator-Decides l) (reraise-eq-ok routing _ accepted)).1 in
    (valid, ok-inj (sym h ∙ route_registration_path-IsLocator root l valid))

-- Two accepted locators whose registrations stand at the same path are the same locator.
pub route_registration_path_inj :
    (root : FilePath) (l k : RouteLocator) (p : FilePath)
    → route_registration_path root l ≡ ok p
    → route_registration_path root k ≡ ok p
    → l ≡ k
route_registration_path_inj root l k p h i =
    let (v, p_l) = route_registration_path-inv root l h in
    let (u, p_k) = route_registration_path-inv root k i in
    let (same_work, same_file) =
      work_parts_inj l.work k.work _ _ (cancel_root root (sym p_l ∙ p_k)) in
    let same_route : l.route_id ≡ k.route_id =
      cancel_suffix l.route_id k.route_id (lit ".json") cc in
    let same_schema : l.schema ≡ k.schema = v.0 ∙ sym u.0 in cc
