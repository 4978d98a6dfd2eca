-- ===== src/Routing/Laws.antt =====
-- Which identities the validators of pds_core/routing_models.py accept.
use pds_core.Base.{
  true, refl, text_eq_refl, arith, ◌≡◌, ◌↔◌, Option, none, some, String, Text, ok, text_eq_iff,
  lower, Decides, Decides-iff, Decides-map, Decides-return, Decides-guard, Decides-then,
  Decides-reraise,
}
use pds_core.Json.{str}
use pds_core.Identifiers.Laws.{IsIdentifier, validate_identifier-Decides}
use pds_core.Routing.{
  work_eq, identifier, pds2_schema, ModuleWorkRef, RouteLocator, ModuleRecordRef, route_identifier,
  lowercase_identifier, validate_module_work_ref, validate_route_locator, optional_identifier,
  validate_module_record_ref,
}

abbrev pub IsLowercase : Text → Type 0
IsLowercase s = IsIdentifier s × (s ≡ lower s)

abbrev pub IsWork : ModuleWorkRef → Type 0
IsWork w = IsLowercase w.module_id × IsIdentifier w.class_id × IsIdentifier w.work_id

abbrev pub IsLocator : RouteLocator → Type 0
IsLocator l = (l.schema ≡ pds2_schema) × IsWork l.work × IsIdentifier l.route_id

abbrev pub IsOptional : Option Text → Type 0
IsOptional none = Unit
IsOptional (some s) = IsIdentifier s

abbrev pub IsRecordRef : ModuleRecordRef → Type 0
IsRecordRef r =
    IsLowercase r.module_id
    × IsLowercase r.record_kind
    × IsIdentifier r.record_id
    × IsOptional r.contract_version

route_identifier-Decides :
    (name : String) (s : Text) → Decides (route_identifier name (str s)) s (IsIdentifier s)
unfolding route_identifier
route_identifier-Decides name s =
    Decides-reraise identifier _ s _ (validate_identifier-Decides name s)

lowercase_identifier-Decides :
    (name : String) (s : Text) → Decides (lowercase_identifier name (str s)) s (IsLowercase s)
unfolding lowercase_identifier
lowercase_identifier-Decides name s = Decides-then _ s _ s _ _ (route_identifier-Decides name s) (
    Decides-map _ s ((s ≡ lower s) × Unit) _ ((λ h. h.0), (λ h. (h, tt)))
      (Decides-guard _ _ _ s _ _ (text_eq_iff s (lower s)) (Decides-return s)))

pub validate_module_work_ref-Decides :
    (w : ModuleWorkRef) → Decides (validate_module_work_ref w) w (IsWork w)
unfolding validate_module_work_ref
validate_module_work_ref-Decides w =
    Decides-map _ w _ _ ((λ h. (h.0, h.1.0, h.1.1.0)), (λ h. (h.0, (h.1, (h.2, tt)))))
      (Decides-then _ w.module_id _ w _ _ (lowercase_identifier-Decides "module_id" w.module_id) (
        Decides-then _ w.class_id _ w _ _ (route_identifier-Decides "class_id" w.class_id) (
          Decides-then _ w.work_id _ w _ _ (route_identifier-Decides "work_id" w.work_id)
            (Decides-return w))))

pub validate_route_locator-Decides :
    (l : RouteLocator) → Decides (validate_route_locator l) l (IsLocator l)
unfolding validate_route_locator
validate_route_locator-Decides l =
    Decides-map _ l _ _ ((λ h. (h.0, h.1.0, h.1.1.0)), (λ h. (h.0, (h.1, (h.2, tt)))))
      (Decides-guard _ _ _ l _ _ (text_eq_iff l.schema pds2_schema) (
        Decides-then _ l.work _ l _ _ (validate_module_work_ref-Decides l.work) (
          Decides-then _ l.route_id _ l _ _ (route_identifier-Decides "route_id" l.route_id)
            (Decides-return l))))

optional_identifier-Decides :
    (name : String) (o : Option Text) → Decides (optional_identifier name o) o (IsOptional o)
unfolding optional_identifier
optional_identifier-Decides name none = Decides-return none
optional_identifier-Decides name (some s) =
    Decides-map _ (some s) _ _ ((λ h. h.0), (λ h. (h, tt)))
      (Decides-then _ s _ (some s) _ _ (route_identifier-Decides name s) (Decides-return (some s)))

pub validate_module_record_ref-Decides :
    (r : ModuleRecordRef) → Decides (validate_module_record_ref r) r (IsRecordRef r)
unfolding validate_module_record_ref
validate_module_record_ref-Decides r =
    Decides-map _ r _ _
      ((λ h. (h.0, h.1.0, h.1.1.0, h.1.1.1.0)), (λ h. (h.0, (h.1, (h.2, (h.3, tt))))))
      (Decides-then _ r.module_id _ r _ _ (lowercase_identifier-Decides "module_id" r.module_id) (
        Decides-then _ r.record_kind _ r _ _
          (lowercase_identifier-Decides "record_kind" r.record_kind)
          (Decides-then _ r.record_id _ r _ _ (route_identifier-Decides "record_id" r.record_id) (
            Decides-then _ r.contract_version _ r _ _
              (optional_identifier-Decides "contract_version" r.contract_version)
              (Decides-return r)))))

-- A locator is accepted exactly when its schema is PDS2, its module id is a lowercase identifier
-- and its other ids are identifiers; what is accepted is returned unchanged.
validate_route_locator_iff :
    (l k : RouteLocator) → (validate_route_locator l ≡ ok k) ↔ ((k ≡ l) × IsLocator l)
validate_route_locator_iff l k = Decides-iff _ l k _ (validate_route_locator-Decides l)

pub work_eq_iff : (a b : ModuleWorkRef) → (work_eq a b ≡ true) ↔ (a ≡ b)
unfolding work_eq
work_eq_iff a b = (
  (λ h. ground (
    arith,
    h,
    text_eq_iff a.module_id b.module_id,
    text_eq_iff a.class_id b.class_id,
    text_eq_iff a.work_id b.work_id,
  )),
  (λ h. rw (h, text_eq_refl b.module_id, text_eq_refl b.class_id, text_eq_refl b.work_id) refl),
)
