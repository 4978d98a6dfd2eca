-- ===== src/Routing/RoundTrips.antt =====
-- Every model of pds_core/routing_models.py is read back from its dictionary.
use pds_core.Base.{
  >>=-eq-ok, ◌∙◌, ◌≡◌, refl, sym, String, Option, none, some, Text, ok, ◌>>=◌, text_eq, text_eq_iff,
  inl, inr, Decides-ok,
}
use pds_core.Json.{Value, item, exact_mapping}
use pds_core.Routing.{
  pds2_schema, ModuleWorkRef, RouteLocator, ModuleRecordRef, validate_module_work_ref,
  make_module_work_ref, validate_route_locator, make_route_locator, validate_module_record_ref,
  make_module_record_ref, require_string, string_item, require_exact_mapping,
}
use pds_core.Routing.Shapes.{
  module_work_ref_to_dict, work_from_fields, module_work_ref_from_dict, route_locator_to_dict,
  route_locator_from_dict, module_record_ref_to_dict, module_record_ref_from_dict, optional_string,
  optional_value,
}
use pds_core.Routing.Laws.{
  IsWork, IsRecordRef, validate_module_work_ref-Decides, validate_route_locator-Decides,
  validate_module_record_ref-Decides,
}

-- the functions that read a dictionary, for the `unfolding` lines below
reading : Unit {0}
unfolding require_exact_mapping exact_mapping string_item item require_string text_eq
reading = tt

-- Writing a work reference as a dictionary and reading it back is the same as validating it, errors
-- included.
pub module_work_ref_round_trip :
    (w : ModuleWorkRef)
    → (module_work_ref_to_dict w >>= module_work_ref_from_dict) ≡ validate_module_work_ref w
unfolding reading module_work_ref_to_dict module_work_ref_from_dict work_from_fields
    make_module_work_ref
module_work_ref_round_trip w = elim (validate_module_work_ref-Decides w) [
  | inl (e, p) ↦ rw (e, e)
  | inr ((x, e), n) ↦ rw e refl
]

-- Writing a locator as a dictionary and reading it back is the same as validating it, errors
-- included.
pub route_locator_round_trip :
    (l : RouteLocator)
    → (route_locator_to_dict l >>= route_locator_from_dict) ≡ validate_route_locator l
unfolding reading route_locator_to_dict route_locator_from_dict work_from_fields
    make_module_work_ref make_route_locator
route_locator_round_trip l = elim (validate_route_locator-Decides l) [
  | inl (e, p) ↦
      let same : record l { schema = pds2_schema } ≡ l = λ i. record l { schema = (sym p.0) i } in
      rw (
        e,
        Decides-ok _ l.work _ (validate_module_work_ref-Decides l.work) p.1,
        (text_eq_iff l.schema pds2_schema).1 p.0,
        same,
        e,
      )
  | inr ((x, e), n) ↦ rw e refl
]

optional_string-value :
    (o : Option Text) (name : String) → optional_string (optional_value o) name ≡ ok o
unfolding optional_string optional_value require_string
optional_string-value none name = refl
optional_string-value (some s) name = refl

-- Writing a record reference as a dictionary and reading it back is the same as validating it, errors
-- included.
pub module_record_ref_round_trip :
    (r : ModuleRecordRef)
    → (module_record_ref_to_dict r >>= module_record_ref_from_dict) ≡ validate_module_record_ref r
unfolding reading module_record_ref_to_dict module_record_ref_from_dict make_module_record_ref
module_record_ref_round_trip r = elim (validate_module_record_ref-Decides r) [
  | inl (e, p) ↦ rw (e, optional_string-value r.contract_version "contract_version", e)
  | inr ((x, e), n) ↦ rw e refl
]

-- An accepted work reference is written to a dictionary that is read back as the reference.
pub work_written :
    (w : ModuleWorkRef)
    → IsWork w
    → (v : Value) × (module_work_ref_to_dict w ≡ ok v) × (module_work_ref_from_dict v ≡ ok w)
work_written w valid =
    >>=-eq-ok (module_work_ref_to_dict w) _
      (module_work_ref_round_trip w ∙ Decides-ok _ w _ (validate_module_work_ref-Decides w) valid)

-- The same for a record reference.
pub record_ref_written :
    (r : ModuleRecordRef)
    → IsRecordRef r
    → (v : Value) × (module_record_ref_to_dict r ≡ ok v) × (module_record_ref_from_dict v ≡ ok r)
record_ref_written r valid =
    >>=-eq-ok (module_record_ref_to_dict r) _ (
      module_record_ref_round_trip r
      ∙ Decides-ok _ r _ (validate_module_record_ref-Decides r) valid)
