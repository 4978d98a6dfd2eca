-- ===== src/WorkRegistrations/Shapes/RoundTrip.antt =====
-- Registrations of works are read back from their dictionaries.
use pds_core.Base.{
  ◌≡◌, refl, inl, inr, List, [], ◌∷◌, ok, ◌>>=◌, text_eq, true, In, >>=-eq-ok, Outcome-cases,
}
use pds_core.Json.{Value, Items, nil, cons, str, dict, item, exact_mapping}
use pds_core.Time.{DateTime, is_aware, IsoText}
use pds_core.Routing.{ModuleWorkRef, ModuleRecordRef}
use pds_core.Routing.Shapes.{module_work_ref_from_dict}
use pds_core.Routing.RoundTrips.{work_written, record_ref_written}
use pds_core.WorkRegistrations.{
  AcademicWorkRegistration, check_sources, sorted_sources, validate_academic_work_registration,
}
use pds_core.WorkRegistrations.Sources.{IsSource, check_sources_iff}
use pds_core.WorkRegistrations.Accepted.{IsDeclared, validate_academic_work_registration-IsDeclared}
use pds_core.WorkRegistrations.Shapes.{
  require_str, require_int, registration_item, registration_string, sources_to_items,
  sources_from_items, records_list, datetime_from_iso, datetime_item, registration_fields,
  academic_work_registration_to_dict, academic_work_registration_from_dict,
}

-- the functions that read a dictionary, for the `unfolding` lines below
reading : Unit {0}
unfolding exact_mapping item require_str require_int registration_item registration_string text_eq
reading = tt

-- Source records that are accepted are read back.
sources_written :
    (w : ModuleWorkRef) (rs : List ModuleRecordRef)
    → ((r : ModuleRecordRef) → In r rs → IsSource w r)
    → (vs : Items) × (sources_to_items rs ≡ ok vs) × (sources_from_items vs ≡ ok rs)
unfolding sources_to_items sources_from_items
sources_written w [] h = (nil, refl, refl)
sources_written w (r ∷ rs) h =
    let (v, written, read) = record_ref_written r (h r (inl refl)).0 in
    let (vs, all_written, all_read) = sources_written w rs (λ s i. h s (inr i)) in
    (cons v vs, rw (written, all_written) refl, rw (read, all_read) refl)

sorted_sources-IsSource :
    (w : ModuleWorkRef) (rs : List ModuleRecordRef) {ss : List ModuleRecordRef}
    → sorted_sources w rs ≡ ok ss
    → (r : ModuleRecordRef) → In r rs
    → IsSource w r
unfolding sorted_sources
sorted_sources-IsSource w rs h =
    let (_, checked, _) = >>=-eq-ok (check_sources w rs) _ h in (check_sources_iff w rs).0 checked

module _ (iso : IsoText) where
  open iso use {isoformat, reads}

  datetime_from_iso-isoformat :
      (d : DateTime) → is_aware d ≡ true → datetime_from_iso iso (str (isoformat d)) ≡ ok d
  unfolding datetime_from_iso require_str
  datetime_from_iso-isoformat d h = rw (reads d, h) refl

  from_dict-registration_fields :
      (r : AcademicWorkRegistration) (w : Value) (vs : Items)
      → IsDeclared r
      → module_work_ref_from_dict w ≡ ok r.work
      → sources_from_items vs ≡ ok r.source_records
      → academic_work_registration_from_dict iso (dict (registration_fields iso r w vs)) ≡ ok r
  unfolding reading academic_work_registration_from_dict registration_fields records_list
      datetime_item
  from_dict-registration_fields r w vs valid read_work read_sources =
      rw
        (
          read_work,
          read_sources,
          datetime_from_iso-isoformat r.created_at valid.created,
          datetime_from_iso-isoformat r.updated_at valid.updated,
        )
        valid.accepted

  -- Writing a registration as a dictionary and reading it back is the same as validating it, errors
  -- included.
  pub academic_work_registration_round_trip :
      (r : AcademicWorkRegistration)
      → (academic_work_registration_to_dict iso r >>= academic_work_registration_from_dict iso)
        ≡ validate_academic_work_registration r
  unfolding academic_work_registration_to_dict
  academic_work_registration_round_trip r =
      elim (Outcome-cases (validate_academic_work_registration r)) [
        | inl (s, e) ↦
            let (valid, _) = validate_academic_work_registration-IsDeclared r s e in
            let (w, work, read_work) = work_written s.work valid.worked in
            let (vs, sources, read_sources) =
              sources_written s.work s.source_records
                (sorted_sources-IsSource s.work s.source_records valid.sourced) in
            rw (e, work, sources, from_dict-registration_fields s w vs valid read_work read_sources)
              refl
        | inr (x, e) ↦ rw e refl
      ]
