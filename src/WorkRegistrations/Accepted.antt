-- ===== src/WorkRegistrations/Accepted.antt =====
-- What an accepted registration of a work satisfies.
use mathlib.Core.Path.{subst}
use pds_core.Base.{
  ◌≡◌, refl, true, List, ok, reraise, >>=-eq-ok, >>-guard-inv, ok-inj, Decides-inv, reraise-eq-ok,
}
use pds_core.Time.{is_aware}
use pds_core.Periods.{is_positive}
use pds_core.Routing.{ModuleRecordRef, validate_module_work_ref}
use pds_core.Routing.Laws.{IsWork, validate_module_work_ref-Decides}
use pds_core.WorkRegistrations.{
  routing, bad_schema_version, bad_record_type, not_positive, kind_not_lowercase, bad_intent,
  bad_lifecycle, naive, AcademicWorkRegistration, registration_work, registration_identifier,
  validate_title, sorted_sources, check_declaration, validate_academic_work_registration,
}
use pds_core.WorkRegistrations.Sources.{sorted_sources_idem}

-- An accepted registration, as the constructor leaves it.
pub record IsDeclared (r : AcademicWorkRegistration) : Type 0 where
  pub accepted : validate_academic_work_registration r ≡ ok r
  pub worked : IsWork r.work
  pub positive : is_positive r.registration_revision ≡ true
  pub created : is_aware r.created_at ≡ true
  pub updated : is_aware r.updated_at ≡ true
  pub sourced : sorted_sources r.work r.source_records ≡ ok r.source_records

check_declaration-inv :
    (r : AcademicWorkRegistration) {u : Unit {0}}
    → check_declaration r ≡ ok u
    → IsWork r.work
      × (is_positive r.registration_revision ≡ true)
      × (is_aware r.created_at ≡ true)
      × (is_aware r.updated_at ≡ true)
unfolding check_declaration registration_work
check_declaration-inv r h =
    let (_, h1) = >>-guard-inv _ bad_schema_version _ h in
    let (_, h2) = >>-guard-inv _ bad_record_type _ h1 in
    let (_, accepted, h3) = >>=-eq-ok (reraise routing (validate_module_work_ref r.work)) _ h2 in
    let (_, valid) =
      Decides-inv _ r.work _ (validate_module_work_ref-Decides r.work)
        (reraise-eq-ok routing _ accepted) in
    let (positive, h4) = >>-guard-inv _ not_positive _ h3 in
    let (_, _, h5) =
      >>=-eq-ok (registration_identifier "producer_contract_version" r.producer_contract_version) _
        h4 in
    let (_, _, h6) = >>=-eq-ok (validate_title r.title) _ h5 in
    let (_, _, h7) = >>=-eq-ok (registration_identifier "work_kind" r.work_kind) _ h6 in
    let (_, h8) = >>-guard-inv _ kind_not_lowercase _ h7 in
    let (_, h9) = >>-guard-inv _ bad_intent _ h8 in
    let (_, h10) = >>-guard-inv _ bad_lifecycle _ h9 in
    let (created, h11) = >>-guard-inv _ naive _ h10 in
    let (updated, _) = >>-guard-inv _ naive _ h11 in (valid, positive, created, updated)

-- What the constructor returns is its argument with the source records in order, and it is accepted
-- again unchanged.
pub validate_academic_work_registration-IsDeclared :
    (r s : AcademicWorkRegistration)
    → validate_academic_work_registration r ≡ ok s
    → IsDeclared s × (s ≡ record r { source_records = s.source_records })
unfolding validate_academic_work_registration check_declaration
validate_academic_work_registration-IsDeclared r s h =
    let (_, checked, h1) = >>=-eq-ok (check_declaration r) _ h in
    let (ss, sorted, h2) = >>=-eq-ok (sorted_sources r.work r.source_records) _ h1 in
    let (worked, positive, created, updated) = check_declaration-inv r checked in
    subst
      (λ (x : AcademicWorkRegistration).
        IsDeclared x × (x ≡ record r { source_records = x.source_records }))
      (ok-inj h2)
      (
        record {
          accepted = again ss checked (sorted_sources_idem r.work r.source_records ss sorted);
          worked = worked;
          positive = positive;
          created = created;
          updated = updated;
          sourced = sorted_sources_idem r.work r.source_records ss sorted;
        },
        refl,
      )
  where
    again :
        (ss : List ModuleRecordRef) {u : Unit {0}}
        → check_declaration (record r { source_records = ss }) ≡ ok u
        → sorted_sources r.work ss ≡ ok ss
        → validate_academic_work_registration (record r { source_records = ss })
          ≡ ok (record r { source_records = ss })
    again ss checked sorted = rw (checked, sorted) refl
