-- ===== src/WorkRegistrations.antt =====
-- pds_core/academic_work_registrations.py: the revisions that declare the academic intent of a work.
pub mod Sources
pub mod Accepted
pub mod Shapes
pub mod Transitions
use pds_core.Base.{
  Bool, true, false, not, ◌&&◌, ◌||◌, Option, none, some, List, [], ◌∷◌, Text, lit, String, Outcome,
  ok, err, ◌>>=◌, ◌>>◌, guard, reraise, any, elem, text_eq, text_ltb, strip, lower, is_control,
  sort_by,
}
use pds_core.Json.{str, ℤ, int_ltb, MappingError}
use pds_core.Time.{DateTime, is_aware, before, same_instant}
use pds_core.Identifiers.{IdentifierError, validate_identifier}
use pds_core.Periods.{is_positive}
use pds_core.Routing.{
  RoutingModelError, ModuleWorkRef, ModuleRecordRef, work_eq, validate_module_work_ref,
  validate_module_record_ref,
}

pub data WorkError : Type 0 where
  identifier : IdentifierError → WorkError
  routing : RoutingModelError → WorkError
  mapping : MappingError → WorkError
  bad_schema_version bad_record_type not_positive blank_title padded_title control_title : WorkError
  kind_not_lowercase bad_intent bad_lifecycle naive updated_before_created : WorkError
  other_module duplicate_source : WorkError
  not_string not_integer bad_datetime sources_not_list : WorkError
  other_work stale_revision created_at_changed updated_earlier : WorkError

abbrev pub Declared : Type 0 → Type 0
Declared A = Outcome WorkError A

abbrev pub academic_work_intents : List Text
academic_work_intents =
    lit "formative"
    ∷ lit "summative"
    ∷ lit "diagnostic"
    ∷ lit "practice"
    ∷ lit "feedback_only"
    ∷ lit "reporting_only"
    ∷ []

abbrev pub registration_lifecycles : List Text
registration_lifecycles = lit "planned" ∷ lit "active" ∷ lit "closed" ∷ lit "cancelled" ∷ []

abbrev pub registration_record_type : Text
registration_record_type = lit "academic_work_registration"

pub record AcademicWorkRegistration : Type 0 where
  pub schema_version : Text
  pub record_type : Text
  pub work : ModuleWorkRef
  pub registration_revision : ℤ
  pub producer_contract_version : Text
  pub title : Text
  pub work_kind : Text
  pub academic_intent : Text
  pub lifecycle : Text
  pub created_at : DateTime
  pub updated_at : DateTime
  pub source_records : List ModuleRecordRef

unfoldable pub registration_work : ModuleWorkRef → Declared ModuleWorkRef
registration_work w = reraise routing (validate_module_work_ref w)

unfoldable pub registration_identifier : String → Text → Declared Text
registration_identifier name s = reraise identifier (validate_identifier name (str s))

unfoldable pub validate_title : Text → Declared (Unit {0})
validate_title s = do
  guard (not (text_eq (strip s) [])) blank_title
  guard (text_eq s (strip s)) padded_title
  guard (not (any is_control s)) control_title

unfoldable pub version_eq : Option Text → Option Text → Bool
version_eq none none = true
version_eq (some s) (some t) = text_eq s t
version_eq _ _ = false

-- `a == b`
unfoldable pub record_ref_eq : ModuleRecordRef → ModuleRecordRef → Bool
record_ref_eq a b =
    text_eq a.module_id b.module_id
    && text_eq a.record_kind b.record_kind
    && text_eq a.record_id b.record_id
    && version_eq a.contract_version b.contract_version

-- `(version is not None, version or "")`
unfoldable pub version_ltb : Option Text → Option Text → Bool
version_ltb none none = false
version_ltb none (some t) = true
version_ltb (some s) none = false
version_ltb (some s) (some t) = text_ltb s t

unfoldable pub source_ltb : ModuleRecordRef → ModuleRecordRef → Bool
source_ltb a b =
    text_ltb a.record_kind b.record_kind
    || (text_eq a.record_kind b.record_kind
        && (text_ltb a.record_id b.record_id
            || (text_eq a.record_id b.record_id
                && version_ltb a.contract_version b.contract_version)))

unfoldable pub check_sources : ModuleWorkRef → List ModuleRecordRef → Declared (Unit {0})
check_sources w [] = ok tt
check_sources w (r ∷ rs) = do
  reraise routing (validate_module_record_ref r)
  guard (text_eq r.module_id w.module_id) other_module
  check_sources w rs

-- `len(set(validated)) != len(validated)`
unfoldable pub repeated_source : List ModuleRecordRef → Bool
repeated_source [] = false
repeated_source (r ∷ rs) = any (record_ref_eq r) rs || repeated_source rs

unfoldable pub sorted_sources :
    ModuleWorkRef → List ModuleRecordRef → Declared (List ModuleRecordRef)
sorted_sources w rs = do
  check_sources w rs
  guard (not (repeated_source rs)) duplicate_source
  ok (sort_by source_ltb rs)

-- `__post_init__`, before it sorts the source records.
unfoldable pub check_declaration : AcademicWorkRegistration → Declared (Unit {0})
check_declaration r = do
  guard (text_eq r.schema_version (lit "1")) bad_schema_version
  guard (text_eq r.record_type registration_record_type) bad_record_type
  registration_work r.work
  guard (is_positive r.registration_revision) not_positive
  registration_identifier "producer_contract_version" r.producer_contract_version
  validate_title r.title
  registration_identifier "work_kind" r.work_kind
  guard (text_eq r.work_kind (lower r.work_kind)) kind_not_lowercase
  guard (elem r.academic_intent academic_work_intents) bad_intent
  guard (elem r.lifecycle registration_lifecycles) bad_lifecycle
  guard (is_aware r.created_at) naive
  guard (is_aware r.updated_at) naive
  guard (not (before r.updated_at r.created_at)) updated_before_created

-- The constructor call with its `__post_init__`.
unfoldable pub validate_academic_work_registration :
    AcademicWorkRegistration → Declared AcademicWorkRegistration
validate_academic_work_registration r = do
  check_declaration r
  sources ← sorted_sources r.work r.source_records
  ok (record r { source_records = sources })

unfoldable pub validate_academic_work_registration_transition :
    AcademicWorkRegistration → AcademicWorkRegistration → Declared AcademicWorkRegistration
validate_academic_work_registration_transition previous candidate = do
  old ← validate_academic_work_registration previous
  new ← validate_academic_work_registration candidate
  guard (work_eq new.work old.work) other_work
  guard (int_ltb old.registration_revision new.registration_revision) stale_revision
  guard (same_instant new.created_at old.created_at) created_at_changed
  guard (not (before new.updated_at old.updated_at)) updated_earlier
  ok new
