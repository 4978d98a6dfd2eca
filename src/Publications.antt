-- ===== src/Publications.antt =====
-- pds_core/publication_records.py: publications, which bind a revision of a record set to a manifest of
-- its producer, and withdrawals.
pub mod Manifests
pub mod Fields
pub mod Shapes
pub mod Series
pub mod Storage
pub mod Compatibility
use pds_core.Base.{
  ℕ, Bool, true, false, not, ◌&&◌, ◌||◌, Option, none, some, List, [], ◌∷◌, ◌++◌, Text, lit, String,
  Outcome, ok, err, ◌>>=◌, ◌>>◌, guard, reraise, any, all, elem, length, leb, ◌==◌, text_eq,
  text_ltb, strip, lower, is_control, sort_by, if◌then◌else◌,
}
use pds_core.Json.{Value, str, ℤ, MappingError}
use pds_core.Time.{DateTime, is_aware, before}
use pds_core.Files.{FilePath}
use pds_core.Identifiers.{IdentifierError, validate_identifier}
use pds_core.Pds2.{split}
use pds_core.Periods.{is_positive}
use pds_core.Routing.{
  RoutingModelError, ModuleWorkRef, ModuleRecordRef, validate_module_work_ref,
  validate_module_record_ref,
}
use pds_core.Routes.{is_anchored, relative_to}

pub data PublicationError : Type 0 where
  identifier : IdentifierError → PublicationError
  routing : RoutingModelError → PublicationError
  mapping : MappingError → PublicationError
  bad_schema_version bad_record_type bad_id bad_kind bad_capability : PublicationError
  duplicate_capability forbidden_capability other_module set_not_lowercase : PublicationError
  not_positive bad_algorithm bad_digest naive no_registration_revision : PublicationError
  registration_revision itself : PublicationError
  empty_path padded_path nul_path backslash absolute_path empty_component : PublicationError
  traversal outside not_json : PublicationError
  blank_reason padded_reason control_reason : PublicationError
  not_string not_integer bad_datetime capabilities_not_list : PublicationError
  other_predecessor other_work other_kind other_set stale_revision earlier : PublicationError
  mixed_series duplicate_publication duplicate_revision bad_roots : PublicationError
  missing_predecessor branching bad_heads cycle disconnected unending : PublicationError
  other_publication withdrawn_earlier : PublicationError

abbrev pub Published : Type 0 → Type 0
Published A = Outcome PublicationError A

abbrev pub publication_kinds : List Text
publication_kinds = lit "academic_result_set" ∷ lit "intervention_record_set" ∷ []

abbrev pub academic_result_capabilities : List Text
academic_result_capabilities =
    lit "points"
    ∷ lit "question_evidence"
    ∷ lit "multiple_attempts"
    ∷ lit "standards_ratings"
    ∷ lit "criterion_scores"
    ∷ lit "moderated_scores"
    ∷ []

abbrev pub intervention_capabilities : List Text
intervention_capabilities =
    lit "intervention_history" ∷ lit "intervention_status" ∷ lit "intervention_outcomes" ∷ []

abbrev pub publication_capabilities : List Text
publication_capabilities = academic_result_capabilities ++ intervention_capabilities

pub record PublicationRecord : Type 0 where
  pub schema_version : Text
  pub record_type : Text
  pub publication_id : Text
  pub work : ModuleWorkRef
  pub source_record : Option ModuleRecordRef
  pub publication_kind : Text
  pub capabilities : List Text
  pub record_set_id : Text
  pub record_set_revision : ℤ
  pub manifest_contract_version : Text
  pub manifest_path : Text
  pub manifest_digest_algorithm : Text
  pub manifest_digest : Text
  pub published_at : DateTime
  pub academic_work_registration_revision : Option ℤ
  pub supersedes_publication_id : Option Text

pub record PublicationWithdrawal : Type 0 where
  pub schema_version : Text
  pub record_type : Text
  pub publication_id : Text
  pub withdrawn_at : DateTime
  pub reason : Text

-- The class [0-9a-f].
abbrev pub hex_char : ℕ → Bool
hex_char c = (leb 48 c && leb c 57) || (leb 97 c && leb c 102)

-- What follows a prefix.
unfoldable pub after_prefix : Text → Text → Option Text
after_prefix [] s = some s
after_prefix (x ∷ p) [] = none
after_prefix (x ∷ p) (y ∷ s) = if x == y then after_prefix p s else none

-- `_PUBLICATION_ID.fullmatch`: `pub_` and 32 hexadecimal characters.
unfoldable pub is_publication_id : Text → Bool
is_publication_id s = elim (after_prefix (lit "pub_") s) [
  | none ↦ false
  | some rest ↦ length rest == 32 && all hex_char rest
]

-- `_MANIFEST_DIGEST.fullmatch`
abbrev pub is_digest : Text → Bool
is_digest s = length s == 64 && all hex_char s

unfoldable pub publication_work : ModuleWorkRef → Published ModuleWorkRef
publication_work w = reraise routing (validate_module_work_ref w)

-- `components[: len(prefix)] == prefix`, with more components after them
unfoldable pub has_more : Option FilePath → Bool
has_more none = false
has_more (some []) = false
has_more (some (s ∷ rest)) = true

-- `components[-1]`
unfoldable pub last_component : List Text → Text
last_component [] = []
last_component (s ∷ []) = s
last_component (s ∷ t ∷ rest) = last_component (t ∷ rest)

unfoldable pub ends_with : Text → Text → Bool
ends_with end [] = text_eq [] end
ends_with end (c ∷ s) = text_eq (c ∷ s) end || ends_with end s

abbrev pub work_prefix : ModuleWorkRef → List Text
work_prefix w =
    lit "classes" ∷ w.class_id ∷ lit "modules" ∷ w.module_id ∷ lit "work" ∷ w.work_id ∷ []

unfoldable pub validate_publication_manifest_path : ModuleWorkRef → Text → Published Text
validate_publication_manifest_path work path = do
  w ← publication_work work
  guard (not (text_eq path [])) empty_path
  guard (text_eq path (strip path)) padded_path
  guard (not (any (λ c. c == 0) path)) nul_path
  guard (not (any (λ c. c == 92) path)) backslash
  guard (not (is_anchored path)) absolute_path
  let components = split 47 path
  guard (not (any (λ s. text_eq s []) components)) empty_component
  guard (not (any (λ s. elem s (lit "." ∷ lit ".." ∷ [])) components)) traversal
  guard (has_more (relative_to components (work_prefix w))) outside
  guard (ends_with (lit ".json") (last_component components)) not_json
  ok path

-- `len(set(items)) != len(items)`
unfoldable pub has_repeats : List Text → Bool
has_repeats [] = false
has_repeats (s ∷ ss) = elem s ss || has_repeats ss

unfoldable pub sorted_capabilities : List Text → Published (List Text)
sorted_capabilities cs = do
  guard (all (λ c. elem c publication_capabilities) cs) bad_capability
  guard (not (has_repeats cs)) duplicate_capability
  ok (sort_by text_ltb cs)

unfoldable pub publication_identifier : String → Text → Published Text
publication_identifier name s = reraise identifier (validate_identifier name (str s))

unfoldable pub check_source : ModuleWorkRef → Option ModuleRecordRef → Published (Unit {0})
check_source w none = ok tt
check_source w (some r) = do
  reraise routing (validate_module_record_ref r)
  guard (text_eq r.module_id w.module_id) other_module

abbrev pub is_academic : Text → Bool
is_academic kind = text_eq kind (lit "academic_result_set")

-- No capability of the other kind.
unfoldable pub check_capabilities : Text → List Text → Published (Unit {0})
check_capabilities kind cs =
    guard
      (not (
        any
          (λ c.
            elem c (
              if is_academic kind then intervention_capabilities else academic_result_capabilities))
          cs))
      forbidden_capability

unfoldable pub check_registration_revision : Text → Option ℤ → Published (Unit {0})
check_registration_revision kind none = guard (not (is_academic kind)) no_registration_revision
check_registration_revision kind (some n) =
    if is_academic kind then guard (is_positive n) not_positive else err registration_revision

unfoldable pub check_predecessor : Text → Option Text → Published (Unit {0})
check_predecessor id none = ok tt
check_predecessor id (some s) = do
  guard (is_publication_id s) bad_id
  guard (not (text_eq s id)) itself

-- `_validate_publication_fields`, before it sorts the capabilities and after.
unfoldable pub check_identity : PublicationRecord → Published (Unit {0})
check_identity r = do
  guard (text_eq r.schema_version (lit "1")) bad_schema_version
  guard (text_eq r.record_type (lit "publication_record")) bad_record_type
  guard (is_publication_id r.publication_id) bad_id
  w ← publication_work r.work
  check_source w r.source_record
  guard (elem r.publication_kind publication_kinds) bad_kind

unfoldable pub check_binding : PublicationRecord → Published (Unit {0})
check_binding r = do
  check_capabilities r.publication_kind r.capabilities
  publication_identifier "record_set_id" r.record_set_id
  guard (text_eq r.record_set_id (lower r.record_set_id)) set_not_lowercase
  guard (is_positive r.record_set_revision) not_positive
  publication_identifier "manifest_contract_version" r.manifest_contract_version
  validate_publication_manifest_path r.work r.manifest_path
  guard (text_eq r.manifest_digest_algorithm (lit "sha256")) bad_algorithm
  guard (is_digest r.manifest_digest) bad_digest
  guard (is_aware r.published_at) naive
  check_registration_revision r.publication_kind r.academic_work_registration_revision
  check_predecessor r.publication_id r.supersedes_publication_id

-- The constructor call with its `__post_init__`.
unfoldable pub validate_publication_record : PublicationRecord → Published PublicationRecord
validate_publication_record r = do
  check_identity r
  cs ← sorted_capabilities r.capabilities
  check_binding (record r { capabilities = cs })
  ok (record r { capabilities = cs })

unfoldable pub validate_reason : Text → Published (Unit {0})
validate_reason s = do
  guard (not (text_eq (strip s) [])) blank_reason
  guard (text_eq s (strip s)) padded_reason
  guard (not (any is_control s)) control_reason

unfoldable pub validate_publication_withdrawal :
    PublicationWithdrawal → Published PublicationWithdrawal
validate_publication_withdrawal d = do
  guard (text_eq d.schema_version (lit "1")) bad_schema_version
  guard (text_eq d.record_type (lit "publication_withdrawal")) bad_record_type
  guard (is_publication_id d.publication_id) bad_id
  guard (is_aware d.withdrawn_at) naive
  validate_reason d.reason
  ok d
