-- ===== src/Publications/Storage/Equality.antt =====
-- The equality of two publications, and of what they say of a revision of their record set.
use pds_core.Base.{Bool, true, false, ◌&&◌, Option, none, some, List, [], ◌∷◌, Text, text_eq}
use pds_core.Json.{ℤ, int_eq}
use pds_core.Time.{same_instant}
use pds_core.Routing.{work_eq, ModuleRecordRef}
use pds_core.Publications.{PublicationRecord, PublicationWithdrawal}
use pds_core.WorkRegistrations.{record_ref_eq, version_eq}

unfoldable pub source_eq : Option ModuleRecordRef → Option ModuleRecordRef → Bool
source_eq none none = true
source_eq (some a) (some b) = record_ref_eq a b
source_eq _ _ = false

unfoldable pub texts_eq : List Text → List Text → Bool
texts_eq [] [] = true
texts_eq (s ∷ ss) (t ∷ ts) = text_eq s t && texts_eq ss ts
texts_eq _ _ = false

unfoldable pub revision_eq : Option ℤ → Option ℤ → Bool
revision_eq none none = true
revision_eq (some m) (some n) = int_eq m n
revision_eq _ _ = false

-- `_logical_revision_metadata(a) == _logical_revision_metadata(b)`
unfoldable pub metadata_eq : PublicationRecord → PublicationRecord → Bool
metadata_eq a b =
    work_eq a.work b.work
    && source_eq a.source_record b.source_record
    && text_eq a.publication_kind b.publication_kind
    && texts_eq a.capabilities b.capabilities
    && text_eq a.record_set_id b.record_set_id
    && int_eq a.record_set_revision b.record_set_revision
    && text_eq a.manifest_contract_version b.manifest_contract_version
    && text_eq a.manifest_path b.manifest_path
    && text_eq a.manifest_digest_algorithm b.manifest_digest_algorithm
    && text_eq a.manifest_digest b.manifest_digest
    && same_instant a.published_at b.published_at
    && revision_eq a.academic_work_registration_revision b.academic_work_registration_revision
    && version_eq a.supersedes_publication_id b.supersedes_publication_id

-- `a == b`
unfoldable pub publication_eq : PublicationRecord → PublicationRecord → Bool
publication_eq a b =
    text_eq a.schema_version b.schema_version
    && text_eq a.record_type b.record_type
    && text_eq a.publication_id b.publication_id
    && metadata_eq a b

unfoldable pub withdrawal_eq : PublicationWithdrawal → PublicationWithdrawal → Bool
withdrawal_eq a b =
    text_eq a.schema_version b.schema_version
    && text_eq a.record_type b.record_type
    && text_eq a.publication_id b.publication_id
    && same_instant a.withdrawn_at b.withdrawn_at
    && text_eq a.reason b.reason
