-- ===== src/Publications/Storage/Write.antt =====
-- `write_publication_record` of pds_core/publication_storage.py. A `PublicationDisk` says which calls of
-- the operating system succeed and what the manifest of the publication is at each of its three checks:
-- paths are resolved and bytes are hashed outside this model. `Registrations` is what the storage of
-- the work registrations returns.
pub mod Kept
pub mod Continued
pub mod Chained
use pds_core.Base.{
  Bool, true, false, not, Option, none, some, List, [], ◌∷◌, ◌++◌, Text, lit, Outcome, ok, err,
  ◌>>=◌, ◌>>◌, guard, reraise, any, text_eq, if◌then◌else◌,
}
use pds_core.Json.{Value, ℤ, int_eq}
use pds_core.Time.{IsoText}
use pds_core.Files.{Content, garbage, holds, FilePath, path_eq, is_present}
use pds_core.Routing.{ModuleWorkRef, work_eq}
use pds_core.Publications.{PublicationRecord, validate_publication_record, is_academic}
use pds_core.Publications.Shapes.{publication_record_to_dict}
use pds_core.Publications.Series.{names, validate_publication_supersession}
use pds_core.WorkRegistrations.{AcademicWorkRegistration}
use pds_core.Publications.Storage.{
  PublicationStoreError, invalid, no_manifest, unsafe_manifest, unreadable_manifest, other_digest,
  not_found, unreadable, not_object, stray_entry, bad_record, bad_withdrawal, contradictory,
  bad_registration, wrong_work, bad_history, no_registration, other_registration, cancelled, locked,
  already_exists, revision_taken, not_first, not_head, bad_supersession, no_folder, no_lock,
  unwritten, differs, verify_error, Stored, Entry, file, Shelf, find_file, remove_file,
  load_publication_record, list_publication_record_set, series_head,
}
use pds_core.Publications.Storage.Equality.{metadata_eq, publication_eq}

-- What the path of a manifest resolves to, with the SHA-256 digest of its bytes.
pub data Manifest : Type 0 where
  missing unsafe refused : Manifest
  digested : Text → Manifest

pub record PublicationDisk : Type 0 where
  pub makes_folders : Bool
  pub makes_lock : Bool
  pub writes : Bool
  pub reads_back : Bool
  -- `_remove_file` succeeds; it ignores a failure.
  pub removes : Bool
  pub first_manifest : Manifest
  pub locked_manifest : Manifest
  pub last_manifest : Manifest

-- An exception of that storage has no other content here.
pub record Registrations : Type 0 where
  pub current : ModuleWorkRef → Outcome (Unit {0}) (Option AcademicWorkRegistration)
  pub exact : ModuleWorkRef → ℤ → Outcome (Unit {0}) AcademicWorkRegistration

-- `verify_publication_manifest`
unfoldable pub verify_manifest : Manifest → PublicationRecord → Stored (Unit {0})
verify_manifest missing r = err no_manifest
verify_manifest unsafe r = err unsafe_manifest
verify_manifest refused r = err unreadable_manifest
verify_manifest (digested d) r = guard (text_eq d r.manifest_digest) other_digest

unfoldable pub check_current : ℤ → Option AcademicWorkRegistration → Stored (Unit {0})
check_current n none = err no_registration
check_current n (some c) = guard (int_eq c.registration_revision n) other_registration

unfoldable pub check_registration : Registrations → PublicationRecord → Option ℤ → Stored (Unit {0})
check_registration registrations r none = ok tt
check_registration registrations r (some n) = do
  c ← reraise (λ _. bad_registration) (registrations.current r.work)
  check_current n c
  e ← reraise (λ _. bad_registration) (registrations.exact r.work n)
  guard (work_eq e.work r.work) wrong_work
  guard (not (text_eq e.lifecycle (lit "cancelled"))) cancelled

-- `_validate_registration_relationship`: an accepted result set has a revision.
unfoldable pub validate_registration_relationship :
    Registrations → PublicationRecord → Stored (Unit {0})
validate_registration_relationship registrations r =
    if is_academic r.publication_kind
    then check_registration registrations r r.academic_work_registration_revision
    else ok tt

-- `_series_lock_path`, below the directory of the locks
unfoldable pub series_lock_path : PublicationRecord → FilePath
series_lock_path r =
    r.work.class_id
    ∷ r.work.module_id
    ∷ r.work.work_id
    ∷ r.publication_kind
    ∷ (r.record_set_id ++ lit ".lock")
    ∷ []

-- `isinstance(error, PublicationReadError)`
unfoldable pub is_read_error : PublicationStoreError → Bool
is_read_error not_found = true
is_read_error unreadable = true
is_read_error not_object = true
is_read_error stray_entry = true
is_read_error (bad_record e) = true
is_read_error (bad_withdrawal e) = true
is_read_error _ = false

-- `except PublicationReadError`
unfoldable pub read_history : {A : Type 0} → Stored A → Stored A
read_history (ok a) = ok a
read_history (err e) = if is_read_error e then err (bad_history e) else err e

-- No earlier publication has the same revision of the record set.
unfoldable pub check_revisions : PublicationRecord → List PublicationRecord → Stored (Unit {0})
check_revisions r [] = ok tt
check_revisions r (prior ∷ priors) =
    let rest = check_revisions r priors in
    if int_eq prior.record_set_revision r.record_set_revision
    then (if metadata_eq prior r then err revision_taken else err contradictory)
    else rest

-- `record.supersedes_publication_id is None`
unfoldable pub is_first : Option Text → Bool
is_first none = true
is_first (some s) = false

unfoldable pub check_head : PublicationRecord → List PublicationRecord → Stored (Unit {0})
check_head r [] = guard (is_first r.supersedes_publication_id) not_first
check_head r (p ∷ ps) = do
  head ← series_head (p ∷ ps)
  guard (names r.supersedes_publication_id head.publication_id) not_head
  reraise bad_supersession (validate_publication_supersession head r)
  ok tt

-- Goes on where no exception was raised.
unfoldable pub after :
    Stored (Unit {0}) × Shelf → (Shelf → Stored (Unit {0}) × Shelf) → Stored (Unit {0}) × Shelf
after (err e, f) next = (err e, f)
after (ok u, f) next = next f

unfoldable pub discard : Bool → Text → List Entry → List Entry
discard removes id es = if removes then remove_file id es else es

-- `_write_exclusively`, in one of the directories
unfoldable pub write_exclusively :
    PublicationDisk → Text → Value → List Entry → Stored (Unit {0}) × List Entry
write_exclusively disk id content es =
    if is_present (find_file id es)
    then (err already_exists, es)
    else if disk.writes
    then (ok tt, file id (holds content) ∷ es)
    else (err unwritten, discard disk.removes id (file id garbage ∷ es))

-- `finally`: a new file that was not completed is removed.
unfoldable pub complete :
    PublicationDisk → PublicationRecord → Shelf → Stored (Unit {0}) → Stored (Unit {0}) × Shelf
complete disk r f (ok u) = (ok u, f)
complete disk r f (err e) =
    (err e, record f { publications = discard disk.removes r.publication_id f.publications })

-- `finally`: the lock file is removed, whatever the body did.
unfoldable pub release :
    PublicationDisk → List FilePath → Stored (Unit {0}) × Shelf → Stored (Unit {0}) × Shelf
release disk locks (m, f) = (m, if disk.removes then record f { locks = locks } else f)

-- A lock file that was created but not completed is removed.
unfoldable pub with_lock :
    PublicationDisk
    → PublicationRecord
    → (Shelf → Stored (Unit {0}) × Shelf)
    → Shelf
    → Stored (Unit {0}) × Shelf
with_lock disk r body f =
    if any (path_eq (series_lock_path r)) f.locks
    then (err locked, f)
    else if disk.makes_lock
    then release disk f.locks (body (record f { locks = series_lock_path r ∷ f.locks }))
    else (
      err no_lock,
      if disk.removes then f else record f { locks = series_lock_path r ∷ f.locks },
    )

module _ (iso : IsoText) where
  -- What is tested under the lock before anything is written.
  unfoldable pub validate_write_state :
      PublicationDisk → Registrations → PublicationRecord → Shelf → Stored (Unit {0})
  validate_write_state disk registrations r f = do
    verify_manifest disk.locked_manifest r
    validate_registration_relationship registrations r
    guard (not (is_present (find_file r.publication_id f.publications))) already_exists
    existing ←
        read_history
          (list_publication_record_set iso r.work r.publication_kind r.record_set_id f.publications)
    check_revisions r existing
    check_head r existing

  -- What is tested of the new file.
  unfoldable pub verify_persisted : PublicationDisk → PublicationRecord → Shelf → Stored (Unit {0})
  verify_persisted disk r f = do
    persisted ← reraise verify_error (
        if disk.reads_back
        then load_publication_record iso r.publication_id f.publications
        else err unreadable)
    guard (publication_eq persisted r) differs
    verify_manifest disk.last_manifest r

  -- What follows `_write_exclusively`.
  unfoldable pub finish :
      PublicationDisk
      → PublicationRecord
      → Shelf
      → Stored (Unit {0}) × List Entry
      → Stored (Unit {0}) × Shelf
  finish disk r f (m, es) =
      after (m, record f { publications = es }) (λ g. complete disk r g (verify_persisted disk r g))

  unfoldable pub persist :
      PublicationDisk → PublicationRecord → Value → Shelf → Stored (Unit {0}) × Shelf
  persist disk r content f =
      finish disk r f (write_exclusively disk r.publication_id content f.publications)

  unfoldable pub write_locked :
      PublicationDisk
      → Registrations
      → PublicationRecord
      → Value
      → Shelf
      → Stored (Unit {0}) × Shelf
  write_locked disk registrations r content f =
      after (validate_write_state disk registrations r f, f) (persist disk r content)

  -- What is tested before the disk is touched.
  unfoldable pub prepare :
      PublicationDisk → Registrations → PublicationRecord → Stored (PublicationRecord × Value)
  prepare disk registrations publication = do
    r ← reraise invalid (validate_publication_record publication)
    verify_manifest disk.first_manifest r
    validate_registration_relationship registrations r
    content ← reraise invalid (publication_record_to_dict iso r)
    ok (r, content)

  unfoldable pub write_prepared :
      PublicationDisk
      → Registrations
      → Stored (PublicationRecord × Value)
      → Shelf
      → Stored (Unit {0}) × Shelf
  write_prepared disk registrations (err e) f = (err e, f)
  write_prepared disk registrations (ok (r, content)) f =
      if disk.makes_folders
      then with_lock disk r (write_locked disk registrations r content) f
      else (err no_folder, f)

  -- The work registrations are read before the lock and under it.
  unfoldable pub write_publication_record :
      PublicationDisk
      → Registrations
      → Registrations
      → PublicationRecord
      → Shelf
      → Stored (Unit {0}) × Shelf
  write_publication_record disk before_lock under_lock publication =
      write_prepared disk under_lock (prepare disk before_lock publication)
