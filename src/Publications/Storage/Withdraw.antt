-- ===== src/Publications/Storage/Withdraw.antt =====
-- `write_publication_withdrawal` and `list_publication_withdrawals` of pds_core/publication_storage.py.
pub mod Gone
use pds_core.Base.{
  Bool, true, false, not, Option, none, some, List, [], ◌∷◌, Text, Outcome, ok, err, ◌>>=◌, ◌>>◌,
  guard, reraise, any, sort_by, text_ltb, if◌then◌else◌,
}
use pds_core.Json.{Value}
use pds_core.Time.{IsoText}
use pds_core.Files.{path_eq}
use pds_core.Publications.{
  PublicationRecord, PublicationWithdrawal, validate_publication_withdrawal, is_publication_id,
}
use pds_core.Publications.Shapes.{publication_withdrawal_to_dict}
use pds_core.Publications.Series.{validate_publication_withdrawal_relationship}
use pds_core.Publications.Storage.{
  PublicationStoreError, invalid, not_withdrawable, already_withdrawn, unreadable, verify_error,
  differs, no_folder, locked, no_lock, stray_entry, missing_publication, bad_relationship,
  not_found, Stored, Entry, file, stray, Shelf, load_publication_record,
  load_publication_withdrawal,
}
use pds_core.Publications.Storage.Equality.{withdrawal_eq}
use pds_core.Publications.Storage.Write.{
  PublicationDisk, after, discard, write_exclusively, with_lock,
}

unfoldable pub refuse_withdrawn : Option PublicationWithdrawal → Stored (Unit {0})
refuse_withdrawn none = ok tt
refuse_withdrawn (some d) = err already_withdrawn

-- `persisted != result`
unfoldable pub check_persisted :
    PublicationWithdrawal → Option PublicationWithdrawal → Stored (Unit {0})
check_persisted d none = err differs
check_persisted d (some persisted) = guard (withdrawal_eq persisted d) differs

-- `finally`: a new file that was not completed is removed.
unfoldable pub complete_withdrawal :
    PublicationDisk → PublicationWithdrawal → Shelf → Stored (Unit {0}) → Stored (Unit {0}) × Shelf
complete_withdrawal disk d f (ok u) = (ok u, f)
complete_withdrawal disk d f (err e) =
    (err e, record f { withdrawals = discard disk.removes d.publication_id f.withdrawals })

-- A listed file is there, since the directory does not change while it is listed.
unfoldable pub listed_withdrawal : Option PublicationWithdrawal → Stored PublicationWithdrawal
listed_withdrawal none = err missing_publication
listed_withdrawal (some d) = ok d

-- `except PublicationNotFoundError`
unfoldable pub require_publication : Stored PublicationRecord → Stored PublicationRecord
require_publication (ok r) = ok r
require_publication (err not_found) = err missing_publication
require_publication (err e) = err e

-- `key=lambda item: item.publication_id`
unfoldable pub withdrawal_ltb : PublicationWithdrawal → PublicationWithdrawal → Bool
withdrawal_ltb a b = text_ltb a.publication_id b.publication_id

module _ (iso : IsoText) where
  -- What is tested before the disk is touched.
  unfoldable pub prepare_withdrawal :
      PublicationWithdrawal → Shelf → Stored (PublicationWithdrawal × PublicationRecord × Value)
  prepare_withdrawal withdrawal f = do
    d ← reraise invalid (validate_publication_withdrawal withdrawal)
    r ← load_publication_record iso d.publication_id f.publications
    reraise not_withdrawable (validate_publication_withdrawal_relationship r d)
    content ← reraise invalid (publication_withdrawal_to_dict iso d)
    ok (d, r, content)

  -- What is tested under the lock before anything is written.
  unfoldable pub validate_withdrawal_state : PublicationWithdrawal → Shelf → Stored (Unit {0})
  validate_withdrawal_state d f = do
    r ← load_publication_record iso d.publication_id f.publications
    found ← load_publication_withdrawal iso d.publication_id f.withdrawals
    refuse_withdrawn found
    reraise not_withdrawable (validate_publication_withdrawal_relationship r d)
    ok tt

  -- What is tested of the new file.
  unfoldable pub verify_withdrawal :
      PublicationDisk → PublicationWithdrawal → Shelf → Stored (Unit {0})
  verify_withdrawal disk d f = do
    persisted ← reraise verify_error (
        if disk.reads_back
        then load_publication_withdrawal iso d.publication_id f.withdrawals
        else err unreadable)
    check_persisted d persisted

  -- What follows `_write_exclusively`.
  unfoldable pub finish_withdrawal :
      PublicationDisk
      → PublicationWithdrawal
      → Shelf
      → Stored (Unit {0}) × List Entry
      → Stored (Unit {0}) × Shelf
  finish_withdrawal disk d f (m, es) =
      after (m, record f { withdrawals = es })
        (λ g. complete_withdrawal disk d g (verify_withdrawal disk d g))

  unfoldable pub persist_withdrawal :
      PublicationDisk → PublicationWithdrawal → Value → Shelf → Stored (Unit {0}) × Shelf
  persist_withdrawal disk d content f =
      finish_withdrawal disk d f (write_exclusively disk d.publication_id content f.withdrawals)

  unfoldable pub withdraw_locked :
      PublicationDisk → PublicationWithdrawal → Value → Shelf → Stored (Unit {0}) × Shelf
  withdraw_locked disk d content f =
      after (validate_withdrawal_state d f, f) (persist_withdrawal disk d content)

  unfoldable pub write_prepared_withdrawal :
      PublicationDisk
      → Stored (PublicationWithdrawal × PublicationRecord × Value)
      → Shelf
      → Stored (Unit {0}) × Shelf
  write_prepared_withdrawal disk (err e) f = (err e, f)
  write_prepared_withdrawal disk (ok (d, r, content)) f =
      if disk.makes_folders
      then with_lock disk r (withdraw_locked disk d content) f
      else (err no_folder, f)

  -- The lock is that of the series of the publication, as it was loaded before the lock.
  unfoldable pub write_publication_withdrawal :
      PublicationDisk → PublicationWithdrawal → Shelf → Stored (Unit {0}) × Shelf
  write_publication_withdrawal disk withdrawal f =
      write_prepared_withdrawal disk (prepare_withdrawal withdrawal f) f

  unfoldable pub list_withdrawal : Text → Shelf → Stored PublicationWithdrawal
  list_withdrawal id f = do
    guard (is_publication_id id) stray_entry
    found ← load_publication_withdrawal iso id f.withdrawals
    d ← listed_withdrawal found
    r ← require_publication (load_publication_record iso id f.publications)
    reraise bad_relationship (validate_publication_withdrawal_relationship r d)
    ok d

  unfoldable pub list_withdrawals : List Entry → Shelf → Stored (List PublicationWithdrawal)
  list_withdrawals [] f = ok []
  list_withdrawals (stray ∷ es) f = err stray_entry
  list_withdrawals (file id c ∷ es) f = do
    d ← list_withdrawal id f
    ds ← list_withdrawals es f
    ok (d ∷ ds)

  unfoldable pub list_publication_withdrawals : Shelf → Stored (List PublicationWithdrawal)
  list_publication_withdrawals f = do
    ds ← list_withdrawals f.withdrawals f
    ok (sort_by withdrawal_ltb ds)
