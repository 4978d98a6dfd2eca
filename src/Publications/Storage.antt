-- ===== src/Publications/Storage.antt =====
-- pds_core/publication_storage.py: the stored publications and withdrawals. A `Shelf` is what stands in
-- the two directories of the registry, in the order of the file names, and the locks of the series.
-- A file holds its JSON value; `stray` is an entry that is no file or has another name.
pub mod Equality
pub mod Listed
pub mod Write
pub mod Withdraw
use pds_core.Base.{
  Bool, true, false, not, ◌&&◌, ◌||◌, Option, none, some, List, [], ◌∷◌, ◌++◌, Text, lit, Outcome,
  ok, err, ◌>>=◌, ◌>>◌, guard, reraise, any, elem, each, keep, text_eq, text_ltb, lower, sort_by,
  if◌then◌else◌,
}
use pds_core.Json.{Value, dict, str, ℤ, int_eq}
use pds_core.Time.{IsoText}
use pds_core.Files.{Content, garbage, undecodable, holds, FilePath}
use pds_core.Routing.{ModuleWorkRef, work_eq}
use pds_core.Publications.{
  PublicationError, bad_id, bad_kind, set_not_lowercase, PublicationRecord, PublicationWithdrawal,
  is_publication_id, publication_kinds, publication_work, publication_identifier,
}
use pds_core.Publications.Shapes.{publication_record_from_dict, publication_withdrawal_from_dict}
use pds_core.Publications.Series.{
  names, validate_publication_record_series, validate_publication_withdrawal_relationship,
}

pub data PublicationStoreError : Type 0 where
  invalid : PublicationError → PublicationStoreError
  -- `PublicationManifestError`
  no_manifest unsafe_manifest unreadable_manifest other_digest : PublicationStoreError
  -- `PublicationReadError`
  not_found unreadable not_object stray_entry : PublicationStoreError
  bad_record bad_withdrawal : PublicationError → PublicationStoreError
  -- `PublicationIntegrityError`
  other_id no_unique_head missing_publication contradictory : PublicationStoreError
  bad_registration wrong_work : PublicationStoreError
  bad_series bad_relationship : PublicationError → PublicationStoreError
  bad_history : PublicationStoreError → PublicationStoreError
  -- `PublicationConflictError`
  no_registration other_registration cancelled locked already_exists : PublicationStoreError
  revision_taken not_first not_head : PublicationStoreError
  bad_supersession : PublicationError → PublicationStoreError
  already_withdrawn : PublicationStoreError
  -- `PublicationWriteError`
  no_folder no_lock unwritten unverified differs : PublicationStoreError
  not_withdrawable : PublicationError → PublicationStoreError
  -- The exception of json.load on undecodable text, which nothing catches.
  undecoded : PublicationStoreError

-- `except PublicationStorageError`, where a new file is read back
unfoldable pub verify_error : PublicationStoreError → PublicationStoreError
verify_error (invalid e) = invalid e
verify_error undecoded = undecoded
verify_error e = unverified

abbrev pub Stored : Type 0 → Type 0
Stored A = Outcome PublicationStoreError A

pub data Entry : Type 0 where
  file : Text → Content → Entry
  stray : Entry

pub record Shelf : Type 0 where
  pub publications : List Entry
  pub withdrawals : List Entry
  pub locks : List FilePath

-- The file `<id>.json`.
unfoldable pub find_file : Text → List Entry → Option Content
find_file id [] = none
find_file id (stray ∷ es) = find_file id es
find_file id (file key c ∷ es) = if text_eq id key then some c else find_file id es

-- `_remove_file`
unfoldable pub remove_file : Text → List Entry → List Entry
remove_file id [] = []
remove_file id (stray ∷ es) = stray ∷ remove_file id es
remove_file id (file key c ∷ es) =
    let rest = remove_file id es in if text_eq id key then rest else file key c ∷ rest

-- `publication_record_path` and `publication_withdrawal_path` test the id.
unfoldable pub stored_id : Text → Stored Text
stored_id id = guard (is_publication_id id) (invalid bad_id) >> ok id

-- `item.publication_id not in superseded`
unfoldable pub unsuperseded : List PublicationRecord → PublicationRecord → Bool
unsuperseded rs r = not (any (λ s. names s.supersedes_publication_id r.publication_id) rs)

unfoldable pub single_head : List PublicationRecord → Stored PublicationRecord
single_head (r ∷ []) = ok r
single_head _ = err no_unique_head

unfoldable pub series_head : List PublicationRecord → Stored PublicationRecord
series_head rs = single_head (keep (unsuperseded rs) rs)

-- `item.work == … and item.publication_kind == … and item.record_set_id == …`
abbrev pub in_record_set : ModuleWorkRef → Text → Text → PublicationRecord → Bool
in_record_set w kind set r =
    work_eq r.work w && text_eq r.publication_kind kind && text_eq r.record_set_id set

unfoldable pub checked_record_set : Text → Stored Text
checked_record_set set = do
  reraise invalid (publication_identifier "record_set_id" set)
  guard (text_eq set (lower set)) (invalid set_not_lowercase)
  ok set

module _ (iso : IsoText) where
  unfoldable pub read_publication : Option Content → Stored PublicationRecord
  read_publication none = err not_found
  read_publication (some garbage) = err unreadable
  read_publication (some undecodable) = err undecoded
  read_publication (some (holds (dict fs))) =
      reraise bad_record (publication_record_from_dict iso (dict fs))
  read_publication (some (holds _)) = err not_object

  unfoldable pub load_publication_record : Text → List Entry → Stored PublicationRecord
  load_publication_record id es = do
    stored_id id
    r ← read_publication (find_file id es)
    guard (text_eq r.publication_id id) other_id
    ok r

  unfoldable pub read_withdrawal : Option Content → Stored (Option PublicationWithdrawal)
  read_withdrawal none = ok none
  read_withdrawal (some garbage) = err unreadable
  read_withdrawal (some undecodable) = err undecoded
  read_withdrawal (some (holds (dict fs))) = do
    d ← reraise bad_withdrawal (publication_withdrawal_from_dict iso (dict fs))
    ok (some d)
  read_withdrawal (some (holds _)) = err not_object

  unfoldable pub same_withdrawal :
      Text → Option PublicationWithdrawal → Stored (Option PublicationWithdrawal)
  same_withdrawal id none = ok none
  same_withdrawal id (some d) = guard (text_eq d.publication_id id) other_id >> ok (some d)

  unfoldable pub load_publication_withdrawal :
      Text → List Entry → Stored (Option PublicationWithdrawal)
  load_publication_withdrawal id es = do
    stored_id id
    found ← read_withdrawal (find_file id es)
    same_withdrawal id found

  unfoldable pub list_ids : List Entry → List Entry → Stored (List Text)
  list_ids directory [] = ok []
  list_ids directory (stray ∷ es) = err stray_entry
  list_ids directory (file id c ∷ es) = do
    guard (is_publication_id id) stray_entry
    load_publication_record id directory
    ids ← list_ids directory es
    ok (id ∷ ids)

  unfoldable pub list_publication_ids : List Entry → Stored (List Text)
  list_publication_ids es = do ids ← list_ids es es; ok (sort_by text_ltb ids)

  unfoldable pub list_publication_records : List Entry → Stored (List PublicationRecord)
  list_publication_records es = do
    ids ← list_publication_ids es
    each (λ id. load_publication_record id es) ids

  unfoldable pub list_publication_record_set :
      ModuleWorkRef → Text → Text → List Entry → Stored (List PublicationRecord)
  list_publication_record_set work kind set es = do
    w ← reraise invalid (publication_work work)
    guard (elem kind publication_kinds) (invalid bad_kind)
    checked_record_set set
    records ← list_publication_records es
    reraise bad_series
        (validate_publication_record_series (keep (in_record_set w kind set) records))

  -- The head counts unless it is withdrawn.
  unfoldable pub not_withdrawn :
      PublicationRecord → Option PublicationWithdrawal → Stored (Option PublicationRecord)
  not_withdrawn head none = ok (some head)
  not_withdrawn head (some d) = do
    reraise bad_relationship (validate_publication_withdrawal_relationship head d)
    ok none

  unfoldable pub current_of :
      List Entry → List PublicationRecord → Stored (Option PublicationRecord)
  current_of withdrawals [] = ok none
  current_of withdrawals (r ∷ rs) = do
    head ← series_head (r ∷ rs)
    found ← load_publication_withdrawal head.publication_id withdrawals
    not_withdrawn head found

  unfoldable pub get_current_publication_record :
      ModuleWorkRef → Text → Text → Shelf → Stored (Option PublicationRecord)
  get_current_publication_record work kind set f = do
    records ← list_publication_record_set work kind set f.publications
    current_of f.withdrawals records
