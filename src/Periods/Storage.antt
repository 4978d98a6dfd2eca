-- ===== src/Periods/Storage.antt =====
-- pds_core/academic_period_storage.py: the calendar revisions of one school year and the pointer to
-- the current one. A `Folder` is what stands in the directory of the school year: `current.json`, the
-- visible entries of `revisions` in the order of `iterdir`, and the write lock. A file holds its JSON
-- value; `garbage` is what `_load_json` cannot read. A visible entry that is no revision file is
-- `stray`. A revision's file name is its number.
pub mod Write
pub mod Laws
pub mod Selected
pub mod Success
pub mod Working
pub mod Unlocked
use pds_core.Base.{
  Bool, true, false, ◌&&◌, Option, none, some, List, [], ◌∷◌, Text, lit, Outcome, ok, err, ◌>>=◌,
  ◌>>◌, guard, reraise, all, elem, text_eq, sort_by, if◌then◌else◌,
}
use pds_core.Json.{Value, str, int, dict, Fields, ℤ, int_eq, int_ltb, item, keys}
use pds_core.Time.{IsoText}
use pds_core.SchoolYears.{SchoolYearValidationError, validate_school_year}
use pds_core.Periods.{PeriodError, AcademicPeriodCalendar, is_positive, not_positive}
use pds_core.Periods.Calendars.{validate_academic_period_calendar}
use pds_core.Periods.Shapes.{academic_period_calendar_from_dict}

-- What a file of the folder holds: text that json.load refuses, or its value. Text on which json.load
-- raises anything but a JSONDecodeError or a UnicodeError is not modelled here.
pub data Content : Type 0 where
  garbage : Content
  holds : Value → Content

pub data StorageError : Type 0 where
  invalid : PeriodError → StorageError
  bad_year : SchoolYearValidationError → StorageError
  -- `AcademicPeriodCalendarReadError`
  unreadable not_object bad_pointer stray_entry : StorageError
  bad_calendar : PeriodError → StorageError
  -- `AcademicPeriodCalendarNotFoundError`
  not_found : StorageError
  -- `AcademicPeriodCalendarConflictError`
  not_first busy already_current none_current stale already_written : StorageError
  -- `AcademicPeriodCalendarIntegrityError`
  other_year other_revision pointer_year dangling orphans newer_orphans : StorageError
  unverified_pointer other_selection : StorageError
  -- `AcademicPeriodCalendarWriteError`
  no_folder no_lock unwritten unverified differs unpublished : StorageError

abbrev pub Stored : Type 0 → Type 0
Stored A = Outcome StorageError A

pub data Entry : Type 0 where
  revision : ℤ → Content → Entry
  stray : Entry

pub record Folder : Type 0 where
  pub current : Option Content
  pub entries : List Entry
  pub locked : Bool

-- The file of a revision.
unfoldable pub find_file : ℤ → List Entry → Option Content
find_file n [] = none
find_file n (stray ∷ es) = find_file n es
find_file n (revision m c ∷ es) = if int_eq n m then some c else find_file n es

unfoldable pub remove_file : ℤ → List Entry → List Entry
remove_file n [] = []
remove_file n (stray ∷ es) = stray ∷ remove_file n es
remove_file n (revision m c ∷ es) =
    if int_eq n m then remove_file n es else revision m c ∷ remove_file n es

abbrev pub validated_year : Text → Stored Text
validated_year s = reraise bad_year (validate_school_year (str s))

unfoldable pub positive_revision : ℤ → Stored ℤ
positive_revision n = guard (is_positive n) (invalid not_positive) >> ok n

abbrev pub pointer_keys : List Text
pointer_keys =
    lit "schema_version" ∷ lit "record_type" ∷ lit "school_year" ∷ lit "calendar_revision" ∷ []

abbrev pub pointer_record_type : Text
pointer_record_type = lit "academic_period_calendar_current"

-- `value == text`
unfoldable pub is_text : Value → Text → Bool
is_text (str s) t = text_eq s t
is_text _ t = false

unfoldable pub pointer_revision : Value → Stored ℤ
pointer_revision (int n) = guard (is_positive n) bad_pointer >> ok n
pointer_revision _ = err bad_pointer

abbrev pub pointer_item : Text → Fields → Stored Value
pointer_item k fs = reraise (λ _. bad_pointer) (item k fs)

unfoldable pub pointer_from_fields : Text → Fields → Stored ℤ
unfolding is_text pointer_revision
pointer_from_fields year fs = do
  guard (all (λ k. elem k (keys fs)) pointer_keys && all (λ k. elem k pointer_keys) (keys fs))
      bad_pointer
  version ← pointer_item (lit "schema_version") fs
  guard (is_text version (lit "1")) bad_pointer
  kind ← pointer_item (lit "record_type") fs
  guard (is_text kind pointer_record_type) bad_pointer
  given ← pointer_item (lit "school_year") fs
  embedded ← reraise (λ _. bad_pointer) (validate_school_year given)
  number ← pointer_item (lit "calendar_revision") fs
  n ← pointer_revision number
  guard (text_eq embedded year) pointer_year
  ok n

-- `_load_current_pointer` with `missing_ok`, as every caller has it.
unfoldable pub load_current_pointer : Text → Option Content → Stored (Option ℤ)
load_current_pointer year none = ok none
load_current_pointer year (some garbage) = err unreadable
load_current_pointer year (some (holds (dict fs))) = do n ← pointer_from_fields year fs; ok (some n)
load_current_pointer year (some (holds _)) = err bad_pointer

unfoldable pub get_current_revision : Text → Folder → Stored (Option ℤ)
get_current_revision school_year f = do
  year ← validated_year school_year
  load_current_pointer year f.current

abbrev pub number_before : ℤ → ℤ → Bool
number_before = int_ltb

module _ (iso : IsoText) where
  -- The content of a revision file, parsed and validated.
  unfoldable pub read_calendar : Option Content → Stored AcademicPeriodCalendar
  read_calendar none = err not_found
  read_calendar (some garbage) = err unreadable
  read_calendar (some (holds (dict fs))) = do
    parsed ← reraise bad_calendar (academic_period_calendar_from_dict iso (dict fs))
    reraise bad_calendar (validate_academic_period_calendar parsed)
  read_calendar (some (holds _)) = err not_object

  unfoldable pub load_revision : Text → ℤ → Folder → Stored AcademicPeriodCalendar
  unfolding positive_revision
  load_revision school_year n f = do
    year ← validated_year school_year
    positive_revision n
    c ← read_calendar (find_file n f.entries)
    guard (text_eq c.school_year year) other_year
    guard (int_eq c.calendar_revision n) other_revision
    ok c

  -- `except AcademicPeriodCalendarNotFoundError` of the load through the pointer.
  unfoldable pub pointed : Stored AcademicPeriodCalendar → Stored AcademicPeriodCalendar
  pointed (err not_found) = err dangling
  pointed m = m

  unfoldable pub load_pointed : Text → Folder → Option ℤ → Stored (Option AcademicPeriodCalendar)
  unfolding pointed
  load_pointed year f none = ok none
  load_pointed year f (some n) = do
    c ← pointed (load_revision year n f)
    guard (int_eq c.calendar_revision n) other_revision
    ok (some c)

  unfoldable pub load_current : Text → Folder → Stored (Option AcademicPeriodCalendar)
  load_current school_year f = do
    year ← validated_year school_year
    pointer ← load_current_pointer year f.current
    load_pointed year f pointer

  unfoldable pub list_entries : Text → Folder → List Entry → Stored (List ℤ)
  list_entries year f [] = ok []
  list_entries year f (stray ∷ es) = err stray_entry
  list_entries year f (revision n c ∷ es) = do
    load_revision year n f
    ns ← list_entries year f es
    ok (n ∷ ns)

  unfoldable pub list_revisions : Text → Folder → Stored (List ℤ)
  list_revisions school_year f = do
    year ← validated_year school_year
    ns ← list_entries year f f.entries
    ok (sort_by number_before ns)
