-- ===== src/Periods/Storage/Write.antt =====
-- `write_academic_period_calendar` of pds_core/academic_period_storage.py. A `Disk` says which calls
-- of the operating system succeed. The revision is written under the lock, read back, and then
-- selected by replacing the pointer; what fails before that removes the new revision again.
use pds_core.Base.{
  Bool, true, false, not, Option, none, some, List, [], ◌∷◌, lit, ok, err, ◌>>=◌, ◌>>◌, guard,
  reraise, any, if◌then◌else◌,
}
use pds_core.Json.{Value, str, int, dict, end, field, ℤ, pos, int_eq, int_ltb}
use pds_core.Time.{IsoText}
use pds_core.Periods.{AcademicPeriodCalendar}
use pds_core.Periods.Calendars.{
  validate_academic_period_calendar, validate_academic_period_calendar_transition,
}
use pds_core.Periods.Shapes.{academic_period_calendar_to_dict}
use pds_core.Periods.Equality.{calendar_eq}
use pds_core.Periods.Storage.{
  invalid, not_first, busy, already_current, none_current, stale, already_written, orphans,
  newer_orphans, unverified_pointer, other_selection, no_folder, no_lock, unwritten, unverified,
  differs, unpublished, unreadable, Stored, Content, garbage, holds, revision, Folder, find_file,
  remove_file, pointer_record_type, positive_revision, get_current_revision, load_revision,
  load_current, list_revisions,
}

pub record Disk : Type 0 where
  pub makes_folder : Bool
  pub makes_lock : Bool
  pub writes_revision : Bool
  pub reads_back : Bool
  pub publishes : Bool
  pub reads_selected : Bool
  -- `_remove_file` succeeds; it ignores a failure.
  pub removes : Bool

unfoldable pub exists : Option Content → Bool
exists none = false
exists (some c) = true

unfoldable pub validated_expected : Option ℤ → Stored (Option ℤ)
unfolding positive_revision
validated_expected none = ok none
validated_expected (some n) = do positive_revision n; ok (some n)

unfoldable pub check_first : Option ℤ → AcademicPeriodCalendar → Stored (Unit {0})
check_first none c = guard (int_eq c.calendar_revision (pos 1)) not_first
check_first (some n) c = ok tt

abbrev pub is_empty : List ℤ → Bool
is_empty [] = true
is_empty (n ∷ ns) = false

unfoldable pub pointer_value : AcademicPeriodCalendar → Value
pointer_value c = dict (
    field (lit "schema_version") (str (lit "1")) (
      field (lit "record_type") (str pointer_record_type) (
        field (lit "school_year") (str c.school_year)
          (field (lit "calendar_revision") (int c.calendar_revision) end))))

-- Goes on where no exception was raised.
unfoldable pub after :
    Stored (Unit {0}) × Folder → (Folder → Stored (Unit {0}) × Folder) → Stored (Unit {0}) × Folder
after (err e, f) next = (err e, f)
after (ok u, f) next = next f

-- `_remove_file` on the file of a revision.
unfoldable pub discard : Disk → ℤ → Folder → Folder
discard disk n f = if disk.removes then record f { entries = remove_file n f.entries } else f

-- `_write_revision_exclusively`
unfoldable pub write_revision : Disk → ℤ → Value → Folder → Stored (Unit {0}) × Folder
unfolding discard exists
write_revision disk n content f =
    if exists (find_file n f.entries)
    then (err already_written, f)
    else if disk.writes_revision
    then (ok tt, record f { entries = revision n (holds content) ∷ f.entries })
    else (err unwritten, discard disk n (record f { entries = revision n garbage ∷ f.entries }))

-- `_publish_current_pointer`
unfoldable pub publish : Disk → AcademicPeriodCalendar → Folder → Stored (Unit {0}) × Folder
unfolding pointer_value
publish disk c f =
    if disk.publishes
    then (ok tt, record f { current = some (holds (pointer_value c)) })
    else (err unpublished, f)

module _ (iso : IsoText) where
  unfoldable pub check_current :
      AcademicPeriodCalendar → ℤ → Folder → List ℤ → Option ℤ → Stored (Unit {0})
  unfolding exists
  check_current c expected f numbers none = err none_current
  check_current c expected f numbers (some n) = do
    guard (int_eq n expected) stale
    current ← load_revision iso c.school_year n f
    reraise invalid (validate_academic_period_calendar_transition current c)
    guard (not (exists (find_file c.calendar_revision f.entries))) already_written
    guard (not (any (λ m. int_ltb n m) numbers)) newer_orphans

  -- `_validate_write_state`
  unfoldable pub validate_write_state :
      AcademicPeriodCalendar → Option ℤ → Folder → Stored (Unit {0})
  unfolding exists
  validate_write_state c expected f = do
    current ← get_current_revision c.school_year f
    numbers ← list_revisions iso c.school_year f
    elim expected [
      | none ↦ do
        guard (not (elim current [ none ↦ false | some _ ↦ true ])) already_current
        guard (is_empty numbers) orphans
      | some n ↦ check_current c n f numbers current
    ]

  -- A read that the operating system may refuse.
  unfoldable pub reading_of : {A : Type 0} → Bool → Stored A → Stored A
  reading_of readable m = if readable then m else err unreadable

  -- The selected calendar must be the one that was written.
  unfoldable pub selected_is :
      AcademicPeriodCalendar → Stored (Option AcademicPeriodCalendar) → Stored (Unit {0})
  selected_is c (err e) = err unverified_pointer
  selected_is c (ok none) = err other_selection
  selected_is c (ok (some selected)) = guard (calendar_eq selected c) other_selection

  unfoldable pub verify_selected : Disk → AcademicPeriodCalendar → Folder → Stored (Unit {0})
  unfolding reading_of selected_is
  verify_selected disk c f =
      selected_is c (reading_of disk.reads_selected (load_current iso c.school_year f))

  unfoldable pub publish_verified :
      Disk → AcademicPeriodCalendar → Folder → Stored (Unit {0}) × Folder
  unfolding publish after
  publish_verified disk c f = after (publish disk c f) (λ g. (verify_selected disk c g, g))

  -- What follows once the revision was read back.
  unfoldable pub publish_persisted :
      Disk
      → AcademicPeriodCalendar
      → Folder
      → Stored AcademicPeriodCalendar
      → Stored (Unit {0}) × Folder
  unfolding discard
  publish_persisted disk c f (err e) = (err unverified, discard disk c.calendar_revision f)
  publish_persisted disk c f (ok persisted) =
      if calendar_eq persisted c
      then publish_verified disk c f
      else (err differs, discard disk c.calendar_revision f)

  unfoldable pub verify_and_publish :
      Disk → AcademicPeriodCalendar → Folder → Stored (Unit {0}) × Folder
  unfolding reading_of publish_persisted
  verify_and_publish disk c f =
      publish_persisted disk c f
        (reading_of disk.reads_back (load_revision iso c.school_year c.calendar_revision f))

  -- The body of the `try` once the lock is taken.
  unfoldable pub write_locked :
      Disk → AcademicPeriodCalendar → Option ℤ → Value → Folder → Stored (Unit {0}) × Folder
  unfolding write_revision verify_and_publish after
  write_locked disk c expected content f =
      after (validate_write_state c expected f, f)
        (λ g. after (write_revision disk c.calendar_revision content g) (verify_and_publish disk c))

  -- `finally`: the lock file is removed, whatever the body did.
  unfoldable pub release : Disk → Stored (Unit {0}) × Folder → Stored (Unit {0}) × Folder
  release disk (r, f) = (r, record f { locked = not disk.removes })

  unfoldable pub with_lock :
      Disk → AcademicPeriodCalendar → Option ℤ → Value → Folder → Stored (Unit {0}) × Folder
  unfolding release
  with_lock disk c expected content f =
      if f.locked
      then (err busy, f)
      else if disk.makes_lock
      then release disk (write_locked disk c expected content (record f { locked = true }))
      else (err no_lock, f)

  -- What is tested before the directory is touched: the validated calendar, the expected revision and
  -- the content of the new file.
  unfoldable pub prepare :
      AcademicPeriodCalendar → Option ℤ → Stored (AcademicPeriodCalendar × Option ℤ × Value)
  unfolding validated_expected check_first
  prepare calendar expected = do
    c ← reraise invalid (validate_academic_period_calendar calendar)
    e ← validated_expected expected
    check_first e c
    content ← reraise invalid (academic_period_calendar_to_dict iso c)
    ok (c, e, content)

  unfoldable pub write_prepared :
      Disk
      → Folder
      → Stored (AcademicPeriodCalendar × Option ℤ × Value)
      → Stored (Unit {0}) × Folder
  unfolding with_lock
  write_prepared disk f (err e) = (err e, f)
  write_prepared disk f (ok (c, expected, content)) =
      if disk.makes_folder then with_lock disk c expected content f else (err no_folder, f)

  unfoldable pub write_academic_period_calendar :
      Disk → AcademicPeriodCalendar → Option ℤ → Folder → Stored (Unit {0}) × Folder
  unfolding write_prepared prepare
  write_academic_period_calendar disk calendar expected f =
      write_prepared disk f (prepare calendar expected)
