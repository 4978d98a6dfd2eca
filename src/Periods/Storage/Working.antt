-- ===== src/Periods/Storage/Working.antt =====
-- A write that is allowed succeeds when the system calls do.
use pds_core.Base.{
  ◌≡◌, refl, sym, ap, ◌∙◌, true, false, not, Option, none, some, List, [], ◌∷◌, Text, ok, ◌>>=◌,
  guard, reraise, >>=-eq-ok, guard-eq-ok, length, length-sort_by, sort_by, arith,
}
use pds_core.Json.{Value, ℤ, int_eq}
use pds_core.Time.{IsoText}
use pds_core.Periods.{AcademicPeriodCalendar}
use pds_core.Periods.Calendars.{
  validate_academic_period_calendar, validate_academic_period_calendar_transition,
}
use pds_core.Periods.Calendars.Accepted.{
  IsCalendar, IsCalendar-ok, validate_academic_period_calendar-IsCalendar,
}
use pds_core.Periods.Shapes.{academic_period_calendar_to_dict, academic_period_calendar_from_dict}
use pds_core.Periods.Equality.{calendar_eq_refl, int_eq_refl}
use pds_core.Periods.Storage.{
  Stored, holds, Entry, revision, stray, Folder, find_file, validated_year, number_before,
  load_revision, list_entries, list_revisions, get_current_revision, orphans, stale, invalid,
  already_written,
}
use pds_core.Periods.Storage.Write.{
  Disk, after, exists, pointer_value, validated_expected, check_first, check_current,
  validate_write_state, write_revision, publish, reading_of, selected_is, verify_selected,
  publish_verified, publish_persisted, verify_and_publish, write_locked, release, with_lock,
  prepare, write_prepared, write_academic_period_calendar, is_empty,
}
use pds_core.Periods.Storage.Laws.{absent_file}
use pds_core.Periods.Storage.Selected.{load_revision-new, load_current-new}
use pds_core.Periods.RoundTrips.{calendar_round_trip}

abbrev pub working : Disk
working = record {
  makes_folder = true;
  makes_lock = true;
  writes_revision = true;
  reads_back = true;
  publishes = true;
  reads_selected = true;
  removes = true;
}

module _ (iso : IsoText) where
  -- Where no revision is listed there is no file.
  list_entries-none :
      (year : Text) (f : Folder) (es : List Entry) {ns : List ℤ}
      → list_entries iso year f es ≡ ok ns
      → length ns ≡ 0
      → (n : ℤ) → find_file n es ≡ none
  unfolding list_entries find_file
  list_entries-none year f [] h e n = refl
  list_entries-none year f (stray ∷ es) h e n = cc
  list_entries-none year f (revision m x ∷ es) {ns} h e n =
      let (c, _, h1) = >>=-eq-ok (load_revision iso year m f) _ h in
      let (rest, _, h2) = >>=-eq-ok (list_entries iso year f es) _ h1 in
      let same : m ∷ rest ≡ ns = cc h2 in absurd (omega (arith, ap length same, e))

  empty_length : (ns : List ℤ) → is_empty ns ≡ true → length ns ≡ 0
  empty_length [] h = refl
  empty_length (n ∷ ns) h = cc

  check_current-absent :
      (c : AcademicPeriodCalendar) (n : ℤ) (f : Folder) (numbers : List ℤ) (current : Option ℤ)
      {u : Unit {0}}
      → check_current iso c n f numbers current ≡ ok u
      → find_file c.calendar_revision f.entries ≡ none
  unfolding check_current
  check_current-absent c n f numbers none h = cc
  check_current-absent c n f numbers (some m) h =
      let (_, _, h1) = >>=-eq-ok (guard (int_eq m n) stale) _ h in
      let (p, _, h2) = >>=-eq-ok (load_revision iso c.school_year m f) _ h1 in
      let (d, _, h3) =
        >>=-eq-ok (reraise invalid (validate_academic_period_calendar_transition p c)) _ h2 in
      let (_, absent, _) =
        >>=-eq-ok (guard (not (exists (find_file c.calendar_revision f.entries))) already_written) _
          h3 in
      absent_file c.calendar_revision f.entries
        (ground (arith, guard-eq-ok _ already_written absent))

  validate_write_state-absent :
      (c : AcademicPeriodCalendar) (expected : Option ℤ) (f : Folder) {u : Unit {0}}
      → validate_write_state iso c expected f ≡ ok u
      → find_file c.calendar_revision f.entries ≡ none
  unfolding validate_write_state list_revisions
  validate_write_state-absent c none f h =
      let (current, got, h1) = >>=-eq-ok (get_current_revision c.school_year f) _ h in
      let (numbers, listed, h2) = >>=-eq-ok (list_revisions iso c.school_year f) _ h1 in
      let (_, _, blank) =
        >>=-eq-ok (guard (not (elim current [ none ↦ false | some _ ↦ true ])) _) _ h2 in
      let (year, _, l1) = >>=-eq-ok (validated_year c.school_year) _ listed in
      let (ns, entries, l2) = >>=-eq-ok (list_entries iso year f f.entries) _ l1 in
      let sorted : sort_by number_before ns ≡ numbers = cc l2 in
      list_entries-none year f f.entries entries
        (sym (length-sort_by number_before ns)
          ∙ ap length sorted
          ∙ empty_length numbers (guard-eq-ok _ orphans blank))
        c.calendar_revision
  validate_write_state-absent c (some n) f h =
      let (current, got, h1) = >>=-eq-ok (get_current_revision c.school_year f) _ h in
      let (numbers, listed, h2) = >>=-eq-ok (list_revisions iso c.school_year f) _ h1 in
      check_current-absent c n f numbers current h2

  list_entries-locked :
      (year : Text) (f : Folder) (es : List Entry)
      → list_entries iso year (record f { locked = true }) es ≡ list_entries iso year f es
  unfolding list_entries load_revision
  list_entries-locked year f [] = refl
  list_entries-locked year f (stray ∷ es) = refl
  list_entries-locked year f (revision n x ∷ es) =
      ap (λ m. load_revision iso year n f >>= λ _. m >>= λ ns. ok (n ∷ ns))
        (list_entries-locked year f es)

  list_revisions-locked :
      (year : Text) (f : Folder)
      → list_revisions iso year (record f { locked = true }) ≡ list_revisions iso year f
  unfolding list_revisions
  list_revisions-locked year f =
      ap
        (λ (m : Text → Stored (List ℤ)).
          validated_year year >>= λ y. m y >>= λ ns. ok (sort_by number_before ns))
        (λ i y. list_entries-locked y f f.entries i)

  validate_write_state-locked :
      (c : AcademicPeriodCalendar) (expected : Option ℤ) (f : Folder)
      → validate_write_state iso c expected (record f { locked = true })
        ≡ validate_write_state iso c expected f
  unfolding validate_write_state get_current_revision check_current load_revision
  validate_write_state-locked c none f = rw (list_revisions-locked c.school_year f) refl
  validate_write_state-locked c (some n) f = rw (list_revisions-locked c.school_year f) refl

  module _ (c : AcademicPeriodCalendar) (content : Value) (v : IsCalendar c)
      (written : academic_period_calendar_to_dict iso c ≡ ok content) where
    publish_verified-ok :
        (f : Folder)
        → find_file c.calendar_revision f.entries ≡ some (holds content)
        → (publish_verified iso working c f).0 ≡ ok tt
    unfolding publish_verified publish after verify_selected reading_of selected_is
    publish_verified-ok f found =
        rw
          (
            load_current-new iso c content (record f { current = some (holds (pointer_value c)) }) v
                written found refl,
            calendar_eq_refl c,
          )
          refl

    verify_and_publish-ok :
        (f : Folder)
        → find_file c.calendar_revision f.entries ≡ some (holds content)
        → (verify_and_publish iso working c f).0 ≡ ok tt
    unfolding verify_and_publish publish_persisted reading_of
    verify_and_publish-ok f found =
        rw (load_revision-new iso c content f v written found, calendar_eq_refl c)
          (publish_verified-ok f found)

    write_locked-ok :
        (expected : Option ℤ) (f : Folder)
        → validate_write_state iso c expected f ≡ ok tt
        → (write_locked iso working c expected content f).0 ≡ ok tt
    unfolding write_locked write_revision after exists find_file
    write_locked-ok expected f allowed =
        rw (allowed, validate_write_state-absent c expected f allowed)
          (verify_and_publish-ok
            (record f { entries = revision c.calendar_revision (holds content) ∷ f.entries })
            (rw (int_eq_refl c.calendar_revision) refl))

  -- A write succeeds when every system call does, the lock is free, the calendar is valid, and the
  -- tests on the expected revision and on the stored calendars pass.
  pub write_academic_period_calendar-ok :
      (calendar c : AcademicPeriodCalendar) (expected : Option ℤ) (f : Folder)
      → validate_academic_period_calendar calendar ≡ ok c
      → validated_expected expected ≡ ok expected
      → check_first expected c ≡ ok tt
      → validate_write_state iso c expected f ≡ ok tt
      → f.locked ≡ false
      → (write_academic_period_calendar iso working calendar expected f).0 ≡ ok tt
  unfolding write_academic_period_calendar write_prepared prepare with_lock release
  write_academic_period_calendar-ok calendar c expected f accepted tested first allowed free =
      let v = validate_academic_period_calendar-IsCalendar calendar c accepted in
      let (content, written, _) =
        >>=-eq-ok (academic_period_calendar_to_dict iso c) (academic_period_calendar_from_dict iso)
          (calendar_round_trip iso c ∙ IsCalendar-ok c v) in
      rw (accepted, tested, first, written, free)
        (write_locked-ok c content v written expected (record f { locked = true })
          (validate_write_state-locked c expected f ∙ allowed))
