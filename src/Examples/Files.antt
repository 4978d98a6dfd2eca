-- ===== src/Examples/Files.antt =====
-- Writes of calendar revisions.
use pds_core.Base.{◌≡◌, refl, false, none, some, [], ok}
use pds_core.Json.{pos}
use pds_core.Periods.{AcademicPeriodCalendar}
use pds_core.Periods.Calendars.{validate_academic_period_calendar}
use pds_core.Periods.Equality.{calendar_eq, period_eq, periods_eq, date_eq}
use pds_core.Periods.Shapes.{
  require_str, require_int, period_item, period_string, parent_value, parent_to_value,
  date_from_iso, datetime_from_iso, period_fields, academic_period_to_dict,
  academic_period_from_dict, periods_to_items, periods_from_items, calendar_fields,
  academic_period_calendar_to_dict, periods_list, academic_period_calendar_from_dict,
}
use pds_core.Json.{item, exact_mapping}
use pds_core.Periods.Storage.{
  Folder, find_file, remove_file, positive_revision, is_text, pointer_revision, pointer_from_fields,
  load_current_pointer, get_current_revision, read_calendar, load_revision, pointed, load_pointed,
  load_current, list_entries, list_revisions,
}
use pds_core.Periods.Storage.Write.{
  Disk, exists, validated_expected, check_first, pointer_value, after, discard, write_revision,
  publish, check_current, validate_write_state, reading_of, selected_is, verify_selected,
  publish_verified, publish_persisted, verify_and_publish, write_locked, release, with_lock,
  prepare, write_prepared, write_academic_period_calendar,
}
use pds_core.Periods.Storage.Laws.{IsSafe, write_academic_period_calendar-IsSafe}
use pds_core.Periods.Storage.Success.{IsWritten, write_academic_period_calendar-IsWritten}
use pds_core.Periods.Storage.Working.{working, write_academic_period_calendar-ok}
use pds_core.Examples.{plain, calendar}
use pds_core.Examples.Calendars.{given, kept, first_accepted}

writing : Unit {0}
unfolding pds_core.Examples.Calendars.running calendar_eq period_eq periods_eq date_eq require_str
    require_int period_item period_string parent_value parent_to_value date_from_iso
    datetime_from_iso period_fields academic_period_to_dict academic_period_from_dict
    periods_to_items periods_from_items calendar_fields academic_period_calendar_to_dict
    periods_list academic_period_calendar_from_dict item exact_mapping find_file remove_file
    positive_revision is_text pointer_revision pointer_from_fields load_current_pointer
    get_current_revision read_calendar load_revision pointed load_pointed load_current list_entries
    list_revisions exists validated_expected check_first pointer_value after discard write_revision
    publish check_current validate_write_state reading_of selected_is verify_selected
    publish_verified publish_persisted verify_and_publish write_locked release with_lock prepare
    write_prepared write_academic_period_calendar
writing = tt

abbrev blank : Folder
blank = record { current = none; entries = []; locked = false }

-- The folder after the first revision was written.
abbrev one_revision : Folder
one_revision = (write_academic_period_calendar plain working (calendar 1 given) none blank).1

first_written :
    (write_academic_period_calendar plain working (calendar 1 given) none blank).0 ≡ ok tt
unfolding writing
first_written = refl

second_written :
    (write_academic_period_calendar plain working (calendar 2 given) (some (pos 1)) one_revision).0
    ≡ ok tt
unfolding writing
second_written = refl

write_academic_period_calendar-IsWritten_example :
    (c : AcademicPeriodCalendar) × (validate_academic_period_calendar (calendar 2 given) ≡ ok c)
    × IsWritten plain c
        (some (pos 1))
        one_revision
        (write_academic_period_calendar plain working
          (calendar 2 given)
          (some (pos 1))
          one_revision).1
write_academic_period_calendar-IsWritten_example =
    write_academic_period_calendar-IsWritten plain working (calendar 2 given) (some (pos 1))
      one_revision second_written

-- A disk on which the pointer cannot be replaced.
abbrev read_only_pointer : Disk
read_only_pointer = record working { publishes = false }

write_academic_period_calendar-IsSafe_example : IsSafe one_revision (
    write_academic_period_calendar plain read_only_pointer
      (calendar 2 given)
      (some (pos 1))
      one_revision)
write_academic_period_calendar-IsSafe_example =
    write_academic_period_calendar-IsSafe plain read_only_pointer (calendar 2 given) (some (pos 1))
      one_revision

second_accepted : validate_academic_period_calendar (calendar 2 given) ≡ ok (calendar 2 kept)
unfolding writing
second_accepted = refl

second_allowed : validate_write_state plain (calendar 2 kept) (some (pos 1)) one_revision ≡ ok tt
unfolding writing
second_allowed = refl

expected_valid : validated_expected (some (pos 1)) ≡ ok (some (pos 1))
unfolding writing
expected_valid = refl

not_the_first : check_first (some (pos 1)) (calendar 2 kept) ≡ ok tt
unfolding writing
not_the_first = refl

lock_free : one_revision.locked ≡ false
unfolding writing
lock_free = refl

write_academic_period_calendar-ok_example :
    (write_academic_period_calendar plain working (calendar 2 given) (some (pos 1)) one_revision).0
    ≡ ok tt
write_academic_period_calendar-ok_example =
    write_academic_period_calendar-ok plain (calendar 2 given) (calendar 2 kept) (some (pos 1))
      one_revision second_accepted expected_valid not_the_first second_allowed lock_free
