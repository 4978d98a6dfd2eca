-- ===== src/Periods/Storage/Unlocked.antt =====
-- The lock of the folder of a school year (pds_core/academic_period_storage.py) after a write.
use pds_core.Base.{◌≡◌, refl, Bool, true, false, Option, ok, err, if◌then◌else◌}
use pds_core.Json.{Value, ℤ}
use pds_core.Time.{IsoText}
use pds_core.Periods.{AcademicPeriodCalendar}
use pds_core.Periods.Storage.{Stored, Folder, busy, no_lock, no_folder}
use pds_core.Periods.Storage.Write.{
  Disk, release, write_locked, with_lock, prepare, write_prepared, write_academic_period_calendar,
}

module _ (iso : IsoText) where
  -- Where the lock is free and its file can be removed, it is free after the write, whatever the
  -- write returns.
  pub write_academic_period_calendar_unlocked :
      (disk : Disk) (calendar : AcademicPeriodCalendar) (expected : Option ℤ) (f : Folder)
      → f.locked ≡ false
      → disk.removes ≡ true
      → (write_academic_period_calendar iso disk calendar expected f).1.locked ≡ false
  unfolding write_academic_period_calendar write_prepared with_lock release
  write_academic_period_calendar_unlocked disk calendar expected f free removable =
      prepared (prepare iso calendar expected)
    where
      locking :
          (a b : Bool) (r : Stored (Unit {0}) × Folder)
          → (if a
              then (err busy, f)
              else if b
              then release iso disk r
              else (err no_lock, f)).1.locked
            ≡ false
      locking true b r = free
      locking false true r = rw removable refl
      locking false false r = free

      making :
          (a : Bool) (c : AcademicPeriodCalendar) (e : Option ℤ) (v : Value)
          → (if a then with_lock iso disk c e v f else (err no_folder, f)).1.locked ≡ false
      making true c e v =
          locking f.locked disk.makes_lock
            (write_locked iso disk c e v (record f { locked = true }))
      making false c e v = free

      prepared :
          (m : Stored (AcademicPeriodCalendar × Option ℤ × Value))
          → (write_prepared iso disk f m).1.locked ≡ false
      prepared (err e) = free
      prepared (ok (c, e, v)) = making disk.makes_folder c e v
