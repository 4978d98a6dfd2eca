-- ===== src/Periods/Storage/Success.antt =====
-- The result of a write that raises nothing.
use mathlib.Core.Path.{subst}
use pds_core.Base.{
  ◌≡◌, refl, sym, ap, ◌∙◌, Bool, true, false, Option, none, some, ◌∷◌, ok, err, ◌>>=◌, ◌>>◌,
  reraise, reraise-eq-ok, >>=-eq-ok, if◌then◌else◌, guard,
}
use pds_core.Json.{Value, ℤ}
use pds_core.Time.{IsoText}
use pds_core.Periods.{Checked, is_positive, not_positive, AcademicPeriodCalendar}
use pds_core.Periods.Calendars.{validate_academic_period_calendar}
use pds_core.Periods.Calendars.Accepted.{IsCalendar, validate_academic_period_calendar-IsCalendar}
use pds_core.Periods.Shapes.{academic_period_calendar_to_dict}
use pds_core.Periods.Equality.{calendar_eq, int_eq_refl}
use pds_core.Periods.Storage.{
  invalid, positive_revision, no_folder, busy, no_lock, load_pointed, Stored, StorageError, garbage,
  holds, revision, Folder, find_file, get_current_revision, load_revision, load_current,
  already_written, unpublished, differs, unwritten,
}
use pds_core.Periods.Storage.Write.{
  Disk, after, exists, discard, pointer_value, validated_expected, check_first,
  validate_write_state, write_revision, publish, verify_selected, publish_verified,
  publish_persisted, verify_and_publish, write_locked, release, with_lock, prepare, write_prepared,
  write_academic_period_calendar,
}
use pds_core.Periods.Storage.Selected.{Follows, load_current-new, validate_write_state-inv}

err-ne-ok : {e : StorageError} {u : Unit {0}} → ¬ (Path (Stored (Unit {0})) (err e) (ok u))
err-ne-ok h = cc

module _ (iso : IsoText) where
  -- `g` is what a successful write of the calendar `c` makes of `f`.
  pub record IsWritten (c : AcademicPeriodCalendar) (expected : Option ℤ) (f g : Folder)
      : Type 0 where
    pub unlocked : f.locked ≡ false
    pub expects : get_current_revision c.school_year f ≡ ok expected
    pub follows : Follows iso c expected f
    pub selects : load_current iso c.school_year g ≡ ok (some c)

  -- The lock is not read.
  Follows-locked :
      (c : AcademicPeriodCalendar) (expected : Option ℤ) (f : Folder)
      → Follows iso c expected (record f { locked = true })
      → Follows iso c expected f
  unfolding load_revision
  Follows-locked c none f h = h
  Follows-locked c (some n) f h = h

  module _ (disk : Disk) (c : AcademicPeriodCalendar) (content : Value) (v : IsCalendar c)
      (written : academic_period_calendar_to_dict iso c ≡ ok content) where
    -- The calendar is current where nothing was raised.
    abbrev Selects : Stored (Unit {0}) × Folder → Type 0
    Selects r = r.0 ≡ ok tt → load_current iso c.school_year r.1 ≡ ok (some c)

    publish_persisted-Selects :
        (f : Folder) (m : Stored AcademicPeriodCalendar)
        → find_file c.calendar_revision f.entries ≡ some (holds content)
        → Selects (publish_persisted iso disk c f m)
    unfolding publish_persisted publish_verified publish after
    publish_persisted-Selects f (err e) found = λ h. cc
    publish_persisted-Selects f (ok d) found = either (calendar_eq d c) disk.publishes
      where
        either :
            (a b : Bool)
            → Selects (
                if a
                then (after
                    (if b
                      then (ok tt, record f { current = some (holds (pointer_value c)) })
                      else (err unpublished, f))
                    (λ g. (verify_selected iso disk c g, g)))
                else (err differs, discard disk c.calendar_revision f))
        either true true = λ h. load_current-new iso c content _ v written found refl
        either true false = λ h. cc
        either false b = λ h. cc

    write_revision-Selects :
        (f : Folder)
        → Selects (
            after
              (write_revision disk c.calendar_revision content f)
              (verify_and_publish iso disk c))
    unfolding write_revision verify_and_publish after find_file
    write_revision-Selects f =
        either (exists (find_file c.calendar_revision f.entries)) disk.writes_revision
      where
        new : Folder
        new = record f { entries = revision c.calendar_revision (holds content) ∷ f.entries }

        found : find_file c.calendar_revision new.entries ≡ some (holds content)
        found = rw (int_eq_refl c.calendar_revision) refl

        either :
            (a b : Bool)
            → Selects (
                after
                  (if a then (err already_written, f) else if b then (ok tt, new) else (
                    err unwritten,
                    discard disk c.calendar_revision
                        (record f { entries = revision c.calendar_revision garbage ∷ f.entries }),
                  ))
                  (verify_and_publish iso disk c))
        either true b = λ h. cc
        either false true = publish_persisted-Selects new _ found
        either false false = λ h. cc

    write_locked-Written :
        (expected : Option ℤ) (f : Folder)
        → check_first expected c ≡ ok tt
        → (write_locked iso disk c expected content f).0 ≡ ok tt
        → (get_current_revision c.school_year f ≡ ok expected)
          × Follows iso c expected f
          × (load_current iso c.school_year (write_locked iso disk c expected content f).1
              ≡ ok (some c))
    unfolding write_locked
    write_locked-Written expected f first = checked (validate_write_state iso c expected f) refl
      where
        checked :
            (m : Stored (Unit {0}))
            → validate_write_state iso c expected f ≡ m
            → (after
                (m, f)
                (λ g.
                  after
                    (write_revision disk c.calendar_revision content g)
                    (verify_and_publish iso disk c))).0
              ≡ ok tt
            → (get_current_revision c.school_year f ≡ ok expected)
              × Follows iso c expected f
              × (load_current iso c.school_year
                    (after
                      (m, f)
                      (λ g.
                        after
                          (write_revision disk c.calendar_revision content g)
                          (verify_and_publish iso disk c))).1
                  ≡ ok (some c))
        checked (err e) h = λ k. absurd (err-ne-ok k)
        checked (ok u) h = λ k.
            let (expects, follows) = validate_write_state-inv iso c expected f v first h in
            (expects, follows, write_revision-Selects f k)

    with_lock-IsWritten :
        (expected : Option ℤ) (f : Folder)
        → check_first expected c ≡ ok tt
        → (with_lock iso disk c expected content f).0 ≡ ok tt
        → IsWritten c expected f (with_lock iso disk c expected content f).1
    unfolding with_lock release get_current_revision load_current load_pointed load_revision
    with_lock-IsWritten expected f first = either f.locked disk.makes_lock refl
      where
        held : Folder
        held = record f { locked = true }

        body : Stored (Unit {0}) × Folder
        body = write_locked iso disk c expected content held

        either :
            (a b : Bool)
            → f.locked ≡ a
            → (if a then (err busy, f) else if b then release iso disk body else (err no_lock, f)).0
              ≡ ok tt
            → IsWritten c expected f
                (if a
                  then (err busy, f)
                  else if b
                  then release iso disk body
                  else (err no_lock, f)).1
        either true b free k = absurd (err-ne-ok k)
        either false true free k =
            let (expects, follows, selects) = write_locked-Written expected held first k in
            record {
              unlocked = free;
              expects = expects;
              follows = Follows-locked c expected f follows;
              selects = selects;
            }
        either false false free k = absurd (err-ne-ok k)

  validated_expected-same :
      (expected : Option ℤ) {e : Option ℤ} → validated_expected expected ≡ ok e → e ≡ expected
  unfolding validated_expected positive_revision
  validated_expected-same none h = cc
  validated_expected-same (some n) h = positive (is_positive n) h
    where
      positive :
          (b : Bool) {e : Option ℤ}
          → (guard b (invalid not_positive) >> ok n >>= λ _. ok (some n)) ≡ ok e
          → e ≡ some n
      positive true k = cc
      positive false k = cc

  prepared-inv :
      (a : Checked AcademicPeriodCalendar) (d c : AcademicPeriodCalendar) (expected x e : Option ℤ)
      (value content : Value)
      → a ≡ ok d
      → x ≡ expected
      → check_first x d ≡ ok tt
      → academic_period_calendar_to_dict iso d ≡ ok value
      → Path
          (Stored (AcademicPeriodCalendar × Option ℤ × Value))
          (ok (d, x, value))
          (ok (c, e, content))
      → (a ≡ ok c)
        × (e ≡ expected)
        × (check_first e c ≡ ok tt)
        × (academic_period_calendar_to_dict iso c ≡ ok content)
  prepared-inv a d c expected x e value content accepted tested first written h =
      let same_d : d ≡ c = cc h in
      let same_x : x ≡ e = cc h in
      let same_v : value ≡ content = cc h in
      (
        accepted ∙ ap ok same_d,
        sym same_x ∙ tested,
        subst (λ k. check_first k c ≡ ok tt) same_x
            (subst (λ k. check_first x k ≡ ok tt) same_d first),
        subst (λ k. academic_period_calendar_to_dict iso c ≡ ok k) same_v
            (subst (λ k. academic_period_calendar_to_dict iso k ≡ ok value) same_d written),
      )

  prepare-inv :
      (calendar : AcademicPeriodCalendar) (expected : Option ℤ) {c : AcademicPeriodCalendar}
      {e : Option ℤ} {content : Value}
      → prepare iso calendar expected ≡ ok (c, e, content)
      → (validate_academic_period_calendar calendar ≡ ok c)
        × (e ≡ expected)
        × (check_first e c ≡ ok tt)
        × (academic_period_calendar_to_dict iso c ≡ ok content)
  unfolding prepare
  prepare-inv calendar expected {c} {e} {content} h =
      let (d, accepted, h1) =
        >>=-eq-ok (reraise invalid (validate_academic_period_calendar calendar)) _ h in
      let (x, tested, h2) = >>=-eq-ok (validated_expected expected) _ h1 in
      let (_, first, h3) = >>=-eq-ok (check_first x d) _ h2 in
      let (value, written, h4) =
        >>=-eq-ok (reraise invalid (academic_period_calendar_to_dict iso d)) _ h3 in
      prepared-inv (validate_academic_period_calendar calendar) d c expected x e value content
        (reraise-eq-ok invalid _ accepted) (validated_expected-same expected tested) first
        (reraise-eq-ok invalid _ written) h4

  -- A write that raises nothing has found no lock and the expected revision current, has followed
  -- the transition rules, and makes the validated calendar the current one.
  pub write_academic_period_calendar-IsWritten :
      (disk : Disk) (calendar : AcademicPeriodCalendar) (expected : Option ℤ) (f : Folder)
      → (write_academic_period_calendar iso disk calendar expected f).0 ≡ ok tt
      → (c : AcademicPeriodCalendar) × (validate_academic_period_calendar calendar ≡ ok c)
        × IsWritten c expected f (write_academic_period_calendar iso disk calendar expected f).1
  unfolding write_academic_period_calendar write_prepared
  write_academic_period_calendar-IsWritten disk calendar expected f =
      prepared (prepare iso calendar expected) refl
    where
      prepared :
          (m : Stored (AcademicPeriodCalendar × Option ℤ × Value))
          → prepare iso calendar expected ≡ m
          → (write_prepared iso disk f m).0 ≡ ok tt
          → (c : AcademicPeriodCalendar) × (validate_academic_period_calendar calendar ≡ ok c)
            × IsWritten c expected f (write_prepared iso disk f m).1
      prepared (err e) h k = absurd (err-ne-ok k)
      prepared (ok (c, e, content)) h k =
          let (accepted, same, first, written) = prepare-inv calendar expected h in
          let v = validate_academic_period_calendar-IsCalendar calendar c accepted in
          (c, accepted, made disk.makes_folder c e content v written same first k)
        where
          made :
              (b : Bool) (c : AcademicPeriodCalendar) (e : Option ℤ) (content : Value)
              → IsCalendar c
              → academic_period_calendar_to_dict iso c ≡ ok content
              → e ≡ expected
              → check_first e c ≡ ok tt
              → (if b then with_lock iso disk c e content f else (err no_folder, f)).0 ≡ ok tt
              → IsWritten c expected f
                  (if b then with_lock iso disk c e content f else (err no_folder, f)).1
          made true c e content v written same first k =
              subst (λ x. IsWritten c x f (with_lock iso disk c e content f).1) same
                (with_lock-IsWritten disk c content v written e f first k)
          made false c e content v written same first k = absurd (err-ne-ok k)
