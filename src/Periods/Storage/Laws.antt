-- ===== src/Periods/Storage/Laws.antt =====
-- What a write leaves of the files that were there.
use pds_core.Base.{
  ◌≡◌, refl, ◌∙◌, ◌⊎◌, inl, inr, Bool, true, false, Option, none, some, List, [], ◌∷◌, ok, err,
  Bool-cases, Option-cases, arith, if◌then◌else◌, guard,
}
use pds_core.Json.{Value, ℤ, int_eq, int_eq_iff}
use pds_core.Time.{IsoText}
use pds_core.Periods.{AcademicPeriodCalendar}
use pds_core.Periods.Equality.{calendar_eq}
use pds_core.Periods.Storage.{
  already_written, no_lock, Stored, StorageError, Content, garbage, holds, Entry, revision, stray,
  Folder, find_file, remove_file, unverified_pointer, unverified, other_selection, busy, no_folder,
  unwritten, unpublished, differs, no_lock, already_written,
}
use pds_core.Periods.Storage.Write.{
  Disk, exists, discard, write_revision, publish, verify_selected, publish_verified,
  verify_and_publish, validate_write_state, write_locked, with_lock, prepare,
  write_academic_period_calendar, pointer_value, release, write_prepared, publish_persisted, after,
  selected_is,
}

-- Removing a file that is not there changes nothing of what is found.
remove_file-find :
    (n m : ℤ) (es : List Entry)
    → find_file m (remove_file n es) ≡ (if int_eq m n then none else find_file m es)
unfolding find_file remove_file
remove_file-find n m [] = ground arith
remove_file-find n m (stray ∷ es) = remove_file-find n m es
remove_file-find n m (revision k c ∷ es) =
    ground (arith, remove_file-find n m es, int_eq_iff n k, int_eq_iff m k, int_eq_iff m n)

-- Every file of `f` is in `g` with its content.
pub record Keeps (f g : Folder) : Type 0 where
  pub files :
      (n : ℤ) (c : Content) → find_file n f.entries ≡ some c → find_file n g.entries ≡ some c

Keeps-refl : (f : Folder) → Keeps f f
Keeps-refl f = record { files = λ n c e. e }

Keeps-add :
    (f : Folder) (n : ℤ) (c : Content)
    → find_file n f.entries ≡ none
    → Keeps f (record f { entries = revision n c ∷ f.entries })
unfolding find_file
Keeps-add f n c absent = record { files = λ m d e. ground (arith, absent, e, int_eq_iff m n) }

Keeps-discard :
    (disk : Disk) (f g : Folder) (n : ℤ)
    → find_file n f.entries ≡ none
    → Keeps f g
    → Keeps f (discard disk n g)
unfolding discard
Keeps-discard disk f g n absent k = elim (Bool-cases disk.removes) [
  | inl removed ↦ rw removed (record {
    files = λ m c e.
        ground (arith, remove_file-find n m g.entries, int_eq_iff m n, k.files m c e, absent, e);
  })
  | inr left ↦ rw left k
]

-- The results after which the pointer may have been replaced.
pub data Published : Stored (Unit {0}) → Type 0 where
  selected : Published (ok tt)
  unchecked : Published (err unverified_pointer)
  unequal : Published (err other_selection)

pub record IsSafe (f : Folder) (r : Stored (Unit {0}) × Folder) : Type 0 where
  pub keeps : Keeps f r.1
  pub pointer : (r.1.current ≡ f.current) ⊎ Published r.0

IsSafe-same : (f : Folder) (r : Stored (Unit {0})) → IsSafe f (r, f)
IsSafe-same f r = record { keeps = Keeps-refl f; pointer = inl refl }

pub absent_file :
    (n : ℤ) (es : List Entry) → exists (find_file n es) ≡ false → find_file n es ≡ none
unfolding exists
absent_file n es h = elim (Option-cases (find_file n es)) [
  | inl e ↦ e
  | inr (c, e) ↦ absurd (ground arith)
]

discard-current : (disk : Disk) (n : ℤ) (g : Folder) → (discard disk n g).current ≡ g.current
unfolding discard
discard-current disk n g = if-current disk.removes
  where
    if-current :
        (b : Bool)
        → (if b then record g { entries = remove_file n g.entries } else g).current ≡ g.current
    if-current true = refl
    if-current false = refl

IsSafe-discard :
    (disk : Disk) (f g : Folder) (n : ℤ) (e : StorageError)
    → find_file n f.entries ≡ none
    → Keeps f g
    → g.current ≡ f.current
    → IsSafe f (err e, discard disk n g)
IsSafe-discard disk f g n e absent k same = record {
  keeps = Keeps-discard disk f g n absent k;
  pointer = inl (discard-current disk n g ∙ same);
}

IsSafe-after :
    (f : Folder) (r : Stored (Unit {0}) × Folder) (next : Folder → Stored (Unit {0}) × Folder)
    → Keeps f r.1
    → r.1.current ≡ f.current
    → (r.0 ≡ ok tt → IsSafe f (next r.1))
    → IsSafe f (after r next)
unfolding after
IsSafe-after f (err e, g) next k same h = record { keeps = k; pointer = inl same }
IsSafe-after f (ok u, g) next k same h = h refl

module _ (iso : IsoText) (disk : Disk) (c : AcademicPeriodCalendar) where
  selected_is-Published :
      (m : Stored (Option AcademicPeriodCalendar)) → Published (selected_is iso c m)
  unfolding selected_is
  selected_is-Published (err e) = unchecked
  selected_is-Published (ok none) = unequal
  selected_is-Published (ok (some s)) = guarded (calendar_eq s c)
    where
      guarded : (b : Bool) → Published (guard b other_selection)
      guarded true = selected
      guarded false = unequal

  publish_verified-IsSafe :
      (f g : Folder) → Keeps f g → g.current ≡ f.current → IsSafe f (publish_verified iso disk c g)
  unfolding publish_verified publish after verify_selected
  publish_verified-IsSafe f g k e = either disk.publishes
    where
      either :
          (b : Bool)
          → IsSafe f (
              after
                (if b
                  then (ok tt, record g { current = some (holds (pointer_value c)) })
                  else (err unpublished, g))
                (λ x. (verify_selected iso disk c x, x)))
      either true = record {
        keeps = record { files = k.files };
        pointer = inr (selected_is-Published _);
      }
      either false = record { keeps = k; pointer = inl e }

  publish_persisted-IsSafe :
      (f g : Folder) (m : Stored AcademicPeriodCalendar)
      → find_file c.calendar_revision f.entries ≡ none
      → Keeps f g
      → g.current ≡ f.current
      → IsSafe f (publish_persisted iso disk c g m)
  unfolding publish_persisted
  publish_persisted-IsSafe f g (err e) absent k same =
      IsSafe-discard disk f g c.calendar_revision unverified absent k same
  publish_persisted-IsSafe f g (ok persisted) absent k same = either (calendar_eq persisted c)
    where
      either :
          (b : Bool)
          → IsSafe f (
              if b
              then publish_verified iso disk c g
              else (err differs, discard disk c.calendar_revision g))
      either true = publish_verified-IsSafe f g k same
      either false = IsSafe-discard disk f g c.calendar_revision differs absent k same

  write_revision-IsSafe :
      (f : Folder) (content : Value)
      → IsSafe f (
          after (write_revision disk c.calendar_revision content f) (verify_and_publish iso disk c))
  unfolding write_revision verify_and_publish after
  write_revision-IsSafe f content = either (exists (find_file c.calendar_revision f.entries)) refl
    where
      new : Content → Folder
      new x = record f { entries = revision c.calendar_revision x ∷ f.entries }

      written : (b : Bool) → Stored (Unit {0}) × Folder
      written b =
          if b
          then (ok tt, new (holds content))
          else (err unwritten, discard disk c.calendar_revision (new garbage))

      fresh :
          (b : Bool)
          → find_file c.calendar_revision f.entries ≡ none
          → IsSafe f (after (written b) (verify_and_publish iso disk c))
      fresh true absent =
          publish_persisted-IsSafe f (new (holds content)) _ absent
            (Keeps-add f c.calendar_revision (holds content) absent) refl
      fresh false absent =
          IsSafe-discard disk f (new garbage) c.calendar_revision unwritten absent
            (Keeps-add f c.calendar_revision garbage absent) refl

      either :
          (b : Bool)
          → exists (find_file c.calendar_revision f.entries) ≡ b
          → IsSafe f (
              after
                (if b then (err already_written, f) else written disk.writes_revision)
                (verify_and_publish iso disk c))
      either true e = IsSafe-same f (err already_written)
      either false e = fresh disk.writes_revision (absent_file c.calendar_revision f.entries e)

  write_locked-IsSafe :
      (expected : Option ℤ) (content : Value) (f : Folder)
      → IsSafe f (write_locked iso disk c expected content f)
  unfolding write_locked
  write_locked-IsSafe expected content f =
      IsSafe-after f (validate_write_state iso c expected f, f) _ (Keeps-refl f) refl
        (λ _. write_revision-IsSafe f content)

  with_lock-IsSafe :
      (expected : Option ℤ) (content : Value) (f : Folder)
      → IsSafe f (with_lock iso disk c expected content f)
  unfolding with_lock release
  with_lock-IsSafe expected content f = either f.locked disk.makes_lock
    where
      body :
          IsSafe
            (record f { locked = true })
            (write_locked iso disk c expected content (record f { locked = true }))
      body = write_locked-IsSafe expected content (record f { locked = true })

      either :
          (a b : Bool)
          → IsSafe f (
              if a
              then (err busy, f)
              else if b
              then release iso disk
                  (write_locked iso disk c expected content (record f { locked = true }))
              else (err no_lock, f))
      either true b = IsSafe-same f (err busy)
      either false true = record {
        keeps = record { files = body.keeps.files };
        pointer = body.pointer;
      }
      either false false = IsSafe-same f (err no_lock)

write_prepared-IsSafe :
    (iso : IsoText) (disk : Disk) (f : Folder)
    (m : Stored (AcademicPeriodCalendar × Option ℤ × Value))
    → IsSafe f (write_prepared iso disk f m)
unfolding write_prepared
write_prepared-IsSafe iso disk f (err e) = IsSafe-same f (err e)
write_prepared-IsSafe iso disk f (ok (c, expected, content)) = either disk.makes_folder
  where
    either :
        (b : Bool)
        → IsSafe f (if b then with_lock iso disk c expected content f else (err no_folder, f))
    either true = with_lock-IsSafe iso disk c expected content f
    either false = IsSafe-same f (err no_folder)

-- Whatever a write does and whichever system calls fail, every file that was there keeps its
-- content, and the pointer to the current revision is as before unless the result is a success or one
-- of the two errors of the check that follows its replacement.
pub write_academic_period_calendar-IsSafe :
    (iso : IsoText) (disk : Disk) (calendar : AcademicPeriodCalendar) (expected : Option ℤ)
    (f : Folder)
    → IsSafe f (write_academic_period_calendar iso disk calendar expected f)
unfolding write_academic_period_calendar
write_academic_period_calendar-IsSafe iso disk calendar expected f =
    write_prepared-IsSafe iso disk f (prepare iso calendar expected)
