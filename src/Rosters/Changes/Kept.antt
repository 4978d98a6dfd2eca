-- ===== src/Rosters/Changes/Kept.antt =====
-- Each change of a roster that raises nothing gives a roster.
use pds_core.Base.{
  ◌≡◌, sym, ◌∙◌, ap, ◌⊎◌, inl, inr, true, not, List, [], ◌∷◌, ◌++◌, Text, ok, keep, keep-In, any,
  length, ◌==◌, ==_iff, strip, Bool-cases, >>=-eq-ok, >>-guard-inv,
}
use pds_core.Rosters.{
  already_present, missing_student_id, final_student, Validated, StudentRecord, Roster,
}
use pds_core.Rosters.Accepted.{IsRoster}
use pds_core.Rosters.Changes.{
  validate_with_students, validate_roster, validate_student, is_student, add_student_record,
  replace_student, replace_student_record, upsert_student_record, remove_student_record,
}
use pds_core.Rosters.Changes.Stored.{stored}
use pds_core.Rosters.Changes.Revalidated.{
  IsStored, validate_roster-IsStored, validate_with_students-stored,
}
use pds_core.Rosters.Changes.Lookups.{any-with_id}
use pds_core.Rosters.Changes.Effects.{
  Adds, Replaces, Removes, append-Adds, replace_student-Replaces, keep-Removes, map-append,
  map-fixed, map-replace_student, replace_student-none, keep-none,
}

-- A call of one of the functions that change a roster.
pub data Change : Type 0 where
  add replace upsert : StudentRecord → Change
  remove : Text → Change

unfoldable pub change : Change → Roster → Validated Roster
change (add s) roster = add_student_record roster s
change (replace s) roster = replace_student_record roster s
change (upsert s) roster = upsert_student_record roster s
change (remove id) roster = remove_student_record roster id

-- What a change does to the map from student ids to students: the student that is put there has stripped
-- values, and a value for each of the columns.
abbrev pub Changed : Change → Roster → Roster → Type 0
Changed (add s) v r = Adds (stored v.columns s) v r
Changed (replace s) v r = Replaces (stored v.columns s) v r
Changed (upsert s) v r = Adds (stored v.columns s) v r ⊎ Replaces (stored v.columns s) v r
Changed (remove id) v r = Removes id v r

-- The id of a student in a roster is stripped.
stored-student_id :
    (v : Roster) (s : StudentRecord)
    → IsStored v
    → any (is_student s.student_id) v.students ≡ true
    → (stored v.columns s).student_id ≡ s.student_id
unfolding stored
stored-student_id v s w there =
    let (t, i, same, _) = any-with_id s.student_id v.students there in
    ap strip (sym same) ∙ ap (λ (x : StudentRecord). x.student_id) (w.fixed t i) ∙ same

added :
    (v r : Roster) (s : StudentRecord)
    → IsStored v
    → validate_with_students v (v.students ++ s ∷ []) ≡ ok r
    → IsRoster r × (r.columns ≡ v.columns) × Adds (stored v.columns s) v r
added v r s w h =
    let (valid, columns, students) =
      validate_with_students-stored v (v.students ++ s ∷ []) r w.header h in
    (
      valid,
      columns,
      append-Adds v r (stored v.columns s) valid
          (students ∙ map-append (stored v.columns) v.students s w.fixed),
    )

replaced :
    (v r : Roster) (s : StudentRecord)
    → IsStored v
    → any (is_student s.student_id) v.students ≡ true
    → validate_with_students v (replace_student s v.students) ≡ ok r
    → IsRoster r × (r.columns ≡ v.columns) × Replaces (stored v.columns s) v r
replaced v r s w there h =
    let (valid, columns, students) =
      validate_with_students-stored v (replace_student s v.students) r w.header h in
    let same = stored-student_id v s w there in
    (
      valid,
      columns,
      replace_student-Replaces v r (stored v.columns s)
          (ap (λ x. any (is_student x) v.students) same ∙ there)
          (students ∙ map-replace_student (stored v.columns) s v.students w.fixed same),
    )

-- A change that raises nothing was made to a roster that is valid, and gives a roster of one class with
-- distinct student ids, and with the same columns. An addition puts a student under a new id, after the
-- others; a replacement puts one under an id that is there, in its place; an upsert does one or the other;
-- and a removal takes the student of an id that is there. Under every other id stands what stood there.
pub change-IsRoster :
    (c : Change) (roster r : Roster)
    → change c roster ≡ ok r
    → (v : Roster) × (validate_roster roster ≡ ok v)
      × (IsRoster r × (r.columns ≡ v.columns) × Changed c v r)
unfolding change add_student_record replace_student_record upsert_student_record
    remove_student_record
change-IsRoster (add s) roster r h =
    let (v, valid, h1) = >>=-eq-ok (validate_roster roster) _ h in
    let (_, _, h2) = >>=-eq-ok (validate_student v s) _ h1 in
    let (_, h3) = >>-guard-inv _ (already_present s.student_id ∷ []) _ h2 in
    (v, valid, added v r s (validate_roster-IsStored roster v valid) h3)
change-IsRoster (replace s) roster r h =
    let (v, valid, h1) = >>=-eq-ok (validate_roster roster) _ h in
    let (_, _, h2) = >>=-eq-ok (validate_student v s) _ h1 in
    let (there, h3) =
      >>-guard-inv (any (is_student s.student_id) v.students) (missing_student_id s.student_id ∷ [])
        _ h2 in
    (v, valid, replaced v r s (validate_roster-IsStored roster v valid) there h3)
change-IsRoster (upsert s) roster r h =
    let (v, valid, h1) = >>=-eq-ok (validate_roster roster) _ h in
    let (_, _, h2) = >>=-eq-ok (validate_student v s) _ h1 in
    let w = validate_roster-IsStored roster v valid in
    (
      v,
      valid,
      elim (Bool-cases (any (is_student s.student_id) v.students)) [
        | inl e ↦ let (a, b, c) = replaced v r s w e (rw e at h2) in (a, b, inr c)
        | inr e ↦
            let (a, b, c) = added v r s w (rw (e, replace_student-none s v.students e) at h2) in
            (a, b, inl c)
      ],
    )
change-IsRoster (remove id) roster r h =
    let (v, valid, h1) = >>=-eq-ok (validate_roster roster) _ h in
    let left : List StudentRecord = keep (λ s. not (is_student id s)) v.students in
    let (fewer, h2) =
      >>-guard-inv (not (length left == length v.students)) (missing_student_id id ∷ []) _ h1 in
    let (_, h3) = >>-guard-inv _ (final_student id ∷ []) _ h2 in
    let w = validate_roster-IsStored roster v valid in
    let (kept, columns, students) = validate_with_students-stored v left r w.header h3 in
    let there : any (is_student id) v.students ≡ true =
      elim (Bool-cases (any (is_student id) v.students)) [
        | inl e ↦ e
        | inr e ↦ cc (
          (==_iff (length left) (length v.students)).1 (ap length (keep-none id v.students e)),
          fewer,
        )
      ] in
    let fixed =
      map-fixed (stored v.columns) left
        (λ s i. w.fixed s (keep-In (λ t. not (is_student id t)) s v.students i).0) in
    (v, valid, (kept, columns, keep-Removes v r id there (students ∙ fixed)))
