-- ===== src/Rosters/Changes/Effects.antt =====
-- What the lists of students of the changes in pds_core/rosters.py mean for the finite map.
use mathlib.Core.Path.{subst}
use pds_core.Base.{
  ◌≡◌, refl, sym, ◌∙◌, ap, inl, inr, true, false, not, none, some, List, [], ◌∷◌, ◌++◌,
  if◌then◌else◌, map, Text, keep, any, text_eq, In, NoDup, Bool-cases, arith, In-right,
}
use pds_core.Dict.{get}
use pds_core.Rosters.{StudentRecord, Roster}
use pds_core.Rosters.Accepted.{IsRoster}
use pds_core.Rosters.Changes.{is_student, replace_student}
use pds_core.Rosters.Creation.{student_lookup}
use pds_core.Rosters.Changes.Lookups.{
  ids, with_id, get-student_lookup, with_id-append, with_id-none, any-with_id,
  with_id-replace_student, ids-replace_student, with_id-keep, ids-keep,
}

-- In `r` the student stands under its id, and every other id has what it has in `v`.
abbrev pub Puts : StudentRecord → Roster → Roster → Type 0
Puts s v r =
    (id : Text)
    → get id (student_lookup r)
      ≡ (if text_eq id s.student_id then some s else get id (student_lookup v))

-- A new student, after all the others.
abbrev pub Adds : StudentRecord → Roster → Roster → Type 0
Adds s v r =
    (get s.student_id (student_lookup v) ≡ none)
    × (ids r.students ≡ ids v.students ++ s.student_id ∷ [])
    × Puts s v r

-- Another record for a student that is there, in its place.
abbrev pub Replaces : StudentRecord → Roster → Roster → Type 0
Replaces s v r =
    ((old : StudentRecord) × (get s.student_id (student_lookup v) ≡ some old))
    × (ids r.students ≡ ids v.students)
    × Puts s v r

-- A student less; the others stay in their order.
abbrev pub Removes : Text → Roster → Roster → Type 0
Removes gone v r =
    ((old : StudentRecord) × (get gone (student_lookup v) ≡ some old))
    × (ids r.students ≡ keep (λ i. not (text_eq i gone)) (ids v.students))
    × ((id : Text)
        → get id (student_lookup r) ≡ (if text_eq id gone then none else get id (student_lookup v)))

ids-append :
    (ss : List StudentRecord) (s : StudentRecord) → ids (ss ++ s ∷ []) ≡ ids ss ++ s.student_id ∷ []
ids-append [] s = refl
ids-append (t ∷ ts) s = ap (λ l. t.student_id ∷ l) (ids-append ts s)

NoDup-last : (xs : List Text) (x : Text) → NoDup (xs ++ x ∷ []) → ¬ In x xs
NoDup-last [] x d i = i
NoDup-last (y ∷ ys) x d (inl e) =
    d.0 (subst (λ z. In z (ys ++ x ∷ [])) e (In-right x ys (x ∷ []) (inl refl)))
NoDup-last (y ∷ ys) x d (inr i) = NoDup-last ys x d.1 i

-- What is looked up, from the lists of students.
looked_up :
    (v r : Roster) (s : StudentRecord) (ss : List StudentRecord)
    → r.students ≡ ss
    → ((id : Text)
        → with_id id ss ≡ (if text_eq id s.student_id then some s else with_id id v.students))
    → Puts s v r
looked_up v r s ss h k id =
    get-student_lookup id r
    ∙ ap (with_id id) h
    ∙ k id
    ∙ ap (λ x. if text_eq id s.student_id then some s else x) (sym (get-student_lookup id v))

pub append-Adds :
    (v r : Roster) (s : StudentRecord) → IsRoster r → r.students ≡ v.students ++ s ∷ [] → Adds s v r
append-Adds v r s valid h =
    let order = ap ids h ∙ ids-append v.students s in
    let new = NoDup-last (ids v.students) s.student_id (subst NoDup order valid.distinct) in
    (
      get-student_lookup s.student_id v ∙ with_id-none s.student_id v.students new,
      order,
      looked_up v r s (v.students ++ s ∷ []) h (λ id. with_id-append id v.students s),
    )

pub replace_student-Replaces :
    (v r : Roster) (s : StudentRecord)
    → any (is_student s.student_id) v.students ≡ true
    → r.students ≡ replace_student s v.students
    → Replaces s v r
replace_student-Replaces v r s there h =
    let (old, _, _, found) = any-with_id s.student_id v.students there in
    (
      (old, get-student_lookup s.student_id v ∙ found),
      ap ids h ∙ ids-replace_student s v.students,
      looked_up v r s (replace_student s v.students) h
          (λ id. with_id-replace_student id s v.students there),
    )

pub keep-Removes :
    (v r : Roster) (gone : Text)
    → any (is_student gone) v.students ≡ true
    → r.students ≡ keep (λ s. not (is_student gone s)) v.students
    → Removes gone v r
keep-Removes v r gone there h =
    let (old, _, _, found) = any-with_id gone v.students there in
    (
      (old, get-student_lookup gone v ∙ found),
      ap ids h ∙ ids-keep gone v.students,
      (λ id.
          get-student_lookup id r
          ∙ ap (with_id id) h
          ∙ with_id-keep id gone v.students
          ∙ ap (λ x. if text_eq id gone then none else x) (sym (get-student_lookup id v))),
    )

-- Students that are stored already stay the same.
pub map-append :
    (f : StudentRecord → StudentRecord) (ts : List StudentRecord) (s : StudentRecord)
    → ((t : StudentRecord) → In t ts → f t ≡ t)
    → map f (ts ++ s ∷ []) ≡ ts ++ f s ∷ []
map-append f [] s h = refl
map-append f (t ∷ ts) s h = rw (h t (inl refl), map-append f ts s (λ u i. h u (inr i))) refl

pub map-fixed :
    (f : StudentRecord → StudentRecord) (ts : List StudentRecord)
    → ((t : StudentRecord) → In t ts → f t ≡ t)
    → map f ts ≡ ts
map-fixed f [] h = refl
map-fixed f (t ∷ ts) h = rw (h t (inl refl), map-fixed f ts (λ u i. h u (inr i))) refl

pub map-replace_student :
    (f : StudentRecord → StudentRecord) (s : StudentRecord) (ts : List StudentRecord)
    → ((t : StudentRecord) → In t ts → f t ≡ t)
    → (f s).student_id ≡ s.student_id
    → map f (replace_student s ts) ≡ replace_student (f s) ts
unfolding replace_student is_student
map-replace_student f s [] h same = refl
map-replace_student f s (t ∷ ts) h same =
    let rest = map-replace_student f s ts (λ u i. h u (inr i)) same in
    elim (Bool-cases (text_eq t.student_id s.student_id)) [
      | inl e ↦ rw (ap (text_eq t.student_id) same ∙ e, e, rest) refl
      | inr e ↦ rw (ap (text_eq t.student_id) same ∙ e, e, rest, h t (inl refl)) refl
    ]

-- Where no student has the id, nothing is replaced or removed.
pub replace_student-none :
    (s : StudentRecord) (ts : List StudentRecord)
    → any (is_student s.student_id) ts ≡ false
    → replace_student s ts ≡ ts
unfolding replace_student
replace_student-none s [] h = refl
replace_student-none s (t ∷ ts) h =
    let rest = replace_student-none s ts (ground (arith, h)) in
    let other : is_student s.student_id t ≡ false = ground (arith, h) in rw (other, rest) refl

pub keep-none :
    (gone : Text) (ts : List StudentRecord)
    → any (is_student gone) ts ≡ false
    → keep (λ s. not (is_student gone s)) ts ≡ ts
keep-none gone [] h = refl
keep-none gone (t ∷ ts) h =
    let rest = keep-none gone ts (ground (arith, h)) in
    let other : is_student gone t ≡ false = ground (arith, h) in rw (other, rest) refl
