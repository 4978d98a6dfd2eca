-- ===== src/Rosters/Changes/Lookups.antt =====
-- A roster as a finite map from its student ids to its students.
use pds_core.Base.{
  ◌≡◌, refl, sym, ◌∙◌, ap, inl, inr, Bool, true, false, not, Option, none, some, List, [], ◌∷◌,
  ◌++◌, if◌then◌else◌, map, Text, keep, any, text_eq, text_eq_iff, In, Bool-cases, arith,
}
use pds_core.Dict.{Dict, get, put, get-put}
use pds_core.Rosters.{StudentRecord, Roster}
use pds_core.Rosters.Changes.{is_student, replace_student}
use pds_core.Rosters.Creation.{lookup_from, student_lookup}

abbrev pub ids : List StudentRecord → List Text
ids ss = map (λ (s : StudentRecord). s.student_id) ss

or_else : Option StudentRecord → Option StudentRecord → Option StudentRecord
or_else none o = o
or_else (some s) o = some s

-- The last student with the id.
pub with_id : Text → List StudentRecord → Option StudentRecord
with_id id [] = none
with_id id (s ∷ ss) = or_else (with_id id ss) (if text_eq id s.student_id then some s else none)

get-lookup_from :
    (id : Text) (d : Dict StudentRecord) (ss : List StudentRecord)
    → get id (lookup_from d ss) ≡ or_else (with_id id ss) (get id d)
unfolding lookup_from with_id or_else
get-lookup_from id d [] = refl
get-lookup_from id d (s ∷ ss) =
    get-lookup_from id (put s.student_id s d) ss
    ∙ ap (or_else (with_id id ss)) (get-put s.student_id id s d)
    ∙ merged (with_id id ss) (text_eq id s.student_id)
  where
    merged :
        (o : Option StudentRecord) (b : Bool)
        → or_else o (if b then some s else get id d)
          ≡ or_else (or_else o (if b then some s else none)) (get id d)
    merged none true = refl
    merged none false = refl
    merged (some t) b = refl

pub get-student_lookup :
    (id : Text) (r : Roster) → get id (student_lookup r) ≡ with_id id r.students
unfolding student_lookup get or_else
get-student_lookup id r = get-lookup_from id [] r.students ∙ or_none (with_id id r.students)
  where
    or_none : (o : Option StudentRecord) → or_else o none ≡ o
    or_none none = refl
    or_none (some s) = refl

pub with_id-append :
    (id : Text) (ss : List StudentRecord) (s : StudentRecord)
    → with_id id (ss ++ s ∷ []) ≡ (if text_eq id s.student_id then some s else with_id id ss)
unfolding with_id or_else
with_id-append id [] s = refl
with_id-append id (t ∷ ts) s = rw (with_id-append id ts s) (chosen (text_eq id s.student_id))
  where
    chosen :
        (b : Bool)
        → or_else
            (if b then some s else with_id id ts)
            (if text_eq id t.student_id then some t else none)
          ≡ (if b
              then some s
              else or_else (with_id id ts) (if text_eq id t.student_id then some t else none))
    chosen true = refl
    chosen false = refl

-- Where no student has the id, there is none.
pub with_id-none : (id : Text) (ss : List StudentRecord) → (¬ In id (ids ss)) → with_id id ss ≡ none
unfolding with_id or_else
with_id-none id [] new = refl
with_id-none id (s ∷ ss) new =
    rw (with_id-none id ss (λ i. new (inr i))) (elim (Bool-cases (text_eq id s.student_id)) [
      | inl e ↦ absurd (new (inl ((text_eq_iff id s.student_id).0 e)))
      | inr e ↦ rw e refl
    ])

-- Where no student passes the test, no student has the id.
unknown : (id : Text) (ss : List StudentRecord) → any (is_student id) ss ≡ false → ¬ In id (ids ss)
unfolding is_student
unknown id [] h i = i
unknown id (s ∷ ss) h (inl e) = absurd (ground (arith, h, (text_eq_iff s.student_id id).1 (sym e)))
unknown id (s ∷ ss) h (inr i) = unknown id ss (ground (arith, h)) i

or_else-none : (o : Option StudentRecord) → or_else o none ≡ o
unfolding or_else
or_else-none none = refl
or_else-none (some s) = refl

-- A student whose id is tested for is found.
pub any-with_id :
    (id : Text) (ss : List StudentRecord)
    → any (is_student id) ss ≡ true
    → (s : StudentRecord) × In s ss × (s.student_id ≡ id) × (with_id id ss ≡ some s)
unfolding with_id or_else is_student
any-with_id id [] h = cc
any-with_id id (s ∷ ss) h = elim (Bool-cases (any (is_student id) ss)) [
  | inl e ↦ let (t, i, same, found) = any-with_id id ss e in (t, inr i, same, rw found refl)
  | inr e ↦
      let same = (text_eq_iff s.student_id id).0 (ground (arith, h, e)) in
      (
        s,
        inl refl,
        same,
        rw (with_id-none id ss (unknown id ss e), (text_eq_iff id s.student_id).1 (sym same)) refl,
      )
]

apart : (a b c : Text) → text_eq b c ≡ true → text_eq a c ≡ false → text_eq a b ≡ false
apart a b c h k = rw ((text_eq_iff b c).0 h) k

aside : (a b c : Text) → text_eq b c ≡ false → text_eq a c ≡ true → text_eq a b ≡ false
aside a b c h k = elim (Bool-cases (text_eq a b)) [
  | inl e ↦ cc ((text_eq_iff b c).1 (sym ((text_eq_iff a b).0 e) ∙ (text_eq_iff a c).0 k), h)
  | inr e ↦ e
]

-- The students after a replacement.
replaced :
    (id : Text) (s : StudentRecord) (ts : List StudentRecord)
    → with_id id (replace_student s ts) ≡ (
        if text_eq id s.student_id
        then (if any (is_student s.student_id) ts then some s else none)
        else with_id id ts)
unfolding with_id or_else replace_student is_student
replaced id s [] = ground arith
replaced id s (t ∷ ts) = elim (Bool-cases (text_eq t.student_id s.student_id)) [
  | inl e ↦ elim (Bool-cases (text_eq id s.student_id)) [
    | inl f ↦ rw (e, replaced id s ts, f) (either (any (is_student s.student_id) ts))
    | inr f ↦ rw (e, replaced id s ts, f, apart id t.student_id s.student_id e f) refl
  ]
  | inr e ↦ elim (Bool-cases (text_eq id s.student_id)) [
    | inl f ↦ rw (e, replaced id s ts, f, aside id t.student_id s.student_id e f) (or_else-none _)
    | inr f ↦ rw (e, replaced id s ts, f) refl
  ]
]
  where
    either : (b : Bool) → or_else (if b then some s else none) (some s) ≡ some s
    either true = refl
    either false = refl

pub with_id-replace_student :
    (id : Text) (s : StudentRecord) (ts : List StudentRecord)
    → any (is_student s.student_id) ts ≡ true
    → with_id id (replace_student s ts)
      ≡ (if text_eq id s.student_id then some s else with_id id ts)
with_id-replace_student id s ts h = rw h at (replaced id s ts)

pub ids-replace_student :
    (s : StudentRecord) (ts : List StudentRecord) → ids (replace_student s ts) ≡ ids ts
unfolding replace_student is_student
ids-replace_student s [] = refl
ids-replace_student s (t ∷ ts) = elim (Bool-cases (text_eq t.student_id s.student_id)) [
  | inl e ↦
      rw (e, ids-replace_student s ts)
        (ap (λ x. x ∷ ids ts) (sym ((text_eq_iff t.student_id s.student_id).0 e)))
  | inr e ↦ rw (e, ids-replace_student s ts) refl
]

pub with_id-keep :
    (id gone : Text) (ts : List StudentRecord)
    → with_id id (keep (λ s. not (is_student gone s)) ts)
      ≡ (if text_eq id gone then none else with_id id ts)
unfolding with_id or_else is_student
with_id-keep id gone [] = ground arith
with_id-keep id gone (t ∷ ts) = elim (Bool-cases (text_eq t.student_id gone)) [
  | inl e ↦ elim (Bool-cases (text_eq id gone)) [
    | inl f ↦ rw (e, with_id-keep id gone ts, f) refl
    | inr f ↦
        rw (e, with_id-keep id gone ts, f, apart id t.student_id gone e f)
          (sym (or_else-none (with_id id ts)))
  ]
  | inr e ↦ elim (Bool-cases (text_eq id gone)) [
    | inl f ↦ rw (e, with_id-keep id gone ts, f, aside id t.student_id gone e f) refl
    | inr f ↦ rw (e, with_id-keep id gone ts, f) refl
  ]
]

pub ids-keep :
    (gone : Text) (ts : List StudentRecord)
    → ids (keep (λ s. not (is_student gone s)) ts) ≡ keep (λ i. not (text_eq i gone)) (ids ts)
unfolding is_student
ids-keep gone [] = refl
ids-keep gone (t ∷ ts) = elim (Bool-cases (text_eq t.student_id gone)) [
  | inl e ↦ rw (e, ids-keep gone ts) refl
  | inr e ↦ rw (e, ids-keep gone ts) refl
]
