-- ===== src/Rosters/Rows.antt =====
-- Rows without an issue give distinct students of one class.
use mathlib.Core.Path.{subst}
use pds_core.Base.{
  ℕ, suc, ◌≡◌, refl, sym, ◌∙◌, ap, inl, inr, Bool, true, ◌&&◌, Option, some, List, [], ◌∷◌, ◌++◌,
  map, Text, lit, strip, In, NoDup, length, arith,
}
use pds_core.Dict.{Dict}
use pds_core.Rosters.{
  RosterIssue, StudentRecord, Row, value_of, check_class, check_student, student_record, Reading,
  is_empty, add_row, read_row, read_rows,
}
use pds_core.Rosters.Checks.{valid-IsValidRow, checked-Agrees}

-- What a row without an issue adds to what was read before it.
pub record IsRead (columns : List Text) (expected : Option Text) (seen : List Text)
    (rows : List (Dict Text)) (reading : Reading) : Type 0 where
  pub every : length reading.students ≡ length rows
  pub one_class : (s : StudentRecord) → In s reading.students → reading.expected ≡ some s.class_id
  pub stays : (x : Text) → expected ≡ some x → reading.expected ≡ some x
  pub fresh : (s : StudentRecord) → In s reading.students → ¬ In s.student_id seen
  pub distinct : NoDup (map (λ (s : StudentRecord). s.student_id) reading.students)

pub and_iff : (a b : Bool) → (a && b) ≡ true → (a ≡ true) × (b ≡ true)
and_iff a b h = (ground arith, ground arith)

pub empty-append : (xs ys : List RosterIssue) → is_empty (xs ++ ys) ≡ (is_empty xs && is_empty ys)
unfolding is_empty
empty-append [] ys = refl
empty-append (x ∷ xs) ys = refl

mapped-In :
    (i : Text) (ss : List StudentRecord)
    → In i (map (λ (s : StudentRecord). s.student_id) ss)
    → (s : StudentRecord) × In s ss × (i ≡ s.student_id)
mapped-In i [] j = absurd j
mapped-In i (s ∷ ss) (inl e) = (s, inl refl, e)
mapped-In i (s ∷ ss) (inr j) = let (t, k, e) = mapped-In i ss j in (t, inr k, e)

-- A valid row in front.
add_row-IsRead :
    (columns : List Text) (expected : Option Text) (seen : List Text) (given : Dict Text)
    (rows : List (Dict Text)) (r : Row) (rest : Reading)
    → is_empty r.invalid ≡ true
    → ((x : Text) → expected ≡ some x → x ≡ value_of (lit "class_id") r)
    → (¬ In (value_of (lit "student_id") r) seen)
    → IsRead columns
        (some (value_of (lit "class_id") r))
        (value_of (lit "student_id") r ∷ seen)
        rows
        rest
    → IsRead columns expected seen (given ∷ rows) (add_row (map strip columns) r rest)
unfolding add_row student_record
add_row-IsRead columns expected seen given rows r rest valid before new v = rw valid (record {
  every = ap suc v.every;
  one_class = λ s i. elim i [
    | inl e ↦
        v.stays (value_of (lit "class_id") r) refl
        ∙ ap (λ (x : StudentRecord). some x.class_id) (sym e)
    | inr j ↦ v.one_class s j
  ];
  stays = λ x e. v.stays x (ap some (sym (before x e)));
  fresh = λ s i. elim i [
    | inl e ↦ subst (λ (x : StudentRecord). ¬ In x.student_id seen) (sym e) new
    | inr j ↦ λ k. v.fresh s j (inr k)
  ];
  distinct = (
    (λ i.
        let (s, j, e) = mapped-In (value_of (lit "student_id") r) rest.students i in
        v.fresh s j (inl (sym e))),
    v.distinct,
  );
})

pub read_rows-IsRead :
    (n : ℕ) (columns : List Text) (expected : Option Text) (seen : List Text)
    (rows : List (Dict Text))
    → is_empty (read_rows n columns expected seen rows).issues ≡ true
    → IsRead columns expected seen rows (read_rows n columns expected seen rows)
unfolding read_rows add_row
read_rows-IsRead n columns expected seen [] h = record {
  every = refl;
  one_class = λ s i. absurd i;
  stays = λ x e. e;
  fresh = λ s i. absurd i;
  distinct = tt;
}
read_rows-IsRead n columns expected seen (given ∷ rows) h =
    let classed : Option Text × Row = check_class n expected (read_row n columns given) in
    let known : List Text × Row = check_student n seen classed.1 in
    let rest : Reading = read_rows (suc n) columns classed.0 known.0 rows in
    let both = sym (empty-append known.1.issues rest.issues) ∙ h in
    let valid : is_empty known.1.invalid ≡ true =
      sym (checked-Agrees n columns expected seen given) ∙ (and_iff _ _ both).0 in
    let v = valid-IsValidRow n columns expected seen given valid in
    let same : known.1 ≡ classed.1 = v.known.same in
    let value : (c : Text) → value_of c (read_row n columns given) ≡ value_of c known.1 =
      λ c. ap (value_of c) (sym v.classed.same ∙ sym same) in
    add_row-IsRead columns expected seen given rows known.1 rest valid
      (λ x e. v.classed.before x e ∙ value (lit "class_id"))
      (λ i. v.known.fresh (subst (λ x. In x seen) (ap (value_of (lit "student_id")) same) i))
      (subst (λ e. IsRead columns e (value_of (lit "student_id") known.1 ∷ seen) rows rest)
        (v.classed.now ∙ ap some (value (lit "class_id")))
        (subst (λ l. IsRead columns classed.0 l rows rest)
          (v.known.now ∙ ap (λ x. value_of (lit "student_id") x ∷ seen) (sym same))
          (read_rows-IsRead (suc n) columns classed.0 known.0 rows (and_iff _ _ both).1)))
