-- ===== src/Rosters/Checks.antt =====
-- What the checks of a valid row find.
use mathlib.Core.Path.{subst}
use pds_core.Base.{
  ℕ, ◌≡◌, refl, sym, ◌∙◌, ap, inl, inr, Bool, true, false, not, ◌&&◌, Option, none, some, List, [],
  ◌∷◌, Text, lit, Outcome, ok, err, elem, elem→Mem, text_eq, text_eq_iff, In, Bool-cases, arith,
  some-inj, if◌then◌else◌,
}
use pds_core.Json.{str}
use pds_core.Dict.{Dict}
use pds_core.Identifiers.{IdentifierError, validate_identifier}
use pds_core.Rosters.{
  invalid_class_id, inconsistent_class_id, invalid_student_id, duplicate_student_id,
  blank_required_value, roster_required_columns, Row, flag, value_of, read_fields, require_values,
  class_of, check_class, student_of, check_student, is_empty, blank_row, read_row,
}
use pds_core.Rosters.Agreement.{Agrees, flag-Agrees, read_fields-Agrees, require_values-Agrees}

-- The class id of a row that stays valid.
pub record IsClassed (expected : Option Text) (r : Row) (s : Option Text × Row) : Type 0 where
  pub same : s.1 ≡ r
  pub now : s.0 ≡ some (value_of (lit "class_id") r)
  pub before : (x : Text) → expected ≡ some x → x ≡ value_of (lit "class_id") r

class_of-Agrees :
    (n : ℕ) (expected : Option Text) (c : Text) (r : Row) (m : Outcome IdentifierError Text)
    → Agrees r
    → Agrees (class_of n expected c r m).1
unfolding class_of
class_of-Agrees n expected c r (err e) a = flag-Agrees (lit "class_id") (invalid_class_id n c) r
class_of-Agrees n none c r (ok s) a = a
class_of-Agrees n (some x) c r (ok s) a = elim (Bool-cases (text_eq c x)) [
  | inl e ↦ rw e a
  | inr e ↦ rw e (flag-Agrees (lit "class_id") (inconsistent_class_id n c) r)
]

class_of-IsClassed :
    (n : ℕ) (expected : Option Text) (r : Row) (m : Outcome IdentifierError Text)
    → is_empty (class_of n expected (value_of (lit "class_id") r) r m).1.invalid ≡ true
    → IsClassed expected r (class_of n expected (value_of (lit "class_id") r) r m)
unfolding class_of flag is_empty
class_of-IsClassed n expected r (err e) h = cc
class_of-IsClassed n none r (ok s) h = record { same = refl; now = refl; before = λ x e. cc }
class_of-IsClassed n (some x) r (ok s) h =
    elim (Bool-cases (text_eq (value_of (lit "class_id") r) x)) [
      | inl e ↦
          let equal = (text_eq_iff (value_of (lit "class_id") r) x).0 e in
          rw e (record {
            same = refl;
            now = ap some (sym equal);
            before = λ y k. sym (some-inj k) ∙ sym equal;
          })
      | inr e ↦ cc (rw e at h)
    ]

check_class-Agrees :
    (n : ℕ) (expected : Option Text) (r : Row) → Agrees r → Agrees (check_class n expected r).1
unfolding check_class
check_class-Agrees n expected r a =
    tested (not (text_eq (value_of (lit "class_id") r) []) && not (elem (lit "class_id") r.invalid))
  where
    tested :
        (b : Bool)
        → Agrees
            (if b
              then class_of n expected
                  (value_of (lit "class_id") r)
                  r
                  (validate_identifier "class_id" (str (value_of (lit "class_id") r)))
              else (expected, r)).1
    tested true = class_of-Agrees n expected (value_of (lit "class_id") r) r _ a
    tested false = a

-- The student id of a row that stays valid.
pub record IsKnown (seen : List Text) (r : Row) (s : List Text × Row) : Type 0 where
  pub same : s.1 ≡ r
  pub now : s.0 ≡ value_of (lit "student_id") r ∷ seen
  pub fresh : ¬ In (value_of (lit "student_id") r) seen

student_of-Agrees :
    (n : ℕ) (seen : List Text) (c : Text) (r : Row) (m : Outcome IdentifierError Text)
    → Agrees r
    → Agrees (student_of n seen c r m).1
unfolding student_of
student_of-Agrees n seen c r (err e) a = flag-Agrees (lit "student_id") (invalid_student_id n c) r
student_of-Agrees n seen c r (ok t) a = elim (Bool-cases (elem c seen)) [
  | inl e ↦ rw e (flag-Agrees (lit "student_id") (duplicate_student_id n c) r)
  | inr e ↦ rw e a
]

student_of-IsKnown :
    (n : ℕ) (seen : List Text) (r : Row) (m : Outcome IdentifierError Text)
    → is_empty (student_of n seen (value_of (lit "student_id") r) r m).1.invalid ≡ true
    → IsKnown seen r (student_of n seen (value_of (lit "student_id") r) r m)
unfolding student_of flag is_empty
student_of-IsKnown n seen r (err e) h = cc
student_of-IsKnown n seen r (ok t) h =
    elim (Bool-cases (elem (value_of (lit "student_id") r) seen)) [
      | inl e ↦ cc (rw e at h)
      | inr e ↦ rw e (record {
        same = refl;
        now = refl;
        fresh = λ i. cc ((elem→Mem (value_of (lit "student_id") r) seen).1 i, e);
      })
    ]

check_student-Agrees :
    (n : ℕ) (seen : List Text) (r : Row) → Agrees r → Agrees (check_student n seen r).1
unfolding check_student
check_student-Agrees n seen r a =
    tested
      (not (text_eq (value_of (lit "student_id") r) []) && not (elem (lit "student_id") r.invalid))
  where
    tested :
        (b : Bool)
        → Agrees
            (if b
              then student_of n seen
                  (value_of (lit "student_id") r)
                  r
                  (validate_identifier "student_id" (str (value_of (lit "student_id") r)))
              else (seen, r)).1
    tested true = student_of-Agrees n seen (value_of (lit "student_id") r) r _ a
    tested false = a

pub present : (a b : Bool) → a ≡ false → (not a && b) ≡ false → b ≡ false
present a b h k = ground arith

empty-elem : (c : Text) (xs : List Text) → is_empty xs ≡ true → elem c xs ≡ false
unfolding is_empty
empty-elem c [] h = refl
empty-elem c (x ∷ xs) h = cc

-- A row without an invalid column has a value under each required one.
pub require_values-kept :
    (n : ℕ) (cs : List Text) (r : Row)
    → is_empty (require_values n cs r).invalid ≡ true
    → (require_values n cs r ≡ r) × ((c : Text) → In c cs → text_eq (value_of c r) [] ≡ false)
unfolding require_values flag is_empty
require_values-kept n [] r h = (refl, (λ c i. absurd i))
require_values-kept n (c ∷ cs) r h =
    tested (not (elem c r.invalid) && text_eq (value_of c r) []) refl h (require_values-kept n cs)
  where
    tested :
        (b : Bool)
        → (not (elem c r.invalid) && text_eq (value_of c r) []) ≡ b
        → is_empty
            (require_values n cs (if b then flag c (blank_required_value n c) r else r)).invalid
          ≡ true
        → ((q : Row)
            → is_empty (require_values n cs q).invalid ≡ true
            → (require_values n cs q ≡ q)
              × ((d : Text) → In d cs → text_eq (value_of d q) [] ≡ false))
        → (require_values n cs (if b then flag c (blank_required_value n c) r else r) ≡ r)
          × ((d : Text) → In d (c ∷ cs) → text_eq (value_of d r) [] ≡ false)
    tested true at k ih =
        let (same, _) = ih (flag c (blank_required_value n c) r) k in
        cc (ap (λ (x : Row). is_empty x.invalid) same, k)
    tested false at k ih =
        let (same, full) = ih r k in
        let valid = sym (ap (λ (x : Row). is_empty x.invalid) same) ∙ k in
        (
          same,
          (λ d i. elim i [
            | inl e ↦
                subst (λ x. text_eq (value_of x r) [] ≡ false) (sym e)
                  (present (elem c r.invalid) _ (empty-elem c r.invalid valid) at)
            | inr j ↦ full d j
          ]),
        )

check_class-IsClassed :
    (n : ℕ) (expected : Option Text) (r : Row)
    → text_eq (value_of (lit "class_id") r) [] ≡ false
    → is_empty (check_class n expected r).1.invalid ≡ true
    → IsClassed expected r (check_class n expected r)
unfolding check_class
check_class-IsClassed n expected r full h =
    tested (elem (lit "class_id") r.invalid) refl (rw full at h) full
  where
    value : Text
    value = value_of (lit "class_id") r

    chosen : Bool → Option Text × Row
    chosen b =
        if b
        then class_of n expected value r (validate_identifier "class_id" (str value))
        else (expected, r)

    tested :
        (b : Bool)
        → elem (lit "class_id") r.invalid ≡ b
        → is_empty (chosen (not b)).1.invalid ≡ true
        → text_eq value [] ≡ false
        → IsClassed expected r
            (chosen (not (text_eq value []) && not (elem (lit "class_id") r.invalid)))
    tested true at k f = cc (empty-elem (lit "class_id") r.invalid k, at)
    tested false at k f = rw (f, at) (class_of-IsClassed n expected r _ k)

check_student-IsKnown :
    (n : ℕ) (seen : List Text) (r : Row)
    → text_eq (value_of (lit "student_id") r) [] ≡ false
    → is_empty (check_student n seen r).1.invalid ≡ true
    → IsKnown seen r (check_student n seen r)
unfolding check_student
check_student-IsKnown n seen r full h =
    tested (elem (lit "student_id") r.invalid) refl (rw full at h) full
  where
    value : Text
    value = value_of (lit "student_id") r

    chosen : Bool → List Text × Row
    chosen b =
        if b
        then student_of n seen value r (validate_identifier "student_id" (str value))
        else (seen, r)

    tested :
        (b : Bool)
        → elem (lit "student_id") r.invalid ≡ b
        → is_empty (chosen (not b)).1.invalid ≡ true
        → text_eq value [] ≡ false
        → IsKnown seen r
            (chosen (not (text_eq value []) && not (elem (lit "student_id") r.invalid)))
    tested true at k f = cc (empty-elem (lit "student_id") r.invalid k, at)
    tested false at k f = rw (f, at) (student_of-IsKnown n seen r _ k)

read_row-Agrees :
    (n : ℕ) (columns : List Text) (given : Dict Text) → Agrees (read_row n columns given)
unfolding read_row is_empty
read_row-Agrees n columns given =
    require_values-Agrees n roster_required_columns _
      (read_fields-Agrees n given columns blank_row refl)

class_of-valid :
    (n : ℕ) (expected : Option Text) (c : Text) (r : Row) (m : Outcome IdentifierError Text)
    → is_empty (class_of n expected c r m).1.invalid ≡ true
    → is_empty r.invalid ≡ true
unfolding class_of flag is_empty
class_of-valid n expected c r (err e) h = cc
class_of-valid n none c r (ok s) h = h
class_of-valid n (some x) c r (ok s) h = elim (Bool-cases (text_eq c x)) [
  | inl e ↦ rw e at h
  | inr e ↦ cc (rw e at h)
]

check_class-valid :
    (n : ℕ) (expected : Option Text) (r : Row)
    → is_empty (check_class n expected r).1.invalid ≡ true
    → is_empty r.invalid ≡ true
unfolding check_class
check_class-valid n expected r h =
    elim (Bool-cases
      (not (text_eq (value_of (lit "class_id") r) []) && not (elem (lit "class_id") r.invalid))) [
        | inl e ↦ class_of-valid n expected (value_of (lit "class_id") r) r _ (rw e at h)
        | inr e ↦ rw e at h
      ]

student_of-valid :
    (n : ℕ) (seen : List Text) (c : Text) (r : Row) (m : Outcome IdentifierError Text)
    → is_empty (student_of n seen c r m).1.invalid ≡ true
    → is_empty r.invalid ≡ true
unfolding student_of flag is_empty
student_of-valid n seen c r (err e) h = cc
student_of-valid n seen c r (ok t) h = elim (Bool-cases (elem c seen)) [
  | inl e ↦ cc (rw e at h)
  | inr e ↦ rw e at h
]

check_student-valid :
    (n : ℕ) (seen : List Text) (r : Row)
    → is_empty (check_student n seen r).1.invalid ≡ true
    → is_empty r.invalid ≡ true
unfolding check_student
check_student-valid n seen r h =
    elim (Bool-cases (
      not (text_eq (value_of (lit "student_id") r) [])
      && not (elem (lit "student_id") r.invalid))) [
        | inl e ↦ student_of-valid n seen (value_of (lit "student_id") r) r _ (rw e at h)
        | inr e ↦ rw e at h
      ]

-- A valid row has a value under each required column.
read_row-full :
    (n : ℕ) (columns : List Text) (given : Dict Text) (c : Text)
    → is_empty (read_row n columns given).invalid ≡ true
    → In c roster_required_columns
    → text_eq (value_of c (read_row n columns given)) [] ≡ false
unfolding read_row
read_row-full n columns given c h i =
    let (same, full) =
      require_values-kept n roster_required_columns (read_fields n given columns blank_row) h in
    ap (λ r. text_eq (value_of c r) []) same ∙ full c i

pub record IsValidRow (n : ℕ) (columns : List Text) (expected : Option Text) (seen : List Text)
    (given : Dict Text) : Type 0 where
  pub classed :
      IsClassed expected
        (read_row n columns given)
        (check_class n expected (read_row n columns given))
  pub known :
      IsKnown seen
        (check_class n expected (read_row n columns given)).1
        (check_student n seen (check_class n expected (read_row n columns given)).1)

pub valid-IsValidRow :
    (n : ℕ) (columns : List Text) (expected : Option Text) (seen : List Text) (given : Dict Text)
    → is_empty
        (check_student n seen (check_class n expected (read_row n columns given)).1).1.invalid
      ≡ true
    → IsValidRow n columns expected seen given
valid-IsValidRow n columns expected seen given h =
    let r : Row = read_row n columns given in
    let h1 = check_student-valid n seen (check_class n expected r).1 h in
    let h0 = check_class-valid n expected r h1 in
    let classed =
      check_class-IsClassed n expected r
        (read_row-full n columns given (lit "class_id") h0 (inl refl)) h1 in
    let full = read_row-full n columns given (lit "student_id") h0 (inr (inl refl)) in
    record {
      classed = classed;
      known =
          check_student-IsKnown n seen (check_class n expected r).1
            (ap (λ x. text_eq (value_of (lit "student_id") x) []) classed.same ∙ full) h;
    }

pub checked-Agrees :
    (n : ℕ) (columns : List Text) (expected : Option Text) (seen : List Text) (given : Dict Text)
    → Agrees (check_student n seen (check_class n expected (read_row n columns given)).1).1
checked-Agrees n columns expected seen given =
    check_student-Agrees n seen _
      (check_class-Agrees n expected _ (read_row-Agrees n columns given))
