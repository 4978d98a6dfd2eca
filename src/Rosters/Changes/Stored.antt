-- ===== src/Rosters/Changes/Stored.antt =====
-- What the rows of students give again: the students, with every value stripped.
use pds_core.Base.{
  ℕ, ◌≡◌, refl, sym, ◌∙◌, ap, inl, inr, Bool, true, false, not, Option, none, some, List, [], ◌∷◌,
  if◌then◌else◌, map, Text, lit, keep, elem, text_eq, text_eq_iff, strip, strip_idem, In,
  Bool-cases,
}
use pds_core.Dict.{Dict, get, put, get-put}
use pds_core.Rosters.{
  RosterIssue, missing_required_field, StudentRecord, Row, flag, text_or_empty, value_of, row_value,
  read_field, read_fields, roster_required_columns, student_record, extra_fields_of,
}

-- The student as a roster with these columns holds it.
unfoldable pub stored : List Text → StudentRecord → StudentRecord
stored columns s = record {
  class_id = strip s.class_id;
  student_id = strip s.student_id;
  last_name = strip s.last_name;
  first_name = strip s.first_name;
  period = strip s.period;
  extra_fields =
      map (λ c. (c, strip (text_or_empty (get c s.extra_fields))))
        (keep (λ c. not (elem c roster_required_columns)) columns);
}

-- Two students with the same values.
pub same_student :
    (s t : StudentRecord)
    → s.class_id ≡ t.class_id
    → s.student_id ≡ t.student_id
    → s.last_name ≡ t.last_name
    → s.first_name ≡ t.first_name
    → s.period ≡ t.period
    → s.extra_fields ≡ t.extra_fields
    → s ≡ t
same_student s t a b c d e f = cc

pub map-same_on :
    {A B : Type 0} (f g : A → B) (xs : List A)
    → ((a : A) → In a xs → f a ≡ g a)
    → map f xs ≡ map g xs
map-same_on f g [] h = refl
map-same_on f g (x ∷ xs) h = rw (h x (inl refl), map-same_on f g xs (λ a i. h a (inr i))) refl

-- The value of a key in a dictionary built from its keys.
pub get-map :
    (f : Text → Text) (cs : List Text) (c : Text)
    → In c cs
    → get c (map (λ d. (d, f d)) cs) ≡ some (f c)
unfolding get
get-map f [] c i = absurd i
get-map f (d ∷ cs) c i = elim (Bool-cases (text_eq c d)) [
  | inl e ↦ rw e (ap (λ x. some (f x)) (sym ((text_eq_iff c d).0 e)))
  | inr e ↦ elim i [ inl same ↦ cc ((text_eq_iff c d).1 same, e) | inr j ↦ rw e (get-map f cs c j) ]
]

pub value_of-put :
    (k c : Text) (v : Text) (r : Row)
    → value_of c (record r { values = put k v r.values })
      ≡ (if text_eq c k then v else value_of c r)
unfolding value_of text_or_empty
value_of-put k c v r = ap text_or_empty (get-put k c v r.values) ∙ chosen (text_eq c k)
  where
    chosen :
        (b : Bool)
        → text_or_empty (if b then some v else get c r.values)
          ≡ (if b then v else text_or_empty (get c r.values))
    chosen true = refl
    chosen false = refl

-- Every value of the row is stripped.
abbrev pub IsStripped : Row → Type 0
IsStripped r = (c : Text) → strip (value_of c r) ≡ value_of c r

put-IsStripped :
    (k v : Text) (r : Row)
    → strip v ≡ v
    → IsStripped r
    → IsStripped (record r { values = put k v r.values })
put-IsStripped k v r h t c = elim (Bool-cases (text_eq c k)) [
  | inl e ↦ let now = rw e at (value_of-put k c v r) in ap strip now ∙ h ∙ sym now
  | inr e ↦ let now = rw e at (value_of-put k c v r) in ap strip now ∙ t c ∙ sym now
]

flag-IsStripped :
    (column : Text) (issue : RosterIssue) (r : Row)
    → IsStripped r
    → IsStripped (flag column issue r)
unfolding flag value_of
flag-IsStripped column issue r t = t

strip_empty : strip [] ≡ []
unfolding strip
strip_empty = refl

read_field-IsStripped :
    (n : ℕ) (column : Text) (o : Option Text) (r : Row)
    → IsStripped r
    → IsStripped (read_field n column o r)
unfolding read_field
read_field-IsStripped n column (some v) r t = put-IsStripped column (strip v) r (strip_idem v) t
read_field-IsStripped n column none r t = elim (Bool-cases (elem column roster_required_columns)) [
  | inl e ↦ rw e (flag-IsStripped column (missing_required_field n column) r t)
  | inr e ↦ rw e (put-IsStripped column [] r strip_empty t)
]

pub read_fields-IsStripped :
    (n : ℕ) (given : Dict Text) (columns : List Text) (r : Row)
    → IsStripped r
    → IsStripped (read_fields n given columns r)
unfolding read_fields
read_fields-IsStripped n given [] r t = t
read_fields-IsStripped n given (raw ∷ columns) r t =
    read_fields-IsStripped n given columns _
      (read_field-IsStripped n (strip raw) (row_value given raw (strip raw)) r t)

-- What a row with stripped values gives stays the same.
pub student_record-stored :
    (columns : List Text) (r : Row)
    → IsStripped r
    → stored columns (student_record columns r) ≡ student_record columns r
unfolding stored student_record extra_fields_of text_or_empty
student_record-stored columns r t =
    same_student _ _ (t (lit "class_id")) (t (lit "student_id")) (t (lit "last_name"))
      (t (lit "first_name")) (t (lit "period"))
      (map-same_on _ _ (keep (λ c. not (elem c roster_required_columns)) columns) (λ c i.
        ap (λ x. (c, strip (text_or_empty x)))
          (get-map (λ d. value_of d r) (keep (λ d. not (elem d roster_required_columns)) columns) c
            i)
        ∙ ap (λ x. (c, x)) (t c)))
