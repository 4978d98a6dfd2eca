-- ===== src/Rosters/Changes/Reread.antt =====
-- A roster that is validated again as rows: its students are those given, with stripped values.
use pds_core.Base.{
  ℕ, ◌≡◌, refl, sym, ◌∙◌, ap, inl, inr, ◌⊎◌, true, false, not, some, List, [], ◌∷◌, Text, lit, keep,
  elem, text_eq, text_eq_iff, strip, In, keep-In, Bool-cases, arith, not_iff,
}
use pds_core.Dict.{get, put}
use pds_core.Rosters.{
  StudentRecord, Row, text_or_empty, value_of, first_of, row_value, read_field, read_fields,
  roster_required_columns, blank_row, student_record, extra_fields_of,
}
use pds_core.Rosters.Changes.{csv_value, student_to_csv_row}
use pds_core.Rosters.Changes.Stored.{stored, same_student, map-same_on, get-map, value_of-put}

-- Columns that hold the required ones, and are stripped.
pub record IsHeader (columns : List Text) : Type 0 where
  pub clean : (c : Text) → In c columns → strip c ≡ c
  pub required : (c : Text) → In c roster_required_columns → In c columns

row_value-csv :
    (columns : List Text) (s : StudentRecord) (raw c : Text)
    → In raw columns
    → row_value (student_to_csv_row columns s) raw c ≡ some (csv_value s raw)
unfolding row_value first_of student_to_csv_row
row_value-csv columns s raw c i = rw (get-map (csv_value s) columns raw i) refl

read_fields-csv :
    (n : ℕ) (all columns : List Text) (s : StudentRecord) (r : Row) (c : Text)
    → ((d : Text) → In d columns → In d all × (strip d ≡ d))
    → In c columns ⊎ (value_of c r ≡ strip (csv_value s c))
    → value_of c (read_fields n (student_to_csv_row all s) columns r) ≡ strip (csv_value s c)
unfolding read_fields read_field
read_fields-csv n all [] s r c h k = elim k [ inl i ↦ absurd i | inr e ↦ e ]
read_fields-csv n all (raw ∷ columns) s r c h k =
    let (i, clean) = h raw (inl refl) in
    rw (row_value-csv all s raw (strip raw) i, clean)
      (read_fields-csv n all columns s _ c (λ d j. h d (inr j))
        (now (Bool-cases (text_eq c raw)) k))
  where
    now :
        (text_eq c raw ≡ true) ⊎ (text_eq c raw ≡ false)
        → In c (raw ∷ columns) ⊎ (value_of c r ≡ strip (csv_value s c))
        → In c columns
          ⊎ (value_of c (record r { values = put raw (strip (csv_value s raw)) r.values })
              ≡ strip (csv_value s c))
    now (inl e) j = inr (
        rw e at (value_of-put raw c (strip (csv_value s raw)) r)
        ∙ ap (λ x. strip (csv_value s x)) (sym ((text_eq_iff c raw).0 e)))
    now (inr e) (inl (inl same)) = cc ((text_eq_iff c raw).1 same, e)
    now (inr e) (inl (inr j)) = inl j
    now (inr e) (inr t) = inr (rw e at (value_of-put raw c (strip (csv_value s raw)) r) ∙ t)

csv_value-extra :
    (s : StudentRecord) (c : Text)
    → elem c roster_required_columns ≡ false
    → csv_value s c ≡ text_or_empty (get c s.extra_fields)
unfolding csv_value
csv_value-extra s c h = ground (arith, h)

-- The row of a student gives the student again, with stripped values.
pub student_record-csv :
    (n : ℕ) (columns : List Text) (s : StudentRecord)
    → IsHeader columns
    → student_record columns (read_fields n (student_to_csv_row columns s) columns blank_row)
      ≡ stored columns s
unfolding student_record extra_fields_of stored csv_value text_eq
student_record-csv n columns s v =
    let r : Row = read_fields n (student_to_csv_row columns s) columns blank_row in
    let value : (c : Text) → In c columns → value_of c r ≡ strip (csv_value s c) =
      λ c i. read_fields-csv n columns columns s blank_row c (λ d j. (j, v.clean d j)) (inl i) in
    let at : (c : Text) → In c roster_required_columns → value_of c r ≡ strip (csv_value s c) =
      λ c i. value c (v.required c i) in
    same_student _ _ (at (lit "class_id") (inl refl)) (at (lit "student_id") (inr (inl refl)))
      (at (lit "last_name") (inr (inr (inl refl))))
      (at (lit "first_name") (inr (inr (inr (inl refl)))))
      (at (lit "period") (inr (inr (inr (inr (inl refl))))))
      (map-same_on _ _ (keep (λ c. not (elem c roster_required_columns)) columns) (λ c i.
        let (j, extra) = keep-In (λ d. not (elem d roster_required_columns)) c columns i in
        ap (λ x. (c, x)) (value c j ∙ ap strip (csv_value-extra s c ((not_iff _).0 extra)))))
