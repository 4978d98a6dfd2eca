-- ===== src/Rosters/Accepted.antt =====
-- What an accepted roster guarantees.
use mathlib.Core.Path.{subst}
use pds_core.Base.{
  ◌≡◌, refl, sym, ◌∙◌, inl, inr, ◌⊎◌, true, not, Option, none, some, List, [], ◌∷◌, map, Text, ok,
  elem, elem→Mem, text_eq, strip, In, NoDup, length, Bool-cases, >>=-eq-ok, >>-guard-inv, ok-inj,
  some-inj,
}
use pds_core.Dict.{Dict}
use pds_core.Files.{FilePath}
use pds_core.Rosters.{
  RosterIssue, empty_roster, roster_required_columns, StudentRecord, Roster, missing_columns,
  header_issues, unless_issues, validate_columns, Reading, is_empty, read_rows, roster_of,
  validate_roster_rows,
}
use pds_core.Rosters.Rows.{read_rows-IsRead}

missing_columns-In :
    (seen cs : List Text)
    → is_empty (missing_columns seen cs) ≡ true
    → (c : Text) → In c cs
    → In c seen
unfolding missing_columns is_empty
missing_columns-In seen [] h c i = absurd i
missing_columns-In seen (d ∷ ds) h c i = elim (Bool-cases (elem d seen)) [
  | inl e ↦ elim i [
    | inl same ↦ subst (λ x. In x seen) (sym same) ((elem→Mem d seen).0 e)
    | inr j ↦ missing_columns-In seen ds (rw e at h) c j
  ]
  | inr e ↦ cc (rw e at h)
]

-- The columns are distinct, and the required ones are there.
header_issues-IsHeader :
    (seen columns : List Text)
    → is_empty (header_issues seen columns) ≡ true
    → NoDup (map strip columns)
      × ((c : Text) → In c (map strip columns) → ¬ In c seen)
      × ((c : Text) → In c roster_required_columns → In c seen ⊎ In c (map strip columns))
unfolding header_issues is_empty
header_issues-IsHeader seen [] h =
    (tt, (λ c i. absurd i), (λ c i. inl (missing_columns-In seen roster_required_columns h c i)))
header_issues-IsHeader seen (c ∷ cs) h = elim (Bool-cases (text_eq (strip c) [])) [
  | inl e ↦ cc (rw e at h)
  | inr e ↦ elim (Bool-cases (elem (strip c) seen)) [
    | inl f ↦ cc (rw (e, f) at h)
    | inr f ↦
        let (distinct, new, required) =
          header_issues-IsHeader (strip c ∷ seen) cs (rw (e, f) at h) in
        (
          ((λ i. new (strip c) i (inl refl)), distinct),
          (λ d i. elim i [
            | inl same ↦ λ j. cc ((elem→Mem (strip c) seen).1 (subst (λ x. In x seen) same j), f)
            | inr j ↦ λ k. new d j (inr k)
          ]),
          (λ d i. elim (required d i) [
            | inl j ↦ elim j [ inl same ↦ inr (inl same) | inr k ↦ inl k ]
            | inr j ↦ inr (inr j)
          ]),
        )
  ]
]

pub record IsRoster (r : Roster) : Type 0 where
  pub one_class : (s : StudentRecord) → In s r.students → s.class_id ≡ r.class_id
  pub distinct : NoDup (map (λ (s : StudentRecord). s.student_id) r.students)
  pub headed : NoDup r.columns
  pub required : (c : Text) → In c roster_required_columns → In c r.columns

pub unless_issues-inv :
    {A : Type 0} (is : List RosterIssue) (a b : A)
    → unless_issues is a ≡ ok b
    → (is_empty is ≡ true) × (a ≡ b)
unfolding unless_issues is_empty
unless_issues-inv [] a b h = (refl, ok-inj h)
unless_issues-inv (i ∷ is) a b h = cc

pub roster_of-inv :
    (columns : List Text) (source : Option FilePath) (ss : List StudentRecord) (o : Option Text)
    (r : Roster)
    → roster_of columns source ss o ≡ ok r
    → (c : Text) × (o ≡ some c)
      × (record { class_id = c; students = ss; columns = columns; source_path = source } ≡ r)
unfolding roster_of
roster_of-inv columns source ss none r h = cc
roster_of-inv columns source ss (some c) r h = (c, refl, ok-inj h)

-- An accepted roster has a student for each row, all of one class and with distinct ids; its columns are
-- the stripped headers, which are distinct and hold the required ones.
pub validate_roster_rows-IsRoster :
    (columns : List Text) (rows : List (Dict Text)) (source : Option FilePath) (r : Roster)
    → validate_roster_rows columns rows source ≡ ok r
    → IsRoster r × (length r.students ≡ length rows) × (r.columns ≡ map strip columns)
unfolding validate_roster_rows validate_columns
validate_roster_rows-IsRoster columns rows source r h =
    let (normalized, checked, h1) =
      >>=-eq-ok (unless_issues (header_issues [] columns) (map strip columns)) _ h in
    let (_, h2) = >>-guard-inv (not (is_empty rows)) (empty_roster ∷ []) _ h1 in
    let reading : Reading = read_rows 2 columns none [] rows in
    let (u, clean, h3) = >>=-eq-ok (unless_issues reading.issues tt) _ h2 in
    let (no_issue, _) = unless_issues-inv reading.issues tt u clean in
    let v = read_rows-IsRead 2 columns none [] rows no_issue in
    let (headed, same) =
      unless_issues-inv (header_issues [] columns) (map strip columns) normalized checked in
    let (distinct, _, required) = header_issues-IsHeader [] columns headed in
    let (c, found, made) = roster_of-inv normalized source reading.students reading.expected r h3 in
    subst
      (λ (x : Roster).
        IsRoster x × (length x.students ≡ length rows) × (x.columns ≡ map strip columns))
      made
      (
        record {
          one_class = λ s i. sym (some-inj (sym found ∙ v.one_class s i));
          distinct = v.distinct;
          headed = subst NoDup same distinct;
          required =
              λ d i. subst (In d) same (elim (required d i) [ inl j ↦ absurd j | inr j ↦ j ]);
        },
        v.every,
        sym same,
      )
