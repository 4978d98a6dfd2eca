-- ===== src/SchoolYears/Laws.antt =====
-- Which school years are accepted.
use mathlib.Core.Path.{subst}
use pds_core.Base.{
  ℕ, ◌+◌, ◌≡◌, ◌≢◌, true, Option, none, some, [], Text, ok, guard, text_eq-false, ap, strip,
  strip_idem, arith, >>=-eq-ok, guard-eq-ok,
}
use pds_core.Json.{Value, str, null}
use pds_core.SchoolYears.{required_text, school_year_match, consecutive, validate_school_year}

-- A text of two consecutive years, with no surrounding space.
pub record IsSchoolYear (s : Text) : Type 0 where
  pub trimmed : strip s ≡ s
  pub start : ℕ
  pub matches : school_year_match s ≡ some (start, start + 1)

IsSchoolYear-ne-nil : {s : Text} → IsSchoolYear s → s ≢ []
unfolding school_year_match
IsSchoolYear-ne-nil v e = cc (ap school_year_match e)

required_text-trimmed : (v : Value) {s : Text} → required_text v ≡ ok s → strip s ≡ s
unfolding required_text
required_text-trimmed (str t) h = ground (arith, strip_idem t)
required_text-trimmed null h = cc
required_text-trimmed _ h = cc

consecutive-inv :
    (o : Option (ℕ × ℕ)) → consecutive o ≡ true → (start : ℕ) × (o ≡ some (start, start + 1))
unfolding consecutive
consecutive-inv none h = cc
consecutive-inv (some (start, last)) h = (start, ground arith)

-- The text that is returned is a school year, and it is validated again with no change.
pub validate_school_year-IsSchoolYear :
    (v : Value) {s : Text} → validate_school_year v ≡ ok s → IsSchoolYear s
unfolding validate_school_year
validate_school_year-IsSchoolYear v {s} h =
    let (t, read, h1) = >>=-eq-ok (required_text v) _ h in
    let (_, tested, h2) = >>=-eq-ok (guard (consecutive (school_year_match t)) _) _ h1 in
    let same : t ≡ s = cc in
    let (start, found) = consecutive-inv (school_year_match t) (guard-eq-ok _ _ tested) in
    record {
      trimmed = subst (λ x. strip x ≡ x) same (required_text-trimmed v read);
      start = start;
      matches = subst (λ x. school_year_match x ≡ some (start, start + 1)) same found;
    }

pub validate_school_year-ok : (s : Text) → IsSchoolYear s → validate_school_year (str s) ≡ ok s
unfolding validate_school_year required_text consecutive
validate_school_year-ok s v =
    rw (v.trimmed, text_eq-false s [] (IsSchoolYear-ne-nil v), v.matches) (ground arith)

-- A validated school year is a text of two consecutive years, and validating it again returns it.
validate_school_year_idem :
    (v : Value) (s : Text)
    → validate_school_year v ≡ ok s
    → IsSchoolYear s × (validate_school_year (str s) ≡ ok s)
validate_school_year_idem v s h =
    let valid = validate_school_year-IsSchoolYear v h in (valid, validate_school_year-ok s valid)
