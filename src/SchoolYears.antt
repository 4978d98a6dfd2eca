-- ===== src/SchoolYears.antt =====
-- pds_core/school_years.py: school-year texts, and the active school year of a workspace.
pub mod Laws
pub mod Workspace
use pds_core.Base.{
  ℕ, ◌+◌, ◌*◌, Bool, true, false, not, ◌&&◌, Option, none, some, List, [], ◌∷◌, Text, lit, Outcome,
  ok, err, ◌>>=◌, ◌>>◌, guard, reraise, ◌==◌, text_eq, strip, if◌then◌else◌,
}
use pds_core.Json.{Value, str}
use pds_core.Time.{digit, DateTime, is_aware, before}

pub data SchoolYearValidationError : Type 0 where
  not_string blank not_consecutive : SchoolYearValidationError

unfoldable pub required_text : Value → Outcome SchoolYearValidationError Text
required_text (str s) = if text_eq (strip s) [] then err blank else ok (strip s)
required_text _ = err not_string

-- `int` of four digits
four_digits : ℕ → ℕ → ℕ → ℕ → Option ℕ
four_digits a b c d = elim (digit a) [
  | none ↦ none
  | some i ↦ elim (digit b) [
    | none ↦ none
    | some j ↦ elim (digit c) [
      | none ↦ none
      | some k ↦ elim (digit d) [ none ↦ none | some l ↦ some (i * 1000 + j * 100 + k * 10 + l) ]
    ]
  ]
]

-- `_SCHOOL_YEAR_PATTERN.fullmatch`, with the two numbers of the match.
unfoldable pub school_year_match : Text → Option (ℕ × ℕ)
unfolding four_digits
school_year_match (a ∷ b ∷ c ∷ d ∷ dash ∷ e ∷ f ∷ g ∷ h ∷ []) =
    if dash == b'-'
    then elim (four_digits a b c d) [
      | none ↦ none
      | some start ↦ elim (four_digits e f g h) [ none ↦ none | some last ↦ some (start, last) ]
    ]
    else none
school_year_match _ = none

consecutive : Option (ℕ × ℕ) → Bool
consecutive none = false
consecutive (some (start, last)) = last == start + 1

unfoldable pub validate_school_year : Value → Outcome SchoolYearValidationError Text
unfolding consecutive
validate_school_year v = do
  s ← required_text v
  guard (consecutive (school_year_match s)) not_consecutive
  ok s
