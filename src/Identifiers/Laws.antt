-- ===== src/Identifiers/Laws.antt =====
-- What `validate_identifier` accepts, against the character class.
use mathlib.Core.List.{reverse, reverse-append, reverse-reverse}
use pds_core.Base.{
  ℕ, ◌≡◌, refl, ◌≢◌, ◌↔◌, Bool, true, [], ◌∷◌, String, Text, ok, all, all-append, text_eq_iff,
  text_eq_refl, strip, lstrip, arith, inl, inr, Outcome-cases, Decides,
}
use pds_core.Json.{Value, null, str}
use pds_core.Identifiers.{
  identifier_char, identifier_match, validate_identifier, is_valid_identifier,
}

all-reverse : (p : ℕ → Bool) (s : Text) → all p (reverse s) ≡ all p s
all-reverse p [] = refl
all-reverse p (c ∷ s) =
    ground (arith, reverse-append (c ∷ []) s, all-append p (reverse s) (c ∷ []), all-reverse p s)

lstrip_id : (s : Text) → all identifier_char s ≡ true → lstrip s ≡ s
unfolding lstrip
lstrip_id [] h = refl
lstrip_id (c ∷ s) h = ground arith

-- An identifier has no space to strip.
strip_id : (s : Text) → all identifier_char s ≡ true → strip s ≡ s
unfolding strip
strip_id s h =
    ground (
      arith,
      lstrip_id s h,
      lstrip_id (reverse s),
      all-reverse identifier_char s,
      reverse-reverse s,
    )

abbrev pub IsIdentifier : Text → Type 0
IsIdentifier s = (s ≢ []) × (all identifier_char s ≡ true)

validate_identifier-ok :
    (field : String) (s : Text) → IsIdentifier s → validate_identifier field (str s) ≡ ok s
unfolding validate_identifier identifier_match
validate_identifier-ok field [] h = absurd (h.0 refl)
validate_identifier-ok field (c ∷ s) h =
    ground (arith, text_eq_iff (c ∷ s) [], strip_id (c ∷ s) h.1, text_eq_refl (c ∷ s))

validate_identifier-inv :
    (field : String) (v : Value) (s : Text)
    → validate_identifier field v ≡ ok s
    → (v ≡ str s) × IsIdentifier s
unfolding validate_identifier identifier_match
validate_identifier-inv field (str []) s h = ground (arith, text_eq_iff [] [])
validate_identifier-inv field (str (c ∷ t)) s h =
    (ground arith, ((λ e. ground arith), ground arith))
validate_identifier-inv field null s h = cc
validate_identifier-inv field _ s h = cc

pub validate_identifier-Decides :
    (field : String) (s : Text) → Decides (validate_identifier field (str s)) s (IsIdentifier s)
validate_identifier-Decides field s = elim (Outcome-cases (validate_identifier field (str s))) [
  | inl (t, e) ↦
      let (same, valid) = validate_identifier-inv field (str s) t e in
      let unchanged : s ≡ t = cc in inl (cc, rw unchanged valid)
  | inr (x, e) ↦ inr ((x, e), (λ h. cc (validate_identifier-ok field s h)))
]

-- The validator accepts a value exactly when it is a nonempty text over [A-Za-z0-9_-], and it
-- returns that text unchanged. The test for surrounding space never decides alone.
validate_identifier_iff :
    (field : String) (v : Value) (s : Text)
    → (validate_identifier field v ≡ ok s) ↔ ((v ≡ str s) × IsIdentifier s)
validate_identifier_iff field v s =
    (validate_identifier-inv field v s, λ h. rw h.0 (validate_identifier-ok field s h.1))

is_valid_identifier_iff : (s : Text) → (is_valid_identifier (str s) ≡ true) ↔ IsIdentifier s
unfolding is_valid_identifier
is_valid_identifier_iff s = (
  (λ h. elim (Outcome-cases (validate_identifier "identifier" (str s))) [
    | inl (t, e) ↦ ground (arith, validate_identifier-inv "identifier" (str s) t e)
    | inr (x, e) ↦ cc
  ]),
  λ h. ground (arith, validate_identifier-ok "identifier" s h),
)
