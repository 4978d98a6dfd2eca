-- ===== src/Identifiers.antt =====
-- pds_core/identifiers.py: the texts that are safe in paths and in QR payloads.
pub mod Laws
use pds_core.Base.{
  ℕ, Bool, true, false, ◌&&◌, ◌||◌, List, [], ◌∷◌, String, Text, lit, Outcome, ok, err, all, leb,
  ◌==◌, text_eq, strip, not, if◌then◌else◌,
}
use pds_core.Json.{Value, str}

pub data IdentifierError : Type 0 where
  not_string empty surrounding_space bad_character : String → IdentifierError

-- The class [A-Za-z0-9_-] of IDENTIFIER_PATTERN.
abbrev pub identifier_char : ℕ → Bool
identifier_char c =
    (leb 65 c && leb c 90)
    || (leb 97 c && leb c 122)
    || (leb 48 c && leb c 57)
    || c == 95
    || c == 45

-- `IDENTIFIER_PATTERN.fullmatch`: one character or more, all of the class.
unfoldable pub identifier_match : Text → Bool
identifier_match [] = false
identifier_match (c ∷ s) = all identifier_char (c ∷ s)

unfoldable pub validate_identifier : String → Value → Outcome IdentifierError Text
validate_identifier field (str s) =
    if text_eq s []
    then err (empty field)
    else if not (text_eq s (strip s))
    then err (surrounding_space field)
    else if not (identifier_match s)
    then err (bad_character field)
    else ok s
validate_identifier field _ = err (not_string field)

unfoldable pub is_valid_identifier : Value → Bool
is_valid_identifier (str s) = elim (validate_identifier "identifier" (str s)) [
  | ok _ ↦ true
  | err _ ↦ false
]
is_valid_identifier _ = false
