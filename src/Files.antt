-- ===== src/Files.antt =====
-- Paths and files. A path is its components. A file holds its JSON value, or `garbage`, which cannot
-- be read: the system refuses to, it is no UTF-8, no JSON, repeats a key or has a constant such as NaN.
-- On `undecodable` text json.load raises another exception: a ValueError for an integer of more than
-- 4300 digits, a RecursionError for deep nesting.
use pds_core.Base.{
  ◌≡◌, refl, ◌↔◌, Bool, true, false, ◌&&◌, Option, none, some, List, [], ◌∷◌, Text, text_eq,
  text_eq_iff, if◌then◌else◌, arith,
}
use pds_core.Json.{Value}

pub data Content : Type 0 where
  garbage undecodable : Content
  holds : Value → Content

abbrev pub FilePath : Type 0
FilePath = List Text

unfoldable pub path_eq : FilePath → FilePath → Bool
path_eq [] [] = true
path_eq (s ∷ p) (t ∷ q) = text_eq s t && path_eq p q
path_eq _ _ = false

abbrev pub Files : Type 0
Files = List (FilePath × Content)

unfoldable pub find_path : FilePath → Files → Option Content
find_path p [] = none
find_path p ((q, c) ∷ fs) = if path_eq p q then some c else find_path p fs

unfoldable pub remove_path : FilePath → Files → Files
remove_path p [] = []
remove_path p ((q, c) ∷ fs) =
    let rest = remove_path p fs in if path_eq p q then rest else (q, c) ∷ rest

unfoldable pub is_present : Option Content → Bool
is_present none = false
is_present (some c) = true

pub path_eq_iff : (p q : FilePath) → (path_eq p q ≡ true) ↔ (p ≡ q)
unfolding path_eq
path_eq_iff [] [] = ((λ h. refl), (λ h. refl))
path_eq_iff [] (t ∷ q) = ((λ h. cc), (λ h. cc))
path_eq_iff (s ∷ p) [] = ((λ h. cc), (λ h. cc))
path_eq_iff (s ∷ p) (t ∷ q) = ground (arith, text_eq_iff s t, path_eq_iff p q)

pub path_eq_refl : (p : FilePath) → path_eq p p ≡ true
path_eq_refl p = (path_eq_iff p p).1 refl

pub remove_path-find :
    (p q : FilePath) (fs : Files)
    → find_path q (remove_path p fs) ≡ (if path_eq q p then none else find_path q fs)
unfolding find_path remove_path
remove_path-find p q [] = ground arith
remove_path-find p q ((r, c) ∷ fs) =
    ground (arith, remove_path-find p q fs, path_eq_iff p r, path_eq_iff q r, path_eq_iff q p)

pub absent_path :
    (p : FilePath) (fs : Files) → is_present (find_path p fs) ≡ false → find_path p fs ≡ none
unfolding is_present
absent_path p fs h = none_of (find_path p fs) h
  where
    none_of : (o : Option Content) → is_present o ≡ false → o ≡ none
    none_of none e = refl
    none_of (some c) e = cc
