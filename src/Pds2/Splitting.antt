-- ===== src/Pds2/Splitting.antt =====
-- What `split`, `count` and `split_once` do on texts that hold no separator.
use pds_core.Base.{
  Bool, ◌||◌, ℕ, suc, ◌+◌, ◌≡◌, refl, ◌≢◌, Bool, true, not, List, [], ◌∷◌, ◌++◌, Text, all, length,
  ◌==◌, arith,
}
use pds_core.Pds2.{cons_head, split, count, split_once}

abbrev pub free : ℕ → Text → Bool
free c = all (λ x. not (x == c))

pub split-append : (c : ℕ) (s t : Text) → free c s ≡ true → split c (s ++ c ∷ t) ≡ s ∷ split c t
unfolding split
split-append c [] t h = ground arith
split-append c (x ∷ s) t h = ground (arith, split-append c s t)

pub split-free : (c : ℕ) (s : Text) → free c s ≡ true → split c s ≡ s ∷ []
unfolding split
split-free c [] h = refl
split-free c (x ∷ s) h = ground (arith, split-free c s)

pub count-free : (c : ℕ) (s : Text) → free c s ≡ true → count c s ≡ 0
unfolding count
count-free c [] h = refl
count-free c (x ∷ s) h = ground (arith, count-free c s)

all-cons_head :
    (p : ℕ → Bool) (x : ℕ) (l : List Text)
    → p x ≡ true
    → all (all p) l ≡ true
    → all (all p) (cons_head x l) ≡ true
unfolding cons_head
all-cons_head p x [] h k = ground arith
all-cons_head p x (s ∷ l) h k = ground arith

-- The segments have the characters other than the separator.
pub all-split :
    (p : ℕ → Bool) (c : ℕ) (s : Text)
    → all (λ x. x == c || p x) s ≡ true
    → all (all p) (split c s) ≡ true
unfolding split
all-split p c [] h = refl
all-split p c (x ∷ s) h = ground (arith, all-split p c s, all-cons_head p x (split c s))

-- The characters of the segments, one more for each.
abbrev pub total : List Text → ℕ
total [] = 0
total (s ∷ rest) = length s + 1 + total rest

pub split-ne-nil : (c : ℕ) (s : Text) → split c s ≢ []
unfolding split
split-ne-nil c [] h = cc
split-ne-nil c (x ∷ s) h = ground (arith, split-ne-nil c s)

total-cons_head : (x : ℕ) (l : List Text) → l ≢ [] → total (cons_head x l) ≡ total l + 1
unfolding cons_head
total-cons_head x [] h = absurd (h refl)
total-cons_head x (s ∷ rest) h = omega arith

pub total-split : (c : ℕ) (s : Text) → total (split c s) ≡ length s + 1
unfolding split
total-split c [] = refl
total-split c (x ∷ s) =
    ground (arith, total-split c s, total-cons_head x (split c s) (split-ne-nil c s))

-- Around the one separator, the parts have all other characters.
pub length-split_once :
    (c : ℕ) (s : Text) (n : ℕ)
    → count c s ≡ suc n
    → length (split_once c s).0 + 1 + length (split_once c s).1 ≡ length s
unfolding count split_once
length-split_once c [] n h = absurd (omega arith)
length-split_once c (x ∷ s) n h = ground (arith, length-split_once c s n)
