-- ===== src/Time.antt =====
-- `date` and `datetime` of the standard library, as far as the sources use them, and the decimal
-- digits that `\d` matches and `int` reads.
use pds_core.Base.{
  ℕ, ◌+◌, ◌-◌, ◌≡◌, Bool, true, false, ◌&&◌, Option, none, some, List, [], ◌∷◌, Text, ltb, leb,
  ◌==◌, if◌then◌else◌,
}
use pds_core.Json.{ℤ}

-- A date of the proleptic Gregorian calendar.
pub record Date : Type 0 where
  pub year : ℕ
  pub month : ℕ
  pub day : ℕ

-- `a < b`: by year, then by month, then by day.
unfoldable pub date_ltb : Date → Date → Bool
date_ltb a b =
    if a.year == b.year
    then (if a.month == b.month then ltb a.day b.day else ltb a.month b.month)
    else ltb a.year b.year

-- A point in time in microseconds, and the offset in minutes at which it is written, which a
-- naive `datetime` lacks. Aware values are compared by their instants.
pub record DateTime : Type 0 where
  pub instant : ℕ
  pub offset : Option ℤ

abbrev pub is_aware : DateTime → Bool
is_aware d = elim d.offset [ none ↦ false | some _ ↦ true ]

abbrev pub same_instant : DateTime → DateTime → Bool
same_instant a b = a.instant == b.instant

abbrev pub before : DateTime → DateTime → Bool
before a b = ltb a.instant b.instant

-- The ISO texts of the standard library. What is printed is read back; more may be read.
pub record IsoText : Type 0 where
  pub isoformat : DateTime → Text
  pub fromisoformat : Text → Option DateTime
  pub reads : (d : DateTime) → fromisoformat (isoformat d) ≡ some d
  pub date_isoformat : Date → Text
  pub date_fromisoformat : Text → Option Date
  pub date_reads : (d : Date) → date_fromisoformat (date_isoformat d) ≡ some d

-- The digit zero of each script (Unicode 14, category Nd).
abbrev digit_zeros : List ℕ
digit_zeros =
    0x30 ∷ 0x660 ∷ 0x6f0 ∷ 0x7c0 ∷ 0x966 ∷ 0x9e6 ∷ 0xa66 ∷ 0xae6 ∷ 0xb66 ∷ 0xbe6 ∷ 0xc66 ∷ 0xce6
    ∷ 0xd66 ∷ 0xde6 ∷ 0xe50 ∷ 0xed0 ∷ 0xf20 ∷ 0x1040 ∷ 0x1090 ∷ 0x17e0 ∷ 0x1810 ∷ 0x1946 ∷ 0x19d0
    ∷ 0x1a80 ∷ 0x1a90 ∷ 0x1b50 ∷ 0x1bb0 ∷ 0x1c40 ∷ 0x1c50 ∷ 0xa620 ∷ 0xa8d0 ∷ 0xa900 ∷ 0xa9d0
    ∷ 0xa9f0 ∷ 0xaa50 ∷ 0xabf0 ∷ 0xff10 ∷ 0x104a0 ∷ 0x10d30 ∷ 0x11066 ∷ 0x110f0 ∷ 0x11136 ∷ 0x111d0
    ∷ 0x112f0 ∷ 0x11450 ∷ 0x114d0 ∷ 0x11650 ∷ 0x116c0 ∷ 0x11730 ∷ 0x118e0 ∷ 0x11950 ∷ 0x11c50
    ∷ 0x11d50 ∷ 0x11da0 ∷ 0x16a60 ∷ 0x16ac0 ∷ 0x16b50 ∷ 0x1d7ce ∷ 0x1d7d8 ∷ 0x1d7e2 ∷ 0x1d7ec
    ∷ 0x1d7f6 ∷ 0x1e140 ∷ 0x1e2f0 ∷ 0x1e950 ∷ 0x1fbf0 ∷ []

digit_from : List ℕ → ℕ → Option ℕ
digit_from [] c = none
digit_from (z ∷ zs) c = if leb z c && leb c (z + 9) then some (c - z) else digit_from zs c

-- The value of a decimal digit: `\d` matches where there is one, and `int` reads it.
unfoldable pub digit : ℕ → Option ℕ
unfolding digit_from
digit = digit_from digit_zeros
