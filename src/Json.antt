-- ===== src/Json.antt =====
-- The values that the `from_dict` functions of every model read: what `json.load` returns.
-- A dict is its list of entries. Its keys are texts, so the sources' test for keys of another type
-- has no case here. A float is its 64 bits.
use pds_core.Base.{
  ltb, ◌==◌, false, ◌↔◌, ℕ, ◌≡◌, Bool, true, List, [], ◌∷◌, Text, Outcome, ok, err, ◌>>◌, guard,
  all, elem, In, text_eq, text_eq_iff, elem→Mem, if◌then◌else◌, arith, Bool-cases, inl, inr,
}

pub data ℤ : Type 0 where
  pos : ℕ → ℤ
  negsuc : ℕ → ℤ

unfoldable pub int_eq : ℤ → ℤ → Bool
int_eq (pos a) (pos b) = a == b
int_eq (negsuc a) (negsuc b) = a == b
int_eq _ _ = false

unfoldable pub int_ltb : ℤ → ℤ → Bool
int_ltb (pos a) (pos b) = ltb a b
int_ltb (pos a) (negsuc b) = false
int_ltb (negsuc a) (pos b) = true
int_ltb (negsuc a) (negsuc b) = ltb b a

pub int_eq_iff : (a b : ℤ) → (int_eq a b ≡ true) ↔ (a ≡ b)
unfolding int_eq
int_eq_iff (pos a) (pos b) = ground arith
int_eq_iff (pos a) (negsuc b) = ground arith
int_eq_iff (negsuc a) (pos b) = ground arith
int_eq_iff (negsuc a) (negsuc b) = ground arith

pub int_ltb_trans : (a b c : ℤ) → int_ltb a b ≡ true → int_ltb b c ≡ true → int_ltb a c ≡ true
unfolding int_ltb
int_ltb_trans a b c h k = ground arith

mutual
  pub data Value : Type 0 where
    null : Value
    bool : Bool → Value
    int : ℤ → Value
    float : ℕ → Value
    str : Text → Value
    list : Items → Value
    dict : Fields → Value

  pub data Items : Type 0 where
    nil : Items
    cons : Value → Items → Items

  pub data Fields : Type 0 where
    end : Fields
    field : Text → Value → Fields → Fields

abbrev pub keys : Fields → List Text
keys end = []
keys (field k v fs) = k ∷ keys fs

pub data MappingError : Type 0 where
  not_mapping missing_keys unknown_keys key_error : MappingError

-- `mapping[key]`
unfoldable pub item : Text → Fields → Outcome MappingError Value
item k end = err key_error
item k (field j v fs) = if text_eq k j then ok v else item k fs

unfoldable pub exact_mapping : Value → List Text → Outcome MappingError Fields
exact_mapping (dict fs) expected = do
  guard (all (λ k. elem k (keys fs)) expected) missing_keys
  guard (all (λ k. elem k expected) (keys fs)) unknown_keys
  ok fs
exact_mapping _ expected = err not_mapping

-- A key of the mapping has a value.
pub item_total : (k : Text) (fs : Fields) → In k (keys fs) → (v : Value) × (item k fs ≡ ok v)
unfolding item
item_total k end h = absurd h
item_total k (field j v fs) h = elim (Bool-cases (text_eq k j)) [
  | inl same ↦ (v, ground arith)
  | inr other ↦ let (w, e) = item_total k fs (ground (arith, text_eq_iff k j)) in (w, ground arith)
]

all-elem : (k : Text) (ks js : List Text) → all (λ j. elem j js) ks ≡ true → In k ks → In k js
all-elem k [] js h i = absurd i
all-elem k (j ∷ ks) js h i = ground (arith, elem→Mem k js, all-elem k ks js, text_eq_iff k j)

-- After the exact test every expected key can be read: no `KeyError` follows it.
exact_mapping-item :
    (v : Value) (expected : List Text) (fs : Fields) (k : Text)
    → exact_mapping v expected ≡ ok fs
    → In k expected
    → (w : Value) × (item k fs ≡ ok w)
unfolding exact_mapping
exact_mapping-item (dict gs) expected fs k h i =
    item_total k fs (all-elem k expected (keys fs) (ground arith) i)
exact_mapping-item null expected fs k h i = cc
exact_mapping-item _ expected fs k h i = cc
