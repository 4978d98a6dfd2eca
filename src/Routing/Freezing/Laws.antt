-- ===== src/Routing/Freezing/Laws.antt =====
-- Freezing the details of a module and thawing them are inverse to each other.
use pds_core.Base.{◌≡◌, refl, ok, err, ◌>>=◌, ◌>>◌, Bool-cases, Outcome-cases, inl, inr}
use pds_core.Json.{Value, Items, Fields}
use pds_core.Routing.{Routed}
use pds_core.Routing.Freezing.{
  Frozen, FrozenItems, FrozenFields, is_finite, freeze_value, freeze_items, freeze_mapping,
  thaw_value, thaw_items, thaw_mapping,
}

-- Where `m >>= back` is `m >> ok b`, a result of `m` is read back as `b`.
pub read_back :
    {A B : Type 0} (m : Routed A) (back : A → Routed B) {a : A} {b : B}
    → (m >>= back) ≡ (m >> ok b)
    → Path (Routed A) m (ok a)
    → Path (Routed B) (back a) (ok b)
read_back (ok c) back p e = cc
read_back (err x) back p e = cc

mutual
  unfolding freeze_value thaw_value

  pub frozen_value : (v : Value) → (freeze_value v >>= thaw_value) ≡ (freeze_value v >> ok v)
  frozen_value Value.null = refl
  frozen_value (Value.bool b) = refl
  frozen_value (Value.int n) = refl
  frozen_value (Value.float n) = elim (Bool-cases (is_finite n)) [
    | inl e ↦ rw (e, e) refl
    | inr e ↦ rw e refl
  ]
  frozen_value (Value.str s) = refl
  frozen_value (Value.list vs) = elim (Outcome-cases (freeze_items vs)) [
    | inl (xs, e) ↦ rw (e, read_back _ thaw_items (frozen_items vs) e) refl
    | inr (x, e) ↦ rw e refl
  ]
  frozen_value (Value.dict fs) = elim (Outcome-cases (freeze_mapping fs)) [
    | inl (xs, e) ↦ rw (e, read_back _ thaw_mapping (frozen_mapping fs) e) refl
    | inr (x, e) ↦ rw e refl
  ]

  pub frozen_items : (vs : Items) → (freeze_items vs >>= thaw_items) ≡ (freeze_items vs >> ok vs)
  frozen_items Items.nil = refl
  frozen_items (Items.cons v vs) = elim (Outcome-cases (freeze_value v)) [
    | inl (x, e) ↦ elim (Outcome-cases (freeze_items vs)) [
      | inl (xs, d) ↦
          let back_value = read_back _ thaw_value (frozen_value v) e in
          rw (e, d, back_value, read_back _ thaw_items (frozen_items vs) d) refl
      | inr (y, d) ↦ rw (e, d) refl
    ]
    | inr (y, e) ↦ rw e refl
  ]

  pub frozen_mapping :
      (fs : Fields) → (freeze_mapping fs >>= thaw_mapping) ≡ (freeze_mapping fs >> ok fs)
  frozen_mapping Fields.end = refl
  frozen_mapping (Fields.field k v fs) = elim (Outcome-cases (freeze_value v)) [
    | inl (x, e) ↦ elim (Outcome-cases (freeze_mapping fs)) [
      | inl (xs, d) ↦
          let back_value = read_back _ thaw_value (frozen_value v) e in
          rw (e, d, back_value, read_back _ thaw_mapping (frozen_mapping fs) d) refl
      | inr (y, d) ↦ rw (e, d) refl
    ]
    | inr (y, e) ↦ rw e refl
  ]

mutual
  unfolding thaw_value freeze_value

  pub thawed_value : (v : Frozen) → (thaw_value v >>= freeze_value) ≡ (thaw_value v >> ok v)
  thawed_value Frozen.null = refl
  thawed_value (Frozen.bool b) = refl
  thawed_value (Frozen.int n) = refl
  thawed_value (Frozen.float n) = elim (Bool-cases (is_finite n)) [
    | inl e ↦ rw (e, e) refl
    | inr e ↦ rw e refl
  ]
  thawed_value (Frozen.str s) = refl
  thawed_value (Frozen.tuple vs) = elim (Outcome-cases (thaw_items vs)) [
    | inl (xs, e) ↦ rw (e, read_back _ freeze_items (thawed_items vs) e) refl
    | inr (x, e) ↦ rw e refl
  ]
  thawed_value (Frozen.mapping fs) = elim (Outcome-cases (thaw_mapping fs)) [
    | inl (xs, e) ↦ rw (e, read_back _ freeze_mapping (thawed_mapping fs) e) refl
    | inr (x, e) ↦ rw e refl
  ]

  pub thawed_items :
      (vs : FrozenItems) → (thaw_items vs >>= freeze_items) ≡ (thaw_items vs >> ok vs)
  thawed_items FrozenItems.nil = refl
  thawed_items (FrozenItems.cons v vs) = elim (Outcome-cases (thaw_value v)) [
    | inl (x, e) ↦ elim (Outcome-cases (thaw_items vs)) [
      | inl (xs, d) ↦
          let back_value = read_back _ freeze_value (thawed_value v) e in
          rw (e, d, back_value, read_back _ freeze_items (thawed_items vs) d) refl
      | inr (y, d) ↦ rw (e, d) refl
    ]
    | inr (y, e) ↦ rw e refl
  ]

  pub thawed_mapping :
      (fs : FrozenFields) → (thaw_mapping fs >>= freeze_mapping) ≡ (thaw_mapping fs >> ok fs)
  thawed_mapping FrozenFields.end = refl
  thawed_mapping (FrozenFields.field k v fs) = elim (Outcome-cases (thaw_value v)) [
    | inl (x, e) ↦ elim (Outcome-cases (thaw_mapping fs)) [
      | inl (xs, d) ↦
          let back_value = read_back _ freeze_value (thawed_value v) e in
          rw (e, d, back_value, read_back _ freeze_mapping (thawed_mapping fs) d) refl
      | inr (y, d) ↦ rw (e, d) refl
    ]
    | inr (y, e) ↦ rw e refl
  ]
