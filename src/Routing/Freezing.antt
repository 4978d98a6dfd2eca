-- ===== src/Routing/Freezing.antt =====
-- Frozen JSON values of pds_core/routing_models.py. Values are trees here, so the tests for circular
-- references have no case.
pub mod Laws
use pds_core.Base.{
  ℕ, ◌/◌, ◌%◌, Bool, true, false, not, Text, Outcome, ok, err, ◌>>=◌, ◌>>◌, guard, ◌==◌,
}
use pds_core.Json.{ℤ, Value, Items, Fields}
use pds_core.Routing.{Routed, bad_details}

-- `_FrozenJsonValue`: a list is a tuple, a dict is a read-only mapping.
mutual
  pub data Frozen : Type 0 where
    null : Frozen
    bool : Bool → Frozen
    int : ℤ → Frozen
    float : ℕ → Frozen
    str : Text → Frozen
    tuple : FrozenItems → Frozen
    mapping : FrozenFields → Frozen

  pub data FrozenItems : Type 0 where
    nil : FrozenItems
    cons : Frozen → FrozenItems → FrozenItems

  pub data FrozenFields : Type 0 where
    end : FrozenFields
    field : Text → Frozen → FrozenFields → FrozenFields

-- `math.isfinite`: the eleven bits of the exponent are not all set.
unfoldable pub is_finite : ℕ → Bool
is_finite bits = not ((bits / 4503599627370496) % 2048 == 2047)

unfoldable mutual
  pub freeze_value : Value → Routed Frozen
  freeze_value Value.null = ok Frozen.null
  freeze_value (Value.bool b) = ok (Frozen.bool b)
  freeze_value (Value.int n) = ok (Frozen.int n)
  freeze_value (Value.float x) = guard (is_finite x) bad_details >> ok (Frozen.float x)
  freeze_value (Value.str s) = ok (Frozen.str s)
  freeze_value (Value.list vs) = do xs ← freeze_items vs; ok (Frozen.tuple xs)
  freeze_value (Value.dict fs) = do xs ← freeze_mapping fs; ok (Frozen.mapping xs)

  pub freeze_items : Items → Routed FrozenItems
  freeze_items Items.nil = ok FrozenItems.nil
  freeze_items (Items.cons v vs) = do
    x ← freeze_value v
    xs ← freeze_items vs
    ok (FrozenItems.cons x xs)

  pub freeze_mapping : Fields → Routed FrozenFields
  freeze_mapping Fields.end = ok FrozenFields.end
  freeze_mapping (Fields.field k v fs) = do
    x ← freeze_value v
    xs ← freeze_mapping fs
    ok (FrozenFields.field k x xs)

unfoldable mutual
  pub thaw_value : Frozen → Routed Value
  thaw_value Frozen.null = ok Value.null
  thaw_value (Frozen.bool b) = ok (Value.bool b)
  thaw_value (Frozen.int n) = ok (Value.int n)
  thaw_value (Frozen.float x) = guard (is_finite x) bad_details >> ok (Value.float x)
  thaw_value (Frozen.str s) = ok (Value.str s)
  thaw_value (Frozen.tuple xs) = do vs ← thaw_items xs; ok (Value.list vs)
  thaw_value (Frozen.mapping xs) = do fs ← thaw_mapping xs; ok (Value.dict fs)

  pub thaw_items : FrozenItems → Routed Items
  thaw_items FrozenItems.nil = ok Items.nil
  thaw_items (FrozenItems.cons x xs) = do v ← thaw_value x; vs ← thaw_items xs; ok (Items.cons v vs)

  pub thaw_mapping : FrozenFields → Routed Fields
  thaw_mapping FrozenFields.end = ok Fields.end
  thaw_mapping (FrozenFields.field k x xs) = do
    v ← thaw_value x
    fs ← thaw_mapping xs
    ok (Fields.field k v fs)
