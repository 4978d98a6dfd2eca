-- ===== src/Base.antt =====
-- The names that the other modules share: those of the libraries, and those of its children.
mod Tests
mod Lists
mod Strip
mod Sort
mod Pigeonhole
mod Strict
mod Unions
mod Raising
mod Validators
pub use Tests.*
pub use Lists.{
  length, all, any, All, All-append, all→All, All→all, elem, elem→Mem, length-append, all-append,
  all_mono, In, keep, find, is_control,
}
unfoldable pub use Lists.{text_eq, text_ltb, lower, is_space, lstrip, strip}
pub use Lists.{Text, lit, text_eq_iff, text_eq_refl, text_eq-false, text_ltb_asym}
pub use Strip.{strip_idem}
unfoldable pub use Sort.{sort_by}
pub use Sort.{
  insert_by, In-sort_by, all-sort_by, any-sort_by, any-insert_by, length-sort_by, Ordered,
  sort_by-Ordered, sort_by_fixed, NoDup-map-sort_by,
}
pub use Pigeonhole.{NoDup, pigeonhole}
pub use Strict.{Increasing, Increasing-NoDup, ordered-Increasing}
pub use Unions.{
  append-In, In-left, In-right, NoDup-append, In-keep, NoDup-keep, keep-In, NoDup-sort_by,
  NoDup-unmapped, map-In, same_key, append_assoc, append-nil,
}
pub use Raising.*
pub use Validators.*
pub use Prim.Native.Nat.{ℕ, zero, suc, ◌+◌, ◌-◌, ◌*◌, ◌/◌, ◌%◌, ◌^◌, ◌≤◌, ◌<◌}
pub use Prim.Native.String.{String}
pub use mathlib.Core.Path.{◌≡◌, refl, sym, ap, ◌∙◌}
pub use mathlib.Core.Logic.{◌≢◌, ◌↔◌, ◌⊎◌, inl, inr}
pub use mathlib.Core.Bool.{Bool, true, false, not, ◌&&◌, ◌||◌}
pub use mathlib.Core.Option.{Option, none, some}
pub use mathlib.Core.List.{List, [], ◌∷◌, ◌++◌, map}
pub use native.Mathlib.Omega.{arith}
