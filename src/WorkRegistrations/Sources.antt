-- ===== src/WorkRegistrations/Sources.antt =====
-- The source records of a registration, sorted and sorted again.
use mathlib.Core.Path.{subst}
use pds_core.Base.{
  ◌≡◌, refl, sym, ap, ◌↔◌, inl, inr, true, false, not, ◌||◌, Option, none, some, List, [], ◌∷◌,
  Text, ok, reraise, any, In, In-sort_by, insert_by, sort_by, any-sort_by, any-insert_by,
  sort_by-Ordered, sort_by_fixed, text_eq_iff, text_eq_refl, text_ltb_asym, arith, >>=-eq-ok,
  >>-guard-inv, ok-inj, Decides-inv, Decides-ok, reraise-eq-ok,
}
use pds_core.Routing.{ModuleWorkRef, ModuleRecordRef, validate_module_record_ref}
use pds_core.Routing.Laws.{IsRecordRef, validate_module_record_ref-Decides}
use pds_core.WorkRegistrations.{
  routing, other_module, duplicate_source, version_eq, record_ref_eq, version_ltb, source_ltb,
  check_sources, repeated_source, sorted_sources,
}

pub version_eq_iff : (a b : Option Text) → (version_eq a b ≡ true) ↔ (a ≡ b)
unfolding version_eq
version_eq_iff none none = ((λ h. refl), (λ h. refl))
version_eq_iff none (some t) = ((λ h. cc), (λ h. cc))
version_eq_iff (some s) none = ((λ h. cc), (λ h. cc))
version_eq_iff (some s) (some t) =
    ((λ h. ap some ((text_eq_iff s t).0 h)), (λ h. ground (arith, h, text_eq_iff s t)))

pub record_ref_eq_iff : (a b : ModuleRecordRef) → (record_ref_eq a b ≡ true) ↔ (a ≡ b)
unfolding record_ref_eq
record_ref_eq_iff a b = (
  (λ h. ground (
    arith,
    h,
    text_eq_iff a.module_id b.module_id,
    text_eq_iff a.record_kind b.record_kind,
    text_eq_iff a.record_id b.record_id,
    version_eq_iff a.contract_version b.contract_version,
  )),
  (λ h.
      rw
        (
          h,
          text_eq_refl b.module_id,
          text_eq_refl b.record_kind,
          text_eq_refl b.record_id,
          (version_eq_iff b.contract_version b.contract_version).1 refl,
        )
        refl),
)

version_ltb_asym : (a b : Option Text) → version_ltb a b ≡ true → version_ltb b a ≡ false
unfolding version_ltb
version_ltb_asym none none h = cc
version_ltb_asym none (some t) h = refl
version_ltb_asym (some s) none h = cc
version_ltb_asym (some s) (some t) h = text_ltb_asym s t h

source_ltb_asym : (a b : ModuleRecordRef) → source_ltb a b ≡ true → source_ltb b a ≡ false
unfolding source_ltb
source_ltb_asym a b h = ground (
  arith,
  h,
  text_ltb_asym a.record_kind b.record_kind,
  text_ltb_asym a.record_id b.record_id,
  version_ltb_asym a.contract_version b.contract_version,
  text_eq_iff a.record_kind b.record_kind,
  text_eq_iff b.record_kind a.record_kind,
  text_eq_iff a.record_id b.record_id,
  text_eq_iff b.record_id a.record_id,
)

repeated_source-insert_by :
    (x : ModuleRecordRef) (ys : List ModuleRecordRef)
    → repeated_source (insert_by source_ltb x ys) ≡ (any (record_ref_eq x) ys || repeated_source ys)
unfolding repeated_source
repeated_source-insert_by x [] = refl
repeated_source-insert_by x (y ∷ ys) = ground (
  arith,
  record_ref_eq_iff x y,
  record_ref_eq_iff y x,
  any-insert_by source_ltb (record_ref_eq y) x ys,
  repeated_source-insert_by x ys,
)

repeated_source-sort_by :
    (xs : List ModuleRecordRef) → repeated_source (sort_by source_ltb xs) ≡ repeated_source xs
unfolding repeated_source sort_by
repeated_source-sort_by [] = refl
repeated_source-sort_by (x ∷ xs) = ground (
  arith,
  repeated_source-insert_by x (sort_by source_ltb xs),
  any-sort_by source_ltb (record_ref_eq x) xs,
  repeated_source-sort_by xs,
)

-- A source record that is valid and of the module of the work.
abbrev pub IsSource : ModuleWorkRef → ModuleRecordRef → Type 0
IsSource w r = IsRecordRef r × (r.module_id ≡ w.module_id)

pub check_sources_iff :
    (w : ModuleWorkRef) (rs : List ModuleRecordRef)
    → (check_sources w rs ≡ ok tt) ↔ ((r : ModuleRecordRef) → In r rs → IsSource w r)
unfolding check_sources
check_sources_iff w [] = ((λ h r i. absurd i), (λ h. refl))
check_sources_iff w (r ∷ rs) = (
  (λ h.
      let (_, accepted, h1) = >>=-eq-ok (reraise routing (validate_module_record_ref r)) _ h in
      let (_, valid) =
        Decides-inv _ r _ (validate_module_record_ref-Decides r)
          (reraise-eq-ok routing _ accepted) in
      let (own, h2) = >>-guard-inv _ other_module _ h1 in
      λ s i. elim i [
        | inl e ↦ subst (IsSource w) (sym e) (valid, (text_eq_iff r.module_id w.module_id).0 own)
        | inr j ↦ (check_sources_iff w rs).0 h2 s j
      ]),
  (λ h.
      let (valid, own) = h r (inl refl) in
      rw
        (
          Decides-ok _ r _ (validate_module_record_ref-Decides r) valid,
          (text_eq_iff r.module_id w.module_id).1 own,
        )
        ((check_sources_iff w rs).1 (λ s i. h s (inr i)))),
)

-- Sorted source records are accepted again, and kept in their order.
pub sorted_sources_idem :
    (w : ModuleWorkRef) (rs ss : List ModuleRecordRef)
    → sorted_sources w rs ≡ ok ss
    → sorted_sources w ss ≡ ok ss
unfolding sorted_sources
sorted_sources_idem w rs ss h =
    let (_, checked, h1) = >>=-eq-ok (check_sources w rs) _ h in
    let (single, h2) = >>-guard-inv _ duplicate_source _ h1 in
    subst (λ l. sorted_sources w l ≡ ok l) (ok-inj h2) (again checked single)
  where
    again :
        check_sources w rs ≡ ok tt
        → not (repeated_source rs) ≡ true
        → sorted_sources w (sort_by source_ltb rs) ≡ ok (sort_by source_ltb rs)
    again checked single =
        let kept =
          (check_sources_iff w (sort_by source_ltb rs)).1
            (λ r i. (check_sources_iff w rs).0 checked r ((In-sort_by source_ltb r rs).0 i)) in
        rw
          (
            kept,
            repeated_source-sort_by rs,
            single,
            sort_by_fixed source_ltb (sort_by source_ltb rs)
                (sort_by-Ordered source_ltb source_ltb_asym rs),
          )
          refl
