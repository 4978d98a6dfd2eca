-- ===== src/Publications/Manifests.antt =====
-- The manifest that a publication may name stands below the work of the publication.
use mathlib.Core.Path.{subst}
use pds_core.Base.{
  ◌≡◌, refl, sym, ◌≢◌, true, false, ◌||◌, List, [], ◌∷◌, ◌++◌, Text, lit, ok, reraise, any, all,
  text_eq, text_eq_iff, ◌==◌, arith, >>=-eq-ok, >>-guard-inv, ok-inj, reraise-eq-ok, Decides-inv,
  not_iff, Bool-cases, inl, inr,
}
use pds_core.Files.{FilePath}
use pds_core.Pds2.{split}
use pds_core.Pds2.Splitting.{all-split}
use pds_core.Routing.{ModuleWorkRef, validate_module_work_ref}
use pds_core.Routing.Laws.{IsWork, validate_module_work_ref-Decides}
use pds_core.Routes.{relative_to}
use pds_core.Routes.Distinct.{work_parts}
use pds_core.Routes.Safe.{in_component, is_component, components_safe}
use pds_core.Publications.{
  routing, empty_path, padded_path, nul_path, backslash, absolute_path, empty_component, traversal,
  outside, not_json, has_more, last_component, ends_with, work_prefix, publication_work,
  validate_publication_manifest_path,
}

characters_plain :
    (s : Text)
    → any (λ c. c == 0) s ≡ false
    → any (λ c. c == 92) s ≡ false
    → all (λ c. c == 47 || in_component c) s ≡ true
characters_plain [] h k = refl
characters_plain (c ∷ s) h k = ground (arith, characters_plain s)

relative_to-has_more :
    (p base : FilePath)
    → has_more (relative_to p base) ≡ true
    → (parts : FilePath) × (p ≡ base ++ parts) × (parts ≢ [])
unfolding relative_to has_more
relative_to-has_more [] [] h = cc
relative_to-has_more (s ∷ p) [] h = (s ∷ p, refl, (λ e. cc))
relative_to-has_more [] (t ∷ base) h = cc
relative_to-has_more (s ∷ p) (t ∷ base) h = elim (Bool-cases (text_eq s t)) [
  | inl e ↦
      let (parts, rest, some_left) = relative_to-has_more p base (rw e at h) in
      let first : s ≡ t = (text_eq_iff s t).0 e in (parts, cc, some_left)
  | inr e ↦ absurd (cc (rw e at h))
]

-- An accepted manifest path is returned unchanged; its components are the root of the work followed by
-- one component or more, none of them empty, `.` or `..`, none with a backslash or a NUL, and the last
-- one ends in `.json`.
pub validate_publication_manifest_path-IsWork :
    (w : ModuleWorkRef) (path q : Text)
    → validate_publication_manifest_path w path ≡ ok q
    → (q ≡ path)
      × IsWork w
      × (all is_component (split 47 path) ≡ true)
      × (ends_with (lit ".json") (last_component (split 47 path)) ≡ true)
      × ((parts : List Text) × (split 47 path ≡ work_parts w ++ parts) × (parts ≢ []))
unfolding validate_publication_manifest_path publication_work
validate_publication_manifest_path-IsWork w path q h =
    let (x, accepted, h1) = >>=-eq-ok (reraise routing (validate_module_work_ref w)) _ h in
    let (same, valid) =
      Decides-inv _ w _ (validate_module_work_ref-Decides w) (reraise-eq-ok routing _ accepted) in
    let (_, h2) = >>-guard-inv _ empty_path _ h1 in
    let (_, h3) = >>-guard-inv _ padded_path _ h2 in
    let (no_nul, h4) = >>-guard-inv _ nul_path _ h3 in
    let (no_backslash, h5) = >>-guard-inv _ backslash _ h4 in
    let (_, h6) = >>-guard-inv _ absolute_path _ h5 in
    let (no_empty, h7) = >>-guard-inv _ empty_component _ h6 in
    let (no_dots, h8) = >>-guard-inv _ traversal _ h7 in
    let (inside, h9) = >>-guard-inv _ outside _ h8 in
    let (json, h10) = >>-guard-inv _ not_json _ h9 in
    let plain =
      all-split in_component 47 path
        (characters_plain path ((not_iff _).0 no_nul) ((not_iff _).0 no_backslash)) in
    (
      sym (ok-inj h10),
      valid,
      components_safe _ ((not_iff _).0 no_empty) ((not_iff _).0 no_dots) plain,
      json,
      relative_to-has_more (split 47 path) (work_parts w)
          (subst (λ k. has_more (relative_to (split 47 path) (work_prefix k)) ≡ true) same inside),
    )
