-- ===== src/Routes/Safe.antt =====
-- What `safe_module_work_descendant` returns stands below the work, and below no other work.
use mathlib.Core.List.{append_assoc}
use pds_core.Base.{
  not_iff, inl, inr, ◌||◌, Outcome-cases, Decides-ok, >>-guard-inv, text_eq_refl, ℕ, ◌≡◌, refl, ◌≢◌,
  ◌∙◌, sym, Bool, true, false, not, ◌&&◌, List, [], ◌∷◌, ◌++◌, Text, lit, ok, ◌>>=◌, reraise, all,
  any, elem, text_eq, arith, ◌==◌, >>=-eq-ok, reraise-eq-ok, Decides-inv, ok-inj, some,
  >>-guard-inv, not_iff,
}
use pds_core.Files.{FilePath}
use pds_core.Pds2.Splitting.{split-ne-nil, all-split}
use pds_core.Routing.{ModuleWorkRef, validate_module_work_ref}
use pds_core.Routing.Laws.{IsWork, validate_module_work_ref-Decides}
use pds_core.Routes.{
  routing, empty_path, padded_path, nul_path, absolute_path, empty_component, traversal, slashes,
  relative_to, relative_components, below, safe_module_work_descendant, relative_components,
}
use pds_core.Routes.Distinct.{work_parts, work_parts_inj, module_work_dir-IsWork, cancel_root}

-- No separator of either spelling and no NUL.
abbrev pub in_component : ℕ → Bool
in_component c = not (c == 47) && not (c == 92) && not (c == 0)

abbrev pub is_component : Text → Bool
is_component s =
    not (text_eq s [])
    && not (text_eq s (lit "."))
    && not (text_eq s (lit ".."))
    && all in_component s

slashes-plain :
    (s : Text)
    → any (λ c. c == 0) s ≡ false
    → all (λ c. c == 47 || in_component c) (slashes s) ≡ true
unfolding slashes
slashes-plain [] h = refl
slashes-plain (c ∷ s) h = ground (arith, slashes-plain s)

pub components_safe :
    (l : List Text)
    → any (λ s. text_eq s []) l ≡ false
    → any (λ s. elem s (lit "." ∷ lit ".." ∷ [])) l ≡ false
    → all (all in_component) l ≡ true
    → all is_component l ≡ true
components_safe [] h k i = refl
components_safe (s ∷ l) h k i = ground (arith, components_safe l)

relative_to-append : (base parts : FilePath) → relative_to (base ++ parts) base ≡ some parts
unfolding relative_to
relative_to-append [] [] = refl
relative_to-append [] (s ∷ parts) = refl
relative_to-append (t ∷ base) parts = rw (text_eq_refl t) (relative_to-append base parts)

below-nonempty : (parts p : FilePath) → parts ≢ [] → below (some parts) p ≡ ok p
unfolding below
below-nonempty [] p h = absurd (h refl)
below-nonempty (s ∷ parts) p h = refl

relative_components-inv :
    (text : Text) (parts : List Text)
    → relative_components text ≡ ok parts
    → (parts ≢ []) × (all is_component parts ≡ true)
unfolding relative_components
relative_components-inv text parts h =
    let (_, h1) = >>-guard-inv _ empty_path _ h in
    let (_, h2) = >>-guard-inv _ padded_path _ h1 in
    let (no_nul, h3) = >>-guard-inv _ nul_path _ h2 in
    let (_, h4) = >>-guard-inv _ absolute_path _ h3 in
    let (no_empty, h5) = >>-guard-inv _ empty_component _ h4 in
    let (no_dots, h6) = >>-guard-inv _ traversal _ h5 in
    let plain =
      all-split in_component 47 (slashes text) (slashes-plain text ((not_iff _).0 no_nul)) in
    let safe = components_safe _ ((not_iff _).0 no_empty) ((not_iff _).0 no_dots) plain in
    let same = ok-inj h6 in (rw (sym same) (split-ne-nil 47 (slashes text)), rw (sym same) safe)

-- For an accepted work the tests of the text decide alone: what is left to check below the root of
-- the work never fails.
safe_module_work_descendant-IsWork :
    (root : FilePath) (w : ModuleWorkRef) (text : Text)
    → IsWork w
    → safe_module_work_descendant root w text
      ≡ (relative_components text >>= λ parts. ok (root ++ (work_parts w ++ parts)))
unfolding safe_module_work_descendant
safe_module_work_descendant-IsWork root w text valid =
    elim (Outcome-cases (relative_components text)) [
      | inl (parts, parsed) ↦
          rw
            (
              Decides-ok _ w _ (validate_module_work_ref-Decides w) valid,
              parsed,
              module_work_dir-IsWork root w valid,
              relative_to-append (root ++ work_parts w) parts,
              below-nonempty parts (root ++ work_parts w ++ parts)
                  (relative_components-inv text parts parsed).0,
              append_assoc root (work_parts w) parts,
            )
            refl
      | inr (x, failed) ↦
          rw (Decides-ok _ w _ (validate_module_work_ref-Decides w) valid, failed) refl
    ]

-- The path that a caller may use below the root of a work stands there: it is the root of the work
-- followed by one component or more, none of them empty, `.` or `..`, none with a slash, a backslash
-- or a NUL.
pub safe_module_work_descendant-IsBelow :
    (root : FilePath) (w : ModuleWorkRef) (text : Text) (p : FilePath)
    → safe_module_work_descendant root w text ≡ ok p
    → IsWork w
      × ((parts : List Text) × (p ≡ root ++ (work_parts w ++ parts))
          × (parts ≢ [])
          × (all is_component parts ≡ true))
unfolding safe_module_work_descendant
safe_module_work_descendant-IsBelow root w text p h =
    let (_, accepted, _) = >>=-eq-ok (reraise routing (validate_module_work_ref w)) _ h in
    let (_, valid) =
      Decides-inv _ w _ (validate_module_work_ref-Decides w) (reraise-eq-ok routing _ accepted) in
    let (parts, parsed, same) =
      >>=-eq-ok (relative_components text) _
        (sym (safe_module_work_descendant-IsWork root w text valid) ∙ h) in
    let (proper, safe) = relative_components-inv text parts parsed in
    (valid, (parts, sym (ok-inj same), proper, safe))

-- Two works never share a path: a path that is safe for both below one root belongs to one work.
pub safe_module_work_descendant_inj :
    (root : FilePath) (w x : ModuleWorkRef) (text other : Text) (p : FilePath)
    → safe_module_work_descendant root w text ≡ ok p
    → safe_module_work_descendant root x other ≡ ok p
    → w ≡ x
safe_module_work_descendant_inj root w x text other p h k =
    let (_, (parts, same, _, _)) = safe_module_work_descendant-IsBelow root w text p h in
    let (_, (others, also, _, _)) = safe_module_work_descendant-IsBelow root x other p k in
    (work_parts_inj w x parts others (cancel_root root (sym same ∙ also))).0
