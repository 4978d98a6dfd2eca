-- ===== src/WorkRegistrations/Transitions.antt =====
-- Transitions between registrations of a work (pds_core/academic_work_registrations.py).
use pds_core.Base.{
  ◌≡◌, refl, ◌↔◌, true, false, ok, Decides, Decides-iff, Decides-map, Decides-guard, Decides-return,
  not_iff, same_iff, >>=-eq-ok, guard, ◌>>◌, not,
}
use pds_core.Json.{int_ltb}
use pds_core.Time.{before, same_instant}
use pds_core.Routing.{work_eq}
use pds_core.Routing.Laws.{work_eq_iff}
use pds_core.WorkRegistrations.{
  Declared, other_work, stale_revision, created_at_changed, updated_earlier,
  AcademicWorkRegistration, validate_academic_work_registration,
  validate_academic_work_registration_transition,
}

pub record IsTransition (p c : AcademicWorkRegistration) : Type 0 where
  pub same_work : c.work ≡ p.work
  pub later : int_ltb p.registration_revision c.registration_revision ≡ true
  pub created : same_instant c.created_at p.created_at ≡ true
  pub updated : before c.updated_at p.updated_at ≡ false

-- The tests between two validated registrations.
abbrev tested :
    AcademicWorkRegistration → AcademicWorkRegistration → Declared AcademicWorkRegistration
tested old new =
    guard (work_eq new.work old.work) other_work
    >> (guard (int_ltb old.registration_revision new.registration_revision) stale_revision
        >> (guard (same_instant new.created_at old.created_at) created_at_changed
            >> (guard (not (before new.updated_at old.updated_at)) updated_earlier >> ok new)))

tested-Decides : (p c : AcademicWorkRegistration) → Decides (tested p c) c (IsTransition p c)
tested-Decides p c =
    Decides-map _ c _ (IsTransition p c)
      (
        (λ h. record { same_work = h.0; later = h.1.0; created = h.1.1.0; updated = h.1.1.1.0 }),
        (λ h. (h.same_work, (h.later, (h.created, (h.updated, tt))))),
      )
      (Decides-guard _ _ _ c _ _ (work_eq_iff c.work p.work) (
        Decides-guard _ _ _ c _ _ (same_iff _) (
          Decides-guard _ _ _ c _ _ (same_iff _)
            (Decides-guard _ _ _ c _ _ (not_iff _) (Decides-return c)))))

-- An accepted transition returns the validated candidate, which is of the same work and creation time as
-- the validated previous registration, with a later revision and no earlier update; and every such
-- candidate is accepted.
pub validate_academic_work_registration_transition_iff :
    (previous candidate c : AcademicWorkRegistration)
    → (validate_academic_work_registration_transition previous candidate ≡ ok c) ↔ (
        (p : AcademicWorkRegistration) × (validate_academic_work_registration previous ≡ ok p)
        × (validate_academic_work_registration candidate ≡ ok c)
        × IsTransition p c)
unfolding validate_academic_work_registration_transition
validate_academic_work_registration_transition_iff previous candidate c = (
  (λ h.
      let (p, ep, h1) = >>=-eq-ok (validate_academic_work_registration previous) _ h in
      let (d, ed, h2) = >>=-eq-ok (validate_academic_work_registration candidate) _ h1 in
      let (same, t) = (Decides-iff _ d c _ (tested-Decides p d)).0 h2 in
      (p, ep, rw same ed, rw same t)),
  (λ h.
      let (p, ep, ec, t) = h in
      rw (ep, ec) ((Decides-iff _ c c _ (tested-Decides p c)).1 (refl, t))),
)
