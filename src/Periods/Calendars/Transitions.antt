-- ===== src/Periods/Calendars/Transitions.antt =====
-- What a calendar transition guarantees, and that transitions compose.
use mathlib.Core.Path.{subst}
use pds_core.Base.{
  not_iff, same_iff, Decides, Decides-iff, Decides-map, Decides-guard, Decides-then, Decides-return,
  ◌≡◌, refl, ◌∙◌, ◌↔◌, inl, inr, true, false, some, [], ◌∷◌, Text, ok, In, text_eq, text_eq_iff,
  arith, >>=-eq-ok, Bool-cases, Option-cases,
}
use pds_core.Json.{int_ltb, int_ltb_trans, key_error}
use pds_core.Dict.{Dict, get, has}
use pds_core.Time.{before, same_instant}
use pds_core.Periods.{removed_period, type_changed, mapping, AcademicPeriod, AcademicPeriodCalendar}
use pds_core.Periods.Hierarchy.Collected.{check_each-Decides}
use pds_core.Periods.Calendars.{
  validate_academic_period_calendar, index, keeps_id, keeps_type, check_transition,
  validate_academic_period_calendar_transition,
}

-- The index has a period with this id, of the same type.
abbrev pub HasType : Dict AcademicPeriod → Text × AcademicPeriod → Type 0
HasType d e = (q : AcademicPeriod) × (get e.0 d ≡ some q) × (q.period_type ≡ e.1.period_type)

pub record IsTransition (p c : AcademicPeriodCalendar) : Type 0 where
  pub same_year : c.school_year ≡ p.school_year
  pub later : int_ltb p.calendar_revision c.calendar_revision ≡ true
  pub created : same_instant c.created_at p.created_at ≡ true
  pub updated : before c.updated_at p.updated_at ≡ false
  pub keeps : (e : Text × AcademicPeriod) → In e (index p) → HasType (index c) e

get-In_entry : {V : Type 0} (k : Text) (d : Dict V) {v : V} → get k d ≡ some v → In (k, v) d
unfolding get
get-In_entry k [] h = cc
get-In_entry k ((j, w) ∷ d) {v} h = elim (Bool-cases (text_eq k j)) [
  | inl same ↦
      let key : k ≡ j = (text_eq_iff k j).0 same in
      let value : v ≡ w = ground arith in inl (λ i. (key i, value i))
  | inr other ↦ inr (get-In_entry k d {v = v} (ground arith))
]

keeps_id-Decides :
    (d : Dict AcademicPeriod) (e : Text × AcademicPeriod)
    → Decides (keeps_id d e) tt (has e.0 d ≡ true)
unfolding keeps_id
keeps_id-Decides d (id, p) = elim (Bool-cases (has id d)) [
  | inl known ↦ inl (rw known refl, known)
  | inr new ↦ inr ((removed_period, rw new refl), (λ h. cc))
]

keeps_type-Decides :
    (d : Dict AcademicPeriod) (e : Text × AcademicPeriod)
    → Decides (keeps_type d e) tt (HasType d e)
unfolding keeps_type
keeps_type-Decides d (id, p) = elim (Option-cases (get id d)) [
  | inl absent ↦ inr ((mapping key_error, ground arith), (λ h. cc (h.1)))
  | inr (q, found) ↦ elim (Bool-cases (text_eq q.period_type p.period_type)) [
    | inl same ↦ inl (ground arith, (q, found, (text_eq_iff _ _).0 same))
    | inr other ↦ inr (
      (type_changed, ground arith),
      (λ h. ground (arith, h.1, h.2, text_eq_iff q.period_type p.period_type)),
    )
  ]
]

-- Between validated calendars the candidate is returned exactly when it is a transition.
pub check_transition-Decides :
    (p c : AcademicPeriodCalendar) → Decides (check_transition p c) c (IsTransition p c)
unfolding check_transition
check_transition-Decides p c =
    Decides-map _ c _ (IsTransition p c)
      (
        (λ h. record {
          same_year = h.0;
          later = h.1.0;
          created = h.1.1.0;
          updated = h.1.1.1.0;
          keeps = h.1.1.1.1.1.0;
        }),
        (λ h. (
          h.same_year,
          (
            h.later,
            (h.created, (h.updated, ((λ e i. ground (arith, (h.keeps e i).1)), (h.keeps, tt)))),
          ),
        )),
      )
      (Decides-guard _ _ _ c _ _ (text_eq_iff c.school_year p.school_year) (
        Decides-guard _ _ _ c _ _ (same_iff _) (
          Decides-guard _ _ _ c _ _ (same_iff _) (
            Decides-guard _ _ _ c _ _ (not_iff _) (
              Decides-then _ tt _ c _ _
                (check_each-Decides (keeps_id (index c)) (index p) _ (keeps_id-Decides (index c)))
                (Decides-then _ tt _ c _ _
                  (check_each-Decides (keeps_type (index c)) (index p) _
                    (keeps_type-Decides (index c)))
                  (Decides-return c)))))))

IsTransition-trans :
    {a b c : AcademicPeriodCalendar} → IsTransition a b → IsTransition b c → IsTransition a c
IsTransition-trans {a} {b} {c} s t = record {
  same_year = t.same_year ∙ s.same_year;
  later = int_ltb_trans a.calendar_revision b.calendar_revision c.calendar_revision s.later t.later;
  created = ground (arith, s.created, t.created);
  updated = ground (arith, s.updated, t.updated);
  keeps = λ e i.
      let (q, found, same) = s.keeps e i in
      let (r, found', same') = t.keeps (e.0, q) (get-In_entry e.0 (index b) {v = q} found) in
      (r, found', same' ∙ same);
}

-- An accepted transition returns the validated candidate, which keeps the school year and the
-- creation time, has a later revision and no earlier update, and keeps every period id of the
-- previous calendar with its type.
validate_academic_period_calendar_transition_iff :
    (previous candidate c : AcademicPeriodCalendar)
    → (validate_academic_period_calendar_transition previous candidate ≡ ok c) ↔ (
        (p : AcademicPeriodCalendar) × (validate_academic_period_calendar previous ≡ ok p)
        × (validate_academic_period_calendar candidate ≡ ok c)
        × IsTransition p c)
unfolding validate_academic_period_calendar_transition
validate_academic_period_calendar_transition_iff previous candidate c = (
  (λ h.
      let (p, ep, h1) = >>=-eq-ok (validate_academic_period_calendar previous) _ h in
      let (d, ed, h2) = >>=-eq-ok (validate_academic_period_calendar candidate) _ h1 in
      let (same, t) = (Decides-iff _ d c _ (check_transition-Decides p d)).0 h2 in
      (p, ep, rw same ed, rw same t)),
  (λ h.
      let (p, ep, ec, t) = h in
      rw (ep, ec) ((Decides-iff _ c c _ (check_transition-Decides p c)).1 (refl, t))),
)

-- Two accepted transitions in a row make an accepted transition from the first calendar to the
-- last: nothing that the first keeps is lost by passing through the second.
pub validate_academic_period_calendar_transition_trans :
    (a b c b' c' : AcademicPeriodCalendar)
    → validate_academic_period_calendar_transition a b ≡ ok b'
    → validate_academic_period_calendar_transition b c ≡ ok c'
    → validate_academic_period_calendar_transition a c ≡ ok c'
validate_academic_period_calendar_transition_trans a b c b' c' h k =
    let (p, ep, eb, s) = (validate_academic_period_calendar_transition_iff a b b').0 h in
    let (q, eq, ec, t) = (validate_academic_period_calendar_transition_iff b c c').0 k in
    let same : q ≡ b' = cc in
    (validate_academic_period_calendar_transition_iff a c c').1
      (p, ep, ec, IsTransition-trans s (subst (λ x. IsTransition x c') same t))
