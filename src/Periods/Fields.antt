-- ===== src/Periods/Fields.antt =====
-- Which periods the constructor of `AcademicPeriod` accepts.
use pds_core.Base.{
  is_control, not_iff, same_iff, ◌≡◌, true, false, not, Option, none, some, [], Text, any, elem,
  text_eq, text_eq_iff, strip, Decides, Decides-map, Decides-return, Decides-guard, Decides-then,
  Decides-reraise, String,
}
use pds_core.Time.{date_ltb}
use pds_core.Identifiers.Laws.{IsIdentifier, validate_identifier-Decides}
use pds_core.Periods.{
  identifier, AcademicPeriod, period_types, lifecycles, validate_label, is_positive,
  period_identifier, optional_parent, validate_academic_period,
}

pub record IsLabel (s : Text) : Type 0 where
  pub visible : not (text_eq (strip s) []) ≡ true
  pub trimmed : s ≡ strip s
  pub printable : any is_control s ≡ false

abbrev pub IsParentId : Option Text → Type 0
IsParentId none = Unit
IsParentId (some s) = IsIdentifier s

pub record IsPeriod (p : AcademicPeriod) : Type 0 where
  pub id : IsIdentifier p.period_id
  pub type : elem p.period_type period_types ≡ true
  pub labelled : IsLabel p.label
  pub dates : date_ltb p.end_date p.start_date ≡ false
  pub parent : IsParentId p.parent_period_id
  pub positive : is_positive p.sequence ≡ true
  pub lifecycle : elem p.lifecycle lifecycles ≡ true

validate_label-Decides : (s : Text) → Decides (validate_label s) s (IsLabel s)
unfolding validate_label
validate_label-Decides s =
    Decides-map _ s _ (IsLabel s)
      (
        (λ h. record { visible = h.0; trimmed = h.1.0; printable = h.1.1.0 }),
        (λ h. (h.visible, (h.trimmed, (h.printable, tt)))),
      )
      (Decides-guard _ _ _ s _ _ (same_iff _) (
        Decides-guard _ _ _ s _ _ (text_eq_iff s (strip s))
          (Decides-guard _ _ _ s _ _ (not_iff (any is_control s)) (Decides-return s))))

period_identifier-Decides :
    (name : String) (s : Text) → Decides (period_identifier name s) s (IsIdentifier s)
unfolding period_identifier
period_identifier-Decides name s =
    Decides-reraise identifier _ s _ (validate_identifier-Decides name s)

optional_parent-Decides : (o : Option Text) → Decides (optional_parent o) o (IsParentId o)
unfolding optional_parent
optional_parent-Decides none = Decides-return none
optional_parent-Decides (some s) =
    Decides-map _ (some s) _ _ ((λ h. h.0), (λ h. (h, tt)))
      (Decides-then _ s _ (some s) _ _ (period_identifier-Decides "parent_period_id" s)
        (Decides-return (some s)))

-- A period is accepted exactly when each of its fields is in order, and is returned unchanged.
pub validate_academic_period-Decides :
    (p : AcademicPeriod) → Decides (validate_academic_period p) p (IsPeriod p)
unfolding validate_academic_period
validate_academic_period-Decides p =
    Decides-map _ p _ (IsPeriod p)
      (
        (λ h. record {
          id = h.0;
          type = h.1.0;
          labelled = h.1.1.0;
          dates = h.1.1.1.0;
          parent = h.1.1.1.1.0;
          positive = h.1.1.1.1.1.0;
          lifecycle = h.1.1.1.1.1.1.0;
        }),
        (λ h.
            (h.id, (h.type, (h.labelled, (h.dates, (h.parent, (h.positive, (h.lifecycle, tt)))))))),
      )
      (Decides-then _ p.period_id _ p _ _ (period_identifier-Decides "period_id" p.period_id) (
        Decides-guard _ _ _ p _ _ (same_iff _) (
          Decides-then _ p.label _ p _ _ (validate_label-Decides p.label) (
            Decides-guard _ _ _ p _ _ (not_iff _) (
              Decides-then _ p.parent_period_id _ p _ _ (optional_parent-Decides p.parent_period_id)
                (Decides-guard _ _ _ p _ _ (same_iff _)
                  (Decides-guard _ _ _ p _ _ (same_iff _) (Decides-return p))))))))
