-- ===== src/Publications/Shapes/RoundTrips.antt =====
-- Publications and withdrawals are read back from their dictionaries.
use pds_core.Base.{
  >>-guard-inv, ◌≡◌, refl, sym, ap, ◌∙◌, Option, none, some, List, [], ◌∷◌, Text, ok, ◌>>=◌,
  reraise, text_eq, >>=-eq-ok, ok-inj, Outcome-cases, inl, inr, true, reraise-eq-ok, Decides-inv,
}
use pds_core.Json.{Value, null, bool, int, float, str, list, dict, ℤ, item, exact_mapping}
use pds_core.Time.{DateTime, is_aware, IsoText}
use pds_core.Routing.{
  ModuleWorkRef, ModuleRecordRef, require_exact_mapping, validate_module_record_ref,
}
use pds_core.Routing.Laws.{validate_module_record_ref-Decides}
use pds_core.Routing.Shapes.{optional_value, module_work_ref_from_dict, module_record_ref_from_dict}
use pds_core.Routing.RoundTrips.{work_written, record_ref_written}
use pds_core.Publications.{
  routing, naive, bad_schema_version, bad_record_type, bad_id, validate_reason, PublicationRecord,
  PublicationWithdrawal, validate_publication_record, validate_publication_withdrawal, check_source,
}
use pds_core.Publications.Fields.{IsPublication, validate_publication_record-IsPublication}
use pds_core.Publications.Shapes.{
  require_str, require_int, publication_item, publication_string, optional_int, optional_str,
  int_or_null, texts_to_items, item_text, items_to_texts, capability_items, source_to_value,
  source_from_value, datetime_from_iso, publication_fields, publication_record_to_dict,
  publication_record_from_dict, publication_withdrawal_to_dict, publication_withdrawal_from_dict,
}

-- the functions that read a dictionary, for the `unfolding` lines below
reading : Unit {0}
unfolding exact_mapping item require_str require_int publication_item publication_string text_eq
reading = tt

items_to_texts-texts_to_items : (ss : List Text) → items_to_texts (texts_to_items ss) ≡ ss
unfolding items_to_texts texts_to_items item_text
items_to_texts-texts_to_items [] = refl
items_to_texts-texts_to_items (s ∷ ss) = ap (λ l. s ∷ l) (items_to_texts-texts_to_items ss)

optional_int-int_or_null : (o : Option ℤ) → optional_int (int_or_null o) ≡ ok o
unfolding optional_int int_or_null require_int
optional_int-int_or_null none = refl
optional_int-int_or_null (some n) = refl

optional_str-optional_value : (o : Option Text) → optional_str (optional_value o) ≡ ok o
unfolding optional_str optional_value require_str
optional_str-optional_value none = refl
optional_str-optional_value (some s) = refl

source_from_value-dict :
    (v : Value) (r : ModuleRecordRef)
    → module_record_ref_from_dict v ≡ ok r
    → source_from_value v ≡ ok (some r)
unfolding source_from_value module_record_ref_from_dict require_exact_mapping exact_mapping
source_from_value-dict null r h = cc
source_from_value-dict (bool b) r h = cc
source_from_value-dict (int n) r h = cc
source_from_value-dict (float x) r h = cc
source_from_value-dict (str s) r h = cc
source_from_value-dict (list vs) r h = cc
source_from_value-dict (dict fs) r h = rw h refl

source_written :
    (w : ModuleWorkRef) (o : Option ModuleRecordRef)
    → check_source w o ≡ ok tt
    → (v : Value) × (source_to_value o ≡ ok v) × (source_from_value v ≡ ok o)
unfolding source_to_value source_from_value check_source
source_written w none h = (null, refl, refl)
source_written w (some r) h =
    let (_, accepted, _) = >>=-eq-ok (reraise routing (validate_module_record_ref r)) _ h in
    let (_, valid) =
      Decides-inv _ r _ (validate_module_record_ref-Decides r) (reraise-eq-ok routing _ accepted) in
    let (v, written, read) = record_ref_written r valid in
    (v, written, source_from_value-dict v r read)

pub validate_publication_withdrawal-inv :
    (d : PublicationWithdrawal) {x : PublicationWithdrawal}
    → validate_publication_withdrawal d ≡ ok x
    → (x ≡ d) × (is_aware d.withdrawn_at ≡ true)
unfolding validate_publication_withdrawal
validate_publication_withdrawal-inv d h =
    let (_, h1) = >>-guard-inv _ bad_schema_version _ h in
    let (_, h2) = >>-guard-inv _ bad_record_type _ h1 in
    let (_, h3) = >>-guard-inv _ bad_id _ h2 in
    let (aware, h4) = >>-guard-inv _ naive _ h3 in
    let (_, _, h5) = >>=-eq-ok (validate_reason d.reason) _ h4 in (sym (ok-inj h5), aware)

module _ (iso : IsoText) where
  open iso use {isoformat, reads}

  datetime_from_iso-isoformat :
      (d : DateTime) → is_aware d ≡ true → datetime_from_iso iso (str (isoformat d)) ≡ ok d
  unfolding datetime_from_iso require_str
  datetime_from_iso-isoformat d h = rw (reads d, h) refl

  -- Writing a withdrawal as a dictionary and reading it back is the same as validating it, errors
  -- included.
  pub publication_withdrawal_round_trip :
      (d : PublicationWithdrawal)
      → (publication_withdrawal_to_dict iso d >>= publication_withdrawal_from_dict iso)
        ≡ validate_publication_withdrawal d
  unfolding reading publication_withdrawal_to_dict publication_withdrawal_from_dict
  publication_withdrawal_round_trip d = elim (Outcome-cases (validate_publication_withdrawal d)) [
    | inl (x, e) ↦
        let (same, aware) = validate_publication_withdrawal-inv d e in
        let accepted : validate_publication_withdrawal d ≡ ok d = e ∙ ap ok same in
        rw (accepted, datetime_from_iso-isoformat d.withdrawn_at aware, accepted)
    | inr (x, e) ↦ rw e refl
  ]

  from_dict-publication_fields :
      (r : PublicationRecord) (w v : Value)
      → IsPublication r
      → module_work_ref_from_dict w ≡ ok r.work
      → source_from_value v ≡ ok r.source_record
      → publication_record_from_dict iso (dict (publication_fields iso r w v)) ≡ ok r
  unfolding reading publication_record_from_dict publication_fields capability_items
  from_dict-publication_fields r w v valid read_work read_source =
      rw
        (
          items_to_texts-texts_to_items r.capabilities,
          read_work,
          read_source,
          optional_int-int_or_null r.academic_work_registration_revision,
          optional_str-optional_value r.supersedes_publication_id,
          datetime_from_iso-isoformat r.published_at valid.aware,
        )
        valid.accepted

  -- Writing a publication as a dictionary and reading it back is the same as validating it, errors
  -- included.
  pub publication_record_round_trip :
      (r : PublicationRecord)
      → (publication_record_to_dict iso r >>= publication_record_from_dict iso)
        ≡ validate_publication_record r
  unfolding publication_record_to_dict
  publication_record_round_trip r = elim (Outcome-cases (validate_publication_record r)) [
    | inl (s, e) ↦
        let (valid, _) = validate_publication_record-IsPublication r s e in
        let (w, work, read_work) = work_written s.work valid.worked in
        let (v, source, read_source) = source_written s.work s.source_record valid.sourced in
        rw (e, work, source, from_dict-publication_fields s w v valid read_work read_source) refl
    | inr (x, e) ↦ rw e refl
  ]
