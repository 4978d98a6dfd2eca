-- ===== src/Publications/Storage/Withdraw/Gone.antt =====
-- A publication that was withdrawn is no longer the current one of its record set.
use mathlib.Core.Path.{subst}
use pds_core.Base.{
  ◌≡◌, refl, sym, ◌∙◌, ap, Bool, true, false, Option, none, some, List, [], ◌∷◌, Text, ok, err,
  ◌>>=◌, reraise, text_eq, text_eq_refl, text_eq_iff, if◌then◌else◌, any, >>=-eq-ok, >>-guard-inv,
  ok-inj, reraise-eq-ok,
}
use pds_core.Json.{Value, null, bool, int, float, str, list, dict, exact_mapping}
use pds_core.Time.{IsoText}
use pds_core.Files.{garbage, holds, FilePath, is_present, path_eq}
use pds_core.Publications.{
  PublicationRecord, PublicationWithdrawal, validate_publication_withdrawal, bad_id,
  is_publication_id, bad_schema_version, bad_record_type,
}
use pds_core.Routing.{ModuleWorkRef}
use pds_core.Publications.Shapes.{publication_withdrawal_to_dict, publication_withdrawal_from_dict}
use pds_core.Publications.Shapes.RoundTrips.{
  publication_withdrawal_round_trip, validate_publication_withdrawal-inv,
}
use pds_core.Publications.Series.{validate_publication_withdrawal_relationship}
use pds_core.Publications.Storage.{
  invalid, already_exists, unwritten, locked, no_lock, not_withdrawable, Stored, Entry, file, Shelf,
  find_file, stored_id, read_withdrawal, same_withdrawal, load_publication_record,
  load_publication_withdrawal, series_head, not_withdrawn, current_of, read_publication, other_id,
  list_publication_record_set, get_current_publication_record, single_head,
}
use pds_core.Publications.Storage.Write.{
  PublicationDisk, after, discard, write_exclusively, release, with_lock, series_lock_path,
}
use pds_core.Publications.Storage.Withdraw.{
  refuse_withdrawn, complete_withdrawal, prepare_withdrawal, validate_withdrawal_state,
  finish_withdrawal, persist_withdrawal, withdraw_locked, write_prepared_withdrawal,
  write_publication_withdrawal,
}

refuse_withdrawn-inv :
    (o : Option PublicationWithdrawal) {u : Unit {0}} → refuse_withdrawn o ≡ ok u → o ≡ none
unfolding refuse_withdrawn
refuse_withdrawn-inv none h = refl
refuse_withdrawn-inv (some d) h = cc

withdrawal_id-IsPublicationId :
    (d e : PublicationWithdrawal)
    → validate_publication_withdrawal d ≡ ok e
    → is_publication_id d.publication_id ≡ true
unfolding validate_publication_withdrawal
withdrawal_id-IsPublicationId d e h =
    let (_, h1) = >>-guard-inv _ bad_schema_version _ h in
    let (_, h2) = >>-guard-inv _ bad_record_type _ h1 in
    let (named, _) = >>-guard-inv (is_publication_id d.publication_id) bad_id _ h2 in named

module _ (iso : IsoText) where
  -- `d` was added to `f`, which gave `g`: it is there, and its publication is not the current one of a
  -- series that it heads.
  pub record IsWithdrawn (d : PublicationWithdrawal) (f g : Shelf) : Type 0 where
    pub publication : PublicationRecord
    pub loaded : load_publication_record iso d.publication_id f.publications ≡ ok publication
    pub fresh : load_publication_withdrawal iso d.publication_id f.withdrawals ≡ ok none
    pub kept : g.publications ≡ f.publications
    pub stored : load_publication_withdrawal iso d.publication_id g.withdrawals ≡ ok (some d)
    pub gone :
        (work : ModuleWorkRef) (kind set : Text) (rs : List PublicationRecord)
        → list_publication_record_set iso work kind set f.publications ≡ ok rs
        → series_head rs ≡ ok publication
        → get_current_publication_record iso work kind set g ≡ ok none

  load_publication_record-inv :
      (id : Text) (es : List Entry) (r : PublicationRecord)
      → load_publication_record iso id es ≡ ok r
      → r.publication_id ≡ id
  unfolding load_publication_record
  load_publication_record-inv id es r h =
      let (_, _, h1) = >>=-eq-ok (stored_id id) _ h in
      let (s, _, h2) = >>=-eq-ok (read_publication iso (find_file id es)) _ h1 in
      let (same, h3) = >>-guard-inv (text_eq s.publication_id id) other_id _ h2 in
      sym (ap (λ (x : PublicationRecord). x.publication_id) (ok-inj h3))
      ∙ (text_eq_iff s.publication_id id).0 same

  read_withdrawal-written :
      (d : PublicationWithdrawal) (v : Value)
      → publication_withdrawal_from_dict iso v ≡ ok d
      → read_withdrawal iso (some (holds v)) ≡ ok (some d)
  unfolding read_withdrawal publication_withdrawal_from_dict exact_mapping
  read_withdrawal-written d null h = cc
  read_withdrawal-written d (bool b) h = cc
  read_withdrawal-written d (int n) h = cc
  read_withdrawal-written d (float x) h = cc
  read_withdrawal-written d (str s) h = cc
  read_withdrawal-written d (list vs) h = cc
  read_withdrawal-written d (dict fs) h = rw h refl

  load_publication_withdrawal-written :
      (d : PublicationWithdrawal) (v : Value) (es : List Entry)
      → validate_publication_withdrawal d ≡ ok d
      → publication_withdrawal_to_dict iso d ≡ ok v
      → load_publication_withdrawal iso d.publication_id (file d.publication_id (holds v) ∷ es)
        ≡ ok (some d)
  unfolding load_publication_withdrawal stored_id find_file same_withdrawal
  load_publication_withdrawal-written d v es valid written =
      let (x, also, back) =
        >>=-eq-ok (publication_withdrawal_to_dict iso d) _
          (publication_withdrawal_round_trip iso d ∙ valid) in
      let read =
        sym (ap (publication_withdrawal_from_dict iso) (ok-inj (sym also ∙ written))) ∙ back in
      rw
        (
          withdrawal_id-IsPublicationId d d valid,
          text_eq_refl d.publication_id,
          read_withdrawal-written d v read,
          text_eq_refl d.publication_id,
        )
        refl

  validate_withdrawal_state-inv :
      (d : PublicationWithdrawal) (f : Shelf) {u : Unit {0}}
      → validate_withdrawal_state iso d f ≡ ok u
      → (r : PublicationRecord) × (load_publication_record iso d.publication_id f.publications
          ≡ ok r)
        × (load_publication_withdrawal iso d.publication_id f.withdrawals ≡ ok none)
        × ((e : PublicationWithdrawal) × (validate_publication_withdrawal_relationship r d ≡ ok e))
  unfolding validate_withdrawal_state
  validate_withdrawal_state-inv d f h =
      let (r, loaded, h1) =
        >>=-eq-ok (load_publication_record iso d.publication_id f.publications) _ h in
      let (found, missed, h2) =
        >>=-eq-ok (load_publication_withdrawal iso d.publication_id f.withdrawals) _ h1 in
      let (_, fresh, h3) = >>=-eq-ok (refuse_withdrawn found) _ h2 in
      let (e, related, _) =
        >>=-eq-ok (reraise not_withdrawable (validate_publication_withdrawal_relationship r d)) _
          h3 in
      (
        r,
        loaded,
        missed ∙ ap ok (refuse_withdrawn-inv found fresh),
        (e, reraise-eq-ok not_withdrawable _ related),
      )

  withdrawn_head :
      (d e : PublicationWithdrawal) (r : PublicationRecord) (withdrawals : List Entry)
      → load_publication_withdrawal iso r.publication_id withdrawals ≡ ok (some d)
      → validate_publication_withdrawal_relationship r d ≡ ok e
      → (rs : List PublicationRecord) → series_head rs ≡ ok r
      → current_of iso withdrawals rs ≡ ok none
  unfolding current_of not_withdrawn series_head single_head
  withdrawn_head d e r withdrawals stored related [] h = cc
  withdrawn_head d e r withdrawals stored related (s ∷ rs) h = rw (h, stored, related) refl

  -- What a write that raises nothing leaves in the directories.
  Leaves : PublicationWithdrawal → Value → Shelf → Stored (Unit {0}) × Shelf → Type 0
  Leaves d v f s =
      s.0 ≡ ok tt
      → (s.1.publications ≡ f.publications)
        × (s.1.withdrawals ≡ file d.publication_id (holds v) ∷ f.withdrawals)

  persist_withdrawal-Leaves :
      (disk : PublicationDisk) (d : PublicationWithdrawal) (v : Value) (f : Shelf)
      → Leaves d v f (persist_withdrawal iso disk d v f)
  unfolding Leaves persist_withdrawal finish_withdrawal write_exclusively after complete_withdrawal
  persist_withdrawal-Leaves disk d v f =
      wrote (is_present (find_file d.publication_id f.withdrawals)) disk.writes
    where
      completed :
          (m : Stored (Unit {0}))
          → Leaves d v f (
              complete_withdrawal disk d
                (record f { withdrawals = file d.publication_id (holds v) ∷ f.withdrawals })
                m)
      completed (ok u) = λ h. (refl, refl)
      completed (err e) = λ h. cc

      wrote :
          (present writes : Bool)
          → Leaves d v f (
              finish_withdrawal iso disk d f (
                if present
                then (err already_exists, f.withdrawals)
                else if writes
                then (ok tt, file d.publication_id (holds v) ∷ f.withdrawals)
                else (
                  err unwritten,
                  discard disk.removes d.publication_id
                      (file d.publication_id garbage ∷ f.withdrawals),
                )))
      wrote true writes = λ h. cc
      wrote false true = completed _
      wrote false false = λ h. cc

  -- `g` is `f` with the withdrawal, if nothing was raised.
  Withdraws : PublicationWithdrawal → Shelf → Stored (Unit {0}) × Shelf → Type 0
  Withdraws d f s = s.0 ≡ ok tt → IsWithdrawn d f s.1

  withdraw_locked-Withdraws :
      (disk : PublicationDisk) (d : PublicationWithdrawal) (v : Value) (f : Shelf)
      → validate_publication_withdrawal d ≡ ok d
      → publication_withdrawal_to_dict iso d ≡ ok v
      → Withdraws d f (withdraw_locked iso disk d v f)
  unfolding Withdraws Leaves withdraw_locked after get_current_publication_record
  withdraw_locked-Withdraws disk d v f valid written =
      checked (validate_withdrawal_state iso d f) refl
    where
      checked :
          (m : Stored (Unit {0}))
          → validate_withdrawal_state iso d f ≡ m
          → Withdraws d f (after (m, f) (persist_withdrawal iso disk d v))
      checked (err e) at = λ h. cc
      checked (ok u) at = λ h.
          let (r, loaded, fresh, (e, related)) = validate_withdrawal_state-inv d f at in
          let g : Shelf = (persist_withdrawal iso disk d v f).1 in
          let (kept, left) = persist_withdrawal-Leaves disk d v f h in
          let stored =
            ap (load_publication_withdrawal iso d.publication_id) left
            ∙ load_publication_withdrawal-written d v f.withdrawals valid written in
          record {
            publication = r;
            loaded = loaded;
            fresh = fresh;
            kept = kept;
            stored = stored;
            gone = λ work kind set rs listed headed.
                ap
                  (λ es.
                    list_publication_record_set iso work kind set es
                    >>= current_of iso g.withdrawals)
                  kept
                ∙ ap (λ m. m >>= current_of iso g.withdrawals) listed
                ∙ withdrawn_head d e r g.withdrawals
                    (ap (λ id. load_publication_withdrawal iso id g.withdrawals)
                        (load_publication_record-inv d.publication_id f.publications r loaded)
                      ∙ stored)
                    related rs headed;
          }

  with_lock-Withdraws :
      (disk : PublicationDisk) (r : PublicationRecord) (d : PublicationWithdrawal)
      (body : Shelf → Stored (Unit {0}) × Shelf) (f : Shelf)
      → ((g : Shelf) → Withdraws d g (body g))
      → Withdraws d f (with_lock disk r body f)
  unfolding Withdraws with_lock release get_current_publication_record
  with_lock-Withdraws disk r d body f k =
      locking (any (path_eq (series_lock_path r)) f.locks) disk.makes_lock disk.removes
    where
      taken_lock : Shelf
      taken_lock = record f { locks = series_lock_path r ∷ f.locks }

      moved :
          (g : Shelf) (l : List FilePath)
          → IsWithdrawn d taken_lock g
          → IsWithdrawn d f (record g { locks = l })
      moved g l a = record {
        publication = a.publication;
        loaded = a.loaded;
        fresh = a.fresh;
        kept = a.kept;
        stored = a.stored;
        gone = a.gone;
      }

      locking :
          (taken makes removes : Bool)
          → Withdraws d f (
              if taken
              then (err locked, f)
              else if makes
              then (let (m, g) = body (record f { locks = series_lock_path r ∷ f.locks }) in
                  (m, if removes then record g { locks = f.locks } else g))
              else (
                err no_lock,
                if removes then f else record f { locks = series_lock_path r ∷ f.locks },
              ))
      locking true makes removes = λ h. cc
      locking false false true = λ h. cc
      locking false false false = λ h. cc
      locking false true true = λ h. moved _ f.locks (k taken_lock h)
      locking false true false = λ h. moved _ _ (k taken_lock h)

  prepare_withdrawal-inv :
      (withdrawal d : PublicationWithdrawal) (r : PublicationRecord) (v : Value) (f : Shelf)
      → prepare_withdrawal iso withdrawal f ≡ ok (d, r, v)
      → (validate_publication_withdrawal withdrawal ≡ ok d)
        × (publication_withdrawal_to_dict iso d ≡ ok v)
  unfolding prepare_withdrawal
  prepare_withdrawal-inv withdrawal d r v f h =
      let (s, accepted, h1) =
        >>=-eq-ok (reraise invalid (validate_publication_withdrawal withdrawal)) _ h in
      let (q, _, h2) =
        >>=-eq-ok (load_publication_record iso s.publication_id f.publications) _ h1 in
      let (_, _, h3) =
        >>=-eq-ok (reraise not_withdrawable (validate_publication_withdrawal_relationship q s)) _
          h2 in
      let (x, written, h4) =
        >>=-eq-ok (reraise invalid (publication_withdrawal_to_dict iso s)) _ h3 in
      subst
        (λ (t : PublicationWithdrawal × PublicationRecord × Value).
          (validate_publication_withdrawal withdrawal ≡ ok t.0)
          × (publication_withdrawal_to_dict iso t.0 ≡ ok t.2))
        (ok-inj h4) (reraise-eq-ok invalid _ accepted, reraise-eq-ok invalid _ written)

  -- A withdrawal whose write raises nothing can be loaded afterwards, no publication is changed, and
  -- each record set whose head is the withdrawn publication has no current publication any more.
  pub write_publication_withdrawal-IsWithdrawn :
      (disk : PublicationDisk) (withdrawal : PublicationWithdrawal) (f : Shelf)
      → (write_publication_withdrawal iso disk withdrawal f).0 ≡ ok tt
      → IsWithdrawn withdrawal f (write_publication_withdrawal iso disk withdrawal f).1
  unfolding write_publication_withdrawal write_prepared_withdrawal Withdraws
  write_publication_withdrawal-IsWithdrawn disk withdrawal f h =
      written (prepare_withdrawal iso withdrawal f) disk.makes_folders refl h
    where
      written :
          (m : Stored (PublicationWithdrawal × PublicationRecord × Value)) (makes : Bool)
          → prepare_withdrawal iso withdrawal f ≡ m
          → (write_prepared_withdrawal iso (record disk { makes_folders = makes }) m f).0 ≡ ok tt
          → IsWithdrawn withdrawal f
              (write_prepared_withdrawal iso (record disk { makes_folders = makes }) m f).1
      written (err e) makes at k = cc
      written (ok (d, r, v)) false at k = cc
      written (ok (d, r, v)) true at k =
          let made : PublicationDisk = record disk { makes_folders = true } in
          let (accepted, content) = prepare_withdrawal-inv withdrawal d r v f at in
          let (same, _) = validate_publication_withdrawal-inv withdrawal accepted in
          subst (λ x. IsWithdrawn x f (with_lock made r (withdraw_locked iso made d v) f).1) same
            (with_lock-Withdraws made r d (withdraw_locked iso made d v) f
              (λ g.
                withdraw_locked-Withdraws made d v g
                  (subst (λ x. validate_publication_withdrawal x ≡ ok d) (sym same) accepted)
                  content)
              k)
