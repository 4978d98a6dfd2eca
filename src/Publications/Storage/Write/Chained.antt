-- ===== src/Publications/Storage/Write/Chained.antt =====
-- A publication that was written continues its series and can be loaded.
use mathlib.Core.Path.{subst}
use pds_core.Base.{
  ◌≡◌, refl, sym, ◌∙◌, ap, inl, inr, Bool, true, false, not, some, List, ◌∷◌, ok, err, ◌↔◌, ◌≢◌, In,
  Option, none, reraise, text_eq_refl, if◌then◌else◌, Bool-cases, any, >>=-eq-ok, >>-guard-inv,
  ok-inj, reraise-eq-ok, not_iff, In, none, Option,
}
use pds_core.Json.{Value, null, bool, int, float, str, list, dict, exact_mapping}
use pds_core.Time.{IsoText}
use pds_core.Files.{garbage, holds, FilePath, is_present, path_eq, Content}
use pds_core.Publications.{PublicationRecord, validate_publication_record}
use pds_core.Publications.Fields.{IsPublication, validate_publication_record-IsPublication}
use pds_core.Publications.Shapes.{publication_record_to_dict, publication_record_from_dict}
use pds_core.Publications.Shapes.RoundTrips.{publication_record_round_trip}
use pds_core.Publications.Storage.{
  invalid, already_exists, unwritten, locked, no_lock, Stored, Entry, file, Shelf, find_file,
  stored_id, read_publication, load_publication_record, list_publication_record_set,
}
use pds_core.Publications.Storage.Listed.{IsSameSet, list_publication_record_set-In}
use pds_core.Publications.Storage.Write.Continued.{
  Continues, check_head-Continues, check_revisions-inv,
}
use pds_core.Publications.Storage.Write.{
  PublicationDisk, Registrations, verify_manifest, validate_registration_relationship,
  is_read_error, read_history, check_revisions, after, write_exclusively, validate_write_state,
  complete, finish, persist, write_locked, release, with_lock, series_lock_path, prepare,
  write_prepared, write_publication_record, discard,
}

is_present-inv : (o : Option Content) → is_present o ≡ false → o ≡ none
unfolding is_present
is_present-inv none h = refl
is_present-inv (some a) h = cc

read_history-eq-ok : {A : Type 0} (m : Stored A) {a : A} → read_history m ≡ ok a → m ≡ ok a
unfolding read_history
read_history-eq-ok (ok b) h = h
read_history-eq-ok (err e) h = elim (Bool-cases (is_read_error e)) [
  | inl t ↦ absurd (cc (rw t at h))
  | inr t ↦ absurd (cc (rw t at h))
]

module _ (iso : IsoText) where
  -- `r` was added to `f`, which gave `g`.
  pub record IsAdded (r : PublicationRecord) (f g : Shelf) : Type 0 where
    pub existing : List PublicationRecord
    pub history :
        list_publication_record_set iso r.work r.publication_kind r.record_set_id f.publications
        ≡ ok existing
    pub listed :
        (s : PublicationRecord)
        → In s existing
          ↔ ((load_publication_record iso s.publication_id f.publications ≡ ok s) × IsSameSet r s)
    pub fresh : find_file r.publication_id f.publications ≡ none
    pub revision :
        (s : PublicationRecord) → In s existing → s.record_set_revision ≢ r.record_set_revision
    pub continues : Continues existing r
    pub stored : load_publication_record iso r.publication_id g.publications ≡ ok r

  read_publication-written :
      (r : PublicationRecord) (v : Value)
      → publication_record_from_dict iso v ≡ ok r
      → read_publication iso (some (holds v)) ≡ ok r
  unfolding read_publication publication_record_from_dict exact_mapping
  read_publication-written r null h = cc
  read_publication-written r (bool b) h = cc
  read_publication-written r (int n) h = cc
  read_publication-written r (float x) h = cc
  read_publication-written r (str s) h = cc
  read_publication-written r (list vs) h = cc
  read_publication-written r (dict fs) h = rw h refl

  load_publication_record-written :
      (r : PublicationRecord) (v : Value) (es : List Entry)
      → IsPublication r
      → publication_record_to_dict iso r ≡ ok v
      → load_publication_record iso r.publication_id (file r.publication_id (holds v) ∷ es) ≡ ok r
  unfolding load_publication_record stored_id find_file
  load_publication_record-written r v es valid written =
      let (x, also, back) =
        >>=-eq-ok (publication_record_to_dict iso r) _
          (publication_record_round_trip iso r ∙ valid.accepted) in
      let read = sym (ap (publication_record_from_dict iso) (ok-inj (sym also ∙ written))) ∙ back in
      rw
        (
          valid.identified,
          text_eq_refl r.publication_id,
          read_publication-written r v read,
          text_eq_refl r.publication_id,
        )
        refl

  validate_write_state-inv :
      (disk : PublicationDisk) (registrations : Registrations) (r : PublicationRecord) (f : Shelf)
      {u : Unit {0}}
      → validate_write_state iso disk registrations r f ≡ ok u
      → (existing : List PublicationRecord) × (list_publication_record_set iso r.work
            r.publication_kind r.record_set_id f.publications
          ≡ ok existing)
        × (find_file r.publication_id f.publications ≡ none)
        × (check_revisions r existing ≡ ok tt)
        × Continues existing r
  unfolding validate_write_state
  validate_write_state-inv disk registrations r f h =
      let (_, _, h1) = >>=-eq-ok (verify_manifest disk.locked_manifest r) _ h in
      let (_, _, h2) = >>=-eq-ok (validate_registration_relationship registrations r) _ h1 in
      let (fresh, h3) =
        >>-guard-inv (not (is_present (find_file r.publication_id f.publications))) already_exists _
          h2 in
      let (existing, listed, h4) =
        >>=-eq-ok
          (read_history (
            list_publication_record_set iso r.work r.publication_kind r.record_set_id
              f.publications))
          _ h3 in
      let (_, revision, h5) = >>=-eq-ok (check_revisions r existing) _ h4 in
      (
        existing,
        read_history-eq-ok _ listed,
        is_present-inv _ ((not_iff _).0 fresh),
        revision,
        check_head-Continues r existing h5,
      )

  -- What a write that raises nothing leaves in the directory.
  Succeeds : PublicationRecord → Value → Shelf → Stored (Unit {0}) × Shelf → Type 0
  Succeeds r v f s =
      s.0 ≡ ok tt → s.1.publications ≡ file r.publication_id (holds v) ∷ f.publications

  persist-Succeeds :
      (disk : PublicationDisk) (r : PublicationRecord) (v : Value) (f : Shelf)
      → Succeeds r v f (persist iso disk r v f)
  unfolding Succeeds persist finish write_exclusively after complete
  persist-Succeeds disk r v f =
      wrote (is_present (find_file r.publication_id f.publications)) disk.writes
    where
      completed :
          (m : Stored (Unit {0}))
          → Succeeds r v f (
              complete disk r
                (record f { publications = file r.publication_id (holds v) ∷ f.publications })
                m)
      completed (ok u) = λ h. refl
      completed (err e) = λ h. cc

      wrote :
          (present writes : Bool)
          → Succeeds r v f (
              finish iso disk r f (
                if present
                then (err already_exists, f.publications)
                else if writes
                then (ok tt, file r.publication_id (holds v) ∷ f.publications)
                else (
                  err unwritten,
                  discard disk.removes r.publication_id
                      (file r.publication_id garbage ∷ f.publications),
                )))
      wrote true writes = λ h. cc
      wrote false true = completed _
      wrote false false = λ h. cc

  -- `g` holds the addition of `r` to `f`, if nothing was raised.
  Adds : PublicationRecord → Shelf → Stored (Unit {0}) × Shelf → Type 0
  Adds r f s = s.0 ≡ ok tt → IsAdded r f s.1

  write_locked-Adds :
      (disk : PublicationDisk) (registrations : Registrations) (r : PublicationRecord) (v : Value)
      (f : Shelf)
      → IsPublication r
      → publication_record_to_dict iso r ≡ ok v
      → Adds r f (write_locked iso disk registrations r v f)
  unfolding Adds Succeeds write_locked after
  write_locked-Adds disk registrations r v f valid written =
      checked (validate_write_state iso disk registrations r f) refl
    where
      checked :
          (m : Stored (Unit {0}))
          → validate_write_state iso disk registrations r f ≡ m
          → Adds r f (after (m, f) (persist iso disk r v))
      checked (err e) at = λ h. cc
      checked (ok u) at = λ h.
          let (existing, history, fresh, revision, continues) =
            validate_write_state-inv disk registrations r f at in
          let left = persist-Succeeds disk r v f h in
          record {
            existing = existing;
            history = history;
            listed = list_publication_record_set-In iso r f.publications existing history;
            fresh = fresh;
            revision = check_revisions-inv r existing revision;
            continues = continues;
            stored =
                ap (load_publication_record iso r.publication_id) left
                ∙ load_publication_record-written r v f.publications valid written;
          }

  with_lock-Adds :
      (disk : PublicationDisk) (r : PublicationRecord) (body : Shelf → Stored (Unit {0}) × Shelf)
      (f : Shelf)
      → ((g : Shelf) → Adds r g (body g))
      → Adds r f (with_lock disk r body f)
  unfolding Adds with_lock release
  with_lock-Adds disk r body f k =
      locking (any (path_eq (series_lock_path r)) f.locks) disk.makes_lock disk.removes
    where
      taken_lock : Shelf
      taken_lock = record f { locks = series_lock_path r ∷ f.locks }

      moved :
          (g : Shelf) (l : List FilePath)
          → IsAdded r taken_lock g
          → IsAdded r f (record g { locks = l })
      moved g l a = record {
        existing = a.existing;
        history = a.history;
        listed = a.listed;
        fresh = a.fresh;
        revision = a.revision;
        continues = a.continues;
        stored = a.stored;
      }

      locking :
          (taken makes removes : Bool)
          → Adds r f (
              if taken
              then (err locked, f)
              else if makes
              then (let (m, g) = body (record f { locks = series_lock_path r ∷ f.locks }) in
                  (m, if removes then record g { locks = f.locks } else g))
              else (
                err no_lock,
                if removes then f else record f { locks = series_lock_path r ∷ f.locks },
              ))
      locking true makes removes = λ h. cc
      locking false false true = λ h. cc
      locking false false false = λ h. cc
      locking false true true = λ h. moved _ f.locks (k taken_lock h)
      locking false true false = λ h. moved _ _ (k taken_lock h)

  prepare-inv :
      (disk : PublicationDisk) (registrations : Registrations) (publication r : PublicationRecord)
      (v : Value)
      → prepare iso disk registrations publication ≡ ok (r, v)
      → (validate_publication_record publication ≡ ok r) × (publication_record_to_dict iso r ≡ ok v)
  unfolding prepare
  prepare-inv disk registrations publication r v h =
      let (s, accepted, h1) =
        >>=-eq-ok (reraise invalid (validate_publication_record publication)) _ h in
      let (_, _, h2) = >>=-eq-ok (verify_manifest disk.first_manifest s) _ h1 in
      let (_, _, h3) = >>=-eq-ok (validate_registration_relationship registrations s) _ h2 in
      let (x, written, h4) = >>=-eq-ok (reraise invalid (publication_record_to_dict iso s)) _ h3 in
      subst
        (λ (t : PublicationRecord × Value).
          (validate_publication_record publication ≡ ok t.0)
          × (publication_record_to_dict iso t.0 ≡ ok t.1))
        (ok-inj h4) (reraise-eq-ok invalid _ accepted, reraise-eq-ok invalid _ written)

  -- A write of a publication that raises nothing extends its series. The validated publication had no
  -- file. What is listed of its record set is what can be loaded and is of that set; none of these has
  -- its revision. Either there are none and it supersedes none, or exactly one of them is superseded by
  -- none of them, and the publication is an accepted supersession of that one. Afterwards it can be
  -- loaded.
  pub write_publication_record-IsAdded :
      (disk : PublicationDisk) (before_lock under_lock : Registrations)
      (publication : PublicationRecord) (f : Shelf)
      → (write_publication_record iso disk before_lock under_lock publication f).0 ≡ ok tt
      → (r : PublicationRecord) × (validate_publication_record publication ≡ ok r)
        × IsAdded r f (write_publication_record iso disk before_lock under_lock publication f).1
  unfolding write_publication_record write_prepared prepare Adds
  write_publication_record-IsAdded disk before_lock under_lock publication f h =
      written (prepare iso disk before_lock publication) disk.makes_folders refl h
    where
      written :
          (m : Stored (PublicationRecord × Value)) (makes : Bool)
          → prepare iso disk before_lock publication ≡ m
          → (write_prepared iso (record disk { makes_folders = makes }) under_lock m f).0 ≡ ok tt
          → (r : PublicationRecord) × (validate_publication_record publication ≡ ok r)
            × IsAdded r f
                (write_prepared iso (record disk { makes_folders = makes }) under_lock m f).1
      written (err e) makes at k = cc
      written (ok (r, v)) false at k = cc
      written (ok (r, v)) true at k =
          let made : PublicationDisk = record disk { makes_folders = true } in
          let (accepted, content) = prepare-inv disk before_lock publication r v at in
          let (valid, _) = validate_publication_record-IsPublication publication r accepted in
          (
            r,
            accepted,
            with_lock-Adds made r (write_locked iso made under_lock r v) f
                (λ g. write_locked-Adds made under_lock r v g valid content) k,
          )
