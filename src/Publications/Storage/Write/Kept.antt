-- ===== src/Publications/Storage/Write/Kept.antt =====
-- What a write of a publication leaves of the publications that were stored before.
use pds_core.Base.{
  ◌≡◌, refl, ◌∙◌, Bool, true, false, none, some, List, [], ◌∷◌, Text, ok, err, arith, text_eq,
  text_eq_iff, if◌then◌else◌, any,
}
use pds_core.Json.{Value}
use pds_core.Time.{IsoText}
use pds_core.Files.{Content, garbage, holds, is_present, path_eq}
use pds_core.Publications.{PublicationRecord}
use pds_core.Publications.Storage.{
  already_exists, unwritten, locked, no_lock, Stored, Entry, stray, file, Shelf, find_file,
  remove_file,
}
use pds_core.Publications.Storage.Write.{
  PublicationDisk, Registrations, discard, after, write_exclusively, complete, finish, persist,
  validate_write_state, write_locked, release, with_lock, series_lock_path, prepare, write_prepared,
  write_publication_record,
}

remove_file-find :
    (id key : Text) (es : List Entry)
    → find_file key (remove_file id es) ≡ (if text_eq key id then none else find_file key es)
unfolding find_file remove_file
remove_file-find id key [] = ground arith
remove_file-find id key (stray ∷ es) = remove_file-find id key es
remove_file-find id key (file k c ∷ es) =
    ground
      (arith, remove_file-find id key es, text_eq_iff id k, text_eq_iff key k, text_eq_iff key id)

-- A file that was there keeps its content beside a new one, and when that is removed again.
added-find :
    (id q : Text) (x c : Content) (es : List Entry)
    → is_present (find_file id es) ≡ false
    → find_file q es ≡ some c
    → find_file q (file id x ∷ es) ≡ some c
unfolding find_file is_present
added-find id q x c es h k = ground (arith, text_eq_iff q id)

discard-find :
    (removes : Bool) (id q : Text) (x c : Content) (es : List Entry)
    → is_present (find_file id es) ≡ false
    → find_file q es ≡ some c
    → find_file q (discard removes id (file id x ∷ es)) ≡ some c
unfolding discard is_present
discard-find true id q x c es h k =
    remove_file-find id q (file id x ∷ es)
    ∙ ground (arith, text_eq_iff q id, added-find id q x c es h k)
discard-find false id q x c es h k = added-find id q x c es h k

module _ (iso : IsoText) where
  -- The file of `q` has the content `c`.
  abbrev Keeps : Text → Content → Stored (Unit {0}) × Shelf → Type 0
  Keeps q c s = find_file q s.1.publications ≡ some c

  persist-Keeps :
      (disk : PublicationDisk) (r : PublicationRecord) (content : Value) (f : Shelf) (q : Text)
      (c : Content)
      → find_file q f.publications ≡ some c
      → Keeps q c (persist iso disk r content f)
  unfolding persist finish write_exclusively after complete
  persist-Keeps disk r content f q c h =
      wrote (is_present (find_file r.publication_id f.publications)) disk.writes refl
    where
      completed :
          (m : Stored (Unit {0}))
          → is_present (find_file r.publication_id f.publications) ≡ false
          → Keeps q c (
              complete disk r
                (record f { publications = file r.publication_id (holds content) ∷ f.publications })
                m)
      completed (ok u) e = added-find r.publication_id q (holds content) c f.publications e h
      completed (err x) e =
          discard-find disk.removes r.publication_id q (holds content) c f.publications e h

      wrote :
          (present writes : Bool)
          → is_present (find_file r.publication_id f.publications) ≡ present
          → Keeps q c (
              finish iso disk r f (
                if present
                then (err already_exists, f.publications)
                else if writes
                then (ok tt, file r.publication_id (holds content) ∷ f.publications)
                else (
                  err unwritten,
                  discard disk.removes r.publication_id
                      (file r.publication_id garbage ∷ f.publications),
                )))
      wrote true writes e = h
      wrote false true e = completed _ e
      wrote false false e =
          discard-find disk.removes r.publication_id q garbage c f.publications e h

  write_locked-Keeps :
      (disk : PublicationDisk) (registrations : Registrations) (r : PublicationRecord)
      (content : Value) (f : Shelf) (q : Text) (c : Content)
      → find_file q f.publications ≡ some c
      → Keeps q c (write_locked iso disk registrations r content f)
  unfolding write_locked after
  write_locked-Keeps disk registrations r content f q c h =
      checked (validate_write_state iso disk registrations r f)
    where
      checked : (m : Stored (Unit {0})) → Keeps q c (after (m, f) (persist iso disk r content))
      checked (err e) = h
      checked (ok u) = persist-Keeps disk r content f q c h

  with_lock-Keeps :
      (disk : PublicationDisk) (r : PublicationRecord) (body : Shelf → Stored (Unit {0}) × Shelf)
      (f : Shelf) (q : Text) (c : Content)
      → ((g : Shelf) → find_file q g.publications ≡ some c → Keeps q c (body g))
      → find_file q f.publications ≡ some c
      → Keeps q c (with_lock disk r body f)
  unfolding with_lock release
  with_lock-Keeps disk r body f q c k h =
      locking (any (path_eq (series_lock_path r)) f.locks) disk.makes_lock disk.removes
    where
      locking :
          (taken makes removes : Bool)
          → Keeps q c (
              if taken
              then (err locked, f)
              else if makes
              then (let (m, g) = body (record f { locks = series_lock_path r ∷ f.locks }) in
                  (m, if removes then record g { locks = f.locks } else g))
              else (
                err no_lock,
                if removes then f else record f { locks = series_lock_path r ∷ f.locks },
              ))
      locking true makes removes = h
      locking false false true = h
      locking false false false = h
      locking false true true = k _ h
      locking false true false = k _ h

  -- Whatever a write of a publication does and whichever system calls fail, each publication that was
  -- stored keeps its content.
  pub write_publication_record-present :
      (disk : PublicationDisk) (before_lock under_lock : Registrations)
      (publication : PublicationRecord) (f : Shelf) (id : Text) (c : Content)
      → find_file id f.publications ≡ some c
      → find_file id
          (write_publication_record iso disk before_lock under_lock publication f).1.publications
        ≡ some c
  unfolding write_publication_record write_prepared
  write_publication_record-present disk before_lock under_lock publication f id c h =
      prepared (prepare iso disk before_lock publication) disk.makes_folders
    where
      prepared :
          (m : Stored (PublicationRecord × Value)) (makes : Bool)
          → Keeps id c (write_prepared iso (record disk { makes_folders = makes }) under_lock m f)
      prepared (err e) makes = h
      prepared (ok (r, content)) false = h
      prepared (ok (r, content)) true =
          let made : PublicationDisk = record disk { makes_folders = true } in
          with_lock-Keeps made r (write_locked iso made under_lock r content) f id c
            (λ g k. write_locked-Keeps made under_lock r content g id c k) h
