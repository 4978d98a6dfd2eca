-- ===== src/Publications/Series.antt =====
-- Supersession of publications, the chains that they form, and the withdrawal of a publication, of
-- pds_core/publication_records.py.
pub mod Ordering
pub mod Links
pub mod Members
pub mod Chains
pub mod Ends
use pds_core.Base.{
  ℕ, zero, suc, Bool, true, false, not, ◌&&◌, ◌||◌, Option, none, some, List, [], ◌∷◌, Text,
  Outcome, ok, err, ◌>>=◌, ◌>>◌, guard, all, any, elem, each, keep, length, ◌==◌, text_eq, text_ltb,
  sort_by, if◌then◌else◌,
}
use pds_core.Json.{ℤ, int_eq, int_ltb}
use pds_core.Time.{before}
use pds_core.Dict.{Dict, get, put, has}
use pds_core.Routing.{work_eq}
use pds_core.Publications.{
  Published, PublicationError, PublicationRecord, PublicationWithdrawal,
  validate_publication_record, validate_publication_withdrawal, other_predecessor, other_work,
  other_kind, other_set, stale_revision, earlier, mixed_series, duplicate_publication,
  duplicate_revision, bad_roots, missing_predecessor, branching, bad_heads, cycle, disconnected,
  unending, other_publication, withdrawn_earlier,
}

-- `value == text`, where the value may be `None`
unfoldable pub names : Option Text → Text → Bool
names none id = false
names (some s) id = text_eq s id

unfoldable pub validate_publication_supersession :
    PublicationRecord → PublicationRecord → Published PublicationRecord
validate_publication_supersession previous candidate = do
  old ← validate_publication_record previous
  new ← validate_publication_record candidate
  guard (names new.supersedes_publication_id old.publication_id) other_predecessor
  guard (work_eq new.work old.work) other_work
  guard (text_eq new.publication_kind old.publication_kind) other_kind
  guard (text_eq new.record_set_id old.record_set_id) other_set
  guard (int_ltb old.record_set_revision new.record_set_revision) stale_revision
  guard (not (before new.published_at old.published_at)) earlier
  ok new

-- `_series_identity(a) == _series_identity(b)`
unfoldable pub same_series : PublicationRecord → PublicationRecord → Bool
same_series a b =
    work_eq a.work b.work
    && text_eq a.publication_kind b.publication_kind
    && text_eq a.record_set_id b.record_set_id

-- `by_id`, where neither an id nor a revision stands twice
unfoldable pub index_records :
    List PublicationRecord → Dict PublicationRecord → List ℤ → Published (Dict PublicationRecord)
index_records [] by_id revisions = ok by_id
index_records (r ∷ rs) by_id revisions = do
  guard (not (has r.publication_id by_id)) duplicate_publication
  guard (not (any (int_eq r.record_set_revision) revisions)) duplicate_revision
  index_records rs (put r.publication_id r by_id) (r.record_set_revision ∷ revisions)

abbrev pub is_root : PublicationRecord → Bool
is_root r = elim r.supersedes_publication_id [ none ↦ true | some _ ↦ false ]

unfoldable pub exactly_one : PublicationError → List PublicationRecord → Published PublicationRecord
exactly_one e (r ∷ []) = ok r
exactly_one e _ = err e

-- The body of the loop over the records that name a predecessor.
unfoldable pub add_successor :
    PublicationRecord
    → Text
    → Option PublicationRecord
    → Dict PublicationRecord
    → Published (Dict PublicationRecord)
add_successor r id none successors = err missing_predecessor
add_successor r id (some predecessor) successors = do
  guard (not (has id successors)) branching
  validate_publication_supersession predecessor r
  ok (put id r successors)

unfoldable pub link_record :
    Dict PublicationRecord
    → PublicationRecord
    → Option Text
    → Dict PublicationRecord
    → Published (Dict PublicationRecord)
link_record by_id r none successors = ok successors
link_record by_id r (some id) successors = add_successor r id (get id by_id) successors

unfoldable pub link_records :
    Dict PublicationRecord
    → List PublicationRecord
    → Dict PublicationRecord
    → Published (Dict PublicationRecord)
link_records by_id [] successors = ok successors
link_records by_id (r ∷ rs) successors = do
  linked ← link_record by_id r r.supersedes_publication_id successors
  link_records by_id rs linked

-- The `while` loop from the root, on the next record, if there is one. `n` bounds its iterations.
unfoldable pub follow :
    ℕ → Dict PublicationRecord → List Text → Option PublicationRecord → Published (List Text)
follow n successors visited none = ok visited
follow zero successors visited (some current) = err unending
follow (suc n) successors visited (some current) =
    let id = current.publication_id in
    let rest = follow n successors (id ∷ visited) (get id successors) in
    if elem id visited then err cycle else rest

-- By revision, then by id.
unfoldable pub series_ltb : PublicationRecord → PublicationRecord → Bool
series_ltb a b =
    int_ltb a.record_set_revision b.record_set_revision
    || (int_eq a.record_set_revision b.record_set_revision
        && text_ltb a.publication_id b.publication_id)

-- What is tested of the validated records.
unfoldable pub order_series : List PublicationRecord → Published (List PublicationRecord)
order_series [] = ok []
order_series (first ∷ rest) = do
  guard (all (λ r. same_series r first) rest) mixed_series
  by_id ← index_records (first ∷ rest) [] []
  root ← exactly_one bad_roots (keep is_root (first ∷ rest))
  successors ← link_records by_id (first ∷ rest) []
  exactly_one bad_heads (keep (λ r. not (has r.publication_id successors)) (first ∷ rest))
  visited ← follow (suc (length (first ∷ rest))) successors [] (some root)
  guard (length visited == length (first ∷ rest)) disconnected
  ok (sort_by series_ltb (first ∷ rest))

unfoldable pub validate_publication_record_series :
    List PublicationRecord → Published (List PublicationRecord)
validate_publication_record_series records = do
  validated ← each validate_publication_record records
  order_series validated

unfoldable pub validate_publication_withdrawal_relationship :
    PublicationRecord → PublicationWithdrawal → Published PublicationWithdrawal
validate_publication_withdrawal_relationship publication withdrawal = do
  r ← validate_publication_record publication
  d ← validate_publication_withdrawal withdrawal
  guard (text_eq d.publication_id r.publication_id) other_publication
  guard (not (before d.withdrawn_at r.published_at)) withdrawn_earlier
  ok d
