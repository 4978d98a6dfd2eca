-- ===== src/Publications/Storage/Write/Continued.antt =====
-- What the tests of publication_storage.py find of the stored records of a series: the head, and their
-- revisions.
use pds_core.Base.{
  ◌≡◌, ◌≢◌, ◌↔◌, refl, sym, ◌∙◌, ap, ◌⊎◌, inl, inr, Bool, true, false, Option, none, some, List, [],
  ◌∷◌, Text, ok, err, reraise, text_eq_iff, if◌then◌else◌, Bool-cases, any, keep, In, keep-In,
  In-keep, some-inj, >>=-eq-ok, >>-guard-inv, ok-inj, reraise-eq-ok, not_iff, guard-eq-ok,
}
use pds_core.Json.{int_eq, int_eq_iff}
use pds_core.Publications.{PublicationRecord}
use pds_core.Publications.Series.{names, validate_publication_supersession}
use pds_core.Publications.Series.Members.{any-In, unmatched}
use pds_core.Publications.Storage.{
  not_first, not_head, bad_supersession, revision_taken, contradictory, unsuperseded, single_head,
  series_head,
}
use pds_core.Publications.Storage.Equality.{metadata_eq}
use pds_core.Publications.Storage.Write.{check_revisions, is_first, check_head}

-- `head` is the only one of `rs` that no record of `rs` supersedes.
pub record IsHead (rs : List PublicationRecord) (head : PublicationRecord) : Type 0 where
  pub member : In head rs
  pub current :
      (s : PublicationRecord) → In s rs → s.supersedes_publication_id ≢ some head.publication_id
  pub only :
      (r : PublicationRecord)
      → In r rs
      → ((s : PublicationRecord) → In s rs → s.supersedes_publication_id ≢ some r.publication_id)
      → r ≡ head

-- `r` is the first of its series, or an accepted supersession of the head of what is stored.
abbrev pub Continues : List PublicationRecord → PublicationRecord → Type 0
Continues existing r =
    ((existing ≡ []) × (r.supersedes_publication_id ≡ none))
    ⊎ ((head s : PublicationRecord) × IsHead existing head
        × (r.supersedes_publication_id ≡ some head.publication_id)
        × (validate_publication_supersession head r ≡ ok s))

names_iff : (o : Option Text) (id : Text) → (names o id ≡ true) ↔ (o ≡ some id)
unfolding names
names_iff none id = ((λ h. cc), (λ h. cc))
names_iff (some s) id =
    ((λ h. ap some ((text_eq_iff s id).0 h)), (λ h. (text_eq_iff s id).1 (some-inj h)))

unsuperseded_iff :
    (rs : List PublicationRecord) (r : PublicationRecord)
    → (unsuperseded rs r ≡ true)
      ↔ ((s : PublicationRecord) → In s rs → s.supersedes_publication_id ≢ some r.publication_id)
unfolding unsuperseded
unsuperseded_iff rs r = (
  (λ h s i e.
      unmatched (λ t. names t.supersedes_publication_id r.publication_id) s rs ((not_iff _).0 h)
        ((names_iff _ _).1 e) i),
  (λ k. elim (Bool-cases (any (λ t. names t.supersedes_publication_id r.publication_id) rs)) [
    | inl e ↦
        let (s, i, t) = any-In (λ t. names t.supersedes_publication_id r.publication_id) rs e in
        absurd (k s i ((names_iff _ _).0 t))
    | inr e ↦ (not_iff _).1 e
  ]),
)

single_head-inv :
    (rs : List PublicationRecord) {head : PublicationRecord}
    → single_head rs ≡ ok head
    → (r : PublicationRecord) → In r rs ↔ (r ≡ head)
unfolding single_head
single_head-inv [] h r = absurd (cc (h))
single_head-inv (x ∷ []) h r =
    ((λ i. elim i [ inl e ↦ e ∙ ok-inj h | inr j ↦ absurd j ]), (λ e. inl (e ∙ sym (ok-inj h))))
single_head-inv (x ∷ y ∷ rs) h r = absurd (cc h)

series_head-IsHead :
    (rs : List PublicationRecord) (head : PublicationRecord)
    → series_head rs ≡ ok head
    → IsHead rs head
unfolding series_head
series_head-IsHead rs head h =
    let heads = single_head-inv (keep (unsuperseded rs) rs) h in
    let (i, t) = keep-In (unsuperseded rs) head rs ((heads head).1 refl) in
    record {
      member = i;
      current = (unsuperseded_iff rs head).0 t;
      only = λ r j k. (heads r).0 (In-keep (unsuperseded rs) r rs j ((unsuperseded_iff rs r).1 k));
    }

is_first-inv : (o : Option Text) → is_first o ≡ true → o ≡ none
unfolding is_first
is_first-inv none h = refl
is_first-inv (some s) h = cc

pub check_head-Continues :
    (r : PublicationRecord) (existing : List PublicationRecord) {u : Unit {0}}
    → check_head r existing ≡ ok u
    → Continues existing r
unfolding check_head
check_head-Continues r [] h = inl (refl, is_first-inv _ (guard-eq-ok _ not_first h))
check_head-Continues r (p ∷ ps) h =
    let (head, headed, h1) = >>=-eq-ok (series_head (p ∷ ps)) _ h in
    let (named, h2) =
      >>-guard-inv (names r.supersedes_publication_id head.publication_id) not_head _ h1 in
    let (s, super, _) =
      >>=-eq-ok (reraise bad_supersession (validate_publication_supersession head r)) _ h2 in
    inr (
      head,
      s,
      series_head-IsHead (p ∷ ps) head headed,
      (names_iff _ _).0 named,
      reraise-eq-ok bad_supersession _ super,
    )

-- Where the revisions are accepted, none of them is that of the new record.
pub check_revisions-inv :
    (r : PublicationRecord) (priors : List PublicationRecord) {u : Unit {0}}
    → check_revisions r priors ≡ ok u
    → (s : PublicationRecord) → In s priors
    → s.record_set_revision ≢ r.record_set_revision
unfolding check_revisions
check_revisions-inv r [] h s i e = i
check_revisions-inv r (prior ∷ priors) h s i e =
    elim (Bool-cases (int_eq prior.record_set_revision r.record_set_revision)) [
      | inl t ↦ taken (metadata_eq prior r) (rw t at h)
      | inr t ↦ elim i [
        | inl same ↦
            let equal =
              (int_eq_iff prior.record_set_revision r.record_set_revision).1
                (ap (λ (x : PublicationRecord). x.record_set_revision) (sym same) ∙ e) in
            cc (t, equal)
        | inr j ↦ check_revisions-inv r priors (rw t at h) s j e
      ]
    ]
  where
    taken :
        (b : Bool) {u : Unit {0}} → (if b then err revision_taken else err contradictory) ≡ ok u → ⊥
    taken true k = cc
    taken false k = cc
