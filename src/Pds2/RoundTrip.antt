-- ===== src/Pds2/RoundTrip.antt =====
-- A serialized locator is parsed back.
use pds_core.Base.{
  ◌≤◌, ℕ, ◌≡◌, refl, ap, ◌∙◌, sym, ◌≢◌, true, false, [], ◌∷◌, ◌++◌, Text, lit, ok, all_mono, elem,
  length, ◌==◌, text_eq, text_eq_iff, text_eq-false, arith, Decides-ok, inl, inr,
}
use pds_core.Json.{str}
use pds_core.Dict.{Dict, get, put, has}
use pds_core.Identifiers.{identifier_char}
use pds_core.Identifiers.Laws.{IsIdentifier}
use pds_core.Routing.{RouteLocator, pds2_schema, make_module_work_ref, make_route_locator}
use pds_core.Routing.Laws.{
  IsLocator, validate_route_locator-Decides, validate_module_work_ref-Decides,
}
use pds_core.Pds2.{
  bar, equals, split, count, split_once, is_ascii, require_size_limit, read_segment, read_segments,
  required, locator_of, parse_segments, parse_pds2_payload, payload_text, serialize_pds2_payload,
}
use pds_core.Pds2.Splitting.{free, split-append, split-free, count-free}

-- An identifier holds none of the payload's separators, and is ASCII.
identifier-free-bar : (s : Text) → IsIdentifier s → free bar s ≡ true
identifier-free-bar s h = all_mono identifier_char _ s (λ c p. ground arith) h.1

identifier-free-equals : (s : Text) → IsIdentifier s → free equals s ≡ true
identifier-free-equals s h = all_mono identifier_char _ s (λ c p. ground arith) h.1

pub identifier-is_ascii : (s : Text) → IsIdentifier s → is_ascii s ≡ true
identifier-is_ascii s h = all_mono identifier_char _ s (λ c p. ground arith) h.1

-- The segments of the canonical payload.
split-payload_text :
    (l : RouteLocator)
    → IsLocator l
    → split bar (payload_text l)
      ≡ pds2_schema
        ∷ (109 ∷ equals ∷ l.module_id)
        ∷ (99 ∷ equals ∷ l.class_id)
        ∷ (119 ∷ equals ∷ l.work_id)
        ∷ (114 ∷ equals ∷ l.route_id)
        ∷ []
unfolding payload_text
split-payload_text l v =
    let m : Text = 109 ∷ equals ∷ l.module_id in
    let c : Text = 99 ∷ equals ∷ l.class_id in
    let w : Text = 119 ∷ equals ∷ l.work_id in
    let r : Text = 114 ∷ equals ∷ l.route_id in
    split-append bar pds2_schema (m ++ bar ∷ (c ++ bar ∷ (w ++ bar ∷ r))) refl
    ∙ ap (λ t. pds2_schema ∷ t)
        (split-append bar m (c ++ bar ∷ (w ++ bar ∷ r)) (identifier-free-bar _ v.1.0.0)
          ∙ ap (λ t. m ∷ t)
              (split-append bar c (w ++ bar ∷ r) (identifier-free-bar _ v.1.1)
                ∙ ap (λ t. c ∷ t)
                    (split-append bar w r (identifier-free-bar _ v.1.2)
                      ∙ ap (λ t. w ∷ t) (split-free bar r (identifier-free-bar _ v.2)))))

-- A segment `k=value` adds the value under `k`.
read_segment-add :
    (fields : Dict Text) (k : ℕ) (value : Text)
    → IsIdentifier value
    → (k == equals) ≡ false
    → elem (k ∷ []) (lit "m" ∷ lit "c" ∷ lit "w" ∷ lit "r" ∷ []) ≡ true
    → has (k ∷ []) fields ≡ false
    → read_segment fields (k ∷ equals ∷ value) ≡ ok (put (k ∷ []) value fields)
unfolding read_segment count split_once text_eq
read_segment-add fields k value v other known new =
    ground
      (arith, count-free equals value (identifier-free-equals value v), text_eq-false value [] v.0)

read_segments-payload :
    (l : RouteLocator)
    → IsLocator l
    → (fields : Dict Text) × (read_segments [] (
          (109 ∷ equals ∷ l.module_id)
          ∷ (99 ∷ equals ∷ l.class_id)
          ∷ (119 ∷ equals ∷ l.work_id)
          ∷ (114 ∷ equals ∷ l.route_id)
          ∷ [])
        ≡ ok fields)
      × (locator_of fields ≡ ok l)
unfolding read_segments get put text_eq required locator_of make_module_work_ref make_route_locator
read_segments-payload l v =
    let same : record l { schema = pds2_schema } ≡ l = λ i. record l { schema = (sym v.0) i } in
    (
      ((109 ∷ []), l.module_id)
          ∷ ((99 ∷ []), l.class_id)
          ∷ ((119 ∷ []), l.work_id)
          ∷ ((114 ∷ []), l.route_id)
          ∷ [],
      rw (read_segment-add [] 109 l.module_id v.1.0.0 refl refl refl) (
          rw (read_segment-add _ 99 l.class_id v.1.1 refl refl refl) (
            rw (read_segment-add _ 119 l.work_id v.1.2 refl refl refl)
              (rw (read_segment-add _ 114 l.route_id v.2 refl refl refl)))),
      rw (
        Decides-ok _ l.work _ (validate_module_work_ref-Decides l.work) v.1,
        same,
        Decides-ok _ l _ (validate_route_locator-Decides l) v,
      ),
    )

-- Both sides of the size limit and of the ASCII test.
pub record IsPayload (s : Text) : Type 0 where
  pub ascii : is_ascii s ≡ true
  pub fits : length s ≤ 256

serialize_pds2_payload-inv :
    (l : RouteLocator) {s : Text}
    → serialize_pds2_payload l ≡ ok s
    → IsLocator l × (s ≡ payload_text l) × IsPayload s
unfolding serialize_pds2_payload require_size_limit
serialize_pds2_payload-inv l {s} h = elim (validate_route_locator-Decides l) [
  | inl (e, v) ↦ (v, ground arith, ground arith)
  | inr ((x, e), n) ↦ ground arith
]

payload_text-ne-nil : (l : RouteLocator) → payload_text l ≢ []
unfolding payload_text
payload_text-ne-nil l e = cc

parse_payload :
    (s : Text) → s ≢ [] → IsPayload s → parse_pds2_payload (str s) ≡ parse_segments (split bar s)
unfolding parse_pds2_payload require_size_limit
parse_payload s n h = ground (arith, text_eq_iff s [])

-- Whatever the serializer emits is parsed back to the locator that was serialized.
pub parse-serialize :
    (l : RouteLocator) (s : Text)
    → serialize_pds2_payload l ≡ ok s
    → parse_pds2_payload (str s) ≡ ok l
unfolding parse_segments text_eq locator_of
parse-serialize l s h =
    let (v, same, p) = serialize_pds2_payload-inv l h in
    let (fields, read, located) = read_segments-payload l v in
    rw
      (
        parse_payload s (λ e. payload_text-ne-nil l (sym same ∙ e)) p,
        same,
        split-payload_text l v,
        read,
      )
      located
