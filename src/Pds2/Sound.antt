-- ===== src/Pds2/Sound.antt =====
-- What a parsed payload is worth: its locator is valid, and its canonical form is no longer than it.
use pds_core.Base.{
  ℕ, ◌+◌, ◌≡◌, refl, ap, true, false, List, [], ◌∷◌, ◌++◌, none, some, Text, lit, ok, guard,
  all-append, elem, length, length-append, text_eq, text_eq_iff, arith, Decides-ok, Decides-inv,
  >>=-eq-ok, guard-eq-ok, reraise-eq-ok,
}
use pds_core.Json.{Value, str, null}
use pds_core.Dict.{Dict, get, put, has, get-put}
use pds_core.Routing.{RouteLocator, pds2_schema, make_module_work_ref, make_route_locator}
use pds_core.Routing.Laws.{
  IsLocator, validate_route_locator-Decides, validate_module_work_ref-Decides,
}
use pds_core.Pds2.{
  bar, equals, bad_locator, field_order, split, split_once, is_ascii, require_size_limit,
  read_segment, read_segments, required, locator_of, parse_segments, parse_pds2_payload,
  payload_text, serialize_pds2_payload,
}
use pds_core.Pds2.Splitting.{total, total-split, length-split_once}
use pds_core.Pds2.RoundTrip.{IsPayload, identifier-is_ascii, parse-serialize}

-- The characters that a field takes in a payload: `|k=value`.
abbrev slot : Dict Text → Text → ℕ
slot fields k = elim (get k fields) [ none ↦ 0 | some v ↦ length v + 3 ]

abbrev size : Dict Text → ℕ
size fields =
    slot fields (lit "m") + slot fields (lit "c") + slot fields (lit "w") + slot fields (lit "r")

size-put :
    (k v : Text) (fields : Dict Text)
    → elem k field_order ≡ true
    → has k fields ≡ false
    → (size (put k v fields) ≡ size fields + length v + 3) × (length k ≡ 1)
size-put k v fields known new = ground (
  arith,
  get-put k (lit "m") v fields,
  get-put k (lit "c") v fields,
  get-put k (lit "w") v fields,
  get-put k (lit "r") v fields,
  text_eq_iff k (lit "m"),
  text_eq_iff k (lit "c"),
  text_eq_iff k (lit "w"),
  text_eq_iff k (lit "r"),
  text_eq_iff (lit "m") k,
  text_eq_iff (lit "c") k,
  text_eq_iff (lit "w") k,
  text_eq_iff (lit "r") k,
)

size-read_segment :
    (fields : Dict Text) (s : Text) {next : Dict Text}
    → read_segment fields s ≡ ok next
    → size next ≡ size fields + (length s + 1)
unfolding read_segment
size-read_segment fields s h =
    let (key, value) = split_once equals s in
    ground (arith, length-split_once equals s 0, size-put key value fields)

size-read_segments :
    (fields : Dict Text) (segments : List Text) {last : Dict Text}
    → read_segments fields segments ≡ ok last
    → size last ≡ size fields + total segments
unfolding read_segments
size-read_segments fields [] h = ground arith
size-read_segments fields (s ∷ rest) h =
    let (next, one, more) = >>=-eq-ok (read_segment fields s) _ h in
    omega (arith, size-read_segment fields s one, size-read_segments next rest more)

required-inv :
    (fields : Dict Text) (k : Text) {v : Text} → required fields k ≡ ok v → get k fields ≡ some v
unfolding required
required-inv fields k h = ground arith

length-payload_text :
    (l : RouteLocator)
    → length (payload_text l)
      ≡ 16 + length l.module_id + length l.class_id + length l.work_id + length l.route_id
unfolding payload_text
length-payload_text l = omega (
  arith,
  length-append {0} l.module_id,
  length-append {0} l.class_id,
  length-append {0} l.work_id,
)

locator_of-inv :
    (fields : Dict Text) {l : RouteLocator}
    → locator_of fields ≡ ok l
    → IsLocator l × (size fields + 4 ≡ length (payload_text l))
unfolding locator_of make_module_work_ref make_route_locator
locator_of-inv fields {l} h =
    let (m, em, h1) = >>=-eq-ok (required fields (lit "m")) _ h in
    let (c, ec, h2) = >>=-eq-ok (required fields (lit "c")) _ h1 in
    let (w, ew, h3) = >>=-eq-ok (required fields (lit "w")) _ h2 in
    let (r, er, h4) = >>=-eq-ok (required fields (lit "r")) _ h3 in
    let (work, ework, h5) = >>=-eq-ok _ _ (reraise-eq-ok bad_locator _ h4) in
    let (same_work, v) = Decides-inv _ _ _ (validate_module_work_ref-Decides _) ework in
    let (same, v') = Decides-inv _ _ _ (validate_route_locator-Decides _) h5 in
    (
      rw same v',
      ground (
        arith,
        required-inv fields (lit "m") em,
        required-inv fields (lit "c") ec,
        required-inv fields (lit "w") ew,
        required-inv fields (lit "r") er,
        length-payload_text l,
      ),
    )

-- The segments behind the schema, of a payload that is parsed.
parse_segments-inv :
    (segments : List Text) {l : RouteLocator}
    → parse_segments segments ≡ ok l
    → IsLocator l × (total segments ≡ length (payload_text l) + 1)
unfolding parse_segments get
parse_segments-inv [] h = cc
parse_segments-inv (schema ∷ rest) h =
    let (_, tested, h1) = >>=-eq-ok (guard (text_eq schema pds2_schema) _) _ h in
    let (fields, read, located) = >>=-eq-ok (read_segments [] rest) _ h1 in
    let (v, sized) = locator_of-inv fields located in
    let named = (text_eq_iff schema pds2_schema).0 (guard-eq-ok _ _ tested) in
    (v, omega (arith, size-read_segments [] rest read, ap (λ (t : Text). length t) named, sized))

parse_pds2_payload-inv :
    (v : Value) {l : RouteLocator}
    → parse_pds2_payload v ≡ ok l
    → (s : Text) × (v ≡ str s) × IsPayload s × (parse_segments (split bar s) ≡ ok l)
unfolding parse_pds2_payload require_size_limit
parse_pds2_payload-inv (str s) h = (s, refl, ground arith, ground arith)
parse_pds2_payload-inv null h = cc
parse_pds2_payload-inv _ h = cc

ascii-append : (s t : Text) → is_ascii s ≡ true → is_ascii t ≡ true → is_ascii (s ++ t) ≡ true
ascii-append s t h k = rw (all-append, h) k

payload_text-IsAscii : (l : RouteLocator) → IsLocator l → is_ascii (payload_text l) ≡ true
unfolding payload_text
payload_text-IsAscii l v = ascii-append l.module_id _ (identifier-is_ascii l.module_id v.1.0.0) (
    ascii-append l.class_id _ (identifier-is_ascii l.class_id v.1.1) (
      ascii-append l.work_id _ (identifier-is_ascii l.work_id v.1.2)
        (identifier-is_ascii l.route_id v.2)))

serialize_pds2_payload-ok :
    (l : RouteLocator)
    → IsLocator l
    → IsPayload (payload_text l)
    → serialize_pds2_payload l ≡ ok (payload_text l)
unfolding serialize_pds2_payload require_size_limit
serialize_pds2_payload-ok l v p =
    rw (Decides-ok _ l _ (validate_route_locator-Decides l) v) (ground arith)

-- A value that is parsed is an ASCII text of at most 256 characters, in any order of its fields; the
-- locator is valid, its canonical payload can always be serialized, has as many characters as
-- the text that was parsed, and is parsed to the same locator.
pub parse_canonical :
    (v : Value) (l : RouteLocator)
    → parse_pds2_payload v ≡ ok l
    → IsLocator l
      × ((s : Text) × (v ≡ str s)
          × IsPayload s
          × ((q : Text) × (serialize_pds2_payload l ≡ ok q)
              × (length q ≡ length s)
              × (parse_pds2_payload (str q) ≡ ok l)))
parse_canonical v l h =
    let (s, same, p, parsed) = parse_pds2_payload-inv v h in
    let (valid, sized) = parse_segments-inv _ parsed in
    let as_long : length (payload_text l) ≡ length s = omega (arith, total-split bar s) in
    let p' : IsPayload (payload_text l) = record {
      ascii = payload_text-IsAscii l valid;
      fits = omega (arith, p.fits);
    } in
    let written = serialize_pds2_payload-ok l valid p' in
    (valid, (s, same, p, (payload_text l, written, as_long, parse-serialize l _ written)))
