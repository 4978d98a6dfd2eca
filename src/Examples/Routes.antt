-- ===== src/Examples/Routes.antt =====
-- Identifiers, routes and payloads.
use pds_core.Base.{◌≡◌, refl, Text, lit, ok, text_eq, strip, lower}
use pds_core.Json.{str, item, exact_mapping}
use pds_core.Identifiers.{validate_identifier, identifier_match}
use pds_core.Routing.{
  RouteLocator, validate_route_locator, validate_module_work_ref, route_identifier,
  lowercase_identifier, make_module_work_ref, make_route_locator,
}
use pds_core.Dict.{get, put}
use pds_core.Pds2.{
  split, count, split_once, require_size_limit, read_segment, read_segments, required, locator_of,
  parse_segments, parse_pds2_payload, payload_text, serialize_pds2_payload,
}
use pds_core.Pds2.RoundTrip.{parse-serialize}
use pds_core.Pds2.Sound.{parse_canonical}
use pds_core.Routing.Laws.{IsLocator}

abbrev locator : RouteLocator
locator = record {
  schema = lit "PDS2";
  work = record { module_id = lit "m1"; class_id = lit "c1"; work_id = lit "w1" };
  route_id = lit "r1";
}

abbrev payload : Text
payload = lit "PDS2|m=m1|c=c1|w=w1|r=r1"

running : Unit {0}
unfolding split count split_once require_size_limit read_segment read_segments required locator_of
    parse_segments parse_pds2_payload payload_text serialize_pds2_payload get put
    validate_route_locator validate_module_work_ref route_identifier lowercase_identifier
    make_module_work_ref make_route_locator validate_identifier identifier_match item exact_mapping
    text_eq strip lower
running = tt

serialized : serialize_pds2_payload locator ≡ ok payload
unfolding running
serialized = refl

parse-serialize_example : parse_pds2_payload (str payload) ≡ ok locator
parse-serialize_example = parse-serialize locator payload serialized

-- The fields of the text stand in another order.
abbrev shuffled : Text
shuffled = lit "PDS2|r=r1|w=w1|m=m1|c=c1"

shuffled_parsed : parse_pds2_payload (str shuffled) ≡ ok locator
unfolding running
shuffled_parsed = refl

parse_canonical_example : IsLocator locator
parse_canonical_example = (parse_canonical (str shuffled) locator shuffled_parsed).0

accepted : validate_route_locator locator ≡ ok locator
unfolding running
accepted = refl
