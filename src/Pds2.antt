-- ===== src/Pds2.antt =====
-- pds_core/pds2.py: strict parsing and canonical serialization of page locators.
pub mod Splitting
pub mod RoundTrip
pub mod Sound
use pds_core.Base.{
  ℕ, suc, ◌+◌, Bool, true, false, not, List, [], ◌∷◌, ◌++◌, Option, none, some, Text, lit, Outcome,
  ok, err, ◌>>=◌, ◌>>◌, guard, reraise, all, any, elem, length, ltb, leb, ◌==◌, text_eq,
  if◌then◌else◌,
}
use pds_core.Json.{Value, str}
use pds_core.Dict.{Dict, get, put, has}
use pds_core.Routing.{
  RoutingModelError, RouteLocator, pds2_schema, make_module_work_ref, make_route_locator,
  validate_route_locator,
}

pub data Pds2PayloadError : Type 0 where
  not_string empty_payload not_ascii unsupported_schema empty_segment equals_count :
      Pds2PayloadError
  empty_key empty_value unknown_field duplicate_field missing_fields : Pds2PayloadError
  too_long : ℕ → Pds2PayloadError
  bad_locator : RoutingModelError → Pds2PayloadError

abbrev pub Parsed : Type 0 → Type 0
Parsed A = Outcome Pds2PayloadError A

abbrev pub field_order : List Text
field_order = lit "m" ∷ lit "c" ∷ lit "w" ∷ lit "r" ∷ []

abbrev pub max_payload_bytes : ℕ
max_payload_bytes = 256

abbrev pub bar : ℕ
bar = b'|'

abbrev pub equals : ℕ
equals = b'='

cons_head : ℕ → List Text → List Text
cons_head c [] = (c ∷ []) ∷ []
cons_head c (s ∷ rest) = (c ∷ s) ∷ rest

-- `text.split(c)`
unfoldable pub split : ℕ → Text → List Text
unfolding cons_head
split c [] = [] ∷ []
split c (x ∷ s) = let rest = split c s in if x == c then [] ∷ rest else cons_head x rest

-- `text.count(c)`
unfoldable pub count : ℕ → Text → ℕ
count c [] = 0
count c (x ∷ s) = let n = count c s in if x == c then suc n else n

-- `text.split(c, 1)`, for a text that holds `c`
unfoldable pub split_once : ℕ → Text → Text × Text
split_once c [] = ([], [])
split_once c (x ∷ s) = let rest = split_once c s in if x == c then ([], s) else (x ∷ rest.0, rest.1)

-- `text.encode("ascii")` succeeds: one byte for each character.
abbrev pub is_ascii : Text → Bool
is_ascii = all (λ c. ltb c 128)

unfoldable pub require_size_limit : Text → Parsed (Unit {0})
require_size_limit s = if ltb max_payload_bytes (length s) then err (too_long (length s)) else ok tt

-- One round of the `for` loop over the segments.
unfoldable pub read_segment : Dict Text → Text → Parsed (Dict Text)
read_segment fields segment = do
  guard (not (text_eq segment [])) empty_segment
  guard (count equals segment == 1) equals_count
  let (key, value) = split_once equals segment
  guard (not (text_eq key [])) empty_key
  guard (not (text_eq value [])) empty_value
  guard (elem key field_order) unknown_field
  guard (not (has key fields)) duplicate_field
  ok (put key value fields)

unfoldable pub read_segments : Dict Text → List Text → Parsed (Dict Text)
read_segments fields [] = ok fields
read_segments fields (s ∷ rest) = do next ← read_segment fields s; read_segments next rest

-- `fields[key]`, once the missing keys are excluded
unfoldable pub required : Dict Text → Text → Parsed Text
required fields key = elim (get key fields) [ none ↦ err missing_fields | some v ↦ ok v ]

unfoldable pub locator_of : Dict Text → Parsed RouteLocator
locator_of fields = do
  m ← required fields (lit "m")
  c ← required fields (lit "c")
  w ← required fields (lit "w")
  r ← required fields (lit "r")
  reraise bad_locator (do work ← make_module_work_ref m c w; make_route_locator pds2_schema work r)

unfoldable pub parse_segments : List Text → Parsed RouteLocator
parse_segments [] = err unsupported_schema
parse_segments (schema ∷ segments) = do
  guard (text_eq schema pds2_schema) unsupported_schema
  fields ← read_segments [] segments
  locator_of fields

unfoldable pub parse_pds2_payload : Value → Parsed RouteLocator
parse_pds2_payload (str s) = do
  guard (not (text_eq s [])) empty_payload
  guard (is_ascii s) not_ascii
  require_size_limit s
  parse_segments (split bar s)
parse_pds2_payload _ = err not_string

unfoldable pub payload_text : RouteLocator → Text
payload_text l =
    lit "PDS2|m="
    ++ (l.module_id
        ++ (lit "|c=" ++ (l.class_id ++ (lit "|w=" ++ (l.work_id ++ (lit "|r=" ++ l.route_id))))))

unfoldable pub serialize_pds2_payload : RouteLocator → Parsed Text
serialize_pds2_payload locator = do
  l ← reraise bad_locator (validate_route_locator locator)
  let s = payload_text l
  guard (is_ascii s) not_ascii
  require_size_limit s
  ok s
