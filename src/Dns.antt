-- ===== src/Dns.antt =====
-- The answers of the DNS simulation, simulation/dns.rs lines 148 to 232. The records, a BTreeMap, are
-- the list of its entries in order.
pub mod Names
pub mod Answers
mod Tests
use mathlib.Core.Option
use seclab_suite_protocol_si.Base.{
  Bool, List, Option, Result, [], bail_if, context, drop, err, false, get_elem?, if◌then◌else◌,
  is_empty, length, ltb, map, none, not, ok, some, suc, take, true, unwrap_or, zero, ℕ, ◌&&◌, ◌*◌,
  ◌++◌, ◌+◌, ◌-◌, ◌==◌, ◌>>=◌, ◌>>◌, ◌||◌, ◌∷◌,
}
use seclab_suite_protocol_si.Base.Bits.{Bytes, be_bytes}
use seclab_suite_protocol_si.Base.Text.{
  Text, codes, eq_ignore_ascii_case, join, parse_digits, split, to_ascii_lowercase, trim,
  trim_end_matches,
}
use seclab_suite_protocol_si.Base.Text.Utf8.{from_utf8}

-- The errors of `build_response`. `panicked` is an index out of bounds, `out_of_fuel` a loop of the
-- model that was cut off.
pub data DnsError : Type 0 where
  short_header not_one_question question_truncated name_truncated invalid_label label_not_text :
      DnsError
  empty_record_name invalid_record invalid_default : DnsError
  panicked out_of_fuel : DnsError

pub record SimDnsConfig : Type 0 where
  pub records : List (Text × Text)
  pub default_ipv4 : Option Text
  pub ttl : Option ℕ

-- A part of `Ipv4Addr::from_str`: one to three digits below 256, with no zero in front.
abbrev octet : Text → Option ℕ
octet [] = none
octet (c ∷ []) = parse_digits 256 0 (c ∷ [])
octet (c ∷ d ∷ t) = if c == b'0' then none else parse_digits 256 0 (c ∷ d ∷ t)

abbrev four_octets : List (Option ℕ) → Option Bytes
four_octets (some a ∷ some b ∷ some c ∷ some d ∷ []) = some (a ∷ b ∷ c ∷ d ∷ [])
four_octets _ = none

-- `parse::<Ipv4Addr>`, and the octets of the address.
unfoldable pub parse_ipv4 : Text → Option Bytes
unfolding split parse_digits
parse_ipv4 address = four_octets (map octet (split (λ c. c == b'.') address))

unfoldable pub validate_records : List (Text × Text) → Result DnsError (Unit {0})
unfolding trim parse_ipv4
validate_records [] = ok tt
validate_records ((name, address) ∷ records) = do
  bail_if (is_empty (trim name)) empty_record_name
  _ ← context (parse_ipv4 address) invalid_record
  validate_records records

abbrev validate_default : Option Text → Result DnsError (Unit {0})
validate_default none = ok tt
validate_default (some address) = do _ ← context (parse_ipv4 address) invalid_default; ok tt

unfoldable pub validate_config : SimDnsConfig → Result DnsError (Unit {0})
unfolding validate_records
validate_config config = do
  _ ← validate_records config.records
  validate_default config.default_ipv4

-- The loop over the labels. Each turn moves the offset on, so the length of the message is enough fuel.
unfoldable pub name_loop : ℕ → Bytes → ℕ → List Text → Result DnsError (List Text × ℕ)
unfolding from_utf8
name_loop zero message offset labels = err out_of_fuel
name_loop (suc fuel) message offset labels = do
  size ← context (get_elem? message offset) name_truncated
  if size == 0 then ok (labels, offset + 1) else do
    bail_if (ltb 63 size || ltb (length message) (offset + 1 + size)) invalid_label
    label ← context (from_utf8 (take size (drop (offset + 1) message))) label_not_text
    name_loop fuel message (offset + 1 + size) (labels ++ (label ∷ []))

unfoldable pub decode_name : Bytes → ℕ → Result DnsError (Text × ℕ)
unfolding name_loop join
decode_name message offset = do
  (labels, after) ← name_loop (suc (length message)) message offset []
  ok (join (codes ".") labels, after)

abbrev pub is_dot : ℕ → Bool
is_dot c = c == b'.'

-- The address of the first record with the name.
abbrev record_address : List (Text × Text) → Text → Option Text
record_address [] normalized = none
record_address ((name, address) ∷ records) normalized =
    let rest = record_address records normalized in
    if eq_ignore_ascii_case (trim_end_matches is_dot name) normalized then some address else rest

abbrev or_else : Option Text → Option Text → Option Text
or_else none other = other
or_else (some a) other = some a

-- The address that a name is answered with.
unfoldable pub address_of : SimDnsConfig → Text → Option Bytes
unfolding eq_ignore_ascii_case trim_end_matches parse_ipv4
address_of config normalized =
    Option.bind (or_else (record_address config.records normalized) config.default_ipv4) parse_ipv4

-- `query[i]`
abbrev pub index : Bytes → ℕ → Result DnsError ℕ
index query i = context (get_elem? query i) panicked

-- `u16::from_be_bytes([query[i], query[i + 1]])`
abbrev pub two_bytes : Bytes → ℕ → Result DnsError ℕ
two_bytes query i = do hi ← index query i; lo ← index query (i + 1); ok (hi * 256 + lo)

abbrev pub is_some : Option Bytes → Bool
is_some none = false
is_some (some address) = true

abbrev pub response_flags : Option Bytes → Bytes
response_flags address = if is_some address then 0x81 ∷ 0x80 ∷ [] else 0x81 ∷ 0x83 ∷ []

-- The answer record, for a query of type A and class IN.
abbrev pub answer_record : Bool → ℕ → Option Bytes → Bytes
answer_record asked ttl none = []
answer_record asked ttl (some address) =
    if asked
    then (0xc0 ∷ 0x0c ∷ 0x00 ∷ 0x01 ∷ 0x00 ∷ 0x01 ∷ [])
      ++ (be_bytes 4 ttl ++ (0x00 ∷ 0x04 ∷ address))
    else []

abbrev pub response_bytes : Bytes → Bytes → Bool → ℕ → Option Bytes → Bytes
response_bytes id question asked ttl address =
    id
    ++ (response_flags address
        ++ ((0x00
              ∷ 0x01
              ∷ 0x00
              ∷ (if asked && is_some address then 0x01 else 0x00)
              ∷ 0x00
              ∷ 0x00
              ∷ 0x00
              ∷ 0x00
              ∷ [])
            ++ (question ++ answer_record asked ttl address)))

unfoldable pub build_response : Bytes → SimDnsConfig → Result DnsError (Bytes × Text)
unfolding decode_name address_of to_ascii_lowercase trim_end_matches
build_response query config = do
  bail_if (ltb (length query) 12) short_header
  question_count ← two_bytes query 4
  bail_if (not (question_count == 1)) not_one_question
  (name, name_end) ← decode_name query 12
  bail_if (ltb (length query) (name_end + 4)) question_truncated
  query_type ← two_bytes query name_end
  query_class ← two_bytes query (name_end + 2)
  let normalized = to_ascii_lowercase (trim_end_matches is_dot name)
  let asked = query_type == 1 && query_class == 1
  ok (
    response_bytes (take 2 query) (take (name_end + 4 - 12) (drop 12 query)) asked
        (unwrap_or config.ttl 60) (address_of config normalized),
    normalized,
  )
