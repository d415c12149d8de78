-- ===== src/Dns/Tests.antt =====
-- A name as a resolver asks for it.
use seclab_suite_protocol_si.Base.{
  All, List, Option, [], arith, err, length, none, ok, refl, some, unwrap_or, ℕ, ◌++◌, ◌+◌, ◌∷◌,
  ◌≡◌, ◌≢◌,
}
use seclab_suite_protocol_si.Base.Text.{Text, codes, join, to_ascii_lowercase, trim_end_matches}
use seclab_suite_protocol_si.Base.Text.Utf8.{utf8, utf8_char}
use seclab_suite_protocol_si.Dns.{
  SimDnsConfig, address_of, build_response, decode_name, out_of_fuel,
}
use seclab_suite_protocol_si.Dns.Answers.{
  Header, IsReply, Resolves, build_response-query, normalized, query,
}
use seclab_suite_protocol_si.Dns.Names.{
  IsLabel, decode_name-encode_labels, decode_name-ne-out_of_fuel, encode_labels,
}
use seclab_suite_protocol_si.Base.Bits.{Bytes}

abbrev labels : List Text
labels = codes "www" ∷ codes "lab" ∷ []

labels-IsLabel : All IsLabel labels
unfolding utf8 utf8_char
labels-IsLabel = ground arith

decode_name-encode_labels_example :
    decode_name
      ((7 ∷ 7 ∷ []) ++ (encode_labels labels ++ (0 ∷ 1 ∷ [])))
      (length {A = ℕ} (7 ∷ 7 ∷ []))
    ≡ ok (join (codes ".") labels, length {A = ℕ} (7 ∷ 7 ∷ []) + length (encode_labels labels))
decode_name-encode_labels_example =
    decode_name-encode_labels (7 ∷ 7 ∷ []) (0 ∷ 1 ∷ []) labels labels-IsLabel

decode_name-ne-out_of_fuel_example : decode_name (3 ∷ b'w' ∷ []) 0 ≢ err out_of_fuel
decode_name-ne-out_of_fuel_example = decode_name-ne-out_of_fuel (3 ∷ b'w' ∷ []) 0 (omega arith)

abbrev config : SimDnsConfig
config = record {
  records = (codes "WWW.lab.", codes "10.0.0.7") ∷ [];
  default_ipv4 = none;
  ttl = some 30;
}

abbrev header : Header
header = record {
  id_hi = 0xbe;
  id_lo = 0xef;
  flags_hi = 1;
  flags_lo = 0;
  counts = (0, 0, 0, 0, 0, 1);
}

build_response-query_example :
    (answer : Option Bytes) × (reply : Bytes) × Resolves config.records config.default_ipv4
      (normalized labels)
      answer
    × IsReply header labels 0 1 0 1 (unwrap_or config.ttl 60) answer reply
    × (build_response (query header labels 0 1 0 1 (9 ∷ [])) config ≡ ok (reply, normalized labels))
build_response-query_example =
    build_response-query config header labels 0 1 0 1 (9 ∷ []) labels-IsLabel

address_of_run : address_of config (normalized labels) ≡ some (10 ∷ 0 ∷ 0 ∷ 7 ∷ [])
unfolding address_of join trim_end_matches to_ascii_lowercase mathlib.Core.Option.bind
address_of_run = refl
