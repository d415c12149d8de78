-- ===== src/Snmp/Tests.antt =====
-- Runs of the SNMP agent on a probe of a scanner.
use seclab_suite_protocol_si.Base.{
  All, Ensures, List, [], arith, err, false, if◌then◌else◌, none, ok, refl, some, take, true,
  unwrap_or, ◌++◌, ◌||◌, ◌∷◌, ◌≡◌, ◌≢◌,
}
use seclab_suite_protocol_si.Base.Bits.{Bytes, IsBytes}
use seclab_suite_protocol_si.Base.Text.Utf8.{utf8, utf8_char}
use seclab_suite_protocol_si.Base.Text.{codes, text_eq}
use seclab_suite_protocol_si.Snmp.Ber.{
  Oid, decode_integer, decode_oid, encode_integer, encode_length, encode_oid, out_of_fuel, read_tlv,
  wrap,
}
use seclab_suite_protocol_si.Snmp.Ber.Oids.{IsEncodable, read_tlv-encode_oid}
use seclab_suite_protocol_si.Snmp.Request.{SnmpRequest, parse_request}
use seclab_suite_protocol_si.Snmp.Request.RoundTrip.{
  IsSendable, null_varbind, parse_request-request_message, request_message,
}
use seclab_suite_protocol_si.Snmp.Mib.{
  SimSnmpConfig, Values, build_values, get, insert, next_value, oid_lt, parse_oid_text,
}
use seclab_suite_protocol_si.Snmp.Mib.Order.{IsSorted, get-insert, insert-IsSorted}
use seclab_suite_protocol_si.Snmp.Mib.Build.{CustomEncodable, KeysEncodable}
use seclab_suite_protocol_si.Snmp.Response.{at_least_one, build_response, encode_varbinds}
use seclab_suite_protocol_si.Snmp.Response.Total.{
  build_response-parse_request, encode_entries, encode_varbinds_bulk,
}
use seclab_suite_protocol_si.Snmp.Response.Decodes.{read_reply, read_reply-build_response, reply_of}
use seclab_suite_protocol_si.Report.{Peer, Site}
use seclab_suite_protocol_si.Snmp.Ber.Integers.{read_tlv-encode_integer}
use seclab_suite_protocol_si.Snmp.Request.Sound.{IsRequest, parse_request-IsRequest}
use seclab_suite_protocol_si.Snmp.Request.Fuel.{parse_request-ne-out_of_fuel}
use seclab_suite_protocol_si.Snmp.Mib.Walk.{following, walk, walk-take}
use seclab_suite_protocol_si.Snmp.Server.{
  Arrival, datagram, receive_failed, runtime_of, start_snmp_simulation,
}
use seclab_suite_protocol_si.Snmp.Server.Survival.{
  EndsBySocket, IsByteArrival, start_snmp_simulation_survives,
}

abbrev system : Oid
system = 1 ∷ 3 ∷ 6 ∷ 1 ∷ 2 ∷ 1 ∷ 1 ∷ 1 ∷ 0 ∷ []

abbrev bulk_probe : SnmpRequest
bulk_probe = record {
  version = 1;
  community = codes "public";
  pdu_tag = 0xa5;
  request_id = 300;
  oids = system ∷ [];
  max_repetitions = 2;
}

abbrev bulk_message : Bytes
bulk_message =
    48 ∷ 39 ∷ 2 ∷ 1 ∷ 1 ∷ 4 ∷ 6 ∷ 112 ∷ 117 ∷ 98 ∷ 108 ∷ 105 ∷ 99 ∷ 165 ∷ 26 ∷ 2 ∷ 2 ∷ 1 ∷ 44 ∷ 2
    ∷ 1 ∷ 0 ∷ 2 ∷ 1 ∷ 2 ∷ 48 ∷ 14 ∷ 48 ∷ 12 ∷ 6 ∷ 8 ∷ 43 ∷ 6 ∷ 1 ∷ 2 ∷ 1 ∷ 1 ∷ 1 ∷ 0 ∷ 5 ∷ 0 ∷ []

abbrev entries : Values
entries = (1 ∷ 3 ∷ 6 ∷ 1 ∷ [], codes "a") ∷ (system, codes "b") ∷ (2 ∷ 5 ∷ [], codes "c") ∷ []

abbrev bulk_response : Bytes
bulk_response =
    48 ∷ 33 ∷ 2 ∷ 1 ∷ 1 ∷ 4 ∷ 6 ∷ 112 ∷ 117 ∷ 98 ∷ 108 ∷ 105 ∷ 99 ∷ 162 ∷ 20 ∷ 2 ∷ 2 ∷ 1 ∷ 44 ∷ 2
    ∷ 1 ∷ 0 ∷ 2 ∷ 1 ∷ 0 ∷ 48 ∷ 8 ∷ 48 ∷ 6 ∷ 6 ∷ 1 ∷ 85 ∷ 4 ∷ 1 ∷ 99 ∷ []

system-IsEncodable : IsEncodable system
unfolding IsEncodable
system-IsEncodable = ground arith

entries-KeysEncodable : KeysEncodable entries
unfolding IsEncodable
entries-KeysEncodable = ground arith

entries-IsSorted : IsSorted entries
unfolding oid_lt
entries-IsSorted = ground arith

bulk_probe-IsSendable : IsSendable bulk_probe
bulk_probe-IsSendable = record {
  version_is = omega arith;
  tag_is = refl;
  id_is = omega arith;
  some_oid = λ e. cc;
  few_oids = omega arith;
  sendable = ((system-IsEncodable, omega arith), tt);
}

bulk_message_is : request_message bulk_probe 2 ≡ ok bulk_message
unfolding request_message encode_oid wrap encode_length encode_integer null_varbind
bulk_message_is = refl

bulk_response_is : build_response bulk_probe entries ≡ ok bulk_response
unfolding build_response oid_lt encode_oid wrap encode_length encode_integer text_eq utf8 utf8_char
bulk_response_is = refl

bulk_message-IsBytes : IsBytes bulk_message
unfolding IsBytes
bulk_message-IsBytes = ground arith

parse_request-request_message_example : parse_request bulk_message ≡ ok bulk_probe
parse_request-request_message_example =
    parse_request-request_message bulk_probe 2 bulk_message bulk_probe-IsSendable (omega arith)
      bulk_message_is (omega arith)

read_reply-build_response_example :
    (varbinds : Bytes) × (encode_varbinds bulk_probe entries ≡ ok varbinds)
    × (read_reply bulk_response ≡ ok (reply_of bulk_probe varbinds))
read_reply-build_response_example =
    read_reply-build_response bulk_probe entries bulk_response (omega arith) (omega arith)
      (omega arith) bulk_response_is

build_response-parse_request_example :
    (response : Bytes) × (build_response bulk_probe entries ≡ ok response)
build_response-parse_request_example =
    build_response-parse_request bulk_message entries bulk_probe bulk_message-IsBytes
      entries-KeysEncodable parse_request-request_message_example

abbrev config : SimSnmpConfig
config = record {
  community = none;
  system_description = none;
  system_name = none;
  system_location = none;
  oids = some ((codes "1.3.6.1.9", codes "x") ∷ []);
}

abbrev site : Site
site = record { rule_id = codes "r"; node_id = codes "n"; port = 161 }

abbrev peer : Peer
peer = record { ip = codes "10.0.0.1"; port = 40000 }

config-CustomEncodable : CustomEncodable (unwrap_or config.oids [])
unfolding parse_oid_text IsEncodable
config-CustomEncodable = ground arith

config_values : (values : Values) × (build_values config ≡ ok values)
unfolding build_values parse_oid_text oid_lt
config_values = (_, refl)

-- The socket sends the first response, refuses the second, and never sees the third.
abbrev arrivals : List Arrival
arrivals =
    datagram peer bulk_message (λ response. true)
    ∷ datagram peer (bulk_message ++ (0 ∷ [])) (λ response. true)
    ∷ datagram peer bulk_message (λ response. false)
    ∷ receive_failed
    ∷ []

arrivals-IsByteArrival : All IsByteArrival arrivals
unfolding IsBytes
arrivals-IsByteArrival = ground arith

start_snmp_simulation_survives_example :
    EndsBySocket
      (runtime_of site (codes "main") config config_values.0)
      arrivals
      (start_snmp_simulation site (codes "main") config arrivals).failure
start_snmp_simulation_survives_example =
    start_snmp_simulation_survives site (codes "main") config config_values.0 arrivals
      config-CustomEncodable config_values.1 arrivals-IsByteArrival

parse_request-IsRequest_example : Ensures IsRequest (parse_request bulk_message)
parse_request-IsRequest_example = parse_request-IsRequest bulk_message bulk_message-IsBytes

parse_request-ne-out_of_fuel_example : parse_request bulk_message ≢ err out_of_fuel
parse_request-ne-out_of_fuel_example = parse_request-ne-out_of_fuel bulk_message

encode_varbinds_bulk_example :
    encode_varbinds bulk_probe entries
    ≡ encode_entries (take (at_least_one bulk_probe.max_repetitions) (following system entries)) []
encode_varbinds_bulk_example =
    encode_varbinds_bulk bulk_probe entries system [] entries-IsSorted refl refl

first_entry : next_value entries (1 ∷ []) ≡ some (1 ∷ 3 ∷ 6 ∷ 1 ∷ [], codes "a")
unfolding next_value oid_lt
first_entry = refl

walk-take_example : walk 2 entries (1 ∷ []) ≡ take 2 (following (1 ∷ []) entries)
walk-take_example = walk-take 2 entries (1 ∷ []) entries-IsSorted

insert-IsSorted_example : IsSorted (insert (1 ∷ 9 ∷ []) (codes "d") entries)
insert-IsSorted_example = insert-IsSorted (1 ∷ 9 ∷ []) (codes "d") entries entries-IsSorted

get-insert_example : get system (insert (1 ∷ 9 ∷ []) (codes "d") entries) ≡ (
    if oid_lt (1 ∷ 9 ∷ []) system || oid_lt system (1 ∷ 9 ∷ [])
    then get system entries
    else some (codes "d"))
get-insert_example = get-insert (1 ∷ 9 ∷ []) system (codes "d") entries

read_tlv-encode_oid_example :
    (encoded content : Bytes) × (encode_oid system ≡ ok encoded)
    × (read_tlv (encoded ++ (7 ∷ [])) ≡ ok (record { tag = 0x06; value = content }, 7 ∷ []))
    × (decode_oid content ≡ ok system)
read_tlv-encode_oid_example = read_tlv-encode_oid system (7 ∷ []) system-IsEncodable (omega arith)

decoded : decode_oid (43 ∷ 130 ∷ 44 ∷ []) ≡ ok (1 ∷ 3 ∷ 300 ∷ [])
unfolding decode_oid
decoded = refl

content-IsBytes : IsBytes (43 ∷ 130 ∷ 44 ∷ [])
unfolding IsBytes
content-IsBytes = ground arith

read_tlv-encode_integer_example :
    (content : Bytes) × (read_tlv (encode_integer 300 ++ (7 ∷ []))
      ≡ ok (record { tag = 0x02; value = content }, 7 ∷ []))
    × (decode_integer content ≡ ok 300)
read_tlv-encode_integer_example = read_tlv-encode_integer 300 (7 ∷ []) (omega arith)
