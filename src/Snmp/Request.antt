-- ===== src/Snmp/Request.antt =====
-- `parse_request`, simulation/snmp.rs lines 103 to 167, and the request that its tests build.
pub mod Sound
pub mod Fuel
pub mod RoundTrip
use seclab_suite_protocol_si.Base.{
  Bool, List, [], bail_if, err, if◌then◌else◌, is_empty, leb, length, ltb, min, not, ok, suc, zero,
  ℕ, ◌++◌, ◌==◌, ◌>>=◌, ◌>>◌, ◌^◌, ◌||◌, ◌∷◌,
}
use seclab_suite_protocol_si.Base.Bits.{Bytes}
use seclab_suite_protocol_si.Snmp.Ber.{
  Ber, Oid, Tlv, decode_integer, decode_oid, invalid_pdu, no_varbind, not_one_sequence, out_of_fuel,
  read_tlv, too_many_varbinds, unsupported_structure, unsupported_version, varbind_not_sequence,
  varbind_without_oid,
}

pub record SnmpRequest : Type 0 where
  pub version : ℕ
  pub community : Bytes
  pub pdu_tag : ℕ
  pub request_id : ℕ
  pub max_repetitions : ℕ
  pub oids : List Oid

abbrev pub max_varbinds : ℕ
max_varbinds = 32

-- One turn of the loop over the variable bindings: the identifier, and the input behind the binding.
unfoldable pub read_varbind : Bytes → Ber (Oid × Bytes)
read_varbind input = do
  (varbind, rest) ← read_tlv input
  bail_if (not (varbind.tag == 0x30)) varbind_not_sequence
  (oid, behind) ← read_tlv varbind.value
  (value, last) ← read_tlv behind
  bail_if (not (oid.tag == 0x06)) varbind_without_oid
  components ← decode_oid oid.value
  ok (components, rest)

-- The `while` loop. Each turn takes two bytes at least, so the number of bytes is enough fuel.
unfoldable pub varbind_loop : ℕ → List Oid → Bytes → Ber (List Oid)
unfolding read_varbind
varbind_loop fuel oids [] = ok oids
varbind_loop zero oids (b ∷ bytes) = err out_of_fuel
varbind_loop (suc fuel) oids (b ∷ bytes) = do
  bail_if (leb max_varbinds (length oids)) too_many_varbinds
  (oid, rest) ← read_varbind (b ∷ bytes)
  varbind_loop fuel (oids ++ (oid ∷ [])) rest

-- `usize::try_from(i.max(0))?.min(MAX_VARBINDS)` on the bit pattern of `i`
abbrev pub clamp_repetitions : ℕ → ℕ
clamp_repetitions i = min (if ltb i (2 ^ 63) then i else 0) max_varbinds

unfoldable pub read_repetitions : ℕ → Bytes → Ber ℕ
read_repetitions pdu_tag control =
    if pdu_tag == 0xa5 then (do i ← decode_integer control; ok (clamp_repetitions i)) else ok 1

abbrev pub is_request_tag : ℕ → Bool
is_request_tag tag = tag == 0xa0 || tag == 0xa1 || tag == 0xa5

-- The version, the community and the PDU of the envelope.
unfoldable pub read_message : Bytes → Ber (ℕ × Bytes × Tlv)
read_message message = do
  (envelope, behind) ← read_tlv message
  bail_if (not (envelope.tag == 0x30) || not (is_empty behind)) not_one_sequence
  (version, rest) ← read_tlv envelope.value
  (community, rest') ← read_tlv rest
  (pdu, last) ← read_tlv rest'
  bail_if (not (version.tag == 0x02) || not (community.tag == 0x04) || not (is_request_tag pdu.tag))
      unsupported_structure
  v ← decode_integer version.value
  bail_if (not (v == 0 || v == 1)) unsupported_version
  ok (v, community.value, pdu)

-- The four values of a PDU.
unfoldable pub read_pdu : Bytes → Ber (Bytes × Bytes × Bytes)
read_pdu pdu = do
  (request_id, rest) ← read_tlv pdu
  (first_control, rest') ← read_tlv rest
  (second_control, rest'') ← read_tlv rest'
  (varbind_list, last) ← read_tlv rest''
  bail_if
      (not (request_id.tag == 0x02)
        || not (first_control.tag == 0x02)
        || not (second_control.tag == 0x02)
        || not (varbind_list.tag == 0x30))
      invalid_pdu
  ok (request_id.value, second_control.value, varbind_list.value)

unfoldable pub parse_request : Bytes → Ber SnmpRequest
unfolding read_message read_pdu read_repetitions varbind_loop
parse_request message = do
  (version, community, pdu) ← read_message message
  (request_id, second_control, varbind_list) ← read_pdu pdu.value
  repetitions ← read_repetitions pdu.tag second_control
  oids ← varbind_loop (length varbind_list) [] varbind_list
  bail_if (is_empty oids) no_varbind
  id ← decode_integer request_id
  ok (record {
    version = version;
    community = community;
    pdu_tag = pdu.tag;
    request_id = id;
    max_repetitions = repetitions;
    oids = oids;
  })
