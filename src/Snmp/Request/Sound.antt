-- ===== src/Snmp/Request/Sound.antt =====
-- What holds of every request that `parse_request` accepts.
use seclab_suite_protocol_si.Base.{
  All, All-append, Bool-cases, Ensures, Ensures-bind, Ensures-of, List, [], arith, bail_if, inl,
  inr, is_empty, leb, length, length-append, ok, suc, zero, ℕ, ◌++◌, ◌+◌, ◌<◌, ◌>>=◌, ◌>>◌, ◌^◌,
  ◌∷◌, ◌≡◌, ◌≤◌, ◌⊎◌,
}
use seclab_suite_protocol_si.Base.Bits.{Bytes, IsBytes}
use seclab_suite_protocol_si.Snmp.Ber.{Oid, Tlv, decode_integer, decode_oid, no_varbind, read_tlv}
use seclab_suite_protocol_si.Snmp.Ber.Oids.{IsEncodable, decode_oid-IsEncodable}
use seclab_suite_protocol_si.Snmp.Request.{
  SnmpRequest, max_varbinds, parse_request, read_message, read_pdu, read_repetitions, read_varbind,
  varbind_loop,
}
use seclab_suite_protocol_si.Snmp.Ber.Lengths.{read_tlv-IsBytes}
use seclab_suite_protocol_si.Snmp.Ber.Integers.{decode_integer-IsU64}

pub record IsRequest (r : SnmpRequest) : Type 0 where
  pub version_is : r.version ≤ 1
  pub tag_is : (r.pdu_tag ≡ 0xa0) ⊎ (r.pdu_tag ≡ 0xa1) ⊎ (r.pdu_tag ≡ 0xa5)
  pub some_oid : 1 ≤ length r.oids
  pub few_oids : length r.oids ≤ 32
  pub encodable : All IsEncodable r.oids
  pub few_repetitions : r.max_repetitions ≤ 32
  pub id_is : r.request_id < 2 ^ 64

read_message_tags :
    (message : Bytes) (v : ℕ) (community : Bytes) (pdu : Tlv)
    → read_message message ≡ ok (v, community, pdu)
    → (v ≤ 1) × ((pdu.tag ≡ 0xa0) ⊎ (pdu.tag ≡ 0xa1) ⊎ (pdu.tag ≡ 0xa5))
unfolding read_message
read_message_tags message v community pdu h = ground arith

abbrev IsTlvOf : Bytes → Tlv × Bytes → Type 0
IsTlvOf input p = IsBytes p.0.value × IsBytes p.1 × (length p.1 + 2 ≤ length input)

tlv-IsTlvOf : (input : Bytes) → IsBytes input → Ensures (IsTlvOf input) (read_tlv input)
tlv-IsTlvOf input is =
    Ensures-of (IsTlvOf input) (read_tlv input) (λ p h. read_tlv-IsBytes input p h is)

oid-IsEncodable : (bytes : Bytes) → IsBytes bytes → Ensures IsEncodable (decode_oid bytes)
oid-IsEncodable bytes is =
    Ensures-of IsEncodable (decode_oid bytes) (λ c h. decode_oid-IsEncodable bytes c h is)

read_varbind_sound :
    (input : Bytes)
    → IsBytes input
    → Ensures
        (λ p. IsEncodable p.0 × IsBytes p.1 × (length p.1 < length input))
        (read_varbind input)
unfolding read_varbind
read_varbind_sound input is = grind (arith, tlv-IsTlvOf, oid-IsEncodable)

read_message_sound :
    (message : Bytes)
    → IsBytes message
    → Ensures
        (λ m.
          (m.0 ≤ 1) × IsBytes m.2.value × ((m.2.tag ≡ 0xa0) ⊎ (m.2.tag ≡ 0xa1) ⊎ (m.2.tag ≡ 0xa5)))
        (read_message message)
unfolding read_message
read_message_sound message is = grind (arith, tlv-IsTlvOf)

read_pdu_sound :
    (pdu : Bytes)
    → IsBytes pdu
    → Ensures (λ p. IsBytes p.0 × IsBytes p.1 × IsBytes p.2) (read_pdu pdu)
unfolding read_pdu
read_pdu_sound pdu is = grind (arith, tlv-IsTlvOf)

-- The identifiers that the loop has found.
abbrev AreFound : List Oid → Type 0
AreFound oids = All IsEncodable oids × (length oids ≤ 32)

varbind_loop_sound :
    (fuel : ℕ) (oids : List Oid) (bytes : Bytes)
    → IsBytes bytes
    → AreFound oids
    → Ensures AreFound (varbind_loop fuel oids bytes)
unfolding varbind_loop
varbind_loop_sound fuel oids [] is found = found
varbind_loop_sound zero oids (b ∷ bytes) is found = tt
varbind_loop_sound (suc fuel) oids (b ∷ bytes) is found =
    elim (Bool-cases (leb max_varbinds (length oids))) [
      | inl e ↦ rw e tt
      | inr e ↦ rw e (
          Ensures-bind _ AreFound (read_varbind (b ∷ bytes)) _ (read_varbind_sound (b ∷ bytes) is)
            (λ p h. varbind_loop_sound fuel (oids ++ (p.0 ∷ [])) p.1 h.1 (
              All-append IsEncodable oids (p.0 ∷ []) found.0 (h.0, tt),
              ground (arith, length-append oids (p.0 ∷ [])),
            )))
    ]

read_repetitions_sound :
    (tag : ℕ) (control : Bytes) → Ensures (λ r. r ≤ 32) (read_repetitions tag control)
unfolding read_repetitions
read_repetitions_sound tag control = ground arith

decode_integer_sound :
    (bytes : Bytes) → IsBytes bytes → Ensures (λ v. v < 2 ^ 64) (decode_integer bytes)
decode_integer_sound bytes is =
    Ensures-of (λ v. v < 2 ^ 64) (decode_integer bytes) (λ v h. decode_integer-IsU64 bytes v h is)

-- The last two steps of `parse_request`.
finish_sound :
    (version tag repetitions : ℕ) (community id : Bytes) (oids : List Oid)
    → version ≤ 1
    → (tag ≡ 0xa0) ⊎ (tag ≡ 0xa1) ⊎ (tag ≡ 0xa5)
    → repetitions ≤ 32
    → IsBytes id
    → AreFound oids
    → Ensures IsRequest (
        bail_if (is_empty oids) no_varbind
        >> (decode_integer id >>= λ i. ok (record {
          version = version;
          community = community;
          pdu_tag = tag;
          request_id = i;
          max_repetitions = repetitions;
          oids = oids;
        })))
finish_sound version tag repetitions community id [] hv ht hr hi ho = tt
finish_sound version tag repetitions community id (o ∷ oids) hv ht hr hi ho =
    Ensures-bind _ IsRequest (decode_integer id) _ (decode_integer_sound id hi) λ i h. record {
      version_is = hv;
      tag_is = ht;
      some_oid = omega arith;
      few_oids = ho.1;
      encodable = ho.0;
      few_repetitions = hr;
      id_is = h;
    }

-- Every request that is accepted from a message of bytes is a request for at least one and at most
-- 32 encodable identifiers, of version 0 or 1, with a GET, GETNEXT or GETBULK tag, at most 32
-- repetitions and an `i64` request id.
pub parse_request-IsRequest :
    (message : Bytes) → IsBytes message → Ensures IsRequest (parse_request message)
unfolding parse_request
parse_request-IsRequest message is =
    Ensures-bind _ IsRequest (read_message message) _ (read_message_sound message is) λ m hm.
      Ensures-bind _ IsRequest (read_pdu m.2.value) _ (read_pdu_sound m.2.value hm.1) λ p hp.
        Ensures-bind _ IsRequest (read_repetitions m.2.tag p.1) _
          (read_repetitions_sound m.2.tag p.1)
          λ r hr.
            Ensures-bind _ IsRequest (varbind_loop (length p.2) [] p.2) _
              (varbind_loop_sound (length p.2) [] p.2 hp.2 (tt, omega arith))
              λ oids ho. finish_sound m.0 m.2.tag r m.1 p.0 oids hm.0 hm.2 hr hp.0 ho
