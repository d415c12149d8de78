-- ===== src/Snmp/Response/Decodes.antt =====
-- What a manager reads from a response.
use seclab_suite_protocol_si.Base.{
  >>=-eq-ok, arith, length, length-append, ok, ok-injective, subst, sym, ℕ, ◌++◌, ◌+◌, ◌<◌, ◌>>=◌,
  ◌^◌, ◌≡◌,
}
use seclab_suite_protocol_si.Base.Bits.{Bytes}
use seclab_suite_protocol_si.Snmp.Ber.{Ber, decode_integer, encode_integer, read_tlv, wrap}
use seclab_suite_protocol_si.Snmp.Ber.Lengths.{length-wrap, read_tlv-wrap, read_tlv-wrap_last}
use seclab_suite_protocol_si.Snmp.Ber.Integers.{read_tlv-encode_integer}
use seclab_suite_protocol_si.Snmp.Request.{SnmpRequest}
use seclab_suite_protocol_si.Snmp.Response.{build_response, encode_varbinds, response_pdu}
use seclab_suite_protocol_si.Snmp.Mib.{Values}

-- A response as a manager takes it apart.
pub record Reply : Type 0 where
  pub version : ℕ
  pub community : Bytes
  pub pdu_tag : ℕ
  pub request_id : ℕ
  pub error_status : ℕ
  pub error_index : ℕ
  pub varbinds : Bytes

-- A GetResponse with no error that answers a request with these bindings.
abbrev pub reply_of : SnmpRequest → Bytes → Reply
reply_of request varbinds = record {
  version = request.version;
  community = request.community;
  pdu_tag = 0xa2;
  request_id = request.request_id;
  error_status = 0;
  error_index = 0;
  varbinds = varbinds;
}

unfoldable pub read_reply_pdu : Bytes → Ber (ℕ × ℕ × ℕ × Bytes)
read_reply_pdu pdu = do
  (id, rest) ← read_tlv pdu
  (status, rest') ← read_tlv rest
  (index, rest'') ← read_tlv rest'
  (list, last) ← read_tlv rest''
  i ← decode_integer id.value
  s ← decode_integer status.value
  x ← decode_integer index.value
  ok (i, s, x, list.value)

unfoldable pub read_reply : Bytes → Ber Reply
unfolding read_reply_pdu
read_reply bytes = do
  (envelope, behind) ← read_tlv bytes
  (version, rest) ← read_tlv envelope.value
  (community, rest') ← read_tlv rest
  (pdu, last) ← read_tlv rest'
  v ← decode_integer version.value
  (i, s, x, list) ← read_reply_pdu pdu.value
  ok (record {
    version = v;
    community = community.value;
    pdu_tag = pdu.tag;
    request_id = i;
    error_status = s;
    error_index = x;
    varbinds = list;
  })

read_reply_pdu-response_pdu :
    (request : SnmpRequest) (varbinds : Bytes)
    → request.request_id < 2 ^ 64
    → length varbinds < 2 ^ 32
    → read_reply_pdu (response_pdu request varbinds) ≡ ok (request.request_id, 0, 0, varbinds)
unfolding read_reply_pdu response_pdu
read_reply_pdu-response_pdu request varbinds hi hv =
    let list = wrap 0x30 varbinds in
    let (c, e, d) =
      read_tlv-encode_integer request.request_id (encode_integer 0 ++ (encode_integer 0 ++ list))
        hi in
    let (c', e', d') = read_tlv-encode_integer 0 (encode_integer 0 ++ list) (omega arith) in
    let (c'', e'', d'') = read_tlv-encode_integer 0 list (omega arith) in
    rw (e, e', e'', read_tlv-wrap_last 0x30 varbinds hv, d, d', d'')

length-response_pdu :
    (request : SnmpRequest) (varbinds : Bytes)
    → length varbinds < length (response_pdu request varbinds)
unfolding response_pdu
length-response_pdu request varbinds =
    let list = wrap 0x30 varbinds in
    omega (
      arith,
      length-wrap 0x30 varbinds,
      length-append (encode_integer request.request_id)
          (encode_integer 0 ++ (encode_integer 0 ++ list)),
      length-append (encode_integer 0) (encode_integer 0 ++ list),
      length-append (encode_integer 0) list,
    )

-- A response of less than 2^32 bytes to a request whose version and id are below 2^64 reads back
-- as a GetResponse with the version, the community and the id of its request, no error, and the
-- bindings that were encoded for the request.
pub read_reply-build_response :
    (request : SnmpRequest) (values : Values) (response : Bytes)
    → request.version < 2 ^ 64
    → request.request_id < 2 ^ 64
    → length response < 2 ^ 32
    → build_response request values ≡ ok response
    → (varbinds : Bytes) × (encode_varbinds request values ≡ ok varbinds)
      × (read_reply response ≡ ok (reply_of request varbinds))
unfolding build_response read_reply
read_reply-build_response request values response hv hi short h =
    let (varbinds, e, f) = >>=-eq-ok (encode_varbinds request values) _ h in
    (
      varbinds,
      e,
      subst (λ r. read_reply r ≡ ok (reply_of request varbinds)) (ok-injective _ _ f)
          (reads varbinds (subst (λ r. length r < 2 ^ 32) (sym (ok-injective _ _ f)) short)),
    )
  where
    message : Bytes → Bytes
    message varbinds =
        encode_integer request.version
        ++ (wrap 0x04 request.community ++ wrap 0xa2 (response_pdu request varbinds))

    reads :
        (varbinds : Bytes)
        → length (wrap 0x30 (message varbinds)) < 2 ^ 32
        → read_reply (wrap 0x30 (message varbinds)) ≡ ok (reply_of request varbinds)
    reads varbinds k =
        let pdu = response_pdu request varbinds in
        let tail = wrap 0x04 request.community ++ wrap 0xa2 pdu in
        let m : length (message varbinds) < 2 ^ 32 =
          omega (arith, length-wrap 0x30 (message varbinds)) in
        let t : length (wrap 0x04 request.community) + length (wrap 0xa2 pdu) < 2 ^ 32 = omega (
          arith,
          length-append (encode_integer request.version) tail,
          length-append (wrap 0x04 request.community) (wrap 0xa2 pdu),
        ) in
        let (c, e, d) = read_tlv-encode_integer request.version tail hv in
        rw (
          read_tlv-wrap_last 0x30 (message varbinds) m,
          e,
          read_tlv-wrap 0x04 request.community (wrap 0xa2 pdu)
              (omega (arith, length-wrap 0x04 request.community)),
          read_tlv-wrap_last 0xa2 pdu (omega (arith, length-wrap 0xa2 pdu)),
          d,
          read_reply_pdu-response_pdu request varbinds hi
              (omega (arith, length-response_pdu request varbinds, length-wrap 0xa2 pdu)),
        )
