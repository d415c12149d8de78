-- ===== src/Snmp/Request/RoundTrip.antt =====
-- A manager's request, encoded, is parsed to the request.
use seclab_suite_protocol_si.Base.{
  >>=-eq-ok, All, List, [], ap, append-nil, append_assoc, arith, false, if◌then◌else◌, is_empty,
  length, length-append, ok, ok-injective, refl, subst, suc, sym, true, zero, ℕ, ◌++◌, ◌+◌, ◌<◌,
  ◌==◌, ◌>>=◌, ◌^◌, ◌∙◌, ◌∷◌, ◌≡◌, ◌≢◌, ◌≤◌,
}
use seclab_suite_protocol_si.Base.Bits.{Bytes}
use seclab_suite_protocol_si.Snmp.Ber.{
  Ber, Oid, decode_integer, encode_integer, encode_oid, read_tlv, wrap,
}
use seclab_suite_protocol_si.Snmp.Ber.Lengths.{length-wrap, read_tlv-wrap, read_tlv-wrap_last}
use seclab_suite_protocol_si.Snmp.Ber.Oids.{IsEncodable, read_tlv-encode_oid}
use seclab_suite_protocol_si.Snmp.Request.{
  SnmpRequest, clamp_repetitions, is_request_tag, parse_request, read_message, read_pdu,
  read_repetitions, read_varbind, varbind_loop,
}
use seclab_suite_protocol_si.Snmp.Ber.Integers.{read_tlv-encode_integer}

-- An identifier with the value null, as a manager writes it in a request.
unfoldable pub null_varbind : Bytes → Bytes
null_varbind encoded = wrap 0x30 (encoded ++ wrap 0x05 [])

-- The bindings of a list of identifiers.
unfoldable pub null_varbinds : List Oid → Ber Bytes
null_varbinds [] = ok []
null_varbinds (oid ∷ oids) = do
  encoded ← encode_oid oid
  rest ← null_varbinds oids
  ok (null_varbind encoded ++ rest)

-- The content of a request's PDU. The controls are error status and index, or non-repeaters and
-- repetitions.
unfoldable pub pdu_content : SnmpRequest → ℕ → Bytes → Bytes
pdu_content request control varbinds =
    encode_integer request.request_id
    ++ (encode_integer 0 ++ (encode_integer control ++ wrap 0x30 varbinds))

unfoldable pub whole_message : SnmpRequest → Bytes → Bytes
whole_message request pdu =
    wrap 0x30
      (encode_integer request.version ++ (wrap 0x04 request.community ++ wrap request.pdu_tag pdu))

-- A request as a manager encodes it: `get_request` of the tests, for any tag and identifiers.
unfoldable pub request_message : SnmpRequest → ℕ → Ber Bytes
unfolding null_varbinds pdu_content whole_message
request_message request control = do
  varbinds ← null_varbinds request.oids
  ok (whole_message request (pdu_content request control varbinds))

read_varbind-null_varbind :
    (oid : Oid) (encoded rest : Bytes)
    → IsEncodable oid
    → length oid < 2 ^ 29
    → encode_oid oid ≡ ok encoded
    → length (encoded ++ wrap 0x05 []) < 2 ^ 32
    → read_varbind (null_varbind encoded ++ rest) ≡ ok (oid, rest)
unfolding read_varbind null_varbind
read_varbind-null_varbind oid encoded rest h len e short =
    let (bytes, content, f, r, d) = read_tlv-encode_oid oid (wrap 0x05 []) h len in
    let same : bytes ≡ encoded = ok-injective _ _ (sym f ∙ e) in
    rw (
      read_tlv-wrap 0x30 (encoded ++ wrap 0x05 []) rest short,
      subst
          (λ b.
            read_tlv (b ++ wrap 0x05 [])
            ≡ ok (record { tag = 0x06; value = content }, wrap 0x05 []))
          same r,
      read_tlv-wrap_last 0x05 [] (omega arith),
      d,
    )

varbind_loop_step :
    (fuel : ℕ) (found : List Oid) (input : Bytes) (oid : Oid) (rest : Bytes)
    → length found < 32
    → read_varbind input ≡ ok (oid, rest)
    → varbind_loop (suc fuel) found input ≡ varbind_loop fuel (found ++ (oid ∷ [])) rest
unfolding varbind_loop
varbind_loop_step fuel found [] oid rest h e = unfold read_varbind read_tlv in cc
varbind_loop_step fuel found (b ∷ bytes) oid rest h e = rw e (ground arith)

-- Identifiers that a manager can send.
abbrev pub AreSendable : List Oid → Type 0
AreSendable = All (λ oid. IsEncodable oid × (length oid < 2 ^ 29))

length-null_varbind :
    (encoded rest : Bytes)
    → length (encoded ++ wrap 0x05 []) + length rest < length (null_varbind encoded ++ rest)
unfolding null_varbind
length-null_varbind encoded rest = omega (
  arith,
  length-append (wrap 0x30 (encoded ++ wrap 0x05 [])) rest,
  length-wrap 0x30 (encoded ++ wrap 0x05 []),
)

null_varbinds-nil : (bytes : Bytes) → null_varbinds [] ≡ ok bytes → [] ≡ bytes
unfolding null_varbinds
null_varbinds-nil bytes e = ok-injective [] bytes e

null_varbinds-cons :
    (oid : Oid) (oids : List Oid) (bytes : Bytes)
    → null_varbinds (oid ∷ oids) ≡ ok bytes
    → (encoded rest : Bytes) × (encode_oid oid ≡ ok encoded)
      × (null_varbinds oids ≡ ok rest)
      × (null_varbind encoded ++ rest ≡ bytes)
unfolding null_varbinds
null_varbinds-cons oid oids bytes e =
    let (encoded, ee, k) = >>=-eq-ok (encode_oid oid) _ e in
    let (rest, er, kk) = >>=-eq-ok (null_varbinds oids) _ k in
    (encoded, rest, ee, er, ok-injective _ _ kk)

varbind_loop-null_varbinds :
    (oids found : List Oid) (fuel : ℕ) (bytes : Bytes)
    → null_varbinds oids ≡ ok bytes
    → AreSendable oids
    → length found + length oids ≤ 32
    → length bytes < 2 ^ 32
    → length bytes ≤ fuel
    → varbind_loop fuel found bytes ≡ ok (found ++ oids)
varbind_loop-null_varbinds [] found fuel bytes e s few short hf =
    rw (← null_varbinds-nil bytes e, append-nil found) (unfold varbind_loop in refl)
varbind_loop-null_varbinds (oid ∷ oids) found zero bytes e s few short hf =
    let (encoded, rest, ee, er, same) = null_varbinds-cons oid oids bytes e in
    absurd (omega (arith, length-null_varbind encoded rest, ap length same))
varbind_loop-null_varbinds (oid ∷ oids) found (suc fuel) bytes e s few short hf =
    let (encoded, rest, ee, er, same) = null_varbinds-cons oid oids bytes e in
    let longer = length-null_varbind encoded rest in
    let total : length (null_varbind encoded ++ rest) ≡ length bytes = ap length same in
    subst (λ b. varbind_loop (suc fuel) found b ≡ ok (found ++ (oid ∷ oids))) same
      (varbind_loop_step fuel found (null_varbind encoded ++ rest) oid rest (omega arith)
          (read_varbind-null_varbind oid encoded rest s.0.0 s.0.1 ee (omega arith))
        ∙ varbind_loop-null_varbinds oids (found ++ (oid ∷ [])) fuel rest er s.1
            (omega (arith, length-append found (oid ∷ []))) (omega arith) (omega arith)
        ∙ ap ok (append_assoc found (oid ∷ []) oids))

read_pdu-pdu_content :
    (request : SnmpRequest) (control : ℕ) (varbinds : Bytes)
    → request.request_id < 2 ^ 64
    → control < 2 ^ 64
    → length varbinds < 2 ^ 32
    → (id second : Bytes) × (read_pdu (pdu_content request control varbinds)
        ≡ ok (id, second, varbinds))
      × (decode_integer id ≡ ok request.request_id)
      × (decode_integer second ≡ ok control)
unfolding read_pdu pdu_content
read_pdu-pdu_content request control varbinds hi hc hv =
    let list = wrap 0x30 varbinds in
    let (c, e, d) =
      read_tlv-encode_integer request.request_id
        (encode_integer 0 ++ (encode_integer control ++ list)) hi in
    let (c', e', d') = read_tlv-encode_integer 0 (encode_integer control ++ list) (omega arith) in
    let (c'', e'', d'') = read_tlv-encode_integer control list hc in
    (c, c'', rw (e, e', e'', read_tlv-wrap_last 0x30 varbinds hv), d, d'')

read_message-whole_message :
    (request : SnmpRequest) (pdu : Bytes)
    → request.version ≤ 1
    → is_request_tag request.pdu_tag ≡ true
    → length (whole_message request pdu) < 2 ^ 32
    → read_message (whole_message request pdu)
      ≡ ok (request.version, request.community, record { tag = request.pdu_tag; value = pdu })
unfolding read_message whole_message
read_message-whole_message request pdu hv ht k =
    let tail = wrap 0x04 request.community ++ wrap request.pdu_tag pdu in
    let message = encode_integer request.version ++ tail in
    let m : length message < 2 ^ 32 = omega (arith, length-wrap 0x30 message) in
    let t : length (wrap 0x04 request.community) + length (wrap request.pdu_tag pdu) < 2 ^ 32 =
      omega (
        arith,
        length-append (encode_integer request.version) tail,
        length-append (wrap 0x04 request.community) (wrap request.pdu_tag pdu),
      ) in
    let (c, e, d) = read_tlv-encode_integer request.version tail (omega arith) in
    rw
      (
        read_tlv-wrap_last 0x30 message m,
        e,
        read_tlv-wrap 0x04 request.community (wrap request.pdu_tag pdu)
            (omega (arith, length-wrap 0x04 request.community)),
        read_tlv-wrap_last request.pdu_tag pdu (omega (arith, length-wrap request.pdu_tag pdu)),
        ht,
        d,
      )
      (ground arith)

length-pdu_content :
    (request : SnmpRequest) (control : ℕ) (varbinds : Bytes)
    → length varbinds < length (pdu_content request control varbinds)
unfolding pdu_content
length-pdu_content request control varbinds =
    let list = wrap 0x30 varbinds in
    omega (
      arith,
      length-wrap 0x30 varbinds,
      length-append (encode_integer request.request_id)
          (encode_integer 0 ++ (encode_integer control ++ list)),
      length-append (encode_integer 0) (encode_integer control ++ list),
      length-append (encode_integer control) list,
    )

length-whole_message :
    (request : SnmpRequest) (pdu : Bytes) → length pdu < length (whole_message request pdu)
unfolding whole_message
length-whole_message request pdu =
    let tail = wrap 0x04 request.community ++ wrap request.pdu_tag pdu in
    omega (
      arith,
      length-wrap 0x30 (encode_integer request.version ++ tail),
      length-append (encode_integer request.version) tail,
      length-append (wrap 0x04 request.community) (wrap request.pdu_tag pdu),
      length-wrap request.pdu_tag pdu,
    )

-- The requests that a manager can send.
pub record IsSendable (request : SnmpRequest) : Type 0 where
  pub version_is : request.version ≤ 1
  pub tag_is : is_request_tag request.pdu_tag ≡ true
  pub id_is : request.request_id < 2 ^ 64
  pub some_oid : request.oids ≢ []
  pub few_oids : length request.oids ≤ 32
  pub sendable : AreSendable request.oids

-- The repetitions that the agent takes from the second control.
abbrev pub repetitions_of : SnmpRequest → ℕ → ℕ
repetitions_of request control = if request.pdu_tag == 0xa5 then clamp_repetitions control else 1

read_repetitions_of :
    (request : SnmpRequest) (second : Bytes) (control : ℕ)
    → decode_integer second ≡ ok control
    → read_repetitions request.pdu_tag second ≡ ok (repetitions_of request control)
unfolding read_repetitions
read_repetitions_of request second control e = ground arith

not-is_empty : (oids : List Oid) → oids ≢ [] → is_empty oids ≡ false
not-is_empty [] h = absurd (h refl)
not-is_empty (o ∷ oids) h = refl

-- A request of version 0 or 1, with the tag of a GET, GETNEXT or GETBULK, an id below 2^64 and 1
-- to 32 identifiers that can be encoded, is parsed to itself from its encoding with a second
-- control below 2^64, if that takes less than 2^32 bytes; its repetitions are the control clamped
-- to 0 to 32, or 1 where it is not a GETBULK.
pub parse_request-request_message :
    (request : SnmpRequest) (control : ℕ) (message : Bytes)
    → IsSendable request
    → control < 2 ^ 64
    → request_message request control ≡ ok message
    → length message < 2 ^ 32
    → parse_request message
      ≡ ok (record request { max_repetitions = repetitions_of request control })
unfolding parse_request request_message
parse_request-request_message request control message is hc e short =
    let (varbinds, ev, k) = >>=-eq-ok (null_varbinds request.oids) _ e in
    let pdu = pdu_content request control varbinds in
    let same : whole_message request pdu ≡ message = ok-injective _ _ k in
    let total : length (whole_message request pdu) ≡ length message = ap length same in
    let hv : length varbinds < 2 ^ 32 =
      omega
        (arith, length-whole_message request pdu, length-pdu_content request control varbinds) in
    let (id, second, ep, di, ds) = read_pdu-pdu_content request control varbinds is.id_is hc hv in
    rw (
      ← same,
      read_message-whole_message request pdu is.version_is is.tag_is (omega arith),
      ep,
      read_repetitions_of request second control ds,
      varbind_loop-null_varbinds request.oids [] (length varbinds) varbinds ev is.sendable
          (omega (arith, is.few_oids)) hv (omega arith),
      not-is_empty request.oids is.some_oid,
      di,
    )
