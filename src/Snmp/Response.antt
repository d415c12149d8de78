-- ===== src/Snmp/Response.antt =====
-- `encode_varbind` and `build_response`, simulation/snmp.rs lines 290 to 344.
pub mod Total
pub mod Decodes
use seclab_suite_protocol_si.Base.{
  List, Option, [], err, if◌then◌else◌, none, ok, some, suc, zero, ℕ, ◌++◌, ◌==◌, ◌>>=◌, ◌>>◌, ◌∷◌,
}
use seclab_suite_protocol_si.Base.Bits.{Bytes}
use seclab_suite_protocol_si.Base.Text.{Text, text_eq}
use seclab_suite_protocol_si.Base.Text.Utf8.{utf8}
use seclab_suite_protocol_si.Snmp.Ber.{
  Ber, Oid, encode_integer, encode_oid, encode_unsigned, panicked, wrap,
}
use seclab_suite_protocol_si.Snmp.Mib.{Values, get, next_value}
use seclab_suite_protocol_si.Snmp.Request.{SnmpRequest}

abbrev pub uptime_oid : Oid
uptime_oid = 1 ∷ 3 ∷ 6 ∷ 1 ∷ 2 ∷ 1 ∷ 1 ∷ 3 ∷ 0 ∷ []

abbrev pub encode_value : Option Text → Bytes
encode_value (some value) = wrap 0x04 (utf8 value)
encode_value none = wrap 0x05 []

unfoldable pub encode_varbind : Oid → Option Text → Ber Bytes
encode_varbind oid value = do
  content ← encode_oid oid
  let encoded = if text_eq oid uptime_oid then encode_unsigned 0x43 360_000 else encode_value value
  ok (wrap 0x30 (content ++ encoded))

-- The loops of the three kinds of request, with the bindings encoded so far.
unfoldable pub get_loop : Values → List Oid → Bytes → Ber Bytes
unfolding encode_varbind get
get_loop values [] encoded = ok encoded
get_loop values (oid ∷ oids) encoded = do
  varbind ← encode_varbind oid (get oid values)
  get_loop values oids (encoded ++ varbind)

-- The binding of a GETNEXT answer: the next entry, or a null behind the last.
abbrev pub next_varbind : Oid → Option (Oid × Text) → Ber Bytes
next_varbind oid (some (next_oid, value)) = encode_varbind next_oid (some value)
next_varbind oid none = encode_varbind oid none

unfoldable pub get_next_loop : Values → List Oid → Bytes → Ber Bytes
unfolding encode_varbind next_value
get_next_loop values [] encoded = ok encoded
get_next_loop values (oid ∷ oids) encoded = do
  varbind ← next_varbind oid (next_value values oid)
  get_next_loop values oids (encoded ++ varbind)

unfoldable pub bulk_loop : ℕ → Values → Oid → Bytes → Ber Bytes
unfolding encode_varbind next_value
bulk_loop zero values cursor encoded = ok encoded
bulk_loop (suc rounds) values cursor encoded = elim (next_value values cursor) [
  | none ↦ ok encoded
  | some (next_oid, value) ↦ do
    varbind ← encode_varbind next_oid (some value)
    bulk_loop rounds values next_oid (encoded ++ varbind)
]

-- `max(1)`
abbrev pub at_least_one : ℕ → ℕ
at_least_one n = if n == 0 then 1 else n

abbrev pub bulk_varbinds : ℕ → Values → List Oid → Ber Bytes
bulk_varbinds repetitions values [] = err panicked
bulk_varbinds repetitions values (oid ∷ oids) = bulk_loop (at_least_one repetitions) values oid []

unfoldable pub encode_varbinds : SnmpRequest → Values → Ber Bytes
unfolding get_loop get_next_loop bulk_loop
encode_varbinds request values =
    if request.pdu_tag == 0xa0
    then get_loop values request.oids []
    else if request.pdu_tag == 0xa1
    then get_next_loop values request.oids []
    else if request.pdu_tag == 0xa5
    then bulk_varbinds request.max_repetitions values request.oids
    else err panicked

unfoldable pub response_pdu : SnmpRequest → Bytes → Bytes
response_pdu request varbinds =
    encode_integer request.request_id
    ++ (encode_integer 0 ++ (encode_integer 0 ++ wrap 0x30 varbinds))

unfoldable pub build_response : SnmpRequest → Values → Ber Bytes
unfolding encode_varbinds response_pdu
build_response request values = do
  varbinds ← encode_varbinds request values
  ok (
      wrap 0x30 (
        encode_integer request.version
        ++ (wrap 0x04 request.community ++ wrap 0xa2 (response_pdu request varbinds))))
