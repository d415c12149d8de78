-- ===== src/Snmp/Response/Total.antt =====
-- Which requests have a response, and what GETBULK puts in it.
use seclab_suite_protocol_si.Base.{
  All, Bool-cases, Ensures-ok, IsOk, IsOk-bind, IsOk-value, List, Option, Option-cases, [], ap,
  arith, fun_ext, inl, inr, length, none, ok, refl, some, subst, suc, take, zero, ℕ, ◌++◌, ◌>>=◌,
  ◌∙◌, ◌∷◌, ◌≡◌, ◌≤◌,
}
use seclab_suite_protocol_si.Base.Bits.{Bytes, IsBytes}
use seclab_suite_protocol_si.Snmp.Ber.{Ber, Oid, encode_oid}
use seclab_suite_protocol_si.Snmp.Mib.{Values, get, next_value, oid_lt}
use seclab_suite_protocol_si.Snmp.Mib.Build.{KeysEncodable}
use seclab_suite_protocol_si.Snmp.Mib.Walk.{following, walk, walk-take}
use seclab_suite_protocol_si.Snmp.Response.{
  at_least_one, build_response, bulk_loop, bulk_varbinds, encode_varbind, encode_varbinds, get_loop,
  get_next_loop, next_varbind,
}
use seclab_suite_protocol_si.Base.Text.{Text}
use seclab_suite_protocol_si.Snmp.Ber.Oids.{IsEncodable, decode_oid-oid_content}
use seclab_suite_protocol_si.Snmp.Mib.Order.{IsSorted}
use seclab_suite_protocol_si.Snmp.Request.{SnmpRequest, parse_request}
use seclab_suite_protocol_si.Snmp.Request.Sound.{IsRequest, parse_request-IsRequest}

-- The encodings of the entries, one after the other.
unfoldable pub encode_entries : Values → Bytes → Ber Bytes
encode_entries [] encoded = ok encoded
encode_entries ((k, v) ∷ values) encoded = do
  varbind ← encode_varbind k (some v)
  encode_entries values (encoded ++ varbind)

bulk_loop-walk :
    (n : ℕ) (values : Values) (cursor : Oid) (encoded : Bytes)
    → bulk_loop n values cursor encoded ≡ encode_entries (walk n values cursor) encoded
unfolding bulk_loop walk encode_entries
bulk_loop-walk zero values cursor encoded = refl
bulk_loop-walk (suc n) values cursor encoded = elim (Option-cases (next_value values cursor)) [
  | inl e ↦ rw (e, walk, bulk_loop) refl
  | inr ((k, v), e) ↦
      rw (e, walk, bulk_loop)
        (ap (◌>>=◌ (encode_varbind k (some v)))
          (fun_ext (λ varbind. bulk_loop-walk n values k (encoded ++ varbind))))
]

-- A GETBULK request is answered with the entries above its first identifier, in order, as many as it
-- asks for, but at least one and at most as many as there are.
pub encode_varbinds_bulk :
    (request : SnmpRequest) (values : Values) (oid : Oid) (oids : List Oid)
    → IsSorted values
    → request.pdu_tag ≡ 0xa5
    → request.oids ≡ oid ∷ oids
    → encode_varbinds request values
      ≡ encode_entries (take (at_least_one request.max_repetitions) (following oid values)) []
unfolding encode_varbinds
encode_varbinds_bulk request values oid oids sorted tag is =
    rw (tag, is)
      (bulk_loop-walk (at_least_one request.max_repetitions) values oid []
        ∙ ap (λ entries. encode_entries entries [])
            (walk-take (at_least_one request.max_repetitions) values oid sorted))

encode_varbind-IsOk :
    (oid : Oid) (value : Option Text) → IsEncodable oid → IsOk (encode_varbind oid value)
unfolding encode_varbind encode_oid
encode_varbind-IsOk oid value h = let (content, e, d, n) = decode_oid-oid_content oid h in rw e tt

next_value-IsEncodable :
    (values : Values) (oid k : Oid) (v : Text)
    → KeysEncodable values
    → next_value values oid ≡ some (k, v)
    → IsEncodable k
unfolding next_value
next_value-IsEncodable [] oid k v h e = cc
next_value-IsEncodable ((j, w) ∷ values) oid k v h e = elim (Bool-cases (oid_lt oid j)) [
  | inl t ↦ subst IsEncodable (ground arith) h.0
  | inr t ↦ next_value-IsEncodable values oid k v h.1 (ground arith)
]

get_loop-IsOk :
    (values : Values) (oids : List Oid) (encoded : Bytes)
    → All IsEncodable oids
    → IsOk (get_loop values oids encoded)
unfolding get_loop
get_loop-IsOk values [] encoded h = tt
get_loop-IsOk values (oid ∷ oids) encoded h =
    IsOk-bind (encode_varbind oid (get oid values)) _ (encode_varbind-IsOk oid _ h.0)
      (λ varbind e. get_loop-IsOk values oids (encoded ++ varbind) h.1)

next_varbind-IsOk :
    (values : Values) (oid : Oid) (next : Option (Oid × Text))
    → next_value values oid ≡ next
    → KeysEncodable values
    → IsEncodable oid
    → IsOk (next_varbind oid next)
next_varbind-IsOk values oid none e keys h = encode_varbind-IsOk oid none h
next_varbind-IsOk values oid (some (k, v)) e keys h =
    encode_varbind-IsOk k (some v) (next_value-IsEncodable values oid k v keys e)

get_next_loop-IsOk :
    (values : Values) (oids : List Oid) (encoded : Bytes)
    → KeysEncodable values
    → All IsEncodable oids
    → IsOk (get_next_loop values oids encoded)
unfolding get_next_loop
get_next_loop-IsOk values [] encoded keys h = tt
get_next_loop-IsOk values (oid ∷ oids) encoded keys h =
    IsOk-bind (next_varbind oid (next_value values oid)) _
      (next_varbind-IsOk values oid _ refl keys h.0)
      (λ varbind e. get_next_loop-IsOk values oids (encoded ++ varbind) keys h.1)

bulk_loop-IsOk :
    (n : ℕ) (values : Values) (cursor : Oid) (encoded : Bytes)
    → KeysEncodable values
    → IsOk (bulk_loop n values cursor encoded)
unfolding bulk_loop
bulk_loop-IsOk zero values cursor encoded keys = tt
bulk_loop-IsOk (suc n) values cursor encoded keys = elim (Option-cases (next_value values cursor)) [
  | inl e ↦ rw (e, bulk_loop) tt
  | inr ((k, v), e) ↦
      rw (e, bulk_loop)
        (IsOk-bind (encode_varbind k (some v)) _
          (encode_varbind-IsOk k (some v) (next_value-IsEncodable values cursor k v keys e))
          (λ varbind f. bulk_loop-IsOk n values k (encoded ++ varbind) keys))
]

bulk_varbinds-IsOk :
    (n : ℕ) (values : Values) (oids : List Oid)
    → KeysEncodable values
    → 1 ≤ length oids
    → IsOk (bulk_varbinds n values oids)
bulk_varbinds-IsOk n values [] keys h = absurd (omega arith)
bulk_varbinds-IsOk n values (oid ∷ oids) keys h = bulk_loop-IsOk (at_least_one n) values oid [] keys

encode_varbinds-IsOk :
    (request : SnmpRequest) (values : Values)
    → IsRequest request
    → KeysEncodable values
    → IsOk (encode_varbinds request values)
unfolding encode_varbinds
encode_varbinds-IsOk request values is keys = elim is.tag_is [
  | inl get ↦ rw get (get_loop-IsOk values request.oids [] is.encodable)
  | inr (inl next) ↦ rw next (get_next_loop-IsOk values request.oids [] keys is.encodable)
  | inr (inr bulk) ↦
      rw bulk (bulk_varbinds-IsOk request.max_repetitions values request.oids keys is.some_oid)
]

-- Where every configured identifier can be encoded, every request that `parse_request` accepts from
-- bytes has a response.
pub build_response-parse_request :
    (message : Bytes) (values : Values) (request : SnmpRequest)
    → IsBytes message
    → KeysEncodable values
    → parse_request message ≡ ok request
    → (response : Bytes) × (build_response request values ≡ ok response)
build_response-parse_request message values request is keys e =
    let sound : IsRequest request =
      Ensures-ok IsRequest (parse_request message) (parse_request-IsRequest message is) e in
    IsOk-value (build_response request values) (
      unfold build_response in
      (IsOk-bind (encode_varbinds request values) _ (encode_varbinds-IsOk request values sound keys)
        (λ varbinds f. tt)))
