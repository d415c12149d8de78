-- ===== src/Snmp/Ber.antt =====
-- BER reading and writing, simulation/snmp.rs lines 12 to 101 and 169 to 235.
-- A cursor into a slice is the part of the slice from the cursor on. A cursor is at most the
-- length of a slice in memory (below 2^63) and a BER length is below 2^32, so `checked_add` of the
-- two never fails and is left out. An `i64` is its bit pattern, a number below 2^64.
pub mod Lengths
pub mod Integers
pub mod Oids
use seclab_suite_protocol_si.Base.{
  Bool, List, Result, [], bail_if, bit_and, bit_or, drop, err, false, if◌then◌else◌, leb, length,
  ltb, min, not, ok, suc, take, true, zero, ℕ, ◌%◌, ◌&&◌, ◌*◌, ◌++◌, ◌+◌, ◌-◌, ◌/◌, ◌==◌, ◌>>=◌,
  ◌>>◌, ◌^◌, ◌||◌, ◌∷◌,
}
use seclab_suite_protocol_si.Base.Bits.{Bytes, be_bytes}

-- The messages of `context` and `bail!`. `panicked` stands for an index out of bounds, and
-- `out_of_fuel` for a loop of the model that was cut off.
pub data SnmpError : Type 0 where
  length_truncated length_unsupported length_overflow tag_truncated value_truncated : SnmpError
  integer_length oid_empty component_overflow component_truncated : SnmpError
  not_one_sequence unsupported_structure unsupported_version invalid_pdu : SnmpError
  too_many_varbinds varbind_not_sequence varbind_without_oid no_varbind : SnmpError
  invalid_prefix prefix_too_large non_numeric panicked out_of_fuel : SnmpError

abbrev pub Ber : Type 0 → Type 0
Ber = Result SnmpError

pub record Tlv : Type 0 where
  pub tag : ℕ
  pub value : Bytes

abbrev pub Oid : Type 0
Oid = List ℕ

-- The loop over the bytes of a long length.
unfoldable pub length_loop : ℕ → Bytes → Ber ℕ
length_loop length [] = ok length
length_loop length (byte ∷ bytes) =
    let rest = length_loop (length * 256 + byte) bytes in
    if leb (2 ^ 64) (length * 256) || leb (2 ^ 64) (length * 256 + byte)
    then err length_overflow
    else rest

-- The length, and the input behind it.
unfoldable pub read_length : Bytes → Ber (ℕ × Bytes)
unfolding length_loop
read_length [] = err length_truncated
read_length (first ∷ input) = if bit_and first 0x80 == 0 then ok (first, input) else (do
  let count = bit_and first 0x7f
  bail_if (count == 0 || ltb 4 count || ltb (length input) count) length_unsupported
  n ← length_loop 0 (take count input)
  ok (n, drop count input))

unfoldable pub read_tlv : Bytes → Ber (Tlv × Bytes)
read_tlv [] = err tag_truncated
read_tlv (tag ∷ input) = do
  (n, rest) ← read_length input
  bail_if (ltb (length rest) n) value_truncated
  ok (record { tag = tag; value = take n rest }, drop n rest)

-- `(value << 8) | byte` on the bit pattern: the low eight bits of the shifted value are zero.
abbrev pub shift_in : ℕ → ℕ → ℕ
shift_in value byte = value * 256 % 2 ^ 64 + byte

unfoldable pub integer_loop : ℕ → Bytes → ℕ
integer_loop value [] = value
integer_loop value (byte ∷ bytes) = integer_loop (shift_in value byte) bytes

-- -1 or 0, by the sign bit of the first byte
abbrev pub sign_fill : ℕ → ℕ
sign_fill first = if bit_and first 0x80 == 0 then 0 else 2 ^ 64 - 1

unfoldable pub decode_integer : Bytes → Ber ℕ
unfolding integer_loop
decode_integer [] = err integer_length
decode_integer (first ∷ rest) =
    if ltb 8 (length (first ∷ rest))
    then err integer_length
    else ok (integer_loop (sign_fill first) (first ∷ rest))

-- The loop over the bytes behind the first, with the components found so far.
unfoldable pub component_loop : Oid → ℕ → Bool → Bytes → Ber Oid
component_loop oid value pending [] = if pending then err component_truncated else ok oid
component_loop oid value pending (byte ∷ bytes) =
    let next = value * 128 + bit_and byte 0x7f in
    let last = component_loop (oid ++ (next ∷ [])) 0 false bytes in
    let more = component_loop oid next true bytes in
    if leb (2 ^ 32) (value * 128) || leb (2 ^ 32) next
    then err component_overflow
    else if bit_and byte 0x80 == 0
    then last
    else more

unfoldable pub decode_oid : Bytes → Ber Oid
unfolding component_loop
decode_oid [] = err oid_empty
decode_oid (first ∷ bytes) =
    let first_component = min (first / 40) 2 in
    component_loop (first_component ∷ (first - first_component * 40) ∷ []) 0 false bytes

-- `bytes[position(|b| b != 0).unwrap_or(len - 1)..]`
unfoldable pub significant : Bytes → Bytes
significant [] = []
significant (b ∷ []) = b ∷ []
significant (b ∷ c ∷ bytes) =
    let rest = significant (c ∷ bytes) in if b == 0 then rest else b ∷ c ∷ bytes

-- What `encode_length` appends to its output.
unfoldable pub encode_length : ℕ → Bytes
unfolding significant
encode_length n =
    if ltb n 128
    then n % 256 ∷ []
    else (let bytes = significant (be_bytes 8 n) in bit_or 0x80 (length bytes % 256) ∷ bytes)

unfoldable pub wrap : ℕ → Bytes → Bytes
wrap tag content = tag ∷ (encode_length (length content) ++ content)

-- The loop that drops a leading byte which only repeats the sign.
unfoldable pub drop_sign : Bytes → Bytes
drop_sign [] = []
drop_sign (b ∷ []) = b ∷ []
drop_sign (b ∷ c ∷ bytes) =
    let rest = drop_sign (c ∷ bytes) in
    if (b == 0 && bit_and c 0x80 == 0) || (b == 0xff && not (bit_and c 0x80 == 0))
    then rest
    else b ∷ c ∷ bytes

unfoldable pub encode_integer : ℕ → Bytes
unfolding drop_sign
encode_integer value = wrap 0x02 (drop_sign (be_bytes 8 value))

-- The zero that keeps a large first byte from reading as a sign.
abbrev pub unsigned_content : Bytes → Bytes
unsigned_content [] = []
unsigned_content (b ∷ bytes) = if bit_and b 0x80 == 0 then b ∷ bytes else 0 ∷ b ∷ bytes

unfoldable pub encode_unsigned : ℕ → ℕ → Bytes
unfolding significant
encode_unsigned tag value = wrap tag (unsigned_content (significant (be_bytes 8 value)))

-- The `while remaining > 0` loop of `encode_oid`: `index` slots of the array are left.
unfoldable pub septet_loop : ℕ → ℕ → Bytes → Ber Bytes
septet_loop zero remaining encoded = if remaining == 0 then ok encoded else err panicked
septet_loop (suc index) remaining encoded =
    let rest =
      septet_loop index (remaining / 128) (bit_or (bit_and remaining 0x7f) 0x80 ∷ encoded) in
    if remaining == 0 then ok encoded else rest

unfoldable pub encode_component : ℕ → Ber Bytes
unfolding septet_loop
encode_component component = septet_loop 4 (component / 128) (bit_and component 0x7f ∷ [])

unfoldable pub encode_components : Bytes → Oid → Ber Bytes
unfolding encode_component
encode_components content [] = ok content
encode_components content (component ∷ oid) = do
  encoded ← encode_component component
  encode_components (content ++ encoded) oid

-- The product and the sum are `u32` of a release build.
unfoldable pub oid_content : Oid → Ber Bytes
unfolding encode_components
oid_content [] = err invalid_prefix
oid_content (a ∷ []) = err invalid_prefix
oid_content (a ∷ b ∷ oid) = do
  bail_if (ltb 2 a || (ltb a 2 && leb 40 b)) invalid_prefix
  let first = (a * 40 + b) % 2 ^ 32
  bail_if (ltb 255 first) prefix_too_large
  encode_components (first ∷ []) oid

unfoldable pub encode_oid : Oid → Ber Bytes
unfolding oid_content
encode_oid oid = do content ← oid_content oid; ok (wrap 0x06 content)
