-- ===== src/Snmp/Ber/Integers.antt =====
-- Integers: `decode_integer` reads back what `encode_integer` wrote.
use seclab_suite_protocol_si.Base.{
  All, [], ap, arith, bit_and, length, not, ok, refl, suc, true, zero, ℕ, ◌&&◌, ◌++◌, ◌<◌, ◌==◌,
  ◌^◌, ◌||◌, ◌∙◌, ◌∷◌, ◌≡◌, ◌≢◌, ◌≤◌,
}
use seclab_suite_protocol_si.Base.Bits.{Bytes, IsByte, IsBytes, be_bytes}
use seclab_suite_protocol_si.Snmp.Ber.{
  decode_integer, drop_sign, encode_integer, integer_loop, read_tlv, shift_in, sign_fill,
}
use seclab_suite_protocol_si.Snmp.Ber.Lengths.{read_tlv-wrap}

-- The value of a content: the loop from the fill of its sign.
abbrev content_value : Bytes → ℕ
content_value [] = 0
content_value (first ∷ rest) = integer_loop (sign_fill first) (first ∷ rest)

-- A byte that repeats the sign of the next one does not count.
content_value_repeat :
    (b c : ℕ) (bytes : Bytes)
    → b < 256
    → c < 256
    → ((b == 0 && bit_and c 0x80 == 0) || (b == 0xff && not (bit_and c 0x80 == 0))) ≡ true
    → content_value (b ∷ c ∷ bytes) ≡ content_value (c ∷ bytes)
unfolding integer_loop
content_value_repeat b c bytes hb hc h = ground arith

content_value-drop_sign :
    (bytes : Bytes) → All IsByte bytes → content_value (drop_sign bytes) ≡ content_value bytes
unfolding drop_sign
content_value-drop_sign [] h = refl
content_value-drop_sign (b ∷ []) h = refl
content_value-drop_sign (b ∷ c ∷ bytes) h =
    ground (arith, content_value-drop_sign (c ∷ bytes), content_value_repeat b c bytes)

length-drop_sign : (bytes : Bytes) → length (drop_sign bytes) ≤ length bytes
unfolding drop_sign
length-drop_sign [] = omega arith
length-drop_sign (b ∷ []) = omega arith
length-drop_sign (b ∷ c ∷ bytes) = ground (arith, length-drop_sign (c ∷ bytes))

drop_sign-ne-nil : (b : ℕ) (bytes : Bytes) → drop_sign (b ∷ bytes) ≢ []
unfolding drop_sign
drop_sign-ne-nil b [] = λ e. cc
drop_sign-ne-nil b (c ∷ bytes) = ground (arith, drop_sign-ne-nil c bytes)

decode_integer_value :
    (bytes : Bytes)
    → bytes ≢ []
    → length bytes ≤ 8
    → decode_integer bytes ≡ ok (content_value bytes)
unfolding decode_integer
decode_integer_value [] ne h = absurd (ne refl)
decode_integer_value (b ∷ bytes) ne h = ground arith

-- The eight bytes of a word stand for the word.
content_value-be_bytes : (v : ℕ) → v < 2 ^ 64 → content_value (be_bytes 8 v) ≡ v
unfolding integer_loop
content_value-be_bytes v h = ground arith

be_bytes-IsByte : (w v : ℕ) → All IsByte (be_bytes w v)
be_bytes-IsByte zero v = tt
be_bytes-IsByte (suc w) v = (omega arith, be_bytes-IsByte w v)

-- The content that `encode_integer` wraps stands for the integer.
pub decode_integer-drop_sign :
    (v : ℕ) → v < 2 ^ 64 → decode_integer (drop_sign (be_bytes 8 v)) ≡ ok v
decode_integer-drop_sign v h =
    decode_integer_value (drop_sign (be_bytes 8 v)) (drop_sign-ne-nil _ _)
      (length-drop_sign (be_bytes 8 v))
    ∙ ap ok
        (content_value-drop_sign (be_bytes 8 v) (be_bytes-IsByte 8 v) ∙ content_value-be_bytes v h)

-- An `i64` that `encode_integer` wrote is read back, as a value with the tag 2 and as the integer,
-- whatever follows it.
pub read_tlv-encode_integer :
    (v : ℕ) (rest : Bytes)
    → v < 2 ^ 64
    → (content : Bytes) × (read_tlv (encode_integer v ++ rest)
        ≡ ok (record { tag = 0x02; value = content }, rest))
      × (decode_integer content ≡ ok v)
unfolding encode_integer
read_tlv-encode_integer v rest h = (
  drop_sign (be_bytes 8 v),
  read_tlv-wrap 0x02 (drop_sign (be_bytes 8 v)) rest
      (omega (arith, length-drop_sign (be_bytes 8 v))),
  decode_integer-drop_sign v h,
)

integer_loop-IsU64 :
    (bytes : Bytes) (v : ℕ) → v < 2 ^ 64 → All IsByte bytes → integer_loop v bytes < 2 ^ 64
unfolding integer_loop
integer_loop-IsU64 [] v h is = h
integer_loop-IsU64 (b ∷ bytes) v h is = integer_loop-IsU64 bytes (shift_in v b) (omega arith) is.1

pub decode_integer-IsU64 :
    (bytes : Bytes) (v : ℕ) → decode_integer bytes ≡ ok v → IsBytes bytes → v < 2 ^ 64
unfolding decode_integer IsBytes
decode_integer-IsU64 [] v h is = cc
decode_integer-IsU64 (b ∷ bytes) v h is =
    ground (arith, integer_loop-IsU64 (b ∷ bytes) (sign_fill b) (ground arith) is)
