-- ===== src/Snmp/Ber/Lengths.antt =====
-- Lengths and values: what `wrap` writes, `read_tlv` reads back.
use seclab_suite_protocol_si.Base.{
  >>=-eq-ok, All, Bool-cases, Result-cases, [], ap, append-nil, append_assoc, arith, bit_and, drop,
  drop-append, inl, inr, length, length-append, ltb, ltb→lt, ok, sym, take, take-append,
  take-append-drop, ℕ, ◌%◌, ◌++◌, ◌+◌, ◌<◌, ◌==◌, ◌^◌, ◌∙◌, ◌∷◌, ◌≡◌, ◌≤◌,
}
use mathlib.Core.Path.{subst}
use seclab_suite_protocol_si.Base.Bits.{Bytes, IsByte, IsBytes, top_bit}
use seclab_suite_protocol_si.Snmp.Ber.{Tlv, encode_length, length_loop, read_length, read_tlv, wrap}

-- A length of one byte.
short_length :
    (n : ℕ) (rest : Bytes) → n < 128 → read_length (encode_length n ++ rest) ≡ ok (n, rest)
unfolding read_length encode_length
short_length n rest h = ground (arith, top_bit (n % 256))

-- A length of up to four bytes behind the count.
long_length :
    (n : ℕ) (rest : Bytes)
    → 128 ≤ n
    → n < 2 ^ 32
    → read_length (encode_length n ++ rest) ≡ ok (n, rest)
unfolding read_length encode_length
long_length n rest h k = ground arith

-- A length below 2^32 is read back from what `encode_length` wrote, whatever follows.
pub read_length-encode_length :
    (n : ℕ) (rest : Bytes) → n < 2 ^ 32 → read_length (encode_length n ++ rest) ≡ ok (n, rest)
read_length-encode_length n rest h = elim (Bool-cases (ltb n 128)) [
  | inl e ↦ short_length n rest (ltb→lt _ _ e)
  | inr e ↦ long_length n rest (ground arith) h
]

take_drop_back :
    (tag : ℕ) (content rest : Bytes)
    → ◌≡◌ {A = Tlv × Bytes}
        (
          record { tag = tag; value = take (length content) (content ++ rest) },
          drop (length content) (content ++ rest),
        )
        (record { tag = tag; value = content }, rest)
take_drop_back tag content rest = rw (take-append content rest, drop-append content rest)

pub read_tlv-wrap :
    (tag : ℕ) (content rest : Bytes)
    → length content < 2 ^ 32
    → read_tlv (wrap tag content ++ rest) ≡ ok (record { tag = tag; value = content }, rest)
unfolding read_tlv wrap
read_tlv-wrap tag content rest h =
    rw
      (
        append_assoc (encode_length (length content)) content rest,
        read_length-encode_length (length content) (content ++ rest) h,
      )
      (ground (arith, length-append content rest, take_drop_back tag content rest))

-- What `read_length` takes is a header in front of the rest.
read_length_takes :
    (input : Bytes) (n : ℕ) (rest : Bytes)
    → read_length input ≡ ok (n, rest)
    → (header : Bytes) × (input ≡ header ++ rest) × (1 ≤ length header)
unfolding read_length
read_length_takes [] n rest h = cc
read_length_takes (first ∷ input) n rest h = elim (Bool-cases (bit_and first 0x80 == 0)) [
  | inl short ↦ (first ∷ [], ground arith, omega arith)
  | inr long ↦ (
    first ∷ take (bit_and first 0x7f) input,
    ground (
      arith,
      take-append-drop (bit_and first 0x7f) input,
      Result-cases (length_loop 0 (take (bit_and first 0x7f) input)),
    ),
    omega arith,
  )
]

-- A value that `read_tlv` accepts is a slice of its input, behind a header of two bytes at least
-- and in front of the rest.
pub read_tlv_takes :
    (input : Bytes) (t : Tlv) (rest : Bytes)
    → read_tlv input ≡ ok (t, rest)
    → (header : Bytes) × (input ≡ header ++ (t.value ++ rest)) × (2 ≤ length header)
unfolding read_tlv
read_tlv_takes [] t rest h = cc
read_tlv_takes (tag ∷ input) t rest h =
    let ((n, behind), e, k) = >>=-eq-ok (read_length input) _ h in
    let (header, split, one) = read_length_takes input n behind e in
    (tag ∷ header, ground (arith, take-append-drop n behind), omega arith)

-- Reading a value makes the input shorter by two bytes at least.
pub read_tlv_shorter :
    (input : Bytes) (t : Tlv) (rest : Bytes)
    → read_tlv input ≡ ok (t, rest)
    → length rest + length t.value + 2 ≤ length input
read_tlv_shorter input t rest h =
    let (header, split, two) = read_tlv_takes input t rest h in
    omega
      (arith, ap length split, length-append header (t.value ++ rest), length-append t.value rest)

All-of-append : (xs ys : Bytes) → All IsByte (xs ++ ys) → All IsByte xs × All IsByte ys
All-of-append [] ys h = (tt, h)
All-of-append (x ∷ xs) ys h = let (a, b) = All-of-append xs ys h.1 in ((h.0, a), b)

-- The content and the rest are bytes if the input is, and shorter.
pub read_tlv-IsBytes :
    (input : Bytes) (p : Tlv × Bytes)
    → read_tlv input ≡ ok p
    → IsBytes input
    → IsBytes p.0.value × IsBytes p.1 × (length p.1 + 2 ≤ length input)
unfolding IsBytes
read_tlv-IsBytes input (t, rest) h is =
    let (header, split, two) = read_tlv_takes input t rest h in
    let behind = All-of-append header (t.value ++ rest) (subst (All IsByte) split is) in
    let (value, after) = All-of-append t.value rest behind.1 in
    (value, after, omega (arith, read_tlv_shorter input t rest h))

-- The same with nothing behind the value.
pub read_tlv-wrap_last :
    (tag : ℕ) (content : Bytes)
    → length content < 2 ^ 32
    → read_tlv (wrap tag content) ≡ ok (record { tag = tag; value = content }, [])
read_tlv-wrap_last tag content h =
    ap read_tlv (sym (append-nil (wrap tag content))) ∙ read_tlv-wrap tag content [] h

-- A value is longer than its content.
pub length-wrap : (tag : ℕ) (content : Bytes) → length content < length (wrap tag content)
unfolding wrap
length-wrap tag content = omega (arith, length-append (encode_length (length content)) content)
