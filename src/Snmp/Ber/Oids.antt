-- ===== src/Snmp/Ber/Oids.antt =====
-- Object identifiers: `decode_oid` and `encode_oid` are inverse, and a decoded one can be encoded.
use seclab_suite_protocol_si.Base.{
  ==_iff, All, Bool, Bool-cases, [], all, ap, append-nil, append_assoc, arith, bit_and, bit_or,
  false, if◌then◌else◌, inl, inr, length, length-append, ltb, min, ok, refl, suc, true, zero, ℕ,
  ◌%◌, ◌*◌, ◌++◌, ◌+◌, ◌-◌, ◌/◌, ◌<◌, ◌==◌, ◌^◌, ◌∙◌, ◌∷◌, ◌≡◌, ◌≤◌, ◌⊎◌,
}
use seclab_suite_protocol_si.Base.Bits.{Bytes, IsBytes, low_bits, set_top_bit, top_bit}
use seclab_suite_protocol_si.Snmp.Ber.{
  Oid, component_loop, decode_oid, encode_component, encode_components, encode_oid, oid_content,
  read_tlv, septet_loop, wrap,
}
use seclab_suite_protocol_si.Base.Bits.Masks.{low_seven}
use seclab_suite_protocol_si.Snmp.Ber.Lengths.{read_tlv-wrap}
use native.Mathlib.Nat.{pow-suc}

-- A component as `u32`.
abbrev pub IsU32 : ℕ → Type 0
IsU32 c = c < 2 ^ 32

-- The `u32` identifiers whose two first components fit one byte.
unfoldable pub IsEncodable : Oid → Type 0
IsEncodable [] = ⊥
IsEncodable (a ∷ []) = ⊥
IsEncodable (a ∷ b ∷ oid) = (a ≤ 2) × ((b < 40) ⊎ (a ≡ 2)) × (a * 40 + b ≤ 255) × All IsU32 oid

-- The groups of seven bits of `remaining`, most significant first, each with the top bit set, in
-- front of `encoded`.
septets : ℕ → ℕ → Bytes → Bytes
septets zero remaining encoded = encoded
septets (suc index) remaining encoded =
    let rest = septets index (remaining / 128) ((remaining % 128 + 128) ∷ encoded) in
    if remaining == 0 then encoded else rest

septet_byte : (r : ℕ) → bit_or (bit_and r 0x7f) 0x80 ≡ r % 128 + 128
septet_byte r =
    omega (arith, low_seven r, set_top_bit (bit_and r 0x7f) (omega (arith, low_seven r)))

fewer_septets : (index r : ℕ) → r < 128 ^ suc index → r / 128 < 128 ^ index
fewer_septets index r h = grind (arith, pow-suc 128 index)

septet_loop-septets :
    (index remaining : ℕ) (encoded : Bytes)
    → remaining < 128 ^ index
    → septet_loop index remaining encoded ≡ ok (septets index remaining encoded)
unfolding septet_loop septets
septet_loop-septets zero remaining encoded h = ground arith
septet_loop-septets (suc index) remaining encoded h = elim (Bool-cases (remaining == 0)) [
  | inl e ↦ rw e
  | inr e ↦
      rw (e, septet_byte remaining)
        (septet_loop-septets index (remaining / 128) _ (fewer_septets index remaining h))
]

-- One round of `component_loop` on a byte with the top bit set, and on the last byte.
inner_septet :
    (oid : Oid) (r : ℕ) (p : Bool) (rest : Bytes)
    → IsU32 r
    → component_loop oid (r / 128) p ((r % 128 + 128) ∷ rest) ≡ component_loop oid r true rest
unfolding component_loop
inner_septet oid r p rest h = ground (arith, low_bits (r % 128 + 128), top_bit (r % 128 + 128))

last_septet :
    (oid : Oid) (r : ℕ) (p : Bool) (rest : Bytes)
    → IsU32 r
    → component_loop oid (r / 128) p (r % 128 ∷ rest)
      ≡ component_loop (oid ++ (r ∷ [])) 0 false rest
unfolding component_loop
last_septet oid r p rest h = ground (arith, low_bits (r % 128), top_bit (r % 128))

-- The flag is not read at a byte.
pending_free :
    (oid : Oid) (v : ℕ) (p q : Bool) (b : ℕ) (rest : Bytes)
    → component_loop oid v p (b ∷ rest) ≡ component_loop oid v q (b ∷ rest)
unfolding component_loop
pending_free oid v p q b rest = refl

component_loop-septets :
    (index r : ℕ) (oid : Oid) (p q : Bool) (b : ℕ) (bytes rest : Bytes)
    → r < 128 ^ index
    → IsU32 r
    → component_loop oid 0 p (septets index r (b ∷ bytes) ++ rest)
      ≡ component_loop oid r q (b ∷ (bytes ++ rest))
unfolding septets
component_loop-septets zero r oid p q b bytes rest h u =
    let e : r ≡ 0 = omega arith in rw e (pending_free oid 0 p q b _)
component_loop-septets (suc index) r oid p q b bytes rest h u = elim (Bool-cases (r == 0)) [
  | inl e ↦ rw (e, (==_iff r 0).0 e) (pending_free oid 0 p q b _)
  | inr e ↦ rw e (
      component_loop-septets index (r / 128) oid p true (r % 128 + 128) (b ∷ bytes) rest
        (fewer_septets index r h) (omega arith)
      ∙ inner_septet oid r true _ u
      ∙ pending_free oid r true q b _)
]

-- The content of one component.
component_bytes : ℕ → Bytes
component_bytes c = septets 4 (c / 128) (c % 128 ∷ [])

abbrev components_bytes : Oid → Bytes
components_bytes [] = []
components_bytes (c ∷ oid) = component_bytes c ++ components_bytes oid

-- The array of five bytes is long enough for every `u32`.
encode_component-component_bytes : (c : ℕ) → IsU32 c → encode_component c ≡ ok (component_bytes c)
unfolding encode_component component_bytes
encode_component-component_bytes c h =
    rw (low_seven c) (septet_loop-septets 4 (c / 128) (c % 128 ∷ []) (omega arith))

component_loop-component_bytes :
    (c : ℕ) (oid : Oid) (rest : Bytes)
    → IsU32 c
    → component_loop oid 0 false (component_bytes c ++ rest)
      ≡ component_loop (oid ++ (c ∷ [])) 0 false rest
unfolding component_bytes
component_loop-component_bytes c oid rest h =
    component_loop-septets 4 (c / 128) oid false false (c % 128) [] rest (omega arith) (omega arith)
    ∙ last_septet oid c false rest h

encode_components-ok :
    (oid : Oid) (content : Bytes)
    → All IsU32 oid
    → encode_components content oid ≡ ok (content ++ components_bytes oid)
unfolding encode_components
encode_components-ok [] content h = rw (append-nil content)
encode_components-ok (c ∷ oid) content h =
    rw
      (
        encode_component-component_bytes c h.0,
        encode_components-ok oid (content ++ component_bytes c) h.1,
      )
      (ap ok (append_assoc content (component_bytes c) (components_bytes oid)))

component_loop-components_bytes :
    (oid found : Oid)
    → All IsU32 oid
    → component_loop found 0 false (components_bytes oid) ≡ ok (found ++ oid)
component_loop-components_bytes [] found h = rw (append-nil found) (unfold component_loop in refl)
component_loop-components_bytes (c ∷ oid) found h =
    component_loop-component_bytes c found (components_bytes oid) h.0
    ∙ component_loop-components_bytes oid (found ++ (c ∷ [])) h.1
    ∙ ap ok (append_assoc found (c ∷ []) oid)

length-septets :
    (index r : ℕ) (bytes : Bytes) → length (septets index r bytes) ≤ index + length bytes
unfolding septets
length-septets zero r bytes = omega arith
length-septets (suc index) r bytes =
    ground (arith, length-septets index (r / 128) ((r % 128 + 128) ∷ bytes))

length-components_bytes : (oid : Oid) → length (components_bytes oid) ≤ length oid * 5
unfolding component_bytes
length-components_bytes [] = omega arith
length-components_bytes (c ∷ oid) = omega (
  arith,
  length-append (component_bytes c) (components_bytes oid),
  length-septets 4 (c / 128) (c % 128 ∷ []),
  length-components_bytes oid,
)

first_components :
    (a b : ℕ)
    → a ≤ 2
    → (b < 40) ⊎ (a ≡ 2)
    → (min ((a * 40 + b) / 40) 2 ≡ a) × (a * 40 + b - a * 40 ≡ b)
first_components a b h (inl k) = omega arith
first_components a b h (inr k) = omega arith

-- An encodable identifier is encoded, and its content is decoded to it.
pub decode_oid-oid_content :
    (oid : Oid)
    → IsEncodable oid
    → (content : Bytes) × (oid_content oid ≡ ok content)
      × (decode_oid content ≡ ok oid)
      × (length content ≤ length oid * 5)
unfolding oid_content decode_oid IsEncodable
decode_oid-oid_content [] h = absurd h
decode_oid-oid_content (a ∷ []) h = absurd h
decode_oid-oid_content (a ∷ b ∷ oid) h =
    let (ha, hb) = first_components a b h.0 h.1 in
    (
      (a * 40 + b) ∷ components_bytes oid,
      ground (arith, encode_components-ok oid ((a * 40 + b) ∷ []) h.3),
      rw (ha, hb) (component_loop-components_bytes oid (a ∷ b ∷ []) h.3),
      omega (arith, length-components_bytes oid),
    )

-- What a round of `component_loop` on one byte has done, when the whole has a result.
component_step :
    (b : ℕ) (bytes : Bytes) (found : Oid) (v : ℕ) (p : Bool) {oid : Oid}
    → component_loop found v p (b ∷ bytes) ≡ ok oid
    → IsU32 (v * 128 + bit_and b 0x7f)
      × ((component_loop (found ++ ((v * 128 + bit_and b 0x7f) ∷ [])) 0 false bytes ≡ ok oid)
          ⊎ (component_loop found (v * 128 + bit_and b 0x7f) true bytes ≡ ok oid))
unfolding component_loop
component_step b bytes found v p h = ground arith

component_loop-IsU32 :
    (bytes : Bytes) (found : Oid) (v : ℕ) (p : Bool) {oid : Oid}
    → component_loop found v p bytes ≡ ok oid
    → (more : Oid) × (oid ≡ found ++ more) × All IsU32 more
component_loop-IsU32 [] found v p h =
    ([], unfold component_loop in ground (arith, append-nil found), tt)
component_loop-IsU32 (b ∷ bytes) found v p h =
    let (u, next) = component_step b bytes found v p h in
    elim next [
      | inl last ↦
          let (more, e, all) = component_loop-IsU32 bytes _ 0 false last in
          (_ ∷ more, e ∙ append_assoc found _ more, (u, all))
      | inr inner ↦ component_loop-IsU32 bytes found _ true inner
    ]

first-IsEncodable :
    (first : ℕ)
    → first < 256
    → (more : Oid) → All IsU32 more
    → IsEncodable (min (first / 40) 2 ∷ (first - min (first / 40) 2 * 40) ∷ more)
unfolding IsEncodable
first-IsEncodable first h more all = (
  omega arith,
  elim (Bool-cases (ltb first 80)) [ inl e ↦ inl (ground arith) | inr e ↦ inr (ground arith) ],
  omega arith,
  all,
)

-- Every identifier that `decode_oid` accepts from bytes can be encoded.
pub decode_oid-IsEncodable :
    (bytes : Bytes) (oid : Oid) → decode_oid bytes ≡ ok oid → IsBytes bytes → IsEncodable oid
unfolding decode_oid IsBytes IsEncodable
decode_oid-IsEncodable [] oid h is = cc
decode_oid-IsEncodable (first ∷ bytes) oid h is =
    let (more, e, u) = component_loop-IsU32 bytes _ 0 false h in
    rw e (first-IsEncodable first is.0 more u)

-- An encodable identifier has an encoding, and what is read back from it, whatever follows, is a
-- value with the tag 6 whose content decodes to the identifier.
pub read_tlv-encode_oid :
    (oid : Oid) (rest : Bytes)
    → IsEncodable oid
    → length oid < 2 ^ 29
    → (encoded content : Bytes) × (encode_oid oid ≡ ok encoded)
      × (read_tlv (encoded ++ rest) ≡ ok (record { tag = 0x06; value = content }, rest))
      × (decode_oid content ≡ ok oid)
unfolding encode_oid
read_tlv-encode_oid oid rest h len =
    let (content, e, d, bound) = decode_oid-oid_content oid h in
    (wrap 0x06 content, content, rw e, read_tlv-wrap 0x06 content rest (omega arith), d)
