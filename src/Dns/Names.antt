-- ===== src/Dns/Names.antt =====
-- The names of DNS messages: how they are decoded, and that the loop ends.
use seclab_suite_protocol_si.Base.{
  All, List, Option-cases, Result-cases, [], ap, append-nil, append_assoc, arith, drop, err,
  get_elem?, inl, inr, length, length-append, ok, refl, some, subst, suc, sym, take, take-append,
  zero, ℕ, ◌++◌, ◌+◌, ◌<◌, ◌∙◌, ◌∷◌, ◌≡◌, ◌≢◌, ◌≤◌,
}
use seclab_suite_protocol_si.Base.Bits.{Bytes}
use seclab_suite_protocol_si.Base.Text.{Text, codes, join}
use seclab_suite_protocol_si.Base.Text.Utf8.{IsChar, from_utf8, from_utf8-utf8, utf8}
use seclab_suite_protocol_si.Dns.{decode_name, name_loop, out_of_fuel}

-- A label on the wire, and a name: its labels and a zero.
abbrev pub encode_labels : List Text → Bytes
encode_labels [] = 0 ∷ []
encode_labels (label ∷ labels) = length (utf8 label) ∷ (utf8 label ++ encode_labels labels)

-- A label of characters that takes 1 to 63 bytes.
abbrev pub IsLabel : Text → Type 0
IsLabel label = All IsChar label × (1 ≤ length (utf8 label)) × (length (utf8 label) ≤ 63)

get_elem?-behind :
    (before : Bytes) (x : ℕ) (rest : Bytes)
    → get_elem? (before ++ (x ∷ rest)) (length before) ≡ some x
get_elem?-behind [] x rest = refl
get_elem?-behind (y ∷ before) x rest = get_elem?-behind before x rest

get_elem?-inside :
    (message : Bytes) (i : ℕ) {x : ℕ} → get_elem? message i ≡ some x → i < length message
get_elem?-inside [] i h = cc
get_elem?-inside (y ∷ message) zero h = omega arith
get_elem?-inside (y ∷ message) (suc i) {x} h = omega (arith, get_elem?-inside message i {x = x} h)

name_loop-ne-out_of_fuel :
    (fuel : ℕ) (message : Bytes) (offset : ℕ) (labels : List Text)
    → offset ≤ length message
    → length message < fuel + offset
    → name_loop fuel message offset labels ≢ err out_of_fuel
unfolding name_loop
name_loop-ne-out_of_fuel zero message offset labels o h = absurd (omega arith)
name_loop-ne-out_of_fuel (suc fuel) message offset labels o h =
    elim (Option-cases (get_elem? message offset)) [
      | inl missing ↦ ground arith
      | inr (size, found) ↦
          elim (Option-cases (from_utf8 (take size (drop (offset + 1) message)))) [
            | inl broken ↦ ground arith
            | inr (label, decoded) ↦ ground (
              arith,
              name_loop-ne-out_of_fuel fuel message (offset + 1 + size) (labels ++ (label ∷ [])),
            )
          ]
    ]

drop_past :
    (before : Bytes) (x : ℕ) (rest : Bytes)
    → drop (suc (length before)) (before ++ (x ∷ rest)) ≡ rest
drop_past [] x rest = refl
drop_past (y ∷ before) x rest = drop_past before x rest

drop-behind :
    (before : Bytes) (x : ℕ) (rest : Bytes) → drop (length before + 1) (before ++ (x ∷ rest)) ≡ rest
drop-behind before x rest =
    subst (λ n. drop n (before ++ (x ∷ rest)) ≡ rest) {x = suc (length before)} (omega arith)
      (drop_past before x rest)

-- One turn of the loop, over a label.
name_loop-label :
    (fuel : ℕ) (before more : Bytes) (label : Text) (read : List Text)
    → IsLabel label
    → name_loop
        (suc fuel)
        (before ++ (length (utf8 label) ∷ (utf8 label ++ more)))
        (length before)
        read
      ≡ name_loop fuel
          (before ++ (length (utf8 label) ∷ (utf8 label ++ more)))
          (length before + 1 + length (utf8 label))
          (read ++ (label ∷ []))
unfolding name_loop
name_loop-label fuel before more label read (chars, some_byte, few) =
    let n = length (utf8 label) in
    let found = get_elem?-behind before n (utf8 label ++ more) in
    let behind = drop-behind before n (utf8 label ++ more) in
    let front = take-append (utf8 label) more in
    let decoded = from_utf8-utf8 label chars in
    let long = length-append before (n ∷ (utf8 label ++ more)) in
    let whole = length-append (utf8 label) more in
    rw (found, behind, front, decoded) ground (arith, long, whole)

name_loop-end :
    (fuel : ℕ) (before rest : Bytes) (read : List Text)
    → name_loop (suc fuel) (before ++ (0 ∷ rest)) (length before) read
      ≡ ok (read ++ [], length before + 1)
unfolding name_loop
name_loop-end fuel before rest read = rw (get_elem?-behind before 0 rest, append-nil read) refl

name_loop-labels :
    (labels : List Text) (fuel : ℕ) (before rest : Bytes) (read : List Text)
    → All IsLabel labels
    → length (encode_labels labels) ≤ fuel
    → name_loop fuel (before ++ (encode_labels labels ++ rest)) (length before) read
      ≡ ok (read ++ labels, length before + length (encode_labels labels))
name_loop-labels [] zero before rest read h k = absurd (omega arith)
name_loop-labels [] (suc fuel) before rest read h k = name_loop-end fuel before rest read
name_loop-labels (label ∷ labels) zero before rest read h k = absurd (omega arith)
name_loop-labels (label ∷ labels) (suc fuel) before rest read (l, ls) k =
    let wire = utf8 label in
    let later = encode_labels labels in
    let next = before ++ (length wire ∷ wire) in
    let longer = read ++ (label ∷ []) in
    let on = length-append before (length wire ∷ wire) in
    let index : length before + 1 + length wire ≡ length next = omega (arith, on) in
    let behind : length next + length later ≡ length before + suc (length (wire ++ later)) =
      omega (arith, on, length-append wire later) in
    ap (λ (t : Bytes). name_loop (suc fuel) (before ++ (length wire ∷ t)) (length before) read)
      (append_assoc wire later rest)
    ∙ name_loop-label fuel before (later ++ rest) label read l
    ∙ ap (λ (m : Bytes). name_loop fuel m (length before + 1 + length wire) longer)
        (sym (append_assoc before (length wire ∷ wire) (later ++ rest)))
    ∙ ap (λ (i : ℕ). name_loop fuel (next ++ (later ++ rest)) i longer) index
    ∙ name_loop-labels labels fuel next rest longer ls (omega (arith, length-append wire later))
    ∙ ap (λ (out : List Text). ok (out, length next + length later))
        (append_assoc read (label ∷ []) labels)
    ∙ ap (λ (i : ℕ). ok (read ++ (label ∷ labels), i)) behind

-- The decoder reads the wire form of a name, behind any header and in front of any rest, as its labels
-- joined by dots, and stops behind it.
pub decode_name-encode_labels :
    (header rest : Bytes) (labels : List Text)
    → All IsLabel labels
    → decode_name (header ++ (encode_labels labels ++ rest)) (length header)
      ≡ ok (join (codes ".") labels, length header + length (encode_labels labels))
unfolding decode_name
decode_name-encode_labels header rest labels h =
    let message = header ++ (encode_labels labels ++ rest) in
    let read = name_loop-labels labels (suc (length message)) header rest [] h (
      omega (
        arith,
        length-append header (encode_labels labels ++ rest),
        length-append (encode_labels labels) rest,
      )) in
    rw read refl

-- The decoder ends on every message, with a name or an error of the source.
pub decode_name-ne-out_of_fuel :
    (message : Bytes) (offset : ℕ)
    → offset ≤ length message
    → decode_name message offset ≢ err out_of_fuel
unfolding decode_name
decode_name-ne-out_of_fuel message offset h =
    elim (Result-cases (name_loop (suc (length message)) message offset [])) [
      | inl ((labels, after), e) ↦ ground arith
      | inr (x, e) ↦
          ground (arith, name_loop-ne-out_of_fuel (suc (length message)) message offset [] h)
    ]
