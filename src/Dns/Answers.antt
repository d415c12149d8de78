-- ===== src/Dns/Answers.antt =====
-- The answer to a query.
use seclab_suite_protocol_si.Base.{
  All, Bool-cases, List, Option, [], ap, append-nil, arith, false, get_elem?, inl, inr, length,
  length-append, ltb, none, ok, refl, some, suc, sym, take, true, unwrap_or, zero, ℕ, ◌&&◌, ◌*◌,
  ◌++◌, ◌+◌, ◌-◌, ◌==◌, ◌∙◌, ◌∷◌, ◌≡◌, ◌≤◌, ◌⊎◌,
}
use seclab_suite_protocol_si.Base.Bits.{Bytes, be_bytes}
use seclab_suite_protocol_si.Base.Text.{
  Text, codes, eq_ignore_ascii_case, join, text_eq, text_eq_refl, text_eq_sound, to_ascii_lowercase,
  trim_end_matches,
}
use seclab_suite_protocol_si.Dns.{
  SimDnsConfig, address_of, build_response, is_dot, parse_ipv4, response_bytes,
}
use seclab_suite_protocol_si.Dns.Names.{IsLabel, decode_name-encode_labels, encode_labels}

-- The header of a query with one question: the id, the flags and the other three counts.
pub record Header : Type 0 where
  pub id_hi : ℕ
  pub id_lo : ℕ
  pub flags_hi : ℕ
  pub flags_lo : ℕ
  pub counts : ℕ × ℕ × ℕ × ℕ × ℕ × ℕ

abbrev pub header_bytes : Header → Bytes
header_bytes h =
    let (a, b, c, d, e, f) = h.counts in
    h.id_hi ∷ h.id_lo ∷ h.flags_hi ∷ h.flags_lo ∷ 0 ∷ 1 ∷ a ∷ b ∷ c ∷ d ∷ e ∷ f ∷ []

-- A question: a name, a type and a class.
abbrev pub question : List Text → ℕ → ℕ → ℕ → ℕ → Bytes
question labels t u c d = encode_labels labels ++ (t ∷ u ∷ c ∷ d ∷ [])

abbrev pub query : Header → List Text → ℕ → ℕ → ℕ → ℕ → Bytes → Bytes
query h labels t u c d more = header_bytes h ++ (encode_labels labels ++ (t ∷ u ∷ c ∷ d ∷ more))

abbrev pub normalized : List Text → Text
normalized labels = to_ascii_lowercase (trim_end_matches is_dot (join (codes ".") labels))

get_elem?-past :
    (xs ys : Bytes) (i n : ℕ) → n ≡ length xs + i → get_elem? (xs ++ ys) n ≡ get_elem? ys i
get_elem?-past [] ys i n e = ap (get_elem? ys) (omega arith)
get_elem?-past (x ∷ xs) ys i zero e = absurd (omega arith)
get_elem?-past (x ∷ xs) ys i (suc n) e = get_elem?-past xs ys i n (omega arith)

take-past : (xs ys : Bytes) (k n : ℕ) → n ≡ length xs + k → take n (xs ++ ys) ≡ xs ++ take k ys
take-past [] ys k n e = ap (λ m. take m ys) (omega arith)
take-past (x ∷ xs) ys k zero e = absurd (omega arith)
take-past (x ∷ xs) ys k (suc n) e = ap (◌∷◌ x) (take-past xs ys k n (omega arith))

at_question :
    (h : Header) (labels : List Text) (tail : Bytes) (i n : ℕ)
    → n ≡ 12 + length (encode_labels labels) + i
    → get_elem? (header_bytes h ++ (encode_labels labels ++ tail)) n ≡ get_elem? tail i
at_question h labels tail i n e =
    get_elem?-past (header_bytes h) (encode_labels labels ++ tail)
      (length (encode_labels labels) + i) n (omega arith)
    ∙ get_elem?-past (encode_labels labels) tail i (length (encode_labels labels) + i) (omega arith)

ltb-false : (a b : ℕ) → b ≤ a → ltb a b ≡ false
ltb-false a b h = ground arith

-- What the code computes for a query: its pieces are read where they stand.
build_response-response_bytes :
    (config : SimDnsConfig) (h : Header) (labels : List Text) (t u c d : ℕ) (more : Bytes)
    → All IsLabel labels
    → build_response (query h labels t u c d more) config
      ≡ ok (
        response_bytes
            (h.id_hi ∷ h.id_lo ∷ [])
            (question labels t u c d)
            (t * 256 + u == 1 && c * 256 + d == 1)
            (unwrap_or config.ttl 60)
            (address_of config (normalized labels)),
        normalized labels,
      )
unfolding build_response
build_response-response_bytes config h labels t u c d more is =
    let tail = t ∷ u ∷ c ∷ d ∷ more in
    let n = 12 + length (encode_labels labels) in
    let name = decode_name-encode_labels (header_bytes h) tail labels is in
    let t_at = at_question h labels tail 0 n (omega arith) in
    let u_at = at_question h labels tail 1 (n + 1) (omega arith) in
    let c_at = at_question h labels tail 2 (n + 2) (omega arith) in
    let d_at = at_question h labels tail 3 (n + 2 + 1) (omega arith) in
    let cut = take-past (encode_labels labels) tail 4 (n + 4 - 12) (omega arith) in
    let long = length-append (encode_labels labels) tail in
    let message = query h labels t u c d more in
    let whole = ltb-false (length message) 12 (omega arith) in
    let enough =
      ltb-false (length message) (length (header_bytes h) + length (encode_labels labels) + 4)
        (omega (arith, long)) in
    rw (name, t_at, u_at, c_at, d_at, cut, whole, enough) refl

-- Names are the same without the dots at the end of the record's and without the case of letters.
abbrev pub SameName : Text → Text → Type 0
SameName name wanted = to_ascii_lowercase (trim_end_matches is_dot name) ≡ to_ascii_lowercase wanted

-- The address that a name has: that of the first record with the name, else the default, if any.
abbrev pub Resolves : List (Text × Text) → Option Text → Text → Option Bytes → Type 0
Resolves [] none wanted answer = answer ≡ none
Resolves [] (some address) wanted answer = answer ≡ parse_ipv4 address
Resolves ((name, address) ∷ records) default_ipv4 wanted answer =
    (SameName name wanted × (answer ≡ parse_ipv4 address))
    ⊎ ((¬ SameName name wanted) × Resolves records default_ipv4 wanted answer)

-- The question is for type A and class IN.
abbrev pub AsksAddress : ℕ → ℕ → ℕ → ℕ → Type 0
AsksAddress t u c d = (t * 256 + u ≡ 1) × (c * 256 + d ≡ 1)

-- The reply with an id, a question and a time to live: a missing name, code 3, where there is no
-- address; one record with the address where it is asked for; no record for other questions.
abbrev pub IsReply : Header → List Text → ℕ → ℕ → ℕ → ℕ → ℕ → Option Bytes → Bytes → Type 0
IsReply h labels t u c d ttl none reply =
    reply
    ≡ h.id_hi ∷ h.id_lo ∷ 0x81 ∷ 0x83 ∷ 0 ∷ 1 ∷ 0 ∷ 0 ∷ 0 ∷ 0 ∷ 0 ∷ 0 ∷ question labels t u c d
IsReply h labels t u c d ttl (some address) reply =
    (AsksAddress t u c d
      × (reply
          ≡ h.id_hi
            ∷ h.id_lo
            ∷ 0x81
            ∷ 0x80
            ∷ 0
            ∷ 1
            ∷ 0
            ∷ 1
            ∷ 0
            ∷ 0
            ∷ 0
            ∷ 0
            ∷ (question labels t u c d
                ++ (0xc0 ∷ 12 ∷ 0 ∷ 1 ∷ 0 ∷ 1 ∷ (be_bytes 4 ttl ++ (0 ∷ 4 ∷ address))))))
    ⊎ ((¬ AsksAddress t u c d)
        × (reply
            ≡ h.id_hi
              ∷ h.id_lo
              ∷ 0x81
              ∷ 0x80
              ∷ 0
              ∷ 1
              ∷ 0
              ∷ 0
              ∷ 0
              ∷ 0
              ∷ 0
              ∷ 0
              ∷ question labels t u c d))

eq_ignore_ascii_case-SameName :
    (name wanted : Text)
    → (eq_ignore_ascii_case (trim_end_matches is_dot name) wanted ≡ true → SameName name wanted)
      × (SameName name wanted → eq_ignore_ascii_case (trim_end_matches is_dot name) wanted ≡ true)
unfolding eq_ignore_ascii_case
eq_ignore_ascii_case-SameName name wanted =
    let lowered = to_ascii_lowercase (trim_end_matches is_dot name) in
    (
      text_eq_sound lowered (to_ascii_lowercase wanted),
      (λ same. ap (text_eq lowered) (sym same) ∙ text_eq_refl lowered),
    )

address_of-Resolves :
    (records : List (Text × Text)) (default_ipv4 : Option Text) (ttl : Option ℕ) (wanted : Text)
    → Resolves records default_ipv4 wanted
        (address_of (record { records = records; default_ipv4 = default_ipv4; ttl = ttl }) wanted)
unfolding address_of mathlib.Core.Option.bind
address_of-Resolves [] none ttl wanted = refl
address_of-Resolves [] (some address) ttl wanted = refl
address_of-Resolves ((name, address) ∷ records) default_ipv4 ttl wanted =
    let (same, back) = eq_ignore_ascii_case-SameName name wanted in
    elim (Bool-cases (eq_ignore_ascii_case (trim_end_matches is_dot name) wanted)) [
      | inl e ↦ rw e (inl (same e, refl))
      | inr e ↦ rw e (inr ((λ s. cc (back s)), address_of-Resolves records default_ipv4 ttl wanted))
    ]

response_bytes-IsReply :
    (h : Header) (labels : List Text) (t u c d ttl : ℕ) (answer : Option Bytes)
    → IsReply h labels t u c d ttl answer (
        response_bytes
          (h.id_hi ∷ h.id_lo ∷ [])
          (question labels t u c d)
          (t * 256 + u == 1 && c * 256 + d == 1)
          ttl
          answer)
response_bytes-IsReply h labels t u c d ttl none =
    elim (Bool-cases (t * 256 + u == 1 && c * 256 + d == 1)) [
      | inl e ↦ rw e (
          ap (λ q. h.id_hi ∷ h.id_lo ∷ 0x81 ∷ 0x83 ∷ 0 ∷ 1 ∷ 0 ∷ 0 ∷ 0 ∷ 0 ∷ 0 ∷ 0 ∷ q)
            (append-nil (question labels t u c d)))
      | inr e ↦ rw e (
          ap (λ q. h.id_hi ∷ h.id_lo ∷ 0x81 ∷ 0x83 ∷ 0 ∷ 1 ∷ 0 ∷ 0 ∷ 0 ∷ 0 ∷ 0 ∷ 0 ∷ q)
            (append-nil (question labels t u c d)))
    ]
response_bytes-IsReply h labels t u c d ttl (some address) =
    elim (Bool-cases (t * 256 + u == 1 && c * 256 + d == 1)) [
      | inl e ↦ inl (ground arith, rw e refl)
      | inr e ↦ inr (
        (λ asks. ground arith),
        rw e (
            ap (λ q. h.id_hi ∷ h.id_lo ∷ 0x81 ∷ 0x80 ∷ 0 ∷ 1 ∷ 0 ∷ 0 ∷ 0 ∷ 0 ∷ 0 ∷ 0 ∷ q)
              (append-nil (question labels t u c d))),
      )
    ]

-- A query for one name, whatever stands in its flags and other counts or behind the question, is
-- answered: the address is that of the first record whose name is the same without case and without
-- dots at its end, or the default where there is none. The reply has the id and the question of the
-- query; it says that the name is missing where there is no address, holds the address with the time
-- to live, 60 by default, where the question is of type A and class IN, and no record for other questions.
pub build_response-query :
    (config : SimDnsConfig) (h : Header) (labels : List Text) (t u c d : ℕ) (more : Bytes)
    → All IsLabel labels
    → (answer : Option Bytes) × (reply : Bytes) × Resolves config.records config.default_ipv4
        (normalized labels)
        answer
      × IsReply h labels t u c d (unwrap_or config.ttl 60) answer reply
      × (build_response (query h labels t u c d more) config ≡ ok (reply, normalized labels))
build_response-query config h labels t u c d more is = (
  address_of config (normalized labels),
  _,
  address_of-Resolves config.records config.default_ipv4 config.ttl (normalized labels),
  response_bytes-IsReply h labels t u c d (unwrap_or config.ttl 60)
      (address_of config (normalized labels)),
  build_response-response_bytes config h labels t u c d more is,
)
