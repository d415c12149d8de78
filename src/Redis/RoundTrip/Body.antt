-- ===== src/Redis/RoundTrip/Body.antt =====
-- The text that `redis_array` writes: its lines, its characters and its end.
use seclab_suite_protocol_si.Base.{
  All, All-append, Bool, List, [], ap, append-nil, append_assoc, arith, false, inl, is_empty,
  length, map, refl, some, sym, ℕ, ◌++◌, ◌∙◌, ◌∷◌, ◌≡◌,
}
use seclab_suite_protocol_si.Base.Bits.{Bytes}
use seclab_suite_protocol_si.Base.Text.{
  Text, codes, is_line_end, is_whitespace, starts_with, to_decimal, trim_end,
}
use seclab_suite_protocol_si.Base.Text.Utf8.{IsChar, utf8, utf8_char}
use seclab_suite_protocol_si.Base.Text.Lines.{IsNoFeed, lines, lines-last, lines-line}
use seclab_suite_protocol_si.Base.Text.Trim.{
  EndsKept, EndsKept-append, trim_end_matches-All, trim_end_matches-EndsKept,
}
use seclab_suite_protocol_si.Base.Text.Decimal.{IsDigit, to_decimal-IsDigit}
use seclab_suite_protocol_si.Redis.{bulk_text, bulks, redis_array, redis_bulk, values_loop}

-- A value that ends in no white space and has no line feed. It is not empty.
abbrev pub IsValue : Text → Type 0
IsValue value = All IsChar value × IsNoFeed value × EndsKept is_whitespace value

pub utf8-append : (s t : Text) → utf8 (s ++ t) ≡ utf8 s ++ utf8 t
unfolding utf8
utf8-append [] t = refl
utf8-append (c ∷ s) t =
    ap (λ (r : Bytes). utf8_char c ++ r) (utf8-append s t)
    ∙ sym (append_assoc (utf8_char c) (utf8 s) (utf8 t))

abbrev pub header : Text → Text
header value = b'$' ∷ to_decimal (length (utf8 value))

abbrev pub bulks_text : List Text → Text
bulks_text [] = []
bulks_text (value ∷ values) = bulk_text value ++ bulks_text values

pub bulks-utf8 : (values : List Text) → bulks values ≡ utf8 (bulks_text values)
unfolding utf8 redis_bulk
bulks-utf8 [] = refl
bulks-utf8 (value ∷ values) =
    ap (λ (r : Bytes). redis_bulk value ++ r) (bulks-utf8 values)
    ∙ sym (utf8-append (bulk_text value) (bulks_text values))

-- The text without its last two characters.
abbrev pub body : Text → List Text → Text
body value [] = header value ++ (0x0d ∷ 0x0a ∷ value)
body value (next_value ∷ values) =
    header value ++ (0x0d ∷ 0x0a ∷ (value ++ (0x0d ∷ 0x0a ∷ body next_value values)))

pub bulks_text-body :
    (value : Text) (values : List Text)
    → bulks_text (value ∷ values) ≡ body value values ++ (0x0d ∷ 0x0a ∷ [])
unfolding bulk_text
bulks_text-body value [] =
    append-nil (bulk_text value)
    ∙ sym (append_assoc (header value) (0x0d ∷ 0x0a ∷ value) (0x0d ∷ 0x0a ∷ []))
bulks_text-body value (next_value ∷ values) =
    let end = 0x0d ∷ 0x0a ∷ [] in
    ap (λ (r : Text). bulk_text value ++ r) (bulks_text-body next_value values)
    ∙ append_assoc (header value) (0x0d ∷ 0x0a ∷ (value ++ end)) (body next_value values ++ end)
    ∙ ap (λ (r : Text). header value ++ (0x0d ∷ 0x0a ∷ r))
        (append_assoc value end (body next_value values ++ end)
          ∙ sym (append_assoc value (0x0d ∷ 0x0a ∷ body next_value values) end))
    ∙ sym (
        append_assoc (header value)
          (0x0d ∷ 0x0a ∷ (value ++ (0x0d ∷ 0x0a ∷ body next_value values))) end)

pub digit_facts :
    (t : Text) → All IsDigit t → All IsChar t × IsNoFeed t × All (λ c. is_whitespace c ≡ false) t
unfolding is_whitespace
digit_facts [] h = (tt, tt, tt)
digit_facts (c ∷ t) ((low, high), h) =
    let (chars, no_feed, kept) = digit_facts t h in
    ((inl (omega arith), chars), (ground arith, no_feed), (ground arith, kept))

-- The lines of the values.
abbrev pub flat : List Text → List Text
flat [] = []
flat (value ∷ values) = header value ∷ value ∷ flat values

pub header-IsNoFeed : (value : Text) → IsNoFeed (header value)
header-IsNoFeed value = (
  refl,
  (digit_facts (to_decimal (length (utf8 value))) (to_decimal-IsDigit (length (utf8 value)))).1,
)

pub EndsKept-is_empty : (p : ℕ → Bool) (t : Text) → EndsKept p t → is_empty t ≡ false
EndsKept-is_empty p (c ∷ t) h = refl
EndsKept-is_empty p [] ([], c, parts, kept) = cc
EndsKept-is_empty p [] (d ∷ init, c, parts, kept) = cc

pub lines-body :
    (value : Text) (values : List Text)
    → All IsValue (value ∷ values)
    → lines (body value values) ≡ flat (value ∷ values)
lines-body value [] ((chars, no_feed, ends), h) =
    lines-line (header value) value (header-IsNoFeed value)
    ∙ ap (λ (r : List Text). header value ∷ r)
        (lines-last value no_feed (EndsKept-is_empty is_whitespace value ends))
lines-body value (next_value ∷ values) ((chars, no_feed, ends), h) =
    lines-line (header value) (value ++ (0x0d ∷ 0x0a ∷ body next_value values))
      (header-IsNoFeed value)
    ∙ ap (λ (r : List Text). header value ∷ r)
        (lines-line value (body next_value values) no_feed
          ∙ ap (λ (r : List Text). value ∷ r) (lines-body next_value values h))

pub trim_end-number :
    (c n : ℕ) → is_whitespace c ≡ false → trim_end (c ∷ to_decimal n) ≡ c ∷ to_decimal n
unfolding trim_end
trim_end-number c n kept =
    trim_end_matches-All is_whitespace (c ∷ to_decimal n)
      (kept, (digit_facts (to_decimal n) (to_decimal-IsDigit n)).2)

pub trim_end-flat :
    (values : List Text) → All IsValue values → map trim_end (flat values) ≡ flat values
unfolding trim_end is_whitespace
trim_end-flat [] h = refl
trim_end-flat (value ∷ values) ((chars, no_feed, ends), h) =
    rw
      (
        trim_end-number b'$' (length (utf8 value)) refl,
        trim_end_matches-EndsKept is_whitespace value ends,
        trim_end-flat values h,
      )
      refl

pub values_loop-flat :
    (values : List Text) → values_loop (length values) (flat values) ≡ some values
unfolding values_loop starts_with
values_loop-flat [] = refl
values_loop-flat (value ∷ values) = rw (values_loop-flat values) refl

-- The text of an array without its last two characters.
abbrev pub array_body : Text → List Text → Text
array_body name args = (b'*' ∷ to_decimal (length (name ∷ args))) ++ (0x0d ∷ 0x0a ∷ body name args)

pub redis_array-utf8 :
    (name : Text) (args : List Text)
    → redis_array (name ∷ args) ≡ utf8 (array_body name args ++ (0x0d ∷ 0x0a ∷ []))
unfolding redis_array
redis_array-utf8 name args =
    let count = b'*' ∷ to_decimal (length (name ∷ args)) in
    ap (λ (r : Bytes). utf8 (count ++ codes "\r\n") ++ r) (bulks-utf8 (name ∷ args))
    ∙ sym (utf8-append (count ++ codes "\r\n") (bulks_text (name ∷ args)))
    ∙ ap utf8 (
        append_assoc count (codes "\r\n") (bulks_text (name ∷ args))
        ∙ ap (λ (r : Text). count ++ (0x0d ∷ 0x0a ∷ r)) (bulks_text-body name args)
        ∙ sym (append_assoc count (0x0d ∷ 0x0a ∷ body name args) (0x0d ∷ 0x0a ∷ [])))

pub number-IsChar : (c n : ℕ) → IsChar c → All IsChar (c ∷ to_decimal n)
number-IsChar c n h = (h, (digit_facts (to_decimal n) (to_decimal-IsDigit n)).0)

pub line_end-IsChar : (t : Text) → All IsChar t → All IsChar (0x0d ∷ 0x0a ∷ t)
line_end-IsChar t h = (inl (omega arith), (inl (omega arith), h))

pub body-IsChar :
    (value : Text) (values : List Text)
    → All IsValue (value ∷ values)
    → All IsChar (body value values)
body-IsChar value [] ((chars, no_feed, ends), h) =
    All-append IsChar (header value) (0x0d ∷ 0x0a ∷ value)
      (number-IsChar b'$' _ (inl (omega arith))) (line_end-IsChar value chars)
body-IsChar value (next_value ∷ values) ((chars, no_feed, ends), h) =
    let rest = line_end-IsChar (body next_value values) (body-IsChar next_value values h) in
    All-append IsChar (header value)
      (0x0d ∷ 0x0a ∷ (value ++ (0x0d ∷ 0x0a ∷ body next_value values)))
      (number-IsChar b'$' _ (inl (omega arith)))
      (line_end-IsChar (value ++ (0x0d ∷ 0x0a ∷ body next_value values))
        (All-append IsChar value (0x0d ∷ 0x0a ∷ body next_value values) chars rest))

pub array_body-IsChar :
    (name : Text) (args : List Text)
    → All IsValue (name ∷ args)
    → All IsChar (array_body name args ++ (0x0d ∷ 0x0a ∷ []))
array_body-IsChar name args h =
    All-append IsChar (array_body name args) (0x0d ∷ 0x0a ∷ [])
      (All-append IsChar (b'*' ∷ to_decimal (length (name ∷ args))) (0x0d ∷ 0x0a ∷ body name args)
        (number-IsChar b'*' _ (inl (omega arith)))
        (line_end-IsChar (body name args) (body-IsChar name args h)))
      (line_end-IsChar [] tt)

pub EndsKept-line_end : (t : Text) → EndsKept is_whitespace t → EndsKept is_line_end t
unfolding is_whitespace
EndsKept-line_end t (init, c, parts, kept) = (init, c, parts, ground arith)

pub body-EndsKept :
    (value : Text) (values : List Text)
    → All IsValue (value ∷ values)
    → EndsKept is_line_end (body value values)
body-EndsKept value [] ((chars, no_feed, ends), h) =
    EndsKept-append is_line_end (header value) (0x0d ∷ 0x0a ∷ value)
      (EndsKept-append is_line_end (0x0d ∷ 0x0a ∷ []) value (EndsKept-line_end value ends))
body-EndsKept value (next_value ∷ values) ((chars, no_feed, ends), h) =
    EndsKept-append is_line_end (header value)
      (0x0d ∷ 0x0a ∷ (value ++ (0x0d ∷ 0x0a ∷ body next_value values)))
      (EndsKept-append is_line_end (0x0d ∷ 0x0a ∷ [])
        (value ++ (0x0d ∷ 0x0a ∷ body next_value values))
        (EndsKept-append is_line_end value (0x0d ∷ 0x0a ∷ body next_value values) (
          EndsKept-append is_line_end (0x0d ∷ 0x0a ∷ []) (body next_value values)
            (body-EndsKept next_value values h))))
