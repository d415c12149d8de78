-- ===== src/Redis/RoundTrip.antt =====
-- A command that is sent as an array is read as that command.
pub mod Body
use seclab_suite_protocol_si.Base.{
  All, List, [], ap, append_assoc, arith, length, lt→ltb, map, refl, sym, ◌*◌, ◌++◌, ◌<◌, ◌^◌, ◌∙◌,
  ◌∷◌, ◌≡◌,
}
use seclab_suite_protocol_si.Base.Text.{
  Text, is_line_end, is_whitespace, starts_with, strip_prefix, to_ascii_uppercase, to_decimal,
  trim_end, trim_end_matches, trim_matches, trim_start_matches,
}
use seclab_suite_protocol_si.Base.Text.Utf8.{from_utf8-utf8}
use seclab_suite_protocol_si.Base.Text.Lines.{lines, lines-line}
use seclab_suite_protocol_si.Base.Text.Trim.{
  EndsKept-append, trim_end_matches-EndsKept, trim_end_matches-last,
}
use seclab_suite_protocol_si.Base.Text.Decimal.{parse_unsigned-to_decimal, to_decimal-IsDigit}
use seclab_suite_protocol_si.Redis.{
  command, parse_array, parse_decoded, parse_redis_command, parse_text, redis_array, values_of,
}
use seclab_suite_protocol_si.Redis.RoundTrip.Body.{
  IsValue, array_body, array_body-IsChar, body, body-EndsKept, digit_facts, flat, lines-body,
  redis_array-utf8, trim_end-flat, trim_end-number, values_loop-flat,
}

trim_matches-array_body :
    (name : Text) (args : List Text)
    → All IsValue (name ∷ args)
    → trim_matches is_line_end (array_body name args ++ (0x0d ∷ 0x0a ∷ [])) ≡ array_body name args
unfolding trim_matches trim_start_matches
trim_matches-array_body name args h =
    let text = array_body name args in
    ap (trim_end_matches is_line_end) (sym (append_assoc text (0x0d ∷ []) (0x0a ∷ [])))
    ∙ trim_end_matches-last is_line_end (text ++ (0x0d ∷ [])) 0x0a refl
    ∙ trim_end_matches-last is_line_end text 0x0d refl
    ∙ trim_end_matches-EndsKept is_line_end text (
        EndsKept-append is_line_end (b'*' ∷ to_decimal (length (name ∷ args)))
          (0x0d ∷ 0x0a ∷ body name args)
          (EndsKept-append is_line_end (0x0d ∷ 0x0a ∷ []) (body name args)
            (body-EndsKept name args h)))

lines-array_body :
    (name : Text) (args : List Text)
    → All IsValue (name ∷ args)
    → map trim_end (lines (array_body name args))
      ≡ (b'*' ∷ to_decimal (length (name ∷ args))) ∷ flat (name ∷ args)
unfolding is_whitespace
lines-array_body name args h =
    let count = length (name ∷ args) in
    let (chars, no_feed, kept) = digit_facts (to_decimal count) (to_decimal-IsDigit count) in
    ap (map trim_end) (
      lines-line (b'*' ∷ to_decimal count) (body name args) (refl, no_feed)
      ∙ ap (λ (r : List Text). (b'*' ∷ to_decimal count) ∷ r) (lines-body name args h))
    ∙ rw (trim_end-number b'*' count refl, trim_end-flat (name ∷ args) h) refl

parse_array-flat :
    (name : Text) (args : List Text)
    → 24 * length (name ∷ args) < 2 ^ 63
    → parse_array ((b'*' ∷ to_decimal (length (name ∷ args))) ∷ flat (name ∷ args))
      ≡ command (record { name = to_ascii_uppercase name; args = args })
unfolding parse_array strip_prefix values_of
parse_array-flat name args h =
    let count = length (name ∷ args) in
    let bounded : count < 2 ^ 64 = omega (arith, h) in
    rw
      (
        parse_unsigned-to_decimal (2 ^ 64) count bounded,
        lt→ltb (24 * count) (2 ^ 63) h,
        values_loop-flat (name ∷ args),
      )
      refl

-- A command that is written as an array of bulks is read as its name, in upper case, and its arguments, if
-- every value consists of Unicode scalar values, has no line feed and ends in a character that is no
-- white space, and the strings of as many values fit in memory.
pub parse_redis_command-redis_array :
    (name : Text) (args : List Text)
    → All IsValue (name ∷ args)
    → 24 * length (name ∷ args) < 2 ^ 63
    → parse_redis_command (redis_array (name ∷ args))
      ≡ command (record { name = to_ascii_uppercase name; args = args })
unfolding parse_redis_command starts_with
parse_redis_command-redis_array name args h few =
    ap parse_redis_command (redis_array-utf8 name args)
    ∙ ap parse_decoded (
        from_utf8-utf8 (array_body name args ++ (0x0d ∷ 0x0a ∷ [])) (array_body-IsChar name args h))
    ∙ ap parse_text (trim_matches-array_body name args h)
    ∙ ap parse_array (lines-array_body name args h)
    ∙ parse_array-flat name args few
