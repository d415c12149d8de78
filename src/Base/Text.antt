-- ===== src/Base/Text.antt =====
-- The text functions of the Rust standard library that the sources call. A `String` is the list of
-- its code points; `utf8` gives its bytes.
pub mod Utf8
pub mod Lines
pub mod Decimal
pub mod Trim
pub mod Lengths
use Prim.Native.Char.{code}
use Prim.Native.String.{String}
use seclab_suite_protocol_si.Base.Tests.{if◌then◌else◌, leb, ltb, ◌==◌}
use seclab_suite_protocol_si.Base.Lists.{any, is_empty}
use Prim.Native.Nat.{ℕ, zero, suc, ◌+◌, ◌-◌, ◌*◌, ◌/◌, ◌%◌}
use mathlib.Core.Bool.{Bool, true, false, not, ◌&&◌, ◌||◌}
use mathlib.Core.Path.{◌≡◌, refl}
use native.Mathlib.Omega.{arith}
use mathlib.Core.Option.{Option, none, some}
use mathlib.Core.List.{List, [], ◌∷◌, ◌++◌, map, reverse}

abbrev pub Text : Type 0
Text = List ℕ

-- The code points of a literal.
abbrev pub codes : String → Text
codes String.[] = []
codes (String.◌∷◌ c s) = code c ∷ codes s

-- `==`
unfoldable pub text_eq : Text → Text → Bool
text_eq [] [] = true
text_eq (a ∷ s) (b ∷ t) = a == b && text_eq s t
text_eq _ _ = false

pub text_eq_sound : (s t : Text) → text_eq s t ≡ true → s ≡ t
unfolding text_eq
text_eq_sound [] [] h = refl
text_eq_sound [] (b ∷ t) h = cc
text_eq_sound (a ∷ s) [] h = cc
text_eq_sound (a ∷ s) (b ∷ t) h = ground (arith, text_eq_sound s t)

pub text_eq_refl : (s : Text) → text_eq s s ≡ true
unfolding text_eq
text_eq_refl [] = refl
text_eq_refl (a ∷ s) = ground (arith, text_eq_refl s)

-- Is the text one of these literals? A match with several alternatives.
abbrev pub is_one_of : Text → List Text → Bool
is_one_of t names = any (text_eq t) names

abbrev pub within : ℕ → ℕ → ℕ → Bool
within lo hi c = leb lo c && leb c hi

-- `char::is_whitespace`
unfoldable pub is_whitespace : ℕ → Bool
is_whitespace c =
    within 0x09 0x0d c
    || c == 0x20
    || c == 0x85
    || c == 0xa0
    || c == 0x1680
    || within 0x2000 0x200a c
    || c == 0x2028
    || c == 0x2029
    || c == 0x202f
    || c == 0x205f
    || c == 0x3000

-- `trim_start_matches` of a set of characters
unfoldable pub trim_start_matches : (ℕ → Bool) → Text → Text
trim_start_matches p [] = []
trim_start_matches p (c ∷ t) = let rest = trim_start_matches p t in if p c then rest else c ∷ t

unfoldable pub trim_end_matches : (ℕ → Bool) → Text → Text
unfolding trim_start_matches
trim_end_matches p t = reverse (trim_start_matches p (reverse t))

unfoldable pub trim_matches : (ℕ → Bool) → Text → Text
unfolding trim_end_matches
trim_matches p t = trim_end_matches p (trim_start_matches p t)

unfoldable pub trim_end : Text → Text
unfolding trim_end_matches is_whitespace
trim_end = trim_end_matches is_whitespace

unfoldable pub trim : Text → Text
unfolding trim_matches is_whitespace
trim = trim_matches is_whitespace

-- `['\r', '\n']` as a pattern
abbrev pub is_line_end : ℕ → Bool
is_line_end c = c == 0x0d || c == 0x0a

abbrev pub lower_char : ℕ → ℕ
lower_char c = if within b'A' b'Z' c then c + 32 else c

abbrev pub upper_char : ℕ → ℕ
upper_char c = if within b'a' b'z' c then c - 32 else c

unfoldable pub to_ascii_lowercase : Text → Text
to_ascii_lowercase = map lower_char

unfoldable pub to_ascii_uppercase : Text → Text
to_ascii_uppercase = map upper_char

unfoldable pub eq_ignore_ascii_case : Text → Text → Bool
unfolding text_eq to_ascii_lowercase
eq_ignore_ascii_case s t = text_eq (to_ascii_lowercase s) (to_ascii_lowercase t)

unfoldable pub starts_with : Text → Text → Bool
starts_with t [] = true
starts_with [] (p ∷ prefix) = false
starts_with (c ∷ t) (p ∷ prefix) = c == p && starts_with t prefix

-- `t.contains(needle)`
unfoldable pub contains : Text → Text → Bool
unfolding starts_with
contains [] needle = starts_with [] needle
contains (c ∷ t) needle = starts_with (c ∷ t) needle || contains t needle

unfoldable pub strip_prefix : Text → Text → Option Text
strip_prefix t [] = some t
strip_prefix [] (p ∷ prefix) = none
strip_prefix (c ∷ t) (p ∷ prefix) =
    let rest = strip_prefix t prefix in if c == p then rest else none

-- One more character in front of the first piece.
abbrev pub onto_first : ℕ → List Text → List Text
onto_first c [] = (c ∷ []) ∷ []
onto_first c (piece ∷ pieces) = (c ∷ piece) ∷ pieces

-- `split` at a set of characters; there is one piece at least.
unfoldable pub split : (ℕ → Bool) → Text → List Text
split p [] = [] ∷ []
split p (c ∷ t) = let rest = split p t in if p c then [] ∷ rest else onto_first c rest

abbrev pub drop_empty : List Text → List Text
drop_empty [] = []
drop_empty (piece ∷ pieces) =
    if is_empty piece then drop_empty pieces else piece ∷ drop_empty pieces

unfoldable pub split_whitespace : Text → List Text
unfolding split is_whitespace
split_whitespace t = drop_empty (split is_whitespace t)

abbrev pub first_with : ℕ → Option (Text × Text) → Option (Text × Text)
first_with c none = none
first_with c (some (a, b)) = some (c ∷ a, b)

-- `split_once(' ')` and the like
unfoldable pub split_once : ℕ → Text → Option (Text × Text)
split_once sep [] = none
split_once sep (c ∷ t) =
    let rest = split_once sep t in if c == sep then some ([], t) else first_with c rest

unfoldable pub join : Text → List Text → Text
join sep [] = []
join sep (t ∷ []) = t
join sep (t ∷ u ∷ ts) = t ++ (sep ++ join sep (u ∷ ts))

-- `{}` of an unsigned number
unfoldable pub digits_loop : ℕ → ℕ → Text → Text
digits_loop zero n out = out
digits_loop (suc fuel) n out =
    let more = digits_loop fuel (n / 10) ((b'0' + n % 10) ∷ out) in
    if ltb n 10 then (b'0' + n) ∷ out else more

unfoldable pub to_decimal : ℕ → Text
unfolding digits_loop
to_decimal n = digits_loop (suc n) n []

-- The digits of an unsigned number below `bound`.
unfoldable pub parse_digits : ℕ → ℕ → Text → Option ℕ
parse_digits bound n [] = some n
parse_digits bound n (c ∷ t) =
    let next = n * 10 + (c - b'0') in
    let rest = parse_digits bound next t in
    if within b'0' b'9' c && ltb next bound then rest else none

abbrev pub parse_nonempty : ℕ → Text → Option ℕ
parse_nonempty bound [] = none
parse_nonempty bound (c ∷ t) = parse_digits bound 0 (c ∷ t)

-- `str::parse` for the unsigned type of the numbers below `bound`: a plus sign may stand in front.
unfoldable pub parse_unsigned : ℕ → Text → Option ℕ
unfolding parse_digits
parse_unsigned bound [] = none
parse_unsigned bound (c ∷ t) =
    if c == b'+' then parse_nonempty bound t else parse_nonempty bound (c ∷ t)
