-- ===== src/Base/Text/Utf8.antt =====
-- `String::as_bytes` and `String::from_utf8`, and that the second undoes the first.
use seclab_suite_protocol_si.Base.Tests.{if◌then◌else◌, leb, ltb, ◌==◌}
use seclab_suite_protocol_si.Base.Bits.{Bytes}
use seclab_suite_protocol_si.Base.Lists.{All, length}
use Prim.Native.Nat.{ℕ, zero, suc, ◌+◌, ◌-◌, ◌*◌, ◌/◌, ◌%◌, ◌<◌, ◌≤◌}
use mathlib.Core.Bool.{Bool, true, false, ◌&&◌}
use mathlib.Core.Option.{Option, none, some}
use mathlib.Core.Logic.{◌⊎◌}
use mathlib.Core.Path.{◌≡◌, refl, subst}
use mathlib.Core.List.{List, [], ◌∷◌, ◌++◌}
use native.Mathlib.Omega.{arith}

-- The bytes of one code point.
unfoldable pub utf8_char : ℕ → Bytes
utf8_char c =
    if ltb c 0x80
    then c ∷ []
    else if ltb c 0x800
    then (0xc0 + c / 64) ∷ (0x80 + c % 64) ∷ []
    else if ltb c 0x10000
    then (0xe0 + c / 4096) ∷ (0x80 + c / 64 % 64) ∷ (0x80 + c % 64) ∷ []
    else (0xf0 + c / 262144) ∷ (0x80 + c / 4096 % 64) ∷ (0x80 + c / 64 % 64) ∷ (0x80 + c % 64) ∷ []

unfoldable pub utf8 : List ℕ → Bytes
utf8 [] = []
utf8 (c ∷ t) = utf8_char c ++ utf8 t

-- Inside a character: how many bytes follow the next one, the range of the next one, the bits so far.
pub data State : Type 0 where
  start : State
  inside : ℕ → ℕ → ℕ → ℕ → State

-- The state behind a byte, and the code point that it ends.
pub data Next : Type 0 where
  done : ℕ → Next
  goes : State → Next
  bad : Next

abbrev between : ℕ → ℕ → ℕ → Bool
between lo hi b = leb lo b && leb b hi

utf8_step : State → ℕ → Next
utf8_step start b =
    if ltb b 0x80
    then done b
    else if between 0xc2 0xdf b
    then goes (inside 0 0x80 0xbf (b - 0xc0))
    else if b == 0xe0
    then goes (inside 1 0xa0 0xbf 0)
    else if b == 0xed
    then goes (inside 1 0x80 0x9f 0x0d)
    else if between 0xe1 0xef b
    then goes (inside 1 0x80 0xbf (b - 0xe0))
    else if b == 0xf0
    then goes (inside 2 0x90 0xbf 0)
    else if between 0xf1 0xf3 b
    then goes (inside 2 0x80 0xbf (b - 0xf0))
    else if b == 0xf4
    then goes (inside 2 0x80 0x8f 4)
    else bad
utf8_step (inside zero lo hi bits) b =
    if between lo hi b then done (bits * 64 + (b - 0x80)) else bad
utf8_step (inside (suc n) lo hi bits) b =
    if between lo hi b then goes (inside n 0x80 0xbf (bits * 64 + (b - 0x80))) else bad

abbrev cons_some : ℕ → Option (List ℕ) → Option (List ℕ)
cons_some c none = none
cons_some c (some t) = some (c ∷ t)

decode_from : State → Bytes → Option (List ℕ)
unfolding utf8_step
decode_from start [] = some []
decode_from (inside _ _ _ _) [] = none
decode_from s (b ∷ bytes) = elim (utf8_step s b) [
  | done c ↦ cons_some c (decode_from start bytes)
  | goes s' ↦ decode_from s' bytes
  | bad ↦ none
]

unfoldable pub from_utf8 : Bytes → Option (List ℕ)
unfolding decode_from
from_utf8 = decode_from start

-- A Unicode scalar value: what a Rust `char` holds.
abbrev pub IsChar : ℕ → Type 0
IsChar c = (c < 0xd800) ⊎ ((0xdfff < c) × (c < 0x110000))

decode_from-utf8_char :
    (c : ℕ) (rest : Bytes)
    → IsChar c
    → decode_from start (utf8_char c ++ rest) ≡ cons_some c (decode_from start rest)
unfolding decode_from utf8_char
decode_from-utf8_char c rest h = ground arith

-- The bytes of a text are valid and stand for the text.
pub from_utf8-utf8 : (t : List ℕ) → All IsChar t → from_utf8 (utf8 t) ≡ some t
unfolding from_utf8 utf8
from_utf8-utf8 [] h = refl
from_utf8-utf8 (c ∷ t) h =
    ground (arith, decode_from-utf8_char c (utf8 t) h.0, from_utf8-utf8 t h.1)

abbrev AtMost : ℕ → Option (List ℕ) → Type 0
AtMost n none = Unit
AtMost n (some t) = length t ≤ n

cons_some-AtMost : (c n : ℕ) (o : Option (List ℕ)) → AtMost n o → AtMost (suc n) (cons_some c o)
cons_some-AtMost c n none h = tt
cons_some-AtMost c n (some t) h = omega (arith, h)

AtMost-more : (n : ℕ) (o : Option (List ℕ)) → AtMost n o → AtMost (suc n) o
AtMost-more n none h = tt
AtMost-more n (some t) h = omega (arith, h)

decode_from-AtMost : (s : State) (bytes : Bytes) → AtMost (length bytes) (decode_from s bytes)
unfolding decode_from
decode_from-AtMost start [] = omega arith
decode_from-AtMost (inside _ _ _ _) [] = tt
decode_from-AtMost s (b ∷ bytes) =
    elim (utf8_step s b)
      as (λ n. AtMost (suc (length bytes)) (elim n [
        | done c ↦ cons_some c (decode_from start bytes)
        | goes s' ↦ decode_from s' bytes
        | bad ↦ none
      ])) [
        | done c ↦
            cons_some-AtMost c (length bytes) (decode_from start bytes)
              (decode_from-AtMost start bytes)
        | goes s' ↦ AtMost-more (length bytes) (decode_from s' bytes) (decode_from-AtMost s' bytes)
        | bad ↦ tt
      ]

-- A text has no more characters than its bytes.
pub length-from_utf8 :
    (bytes : Bytes) {t : List ℕ} → from_utf8 bytes ≡ some t → length t ≤ length bytes
unfolding from_utf8
length-from_utf8 bytes decoded =
    subst (AtMost (length bytes)) decoded (decode_from-AtMost start bytes)

-- A byte that cannot follow is read again as the first of a character.
abbrev lossy_again : Next → (ℕ → List ℕ) → (State → List ℕ) → List ℕ → List ℕ
lossy_again (done c) k j rest = 0xfffd ∷ k c
lossy_again (goes s) k j rest = 0xfffd ∷ j s
lossy_again bad k j rest = 0xfffd ∷ (0xfffd ∷ rest)

abbrev is_start : State → Bool
is_start start = true
is_start (inside _ _ _ _) = false

lossy_from : State → Bytes → List ℕ
unfolding utf8_step
lossy_from start [] = []
lossy_from (inside _ _ _ _) [] = 0xfffd ∷ []
lossy_from s (b ∷ bytes) =
    let rest = lossy_from start bytes in
    elim (utf8_step s b) [
      | done c ↦ c ∷ rest
      | goes s' ↦ lossy_from s' bytes
      | bad ↦
          if is_start s
          then 0xfffd ∷ rest
          else lossy_again (utf8_step start b) (λ c. c ∷ rest) (λ s'. lossy_from s' bytes) rest
    ]

-- `String::from_utf8_lossy`: the longest beginning of a character that goes wrong becomes U+FFFD.
unfoldable pub from_utf8_lossy : Bytes → List ℕ
unfolding lossy_from
from_utf8_lossy = lossy_from start
