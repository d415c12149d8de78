-- ===== src/Base/Text/Lengths.antt =====
-- Trimming and cutting into lines make no text longer.
use seclab_suite_protocol_si.Base.Tests.{Bool-cases}
use seclab_suite_protocol_si.Base.Lists.{All, is_empty, length, length-append}
use seclab_suite_protocol_si.Base.Text.{
  Text, is_whitespace, onto_first, split, trim, trim_end_matches, trim_matches, trim_start_matches,
}
use seclab_suite_protocol_si.Base.Text.Lines.{is_feed, lines, lines_of, strip_return}
use Prim.Native.Nat.{ℕ, suc, ◌≤◌}
use mathlib.Core.Bool.{Bool}
use mathlib.Core.Logic.{inl, inr}
use mathlib.Core.Path.{◌≡◌, refl, ap}
use mathlib.Core.List.{List, [], ◌∷◌, ◌++◌, map, reverse, reverse-cons}
use native.Mathlib.Omega.{arith}

length-trim_start_matches : (p : ℕ → Bool) (t : Text) → length (trim_start_matches p t) ≤ length t
unfolding trim_start_matches
length-trim_start_matches p [] = omega arith
length-trim_start_matches p (c ∷ t) = elim (Bool-cases (p c)) [
  | inl yes_it_is ↦ rw yes_it_is (omega (arith, length-trim_start_matches p t))
  | inr kept ↦ rw kept (omega arith)
]

length-reverse : (t : Text) → length (reverse t) ≡ length t
length-reverse [] = refl
length-reverse (c ∷ t) =
    let snoc = length-append (reverse t) (c ∷ []) in
    let same : length (reverse (c ∷ t)) ≡ length (reverse t ++ (c ∷ [])) =
      ap length (reverse-cons c t) in
    omega (arith, snoc, same, length-reverse t)

length-trim : (t : Text) → length (trim t) ≤ length t
unfolding trim trim_matches trim_end_matches
length-trim t =
    let cut = trim_start_matches is_whitespace t in
    omega (
      arith,
      length-trim_start_matches is_whitespace t,
      length-reverse cut,
      length-trim_start_matches is_whitespace (reverse cut),
      length-reverse (trim_start_matches is_whitespace (reverse cut)),
    )

-- None of the texts is longer.
abbrev pub AreWithin : ℕ → List Text → Type 0
AreWithin n texts = All (λ t. length t ≤ n) texts

AreWithin-more : (m n : ℕ) (texts : List Text) → m ≤ n → AreWithin m texts → AreWithin n texts
AreWithin-more m n [] le h = tt
AreWithin-more m n (t ∷ texts) le (short, h) =
    (omega (arith, short, le), AreWithin-more m n texts le h)

onto_first-AreWithin :
    (c n : ℕ) (texts : List Text) → AreWithin n texts → AreWithin (suc n) (onto_first c texts)
onto_first-AreWithin c n [] h = (omega arith, tt)
onto_first-AreWithin c n (t ∷ texts) (short, h) =
    (omega (arith, short), AreWithin-more n (suc n) texts (omega arith) h)

split-AreWithin : (p : ℕ → Bool) (t : Text) → AreWithin (length t) (split p t)
unfolding split
split-AreWithin p [] = (omega arith, tt)
split-AreWithin p (c ∷ t) = elim (Bool-cases (p c)) [
  | inl cuts ↦ rw cuts (
    omega arith,
    AreWithin-more (length t) (suc (length t)) (split p t) (omega arith) (split-AreWithin p t),
  )
  | inr stays ↦ rw stays (onto_first-AreWithin c (length t) (split p t) (split-AreWithin p t))
]

length-strip_return : (t : Text) → length (strip_return t) ≤ length t
length-strip_return [] = omega arith
length-strip_return (c ∷ []) = ground arith
length-strip_return (c ∷ d ∷ t) = omega (arith, length-strip_return (d ∷ t))

lines_of-AreWithin : (n : ℕ) (texts : List Text) → AreWithin n texts → AreWithin n (lines_of texts)
lines_of-AreWithin n [] h = tt
lines_of-AreWithin n (last ∷ []) h = elim (Bool-cases (is_empty last)) [
  | inl nothing_left ↦ rw nothing_left tt
  | inr full ↦ rw full h
]
lines_of-AreWithin n (t ∷ u ∷ texts) (short, h) =
    (omega (arith, short, length-strip_return t), lines_of-AreWithin n (u ∷ texts) h)

map-trim-AreWithin : (n : ℕ) (texts : List Text) → AreWithin n texts → AreWithin n (map trim texts)
map-trim-AreWithin n [] h = tt
map-trim-AreWithin n (t ∷ texts) (short, h) =
    (omega (arith, short, length-trim t), map-trim-AreWithin n texts h)

-- The lines of a text, without the white space around them.
pub lines-AreWithin : (t : Text) → AreWithin (length t) (map trim (lines t))
unfolding lines
lines-AreWithin t =
    map-trim-AreWithin (length t) (lines_of (split is_feed t))
      (lines_of-AreWithin (length t) (split is_feed t) (split-AreWithin is_feed t))
