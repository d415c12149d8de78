-- ===== src/Base/Text/Trim.antt =====
-- What trimming leaves of a text that is put together.
use seclab_suite_protocol_si.Base.Lists.{All}
use seclab_suite_protocol_si.Base.Text.{Text, trim_end_matches, trim_start_matches}
use Prim.Native.Nat.{ℕ}
use mathlib.Core.Bool.{Bool, true, false}
use native.Mathlib.Omega.{arith}
use mathlib.Core.Path.{◌≡◌, refl, ◌∙◌, ap, sym}
use mathlib.Core.List.{
  [], ◌∷◌, ◌++◌, reverse, reverse-append, reverse-cons, reverse-reverse, append_assoc,
}

module _ (p : ℕ → Bool) where
  trim_start_matches-append :
      (t : Text) (c : ℕ)
      → p c ≡ false
      → trim_start_matches p (t ++ (c ∷ [])) ≡ trim_start_matches p t ++ (c ∷ [])
  unfolding trim_start_matches
  trim_start_matches-append [] c kept = rw kept refl
  trim_start_matches-append (d ∷ t) c kept = ground (arith, trim_start_matches-append t c kept)

  -- A first character that is kept.
  pub trim_end_matches-cons :
      (c : ℕ) (t : Text) → p c ≡ false → trim_end_matches p (c ∷ t) ≡ c ∷ trim_end_matches p t
  unfolding trim_end_matches
  trim_end_matches-cons c t kept =
      ap (λ (r : Text). reverse (trim_start_matches p r)) (reverse-cons c t)
      ∙ ap reverse (trim_start_matches-append (reverse t) c kept)
      ∙ reverse-append (trim_start_matches p (reverse t)) (c ∷ [])

  -- A last character that is trimmed.
  pub trim_end_matches-last :
      (t : Text) (c : ℕ) → p c ≡ true → trim_end_matches p (t ++ (c ∷ [])) ≡ trim_end_matches p t
  unfolding trim_end_matches trim_start_matches
  trim_end_matches-last t c trimmed =
      ap (λ (r : Text). reverse (trim_start_matches p r)) (reverse-append t (c ∷ []))
      ∙ rw trimmed refl

  pub trim_end_matches-All : (t : Text) → All (λ c. p c ≡ false) t → trim_end_matches p t ≡ t
  unfolding trim_end_matches trim_start_matches
  trim_end_matches-All [] h = refl
  trim_end_matches-All (c ∷ t) (kept, h) =
      trim_end_matches-cons c t kept ∙ ap (λ (r : Text). c ∷ r) (trim_end_matches-All t h)

-- The text ends with a character that is kept.
abbrev pub EndsKept : (ℕ → Bool) → Text → Type 0
EndsKept p t = (init : Text) × (c : ℕ) × (t ≡ init ++ (c ∷ [])) × (p c ≡ false)

module _ (p : ℕ → Bool) where
  pub EndsKept-append : (s t : Text) → EndsKept p t → EndsKept p (s ++ t)
  EndsKept-append s t (init, c, parts, kept) =
      (s ++ init, c, ap (λ (r : Text). s ++ r) parts ∙ sym (append_assoc s init (c ∷ [])), kept)

  pub EndsKept-cons : (c : ℕ) (t : Text) → EndsKept p t → EndsKept p (c ∷ t)
  EndsKept-cons c t h = EndsKept-append (c ∷ []) t h

  pub trim_end_matches-EndsKept : (t : Text) → EndsKept p t → trim_end_matches p t ≡ t
  unfolding trim_end_matches trim_start_matches
  trim_end_matches-EndsKept t (init, c, parts, kept) = rw parts (
      ap (λ (r : Text). reverse (trim_start_matches p r)) (reverse-append init (c ∷ []))
      ∙ rw kept
          (sym (ap reverse (reverse-append init (c ∷ []))) ∙ reverse-reverse (init ++ (c ∷ []))))
