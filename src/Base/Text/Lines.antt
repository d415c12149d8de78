-- ===== src/Base/Text/Lines.antt =====
-- `str::lines`, and how lines that are written one behind the other are read back.
use seclab_suite_protocol_si.Base.Tests.{if◌then◌else◌, ◌==◌}
use seclab_suite_protocol_si.Base.Lists.{All, All-append, is_empty}
use seclab_suite_protocol_si.Base.Text.{Text, split}
use Prim.Native.Nat.{ℕ}
use mathlib.Core.Bool.{Bool, false}
use mathlib.Core.Path.{◌≡◌, refl, ap, sym, ◌∙◌}
use mathlib.Core.List.{List, [], ◌∷◌, ◌++◌, append_assoc}
use native.Mathlib.Omega.{arith}

-- The line without a carriage return at its end.
abbrev pub strip_return : Text → Text
strip_return [] = []
strip_return (c ∷ []) = if c == 0x0d then [] else c ∷ []
strip_return (c ∷ d ∷ t) = c ∷ strip_return (d ∷ t)

-- Of the pieces between the line feeds, the last is a line if it is not empty, and it keeps its carriage return.
abbrev pub lines_of : List Text → List Text
lines_of [] = []
lines_of (last ∷ []) = if is_empty last then [] else last ∷ []
lines_of (line ∷ next_line ∷ pieces) = strip_return line ∷ lines_of (next_line ∷ pieces)

abbrev pub is_feed : ℕ → Bool
is_feed c = c == 0x0a

unfoldable pub lines : Text → List Text
unfolding split
lines t = lines_of (split is_feed t)

abbrev pub IsNoFeed : Text → Type 0
IsNoFeed t = All (λ c. is_feed c ≡ false) t

split-feed : (s t : Text) → IsNoFeed s → split is_feed (s ++ (0x0a ∷ t)) ≡ s ∷ split is_feed t
unfolding split
split-feed [] t h = refl
split-feed (c ∷ s) t (other, h) = rw (other, split-feed s t h) refl

split-IsNoFeed : (s : Text) → IsNoFeed s → split is_feed s ≡ s ∷ []
unfolding split
split-IsNoFeed [] h = refl
split-IsNoFeed (c ∷ s) (other, h) = rw (other, split-IsNoFeed s h) refl

split-is_empty : (t : Text) → is_empty (split is_feed t) ≡ false
unfolding split
split-is_empty [] = refl
split-is_empty (c ∷ t) = ground arith

strip_return-append : (s : Text) → strip_return (s ++ (0x0d ∷ [])) ≡ s
strip_return-append [] = refl
strip_return-append (c ∷ []) = refl
strip_return-append (c ∷ d ∷ s) = ap (λ (r : Text). c ∷ r) (strip_return-append (d ∷ s))

lines_of-cons :
    (line : Text) (pieces : List Text)
    → is_empty pieces ≡ false
    → lines_of (line ∷ pieces) ≡ strip_return line ∷ lines_of pieces
lines_of-cons line [] h = cc
lines_of-cons line (piece ∷ pieces) h = refl

-- A line, its end, and what follows.
pub lines-line : (s t : Text) → IsNoFeed s → lines (s ++ (0x0d ∷ 0x0a ∷ t)) ≡ s ∷ lines t
unfolding lines
lines-line s t h =
    let behind = All-append (λ c. is_feed c ≡ false) s (0x0d ∷ []) h (refl, tt) in
    ap (λ (r : Text). lines_of (split is_feed r)) (sym (append_assoc s (0x0d ∷ []) (0x0a ∷ t)))
    ∙ ap lines_of (split-feed (s ++ (0x0d ∷ [])) t behind)
    ∙ lines_of-cons (s ++ (0x0d ∷ [])) (split is_feed t) (split-is_empty t)
    ∙ ap (λ (line : Text). line ∷ lines_of (split is_feed t)) (strip_return-append s)

-- A last line without an end.
pub lines-last : (s : Text) → IsNoFeed s → is_empty s ≡ false → lines s ≡ s ∷ []
unfolding lines
lines-last s h full = rw (split-IsNoFeed s h, full) refl
