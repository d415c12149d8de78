-- ===== src/Memcached/Stream.antt =====
-- The commands of a stream, however it is cut into reads.
use seclab_suite_protocol_si.Base.{
  Bool-cases, List, [], ap, arith, false, if◌then◌else◌, inl, inr, is_empty, leb, length, none,
  refl, some, suc, ℕ, ◌++◌, ◌+◌, ◌<◌, ◌==◌, ◌∙◌, ◌∷◌, ◌≡◌, ◌≤◌,
}
use seclab_suite_protocol_si.Base.Bits.{Bytes}
use seclab_suite_protocol_si.Base.Text.{trim}
use seclab_suite_protocol_si.Base.Text.Utf8.{from_utf8_lossy}
use seclab_suite_protocol_si.Report.{Peer}
use seclab_suite_protocol_si.Session.{Event}
use seclab_suite_protocol_si.Memcached.{
  Drained, MemcachedContext, command_events, drain_line, max_commands, returns, waits,
}

abbrev onto_complete : ℕ → List Bytes × Bytes → List Bytes × Bytes
onto_complete b ([], left) = ([], b ∷ left)
onto_complete b (line ∷ lines, left) = ((b ∷ line) ∷ lines, left)

-- The complete lines of some bytes, and what is left behind the last of them.
abbrev pub complete : Bytes → List Bytes × Bytes
complete [] = ([], [])
complete (b ∷ bytes) =
    let rest = complete bytes in
    if b == b'\n' then ((b ∷ []) ∷ rest.0, rest.1) else onto_complete b rest

-- What lines lead to: the events and the count of the commands, or the events up to the last command.
pub data Answered : Type 0 where
  answered : List Event → ℕ → Answered
  ended : List Event → Answered

abbrev pub before : List Event → Answered → Answered
before events (answered more count) = answered (events ++ more) count
before events (ended more) = ended (events ++ more)

abbrev pub then_answered : Answered → (ℕ → Answered) → Answered
then_answered (answered events count) k = before events (k count)
then_answered (ended events) k = ended events

abbrev pub events_of : Answered → List Event
events_of (answered events count) = events
events_of (ended events) = events

abbrev pub with_left : Bytes → Answered → Drained
with_left left (answered events count) = waits events left count
with_left left (ended events) = returns events

-- Every line that is not blank is a command and is answered, up to the 32nd.
unfoldable pub answer_lines : MemcachedContext → Peer → ℕ → List Bytes → Answered
unfolding command_events from_utf8_lossy trim
answer_lines ctx peer commands [] = answered [] commands
answer_lines ctx peer commands (line ∷ lines) =
    let command = from_utf8_lossy line in
    let count = if is_empty (trim command) then commands else commands + 1 in
    let more = answer_lines ctx peer count lines in
    if is_empty (trim command)
    then more
    else if leb max_commands count
    then ended (command_events ctx peer command)
    else before (command_events ctx peer command) more

-- How the complete lines come off the pending bytes.
abbrev pub Splits : Bytes → List Bytes × Bytes → Type 0
Splits pending ([], left) = (drain_line pending ≡ none) × (left ≡ pending)
Splits pending (line ∷ lines, left) =
    (rest : Bytes) × (drain_line pending ≡ some (line, rest))
    × (complete rest ≡ (lines, left))
    × (length rest < length pending)

onto_complete-Splits :
    (b : ℕ) (bytes : Bytes) (c : List Bytes × Bytes)
    → (b == b'\n') ≡ false
    → Splits bytes c
    → Splits (b ∷ bytes) (onto_complete b c)
onto_complete-Splits b bytes ([], left) other (no_line, same) =
    (rw (other, no_line) refl, ap (λ l. b ∷ l) same)
onto_complete-Splits b bytes (line ∷ lines, left) other (rest, first, behind, shorter) =
    (rest, rw (other, first) refl, behind, omega (arith, shorter))

pub complete-Splits : (bytes : Bytes) → Splits bytes (complete bytes)
complete-Splits [] = (refl, refl)
complete-Splits (b ∷ bytes) = elim (Bool-cases (b == b'\n')) [
  | inl feed ↦ rw feed (bytes, rw feed refl, refl, omega arith)
  | inr other ↦
      rw other (onto_complete-Splits b bytes (complete bytes) other (complete-Splits bytes))
]

onto_complete-left :
    (b : ℕ) (c : List Bytes × Bytes)
    → (b == b'\n') ≡ false
    → complete c.1 ≡ ([], c.1)
    → complete (onto_complete b c).1 ≡ ([], (onto_complete b c).1)
onto_complete-left b ([], left) other h = rw (other, h) refl
onto_complete-left b (line ∷ lines, left) other h = h

-- What is left has no complete line, and it is no longer.
pub complete-left : (bytes : Bytes) → complete (complete bytes).1 ≡ ([], (complete bytes).1)
complete-left [] = refl
complete-left (b ∷ bytes) = elim (Bool-cases (b == b'\n')) [
  | inl feed ↦ rw feed (complete-left bytes)
  | inr other ↦ rw other (onto_complete-left b (complete bytes) other (complete-left bytes))
]

onto_complete-length :
    (b n : ℕ) (c : List Bytes × Bytes) → length c.1 ≤ n → length (onto_complete b c).1 ≤ suc n
onto_complete-length b n ([], left) h = omega (arith, h)
onto_complete-length b n (line ∷ lines, left) h = omega (arith, h)

pub length-complete : (bytes : Bytes) → length (complete bytes).1 ≤ length bytes
length-complete [] = omega arith
length-complete (b ∷ bytes) = elim (Bool-cases (b == b'\n')) [
  | inl feed ↦ rw feed (omega (arith, length-complete bytes))
  | inr other ↦
      rw other (onto_complete-length b (length bytes) (complete bytes) (length-complete bytes))
]

-- The lines of two parts of a stream.
abbrev pub joined : List Bytes × Bytes → Bytes → List Bytes × Bytes
joined c more = (c.0 ++ (complete (c.1 ++ more)).0, (complete (c.1 ++ more)).1)

onto_complete-joined :
    (b : ℕ) (c : List Bytes × Bytes) (more : Bytes)
    → (b == b'\n') ≡ false
    → onto_complete b (joined c more) ≡ joined (onto_complete b c) more
onto_complete-joined b ([], left) more other = rw other refl
onto_complete-joined b (line ∷ lines, left) more other = refl

pub complete-append : (bytes more : Bytes) → complete (bytes ++ more) ≡ joined (complete bytes) more
complete-append [] more = refl
complete-append (b ∷ bytes) more = elim (Bool-cases (b == b'\n')) [
  | inl feed ↦
      rw feed (ap (λ (c : List Bytes × Bytes). ((b ∷ []) ∷ c.0, c.1)) (complete-append bytes more))
  | inr other ↦ rw other (
      ap (onto_complete b) (complete-append bytes more)
      ∙ onto_complete-joined b (complete bytes) more other)
]
