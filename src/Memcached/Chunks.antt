-- ===== src/Memcached/Chunks.antt =====
-- What a connection answers does not depend on how its stream is cut into reads.
use seclab_suite_protocol_si.Base.{
  All, Bool-cases, List, [], ap, append-nil, append_assoc, arith, false, inl, inr, is_empty, leb,
  length, length-append, ltb, refl, subst, suc, sym, zero, ℕ, ◌++◌, ◌+◌, ◌<◌, ◌∙◌, ◌∷◌, ◌≡◌, ◌≤◌,
}
use seclab_suite_protocol_si.Base.Bits.{Bytes}
use seclab_suite_protocol_si.Base.Text.{trim}
use seclab_suite_protocol_si.Base.Text.Utf8.{from_utf8_lossy}
use seclab_suite_protocol_si.Report.{Peer}
use seclab_suite_protocol_si.Session.{Event, Trace, finished, then_trace}
use seclab_suite_protocol_si.Memcached.{
  Drained, MemcachedContext, MemcachedError, after_drained, command_events, drain_loop,
  handle_memcached, max_commands, max_request_size, read_loop, then_drained, waits,
}
use seclab_suite_protocol_si.Memcached.Stream.{
  Answered, Splits, answer_lines, answered, before, complete, complete-Splits, complete-append,
  complete-left, ended, events_of, length-complete, then_answered, with_left,
}

-- The stream of the chunks.
abbrev pub concat : List Bytes → Bytes
concat [] = []
concat (chunk ∷ chunks) = chunk ++ concat chunks

with_left-before :
    (events : List Event) (left : Bytes) (a : Answered)
    → then_drained events (with_left left a) ≡ with_left left (before events a)
with_left-before events left (answered more count) = refl
with_left-before events left (ended more) = refl

before-before :
    (events more : List Event) (a : Answered)
    → before events (before more a) ≡ before (events ++ more) a
before-before events more (answered rest count) =
    ap (λ (l : List Event). answered l count) (sym (append_assoc events more rest))
before-before events more (ended rest) = ap ended (sym (append_assoc events more rest))

before-nothing : (a : Answered) → before [] a ≡ a
before-nothing (answered events count) = refl
before-nothing (ended events) = refl

events_of-before :
    (events : List Event) (a : Answered) → events ++ events_of a ≡ events_of (before events a)
events_of-before events (answered more count) = refl
events_of-before events (ended more) = refl

before-then_answered :
    (events : List Event) (a : Answered) (k : ℕ → Answered)
    → before events (then_answered a k) ≡ then_answered (before events a) k
before-then_answered events (ended more) k = refl
before-then_answered events (answered more count) k = before-before events more (k count)

module _ (ctx : MemcachedContext) (peer : Peer) where
  answer_lines-append :
      (commands : ℕ) (lines more : List Bytes)
      → answer_lines ctx peer commands (lines ++ more)
        ≡ then_answered
            (answer_lines ctx peer commands lines)
            (λ count. answer_lines ctx peer count more)
  unfolding answer_lines
  answer_lines-append commands [] more = sym (before-nothing (answer_lines ctx peer commands more))
  answer_lines-append commands (line ∷ lines) more =
      let command = from_utf8_lossy line in
      let events = command_events ctx peer command in
      elim (Bool-cases (is_empty (trim command))) [
        | inl blank ↦ rw blank (answer_lines-append commands lines more)
        | inr full ↦ elim (Bool-cases (leb max_commands (commands + 1))) [
          | inl last ↦ rw (full, last) refl
          | inr further ↦
              rw (full, further)
                (ap (before events) (answer_lines-append (commands + 1) lines more)
                  ∙ before-then_answered events (answer_lines ctx peer (commands + 1) lines)
                      (λ count. answer_lines ctx peer count more))
        ]
      ]

  no_lines :
      (commands : ℕ)
      → ◌≡◌ {A = Trace MemcachedError}
          (finished [])
          (finished (events_of (answer_lines ctx peer commands [])))
  unfolding answer_lines
  no_lines commands = refl

  drain_loop-Splits :
      (fuel : ℕ) (pending : Bytes) (commands : ℕ) (c : List Bytes × Bytes)
      → length pending < fuel
      → Splits pending c
      → drain_loop ctx peer fuel pending commands
        ≡ with_left c.1 (answer_lines ctx peer commands c.0)
  unfolding drain_loop answer_lines
  drain_loop-Splits zero pending commands c h s = absurd (omega arith)
  drain_loop-Splits (suc fuel) pending commands ([], left) h (no_line, same) =
      rw (no_line, drain_loop) (ap (λ (p : Bytes). waits [] p commands) (sym same))
  drain_loop-Splits (suc fuel) pending commands (line ∷ lines, left) h
        (rest, first_line, behind, shorter) =
      let command = from_utf8_lossy line in
      let events = command_events ctx peer command in
      let again = λ (count : ℕ).
        drain_loop-Splits fuel rest count (lines, left) (omega (arith, h, shorter))
          (subst (Splits rest) behind (complete-Splits rest)) in
      elim (Bool-cases (is_empty (trim command))) [
        | inl blank ↦ rw (first_line, drain_loop) (rw blank (again commands))
        | inr full ↦ elim (Bool-cases (leb max_commands (commands + 1))) [
          | inl last ↦ rw (first_line, drain_loop) (rw (full, last) refl)
          | inr further ↦
              rw (first_line, drain_loop)
                (rw (full, further)
                  (ap (then_drained events) (again (commands + 1))
                    ∙ with_left-before events left (answer_lines ctx peer (commands + 1) lines)))
        ]
      ]

  drain_loop-complete :
      (bytes : Bytes) (commands : ℕ)
      → drain_loop ctx peer (suc (length bytes)) bytes commands
        ≡ with_left (complete bytes).1 (answer_lines ctx peer commands (complete bytes).0)
  drain_loop-complete bytes commands =
      drain_loop-Splits (suc (length bytes)) bytes commands (complete bytes) (omega arith)
        (complete-Splits bytes)

  -- The outer loop behind what the inner loop answered.
  after_answered :
      (left : Bytes) (a : Answered) (lines : List Bytes) (k : Bytes → ℕ → Trace MemcachedError)
      → ((count : ℕ) → k left count ≡ finished (events_of (answer_lines ctx peer count lines)))
      → after_drained (with_left left a) k
        ≡ finished (events_of (then_answered a (λ count. answer_lines ctx peer count lines)))
  after_answered left (ended events) lines k h = refl
  after_answered left (answered events count) lines k h =
      ap (then_trace events) (h count)
      ∙ ap finished (events_of-before events (answer_lines ctx peer count lines))

  read_loop-complete :
      (chunks : List Bytes) (pending : Bytes) (commands : ℕ)
      → All (λ chunk. is_empty chunk ≡ false) chunks
      → length (pending ++ concat chunks) ≤ max_request_size
      → complete pending ≡ ([], pending)
      → read_loop ctx peer pending commands chunks
        ≡ finished
            (events_of (answer_lines ctx peer commands (complete (pending ++ concat chunks)).0))
  unfolding read_loop
  read_loop-complete [] pending commands h small none_left =
      rw (append-nil pending, none_left) (no_lines commands)
  read_loop-complete ([] ∷ chunks) pending commands (full, h) small none_left = cc
  read_loop-complete ((b ∷ chunk) ∷ chunks) pending commands (full, h) small none_left =
      let bytes = pending ++ (b ∷ chunk) in
      let parts = append_assoc pending (b ∷ chunk) (concat chunks) in
      let left = (complete bytes).1 in
      let whole : length bytes + length (concat chunks)
          ≡ length (pending ++ ((b ∷ chunk) ++ concat chunks)) =
        sym (length-append bytes (concat chunks)) ∙ ap length parts in
      let fits : ltb max_request_size (length bytes) ≡ false = ground (arith, whole, small) in
      let shorter : length (left ++ concat chunks) ≤ max_request_size =
        omega (arith, length-append left (concat chunks), length-complete bytes, whole, small) in
      let lines : (complete (pending ++ ((b ∷ chunk) ++ concat chunks))).0
          ≡ (complete bytes).0 ++ (complete (left ++ concat chunks)).0 =
        ap (λ (t : Bytes). (complete t).0) (sym parts)
        ∙ ap (λ (c : List Bytes × Bytes). c.0) (complete-append bytes (concat chunks)) in
      rw fits (
        ap (λ (d : Drained). after_drained d (λ rest count. read_loop ctx peer rest count chunks))
          (drain_loop-complete bytes commands)
        ∙ after_answered left (answer_lines ctx peer commands (complete bytes).0)
            (complete (left ++ concat chunks)).0
            (λ rest count. read_loop ctx peer rest count chunks)
            (λ count. read_loop-complete chunks left count h shorter (complete-left bytes))
        ∙ ap (λ (a : Answered). finished (events_of a))
            (sym (
              ap (answer_lines ctx peer commands) lines
              ∙ answer_lines-append commands (complete bytes).0
                  (complete (left ++ concat chunks)).0)))

  -- A stream of at most 4096 bytes is answered the same however it is cut into reads that are not empty, without
  -- an error: every complete line that is not blank is answered and reported, in order, up to the 32nd.
  pub handle_memcached-complete :
      (chunks : List Bytes)
      → All (λ chunk. is_empty chunk ≡ false) chunks
      → length (concat chunks) ≤ max_request_size
      → handle_memcached ctx peer chunks
        ≡ finished (events_of (answer_lines ctx peer 0 (complete (concat chunks)).0))
  unfolding handle_memcached
  handle_memcached-complete chunks h small = read_loop-complete chunks [] 0 h small refl
