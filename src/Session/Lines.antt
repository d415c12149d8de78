-- ===== src/Session/Lines.antt =====
-- Sessions by lines: `read_line` and `write_line` of simulation/ftp.rs lines 47 to 62 and of
-- simulation/mail_common.rs lines 10 to 39, and the loop of a handler that reads a line at a time.
use mathlib.Core.Option
use seclab_suite_protocol_si.Base.{List, Option, [], if◌then◌else◌, none, some, ℕ, ◌++◌, ◌==◌, ◌∷◌}
use seclab_suite_protocol_si.Base.Bits.{Bytes}
use seclab_suite_protocol_si.Base.Text.{Text, is_line_end, split_once, trim_end_matches}
use seclab_suite_protocol_si.Base.Text.Utf8.{from_utf8, utf8}
use seclab_suite_protocol_si.Session.{Event, Trace, failed, finished, sent, then_trace}

-- A line that is not UTF-8 ends the handler.
pub data LineError : Type 0 where
  not_text : LineError

abbrev onto_line : ℕ → List Bytes → List Bytes
onto_line b [] = (b ∷ []) ∷ []
onto_line b (line ∷ lines) = (b ∷ line) ∷ lines

-- The lines of a stream, each with its line feed; the last may have none.
unfoldable pub stream_lines : Bytes → List Bytes
stream_lines [] = []
stream_lines (b ∷ input) =
    let rest = stream_lines input in if b == 0x0a then (b ∷ []) ∷ rest else onto_line b rest

-- `read_line`, of a line of the stream.
unfoldable pub read_line : Bytes → Option Text
unfolding from_utf8 trim_end_matches
read_line raw = Option.map (trim_end_matches is_line_end) (from_utf8 raw)

-- `write_line`, `write_raw`
abbrev pub write_line : Text → Event
write_line line = sent (utf8 line ++ (0x0d ∷ 0x0a ∷ []))

abbrev pub write_raw : Text → Event
write_raw value = sent (utf8 value)

-- `line.split_once(' ')`: the word in front of the first space and what is behind it, as they are.
abbrev pub at_space : Text → Option (Text × Text)
at_space = split_once b' '

-- What a line leads to: the state in which the handler reads the next line, or the end of the handler.
pub data LineStep (S : Type 0) : Type 0 where
  goes_on : S → List Event → LineStep S
  quits : List Event → LineStep S

module _ {S : Type 0} where
  abbrev pub after_line : LineStep S → (S → Trace LineError) → Trace LineError
  after_line (goes_on state events) k = then_trace events (k state)
  after_line (quits events) k = finished events

  -- The loop of a handler. `at_end` is what it does where the stream ends.
  unfoldable pub run_lines :
      (S → Text → LineStep S) → (S → List Event) → S → List Bytes → Trace LineError
  unfolding read_line
  run_lines step at_end state [] = finished (at_end state)
  run_lines step at_end state (raw ∷ rest) = elim (read_line raw) [
    | none ↦ failed [] not_text
    | some line ↦ after_line (step state line) (λ next. run_lines step at_end next rest)
  ]
