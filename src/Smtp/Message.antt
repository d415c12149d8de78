-- ===== src/Smtp/Message.antt =====
-- A message on the wire: its lines, and the line with the dot behind them.
use seclab_suite_protocol_si.Base.{
  All, List, Option, [], ap, arith, false, is_empty, length, none, refl, some, sym, unwrap_or, ℕ,
  ◌++◌, ◌+◌, ◌∙◌, ◌∷◌, ◌≡◌,
}
use seclab_suite_protocol_si.Base.Bits.{Bytes}
use seclab_suite_protocol_si.Base.Text.{Text, codes, text_eq, to_ascii_uppercase, to_decimal, trim}
use seclab_suite_protocol_si.Base.Text.Utf8.{utf8}
use seclab_suite_protocol_si.Report.{Peer}
use seclab_suite_protocol_si.Session.{Trace, then_trace}
use seclab_suite_protocol_si.Session.Lines.{
  LineError, LineStep, after_line, goes_on, read_line, run_lines, write_line,
}
use seclab_suite_protocol_si.Smtp.{SmtpContext, SmtpSession, smtp_command}
use seclab_suite_protocol_si.Smtp.Handler.{
  SmtpState, conclude, data_reply, in_data, line_step, ready, run_command, stream_ends,
}
use seclab_suite_protocol_si.Mail.{custom_response, report_mail_command}

-- A raw line that is text, and not the dot.
abbrev pub IsMessageLine : Bytes → Type 0
IsMessageLine raw = (line : Text) × (read_line raw ≡ some line) × (text_eq line (codes ".") ≡ false)

-- The bytes of a raw line without its end.
abbrev pub line_bytes : Bytes → ℕ
line_bytes raw = length (utf8 (unwrap_or (read_line raw) []))

abbrev pub message_bytes : List Bytes → ℕ
message_bytes [] = 0
message_bytes (raw ∷ lines) = line_bytes raw + message_bytes lines

module _ (base64 : Text → Option Bytes) (ctx : SmtpContext) (peer : Peer) where
  -- The loop of the handler.
  abbrev pub run_from : SmtpState → List Bytes → Trace LineError
  run_from = run_lines (line_step base64 ctx peer) (stream_ends base64 ctx peer)

  run_from-line :
      (state : SmtpState) (raw : Bytes) (lines : List Bytes) (line : Text)
      → read_line raw ≡ some line
      → run_from state (raw ∷ lines)
        ≡ after_line (line_step base64 ctx peer state line) (λ next. run_from next lines)
  unfolding run_lines
  run_from-line state raw lines line e = rw (e, run_lines) refl

  data_line_step :
      (session : SmtpSession) (command_line : Text) (bytes : ℕ) (line : Text)
      → text_eq line (codes ".") ≡ false
      → line_step base64 ctx peer (in_data session command_line bytes) line
        ≡ goes_on (in_data session command_line (bytes + length (utf8 line))) []
  unfolding line_step
  data_line_step session command_line bytes line e = rw e refl

  data_end_step :
      (session : SmtpSession) (command_line : Text) (bytes : ℕ)
      → line_step base64 ctx peer (in_data session command_line bytes) (codes ".")
        ≡ conclude ctx peer command_line (data_reply session bytes)
  unfolding line_step text_eq
  data_end_step session command_line bytes = refl

  -- The line that answers a message of some bytes and the report of its DATA, and then the rest of the
  -- stream, for a client that keeps its login but no sender and no recipient.
  abbrev pub accepts : SmtpSession → Text → ℕ → List Bytes → Trace LineError
  accepts session command_line bytes lines =
      then_trace
        (write_line (
            codes "250 2.0.0 Message accepted for delivery ("
            ++ (to_decimal bytes ++ codes " bytes)"))
          ∷ report_mail_command ctx.site peer (codes "exploit_attempt")
              (codes "SMTP command: " ++ command_line) command_line
          ∷ [])
        (run_from (ready (record { authed = session.authed; mail_from = none; rcpt_to = [] }))
          lines)

  run_from-lines :
      (session : SmtpSession) (command_line : Text) (bytes : ℕ) (message : List Bytes) (dot : Bytes)
      (lines : List Bytes)
      → All IsMessageLine message
      → read_line dot ≡ some (codes ".")
      → run_from (in_data session command_line bytes) (message ++ (dot ∷ lines))
        ≡ accepts session command_line (bytes + message_bytes message) lines
  unfolding data_reply
  run_from-lines session command_line bytes [] dot lines h d =
      let total : bytes ≡ bytes + message_bytes [] = omega arith in
      run_from-line (in_data session command_line bytes) dot lines (codes ".") d
      ∙ ap (λ (s : LineStep SmtpState). after_line s (λ next. run_from next lines))
          (data_end_step session command_line bytes)
      ∙ ap (λ (n : ℕ). accepts session command_line n lines) total
  run_from-lines session command_line bytes (raw ∷ message) dot lines ((line, read, other), more)
        d =
      let rest = message ++ (dot ∷ lines) in
      let size : length (utf8 line) ≡ line_bytes raw =
        ap (λ (o : Option Text). length (utf8 (unwrap_or o []))) (sym read) in
      let total : bytes + length (utf8 line) + message_bytes message
          ≡ bytes + message_bytes (raw ∷ message) =
        omega (arith, size) in
      run_from-line (in_data session command_line bytes) raw rest line read
      ∙ ap (λ (s : LineStep SmtpState). after_line s (λ next. run_from next rest))
          (data_line_step session command_line bytes line other)
      ∙ run_from-lines session command_line (bytes + length (utf8 line)) message dot lines more d
      ∙ ap (λ (n : ℕ). accepts session command_line n lines) total

  data_step :
      (session : SmtpSession) (line : Text)
      → is_empty session.rcpt_to ≡ false
      → is_empty (trim line) ≡ false
      → to_ascii_uppercase (smtp_command line).0 ≡ codes "DATA"
      → custom_response ctx.config.custom_responses (codes "DATA") line (codes "smtp_command")
        ≡ none
      → line_step base64 ctx peer (ready session) line
        ≡ goes_on
            (in_data session line 0)
            (write_line (codes "354 End data with <CR><LF>.<CR><LF>") ∷ [])
  unfolding line_step run_command text_eq
  data_step session line some_recipient some_text command plain =
      rw (some_text, command, plain, some_recipient) refl

  -- For a session with a recipient, a line whose command is DATA in any case, and to which the
  -- configuration gives no response of its own, takes the lines behind it up to the first dot as the
  -- message, where they are UTF-8 and whether or not they look like commands; it is answered with the
  -- number of bytes of those lines without their ends, and reported; and the server goes on with the
  -- lines behind the dot, with the same login and no sender and no recipient.
  pub run_from-message :
      (session : SmtpSession) (raw : Bytes) (line : Text) (message : List Bytes) (dot : Bytes)
      (lines : List Bytes)
      → is_empty session.rcpt_to ≡ false
      → read_line raw ≡ some line
      → is_empty (trim line) ≡ false
      → to_ascii_uppercase (smtp_command line).0 ≡ codes "DATA"
      → custom_response ctx.config.custom_responses (codes "DATA") line (codes "smtp_command")
        ≡ none
      → All IsMessageLine message
      → read_line dot ≡ some (codes ".")
      → run_from (ready session) (raw ∷ (message ++ (dot ∷ lines)))
        ≡ then_trace
            (write_line (codes "354 End data with <CR><LF>.<CR><LF>") ∷ [])
            (accepts session line (message_bytes message) lines)
  run_from-message session raw line message dot lines some_recipient read some_text command plain
        body d =
      let total : 0 + message_bytes message ≡ message_bytes message = omega arith in
      run_from-line (ready session) raw (message ++ (dot ∷ lines)) line read
      ∙ ap
          (λ (s : LineStep SmtpState).
            after_line s (λ next. run_from next (message ++ (dot ∷ lines))))
          (data_step session line some_recipient some_text command plain)
      ∙ ap
          (λ (t : Trace LineError).
            then_trace (write_line (codes "354 End data with <CR><LF>.<CR><LF>") ∷ []) t)
          (run_from-lines session line 0 message dot lines body d
            ∙ ap (λ (n : ℕ). accepts session line n lines) total)
