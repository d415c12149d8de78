-- ===== src/Smtp/Handler.antt =====
-- The handler of a connection, simulation/smtp.rs lines 62 to 281. The decoder of Base64 is a parameter.
use seclab_suite_protocol_si.Base.{
  Bool, List, Option, [], false, if◌then◌else◌, is_empty, length, map, none, some, unwrap_or, ℕ,
  ◌++◌, ◌+◌, ◌∷◌,
}
use seclab_suite_protocol_si.Base.Bits.{Bytes}
use seclab_suite_protocol_si.Base.Text.{
  Text, codes, split_whitespace, text_eq, to_ascii_uppercase, to_decimal, trim,
}
use seclab_suite_protocol_si.Base.Text.Utf8.{utf8}
use seclab_suite_protocol_si.Report.{Peer}
use seclab_suite_protocol_si.Session.{Event, Trace, then_trace}
use seclab_suite_protocol_si.Session.Lines.{
  LineError, LineStep, goes_on, quits, run_lines, stream_lines, write_line,
}
use seclab_suite_protocol_si.Mail.{
  MailCredential, credentials_match, custom_response, decode_auth_plain, decode_base64_text,
  first_word, report_mail_command, report_mail_connection, second_word,
}
use seclab_suite_protocol_si.Smtp.{
  Reply, SimSmtpConfig, SmtpCommand, SmtpContext, SmtpSession, auth, command_of, credentials_of,
  data_command, hostname_of, new_session, quit, replies, reply, requires_auth, reset_transaction,
  smtp_command,
}

-- Where the handler waits for a line: at the head of its loop, in an AUTH for its response, its user name
-- or its password, or in a message. The line of the command is kept for the report.
pub data SmtpState : Type 0 where
  ready : SmtpSession → SmtpState
  in_plain : SmtpSession → Text → SmtpState
  in_login_user : SmtpSession → Text → SmtpState
  in_login_password : SmtpSession → Text → Text → SmtpState
  in_data : SmtpSession → Text → ℕ → SmtpState

abbrev pub report : SmtpContext → Peer → Text → Text → Event
report ctx peer event_type line =
    report_mail_command ctx.site peer event_type (codes "SMTP command: " ++ line) line

-- The end of the loop's body.
abbrev pub concluding : SmtpContext → Peer → Text → Reply → List Event
concluding ctx peer line r = map write_line r.lines ++ (report ctx peer r.event_type line ∷ [])

abbrev pub conclude : SmtpContext → Peer → Text → Reply → LineStep SmtpState
conclude ctx peer line r = goes_on (ready r.session) (concluding ctx peer line r)

-- What follows the exchange of an AUTH.
unfoldable pub auth_reply : SmtpSession → Bool → Reply
auth_reply session accepted =
    replies (record session { authed = accepted }) (codes "auth_attempt")
      ((if accepted
          then codes "235 2.7.0 Authentication successful"
          else codes "535 5.7.8 Authentication credentials invalid")
        ∷ [])

abbrev pub matches : List MailCredential → Option (Text × Text) → Bool
matches credentials none = false
matches credentials (some (user, pass)) = credentials_match credentials user pass

-- The response of AUTH PLAIN, and the password of AUTH LOGIN.
unfoldable pub plain_accepted : (Text → Option Bytes) → SimSmtpConfig → Text → Bool
unfolding credentials_match decode_auth_plain
plain_accepted base64 config value =
    matches (credentials_of config) (decode_auth_plain base64 value)

unfoldable pub login_accepted : (Text → Option Bytes) → SimSmtpConfig → Text → Text → Bool
unfolding credentials_match decode_base64_text
login_accepted base64 config username password_line =
    credentials_match (credentials_of config) username
      (unwrap_or (decode_base64_text base64 password_line) [])

abbrev asks_password : (Text → Option Bytes) → SmtpSession → Text → Text → LineStep SmtpState
asks_password base64 session line value =
    goes_on (in_login_password session line (unwrap_or (decode_base64_text base64 value) []))
      (write_line (codes "334 UGFzc3dvcmQ6") ∷ [])

-- The arm of AUTH, up to the line that it reads or to its end.
unfoldable pub start_auth :
    (Text → Option Bytes) → SmtpContext → Peer → SmtpSession → Text → Text → LineStep SmtpState
unfolding auth_reply plain_accepted decode_base64_text split_whitespace to_ascii_uppercase text_eq
start_auth base64 ctx peer session line args =
    let mechanism = to_ascii_uppercase (first_word (split_whitespace args)) in
    let initial = second_word (split_whitespace args) in
    if text_eq mechanism (codes "PLAIN")
    then if is_empty initial
      then goes_on (in_plain session line) (write_line (codes "334 ") ∷ [])
      else conclude ctx peer line (auth_reply session (plain_accepted base64 ctx.config initial))
    else if text_eq mechanism (codes "LOGIN")
    then if is_empty initial
      then goes_on (in_login_user session line) (write_line (codes "334 VXNlcm5hbWU6") ∷ [])
      else asks_password base64 session line initial
    else conclude ctx peer line (auth_reply session false)

-- The end of DATA.
unfoldable pub data_reply : SmtpSession → ℕ → Reply
unfolding to_decimal
data_reply session bytes = replies (reset_transaction session) (codes "exploit_attempt") (
    (codes "250 2.0.0 Message accepted for delivery (" ++ (to_decimal bytes ++ codes " bytes)"))
    ∷ [])

-- The `match`.
unfoldable pub run_command :
    (Text → Option Bytes)
    → SmtpContext
    → Peer
    → SmtpSession
    → Text
    → SmtpCommand
    → Text
    → LineStep SmtpState
unfolding start_auth reply
run_command base64 ctx peer session line auth args = start_auth base64 ctx peer session line args
run_command base64 ctx peer session line data_command args =
    if is_empty session.rcpt_to
    then conclude ctx peer line (reply ctx.config session data_command args)
    else goes_on (in_data session line 0)
        (write_line (codes "354 End data with <CR><LF>.<CR><LF>") ∷ [])
run_command base64 ctx peer session line quit args = quits (
    map write_line (reply ctx.config session quit args).lines
    ++ (report_mail_command ctx.site peer (codes "smtp_command") (codes "SMTP command: QUIT") line
        ∷ []))
run_command base64 ctx peer session line command args =
    conclude ctx peer line (reply ctx.config session command args)

abbrev pub answer_custom :
    SmtpContext
    → Peer
    → SmtpSession
    → Text
    → Option (Text × Text)
    → LineStep SmtpState
    → LineStep SmtpState
answer_custom ctx peer session line none otherwise = otherwise
answer_custom ctx peer session line (some (response, event_type)) otherwise =
    conclude ctx peer line (replies session event_type (response ∷ []))

-- One line, in each of the places that read one.
unfoldable pub line_step :
    (Text → Option Bytes) → SmtpContext → Peer → SmtpState → Text → LineStep SmtpState
unfolding custom_response run_command command_of smtp_command login_accepted data_reply trim
line_step base64 ctx peer (ready session) line =
    let upper = to_ascii_uppercase (smtp_command line).0 in
    if is_empty (trim line)
    then goes_on (ready session) []
    else answer_custom ctx peer session line
        (custom_response ctx.config.custom_responses upper line (codes "smtp_command"))
        (run_command base64 ctx peer session line (command_of upper) (smtp_command line).1)
line_step base64 ctx peer (in_plain session line) value =
    conclude ctx peer line (auth_reply session (plain_accepted base64 ctx.config value))
line_step base64 ctx peer (in_login_user session line) value =
    asks_password base64 session line value
line_step base64 ctx peer (in_login_password session line username) value =
    conclude ctx peer line (auth_reply session (login_accepted base64 ctx.config username value))
line_step base64 ctx peer (in_data session line bytes) data_line =
    if text_eq data_line (codes ".")
    then conclude ctx peer line (data_reply session bytes)
    else goes_on (in_data session line (bytes + length (utf8 data_line))) []

-- The stream ends: an AUTH or a DATA that waits for a line is still concluded.
unfoldable pub stream_ends : (Text → Option Bytes) → SmtpContext → Peer → SmtpState → List Event
unfolding auth_reply plain_accepted data_reply
stream_ends base64 ctx peer (ready session) = []
stream_ends base64 ctx peer (in_plain session line) =
    concluding ctx peer line (auth_reply session (plain_accepted base64 ctx.config []))
stream_ends base64 ctx peer (in_login_user session line) =
    concluding ctx peer line (auth_reply session false)
stream_ends base64 ctx peer (in_login_password session line username) =
    concluding ctx peer line (auth_reply session false)
stream_ends base64 ctx peer (in_data session line bytes) =
    concluding ctx peer line (data_reply session bytes)

abbrev default_banner : SimSmtpConfig → Text
default_banner config = hostname_of config ++ codes " ESMTP SecLab Mail Gateway"

unfoldable pub handle_smtp_connection :
    (Text → Option Bytes) → SmtpContext → Peer → Bytes → Trace LineError
unfolding run_lines line_step stream_ends stream_lines
handle_smtp_connection base64 ctx peer input =
    then_trace
      (write_line (codes "220 " ++ unwrap_or ctx.config.banner (default_banner ctx.config))
        ∷ report_mail_connection ctx.site peer (codes "SMTP")
        ∷ [])
      (run_lines (line_step base64 ctx peer) (stream_ends base64 ctx peer)
        (ready (new_session (requires_auth ctx.config))) (stream_lines input))
