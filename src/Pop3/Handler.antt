-- ===== src/Pop3/Handler.antt =====
-- The handler of a connection, simulation/pop3.rs lines 77 to 322.
use seclab_suite_protocol_si.Base.{
  Bool, List, Option, [], false, if◌then◌else◌, is_empty, length, none, some, true, unwrap_or, ◌&&◌,
  ◌++◌, ◌∷◌,
}
use seclab_suite_protocol_si.Base.Bits.{Bytes}
use seclab_suite_protocol_si.Base.Text.{Text, codes, to_ascii_uppercase, trim}
use seclab_suite_protocol_si.Report.{Peer}
use seclab_suite_protocol_si.Session.{Event, Trace, then_trace}
use seclab_suite_protocol_si.Session.Lines.{
  LineError, LineStep, at_space, goes_on, quits, run_lines, stream_lines, write_line,
}
use seclab_suite_protocol_si.Mail.{
  custom_response, decode_auth_plain, report_mail_command, report_mail_connection,
}
use seclab_suite_protocol_si.Pop3.{
  Pop3Context, Pop3Session, credentials_of, messages_of, new_session,
}
use seclab_suite_protocol_si.Pop3.Commands.{
  Pop3Command, Reply, auth, auth_reply, command_event, command_of, quit, reads_response, replies,
  reply, sign_in,
}

-- Where the handler waits for a line: at the head of its loop, or in an AUTH, whose line it keeps.
pub data Pop3State : Type 0 where
  ready : Pop3Session → Pop3State
  in_auth : Pop3Session → Text → Pop3State

-- The command in upper case and its arguments.
abbrev pub command_and_args : Text → Option (Text × Text) → Text × Text
command_and_args line none = (to_ascii_uppercase line, [])
command_and_args line (some (command, args)) = (to_ascii_uppercase command, trim args)

unfoldable pub parse_command : Text → Text × Text
unfolding to_ascii_uppercase trim
parse_command line = command_and_args line (at_space line)

-- The report at the end of the loop's body.
abbrev pub report : Pop3Context → Peer → Text → Text → Event
report ctx peer event_type line =
    report_mail_command ctx.site peer event_type (codes "POP3 command: " ++ line) line

abbrev pub conclude : Pop3Context → Peer → Text → Reply → LineStep Pop3State
conclude ctx peer line r =
    goes_on (ready r.session) (r.writes ++ (report ctx peer r.event_type line ∷ []))

abbrev pub finish : Pop3Context → Peer → Text → Pop3Command → Reply → LineStep Pop3State
finish ctx peer line quit r = quits (
    r.writes
    ++ (report_mail_command ctx.site peer r.event_type (codes "POP3 command: QUIT") line ∷ []))
finish ctx peer line command r = conclude ctx peer line r

abbrev pub is_auth : Pop3Command → Bool
is_auth auth = true
is_auth _ = false

abbrev pub answer_custom :
    Pop3Context
    → Peer
    → Pop3Session
    → Text
    → Option (Text × Text)
    → LineStep Pop3State
    → LineStep Pop3State
answer_custom ctx peer session line none otherwise = otherwise
answer_custom ctx peer session line (some (response, event_type)) otherwise =
    conclude ctx peer line (replies session event_type (write_line response ∷ []))

abbrev pub run_command :
    (Text → Option Bytes)
    → Pop3Context
    → Peer
    → Pop3Session
    → Text
    → Pop3Command
    → Text
    → LineStep Pop3State
run_command base64 ctx peer session line command args =
    if is_auth command && reads_response args
    then goes_on (in_auth session line) (write_line (codes "+") ∷ [])
    else finish ctx peer line command (reply base64 ctx.config session command args)

-- The body of the loop. The second clause is the rest of an AUTH, with the line that it read.
unfoldable pub line_step :
    (Text → Option Bytes) → Pop3Context → Peer → Pop3State → Text → LineStep Pop3State
unfolding custom_response reads_response reply command_of parse_command decode_auth_plain trim
line_step base64 ctx peer (ready session) line =
    let (command, args) = parse_command line in
    if is_empty (trim line)
    then goes_on (ready session) []
    else answer_custom ctx peer session line
        (custom_response ctx.config.custom_responses command line command_event)
        (run_command base64 ctx peer session line (command_of command) args)
line_step base64 ctx peer (in_auth session line) auth_line =
    conclude ctx peer line (
      auth_reply (sign_in (credentials_of ctx.config) session (decode_auth_plain base64 auth_line)))

-- The stream ends: an AUTH that waits for its line is answered all the same.
abbrev pub stream_ends : Pop3Context → Peer → Pop3State → List Event
stream_ends ctx peer (ready session) = []
stream_ends ctx peer (in_auth session line) =
    (auth_reply session).writes ++ (report ctx peer (codes "auth_attempt") line ∷ [])

unfoldable pub handle_pop3_connection :
    (Text → Option Bytes) → Pop3Context → Peer → Bytes → Trace LineError
unfolding run_lines line_step stream_lines
handle_pop3_connection base64 ctx peer input =
    then_trace
      (write_line (codes "+OK " ++ unwrap_or ctx.config.banner (codes "SecLab POP3 service ready"))
        ∷ report_mail_connection ctx.site peer (codes "POP3")
        ∷ [])
      (run_lines (line_step base64 ctx peer) (stream_ends ctx peer)
        (ready
          (new_session (unwrap_or ctx.config.require_auth false) (length (messages_of ctx.config))))
        (stream_lines input))
