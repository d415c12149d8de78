-- ===== src/Ftp.antt =====
-- The FTP simulation, simulation/ftp.rs lines 15 to 284.
pub mod Access
pub mod Gate
mod Tests
use seclab_suite_protocol_si.Base.{
  Bool, List, Option, [], any, false, if◌then◌else◌, is_empty, map, none, not, some, true,
  unwrap_or, ◌&&◌, ◌++◌, ◌||◌, ◌∷◌,
}
use seclab_suite_protocol_si.Base.Bits.{Bytes}
use seclab_suite_protocol_si.Base.Text.{
  Text, codes, eq_ignore_ascii_case, is_one_of, split_once, text_eq, to_ascii_uppercase, trim,
}
use seclab_suite_protocol_si.Base.Text.Utf8.{utf8}
use seclab_suite_protocol_si.Report.{Peer, Site, draft, encode_hex}
use seclab_suite_protocol_si.Session.{Event, Trace, reported, then_trace}
use seclab_suite_protocol_si.Session.Lines.{
  LineError, LineStep, at_space, goes_on, quits, run_lines, stream_lines, write_line,
}

pub record Credential : Type 0 where
  pub username : Text
  pub password : Text

pub record SimFtpConfig : Type 0 where
  pub banner : Option Text
  pub credentials : Option (List Credential)
  pub server_name : Option Text
  pub allow_anonymous : Option Bool

pub record FtpSimulationContext : Type 0 where
  pub site : Site
  pub config : SimFtpConfig

pub record FtpSession : Type 0 where
  pub pending_user : Option Text
  pub authed : Bool
  pub username : Option Text

abbrev pub new_session : FtpSession
new_session = record { pending_user = none; authed = false; username = none }

-- `credentials.iter().any(…)`, none where there are no credentials
unfoldable pub is_listed : Option (List Credential) → Text → Text → Bool
unfolding text_eq
is_listed none username password = false
is_listed (some credentials) username password =
    any (λ c. text_eq c.username username && text_eq c.password password) credentials

unfoldable pub credentials_match : SimFtpConfig → Text → Text → Bool
unfolding eq_ignore_ascii_case is_listed
credentials_match config username password =
    if unwrap_or config.allow_anonymous false
      && (eq_ignore_ascii_case username (codes "anonymous")
          || eq_ignore_ascii_case username (codes "ftp"))
    then true
    else is_listed config.credentials username password

-- The arms of `match upper.as_str()`.
pub data FtpCommand : Type 0 where
  user_command pass syst feat pwd cwd list_files pasv set_type size_of change noop quit unknown :
      FtpCommand

unfoldable pub command_of : Text → FtpCommand
unfolding text_eq
command_of upper =
    if text_eq upper (codes "USER")
    then user_command
    else if text_eq upper (codes "PASS")
    then pass
    else if text_eq upper (codes "SYST")
    then syst
    else if text_eq upper (codes "FEAT")
    then feat
    else if is_one_of upper (codes "PWD" ∷ codes "XPWD" ∷ [])
    then pwd
    else if is_one_of upper (codes "CWD" ∷ codes "XCWD" ∷ [])
    then cwd
    else if is_one_of upper (codes "LIST" ∷ codes "NLST" ∷ codes "MLSD" ∷ [])
    then list_files
    else if is_one_of upper (codes "PASV" ∷ codes "EPSV" ∷ [])
    then pasv
    else if text_eq upper (codes "TYPE")
    then set_type
    else if text_eq upper (codes "SIZE")
    then size_of
    else if is_one_of upper
        (codes "RETR" ∷ codes "STOR" ∷ codes "DELE" ∷ codes "MKD" ∷ codes "RMD" ∷ [])
    then change
    else if text_eq upper (codes "NOOP")
    then noop
    else if text_eq upper (codes "QUIT")
    then quit
    else unknown

-- What an arm leaves: the session, the lines that it writes and the type of the event.
pub record Reply : Type 0 where
  pub session : FtpSession
  pub lines : List Text
  pub event_type : Text

abbrev pub replies : FtpSession → Text → List Text → Reply
replies session event_type lines = record {
  session = session;
  lines = lines;
  event_type = event_type;
}

abbrev pub login_required : Text
login_required = codes "530 Please login with USER and PASS."

-- `if !session.authed` in front of an answer
abbrev pub guarded : FtpSession → Text → Text → Reply
guarded session event_type line =
    if not session.authed
    then replies session (codes "ftp_command") (login_required ∷ [])
    else replies session event_type (line ∷ [])

abbrev pub log_in : SimFtpConfig → FtpSession → Text → Text → Reply
log_in config session username password =
    if credentials_match config username password
    then replies (record { pending_user = none; authed = true; username = some username })
        (codes "auth_attempt") ((codes "230 User " ++ (username ++ codes " logged in")) ∷ [])
    else replies (record session { pending_user = none }) (codes "exploit_attempt")
        (codes "530 Login incorrect." ∷ [])

unfoldable pub reply : SimFtpConfig → FtpSession → FtpCommand → Text → Text → Reply
unfolding credentials_match
reply _ session user_command upper args =
    replies (record session { pending_user = some args; authed = false }) (codes "auth_attempt")
      ((codes "331 Password required for " ++ args) ∷ [])
reply config session pass upper args =
    log_in config session (unwrap_or session.pending_user []) args
reply config session syst upper args =
    replies session (codes "ftp_command")
      ((codes "215 " ++ (unwrap_or config.server_name (codes "UNIX") ++ codes " Type: L8")) ∷ [])
reply _ session feat upper args = replies session (codes "ftp_command") (
    codes "211-Features:"
    ∷ codes " UTF8"
    ∷ codes " PASV"
    ∷ codes " SIZE"
    ∷ codes " MDTM"
    ∷ codes "211 End"
    ∷ [])
reply _ session pwd upper args =
    guarded session (codes "ftp_command") (codes "257 \"/\" is the current directory")
reply _ session cwd upper args =
    guarded session (codes "ftp_command") (codes "250 Directory successfully changed.")
reply _ session list_files upper args =
    guarded session (codes "ftp_command") (codes "425 Use PASV or PORT first.")
reply _ session pasv upper args =
    guarded session (codes "ftp_command") (codes "227 Entering Passive Mode (127,0,0,1,0,0).")
reply _ session set_type upper args =
    replies session (codes "ftp_command") (codes "200 Type set to I." ∷ [])
reply _ session size_of upper args =
    guarded session (codes "ftp_command")
      (codes "550 " ++ (args ++ codes ": No such file or directory."))
reply _ session change upper args =
    guarded session (codes "exploit_attempt") (codes "550 Permission denied.")
reply _ session noop upper args = replies session (codes "ftp_command") (codes "200 NOOP ok." ∷ [])
reply _ session quit upper args = replies session (codes "ftp_command") (codes "221 Goodbye." ∷ [])
reply _ session unknown upper args =
    replies session (codes "ftp_command")
      ((codes "500 '" ++ (upper ++ codes "': command not understood.")) ∷ [])

-- The command and its arguments.
abbrev command_and_args : Text → Option (Text × Text) → Text × Text
command_and_args line none = (line, [])
command_and_args line (some (c, a)) = (trim c, trim a)

abbrev pub parse_command : Text → Text × Text
parse_command line = command_and_args line (at_space line)

abbrev pub report_ftp_log : FtpSimulationContext → Peer → Text → Text → Text → Event
report_ftp_log ctx peer event_type summary command_line =
    reported (draft ctx.site peer event_type summary (some (encode_hex (utf8 command_line))))

-- What is done with the reply to a command; QUIT reports its name instead of the line, and ends.
abbrev pub finish : FtpSimulationContext → Peer → Text → FtpCommand → Reply → LineStep FtpSession
finish ctx peer line quit r = quits (
    map write_line r.lines
    ++ (report_ftp_log ctx peer r.event_type (codes "FTP command: QUIT") line ∷ []))
finish ctx peer line command r = goes_on r.session (
    map write_line r.lines
    ++ (report_ftp_log ctx peer r.event_type (codes "FTP command: " ++ line) line ∷ []))

-- The body of the loop.
unfoldable pub command_step : FtpSimulationContext → Peer → FtpSession → Text → LineStep FtpSession
unfolding command_of reply trim split_once to_ascii_uppercase
command_step ctx peer session line =
    if is_empty (trim line)
    then goes_on session []
    else let upper = to_ascii_uppercase (parse_command line).0 in
      finish ctx peer line (command_of upper)
        (reply ctx.config session (command_of upper) upper (parse_command line).1)

unfoldable pub handle_ftp_connection : FtpSimulationContext → Peer → Bytes → Trace LineError
unfolding run_lines command_step stream_lines
handle_ftp_connection ctx peer input =
    then_trace
      (write_line
          (codes "220 " ++ unwrap_or ctx.config.banner (codes "ProFTPD 1.3.5e Server ready."))
        ∷ reported (draft ctx.site peer (codes "connection") (codes "FTP client connected") none)
        ∷ [])
      (run_lines (command_step ctx peer) (λ _. []) new_session (stream_lines input))
