-- ===== src/Pop3/Secrecy.antt =====
-- What a client that cannot log in learns of the messages.
use seclab_suite_protocol_si.Base.{List, Option, [], false, none, some, unwrap_or, ◌++◌, ◌∷◌, ◌≡◌}
use seclab_suite_protocol_si.Base.Bits.{Bytes}
use seclab_suite_protocol_si.Base.Text.{Text, codes, split_whitespace}
use seclab_suite_protocol_si.Report.{Peer}
use seclab_suite_protocol_si.Session.{Event}
use seclab_suite_protocol_si.Session.Lines.{read_line, write_line}
use seclab_suite_protocol_si.Mail.{
  MailCredential, MailMessage, credentials_match, decode_auth_plain, report_mail_connection,
  second_word,
}
use seclab_suite_protocol_si.Pop3.{Pop3Context, Pop3Session}
use seclab_suite_protocol_si.Pop3.Handler.{Pop3State, parse_command}
use seclab_suite_protocol_si.Pop3.Reachable.{session_of}

-- The context with another mailbox.
abbrev pub with_messages : Pop3Context → Option (List MailMessage) → Pop3Context
with_messages ctx messages = record {
  site = ctx.site;
  config = record {
    banner = ctx.config.banner;
    require_auth = ctx.config.require_auth;
    credentials = ctx.config.credentials;
    capabilities = ctx.config.capabilities;
    messages = messages;
    custom_responses = ctx.config.custom_responses;
  };
}

-- What a client is sent and reported first.
abbrev greeting : Pop3Context → Peer → List Event
greeting ctx peer =
    write_line (codes "+OK " ++ unwrap_or ctx.config.banner (codes "SecLab POP3 service ready"))
    ∷ report_mail_connection ctx.site peer (codes "POP3")
    ∷ []

-- No credential has the user name and the password that were decoded.
abbrev pub NoMatch : List MailCredential → Option (Text × Text) → Type 0
NoMatch credentials none = Unit
NoMatch credentials (some (user, password)) = credentials_match credentials user password ≡ false

-- A line that logs nobody in, wherever it stands: its argument is nobody's password, and neither its
-- second argument nor the line as a whole decodes to a credential.
abbrev pub NoLogin : (Text → Option Bytes) → List MailCredential → Text → Type 0
NoLogin base64 credentials line =
    let args = (parse_command line).1 in
    ((user : Text) → credentials_match credentials user args ≡ false)
    × NoMatch credentials (decode_auth_plain base64 (second_word (split_whitespace args)))
    × NoMatch credentials (decode_auth_plain base64 line)

-- A raw line that logs nobody in, if it is text.
abbrev pub IsShut : (Text → Option Bytes) → List MailCredential → Bytes → Type 0
IsShut base64 credentials raw =
    (line : Text) → read_line raw ≡ some line → NoLogin base64 credentials line

abbrev IsOut : Pop3Session → Type 0
IsOut session = session.authed ≡ false

abbrev IsOutState : Pop3State → Type 0
IsOutState state = IsOut (session_of state)
