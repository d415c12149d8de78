-- ===== src/Smtp.antt =====
-- The SMTP simulation, simulation/smtp.rs: its types and its replies, lines 15 to 60 and 139 to 264.
pub mod Handler
pub mod Sound
pub mod Message
mod Tests
use seclab_suite_protocol_si.Base.{
  Bool, List, Option, [], any, false, if◌then◌else◌, is_empty, map, none, not, some, true,
  unwrap_or, ◌&&◌, ◌++◌, ◌||◌, ◌∷◌,
}
use seclab_suite_protocol_si.Base.Text.{
  Text, codes, contains, is_one_of, starts_with, text_eq, to_ascii_lowercase, to_ascii_uppercase,
  trim,
}
use seclab_suite_protocol_si.Report.{Site}
use seclab_suite_protocol_si.Session.Lines.{at_space}
use seclab_suite_protocol_si.Mail.{MailCredential, MailCustomResponse}

pub record SimSmtpConfig : Type 0 where
  pub banner : Option Text
  pub hostname : Option Text
  pub require_auth : Option Bool
  pub credentials : Option (List MailCredential)
  pub capabilities : Option (List Text)
  pub accepted_recipients : Option (List Text)
  pub custom_responses : Option (List MailCustomResponse)

pub record SmtpContext : Type 0 where
  pub site : Site
  pub config : SimSmtpConfig

-- The values that the handler takes from the configuration before its loop.
abbrev pub hostname_of : SimSmtpConfig → Text
hostname_of config = unwrap_or config.hostname (codes "mail.seclab.local")

abbrev pub capabilities_of : SimSmtpConfig → List Text
capabilities_of config =
    unwrap_or config.capabilities
      (codes "PIPELINING" ∷ codes "SIZE 52428800" ∷ codes "8BITMIME" ∷ [])

abbrev pub requires_auth : SimSmtpConfig → Bool
requires_auth config = unwrap_or config.require_auth false

abbrev pub credentials_of : SimSmtpConfig → List MailCredential
credentials_of config = unwrap_or config.credentials []

pub record SmtpSession : Type 0 where
  pub authed : Bool
  pub mail_from : Option Text
  pub rcpt_to : List Text

-- `SmtpSession::new`
abbrev pub new_session : Bool → SmtpSession
new_session require_auth = record { authed = not require_auth; mail_from = none; rcpt_to = [] }

abbrev pub reset_transaction : SmtpSession → SmtpSession
reset_transaction session = record session { mail_from = none; rcpt_to = [] }

abbrev split_command : Text → Option (Text × Text) → Text × Text
split_command line none = (line, [])
split_command line (some (command, args)) = (command, trim args)

unfoldable pub smtp_command : Text → Text × Text
unfolding trim
smtp_command line = split_command line (at_space line)

-- The lines of `write_capabilities`.
abbrev pub capability_lines : Text → List Text → List Text
capability_lines hostname capabilities =
    (codes "250-" ++ hostname)
    ∷ (map (λ capability. codes "250-" ++ capability) capabilities
        ++ (codes "250 AUTH PLAIN LOGIN" ∷ []))

-- The arms of `match upper.as_str()`.
pub data SmtpCommand : Type 0 where
  ehlo helo auth mail rcpt data_command rset vrfy noop quit unknown : SmtpCommand

unfoldable pub command_of : Text → SmtpCommand
unfolding text_eq
command_of upper =
    if text_eq upper (codes "EHLO")
    then ehlo
    else if text_eq upper (codes "HELO")
    then helo
    else if text_eq upper (codes "AUTH")
    then auth
    else if text_eq upper (codes "MAIL")
    then mail
    else if text_eq upper (codes "RCPT")
    then rcpt
    else if text_eq upper (codes "DATA")
    then data_command
    else if text_eq upper (codes "RSET")
    then rset
    else if is_one_of upper (codes "VRFY" ∷ codes "EXPN" ∷ [])
    then vrfy
    else if text_eq upper (codes "NOOP")
    then noop
    else if text_eq upper (codes "QUIT")
    then quit
    else unknown

-- What an arm leaves: the session, the lines that it writes and the type of the event.
pub record Reply : Type 0 where
  pub session : SmtpSession
  pub lines : List Text
  pub event_type : Text

abbrev pub replies : SmtpSession → Text → List Text → Reply
replies session event_type lines = record {
  session = session;
  lines = lines;
  event_type = event_type;
}

abbrev pub says : SmtpSession → Text → Reply
says session line = replies session (codes "smtp_command") (line ∷ [])

abbrev pub is_some : Option Text → Bool
is_some none = false
is_some (some text) = true

unfoldable pub mail_reply : SimSmtpConfig → SmtpSession → Text → Reply
unfolding to_ascii_uppercase starts_with
mail_reply config session args =
    if requires_auth config && not session.authed
    then says session (codes "530 5.7.0 Authentication required")
    else if starts_with (to_ascii_uppercase args) (codes "FROM:")
    then says (record session { mail_from = some args }) (codes "250 2.1.0 Sender OK")
    else says session (codes "501 5.5.4 Syntax: MAIL FROM:<address>")

abbrev pub is_allowed : List Text → Text → Bool
is_allowed allowed args =
    is_empty allowed
    || any (λ item. contains (to_ascii_lowercase args) (to_ascii_lowercase item)) allowed

unfoldable pub rcpt_reply : SimSmtpConfig → SmtpSession → Text → Reply
unfolding to_ascii_lowercase contains
rcpt_reply config session args =
    if not (is_some session.mail_from)
    then says session (codes "503 5.5.1 Need MAIL before RCPT")
    else if is_allowed (unwrap_or config.accepted_recipients []) args
    then says (record session { rcpt_to = session.rcpt_to ++ (args ∷ []) })
        (codes "250 2.1.5 Recipient OK")
    else replies session (codes "exploit_attempt") (codes "550 5.1.1 User unknown" ∷ [])

-- The arms that read no line: AUTH and DATA are in the handler, but for a DATA without a recipient.
unfoldable pub reply : SimSmtpConfig → SmtpSession → SmtpCommand → Text → Reply
unfolding mail_reply rcpt_reply
reply config session ehlo args =
    replies session (codes "smtp_command")
      (capability_lines (hostname_of config) (capabilities_of config))
reply config session helo args = says session (codes "250 " ++ hostname_of config)
reply config session auth args = says session []
reply config session mail args = mail_reply config session args
reply config session rcpt args = rcpt_reply config session args
reply config session data_command args = says session (codes "503 5.5.1 Need RCPT before DATA")
reply config session rset args = says (reset_transaction session) (codes "250 2.0.0 Reset state")
reply config session vrfy args =
    replies session (codes "exploit_attempt")
      (codes "252 2.5.2 Cannot VRFY user, but will accept message" ∷ [])
reply config session noop args = says session (codes "250 2.0.0 OK")
reply config session quit args = says session (codes "221 2.0.0 Bye")
reply config session unknown args = says session (codes "500 5.5.2 Command unrecognized")
