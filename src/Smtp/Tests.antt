-- ===== src/Smtp/Tests.antt =====
-- Sessions with the SMTP server.
use seclab_suite_protocol_si.Base.{
  List, Option, [], false, if◌then◌else◌, is_empty, none, refl, some, true, ◌++◌, ◌∷◌, ◌≡◌,
}
use seclab_suite_protocol_si.Base.Bits.{Bytes}
use seclab_suite_protocol_si.Base.Text.{Text, codes, split_once, text_eq, to_ascii_uppercase, trim}
use seclab_suite_protocol_si.Report.{Peer}
use seclab_suite_protocol_si.Session.{Event, then_trace}
use seclab_suite_protocol_si.Session.Lines.{goes_on, read_line, write_line}
use seclab_suite_protocol_si.Session.Reach.{Reaches, fresh, next}
use seclab_suite_protocol_si.Smtp.{
  SimSmtpConfig, SmtpContext, SmtpSession, new_session, requires_auth, smtp_command,
}
use seclab_suite_protocol_si.Smtp.Handler.{line_step, ready}
use seclab_suite_protocol_si.Smtp.Sound.{IsSound, Reaches-IsSoundState}
use seclab_suite_protocol_si.Smtp.Message.{accepts, message_bytes, run_from, run_from-message}
use seclab_suite_protocol_si.Mail.{custom_response}

-- A decoder that knows one text: that of an empty identity, "a" and "b".
abbrev base64 : Text → Option Bytes
base64 t = if text_eq t (codes "AGEAYg==") then some (0 ∷ b'a' ∷ 0 ∷ b'b' ∷ []) else none

abbrev config : SimSmtpConfig
config = record {
  banner = none;
  hostname = none;
  require_auth = some true;
  credentials =
      some (record { username = codes "a"; password = codes "b"; display_name = none } ∷ []);
  capabilities = none;
  accepted_recipients = some (codes "@Lab" ∷ []);
  custom_responses = none;
}

abbrev ctx : SmtpContext
ctx = record {
  site = record { rule_id = codes "r"; node_id = codes "n"; port = 25 };
  config = config;
}

abbrev peer : Peer
peer = record { ip = codes "10.0.0.1"; port = 40000 }

abbrev start : SmtpSession
start = new_session (requires_auth config)

abbrev inside : SmtpSession
inside = record { authed = true; mail_from = none; rcpt_to = [] }

abbrev named : SmtpSession
named = record { authed = true; mail_from = some (codes "FROM:<x>"); rcpt_to = [] }

abbrev addressed : SmtpSession
addressed = record {
  authed = true;
  mail_from = some (codes "FROM:<x>");
  rcpt_to = codes "TO:<y@lab>" ∷ [];
}

auth_step :
    (events : List Event) × (line_step base64 ctx peer (ready start) (codes "AUTH PLAIN AGEAYg==")
      ≡ goes_on (ready inside) events)
unfolding line_step split_once mathlib.Core.Option.bind
auth_step = (_, refl)

mail_step :
    (events : List Event) × (line_step base64 ctx peer (ready inside) (codes "MAIL FROM:<x>")
      ≡ goes_on (ready named) events)
unfolding line_step split_once
mail_step = (_, refl)

rcpt_step :
    (events : List Event) × (line_step base64 ctx peer (ready named) (codes "RCPT TO:<y@lab>")
      ≡ goes_on (ready addressed) events)
unfolding line_step split_once
rcpt_step = (_, refl)

addressed-Reaches : Reaches (line_step base64 ctx peer) (ready start) (ready addressed)
addressed-Reaches =
    next (ready addressed) (codes "RCPT TO:<y@lab>") rcpt_step.0
      (next (ready named) (codes "MAIL FROM:<x>") mail_step.0
        (next (ready inside) (codes "AUTH PLAIN AGEAYg==") auth_step.0 fresh auth_step.1)
        mail_step.1)
      rcpt_step.1

Reaches-IsSoundState_example : IsSound config addressed
Reaches-IsSoundState_example = Reaches-IsSoundState base64 ctx peer addressed-Reaches

-- A message of one line, and the command QUIT behind it.
abbrev raw : Text → Bytes
raw line = line ++ (0x0d ∷ 0x0a ∷ [])

raw_reads :
    (read_line (raw (codes "data")) ≡ some (codes "data"))
    × (read_line (raw (codes "QUIT")) ≡ some (codes "QUIT"))
    × (read_line (raw (codes ".")) ≡ some (codes "."))
unfolding read_line
raw_reads = (refl, refl, refl)

quit_other : text_eq (codes "QUIT") (codes ".") ≡ false
unfolding text_eq
quit_other = refl

data_is :
    (is_empty (trim (codes "data")) ≡ false)
    × (to_ascii_uppercase (smtp_command (codes "data")).0 ≡ codes "DATA")
    × (custom_response config.custom_responses (codes "DATA") (codes "data") (codes "smtp_command")
        ≡ none)
unfolding trim to_ascii_uppercase smtp_command custom_response split_once
data_is = (refl, refl, refl)

run_from-message_example :
    run_from base64 ctx peer (ready addressed) (
      raw (codes "data")
      ∷ ((raw (codes "QUIT") ∷ []) ++ (raw (codes ".") ∷ (raw (codes "QUIT") ∷ []))))
    ≡ then_trace (write_line (codes "354 End data with <CR><LF>.<CR><LF>") ∷ []) (
        accepts base64 ctx peer addressed
          (codes "data")
          (message_bytes (raw (codes "QUIT") ∷ []))
          (raw (codes "QUIT") ∷ []))
run_from-message_example =
    run_from-message base64 ctx peer addressed (raw (codes "data")) (codes "data")
      (raw (codes "QUIT") ∷ []) (raw (codes ".")) (raw (codes "QUIT") ∷ []) refl raw_reads.0
      data_is.0 data_is.1 data_is.2 ((codes "QUIT", raw_reads.1, quit_other), tt) raw_reads.2
