-- ===== src/Ftp/Tests.antt =====
-- Sessions with the FTP server.
use seclab_suite_protocol_si.Base.{
  List, [], false, is_empty, none, refl, some, true, unwrap_or, ◌++◌, ◌∷◌, ◌≡◌,
}
use seclab_suite_protocol_si.Base.Text.{codes, split_once, to_ascii_uppercase, trim}
use seclab_suite_protocol_si.Report.{Peer}
use seclab_suite_protocol_si.Session.{Event}
use seclab_suite_protocol_si.Session.Lines.{goes_on, write_line}
use seclab_suite_protocol_si.Ftp.{
  FtpSession, FtpSimulationContext, command_of, command_step, credentials_match, login_required,
  new_session, parse_command, pass, report_ftp_log,
}
use seclab_suite_protocol_si.Ftp.Gate.{
  command_on, command_step-authed, command_step-login_required, needs_login,
}
use seclab_suite_protocol_si.Ftp.Access.{IsEntitled, Reaches, Reaches-IsEntitled, fresh, next}

abbrev ctx : FtpSimulationContext
ctx = record {
  site = record { rule_id = codes "r"; node_id = codes "n"; port = 21 };
  config = record {
    banner = none;
    credentials = some (record { username = codes "root"; password = codes "toor" } ∷ []);
    server_name = none;
    allow_anonymous = none;
  };
}

abbrev peer : Peer
peer = record { ip = codes "10.0.0.1"; port = 40000 }

-- After `USER root`, and after `PASS toor`.
abbrev named : FtpSession
named = record { pending_user = some (codes "root"); authed = false; username = none }

abbrev logged_in : FtpSession
logged_in = record { pending_user = none; authed = true; username = some (codes "root") }

user_step :
    (events : List Event) × (command_step ctx peer new_session (codes "USER root")
      ≡ goes_on named events)
unfolding command_step
user_step = (_, refl)

pass_step :
    (events : List Event) × (command_step ctx peer named (codes "pass toor")
      ≡ goes_on logged_in events)
unfolding command_step
pass_step = (_, refl)

logged_in-Reaches : Reaches ctx peer logged_in
logged_in-Reaches =
    next logged_in (codes "pass toor") pass_step.0
      (next named (codes "USER root") user_step.0 fresh user_step.1) pass_step.1

Reaches-IsEntitled_example : IsEntitled ctx.config logged_in
Reaches-IsEntitled_example = Reaches-IsEntitled ctx peer logged_in-Reaches

command_step-authed_example :
    (command_on (codes "pass toor") ≡ pass)
    × (credentials_match ctx.config
          (unwrap_or named.pending_user [])
          (parse_command (codes "pass toor")).1
        ≡ true)
command_step-authed_example =
    command_step-authed ctx peer named logged_in (codes "pass toor") refl pass_step.1 refl

list_is : needs_login (command_on (codes "LIST")) ≡ true
unfolding command_of split_once to_ascii_uppercase
list_is = refl

list_filled : is_empty (trim (codes "LIST")) ≡ false
unfolding trim
list_filled = refl

command_step-login_required_example :
    command_step ctx peer named (codes "LIST")
    ≡ goes_on named (
        write_line login_required
        ∷ report_ftp_log ctx peer
            (codes "ftp_command")
            (codes "FTP command: " ++ codes "LIST")
            (codes "LIST")
        ∷ [])
command_step-login_required_example =
    command_step-login_required ctx peer named (codes "LIST") refl list_filled list_is
