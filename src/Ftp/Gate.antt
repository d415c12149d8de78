-- ===== src/Ftp/Gate.antt =====
-- What a client that is not logged in is served, and how it logs in.
use seclab_suite_protocol_si.Base.{
  Bool, Bool-cases, List, [], ap, false, inl, inr, is_empty, refl, true, unwrap_or, ◌++◌, ◌∙◌, ◌∷◌,
  ◌≡◌,
}
use seclab_suite_protocol_si.Base.Text.{Text, codes, to_ascii_uppercase, trim}
use seclab_suite_protocol_si.Report.{Peer}
use seclab_suite_protocol_si.Session.{Event}
use seclab_suite_protocol_si.Session.Lines.{goes_on, write_line}
use seclab_suite_protocol_si.Ftp.{
  FtpCommand, FtpSession, FtpSimulationContext, SimFtpConfig, change, command_of, command_step,
  credentials_match, cwd, feat, finish, guarded, list_files, log_in, login_required, noop,
  parse_command, pass, pasv, pwd, quit, replies, reply, report_ftp_log, set_type, size_of, syst,
  unknown, user_command,
}
use seclab_suite_protocol_si.Ftp.Access.{command_step-reply, command_step-session}

-- The commands that `if !session.authed` guards.
abbrev pub needs_login : FtpCommand → Bool
needs_login user_command = false
needs_login pass = false
needs_login syst = false
needs_login feat = false
needs_login pwd = true
needs_login cwd = true
needs_login list_files = true
needs_login pasv = true
needs_login set_type = false
needs_login size_of = true
needs_login change = true
needs_login noop = false
needs_login quit = false
needs_login unknown = false

-- The command of a line.
abbrev pub command_on : Text → FtpCommand
command_on line = command_of (to_ascii_uppercase (parse_command line).0)

reply-login_required :
    (config : SimFtpConfig) (session : FtpSession) (command : FtpCommand) (upper args : Text)
    → session.authed ≡ false
    → needs_login command ≡ true
    → reply config session command upper args
      ≡ replies session (codes "ftp_command") (login_required ∷ [])
unfolding reply
reply-login_required config session user_command upper args h k = cc
reply-login_required config session pass upper args h k = cc
reply-login_required config session syst upper args h k = cc
reply-login_required config session feat upper args h k = cc
reply-login_required config session pwd upper args h k = rw h refl
reply-login_required config session cwd upper args h k = rw h refl
reply-login_required config session list_files upper args h k = rw h refl
reply-login_required config session pasv upper args h k = rw h refl
reply-login_required config session set_type upper args h k = cc
reply-login_required config session size_of upper args h k = rw h refl
reply-login_required config session change upper args h k = rw h refl
reply-login_required config session noop upper args h k = cc
reply-login_required config session quit upper args h k = cc
reply-login_required config session unknown upper args h k = cc

out :
    (session : FtpSession) (e l : Text)
    → session.authed ≡ false
    → (guarded session e l).session.authed ≡ false
out session e l h = rw h refl

stays_out :
    (session : FtpSession) (e l : Text)
    → session.authed ≡ false
    → (guarded session e l).session.authed ≡ true
    → ⊥
stays_out session e l h k = cc (out session e l h)

log_in_refused :
    (config : SimFtpConfig) (session : FtpSession) (username password : Text)
    → credentials_match config username password ≡ false
    → (log_in config session username password).session.authed ≡ session.authed
log_in_refused config session username password wrong = rw wrong refl

reply-authed :
    (config : SimFtpConfig) (session : FtpSession) (command : FtpCommand) (upper args : Text)
    → session.authed ≡ false
    → (reply config session command upper args).session.authed ≡ true
    → (command ≡ pass) × (credentials_match config (unwrap_or session.pending_user []) args ≡ true)
unfolding reply
reply-authed config session user_command upper args h k = cc
reply-authed config session pass upper args h k =
    elim (Bool-cases (credentials_match config (unwrap_or session.pending_user []) args)) [
      | inl opens ↦ (refl, opens)
      | inr wrong ↦
          cc (log_in_refused config session (unwrap_or session.pending_user []) args wrong)
    ]
reply-authed config session syst upper args h k = cc
reply-authed config session feat upper args h k = cc
reply-authed config session pwd upper args h k = absurd (stays_out session _ _ h k)
reply-authed config session cwd upper args h k = absurd (stays_out session _ _ h k)
reply-authed config session list_files upper args h k = absurd (stays_out session _ _ h k)
reply-authed config session pasv upper args h k = absurd (stays_out session _ _ h k)
reply-authed config session set_type upper args h k = cc
reply-authed config session size_of upper args h k = absurd (stays_out session _ _ h k)
reply-authed config session change upper args h k = absurd (stays_out session _ _ h k)
reply-authed config session noop upper args h k = cc
reply-authed config session quit upper args h k = cc
reply-authed config session unknown upper args h k = cc

finish-login_required :
    (ctx : FtpSimulationContext) (peer : Peer) (line : Text) (command : FtpCommand)
    (session : FtpSession)
    → needs_login command ≡ true
    → finish ctx peer line command (replies session (codes "ftp_command") (login_required ∷ []))
      ≡ goes_on session (
          write_line login_required
          ∷ report_ftp_log ctx peer (codes "ftp_command") (codes "FTP command: " ++ line) line
          ∷ [])
finish-login_required ctx peer line quit session n = cc
finish-login_required ctx peer line user_command session n = refl
finish-login_required ctx peer line pass session n = refl
finish-login_required ctx peer line syst session n = refl
finish-login_required ctx peer line feat session n = refl
finish-login_required ctx peer line pwd session n = refl
finish-login_required ctx peer line cwd session n = refl
finish-login_required ctx peer line list_files session n = refl
finish-login_required ctx peer line pasv session n = refl
finish-login_required ctx peer line set_type session n = refl
finish-login_required ctx peer line size_of session n = refl
finish-login_required ctx peer line change session n = refl
finish-login_required ctx peer line noop session n = refl
finish-login_required ctx peer line unknown session n = refl

-- A line whose command needs a login, from a client that is not logged in, is answered with the one line
-- that asks for the login, and is reported; the session stays as it was.
pub command_step-login_required :
    (ctx : FtpSimulationContext) (peer : Peer) (session : FtpSession) (line : Text)
    → session.authed ≡ false
    → is_empty (trim line) ≡ false
    → needs_login (command_on line) ≡ true
    → command_step ctx peer session line
      ≡ goes_on session (
          write_line login_required
          ∷ report_ftp_log ctx peer (codes "ftp_command") (codes "FTP command: " ++ line) line
          ∷ [])
command_step-login_required ctx peer session line h k n =
    let upper = to_ascii_uppercase (parse_command line).0 in
    command_step-reply ctx peer session line k
    ∙ ap (finish ctx peer line (command_of upper)) (
        reply-login_required ctx.config session (command_of upper) upper (parse_command line).1 h n)
    ∙ finish-login_required ctx peer line (command_of upper) session n

-- A line after which a client that was not logged in is logged in is a PASS, and the credentials match
-- its argument and the pending user name, or the empty name where none is pending.
pub command_step-authed :
    (ctx : FtpSimulationContext) (peer : Peer) (session after : FtpSession) (line : Text)
    {events : List Event}
    → session.authed ≡ false
    → command_step ctx peer session line ≡ goes_on after events
    → after.authed ≡ true
    → (command_on line ≡ pass)
      × (credentials_match ctx.config (unwrap_or session.pending_user []) (parse_command line).1
          ≡ true)
command_step-authed ctx peer session after line {events} h k a =
    let upper = to_ascii_uppercase (parse_command line).0 in
    elim (command_step-session ctx peer session after line events k) [
      | inl same ↦ cc (ap (λ (s : FtpSession). s.authed) same)
      | inr new ↦
          reply-authed ctx.config session (command_of upper) upper (parse_command line).1 h
            (ap (λ (s : FtpSession). s.authed) new ∙ a)
    ]
