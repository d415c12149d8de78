-- ===== src/Ftp/Access.antt =====
-- Who is logged in, in the sessions that a client can reach.
use seclab_suite_protocol_si.Base.{
  Bool, Bool-cases, List, [], false, if◌then◌else◌, inl, inr, is_empty, not, refl, some, subst, sym,
  true, unwrap_or, ◌∙◌, ◌≡◌, ◌⊎◌,
}
use seclab_suite_protocol_si.Base.Text.{Text, to_ascii_uppercase, trim}
use seclab_suite_protocol_si.Report.{Peer}
use seclab_suite_protocol_si.Session.{Event}
use seclab_suite_protocol_si.Session.Lines.{LineStep, goes_on}
use seclab_suite_protocol_si.Ftp.{
  FtpCommand, FtpSession, FtpSimulationContext, Reply, SimFtpConfig, change, command_of,
  command_step, credentials_match, cwd, feat, finish, list_files, log_in, new_session, noop,
  parse_command, pass, pasv, pwd, quit, replies, reply, set_type, size_of, syst, unknown,
  user_command,
}

-- The sessions that the lines of some client lead to.
pub data Reaches (ctx : FtpSimulationContext) (peer : Peer) : FtpSession → Type 0 where
  fresh : Reaches ctx peer new_session
  next :
      {session : FtpSession} (after : FtpSession) (line : Text) (events : List Event)
      → Reaches ctx peer session
      → command_step ctx peer session line ≡ goes_on after events
      → Reaches ctx peer after

-- Whoever is logged in has a name that some password opens.
abbrev pub IsEntitled : SimFtpConfig → FtpSession → Type 0
IsEntitled config session =
    session.authed ≡ true
    → (username password : Text) × (session.username ≡ some username)
      × (credentials_match config username password ≡ true)

pub guarded-session :
    (b : Bool) (session : FtpSession) (e f : Text) (l m : List Text)
    → (if b then replies session e l else replies session f m).session ≡ session
guarded-session true session e f l m = refl
guarded-session false session e f l m = refl

log_in-IsEntitled :
    (config : SimFtpConfig) (session : FtpSession) (username password : Text)
    → IsEntitled config session
    → IsEntitled config (log_in config session username password).session
log_in-IsEntitled config session username password h =
    elim (Bool-cases (credentials_match config username password)) [
      | inl opens ↦ λ a. (username, password, rw opens refl, opens)
      | inr wrong ↦ rw wrong h
    ]

reply-IsEntitled :
    (config : SimFtpConfig) (session : FtpSession) (command : FtpCommand) (upper args : Text)
    → IsEntitled config session
    → IsEntitled config (reply config session command upper args).session
unfolding reply
reply-IsEntitled config session user_command upper args h = λ a. cc
reply-IsEntitled config session pass upper args h =
    log_in-IsEntitled config session (unwrap_or session.pending_user []) args h
reply-IsEntitled config session syst upper args h = h
reply-IsEntitled config session feat upper args h = h
reply-IsEntitled config session pwd upper args h =
    subst (IsEntitled config) (sym (guarded-session (not session.authed) session _ _ _ _)) h
reply-IsEntitled config session cwd upper args h =
    subst (IsEntitled config) (sym (guarded-session (not session.authed) session _ _ _ _)) h
reply-IsEntitled config session list_files upper args h =
    subst (IsEntitled config) (sym (guarded-session (not session.authed) session _ _ _ _)) h
reply-IsEntitled config session pasv upper args h =
    subst (IsEntitled config) (sym (guarded-session (not session.authed) session _ _ _ _)) h
reply-IsEntitled config session set_type upper args h = h
reply-IsEntitled config session size_of upper args h =
    subst (IsEntitled config) (sym (guarded-session (not session.authed) session _ _ _ _)) h
reply-IsEntitled config session change upper args h =
    subst (IsEntitled config) (sym (guarded-session (not session.authed) session _ _ _ _)) h
reply-IsEntitled config session noop upper args h = h
reply-IsEntitled config session quit upper args h = h
reply-IsEntitled config session unknown upper args h = h

pub finish-session :
    (ctx : FtpSimulationContext) (peer : Peer) (line : Text) (command : FtpCommand) (r : Reply)
    {after : FtpSession} {events : List Event}
    → finish ctx peer line command r ≡ goes_on after events
    → r.session ≡ after
finish-session ctx peer line quit r h = cc
finish-session ctx peer line user_command r h = cc
finish-session ctx peer line pass r h = cc
finish-session ctx peer line syst r h = cc
finish-session ctx peer line feat r h = cc
finish-session ctx peer line pwd r h = cc
finish-session ctx peer line cwd r h = cc
finish-session ctx peer line list_files r h = cc
finish-session ctx peer line pasv r h = cc
finish-session ctx peer line set_type r h = cc
finish-session ctx peer line size_of r h = cc
finish-session ctx peer line change r h = cc
finish-session ctx peer line noop r h = cc
finish-session ctx peer line unknown r h = cc

-- The reply to a line.
abbrev pub reply_to : FtpSimulationContext → FtpSession → Text → Reply
reply_to ctx session line =
    let upper = to_ascii_uppercase (parse_command line).0 in
    reply ctx.config session (command_of upper) upper (parse_command line).1

command_step-blank :
    (ctx : FtpSimulationContext) (peer : Peer) (session : FtpSession) (line : Text)
    → is_empty (trim line) ≡ true
    → command_step ctx peer session line ≡ goes_on session []
unfolding command_step
command_step-blank ctx peer session line h = rw h refl

pub command_step-reply :
    (ctx : FtpSimulationContext) (peer : Peer) (session : FtpSession) (line : Text)
    → is_empty (trim line) ≡ false
    → command_step ctx peer session line
      ≡ finish ctx peer line
          (command_of (to_ascii_uppercase (parse_command line).0))
          (reply_to ctx session line)
unfolding command_step
command_step-reply ctx peer session line h = rw h refl

goes_on-state :
    (session after : FtpSession) (e f : List Event)
    → ◌≡◌ {A = LineStep FtpSession} (goes_on session e) (goes_on after f)
    → session ≡ after
goes_on-state session after e f h = cc

-- The session after a line is the one that was there, or that of the reply.
pub command_step-session :
    (ctx : FtpSimulationContext) (peer : Peer) (session after : FtpSession) (line : Text)
    (events : List Event)
    → command_step ctx peer session line ≡ goes_on after events
    → (session ≡ after) ⊎ ((reply_to ctx session line).session ≡ after)
command_step-session ctx peer session after line events h =
    elim (Bool-cases (is_empty (trim line))) [
      | inl blank ↦ inl (
          goes_on-state session after [] events
            (sym (command_step-blank ctx peer session line blank) ∙ h))
      | inr filled ↦ inr (
          finish-session ctx peer line (command_of (to_ascii_uppercase (parse_command line).0))
            (reply_to ctx session line) {events = events}
            (sym (command_step-reply ctx peer session line filled) ∙ h))
    ]

command_step-IsEntitled :
    (ctx : FtpSimulationContext) (peer : Peer) (session after : FtpSession) (line : Text)
    {events : List Event}
    → IsEntitled ctx.config session
    → command_step ctx peer session line ≡ goes_on after events
    → IsEntitled ctx.config after
command_step-IsEntitled ctx peer session after line {events} h k =
    let upper = to_ascii_uppercase (parse_command line).0 in
    elim (command_step-session ctx peer session after line events k) [
      | inl same ↦ subst (IsEntitled ctx.config) same h
      | inr new ↦
          subst (IsEntitled ctx.config) new
            (reply-IsEntitled ctx.config session (command_of upper) upper (parse_command line).1 h)
    ]

-- Every session that the lines of a client lead to is entitled: where it is logged in, it has a user
-- name that the configuration accepts with some password.
pub Reaches-IsEntitled :
    (ctx : FtpSimulationContext) (peer : Peer) {session : FtpSession}
    → Reaches ctx peer session
    → IsEntitled ctx.config session
Reaches-IsEntitled ctx peer fresh = λ a. cc
Reaches-IsEntitled ctx peer (next {session} after line events before step) =
    command_step-IsEntitled ctx peer session after line (Reaches-IsEntitled ctx peer before) step
