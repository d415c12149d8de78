-- ===== src/Smtp/Sound.antt =====
-- Who may send a message, and in which order the commands of a message come.
use seclab_suite_protocol_si.Base.{
  Bool, Option, Option-cases, [], arith, false, if-keeps, inl, inr, is_empty, none, not, refl, some,
  subst, true, unwrap_or, ℕ, ◌&&◌, ◌≡◌, ◌⊎◌,
}
use seclab_suite_protocol_si.Base.Text.{
  Text, codes, split_whitespace, starts_with, text_eq, to_ascii_uppercase, trim,
}
use seclab_suite_protocol_si.Mail.{
  credentials_match, custom_response, decode_auth_plain, decode_base64_text, first_word,
  second_word,
}
use seclab_suite_protocol_si.Smtp.{
  Reply, SimSmtpConfig, SmtpCommand, SmtpContext, SmtpSession, auth, command_of, credentials_of,
  data_command, ehlo, helo, is_allowed, is_some, mail, mail_reply, new_session, noop, quit, rcpt,
  rcpt_reply, reply, requires_auth, rset, smtp_command, unknown, vrfy,
}
use seclab_suite_protocol_si.Smtp.Handler.{
  SmtpState, answer_custom, auth_reply, data_reply, in_data, in_login_password, in_login_user,
  in_plain, line_step, login_accepted, matches, plain_accepted, ready, run_command, start_auth,
}
use seclab_suite_protocol_si.Base.Bits.{Bytes}
use seclab_suite_protocol_si.Report.{Peer}
use seclab_suite_protocol_si.Session.Lines.{LineStep}
use seclab_suite_protocol_si.Session.Reach.{Leads, Reaches, Reaches-keeps}

-- The configuration requires no login, or it has a credential for some user name and password.
abbrev pub IsOpen : SimSmtpConfig → Type 0
IsOpen config =
    (requires_auth config ≡ false)
    ⊎ ((username password : Text) × (credentials_match (credentials_of config) username password
          ≡ true))

-- Recipients stand behind a sender, and logins and senders are of clients that may log in.
abbrev pub IsSound : SimSmtpConfig → SmtpSession → Type 0
IsSound config session =
    ((is_empty session.rcpt_to ≡ true) ⊎ (is_some session.mail_from ≡ true))
    × (session.authed ≡ true → IsOpen config)
    × (is_some session.mail_from ≡ true → IsOpen config)

-- A message is read only for a session with a recipient.
abbrev pub IsSoundState : SimSmtpConfig → SmtpState → Type 0
IsSoundState config (ready session) = IsSound config session
IsSoundState config (in_plain session line) = IsSound config session
IsSoundState config (in_login_user session line) = IsSound config session
IsSoundState config (in_login_password session line username) = IsSound config session
IsSoundState config (in_data session line bytes) =
    IsSound config session × (is_empty session.rcpt_to ≡ false)

logged_in :
    (required inside : Bool)
    → (required && not inside) ≡ false
    → (required ≡ false) ⊎ (inside ≡ true)
logged_in true true h = inr refl
logged_in true false h = cc
logged_in false inside h = inl refl

not-not : (b : Bool) → not b ≡ false → b ≡ true
not-not true h = refl
not-not false h = cc

module _ (config : SimSmtpConfig) where
  mail_reply-IsSound :
      (session : SmtpSession) (args : Text)
      → IsSound config session
      → IsSound config (mail_reply config session args).session
  unfolding mail_reply
  mail_reply-IsSound session args (order, authed, sender) =
      if-keeps (λ (r : Reply). IsSound config r.session)
        (requires_auth config && not session.authed) _ _ (λ refused. (order, authed, sender))
        (λ allowed.
          if-keeps (λ (r : Reply). IsSound config r.session)
            (starts_with (to_ascii_uppercase args) (codes "FROM:")) _ _
            (λ named. (
              inr refl,
              authed,
              λ given. elim (logged_in (requires_auth config) session.authed allowed) [
                | inl free ↦ inl free
                | inr inside ↦ authed inside
              ],
            ))
            (λ unnamed. (order, authed, sender)))

  rcpt_reply-IsSound :
      (session : SmtpSession) (args : Text)
      → IsSound config session
      → IsSound config (rcpt_reply config session args).session
  unfolding rcpt_reply
  rcpt_reply-IsSound session args (order, authed, sender) =
      if-keeps (λ (r : Reply). IsSound config r.session) (not (is_some session.mail_from)) _ _
        (λ unnamed. (order, authed, sender))
        (λ named.
          if-keeps (λ (r : Reply). IsSound config r.session)
            (is_allowed (unwrap_or config.accepted_recipients []) args) _ _
            (λ listed. (inr (not-not (is_some session.mail_from) named), authed, sender))
            (λ unlisted. (order, authed, sender)))

  reply-IsSound :
      (session : SmtpSession) (command : SmtpCommand) (args : Text)
      → IsSound config session
      → IsSound config (reply config session command args).session
  unfolding reply
  reply-IsSound session ehlo args h = h
  reply-IsSound session helo args h = h
  reply-IsSound session auth args h = h
  reply-IsSound session mail args h = mail_reply-IsSound session args h
  reply-IsSound session rcpt args h = rcpt_reply-IsSound session args h
  reply-IsSound session data_command args h = h
  reply-IsSound session rset args (order, authed, sender) = (inl refl, authed, λ given. cc)
  reply-IsSound session vrfy args h = h
  reply-IsSound session noop args h = h
  reply-IsSound session quit args h = h
  reply-IsSound session unknown args h = h

  auth_reply-IsSound :
      (session : SmtpSession) (accepted : Bool)
      → (accepted ≡ true → IsOpen config)
      → IsSound config session
      → IsSound config (auth_reply session accepted).session
  unfolding auth_reply
  auth_reply-IsSound session accepted opens (order, authed, sender) = (order, opens, sender)

  plain-IsOpen :
      (base64 : Text → Option Bytes) (value : Text)
      → plain_accepted base64 config value ≡ true
      → IsOpen config
  unfolding plain_accepted
  plain-IsOpen base64 value h = elim (Option-cases (decode_auth_plain base64 value)) [
    | inl undecoded ↦ ground arith
    | inr ((username, password), decoded) ↦
        inr (username, password, subst (λ o. matches (credentials_of config) o ≡ true) decoded h)
  ]

  login-IsOpen :
      (base64 : Text → Option Bytes) (username line : Text)
      → login_accepted base64 config username line ≡ true
      → IsOpen config
  unfolding login_accepted
  login-IsOpen base64 username line h =
      inr (username, unwrap_or (decode_base64_text base64 line) [], h)

  data_reply-IsSound :
      (session : SmtpSession) (bytes : ℕ)
      → IsSound config session
      → IsSound config (data_reply session bytes).session
  unfolding data_reply
  data_reply-IsSound session bytes (order, authed, sender) = (inl refl, authed, λ given. cc)

not_required : (b : Bool) → not b ≡ true → b ≡ false
not_required true h = cc
not_required false h = refl

module _ (base64 : Text → Option Bytes) (ctx : SmtpContext) (peer : Peer) where
  start_auth-IsSound :
      (session : SmtpSession) (line args : Text)
      → IsSound ctx.config session
      → Leads (IsSoundState ctx.config) (start_auth base64 ctx peer session line args)
  unfolding start_auth
  start_auth-IsSound session line args h =
      let initial = second_word (split_whitespace args) in
      let mechanism = to_ascii_uppercase (first_word (split_whitespace args)) in
      let P = Leads (IsSoundState ctx.config) in
      if-keeps P (text_eq mechanism (codes "PLAIN")) _ _
        (λ plain.
          if-keeps P (is_empty initial) _ _ (λ e. h)
            (λ e.
              auth_reply-IsSound ctx.config session (plain_accepted base64 ctx.config initial)
                (plain-IsOpen ctx.config base64 initial) h))
        (λ other.
          if-keeps P (text_eq mechanism (codes "LOGIN")) _ _
            (λ login. if-keeps P (is_empty initial) _ _ (λ e. h) (λ e. h))
            (λ unknown_mechanism. auth_reply-IsSound ctx.config session false (λ e. cc) h))

  run_command-IsSound :
      (session : SmtpSession) (line : Text) (command : SmtpCommand) (args : Text)
      → IsSound ctx.config session
      → Leads (IsSoundState ctx.config) (run_command base64 ctx peer session line command args)
  unfolding run_command
  run_command-IsSound session line auth args h = start_auth-IsSound session line args h
  run_command-IsSound session line data_command args h =
      if-keeps (Leads (IsSoundState ctx.config)) (is_empty session.rcpt_to) _ _
        (λ e. reply-IsSound ctx.config session data_command args h) (λ e. (h, e))
  run_command-IsSound session line quit args h = tt
  run_command-IsSound session line ehlo args h = reply-IsSound ctx.config session ehlo args h
  run_command-IsSound session line helo args h = reply-IsSound ctx.config session helo args h
  run_command-IsSound session line mail args h = reply-IsSound ctx.config session mail args h
  run_command-IsSound session line rcpt args h = reply-IsSound ctx.config session rcpt args h
  run_command-IsSound session line rset args h = reply-IsSound ctx.config session rset args h
  run_command-IsSound session line vrfy args h = reply-IsSound ctx.config session vrfy args h
  run_command-IsSound session line noop args h = reply-IsSound ctx.config session noop args h
  run_command-IsSound session line unknown args h = reply-IsSound ctx.config session unknown args h

  answer_custom-IsSound :
      (session : SmtpSession) (line : Text) (custom : Option (Text × Text))
      (otherwise : LineStep SmtpState)
      → IsSound ctx.config session
      → Leads (IsSoundState ctx.config) otherwise
      → Leads (IsSoundState ctx.config) (answer_custom ctx peer session line custom otherwise)
  answer_custom-IsSound session line none otherwise h k = k
  answer_custom-IsSound session line (some (response, event_type)) otherwise h k = h

  line_step-IsSound :
      (state : SmtpState) (line : Text)
      → IsSoundState ctx.config state
      → Leads (IsSoundState ctx.config) (line_step base64 ctx peer state line)
  unfolding line_step
  line_step-IsSound (ready session) line h =
      let (command, args) = smtp_command line in
      let upper = to_ascii_uppercase command in
      if-keeps (Leads (IsSoundState ctx.config)) (is_empty (trim line)) _ _ (λ blank. h)
        (λ filled.
          answer_custom-IsSound session line
            (custom_response ctx.config.custom_responses upper line (codes "smtp_command"))
            (run_command base64 ctx peer session line (command_of upper) args) h
            (run_command-IsSound session line (command_of upper) args h))
  line_step-IsSound (in_plain session line) value h =
      auth_reply-IsSound ctx.config session (plain_accepted base64 ctx.config value)
        (plain-IsOpen ctx.config base64 value) h
  line_step-IsSound (in_login_user session line) value h = h
  line_step-IsSound (in_login_password session line username) value h =
      auth_reply-IsSound ctx.config session (login_accepted base64 ctx.config username value)
        (login-IsOpen ctx.config base64 username value) h
  line_step-IsSound (in_data session line bytes) value (h, e) =
      if-keeps (Leads (IsSoundState ctx.config)) (text_eq value (codes ".")) _ _
        (λ ends. data_reply-IsSound ctx.config session bytes h) (λ more. (h, e))

  -- In every state that the lines of a client lead to, recipients stand behind a sender, a message is read
  -- only with a recipient, and a session that is logged in or has a sender is of a configuration that
  -- requires no login or has a credential that matches some user name and password.
  pub Reaches-IsSoundState :
      {state : SmtpState}
      → Reaches (line_step base64 ctx peer) (ready (new_session (requires_auth ctx.config))) state
      → IsSoundState ctx.config state
  Reaches-IsSoundState h =
      Reaches-keeps (line_step base64 ctx peer) (ready (new_session (requires_auth ctx.config)))
        (IsSoundState ctx.config)
        (inl refl, (λ a. inl (not_required (requires_auth ctx.config) a)), λ given. cc)
        line_step-IsSound h
