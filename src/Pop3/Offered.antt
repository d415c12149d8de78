-- ===== src/Pop3/Offered.antt =====
-- The logins that the lines of a client lead to.
use seclab_suite_protocol_si.Base.{
  Bool, All, List, Option, [], arith, false, if-keeps, inl, inr, is_empty, length, not, refl, subst,
  true, ◌&&◌, ◌∷◌, ◌≡◌, ◌≤◌, ◌⊎◌,
}
use seclab_suite_protocol_si.Base.Bits.{Bytes}
use seclab_suite_protocol_si.Base.Text.{Text, codes, is_one_of, text_eq, text_eq_sound, trim}
use seclab_suite_protocol_si.Report.{Peer}
use seclab_suite_protocol_si.Session.Reach.{Leads}
use seclab_suite_protocol_si.Mail.{custom_response, decode_auth_plain}
use seclab_suite_protocol_si.Pop3.{
  Pop3Context, Pop3Session, SimPop3Config, credentials_of, messages_of,
}
use seclab_suite_protocol_si.Pop3.Commands.{
  Pop3Command, auth, capa, command_event, command_of, dele, list_messages, noop, pass, quit,
  reads_response, reply, retrieve, rset, stat, uidl, unknown, user_command,
}
use seclab_suite_protocol_si.Pop3.Handler.{
  Pop3State, in_auth, is_auth, line_step, parse_command, ready, run_command,
}
use seclab_suite_protocol_si.Pop3.Access.{requires_auth}
use seclab_suite_protocol_si.Pop3.Steps.{answer_custom-keeps, finish-keeps}
use seclab_suite_protocol_si.Pop3.Login.{
  FollowsAuth, HasCredential, IsJustified, IsJustified-same, IsWordOf, Offers, reply-IsJustified,
  sign_in-IsJustified,
}
use seclab_suite_protocol_si.Pop3.Reachable.{Reaches, Reaches-IsSound, fresh, next, session_of}

-- A command stands for the word that it is named by.
command_of-IsWordOf :
    (base64 : Text → Option Bytes) (config : SimPop3Config) (word : Text)
    → IsWordOf base64 config word (command_of word)
unfolding command_of
command_of-IsWordOf base64 config word =
    let P = IsWordOf base64 config word in
    if-keeps P (text_eq word (codes "CAPA")) _ _ (λ e. tt)
      (λ e. if-keeps P (text_eq word (codes "USER")) _ _ (text_eq_sound word (codes "USER")) (λ e.
        if-keeps P (text_eq word (codes "PASS")) _ _ (text_eq_sound word (codes "PASS")) (λ e.
          if-keeps P (text_eq word (codes "AUTH")) _ _ (text_eq_sound word (codes "AUTH")) (λ e.
            if-keeps P (text_eq word (codes "STAT")) _ _ (λ e. tt)
              (λ e.
                if-keeps P (text_eq word (codes "LIST")) _ _ (λ e. tt)
                  (λ e.
                    if-keeps P (text_eq word (codes "UIDL")) _ _ (λ e. tt)
                      (λ e.
                        if-keeps P (is_one_of word (codes "RETR" ∷ codes "TOP" ∷ [])) _ _ (λ e. tt)
                          (λ e.
                            if-keeps P (text_eq word (codes "DELE")) _ _ (λ e. tt)
                              (λ e.
                                if-keeps P (text_eq word (codes "RSET")) _ _ (λ e. tt)
                                  (λ e.
                                    if-keeps P (text_eq word (codes "NOOP")) _ _ (λ e. tt)
                                      (λ e.
                                        if-keeps P (text_eq word (codes "QUIT")) _ _ (λ e. tt)
                                          (λ e. tt))))))))))))

is_auth-IsWordOf :
    (base64 : Text → Option Bytes) (config : SimPop3Config) (word : Text) (command : Pop3Command)
    → IsWordOf base64 config word command
    → is_auth command ≡ true
    → word ≡ codes "AUTH"
is_auth-IsWordOf base64 config word auth h k = h
is_auth-IsWordOf base64 config word capa h k = cc
is_auth-IsWordOf base64 config word user_command h k = cc
is_auth-IsWordOf base64 config word pass h k = cc
is_auth-IsWordOf base64 config word stat h k = cc
is_auth-IsWordOf base64 config word list_messages h k = cc
is_auth-IsWordOf base64 config word uidl h k = cc
is_auth-IsWordOf base64 config word retrieve h k = cc
is_auth-IsWordOf base64 config word dele h k = cc
is_auth-IsWordOf base64 config word rset h k = cc
is_auth-IsWordOf base64 config word noop h k = cc
is_auth-IsWordOf base64 config word quit h k = cc
is_auth-IsWordOf base64 config word unknown h k = cc

not-true : (b : Bool) → not b ≡ true → b ≡ false
not-true true h = cc
not-true false h = refl

module _ (base64 : Text → Option Bytes) (ctx : Pop3Context) (peer : Peer) where
  -- The lines that led to a state, the last one in front.
  abbrev pub lines_of : {state : Pop3State} → Reaches base64 ctx peer state → List Text
  lines_of fresh = []
  lines_of (next after line events before step) = line ∷ lines_of before

  abbrev IsJustifiedState : List Text → Pop3State → Type 0
  IsJustifiedState lines (ready session) = IsJustified base64 ctx.config lines session
  IsJustifiedState lines (in_auth session line) =
      IsJustified base64 ctx.config lines session × FollowsAuth lines

  run_command-IsJustified :
      (lines : List Text) (session : Pop3Session) (line : Text)
      → IsJustified base64 ctx.config lines session
      → Leads (IsJustifiedState (line ∷ lines)) (
          run_command base64 ctx peer session line
            (command_of (parse_command line).0)
            (parse_command line).1)
  run_command-IsJustified lines session line h =
      let word = (parse_command line).0 in
      let args = (parse_command line).1 in
      let command = command_of word in
      let named = command_of-IsWordOf base64 ctx.config word in
      if-keeps (Leads (IsJustifiedState (line ∷ lines))) (is_auth command && reads_response args) _
        _
        (λ waits. (
          IsJustified-same base64 ctx.config line lines session session h (refl, refl),
          is_auth-IsWordOf base64 ctx.config word command named (ground arith),
        ))
        (λ other.
          finish-keeps (IsJustifiedState (line ∷ lines)) ctx peer line command
            (reply base64 ctx.config session command args)
            (reply-IsJustified base64 ctx.config line lines session command named h))

  line_step-IsJustified :
      (lines : List Text) (state : Pop3State) (line : Text)
      → IsJustifiedState lines state
      → Leads (IsJustifiedState (line ∷ lines)) (line_step base64 ctx peer state line)
  unfolding line_step
  line_step-IsJustified lines (ready session) line h =
      let later = IsJustified-same base64 ctx.config line lines session session h (refl, refl) in
      if-keeps (Leads (IsJustifiedState (line ∷ lines))) (is_empty (trim line)) _ _ (λ e. later)
        (λ e.
          answer_custom-keeps (IsJustifiedState (line ∷ lines)) ctx peer session line
            (custom_response ctx.config.custom_responses (parse_command line).0 line command_event)
            (run_command base64 ctx peer session line (command_of (parse_command line).0)
              (parse_command line).1)
            later (run_command-IsJustified lines session line h))
  line_step-IsJustified lines (in_auth session auth_line) line (h, follows) =
      sign_in-IsJustified base64 ctx.config line lines session (decode_auth_plain base64 line)
        (λ user password decoded. inr (inr (decoded, follows))) h

  Reaches-IsJustified :
      {state : Pop3State} (h : Reaches base64 ctx peer state) → IsJustifiedState (lines_of h) state
  Reaches-IsJustified fresh = ((λ a. inl (not-true (requires_auth ctx.config) a)), tt)
  Reaches-IsJustified (next {state} after line events before step) =
      subst (Leads (IsJustifiedState (line ∷ lines_of before))) step
        (line_step-IsJustified (lines_of before) state line (Reaches-IsJustified before))

  session-IsJustified :
      (lines : List Text) (state : Pop3State)
      → IsJustifiedState lines state
      → IsJustified base64 ctx.config lines (session_of state)
  session-IsJustified lines (ready session) h = h
  session-IsJustified lines (in_auth session line) h = h.0

  -- Every session that the lines of a client lead to has one mark, 0 or 1, for each message of the
  -- configuration. Where it is logged in, the configuration requires no login, or one of those lines
  -- offered a user name and a password that a credential of the configuration has: a PASS with the
  -- password, for the name of a USER line in front of it or for the empty name; an AUTH PLAIN whose
  -- second word decodes to the two; or the line behind an AUTH, which decodes to the two.
  pub Reaches-IsOffered :
      {state : Pop3State} (h : Reaches base64 ctx peer state)
      → (length (session_of state).deleted ≡ length (messages_of ctx.config))
        × All (λ mark. mark ≤ 1) (session_of state).deleted
        × ((session_of state).authed ≡ true
            → (requires_auth ctx.config ≡ false)
              ⊎ ((user password : Text) × HasCredential (credentials_of ctx.config) user password
                  × Offers base64 (lines_of h) user password))
  Reaches-IsOffered {state} h =
      let (n, marks, entitled) = Reaches-IsSound base64 ctx peer h in
      (n, marks, (session-IsJustified (lines_of h) state (Reaches-IsJustified h)).0)
