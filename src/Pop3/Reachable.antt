-- ===== src/Pop3/Reachable.antt =====
-- The sessions that a client can reach, and what the commands do there.
use seclab_suite_protocol_si.Base.{
  Bool, List, Option, [], arith, false, if◌then◌else◌, inl, is_empty, length, length-replicate, ltb,
  none, not, refl, replicate, set, some, subst, true, ℕ, ◌&&◌, ◌+◌, ◌<◌, ◌∙◌, ◌≡◌, ◌≢◌,
}
use seclab_suite_protocol_si.Base.Bits.{Bytes}
use seclab_suite_protocol_si.Base.Text.{Text, trim}
use seclab_suite_protocol_si.Report.{Peer}
use seclab_suite_protocol_si.Session.{Event}
use seclab_suite_protocol_si.Session.Lines.{LineStep, goes_on, quits}
use seclab_suite_protocol_si.Mail.{custom_response, decode_auth_plain}
use seclab_suite_protocol_si.Pop3.{
  Pop3Context, Pop3Session, SimPop3Config, is_deleted, messages_of, new_session, parse_index,
  visible_messages,
}
use seclab_suite_protocol_si.Pop3.Commands.{
  Pop3Command, Reply, auth, capa, command_event, command_of, dele, list_messages, noop, pass, quit,
  reads_response, reply, retrieve, rset, stat, uidl, unknown, user_command,
}
use seclab_suite_protocol_si.Pop3.Handler.{
  Pop3State, answer_custom, finish, in_auth, is_auth, line_step, parse_command, ready, run_command,
}
use seclab_suite_protocol_si.Pop3.Tally.{
  All-replicate, is_deleted-set, length-visible_from, sum, sum-replicate,
}
use seclab_suite_protocol_si.Pop3.Access.{IsSound, reply-IsSound, requires_auth, sign_in-IsSound}

abbrev pub session_of : Pop3State → Pop3Session
session_of (ready session) = session
session_of (in_auth session line) = session

module _ (base64 : Text → Option Bytes) (ctx : Pop3Context) (peer : Peer) where
  -- The states that the lines of some client lead to.
  pub data Reaches : Pop3State → Type 0 where
    fresh :
        Reaches (ready (new_session (requires_auth ctx.config) (length (messages_of ctx.config))))
    next :
        {state : Pop3State} (after : Pop3State) (line : Text) (events : List Event)
        → Reaches state
        → line_step base64 ctx peer state line ≡ goes_on after events
        → Reaches after

  -- What a line leads to, as a condition on the state.
  abbrev Leads : (Pop3State → Type 0) → LineStep Pop3State → Type 0
  Leads P (goes_on state events) = P state
  Leads P (quits events) = Unit

  abbrev IsSoundState : Pop3State → Type 0
  IsSoundState state = IsSound ctx.config (session_of state)

  finish-IsSound :
      (line : Text) (command : Pop3Command) (r : Reply)
      → IsSound ctx.config r.session
      → Leads IsSoundState (finish ctx peer line command r)
  finish-IsSound line quit r h = tt
  finish-IsSound line capa r h = h
  finish-IsSound line user_command r h = h
  finish-IsSound line pass r h = h
  finish-IsSound line auth r h = h
  finish-IsSound line stat r h = h
  finish-IsSound line list_messages r h = h
  finish-IsSound line uidl r h = h
  finish-IsSound line retrieve r h = h
  finish-IsSound line dele r h = h
  finish-IsSound line rset r h = h
  finish-IsSound line noop r h = h
  finish-IsSound line unknown r h = h

  choice-Leads :
      (b : Bool) (r s : LineStep Pop3State)
      → Leads IsSoundState r
      → Leads IsSoundState s
      → Leads IsSoundState (if b then r else s)
  choice-Leads true r s h k = h
  choice-Leads false r s h k = k

  run_command-IsSound :
      (session : Pop3Session) (line : Text) (command : Pop3Command) (args : Text)
      → IsSound ctx.config session
      → Leads IsSoundState (run_command base64 ctx peer session line command args)
  run_command-IsSound session line command args h =
      choice-Leads (is_auth command && reads_response args) _ _ h (
        finish-IsSound line command (reply base64 ctx.config session command args)
          (reply-IsSound ctx.config base64 session command args h))

  answer_custom-IsSound :
      (session : Pop3Session) (line : Text) (custom : Option (Text × Text))
      (otherwise : LineStep Pop3State)
      → IsSound ctx.config session
      → Leads IsSoundState otherwise
      → Leads IsSoundState (answer_custom ctx peer session line custom otherwise)
  answer_custom-IsSound session line none otherwise h k = k
  answer_custom-IsSound session line (some (response, event_type)) otherwise h k = h

  line_step-IsSound :
      (state : Pop3State) (line : Text)
      → IsSoundState state
      → Leads IsSoundState (line_step base64 ctx peer state line)
  unfolding line_step
  line_step-IsSound (ready session) line h = choice-Leads (is_empty (trim line)) _ _ h (
      answer_custom-IsSound session line
        (custom_response ctx.config.custom_responses (parse_command line).0 line command_event)
        (run_command base64 ctx peer session line (command_of (parse_command line).0)
          (parse_command line).1)
        h
        (run_command-IsSound session line (command_of (parse_command line).0) (parse_command line).1
          h))
  line_step-IsSound (in_auth session line) auth_line h =
      sign_in-IsSound ctx.config session (decode_auth_plain base64 auth_line) h

  open_door : (b : Bool) → not b ≡ true → b ≡ false
  open_door true h = cc
  open_door false h = refl

  -- Every session that the lines of a client lead to has one mark, 0 or 1, for each message of the
  -- configuration; and where it is logged in, the configuration requires no login or has a credential
  -- that matches some user name and password.
  pub Reaches-IsSound : {state : Pop3State} → Reaches state → IsSound ctx.config (session_of state)
  Reaches-IsSound fresh = (
    length-replicate (length (messages_of ctx.config)) 0,
    All-replicate (length (messages_of ctx.config)),
    λ a. inl (open_door (requires_auth ctx.config) a),
  )
  Reaches-IsSound (next {state} after line events before step) =
      subst (Leads IsSoundState) step (line_step-IsSound state line (Reaches-IsSound before))

  -- In every state that the lines of a client lead to, the messages that STAT and LIST count and the marks
  -- of DELE add up to the messages of the configuration.
  pub Reaches-tally :
      {state : Pop3State}
      → Reaches state
      → length (visible_messages (messages_of ctx.config) (session_of state))
          + sum (session_of state).deleted
        ≡ length (messages_of ctx.config)
  Reaches-tally {state} h =
      let (n, marks, entitled) = Reaches-IsSound h in
      length-visible_from (messages_of ctx.config) [] (session_of state).deleted n marks

-- After RSET, in a state that the lines of a client lead to, as many messages are visible as the
-- configuration has.
pub reply-rset :
    (base64 : Text → Option Bytes) (ctx : Pop3Context) (peer : Peer) {state : Pop3State}
    (args : Text)
    → Reaches base64 ctx peer state
    → length (
        visible_messages
          (messages_of ctx.config)
          (reply base64 ctx.config (session_of state) rset args).session)
      ≡ length (messages_of ctx.config)
unfolding reply
reply-rset base64 ctx peer {state} args h =
    let session = session_of state in
    let (n, marks, entitled) = Reaches-IsSound base64 ctx peer h in
    let m = length session.deleted in
    let total =
      length-visible_from (messages_of ctx.config) [] (replicate m 0) (length-replicate m 0 ∙ n)
        (All-replicate m) in
    omega (arith, total, sum-replicate m)

ltb-true : (a b : ℕ) → a < b → ltb a b ≡ true
ltb-true a b h = ground arith

reply-dele_marks :
    (base64 : Text → Option Bytes) (config : SimPop3Config) (session : Pop3Session) (args : Text)
    (index : ℕ)
    → session.authed ≡ true
    → parse_index args ≡ some index
    → index < length session.deleted
    → (reply base64 config session dele args).session.deleted ≡ set session.deleted index 1
unfolding reply
reply-dele_marks base64 config session args index h parsed inside =
    simp (parsed, h, ltb-true index (length session.deleted) inside)

-- DELE with the number of a message that has a mark, from a client that is logged in, marks that
-- message and changes no other mark.
pub reply-dele :
    (base64 : Text → Option Bytes) (config : SimPop3Config) (session : Pop3Session) (args : Text)
    (index other : ℕ)
    → session.authed ≡ true
    → parse_index args ≡ some index
    → index < length session.deleted
    → (is_deleted (reply base64 config session dele args).session.deleted index ≡ true)
      × (index ≢ other
          → is_deleted (reply base64 config session dele args).session.deleted other
            ≡ is_deleted session.deleted other)
reply-dele base64 config session args index other h parsed inside =
    let marks = reply-dele_marks base64 config session args index h parsed inside in
    let (here, elsewhere) = is_deleted-set session.deleted index other inside in
    rw marks (here, elsewhere)
