-- ===== src/Pop3/Commands.antt =====
-- The replies to the commands, simulation/pop3.rs lines 65 to 75 and 129 to 306.
use seclab_suite_protocol_si.Base.{
  Bool, List, Option, [], if◌then◌else◌, is_empty, length, ltb, map, none, replicate, set, some,
  unwrap_or, ℕ, ◌&&◌, ◌++◌, ◌+◌, ◌∷◌,
}
use seclab_suite_protocol_si.Base.Bits.{Bytes}
use seclab_suite_protocol_si.Base.Text.{
  Text, codes, is_one_of, split_whitespace, text_eq, to_ascii_uppercase, to_decimal,
}
use seclab_suite_protocol_si.Session.{Event}
use seclab_suite_protocol_si.Session.Lines.{write_line, write_raw}
use seclab_suite_protocol_si.Mail.{
  MailCredential, MailMessage, credentials_match, decode_auth_plain, first_word, rfc822_message,
  second_word,
}
use seclab_suite_protocol_si.Pop3.{
  Pop3Session, SimPop3Config, credentials_of, messages_of, parse_index, pop3_message_size,
  visible_message, visible_messages,
}

-- The arms of `match command.as_str()`.
pub data Pop3Command : Type 0 where
  capa user_command pass auth stat list_messages uidl retrieve dele rset noop quit unknown :
      Pop3Command

unfoldable pub command_of : Text → Pop3Command
unfolding text_eq
command_of command =
    if text_eq command (codes "CAPA")
    then capa
    else if text_eq command (codes "USER")
    then user_command
    else if text_eq command (codes "PASS")
    then pass
    else if text_eq command (codes "AUTH")
    then auth
    else if text_eq command (codes "STAT")
    then stat
    else if text_eq command (codes "LIST")
    then list_messages
    else if text_eq command (codes "UIDL")
    then uidl
    else if is_one_of command (codes "RETR" ∷ codes "TOP" ∷ [])
    then retrieve
    else if text_eq command (codes "DELE")
    then dele
    else if text_eq command (codes "RSET")
    then rset
    else if text_eq command (codes "NOOP")
    then noop
    else if text_eq command (codes "QUIT")
    then quit
    else unknown

-- What an arm leaves: the session, what it writes and the type of the event.
pub record Reply : Type 0 where
  pub session : Pop3Session
  pub writes : List Event
  pub event_type : Text

abbrev pub replies : Pop3Session → Text → List Event → Reply
replies session event_type writes = record {
  session = session;
  writes = writes;
  event_type = event_type;
}

abbrev pub command_event : Text
command_event = codes "pop3_command"

-- `ensure_auth` in front of the rest of an arm
abbrev pub ensure_auth : Pop3Session → Reply → Reply
ensure_auth session answered =
    if session.authed
    then answered
    else replies session command_event (write_line (codes "-ERR Authentication required") ∷ [])

abbrev pub says : Pop3Session → Text → Reply
says session line = replies session command_event (write_line line ∷ [])

-- The index as the client counts, and something of the message.
abbrev pub numbered : ℕ → Text → Text
numbered index value = to_decimal (index + 1) ++ (b' ' ∷ value)

abbrev pub uid_of : MailMessage → Text
uid_of message = unwrap_or message.uid (codes "seclab-uid")

abbrev pub size_of : MailMessage → Text
size_of message = to_decimal (pop3_message_size message)

-- LIST and UIDL, which differ in what they show of a message and in the headline of the listing.
abbrev pub listing_line : (MailMessage → Text) → ℕ × MailMessage → Event
listing_line show (index, message) = write_line (numbered index (show message))

abbrev pub one_message : (MailMessage → Text) → Pop3Session → ℕ → Option MailMessage → Reply
one_message show session index none = says session (codes "-ERR No such message")
one_message show session index (some message) =
    says session (codes "+OK " ++ numbered index (show message))

abbrev pub listing : (MailMessage → Text) → Text → List MailMessage → Pop3Session → Option ℕ → Reply
listing show headline messages session none = replies session command_event (
    write_line headline
    ∷ (map (listing_line show) (visible_messages messages session)
        ++ (write_line (codes ".") ∷ [])))
listing show headline messages session (some index) =
    one_message show session index (visible_message messages session index)

-- RETR and TOP
abbrev pub retrieve_message : Pop3Session → Option MailMessage → Reply
retrieve_message session none = says session (codes "-ERR No such message")
retrieve_message session (some message) = replies session (codes "exploit_attempt") (
    write_line (codes "+OK " ++ (to_decimal (pop3_message_size message) ++ codes " octets"))
    ∷ write_raw (rfc822_message message)
    ∷ write_line (codes ".")
    ∷ [])

abbrev pub retrieve_index : List MailMessage → Pop3Session → Option ℕ → Reply
retrieve_index messages session none = says session (codes "-ERR Message number required")
retrieve_index messages session (some index) =
    retrieve_message session (visible_message messages session index)

abbrev pub delete_index : Pop3Session → Option ℕ → Reply
delete_index session none = says session (codes "-ERR Message number required")
delete_index session (some index) =
    if ltb index (length session.deleted)
    then says (record session { deleted = set session.deleted index 1 })
        (codes "+OK Message marked deleted")
    else says session (codes "-ERR No such message")

abbrev pub sum_sizes : List (ℕ × MailMessage) → ℕ
sum_sizes [] = 0
sum_sizes ((index, message) ∷ rest) = pop3_message_size message + sum_sizes rest

-- The session after credentials were decoded, or not.
abbrev pub sign_in : List MailCredential → Pop3Session → Option (Text × Text) → Pop3Session
sign_in credentials session none = session
sign_in credentials session (some (username, password)) = record session {
  authed = credentials_match credentials username password;
}

abbrev pub auth_reply : Pop3Session → Reply
auth_reply session = replies session (codes "auth_attempt") (
    write_line (
      if session.authed
      then codes "+OK Authentication successful"
      else codes "-ERR Authentication failed")
    ∷ [])

abbrev pub pass_reply : Pop3Session → Reply
pass_reply session = replies session (codes "auth_attempt") (
    write_line (
      if session.authed
      then codes "+OK Mailbox locked and ready"
      else codes "-ERR Invalid credentials")
    ∷ [])

-- Does AUTH read a line? It does for PLAIN without an initial response.
unfoldable pub reads_response : Text → Bool
unfolding split_whitespace to_ascii_uppercase text_eq
reads_response args =
    let parts = split_whitespace args in
    text_eq (to_ascii_uppercase (first_word parts)) (codes "PLAIN") && is_empty (second_word parts)

-- The session after AUTH that reads no line.
abbrev pub signed_in :
    (Text → Option Bytes) → List MailCredential → Pop3Session → Text → Pop3Session
signed_in base64 credentials session args =
    let parts = split_whitespace args in
    if text_eq (to_ascii_uppercase (first_word parts)) (codes "PLAIN")
    then sign_in credentials session (decode_auth_plain base64 (second_word parts))
    else session

-- The `match`, where AUTH reads no line.
unfoldable pub reply :
    (Text → Option Bytes) → SimPop3Config → Pop3Session → Pop3Command → Text → Reply
unfolding decode_auth_plain split_whitespace to_ascii_uppercase text_eq
reply base64 config session capa args = replies session command_event (
    map write_line (
      codes "+OK Capability list follows"
      ∷ (unwrap_or config.capabilities (codes "USER" ∷ codes "UIDL" ∷ codes "TOP" ∷ [])
          ++ (codes "." ∷ []))))
reply base64 config session user_command args =
    replies (record session { username = some args }) (codes "auth_attempt")
      (write_line (codes "+OK User accepted") ∷ [])
reply base64 config session pass args = pass_reply (record session {
  authed = credentials_match (credentials_of config) (unwrap_or session.username []) args;
})
reply base64 config session auth args =
    auth_reply (signed_in base64 (credentials_of config) session args)
reply base64 config session stat args =
    let visible = visible_messages (messages_of config) session in
    ensure_auth session (
      says session
        (codes "+OK " ++ (to_decimal (length visible) ++ (b' ' ∷ to_decimal (sum_sizes visible)))))
reply base64 config session list_messages args = ensure_auth session (
    listing size_of (codes "+OK Scan listing follows") (messages_of config) session
      (parse_index args))
reply base64 config session uidl args = ensure_auth session (
    listing uid_of (codes "+OK Unique-ID listing follows") (messages_of config) session
      (parse_index args))
reply base64 config session retrieve args =
    ensure_auth session (retrieve_index (messages_of config) session (parse_index args))
reply base64 config session dele args =
    ensure_auth session (delete_index session (parse_index args))
reply base64 config session rset args =
    says (record session { deleted = replicate (length session.deleted) 0 })
      (codes "+OK Reset state")
reply base64 config session noop args = says session (codes "+OK")
reply base64 config session quit args = says session (codes "+OK Bye")
reply base64 config session unknown args = says session (codes "-ERR Unknown command")
