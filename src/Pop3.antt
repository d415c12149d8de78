-- ===== src/Pop3.antt =====
-- The POP3 simulation, simulation/pop3.rs: its types, its session and the messages that it shows, lines 14 to 63.
pub mod Commands
pub mod Handler
pub mod Access
pub mod Reachable
pub mod Login
pub mod Offered
pub mod Steps
pub mod Secrecy
pub mod Tally
mod Tests
use seclab_suite_protocol_si.Base.{
  Bool, List, Option, [], false, get_elem?, if◌then◌else◌, length, none, not, replicate, some, suc,
  true, unwrap_or, zero, ℕ, ◌==◌, ◌^◌, ◌∷◌,
}
use seclab_suite_protocol_si.Base.Text.{Text, parse_unsigned, split_whitespace}
use seclab_suite_protocol_si.Base.Text.Utf8.{utf8}
use seclab_suite_protocol_si.Report.{Site}
use seclab_suite_protocol_si.Mail.{MailCredential, MailCustomResponse, MailMessage, rfc822_message}

pub record SimPop3Config : Type 0 where
  pub banner : Option Text
  pub require_auth : Option Bool
  pub credentials : Option (List MailCredential)
  pub capabilities : Option (List Text)
  pub messages : Option (List MailMessage)
  pub custom_responses : Option (List MailCustomResponse)

pub record Pop3Context : Type 0 where
  pub site : Site
  pub config : SimPop3Config

abbrev pub messages_of : SimPop3Config → List MailMessage
messages_of config = unwrap_or config.messages []

abbrev pub credentials_of : SimPop3Config → List MailCredential
credentials_of config = unwrap_or config.credentials []

pub record Pop3Session : Type 0 where
  pub username : Option Text
  pub authed : Bool
  pub deleted : List ℕ

-- `Pop3Session::new`
abbrev pub new_session : Bool → ℕ → Pop3Session
new_session require_auth message_count = record {
  username = none;
  authed = not require_auth;
  deleted = replicate message_count 0;
}

unfoldable pub is_deleted : List ℕ → ℕ → Bool
is_deleted deleted index = unwrap_or (get_elem? deleted index) 0 == 1

unfoldable pub pop3_message_size : MailMessage → ℕ
unfolding rfc822_message utf8
pop3_message_size message = length (utf8 (rfc822_message message))

-- `visible_messages`, from the message with the index on.
unfoldable pub visible_from : ℕ → List MailMessage → List ℕ → List (ℕ × MailMessage)
unfolding is_deleted
visible_from index [] deleted = []
visible_from index (message ∷ messages) deleted =
    let rest = visible_from (suc index) messages deleted in
    if not (is_deleted deleted index) then (index, message) ∷ rest else rest

abbrev pub visible_messages : List MailMessage → Pop3Session → List (ℕ × MailMessage)
visible_messages messages session = visible_from 0 messages session.deleted

abbrev nonzero_before : Option ℕ → Option ℕ
nonzero_before none = none
nonzero_before (some zero) = none
nonzero_before (some (suc n)) = some n

abbrev index_of_word : List Text → Option ℕ
index_of_word [] = none
index_of_word (word ∷ words) = nonzero_before (parse_unsigned (2 ^ 64) word)

unfoldable pub parse_index : Text → Option ℕ
unfolding split_whitespace parse_unsigned
parse_index args = index_of_word (split_whitespace args)

-- The message with the index, unless it is deleted.
abbrev shown_if : Bool → Option MailMessage → Option MailMessage
shown_if true message = none
shown_if false message = message

abbrev pub visible_message : List MailMessage → Pop3Session → ℕ → Option MailMessage
visible_message messages session index =
    shown_if (is_deleted session.deleted index) (get_elem? messages index)
