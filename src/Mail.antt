-- ===== src/Mail.antt =====
-- What the mail servers share, simulation/mail_common.rs lines 41 to 177, and the mail types of
-- crates/protocol-simulation-common/src/lib.rs lines 444 to 473. The decoder of Base64 is a parameter.
use mathlib.Core.Option
use seclab_suite_protocol_si.Base.{
  Bool, List, Option, [], all, any, if◌then◌else◌, none, not, some, true, unwrap_or, ◌&&◌, ◌++◌,
  ◌==◌, ◌∷◌,
}
use seclab_suite_protocol_si.Base.Bits.{Bytes}
use seclab_suite_protocol_si.Base.Text.{
  Text, codes, contains, eq_ignore_ascii_case, join, split, text_eq, to_ascii_lowercase, trim,
}
use seclab_suite_protocol_si.Base.Text.Utf8.{from_utf8, utf8}
use seclab_suite_protocol_si.Report.{Peer, Site, draft, encode_hex}
use seclab_suite_protocol_si.Session.{Event, reported}

pub record MailCredential : Type 0 where
  pub username : Text
  pub password : Text
  pub display_name : Option Text

pub record MailMessage : Type 0 where
  pub uid : Option Text
  pub from : Text
  pub to : List Text
  pub subject : Text
  pub date : Option Text
  pub body : Text
  pub flags : Option (List Text)

pub record MailCustomResponse : Type 0 where
  pub command : Text
  pub args_contains : Option (List Text)
  pub response : Text
  pub event_type : Option Text

unfoldable pub credentials_match : List MailCredential → Text → Text → Bool
unfolding text_eq
credentials_match credentials username password =
    any (λ item. text_eq item.username username && text_eq item.password password) credentials

-- The second and the third part.
abbrev user_and_password : List Bytes → Option (Text × Text)
user_and_password (authzid ∷ username ∷ password ∷ rest) =
    Option.bind (from_utf8 username) (λ u. Option.map (λ p. (u, p)) (from_utf8 password))
user_and_password _ = none

-- `parts.next().unwrap_or_default()`, once and twice.
abbrev pub first_word : List Text → Text
first_word [] = []
first_word (word ∷ words) = word

abbrev pub second_word : List Text → Text
second_word (word ∷ next ∷ words) = next
second_word _ = []

unfoldable pub decode_auth_plain : (Text → Option Bytes) → Text → Option (Text × Text)
unfolding trim split from_utf8
decode_auth_plain base64 value =
    Option.bind (base64 (trim value))
      (λ decoded. user_and_password (split (λ byte. byte == 0) decoded))

unfoldable pub decode_base64_text : (Text → Option Bytes) → Text → Option Text
unfolding trim from_utf8
decode_base64_text base64 value = Option.bind (base64 (trim value)) from_utf8

abbrev args_match : Option (List Text) → Text → Bool
args_match none lowered = true
args_match (some items) lowered = all (λ item. contains lowered (to_ascii_lowercase item)) items

abbrev first_response : List MailCustomResponse → Text → Text → Text → Option (Text × Text)
first_response [] command lowered default_event_type = none
first_response (response ∷ responses) command lowered default_event_type =
    let rest = first_response responses command lowered default_event_type in
    if not (eq_ignore_ascii_case response.command command)
    then rest
    else if args_match response.args_contains lowered
    then some (response.response, unwrap_or response.event_type default_event_type)
    else rest

unfoldable pub custom_response :
    Option (List MailCustomResponse) → Text → Text → Text → Option (Text × Text)
unfolding to_ascii_lowercase eq_ignore_ascii_case contains
custom_response none command command_text default_event_type = none
custom_response (some responses) command command_text default_event_type =
    first_response responses command (to_ascii_lowercase command_text) default_event_type

abbrev date_header : Option Text → List Text
date_header none = []
date_header (some date) = (codes "Date: " ++ date) ∷ []

unfoldable pub rfc822_message : MailMessage → Text
unfolding join
rfc822_message message =
    let headers =
      ((codes "From: " ++ message.from)
        ∷ (codes "To: " ++ join (codes ", ") message.to)
        ∷ (codes "Subject: " ++ message.subject)
        ∷ [])
      ++ (date_header message.date
          ++ (codes "MIME-Version: 1.0" ∷ codes "Content-Type: text/plain; charset=utf-8" ∷ [])) in
    join (0x0d ∷ 0x0a ∷ []) headers
    ++ ((0x0d ∷ 0x0a ∷ 0x0d ∷ 0x0a ∷ []) ++ (message.body ++ (0x0d ∷ 0x0a ∷ [])))

abbrev pub report_mail_connection : Site → Peer → Text → Event
report_mail_connection site peer protocol =
    reported (draft site peer (codes "connection") (protocol ++ codes " client connected") none)

abbrev pub report_mail_command : Site → Peer → Text → Text → Text → Event
report_mail_command site peer event_type summary command_line =
    reported (draft site peer event_type summary (some (encode_hex (utf8 command_line))))
