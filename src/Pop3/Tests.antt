-- ===== src/Pop3/Tests.antt =====
-- Sessions with the POP3 server.
use seclab_suite_protocol_si.Base.{
  All, List, Option, [], arith, false, if◌then◌else◌, length, none, refl, some, true, ℕ, ◌++◌, ◌+◌,
  ◌∷◌, ◌≡◌, ◌≢◌, ◌≤◌, ◌⊎◌,
}
use seclab_suite_protocol_si.Base.Bits.{Bytes}
use seclab_suite_protocol_si.Base.Text.{Text, codes, split_once, text_eq}
use seclab_suite_protocol_si.Report.{Peer}
use seclab_suite_protocol_si.Session.{Event}
use seclab_suite_protocol_si.Session.Lines.{goes_on}
use seclab_suite_protocol_si.Mail.{MailMessage, credentials_match}
use seclab_suite_protocol_si.Pop3.{
  Pop3Context, Pop3Session, SimPop3Config, credentials_of, is_deleted, messages_of, new_session,
  parse_index, visible_messages,
}
use seclab_suite_protocol_si.Pop3.Commands.{dele, reply}
use seclab_suite_protocol_si.Pop3.Handler.{in_auth, line_step, ready}
use seclab_suite_protocol_si.Pop3.Access.{requires_auth}
use seclab_suite_protocol_si.Pop3.Tally.{sum}
use seclab_suite_protocol_si.Pop3.Reachable.{Reaches, Reaches-tally, fresh, next, reply-dele}
use seclab_suite_protocol_si.Pop3.Login.{HasCredential, Offers}
use seclab_suite_protocol_si.Pop3.Offered.{Reaches-IsOffered}

-- A decoder that knows one text: that of an empty identity, "a" and "b".
abbrev base64 : Text → Option Bytes
base64 t = if text_eq t (codes "AGEAYg==") then some (0 ∷ b'a' ∷ 0 ∷ b'b' ∷ []) else none

abbrev message : MailMessage
message = record {
  uid = none;
  from = codes "x";
  to = codes "y" ∷ [];
  subject = codes "s";
  date = none;
  body = codes "hello";
  flags = none;
}

abbrev config : SimPop3Config
config = record {
  banner = none;
  require_auth = some true;
  credentials =
      some (record { username = codes "a"; password = codes "b"; display_name = none } ∷ []);
  capabilities = none;
  messages = some (message ∷ message ∷ []);
  custom_responses = none;
}

abbrev ctx : Pop3Context
ctx = record {
  site = record { rule_id = codes "r"; node_id = codes "n"; port = 110 };
  config = config;
}

abbrev peer : Peer
peer = record { ip = codes "10.0.0.1"; port = 40000 }

abbrev start : Pop3Session
start = new_session (requires_auth config) (length (messages_of config))

abbrev logged_in : Pop3Session
logged_in = record { username = none; authed = true; deleted = 0 ∷ 0 ∷ [] }

-- After `DELE 2`.
abbrev marked : Pop3Session
marked = record { username = none; authed = true; deleted = 0 ∷ 1 ∷ [] }

auth_step :
    (events : List Event) × (line_step base64 ctx peer (ready start) (codes "AUTH PLAIN")
      ≡ goes_on (in_auth start (codes "AUTH PLAIN")) events)
unfolding line_step split_once
auth_step = (_, refl)

response_step :
    (events : List Event) × (line_step base64 ctx peer
        (in_auth start (codes "AUTH PLAIN"))
        (codes "AGEAYg==")
      ≡ goes_on (ready logged_in) events)
unfolding line_step text_eq mathlib.Core.Option.bind credentials_match
response_step = (_, refl)

dele_step :
    (events : List Event) × (line_step base64 ctx peer (ready logged_in) (codes "DELE 2")
      ≡ goes_on (ready marked) events)
unfolding line_step parse_index split_once
dele_step = (_, refl)

marked-Reaches : Reaches base64 ctx peer (ready marked)
marked-Reaches =
    next (ready marked) (codes "DELE 2") dele_step.0
      (next (ready logged_in) (codes "AGEAYg==") response_step.0
        (next (in_auth start (codes "AUTH PLAIN")) (codes "AUTH PLAIN") auth_step.0 fresh
          auth_step.1)
        response_step.1)
      dele_step.1

Reaches-IsOffered_example :
    (length marked.deleted ≡ length (messages_of config))
    × All (λ mark. mark ≤ 1) marked.deleted
    × (marked.authed ≡ true
        → (requires_auth config ≡ false)
          ⊎ ((user password : Text) × HasCredential (credentials_of config) user password
              × Offers base64
                  (codes "DELE 2" ∷ codes "AGEAYg==" ∷ codes "AUTH PLAIN" ∷ [])
                  user
                  password))
unfolding marked-Reaches
Reaches-IsOffered_example = Reaches-IsOffered base64 ctx peer marked-Reaches

Reaches-tally_example :
    length (visible_messages (messages_of config) marked) + sum marked.deleted
    ≡ length (messages_of config)
Reaches-tally_example = Reaches-tally base64 ctx peer marked-Reaches

index_is : parse_index (codes "2") ≡ some 1
unfolding parse_index
index_is = refl

reply-dele_example :
    (is_deleted (reply base64 config logged_in dele (codes "2")).session.deleted 1 ≡ true)
    × (◌≢◌ {A = ℕ} 1 0
        → is_deleted (reply base64 config logged_in dele (codes "2")).session.deleted 0
          ≡ is_deleted logged_in.deleted 0)
reply-dele_example = reply-dele base64 config logged_in (codes "2") 1 0 refl index_is (omega arith)

-- A client that asks for the mailbox and gives a wrong password, and a mailbox of other messages.
abbrev stat_line : Bytes
stat_line = codes "STAT" ++ (0x0d ∷ 0x0a ∷ [])

abbrev pass_line : Bytes
pass_line = codes "PASS x" ++ (0x0d ∷ 0x0a ∷ [])

abbrev other_messages : Option (List MailMessage)
other_messages =
    some (record message { body = codes "secret" } ∷ record message { subject = codes "t" } ∷ [])
