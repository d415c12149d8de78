-- ===== src/Pop3/Access.antt =====
-- What the replies keep: who is logged in, and what is marked.
use seclab_suite_protocol_si.Base.{
  All, Bool, Bool-cases, List, Option, [], false, if◌then◌else◌, inl, inr, length, length-replicate,
  length-set, ltb, none, refl, some, subst, sym, true, unwrap_or, ℕ, ◌∙◌, ◌≡◌, ◌≤◌, ◌⊎◌,
}
use seclab_suite_protocol_si.Base.Bits.{Bytes}
use seclab_suite_protocol_si.Base.Text.{Text, codes, split_whitespace, text_eq, to_ascii_uppercase}
use seclab_suite_protocol_si.Mail.{
  MailMessage, credentials_match, decode_auth_plain, first_word, second_word,
}
use seclab_suite_protocol_si.Pop3.{
  Pop3Session, SimPop3Config, credentials_of, messages_of, parse_index, visible_message,
}
use seclab_suite_protocol_si.Pop3.Commands.{
  Pop3Command, Reply, auth, capa, dele, delete_index, ensure_auth, list_messages, listing, noop,
  one_message, pass, quit, reply, retrieve, retrieve_index, retrieve_message, rset, sign_in,
  signed_in, stat, uidl, unknown, user_command,
}
use seclab_suite_protocol_si.Pop3.Tally.{All-replicate, All-set}

abbrev pub requires_auth : SimPop3Config → Bool
requires_auth config = unwrap_or config.require_auth false

-- One mark for each message, and a login by credentials of the configuration where it requires one.
abbrev pub IsSound : SimPop3Config → Pop3Session → Type 0
IsSound config session =
    (length session.deleted ≡ length (messages_of config))
    × All (λ mark. mark ≤ 1) session.deleted
    × (session.authed ≡ true
        → (requires_auth config ≡ false)
          ⊎ ((username password : Text) × (credentials_match (credentials_of config) username
                  password
                ≡ true)))

pub choice-keeps :
    (P : Pop3Session → Type 0) (b : Bool) (r s : Reply)
    → P r.session
    → P s.session
    → P (if b then r else s).session
choice-keeps P true r s h k = h
choice-keeps P false r s h k = k

pub ensure_auth-keeps :
    (P : Pop3Session → Type 0) (session : Pop3Session) (answered : Reply)
    → P session
    → P answered.session
    → P (ensure_auth session answered).session
ensure_auth-keeps P session answered h k = choice-keeps P session.authed answered _ k h

one_message-session :
    (show : MailMessage → Text) (session : Pop3Session) (index : ℕ) (message : Option MailMessage)
    → (one_message show session index message).session ≡ session
one_message-session show session index none = refl
one_message-session show session index (some message) = refl

pub listing-session :
    (show : MailMessage → Text) (headline : Text) (messages : List MailMessage)
    (session : Pop3Session) (index : Option ℕ)
    → (listing show headline messages session index).session ≡ session
listing-session show headline messages session none = refl
listing-session show headline messages session (some index) =
    one_message-session show session index (visible_message messages session index)

retrieve_message-session :
    (session : Pop3Session) (message : Option MailMessage)
    → (retrieve_message session message).session ≡ session
retrieve_message-session session none = refl
retrieve_message-session session (some message) = refl

pub retrieve_index-session :
    (messages : List MailMessage) (session : Pop3Session) (index : Option ℕ)
    → (retrieve_index messages session index).session ≡ session
retrieve_index-session messages session none = refl
retrieve_index-session messages session (some index) =
    retrieve_message-session session (visible_message messages session index)

module _ (config : SimPop3Config) where
  set_authed-IsSound :
      (session : Pop3Session) (username password : Text)
      → IsSound config session
      → IsSound config
          (record session { authed = credentials_match (credentials_of config) username password })
  set_authed-IsSound session username password (n, marks, h) =
      (n, marks, λ a. inr (username, password, a))

  pub sign_in-IsSound :
      (session : Pop3Session) (decoded : Option (Text × Text))
      → IsSound config session
      → IsSound config (sign_in (credentials_of config) session decoded)
  sign_in-IsSound session none h = h
  sign_in-IsSound session (some (username, password)) h =
      set_authed-IsSound session username password h

  delete_index-IsSound :
      (session : Pop3Session) (index : Option ℕ)
      → IsSound config session
      → IsSound config (delete_index session index).session
  delete_index-IsSound session none h = h
  delete_index-IsSound session (some index) (n, marks, h) =
      elim (Bool-cases (ltb index (length session.deleted))) [
        | inl inside ↦
            rw inside
              (length-set session.deleted index 1 ∙ n, All-set session.deleted index marks, h)
        | inr outside ↦ rw outside (n, marks, h)
      ]

  signed_in-IsSound :
      (base64 : Text → Option Bytes) (session : Pop3Session) (args : Text)
      → IsSound config session
      → IsSound config (signed_in base64 (credentials_of config) session args)
  signed_in-IsSound base64 session args h =
      let parts = split_whitespace args in
      elim (Bool-cases (text_eq (to_ascii_uppercase (first_word parts)) (codes "PLAIN"))) [
        | inl plain ↦
            rw plain (sign_in-IsSound session (decode_auth_plain base64 (second_word parts)) h)
        | inr other ↦ rw other h
      ]

  pub reply-IsSound :
      (base64 : Text → Option Bytes) (session : Pop3Session) (command : Pop3Command) (args : Text)
      → IsSound config session
      → IsSound config (reply base64 config session command args).session
  unfolding reply
  reply-IsSound base64 session capa args h = h
  reply-IsSound base64 session user_command args h = h
  reply-IsSound base64 session pass args h =
      set_authed-IsSound session (unwrap_or session.username []) args h
  reply-IsSound base64 session auth args h = signed_in-IsSound base64 session args h
  reply-IsSound base64 session stat args h = ensure_auth-keeps (IsSound config) session _ h h
  reply-IsSound base64 session list_messages args h =
      ensure_auth-keeps (IsSound config) session _ h (
        subst (IsSound config)
          (sym (listing-session _ _ (messages_of config) session (parse_index args))) h)
  reply-IsSound base64 session uidl args h = ensure_auth-keeps (IsSound config) session _ h (
      subst (IsSound config)
        (sym (listing-session _ _ (messages_of config) session (parse_index args))) h)
  reply-IsSound base64 session retrieve args h = ensure_auth-keeps (IsSound config) session _ h (
      subst (IsSound config)
        (sym (retrieve_index-session (messages_of config) session (parse_index args))) h)
  reply-IsSound base64 session dele args h =
      ensure_auth-keeps (IsSound config) session _ h
        (delete_index-IsSound session (parse_index args) h)
  reply-IsSound base64 session rset args (n, marks, h) =
      (length-replicate (length session.deleted) 0 ∙ n, All-replicate (length session.deleted), h)
  reply-IsSound base64 session noop args h = h
  reply-IsSound base64 session quit args h = h
  reply-IsSound base64 session unknown args h = h
