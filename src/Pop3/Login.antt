-- ===== src/Pop3/Login.antt =====
-- What the lines of a client offer as a login, and the sessions that such lines justify.
use seclab_suite_protocol_si.Base.{
  Bool, Bool-cases, IsIn, List, Option, [], arith, false, if-keeps, inl, inr, length, ltb, none,
  refl, replicate, some, subst, sym, true, unwrap_or, ℕ, ◌&&◌, ◌∷◌, ◌≡◌, ◌⊎◌,
}
use seclab_suite_protocol_si.Base.Bits.{Bytes}
use seclab_suite_protocol_si.Base.Text.{
  Text, codes, split_whitespace, text_eq, text_eq_sound, to_ascii_uppercase,
}
use seclab_suite_protocol_si.Mail.{
  MailCredential, credentials_match, decode_auth_plain, first_word, second_word,
}
use seclab_suite_protocol_si.Pop3.{Pop3Session, SimPop3Config, credentials_of}
use seclab_suite_protocol_si.Pop3.Commands.{
  Pop3Command, Reply, auth, capa, dele, delete_index, ensure_auth, list_messages, noop, pass, quit,
  reply, retrieve, rset, sign_in, signed_in, stat, uidl, unknown, user_command,
}
use seclab_suite_protocol_si.Pop3.Handler.{parse_command}
use seclab_suite_protocol_si.Pop3.Access.{
  choice-keeps, ensure_auth-keeps, listing-session, requires_auth, retrieve_index-session,
}

-- The configuration has the user name with the password.
abbrev pub HasCredential : List MailCredential → Text → Text → Type 0
HasCredential credentials user password =
    (item : MailCredential) × IsIn item credentials
    × (item.username ≡ user)
    × (item.password ≡ password)

credentials_match-HasCredential :
    (credentials : List MailCredential) (user password : Text)
    → credentials_match credentials user password ≡ true
    → HasCredential credentials user password
unfolding credentials_match
credentials_match-HasCredential [] user password h = cc
credentials_match-HasCredential (item ∷ credentials) user password h =
    elim (Bool-cases (text_eq item.username user && text_eq item.password password)) [
      | inl e ↦ (
        item,
        inl refl,
        text_eq_sound item.username user (ground arith),
        text_eq_sound item.password password (ground arith),
      )
      | inr e ↦
          let (other, member, user_is, password_is) =
            credentials_match-HasCredential credentials user password (ground arith) in
          (other, inr member, user_is, password_is)
    ]

-- The lines of a client stand with the last one in front.
abbrev pub IsCommand : Text → Text → Text → Type 0
IsCommand name line args = ((parse_command line).0 ≡ name) × ((parse_command line).1 ≡ args)

-- One of the lines is a USER with the name.
abbrev pub HasUserLine : List Text → Text → Type 0
HasUserLine lines user = (line : Text) × IsIn line lines × IsCommand (codes "USER") line user

-- The line in front of this one is an AUTH.
abbrev pub FollowsAuth : List Text → Type 0
FollowsAuth [] = ⊥
FollowsAuth (line ∷ lines) = (parse_command line).0 ≡ codes "AUTH"

module _ (base64 : Text → Option Bytes) where
  -- A PASS with the password, for a name that a USER in front of it gave, or for the empty name.
  abbrev pub GivesPass : Text → List Text → Text → Text → Type 0
  GivesPass line before user password =
      IsCommand (codes "PASS") line password × ((user ≡ []) ⊎ HasUserLine before user)

  -- An AUTH PLAIN whose second word decodes to the two.
  abbrev pub GivesInitial : Text → Text → Text → Type 0
  GivesInitial line user password =
      ((parse_command line).0 ≡ codes "AUTH")
      × (to_ascii_uppercase (first_word (split_whitespace (parse_command line).1)) ≡ codes "PLAIN")
      × (decode_auth_plain base64 (second_word (split_whitespace (parse_command line).1))
          ≡ some (user, password))

  -- The line behind an AUTH, which decodes to the two.
  abbrev pub GivesResponse : Text → List Text → Text → Text → Type 0
  GivesResponse line before user password =
      (decode_auth_plain base64 line ≡ some (user, password)) × FollowsAuth before

  abbrev pub Gives : Text → List Text → Text → Text → Type 0
  Gives line before user password =
      GivesPass line before user password
      ⊎ (GivesInitial line user password ⊎ GivesResponse line before user password)

  -- One of the lines gave the user name with the password.
  abbrev pub Offers : List Text → Text → Text → Type 0
  Offers [] user password = ⊥
  Offers (line ∷ before) user password =
      Gives line before user password ⊎ Offers before user password

  module _ (config : SimPop3Config) where
    -- A login needs a credential of the configuration that one of the lines offered.
    abbrev pub IsOffered : List Text → Bool → Type 0
    IsOffered lines authed =
        authed ≡ true
        → (requires_auth config ≡ false)
          ⊎ ((user password : Text) × HasCredential (credentials_of config) user password
              × Offers lines user password)

    abbrev IsNamed : List Text → Option Text → Type 0
    IsNamed lines none = Unit
    IsNamed lines (some user) = HasUserLine lines user

    abbrev pub IsJustified : List Text → Pop3Session → Type 0
    IsJustified lines session = IsOffered lines session.authed × IsNamed lines session.username

    IsOffered-later :
        (line : Text) (lines : List Text) (authed : Bool)
        → IsOffered lines authed
        → IsOffered (line ∷ lines) authed
    IsOffered-later line lines authed h a = elim (h a) [
      | inl open_door ↦ inl open_door
      | inr (user, password, known, offered) ↦ inr (user, password, known, inr offered)
    ]

    IsNamed-later :
        (line : Text) (lines : List Text) (name : Option Text)
        → IsNamed lines name
        → IsNamed (line ∷ lines) name
    IsNamed-later line lines none h = tt
    IsNamed-later line lines (some user) (other, member, same) = (other, inr member, same)

    -- What a line leaves as it was.
    abbrev IsSame : Pop3Session → Pop3Session → Type 0
    IsSame session after = (session.authed ≡ after.authed) × (session.username ≡ after.username)

    pub IsJustified-same :
        (line : Text) (lines : List Text) (session after : Pop3Session)
        → IsJustified lines session
        → IsSame session after
        → IsJustified (line ∷ lines) after
    IsJustified-same line lines session after (offered, named) (authed, name) = (
      subst (IsOffered (line ∷ lines)) authed (IsOffered-later line lines session.authed offered),
      subst (IsNamed (line ∷ lines)) name (IsNamed-later line lines session.username named),
    )

    matched-IsJustified :
        (line : Text) (lines : List Text) (session : Pop3Session) (user password : Text)
        → Gives line lines user password
        → IsJustified lines session
        → IsJustified
            (line ∷ lines)
            (record session { authed = credentials_match (credentials_of config) user password })
    matched-IsJustified line lines session user password gives (offered, named) = (
      (λ a. inr (
        user,
        password,
        credentials_match-HasCredential (credentials_of config) user password a,
        inl gives,
      )),
      IsNamed-later line lines session.username named,
    )

    pub sign_in-IsJustified :
        (line : Text) (lines : List Text) (session : Pop3Session) (decoded : Option (Text × Text))
        → ((user password : Text)
            → decoded ≡ some (user, password)
            → Gives line lines user password)
        → IsJustified lines session
        → IsJustified (line ∷ lines) (sign_in (credentials_of config) session decoded)
    sign_in-IsJustified line lines session none gives h =
        IsJustified-same line lines session session h (refl, refl)
    sign_in-IsJustified line lines session (some (user, password)) gives h =
        matched-IsJustified line lines session user password (gives user password refl) h

    named_user :
        (lines : List Text) (name : Option Text)
        → IsNamed lines name
        → (unwrap_or name [] ≡ []) ⊎ HasUserLine lines (unwrap_or name [])
    named_user lines none h = inl refl
    named_user lines (some user) h = inr h

    signed_in-IsJustified :
        (line : Text) (lines : List Text) (session : Pop3Session)
        → (parse_command line).0 ≡ codes "AUTH"
        → IsJustified lines session
        → IsJustified
            (line ∷ lines)
            (signed_in base64 (credentials_of config) session (parse_command line).1)
    signed_in-IsJustified line lines session auth_line h =
        let parts = split_whitespace (parse_command line).1 in
        let word = to_ascii_uppercase (first_word parts) in
        if-keeps (IsJustified (line ∷ lines)) (text_eq word (codes "PLAIN")) _ _
          (λ plain.
            sign_in-IsJustified line lines session (decode_auth_plain base64 (second_word parts))
              (λ user password decoded.
                inr (inl (auth_line, text_eq_sound word (codes "PLAIN") plain, decoded)))
              h)
          (λ other. IsJustified-same line lines session session h (refl, refl))

    -- The word that a command is named by, where it matters.
    abbrev pub IsWordOf : Text → Pop3Command → Type 0
    IsWordOf word user_command = word ≡ codes "USER"
    IsWordOf word pass = word ≡ codes "PASS"
    IsWordOf word auth = word ≡ codes "AUTH"
    IsWordOf word _ = Unit

    delete_index-IsSame :
        (session : Pop3Session) (index : Option ℕ)
        → IsSame session (delete_index session index).session
    delete_index-IsSame session none = (refl, refl)
    delete_index-IsSame session (some index) =
        choice-keeps (IsSame session) (ltb index (length session.deleted)) _ _ (refl, refl)
          (refl, refl)

    guarded-IsJustified :
        (line : Text) (lines : List Text) (session : Pop3Session) (answered : Reply)
        → IsJustified lines session
        → IsSame session answered.session
        → IsJustified (line ∷ lines) (ensure_auth session answered).session
    guarded-IsJustified line lines session answered h same =
        IsJustified-same line lines session (ensure_auth session answered).session h
          (ensure_auth-keeps (IsSame session) session answered (refl, refl) same)

    pub reply-IsJustified :
        (line : Text) (lines : List Text) (session : Pop3Session) (command : Pop3Command)
        → IsWordOf (parse_command line).0 command
        → IsJustified lines session
        → IsJustified
            (line ∷ lines)
            (reply base64 config session command (parse_command line).1).session
    unfolding reply
    reply-IsJustified line lines session user_command word (offered, named) =
        (IsOffered-later line lines session.authed offered, (line, inl refl, (word, refl)))
    reply-IsJustified line lines session pass word h =
        matched-IsJustified line lines session (unwrap_or session.username [])
          (parse_command line).1 (inl ((word, refl), named_user lines session.username h.1)) h
    reply-IsJustified line lines session auth word h =
        signed_in-IsJustified line lines session word h
    reply-IsJustified line lines session stat word h =
        guarded-IsJustified line lines session _ h (refl, refl)
    reply-IsJustified line lines session list_messages word h =
        guarded-IsJustified line lines session _ h
          (subst (IsSame session) (sym (listing-session _ _ _ session _)) (refl, refl))
    reply-IsJustified line lines session uidl word h =
        guarded-IsJustified line lines session _ h
          (subst (IsSame session) (sym (listing-session _ _ _ session _)) (refl, refl))
    reply-IsJustified line lines session retrieve word h =
        guarded-IsJustified line lines session _ h
          (subst (IsSame session) (sym (retrieve_index-session _ session _)) (refl, refl))
    reply-IsJustified line lines session dele word h =
        guarded-IsJustified line lines session _ h (delete_index-IsSame session _)
    reply-IsJustified line lines session rset word h =
        IsJustified-same line lines session
          (record session { deleted = replicate (length session.deleted) 0 }) h (refl, refl)
    reply-IsJustified line lines session capa word h =
        IsJustified-same line lines session session h (refl, refl)
    reply-IsJustified line lines session noop word h =
        IsJustified-same line lines session session h (refl, refl)
    reply-IsJustified line lines session quit word h =
        IsJustified-same line lines session session h (refl, refl)
    reply-IsJustified line lines session unknown word h =
        IsJustified-same line lines session session h (refl, refl)
