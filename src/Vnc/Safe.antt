-- ===== src/Vnc/Safe.antt =====
-- The security types of a server that starts, and the errors that its connections cannot meet.
use seclab_suite_protocol_si.Base.{
  >>=-eq-ok, Bool-cases, List, [], ap, arith, bail_if, bail_if-ok, context, context-ok, drop, false,
  get_elem?, if-keeps, inl, inr, is_empty, leb, length, ltb, not, ok, ok-injective, refl, some,
  subst, sym, take, true, unwrap_or, ℕ, ◌&&◌, ◌∷◌, ◌≡◌, ◌≢◌, ◌⊎◌,
}
use seclab_suite_protocol_si.Base.Bits.{Bytes}
use seclab_suite_protocol_si.Base.Text.{Text, codes, is_one_of, starts_with, text_eq}
use seclab_suite_protocol_si.Report.{Peer, Site}
use seclab_suite_protocol_si.Session.{Event, Trace, finished}
use seclab_suite_protocol_si.Vnc.{
  SimVncConfig, VncContext, VncError, bad_protocol_version, contains_type, handle_vnc, has_feed,
  negotiate, no_type, normalize_config, panicked, push_new, run_selected, security_type,
  select_first, select_read, serve_vnc, too_many_types, types_loop, unsupported_type,
}

-- The lists of types that names lead to.
pub data IsTypes : Bytes → Type 0 where
  no_type_yet : IsTypes []
  only_none : IsTypes (1 ∷ [])
  only_auth : IsTypes (2 ∷ [])
  none_first : IsTypes (1 ∷ 2 ∷ [])
  auth_first : IsTypes (2 ∷ 1 ∷ [])

abbrev IsSecurityType : ℕ → Type 0
IsSecurityType value = (value ≡ 1) ⊎ (value ≡ 2)

security_type-IsSecurityType :
    (name : Text) {value : ℕ} → security_type name ≡ some value → IsSecurityType value
unfolding security_type
security_type-IsSecurityType name h = ground arith

push_none : (types : Bytes) → IsTypes types → IsTypes (push_new types 1)
push_none types no_type_yet = only_none
push_none types only_none = only_none
push_none types only_auth = auth_first
push_none types none_first = none_first
push_none types auth_first = auth_first

push_auth : (types : Bytes) → IsTypes types → IsTypes (push_new types 2)
push_auth types no_type_yet = only_auth
push_auth types only_none = none_first
push_auth types only_auth = only_auth
push_auth types none_first = none_first
push_auth types auth_first = auth_first

push_new-IsTypes :
    (types : Bytes) (value : ℕ)
    → IsTypes types
    → IsSecurityType value
    → IsTypes (push_new types value)
push_new-IsTypes types value h (inl is_none) =
    subst (λ (v : ℕ). IsTypes (push_new types v)) (sym is_none) (push_none types h)
push_new-IsTypes types value h (inr is_auth) =
    subst (λ (v : ℕ). IsTypes (push_new types v)) (sym is_auth) (push_auth types h)

types_loop-IsTypes :
    (types : Bytes) (names : List Text) {out : Bytes}
    → IsTypes types
    → types_loop types names ≡ ok out
    → IsTypes out
unfolding types_loop
types_loop-IsTypes types [] {out} h e = subst IsTypes (ok-injective {E = VncError} types out e) h
types_loop-IsTypes types (name ∷ names) h e =
    let (value, named, rest) = >>=-eq-ok (context (security_type name) unsupported_type) _ e in
    types_loop-IsTypes (push_new types value) names
      (push_new-IsTypes types value h (
        security_type-IsSecurityType name (context-ok (security_type name) unsupported_type named)))
      rest

normalize_config-IsTypes :
    (config : SimVncConfig) {version : Text} {types : Bytes}
    → normalize_config config ≡ ok (version, types)
    → IsTypes types × (is_empty types ≡ false)
unfolding normalize_config
normalize_config-IsTypes config {version} {types} h =
    let given = unwrap_or config.protocol_version (codes "3.8") in
    let names = unwrap_or config.security_types (codes "none" ∷ []) in
    let (u, known, a) =
      >>=-eq-ok
        (bail_if (not (is_one_of given (codes "3.3" ∷ codes "3.7" ∷ codes "3.8" ∷ [])))
          bad_protocol_version)
        _ h in
    let (found, looped, b) = >>=-eq-ok (types_loop [] names) _ a in
    let (v, some_type, c) = >>=-eq-ok (bail_if (is_empty found) no_type) _ b in
    let same : found ≡ types =
      ap (λ (p : Text × Bytes). p.1)
        (ok-injective {E = VncError} (given, found) (version, types) c) in
    (
      subst IsTypes same (types_loop-IsTypes [] names no_type_yet looped),
      subst (λ (t : Bytes). is_empty t ≡ false) same
          (bail_if-ok (is_empty found) no_type some_type),
    )

-- Not the index out of bounds, not the unreachable arm, and not the number of types that is no byte.
abbrev pub IsSafe : Trace VncError → Type 0
IsSafe trace = (trace.failure ≢ some panicked) × (trace.failure ≢ some too_many_types)

none_IsSafe : (events : List Event) → IsSafe (finished events)
none_IsSafe events = (λ e. cc, λ e. cc)

run_selected-IsSafe :
    (ctx : VncContext) (selected : ℕ) (input : Bytes)
    → IsSecurityType selected
    → IsSafe (run_selected ctx selected input)
unfolding run_selected
run_selected-IsSafe ctx selected input (inl is_none) =
    subst (λ (v : ℕ). IsSafe (run_selected ctx v input)) (sym is_none) (λ e. cc, λ e. cc)
run_selected-IsSafe ctx selected input (inr is_auth) =
    subst (λ (v : ℕ). IsSafe (run_selected ctx v input)) (sym is_auth)
      (elim (Bool-cases (leb 16 (length input))) [
        | inl enough ↦ rw enough (λ e. cc, λ e. cc)
        | inr short ↦ rw short (λ e. cc, λ e. cc)
      ])

advertised :
    (types : Bytes) (selected : ℕ)
    → IsTypes types
    → contains_type types selected ≡ true
    → IsSecurityType selected
advertised types selected no_type_yet h = cc
advertised types selected only_none h = ground arith
advertised types selected only_auth h = ground arith
advertised types selected none_first h = ground arith
advertised types selected auth_first h = ground arith

module _ (ctx : VncContext) (types : IsTypes ctx.security_types)
    (some_type : is_empty ctx.security_types ≡ false) where
  select_read-IsSafe : (input : Bytes) → IsSafe (select_read ctx input)
  select_read-IsSafe [] = (λ e. cc, λ e. cc)
  select_read-IsSafe (selected ∷ input) =
      if-keeps IsSafe (contains_type ctx.security_types selected) _ _
        (λ known.
          run_selected-IsSafe ctx selected input
            (advertised ctx.security_types selected types known))
        (λ unknown. (λ e. cc, λ e. cc))

  select_first-IsSafe :
      (bytes : Bytes) (input : Bytes)
      → IsTypes bytes
      → is_empty bytes ≡ false
      → IsSafe (select_first ctx bytes input)
  select_first-IsSafe bytes input no_type_yet full = cc
  select_first-IsSafe bytes input only_none full = run_selected-IsSafe ctx 1 input (inl refl)
  select_first-IsSafe bytes input only_auth full = run_selected-IsSafe ctx 2 input (inr refl)
  select_first-IsSafe bytes input none_first full = run_selected-IsSafe ctx 1 input (inl refl)
  select_first-IsSafe bytes input auth_first full = run_selected-IsSafe ctx 2 input (inr refl)

  few_types : (bytes : Bytes) → IsTypes bytes → ltb 255 (length bytes) ≡ false
  few_types bytes no_type_yet = refl
  few_types bytes only_none = refl
  few_types bytes only_auth = refl
  few_types bytes none_first = refl
  few_types bytes auth_first = refl

  negotiate-IsSafe : (input : Bytes) → IsSafe (negotiate ctx input)
  unfolding negotiate
  negotiate-IsSafe input =
      if-keeps IsSafe (text_eq ctx.protocol_version (codes "3.3")) _ _
        (λ old. select_first-IsSafe ctx.security_types input types some_type)
        (λ new. rw (few_types ctx.security_types types) (select_read-IsSafe input))

  handle_vnc-IsSafe : (peer : Peer) (input : Bytes) → IsSafe (handle_vnc ctx peer input)
  unfolding handle_vnc
  handle_vnc-IsSafe peer input = elim (Bool-cases (leb 12 (length input))) [
    | inl enough ↦ rw enough (
        if-keeps IsSafe
          (starts_with (take 12 input) (codes "RFB ") && has_feed (get_elem? (take 12 input) 11)) _
          _ (λ valid. negotiate-IsSafe (drop 12 input)) (λ invalid. (λ e. cc, λ e. cc)))
    | inr short ↦ rw short (λ e. cc, λ e. cc)
  ]

-- A server that starts advertises some of the two security types, each once, and its connections neither panic,
-- at an index or at the arm that is meant to be unreachable, nor fail at the number of the types,
-- whatever the client sends.
pub serve_vnc-IsSafe :
    (config : SimVncConfig) (site : Site) (peer : Peer) (input : Bytes) {trace : Trace VncError}
    → serve_vnc config site peer input ≡ ok trace
    → (version : Text) × (types : Bytes) × (normalize_config config ≡ ok (version, types))
      × IsTypes types
      × (is_empty types ≡ false)
      × IsSafe trace
unfolding serve_vnc
serve_vnc-IsSafe config site peer input {trace} h =
    let ((version, types), normal, made) = >>=-eq-ok (normalize_config config) _ h in
    let (are_types, some_type) = normalize_config-IsTypes config normal in
    let ctx : VncContext = record {
      site = site;
      protocol_version = version;
      security_types = types;
    } in
    (
      version,
      types,
      normal,
      are_types,
      some_type,
      subst IsSafe (ok-injective {E = VncError} (handle_vnc ctx peer input) trace made)
          (handle_vnc-IsSafe ctx are_types some_type peer input),
    )
