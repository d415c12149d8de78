-- ===== src/Vnc.antt =====
-- The VNC simulation, simulation/vnc.rs lines 10 to 118. A stream is the list of the bytes that the client
-- sends before it closes.
pub mod Safe
mod Tests
use seclab_suite_protocol_si.Base.{
  Bool, List, Option, Result, [], any, bail_if, context, drop, false, get_elem?, if◌then◌else◌,
  is_empty, leb, length, ltb, none, not, ok, some, take, unwrap_or, ℕ, ◌&&◌, ◌++◌, ◌==◌, ◌>>=◌,
  ◌>>◌, ◌∷◌,
}
use seclab_suite_protocol_si.Base.Bits.{Bytes}
use seclab_suite_protocol_si.Base.Text.{
  Text, codes, is_one_of, starts_with, text_eq, to_ascii_lowercase, trim,
}
use seclab_suite_protocol_si.Base.Text.Utf8.{utf8}
use seclab_suite_protocol_si.Report.{Peer, Site, draft}
use seclab_suite_protocol_si.Session.{Trace, failed, finished, reported, sent, then_trace}

pub record SimVncConfig : Type 0 where
  pub protocol_version : Option Text
  pub security_types : Option (List Text)

pub record VncContext : Type 0 where
  pub site : Site
  pub protocol_version : Text
  pub security_types : Bytes

pub data VncError : Type 0 where
  bad_protocol_version unsupported_type no_type : VncError
  unexpected_eof invalid_client_version too_many_types unadvertised_type panicked : VncError

-- The `match` on a name.
unfoldable pub security_type : Text → Option ℕ
unfolding trim to_ascii_lowercase text_eq
security_type name =
    let normalized = to_ascii_lowercase (trim name) in
    if text_eq normalized (codes "none")
    then some 1
    else if is_one_of normalized (codes "vnc_auth" ∷ codes "vnc-auth" ∷ [])
    then some 2
    else none

abbrev pub contains_type : Bytes → ℕ → Bool
contains_type types value = any (λ t. t == value) types

-- `if !types.contains(&value) { types.push(value) }`
abbrev pub push_new : Bytes → ℕ → Bytes
push_new types value = if contains_type types value then types else types ++ (value ∷ [])

-- The loop over the names.
unfoldable pub types_loop : Bytes → List Text → Result VncError Bytes
unfolding security_type
types_loop types [] = ok types
types_loop types (name ∷ names) = do
  value ← context (security_type name) unsupported_type
  types_loop (push_new types value) names

unfoldable pub normalize_config : SimVncConfig → Result VncError (Text × Bytes)
unfolding types_loop text_eq
normalize_config config = do
  let version = unwrap_or config.protocol_version (codes "3.8")
  bail_if (not (is_one_of version (codes "3.3" ∷ codes "3.7" ∷ codes "3.8" ∷ [])))
      bad_protocol_version
  types ← types_loop [] (unwrap_or config.security_types (codes "none" ∷ []))
  bail_if (is_empty types) no_type
  ok (version, types)

unfoldable pub banner : Text → Text
unfolding text_eq
banner version =
    codes "RFB 003."
    ++ ((if text_eq version (codes "3.3")
          then codes "003"
          else if text_eq version (codes "3.7")
          then codes "007"
          else codes "008")
        ++ codes "\n")

abbrev pub read_exact : ℕ → Bytes → Option (Bytes × Bytes)
read_exact size input =
    if leb size (length input) then some (take size input, drop size input) else none

-- `u32::to_be_bytes` of a byte
abbrev pub u32_of : ℕ → Bytes
u32_of byte = 0 ∷ 0 ∷ 0 ∷ byte ∷ []

abbrev pub reason : Text
reason = codes "Authentication unavailable in protocol simulation"

-- The arm of VNC authentication, behind its response.
abbrev after_response : VncContext → Option (Bytes × Bytes) → Trace VncError
after_response ctx none = failed [] unexpected_eof
after_response ctx (some (response, rest)) = finished (
    sent (u32_of 1)
    ∷ (if text_eq ctx.protocol_version (codes "3.8")
        then sent (u32_of (length (utf8 reason))) ∷ sent (utf8 reason) ∷ []
        else []))

-- `match selected`
unfoldable pub run_selected : VncContext → ℕ → Bytes → Trace VncError
unfolding text_eq utf8
run_selected ctx selected input =
    if selected == 1
    then finished (if text_eq ctx.protocol_version (codes "3.3") then [] else sent (u32_of 0) ∷ [])
    else if selected == 2
    then then_trace (sent (codes "SecLabVNCProbe!!") ∷ [])
        (after_response ctx (read_exact 16 input))
    else failed [] panicked

-- The first type, where the server selects it.
abbrev pub select_first : VncContext → Bytes → Bytes → Trace VncError
select_first ctx [] input = failed [] panicked
select_first ctx (selected ∷ types) input =
    then_trace (sent (u32_of selected) ∷ []) (run_selected ctx selected input)

-- The type that the client selects.
abbrev pub select_read : VncContext → Bytes → Trace VncError
select_read ctx [] = failed [] unexpected_eof
select_read ctx (selected ∷ input) =
    if contains_type ctx.security_types selected
    then run_selected ctx selected input
    else failed [] unadvertised_type

unfoldable pub negotiate : VncContext → Bytes → Trace VncError
unfolding run_selected text_eq
negotiate ctx input =
    if text_eq ctx.protocol_version (codes "3.3")
    then select_first ctx ctx.security_types input
    else if ltb 255 (length ctx.security_types)
    then failed [] too_many_types
    else then_trace (sent (length ctx.security_types ∷ []) ∷ sent ctx.security_types ∷ [])
        (select_read ctx input)

abbrev pub has_feed : Option ℕ → Bool
has_feed none = false
has_feed (some b) = b == b'\n'

-- The check of the client's version, twelve bytes.
abbrev is_client_version : Bytes → Bool
is_client_version client_banner =
    starts_with client_banner (codes "RFB ") && has_feed (get_elem? client_banner 11)

abbrev pub after_version : VncContext → Option (Bytes × Bytes) → Trace VncError
after_version ctx none = failed [] unexpected_eof
after_version ctx (some (client_banner, input)) =
    if is_client_version client_banner
    then negotiate ctx input
    else failed [] invalid_client_version

unfoldable pub handle_vnc : VncContext → Peer → Bytes → Trace VncError
unfolding banner negotiate utf8 starts_with
handle_vnc ctx peer input =
    then_trace
      (sent (utf8 (banner ctx.protocol_version))
        ∷ reported (
            draft ctx.site peer (codes "vnc_handshake")
              (codes "VNC RFB " ++ (ctx.protocol_version ++ codes " handshake probe")) none)
        ∷ [])
      (after_version ctx (read_exact 12 input))

-- A connection to the server that `start_vnc_simulation` starts.
unfoldable pub serve_vnc : SimVncConfig → Site → Peer → Bytes → Result VncError (Trace VncError)
unfolding normalize_config handle_vnc
serve_vnc config site peer input = do
  (version, types) ← normalize_config config
  ok (
      handle_vnc (record { site = site; protocol_version = version; security_types = types }) peer
        input)
