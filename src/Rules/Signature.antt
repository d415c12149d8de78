-- ===== src/Rules/Signature.antt =====
-- The signature of a rule package, rule_package.rs lines 293 to 356.
use seclab_suite_protocol_si.Base.{
  Bool, Option, Result, bail_if, context, drop, err, false, find, if◌then◌else◌, is_empty, leb,
  length, map, none, not, ok, some, suc, take, true, zero, ℕ, ◌&&◌, ◌==◌, ◌>>=◌, ◌||◌,
}
use seclab_suite_protocol_si.Base.Bits.{Bytes}
use seclab_suite_protocol_si.Base.Text.{Text, codes, contains, starts_with, trim}
use seclab_suite_protocol_si.Base.Text.Lines.{lines}
use seclab_suite_protocol_si.Base.Text.Utf8.{from_utf8}
use seclab_suite_protocol_si.Rules.{
  Crates, RuleError, bad_base64, bad_payload, bad_signature, no_payload, out_of_fuel,
}

abbrev pub is_payload : Text → Bool
is_payload line = not (is_empty line) && not (starts_with line (codes "untrusted comment:"))

abbrev pub is_signature_payload : Text → Bool
is_signature_payload line = is_payload line && not (starts_with line (codes "trusted comment:"))

-- The first line that is one, without the white space around it.
unfoldable pub payload_line : (Text → Bool) → Text → Option Text
unfolding lines trim starts_with
payload_line test value = find test (map trim (lines value))

-- `if let Ok(nested) = from_utf8(..) && nested.contains(..)`
unfoldable pub nested_key : Bytes → Option Text
unfolding from_utf8 contains
nested_key decoded = elim (from_utf8 decoded) [
  | none ↦ none
  | some nested ↦ if contains nested (codes "minisign public key") then some nested else none
]

unfoldable pub key_of : Bytes → Result RuleError Bytes
unfolding starts_with
key_of decoded =
    if length decoded == 32
    then ok decoded
    else if length decoded == 42
        && (starts_with decoded (codes "Ed") || starts_with decoded (codes "ED"))
    then ok (drop 10 decoded)
    else err bad_payload

-- A key inside a key is decoded again: on fuel.
unfoldable pub decode_public_key : {Json : Type 0} → Crates Json → ℕ → Text → Result RuleError Bytes
unfolding payload_line nested_key key_of
decode_public_key crates zero value = err out_of_fuel
decode_public_key crates (suc fuel) value = do
  payload ← context (payload_line is_payload value) no_payload
  decoded ← context (crates.decode_base64 payload) bad_base64
  elim (nested_key decoded) [
    | none ↦ key_of decoded
    | some nested ↦ decode_public_key crates fuel nested
  ]

abbrev signature_of : Bytes → Result RuleError (Bytes × Bool)
signature_of decoded =
    if length decoded == 64
    then ok (decoded, false)
    else if leb 74 (length decoded) && starts_with decoded (codes "Ed")
    then ok (take 64 (drop 10 decoded), false)
    else if leb 74 (length decoded) && starts_with decoded (codes "ED")
    then ok (take 64 (drop 10 decoded), true)
    else err bad_payload

unfoldable pub decode_signature :
    {Json : Type 0} → Crates Json → Text → Result RuleError (Bytes × Bool)
unfolding payload_line starts_with
decode_signature crates value = do
  payload ← context (payload_line is_signature_payload value) no_payload
  decoded ← context (crates.decode_base64 payload) bad_base64
  signature_of decoded

-- A key inside a key is shorter than the text around it.
abbrev pub key_fuel : Text → ℕ
key_fuel value = suc (length value)

unfoldable pub verify_detached_signature :
    {Json : Type 0} → Crates Json → Text → Bytes → Text → Result RuleError (Unit {0})
unfolding decode_public_key decode_signature
verify_detached_signature crates public_key_text message signature_text = do
  public_key ← decode_public_key crates (key_fuel public_key_text) public_key_text
  (signature, prehashed) ← decode_signature crates signature_text
  let verified_message = if prehashed then crates.blake2b message else message
  bail_if (not (crates.verify public_key verified_message signature)) bad_signature
