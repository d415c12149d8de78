-- ===== src/Rules/Keys.antt =====
-- The decoding of a key ends: a key inside a key is shorter than the text around it.
use seclab_suite_protocol_si.Base.{
  IsIn, List, Option-cases, [], arith, err, false, find-IsIn, inl, inr, is_empty, length, map, some,
  subst, suc, sym, zero, ℕ, ◌<◌, ◌∷◌, ◌≡◌, ◌≢◌, ◌≤◌,
}
use seclab_suite_protocol_si.Base.Bits.{Bytes}
use seclab_suite_protocol_si.Base.Text.{Text, trim}
use seclab_suite_protocol_si.Base.Text.Lines.{lines}
use seclab_suite_protocol_si.Base.Text.Lengths.{AreWithin, lines-AreWithin}
use seclab_suite_protocol_si.Base.Text.Utf8.{from_utf8, length-from_utf8}
use seclab_suite_protocol_si.Rules.{Crates, out_of_fuel}
use seclab_suite_protocol_si.Rules.Signature.{
  decode_public_key, is_payload, key_fuel, key_of, nested_key, payload_line,
}

IsIn-within :
    (n : ℕ) (texts : List Text) (t : Text) → AreWithin n texts → IsIn t texts → length t ≤ n
IsIn-within n [] t h member = absurd member
IsIn-within n (u ∷ texts) t (short, h) (inl same) =
    subst (λ (v : Text). length v ≤ n) (sym same) short
IsIn-within n (u ∷ texts) t (short, h) (inr behind) = IsIn-within n texts t h behind

-- A payload is not empty, and it is no longer than the text.
payload_line-bounds :
    (value : Text) {payload : Text}
    → payload_line is_payload value ≡ some payload
    → (is_empty payload ≡ false) × (length payload ≤ length value)
unfolding payload_line
payload_line-bounds value {payload} found =
    let (test, member) = find-IsIn is_payload (map trim (lines value)) found in
    (
      ground arith,
      IsIn-within (length value) (map trim (lines value)) payload (lines-AreWithin value) member,
    )

nested_key-length :
    (decoded : Bytes) {nested : Text}
    → nested_key decoded ≡ some nested
    → length nested ≤ length decoded
unfolding nested_key
nested_key-length decoded {nested} h = elim (Option-cases (from_utf8 decoded)) [
  | inl no_text ↦ ground arith
  | inr (t, is_text) ↦
      let short = length-from_utf8 decoded is_text in
      let same : t ≡ nested = ground arith in
      subst (λ (v : Text). length v ≤ length decoded) same short
]

key_of-ne-out_of_fuel : (decoded : Bytes) → key_of decoded ≢ err out_of_fuel
unfolding key_of
key_of-ne-out_of_fuel decoded h = ground arith

module _ {Json : Type 0} (crates : Crates Json)
    (shrinks : (payload : Text) (decoded : Bytes)
      → crates.decode_base64 payload ≡ some decoded
      → is_empty payload ≡ false
      → length decoded < length payload) where
  decode_public_key-fuel :
      (fuel : ℕ) (value : Text)
      → length value < fuel
      → decode_public_key crates fuel value ≢ err out_of_fuel
  unfolding decode_public_key
  decode_public_key-fuel zero value h = absurd (omega arith)
  decode_public_key-fuel (suc fuel) value h = elim (Option-cases (payload_line is_payload value)) [
    | inl no_line ↦ rw no_line (λ e. cc)
    | inr (payload, found) ↦
        let (full, short) = payload_line-bounds value found in
        elim (Option-cases (crates.decode_base64 payload)) [
          | inl no_bytes ↦ rw (found, no_bytes) (λ e. cc)
          | inr (decoded, is_base64) ↦
              let shorter = shrinks payload decoded is_base64 full in
              elim (Option-cases (nested_key decoded)) [
                | inl plain ↦ λ e. key_of-ne-out_of_fuel decoded (ground arith)
                | inr (nested, inner) ↦ λ e.
                    decode_public_key-fuel fuel nested
                      (omega (arith, h, short, shorter, nested_key-length decoded inner))
                      (ground arith)
              ]
        ]
  ]

  -- Where Base64 decodes every text that is not empty to fewer bytes than it has characters, the decoding
  -- of a key, with the keys inside it, ends with a key or an error of its own, on the fuel it is given.
  pub decode_public_key-ne-out_of_fuel :
      (value : Text) → decode_public_key crates (key_fuel value) value ≢ err out_of_fuel
  decode_public_key-ne-out_of_fuel value =
      decode_public_key-fuel (key_fuel value) value (omega arith)
