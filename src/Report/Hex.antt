-- ===== src/Report/Hex.antt =====
-- The hexadecimal rendering determines the bytes.
use seclab_suite_protocol_si.Base.{
  All, Option, [], arith, if◌then◌else◌, length, ltb, none, refl, some, ℕ, ◌*◌, ◌+◌, ◌-◌, ◌∷◌, ◌≡◌,
}
use seclab_suite_protocol_si.Base.Bits.{Bytes, IsByte, low_nibble}
use seclab_suite_protocol_si.Base.Text.{Text}
use seclab_suite_protocol_si.Report.{encode_hex}

-- A reader of lowercase hexadecimal text, independent of the encoder.
digit_value : ℕ → ℕ
digit_value c = if ltb c b'a' then c - b'0' else c - b'a' + 10

unfoldable pub decode_hex : Text → Option Bytes
unfolding digit_value
decode_hex [] = some []
decode_hex (c ∷ []) = none
decode_hex (c ∷ d ∷ text) = elim (decode_hex text) [
  | none ↦ none
  | some bytes ↦ some ((digit_value c * 16 + digit_value d) ∷ bytes)
]

-- The text of a payload has two characters for each byte, and reads back as the payload.
pub decode_hex-encode_hex :
    (bytes : Bytes)
    → All IsByte bytes
    → (decode_hex (encode_hex bytes) ≡ some bytes) × (length (encode_hex bytes) ≡ 2 * length bytes)
unfolding decode_hex encode_hex
decode_hex-encode_hex [] h = (refl, refl)
decode_hex-encode_hex (b ∷ bytes) h = ground (arith, low_nibble b, decode_hex-encode_hex bytes h.1)
