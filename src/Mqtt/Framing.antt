-- ===== src/Mqtt/Framing.antt =====
-- Packets as MQTT frames them, and what the parser of CONNECT accepts.
use seclab_suite_protocol_si.Base.{
  >>=-eq-ok, Bool-cases, Result-cases, [], append_assoc, arith, bit_and, drop-append, err, false,
  get_elem?, if◌then◌else◌, inl, inr, length, length-append, length-drop, ltb, ok, refl, some, suc,
  take-append, zero, ℕ, ◌%◌, ◌*◌, ◌++◌, ◌+◌, ◌/◌, ◌<◌, ◌^◌, ◌∷◌, ◌≡◌, ◌≢◌, ◌≤◌,
}
use seclab_suite_protocol_si.Base.Bits.{Bytes, low_bits, top_bit}
use seclab_suite_protocol_si.Mqtt.{
  MqttError, max_packet_size, out_of_fuel, packet_too_large, panicked, parse_connect, read_packet,
  remaining_loop,
}

-- The remaining length as the protocol writes it: seven bits a byte, lowest first, in at most k + 1
-- bytes.
unfoldable pub remaining_length : ℕ → ℕ → Bytes
remaining_length zero n = n ∷ []
remaining_length (suc k) n =
    let rest = remaining_length k (n / 128) in if ltb n 128 then n ∷ [] else (n % 128 + 128) ∷ rest

remaining_loop-remaining_length :
    (n : ℕ) (rest : Bytes)
    → n < 128 ^ 4
    → remaining_loop 4 1 0 (remaining_length 3 n ++ rest) ≡ ok (n, rest)
unfolding remaining_loop remaining_length
remaining_loop-remaining_length n rest h = ground (
  arith,
  low_bits (n % 128 + 128),
  top_bit (n % 128 + 128),
  low_bits (n / 128 % 128 + 128),
  top_bit (n / 128 % 128 + 128),
  low_bits (n / 128 / 128 % 128 + 128),
  top_bit (n / 128 / 128 % 128 + 128),
  low_bits n,
  top_bit n,
  low_bits (n / 128),
  top_bit (n / 128),
  low_bits (n / 128 / 128),
  top_bit (n / 128 / 128),
  low_bits (n / 128 / 128 / 128),
  top_bit (n / 128 / 128 / 128),
)

-- A packet on the wire.
unfoldable pub frame : ℕ → Bytes → Bytes
frame header payload = header ∷ (remaining_length 3 (length payload) ++ payload)

-- A packet of at most 65536 bytes is read back with the bytes that follow it.
pub read_packet-frame :
    (header : ℕ) (payload rest : Bytes)
    → length payload ≤ max_packet_size
    → read_packet (frame header payload ++ rest) ≡ ok (some (header, payload, rest))
unfolding read_packet frame
read_packet-frame header payload rest h =
    rw
      (
        append_assoc (remaining_length 3 (length payload)) payload rest,
        remaining_loop-remaining_length (length payload) (payload ++ rest) (omega arith),
        take-append payload rest,
        drop-append payload rest,
      )
      (ground (arith, length-append payload rest))

-- A longer packet is refused.
pub read_packet_too_large :
    (header n : ℕ) (rest : Bytes)
    → max_packet_size < n
    → n < 128 ^ 4
    → read_packet (header ∷ (remaining_length 3 n ++ rest)) ≡ err packet_too_large
unfolding read_packet
read_packet_too_large header n rest h k =
    rw (remaining_loop-remaining_length n rest k) (ground arith)

remaining_loop_shorter :
    (turns m r : ℕ) (input : Bytes) (n : ℕ) (rest : Bytes)
    → remaining_loop turns m r input ≡ ok (n, rest)
    → length rest ≤ length input
unfolding remaining_loop
remaining_loop_shorter zero m r input n rest h = ground arith
remaining_loop_shorter (suc turns) m r [] n rest h = cc
remaining_loop_shorter (suc turns) m r (b ∷ input) n rest h =
    ground (arith, remaining_loop_shorter turns (m * 128) (r + bit_and b 0x7f * m) input n rest)

-- A packet takes at least one byte from the stream.
pub read_packet_shorter :
    (input : Bytes) (header : ℕ) (payload rest : Bytes)
    → read_packet input ≡ ok (some (header, payload, rest))
    → length rest < length input
unfolding read_packet
read_packet_shorter [] header payload rest h = cc
read_packet_shorter (first ∷ input) header payload rest h =
    let ((n, behind), e, k) = >>=-eq-ok (remaining_loop 4 1 0 input) _ h in
    ground (arith, remaining_loop_shorter 4 1 0 input n behind e, length-drop n behind)

remaining_loop-errors :
    (turns m r : ℕ) (input : Bytes) (e : MqttError)
    → remaining_loop turns m r input ≡ err e
    → (e ≢ panicked) × (e ≢ out_of_fuel)
unfolding remaining_loop
remaining_loop-errors zero m r input e h = cc
remaining_loop-errors (suc turns) m r [] e h = ground arith
remaining_loop-errors (suc turns) m r (b ∷ input) e h =
    ground (arith, remaining_loop-errors turns (m * 128) (r + bit_and b 0x7f * m) input e)

pub read_packet-errors :
    (input : Bytes) (e : MqttError) → read_packet input ≡ err e → (e ≢ panicked) × (e ≢ out_of_fuel)
unfolding read_packet
read_packet-errors [] e h = cc
read_packet-errors (first ∷ input) e h = elim (Result-cases (remaining_loop 4 1 0 input)) [
  | inl ((n, behind), l) ↦ ground arith
  | inr (x, l) ↦ ground (arith, remaining_loop-errors 4 1 0 input x l)
]

get_elem?-some : (bytes : Bytes) (i : ℕ) → i < length bytes → (b : ℕ) × (get_elem? bytes i ≡ some b)
get_elem?-some [] i h = absurd (omega arith)
get_elem?-some (b ∷ bytes) zero h = (b, refl)
get_elem?-some (b ∷ bytes) (suc i) h = get_elem?-some bytes i (omega arith)

-- The two bytes behind the name are there whenever the name is.
behind_name :
    (payload : Bytes) (n : ℕ)
    → ltb (length payload) (2 + n + 2) ≡ false
    → (level flags : ℕ) × (get_elem? payload (2 + n) ≡ some level)
      × (get_elem? payload (3 + n) ≡ some flags)
behind_name payload n h =
    let (level, el) = get_elem?-some payload (2 + n) (ground arith) in
    let (flags, ef) = get_elem?-some payload (3 + n) (ground arith) in (level, flags, el, ef)

pub parse_connect-errors :
    (payload : Bytes) (e : MqttError)
    → parse_connect payload ≡ err e
    → (e ≢ panicked) × (e ≢ out_of_fuel)
unfolding parse_connect
parse_connect-errors [] e h = ground arith
parse_connect-errors (hi ∷ []) e h = ground arith
parse_connect-errors (hi ∷ lo ∷ payload) e h =
    elim (Bool-cases (ltb (length (hi ∷ lo ∷ payload)) (2 + (hi * 256 + lo) + 2))) [
      | inl short ↦ ground arith
      | inr enough ↦
          let (level, flags, el, ef) = behind_name (hi ∷ lo ∷ payload) (hi * 256 + lo) enough in
          ground arith
    ]
