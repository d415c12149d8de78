-- ===== src/Mqtt.antt =====
-- The MQTT simulation, simulation/mqtt.rs lines 10 to 134.
pub mod Framing
pub mod Handling
mod Tests
use seclab_suite_protocol_si.Base.{
  Bool, List, Option, Result, [], bail_if, bit_and, context, drop, err, get_elem?, if◌then◌else◌,
  is_empty, length, ltb, none, not, ok, some, suc, take, true, unwrap_or, zero, ℕ, ◌&&◌, ◌*◌, ◌++◌,
  ◌+◌, ◌/◌, ◌==◌, ◌>>=◌, ◌>>◌, ◌||◌, ◌∷◌,
}
use seclab_suite_protocol_si.Base.Bits.{Bytes}
use seclab_suite_protocol_si.Base.Text.{Text, codes, text_eq, to_decimal}
use seclab_suite_protocol_si.Report.{Peer, Site, draft, encode_hex}
use seclab_suite_protocol_si.Session.{Event, Trace, failed, finished, reported, sent, then_trace}

-- The errors of the handler. `panicked` is an index out of bounds, `out_of_fuel` a loop of the model
-- that was cut off.
pub data MqttError : Type 0 where
  unexpected_eof length_too_long packet_too_large : MqttError
  connect_truncated name_truncated unsupported_name ping_payload : MqttError
  panicked out_of_fuel : MqttError

abbrev pub max_packet_size : ℕ
max_packet_size = 64 * 1024

-- The `for` loop over the bytes of the remaining length: the turns left, the multiplier, the length so
-- far. The last turn either breaks or fails.
unfoldable pub remaining_loop : ℕ → ℕ → ℕ → Bytes → Result MqttError (ℕ × Bytes)
remaining_loop zero multiplier remaining input = ok (remaining, input)
remaining_loop (suc turns) multiplier remaining [] = err unexpected_eof
remaining_loop (suc turns) multiplier remaining (encoded ∷ input) =
    let sum = remaining + bit_and encoded 0x7f * multiplier in
    let next = remaining_loop turns (multiplier * 128) sum input in
    if bit_and encoded 0x80 == 0
    then ok (sum, input)
    else if turns == 0
    then err length_too_long
    else next

-- `read_exact`
abbrev pub read_exact : ℕ → Bytes → Result MqttError (Bytes × Bytes)
read_exact n input =
    if ltb (length input) n then err unexpected_eof else ok (take n input, drop n input)

-- The packet, and the stream behind it; `none` where the stream ends before a packet.
unfoldable pub read_packet : Bytes → Result MqttError (Option (ℕ × Bytes × Bytes))
unfolding remaining_loop
read_packet [] = ok none
read_packet (first ∷ input) = do
  (remaining, rest) ← remaining_loop 4 1 0 input
  bail_if (ltb max_packet_size remaining) packet_too_large
  (payload, behind) ← read_exact remaining rest
  ok (some (first, payload, behind))

-- `payload[i]`
abbrev pub index : Bytes → ℕ → Result MqttError ℕ
index payload i = context (get_elem? payload i) panicked

-- The protocol level, and whether a user name or a password is flagged.
unfoldable pub parse_connect : Bytes → Result MqttError (ℕ × Bool)
unfolding text_eq
parse_connect payload = do
  bail_if (ltb (length payload) 7) connect_truncated
  hi ← index payload 0
  lo ← index payload 1
  let name_len = hi * 256 + lo
  bail_if (ltb (length payload) (2 + name_len + 2)) name_truncated
  let name = take name_len (drop 2 payload)
  bail_if (not (text_eq name (codes "MQTT")) && not (text_eq name (codes "MQIsdp")))
      unsupported_name
  level ← index payload (2 + name_len)
  flags ← index payload (3 + name_len)
  ok (level, not (bit_and flags 0xc0 == 0))

unfoldable pub connack : ℕ → Bool → Bytes
connack level accepted =
    if level == 5
    then 0x20 ∷ 0x03 ∷ 0x00 ∷ (if accepted then 0x00 else 0x87) ∷ 0x00 ∷ []
    else 0x20 ∷ 0x02 ∷ 0x00 ∷ (if accepted then 0x00 else 0x05) ∷ []

pub record Context : Type 0 where
  pub site : Site
  pub allow_anonymous : Option Bool

unfoldable pub is_accepted : Context → ℕ → Bool → Bool
is_accepted ctx level has_credentials =
    (level == 4 || level == 5) && (unwrap_or ctx.allow_anonymous true || has_credentials)

abbrev pub report_connect : Context → Peer → ℕ → Bool → Event
report_connect ctx peer level accepted = reported (
    draft ctx.site peer (codes "mqtt_connect")
      (codes "MQTT protocol level "
        ++ (to_decimal level
            ++ (codes " CONNECT " ++ (if accepted then codes "accepted" else codes "rejected"))))
      none)

abbrev pub report_control : Context → Peer → Text → Option Text → Event
report_control ctx peer name payload = reported (
    draft ctx.site peer (codes "mqtt_control") (codes "MQTT " ++ (name ++ codes " received"))
      payload)

-- What the handling of one packet leads to: on to the next packet, or the end of the handler.
pub data Step : Type 0 where
  goes_on : List Event → Step
  ends : List Event → Step
  breaks : MqttError → Step

abbrev connect_step : Context → Peer → ℕ → Bool → Step
connect_step ctx peer level has_credentials =
    let accepted = is_accepted ctx level has_credentials in
    let events = sent (connack level accepted) ∷ report_connect ctx peer level accepted ∷ [] in
    if accepted then goes_on events else ends events

-- The `match packet_type`.
unfoldable pub packet_step : Context → Peer → ℕ → Bytes → Step
unfolding parse_connect is_accepted connack encode_hex to_decimal
packet_step ctx peer header payload =
    let packet_type = header / 16 in
    if packet_type == 1
    then elim (parse_connect payload) [
      | ok (level, has_credentials) ↦ connect_step ctx peer level has_credentials
      | err e ↦ breaks e
    ]
    else if packet_type == 12
    then if not (is_empty payload)
      then breaks ping_payload
      else goes_on (
          sent (0xd0 ∷ 0x00 ∷ [])
          ∷ report_control ctx peer (codes "PINGREQ") (some (encode_hex (header ∷ [])))
          ∷ [])
    else if packet_type == 14
    then ends (report_control ctx peer (codes "DISCONNECT") (some (encode_hex (header ∷ []))) ∷ [])
    else goes_on
        (report_control ctx peer (codes "packet type " ++ to_decimal packet_type) none ∷ [])

abbrev pub run_step : Step → Trace MqttError → Trace MqttError
run_step (goes_on events) later = then_trace events later
run_step (ends events) later = finished events
run_step (breaks e) later = failed [] e

-- The `while let` loop. A packet takes two bytes at least, so the length of the stream is enough fuel.
unfoldable pub handle_loop : ℕ → Context → Peer → Bytes → Trace MqttError
unfolding packet_step read_packet
handle_loop zero ctx peer input = failed [] out_of_fuel
handle_loop (suc fuel) ctx peer input = elim (read_packet input) [
  | ok none ↦ finished []
  | ok (some (header, payload, behind)) ↦
      run_step (packet_step ctx peer header payload) (handle_loop fuel ctx peer behind)
  | err e ↦ failed [] e
]

unfoldable pub handle : Context → Peer → Bytes → Trace MqttError
unfolding handle_loop
handle ctx peer input = handle_loop (suc (length input)) ctx peer input
