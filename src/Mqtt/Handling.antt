-- ===== src/Mqtt/Handling.antt =====
-- The handler of a connection: which clients stay, and that it ends.
use seclab_suite_protocol_si.Base.{
  Bool, Bool-cases, List, Option, Result-cases, [], ap, arith, bit_and, false, if◌then◌else◌, inl,
  inr, length, none, not, ok, refl, some, suc, true, unwrap_or, zero, ℕ, ◌++◌, ◌/◌, ◌<◌, ◌==◌, ◌∙◌,
  ◌∷◌, ◌≡◌, ◌≢◌, ◌≤◌, ◌⊎◌,
}
use seclab_suite_protocol_si.Base.Bits.{Bytes}
use seclab_suite_protocol_si.Base.Text.{Text, codes, to_decimal}
use seclab_suite_protocol_si.Report.{Peer, draft}
use seclab_suite_protocol_si.Session.{Event, finished, reported, sent, then_trace}
use seclab_suite_protocol_si.Mqtt.{
  Context, MqttError, breaks, connack, handle, handle_loop, is_accepted, max_packet_size,
  out_of_fuel, packet_step, panicked, parse_connect, read_packet, report_connect, run_step,
}
use seclab_suite_protocol_si.Mqtt.Framing.{
  frame, parse_connect-errors, read_packet-errors, read_packet-frame, read_packet_shorter,
}

-- The payload of a CONNECT with the protocol name of MQTT 3.1.1 and 5.
abbrev pub connect_payload : ℕ → ℕ → Bytes → Bytes
connect_payload level flags rest = 0 ∷ 4 ∷ b'M' ∷ b'Q' ∷ b'T' ∷ b'T' ∷ level ∷ flags ∷ rest

parse_connect-connect_payload :
    (level flags : ℕ) (rest : Bytes)
    → parse_connect (connect_payload level flags rest) ≡ ok (level, not (bit_and flags 0xc0 == 0))
unfolding parse_connect
parse_connect-connect_payload level flags rest = ground arith

-- What the server accepts: MQTT 3.1.1 or 5, with credentials where anonymous clients are refused.
abbrev pub MayConnect : Option Bool → ℕ → ℕ → Type 0
MayConnect allow_anonymous level flags =
    ((level ≡ 4) ⊎ (level ≡ 5))
    × ((unwrap_or allow_anonymous true ≡ true) ⊎ (bit_and flags 0xc0 ≢ 0))

accepted-MayConnect :
    (ctx : Context) (level flags : ℕ)
    → is_accepted ctx level (not (bit_and flags 0xc0 == 0)) ≡ true
    → MayConnect ctx.allow_anonymous level flags
unfolding is_accepted
accepted-MayConnect ctx level flags h = elim (Bool-cases (unwrap_or ctx.allow_anonymous true)) [
  | inl open_door ↦ (ground arith, inl open_door)
  | inr closed ↦ (ground arith, inr (λ e. ground arith))
]

MayConnect-accepted :
    (ctx : Context) (level flags : ℕ)
    → MayConnect ctx.allow_anonymous level flags
    → is_accepted ctx level (not (bit_and flags 0xc0 == 0)) ≡ true
unfolding is_accepted
MayConnect-accepted ctx level flags (level_is, inl open_door) = ground arith
MayConnect-accepted ctx level flags (level_is, inr flagged) = ground arith

-- More fuel than bytes does not change the trace.
handle_loop_fuel :
    (f g : ℕ) (ctx : Context) (peer : Peer) (input : Bytes)
    → length input < f
    → length input < g
    → handle_loop f ctx peer input ≡ handle_loop g ctx peer input
unfolding handle_loop
handle_loop_fuel zero g ctx peer input h k = absurd (omega arith)
handle_loop_fuel (suc f) zero ctx peer input h k = absurd (omega arith)
handle_loop_fuel (suc f) (suc g) ctx peer input h k = elim (Result-cases (read_packet input)) [
  | inl (none, r) ↦ rw (r, handle_loop)
  | inl (some (header, payload, behind), r) ↦
      let shorter = read_packet_shorter input header payload behind r in
      rw (r, handle_loop)
        (ap (run_step (packet_step ctx peer header payload))
          (handle_loop_fuel f g ctx peer behind (omega arith) (omega arith)))
  | inr (x, r) ↦ rw (r, handle_loop)
]

-- What the handler does with one packet at the front of the stream, and then with the rest.
handle-frame :
    (ctx : Context) (peer : Peer) (header : ℕ) (payload more : Bytes)
    → length payload ≤ max_packet_size
    → handle ctx peer (frame header payload ++ more)
      ≡ run_step (packet_step ctx peer header payload) (handle ctx peer more)
unfolding handle handle_loop
handle-frame ctx peer header payload more short =
    let input = frame header payload ++ more in
    let e = read_packet-frame header payload more short in
    rw (e, handle_loop)
      (ap (run_step (packet_step ctx peer header payload)) (
        handle_loop_fuel (length input) (suc (length more)) ctx peer more
          (read_packet_shorter input header payload more e) (omega arith)))

-- The packets that MQTT writes for a CONNECT that it takes, at the levels 4 and 5.
abbrev pub success_bytes : ℕ → Bytes
success_bytes level = if level == 5 then 0x20 ∷ 3 ∷ 0 ∷ 0 ∷ 0 ∷ [] else 0x20 ∷ 2 ∷ 0 ∷ 0 ∷ []

-- For one that it refuses: the reason "not authorized", 0x87 at level 5 and 5 elsewhere.
abbrev pub refusal_bytes : ℕ → Bytes
refusal_bytes level = if level == 5 then 0x20 ∷ 3 ∷ 0 ∷ 0x87 ∷ 0 ∷ [] else 0x20 ∷ 2 ∷ 0 ∷ 5 ∷ []

-- A packet for the client, and the report of the CONNECT with its outcome.
abbrev pub connect_events : Context → Peer → ℕ → Bytes → Text → List Event
connect_events ctx peer level packet outcome =
    sent packet
    ∷ reported (
        draft ctx.site peer (codes "mqtt_connect")
          (codes "MQTT protocol level " ++ (to_decimal level ++ (codes " CONNECT " ++ outcome)))
          none)
    ∷ []

connect_events-accepted :
    (ctx : Context) (peer : Peer) (level flags : ℕ)
    → MayConnect ctx.allow_anonymous level flags
    → sent (connack level true) ∷ report_connect ctx peer level true ∷ []
      ≡ connect_events ctx peer level (success_bytes level) (codes "accepted")
unfolding connack
connect_events-accepted ctx peer level flags (inl four, door) = rw four refl
connect_events-accepted ctx peer level flags (inr five, door) = rw five refl

connect_events-refused :
    (ctx : Context) (peer : Peer) (level : ℕ)
    → sent (connack level false) ∷ report_connect ctx peer level false ∷ []
      ≡ connect_events ctx peer level (refusal_bytes level) (codes "rejected")
unfolding connack
connect_events-refused ctx peer level = elim (Bool-cases (level == 5)) [
  | inl five ↦ rw five refl
  | inr other ↦ rw other refl
]

-- A CONNECT packet of at most 65536 bytes with the protocol name MQTT, at the front of a stream: a
-- client that may connect is sent the bytes of a success and reported as accepted, and then the rest of
-- the stream is handled; any other is sent the bytes of the refusal "not authorized" and reported as
-- rejected, and the connection ends without reading what follows.
pub handle_connect :
    (ctx : Context) (peer : Peer) (header level flags : ℕ) (rest more : Bytes)
    → header / 16 ≡ 1
    → length (connect_payload level flags rest) ≤ max_packet_size
    → (MayConnect ctx.allow_anonymous level flags
        × (handle ctx peer (frame header (connect_payload level flags rest) ++ more)
            ≡ then_trace
                (connect_events ctx peer level (success_bytes level) (codes "accepted"))
                (handle ctx peer more)))
      ⊎ ((¬ MayConnect ctx.allow_anonymous level flags)
          × (handle ctx peer (frame header (connect_payload level flags rest) ++ more)
              ≡ finished (connect_events ctx peer level (refusal_bytes level) (codes "rejected"))))
unfolding packet_step
handle_connect ctx peer header level flags rest more type short =
    elim (Bool-cases (is_accepted ctx level (not (bit_and flags 0xc0 == 0)))) [
      | inl accepted ↦
          let may = accepted-MayConnect ctx level flags accepted in
          inl (
            may,
            handle-frame ctx peer header (connect_payload level flags rest) more short
                ∙ rw (type, parse_connect-connect_payload level flags rest, accepted) refl
                ∙ ap (λ (es : List Event). then_trace es (handle ctx peer more))
                    (connect_events-accepted ctx peer level flags may),
          )
      | inr refused ↦ inr (
        (λ may. cc (MayConnect-accepted ctx level flags may)),
        handle-frame ctx peer header (connect_payload level flags rest) more short
            ∙ rw (type, parse_connect-connect_payload level flags rest, refused) refl
            ∙ ap finished (connect_events-refused ctx peer level),
      )
    ]

packet_step-errors :
    (ctx : Context) (peer : Peer) (header : ℕ) (payload : Bytes) (e : MqttError)
    → packet_step ctx peer header payload ≡ breaks e
    → (e ≢ panicked) × (e ≢ out_of_fuel)
unfolding packet_step
packet_step-errors ctx peer header payload e h = elim (Result-cases (parse_connect payload)) [
  | inl ((level, has), p) ↦ ground arith
  | inr (x, p) ↦ ground (arith, parse_connect-errors payload x p)
]

handle_loop-errors :
    (fuel : ℕ) (ctx : Context) (peer : Peer) (input : Bytes) (e : MqttError)
    → length input < fuel
    → (handle_loop fuel ctx peer input).failure ≡ some e
    → (e ≢ panicked) × (e ≢ out_of_fuel)
unfolding handle_loop
handle_loop-errors zero ctx peer input e h f = absurd (omega arith)
handle_loop-errors (suc fuel) ctx peer input e h f = elim (Result-cases (read_packet input)) [
  | inl (none, r) ↦ ground arith
  | inl (some (header, payload, behind), r) ↦ ground (
    arith,
    read_packet_shorter input header payload behind r,
    packet_step-errors ctx peer header payload e,
    handle_loop-errors fuel ctx peer behind e,
  )
  | inr (x, r) ↦ ground (arith, read_packet-errors input x r)
]

-- On every stream the handler ends, by itself or with an error of the source: no index is out of bounds.
pub handle-errors :
    (ctx : Context) (peer : Peer) (input : Bytes) (e : MqttError)
    → (handle ctx peer input).failure ≡ some e
    → (e ≢ panicked) × (e ≢ out_of_fuel)
unfolding handle
handle-errors ctx peer input e =
    handle_loop-errors (suc (length input)) ctx peer input e (omega arith)
