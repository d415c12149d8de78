-- ===== src/Mqtt/Tests.antt =====
-- Runs of the MQTT broker on small streams.
use seclab_suite_protocol_si.Base.{[], arith, false, ok, refl, some, ◌++◌, ◌∷◌, ◌≡◌, ◌≢◌, ◌⊎◌}
use seclab_suite_protocol_si.Base.Bits.{Bytes}
use seclab_suite_protocol_si.Base.Text.{codes}
use seclab_suite_protocol_si.Report.{Peer}
use seclab_suite_protocol_si.Session.{finished, then_trace}
use seclab_suite_protocol_si.Mqtt.{
  Context, handle, out_of_fuel, panicked, ping_payload, read_packet,
}
use seclab_suite_protocol_si.Mqtt.Framing.{frame, read_packet-frame}
use seclab_suite_protocol_si.Mqtt.Handling.{
  MayConnect, connect_events, connect_payload, handle-errors, handle_connect,
}

abbrev ctx : Context
ctx = record {
  site = record { rule_id = codes "r"; node_id = codes "n"; port = 1883 };
  allow_anonymous = some false;
}

abbrev peer : Peer
peer = record { ip = codes "10.0.0.1"; port = 40000 }

-- A PINGREQ.
abbrev ping : Bytes
ping = 0xc0 ∷ 0x00 ∷ []

read_packet-frame_example :
    read_packet (frame 0x30 (1 ∷ 2 ∷ []) ++ ping) ≡ ok (some (0x30, 1 ∷ 2 ∷ [], ping))
read_packet-frame_example = read_packet-frame 0x30 (1 ∷ 2 ∷ []) ping (omega arith)

handle_connect_example :
    (MayConnect ctx.allow_anonymous 4 0xc2
      × (handle ctx peer (frame 0x10 (connect_payload 4 0xc2 []) ++ ping)
          ≡ then_trace
              (connect_events ctx peer 4 (0x20 ∷ 2 ∷ 0 ∷ 0 ∷ []) (codes "accepted"))
              (handle ctx peer ping)))
    ⊎ ((¬ MayConnect ctx.allow_anonymous 4 0xc2)
        × (handle ctx peer (frame 0x10 (connect_payload 4 0xc2 []) ++ ping)
            ≡ finished (connect_events ctx peer 4 (0x20 ∷ 2 ∷ 0 ∷ 5 ∷ []) (codes "rejected"))))
handle_connect_example = handle_connect ctx peer 0x10 4 0xc2 [] ping (omega arith) (omega arith)

ping_fails : (handle ctx peer (0xc0 ∷ 0x01 ∷ 0x00 ∷ [])).failure ≡ some ping_payload
unfolding handle
ping_fails = refl

handle-errors_example : (ping_payload ≢ panicked) × (ping_payload ≢ out_of_fuel)
handle-errors_example = handle-errors ctx peer (0xc0 ∷ 0x01 ∷ 0x00 ∷ []) ping_payload ping_fails
