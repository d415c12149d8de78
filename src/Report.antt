-- ===== src/Report.antt =====
-- Audit reports, simulation/common.rs: the drafts that the servers queue, and the hexadecimal
-- rendering of payloads.
pub mod Hex
pub mod Delivery
mod Tests
use seclab_suite_protocol_si.Base.{Option, [], bit_and, if◌then◌else◌, ltb, ℕ, ◌+◌, ◌-◌, ◌/◌, ◌∷◌}
use seclab_suite_protocol_si.Base.Bits.{Bytes}
use seclab_suite_protocol_si.Base.Text.{Text}

pub record SimLogDraft : Type 0 where
  pub rule_id : Text
  pub node_id : Text
  pub client_ip : Text
  pub client_port : ℕ
  pub server_port : ℕ
  pub event_type : Text
  pub detail_summary : Text
  pub payload_hex : Option Text

-- `SocketAddr`: the address as it prints, and the port.
pub record Peer : Type 0 where
  pub ip : Text
  pub port : ℕ

-- What a server knows of itself when it reports.
pub record Site : Type 0 where
  pub rule_id : Text
  pub node_id : Text
  pub port : ℕ

-- `HEX[i]`
abbrev pub hex_digit : ℕ → ℕ
hex_digit i = if ltb i 10 then b'0' + i else b'a' + (i - 10)

unfoldable pub encode_hex : Bytes → Text
encode_hex [] = []
encode_hex (byte ∷ bytes) = hex_digit (byte / 16) ∷ hex_digit (bit_and byte 0x0f) ∷ encode_hex bytes

-- A draft of a server for a client.
abbrev pub draft : Site → Peer → Text → Text → Option Text → SimLogDraft
draft site peer event_type summary payload_hex = record {
  rule_id = site.rule_id;
  node_id = site.node_id;
  client_ip = peer.ip;
  client_port = peer.port;
  server_port = site.port;
  event_type = event_type;
  detail_summary = summary;
  payload_hex = payload_hex;
}
