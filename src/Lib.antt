-- ===== src/Lib.antt =====
-- Verification library of the protocol simulation suite.
--
-- The suite starts an engine for a rule. The engine checks the endpoints of the launch against the
-- description of the protocol, and then serves one simulated protocol; every server reports what
-- its clients do. The rules come in signed packages. The library models the catalogue of protocols, the
-- check of a launch, the packages, the capture files, the delivery of reports, and nine servers with what
-- they share:
--
--   Base      Boolean tests, lists, results (anyhow::Result), bytes, and the text functions of the Rust
--             standard library that the sources call, with the UTF-8 codec (Base/Text/Utf8).
--   Report    crates/protocol-simulation-engine/src/simulation/common.rs: SimLogDraft, encode_hex. Its
--             child Delivery is queue_sim_log and run_reporter: the queue, its tasks, their attempts.
--   Session   The events of a connection, and the loop of the servers that read lines
--             (read_line, write_line of simulation/mail_common.rs and simulation/ftp.rs).
--   Catalog   crates/protocol-simulation-common/src/lib.rs: ProtocolId, protocol_descriptor. Its
--             child Launch is validated_endpoints of crates/protocol-simulation-engine/src/main.rs.
--   Snmp      simulation/snmp.rs: Ber the codec, Request parse_request, Mib build_values and
--             next_value, Response build_response, Server the UDP loop.
--   Mqtt      simulation/mqtt.rs: read_packet, parse_connect, connack and handle.
--   Ftp       simulation/ftp.rs: handle_ftp_connection.
--   Mail      simulation/mail_common.rs: credentials, AUTH PLAIN, custom responses, messages.
--   Pop3      simulation/pop3.rs: handle_pop3_connection; Commands holds the replies, Handler the
--             loop, Offered the logins and Secrecy what a client without a login learns.
--   Smtp      simulation/smtp.rs: handle_smtp_connection.
--   Redis     simulation/redis.rs: parse_redis_command and handle_redis_connection.
--   Memcached simulation/memcached.rs: response_for and handle.
--   Vnc       simulation/vnc.rs: normalize_config and handle.
--   Rules     crates/protocol-simulation/src/rule_package.rs: Archive the entries, Signature the key and
--             the signature, Package parse_slrp_with_public_key.
--   Captures  crates/protocol-simulation/src/pcap.rs: the names and the cleanup of capture files.
--   Dns       simulation/dns.rs: validate_config, decode_name and build_response.
--
-- A String is the list of its code points, and Vec<u8> the list of its bytes, both over the native
-- numbers. An i64 is the number below 2^64 that its two's complement writes, but for the messages of
-- Rules, whose integers are those of Base/Int. A stream is the list of the bytes that the peer sends
-- before it closes, and a UDP server's datagrams and failed receives are a list. What a
-- handler does is the list of its events, bytes written and reports queued, with the error that
-- ends it. Writes to a connection succeed and time-outs do not occur: either cuts a list of
-- events off. The SNMP server's sends may be refused, which the list of its arrivals says. A write of
-- a line and of its line end is one event.
--
-- A loop over a stream runs on fuel, the length of what is left and one: the parsers consume a byte
-- at least in every turn; a loop without fuel is the error out_of_fuel. Loops over lines,
-- datagrams and repetitions are structural. An index that Rust checks is the error panicked.
-- Redis and Memcached read chunks: their streams are the lists of what the reads return. The decoding
-- of a key inside a key runs on the length of the text and one.
--
-- The decoder of Base64 (the crate base64) is a parameter of Mail, Pop3, Smtp and Rules, and so are
-- the other crates that Rules calls, with the code that serde derives (its record Crates), and the
-- HTTP server that reports go to. What a directory or a socket answers stands in the data that the
-- models of Captures and of the SNMP server take. The behaviour of a launch is a JSON value of any
-- type. Memory is enough where no capacity overflows.
--
-- Not modelled: the accept loops, the tasks and the shutdown (tokio), the other
-- protocols, and the API service over its database (crates/protocol-simulation).
pub mod Base
pub mod Report
pub mod Snmp
pub mod Session
pub mod Mqtt
pub mod Catalog
pub mod Ftp
pub mod Mail
pub mod Pop3
pub mod Dns
pub mod Smtp
pub mod Redis
pub mod Rules
pub mod Memcached
pub mod Vnc
pub mod Captures
