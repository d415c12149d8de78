-- ===== src/Snmp/Server.antt =====
-- The receive loop of `start_snmp_simulation`, simulation/snmp.rs lines 346 to 418. What the socket
-- does is the list of arrivals: a datagram, with the socket's answers to a send, or an error of
-- `recv_from`. A shutdown is the end of the list.
pub mod Survival
use seclab_suite_protocol_si.Base.{
  Bool, List, Option, [], err, false, if◌then◌else◌, none, ok, some, take, true, unwrap_or, ℕ, ◌++◌,
  ◌+◌, ◌==◌, ◌∷◌,
}
use seclab_suite_protocol_si.Base.Bits.{Bytes}
use seclab_suite_protocol_si.Base.Text.{Text, codes, text_eq, to_decimal}
use seclab_suite_protocol_si.Base.Text.Utf8.{utf8}
use seclab_suite_protocol_si.Report.{Peer, SimLogDraft, Site, draft}
use seclab_suite_protocol_si.Snmp.Ber.{SnmpError}
use seclab_suite_protocol_si.Snmp.Mib.{SimSnmpConfig, Values, build_values}
use seclab_suite_protocol_si.Snmp.Request.{SnmpRequest, parse_request}
use seclab_suite_protocol_si.Snmp.Response.{build_response}

abbrev pub max_message_size : ℕ
max_message_size = 8192

pub record Runtime : Type 0 where
  pub site : Site
  pub endpoint_id : Text
  pub community : Text
  pub values : Values

-- What the loop does that others see: a datagram sent, a report queued for an endpoint.
pub data Event : Type 0 where
  sent : Peer → Bytes → Event
  reported : SimLogDraft → Text → Event

-- What the socket gives the loop: a datagram with its sender, and whether a `send_to` of these bytes to
-- that sender would succeed; or an error.
pub data Arrival : Type 0 where
  datagram : Peer → Bytes → (Bytes → Bool) → Arrival
  receive_failed : Arrival

-- The errors that end the task: one of the model's codec, and those of `recv_from` and `send_to`.
pub data TaskError : Type 0 where
  codec_failure : SnmpError → TaskError
  receive_failure : TaskError
  send_failure : TaskError

-- The events up to an error that ends the task, or up to the shutdown.
pub record Run : Type 0 where
  pub events : List Event
  pub failure : Option TaskError

abbrev operation : ℕ → Text
operation tag =
    if tag == 0xa0
    then codes "GET"
    else if tag == 0xa1
    then codes "GETNEXT"
    else if tag == 0xa5
    then codes "GETBULK"
    else codes "UNKNOWN"

-- `format!("SNMPv{} {operation} probe {}", version + 1, ...)`; the version is 0 or 1.
abbrev summary : SnmpRequest → Bool → Text
summary request allowed =
    codes "SNMPv"
    ++ (to_decimal (request.version + 1)
        ++ (codes " "
            ++ (operation request.pdu_tag
                ++ (codes " probe " ++ (if allowed then codes "accepted" else codes "rejected")))))

unfoldable pub report_request : Runtime → Peer → SnmpRequest → Bool → Event
unfolding to_decimal
report_request runtime peer request allowed =
    reported (draft runtime.site peer (codes "snmp_query") (summary request allowed) none)
      runtime.endpoint_id

-- The socket is given a response: it is sent and the request is reported, or the error ends the task.
unfoldable pub send_response : Runtime → Peer → (Bytes → Bool) → SnmpRequest → Bytes → Run
unfolding report_request
send_response runtime peer sends request response =
    if sends response
    then record {
      events = sent peer response ∷ report_request runtime peer request true ∷ [];
      failure = none;
    }
    else record { events = []; failure = some send_failure }

-- The answer to a parsed request: a failure of `build_response` leaves the loop.
unfoldable pub answer : Runtime → Peer → (Bytes → Bool) → SnmpRequest → Run
unfolding report_request build_response send_response
answer runtime peer sends request =
    if text_eq request.community (utf8 runtime.community)
    then elim (build_response request runtime.values) [
      | ok response ↦ send_response runtime peer sends request response
      | err e ↦ record { events = []; failure = some (codec_failure e) }
    ]
    else record { events = report_request runtime peer request false ∷ []; failure = none }

-- A datagram longer than the buffer is cut off by `recv_from`.
unfoldable pub handle_datagram : Runtime → Arrival → Run
unfolding answer parse_request
handle_datagram runtime receive_failed = record { events = []; failure = some receive_failure }
handle_datagram runtime (datagram peer bytes sends) =
    elim (parse_request (take max_message_size bytes)) [
      | ok request ↦ answer runtime peer sends request
      | err e ↦ record { events = []; failure = none }
    ]

-- What one arrival did, and then the others if the loop goes on.
abbrev pub then_run : Run → Run → Run
then_run now later = elim now.failure [
  | none ↦ record { events = now.events ++ later.events; failure = later.failure }
  | some e ↦ now
]

unfoldable pub serve : Runtime → List Arrival → Run
unfolding handle_datagram
serve runtime [] = record { events = []; failure = none }
serve runtime (arrival ∷ arrivals) =
    then_run (handle_datagram runtime arrival) (serve runtime arrivals)

abbrev pub runtime_of : Site → Text → SimSnmpConfig → Values → Runtime
runtime_of site endpoint_id config values = record {
  site = site;
  endpoint_id = endpoint_id;
  community = unwrap_or config.community (codes "public");
  values = values;
}

-- The whole task: the values are built before the loop.
unfoldable pub start_snmp_simulation : Site → Text → SimSnmpConfig → List Arrival → Run
unfolding build_values serve
start_snmp_simulation site endpoint_id config arrivals = elim (build_values config) [
  | ok values ↦ serve (runtime_of site endpoint_id config values) arrivals
  | err e ↦ record { events = []; failure = some (codec_failure e) }
]
