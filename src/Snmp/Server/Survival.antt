-- ===== src/Snmp/Server/Survival.antt =====
-- Whether clients can end the server.
use seclab_suite_protocol_si.Base.{
  All, All-take, Bool, Bool-cases, Ensures-ok, IsIn, List, Option, Option-cases, Result-cases, [],
  false, inl, inr, none, ok, refl, some, take, true, unwrap_or, ℕ, ◌∷◌, ◌≡◌,
}
use seclab_suite_protocol_si.Base.Bits.{Bytes, IsByte, IsBytes}
use seclab_suite_protocol_si.Base.Text.{Text, text_eq}
use seclab_suite_protocol_si.Base.Text.Utf8.{utf8}
use seclab_suite_protocol_si.Report.{Peer, Site}
use seclab_suite_protocol_si.Snmp.Mib.{SimSnmpConfig, Values, build_values}
use seclab_suite_protocol_si.Snmp.Mib.Build.{
  CustomEncodable, IsServable, KeysEncodable, build_values-IsServable,
}
use seclab_suite_protocol_si.Snmp.Request.{SnmpRequest, parse_request}
use seclab_suite_protocol_si.Snmp.Response.Total.{build_response-parse_request}
use seclab_suite_protocol_si.Snmp.Server.{
  Arrival, Run, Runtime, TaskError, answer, datagram, handle_datagram, max_message_size,
  receive_failed, receive_failure, runtime_of, send_failure, send_response, serve,
  start_snmp_simulation, then_run,
}
use seclab_suite_protocol_si.Snmp.Response.{build_response}

IsBytes-take : (n : ℕ) (bytes : Bytes) → IsBytes bytes → IsBytes (take n bytes)
unfolding IsBytes
IsBytes-take n bytes h = All-take IsByte n bytes h

-- A datagram of bytes; an error of the socket is no condition.
abbrev pub IsByteArrival : Arrival → Type 0
IsByteArrival (datagram peer bytes sends) = IsBytes bytes
IsByteArrival receive_failed = Unit

-- The arrival ends the task with the error, and the error is one of the socket: a failed receive, or
-- the refused send of the response to a request of the community that the datagram holds.
abbrev pub IsSocketFailure : Runtime → TaskError → Arrival → Type 0
IsSocketFailure runtime e receive_failed = e ≡ receive_failure
IsSocketFailure runtime e (datagram peer bytes sends) =
    (request : SnmpRequest) × (response : Bytes) × (e ≡ send_failure)
    × (parse_request (take max_message_size bytes) ≡ ok request)
    × (text_eq request.community (utf8 runtime.community) ≡ true)
    × (build_response request runtime.values ≡ ok response)
    × (sends response ≡ false)

-- How a run ends: by itself, or with an error of the socket at one of the arrivals.
abbrev pub EndsBySocket : Runtime → List Arrival → Option TaskError → Type 0
EndsBySocket runtime arrivals none = Unit
EndsBySocket runtime arrivals (some e) =
    (arrival : Arrival) × IsIn arrival arrivals × IsSocketFailure runtime e arrival

abbrev FailsAt : Runtime → Arrival → Option TaskError → Type 0
FailsAt runtime arrival none = Unit
FailsAt runtime arrival (some e) = IsSocketFailure runtime e arrival

answer_survives :
    (runtime : Runtime) (peer : Peer) (bytes : Bytes) (sends : Bytes → Bool) (request : SnmpRequest)
    → IsBytes (take max_message_size bytes)
    → KeysEncodable runtime.values
    → parse_request (take max_message_size bytes) ≡ ok request
    → FailsAt runtime (datagram peer bytes sends) (answer runtime peer sends request).failure
unfolding answer send_response
answer_survives runtime peer bytes sends request is keys e =
    let cut = take max_message_size bytes in
    let (response, r) = build_response-parse_request cut runtime.values request is keys e in
    elim (Bool-cases (text_eq request.community (utf8 runtime.community))) [
      | inl allowed ↦ elim (Bool-cases (sends response)) [
        | inl passes ↦ rw (allowed, r, passes) tt
        | inr refused ↦ rw (allowed, r, refused) (request, response, refl, e, allowed, r, refused)
      ]
      | inr rejected ↦ rw rejected tt
    ]

handle_datagram_survives :
    (runtime : Runtime) (arrival : Arrival)
    → IsByteArrival arrival
    → KeysEncodable runtime.values
    → FailsAt runtime arrival (handle_datagram runtime arrival).failure
unfolding handle_datagram
handle_datagram_survives runtime receive_failed is keys = refl
handle_datagram_survives runtime (datagram peer bytes sends) is keys =
    let cut = take max_message_size bytes in
    elim (Result-cases (parse_request cut)) [
      | inl (request, e) ↦
          rw (e, handle_datagram)
            (answer_survives runtime peer bytes sends request
              (IsBytes-take max_message_size bytes is) keys e)
      | inr (x, e) ↦ rw (e, handle_datagram) tt
    ]

then_run-EndsBySocket :
    (runtime : Runtime) (arrival : Arrival) (arrivals : List Arrival) (now later : Run)
    → FailsAt runtime arrival now.failure
    → EndsBySocket runtime arrivals later.failure
    → EndsBySocket runtime (arrival ∷ arrivals) (then_run now later).failure
then_run-EndsBySocket runtime arrival arrivals now later = elim (Option-cases now.failure) [
  | inr (e, f) ↦ rw f (λ h k. (arrival, inl refl, h))
  | inl f ↦ rw f (λ h k. behind later.failure k)
]
  where
    behind :
        (failure : Option TaskError)
        → EndsBySocket runtime arrivals failure
        → EndsBySocket runtime (arrival ∷ arrivals) failure
    behind none k = tt
    behind (some e) (other, member, k) = (other, inr member, k)

serve_survives :
    (runtime : Runtime) (arrivals : List Arrival)
    → All IsByteArrival arrivals
    → KeysEncodable runtime.values
    → EndsBySocket runtime arrivals (serve runtime arrivals).failure
unfolding serve
serve_survives runtime [] is keys = tt
serve_survives runtime (arrival ∷ arrivals) is keys =
    then_run-EndsBySocket runtime arrival arrivals (handle_datagram runtime arrival)
      (serve runtime arrivals) (handle_datagram_survives runtime arrival is.0 keys)
      (serve_survives runtime arrivals is.1 keys)

-- With a configuration whose identifiers can all be encoded and whose values can be built, and
-- whatever clients send, the task ends with an error only by the socket: an error of a receive, or the
-- refused send of the response to a request with the right community. No datagram of bytes, malformed
-- or not, makes the codec's own errors end it.
pub start_snmp_simulation_survives :
    (site : Site) (endpoint_id : Text) (config : SimSnmpConfig) (values : Values)
    (arrivals : List Arrival)
    → CustomEncodable (unwrap_or config.oids [])
    → build_values config ≡ ok values
    → All IsByteArrival arrivals
    → EndsBySocket
        (runtime_of site endpoint_id config values)
        arrivals
        (start_snmp_simulation site endpoint_id config arrivals).failure
unfolding start_snmp_simulation
start_snmp_simulation_survives site endpoint_id config values arrivals c e is =
    rw (e, start_snmp_simulation)
      (serve_survives _ arrivals is
        (Ensures-ok IsServable (build_values config) (build_values-IsServable config c) e).1)
