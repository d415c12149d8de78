-- ===== src/Catalog/Launch.antt =====
-- The validation of a launch: crates/protocol-simulation-engine/src/main.rs lines 101 to 136, and the
-- configuration it reads, crates/protocol-simulation-common/src/lib.rs lines 375 to 396.
pub mod Accepted
pub mod Complete
use seclab_suite_protocol_si.Base.{
  Bool, List, Result, [], bail_if, context, false, find, is_empty, not, ok, true, ℕ, ◌&&◌, ◌==◌,
  ◌>>=◌, ◌>>◌, ◌||◌, ◌∷◌,
}
use seclab_suite_protocol_si.Base.Text.{Text, is_one_of, text_eq}
use seclab_suite_protocol_si.Catalog.{
  EndpointSpec, ProtocolId, TransportProtocol, protocol_descriptor, tcp, udp,
}

pub record BoundEndpoint : Type 0 where
  pub endpoint_id : Text
  pub transport : TransportProtocol
  pub host_port : ℕ
  pub container_port : ℕ

-- The behavior, a JSON value, is of the type `Behavior`.
pub record EngineLaunchConfig (Behavior : Type 0) : Type 0 where
  pub schema_version : ℕ
  pub protocol : ProtocolId
  pub rule_id : Text
  pub rule_name : Text
  pub instance_id : Text
  pub callback_url : Text
  pub callback_token : Text
  pub endpoints : List BoundEndpoint
  pub behavior : Behavior

pub data LaunchError : Type 0 where
  no_endpoint : LaunchError
  duplicate_endpoint unknown_endpoint mismatched_endpoint missing_endpoint : Text → LaunchError

-- `==`
abbrev pub same_transport : TransportProtocol → TransportProtocol → Bool
same_transport tcp tcp = true
same_transport udp udp = true
same_transport _ _ = false

-- The first loop: `seen` becomes the identifiers of the endpoints.
unfoldable pub check_endpoints :
    List EndpointSpec → List Text → List BoundEndpoint → Result LaunchError (List Text)
unfolding text_eq
check_endpoints specs seen [] = ok seen
check_endpoints specs seen (endpoint ∷ endpoints) = do
  bail_if (is_one_of endpoint.endpoint_id seen) (duplicate_endpoint endpoint.endpoint_id)
  expected ←
      context (find (λ candidate. text_eq candidate.id endpoint.endpoint_id) specs)
        (unknown_endpoint endpoint.endpoint_id)
  bail_if
      (not (same_transport endpoint.transport expected.transport)
        || not (endpoint.container_port == expected.container_port))
      (mismatched_endpoint endpoint.endpoint_id)
  check_endpoints specs (endpoint.endpoint_id ∷ seen) endpoints

-- The second loop.
unfoldable pub check_required : List Text → List EndpointSpec → Result LaunchError (Unit {0})
unfolding text_eq
check_required seen [] = ok tt
check_required seen (expected ∷ specs) = do
  bail_if (expected.required && not (is_one_of expected.id seen)) (missing_endpoint expected.id)
  check_required seen specs

unfoldable pub validated_endpoints :
    {Behavior : Type 0} → EngineLaunchConfig Behavior → Result LaunchError (List BoundEndpoint)
unfolding protocol_descriptor
validated_endpoints config = do
  bail_if (is_empty config.endpoints) no_endpoint
  let descriptor = protocol_descriptor config.protocol
  seen ← check_endpoints descriptor.endpoints [] config.endpoints
  _ ← check_required seen descriptor.endpoints
  ok config.endpoints
