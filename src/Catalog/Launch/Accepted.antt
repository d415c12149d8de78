-- ===== src/Catalog/Launch/Accepted.antt =====
-- Which launches are accepted.
use seclab_suite_protocol_si.Base.{
  All, IsIn, List, Option-cases, Result-cases, [], arith, false, find, find-IsIn, inl, inr,
  is_empty, not, ok, ok-injective, refl, subst, sym, true, ◌==◌, ◌||◌, ◌∙◌, ◌∷◌, ◌≡◌,
}
use seclab_suite_protocol_si.Base.Text.{Text, text_eq, text_eq_refl, text_eq_sound}
use seclab_suite_protocol_si.Catalog.{
  EndpointSpec, TransportProtocol, endpoints_of, protocol_descriptor, tcp, udp,
}
use seclab_suite_protocol_si.Catalog.Launch.{
  BoundEndpoint, EngineLaunchConfig, LaunchError, check_endpoints, check_required, same_transport,
  validated_endpoints,
}

same_transport_sound : (s t : TransportProtocol) → same_transport s t ≡ true → s ≡ t
same_transport_sound tcp tcp h = refl
same_transport_sound tcp udp h = cc
same_transport_sound udp tcp h = cc
same_transport_sound udp udp h = refl

-- What an endpoint shares with the spec that it is bound for.
abbrev pub Fits : EndpointSpec → BoundEndpoint → Type 0
Fits spec endpoint =
    (spec.id ≡ endpoint.endpoint_id)
    × (endpoint.transport ≡ spec.transport)
    × (endpoint.container_port ≡ spec.container_port)

abbrev pub FitsOneOf : List EndpointSpec → BoundEndpoint → Type 0
FitsOneOf specs endpoint = (spec : EndpointSpec) × IsIn spec specs × Fits spec endpoint

fits :
    (spec : EndpointSpec) (endpoint : BoundEndpoint)
    → text_eq spec.id endpoint.endpoint_id ≡ true
    → (not (same_transport endpoint.transport spec.transport)
        || not (endpoint.container_port == spec.container_port))
      ≡ false
    → Fits spec endpoint
fits spec endpoint h k = ground (
  arith,
  text_eq_sound spec.id endpoint.endpoint_id,
  same_transport_sound endpoint.transport spec.transport,
)

check_endpoints-FitsOneOf :
    (specs : List EndpointSpec) (seen : List Text) (endpoints : List BoundEndpoint)
    {result : List Text}
    → check_endpoints specs seen endpoints ≡ ok result
    → All (FitsOneOf specs) endpoints
unfolding check_endpoints
check_endpoints-FitsOneOf specs seen [] h = tt
check_endpoints-FitsOneOf specs seen (endpoint ∷ endpoints) {result} h =
    let test = λ (candidate : EndpointSpec). text_eq candidate.id endpoint.endpoint_id in
    elim (Option-cases (find test specs)) [
      | inl missing ↦ ground arith
      | inr (spec, found) ↦
          let (named, inside) = find-IsIn test specs found in
          (
            (spec, inside, fits spec endpoint named (ground arith)),
            check_endpoints-FitsOneOf specs (endpoint.endpoint_id ∷ seen) endpoints
                {result = result} (ground arith),
          )
    ]

-- Every endpoint of an accepted launch carries the identifier, the transport and the container port of
-- an endpoint of the protocol's descriptor, and the launch's endpoints are returned unchanged.
pub validated_endpoints-FitsOneOf :
    {Behavior : Type 0} (config : EngineLaunchConfig Behavior) {endpoints : List BoundEndpoint}
    → validated_endpoints config ≡ ok endpoints
    → (endpoints ≡ config.endpoints)
      × All (FitsOneOf (protocol_descriptor config.protocol).endpoints) endpoints
unfolding validated_endpoints
validated_endpoints-FitsOneOf config {endpoints} h =
    let specs = endpoints_of config.protocol in
    elim (Result-cases (check_endpoints specs [] config.endpoints)) [
      | inl (seen, checked) ↦ elim (Result-cases (check_required seen specs)) [
        | inl (_, present) ↦
            let same = ok-injective {E = LaunchError} endpoints config.endpoints (ground arith) in
            (
              same,
              subst (All (FitsOneOf specs)) (sym same)
                  (check_endpoints-FitsOneOf specs [] config.endpoints checked),
            )
        | inr (x, absent) ↦ ground arith
      ]
      | inr (x, refused) ↦ ground arith
    ]

FitsOneOf-single :
    (spec : EndpointSpec) (endpoint : BoundEndpoint)
    → FitsOneOf (spec ∷ []) endpoint
    → Fits spec endpoint
FitsOneOf-single spec endpoint (same, inl e, fit) = subst (λ s. Fits s endpoint) e fit
FitsOneOf-single spec endpoint (same, inr impossible, fit) = absurd impossible

check_endpoints-single :
    (spec : EndpointSpec) (endpoints : List BoundEndpoint) {result : List Text}
    → check_endpoints (spec ∷ []) [] endpoints ≡ ok result
    → is_empty endpoints ≡ false
    → (endpoint : BoundEndpoint) × (endpoints ≡ endpoint ∷ []) × Fits spec endpoint
unfolding check_endpoints
check_endpoints-single spec [] h k = cc
check_endpoints-single spec (endpoint ∷ []) h k = (
  endpoint,
  refl,
  FitsOneOf-single spec endpoint (check_endpoints-FitsOneOf (spec ∷ []) [] (endpoint ∷ []) h).0,
)
check_endpoints-single spec (endpoint ∷ second ∷ more) h k =
    let (a, later) = check_endpoints-FitsOneOf (spec ∷ []) [] (endpoint ∷ second ∷ more) h in
    let named = (FitsOneOf-single spec endpoint a).0 in
    let renamed = (FitsOneOf-single spec second later.0).0 in
    let same =
      subst (λ t. text_eq second.endpoint_id t ≡ true) (sym renamed ∙ named)
        (text_eq_refl second.endpoint_id) in
    absurd (ground arith)

-- An accepted launch of a protocol whose descriptor has one endpoint has one endpoint: that one,
-- bound to some host port.
pub validated_endpoints-single :
    {Behavior : Type 0} (config : EngineLaunchConfig Behavior) {endpoints : List BoundEndpoint}
    → validated_endpoints config ≡ ok endpoints
    → (spec : EndpointSpec) → endpoints_of config.protocol ≡ spec ∷ []
    → (endpoint : BoundEndpoint) × (endpoints ≡ endpoint ∷ []) × Fits spec endpoint
unfolding validated_endpoints
validated_endpoints-single config {endpoints} h spec only =
    elim (Result-cases (check_endpoints (spec ∷ []) [] config.endpoints)) [
      | inl (seen, checked) ↦
          let (same, each) = validated_endpoints-FitsOneOf config {endpoints = endpoints} h in
          subst (λ l. (endpoint : BoundEndpoint) × (l ≡ endpoint ∷ []) × Fits spec endpoint)
            (sym same) (check_endpoints-single spec config.endpoints checked (ground arith))
      | inr (x, refused) ↦ ground arith
    ]
