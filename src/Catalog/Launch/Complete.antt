-- ===== src/Catalog/Launch/Complete.antt =====
-- The launches that bind every endpoint of the descriptor are accepted.
use seclab_suite_protocol_si.Base.{List, [], false, is_empty, map, ok, refl, subst, sym, ℕ, ◌≡◌}
use seclab_suite_protocol_si.Base.Text.{Text, text_eq}
use seclab_suite_protocol_si.Catalog.{
  EndpointSpec, ProtocolId, dns, endpoints_of, ftp, http, imap, ldap, memcached, mongodb, mqtt,
  mysql, pop3, postgresql, rdp, redis, smb, smtp, snmp, ssh, telnet, vnc,
}
use seclab_suite_protocol_si.Catalog.Launch.{
  BoundEndpoint, EngineLaunchConfig, check_endpoints, check_required, validated_endpoints,
}

-- The endpoint that binds a spec to a host port.
abbrev pub bind : (EndpointSpec → ℕ) → EndpointSpec → BoundEndpoint
bind host spec = record {
  endpoint_id = spec.id;
  transport = spec.transport;
  host_port = host spec;
  container_port = spec.container_port;
}

-- What the two loops and the first test say of endpoints.
abbrev Passes : ProtocolId → List BoundEndpoint → Type 0
Passes protocol endpoints =
    (is_empty endpoints ≡ false)
    × (seen : List Text) × (check_endpoints (endpoints_of protocol) [] endpoints ≡ ok seen)
    × (check_required seen (endpoints_of protocol) ≡ ok tt)

bind-Passes :
    (protocol : ProtocolId) (host : EndpointSpec → ℕ)
    → Passes protocol (map (bind host) (endpoints_of protocol))
unfolding endpoints_of check_endpoints check_required text_eq
bind-Passes http host = (refl, _, refl, refl)
bind-Passes redis host = (refl, _, refl, refl)
bind-Passes smtp host = (refl, _, refl, refl)
bind-Passes pop3 host = (refl, _, refl, refl)
bind-Passes imap host = (refl, _, refl, refl)
bind-Passes ssh host = (refl, _, refl, refl)
bind-Passes ftp host = (refl, _, refl, refl)
bind-Passes rdp host = (refl, _, refl, refl)
bind-Passes telnet host = (refl, _, refl, refl)
bind-Passes mysql host = (refl, _, refl, refl)
bind-Passes postgresql host = (refl, _, refl, refl)
bind-Passes smb host = (refl, _, refl, refl)
bind-Passes ldap host = (refl, _, refl, refl)
bind-Passes dns host = (refl, _, refl, refl)
bind-Passes mongodb host = (refl, _, refl, refl)
bind-Passes memcached host = (refl, _, refl, refl)
bind-Passes snmp host = (refl, _, refl, refl)
bind-Passes mqtt host = (refl, _, refl, refl)
bind-Passes vnc host = (refl, _, refl, refl)

-- A launch that binds each endpoint of its protocol's descriptor, in order, to any host port is accepted.
pub validated_endpoints-bind :
    {Behavior : Type 0} (config : EngineLaunchConfig Behavior) (host : EndpointSpec → ℕ)
    → config.endpoints ≡ map (bind host) (endpoints_of config.protocol)
    → validated_endpoints config ≡ ok config.endpoints
unfolding validated_endpoints
validated_endpoints-bind config host bound =
    let (filled, seen, checked, present) =
      subst (Passes config.protocol) (sym bound) (bind-Passes config.protocol host) in
    rw (filled, checked, present) refl
