-- ===== src/Catalog/Ports.antt =====
-- The invariants of the descriptors.
use seclab_suite_protocol_si.Base.{
  All, Bool, List, [], arith, false, is_empty, map, not, true, ◌&&◌, ◌<◌, ◌^◌, ◌∷◌, ◌≡◌,
}
use seclab_suite_protocol_si.Base.Text.{Text, is_one_of, text_eq}
use seclab_suite_protocol_si.Catalog.{
  EndpointSpec, ProtocolDescriptor, ProtocolFieldDescriptor, ProtocolId, dns, ftp, http, imap, ldap,
  memcached, mongodb, mqtt, mysql, pop3, postgresql, protocol_descriptor, rdp, redis, smb, smtp,
  snmp, ssh, telnet, vnc,
}

-- A spec that a container can be started with.
abbrev pub IsBindable : EndpointSpec → Type 0
IsBindable spec =
    (0 < spec.container_port)
    × (spec.container_port < 2 ^ 16)
    × (0 < spec.default_host_port)
    × (spec.default_host_port < 2 ^ 16)
    × (spec.required ≡ true)

-- No element is equal to one behind it.
abbrev distinct : List Text → Bool
distinct [] = true
distinct (t ∷ ts) = not (is_one_of t ts) && distinct ts

abbrev ids : List EndpointSpec → List Text
ids = map (λ spec. spec.id)

abbrev paths : List ProtocolFieldDescriptor → List Text
paths = map (λ field. field.path)

-- What the rest of the suite relies on.
abbrev pub IsDescribed : ProtocolDescriptor → Type 0
IsDescribed descriptor =
    (is_empty descriptor.endpoints ≡ false)
    × (distinct (ids descriptor.endpoints) ≡ true)
    × All IsBindable descriptor.endpoints
    × (distinct (paths descriptor.fields) ≡ true)
    × (is_empty descriptor.event_types ≡ false)

-- The descriptor of a protocol has an endpoint, its endpoints have different identifiers, non-zero
-- 16-bit ports and are required, its fields have different paths, and it has an event type.
pub protocol_descriptor-IsDescribed :
    (protocol : ProtocolId) → IsDescribed (protocol_descriptor protocol)
unfolding protocol_descriptor text_eq
protocol_descriptor-IsDescribed http = ground arith
protocol_descriptor-IsDescribed redis = ground arith
protocol_descriptor-IsDescribed smtp = ground arith
protocol_descriptor-IsDescribed pop3 = ground arith
protocol_descriptor-IsDescribed imap = ground arith
protocol_descriptor-IsDescribed ssh = ground arith
protocol_descriptor-IsDescribed ftp = ground arith
protocol_descriptor-IsDescribed rdp = ground arith
protocol_descriptor-IsDescribed telnet = ground arith
protocol_descriptor-IsDescribed mysql = ground arith
protocol_descriptor-IsDescribed postgresql = ground arith
protocol_descriptor-IsDescribed smb = ground arith
protocol_descriptor-IsDescribed ldap = ground arith
protocol_descriptor-IsDescribed dns = ground arith
protocol_descriptor-IsDescribed mongodb = ground arith
protocol_descriptor-IsDescribed memcached = ground arith
protocol_descriptor-IsDescribed snmp = ground arith
protocol_descriptor-IsDescribed mqtt = ground arith
protocol_descriptor-IsDescribed vnc = ground arith
