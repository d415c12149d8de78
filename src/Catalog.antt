-- ===== src/Catalog.antt =====
-- The protocols and what is described of them, crates/protocol-simulation-common/src/lib.rs
-- lines 30 to 373.
pub mod Names
pub mod Ports
pub mod Launch
mod Tests
use Prim.Native.String.{String}
use seclab_suite_protocol_si.Base.{Bool, List, Result, [], context, false, find, map, true, ℕ, ◌∷◌}
use seclab_suite_protocol_si.Base.Text.{Text, codes, text_eq, to_ascii_uppercase}

pub data TransportProtocol : Type 0 where
  tcp udp : TransportProtocol

pub data ProtocolId : Type 0 where
  http redis smtp pop3 imap ssh ftp rdp telnet mysql : ProtocolId
  postgresql smb ldap dns mongodb memcached snmp mqtt vnc : ProtocolId

-- `ProtocolId::ALL`
abbrev pub all_protocols : List ProtocolId
all_protocols =
    http ∷ redis ∷ smtp ∷ pop3 ∷ imap ∷ ssh ∷ ftp ∷ rdp ∷ telnet ∷ mysql ∷ postgresql ∷ smb ∷ ldap
    ∷ dns ∷ mongodb ∷ memcached ∷ snmp ∷ mqtt ∷ vnc ∷ []

unfoldable pub as_str : ProtocolId → Text
as_str http = codes "http"
as_str redis = codes "redis"
as_str smtp = codes "smtp"
as_str pop3 = codes "pop3"
as_str imap = codes "imap"
as_str ssh = codes "ssh"
as_str ftp = codes "ftp"
as_str rdp = codes "rdp"
as_str telnet = codes "telnet"
as_str mysql = codes "mysql"
as_str postgresql = codes "postgresql"
as_str smb = codes "smb"
as_str ldap = codes "ldap"
as_str dns = codes "dns"
as_str mongodb = codes "mongodb"
as_str memcached = codes "memcached"
as_str snmp = codes "snmp"
as_str mqtt = codes "mqtt"
as_str vnc = codes "vnc"

-- `FromStr::from_str`: the error is the value that names no protocol.
unfoldable pub from_str : Text → Result Text ProtocolId
unfolding text_eq as_str
from_str value = context (find (λ protocol. text_eq (as_str protocol) value) all_protocols) value

pub record EndpointSpec : Type 0 where
  pub id : Text
  pub role : Text
  pub transport : TransportProtocol
  pub container_port : ℕ
  pub default_host_port : ℕ
  pub required : Bool

pub record ProtocolFieldDescriptor : Type 0 where
  pub path : Text
  pub label_key : Text
  pub kind : Text
  pub is_required : Bool
  pub secret : Bool

pub record ProtocolDescriptor : Type 0 where
  pub protocol : ProtocolId
  pub label : Text
  pub category : Text
  pub endpoints : List EndpointSpec
  pub fields : List ProtocolFieldDescriptor
  pub event_types : List Text

-- `match protocol` of `port`
unfoldable pub port_of : ProtocolId → ℕ
port_of http = 80
port_of redis = 6379
port_of smtp = 25
port_of pop3 = 110
port_of imap = 143
port_of ssh = 22
port_of ftp = 21
port_of rdp = 3389
port_of telnet = 23
port_of mysql = 3306
port_of postgresql = 5432
port_of smb = 445
port_of ldap = 389
port_of dns = 53
port_of mongodb = 27017
port_of memcached = 11211
port_of snmp = 161
port_of mqtt = 1883
port_of vnc = 5900

abbrev field : String → String → String → Bool → Bool → ProtocolFieldDescriptor
field path label_key kind required secret = record {
  path = codes path;
  label_key = codes label_key;
  kind = codes kind;
  is_required = required;
  secret = secret;
}

-- `match protocol` of `fields`
unfoldable pub fields_of : ProtocolId → List ProtocolFieldDescriptor
fields_of http = field "server_header" "serverHeader" "text" false false ∷ []
fields_of redis =
    field "banner" "banner" "text" false false
    ∷ field "require_auth" "requireAuth" "boolean" false false
    ∷ field "password" "password" "text" false true
    ∷ field "keys" "keys" "key_value" false false
    ∷ []
fields_of smtp =
    field "banner" "banner" "text" false false
    ∷ field "hostname" "hostname" "text" false false
    ∷ field "credentials" "credentials" "credentials" false true
    ∷ []
fields_of pop3 =
    field "banner" "banner" "text" false false
    ∷ field "credentials" "credentials" "credentials" false true
    ∷ []
fields_of imap =
    field "banner" "banner" "text" false false
    ∷ field "credentials" "credentials" "credentials" false true
    ∷ []
fields_of ssh =
    field "banner" "banner" "text" false false
    ∷ field "credentials" "credentials" "credentials" false true
    ∷ []
fields_of ftp =
    field "banner" "banner" "text" false false
    ∷ field "credentials" "credentials" "credentials" false true
    ∷ []
fields_of rdp =
    field "flags" "rdpFlags" "number" false false
    ∷ field "credentials" "credentials" "credentials" false true
    ∷ []
fields_of telnet =
    field "banner" "banner" "text" false false
    ∷ field "prompt" "prompt" "text" false false
    ∷ field "credentials" "credentials" "credentials" false true
    ∷ []
fields_of mysql =
    field "server_version" "serverVersion" "text" false false
    ∷ field "credentials" "credentials" "credentials" false true
    ∷ field "databases" "databases" "string_list" false false
    ∷ []
fields_of postgresql =
    field "server_version" "serverVersion" "text" false false
    ∷ field "credentials" "credentials" "credentials" false true
    ∷ field "databases" "databases" "string_list" false false
    ∷ []
fields_of smb =
    field "server_name" "serverName" "text" false false
    ∷ field "domain" "domain" "text" false false
    ∷ field "shares" "shares" "string_list" false false
    ∷ []
fields_of ldap =
    field "base_dn" "baseDn" "text" true false
    ∷ field "credentials" "credentials" "credentials" false true
    ∷ []
fields_of dns =
    field "records" "dnsRecords" "key_value" true false
    ∷ field "default_ipv4" "defaultIpv4" "text" false false
    ∷ field "ttl" "ttl" "number" false false
    ∷ []
fields_of mongodb =
    field "server_version" "serverVersion" "text" false false
    ∷ field "hostname" "hostname" "text" false false
    ∷ field "max_wire_version" "maxWireVersion" "number" false false
    ∷ []
fields_of memcached =
    field "server_version" "serverVersion" "text" false false
    ∷ field "stats" "stats" "key_value" false false
    ∷ []
fields_of snmp =
    field "community" "community" "text" false true
    ∷ field "system_description" "systemDescription" "text" false false
    ∷ field "system_name" "systemName" "text" false false
    ∷ field "system_location" "systemLocation" "text" false false
    ∷ field "oids" "oids" "key_value" false false
    ∷ []
fields_of mqtt = field "allow_anonymous" "allowAnonymous" "boolean" false false ∷ []
fields_of vnc =
    field "protocol_version" "protocolVersion" "text" false false
    ∷ field "security_types" "securityTypes" "string_list" false false
    ∷ []

-- A service endpoint.
abbrev service : String → TransportProtocol → ℕ → ℕ → EndpointSpec
service id transport container_port default_host_port = record {
  id = codes id;
  role = codes "service";
  transport = transport;
  container_port = container_port;
  default_host_port = default_host_port;
  required = true;
}

-- `match protocol` of `endpoints`
unfoldable pub endpoints_of : ProtocolId → List EndpointSpec
unfolding port_of
endpoints_of dns = service "dns-tcp" tcp 53 1053 ∷ service "dns-udp" udp 53 1053 ∷ []
endpoints_of snmp = service "main" udp (port_of snmp) (port_of snmp) ∷ []
endpoints_of protocol = service "main" tcp (port_of protocol) (port_of protocol) ∷ []

-- `match protocol` of `event_types`
unfoldable pub event_types_of : ProtocolId → List Text
event_types_of mongodb = codes "mongodb_command" ∷ []
event_types_of memcached = codes "memcached_command" ∷ []
event_types_of snmp = codes "snmp_query" ∷ []
event_types_of mqtt = codes "mqtt_connect" ∷ codes "mqtt_control" ∷ []
event_types_of vnc = codes "vnc_handshake" ∷ []
event_types_of _ =
    codes "connection"
    ∷ codes "auth_attempt"
    ∷ codes "command"
    ∷ codes "query"
    ∷ codes "exploit_attempt"
    ∷ []

unfoldable pub protocol_category : ProtocolId → Text
protocol_category http = codes "web"
protocol_category redis = codes "database"
protocol_category smtp = codes "mail"
protocol_category pop3 = codes "mail"
protocol_category imap = codes "mail"
protocol_category ssh = codes "remote_access"
protocol_category ftp = codes "remote_access"
protocol_category rdp = codes "remote_access"
protocol_category telnet = codes "remote_access"
protocol_category mysql = codes "database"
protocol_category postgresql = codes "database"
protocol_category smb = codes "enterprise"
protocol_category ldap = codes "enterprise"
protocol_category dns = codes "network"
protocol_category mongodb = codes "database"
protocol_category memcached = codes "database"
protocol_category snmp = codes "network"
protocol_category mqtt = codes "messaging"
protocol_category vnc = codes "remote_access"

unfoldable pub protocol_descriptor : ProtocolId → ProtocolDescriptor
unfolding to_ascii_uppercase as_str protocol_category endpoints_of fields_of event_types_of
protocol_descriptor protocol = record {
  protocol = protocol;
  label = to_ascii_uppercase (as_str protocol);
  category = protocol_category protocol;
  endpoints = endpoints_of protocol;
  fields = fields_of protocol;
  event_types = event_types_of protocol;
}

unfoldable pub protocol_descriptors : List ProtocolDescriptor
unfolding protocol_descriptor
protocol_descriptors = map protocol_descriptor all_protocols
