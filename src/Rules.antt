-- ===== src/Rules.antt =====
-- Rule packages, crates/protocol-simulation/src/rule_package.rs: the messages of a package, lines 13 to 103, the
-- crates that are called, and the checks of one rule, lines 254 to 291.
pub mod Archive
pub mod Signature
pub mod Package
pub mod Described
pub mod Accepted
pub mod Keys
mod Tests
use seclab_suite_protocol_si.Base.{
  Bool, List, Option, Result, [], bail_if, context, false, find, length, none, not, ok, some, true,
  ℕ, ◌*◌, ◌==◌, ◌>>=◌, ◌>>◌, ◌||◌, ◌∷◌,
}
use seclab_suite_protocol_si.Base.Bits.{Bytes}
use seclab_suite_protocol_si.Base.Int.{int_eq, pos, u16_try_from, ℤ}
use seclab_suite_protocol_si.Base.Text.{Text, codes, text_eq}
use seclab_suite_protocol_si.Catalog.{
  EndpointSpec, ProtocolId, TransportProtocol, dns, ftp, http, imap, ldap, memcached, mongodb, mqtt,
  mysql, pop3, postgresql, rdp, redis, smb, smtp, snmp, ssh, tcp, telnet, udp, vnc,
}

abbrev pub ruleset_format_version : ℤ
ruleset_format_version = pos 1

abbrev pub package_schema_version : ℤ
package_schema_version = pos 1

abbrev pub max_rules_bin_bytes : ℕ
max_rules_bin_bytes = 16 * 1024 * 1024

abbrev pub max_signature_bytes : ℕ
max_signature_bytes = 32 * 1024

abbrev pub max_rule_count : ℕ
max_rule_count = 100000

pub record RuleEndpointProto : Type 0 where
  pub id : Text
  pub transport : Text
  pub container_port : ℤ
  pub default_host_port : ℤ
  pub required : Bool

pub record SimRuleProto : Type 0 where
  pub id : ℤ
  pub name : Text
  pub name_en : Text
  pub cve : Option Text
  pub category : Text
  pub description_zh : Text
  pub description_en : Text
  pub protocol : Text
  pub default_port : Option ℤ
  pub config_json : Text
  pub endpoints : List RuleEndpointProto

pub record RulePackageManifestProto : Type 0 where
  pub package_id : Text
  pub version : Text
  pub ruleset_format_version : ℤ
  pub min_seclab_version : Text
  pub generated_at : ℤ
  pub rule_count : ℤ
  pub schema_version : ℤ

pub record SimRulePackageProto : Type 0 where
  pub manifest : Option RulePackageManifestProto
  pub rules : List SimRuleProto

pub record ImportedRule : Type 0 where
  pub id : Text
  pub name : Text
  pub name_en : Text
  pub protocol : Text
  pub default_port : ℕ
  pub config_json : Text

pub record ImportedRulePackage : Type 0 where
  pub package_id : Text
  pub version : Text
  pub ruleset_format_version : ℤ
  pub min_seclab_version : Text
  pub generated_at : Text
  pub rules : List ImportedRule

-- An entry of an archive: its path as it is shown, whether it is a regular file, and the reading of a
-- number of its bytes at most.
pub record Entry : Type 0 where
  pub path : Option Text
  pub is_file : Bool
  pub read : ℕ → Option Bytes

-- A value in the configuration of a rule.
pub data Field (Json : Type 0) : Type 0 where
  text_field : Text → Field Json
  optional_field : Option Text → Field Json
  json_field : Json → Field Json

-- The types that a behavior is read as, in crates/protocol-simulation-common/src/lib.rs.
pub data BehaviorType : Type 0 where
  http_config redis_config smtp_config pop3_config imap_config ssh_config : BehaviorType
  ftp_config rdp_config telnet_config database_config smb_config ldap_config : BehaviorType
  dns_config mongodb_config memcached_config snmp_config mqtt_config : BehaviorType
  vnc_config : BehaviorType

-- What is called of other crates, and of the code that serde derives for a type: tar and flate2, base64, blake2b_simd and ring, prost, semver, chrono
-- and serde_json.
pub record Crates (Json : Type 0) : Type 0 where
  pub entries : Bytes → Option (List (Option Entry))
  pub decode_base64 : Text → Option Bytes
  pub blake2b : Bytes → Bytes
  pub verify : Bytes → Bytes → Bytes → Bool
  pub decode_package : Bytes → Option SimRulePackageProto
  pub is_version : Text → Bool
  pub timestamp_text : ℤ → Option Text
  pub now_text : Text
  pub parse_json : Text → Option Json
  pub round_trip : BehaviorType → Json → Option Json
  pub to_string_pretty : List (Text × Field Json) → Option Text

abbrev pub behavior_type_of : ProtocolId → BehaviorType
behavior_type_of http = http_config
behavior_type_of redis = redis_config
behavior_type_of smtp = smtp_config
behavior_type_of pop3 = pop3_config
behavior_type_of imap = imap_config
behavior_type_of ssh = ssh_config
behavior_type_of ftp = ftp_config
behavior_type_of rdp = rdp_config
behavior_type_of telnet = telnet_config
behavior_type_of mysql = database_config
behavior_type_of postgresql = database_config
behavior_type_of smb = smb_config
behavior_type_of ldap = ldap_config
behavior_type_of dns = dns_config
behavior_type_of mongodb = mongodb_config
behavior_type_of memcached = memcached_config
behavior_type_of snmp = snmp_config
behavior_type_of mqtt = mqtt_config
behavior_type_of vnc = vnc_config

abbrev pub validate_behavior : {Json : Type 0} → Crates Json → ProtocolId → Json → Option Json
validate_behavior crates protocol value = crates.round_trip (behavior_type_of protocol) value

pub data RuleError : Type 0 where
  unreadable duplicate_entry not_a_file too_large unexpected_entry missing_entry : RuleError
  no_payload bad_base64 bad_payload bad_signature out_of_fuel : RuleError
  bad_package unsupported_version wrong_count too_many_rules no_rule : RuleError
  unsupported_package bad_version outside_partition duplicate_rule unknown_protocol : RuleError
  wrong_endpoints missing_endpoint invalid_endpoint : RuleError
  no_port bad_behavior : RuleError

abbrev pub is_some : {A : Type 0} → Option A → Bool
is_some none = false
is_some (some a) = true

abbrev pub port_or_none : Option RuleEndpointProto → Option ℕ
port_or_none none = none
port_or_none (some endpoint) = u16_try_from endpoint.default_host_port

abbrev pub first : {A : Type 0} → List A → Option A
first [] = none
first (a ∷ l) = some a

abbrev pub or_else : {A : Type 0} → Option A → Option A → Option A
or_else none other = other
or_else (some a) other = some a

abbrev pub own_port : Option ℤ → Option ℕ
own_port none = none
own_port (some port) = u16_try_from port

unfoldable pub default_rule_host_port : SimRuleProto → Option ℕ
unfolding text_eq
default_rule_host_port rule = or_else (own_port rule.default_port) (
    port_or_none (
      or_else (find (λ endpoint. text_eq endpoint.id (codes "main")) rule.endpoints)
        (first rule.endpoints)))

abbrev pub transport_text : TransportProtocol → Text
transport_text tcp = codes "tcp"
transport_text udp = codes "udp"

abbrev pub same_flag : Bool → Bool → Bool
same_flag true true = true
same_flag false false = true
same_flag _ _ = false

-- The test of an endpoint against its description.
unfoldable pub is_invalid : RuleEndpointProto → EndpointSpec → Bool
unfolding text_eq
is_invalid actual endpoint =
    not (text_eq actual.transport (transport_text endpoint.transport))
    || not (int_eq actual.container_port (pos endpoint.container_port))
    || not (same_flag actual.required endpoint.required)
    || not (is_some (u16_try_from actual.default_host_port))

-- The `for` loop.
unfoldable pub check_rule_endpoints : SimRuleProto → List EndpointSpec → Result RuleError (Unit {0})
unfolding is_invalid text_eq
check_rule_endpoints rule [] = ok tt
check_rule_endpoints rule (endpoint ∷ expected) = do
  actual ←
      context (find (λ candidate. text_eq candidate.id endpoint.id) rule.endpoints) missing_endpoint
  bail_if (is_invalid actual endpoint) invalid_endpoint
  check_rule_endpoints rule expected

unfoldable pub validate_rule_endpoints :
    SimRuleProto → List EndpointSpec → Result RuleError (Unit {0})
unfolding check_rule_endpoints
validate_rule_endpoints rule expected = do
  bail_if (not (length rule.endpoints == length expected)) wrong_endpoints
  check_rule_endpoints rule expected
