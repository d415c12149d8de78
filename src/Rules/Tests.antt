-- ===== src/Rules/Tests.antt =====
-- A package of one rule.
use seclab_suite_protocol_si.Base.{
  [], arith, drop, err, false, if◌then◌else◌, is_empty, length, none, ok, refl, replicate, some,
  take, true, ◌&&◌, ◌<◌, ◌∷◌, ◌≡◌, ◌≢◌, ◌≤◌,
}
use seclab_suite_protocol_si.Base.Bits.{Bytes}
use seclab_suite_protocol_si.Base.Int.{pos}
use seclab_suite_protocol_si.Base.Text.{Text, codes, text_eq}
use seclab_suite_protocol_si.Rules.{
  Crates, Entry, ImportedRulePackage, SimRulePackageProto, SimRuleProto, max_rule_count,
  out_of_fuel,
}
use seclab_suite_protocol_si.Rules.Archive.{read_archive}
use seclab_suite_protocol_si.Rules.Signature.{decode_public_key, key_fuel}
use seclab_suite_protocol_si.Rules.Package.{parse_slrp_with_public_key}
use seclab_suite_protocol_si.Rules.Accepted.{AreImported, IsSigned, parse_slrp-IsSigned}
use seclab_suite_protocol_si.Rules.Keys.{decode_public_key-ne-out_of_fuel}

abbrev rule : SimRuleProto
rule = record {
  id = pos 7;
  name = codes "n";
  name_en = codes "e";
  cve = none;
  category = codes "c";
  description_zh = [];
  description_en = [];
  protocol = codes "redis";
  default_port = none;
  config_json = codes "{}";
  endpoints =
      record {
        id = codes "main";
        transport = codes "tcp";
        container_port = pos 6379;
        default_host_port = pos 16379;
        required = true;
      }
      ∷ [];
}

abbrev decoded_package : SimRulePackageProto
decoded_package = record {
  manifest = some (record {
    package_id = codes "seclab-sim-rules";
    version = codes "1.0.0";
    ruleset_format_version = pos 1;
    min_seclab_version = codes "1.0.0";
    generated_at = pos 0;
    rule_count = pos 1;
    schema_version = pos 1;
  });
  rules = rule ∷ [];
}

-- A regular file of an archive.
abbrev file : Text → Bytes → Entry
file path content = record { path = some path; is_file = true; read = λ n. some (take n content) }

-- Crates that know one package, one key and one signature.
abbrev crates : Crates (Unit {0})
crates = record {
  entries = λ bytes. some (
      some (file (codes "rules.bin") bytes) ∷ some (file (codes "rules.bin.sig") (codes "s")) ∷ []);
  decode_base64 =
      λ t. if text_eq t (codes "k") then some (replicate 32 1) else some (replicate 64 2);
  blake2b = λ message. message;
  verify =
      λ key message signature. text_eq key (replicate 32 1) && text_eq signature (replicate 64 2);
  decode_package = λ bytes. some decoded_package;
  is_version = λ t. true;
  timestamp_text = λ t. some (codes "1970");
  now_text = codes "2020";
  parse_json = λ t. some tt;
  round_trip = λ type_of behavior. some behavior;
  to_string_pretty = λ fields. some (codes "{}");
}

abbrev imported_package : ImportedRulePackage
imported_package = record {
  package_id = codes "seclab-sim-rules";
  version = codes "1.0.0";
  ruleset_format_version = pos 1;
  min_seclab_version = codes "1.0.0";
  generated_at = codes "1970";
  rules =
      record {
        id = codes "sim-rule-7";
        name = codes "n";
        name_en = codes "e";
        protocol = codes "redis";
        default_port = 16379;
        config_json = codes "{}";
      }
      ∷ [];
}

accepted : parse_slrp_with_public_key crates (1 ∷ 2 ∷ []) (codes "k") ≡ ok imported_package
unfolding parse_slrp_with_public_key
accepted = refl

parse_slrp-IsSigned_example :
    (rules_bin : Bytes) × (signature_text : Text) × (decoded : SimRulePackageProto) × (read_archive
        crates
        (1 ∷ 2 ∷ [])
      ≡ ok (rules_bin, signature_text))
    × IsSigned crates (codes "k") rules_bin
    × (crates.decode_package rules_bin ≡ some decoded)
    × (1 ≤ length decoded.rules)
    × (length decoded.rules ≤ max_rule_count)
    × AreImported decoded.rules imported_package.rules
parse_slrp-IsSigned_example = parse_slrp-IsSigned crates (1 ∷ 2 ∷ []) (codes "k") accepted

-- Crates whose Base64 takes the first character away.
abbrev shrinking : Crates (Unit {0})
shrinking = record crates { decode_base64 = λ t. some (drop 1 t) }

shrinks :
    (payload : Text) (decoded : Bytes)
    → shrinking.decode_base64 payload ≡ some decoded
    → is_empty payload ≡ false
    → length decoded < length payload
shrinks [] decoded h full = cc
shrinks (c ∷ t) decoded h full = ground arith

decode_public_key-ne-out_of_fuel_example :
    decode_public_key shrinking
      (key_fuel (codes "xminisign public key"))
      (codes "xminisign public key")
    ≢ err out_of_fuel
decode_public_key-ne-out_of_fuel_example =
    decode_public_key-ne-out_of_fuel shrinking shrinks (codes "xminisign public key")
