-- ===== src/Rules/Package.antt =====
-- The parser of rule packages, rule_package.rs lines 105 to 252.
use seclab_suite_protocol_si.Base.{
  Bool, List, Result, [], any, bail_if, context, err, length, ltb, not, ok, unwrap_or, ℕ, ◌++◌,
  ◌==◌, ◌>>=◌, ◌>>◌, ◌∷◌,
}
use seclab_suite_protocol_si.Base.Bits.{Bytes}
use seclab_suite_protocol_si.Base.Int.{as_i32, in_range_from_one, int_eq, int_text, ℤ}
use seclab_suite_protocol_si.Base.Text.{Text, codes, text_eq, to_decimal}
use seclab_suite_protocol_si.Catalog.{ProtocolId, from_str, protocol_descriptor}
use seclab_suite_protocol_si.Rules.{
  Crates, Field, ImportedRule, ImportedRulePackage, RuleError, RulePackageManifestProto,
  SimRuleProto, bad_behavior, bad_package, bad_version, default_rule_host_port, duplicate_rule,
  json_field, max_rule_count, no_port, no_rule, optional_field, outside_partition,
  package_schema_version, ruleset_format_version, text_field, too_many_rules, unknown_protocol,
  unsupported_package, unsupported_version, validate_behavior, validate_rule_endpoints, wrong_count,
}
use seclab_suite_protocol_si.Rules.Archive.{read_archive}
use seclab_suite_protocol_si.Rules.Signature.{verify_detached_signature}

-- The checks of the manifest.
unfoldable pub check_manifest :
    {Json : Type 0} → Crates Json → RulePackageManifestProto → ℕ → Result RuleError (Unit {0})
unfolding text_eq
check_manifest crates manifest count = do
  bail_if (not (int_eq manifest.schema_version package_schema_version)) unsupported_version
  bail_if (not (int_eq manifest.ruleset_format_version ruleset_format_version)) unsupported_version
  bail_if (not (int_eq manifest.rule_count (as_i32 count))) wrong_count
  bail_if (ltb max_rule_count count) too_many_rules
  bail_if (count == 0) no_rule
  bail_if (not (text_eq manifest.package_id (codes "seclab-sim-rules"))) unsupported_package
  bail_if (not (crates.is_version manifest.version)) bad_version
  bail_if (not (crates.is_version manifest.min_seclab_version)) bad_version

abbrev config_fields : {Json : Type 0} → SimRuleProto → Json → List (Text × Field Json)
config_fields rule behavior =
    (codes "nameEn", text_field rule.name_en)
    ∷ (codes "category", text_field rule.category)
    ∷ (codes "cve", optional_field rule.cve)
    ∷ (codes "description", text_field rule.description_zh)
    ∷ (codes "descriptionEn", text_field rule.description_en)
    ∷ (codes "behavior", json_field behavior)
    ∷ []

-- `config_json`: the behavior is parsed and validated.
unfoldable pub config_json_of :
    {Json : Type 0} → Crates Json → SimRuleProto → ProtocolId → Result RuleError Text
config_json_of crates rule protocol = do
  behavior ← context (crates.parse_json rule.config_json) bad_behavior
  valid ← context (validate_behavior crates protocol behavior) bad_behavior
  context (crates.to_string_pretty (config_fields rule valid)) bad_behavior

abbrev pub unknown_if_err : {A : Type 0} → Result Text A → Result RuleError A
unknown_if_err (ok a) = ok a
unknown_if_err (err value) = err unknown_protocol

abbrev pub is_seen : ℤ → List ℤ → Bool
is_seen id seen = any (int_eq id) seen

-- The body of the loop, where the identifier is new.
unfoldable pub import_rule :
    {Json : Type 0} → Crates Json → SimRuleProto → Result RuleError ImportedRule
unfolding validate_rule_endpoints default_rule_host_port from_str protocol_descriptor config_json_of
    to_decimal
import_rule crates rule = do
  protocol ← unknown_if_err (from_str rule.protocol)
  validate_rule_endpoints rule (protocol_descriptor protocol).endpoints
  default_port ← context (default_rule_host_port rule) no_port
  config_json ← config_json_of crates rule protocol
  ok (record {
    id = codes "sim-rule-" ++ int_text rule.id;
    name = rule.name;
    name_en = rule.name_en;
    protocol = rule.protocol;
    default_port = default_port;
    config_json = config_json;
  })

-- The loop: `rule_ids` are the identifiers of the rules in front.
unfoldable pub rule_loop :
    {Json : Type 0}
    → Crates Json
    → List ℤ
    → List SimRuleProto
    → Result RuleError (List ImportedRule)
unfolding import_rule
rule_loop crates rule_ids [] = ok []
rule_loop crates rule_ids (rule ∷ rules) = do
  bail_if (not (in_range_from_one 1000000 rule.id)) outside_partition
  bail_if (is_seen rule.id rule_ids) duplicate_rule
  imported ← import_rule crates rule
  others ← rule_loop crates (rule.id ∷ rule_ids) rules
  ok (imported ∷ others)

-- What a payload is imported as, once its signature is verified.
unfoldable pub import_payload :
    {Json : Type 0} → Crates Json → Bytes → Result RuleError ImportedRulePackage
unfolding check_manifest rule_loop
import_payload crates rules_bin = do
  decoded ← context (crates.decode_package rules_bin) bad_package
  manifest ← context decoded.manifest bad_package
  check_manifest crates manifest (length decoded.rules)
  rules ← rule_loop crates [] decoded.rules
  ok (record {
    package_id = manifest.package_id;
    version = manifest.version;
    ruleset_format_version = manifest.ruleset_format_version;
    min_seclab_version = manifest.min_seclab_version;
    generated_at = unwrap_or (crates.timestamp_text manifest.generated_at) crates.now_text;
    rules = rules;
  })

unfoldable pub parse_slrp_with_public_key :
    {Json : Type 0} → Crates Json → Bytes → Text → Result RuleError ImportedRulePackage
unfolding read_archive verify_detached_signature import_payload
parse_slrp_with_public_key crates bytes public_key_text = do
  (rules_bin, signature_text) ← read_archive crates bytes
  verify_detached_signature crates public_key_text rules_bin signature_text
  import_payload crates rules_bin
