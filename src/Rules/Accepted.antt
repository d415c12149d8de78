-- ===== src/Rules/Accepted.antt =====
-- Which packages are accepted.
use seclab_suite_protocol_si.Base.{
  >>=-eq-ok, All, List, Result, [], ap, arith, bail_if-ok, context, context-ok, err, false,
  if-keeps, if◌then◌else◌, inl, inr, length, ok, ok-injective, refl, some, subst, sym, true, ℕ,
  ◌++◌, ◌∷◌, ◌≡◌, ◌≢◌, ◌≤◌, ◌⊎◌,
}
use seclab_suite_protocol_si.Base.Bits.{Bytes}
use seclab_suite_protocol_si.Base.Int.{in_range_from_one, int_eq, int_eq_refl, int_text, ℤ}
use seclab_suite_protocol_si.Base.Text.{Text, codes}
use seclab_suite_protocol_si.Catalog.{ProtocolId, from_str, protocol_descriptor}
use seclab_suite_protocol_si.Rules.{
  Crates, ImportedRule, ImportedRulePackage, RuleError, RulePackageManifestProto,
  SimRulePackageProto, SimRuleProto, bad_package, bad_signature, default_rule_host_port,
  max_rule_count,
}
use seclab_suite_protocol_si.Rules.Signature.{
  decode_public_key, decode_signature, key_fuel, verify_detached_signature,
}
use seclab_suite_protocol_si.Rules.Package.{
  check_manifest, config_json_of, import_payload, import_rule, is_seen, parse_slrp_with_public_key,
  rule_loop, unknown_if_err,
}
use seclab_suite_protocol_si.Rules.Described.{
  IsDeclared, not-false, or_false, validate_rule_endpoints-IsDeclared,
}
use seclab_suite_protocol_si.Rules.Archive.{read_archive}

abbrev pub FitsProtocol : SimRuleProto → Type 0
FitsProtocol rule =
    (protocol : ProtocolId) × (from_str rule.protocol ≡ ok protocol)
    × (length rule.endpoints ≡ length (protocol_descriptor protocol).endpoints)
    × All (IsDeclared rule) (protocol_descriptor protocol).endpoints

-- The rule that is imported for a rule.
abbrev pub IsImportOf : SimRuleProto → ImportedRule → Type 0
IsImportOf rule imported =
    (imported.id ≡ codes "sim-rule-" ++ int_text rule.id)
    × (imported.protocol ≡ rule.protocol)
    × (default_rule_host_port rule ≡ some imported.default_port)

-- Rule for rule; the identifiers are in the partition and differ from those behind.
abbrev pub AreImported : List SimRuleProto → List ImportedRule → Type 0
AreImported [] [] = Unit
AreImported (rule ∷ rules) (imported ∷ others) =
    (in_range_from_one 1000000 rule.id ≡ true)
    × All (λ (other : SimRuleProto). ◌≢◌ {A = ℤ} rule.id other.id) rules
    × FitsProtocol rule
    × IsImportOf rule imported
    × AreImported rules others
AreImported _ _ = ⊥

-- The payload is signed with the key, as it is or by its hash.
abbrev pub IsSigned : {Json : Type 0} → Crates Json → Text → Bytes → Type 0
IsSigned crates public_key_text rules_bin =
    (public_key message signature : Bytes) × (decode_public_key crates (key_fuel public_key_text)
        public_key_text
      ≡ ok public_key)
    × ((message ≡ rules_bin) ⊎ (message ≡ crates.blake2b rules_bin))
    × (crates.verify public_key message signature ≡ true)

unknown_if_err-ok : {A : Type 0} (r : Result Text A) {a : A} → unknown_if_err r ≡ ok a → r ≡ ok a
unknown_if_err-ok (ok b) {a} h = ap ok (ok-injective {E = RuleError} b a h)
unknown_if_err-ok (err value) h = cc

different_ids : (i j : ℤ) → int_eq j i ≡ false → ◌≢◌ {A = ℤ} i j
different_ids i j other same =
    let itself : int_eq i i ≡ false = subst (λ k. int_eq k i ≡ false) (sym same) other in
    let refl_test = int_eq_refl i in cc

-- The identifiers that are not among one and others.
unseen_split :
    (rule : SimRuleProto) (rule_ids : List ℤ) (rules : List SimRuleProto)
    → All (λ (other : SimRuleProto). is_seen other.id (rule.id ∷ rule_ids) ≡ false) rules
    → All (λ (other : SimRuleProto). ◌≢◌ {A = ℤ} rule.id other.id) rules
      × All (λ (other : SimRuleProto). is_seen other.id rule_ids ≡ false) rules
unseen_split rule rule_ids [] h = (tt, tt)
unseen_split rule rule_ids (other ∷ rules) (unseen, h) =
    let (different, rest) = or_false (int_eq other.id rule.id) (is_seen other.id rule_ids) unseen in
    let (all_different, all_unseen) = unseen_split rule rule_ids rules h in
    ((different_ids rule.id other.id different, all_different), (rest, all_unseen))

module _ {Json : Type 0} (crates : Crates Json) where
  import_rule-IsImportOf :
      (rule : SimRuleProto) {imported : ImportedRule}
      → import_rule crates rule ≡ ok imported
      → FitsProtocol rule × IsImportOf rule imported
  unfolding import_rule
  import_rule-IsImportOf rule {imported} h =
      let (protocol, named, a) = >>=-eq-ok _ _ h in
      let (u, declared, b) = >>=-eq-ok _ _ a in
      let (default_port, port, c) = >>=-eq-ok _ _ b in
      let (config_json, printed, f) = >>=-eq-ok (config_json_of crates rule protocol) _ c in
      let made = ok-injective _ imported f in
      let (same, all_declared) =
        validate_rule_endpoints-IsDeclared rule (protocol_descriptor protocol).endpoints declared in
      (
        (protocol, unknown_if_err-ok (from_str rule.protocol) named, same, all_declared),
        subst (IsImportOf rule) made (refl, refl, context-ok _ _ port),
      )

  rule_loop-AreImported :
      (rule_ids : List ℤ) (rules : List SimRuleProto) {imported : List ImportedRule}
      → rule_loop crates rule_ids rules ≡ ok imported
      → AreImported rules imported
        × All (λ (rule : SimRuleProto). is_seen rule.id rule_ids ≡ false) rules
  unfolding rule_loop
  rule_loop-AreImported rule_ids [] {imported} h =
      (subst (AreImported []) (ok-injective {E = RuleError} [] imported h) tt, tt)
  rule_loop-AreImported rule_ids (rule ∷ rules) {imported} h =
      let (u, inside, a) = >>=-eq-ok _ _ h in
      let (v, fresh, b) = >>=-eq-ok _ _ a in
      let (one, converted, c) = >>=-eq-ok _ _ b in
      let (others, looped, d) = >>=-eq-ok _ _ c in
      let (fits_protocol, import) = import_rule-IsImportOf rule converted in
      let (rest, unseen) = rule_loop-AreImported (rule.id ∷ rule_ids) rules looped in
      let (different, still_unseen) = unseen_split rule rule_ids rules unseen in
      let made : AreImported (rule ∷ rules) (one ∷ others) = (
        not-false (in_range_from_one 1000000 rule.id) (bail_if-ok _ _ inside),
        different,
        fits_protocol,
        import,
        rest,
      ) in
      (
        subst (AreImported (rule ∷ rules)) (ok-injective {E = RuleError} (one ∷ others) imported d)
            made,
        (bail_if-ok _ _ fresh, still_unseen),
      )

  check_manifest-bounds :
      (manifest : RulePackageManifestProto) (count : ℕ) {u : Unit {0}}
      → check_manifest crates manifest count ≡ ok u
      → (1 ≤ count) × (count ≤ max_rule_count)
  unfolding check_manifest
  check_manifest-bounds manifest count h = ground arith

  import_payload-AreImported :
      (rules_bin : Bytes) {imported : ImportedRulePackage}
      → import_payload crates rules_bin ≡ ok imported
      → (decoded : SimRulePackageProto) × (crates.decode_package rules_bin ≡ some decoded)
        × (1 ≤ length decoded.rules)
        × (length decoded.rules ≤ max_rule_count)
        × AreImported decoded.rules imported.rules
  unfolding import_payload
  import_payload-AreImported rules_bin {imported} h =
      let (decoded, payload, a) = >>=-eq-ok _ _ h in
      let (manifest, present, b) = >>=-eq-ok (context decoded.manifest bad_package) _ a in
      let (u, checked, c) = >>=-eq-ok (check_manifest crates manifest (length decoded.rules)) _ b in
      let (rules, looped, d) = >>=-eq-ok (rule_loop crates [] decoded.rules) _ c in
      let (nonempty, bounded) = check_manifest-bounds manifest (length decoded.rules) checked in
      (
        decoded,
        context-ok (crates.decode_package rules_bin) bad_package payload,
        nonempty,
        bounded,
        subst (λ (p : ImportedRulePackage). AreImported decoded.rules p.rules)
            (ok-injective _ imported d) (rule_loop-AreImported [] decoded.rules looped).0,
      )

  verify_detached_signature-IsSigned :
      (public_key_text : Text) (message : Bytes) (signature_text : Text) {u : Unit {0}}
      → verify_detached_signature crates public_key_text message signature_text ≡ ok u
      → IsSigned crates public_key_text message
  unfolding verify_detached_signature
  verify_detached_signature-IsSigned public_key_text message signature_text h =
      let (public_key, key, a) = >>=-eq-ok _ _ h in
      let ((signature, prehashed), decoded, b) =
        >>=-eq-ok (decode_signature crates signature_text) _ a in
      let verified_message = if prehashed then crates.blake2b message else message in
      (
        public_key,
        verified_message,
        signature,
        key,
        if-keeps (λ (m : Bytes). (m ≡ message) ⊎ (m ≡ crates.blake2b message)) prehashed _ _
            (λ hashed. inr refl) (λ plain. inl refl),
        not-false (crates.verify public_key verified_message signature)
            (bail_if-ok _ bad_signature b),
      )

  -- A package that is accepted carries a payload that is signed with the key, as it is or by its hash; the payload
  -- has between 1 and 100000 rules with identifiers from 1 to 999999 that all differ; every rule
  -- is of a known protocol and has exactly as many endpoints as that protocol, each described one with
  -- its transport, container port and flag and with a host port; and the imported rules are made from
  -- these rules, in their order, each with a default port that the rule gives.
  pub parse_slrp-IsSigned :
      (bytes : Bytes) (public_key_text : Text) {imported : ImportedRulePackage}
      → parse_slrp_with_public_key crates bytes public_key_text ≡ ok imported
      → (rules_bin : Bytes) × (signature_text : Text) × (decoded : SimRulePackageProto)
        × (read_archive crates bytes ≡ ok (rules_bin, signature_text))
        × IsSigned crates public_key_text rules_bin
        × (crates.decode_package rules_bin ≡ some decoded)
        × (1 ≤ length decoded.rules)
        × (length decoded.rules ≤ max_rule_count)
        × AreImported decoded.rules imported.rules
  unfolding parse_slrp_with_public_key
  parse_slrp-IsSigned bytes public_key_text h =
      let ((rules_bin, signature_text), archive, a) = >>=-eq-ok (read_archive crates bytes) _ h in
      let (u, verified, b) =
        >>=-eq-ok (verify_detached_signature crates public_key_text rules_bin signature_text) _ a in
      let (decoded, payload, nonempty, bounded, imports) = import_payload-AreImported rules_bin b in
      (
        rules_bin,
        signature_text,
        decoded,
        archive,
        verify_detached_signature-IsSigned public_key_text rules_bin signature_text verified,
        payload,
        nonempty,
        bounded,
        imports,
      )
