-- ===== src/Rules/Described.antt =====
-- Which endpoints of a rule are accepted.
use seclab_suite_protocol_si.Base.{
  ==_iff, >>=-eq-ok, All, Bool, IsIn, List, Option, [], bail_if-ok, context-ok, false, find-IsIn,
  length, none, not, ok, refl, some, true, ℕ, ◌==◌, ◌||◌, ◌∷◌, ◌≡◌,
}
use seclab_suite_protocol_si.Base.Int.{int_eq, int_eq_sound, pos, u16_try_from}
use seclab_suite_protocol_si.Base.Text.{text_eq, text_eq_sound}
use seclab_suite_protocol_si.Catalog.{EndpointSpec}
use seclab_suite_protocol_si.Rules.{
  RuleEndpointProto, SimRuleProto, check_rule_endpoints, is_invalid, is_some, same_flag,
  transport_text, validate_rule_endpoints,
}

-- An endpoint of the rule is as its description says, and its host port is a port.
abbrev pub IsAsDescribed : RuleEndpointProto → EndpointSpec → Type 0
IsAsDescribed actual spec =
    (actual.id ≡ spec.id)
    × (actual.transport ≡ transport_text spec.transport)
    × (actual.container_port ≡ pos spec.container_port)
    × (actual.required ≡ spec.required)
    × ((port : ℕ) × (u16_try_from actual.default_host_port ≡ some port))

abbrev pub IsDeclared : SimRuleProto → EndpointSpec → Type 0
IsDeclared rule spec =
    (actual : RuleEndpointProto) × IsIn actual rule.endpoints × IsAsDescribed actual spec

pub not-false : (b : Bool) → not b ≡ false → b ≡ true
not-false true h = refl
not-false false h = cc

pub same_flag_sound : (a b : Bool) → same_flag a b ≡ true → a ≡ b
same_flag_sound true true h = refl
same_flag_sound true false h = cc
same_flag_sound false true h = cc
same_flag_sound false false h = refl

pub is_some_value : {A : Type 0} (o : Option A) → is_some o ≡ true → (a : A) × (o ≡ some a)
is_some_value none h = cc
is_some_value (some a) h = (a, refl)

pub or_false : (a b : Bool) → (a || b) ≡ false → (a ≡ false) × (b ≡ false)
or_false true b h = cc
or_false false b h = (refl, h)

pub valid-IsAsDescribed :
    (actual : RuleEndpointProto) (spec : EndpointSpec)
    → text_eq actual.id spec.id ≡ true
    → is_invalid actual spec ≡ false
    → IsAsDescribed actual spec
unfolding is_invalid
valid-IsAsDescribed actual spec named valid =
    let transport = text_eq actual.transport (transport_text spec.transport) in
    let container = int_eq actual.container_port (pos spec.container_port) in
    let flag = same_flag actual.required spec.required in
    let port = is_some (u16_try_from actual.default_host_port) in
    let (first_three, d) =
      or_false ((not transport || not container) || not flag) (not port) valid in
    let (first_two, c) = or_false (not transport || not container) (not flag) first_three in
    let (a, b) = or_false (not transport) (not container) first_two in
    (
      text_eq_sound actual.id spec.id named,
      text_eq_sound actual.transport (transport_text spec.transport) (not-false transport a),
      int_eq_sound actual.container_port (pos spec.container_port) (not-false container b),
      same_flag_sound actual.required spec.required (not-false flag c),
      is_some_value (u16_try_from actual.default_host_port) (not-false port d),
    )

pub check_rule_endpoints-IsDeclared :
    (rule : SimRuleProto) (expected : List EndpointSpec) {u : Unit {0}}
    → check_rule_endpoints rule expected ≡ ok u
    → All (IsDeclared rule) expected
unfolding check_rule_endpoints
check_rule_endpoints-IsDeclared rule [] h = tt
check_rule_endpoints-IsDeclared rule (spec ∷ expected) h =
    let (actual, found, rest) = >>=-eq-ok _ _ h in
    let test = λ (candidate : RuleEndpointProto). text_eq candidate.id spec.id in
    let (named, inside) = find-IsIn test rule.endpoints (context-ok _ _ found) in
    let (u, valid, others) = >>=-eq-ok _ _ rest in
    (
      (actual, inside, valid-IsAsDescribed actual spec named (bail_if-ok _ _ valid)),
      check_rule_endpoints-IsDeclared rule expected others,
    )

pub validate_rule_endpoints-IsDeclared :
    (rule : SimRuleProto) (expected : List EndpointSpec) {u : Unit {0}}
    → validate_rule_endpoints rule expected ≡ ok u
    → (length rule.endpoints ≡ length expected) × All (IsDeclared rule) expected
unfolding validate_rule_endpoints
validate_rule_endpoints-IsDeclared rule expected h =
    let (u, same, checked) = >>=-eq-ok _ _ h in
    (
      (==_iff (length rule.endpoints) (length expected)).0
          (not-false (length rule.endpoints == length expected) (bail_if-ok _ _ same)),
      check_rule_endpoints-IsDeclared rule expected checked,
    )
