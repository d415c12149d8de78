-- ===== src/Snmp/Mib/Build.antt =====
-- What `build_values` makes of a configuration.
use seclab_suite_protocol_si.Base.{
  All, Bool-cases, Ensures, Ensures-bind, Ensures-of, List, [], arith, err, inl, inr, ok, refl,
  unwrap_or, ◌∷◌, ◌≡◌,
}
use seclab_suite_protocol_si.Base.Text.{Text, codes}
use seclab_suite_protocol_si.Snmp.Ber.{Ber, Oid}
use seclab_suite_protocol_si.Snmp.Ber.Oids.{IsEncodable}
use seclab_suite_protocol_si.Snmp.Mib.{
  SimSnmpConfig, Values, build_values, insert, insert_custom, oid_lt, parse_oid_text,
}
use seclab_suite_protocol_si.Snmp.Mib.Order.{IsSorted, insert-IsSorted}

-- Every key can be encoded.
abbrev pub KeysEncodable : Values → Type 0
KeysEncodable = All (λ p. IsEncodable p.0)

-- A condition on keys that an insertion keeps.
insert_keys :
    (P : Oid → Type 0) (oid : Oid) (value : Text) (values : Values)
    → P oid
    → All (λ p. P p.0) values
    → All (λ p. P p.0) (insert oid value values)
unfolding insert
insert_keys P oid value [] h all_p = (h, tt)
insert_keys P oid value ((k, v) ∷ values) h all_p = elim (Bool-cases (oid_lt oid k)) [
  | inl e ↦ rw e (h, all_p)
  | inr e ↦ rw e (elim (Bool-cases (oid_lt k oid)) [
    | inl f ↦ rw f (all_p.0, insert_keys P oid value values h all_p.1)
    | inr f ↦ rw f all_p
  ])
]

-- Every configured identifier that is a list of numbers can be encoded.
abbrev pub CustomEncodable : List (Text × Text) → Type 0
CustomEncodable = All (λ p. Ensures IsEncodable (parse_oid_text p.0))

-- Sorted, with keys that can be encoded.
abbrev pub IsServable : Values → Type 0
IsServable values = IsSorted values × KeysEncodable values

insert_custom-IsSorted :
    (custom : List (Text × Text)) (values : Values)
    → IsSorted values
    → Ensures IsSorted (insert_custom custom values)
unfolding insert_custom
insert_custom-IsSorted [] values h = h
insert_custom-IsSorted ((text, value) ∷ custom) values h =
    Ensures-bind (λ _. Unit {0}) IsSorted (parse_oid_text text) _ (Ensures-of _ _ (λ a e. tt))
      (λ oid k.
        insert_custom-IsSorted custom (insert oid value values)
          (insert-IsSorted oid value values h))

insert_custom-KeysEncodable :
    (custom : List (Text × Text)) (values : Values)
    → CustomEncodable custom
    → KeysEncodable values
    → Ensures KeysEncodable (insert_custom custom values)
unfolding insert_custom
insert_custom-KeysEncodable [] values c h = h
insert_custom-KeysEncodable ((text, value) ∷ custom) values c h =
    Ensures-bind IsEncodable KeysEncodable (parse_oid_text text) _ c.0 (λ oid k.
      insert_custom-KeysEncodable custom (insert oid value values) c.1
        (insert_keys IsEncodable oid value values k h))

-- The four standard entries.
standard_values : SimSnmpConfig → Values
standard_values config =
    (
      1 ∷ 3 ∷ 6 ∷ 1 ∷ 2 ∷ 1 ∷ 1 ∷ 1 ∷ 0 ∷ [],
      unwrap_or config.system_description (codes "Linux seclab-snmp 6.8.0"),
    )
    ∷ (1 ∷ 3 ∷ 6 ∷ 1 ∷ 2 ∷ 1 ∷ 1 ∷ 3 ∷ 0 ∷ [], codes "360000")
    ∷ (1 ∷ 3 ∷ 6 ∷ 1 ∷ 2 ∷ 1 ∷ 1 ∷ 5 ∷ 0 ∷ [], unwrap_or config.system_name (codes "snmp-seclab"))
    ∷ (1 ∷ 3 ∷ 6 ∷ 1 ∷ 2 ∷ 1 ∷ 1 ∷ 6 ∷ 0 ∷ [], unwrap_or config.system_location (codes "SecLab"))
    ∷ []

standard_values-IsSorted : (config : SimSnmpConfig) → IsSorted (standard_values config)
unfolding standard_values oid_lt
standard_values-IsSorted config =
    ((refl, (refl, (refl, tt))), ((refl, (refl, tt)), ((refl, tt), (tt, tt))))

standard_values-KeysEncodable : (config : SimSnmpConfig) → KeysEncodable (standard_values config)
unfolding standard_values IsEncodable
standard_values-KeysEncodable config = omega arith

build_values-insert_custom :
    (config : SimSnmpConfig)
    → build_values config ≡ insert_custom (unwrap_or config.oids []) (standard_values config)
unfolding build_values standard_values oid_lt
build_values-insert_custom config = refl

-- The values of a configuration are in strictly increasing order of their keys, and if every configured
-- identifier can be encoded, every key can.
pub build_values-IsServable :
    (config : SimSnmpConfig)
    → CustomEncodable (unwrap_or config.oids [])
    → Ensures IsServable (build_values config)
build_values-IsServable config c = rw (build_values-insert_custom config) (
    both (insert_custom (unwrap_or config.oids []) (standard_values config))
      (insert_custom-IsSorted (unwrap_or config.oids []) (standard_values config)
        (standard_values-IsSorted config))
      (insert_custom-KeysEncodable (unwrap_or config.oids []) (standard_values config) c
        (standard_values-KeysEncodable config)))
  where
    both : (r : Ber Values) → Ensures IsSorted r → Ensures KeysEncodable r → Ensures IsServable r
    both (ok values) s k = (s, k)
    both (err e) s k = tt
