-- ===== src/Snmp/Mib.antt =====
-- The values that the agent serves, simulation/snmp.rs lines 237 to 288. The `BTreeMap` is the list
-- of its entries in the order of the keys.
pub mod Order
pub mod Walk
pub mod Build
use seclab_suite_protocol_si.Base.{
  Bool, List, Option, [], context, false, if◌then◌else◌, ltb, none, ok, some, true, unwrap_or, ◌&&◌,
  ◌==◌, ◌>>=◌, ◌>>◌, ◌^◌, ◌||◌, ◌∷◌,
}
use seclab_suite_protocol_si.Base.Text.{
  Text, codes, parse_unsigned, split, trim, trim_start_matches,
}
use seclab_suite_protocol_si.Snmp.Ber.{Ber, Oid, non_numeric}

-- The order of `Vec<u32>`.
unfoldable pub oid_lt : Oid → Oid → Bool
oid_lt a [] = false
oid_lt [] (y ∷ b) = true
oid_lt (x ∷ a) (y ∷ b) = ltb x y || (x == y && oid_lt a b)

abbrev pub Values : Type 0
Values = List (Oid × Text)

-- `BTreeMap::insert`
unfoldable pub insert : Oid → Text → Values → Values
insert oid value [] = (oid, value) ∷ []
insert oid value ((k, v) ∷ values) =
    if oid_lt oid k
    then (oid, value) ∷ (k, v) ∷ values
    else if oid_lt k oid
    then (k, v) ∷ insert oid value values
    else (k, value) ∷ values

-- `BTreeMap::get`
unfoldable pub get : Oid → Values → Option Text
get oid [] = none
get oid ((k, v) ∷ values) = if oid_lt oid k || oid_lt k oid then get oid values else some v

unfoldable pub next_value : Values → Oid → Option (Oid × Text)
next_value [] oid = none
next_value ((k, v) ∷ values) oid = if oid_lt oid k then some (k, v) else next_value values oid

-- `collect` of the parsed parts: the first failure is the result.
unfoldable pub parse_parts : List Text → Ber Oid
parse_parts [] = ok []
parse_parts (part ∷ parts) = do
  component ← context (parse_unsigned (2 ^ 32) part) non_numeric
  oid ← parse_parts parts
  ok (component ∷ oid)

unfoldable pub parse_oid_text : Text → Ber Oid
unfolding parse_parts trim trim_start_matches split parse_unsigned
parse_oid_text value =
    parse_parts (split (λ c. c == b'.') (trim_start_matches (λ c. c == b'.') (trim value)))

pub record SimSnmpConfig : Type 0 where
  pub community : Option Text
  pub system_description : Option Text
  pub system_name : Option Text
  pub system_location : Option Text
  pub oids : Option (List (Text × Text))

-- The loop over the configured identifiers.
unfoldable pub insert_custom : List (Text × Text) → Values → Ber Values
unfolding insert parse_oid_text
insert_custom [] values = ok values
insert_custom ((text, value) ∷ custom) values = do
  oid ← parse_oid_text text
  insert_custom custom (insert oid value values)

unfoldable pub build_values : SimSnmpConfig → Ber Values
unfolding insert_custom
build_values config = do
  descr ← parse_oid_text (codes "1.3.6.1.2.1.1.1.0")
  let values =
      insert descr (unwrap_or config.system_description (codes "Linux seclab-snmp 6.8.0")) []
  uptime ← parse_oid_text (codes "1.3.6.1.2.1.1.3.0")
  let values' = insert uptime (codes "360000") values
  name ← parse_oid_text (codes "1.3.6.1.2.1.1.5.0")
  let values'' = insert name (unwrap_or config.system_name (codes "snmp-seclab")) values'
  location ← parse_oid_text (codes "1.3.6.1.2.1.1.6.0")
  let base = insert location (unwrap_or config.system_location (codes "SecLab")) values''
  insert_custom (unwrap_or config.oids []) base
