-- ===== src/Snmp/Request/Fuel.antt =====
-- The fuel of the loop over the variable bindings is enough.
use seclab_suite_protocol_si.Base.{
  Bool, Ensures, Ensures-of, Ensures-ok, List, Result-cases, [], arith, bit_and, err, false, inl,
  inr, length, suc, take, true, zero, ℕ, ◌*◌, ◌++◌, ◌+◌, ◌<◌, ◌∷◌, ◌≢◌, ◌≤◌,
}
use seclab_suite_protocol_si.Base.Bits.{Bytes}
use seclab_suite_protocol_si.Snmp.Ber.{
  Oid, component_loop, decode_integer, decode_oid, length_loop, out_of_fuel, read_length, read_tlv,
}
use seclab_suite_protocol_si.Snmp.Request.{
  parse_request, read_message, read_pdu, read_repetitions, read_varbind, varbind_loop,
}
use seclab_suite_protocol_si.Snmp.Ber.Lengths.{read_tlv_shorter}

length_loop-ne-fuel : (n : ℕ) (bytes : Bytes) → length_loop n bytes ≢ err out_of_fuel
unfolding length_loop
length_loop-ne-fuel n [] = λ e. cc
length_loop-ne-fuel n (b ∷ bytes) = ground (arith, length_loop-ne-fuel (n * 256 + b) bytes)

read_length-ne-fuel : (input : Bytes) → read_length input ≢ err out_of_fuel
unfolding read_length
read_length-ne-fuel [] = λ e. cc
read_length-ne-fuel (first ∷ input) =
    ground (arith, length_loop-ne-fuel 0 (take (bit_and first 0x7f) input))

read_tlv-ne-fuel : (input : Bytes) → read_tlv input ≢ err out_of_fuel
unfolding read_tlv
read_tlv-ne-fuel [] = λ e. cc
read_tlv-ne-fuel (tag ∷ input) = ground (arith, read_length-ne-fuel input)

component_loop-ne-fuel :
    (bytes : Bytes) (oid : Oid) (v : ℕ) (p : Bool) → component_loop oid v p bytes ≢ err out_of_fuel
unfolding component_loop
component_loop-ne-fuel [] oid v p = ground arith
component_loop-ne-fuel (b ∷ bytes) oid v p =
    let next = v * 128 + bit_and b 0x7f in
    ground (
      arith,
      component_loop-ne-fuel bytes (oid ++ (next ∷ [])) 0 false,
      component_loop-ne-fuel bytes oid next true,
    )

decode_oid-ne-fuel : (bytes : Bytes) → decode_oid bytes ≢ err out_of_fuel
unfolding decode_oid
decode_oid-ne-fuel [] = λ e. cc
decode_oid-ne-fuel (first ∷ bytes) = component_loop-ne-fuel bytes _ 0 false

decode_integer-ne-fuel : (bytes : Bytes) → decode_integer bytes ≢ err out_of_fuel
unfolding decode_integer
decode_integer-ne-fuel [] = λ e. cc
decode_integer-ne-fuel (first ∷ bytes) = ground arith

read_varbind-ne-fuel : (input : Bytes) → read_varbind input ≢ err out_of_fuel
unfolding read_varbind
read_varbind-ne-fuel input = grind (arith, read_tlv-ne-fuel, decode_oid-ne-fuel)

shorter : (input : Bytes) → Ensures (λ p. length p.1 < length input) (read_tlv input)
shorter input =
    Ensures-of _ (read_tlv input) (λ (t, rest) h. omega (arith, read_tlv_shorter input t rest h))

read_varbind_shorter :
    (input : Bytes) → Ensures (λ p. length p.1 < length input) (read_varbind input)
unfolding read_varbind
read_varbind_shorter input = grind (arith, shorter)

varbind_loop-ne-fuel :
    (fuel : ℕ) (oids : List Oid) (bytes : Bytes)
    → length bytes ≤ fuel
    → varbind_loop fuel oids bytes ≢ err out_of_fuel
unfolding varbind_loop
varbind_loop-ne-fuel fuel oids [] h = λ e. cc
varbind_loop-ne-fuel zero oids (b ∷ bytes) h = absurd (omega arith)
varbind_loop-ne-fuel (suc fuel) oids (b ∷ bytes) h =
    elim (Result-cases (read_varbind (b ∷ bytes))) [
      | inl (p, e) ↦ rw e (
          ground (
            arith,
            varbind_loop-ne-fuel fuel (oids ++ (p.0 ∷ [])) p.1,
            Ensures-ok _ _ (read_varbind_shorter (b ∷ bytes)) e,
          ))
      | inr (x, e) ↦ ground (arith, read_varbind-ne-fuel (b ∷ bytes))
    ]

-- On every message `parse_request` ends with a request or an error of the source.
pub parse_request-ne-out_of_fuel : (message : Bytes) → parse_request message ≢ err out_of_fuel
unfolding parse_request read_message read_pdu read_repetitions
parse_request-ne-out_of_fuel message =
    grind (arith, read_tlv-ne-fuel, decode_integer-ne-fuel, varbind_loop-ne-fuel)
