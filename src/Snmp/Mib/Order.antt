-- ===== src/Snmp/Mib/Order.antt =====
-- The order of the identifiers, and that the values stay sorted by it.
use seclab_suite_protocol_si.Base.{
  All, Bool-cases, [], arith, false, if◌then◌else◌, inl, inr, refl, some, true, ◌||◌, ◌∷◌, ◌≡◌,
}
use seclab_suite_protocol_si.Base.Text.{Text}
use seclab_suite_protocol_si.Snmp.Ber.{Oid}
use seclab_suite_protocol_si.Snmp.Mib.{Values, get, insert, oid_lt}

pub oid_lt_irrefl : (a : Oid) → oid_lt a a ≡ false
unfolding oid_lt
oid_lt_irrefl [] = refl
oid_lt_irrefl (x ∷ a) = ground (arith, oid_lt_irrefl a)

pub oid_lt_trans : (a b c : Oid) → oid_lt a b ≡ true → oid_lt b c ≡ true → oid_lt a c ≡ true
unfolding oid_lt
oid_lt_trans [] [] c h k = cc
oid_lt_trans [] (y ∷ b) [] h k = cc
oid_lt_trans [] (y ∷ b) (z ∷ c) h k = refl
oid_lt_trans (x ∷ a) [] c h k = cc
oid_lt_trans (x ∷ a) (y ∷ b) [] h k = cc
oid_lt_trans (x ∷ a) (y ∷ b) (z ∷ c) h k = ground (arith, oid_lt_trans a b c)

pub oid_lt_eq : (a b : Oid) → oid_lt a b ≡ false → oid_lt b a ≡ false → a ≡ b
unfolding oid_lt
oid_lt_eq [] [] h k = refl
oid_lt_eq [] (y ∷ b) h k = cc
oid_lt_eq (x ∷ a) [] h k = cc
oid_lt_eq (x ∷ a) (y ∷ b) h k = ground (arith, oid_lt_eq a b)

-- `oid` is below every key.
abbrev pub Below : Oid → Values → Type 0
Below oid values = All (λ p. oid_lt oid p.0 ≡ true) values

abbrev pub IsSorted : Values → Type 0
IsSorted [] = Unit
IsSorted ((k, v) ∷ values) = Below k values × IsSorted values

pub Below-trans :
    (a b : Oid) (values : Values) → oid_lt a b ≡ true → Below b values → Below a values
Below-trans a b [] h below = tt
Below-trans a b ((k, v) ∷ values) h below =
    (oid_lt_trans a b k h below.0, Below-trans a b values h below.1)

Below-insert :
    (a oid : Oid) (value : Text) (values : Values)
    → oid_lt a oid ≡ true
    → Below a values
    → Below a (insert oid value values)
unfolding insert
Below-insert a oid value [] h below = (h, tt)
Below-insert a oid value ((k, v) ∷ values) h below =
    ground (arith, Below-insert a oid value values h below.1)

-- Inserting keeps the keys in strictly increasing order.
pub insert-IsSorted :
    (oid : Oid) (value : Text) (values : Values)
    → IsSorted values
    → IsSorted (insert oid value values)
unfolding insert
insert-IsSorted oid value [] h = (tt, tt)
insert-IsSorted oid value ((k, v) ∷ values) h = elim (Bool-cases (oid_lt oid k)) [
  | inl e ↦ rw e ((e, Below-trans oid k values e h.0), h)
  | inr e ↦ rw e (elim (Bool-cases (oid_lt k oid)) [
    | inl f ↦ rw f (Below-insert k oid value values f h.0, insert-IsSorted oid value values h.1)
    | inr f ↦ rw f h
  ])
]

-- The inserted value is found, and every other key finds what it found before.
pub get-insert :
    (oid j : Oid) (value : Text) (values : Values)
    → get j (insert oid value values)
      ≡ (if oid_lt oid j || oid_lt j oid then get j values else some value)
unfolding insert get
get-insert oid j value [] = ground arith
get-insert oid j value ((k, v) ∷ values) =
    ground (arith, get-insert oid j value values, oid_lt_eq oid k, oid_lt_eq j k, oid_lt_irrefl oid)
