-- ===== src/Snmp/Mib/Walk.antt =====
-- Walking the values: GETNEXT gives the least key behind a given one, and repeating it gives the
-- entries behind it in order.
use seclab_suite_protocol_si.Base.{
  Bool-cases, Option-cases, [], ap, arith, if◌then◌else◌, inl, inr, none, refl, some, suc, take,
  true, zero, ℕ, ◌∷◌, ◌≡◌,
}
use seclab_suite_protocol_si.Base.Text.{Text}
use seclab_suite_protocol_si.Snmp.Ber.{Oid}
use seclab_suite_protocol_si.Snmp.Mib.{Values, next_value, oid_lt}
use seclab_suite_protocol_si.Snmp.Mib.Order.{
  Below, Below-trans, IsSorted, oid_lt_irrefl, oid_lt_trans,
}

-- The entries with a key above `oid`.
unfoldable pub following : Oid → Values → Values
following oid [] = []
following oid ((k, v) ∷ values) =
    if oid_lt oid k then (k, v) ∷ following oid values else following oid values

following-Below : (oid : Oid) (values : Values) → Below oid values → following oid values ≡ values
unfolding following
following-Below oid [] h = refl
following-Below oid ((k, v) ∷ values) h = ground (arith, following-Below oid values h.1)

-- Without a next value no key is above `oid`.
pub next_value-none :
    (oid : Oid) (values : Values) → next_value values oid ≡ none → following oid values ≡ []
unfolding next_value following
next_value-none oid [] h = refl
next_value-none oid ((k, v) ∷ values) h = ground (arith, next_value-none oid values)

next_value-Below :
    (j oid k : Oid) (v : Text) (values : Values)
    → Below j values
    → next_value values oid ≡ some (k, v)
    → oid_lt j k ≡ true
unfolding next_value
next_value-Below j oid k v [] b h = cc
next_value-Below j oid k v ((i, w) ∷ values) b h = elim (Bool-cases (oid_lt oid i)) [
  | inl e ↦ ground arith
  | inr e ↦ next_value-Below j oid k v values b.1 (ground arith)
]

-- The next value is the first of the entries above `oid`, and the others are those above it.
pub next_value-some :
    (oid k : Oid) (v : Text) (values : Values)
    → IsSorted values
    → next_value values oid ≡ some (k, v)
    → (oid_lt oid k ≡ true) × (following oid values ≡ (k, v) ∷ following k values)
unfolding next_value following
next_value-some oid k v [] s h = cc
next_value-some oid k v ((j, w) ∷ values) s h = elim (Bool-cases (oid_lt oid j)) [
  | inl e ↦ ground (
    arith,
    following-Below oid values (Below-trans oid j values e s.0),
    following-Below j values s.0,
    oid_lt_irrefl j,
  )
  | inr e ↦ ground (
    arith,
    next_value-some oid k v values s.1,
    next_value-Below j oid k v values s.0,
    oid_lt_trans j k j,
    oid_lt_irrefl j,
  )
]

-- The entries that repeating GETNEXT visits.
unfoldable pub walk : ℕ → Values → Oid → Values
walk zero values cursor = []
walk (suc n) values cursor = elim (next_value values cursor) [
  | none ↦ []
  | some (k, v) ↦ (k, v) ∷ walk n values k
]

-- Walking visits the entries above the start, in order, as many as asked for.
pub walk-take :
    (n : ℕ) (values : Values) (cursor : Oid)
    → IsSorted values
    → walk n values cursor ≡ take n (following cursor values)
unfolding walk
walk-take zero values cursor s = refl
walk-take (suc n) values cursor s = elim (Option-cases (next_value values cursor)) [
  | inl e ↦ rw (e, walk) (rw (next_value-none cursor values e))
  | inr ((k, v), e) ↦
      rw (e, walk)
        (rw (next_value-some cursor k v values s e).1 (ap (◌∷◌ (k, v)) (walk-take n values k s)))
]
