-- ===== src/Base/Outcome.antt =====
-- `anyhow::Result`: a value or an error.
use mathlib.Core.Path.{◌≡◌, ap, refl, subst}
use mathlib.Core.Bool.{Bool, true, false}
use mathlib.Core.Logic.{◌⊎◌, inl, inr}
use mathlib.Core.Option.{Option, none, some}

pub data Result (E A : Type 0) : Type 0 where
  ok : A → Result E A
  err : E → Result E A

module _ {E : Type 0} where
  infixl 5 ◌>>=◌ ◌>>◌
  abbrev pub ◌>>=◌ : {A B : Type 0} → Result E A → (A → Result E B) → Result E B
  ok a >>= f = f a
  err e >>= f = err e

  abbrev pub ◌>>◌ : {B : Type 0} → Result E (Unit {0}) → Result E B → Result E B
  m >> k = m >>= λ _. k

  -- `if test { bail!(e) }`
  abbrev pub bail_if : Bool → E → Result E (Unit {0})
  bail_if true e = err e
  bail_if false e = ok tt

  -- `option.context(e)?`
  abbrev pub context : {A : Type 0} → Option A → E → Result E A
  context none e = err e
  context (some a) e = ok a

  -- A `do` block with a value has one for its first line, and one for the rest.
  pub >>=-eq-ok :
      {A B : Type 0} (first : Result E A) (rest : A → Result E B) {value : B}
      → (first >>= rest) ≡ ok value
      → (middle : A) × (first ≡ ok middle) × (rest middle ≡ ok value)
  >>=-eq-ok (ok middle) rest same = (middle, refl, same)
  >>=-eq-ok (err failure) rest same = cc

  pub Result-cases :
      {A : Type 0} (r : Result E A) → ((a : A) × (r ≡ ok a)) ⊎ ((e : E) × (r ≡ err e))
  Result-cases (ok a) = inl (a, refl)
  Result-cases (err e) = inr (e, refl)

-- A condition on the value, if there is one.
abbrev pub Ensures : {E A : Type 0} → (A → Type 0) → Result E A → Type 0
Ensures P (ok a) = P a
Ensures P (err e) = Unit

pub Ensures-of :
    {E A : Type 0} (P : A → Type 0) (m : Result E A) → ((a : A) → m ≡ ok a → P a) → Ensures P m
Ensures-of P (ok a) h = h a refl
Ensures-of P (err e) h = tt

pub ok-injective : {E A : Type 0} (b c : A) → ◌≡◌ {A = Result E A} (ok b) (ok c) → b ≡ c
ok-injective b c e = cc

pub Ensures-ok :
    {E A : Type 0} (P : A → Type 0) (m : Result E A) {a : A} → Ensures P m → m ≡ ok a → P a
Ensures-ok P (ok b) h e = subst P (ok-injective b _ e) h
Ensures-ok P (err e) h k = cc

-- The rule of a `do` block.
pub Ensures-bind :
    {E A B : Type 0} (P : A → Type 0) (Q : B → Type 0) (m : Result E A) (f : A → Result E B)
    → Ensures P m
    → ((a : A) → P a → Ensures Q (f a))
    → Ensures Q (m >>= f)
Ensures-bind P Q (ok a) f h k = k a h
Ensures-bind P Q (err e) f h k = tt

-- There is a value.
abbrev pub IsOk : {E A : Type 0} → Result E A → Type 0
IsOk (ok a) = Unit
IsOk (err e) = ⊥

pub IsOk-bind :
    {E A B : Type 0} (m : Result E A) (f : A → Result E B)
    → IsOk m
    → ((a : A) → m ≡ ok a → IsOk (f a))
    → IsOk (m >>= f)
IsOk-bind (ok a) f h k = k a refl
IsOk-bind (err e) f h k = h

pub IsOk-value : {E A : Type 0} (m : Result E A) → IsOk m → (a : A) × (m ≡ ok a)
IsOk-value (ok a) h = (a, refl)
IsOk-value (err e) h = absurd h

-- What a line of a `do` block says of its tests.
pub bail_if-ok :
    {E : Type 0} (test : Bool) (e : E) {u : Unit {0}} → bail_if test e ≡ ok u → test ≡ false
bail_if-ok true e h = cc
bail_if-ok false e h = refl

pub context-ok : {E A : Type 0} (o : Option A) (e : E) {a : A} → context o e ≡ ok a → o ≡ some a
context-ok none e h = cc
context-ok (some b) e {a} h = ap some (ok-injective b a h)
