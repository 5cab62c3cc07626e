-- ===== src/Prelude/Exec.antt =====
-- Methods that change an object and may raise. What was written before a raise stays written, so
-- the state comes back beside the exception too.
use mathlib.Core.Bool.{Bool, true, false}
use mathlib.Core.Option.{Option, none, some}
use mathlib.Core.Logic.{◌⊎◌, inl, inr}
use mathlib.Core.Path.{◌≡◌, refl}

-- The exceptions of the modelled code; `pool_exhausted` is BlockPoolExhaustedError.
pub data Error : Type 0 where
  value_error pool_exhausted index_error key_error assertion_error runtime_error type_error
        zero_division_error :
      Error

pub data Outcome {ℓ} (A : Type ℓ) : Type ℓ where
  ok : A → Outcome A
  raised : Error → Outcome A

abbrev pub Exec : Type 0 → Type 0 → Type 0
Exec S A = S → Outcome A × S

module _ {S A : Type 0} where
  abbrev pub pure : A → Exec S A
  pure a s = (ok a, s)

  abbrev pub raise : Error → Exec S A
  raise e s = (raised e, s)

module _ {S A B : Type 0} where
  abbrev pub continue : Outcome A → (A → Exec S B) → Exec S B
  continue (ok a) f s = f a s
  continue (raised e) f s = (raised e, s)

  infixl 5 ◌>>=◌ ◌>>◌
  abbrev pub ◌>>=◌ : Exec S A → (A → Exec S B) → Exec S B
  ◌>>=◌ m f s = let (r, s') = m s in continue r f s'

  abbrev pub ◌>>◌ : Exec S A → Exec S B → Exec S B
  m >> n = m >>= λ _. n

module _ {S : Type 0} where
  abbrev pub get_state : Exec S S
  get_state s = (ok s, s)

  abbrev pub put_state : S → Exec S (Unit {0})
  put_state s' s = (ok tt, s')

  abbrev pub modify : (S → S) → Exec S (Unit {0})
  modify f s = (ok tt, f s)

  -- `if test: raise e`
  abbrev pub raise_if : Bool → Error → Exec S (Unit {0})
  raise_if true e s = (raised e, s)
  raise_if false e s = (ok tt, s)

  -- `if test: m`
  abbrev pub when : Bool → Exec S (Unit {0}) → Exec S (Unit {0})
  when true m = m
  when false m = pure tt

-- An expression that may raise and changes nothing.
abbrev pub lift : {S A : Type 0} → Outcome A → Exec S A
lift r s = (r, s)

-- `l[i]`
abbrev pub item : {S A : Type 0} → Option A → Exec S A
item none s = (raised index_error, s)
item (some a) s = (ok a, s)

-- A method after which a property still holds, whether or not it raised.
pub record Keeps {S A : Type 0} (P : S → Type 0) (m : Exec S A) : Type 0 where
  pub keeps : (s : S) → P s → P (m s).1

module _ {S A B : Type 0} {P : S → Type 0} where
  continue-Keeps :
      (f : A → Exec S B)
      → ((a : A) → Keeps P (f a))
      → (r : Outcome A) (s : S) → P s
      → P (continue r f s).1
  continue-Keeps f h (ok a) s p = (h a).keeps s p
  continue-Keeps f h (raised e) s p = p

  pub bind-Keeps :
      {m : Exec S A} {f : A → Exec S B} → Keeps P m → ((a : A) → Keeps P (f a)) → Keeps P (m >>= f)
  bind-Keeps {m} {f} hm hf = record {
    keeps = λ s p. continue-Keeps f hf (m s).0 (m s).1 (hm.keeps s p);
  }

module _ {S : Type 0} {P : S → Type 0} where
  pub pure-Keeps : {A : Type 0} (a : A) → Keeps P (pure a)
  pure-Keeps a = record { keeps = λ s p. p }

  pub raise-Keeps : {A : Type 0} (e : Error) → Keeps P (raise {A = A} e)
  raise-Keeps e = record { keeps = λ s p. p }

  pub get_state-Keeps : Keeps P get_state
  get_state-Keeps = record { keeps = λ s p. p }

  pub lift-Keeps : {A : Type 0} (o : Outcome A) → Keeps P (lift o)
  lift-Keeps o = record { keeps = λ s p. p }

  pub item-Keeps : {A : Type 0} (o : Option A) → Keeps P (item o)
  item-Keeps none = record { keeps = λ s p. p }
  item-Keeps (some a) = record { keeps = λ s p. p }

  pub modify-Keeps : {f : S → S} → ((s : S) → P s → P (f s)) → Keeps P (modify f)
  modify-Keeps h = record { keeps = h }

  pub when-Keeps : (b : Bool) {m : Exec S (Unit {0})} → Keeps P m → Keeps P (when b m)
  when-Keeps true h = record { keeps = h.keeps }
  when-Keeps false h = record { keeps = λ s p. p }

  pub raise_if-Keeps : (b : Bool) (e : Error) → Keeps P (raise_if b e)
  raise_if-Keeps true e = record { keeps = λ s p. p }
  raise_if-Keeps false e = record { keeps = λ s p. p }

module _ {S A B : Type 0} {P : S → Type 0} where
  -- What follows an expression may use what the expression yields.
  pub lift-bind-Keeps :
      (o : Outcome A) {f : A → Exec S B}
      → ((a : A) → o ≡ ok a → Keeps P (f a))
      → Keeps P (lift o >>= f)
  lift-bind-Keeps (ok a) h = record { keeps = (h a refl).keeps }
  lift-bind-Keeps (raised e) h = record { keeps = λ s p. p }

pub Outcome-cases {ℓ} :
    {A : Type ℓ} (o : Outcome A) → ((a : A) × (o ≡ ok a)) ⊎ ((e : Error) × (o ≡ raised e))
Outcome-cases (ok a) = inl (a, refl)
Outcome-cases (raised e) = inr (e, refl)
