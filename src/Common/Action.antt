-- ===== src/Common/Action.antt =====
-- An async method: it changes the state, and returns a value or throws. What was written before a
-- throw stays written.
use noba_server.Common.Base.{Bool, true, false, if◌then◌else◌}
use noba_server.Common.Exception.{Exception}

pub data Result {ℓ} (A : Type ℓ) : Type ℓ where
  ok : A → Result A
  err : Exception → Result A

abbrev pub Action : Type 0 → Type 0 → Type 0
Action S A = S → Result A × S

module _ {S A : Type 0} where
  abbrev pub pure : A → Action S A
  pure a s = (ok a, s)

  abbrev pub throw : Exception → Action S A
  throw e s = (err e, s)

  abbrev pub gets : (S → A) → Action S A
  gets f s = (ok (f s), s)

  -- What a call outside the state returns or throws.
  abbrev pub from_result : Result A → Action S A
  from_result r s = (r, s)

  -- `try { m } catch (e) { handler(e) }`
  abbrev pub try_catch : Action S A → (Exception → Action S A) → Action S A
  try_catch m handler s = let (r, t) = m s in elim r [ ok a ↦ (ok a, t) | err e ↦ handler e t ]

infixl 5 ◌>>=◌ ◌>>◌
abbrev pub ◌>>=◌ : {S A B : Type 0} → Action S A → (A → Action S B) → Action S B
◌>>=◌ m f s = let (r, t) = m s in elim r [ ok a ↦ f a t | err e ↦ (err e, t) ]

abbrev pub ◌>>◌ : {S A B : Type 0} → Action S A → Action S B → Action S B
m >> k = m >>= λ _. k

abbrev pub throw_if : {S : Type 0} → Bool → Exception → Action S (Unit {0})
throw_if c e s = (if c then err e else ok tt, s)

abbrev pub modify : {S : Type 0} → (S → S) → Action S (Unit {0})
modify f s = (ok tt, f s)

-- `if (b) { m }`
abbrev pub when : {S : Type 0} → Bool → Action S (Unit {0}) → Action S (Unit {0})
when true m = m
when false m = pure tt
