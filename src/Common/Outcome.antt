-- ===== src/Common/Outcome.antt =====
-- What a run of an action ends in: a rule for each way of building actions, and the inversion of a
-- sequence that returned.
use noba_server.Common.Base.{◌≡◌, ◌≢◌, refl, subst, Bool, true, false, arith}
use noba_server.Common.Exception.{Exception}
use noba_server.Common.Action.{Result, ok, err, Action, pure, throw, throw_if, try_catch, ◌>>=◌}

-- `Q` holds of what was returned and the state then, or `E` of the state at a throw.
abbrev pub Ends : {S A : Type 0} → (A → S → Type 0) → (S → Type 0) → Result A × S → Type 0
Ends Q E (ok a, s) = Q a s
Ends Q E (err e, s) = E s

-- From any state where `P` holds.
pub record Ensures {S A : Type 0} (P : S → Type 0) (m : Action S A) (Q : A → S → Type 0)
    (E : S → Type 0) : Type 0 where
  pub apply : (s : S) → P s → Ends Q E (m s)

-- `P` holds before and after, returned or thrown.
abbrev pub Keeps : {S A : Type 0} → (S → Type 0) → Action S A → Type 0
Keeps P m = Ensures P m (λ _. P) P

module _ {S A B : Type 0} {E : S → Type 0} where
  bind_Ends :
      (Q : A → S → Type 0) (R : B → S → Type 0) (f : A → Action S B) (x : Result A × S)
      → Ends Q E x
      → ((a : A) → Ensures (Q a) (f a) R E)
      → Ends R E (let (r, t) = x in elim r [ ok a ↦ f a t | err e ↦ (err e, t) ])
  bind_Ends Q R f (ok a, s) h k = (k a).apply s h
  bind_Ends Q R f (err e, s) h k = h

  pub bind-Ensures :
      {P : S → Type 0} {Q : A → S → Type 0} {R : B → S → Type 0} {m : Action S A}
      {f : A → Action S B}
      → Ensures P m Q E
      → ((a : A) → Ensures (Q a) (f a) R E)
      → Ensures P (m >>= f) R E
  bind-Ensures {P} {Q} {R} {m} {f} h k = record {
    apply = λ s p. bind_Ends Q R f (m s) (h.apply s p) k;
  }

module _ {S A : Type 0} where
  catch_Ends :
      (Q : A → S → Type 0) (M E : S → Type 0) (f : Exception → Action S A) (x : Result A × S)
      → Ends Q M x
      → ((e : Exception) → Ensures M (f e) Q E)
      → Ends Q E (let (r, t) = x in elim r [ ok a ↦ (ok a, t) | err e ↦ f e t ])
  catch_Ends Q M E f (ok a, s) h k = h
  catch_Ends Q M E f (err e, s) h k = (k e).apply s h

  pub try_catch-Ensures :
      {P M E : S → Type 0} {Q : A → S → Type 0} {m : Action S A} {f : Exception → Action S A}
      → Ensures P m Q M
      → ((e : Exception) → Ensures M (f e) Q E)
      → Ensures P (try_catch m f) Q E
  try_catch-Ensures {P} {M} {E} {Q} {m} {f} h k = record {
    apply = λ s p. catch_Ends Q M E f (m s) (h.apply s p) k;
  }

  pub throw-Ensures :
      {P : S → Type 0} {Q : A → S → Type 0} {e : Exception} → Ensures P (throw e) Q P
  throw-Ensures = record { apply = λ s p. p }

  pub pure-Ensures :
      {P E : S → Type 0} {Q : A → S → Type 0} {a : A}
      → ((s : S) → P s → Q a s)
      → Ensures P (pure a) Q E
  pure-Ensures h = record { apply = h }

  pub pure-Keeps : {P : S → Type 0} {a : A} → Keeps P (pure a)
  pure-Keeps = record { apply = λ s p. p }

module _ {S : Type 0} where
  pub throw_if-Keeps : {P : S → Type 0} (c : Bool) (e : Exception) → Keeps P (throw_if c e)
  throw_if-Keeps true e = record { apply = λ s p. p }
  throw_if-Keeps false e = record { apply = λ s p. p }

module _ {S A B : Type 0} where
  -- A first part `x` of a sequence that returned has returned, and the rest after it.
  pub run-eq-ok :
      (x : Result A × S) {k : A → Result B × S} {b : B} {s' : S}
      → elim x.0 [ ok a ↦ k a | err e ↦ (err e, x.1) ] ≡ (ok b, s')
      → (a : A) × (x ≡ (ok a, x.1)) × (k a ≡ (ok b, s'))
  run-eq-ok (ok a, s) h = (a, refl, h)
  run-eq-ok (err e, s) h = absurd (ground arith)

  -- After a first part that returns, the rest runs from there.
  pub eq_ok-run :
      (x : Result A × S) (k : A → S → Result B × S) {a : A} {s : S}
      → x ≡ (ok a, s)
      → elim x.0 [ ok a ↦ k a x.1 | err e ↦ (err e, x.1) ] ≡ k a s
  eq_ok-run (ok a, s) k h = cc h
  eq_ok-run (err e, s) k h = absurd (ground arith)

module _ {S A : Type 0} where
  -- Of any run something that is true can be said.
  any_Ends : (x : Result A × S) → Ends (λ _ _. Unit {0}) (λ _. Unit {0}) x
  any_Ends (ok a, s) = tt
  any_Ends (err e, s) = tt

  pub any-Ensures :
      {P : S → Type 0} (m : Action S A) → Ensures P m (λ _ _. Unit {0}) (λ _. Unit {0})
  any-Ensures m = record { apply = λ s p. any_Ends (m s) }

  pub Ends-ok :
      (Q : A → S → Type 0) (E : S → Type 0) (x : Result A × S) {a : A} {s : S}
      → Ends Q E x
      → x ≡ (ok a, s)
      → Q a s
  Ends-ok Q E x h e = subst (Ends Q E) e h

  pub not_thrown :
      (x : Result A × S) {e : Exception} → Ends (λ _ _. Unit {0}) (λ _. ⊥) x → x.0 ≢ err e
  not_thrown (ok a, s) h p = ground arith
  not_thrown (err _, s) h p = h

module _ {S A : Type 0} where
  weak_Ends :
      (Q : A → S → Type 0) (E : S → Type 0) (x : Result A × S)
      → Ends Q E x
      → Ends Q (λ _. Unit {0}) x
  weak_Ends Q E (ok a, s) h = h
  weak_Ends Q E (err e, s) h = tt

  -- What is said of a throw is dropped.
  pub returning :
      {P E : S → Type 0} {Q : A → S → Type 0} (m : Action S A)
      → Ensures P m Q E
      → Ensures P m Q (λ _. Unit {0})
  returning {E} {Q} m h = record { apply = λ s p. weak_Ends Q E (m s) (h.apply s p) }

module _ {S A : Type 0} where
  returned_Ends :
      (P : S → Type 0) (Q : A → S → Type 0) (m : Action S A) (s : S) (x : Result A × S)
      → ((s : S) (a : A) (t : S) → P s → m s ≡ (ok a, t) → Q a t)
      → P s
      → m s ≡ x
      → Ends Q (λ _. Unit {0}) x
  returned_Ends P Q m s (ok a, t) h p e = h s a t p e
  returned_Ends P Q m s (err _, t) h p e = tt

  -- What holds of every run that returns.
  pub of_returned :
      {P : S → Type 0} {Q : A → S → Type 0} (m : Action S A)
      → ((s : S) (a : A) (t : S) → P s → m s ≡ (ok a, t) → Q a t)
      → Ensures P m Q (λ _. Unit {0})
  of_returned {P} {Q} m h = record { apply = λ s p. returned_Ends P Q m s (m s) h p refl }
