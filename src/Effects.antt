-- ===== src/Effects.antt =====
-- Code that reads and mutates a state and may raise. What was written before a raise stays
-- written: it is the store that keeps or drops it.
use homeinfra_control_center.Prelude.{Bool, true, false, Option, none, some}
use homeinfra_control_center.Errors.{Error, Result, ok, err}

abbrev pub Action : Type 0 → Type 0 → Type 0
Action S A = S → Result A × S

module _ {S A : Type 0} where
  abbrev pub pure : A → Action S A
  pure a s = (ok a, s)

  abbrev pub throw : Error → Action S A
  throw e s = (err e, s)

  abbrev pub gets : (S → A) → Action S A
  gets f s = (ok (f s), s)

  abbrev pub or_throw : Option A → Error → Action S A
  or_throw none e = throw e
  or_throw (some a) e = pure a

  -- A validation that touches no state.
  abbrev pub lift : Result A → Action S A
  lift r s = (r, s)

abbrev pub throw_if : {S : Type 0} → Bool → Error → Action S (Unit {0})
throw_if true e s = (err e, s)
throw_if false e s = (ok tt, s)

abbrev pub modify : {S : Type 0} → (S → S) → Action S (Unit {0})
modify f s = (ok tt, f s)

infixl 5 ◌>>=◌ ◌>>◌
abbrev pub ◌>>=◌ : {S A B : Type 0} → Action S A → (A → Action S B) → Action S B
◌>>=◌ m f s = let (r, s') = m s in elim r [ ok a ↦ f a s' | err e ↦ (err e, s') ]

abbrev pub ◌>>◌ : {S A B : Type 0} → Action S A → Action S B → Action S B
m >> k = m >>= λ _. k
