-- ===== src/Errors/Checked.antt =====
-- Code that may raise and touches no state, for do blocks.
use homeinfra_control_center.Prelude.{Bool, true, false}
use homeinfra_control_center.Errors.{Error, Result, ok, err}

infixl 5 ◌>>=◌ ◌>>◌
abbrev pub ◌>>=◌ : {A B : Type 0} → Result A → (A → Result B) → Result B
(ok a) >>= f = f a
(err e) >>= f = err e

abbrev pub ◌>>◌ : {A B : Type 0} → Result A → Result B → Result B
m >> k = m >>= λ _. k

abbrev pub check : Bool → Error → Result (Unit {0})
check true e = ok tt
check false e = err e
