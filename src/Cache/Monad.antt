-- ===== src/Cache/Monad.antt =====
-- Actions with state and errors; what an action did before it failed stays done.
use dingospeed.Base.{Bool, true, false, Result, ok, err, panicked}
use dingospeed.Errors.{Error}

abbrev pub Exec : Type 0 → Type 0 → Type 0
Exec S A = S → Result Error A × S

abbrev pub and_then : {S A B : Type 0} → Result Error A × S → (A → Exec S B) → Result Error B × S
and_then (ok a, s) f = f a s
and_then (err e, s) f = (err e, s)
and_then (panicked, s) f = (panicked, s)

infixl 5 ◌>>=◌ ◌>>◌
abbrev pub ◌>>=◌ : {S A B : Type 0} → Exec S A → (A → Exec S B) → Exec S B
◌>>=◌ m f s = and_then (m s) f

abbrev pub ◌>>◌ : {S B : Type 0} → Exec S (Unit {0}) → Exec S B → Exec S B
◌>>◌ m k = m >>= λ _. k

abbrev pub pure : {S A : Type 0} → A → Exec S A
pure a s = (ok a, s)

abbrev pub gets : {S A : Type 0} → (S → A) → Exec S A
gets f s = (ok (f s), s)

abbrev pub modify : {S : Type 0} → (S → S) → Exec S (Unit {0})
modify f s = (ok tt, f s)

-- A result that needs no state.
abbrev pub lift : {S A : Type 0} → Result Error A → Exec S A
lift r s = (r, s)

abbrev pub require : {S : Type 0} → Bool → Error → Exec S (Unit {0})
require true e s = (ok tt, s)
require false e s = (err e, s)
