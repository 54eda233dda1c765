-- ===== src/Credit/Flow.antt =====
-- Code over the credit system that throws and catches, on the state of the component that runs it:
-- what was written before an exception stays written.
use agentbnb.Prelude.{String}
use agentbnb.Credit.Types.{CreditError}
use agentbnb.Credit.Db.{Db, Result, ok, err}

-- What is thrown: an error of the credit system, or that of a call with its message.
pub data Fault : Type 0 where
  credit_fault : CreditError → Fault
  call_fault : String → Fault

pub data Outcome (A : Type 0) : Type 0 where
  returned : A → Outcome A
  raised : Fault → Outcome A

abbrev pub Flow : Type 0 → Type 0 → Type 0
Flow W A = W → Outcome A × W

abbrev pub pure : {W A : Type 0} → A → Flow W A
pure a w = (returned a, w)

abbrev pub continue_with : {W A B : Type 0} → (A → Flow W B) → Outcome A × W → Outcome B × W
continue_with f (returned a, w) = f a w
continue_with f (raised e, w) = (raised e, w)

infixl 5 ◌>>=◌ ◌>>◌
abbrev pub ◌>>=◌ : {W A B : Type 0} → Flow W A → (A → Flow W B) → Flow W B
◌>>=◌ m f w = continue_with f (m w)

abbrev pub ◌>>◌ : {W A B : Type 0} → Flow W A → Flow W B → Flow W B
m >> k = m >>= λ _. k

-- `try { m } catch (e) { h(e) }`.
abbrev pub catch_with : {W A : Type 0} → (Fault → Flow W A) → Outcome A × W → Outcome A × W
catch_with h (returned a, w) = (returned a, w)
catch_with h (raised e, w) = h e w

abbrev pub attempt : {W A : Type 0} → Flow W A → (Fault → Flow W A) → Flow W A
attempt m h w = catch_with h (m w)

-- The result of an operation on credits, with the state in which its database is put.
abbrev pub lift_credit : {W A : Type 0} → (Db → W) → Result A × Db → Outcome A × W
lift_credit put_db (ok a, db) = (returned a, put_db db)
lift_credit put_db (err e, db) = (raised (credit_fault e), put_db db)
