-- ===== src/Common/State.antt =====
-- Stateful code that can go wrong: a command takes a state to a value and the next state, or to a
-- fault, which is where the C code has no defined behaviour or never returns.
use mathlib.Core.Path.{◌≡◌}

pub data Fault : Type 0 where
  -- a local variable is read before any assignment to it
  uninitialised : Fault
  -- NULL is dereferenced
  null_pointer : Fault
  -- a loop or a recursion used up the rounds that it was given
  endless : Fault
  -- a write would leave the memory that is there for it
  overrun : Fault

pub data Outcome (A : Type 0) : Type 0 where
  ok : A → Outcome A
  fault : Fault → Outcome A

abbrev pub Cmd : Type 0 → Type 0 → Type 0
Cmd S A = S → Outcome (A × S)

abbrev pub pure : {S A : Type 0} → A → Cmd S A
pure a s = ok (a, s)

infixl 5 ◌>>=◌ ◌>>◌
abbrev pub ◌>>=◌ : {S A B : Type 0} → Cmd S A → (A → Cmd S B) → Cmd S B
◌>>=◌ m f s = elim (m s) [ ok (a, s') ↦ f a s' | fault e ↦ fault e ]

abbrev pub ◌>>◌ : {S B : Type 0} → Cmd S (Unit {0}) → Cmd S B → Cmd S B
m >> k = m >>= λ _. k

-- The command runs to its end, and value and state satisfy the postcondition.
abbrev pub Returns : {A S : Type 0} → (A → S → Type 0) → Outcome (A × S) → Type 0
Returns {A} {S} P r = (a : A) × (s : S) × (r ≡ ok (a, s)) × P a s
