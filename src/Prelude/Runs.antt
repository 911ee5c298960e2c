-- ===== src/Prelude/Runs.antt =====
-- C functions that may fault or wait for ever.
use mathlib.Core.Option.{Option, none, some}

pub data Run (A : Type 0) : Type 0 where
  returns : A → Run A
  faults : Run A
  waits : Run A

abbrev pub lift : {A : Type 0} → Option A → Run A
lift none = faults
lift (some a) = returns a

infixl 5 ◌>>=◌ ◌>>◌
abbrev pub ◌>>=◌ : {A B : Type 0} → Run A → (A → Run B) → Run B
returns a >>= f = f a
faults >>= f = faults
waits >>= f = waits

abbrev pub ◌>>◌ : {B : Type 0} → Run (Unit {0}) → Run B → Run B
m >> n = m >>= λ _. n

-- What holds of the result of a function that returns.
abbrev pub Leaves : {A : Type 0} → (A → Type 0) → Run A → Type 0
Leaves Q (returns a) = Q a
Leaves Q faults = Unit {0}
Leaves Q waits = Unit {0}

pub bind-Leaves :
    {A B : Type 0} (Q : A → Type 0) (R : B → Type 0) (m : Run A) (f : A → Run B)
    → Leaves Q m
    → ((a : A) → Q a → Leaves R (f a))
    → Leaves R (m >>= f)
bind-Leaves Q R (returns a) f q h = h a q
bind-Leaves Q R faults f q h = tt
bind-Leaves Q R waits f q h = tt
