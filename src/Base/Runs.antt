-- ===== src/Base/Runs.antt =====
-- Runs of stateful code: a value with the state it leaves, a fault (undefined behaviour of C), or a
-- loop that met the end of its fuel.

pub data Run (S A : Type 0) : Type 0 where
  ok : A → S → Run S A
  fault : Run S A
  out_of_fuel : Run S A

abbrev pub Cmd : Type 0 → Type 0 → Type 0
Cmd S A = S → Run S A

module _ {S A : Type 0} where
  abbrev pub pure : A → Cmd S A
  pure a s = ok a s

  abbrev pub and_then : {B : Type 0} → Run S A → (A → Cmd S B) → Run S B
  and_then (ok a s) k = k a s
  and_then fault k = fault
  and_then out_of_fuel k = out_of_fuel

  infixl 5 ◌>>=◌ ◌>>◌
  abbrev pub ◌>>=◌ : {B : Type 0} → Cmd S A → (A → Cmd S B) → Cmd S B
  ◌>>=◌ m k = λ s. and_then (m s) k

  abbrev pub ◌>>◌ : {B : Type 0} → Cmd S A → Cmd S B → Cmd S B
  m >> k = m >>= λ _. k

  -- A call of a total operation outside the program.
  abbrev pub call : (S → A × S) → Cmd S A
  call f s = let (a, s') = f s in ok a s'

-- A call for its effect alone.
abbrev pub perform : {S : Type 0} → (S → S) → Cmd S (Unit {0})
perform f s = ok tt (f s)
