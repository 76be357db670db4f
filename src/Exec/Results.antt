-- ===== src/Exec/Results.antt =====
-- `do` blocks for the functions that build an entity from a request: they throw, and touch nothing.
use sage_store.Exec.{Result, and_then}

infixl 5 ◌>>=◌ ◌>>◌
abbrev pub ◌>>=◌ : {A B : Type 0} → Result A → (A → Result B) → Result B
m >>= f = and_then m f

abbrev pub ◌>>◌ : {A B : Type 0} → Result A → Result B → Result B
m >> k = and_then m λ _. k
