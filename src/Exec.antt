-- ===== src/Exec.antt =====
-- A C++ call that may throw and that may change the database: ServerException.hpp and the other
-- exceptions of the server, and calls composed in sequence. What was written before a throw stays
-- written, so the state comes back beside the exception too.
pub mod Ensures
pub mod Results
use sage_store.Prelude.{String, Bool, List, [], ◌∷◌, if◌then◌else◌}

-- `ServerException`
pub record ServerException : Type 0 where
  pub component_name : String
  pub message : String

-- What a handler can throw: its own exception, another `std::exception` with its `what()`, or
-- something else.
pub data Exception : Type 0 where
  server : ServerException → Exception
  standard : String → Exception
  unreadable : Exception

pub data Result (A : Type 0) : Type 0 where
  ok : A → Result A
  err : Exception → Result A

-- `throw ServerException(component, message)`
abbrev pub throw : {A : Type 0} → String → String → Result A
throw component message = err (server (record { component_name = component; message = message }))

abbrev pub and_then : {A B : Type 0} → Result A → (A → Result B) → Result B
and_then (ok a) f = f a
and_then (err e) f = err e

abbrev pub Exec : Type 0 → Type 0 → Type 0
Exec S A = S → Result A × S

module _ {S A : Type 0} where
  abbrev pub pure : A → Exec S A
  pure a s = (ok a, s)

  -- A computation that does not touch the database.
  abbrev pub lift : Result A → Exec S A
  lift r s = (r, s)

  abbrev pub raise : String → String → Exec S A
  raise component message s = (throw component message, s)

module _ {S A B : Type 0} where
  abbrev pub continue_with : Result A → S → (A → Exec S B) → Result B × S
  continue_with (ok a) s f = f a s
  continue_with (err e) s f = (err e, s)

  infixl 5 ◌>>=◌ ◌>>◌
  unfoldable pub ◌>>=◌ : Exec S A → (A → Exec S B) → Exec S B
  ◌>>=◌ m f s = let (r, s') = m s in continue_with r s' f

  abbrev pub ◌>>◌ : Exec S A → Exec S B → Exec S B
  m >> k = m >>= λ _. k

-- `if (test) throw ServerException(component, message);`
unfoldable pub throw_if : {S : Type 0} → Bool → String → String → Exec S (Unit {0})
throw_if test component message = if test then raise component message else pure tt

-- `for (const auto &x : xs) f(x);`
unfoldable pub for_each : {S A : Type 0} → List A → (A → Exec S (Unit {0})) → Exec S (Unit {0})
unfolding ◌>>=◌
for_each [] f = pure tt
for_each (x ∷ xs) f = let rest = for_each xs f in f x >> rest
