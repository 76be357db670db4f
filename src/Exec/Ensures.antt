-- ===== src/Exec/Ensures.antt =====
-- Postconditions of calls that may throw: `Ensures m s Q` says that `m`, run in the state `s`, ends
-- with a result and a state that satisfy `Q`. One rule for each way to build a call.
use sage_store.Prelude.{String, ◌==◌, Bool, true, false, ◌≡◌, refl, if◌then◌else◌}
use sage_store.Exec.{
  Exception, Result, ok, err, throw, Exec, pure, lift, raise, continue_with, ◌>>=◌, ◌>>◌, throw_if,
}

pub record Ensures {S A : Type 0} (m : Exec S A) (s : S) (Q : Result A → S → Type 0) : Type 0 where
  pub holds : Q (m s).0 (m s).1

module _ {S A : Type 0} where
  pub ensures-pure : {Q : Result A → S → Type 0} (a : A) (s : S) → Q (ok a) s → Ensures (pure a) s Q
  ensures-pure a s h = record { holds = h }

  pub ensures-raise :
      {Q : Result A → S → Type 0} (c m : String) (s : S) → Q (throw c m) s → Ensures (raise c m) s Q
  ensures-raise c m s h = record { holds = h }

  pub ensures-if :
      {Q : Result A → S → Type 0} (b : Bool) (m n : Exec S A) (s : S)
      → (b ≡ true → Ensures m s Q)
      → (b ≡ false → Ensures n s Q)
      → Ensures (if b then m else n) s Q
  ensures-if true m n s hm hn = hm refl
  ensures-if false m n s hm hn = hn refl

  pub ensures_weaken :
      {P Q : Result A → S → Type 0} {m : Exec S A} {s : S}
      → Ensures m s P
      → ((r : Result A) (s' : S) → P r s' → Q r s')
      → Ensures m s Q
  ensures_weaken {m} {s} h w = record { holds = w (m s).0 (m s).1 h.holds }

module _ {S A B : Type 0} where
  pub ensures-lift :
      {Q : Result B → S → Type 0} (r : Result A) (f : A → Exec S B) (s : S)
      → ((e : Exception) → Q (err e) s)
      → ((a : A) → r ≡ ok a → Ensures (f a) s Q)
      → Ensures (lift r >>= f) s Q
  unfolding ◌>>=◌
  ensures-lift (ok a) f s failed done = record { holds = (done a refl).holds }
  ensures-lift (err e) f s failed done = record { holds = failed e }

  pub ensures-lift_ok :
      {Q : Result B → S → Type 0} (r : Result A) (f : A → Exec S B) (a : A) (s : S)
      → r ≡ ok a
      → Ensures (f a) s Q
      → Ensures (lift r >>= f) s Q
  unfolding ◌>>=◌
  ensures-lift_ok r f a s e h = record { holds = rw e h.holds }

  -- A call that is known to return and to change nothing, such as a read.
  pub ensures-read :
      {Q : Result B → S → Type 0} (m : Exec S A) {a : A} (s : S) (f : A → Exec S B)
      → m s ≡ (ok a, s)
      → Ensures (f a) s Q
      → Ensures (m >>= f) s Q
  unfolding ◌>>=◌
  ensures-read m s f e h = record { holds = rw e h.holds }

  -- The postcondition of the first call is what the rest may use.
  pub ensures-bind :
      {P : Result A → S → Type 0} {Q : Result B → S → Type 0} (m : Exec S A) (s : S)
      (f : A → Exec S B)
      → Ensures m s P
      → ((e : Exception) (s' : S) → P (err e) s' → Q (err e) s')
      → ((a : A) (s' : S) → P (ok a) s' → Ensures (f a) s' Q)
      → Ensures (m >>= f) s Q
  unfolding ◌>>=◌
  ensures-bind {P} {Q} m s f h failed done = record { holds = go (m s).0 (m s).1 h.holds }
    where
      go : (r : Result A) (s' : S) → P r s' → Q (continue_with r s' f).0 (continue_with r s' f).1
      go (ok a) s' p = (done a s' p).holds
      go (err e) s' p = failed e s' p

module _ {S A B C : Type 0} where
  continue_assoc :
      (r : Result A) (s : S) (f : A → Exec S B) (g : B → Exec S C)
      → continue_with (continue_with r s f).0 (continue_with r s f).1 g
        ≡ continue_with r s (λ a s'. continue_with (f a s').0 (f a s').1 g)
  continue_assoc (ok a) s f g = refl
  continue_assoc (err e) s f g = refl

  pub ensures_assoc :
      {Q : Result C → S → Type 0} (m : Exec S A) (f : A → Exec S B) (g : B → Exec S C) (s : S)
      → Ensures (m >>= λ a. f a >>= g) s Q
      → Ensures (m >>= f >>= g) s Q
  unfolding ◌>>=◌
  ensures_assoc m f g s h = record { holds = rw (continue_assoc (m s).0 (m s).1 f g) h.holds }

module _ {S B : Type 0} where
  pub ensures-throw_if :
      {Q : Result B → S → Type 0} (b : Bool) (c m : String) (k : Exec S B) (s : S)
      → (b ≡ true → Q (throw c m) s)
      → (b ≡ false → Ensures k s Q)
      → Ensures (throw_if b c m >> k) s Q
  unfolding ◌>>=◌ throw_if
  ensures-throw_if true c m k s failed done = record { holds = failed refl }
  ensures-throw_if false c m k s failed done = record { holds = (done refl).holds }

module _ {S A B : Type 0} where
  pub ensures-bind_if :
      {Q : Result B → S → Type 0} (b : Bool) (m n : Exec S A) (f : A → Exec S B) (s : S)
      → Ensures (m >>= f) s Q
      → Ensures (n >>= f) s Q
      → Ensures ((if b then m else n) >>= f) s Q
  ensures-bind_if true m n f s hm hn = hm
  ensures-bind_if false m n f s hm hn = hn

module _ {S A : Type 0} where
  -- The dispatch on the method of a request, as every module makes it.
  pub ensures-method :
      {Q : Result A → S → Type 0} (method : String) (get post put delete other : Exec S A) (s : S)
      → Ensures get s Q
      → Ensures post s Q
      → Ensures put s Q
      → Ensures delete s Q
      → Ensures other s Q
      → Ensures
          (if method == "GET"
            then get
            else if method == "POST"
            then post
            else if method == "PUT"
            then put
            else if method == "DELETE"
            then delete
            else other)
          s
          Q
  ensures-method method get post put delete other s hg hp hu hd ho =
      ensures-if (method == "GET") _ _ s (λ _. hg)
        λ _.
          ensures-if (method == "POST") _ _ s (λ _. hp)
            λ _.
              ensures-if (method == "PUT") _ _ s (λ _. hu)
                λ _. ensures-if (method == "DELETE") _ _ s (λ _. hd) λ _. ho
