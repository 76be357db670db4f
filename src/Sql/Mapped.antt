-- ===== src/Sql/Mapped.antt =====
-- Database/: what is to be read off the statements of each repository, as Sql/Correct asks for it.
-- Shared here: a column that is one of those asked for.
pub mod Accounts
pub mod People
pub mod Products
pub mod Orders
use mathlib.Core.Path.{subst}
use sage_store.Prelude.{String, Bool, true, ◌≡◌, sym, ◌==◌, ◌||◌, ◌⊎◌, inl, inr, eq_iff, arith}

equals : (field k : String) → (field == k) ≡ true → field ≡ k
equals field k h = ground (arith, eq_iff field k)

either_of : (x y : Bool) → (x || y) ≡ true → (x ≡ true) ⊎ (y ≡ true)
either_of x y h = ground arith

pub by_name : (P : String → Type 0) (k field : String) → (field == k) ≡ true → P k → P field
by_name P k field h p = subst P (sym (equals field k h)) p

pub by_names :
    (P : String → Type 0) (k j field : String)
    → (field == k || field == j) ≡ true
    → P k
    → P j
    → P field
by_names P k j field h p p' = elim (either_of (field == k) (field == j) h) [
  | inl e ↦ by_name P k field e p
  | inr e ↦ by_name P j field e p'
]
