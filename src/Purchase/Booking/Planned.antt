-- ===== src/Purchase/Booking/Planned.antt =====
-- What a plan of a receipt is: the stocks as they are to be after it.
use sage_store.Prelude.{
  ℕ, ◌+◌, ◌≤◌, String, ◌≡◌, ◌⊎◌, refl, ap, ◌∙◌, true, false, Bool, inl, inr, List, [], ◌∷◌, Option,
  none, some, select, length, any, not, ◌&&◌, ◌==◌, eq_iff, arith,
}
use mathlib.Core.Path.{subst}
use sage_store.Prelude.Assoc.{find}
use sage_store.Prelude.Decimal.{decimal, to_string, decimal-to_string}
use sage_store.Exec.{Result, ok, err, and_then}
use sage_store.Entities.{Inventory}
use sage_store.ModuleUtils.{llong_max}
use sage_store.Tables.{Affinity}
use sage_store.Purchase.Requests.{add_quantities}
use sage_store.Purchase.Receipt.{PlannedStockMutation, Plan, first_mutation, receive}
use sage_store.Purchase.Quantities.{add_quantities-eq-sum}
use sage_store.Purchase.Booking.{stocks_of, total, stocked}

-- A mutation makes the stock of a product type that has none, or changes the one that it has.
abbrev pub Target : List Inventory → String → PlannedStockMutation → Type 0
Target inventory p m =
    ((m.create ≡ true) × (stocks_of p inventory ≡ []))
    ⊎ ((m.create ≡ false)
        × (e : Inventory) × (stocks_of p inventory ≡ e ∷ [])
        × (m.stock.id ≡ e.id))

-- A mutation of the stock of a product type, to the quantity `k`.
pub record IsPlanned (inventory : List Inventory) (p : String) (k : ℕ) (m : PlannedStockMutation)
    : Type 0 where
  pub product : m.stock.product_type_id ≡ p
  pub quantity : decimal m.stock.quantity_available ≡ k
  pub target : Target inventory p m

-- The quantity is the text of a number of a `long long`.
pub record IsPrinted (k : ℕ) (m : PlannedStockMutation) : Type 0 where
  pub text : m.stock.quantity_available ≡ to_string k
  pub fits : k ≤ llong_max

abbrev pub is_some : Option PlannedStockMutation → Bool
is_some none = false
is_some (some _) = true

unfoldable pub distinct : List String → Bool
distinct [] = true
distinct (p ∷ rest) = not (any (λ q. p == q) rest) && distinct rest

-- The plan books `booked p` of every product type, and is written in an order that has each of its
-- product types once.
pub record IsPlan (a : Affinity) (inventory : List Inventory) (booked : String → ℕ) (plan : Plan)
    : Type 0 where
  pub absent : (p : String) → find p plan.stocks ≡ none → booked p ≡ 0
  pub stored :
      (p : String) (m : PlannedStockMutation) → find p plan.stocks ≡ some m → a.integer p ≡ p
  pub planned :
      (p : String) (m : PlannedStockMutation)
      → find p plan.stocks ≡ some m
      → IsPlanned inventory p (stocked p inventory + booked p) m
        × IsPrinted (stocked p inventory + booked p) m
  pub in_order : (p : String) → any (λ q. p == q) plan.order ≡ is_some (find p plan.stocks)
  pub once : distinct plan.order ≡ true

pub head-stocks_of :
    (p : String) (e : Inventory) (rest rows : List Inventory)
    → stocks_of p rows ≡ e ∷ rest
    → e.product_type_id ≡ p
unfolding select
head-stocks_of p e rest [] h = cc
head-stocks_of p e rest (x ∷ rows) h =
    ground (arith, eq_iff p x.product_type_id, head-stocks_of p e rest rows)

pub first_mutation-IsPlanned :
    (inventory : List Inventory) (p employee : String)
    → length (stocks_of p inventory) ≤ 1
    → IsPlanned inventory p
        (stocked p inventory)
        (first_mutation p employee (stocks_of p inventory))
first_mutation-IsPlanned inventory p employee few = go (stocks_of p inventory) refl
  where
    go :
        (rows : List Inventory)
        → stocks_of p inventory ≡ rows
        → IsPlanned inventory p (total rows) (first_mutation p employee rows)
    go [] e =
        unfold first_mutation total decimal in
        record { product = refl; quantity = refl; target = inl (refl, e) }
    go (x ∷ []) e =
        unfold first_mutation total in
        record {
          product = head-stocks_of p x [] inventory e;
          quantity = omega arith;
          target = inr (refl, x, e, refl);
        }
    go (x ∷ y ∷ rest) e = absurd (ground arith)

pub receive-IsPlanned :
    (inventory : List Inventory) (p employee quantity : String) (k : ℕ)
    (m m' : PlannedStockMutation)
    → IsPlanned inventory p k m
    → receive employee quantity m ≡ ok m'
    → IsPlanned inventory p (k + decimal quantity) m' × IsPrinted (k + decimal quantity) m'
unfolding receive
receive-IsPlanned inventory p employee quantity k m m' h e =
    go (add_quantities m.stock.quantity_available quantity) refl e
  where
    after : ℕ → PlannedStockMutation
    after sum = record m {
      stock = record m.stock { quantity_available = to_string sum; employee_id = employee };
    }

    go :
        (r : Result ℕ)
        → add_quantities m.stock.quantity_available quantity ≡ r
        → and_then r (λ sum. ok (after sum)) ≡ ok m'
        → IsPlanned inventory p (k + decimal quantity) m' × IsPrinted (k + decimal quantity) m'
    go (err x) added done = absurd (cc done)
    go (ok sum) added done =
        let facts = add_quantities-eq-sum m.stock.quantity_available quantity sum added in
        let right : sum ≡ k + decimal quantity =
          facts.0 ∙ ap (λ n. n + decimal quantity) h.quantity in
        let same : after sum ≡ m' = ground arith in
        subst
          (λ x. IsPlanned inventory p (k + decimal quantity) x × IsPrinted (k + decimal quantity) x)
          same
          (
            record {
              product = h.product;
              quantity = decimal-to_string sum ∙ right;
              target = h.target;
            },
            record { text = ap to_string right; fits = ground arith },
          )
