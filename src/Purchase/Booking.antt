-- ===== src/Purchase/Booking.antt =====
-- How much of a product type is in stock, how much an order has of it, and what a write of one stock
-- does to that.
pub mod Planned
pub mod Plans
pub mod Touched
pub mod Rewritten
pub mod Booked
pub mod Writes
pub mod Writing
pub mod Restocked
pub mod Accepted
pub mod Returns
pub mod Success
pub mod Receipts
use sage_store.Prelude.{
  ℕ, ◌+◌, ◌≤◌, String, ◌≡◌, refl, sym, ap, true, false, Bool, Bool-cases, String-cases, inl, inr,
  List, [], ◌∷◌, ◌++◌, select, length, any, map, not, ◌==◌, eq_iff, eq_refl, arith, if◌then◌else◌,
}
use sage_store.Prelude.Decimal.{decimal}
use sage_store.Entities.{Inventory, PurchaseOrderRecord}
use sage_store.Tables.{Affinity, inventory_columns, insert_row, update_rows}
use sage_store.Tables.Unique.{IsUnique, count}

-- The stocks of a product type.
abbrev pub stocks_of : String → List Inventory → List Inventory
stocks_of p rows = select (λ e. p == e.product_type_id) rows

unfoldable pub total : List Inventory → ℕ
total [] = 0
total (e ∷ rest) = decimal e.quantity_available + total rest

-- How much of a product type is in stock.
abbrev pub stocked : String → List Inventory → ℕ
stocked p rows = total (stocks_of p rows)

-- How much of a product type the line items have.
unfoldable pub ordered : String → List PurchaseOrderRecord → ℕ
ordered p [] = 0
ordered p (l ∷ rest) =
    let others = ordered p rest in
    if p == l.product_type_id then decimal l.quantity + others else others

module _ {E : Type 0} (p q : E → Bool) where
  -- The one element that passes `q` is the one that passes `p`, if it does and no two do.
  pub same_one :
      (rows : List E) (e : E)
      → count p rows ≤ 1
      → select q rows ≡ e ∷ []
      → p e ≡ true
      → select p rows ≡ e ∷ []
  unfolding select
  same_one [] e few one h = cc
  same_one (x ∷ rows) e few one h = ground (arith, same_one rows e)

module _ (a : Affinity) where
  -- A new stock.
  pub stocks_of-insert :
      (p q id : String) (e : Inventory) (rows : List Inventory)
      → a.integer e.product_type_id ≡ p
      → stocks_of q (rows ++ insert_row (inventory_columns a) id e ∷ []) ≡ (
          if q == p
          then stocks_of q rows ++ insert_row (inventory_columns a) id e ∷ []
          else stocks_of q rows)
  unfolding select
  stocks_of-insert p q id e [] h = ground arith
  stocks_of-insert p q id e (x ∷ rows) h = ground (arith, stocks_of-insert p q id e rows h)

  -- A stock that is changed: the others are as they were.
  pub stocks_of-update_other :
      (p q : String) (u : Inventory) (rows : List Inventory)
      → (q == p) ≡ false
      → a.integer u.product_type_id ≡ p
      → any (λ e. not (p == e.product_type_id)) (select (λ e. a.integer u.id == e.id) rows) ≡ false
      → stocks_of q (update_rows (inventory_columns a) u rows) ≡ stocks_of q rows
  unfolding select update_rows any
  stocks_of-update_other p q u [] h product mine = refl
  stocks_of-update_other p q u (x ∷ rows) h product mine = ground (
    arith,
    eq_iff p x.product_type_id,
    eq_iff q p,
    eq_iff q x.product_type_id,
    stocks_of-update_other p q u rows h product,
  )

  pub stocks_of-update_same :
      (p : String) (u : Inventory) (rows : List Inventory)
      → a.integer u.product_type_id ≡ p
      → any (λ e. not (p == e.product_type_id)) (select (λ e. a.integer u.id == e.id) rows) ≡ false
      → any (λ e. not (a.integer u.id == e.id)) (stocks_of p rows) ≡ false
      → stocks_of p (update_rows (inventory_columns a) u rows)
        ≡ map
            (λ e. (inventory_columns a).with_id e.id ((inventory_columns a).stored u))
            (stocks_of p rows)
  unfolding select update_rows any
  stocks_of-update_same p u [] product mine ours = refl
  stocks_of-update_same p u (x ∷ rows) product mine ours =
      ground (arith, eq_iff p x.product_type_id, eq_refl p, stocks_of-update_same p u rows product)

  -- A query for a product type, as its column stores it, finds its stocks.
  pub stocks_by_product :
      (p : String) (rows : List Inventory)
      → a.integer p ≡ p
      → select ((inventory_columns a).matches "productTypeId" p) rows ≡ stocks_of p rows
  stocks_by_product p rows h = ap (λ x. select (λ e. x == e.product_type_id) rows) h
