-- ===== src/Purchase/Booking/Restocked.antt =====
-- The stocks after a receipt, product type by product type.
use sage_store.Prelude.{
  sym, ℕ, arith, ◌+◌, String, ◌≡◌, ◌∙◌, refl, ap, true, false, List, [], ◌∷◌, Option, none, some,
  any, ◌==◌,
}
use sage_store.Prelude.Assoc.{find}
use sage_store.Prelude.Decimal.{to_string}
use sage_store.Entities.{Inventory, PurchaseOrderRecord}
use sage_store.Tables.{Affinity, inventory_columns, insert_row}
use sage_store.Purchase.Receipt.{PlannedStockMutation, Plan}
use sage_store.Purchase.Booking.{stocks_of, stocked, ordered}
use sage_store.Purchase.Booking.Planned.{IsPlan, is_some}
use sage_store.Purchase.Booking.Touched.{IsTouched}
use sage_store.Purchase.Booking.Rewritten.{Rewritten, AreRewritten}

-- A product type without a line item has the stocks that it had. One with a line item has one stock,
-- with the id of the one that it had, if it had one; its quantity is what was in stock and what the
-- line items have, and its employee is the one who received it.
pub record IsRestocked (a : Affinity) (employee : String) (lines : List PurchaseOrderRecord)
    (before after : List Inventory) : Type 0 where
  pub untouched :
      (p : String)
      → any (λ l. p == l.product_type_id) lines ≡ false
      → stocks_of p after ≡ stocks_of p before
  pub restocked :
      (p : String)
      → any (λ l. p == l.product_type_id) lines ≡ true
      → (id : String) × (stocks_of p after
          ≡ record {
            id = id;
            product_type_id = p;
            quantity_available = to_string (stocked p before + ordered p lines);
            employee_id = a.integer employee;
          }
            ∷ [])
        × ((e : Inventory) → stocks_of p before ≡ e ∷ [] → id ≡ e.id)

not_planned :
    (a : Affinity) (rows : List Inventory) (o : Option PlannedStockMutation)
    → is_some o ≡ false
    → Rewritten a o rows rows
not_planned a rows none hidden = refl
not_planned a rows (some m) hidden = absurd (cc hidden)

-- Before the first write.
pub plan-AreRewritten :
    (a : Affinity) (inventory : List Inventory) (booked : String → ℕ) (plan : Plan)
    → IsPlan a inventory booked plan
    → AreRewritten a inventory (λ p. find p plan.stocks) plan.order inventory
plan-AreRewritten a inventory booked plan h p gone =
    not_planned a _ (find p plan.stocks) (sym (h.in_order p) ∙ gone)

module _ (a : Affinity) (employee : String) (lines : List PurchaseOrderRecord)
    (before now : List Inventory) (plan : Plan)
    (h : IsPlan a before (λ q. 0 + ordered q lines) plan)
    (t : IsTouched employee (λ q. any (λ l. q == l.product_type_id) lines) plan) where
  untouched_of :
      (o : Option PlannedStockMutation) (rows rows' : List Inventory)
      → is_some o ≡ false
      → Rewritten a o rows rows'
      → rows' ≡ rows
  untouched_of none rows rows' _ w = w
  untouched_of (some m) rows rows' hidden w = absurd (cc hidden)

  written_row :
      (p id : String) (m : PlannedStockMutation)
      → find p plan.stocks ≡ some m
      → insert_row (inventory_columns a) id m.stock ≡ record {
        id = id;
        product_type_id = p;
        quantity_available = to_string (stocked p before + ordered p lines);
        employee_id = a.integer employee;
      }
  written_row p id m e =
      let facts = h.planned p m e in
      let quantity : a.integer m.stock.quantity_available
          ≡ to_string (stocked p before + ordered p lines) =
        ap a.integer facts.1.text
        ∙ (a.integer-to_string _ facts.1.fits ∙ ap to_string (omega arith)) in
      let product : a.integer m.stock.product_type_id ≡ p =
        ap a.integer facts.0.product ∙ h.stored p m e in
      rw (product, quantity, t.employed p m e) refl

  restocked_of :
      (p : String) (o : Option PlannedStockMutation)
      → find p plan.stocks ≡ o
      → is_some o ≡ true
      → Rewritten a o (stocks_of p before) (stocks_of p now)
      → (id : String) × (stocks_of p now
          ≡ record {
            id = id;
            product_type_id = p;
            quantity_available = to_string (stocked p before + ordered p lines);
            employee_id = a.integer employee;
          }
            ∷ [])
        × ((e : Inventory) → stocks_of p before ≡ e ∷ [] → id ≡ e.id)
  restocked_of p none e there w = absurd (cc there)
  restocked_of p (some m) e there w =
      let (id, row, same_id) = w in (id, row ∙ ap (λ x. x ∷ []) (written_row p id m e), same_id)

  pub plan-IsRestocked :
      AreRewritten a before (λ p. find p plan.stocks) [] now
      → IsRestocked a employee lines before now
  unfolding any
  plan-IsRestocked w = record {
    untouched = λ p gone. untouched_of (find p plan.stocks) _ _ (t.names p ∙ gone) (w p refl);
    restocked = λ p there. restocked_of p (find p plan.stocks) refl (t.names p ∙ there) (w p refl);
  }
