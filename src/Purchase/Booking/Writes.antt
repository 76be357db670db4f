-- ===== src/Purchase/Booking/Writes.antt =====
-- What the writes of a plan do to the stocks.
use mathlib.Core.Path.{subst}
use sage_store.Prelude.{
  some, Option, ℕ, ◌+◌, String, ◌≡◌, ◌∙◌, refl, sym, ap, true, false, String-cases, inl, inr, List,
  [], ◌∷◌, ◌++◌, select, any, not, ◌==◌, eq_iff, eq_refl, arith,
}
use sage_store.Prelude.Decimal.{decimal, decimal-to_string}
use sage_store.Entities.{Inventory}
use sage_store.Inventory.Unique.{stocks-IsKeyed, product_column}
use sage_store.Tables.{Affinity, inventory_columns, insert_row, update_rows}
use sage_store.Tables.Laws.{IsFresh}
use sage_store.Tables.Unique.{IsUnique, add-IsUnique, update-IsUnique}
use sage_store.Purchase.Receipt.{PlannedStockMutation}
use sage_store.Purchase.Booking.{
  stocks_of, total, stocked, same_one, stocks_of-insert, stocks_of-update_other,
  stocks_of-update_same, stocks_by_product,
}
use sage_store.Purchase.Booking.Rewritten.{Rewritten, AreRewritten, same_id_of, rewrite_one}
use sage_store.Purchase.Booking.Planned.{IsPlanned, IsPrinted, head-stocks_of}

-- The stocks `now`, when these product types are still to be written.
pub record IsWritten (a : Affinity) (inventory : List Inventory) (booked : String → ℕ)
    (rest : List String) (now : List Inventory) : Type 0 where
  pub unique : IsUnique a (inventory_columns a) "productTypeId" now
  pub pending :
      (p : String) → any (λ q. p == q) rest ≡ true → stocks_of p now ≡ stocks_of p inventory
  pub done :
      (p : String) → any (λ q. p == q) rest ≡ false → stocked p now ≡ stocked p inventory + booked p

module _ (a : Affinity) where
  stored_id :
      (p : String) (e : Inventory) (rows : List Inventory)
      → any (λ e. not (a.integer e.id == e.id)) rows ≡ false
      → stocks_of p rows ≡ e ∷ []
      → a.integer e.id ≡ e.id
  unfolding select any
  stored_id p e [] h one = cc
  stored_id p e (x ∷ rows) h one = ground (arith, eq_iff (a.integer x.id) x.id, stored_id p e rows)

  -- The row of a printed quantity holds that quantity.
  stored_quantity :
      (k : ℕ) (m : PlannedStockMutation)
      → IsPrinted k m
      → decimal (a.integer m.stock.quantity_available) ≡ k
  stored_quantity k m h = rw h.text (rw (a.integer-to_string k h.fits) (decimal-to_string k))

  module _ (inventory : List Inventory) (booked : String → ℕ) (p : String) (rest : List String)
      (now : List Inventory) (m : PlannedStockMutation) (stored : a.integer p ≡ p)
      (new : any (λ q. p == q) rest ≡ false)
      (planned : IsPlanned inventory p (stocked p inventory + booked p) m)
      (printed : IsPrinted (stocked p inventory + booked p) m)
      (h : IsWritten a inventory booked (p ∷ rest) now) where
    product : a.integer m.stock.product_type_id ≡ p
    product = ap a.integer planned.product ∙ stored

    now_as_before : stocks_of p now ≡ stocks_of p inventory
    now_as_before = h.pending p (unfold any in ground (arith, eq_refl p))

    by_product :
        select ((inventory_columns a).matches "productTypeId" m.stock.product_type_id) now
        ≡ stocks_of p inventory
    by_product = rw planned.product (stocks_by_product a p now stored ∙ now_as_before)

    added :
        (id : String)
        → stocks_of p inventory ≡ []
        → stocked p (now ++ insert_row (inventory_columns a) id m.stock ∷ [])
          ≡ stocked p inventory + booked p
    unfolding total
    added id nothing = ground (
      arith,
      stocks_of-insert a p p id m.stock now product,
      eq_refl p,
      now_as_before,
      nothing,
      stored_quantity _ m printed,
    )

    pub add-IsWritten :
        (id : String)
        → IsFresh (inventory_columns a) id m.stock now
        → stocks_of p inventory ≡ []
        → IsWritten a inventory booked rest
            (now ++ insert_row (inventory_columns a) id m.stock ∷ [])
    unfolding any total
    add-IsWritten id fresh nothing = record {
      unique =
          add-IsUnique a _ (stocks-IsKeyed a) "productTypeId" _ _ (product_column a) id m.stock now
            fresh (rw by_product (rw nothing refl)) h.unique;
      pending = λ q there. ground (
        arith,
        stocks_of-insert a p q id m.stock now product,
        h.pending q,
        eq_iff q p,
        eq_iff p q,
      );
      done = λ q gone.
          elim (String-cases q p)
            as (λ _.
              stocked q (now ++ insert_row (inventory_columns a) id m.stock ∷ [])
              ≡ stocked q inventory + booked q) [
                | inl same ↦
                    subst
                      (λ x.
                        stocked x (now ++ insert_row (inventory_columns a) id m.stock ∷ [])
                        ≡ stocked x inventory + booked x)
                      (sym same) (added id nothing)
                | inr other ↦
                    ground (arith, stocks_of-insert a p q id m.stock now product, h.done q, other)
              ];
    }

    pub add-AreRewritten :
        (stocks : String → Option PlannedStockMutation) (id : String)
        → stocks p ≡ some m
        → stocks_of p inventory ≡ []
        → AreRewritten a inventory stocks (p ∷ rest) now
        → AreRewritten a inventory stocks rest
            (now ++ insert_row (inventory_columns a) id m.stock ∷ [])
    add-AreRewritten stocks id there nothing written =
        rewrite_one a inventory p rest now stocks _ written
          (λ q other. ground (arith, stocks_of-insert a p q id m.stock now product, other))
          (subst
            (λ o.
              Rewritten a o (stocks_of p inventory)
                (stocks_of p (now ++ insert_row (inventory_columns a) id m.stock ∷ [])))
            (sym there)
            (
              id,
              stocks_of-insert a p p id m.stock now product
                  ∙ rw (eq_refl p) (rw (now_as_before ∙ nothing) refl),
              λ e one. absurd (cc (nothing, one)),
            ))

    -- The stock that there is: no other row has its id.
    module _ (e : Inventory) (one : stocks_of p inventory ≡ e ∷ [])
        (same_id : m.stock.id ≡ e.id) where
      matches_id : (a.integer m.stock.id == e.id) ≡ true
      matches_id = rw same_id (
          ground (
            arith,
            stored_id p e now h.unique.stored_ids (now_as_before ∙ one),
            eq_iff (a.integer e.id) e.id,
          ))

      by_id : select (λ x. a.integer m.stock.id == x.id) now ≡ e ∷ []
      by_id =
          same_one (λ x. a.integer m.stock.id == x.id) (λ x. p == x.product_type_id) now e
            (h.unique.one_by_id m.stock.id) (now_as_before ∙ one) matches_id

      mine :
          any (λ x. not (p == x.product_type_id)) (select (λ x. a.integer m.stock.id == x.id) now)
          ≡ false
      unfolding any
      mine =
          rw by_id (ground (arith, eq_iff p e.product_type_id, head-stocks_of p e [] inventory one))

      ours : any (λ x. not (a.integer m.stock.id == x.id)) (stocks_of p now) ≡ false
      unfolding any
      ours = rw (now_as_before ∙ one) (ground (arith, matches_id))

      updated :
          stocked p (update_rows (inventory_columns a) m.stock now) ≡ stocked p inventory + booked p
      unfolding total
      updated =
          rw (stocks_of-update_same a p m.stock now product mine ours)
            (rw (now_as_before ∙ one) (ground (arith, stored_quantity _ m printed)))

      pub update-IsWritten :
          IsWritten a inventory booked rest (update_rows (inventory_columns a) m.stock now)
      unfolding any
      update-IsWritten = record {
        unique =
            update-IsUnique a _ (stocks-IsKeyed a) "productTypeId" _ _ (product_column a) m.stock
              now (rw by_product (rw one (ground (arith, eq_iff e.id m.stock.id)))) h.unique;
        pending = λ q there. ground (
          arith,
          stocks_of-update_other a p q m.stock now,
          product,
          mine,
          h.pending q,
          eq_iff q p,
          eq_iff p q,
        );
        done = λ q gone.
            elim (String-cases q p)
              as (λ _.
                stocked q (update_rows (inventory_columns a) m.stock now)
                ≡ stocked q inventory + booked q) [
                  | inl same ↦
                      subst
                        (λ x.
                          stocked x (update_rows (inventory_columns a) m.stock now)
                          ≡ stocked x inventory + booked x)
                        (sym same) updated
                  | inr other ↦
                      ap total (stocks_of-update_other a p q m.stock now other product mine)
                      ∙ h.done q (ground (arith, other))
                ];
      }

      pub update-AreRewritten :
          (stocks : String → Option PlannedStockMutation)
          → stocks p ≡ some m
          → AreRewritten a inventory stocks (p ∷ rest) now
          → AreRewritten a inventory stocks rest (update_rows (inventory_columns a) m.stock now)
      update-AreRewritten stocks there written =
          rewrite_one a inventory p rest now stocks _ written
            (λ q other. stocks_of-update_other a p q m.stock now other product mine)
            (subst
              (λ o.
                Rewritten a o (stocks_of p inventory)
                  (stocks_of p (update_rows (inventory_columns a) m.stock now)))
              (sym there)
              (
                e.id,
                stocks_of-update_same a p m.stock now product mine ours
                    ∙ rw (now_as_before ∙ one) refl,
                λ x same. same_id_of e x (sym one ∙ same),
              ))
