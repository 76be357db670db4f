-- ===== src/Purchase/Booking/Rewritten.antt =====
-- What the writes of a plan make of the stocks, product type by product type.
use mathlib.Core.Path.{subst}
use sage_store.Prelude.{
  String, ◌≡◌, sym, ap, false, String-cases, inl, inr, List, [], ◌∷◌, Option, none, some, any, ◌==◌,
  arith,
}
use sage_store.Entities.{Inventory}
use sage_store.Tables.{Affinity, inventory_columns, insert_row}
use sage_store.Purchase.Receipt.{PlannedStockMutation}
use sage_store.Purchase.Booking.{stocks_of}

pub same_id_of : (e x : Inventory) → e ∷ [] ≡ x ∷ [] → e.id ≡ x.id
same_id_of e x h = let same : e ≡ x = cc h in ap (λ (y : Inventory). y.id) same

-- What becomes of the stocks of a product type: they are as they were without a mutation, and with
-- one there is one stock, which has the id of that before, if there was one.
abbrev pub Rewritten :
    Affinity → Option PlannedStockMutation → List Inventory → List Inventory → Type 0
Rewritten a none before now = now ≡ before
Rewritten a (some m) before now =
    (id : String) × (now ≡ insert_row (inventory_columns a) id m.stock ∷ [])
    × ((e : Inventory) → before ≡ e ∷ [] → id ≡ e.id)

-- The same of all product types but those that are still to be written.
abbrev pub AreRewritten :
    Affinity
    → List Inventory
    → (String → Option PlannedStockMutation)
    → List String
    → List Inventory
    → Type 0
AreRewritten a inventory stocks rest now =
    (p : String)
    → any (λ q. p == q) rest ≡ false
    → Rewritten a (stocks p) (stocks_of p inventory) (stocks_of p now)

module _ (a : Affinity) (inventory : List Inventory) (p : String) (rest : List String)
    (now : List Inventory) where
  -- The stocks after a write of this one, when the others are as they were.
  pub rewrite_one :
      (stocks : String → Option PlannedStockMutation) (after : List Inventory)
      → AreRewritten a inventory stocks (p ∷ rest) now
      → ((q : String) → (q == p) ≡ false → stocks_of q after ≡ stocks_of q now)
      → Rewritten a (stocks p) (stocks_of p inventory) (stocks_of p after)
      → AreRewritten a inventory stocks rest after
  unfolding any
  rewrite_one stocks after written others mine q gone =
      elim (String-cases q p)
        as (λ _. Rewritten a (stocks q) (stocks_of q inventory) (stocks_of q after)) [
          | inl same ↦
              subst (λ x. Rewritten a (stocks x) (stocks_of x inventory) (stocks_of x after))
                (sym same) mine
          | inr other ↦
              subst (λ rows. Rewritten a (stocks q) (stocks_of q inventory) rows)
                (sym (others q other)) (written q (ground (arith, other)))
        ]
