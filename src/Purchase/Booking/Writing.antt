-- ===== src/Purchase/Booking/Writing.antt =====
-- The plan of a receipt, written in a transaction.
use sage_store.Prelude.{
  ℕ, String, ◌≡◌, refl, ap, true, false, inl, inr, Option, none, some, List, [], ◌∷◌, any, ◌==◌,
  eq_refl, arith,
}
use sage_store.Prelude.Assoc.{find}
use sage_store.Exec.{for_each}
use sage_store.Exec.Ensures.{Ensures, ensures-bind, ensures-if}
use sage_store.Entities.{Inventory}
use sage_store.Repositories.{RepositoryManager}
use sage_store.Tables.{Tables, Affinity}
use sage_store.Tables.Laws.{Views, IsDatabase}
use sage_store.Tables.Settled.{Ended, Written-Ended}
use sage_store.Purchase.Receipt.{PlannedStockMutation, Plan, write_mutation}
use sage_store.Purchase.Booking.Planned.{IsPlan, is_some, distinct}
use sage_store.Purchase.Booking.Rewritten.{AreRewritten}
use sage_store.Purchase.Booking.Writes.{
  IsWritten, add-IsWritten, update-IsWritten, add-AreRewritten, update-AreRewritten,
}

-- The tables differ in the stocks alone.
abbrev pub Restocked : Tables → Tables → Type 0
Restocked t t' = t' ≡ record t { inventory = t'.inventory }

restock :
    (t t' : Tables) (rows : List Inventory)
    → Restocked t t'
    → Restocked t (record t' { inventory = rows })
restock t t' rows h = ap (λ (x : Tables). record x { inventory = rows }) h

module _ {S : Type 0} (r : RepositoryManager S) {a : Affinity} {v : Views S} (d : IsDatabase a v r)
    (before : S) where
  module _ (booked : String → ℕ) (plan : Plan)
      (h : IsPlan a (v.view before).inventory booked plan) where
    -- The tables, when these product types are still to be written.
    abbrev pub Writing : List String → Tables → Type 0
    Writing rest t =
        Restocked (v.view before) t
        × IsWritten a (v.view before).inventory booked rest t.inventory
        × AreRewritten a (v.view before).inventory (λ p. find p plan.stocks) rest t.inventory

    write_mutation-Ended :
        (p : String) (rest : List String) (o : Option PlannedStockMutation) (s : S)
        → find p plan.stocks ≡ o
        → is_some o ≡ true
        → any (λ q. p == q) rest ≡ false
        → Writing (p ∷ rest) (v.view s)
        → v.saved s ≡ some (v.view before)
        → Ensures (write_mutation r o) s (Ended v (Writing rest) before)
    unfolding write_mutation
    write_mutation-Ended p rest none s e there new w kept = absurd (cc there)
    write_mutation-Ended p rest (some m) s e there new w kept =
        let facts = h.planned p m e in
        elim facts.0.target [
          | inl (creates, nothing) ↦
              ensures-if m.create _ _ s
                (λ _.
                  Written-Ended v (Writing rest) before _ s _ (d.inventory.add_lem m.stock s) kept (
                    restock (v.view before) (v.view s) _ w.0,
                    add-IsWritten a _ booked p rest _ m (h.stored p m e) new facts.0 facts.1 w.1 _
                        (d.inventory.new_id_fresh m.stock s) nothing,
                    add-AreRewritten a _ booked p rest _ m (h.stored p m e) new facts.0 facts.1 w.1
                        (λ q. find q plan.stocks) _ e nothing w.2,
                  ))
                (λ changes. absurd (cc (creates, changes)))
          | inr (changes, stock, one, same_id) ↦
              ensures-if m.create _ _ s (λ creates. absurd (cc (creates, changes)))
                (λ _.
                  Written-Ended v (Writing rest) before _ s _ (d.inventory.update_lem m.stock s)
                    kept
                    (
                      restock (v.view before) (v.view s) _ w.0,
                      update-IsWritten a _ booked p rest _ m (h.stored p m e) new facts.0 facts.1
                          w.1 stock one same_id,
                      update-AreRewritten a _ booked p rest _ m (h.stored p m e) new facts.0 facts.1
                          w.1 stock one same_id (λ q. find q plan.stocks) e w.2,
                    ))
        ]

    pub write_all-Ended :
        (order : List String) (s : S)
        → distinct order ≡ true
        → ((p : String) → any (λ q. p == q) order ≡ true → is_some (find p plan.stocks) ≡ true)
        → Writing order (v.view s)
        → v.saved s ≡ some (v.view before)
        → Ensures
            (for_each order (λ p. write_mutation r (find p plan.stocks)))
            s
            (Ended v (Writing []) before)
    unfolding for_each distinct any
    write_all-Ended [] s once there w kept = record { holds = (w, kept) }
    write_all-Ended (p ∷ rest) s once there w kept =
        ensures-bind (write_mutation r (find p plan.stocks)) s _
          (write_mutation-Ended p rest (find p plan.stocks) s refl
            (there p (ground (arith, eq_refl p))) (ground arith) w kept)
          (λ e s' ended. ended)
          (λ _ s' ended.
            write_all-Ended rest s' (ground arith) (λ q among. there q (ground (arith, among)))
              ended.0 ended.1)
