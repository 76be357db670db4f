-- ===== src/Purchase/Booking/Returns.antt =====
-- When a receipt succeeds.
use mathlib.Core.Path.{subst, fun_ext}
use sage_store.Prelude.{
  ℕ, ◌+◌, ◌≤◌, String, ◌≡◌, refl, sym, true, false, List, [], ◌∷◌, Option, none, some, any, not,
  ◌==◌, eq_iff, eq_refl, arith, is_empty,
}
use sage_store.Prelude.Assoc.{find}
use sage_store.Prelude.Decimal.{decimal}
use sage_store.Exec.{Result, ok, err}
use sage_store.Exec.Ensures.{Ensures, ensures-lift_ok, ensures-bind, ensures-pure}
use sage_store.Entities.{PurchaseOrderRecord}
use sage_store.Repositories.{RepositoryManager}
use sage_store.ModuleUtils.{llong_max, is_digits}
use sage_store.Tables.{Affinity, inventory_columns}
use sage_store.Tables.Laws.{Views, IsDatabase}
use sage_store.Tables.Unique.{IsUnique}
use sage_store.Tables.Rules.{rows_by, ensures-entity_exists, ensures-get_by_field}
use sage_store.Purchase.Receipt.{
  PlannedStockMutation, Plan, first_mutation, receive, planned_mutation, plan_record, plan_records,
}
use sage_store.Purchase.Quantities.{is_digits-to_string}
use sage_store.Purchase.Booking.{stocked, ordered, stocks_by_product}
use sage_store.Purchase.Booking.Planned.{IsPlanned, IsPlan, receive-IsPlanned}
use sage_store.Purchase.Booking.Plans.{more, next_plan-IsPlan, found_mutation-IsPlanned}
use sage_store.Purchase.Booking.Accepted.{receive_accepts, first_mutation_digits}

-- The call returns, with a result and a state that satisfy `Q`.
abbrev pub Returning : {S A : Type 0} → (A → S → Type 0) → Result A → S → Type 0
Returning Q (ok x) s = Q x s
Returning Q (err _) s = ⊥

module _ {S : Type 0} (r : RepositoryManager S) {a : Affinity} {v : Views S} (d : IsDatabase a v r)
    (before : S) where
  -- Line items of product types that there are, with quantities that are numbers.
  pub record IsBookable (lines : List PurchaseOrderRecord) : Type 0 where
    pub stored : any (λ l. not (a.integer l.product_type_id == l.product_type_id)) lines ≡ false
    pub known :
        any (λ l. is_empty (rows_by d.product_types "id" l.product_type_id before)) lines ≡ false
    pub numbers : any (λ l. not (is_digits l.quantity)) lines ≡ false

module _ {S : Type 0} (r : RepositoryManager S) {a : Affinity} {v : Views S} (d : IsDatabase a v r)
    (before : S)
    (unique : IsUnique a (inventory_columns a) "productTypeId" (v.view before).inventory)
    (digits : any (λ e. not (is_digits e.quantity_available)) (v.view before).inventory
      ≡ false) where
  abbrev PlansDigits : String → ℕ → PlannedStockMutation → S → Type 0
  PlansDigits p k m s' =
      (s' ≡ before)
      × IsPlanned (v.view before).inventory p k m
      × (is_digits m.stock.quantity_available ≡ true)

  planned_mutation-Returning :
      (booked : String → ℕ) (plan : Plan) (p employee : String) (o : Option PlannedStockMutation)
      → IsPlan a (v.view before).inventory booked plan
      → a.integer p ≡ p
      → find p plan.stocks ≡ o
      → Ensures
          (planned_mutation r o p employee)
          before
          (Returning (PlansDigits p (stocked p (v.view before).inventory + booked p)))
  unfolding planned_mutation
  planned_mutation-Returning booked plan p employee none h stored e =
      ensures-get_by_field d.inventory "productTypeId" p _ before refl (
        ensures-pure _ before (
          refl,
          found_mutation-IsPlanned r d before unique booked plan p employee h stored e,
          subst (λ rows. is_digits (first_mutation p employee rows).stock.quantity_available ≡ true)
              (sym (stocks_by_product a p (v.view before).inventory stored))
              (first_mutation_digits p employee _ digits),
        ))
  planned_mutation-Returning booked plan p employee (some m) h stored e =
      ensures-pure m before
        (refl, (h.planned p m e).0, rw (h.planned p m e).1.text (is_digits-to_string _))

  plan_record-Returning :
      (booked : String → ℕ) (plan : Plan) (employee : String) (l : PurchaseOrderRecord)
      → IsPlan a (v.view before).inventory booked plan
      → a.integer l.product_type_id ≡ l.product_type_id
      → is_empty (rows_by d.product_types "id" l.product_type_id before) ≡ false
      → is_digits l.quantity ≡ true
      → stocked l.product_type_id (v.view before).inventory
          + booked l.product_type_id
          + decimal l.quantity
        ≤ llong_max
      → Ensures (plan_record r employee l plan) before (
          Returning (λ next s'.
            (s' ≡ before)
            × IsPlan a
                (v.view before).inventory
                (more booked l.product_type_id (decimal l.quantity))
                next))
  unfolding plan_record
  plan_record-Returning booked plan employee l h stored exists number fits =
      ensures-entity_exists d.product_types _ _ _ _ _ before refl
        (λ missing. absurd (cc (missing, exists)))
        λ _.
          ensures-bind _ before _
            (planned_mutation-Returning booked plan l.product_type_id employee
              (find l.product_type_id plan.stocks) h stored refl)
            (λ e s' never. absurd never)
            λ m s' one.
              let (m', received) =
                receive_accepts _ l.product_type_id employee l.quantity _ m one.1 one.2 number
                  fits in
              ensures-lift_ok (receive employee l.quantity m) _ m' s' received (
                ensures-pure _ s' (
                  one.0,
                  next_plan-IsPlan a _ booked plan l.product_type_id (decimal l.quantity) m' h
                      stored
                      (receive-IsPlanned _ l.product_type_id employee l.quantity _ m m' one.1
                        received),
                ))

  rest-IsBookable :
      (l : PurchaseOrderRecord) (lines : List PurchaseOrderRecord)
      → IsBookable r d before (l ∷ lines)
      → IsBookable r d before lines
  unfolding any
  rest-IsBookable l lines h = record {
    stored = ground arith;
    known = ground arith;
    numbers = ground arith;
  }

  first-IsBookable :
      (l : PurchaseOrderRecord) (lines : List PurchaseOrderRecord)
      → IsBookable r d before (l ∷ lines)
      → (a.integer l.product_type_id ≡ l.product_type_id)
        × (is_empty (rows_by d.product_types "id" l.product_type_id before) ≡ false)
        × (is_digits l.quantity ≡ true)
  unfolding any
  first-IsBookable l lines h = (
    ground (arith, eq_iff (a.integer l.product_type_id) l.product_type_id),
    ground arith,
    ground arith,
  )

  pub plan_records-Returning :
      (booked : String → ℕ) (plan : Plan) (employee : String) (lines : List PurchaseOrderRecord)
      → IsPlan a (v.view before).inventory booked plan
      → IsBookable r d before lines
      → ((p : String)
          → stocked p (v.view before).inventory + booked p + ordered p lines ≤ llong_max)
      → Ensures (plan_records r employee lines plan) before (
          Returning (λ next s'.
            (s' ≡ before)
            × IsPlan a (v.view before).inventory (λ q. booked q + ordered q lines) next))
  unfolding plan_records
  plan_records-Returning booked plan employee [] h ok_lines fits =
      let same : (q : String) → booked q ≡ booked q + ordered q [] =
        λ q. unfold ordered in omega arith in
      ensures-pure plan before
        (refl, subst (λ n. IsPlan a (v.view before).inventory n plan) (fun_ext same) h)
  plan_records-Returning booked plan employee (l ∷ rest) h ok_lines fits =
      let same : (q : String)
          → more booked l.product_type_id (decimal l.quantity) q + ordered q rest
            ≡ booked q + ordered q (l ∷ rest) =
        λ q. unfold ordered in ground arith in
      let first = first-IsBookable l rest ok_lines in
      ensures-bind (plan_record r employee l plan) before _
        (plan_record-Returning booked plan employee l h first.0 first.1 first.2
          (unfold ordered in ground (arith, fits l.product_type_id, eq_refl l.product_type_id)))
        (λ e s' never. absurd never)
        (λ next s' one.
          subst
            (λ u. Ensures (plan_records r employee rest next) u (
              Returning (λ next s'.
                (s' ≡ before)
                × IsPlan a (v.view before).inventory (λ q. booked q + ordered q (l ∷ rest)) next)))
            (sym one.0)
            (subst
              (λ n.
                Ensures (plan_records r employee rest next) before (
                  Returning (λ next s'. (s' ≡ before) × IsPlan a (v.view before).inventory n next)))
              (fun_ext same)
              (plan_records-Returning (more booked l.product_type_id (decimal l.quantity)) next
                employee rest one.1 (rest-IsBookable l rest ok_lines)
                (λ q. ground (arith, fits q, same q)))))
