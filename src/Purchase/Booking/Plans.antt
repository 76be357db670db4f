-- ===== src/Purchase/Booking/Plans.antt =====
-- Planning a receipt: line item by line item, and all of them.
use sage_store.Prelude.{
  ℕ, ◌+◌, ◌≤◌, String, ◌≡◌, ◌⊎◌, refl, sym, ap, true, false, inl, inr, List, [], ◌∷◌, ◌++◌, Option,
  none, some, length, any, not, ◌==◌, eq_iff, arith, if◌then◌else◌,
}
use mathlib.Core.Path.{subst, fun_ext}
use sage_store.Prelude.Assoc.{find, assign, find-assign}
use sage_store.Prelude.Decimal.{decimal}
use sage_store.Exec.{Result, ok, err}
use sage_store.Exec.Ensures.{Ensures, ensures-lift, ensures-bind, ensures-pure}
use sage_store.Entities.{Inventory, PurchaseOrderRecord}
use sage_store.Repositories.{RepositoryManager}
use sage_store.Tables.{Affinity, inventory_columns}
use sage_store.Tables.Laws.{Views, IsDatabase}
use sage_store.Tables.Unique.{IsUnique}
use sage_store.Tables.Rules.{rows_by, ensures-entity_exists, ensures-get_by_field}
use sage_store.Purchase.Receipt.{
  PlannedStockMutation, Plan, empty_plan, first_mutation, receive, planned_order, planned_mutation,
  plan_record, plan_records,
}
use sage_store.Purchase.Booking.{stocks_of, stocked, ordered, stocks_by_product}
use sage_store.Purchase.Booking.Planned.{
  IsPlanned, IsPrinted, IsPlan, is_some, distinct, first_mutation-IsPlanned, receive-IsPlanned,
}

-- The booked quantities, with those of one more line item.
abbrev pub more : (String → ℕ) → String → ℕ → String → ℕ
more booked p k q = booked q + (if q == p then k else 0)

any-snoc :
    (q p : String) (order : List String)
    → any (λ x. q == x) (order ++ p ∷ []) ≡ (if q == p then true else any (λ x. q == x) order)
unfolding any
any-snoc q p [] = ground arith
any-snoc q p (x ∷ order) = ground (arith, any-snoc q p order)

distinct-snoc :
    (p : String) (order : List String)
    → distinct order ≡ true
    → any (λ x. p == x) order ≡ false
    → distinct (order ++ p ∷ []) ≡ true
unfolding any distinct
distinct-snoc p [] h new = refl
distinct-snoc p (x ∷ order) h new =
    ground (arith, any-snoc x p order, eq_iff x p, eq_iff p x, distinct-snoc p order)

module _ (a : Affinity) (inventory : List Inventory) where
  pub empty_plan-IsPlan : IsPlan a inventory (λ _. 0) empty_plan
  empty_plan-IsPlan =
      unfold find any distinct in
      record {
        absent = λ p h. refl;
        stored = λ p m h. absurd (cc h);
        planned = λ p m h. absurd (cc h);
        in_order = λ p. refl;
        once = refl;
      }

  exactly_same :
      (p q : String) (k k' : ℕ) (m m' : PlannedStockMutation)
      → p ≡ q
      → k ≡ k'
      → m ≡ m'
      → IsPlanned inventory p k m × IsPrinted k m
      → IsPlanned inventory q k' m' × IsPrinted k' m'
  exactly_same p q k k' m m' ep ek em h =
      subst (λ p. IsPlanned inventory p k' m' × IsPrinted k' m') ep
        (subst (λ k. IsPlanned inventory p k m' × IsPrinted k m') ek
          (subst (λ m. IsPlanned inventory p k m × IsPrinted k m) em h))

  find_assigned :
      (p q : String) (m m' : PlannedStockMutation) (stocks : List (String × PlannedStockMutation))
      → find q (assign p m stocks) ≡ some m'
      → ((q ≡ p) × (m ≡ m')) ⊎ (((q == p) ≡ false) × (find q stocks ≡ some m'))
  find_assigned p q m m' stocks h = ground (arith, find-assign p q m stocks, eq_iff p q, eq_iff q p)

  -- The plan with the mutation of one more line item.
  pub next_plan-IsPlan :
      (booked : String → ℕ) (plan : Plan) (p : String) (k : ℕ) (m : PlannedStockMutation)
      → IsPlan a inventory booked plan
      → a.integer p ≡ p
      → IsPlanned inventory p (stocked p inventory + booked p + k) m
        × IsPrinted (stocked p inventory + booked p + k) m
      → IsPlan a inventory (more booked p k) (record {
        stocks = assign p m plan.stocks;
        order = planned_order (find p plan.stocks) p plan.order;
      })
  next_plan-IsPlan booked plan p k m h stored new = record {
    absent = λ q none_there.
        ground (arith, find-assign p q m plan.stocks, eq_iff p q, eq_iff q p, h.absent q);
    stored = λ q m' there. elim (find_assigned p q m m' plan.stocks there) [
      | inl (same, _) ↦ ground arith
      | inr (other, before) ↦ h.stored q m' before
    ];
    planned = λ q m' there. elim (find_assigned p q m m' plan.stocks there) [
      | inl (same, mine) ↦
          exactly_same p q _ _ m m' (sym same)
            (ground (arith, eq_iff q p, ap (λ x. stocked x inventory) same, ap booked same)) mine
            new
      | inr (other, before) ↦
          exactly_same q q _ _ m' m' refl (ground arith) refl (h.planned q m' before)
    ];
    in_order = λ q. in_order_next q (find p plan.stocks) refl;
    once = once_next (find p plan.stocks) refl;
  }
    where
      in_order_next :
          (q : String) (o : Option PlannedStockMutation)
          → find p plan.stocks ≡ o
          → any (λ x. q == x) (planned_order o p plan.order)
            ≡ is_some (find q (assign p m plan.stocks))
      in_order_next q none e = ground (
        arith,
        any-snoc q p plan.order,
        find-assign p q m plan.stocks,
        eq_iff p q,
        eq_iff q p,
        h.in_order q,
      )
      in_order_next q (some x) e =
          ground (arith, find-assign p q m plan.stocks, eq_iff p q, h.in_order q)

      once_next :
          (o : Option PlannedStockMutation)
          → find p plan.stocks ≡ o
          → distinct (planned_order o p plan.order) ≡ true
      once_next none e = distinct-snoc p plan.order h.once (ground (arith, h.in_order p))
      once_next (some x) e = h.once

module _ {S : Type 0} (r : RepositoryManager S) {a : Affinity} {v : Views S} (d : IsDatabase a v r)
    (before : S)
    (unique : IsUnique a (inventory_columns a) "productTypeId" (v.view before).inventory) where
  -- Planning only reads, and ends with a plan that books these quantities.
  abbrev pub Plans : (String → ℕ) → Result Plan → S → Type 0
  Plans booked (ok plan) s' = (s' ≡ before) × IsPlan a (v.view before).inventory booked plan
  Plans booked (err _) s' = s' ≡ before

  abbrev PlansOne : String → ℕ → Result PlannedStockMutation → S → Type 0
  PlansOne p k (ok m) s' = (s' ≡ before) × IsPlanned (v.view before).inventory p k m
  PlansOne p k (err _) s' = s' ≡ before

  few_stocks : (p : String) → a.integer p ≡ p → length (stocks_of p (v.view before).inventory) ≤ 1
  few_stocks p stored =
      subst (λ rows. length rows ≤ 1) (stocks_by_product a p (v.view before).inventory stored)
        (unique.one_by_key p)

  -- The mutation of a product type that the plan does not have yet.
  pub found_mutation-IsPlanned :
      (booked : String → ℕ) (plan : Plan) (p employee : String)
      → IsPlan a (v.view before).inventory booked plan
      → a.integer p ≡ p
      → find p plan.stocks ≡ none
      → IsPlanned
          (v.view before).inventory
          p
          (stocked p (v.view before).inventory + booked p)
          (first_mutation p employee (rows_by d.inventory "productTypeId" p before))
  found_mutation-IsPlanned booked plan p employee h stored e =
      let nothing : stocked p (v.view before).inventory
          ≡ stocked p (v.view before).inventory + booked p =
        ground (arith, h.absent p e) in
      subst
        (λ rows.
          IsPlanned (v.view before).inventory p (stocked p (v.view before).inventory + booked p)
            (first_mutation p employee rows))
        (sym (stocks_by_product a p (v.view before).inventory stored))
        (subst
          (λ k.
            IsPlanned (v.view before).inventory p k
              (first_mutation p employee (stocks_of p (v.view before).inventory)))
          nothing
          (first_mutation-IsPlanned (v.view before).inventory p employee (few_stocks p stored)))

  planned_mutation-PlansOne :
      (booked : String → ℕ) (plan : Plan) (p employee : String) (o : Option PlannedStockMutation)
      → IsPlan a (v.view before).inventory booked plan
      → a.integer p ≡ p
      → find p plan.stocks ≡ o
      → Ensures
          (planned_mutation r o p employee)
          before
          (PlansOne p (stocked p (v.view before).inventory + booked p))
  unfolding planned_mutation
  planned_mutation-PlansOne booked plan p employee none h stored e =
      ensures-get_by_field d.inventory "productTypeId" p _ before refl
        (ensures-pure _ before (refl, found_mutation-IsPlanned booked plan p employee h stored e))
  planned_mutation-PlansOne booked plan p employee (some m) h stored e =
      ensures-pure m before (refl, (h.planned p m e).0)

  plan_record-Plans :
      (booked : String → ℕ) (plan : Plan) (employee : String) (l : PurchaseOrderRecord)
      → IsPlan a (v.view before).inventory booked plan
      → a.integer l.product_type_id ≡ l.product_type_id
      → Ensures
          (plan_record r employee l plan)
          before
          (Plans (more booked l.product_type_id (decimal l.quantity)))
  unfolding plan_record
  plan_record-Plans booked plan employee l h stored =
      ensures-entity_exists d.product_types _ _ _ _ _ before refl (λ _. refl)
        λ _.
          ensures-bind _ before _
            (planned_mutation-PlansOne booked plan l.product_type_id employee
              (find l.product_type_id plan.stocks) h stored refl)
            (λ e s' same. same)
            λ m s' one.
              ensures-lift (receive employee l.quantity m) _ s' (λ _. one.0)
                λ m' e. ensures-pure _ s' (
                  one.0,
                  next_plan-IsPlan a _ booked plan l.product_type_id (decimal l.quantity) m' h
                      stored
                      (receive-IsPlanned _ l.product_type_id employee l.quantity _ m m' one.1 e),
                )

  pub plan_records-Plans :
      (booked : String → ℕ) (plan : Plan) (employee : String) (lines : List PurchaseOrderRecord)
      → IsPlan a (v.view before).inventory booked plan
      → any (λ l. not (a.integer l.product_type_id == l.product_type_id)) lines ≡ false
      → Ensures
          (plan_records r employee lines plan)
          before
          (Plans (λ q. booked q + ordered q lines))
  unfolding plan_records any
  plan_records-Plans booked plan employee [] h stored =
      let same : (q : String) → booked q ≡ booked q + ordered q [] =
        λ q. unfold ordered in omega arith in
      ensures-pure plan before
        (refl, subst (λ n. IsPlan a (v.view before).inventory n plan) (fun_ext same) h)
  plan_records-Plans booked plan employee (l ∷ rest) h stored =
      let same : (q : String)
          → more booked l.product_type_id (decimal l.quantity) q + ordered q rest
            ≡ booked q + ordered q (l ∷ rest) =
        λ q. unfold ordered in ground arith in
      ensures-bind (plan_record r employee l plan) before _
        (plan_record-Plans booked plan employee l h
          (ground (arith, eq_iff (a.integer l.product_type_id) l.product_type_id)))
        (λ e s' unchanged. unchanged)
        (λ next s' one.
          subst
            (λ u.
              Ensures (plan_records r employee rest next) u
                (Plans (λ q. booked q + ordered q (l ∷ rest))))
            (sym one.0)
            (subst (λ n. Ensures (plan_records r employee rest next) before (Plans n))
              (fun_ext same)
              (plan_records-Plans (more booked l.product_type_id (decimal l.quantity)) next employee
                rest one.1
                (ground (arith, eq_iff (a.integer l.product_type_id) l.product_type_id)))))
