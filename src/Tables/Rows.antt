-- ===== src/Tables/Rows.antt =====
-- What an INSERT, an UPDATE and a DELETE do to the rows that are found by an id.
use sage_store.Prelude.{
  String, ◌≡◌, refl, sym, ◌∙◌, Bool, false, inl, inr, List, [], ◌∷◌, ◌++◌, select, ◌==◌, eq_iff,
  arith, ap, map, String-cases,
}
use sage_store.Tables.{Affinity, Columns, insert_row, update_rows, delete_rows}
use sage_store.Tables.Laws.{IsFresh}

module _ {E : Type 0} (p q : E → Bool) where
  pub select_same : (rows : List E) → ((e : E) → p e ≡ q e) → select p rows ≡ select q rows
  unfolding select
  select_same [] h = refl
  select_same (e ∷ rest) h = ground (arith, h e, select_same rest h)

module _ {E : Type 0} (p : E → Bool) where
  pub select-append : (xs ys : List E) → select p (xs ++ ys) ≡ select p xs ++ select p ys
  unfolding select
  select-append [] ys = refl
  select-append (x ∷ xs) ys = ground (arith, select-append xs ys)

-- The id is an INTEGER column, and `with_id` sets it.
pub record IsKeyed {E : Type 0} (a : Affinity) (c : Columns E) : Type 0 where
  pub by_id : (id : String) (e : E) → c.matches "id" id e ≡ (a.integer id == c.id e)
  pub id_with_id : (id : String) (e : E) → c.id (c.with_id id e) ≡ id

-- The rows that an id finds.
abbrev pub found : {E : Type 0} → Columns E → String → List E → List E
found c id rows = select (c.matches "id" id) rows

module _ {E : Type 0} (a : Affinity) (c : Columns E) (k : IsKeyed a c) where
  -- Two ids that are the same number find the same rows.
  pub found_same :
      (i j : String) (rows : List E) → a.integer i ≡ a.integer j → found c i rows ≡ found c j rows
  found_same i j rows h =
      select_same _ _ rows (λ e. k.by_id i e ∙ ap (λ n. n == c.id e) h ∙ sym (k.by_id j e))

  pub found-update_other :
      (id : String) (u : E) (rows : List E)
      → (a.integer id == a.integer (c.id u)) ≡ false
      → found c id (update_rows c u rows) ≡ found c id rows
  unfolding select update_rows
  found-update_other id u [] h = refl
  found-update_other id u (e ∷ rest) h = ground (
    arith,
    k.by_id id e,
    k.by_id id (c.with_id (c.id e) (c.stored u)),
    k.by_id (c.id u) e,
    k.id_with_id (c.id e) (c.stored u),
    eq_iff (a.integer id) (c.id e),
    eq_iff (a.integer (c.id u)) (c.id e),
    eq_iff (a.integer id) (a.integer (c.id u)),
    found-update_other id u rest h,
  )

  -- Every row that the id finds is replaced.
  pub found-update_same :
      (id : String) (u : E) (rows : List E)
      → a.integer id ≡ a.integer (c.id u)
      → found c id (update_rows c u rows)
        ≡ map (λ r. c.with_id (c.id r) (c.stored u)) (found c id rows)
  unfolding select update_rows
  found-update_same id u [] h = refl
  found-update_same id u (e ∷ rest) h = ground (
    arith,
    k.by_id id e,
    k.by_id id (c.with_id (c.id e) (c.stored u)),
    k.by_id (c.id u) e,
    k.id_with_id (c.id e) (c.stored u),
    found-update_same id u rest h,
  )

  pub found-update_self :
      (id : String) (u e : E) (rows : List E)
      → a.integer id ≡ a.integer (c.id u)
      → found c id rows ≡ e ∷ []
      → found c id (update_rows c u rows) ≡ c.with_id (c.id e) (c.stored u) ∷ []
  found-update_self id u e rows h one =
      found-update_same id u rows h ∙ ap (map (λ r. c.with_id (c.id r) (c.stored u))) one

  pub found-delete_other :
      (id gone : String) (rows : List E)
      → (a.integer id == a.integer gone) ≡ false
      → found c id (delete_rows c gone rows) ≡ found c id rows
  unfolding select delete_rows
  found-delete_other id gone [] h = refl
  found-delete_other id gone (e ∷ rest) h = ground (
    arith,
    k.by_id id e,
    k.by_id gone e,
    eq_iff (a.integer id) (c.id e),
    eq_iff (a.integer gone) (c.id e),
    eq_iff (a.integer id) (a.integer gone),
    found-delete_other id gone rest h,
  )

  pub found-delete_self :
      (id gone : String) (rows : List E)
      → a.integer id ≡ a.integer gone
      → found c id (delete_rows c gone rows) ≡ []
  unfolding select delete_rows
  found-delete_self id gone [] h = refl
  found-delete_self id gone (e ∷ rest) h =
      ground (arith, k.by_id id e, k.by_id gone e, found-delete_self id gone rest h)

  -- An id of a row that is there is none that an INSERT gives.
  pub found-add_other :
      (id new : String) (e o : E) (rows : List E)
      → IsFresh c new e rows
      → found c id rows ≡ o ∷ []
      → found c id (rows ++ insert_row c new e ∷ []) ≡ o ∷ []
  unfolding select
  found-add_other id new e o rows fresh one = elim (String-cases (a.integer id) (a.integer new)) [
    | inl same ↦ cc (found_same id new rows same, one, fresh.unused)
    | inr other ↦
        select-append _ rows _
        ∙ rw one (
            ground (
              arith,
              other,
              fresh.found,
              k.by_id new (insert_row c new e),
              k.by_id id (insert_row c new e),
              k.id_with_id new (c.stored e),
              eq_iff (a.integer new) new,
            ))
  ]

  -- A row that an id finds has that id, as the column stores it.
  pub id-found :
      (id : String) (e : E) (rest rows : List E)
      → found c id rows ≡ e ∷ rest
      → a.integer id ≡ c.id e
  unfolding select
  id-found id e rest [] h = cc
  id-found id e rest (x ∷ rows) h =
      ground (arith, k.by_id id x, eq_iff (a.integer id) (c.id x), id-found id e rest rows)

  pub integer-id-found :
      (id : String) (e : E) (rest rows : List E)
      → found c id rows ≡ e ∷ rest
      → a.integer (c.id e) ≡ a.integer id
  integer-id-found id e rest rows h =
      ap a.integer (sym (id-found id e rest rows h)) ∙ a.integer_idem id
