-- ===== src/Tables/Unique.antt =====
-- Columns of which every value stands in one row at most, and the writes that keep them so.
use sage_store.Prelude.{
  ℕ, ◌≤◌, ◌+◌, String, ◌≡◌, refl, Bool, true, false, not, List, [], ◌∷◌, ◌++◌, select, any, length,
  ◌==◌, eq_iff, arith, inl, inr, String-cases, is_empty, if◌then◌else◌,
}
use sage_store.Tables.{Affinity, Columns, insert_row, update_rows, delete_rows}
use sage_store.Tables.Laws.{IsFresh}
use sage_store.Tables.Rows.{IsKeyed, found_same}

-- How many rows pass a test.
abbrev pub count : {E : Type 0} → (E → Bool) → List E → ℕ
count p rows = length (select p rows)

-- A column that holds `key`, and that stores and compares texts by way of `norm`.
pub record IsKeyColumn {E : Type 0} (c : Columns E) (field : String) (key : E → String)
    (norm : String → String) : Type 0 where
  pub by_key : (value : String) (e : E) → c.matches field value e ≡ (norm value == key e)
  pub key_with_id : (id : String) (e : E) → key (c.with_id id e) ≡ key e
  pub key_stored : (e : E) → key (c.stored e) ≡ norm (key e)

-- Every value of the column stands in one row at most, every id finds one row at most, and the ids
-- are texts as their column stores them.
pub record IsUnique {E : Type 0} (a : Affinity) (c : Columns E) (field : String) (rows : List E)
    : Type 0 where
  pub one_by_key : (value : String) → count (c.matches field value) rows ≤ 1
  pub one_by_id : (id : String) → count (c.matches "id" id) rows ≤ 1
  pub stored_ids : any (λ e. not (a.integer (c.id e) == c.id e)) rows ≡ false

module _ {E : Type 0} (p q : E → Bool) where
  count-select : (rows : List E) → count p (select q rows) ≤ count p rows
  unfolding select
  count-select [] = omega arith
  count-select (e ∷ rest) = ground (arith, count-select rest)

  pub any-select : (rows : List E) → any p rows ≡ false → any p (select q rows) ≡ false
  unfolding select any
  any-select [] h = refl
  any-select (e ∷ rest) h = ground (arith, any-select rest)

module _ {E : Type 0} (p : E → Bool) where
  count-append : (xs ys : List E) → count p (xs ++ ys) ≡ count p xs + count p ys
  unfolding select
  count-append [] ys = omega arith
  count-append (x ∷ xs) ys = ground (arith, count-append xs ys)

  any-append : (xs ys : List E) → any p xs ≡ false → any p ys ≡ false → any p (xs ++ ys) ≡ false
  unfolding any
  any-append [] ys hx hy = hy
  any-append (x ∷ xs) ys hx hy = ground (arith, any-append xs ys)

module _ {E : Type 0} (a : Affinity) (c : Columns E) (k : IsKeyed a c) (field : String)
    (key : E → String) (norm : String → String) (column : IsKeyColumn c field key norm) where
  pub delete-IsUnique :
      (id : String) (rows : List E)
      → IsUnique a c field rows
      → IsUnique a c field (delete_rows c id rows)
  unfolding delete_rows
  delete-IsUnique id rows u = record {
    one_by_key = λ v. ground (
      arith,
      count-select (c.matches field v) (λ r. not (c.matches "id" id r)) rows,
      u.one_by_key v,
    );
    one_by_id = λ v. ground (
      arith,
      count-select (c.matches "id" v) (λ r. not (c.matches "id" id r)) rows,
      u.one_by_id v,
    );
    stored_ids = any-select _ _ rows u.stored_ids;
  }

  count-update_id :
      (id : String) (u : E) (rows : List E)
      → count (c.matches "id" id) (update_rows c u rows) ≡ count (c.matches "id" id) rows
  unfolding select update_rows
  count-update_id id u [] = refl
  count-update_id id u (e ∷ rest) = ground (
    arith,
    k.by_id id e,
    k.by_id id (c.with_id (c.id e) (c.stored u)),
    k.id_with_id (c.id e) (c.stored u),
    count-update_id id u rest,
  )

  any-update_id :
      (u : E) (rows : List E)
      → any (λ e. not (a.integer (c.id e) == c.id e)) rows ≡ false
      → any (λ e. not (a.integer (c.id e) == c.id e)) (update_rows c u rows) ≡ false
  unfolding any update_rows
  any-update_id u [] h = refl
  any-update_id u (e ∷ rest) h =
      ground (arith, k.id_with_id (c.id e) (c.stored u), any-update_id u rest)

  -- Another value of the column loses rows at most.
  count-update_other :
      (value : String) (u : E) (rows : List E)
      → (norm value == norm (key u)) ≡ false
      → count (c.matches field value) (update_rows c u rows) ≤ count (c.matches field value) rows
  unfolding select update_rows
  count-update_other value u [] h = omega arith
  count-update_other value u (e ∷ rest) h = ground (
    arith,
    column.by_key value (c.with_id (c.id e) (c.stored u)),
    column.key_with_id (c.id e) (c.stored u),
    column.key_stored u,
    count-update_other value u rest h,
  )

  -- If only the row of that id may have the new value, then so it is afterwards.
  count-update_new :
      (value : String) (u : E) (rows : List E)
      → norm value ≡ norm (key u)
      → any (λ e. not (a.integer (c.id e) == c.id e)) rows ≡ false
      → any (λ e. not (c.id e == c.id u)) (select (c.matches field (key u)) rows) ≡ false
      → count (c.matches field value) (update_rows c u rows) ≤ count (c.matches "id" (c.id u)) rows
  unfolding select any update_rows
  count-update_new value u [] h stored alone = omega arith
  count-update_new value u (e ∷ rest) h stored alone = ground (
    arith,
    column.by_key value e,
    column.by_key (key u) e,
    k.by_id (c.id u) e,
    eq_iff (c.id e) (c.id u),
    eq_iff (a.integer (c.id e)) (c.id e),
    eq_iff (a.integer (c.id u)) (c.id e),
    count-update_new value u rest h,
  )

  pub update-IsUnique :
      (u : E) (rows : List E)
      → any (λ e. not (c.id e == c.id u)) (select (c.matches field (key u)) rows) ≡ false
      → IsUnique a c field rows
      → IsUnique a c field (update_rows c u rows)
  update-IsUnique u rows alone h = record {
    one_by_key = λ v. elim (String-cases (norm v) (norm (key u))) [
      | inl same ↦
          ground (arith, count-update_new v u rows same h.stored_ids alone, h.one_by_id (c.id u))
      | inr other ↦ ground (arith, count-update_other v u rows other, h.one_by_key v)
    ];
    one_by_id = λ v. ground (arith, count-update_id v u rows, h.one_by_id v);
    stored_ids = any-update_id u rows h.stored_ids;
  }

  select_by_key :
      (v w : String) (rows : List E)
      → norm v ≡ norm w
      → count (c.matches field v) rows ≡ count (c.matches field w) rows
  unfolding select
  select_by_key v w [] h = refl
  select_by_key v w (e ∷ rest) h =
      ground (arith, column.by_key v e, column.by_key w e, select_by_key v w rest h)

  count-insert :
      (value id : String) (e : E)
      → count (c.matches field value) (insert_row c id e ∷ [])
        ≡ (if norm value == norm (key e) then 1 else 0)
  unfolding select
  count-insert value id e = ground (
    arith,
    column.by_key value (insert_row c id e),
    column.key_with_id id (c.stored e),
    column.key_stored e,
  )

  pub add-IsUnique :
      (id : String) (e : E) (rows : List E)
      → IsFresh c id e rows
      → is_empty (select (c.matches field (key e)) rows) ≡ true
      → IsUnique a c field rows
      → IsUnique a c field (rows ++ insert_row c id e ∷ [])
  add-IsUnique id e rows fresh none_there h = record {
    one_by_key = λ v. rw (count-append (c.matches field v) rows (insert_row c id e ∷ [])) (
        rw count-insert (
          ground
            (arith, select_by_key v (key e) rows, eq_iff (norm v) (norm (key e)), h.one_by_key v)));
    one_by_id = λ v.
        rw (count-append (c.matches "id" v) rows (insert_row c id e ∷ []))
          (elim (String-cases (a.integer v) (a.integer id)) [
            | inl same ↦
                unfold select in ground (arith, found_same a c k v id rows same, fresh.unused)
            | inr other ↦
                unfold select in
                ground (
                  arith,
                  h.one_by_id v,
                  k.by_id v (insert_row c id e),
                  k.by_id id (insert_row c id e),
                  k.id_with_id id (c.stored e),
                  fresh.found,
                  eq_iff (a.integer id) id,
                )
          ]);
    stored_ids = any-append _ rows _ h.stored_ids (
        unfold any in
        ground (
          arith,
          k.by_id id (insert_row c id e),
          k.id_with_id id (c.stored e),
          fresh.found,
          eq_iff (a.integer id) id,
        ));
  }
