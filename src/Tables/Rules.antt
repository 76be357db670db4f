-- ===== src/Tables/Rules.antt =====
-- Rules for the calls of a repository that meets the laws of its table.
use mathlib.Core.Path.{subst}
use sage_store.Prelude.{
  String, ◌≡◌, sym, refl, true, false, Bool-cases, inl, inr, List, select, is_empty,
}
use sage_store.Exec.{Result, ok, err, throw, Exec, ◌>>=◌, ◌>>◌}
use sage_store.Exec.Ensures.{Ensures, ensures-read, ensures_weaken}
use sage_store.Repositories.{IRepository}
use sage_store.ModuleUtils.{ensure_entity_exists}
use sage_store.Tables.{Tables, Columns}
use sage_store.Tables.Laws.{Views, Written, IsTable}

module _ {S E : Type 0} {v : Views S} {get : Tables → List E} {put : List E → Tables → Tables}
    {c : Columns E} {r : IRepository S E} (t : IsTable v get put c r) where
  -- The rows that a query by a field returns.
  abbrev pub rows_by : String → String → S → List E
  rows_by field value s = select (c.matches field value) (get (v.view s))

  pub ensures-get_by_field :
      {B : Type 0} {Q : Result B → S → Type 0} (field value : String) (f : List E → Exec S B)
      (s : S)
      → c.has field ≡ true
      → Ensures (f (rows_by field value s)) s Q
      → Ensures (r.get_by_field field value >>= f) s Q
  ensures-get_by_field field value f s h next =
      ensures-read (r.get_by_field field value) s f (t.get_by_field_lem field value s h) next

  pub ensures-get_all :
      {B : Type 0} {Q : Result B → S → Type 0} (f : List E → Exec S B) (s : S)
      → Ensures (f (get (v.view s))) s Q
      → Ensures (r.get_all >>= f) s Q
  ensures-get_all f s next = ensures-read r.get_all s f (t.get_all_lem s) next

  ensure_entity_exists_found :
      (field value component message : String) (s : S)
      → c.has field ≡ true
      → is_empty (rows_by field value s) ≡ false
      → ensure_entity_exists r field value component message s ≡ (ok tt, s)
  unfolding ensure_entity_exists
  ensure_entity_exists_found field value component message s h found =
      rw (t.get_by_field_lem field value s h) (rw found refl)

  ensure_entity_exists_missing :
      (field value component message : String) (s : S)
      → c.has field ≡ true
      → is_empty (rows_by field value s) ≡ true
      → ensure_entity_exists r field value component message s ≡ (throw component message, s)
  unfolding ensure_entity_exists
  ensure_entity_exists_missing field value component message s h found =
      rw (t.get_by_field_lem field value s h) (rw found refl)

  pub ensures-entity_exists :
      {B : Type 0} {Q : Result B → S → Type 0} (field value component message : String)
      (k : Exec S B) (s : S)
      → c.has field ≡ true
      → (is_empty (rows_by field value s) ≡ true → Q (throw component message) s)
      → (is_empty (rows_by field value s) ≡ false → Ensures k s Q)
      → Ensures (ensure_entity_exists r field value component message >> k) s Q
  unfolding ◌>>=◌
  ensures-entity_exists field value component message k s h missing found =
      elim (Bool-cases (is_empty (rows_by field value s))) [
        | inl none_there ↦ record {
          holds =
              rw (ensure_entity_exists_missing field value component message s h none_there)
                (missing none_there);
        }
        | inr some_there ↦ record {
          holds =
              rw (ensure_entity_exists_found field value component message s h some_there)
                ((found some_there).holds);
        }
      ]

-- A write keeps a property of the tables that holds before it and of the tables that it makes.
pub written_keeps :
    {S : Type 0} (v : Views S) (P : Tables → Type 0) (m : Exec S (Unit {0})) (s : S) (t : Tables)
    → Ensures m s (Written v t s)
    → P (v.view s)
    → P t
    → Ensures m s (λ _ s'. P (v.view s'))
written_keeps {S = S} v P m s t w before after = ensures_weaken w go
  where
    go : (r : Result (Unit {0})) (s' : S) → Written v t s r s' → P (v.view s')
    go (ok _) s' e = subst P (sym e.0) after
    go (err _) s' e = subst P (sym e.0) before
