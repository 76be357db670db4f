-- ===== src/Sql/Schema.antt =====
-- scripts/create_db.sql: the columns of the tables behind their id, and what is stored in them.
use sage_store.Prelude.{
  String, Bool, true, false, not, ◌&&◌, List, [], ◌∷◌, Option, none, some, is_blank, map,
  if◌then◌else◌,
}
use sage_store.Prelude.Assoc.{find}
use sage_store.Tables.{Affinity}
use sage_store.Sql.Grammar.{Value, param, null_if_blank}

-- The affinity of a declared type.
pub data ColumnType : Type 0 where
  text integer numeric real : ColumnType

pub record Column : Type 0 where
  pub name : String
  pub type : ColumnType
  -- the text of the default, which is empty for NULL
  pub default : String
  -- whether the column refers to the id of another table
  pub refers : Bool

abbrev plain : String → ColumnType → Column
plain name type = record { name = name; type = type; default = ""; refers = false }

abbrev reference : String → Column
reference name = record { name = name; type = integer; default = ""; refers = true }

abbrev person_columns : List Column
person_columns =
    plain "name" text ∷ plain "number" text ∷ plain "email" text ∷ plain "address" text ∷ []

abbrev line_columns : List Column
line_columns =
    reference "orderId"
    ∷ reference "productTypeId"
    ∷ plain "quantity" integer
    ∷ plain "price" real
    ∷ []

-- `CREATE TABLE`
unfoldable pub schema : List (String × List Column)
schema =
    ("Role", plain "name" text ∷ [])
    ∷ (
      "User",
      plain "username" text
          ∷ plain "password" text
          ∷ record (reference "roleId") { default = "1" }
          ∷ [],
    )
    ∷ ("Log", reference "userId" ∷ plain "action" text ∷ plain "timestamp" numeric ∷ [])
    ∷ (
      "Contact",
      plain "name" text ∷ plain "type" text ∷ plain "email" text ∷ plain "phone" text ∷ [],
    )
    ∷ ("Employee", person_columns)
    ∷ ("Supplier", person_columns)
    ∷ (
      "SuppliersProductInfo",
      reference "supplierID" ∷ reference "productTypeId" ∷ plain "code" text ∷ [],
    )
    ∷ ("ProductInfo", reference "productTypeId" ∷ plain "name" text ∷ plain "value" text ∷ [])
    ∷ (
      "ProductType",
      plain "code" text
          ∷ plain "barcode" text
          ∷ plain "name" text
          ∷ plain "description" text
          ∷ plain "lastPrice" real
          ∷ plain "unit" text
          ∷ plain "isImported" numeric
          ∷ [],
    )
    ∷ (
      "Inventory",
      reference "productTypeId" ∷ plain "quantityAvailable" integer ∷ reference "employeeId" ∷ [],
    )
    ∷ (
      "SaleOrder",
      plain "date" numeric
          ∷ reference "userId"
          ∷ reference "contactId"
          ∷ reference "employeeId"
          ∷ plain "status" text
          ∷ [],
    )
    ∷ ("SalesOrderRecord", line_columns)
    ∷ (
      "PurchaseOrder",
      plain "date" numeric ∷ reference "userId" ∷ reference "supplierId" ∷ plain "status" text ∷ [],
    )
    ∷ ("PurchaseOrderRecord", line_columns)
    ∷ []

abbrev or_empty : Option (List Column) → List Column
or_empty none = []
or_empty (some columns) = columns

unfoldable pub columns_of : String → List Column
unfolding find schema
columns_of table = or_empty (find table schema)

-- All columns, the id first.
unfoldable pub all_columns : String → List String
unfolding columns_of
all_columns table = "id" ∷ map (λ c. c.name) (columns_of table)

-- What a statement has for a column: the kind of the value, and the parameter.
abbrev pub Assigned : Type 0
Assigned = List (String × (Value × String))

-- The parameters of an INSERT, column by column, and those of an UPDATE.
unfoldable pub assign_columns : List String → List Value → List String → Assigned
assign_columns (c ∷ cs) (v ∷ vs) (p ∷ ps) = (c, (v, p)) ∷ assign_columns cs vs ps
assign_columns _ _ _ = []

unfoldable pub assign_params : List (String × Value) → List String → Assigned
assign_params ((c, v) ∷ rest) (p ∷ ps) = (c, (v, p)) ∷ assign_params rest ps
assign_params _ _ = []

module _ (a : Affinity) where
  -- What a column of the type makes of a text that is stored in it or compared with it.
  abbrev pub convert : ColumnType → String → String
  convert text v = v
  convert integer v = a.integer v
  convert numeric v = a.numeric v
  convert real v = a.real v

  abbrev pub store : ColumnType → Option (Value × String) → String → String
  store type none old = old
  store type (some (param, p)) old = convert type p
  store type (some (null_if_blank, p)) old = if is_blank p then "" else convert type p

  abbrev head_or_blank : List String → String
  head_or_blank [] = ""
  head_or_blank (x ∷ _) = x

  abbrev tail_or_empty : List String → List String
  tail_or_empty [] = []
  tail_or_empty (_ ∷ xs) = xs

  -- The texts of the columns behind the id, after a write over the texts `old`.
  unfoldable pub written : List Column → Assigned → List String → List String
  unfolding find
  written [] assigned old = []
  written (c ∷ cs) assigned old =
      store c.type (find c.name assigned) (head_or_blank old)
      ∷ written cs assigned (tail_or_empty old)

-- A blank text that is stored as it is refers to nothing.
abbrev refers_to_nothing : Option (Value × String) → Bool
refers_to_nothing (some (param, p)) = is_blank p
refers_to_nothing _ = false

unfoldable pub has_references : List Column → Assigned → Bool
unfolding find
has_references [] assigned = true
has_references (c ∷ cs) assigned =
    not (c.refers && refers_to_nothing (find c.name assigned)) && has_references cs assigned

unfoldable pub defaults : List Column → List String
defaults = map (λ c. c.default)
