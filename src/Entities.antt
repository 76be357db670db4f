-- ===== src/Entities.antt =====
-- The entities of _common/AutoGenerated/include/common/Entities: every field is a text, as it comes
-- from the database. The keys under which the fields stand in a dataset are the columns' names.
use sage_store.Prelude.{String}

pub record User : Type 0 where
  pub id : String
  pub username : String
  pub password : String
  pub role_id : String

pub record Role : Type 0 where
  pub id : String
  pub name : String

pub record Log : Type 0 where
  pub id : String
  pub user_id : String
  pub action : String
  pub timestamp : String

pub record Contact : Type 0 where
  pub id : String
  pub name : String
  pub type : String
  pub email : String
  pub phone : String

pub record Employee : Type 0 where
  pub id : String
  pub name : String
  pub number : String
  pub email : String
  pub address : String

pub record Supplier : Type 0 where
  pub id : String
  pub name : String
  pub number : String
  pub email : String
  pub address : String

pub record SuppliersProductInfo : Type 0 where
  pub id : String
  pub supplier_id : String
  pub product_type_id : String
  pub code : String

pub record ProductType : Type 0 where
  pub id : String
  pub code : String
  pub barcode : String
  pub name : String
  pub description : String
  pub last_price : String
  pub unit : String
  pub is_imported : String

pub record Inventory : Type 0 where
  pub id : String
  pub product_type_id : String
  pub quantity_available : String
  pub employee_id : String

pub record SaleOrder : Type 0 where
  pub id : String
  pub date : String
  pub user_id : String
  pub contact_id : String
  pub employee_id : String
  pub status : String

pub record SalesOrderRecord : Type 0 where
  pub id : String
  pub order_id : String
  pub product_type_id : String
  pub quantity : String
  pub price : String

pub record PurchaseOrder : Type 0 where
  pub id : String
  pub date : String
  pub user_id : String
  pub supplier_id : String
  pub status : String

pub record PurchaseOrderRecord : Type 0 where
  pub id : String
  pub order_id : String
  pub product_type_id : String
  pub quantity : String
  pub price : String

pub record ProductInfo : Type 0 where
  pub id : String
  pub product_type_id : String
  pub name : String
  pub value : String
