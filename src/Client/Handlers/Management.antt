-- ===== src/Client/Handlers/Management.antt =====
-- ApiManager.cpp: the handlers of responses about contacts, suppliers and employees.
use sage_store.Prelude.{String, List, [], ◌∷◌, Option, some}
use sage_store.DataSpecs.{Dataset}
use sage_store.Entities.{Contact, Employee, Supplier}
use sage_store.Client.{Method, get, post, put, del}
use sage_store.Client.Signals.{
  Signal, contact_created, contact_deleted, contact_edited, contacts_list, employee_created,
  employee_deleted, employee_edited, employees_list, supplier_created, supplier_deleted,
  supplier_edited, suppliers_list,
}
use sage_store.Client.Tables.{Row, cell, read_table}

abbrev pub handle_contacts_list_keys : List String
handle_contacts_list_keys = "id" ∷ "name" ∷ "type" ∷ "email" ∷ "phone" ∷ []

abbrev pub handle_contacts_list_row : Row → Contact
handle_contacts_list_row r = record {
  id = cell 0 r;
  name = cell 1 r;
  type = cell 2 r;
  email = cell 3 r;
  phone = cell 4 r;
}

unfoldable pub handle_contacts_list : Dataset → Signal
unfolding read_table
handle_contacts_list d =
    read_table "Key missing in dataset" "Contact lists have different sizes."
      handle_contacts_list_keys d (λ r. handle_contacts_list_row r) contacts_list

unfoldable pub handle_contacts : Method → Dataset → Option Signal
unfolding handle_contacts_list
handle_contacts get d = some (handle_contacts_list d)
handle_contacts post d = some contact_created
handle_contacts put d = some contact_edited
handle_contacts del d = some contact_deleted

abbrev pub handle_suppliers_list_keys : List String
handle_suppliers_list_keys = "id" ∷ "name" ∷ "number" ∷ "email" ∷ "address" ∷ []

abbrev pub handle_suppliers_list_row : Row → Supplier
handle_suppliers_list_row r = record {
  id = cell 0 r;
  name = cell 1 r;
  number = cell 2 r;
  email = cell 3 r;
  address = cell 4 r;
}

unfoldable pub handle_suppliers_list : Dataset → Signal
unfolding read_table
handle_suppliers_list d =
    read_table "Key missing in dataset" "Supplier lists have different sizes."
      handle_suppliers_list_keys d (λ r. handle_suppliers_list_row r) suppliers_list

unfoldable pub handle_suppliers : Method → Dataset → Option Signal
unfolding handle_suppliers_list
handle_suppliers get d = some (handle_suppliers_list d)
handle_suppliers post d = some supplier_created
handle_suppliers put d = some supplier_edited
handle_suppliers del d = some supplier_deleted

abbrev pub handle_employees_list_keys : List String
handle_employees_list_keys = "id" ∷ "name" ∷ "number" ∷ "email" ∷ "address" ∷ []

abbrev pub handle_employees_list_row : Row → Employee
handle_employees_list_row r = record {
  id = cell 0 r;
  name = cell 1 r;
  number = cell 2 r;
  email = cell 3 r;
  address = cell 4 r;
}

unfoldable pub handle_employees_list : Dataset → Signal
unfolding read_table
handle_employees_list d =
    read_table "Key missing in dataset" "Employee lists have different sizes."
      handle_employees_list_keys d (λ r. handle_employees_list_row r) employees_list

unfoldable pub handle_employees : Method → Dataset → Option Signal
unfolding handle_employees_list
handle_employees get d = some (handle_employees_list d)
handle_employees post d = some employee_created
handle_employees put d = some employee_edited
handle_employees del d = some employee_deleted
