-- ===== src/Client/Responses/Management.antt =====
-- ApiManager.cpp reads the tables that the server sends: contacts, suppliers and employees.
use sage_store.Prelude.{◌≡◌, ◌∙◌, refl, ap, List, [], ◌∷◌, some}
use sage_store.DataSpecs.{Dataset, table_response}
use sage_store.DataSpecs.Columns.{cells_of}
use sage_store.Management.{
  contact_keys, contact_cells, supplier_keys, supplier_cells, employee_keys, employee_cells,
}
use sage_store.Entities.{Contact, Supplier, Employee}
use sage_store.Client.{get}
use sage_store.Client.Endpoints
use sage_store.Client.Tables.{cell}
use sage_store.Client.Tables.Listed.{Fits, SameLookups, map_id, read_table-table_response}
use sage_store.DataSpecs.{empty_columns}
use sage_store.Prelude.Assoc.{find}
use sage_store.Client.Signals.{contacts_list, suppliers_list, employees_list}
use sage_store.Client.Handlers.Management.{
  handle_contacts_list, handle_contacts_list_row, handle_contacts, handle_suppliers_list,
  handle_suppliers_list_row, handle_suppliers, handle_employees_list, handle_employees_list_row,
  handle_employees,
}
use sage_store.Client.Responses.{handle_response}
use sage_store.Client.Responses.Shown.{shown_of}

handle_contacts_list-Fits : Fits contact_keys contact_cells (
    ("id", λ e. e.id)
    ∷ ("name", λ e. e.name)
    ∷ ("type", λ e. e.type)
    ∷ ("email", λ e. e.email)
    ∷ ("phone", λ e. e.phone)
    ∷ [])
unfolding Fits cells_of empty_columns find
handle_contacts_list-Fits = (
  λ _. refl,
  refl,
  (λ _. refl, refl, (λ _. refl, refl, (λ _. refl, refl, (λ _. refl, refl, tt)))),
)

pub handle_contacts_list_lem :
    (es : List Contact) (d : Dataset)
    → SameLookups d (table_response contact_keys contact_cells es).dataset
    → handle_response Endpoints.management_contacts get d ≡ some (contacts_list (es))
unfolding handle_response handle_contacts handle_contacts_list cell
handle_contacts_list_lem es d alike =
    shown_of contact_keys contact_cells handle_contacts get (λ e. unfold cells_of in refl) es d
      alike
      (ap (λ s. some s)
        (read_table-table_response contact_keys contact_cells
            (("name", λ e. e.name)
              ∷ ("type", λ e. e.type)
              ∷ ("email", λ e. e.email)
              ∷ ("phone", λ e. e.phone)
              ∷ [])
            "Key missing in dataset" "Contact lists have different sizes."
            (λ r. handle_contacts_list_row r) contacts_list (λ e. e) "id" (λ e. e.id)
            handle_contacts_list-Fits (λ e. refl) es d alike
          ∙ ap contacts_list (map_id es)))

handle_suppliers_list-Fits : Fits supplier_keys supplier_cells (
    ("id", λ e. e.id)
    ∷ ("name", λ e. e.name)
    ∷ ("number", λ e. e.number)
    ∷ ("email", λ e. e.email)
    ∷ ("address", λ e. e.address)
    ∷ [])
unfolding Fits cells_of empty_columns find
handle_suppliers_list-Fits = (
  λ _. refl,
  refl,
  (λ _. refl, refl, (λ _. refl, refl, (λ _. refl, refl, (λ _. refl, refl, tt)))),
)

pub handle_suppliers_list_lem :
    (es : List Supplier) (d : Dataset)
    → SameLookups d (table_response supplier_keys supplier_cells es).dataset
    → handle_response Endpoints.management_suppliers get d ≡ some (suppliers_list (es))
unfolding handle_response handle_suppliers handle_suppliers_list cell
handle_suppliers_list_lem es d alike =
    shown_of supplier_keys supplier_cells handle_suppliers get (λ e. unfold cells_of in refl) es d
      alike
      (ap (λ s. some s)
        (read_table-table_response supplier_keys supplier_cells
            (("name", λ e. e.name)
              ∷ ("number", λ e. e.number)
              ∷ ("email", λ e. e.email)
              ∷ ("address", λ e. e.address)
              ∷ [])
            "Key missing in dataset" "Supplier lists have different sizes."
            (λ r. handle_suppliers_list_row r) suppliers_list (λ e. e) "id" (λ e. e.id)
            handle_suppliers_list-Fits (λ e. refl) es d alike
          ∙ ap suppliers_list (map_id es)))

handle_employees_list-Fits : Fits employee_keys employee_cells (
    ("id", λ e. e.id)
    ∷ ("name", λ e. e.name)
    ∷ ("number", λ e. e.number)
    ∷ ("email", λ e. e.email)
    ∷ ("address", λ e. e.address)
    ∷ [])
unfolding Fits cells_of empty_columns find
handle_employees_list-Fits = (
  λ _. refl,
  refl,
  (λ _. refl, refl, (λ _. refl, refl, (λ _. refl, refl, (λ _. refl, refl, tt)))),
)

pub handle_employees_list_lem :
    (es : List Employee) (d : Dataset)
    → SameLookups d (table_response employee_keys employee_cells es).dataset
    → handle_response Endpoints.management_employees get d ≡ some (employees_list (es))
unfolding handle_response handle_employees handle_employees_list cell
handle_employees_list_lem es d alike =
    shown_of employee_keys employee_cells handle_employees get (λ e. unfold cells_of in refl) es d
      alike
      (ap (λ s. some s)
        (read_table-table_response employee_keys employee_cells
            (("name", λ e. e.name)
              ∷ ("number", λ e. e.number)
              ∷ ("email", λ e. e.email)
              ∷ ("address", λ e. e.address)
              ∷ [])
            "Key missing in dataset" "Employee lists have different sizes."
            (λ r. handle_employees_list_row r) employees_list (λ e. e) "id" (λ e. e.id)
            handle_employees_list-Fits (λ e. refl) es d alike
          ∙ ap employees_list (map_id es)))
