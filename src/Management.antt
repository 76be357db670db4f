-- ===== src/Management.antt =====
-- BusinessLogic/ManagementModule.cpp: contacts, suppliers and employees.
pub mod Frame
use sage_store.Prelude.{String, List, [], ◌∷◌, ◌||◌, ◌==◌, is_blank, if◌then◌else◌}
use sage_store.Exec.{Result, ok, and_then, Exec, pure, lift, raise, ◌>>=◌, ◌>>◌}
use sage_store.DataSpecs.{Dataset, RequestData, ResponseData, empty_response, table_response}
use sage_store.Entities.{Contact, Supplier, Employee}
use sage_store.Repositories.{RepositoryManager}
use sage_store.ModuleUtils.{
  get_optional_dataset_value, get_required_dataset_value, ensure_resource_id, ensure_entity_exists,
}

abbrev component : String
component = "ManagementModule"

unfoldable pub normalize_contact_type : String → String
normalize_contact_type value =
    if value == "Customer" || value == "Клієнт"
    then "Customer"
    else if value == "Client"
    then "Client"
    else if value == "Partner" || value == "Партнер"
    then "Partner"
    else value

unfoldable pub build_contact : Dataset → String → Result Contact
build_contact request resource_id =
    let written = get_optional_dataset_value request "type" in
    and_then (get_required_dataset_value request "name" component) λ name. ok (record {
      id = resource_id;
      name = name;
      type = if is_blank written then "Customer" else normalize_contact_type written;
      email = get_optional_dataset_value request "email";
      phone = get_optional_dataset_value request "phone";
    })

unfoldable pub build_supplier : Dataset → String → Result Supplier
build_supplier request resource_id =
    and_then (get_required_dataset_value request "name" component) λ name. ok (record {
      id = resource_id;
      name = name;
      number = get_optional_dataset_value request "number";
      email = get_optional_dataset_value request "email";
      address = get_optional_dataset_value request "address";
    })

unfoldable pub build_employee : Dataset → String → Result Employee
build_employee request resource_id =
    and_then (get_required_dataset_value request "name" component) λ name. ok (record {
      id = resource_id;
      name = name;
      number = get_optional_dataset_value request "number";
      email = get_optional_dataset_value request "email";
      address = get_optional_dataset_value request "address";
    })

abbrev pub contact_keys : List String
contact_keys = "id" ∷ "name" ∷ "type" ∷ "email" ∷ "phone" ∷ []

abbrev pub contact_cells : Contact → List (String × String)
contact_cells e =
    ("id", e.id)
    ∷ ("name", e.name)
    ∷ ("type", e.type)
    ∷ ("email", e.email)
    ∷ ("phone", e.phone)
    ∷ []

abbrev pub supplier_keys : List String
supplier_keys = "id" ∷ "name" ∷ "number" ∷ "email" ∷ "address" ∷ []

abbrev pub supplier_cells : Supplier → List (String × String)
supplier_cells e =
    ("id", e.id)
    ∷ ("name", e.name)
    ∷ ("number", e.number)
    ∷ ("email", e.email)
    ∷ ("address", e.address)
    ∷ []

abbrev pub employee_keys : List String
employee_keys = "id" ∷ "name" ∷ "number" ∷ "email" ∷ "address" ∷ []

abbrev pub employee_cells : Employee → List (String × String)
employee_cells e =
    ("id", e.id)
    ∷ ("name", e.name)
    ∷ ("number", e.number)
    ∷ ("email", e.email)
    ∷ ("address", e.address)
    ∷ []

module _ {S : Type 0} (repositories : RepositoryManager S) where
  open repositories use {contacts, suppliers, employees}

  unfoldable pub get_contacts : Exec S ResponseData
  get_contacts = do found ← contacts.get_all; pure (table_response contact_keys contact_cells found)

  unfoldable pub get_suppliers : Exec S ResponseData
  get_suppliers = do
    found ← suppliers.get_all
    pure (table_response supplier_keys supplier_cells found)

  unfoldable pub get_employees : Exec S ResponseData
  get_employees = do
    found ← employees.get_all
    pure (table_response employee_keys employee_cells found)

  unfoldable pub add_contact : Dataset → Exec S (Unit {0})
  add_contact request = do contact ← lift (build_contact request ""); contacts.add contact

  unfoldable pub edit_contact : Dataset → String → Exec S (Unit {0})
  edit_contact request resource_id = do
    lift (ensure_resource_id resource_id component "Contact")
    ensure_entity_exists contacts "id" resource_id component "Contact does not exist"
    contact ← lift (build_contact request resource_id)
    contacts.update contact

  unfoldable pub delete_contact : String → Exec S (Unit {0})
  delete_contact resource_id = do
    lift (ensure_resource_id resource_id component "Contact")
    ensure_entity_exists contacts "id" resource_id component "Contact does not exist"
    contacts.delete_resource resource_id

  unfoldable pub add_supplier : Dataset → Exec S (Unit {0})
  add_supplier request = do supplier ← lift (build_supplier request ""); suppliers.add supplier

  unfoldable pub edit_supplier : Dataset → String → Exec S (Unit {0})
  edit_supplier request resource_id = do
    lift (ensure_resource_id resource_id component "Supplier")
    ensure_entity_exists suppliers "id" resource_id component "Supplier does not exist"
    supplier ← lift (build_supplier request resource_id)
    suppliers.update supplier

  unfoldable pub delete_supplier : String → Exec S (Unit {0})
  delete_supplier resource_id = do
    lift (ensure_resource_id resource_id component "Supplier")
    ensure_entity_exists suppliers "id" resource_id component "Supplier does not exist"
    suppliers.delete_resource resource_id

  unfoldable pub add_employee : Dataset → Exec S (Unit {0})
  add_employee request = do employee ← lift (build_employee request ""); employees.add employee

  unfoldable pub edit_employee : Dataset → String → Exec S (Unit {0})
  edit_employee request resource_id = do
    lift (ensure_resource_id resource_id component "Employee")
    ensure_entity_exists employees "id" resource_id component "Employee does not exist"
    employee ← lift (build_employee request resource_id)
    employees.update employee

  unfoldable pub delete_employee : String → Exec S (Unit {0})
  delete_employee resource_id = do
    lift (ensure_resource_id resource_id component "Employee")
    ensure_entity_exists employees "id" resource_id component "Employee does not exist"
    employees.delete_resource resource_id

  -- `executeTask` for each submodule
  unfoldable pub contacts_task : RequestData → Exec S ResponseData
  contacts_task request =
      if request.method == "GET"
      then get_contacts
      else if request.method == "POST"
      then add_contact request.dataset >> pure empty_response
      else if request.method == "PUT"
      then edit_contact request.dataset request.resource_id >> pure empty_response
      else if request.method == "DELETE"
      then delete_contact request.resource_id >> pure empty_response
      else raise component "Unrecognized method"

  unfoldable pub suppliers_task : RequestData → Exec S ResponseData
  suppliers_task request =
      if request.method == "GET"
      then get_suppliers
      else if request.method == "POST"
      then add_supplier request.dataset >> pure empty_response
      else if request.method == "PUT"
      then edit_supplier request.dataset request.resource_id >> pure empty_response
      else if request.method == "DELETE"
      then delete_supplier request.resource_id >> pure empty_response
      else raise component "Unrecognized method"

  unfoldable pub employees_task : RequestData → Exec S ResponseData
  employees_task request =
      if request.method == "GET"
      then get_employees
      else if request.method == "POST"
      then add_employee request.dataset >> pure empty_response
      else if request.method == "PUT"
      then edit_employee request.dataset request.resource_id >> pure empty_response
      else if request.method == "DELETE"
      then delete_employee request.resource_id >> pure empty_response
      else raise component "Unrecognized method"

  unfoldable pub execute_task : RequestData → Exec S ResponseData
  execute_task request =
      if request.submodule == "contacts"
      then contacts_task request
      else if request.submodule == "suppliers"
      then suppliers_task request
      else if request.submodule == "employees"
      then employees_task request
      else raise component "Unrecognized management task"
