-- ===== src/Management/Frame.antt =====
-- A request to the management module touches its own tables, or nothing.
use sage_store.Prelude.{String, ◌≡◌, refl, ◌==◌}
use sage_store.Exec.{Exec}
use sage_store.Exec.Ensures.{Ensures, ensures-pure, ensures-raise, ensures-if, ensures-method}
use sage_store.DataSpecs.{Dataset, RequestData}
use sage_store.Repositories.{RepositoryManager}
use sage_store.ModuleUtils.{ensure_resource_id}
use sage_store.Tables.{Tables, Affinity}
use sage_store.Tables.Laws.{Views, IsDatabase}
use sage_store.Tables.Rules.{ensures-entity_exists, ensures-get_all}
use sage_store.Tables.Settled.{Settled, Written-Settled, Settled-respond, Settled-lift}
use sage_store.Management.{
  component, build_contact, build_supplier, build_employee, get_contacts, get_suppliers,
  get_employees, add_contact, edit_contact, delete_contact, add_supplier, edit_supplier,
  delete_supplier, add_employee, edit_employee, delete_employee, contacts_task, suppliers_task,
  employees_task, execute_task,
}

-- The tables differ in the contacts, the suppliers and the employees alone.
abbrev pub IsManaged : Tables → Tables → Type 0
IsManaged t t' =
    t' ≡ record t { contacts = t'.contacts; suppliers = t'.suppliers; employees = t'.employees }

module _ {S : Type 0} (r : RepositoryManager S) {a : Affinity} {v : Views S} (d : IsDatabase a v r)
    (s : S) where
  abbrev Manages : {A : Type 0} → Exec S A → Type 0
  Manages m = Ensures m s (Settled v (IsManaged (v.view s)) s)

  add_contact-Manages : (request : Dataset) → Manages (add_contact r request)
  unfolding add_contact
  add_contact-Manages request =
      Settled-lift v (IsManaged (v.view s)) s (build_contact request "") _
        λ e _. Written-Settled v (IsManaged (v.view s)) s _ _ (d.contacts.add_lem e s) refl

  edit_contact-Manages : (request : Dataset) (id : String) → Manages (edit_contact r request id)
  unfolding edit_contact
  edit_contact-Manages request id =
      Settled-lift v (IsManaged (v.view s)) s (ensure_resource_id id component "Contact") _ λ _ _.
        ensures-entity_exists d.contacts _ _ _ _ _ s refl (λ _. refl)
          λ _.
            Settled-lift v (IsManaged (v.view s)) s (build_contact request id) _
              λ e _. Written-Settled v (IsManaged (v.view s)) s _ _ (d.contacts.update_lem e s) refl

  delete_contact-Manages : (id : String) → Manages (delete_contact r id)
  unfolding delete_contact
  delete_contact-Manages id =
      Settled-lift v (IsManaged (v.view s)) s (ensure_resource_id id component "Contact") _ λ _ _.
        ensures-entity_exists d.contacts _ _ _ _ _ s refl (λ _. refl)
          λ _.
            Written-Settled v (IsManaged (v.view s)) s _ _ (d.contacts.delete_resource_lem id s)
              refl

  contacts_task-Manages : (request : RequestData) → Manages (contacts_task r request)
  unfolding contacts_task get_contacts
  contacts_task-Manages request =
      ensures-method request.method _ _ _ _ _ s
        (ensures-get_all d.contacts _ s (ensures-pure _ s refl))
        (Settled-respond v (IsManaged (v.view s)) s _ (add_contact-Manages request.dataset))
        (Settled-respond v (IsManaged (v.view s)) s _
          (edit_contact-Manages request.dataset request.resource_id))
        (Settled-respond v (IsManaged (v.view s)) s _ (delete_contact-Manages request.resource_id))
        (ensures-raise _ _ s refl)

  add_supplier-Manages : (request : Dataset) → Manages (add_supplier r request)
  unfolding add_supplier
  add_supplier-Manages request =
      Settled-lift v (IsManaged (v.view s)) s (build_supplier request "") _
        λ e _. Written-Settled v (IsManaged (v.view s)) s _ _ (d.suppliers.add_lem e s) refl

  edit_supplier-Manages : (request : Dataset) (id : String) → Manages (edit_supplier r request id)
  unfolding edit_supplier
  edit_supplier-Manages request id =
      Settled-lift v (IsManaged (v.view s)) s (ensure_resource_id id component "Supplier") _ λ _ _.
        ensures-entity_exists d.suppliers _ _ _ _ _ s refl (λ _. refl)
          λ _.
            Settled-lift v (IsManaged (v.view s)) s (build_supplier request id) _ λ e _.
              Written-Settled v (IsManaged (v.view s)) s _ _ (d.suppliers.update_lem e s) refl

  delete_supplier-Manages : (id : String) → Manages (delete_supplier r id)
  unfolding delete_supplier
  delete_supplier-Manages id =
      Settled-lift v (IsManaged (v.view s)) s (ensure_resource_id id component "Supplier") _ λ _ _.
        ensures-entity_exists d.suppliers _ _ _ _ _ s refl (λ _. refl)
          λ _.
            Written-Settled v (IsManaged (v.view s)) s _ _ (d.suppliers.delete_resource_lem id s)
              refl

  suppliers_task-Manages : (request : RequestData) → Manages (suppliers_task r request)
  unfolding suppliers_task get_suppliers
  suppliers_task-Manages request =
      ensures-method request.method _ _ _ _ _ s
        (ensures-get_all d.suppliers _ s (ensures-pure _ s refl))
        (Settled-respond v (IsManaged (v.view s)) s _ (add_supplier-Manages request.dataset))
        (Settled-respond v (IsManaged (v.view s)) s _
          (edit_supplier-Manages request.dataset request.resource_id))
        (Settled-respond v (IsManaged (v.view s)) s _ (delete_supplier-Manages request.resource_id))
        (ensures-raise _ _ s refl)

  add_employee-Manages : (request : Dataset) → Manages (add_employee r request)
  unfolding add_employee
  add_employee-Manages request =
      Settled-lift v (IsManaged (v.view s)) s (build_employee request "") _
        λ e _. Written-Settled v (IsManaged (v.view s)) s _ _ (d.employees.add_lem e s) refl

  edit_employee-Manages : (request : Dataset) (id : String) → Manages (edit_employee r request id)
  unfolding edit_employee
  edit_employee-Manages request id =
      Settled-lift v (IsManaged (v.view s)) s (ensure_resource_id id component "Employee") _ λ _ _.
        ensures-entity_exists d.employees _ _ _ _ _ s refl (λ _. refl)
          λ _.
            Settled-lift v (IsManaged (v.view s)) s (build_employee request id) _ λ e _.
              Written-Settled v (IsManaged (v.view s)) s _ _ (d.employees.update_lem e s) refl

  delete_employee-Manages : (id : String) → Manages (delete_employee r id)
  unfolding delete_employee
  delete_employee-Manages id =
      Settled-lift v (IsManaged (v.view s)) s (ensure_resource_id id component "Employee") _ λ _ _.
        ensures-entity_exists d.employees _ _ _ _ _ s refl (λ _. refl)
          λ _.
            Written-Settled v (IsManaged (v.view s)) s _ _ (d.employees.delete_resource_lem id s)
              refl

  employees_task-Manages : (request : RequestData) → Manages (employees_task r request)
  unfolding employees_task get_employees
  employees_task-Manages request =
      ensures-method request.method _ _ _ _ _ s
        (ensures-get_all d.employees _ s (ensures-pure _ s refl))
        (Settled-respond v (IsManaged (v.view s)) s _ (add_employee-Manages request.dataset))
        (Settled-respond v (IsManaged (v.view s)) s _
          (edit_employee-Manages request.dataset request.resource_id))
        (Settled-respond v (IsManaged (v.view s)) s _ (delete_employee-Manages request.resource_id))
        (ensures-raise _ _ s refl)

  -- A request to the management module either succeeds, and then no table but the contacts, the
  -- suppliers and the employees is another, or throws, and the tables are as they were.
  pub execute_task-IsManaged :
      (request : RequestData)
      → Settled v (IsManaged (v.view s)) s (execute_task r request s).0 (execute_task r request s).1
  unfolding execute_task
  execute_task-IsManaged request =
      (ensures-if (request.submodule == "contacts") _ _ s (λ _. contacts_task-Manages request)
        λ _.
          ensures-if (request.submodule == "suppliers") _ _ s (λ _. suppliers_task-Manages request)
            λ _.
              ensures-if (request.submodule == "employees") _ _ s
                (λ _. employees_task-Manages request) (λ _. ensures-raise _ _ s refl)).holds
