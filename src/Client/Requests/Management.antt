-- ===== src/Client/Requests/Management.antt =====
-- ApiManager.cpp: the requests for contacts, suppliers and employees.
use sage_store.Prelude.{String, [], ◌∷◌}
use sage_store.Entities.{Contact, Employee, Supplier}
use sage_store.Client.{get, post, put, del, ClientRequest, request}
use sage_store.Client.Endpoints.{management_contacts, management_employees, management_suppliers}

unfoldable pub get_contacts : ClientRequest
get_contacts = request management_contacts get [] ""

unfoldable pub create_contact : Contact → ClientRequest
create_contact contact =
    request management_contacts post
      (("name", contact.name ∷ [])
        ∷ ("type", contact.type ∷ [])
        ∷ ("email", contact.email ∷ [])
        ∷ ("phone", contact.phone ∷ [])
        ∷ [])
      ""

unfoldable pub edit_contact : Contact → ClientRequest
edit_contact contact =
    request management_contacts put
      (("name", contact.name ∷ [])
        ∷ ("type", contact.type ∷ [])
        ∷ ("email", contact.email ∷ [])
        ∷ ("phone", contact.phone ∷ [])
        ∷ [])
      contact.id

unfoldable pub delete_contact : String → ClientRequest
delete_contact id = request management_contacts del [] id

unfoldable pub get_suppliers : ClientRequest
get_suppliers = request management_suppliers get [] ""

unfoldable pub create_supplier : Supplier → ClientRequest
create_supplier supplier =
    request management_suppliers post
      (("name", supplier.name ∷ [])
        ∷ ("number", supplier.number ∷ [])
        ∷ ("email", supplier.email ∷ [])
        ∷ ("address", supplier.address ∷ [])
        ∷ [])
      ""

unfoldable pub edit_supplier : Supplier → ClientRequest
edit_supplier supplier =
    request management_suppliers put
      (("name", supplier.name ∷ [])
        ∷ ("number", supplier.number ∷ [])
        ∷ ("email", supplier.email ∷ [])
        ∷ ("address", supplier.address ∷ [])
        ∷ [])
      supplier.id

unfoldable pub delete_supplier : String → ClientRequest
delete_supplier id = request management_suppliers del [] id

unfoldable pub get_employees : ClientRequest
get_employees = request management_employees get [] ""

unfoldable pub create_employee : Employee → ClientRequest
create_employee employee =
    request management_employees post
      (("name", employee.name ∷ [])
        ∷ ("number", employee.number ∷ [])
        ∷ ("email", employee.email ∷ [])
        ∷ ("address", employee.address ∷ [])
        ∷ [])
      ""

unfoldable pub edit_employee : Employee → ClientRequest
edit_employee employee =
    request management_employees put
      (("name", employee.name ∷ [])
        ∷ ("number", employee.number ∷ [])
        ∷ ("email", employee.email ∷ [])
        ∷ ("address", employee.address ∷ [])
        ∷ [])
      employee.id

unfoldable pub delete_employee : String → ClientRequest
delete_employee id = request management_employees del [] id
