-- ===== src/BusinessLogic.antt =====
-- BusinessLogic/BusinessLogic.cpp: a request goes to the module that it names, a change is written to
-- the audit log, and an exception becomes a response. The modules are a parameter, as the registry
-- of the source holds them behind the interface `IBusinessModule`.
pub mod Audit
pub mod Entry
pub mod Modules
use Prim.Native.String.{◌++◌}
use sage_store.Prelude.{
  String, Bool, not, ◌&&◌, List, [], ◌∷◌, Option, none, some, ◌==◌, is_blank, if◌then◌else◌,
}
use sage_store.Prelude.Assoc.{find, assign}
use sage_store.Exec.{Exception, server, standard, unreadable, Result, ok, err, throw, Exec, raise}
use sage_store.DataSpecs.{Data, RequestData, ResponseData, empty_response}
use sage_store.Entities.{Log}
use sage_store.Repositories.{IRepository}
use sage_store.ModuleUtils.{get_optional_dataset_value}

abbrev component : String
component = "BusinessLogic"

abbrev pub ModuleRegistry : Type 0 → Type 0
ModuleRegistry S = List (String × (RequestData → Exec S ResponseData))

unfoldable pub build_audit_action : RequestData → String
build_audit_action request =
    let action = request.module_name ++ "/" ++ request.submodule ++ " " ++ request.method in
    if is_blank request.resource_id then action else action ++ " #" ++ request.resource_id

-- `now` is the text of `ModuleUtils::currentTimestamp`.
unfoldable pub audit_entry : String → RequestData → Log
audit_entry now request = record {
  id = "";
  user_id = get_optional_dataset_value request.dataset "userId";
  action = build_audit_action request;
  timestamp = now;
}

-- What is written under the key of errors.
unfoldable pub error_row : Exception → Data
error_row (server e) = e.component_name ∷ e.message ∷ []
error_row (standard what) = what ∷ []
error_row unreadable = "Unreadable exception" ∷ []

-- `responseData.dataset[Keys::_ERROR] = …`, over what the response holds already
unfoldable pub with_error : ResponseData → Exception → ResponseData
with_error response e = record { dataset = assign "error" (error_row e) response.dataset }

-- `catch (const std::exception &)`: a failed audit is logged and forgotten, and what is no
-- `std::exception` goes on.
unfoldable pub swallow_standard : Result (Unit {0}) → Result (Unit {0})
swallow_standard (err unreadable) = err unreadable
swallow_standard _ = ok tt

unfoldable pub is_audited : RequestData → Bool
is_audited request = not (request.method == "GET") && not (request.module_name == "logs")

-- The response to a request whose audit has ended so.
unfoldable pub finish : {S : Type 0} → ResponseData → Result (Unit {0}) × S → ResponseData × S
finish response (ok _, s) = (response, s)
finish response (err e, s) = (with_error response e, s)

module _ {S : Type 0} (modules : ModuleRegistry S) where
  unfoldable pub route_to :
      Option (RequestData → Exec S ResponseData) → RequestData → Exec S ResponseData
  route_to none request = raise component ("Unrecognized module: " ++ request.module_name)
  route_to (some handler) request = handler request

  -- `m_modules.find`, and the call of the module that is found
  unfoldable pub route : RequestData → Exec S ResponseData
  unfolding route_to
  route request =
      if is_blank request.module_name
      then raise component "Request module is empty"
      else route_to (find request.module_name modules) request

module _ {S : Type 0} (logs : Option (IRepository S Log)) (now : String) where
  unfoldable pub write_audit : Option (IRepository S Log) → RequestData → Exec S (Unit {0})
  write_audit none request s = (ok tt, s)
  write_audit (some repository) request s =
      let (result, s') = repository.add (audit_entry now request) s in (swallow_standard result, s')

  unfoldable pub audit : RequestData → Exec S (Unit {0})
  unfolding write_audit
  audit request s = if is_audited request then write_audit logs request s else (ok tt, s)

  unfoldable pub respond : RequestData → Result ResponseData × S → ResponseData × S
  unfolding finish
  respond request (ok response, s) = finish response (audit request s)
  respond request (err e, s) = (with_error empty_response e, s)

-- `executeTask`: what the callback is given, and the state of the database
unfoldable pub execute_task :
    {S : Type 0}
    → ModuleRegistry S
    → Option (IRepository S Log)
    → String
    → RequestData
    → S
    → ResponseData × S
unfolding respond
execute_task modules logs now request s = respond logs now request (route modules request s)
