-- ===== src/Logs.antt =====
-- BusinessLogic/LogsModule.cpp: the entries of the audit log, as a client reads and edits them.
use sage_store.Prelude.{String, List, [], ◌∷◌, not, ◌==◌, is_blank, if◌then◌else◌}
use sage_store.Exec.{Result, ok, throw, and_then, Exec, pure, lift, raise, ◌>>=◌, ◌>>◌}
use sage_store.DataSpecs.{Dataset, RequestData, ResponseData, empty_response, table_response}
use sage_store.Entities.{Log}
use sage_store.Repositories.{RepositoryManager}
use sage_store.ModuleUtils.{
  get_optional_dataset_value, get_required_dataset_value, is_digits, ensure_integer_fits_range,
  ensure_resource_id, ensure_entity_exists,
}

abbrev component : String
component = "LogsModule"

-- A log entry may have no user, and no other user than one that is a number.
checked_user_id : String → Result (Unit {0})
checked_user_id user_id =
    if is_blank user_id
    then ok tt
    else if is_digits user_id
    then ensure_integer_fits_range user_id "userId" component
    else throw component "Invalid positive integer field: userId"

unfoldable pub build_log : Dataset → String → Result Log
unfolding checked_user_id
build_log request resource_id =
    let user_id = get_optional_dataset_value request "userId" in
    and_then (checked_user_id user_id) λ _.
      and_then (get_required_dataset_value request "action" component) λ action.
        and_then (get_required_dataset_value request "timestamp" component) λ timestamp.
          ok
            (record { id = resource_id; user_id = user_id; action = action; timestamp = timestamp })

abbrev pub log_keys : List String
log_keys = "id" ∷ "userId" ∷ "action" ∷ "timestamp" ∷ []

abbrev pub log_cells : Log → List (String × String)
log_cells e =
    ("id", e.id) ∷ ("userId", e.user_id) ∷ ("action", e.action) ∷ ("timestamp", e.timestamp) ∷ []

module _ {S : Type 0} (repositories : RepositoryManager S) where
  open repositories use {logs}

  unfoldable pub get_logs : Exec S ResponseData
  get_logs = do found ← logs.get_all; pure (table_response log_keys log_cells found)

  unfoldable pub add_log : Dataset → Exec S (Unit {0})
  add_log request = do entry ← lift (build_log request ""); logs.add entry

  unfoldable pub edit_log : Dataset → String → Exec S (Unit {0})
  edit_log request resource_id = do
    lift (ensure_resource_id resource_id component "Log")
    ensure_entity_exists logs "id" resource_id component "Log entry does not exist"
    entry ← lift (build_log request resource_id)
    logs.update entry

  unfoldable pub delete_log : String → Exec S (Unit {0})
  delete_log resource_id = do
    lift (ensure_resource_id resource_id component "Log")
    ensure_entity_exists logs "id" resource_id component "Log entry does not exist"
    logs.delete_resource resource_id

  unfoldable pub execute_task : RequestData → Exec S ResponseData
  execute_task request =
      if not (request.submodule == "entries")
      then raise component "Unrecognized logs task"
      else if request.method == "GET"
      then get_logs
      else if request.method == "POST"
      then add_log request.dataset >> pure empty_response
      else if request.method == "PUT"
      then edit_log request.dataset request.resource_id >> pure empty_response
      else if request.method == "DELETE"
      then delete_log request.resource_id >> pure empty_response
      else raise component "Unrecognized method"
