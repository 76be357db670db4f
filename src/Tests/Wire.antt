-- ===== src/Tests/Wire.antt =====
-- The properties of the network layer and of the client, on a split and a serializer in memory.
use sage_store.Prelude.{if◌then◌else◌, ◌≡◌, ◌↔◌, refl, true, [], ◌∷◌, some}
use sage_store.Prelude.Assoc.{find}
use sage_store.Exec.{Exception, server, ok, err, pure, and_then}
use sage_store.DataSpecs.{Dataset, RequestData, empty_response}
use sage_store.Memory.{Memory, memory_repositories}
use sage_store.Memory.Wire.{split_at_slashes, split_at_slashes-IsSplit, text_serializer}
use sage_store.BusinessLogic.{ModuleRegistry, route, execute_task}
use sage_store.BusinessLogic.Modules.{registered_modules}
use sage_store.Inventory
use sage_store.Network.{HttpRequest}
use sage_store.Network.Json.{value_of, json_serializer}
use sage_store.Network.Json.Laws.{are_utf8, HasDistinctKeys, deserialize-serialize}
use sage_store.Memory.Json.{json_in_memory, json_in_memory-IsJson}
use sage_store.Network.Transaction.{parse_endpoint, handle_request}
use sage_store.Network.Transaction.Endpoints.{
  AreSegments, path_of, has_slash, parse_endpoint-path_of,
}
use sage_store.Network.Transaction.Tasks.{Asks, handle_request_iff}
use sage_store.Client.{put}
use sage_store.Client.Endpoints
use sage_store.Client.Signals.{error_occurred}
use sage_store.Client.Responses.{response_handlers, handle_response}
use sage_store.Client.Handlers.Inventory.{handle_stocks}
use sage_store.Client.Responses.Errors.{shown_error, refusal_is_shown}
use sage_store.Tests.Seed.{seed, request}

stock_seven-AreSegments : AreSegments ("api" ∷ "inventory" ∷ "stocks" ∷ "7" ∷ [])
unfolding AreSegments has_slash
stock_seven-AreSegments = (refl, refl, (refl, refl, (refl, refl, (refl, refl, tt))))

parse_endpoint-path_of_example :
    parse_endpoint split_at_slashes (path_of ("api" ∷ "inventory" ∷ "stocks" ∷ "7" ∷ []))
    ≡ "api" ∷ "inventory" ∷ "stocks" ∷ "7" ∷ []
parse_endpoint-path_of_example =
    parse_endpoint-path_of split_at_slashes split_at_slashes-IsSplit "api"
      ("inventory" ∷ "stocks" ∷ "7" ∷ []) stock_seven-AreSegments

abbrev delete_seven : HttpRequest
delete_seven = record { method_string = "DELETE"; target = "/api/inventory//stocks/7"; body = " " }

abbrev deletion : RequestData
deletion = request "inventory" "stocks" "DELETE" "7" []

handle_request_iff_example :
    (handle_request split_at_slashes text_serializer delete_seven ≡ ok (some deletion))
    ↔ Asks split_at_slashes text_serializer delete_seven deletion
handle_request_iff_example =
    handle_request_iff split_at_slashes text_serializer delete_seven deletion

abbrev modules : ModuleRegistry Memory
modules = registered_modules (λ _. true) (λ _. pure empty_response) memory_repositories

abbrev patch : RequestData
patch = request "inventory" "stocks" "PATCH" "" []

abbrev unrecognized : Exception
unrecognized =
    server (record { component_name = "InventoryModule"; message = "Unrecognized method" })

routed_patch : route modules patch seed ≡ (err unrecognized, seed)
unfolding route registered_modules find Inventory.execute_task Inventory.stocks_task
routed_patch = refl

stocks_handled : find Endpoints.inventory_stocks response_handlers ≡ some handle_stocks
unfolding find response_handlers
stocks_handled = refl

refusal_is_shown_example :
    handle_response Endpoints.inventory_stocks put
      (execute_task modules (some memory_repositories.logs) "now" patch seed).0.dataset
    ≡ some (error_occurred (shown_error unrecognized))
refusal_is_shown_example =
    refusal_is_shown modules (some memory_repositories.logs) "now" patch seed seed unrecognized
      Endpoints.inventory_stocks put handle_stocks routed_patch stocks_handled

abbrev two_columns : Dataset
two_columns = ("id", "1" ∷ "2" ∷ []) ∷ ("name", "Tea" ∷ "" ∷ []) ∷ []

deserialize-serialize_example :
    and_then
      (and_then
        ((json_serializer json_in_memory).serialize two_columns)
        (json_serializer json_in_memory).deserialize)
      (λ back. ok (find "name" back))
    ≡ (if are_utf8 json_in_memory-IsJson.is_utf8 two_columns
        then ok (find "name" two_columns)
        else err (json_in_memory-IsJson.type_error (value_of json_in_memory two_columns)))
unfolding HasDistinctKeys find
deserialize-serialize_example =
    deserialize-serialize json_in_memory json_in_memory-IsJson two_columns "name" (refl, (refl, tt))
