-- ===== src/Client/Wire/Exchange.antt =====
-- A GET request all the way: from the client over HTTP to the business logic and back to a signal.
use text.Mathlib.TextLemmas.{append-nil}
use sage_store.Prelude.{String, ◌≡◌, ◌∙◌, refl, ap, List, [], ◌∷◌, Option, some, arith}
use sage_store.Exec.{ok, Exec, ◌>>=◌}
use sage_store.DataSpecs.{Dataset, RequestData, ResponseData}
use sage_store.Entities.{Log}
use sage_store.Repositories.{IRepository}
use sage_store.BusinessLogic.{ModuleRegistry, route, is_audited}
use sage_store.BusinessLogic as BusinessLogic
use sage_store.BusinessLogic.Audit.{execute_task-answered}
use sage_store.Network.{HttpRequest, HttpResponse, IDataSerializer, IsSerializer}
use sage_store.Network.Transaction.{
  parse_endpoint, segment, request_dataset, request_data, handle_request, do_response, transact,
}
use sage_store.Network.Transaction.Endpoints.{IsSplit, AreSegments, path_of, parse_endpoint-path_of}
use sage_store.Client.{get, request}
use sage_store.Client.Signals.{Signal}
use sage_store.Client.Tables.Listed.{SameLookups}
use sage_store.Client.Responses.{handle_response}
use sage_store.Client.Wire.{
  method_string, sent_body, endpoint_suffix, send_request, on_network_reply, exchange,
}

-- The task that a GET request of these segments posts.
abbrev pub get_task : String → String → List String → RequestData
get_task module_name submodule ids = record {
  module_name = module_name;
  submodule = submodule;
  method = "GET";
  resource_id = segment 0 ids;
  dataset = [];
}

module _ {S : Type 0} (split : String → List String) (l : IsSplit split)
    (serializer : IDataSerializer) (c : IsSerializer serializer) (encoded_path : String → String)
    (modules : ModuleRegistry S) (logs : Option (IRepository S Log)) (now : String) where
  abbrev pub server : HttpRequest → Exec S (Option HttpResponse)
  server = transact split serializer (BusinessLogic.execute_task modules logs now)

  posted :
      (target module_name submodule : String) (ids : List String)
      → parse_endpoint split target ≡ "api" ∷ module_name ∷ submodule ∷ ids
      → handle_request split serializer
          (record { method_string = "GET"; target = target; body = "" })
        ≡ ok (some (get_task module_name submodule ids))
  unfolding handle_request request_dataset request_data segment
  posted target module_name submodule [] h = rw h refl
  posted target module_name submodule (id ∷ ids) h = rw h (ground arith)

  -- The server answers such a request with the response of the module.
  transact_get :
      (target module_name submodule : String) (ids : List String) (s s' : S)
      (response : ResponseData)
      → parse_endpoint split target ≡ "api" ∷ module_name ∷ submodule ∷ ids
      → route modules (get_task module_name submodule ids) s ≡ (ok response, s')
      → server (record { method_string = "GET"; target = target; body = "" }) s ≡ (
        ok (
            some (record {
              result = 200;
              content_type = "application/json";
              body = c.text_of response.dataset;
            })),
        s',
      )
  unfolding transact do_response ◌>>=◌
  transact_get target module_name submodule ids s s' response h h' =
      rw
        (
          posted target module_name submodule ids h,
          execute_task-answered modules logs now (get_task module_name submodule ids) s s' response
              h' (unfold is_audited in refl),
          c.serialize_lem response.dataset,
        )
        refl

  -- A list is asked for, and the signal is what the client makes of the module's response.
  pub exchange_get :
      (endpoint module_name submodule : String) (s s' : S) (response : ResponseData)
      (signal : Signal)
      → encoded_path endpoint ≡ endpoint
      → endpoint ≡ path_of ("api" ∷ module_name ∷ submodule ∷ [])
      → AreSegments ("api" ∷ module_name ∷ submodule ∷ [])
      → route modules (get_task module_name submodule []) s ≡ (ok response, s')
      → ((d : Dataset)
          → SameLookups d response.dataset
          → handle_response endpoint get d ≡ some signal)
      → exchange encoded_path serializer server (request endpoint get [] "") s
        ≡ (ok (some signal), s')
  unfolding exchange send_request on_network_reply endpoint_suffix method_string sent_body ◌>>=◌
  exchange_get endpoint module_name submodule s s' response signal plain path segments answered
        shown =
      let parsed : parse_endpoint split endpoint ≡ "api" ∷ module_name ∷ submodule ∷ [] =
        ap (parse_endpoint split) path
        ∙ parse_endpoint-path_of split l "api" (module_name ∷ submodule ∷ []) segments in
      rw
        (
          c.serialize_lem [],
          append-nil endpoint,
          plain,
          transact_get endpoint module_name submodule [] s s' response parsed answered,
          c.deserialize_lem response.dataset,
          shown (c.read_back response.dataset) (c.read_back_lem response.dataset),
        )
        refl
