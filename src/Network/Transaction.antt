-- ===== src/Network/Transaction.antt =====
-- Network/HttpTransaction.cpp: from an HTTP request to the task of the business logic and back. The
-- split of boost and the sockets are parameters.
pub mod Endpoints
pub mod Tasks
use sage_store.Prelude.{
  ℕ, zero, suc, String, Bool, not, leb, List, [], ◌∷◌, Option, none, some, select, length, ◌==◌,
  is_blank, if◌then◌else◌,
}
use sage_store.Exec.{Result, ok, err, and_then, Exec, pure, lift, ◌>>=◌}
use sage_store.DataSpecs.{Dataset, RequestData, ResponseData}
use sage_store.Network.{HttpRequest, HttpResponse, IDataSerializer, has_non_whitespace}

unfoldable pub segment : ℕ → List String → String
segment n [] = ""
segment zero (x ∷ segments) = x
segment (suc n) (x ∷ segments) = segment n segments

-- `split` is `boost::split(segments, endpoint, boost::is_any_of("/"), boost::token_compress_on)`.
module _ (split : String → List String) where
  unfoldable pub parse_endpoint : String → List String
  unfolding select
  parse_endpoint endpoint = select (λ s. not (is_blank s)) (split endpoint)

  module _ (serializer : IDataSerializer) where
    unfoldable pub request_dataset : String → Result Dataset
    unfolding has_non_whitespace
    request_dataset body = if has_non_whitespace body then serializer.deserialize body else ok []

    unfoldable pub request_data : List String → HttpRequest → Dataset → RequestData
    unfolding segment
    request_data segments request dataset = record {
      module_name = segment 1 segments;
      submodule = segment 2 segments;
      method = request.method_string;
      resource_id = if leb 4 (length segments) then segment 3 segments else "";
      dataset = dataset;
    }

    -- `handle_request`: the task that is posted, if one is; the dataset is read before the root of
    -- the endpoint is looked at
    unfoldable pub handle_request : HttpRequest → Result (Option RequestData)
    unfolding parse_endpoint request_dataset request_data
    handle_request request =
        let segments = parse_endpoint request.target in
        if leb 3 (length segments)
        then (and_then (request_dataset request.body) λ dataset.
            if segment 0 segments == "api"
            then ok (some (request_data segments request dataset))
            else ok none)
        else ok none

    unfoldable pub do_response : ResponseData → Result HttpResponse
    do_response response =
        and_then (serializer.serialize response.dataset)
          λ body. ok (record { result = 200; content_type = "application/json"; body = body })

    module _ {S : Type 0} (execute : RequestData → S → ResponseData × S) where
      abbrev answer : Option RequestData → Exec S (Option HttpResponse)
      answer none s = (ok none, s)
      answer (some task) s =
          let (response, s') = execute task s in
          (and_then (do_response response) λ http_response. ok (some http_response), s')

      -- A transaction, with the task done in between; what is not an endpoint is not answered.
      unfoldable pub transact : HttpRequest → Exec S (Option HttpResponse)
      unfolding handle_request do_response ◌>>=◌
      transact request = lift (handle_request request) >>= answer
