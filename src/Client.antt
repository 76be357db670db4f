-- ===== src/Client.antt =====
-- The client's side of a request (_client/src/Network): ApiManager builds it and NetworkService sends
-- it; what Qt makes of it on the wire is in Client/Wire.
pub mod Endpoints
pub mod Signals
pub mod Requests
pub mod Tables
pub mod Handlers
pub mod Responses
pub mod Wire
use sage_store.Prelude.{String}
use sage_store.DataSpecs.{Dataset}

-- `Method` of NetworkService.hpp
pub data Method : Type 0 where
  get post put del : Method

-- The arguments of `NetworkService::sendRequest`.
pub record ClientRequest : Type 0 where
  pub endpoint : String
  pub method : Method
  pub dataset : Dataset
  pub resource_id : String

-- `m_networkService.sendRequest(…)`
abbrev pub request : String → Method → Dataset → String → ClientRequest
request endpoint method dataset resource_id = record {
  endpoint = endpoint;
  method = method;
  dataset = dataset;
  resource_id = resource_id;
}
