-- ===== src/Client/Wire.antt =====
-- NetworkService.cpp: a request on the wire, and the reply that comes back. `encoded_path` is what Qt
-- makes of the path of a URL; a reply that is no success is only logged.
pub mod Paths
pub mod Arrival
pub mod Exchange
pub mod Answers
pub mod Lists
use Prim.Native.String.{◌++◌}
use sage_store.Prelude.{String, Option, none, some, is_blank, if◌then◌else◌}
use sage_store.Exec.{Result, ok, err, and_then, Exec, lift, ◌>>=◌}
use sage_store.Network.{HttpRequest, HttpResponse, IDataSerializer}
use sage_store.Client.{Method, get, post, put, del, ClientRequest}
use sage_store.Client.Signals.{Signal}
use sage_store.Client.Responses.{handle_response}

-- The names of the methods, as QNetworkAccessManager sends them.
unfoldable pub method_string : Method → String
method_string get = "GET"
method_string post = "POST"
method_string put = "PUT"
method_string del = "DELETE"

-- Only POST and PUT send the data.
unfoldable pub sent_body : Method → String → String
sent_body post text = text
sent_body put text = text
sent_body get text = ""
sent_body del text = ""

unfoldable pub endpoint_suffix : ClientRequest → String
endpoint_suffix request =
    request.endpoint ++ (if is_blank request.resource_id then "" else "/" ++ request.resource_id)

module _ (encoded_path : String → String) (serializer : IDataSerializer) where
  unfoldable pub send_request : ClientRequest → Result HttpRequest
  unfolding method_string sent_body endpoint_suffix
  send_request request = and_then (serializer.serialize request.dataset) λ text. ok (record {
    method_string = method_string request.method;
    target = encoded_path (endpoint_suffix request);
    body = sent_body request.method text;
  })

  unfoldable pub on_network_reply : ClientRequest → Option HttpResponse → Result (Option Signal)
  unfolding handle_response
  on_network_reply request none = ok none
  on_network_reply request (some reply) =
      and_then (serializer.deserialize reply.body)
        λ dataset. ok (handle_response request.endpoint request.method dataset)

  -- A request, its answer by the server, and the signal that comes of it.
  module _ {S : Type 0} (server : HttpRequest → Exec S (Option HttpResponse)) where
    unfoldable pub exchange : ClientRequest → Exec S (Option Signal)
    unfolding send_request on_network_reply ◌>>=◌
    exchange request =
        lift (send_request request) >>= server >>= λ reply. lift (on_network_reply request reply)
