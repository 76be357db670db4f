-- ===== src/Client/Wire/Arrival.antt =====
-- What the server reads of a request that the client sends.
use Prim.Native.String.{◌++◌}
use sage_store.Prelude.{String, List, [], ◌∷◌, is_blank, if◌then◌else◌}
use sage_store.Prelude.{◌++◌ as ◌+++◌}
use sage_store.DataSpecs.{Dataset, RequestData}
use sage_store.Network.{IDataSerializer, IsSerializer}
use sage_store.Network.Transaction.Endpoints.{IsSplit}
use sage_store.Client.{Method, get, post, put, del, ClientRequest}
use sage_store.Client.Wire.{method_string}
use sage_store.Client.Wire.Paths.{IsEncoding}

-- The last segment of the path of a resource.
abbrev ids_of : ClientRequest → List String
ids_of r = if is_blank r.resource_id then [] else r.resource_id ∷ []

module _ (module_name submodule : String) where
  abbrev segments_of : ClientRequest → List String
  segments_of r = "api" ∷ module_name ∷ submodule ∷ ids_of r

  module _ (split : String → List String) (l : IsSplit split) (serializer : IDataSerializer)
      (c : IsSerializer serializer) (encoded_path : String → String)
      (p : IsEncoding encoded_path) where
    -- What is read of the data of a request: all of it, if the method sends data.
    abbrev pub received : Method → Dataset → Dataset
    received get d = []
    received post d = c.read_back d
    received put d = c.read_back d
    received del d = []

    abbrev pub arrived : ClientRequest → RequestData
    arrived r = record {
      module_name = module_name;
      submodule = submodule;
      method = method_string r.method;
      resource_id = r.resource_id;
      dataset = received r.method r.dataset;
    }
