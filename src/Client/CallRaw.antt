-- ===== src/Client/CallRaw.antt =====
-- src/bitcoin_core_rpc/client.py: `call_raw`, which interprets nothing of the reply.
pub mod Refines
pub mod Outcome
use bitcoin_core_rpc.Client.Call.{
  Fresh, Request, Site, headers_of, method_text, request_body, timeout_of,
}
use bitcoin_core_rpc.Client.Credentials.{RpcClient, auth_header}
use bitcoin_core_rpc.Errors.{Result, btc_type_error, marker_no_string, ok, raise, ◌>>=◌, ◌>>◌}
use bitcoin_core_rpc.Params.{
  Heap, Interpreter, Param, ParamsArgument, dict_object, params_member, plain, ref, request_json,
  store, walked,
}
use bitcoin_core_rpc.Prelude.{List, Option, Text, [], codes, none, some, ℕ, ◌++◌, ◌∷◌}
use bitcoin_core_rpc.Reply.{parsed_json_body}
use bitcoin_core_rpc.Transport.Checks.{assert_valid_timeout}
use bitcoin_core_rpc.Transport.Exchange.{http_request}
use bitcoin_core_rpc.Value.{Json, Scalar, none_value, scalar_type_name, str}

-- the `jsonrpc` member, where there is one
abbrev pub marker_members : Option Text → List (Param × Param)
marker_members none = []
marker_members (some marker) = (plain (str (codes "jsonrpc")), plain (str marker)) ∷ []

-- the tests on the marker
unfoldable pub marker_text : Scalar → Result (Option Text)
marker_text none_value = ok none
marker_text (str marker) = ok (some marker)
marker_text s = raise (btc_type_error (marker_no_string (scalar_type_name s)))

-- the request that is written
abbrev pub raw_members : Option Text → Text → Text → ℕ → List (Param × Param)
raw_members marker request_id method address =
    marker_members marker
    ++ ((plain (str (codes "id")), plain (str request_id))
        ∷ (plain (str (codes "method")), plain (str method))
        ∷ (plain (str (codes "params")), ref address)
        ∷ [])

-- `call_raw`, up to the exchange
unfoldable pub raw_request :
    Interpreter
    → Heap
    → Fresh
    → (request_id : Text) (method : Scalar) (params : ParamsArgument)
    → (marker client_timeout request_timeout : Scalar) → Result Request
unfolding method_text marker_text request_body walked
raw_request python heap fresh request_id method params marker client_timeout request_timeout = do
  name ← method_text method
  sent_marker ← marker_text marker
  duration ←
      assert_valid_timeout (codes "rpc request_timeout") (timeout_of client_timeout request_timeout)
  object ← params_member params
  walked python (store heap fresh.params_address object) (ref fresh.params_address)
  octets ← request_body (
      request_json python
        (store (store heap fresh.params_address object) fresh.request_address
          (dict_object (raw_members sent_marker request_id name fresh.params_address)))
        (ref fresh.request_address))
  ok (record {
    request_id = request_id;
    body = octets;
    request_timeout = timeout_of client_timeout request_timeout;
  })

-- `call_raw`
unfoldable pub call_raw :
    {P S : Type 0}
    → Site P S
    → RpcClient P
    → (request_id : Text) (method : Scalar) (params : ParamsArgument)
    → (marker request_timeout max_body_size : Scalar) → Result (ℕ × Json)
unfolding raw_request auth_header http_request parsed_json_body
call_raw site client request_id method params marker request_timeout max_body_size = do
  sent ←
      raw_request site.python site.heap site.fresh request_id method params marker client.timeout
        request_timeout
  authorization ← auth_header site.file client
  (status, payload) ←
      http_request site.source site.around (site.transport sent.body (headers_of authorization))
        client.url (headers_of authorization) sent.request_timeout max_body_size
  value ← parsed_json_body site.loads status payload
  ok (status, value)
