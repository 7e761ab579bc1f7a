-- ===== src/Client/Call.antt =====
-- src/bitcoin_core_rpc/client.py: one call (`_request`, `_headers`, `call`). The id and the
-- addresses of the two new objects are arguments, and so is what the transport does with a request.
pub mod Refused
pub mod Outcome
use bitcoin_core_rpc.Chains.Cookie.{CookieFile}
use bitcoin_core_rpc.Client.Credentials.{RpcClient, auth_header, is_absent}
use bitcoin_core_rpc.Client.Encoding.{encode}
use bitcoin_core_rpc.Errors.{
  Result, btc_type_error, btc_value_error, is_instance, method_no_string, ok, params_not_carried,
  raise, ◌>>=◌, ◌>>◌,
}
use bitcoin_core_rpc.Errors.Classes.{recursion_error, value_error}
use bitcoin_core_rpc.Params.{
  Heap, Interpreter, Param, ParamsArgument, dict_object, params_member, plain, ref, request_json,
  store, walked,
}
use bitcoin_core_rpc.Prelude.{
  Bytes, List, Text, [], codes, if◌then◌else◌, none, some, ℕ, ◌++◌, ◌||◌, ◌∷◌,
}
use bitcoin_core_rpc.Reply.{result}
use bitcoin_core_rpc.Transport.Checks.{assert_valid_timeout}
use bitcoin_core_rpc.Transport.Exchange.{Attempt, Surroundings, http_request}
use bitcoin_core_rpc.Transport.Read.{Source}
use bitcoin_core_rpc.Value.{Json, Scalar, scalar_type_name, str}

-- Where the interpreter makes the copy of the parameters, and the request that holds it.
pub record Fresh : Type 0 where
  pub params_address : ℕ
  pub request_address : ℕ

-- What `_request` answers with.
pub record Request : Type 0 where
  pub request_id : Text
  pub body : Bytes
  pub request_timeout : Scalar

-- the request of a method and of the parameters at this address
abbrev pub request_members : Text → Text → ℕ → List (Param × Param)
request_members request_id method address =
    (plain (str (codes "jsonrpc")), plain (str (codes "2.0")))
    ∷ (plain (str (codes "id")), plain (str request_id))
    ∷ (plain (str (codes "method")), plain (str method))
    ∷ (plain (str (codes "params")), ref address)
    ∷ []

-- method, if isinstance(method, str)
unfoldable pub method_text : Scalar → Result Text
method_text (str m) = ok m
method_text s = raise (btc_type_error (method_no_string (scalar_type_name s)))

-- self.timeout if request_timeout is None else request_timeout
abbrev pub timeout_of : Scalar → Scalar → Scalar
timeout_of client_timeout request_timeout =
    if is_absent request_timeout then client_timeout else request_timeout

-- `_request_json(request).encode()`, and what its handler makes of an exception
unfoldable pub request_body : Result Text → Result Bytes
unfolding is_instance encode
request_body (ok text) = elim (encode text) [
  | none ↦ raise (btc_value_error params_not_carried)
  | some octets ↦ ok octets
]
request_body (raise e) =
    if is_instance e value_error || is_instance e recursion_error
    then raise (btc_value_error params_not_carried)
    else raise e

-- `_request`
unfoldable pub request :
    Interpreter
    → Heap
    → Fresh
    → (request_id : Text) (method : Scalar) (params : ParamsArgument)
    → (client_timeout request_timeout : Scalar) → Result Request
unfolding method_text request_body walked
request python heap fresh request_id method params client_timeout request_timeout = do
  name ← method_text method
  duration ←
      assert_valid_timeout (codes "rpc request_timeout") (timeout_of client_timeout request_timeout)
  object ← params_member params
  walked python (store heap fresh.params_address object) (ref fresh.params_address)
  octets ← request_body (
      request_json python
        (store (store heap fresh.params_address object) fresh.request_address
          (dict_object (request_members request_id name fresh.params_address)))
        (ref fresh.request_address))
  ok (record {
    request_id = request_id;
    body = octets;
    request_timeout = timeout_of client_timeout request_timeout;
  })

-- `_headers`, with the credential of `auth_header`
abbrev pub headers_of : Text → List (Scalar × Scalar)
headers_of authorization =
    (str (codes "Content-Type"), str (codes "application/json"))
    ∷ (str (codes "Authorization"), str authorization)
    ∷ (str (codes "User-Agent"), str (codes "bitcoin-core-rpc"))
    ∷ []

-- where = f"{method} at {self.url}"
abbrev pub place_of : Scalar → Text → Text
place_of (str m) url = m ++ (codes " at " ++ url)
place_of _ url = url

-- What stands around a call: the interpreter, the operating system's files, `json.loads` with its
-- hooks, the connection, and what the transport does with a body, headers, a timeout and a limit.
pub record Site (P S : Type 0) : Type 0 where
  pub python : Interpreter
  pub heap : Heap
  pub fresh : Fresh
  pub file : P → CookieFile
  pub loads : Bytes → Result Json
  pub source : Source S
  pub around : Surroundings
  pub transport : Bytes → List (Scalar × Scalar) → ℕ → ℕ → Attempt S

-- `call`
unfoldable pub call :
    {P S : Type 0}
    → Site P S
    → RpcClient P
    → (request_id : Text) (method : Scalar) (params : ParamsArgument)
    → (request_timeout max_body_size : Scalar) → Result Json
unfolding request auth_header http_request result
call site client request_id method params request_timeout max_body_size = do
  sent ←
      request site.python site.heap site.fresh request_id method params client.timeout
        request_timeout
  authorization ← auth_header site.file client
  (status, payload) ←
      http_request site.source site.around (site.transport sent.body (headers_of authorization))
        client.url (headers_of authorization) sent.request_timeout max_body_size
  result site.loads (place_of method client.url) request_id status payload
