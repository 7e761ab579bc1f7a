-- ===== src/Client/Channel.antt =====
-- src/bitcoin_core_rpc/client.py: `RpcChannel`, whose attributes are calls of its client. The
-- arguments of a bound call are its positional and its named ones, in their order; the two that
-- are the call's own are apart.
use bitcoin_core_rpc.Client.Call.{Site, call}
use bitcoin_core_rpc.Client.Call.Outcome.{
  Escapes, IsDocumentedSite, IsRefusal-IsPackageError, call-Escapes,
}
use bitcoin_core_rpc.Client.Call.Refused.{IsRefusal, Raises, Raises-bind, Raises-ok, Raises-raise}
use bitcoin_core_rpc.Client.Credentials.{RpcClient}
use bitcoin_core_rpc.Errors.{
  Exception, Result, btc_value_error, class_of, failure, is_instance, ok, positional_and_named,
  private_attribute, raise, ◌>>=◌,
}
use bitcoin_core_rpc.Errors.Classes.{attribute_error}
use bitcoin_core_rpc.Params.{Param, ParamsArgument, absent, mapping, plain, sequence}
use bitcoin_core_rpc.Prelude.{List, Text, [], if◌then◌else◌, inl, map, refl, ◌==◌, ◌∷◌, ◌≡◌}
use bitcoin_core_rpc.Value.{Json, Scalar, str}

-- `__getattr__`: the method that the call is bound to
unfoldable pub bound_method : Text → Result Text
bound_method [] = ok []
bound_method (first ∷ rest) =
    if first == b'_'
    then raise (failure attribute_error (private_attribute (first ∷ rest)))
    else ok (first ∷ rest)

-- a named argument, as a member of the params
abbrev pub named : Text × Param → Param × Param
named (name, value) = (plain (str name), value)

-- the params of a bound call
unfoldable pub bound_params : Text → List Param → List (Text × Param) → Result ParamsArgument
bound_params method [] [] = ok absent
bound_params method (first ∷ args) [] = ok (sequence (first ∷ args))
bound_params method [] (first ∷ kwargs) = ok (mapping (map named (first ∷ kwargs)))
bound_params method (first ∷ args) (second ∷ kwargs) =
    raise (btc_value_error (positional_and_named method))

-- `bound_call`
unfoldable pub bound_call :
    {P S : Type 0}
    → Site P S
    → RpcClient P
    → (request_id : Text) (method : Text) (args : List Param) (kwargs : List (Text × Param))
    → (request_timeout max_body_size : Scalar) → Result Json
unfolding bound_params
bound_call site client request_id method args kwargs request_timeout max_body_size = do
  params ← bound_params method args kwargs
  call site client request_id (str method) params request_timeout max_body_size

bound_params-IsRefusal :
    (method : Text) (args : List Param) (kwargs : List (Text × Param))
    → Raises IsRefusal (bound_params method args kwargs)
unfolding bound_params is_instance class_of
bound_params-IsRefusal method [] [] = Raises-ok IsRefusal _
bound_params-IsRefusal method (a ∷ args) [] = Raises-ok IsRefusal _
bound_params-IsRefusal method [] (k ∷ kwargs) = Raises-ok IsRefusal _
bound_params-IsRefusal method (a ∷ args) (k ∷ kwargs) = Raises-raise IsRefusal _ refl

-- A bound call raises what `call` may raise, whatever its arguments are, under the same conditions.
bound_call-Escapes :
    {P S : Type 0} (site : Site P S)
    → IsDocumentedSite site
    → (client : RpcClient P) (request_id : Text) (method : Text) (args : List Param)
      (kwargs : List (Text × Param)) (request_timeout max_body_size : Scalar) (e : Exception)
    → bound_call site client request_id method args kwargs request_timeout max_body_size ≡ raise e
    → Escapes site e
unfolding bound_call
bound_call-Escapes site law client request_id method args kwargs timeout limit =
    Raises-bind (Escapes site) (bound_params method args kwargs) _
      (λ e q. inl (IsRefusal-IsPackageError e (bound_params-IsRefusal method args kwargs e q)))
      (λ params. call-Escapes site law client request_id (str method) params timeout limit)
