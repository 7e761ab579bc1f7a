-- ===== src/Client/CallBatch.antt =====
-- src/bitcoin_core_rpc/client.py: `call_batch`, up to the answer that Batch.antt reads. The ids and
-- the addresses of the new objects are arguments.
pub mod Refused
pub mod Requested
pub mod Outcome
use bitcoin_core_rpc.Batch.{MemberResult, batch_results}
use bitcoin_core_rpc.Client.Call.{
  Fresh, Site, headers_of, place_of, request_body, request_members, timeout_of,
}
use bitcoin_core_rpc.Client.Credentials.{RpcClient, auth_header}
use bitcoin_core_rpc.Errors.{
  Exception, Reason, Result, batch_empty, batch_member, batch_no_iterable, batch_no_pair,
  btc_type_error, btc_value_error, failure, http_error, is_instance, library, method_no_string, ok,
  raise, refuse, rpc_error, ◌>>=◌, ◌>>◌,
}
use bitcoin_core_rpc.Errors.Classes.{btc_rpc_type_error, btc_rpc_value_error}
use bitcoin_core_rpc.Params.{
  Heap, Interpreter, Param, ParamsArgument, dict_object, list_object, params_member, ref,
  request_json, store, walked,
}
use bitcoin_core_rpc.Prelude.{
  Bool, List, Text, [], codes, false, if◌then◌else◌, show_ℕ, suc, true, ℕ, ◌++◌, ◌∷◌,
}
use bitcoin_core_rpc.Transport.Checks.{assert_valid_timeout}
use bitcoin_core_rpc.Transport.Exchange.{http_request}
use bitcoin_core_rpc.Value.{Scalar, scalar_type_name, str}

-- A member of the argument: a sequence of two, which is no text and no bytes; another sequence;
-- anything else.
pub data BatchMember : Type 0 where
  pair : (method : Scalar) → (params : ParamsArgument) → BatchMember
  other_length : (kind : Text) → (members : ℕ) → BatchMember
  no_sequence : (kind : Text) → BatchMember

-- What a caller passes as `calls`: what iterating over it gives, or an object that is a text, bytes,
-- or cannot be iterated over.
pub data BatchCalls : Type 0 where
  iterated : List BatchMember → BatchCalls
  not_iterated : (kind : Text) → BatchCalls

-- the loop of `_batch_pairs`, from this index on
unfoldable pub batch_pairs_at : ℕ → List BatchMember → Result (List (Scalar × ParamsArgument))
batch_pairs_at index [] = ok []
batch_pairs_at index (pair method params ∷ rest) = do
  pairs ← batch_pairs_at (suc index) rest
  ok ((method, params) ∷ pairs)
batch_pairs_at index (other_length kind n ∷ rest) =
    raise (btc_type_error (batch_member index (batch_no_pair kind)))
batch_pairs_at index (no_sequence kind ∷ rest) =
    raise (btc_type_error (batch_member index (batch_no_pair kind)))

-- `_batch_pairs`
unfoldable pub batch_pairs : BatchCalls → Result (List (Scalar × ParamsArgument))
unfolding batch_pairs_at
batch_pairs (iterated members) = batch_pairs_at 0 members
batch_pairs (not_iterated kind) = raise (btc_type_error (batch_no_iterable kind))

-- f"{e}"
unfoldable pub reason_of : Exception → Reason
reason_of (failure c r) = r
reason_of (http_error s) = library
reason_of (rpc_error m c d) = library

-- the `except` clauses of `_batch_member_request`
unfoldable pub member_failure : ℕ → Exception → Exception
unfolding is_instance reason_of
member_failure index e =
    if is_instance e btc_rpc_type_error
    then btc_type_error (batch_member index (reason_of e))
    else if is_instance e btc_rpc_value_error
    then btc_value_error (batch_member index (reason_of e))
    else e

-- its `try` block, with these handlers
unfoldable pub naming : {A : Type 0} → ℕ → Result A → Result A
unfolding member_failure
naming index (raise e) = raise (member_failure index e)
naming index (ok a) = ok a

-- the copy of the parameters, checked
abbrev pub checked_params : Interpreter → Heap → ℕ → ParamsArgument → Result Heap
checked_params python heap address params = do
  object ← params_member params
  walked python (store heap address object) (ref address)
  ok (store heap address object)

-- the method of a member
unfoldable pub member_method : ℕ → Scalar → Result Text
member_method index (str m) = ok m
member_method index s =
    raise (btc_type_error (batch_member index (method_no_string (scalar_type_name s))))

-- `_batch_member_request`: the heap with the request
unfoldable pub batch_member_request :
    Interpreter → Heap → Fresh → ℕ → Scalar → ParamsArgument → Text → Result Heap
unfolding member_method naming
batch_member_request python heap fresh index method params request_id = do
  name ← member_method index method
  copied ← naming index (checked_params python heap fresh.params_address params)
  ok (
      store copied fresh.request_address
        (dict_object (request_members request_id name fresh.params_address)))

-- where the new objects are made, and the ids, both by index
pub record BatchFresh : Type 0 where
  pub member : ℕ → Fresh
  pub list_address : ℕ
  pub request_id : ℕ → Text

-- the list comprehension over the members: the heap with all requests
unfoldable pub batch_requests :
    Interpreter → BatchFresh → ℕ → Heap → List (Scalar × ParamsArgument) → Result Heap
unfolding batch_member_request
batch_requests python fresh index heap [] = ok heap
batch_requests python fresh index heap ((method, params) ∷ rest) = do
  next ←
      batch_member_request python heap (fresh.member index) index method params
        (fresh.request_id index)
  batch_requests python fresh (suc index) next rest

-- the list of the requests
abbrev pub request_refs : BatchFresh → ℕ → List (Scalar × ParamsArgument) → List Param
request_refs fresh index [] = []
request_refs fresh index (p ∷ rest) =
    ref (fresh.member index).request_address ∷ request_refs fresh (suc index) rest

-- member_where, with the id of the member
unfoldable pub labels : Text → BatchFresh → ℕ → List (Scalar × ParamsArgument) → List (Text × Text)
labels url fresh index [] = []
labels url fresh index ((method, params) ∷ rest) =
    (
      place_of method url ++ (codes " (call_batch member " ++ (show_ℕ index ++ codes ")")),
      fresh.request_id index,
    )
    ∷ labels url fresh (suc index) rest

abbrev pub is_empty_batch : List (Scalar × ParamsArgument) → Bool
is_empty_batch [] = true
is_empty_batch (p ∷ rest) = false

-- the text that is sent
abbrev pub batch_text :
    Interpreter → BatchFresh → Heap → List (Scalar × ParamsArgument) → Result Text
batch_text python fresh heap pairs =
    request_json python (store heap fresh.list_address (list_object (request_refs fresh 0 pairs)))
      (ref fresh.list_address)

-- `call_batch`
unfoldable pub call_batch :
    {P S : Type 0}
    → Site P S
    → BatchFresh
    → RpcClient P
    → BatchCalls
    → (request_timeout max_body_size : Scalar) → Result (List MemberResult)
unfolding batch_pairs batch_requests request_body auth_header http_request labels
call_batch site fresh client calls request_timeout max_body_size = do
  pairs ← batch_pairs calls
  refuse (is_empty_batch pairs) (btc_value_error batch_empty)
  duration ←
      assert_valid_timeout (codes "rpc request_timeout") (timeout_of client.timeout request_timeout)
  heap ← batch_requests site.python fresh 0 site.heap pairs
  body ← request_body (batch_text site.python fresh heap pairs)
  authorization ← auth_header site.file client
  (status, payload) ←
      http_request site.source site.around (site.transport body (headers_of authorization))
        client.url (headers_of authorization) (timeout_of client.timeout request_timeout)
        max_body_size
  batch_results site.loads (λ place. place) (labels client.url fresh 0 pairs) status payload
