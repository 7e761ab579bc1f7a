-- ===== src/Reply.antt =====
-- src/bitcoin_core_rpc/client.py: a reply, from the bytes to the result or the exception
-- (`_http_error` to `_v2_result`). `place` is the source's `where`.
pub mod Numbers
pub mod Success
pub mod NodeError
pub mod Failure
use bitcoin_core_rpc.Errors.{
  Exception, Reason, Result, fetch_error, http_error, is_instance, ok, raise, reply_both,
  reply_neither, reply_no_array, reply_no_object, reply_not_json, reply_not_utf8,
  reply_parser_refused, reply_too_deep, reply_version, rpc_error, unreadable_rpc_error, wrong_id,
  ◌>>=◌, ◌>>◌,
}
use bitcoin_core_rpc.Errors.Classes.{
  decimal_exception, exception, fetch_error_class, json_decode_error, recursion_error,
  rpc_error_class, unicode_decode_error, value_error,
}
use bitcoin_core_rpc.Prelude.{
  Bytes, List, Option, Text, codes, if◌then◌else◌, none, not, some, ℕ, ◌&&◌, ◌++◌, ◌==◌, ◌||◌,
}
use bitcoin_core_rpc.Value.{
  Json, Members, dict, equals_text, get, get_or_none, int, is_none_value, items_list, list, scalar,
  str, type_name,
}

-- The message of an `RpcError` names where the call went, and then says what the node said.
abbrev pub error_message : Text → Text → Text
error_message place message = place ++ (codes ": " ++ message)

-- the two members that an error object must have, by their types
rpc_error_fields : Text → Members → Json → Json → Exception
rpc_error_fields place error (scalar (int code)) (scalar (str message)) =
    rpc_error (error_message place message) code (get_or_none (codes "data") error)
rpc_error_fields place error _ _ = fetch_error (unreadable_rpc_error (dict error))

-- `_rpc_error`: the exception that a reply's `error` member stands for
unfoldable pub rpc_error_from : Text → Json → Exception
unfolding rpc_error_fields
rpc_error_from place (dict error) =
    rpc_error_fields place error (get_or_none (codes "code") error)
      (get_or_none (codes "message") error)
rpc_error_from place error = fetch_error (unreadable_rpc_error error)

-- `_legacy_result`: a reply that carries no version
unfoldable pub legacy_result : Text → Text → ℕ → Members → Result Json
unfolding rpc_error_from is_instance
legacy_result place request_id status reply =
    let ours = equals_text (get_or_none (codes "id") reply) request_id in
    let error = get_or_none (codes "error") reply in
    let exception = rpc_error_from place error in
    if ours && not (is_none_value error)
    then (if is_instance exception rpc_error_class || status == 200
        then raise exception
        else raise (http_error status))
    else if not (status == 200)
    then raise (http_error status)
    else if not ours
    then raise (fetch_error (wrong_id (get_or_none (codes "id") reply) request_id))
    else elim (get (codes "result") reply) [
      | none ↦ raise (fetch_error reply_neither)
      | some result ↦ ok result
    ]

-- `_v2_result` past the status and the id: exactly one of the two members is there
answer_of : Text → Option Json → Option Json → Result Json
answer_of place (some result) (some error) = raise (fetch_error reply_both)
answer_of place none none = raise (fetch_error reply_neither)
answer_of place none (some error) = raise (rpc_error_from place error)
answer_of place (some result) none = ok result

-- `_v2_result`: a reply that is marked as JSON-RPC 2.0
unfoldable pub v2_result : Text → Text → ℕ → Members → Result Json
unfolding answer_of
v2_result place request_id status reply =
    if not (status == 200)
    then raise (http_error status)
    else if not (equals_text (get_or_none (codes "id") reply) request_id)
    then raise (fetch_error (wrong_id (get_or_none (codes "id") reply) request_id))
    else answer_of place (get (codes "result") reply) (get (codes "error") reply)

-- `_discriminate`: which of the two a reply is, and its result
unfoldable pub discriminate : Text → Text → ℕ → Members → Result Json
discriminate place request_id status reply = elim (get (codes "jsonrpc") reply) [
  | none ↦ legacy_result place request_id status reply
  | some marker ↦
      if not (equals_text marker (codes "2.0"))
      then (if not (status == 200)
          then raise (http_error status)
          else raise (fetch_error (reply_version marker)))
      else v2_result place request_id status reply
]

-- `_unreadable`: a body that the parser gave up on for a reason other than its shape
unfoldable pub unreadable : Exception → Exception
unfolding is_instance
unreadable cause =
    if is_instance cause recursion_error
    then fetch_error reply_too_deep
    else fetch_error reply_parser_refused

-- the `except` clauses of `_parsed_json_body`, in their order
unfoldable pub parse_failure : ℕ → Exception → Exception
unfolding is_instance unreadable
parse_failure status e =
    let shaped =
      λ (shape : Reason). if not (status == 200) then http_error status else fetch_error shape in
    if is_instance e fetch_error_class
    then (if status == 200 then e else http_error status)
    else if is_instance e value_error
        || is_instance e recursion_error
        || is_instance e decimal_exception
    then (if is_instance e unicode_decode_error
        then shaped reply_not_utf8
        else if is_instance e json_decode_error
        then shaped reply_not_json
        else if not (status == 200)
        then http_error status
        else unreadable e)
    else e

-- `_reply_object` past the parser
unfoldable pub as_object : ℕ → Json → Result Members
as_object status (dict members) = ok members
as_object status value =
    if not (status == 200)
    then raise (http_error status)
    else raise (fetch_error (reply_no_object (type_name value)))

-- `_batch_reply_array` past the parser
unfoldable pub as_array : Json → Result (List Json)
as_array (list items) = ok (items_list items)
as_array value = raise (fetch_error (reply_no_array (type_name value)))

-- `json.loads` of a body, with the two hooks, is a parameter.
module _ (loads : Bytes → Result Json) where
  -- `_parsed_json_body`
  unfoldable pub parsed_json_body : ℕ → Bytes → Result Json
  unfolding parse_failure
  parsed_json_body status payload = elim (loads payload) [
    | ok value ↦ ok value
    | raise e ↦ raise (parse_failure status e)
  ]

  -- `_reply_object`
  unfoldable pub reply_object : ℕ → Bytes → Result Members
  unfolding as_object
  reply_object status payload = parsed_json_body status payload >>= as_object status

  -- `_batch_reply_array`
  unfoldable pub batch_reply_array : ℕ → Bytes → Result (List Json)
  unfolding as_array
  batch_reply_array status payload = parsed_json_body status payload >>= as_array

  -- `BitcoinCoreRpcClient._result`
  unfoldable pub result : Text → Text → ℕ → Bytes → Result Json
  result place request_id status payload = do
    reply ← reply_object status payload
    discriminate place request_id status reply
