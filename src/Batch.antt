-- ===== src/Batch.antt =====
-- src/bitcoin_core_rpc/client.py: the replies to a batch (`_correlated_batch_replies`, and what
-- `call_batch` does with them).
pub mod Correlation
pub mod Failure
pub mod Results
use bitcoin_core_rpc.Errors.{
  Exception, Result, batch_count, batch_reply_no_object, batch_reply_repeated_id,
  batch_reply_unknown_id, class_of, failure, fetch_error, http_error, is_instance, library, ok,
  raise, ◌>>=◌, ◌>>◌,
}
use bitcoin_core_rpc.Errors.Classes.{key_error, rpc_error_class}
use bitcoin_core_rpc.Prelude.{
  Bool, Bytes, List, Text, [], codes, false, if◌then◌else◌, length, lookup, none, not, some,
  text_eq, ℕ, ◌==◌, ◌||◌, ◌∷◌,
}
use bitcoin_core_rpc.Reply.{batch_reply_array, discriminate}
use bitcoin_core_rpc.Value.{Json, Members, dict, get_or_none, scalar, str, type_name}

-- text in texts
unfoldable pub contains_text : List Text → Text → Bool
contains_text [] t = false
contains_text (x ∷ xs) t = text_eq x t || contains_text xs t

-- reply_id in by_id
abbrev pub names : List (Text × Members) → List Text
names [] = []
names ((i, m) ∷ rest) = i ∷ names rest

-- One turn of the loop over the replies, on the `id` of the reply, with the next turns as an
-- argument. The order of a `dict` is not read here, so a new member is put in front.
unfoldable pub correlate_reply :
    (List (Text × Members) → Result (List (Text × Members)))
    → List Text
    → List (Text × Members)
    → Members
    → Json
    → Result (List (Text × Members))
unfolding contains_text
correlate_reply next ids by_id reply (scalar (str i)) =
    if not (contains_text ids i)
    then raise (fetch_error (batch_reply_unknown_id (scalar (str i))))
    else if contains_text (names by_id) i
    then raise (fetch_error (batch_reply_repeated_id (scalar (str i))))
    else next ((i, reply) ∷ by_id)
correlate_reply next ids by_id reply reply_id =
    raise (fetch_error (batch_reply_unknown_id reply_id))

-- the loop over the replies
unfoldable pub correlate :
    List Text → List Json → List (Text × Members) → Result (List (Text × Members))
unfolding correlate_reply
correlate ids [] by_id = ok by_id
correlate ids (dict reply ∷ rest) by_id =
    correlate_reply (correlate ids rest) ids by_id reply (get_or_none (codes "id") reply)
correlate ids (reply ∷ rest) by_id = raise (fetch_error (batch_reply_no_object (type_name reply)))

-- `_correlated_batch_replies`
unfoldable pub correlated_batch_replies : List Text → List Json → Result (List (Text × Members))
unfolding correlate
correlated_batch_replies ids replies =
    if not (length replies == length ids)
    then raise (fetch_error (batch_count (length replies) (length ids)))
    else correlate ids replies []

-- What a member of a batch comes to: a result, or the node's own error as a value.
pub data MemberResult : Type 0 where
  answer : Json → MemberResult
  node_error : Exception → MemberResult

-- the `try` of the last loop of `call_batch`: an `RpcError` is a value, any other is raised
unfoldable pub member_result : Result Json → Result MemberResult
unfolding is_instance class_of
member_result (ok v) = ok (answer v)
member_result (raise e) = if is_instance e rpc_error_class then ok (node_error e) else raise e

-- The last loop of `call_batch`, over the methods and the ids of the requests; a missing id is
-- Python's `KeyError`.
unfoldable pub member_results :
    (Text → Text) → ℕ → List (Text × Text) → List (Text × Members) → Result (List MemberResult)
unfolding member_result lookup
member_results place status [] by_id = ok []
member_results place status ((method, i) ∷ rest) by_id = do
  reply ← elim (lookup i by_id) [ none ↦ raise (failure key_error library) | some m ↦ ok m ]
  here ← member_result (discriminate (place method) i status reply)
  others ← member_results place status rest by_id
  ok (here ∷ others)

abbrev pub request_ids : List (Text × Text) → List Text
request_ids [] = []
request_ids ((method, i) ∷ rest) = i ∷ request_ids rest

-- `call_batch`, from the status and the body of the answer on
unfoldable pub batch_results :
    (Bytes → Result Json)
    → (Text → Text)
    → List (Text × Text)
    → ℕ
    → Bytes
    → Result (List MemberResult)
unfolding correlated_batch_replies member_results
batch_results loads place requests status payload =
    if not (status == 200) then raise (http_error status) else (do
      replies ← batch_reply_array loads status payload
      by_id ← correlated_batch_replies (request_ids requests) replies
      member_results place status requests by_id)
