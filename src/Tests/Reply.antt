-- ===== src/Tests/Reply.antt =====
-- Runs of the reading of replies of src/bitcoin_core_rpc/client.py.
use mathlib.Core.Path.{subst}
use bitcoin_core_rpc.Batch.{
  answer, batch_results, contains_text, correlate, correlate_reply, correlated_batch_replies,
  member_result, member_results,
}
use bitcoin_core_rpc.Batch.Correlation.{IsReplyTo, correlated_batch_replies-IsReplyTo}
use bitcoin_core_rpc.Batch.Results.{BatchOutcome, batch_results-BatchOutcome}
use bitcoin_core_rpc.Errors.{Exception, Result, failure, library, ok, raise, rpc_error}
use bitcoin_core_rpc.Errors.Classes.{json_decode_error}
use bitcoin_core_rpc.Prelude.{
  Bool-cases, Bytes, List, Text, [], arith, codes, if◌then◌else◌, inl, inr, lookup, negsuc, pos,
  refl, some, text_eq, true, ℤ, ◌↔◌, ◌∷◌, ◌≡◌,
}
use bitcoin_core_rpc.Reply.{
  as_array, batch_reply_array, discriminate, legacy_result, parsed_json_body, result,
}
use bitcoin_core_rpc.Reply.Failure.{IsDocumented, Outcome, result-Outcome}
use bitcoin_core_rpc.Reply.NodeError.{IsErrorAnswer, discriminate-rpc_error_iff}
use bitcoin_core_rpc.Reply.Success.{IsAnswer, discriminate-ok_iff}
use bitcoin_core_rpc.Value.{
  Items, Json, Members, cons, dict, end, get, int, items_list, list, member, nil, none_value,
  scalar, str,
}

-- {"id": request_id, "result": value}
abbrev pub legacy_reply : Text → ℤ → Members
legacy_reply request_id n =
    member (codes "id") (scalar (str request_id)) (member (codes "result") (scalar (int n)) end)

-- {"jsonrpc": "2.0", "id": "a", "error": {"code": -8, "message": "out of range"}}
abbrev error_reply : Members
error_reply = member (codes "jsonrpc") (scalar (str (codes "2.0"))) (
    member (codes "id") (scalar (str (codes "a"))) (
      member (codes "error")
        (dict (
          member (codes "code") (scalar (int (negsuc 7)))
            (member (codes "message") (scalar (str (codes "out of range"))) end)))
        end))

abbrev at_node : Text
at_node = codes "getblockcount at node"

discriminate-ok_iff_example :
    (discriminate at_node (codes "a") 200 (legacy_reply (codes "a") (pos 7))
      ≡ ok (scalar (int (pos 7))))
    ↔ IsAnswer (codes "a") 200 (legacy_reply (codes "a") (pos 7)) (scalar (int (pos 7)))
discriminate-ok_iff_example =
    discriminate-ok_iff at_node (codes "a") 200 (legacy_reply (codes "a") (pos 7))
      (scalar (int (pos 7)))

legacy_run :
    discriminate at_node (codes "a") 200 (legacy_reply (codes "a") (pos 7))
    ≡ ok (scalar (int (pos 7)))
unfolding discriminate legacy_result get text_eq
legacy_run = refl

discriminate-rpc_error_iff_example :
    (discriminate at_node (codes "a") 200 error_reply
      ≡ raise (rpc_error (codes "out of range") (negsuc 7) (scalar none_value)))
    ↔ IsErrorAnswer at_node
        (codes "a")
        200
        error_reply
        (codes "out of range")
        (negsuc 7)
        (scalar none_value)
discriminate-rpc_error_iff_example =
    discriminate-rpc_error_iff at_node (codes "a") 200 error_reply (codes "out of range") (negsuc 7)
      (scalar none_value)

-- a parser that reads one array and refuses every other body
abbrev pub batch_body : Bytes
batch_body = codes "[]"

abbrev pub two_replies : Items
two_replies =
    cons (dict (legacy_reply (codes "b") (pos 2)))
      (cons (dict (legacy_reply (codes "a") (pos 1))) nil)

abbrev pub loads_batch : Bytes → Result Json
loads_batch payload =
    if text_eq payload batch_body
    then ok (list two_replies)
    else raise (failure json_decode_error library)

pub loads_batch-IsDocumented :
    (payload : Bytes) (e : Exception) → loads_batch payload ≡ raise e → IsDocumented e
loads_batch-IsDocumented payload e h = elim (Bool-cases (text_eq payload batch_body)) [
  | inl q ↦ let h' : ok (list two_replies) ≡ raise e = rw q at h in absurd (ground arith)
  | inr q ↦
      let h' : raise (failure json_decode_error library) ≡ raise e = rw q at h in
      let same : failure json_decode_error library ≡ e = ground arith in
      subst IsDocumented same refl
]

result-Outcome_example : Outcome 503 (result loads_batch at_node (codes "a") 503 (codes "<html>"))
result-Outcome_example =
    result-Outcome loads_batch at_node (codes "a") 503 (codes "<html>")
      (loads_batch-IsDocumented (codes "<html>"))

abbrev two_requests : List (Text × Text)
two_requests = (codes "one", codes "a") ∷ (codes "two", codes "b") ∷ []

-- the results come in the order of the requests
batch_run :
    batch_results loads_batch (λ m. m) two_requests 200 batch_body
    ≡ ok (answer (scalar (int (pos 1))) ∷ answer (scalar (int (pos 2))) ∷ [])
unfolding batch_results correlated_batch_replies correlate correlate_reply member_results
    member_result discriminate legacy_result get text_eq lookup batch_reply_array parsed_json_body
    as_array contains_text
batch_run = refl

batch_results-BatchOutcome_example :
    BatchOutcome loads_batch
      (λ m. m)
      two_requests
      200
      batch_body
      (batch_results loads_batch (λ m. m) two_requests 200 batch_body)
batch_results-BatchOutcome_example =
    batch_results-BatchOutcome loads_batch (λ m. m) two_requests 200 batch_body
      (loads_batch-IsDocumented batch_body)

abbrev correlated : List (Text × Members)
correlated =
    (codes "a", legacy_reply (codes "a") (pos 1))
    ∷ (codes "b", legacy_reply (codes "b") (pos 2))
    ∷ []

correlated_run :
    correlated_batch_replies (codes "a" ∷ codes "b" ∷ []) (items_list two_replies) ≡ ok correlated
unfolding correlated_batch_replies correlate correlate_reply contains_text get text_eq
correlated_run = refl

second_is_asked : contains_text (codes "a" ∷ codes "b" ∷ []) (codes "b") ≡ true
unfolding contains_text text_eq
second_is_asked = refl

correlated_batch_replies-IsReplyTo_example :
    (reply : Members) × (lookup (codes "b") correlated ≡ some reply)
    × IsReplyTo (items_list two_replies) (codes "b") reply
correlated_batch_replies-IsReplyTo_example =
    correlated_batch_replies-IsReplyTo (codes "a" ∷ codes "b" ∷ []) (items_list two_replies)
      (codes "b") correlated_run second_is_asked
