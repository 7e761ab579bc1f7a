-- ===== src/Client/CallBatch/Outcome.antt =====
-- What `call_batch` of src/bitcoin_core_rpc/client.py returns and raises.
use bitcoin_core_rpc.Batch.{MemberResult}
use bitcoin_core_rpc.Batch.Results.{Answered}
use bitcoin_core_rpc.Client.Call.{Site, headers_of, request_body}
use bitcoin_core_rpc.Client.Call.Outcome.{Escapes, IsDocumentedSite}
use bitcoin_core_rpc.Client.CallBatch.{
  BatchCalls, BatchFresh, batch_pairs, batch_requests, batch_text, is_empty_batch, labels,
}
use bitcoin_core_rpc.Client.CallBatch.Requested.{Requested}
use bitcoin_core_rpc.Client.Credentials.{RpcClient, auth_header}
use bitcoin_core_rpc.Errors.{Result, ok, raise}
use bitcoin_core_rpc.Params.{Heap, ParamsArgument}
use bitcoin_core_rpc.Prelude.{Bytes, List, Text, [], false, length, map, ℕ, ◌≡◌, ◌≢◌}
use bitcoin_core_rpc.Reply.{batch_reply_array}
use bitcoin_core_rpc.Transport.Exchange.{http_request}
use bitcoin_core_rpc.Value.{Json, Scalar}

-- How a batch comes to its results: the pairs of the argument were written as requests, in one body;
-- the exchange of this body answered with status 200 and an array; and for each pair, in their
-- order, there is a result, read from the reply in the array that carries the id of its request.
pub record IsExchanged {P S : Type 0} (site : Site P S) (fresh : BatchFresh) (client : RpcClient P)
    (calls : BatchCalls) (timeout limit : Scalar) (results : List MemberResult) : Type 0 where
  pub pairs : List (Scalar × ParamsArgument)
  pub ids : List Text
  pub heap : Heap
  pub body : Bytes
  pub authorization : Text
  pub payload : Bytes
  pub replies : List Json
  pub paired : batch_pairs calls ≡ ok pairs
  pub some_pair : pairs ≢ []
  pub requested : Requested site.python fresh 0 site.heap pairs ids heap
  pub asked : map (λ l. l.1) (labels client.url fresh 0 pairs) ≡ ids
  pub written_once : request_body (batch_text site.python fresh heap pairs) ≡ ok body
  pub authorized : auth_header site.file client ≡ ok authorization
  pub exchanged :
      http_request site.source site.around
        (site.transport body (headers_of authorization))
        client.url
        (headers_of authorization)
        timeout
        limit
      ≡ ok (200, payload)
  pub parsed : batch_reply_array site.loads 200 payload ≡ ok replies
  pub aligned : length results ≡ length pairs
  pub read_by_id : Answered (λ place. place) 200 replies (labels client.url fresh 0 pairs) results

-- What a batch may come to: its results, or one of the package's exceptions.
abbrev pub CallBatchOutcome :
    {P S : Type 0}
    → Site P S
    → BatchFresh
    → RpcClient P
    → BatchCalls
    → (timeout limit : Scalar) → Result (List MemberResult)
    → Type 0
CallBatchOutcome site fresh client calls timeout limit (raise e) = Escapes site e
CallBatchOutcome site fresh client calls timeout limit (ok results) =
    IsExchanged site fresh client calls timeout limit results

module _ {P S : Type 0} (site : Site P S) (law : IsDocumentedSite site) (fresh : BatchFresh)
    (client : RpcClient P) (calls : BatchCalls) where
  module _ (timeout limit : Scalar) (pairs : List (Scalar × ParamsArgument)) (heap : Heap)
      (body : Bytes) (h : batch_pairs calls ≡ ok pairs) (k : is_empty_batch pairs ≡ false)
      (m : batch_requests site.python fresh 0 site.heap pairs ≡ ok heap)
      (n : request_body (batch_text site.python fresh heap pairs) ≡ ok body) where
    abbrev sent_with : Text → Result (ℕ × Bytes)
    sent_with authorization =
        http_request site.source site.around (site.transport body (headers_of authorization))
          client.url (headers_of authorization) timeout limit
