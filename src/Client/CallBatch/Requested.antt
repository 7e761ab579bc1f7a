-- ===== src/Client/CallBatch/Requested.antt =====
-- How `call_batch` of src/bitcoin_core_rpc/client.py makes its requests.
use mathlib.Core.Path.{subst}
use bitcoin_core_rpc.Client.Call.{request_members}
use bitcoin_core_rpc.Client.CallBatch.{
  BatchFresh, batch_member_request, batch_requests, checked_params, labels, member_method, naming,
}
use bitcoin_core_rpc.Errors.{>>=-eq-ok, Result, ok, raise}
use bitcoin_core_rpc.Params.{Heap, Interpreter, ParamsArgument, dict_object, store}
use bitcoin_core_rpc.Prelude.{List, Text, [], arith, map, suc, ℕ, ◌∷◌, ◌≡◌}
use bitcoin_core_rpc.Value.{Scalar, str}

-- The requests of these pairs, from this index on, are made with these ids: each method is a text,
-- and the heap gains a request that holds the id, the method and the checked copy of the parameters.
pub data Requested (python : Interpreter) (fresh : BatchFresh)
    : ℕ → Heap → List (Scalar × ParamsArgument) → List Text → Heap → Type 0 where
  all_requested : (index : ℕ) (heap : Heap) → Requested python fresh index heap [] [] heap
  next_requested :
      (index : ℕ) (heap copied final : Heap) (name request_id : Text) (params : ParamsArgument)
      (rest : List (Scalar × ParamsArgument)) (ids : List Text)
      → checked_params python heap (fresh.member index).params_address params ≡ ok copied
      → Requested python fresh
          (suc index)
          (store copied
            (fresh.member index).request_address
            (dict_object (request_members request_id name (fresh.member index).params_address)))
          rest
          ids
          final
      → Requested python fresh index heap ((str name, params) ∷ rest) (request_id ∷ ids) final

member_method-ok :
    (index : ℕ) (s : Scalar) (name : Text) → member_method index s ≡ ok name → s ≡ str name
unfolding member_method
member_method-ok index (str m) name h = ground arith
member_method-ok index _ name h = absurd (ground arith)

naming-ok : {A : Type 0} (index : ℕ) (m : Result A) (a : A) → naming index m ≡ ok a → m ≡ ok a
unfolding naming
naming-ok index (raise e) a h = absurd (ground arith)
naming-ok index (ok b) a h = h

-- The ids that the replies are asked for are those that the requests were made with.
pub batch_requests-Requested :
    (url : Text) (python : Interpreter) (fresh : BatchFresh) (index : ℕ) (heap : Heap)
    (pairs : List (Scalar × ParamsArgument)) (final : Heap)
    → batch_requests python fresh index heap pairs ≡ ok final
    → Requested python fresh index heap pairs (map (λ l. l.1) (labels url fresh index pairs)) final
unfolding batch_requests batch_member_request labels
batch_requests-Requested url python fresh index heap [] final h =
    let same : heap ≡ final = ground arith in
    subst (Requested python fresh index heap [] []) same (all_requested index heap)
batch_requests-Requested url python fresh index heap ((method, params) ∷ rest) final h =
    let request_id = fresh.request_id index in
    let (next, q, h') =
      >>=-eq-ok
        (batch_member_request python heap (fresh.member index) index method params request_id) _
        h in
    let (name, m, q') = >>=-eq-ok (member_method index method) _ q in
    let (copied, c, q'') =
      >>=-eq-ok
        (naming index (checked_params python heap (fresh.member index).params_address params)) _
        q' in
    let made =
      store copied (fresh.member index).request_address
        (dict_object (request_members request_id name (fresh.member index).params_address)) in
    let same : next ≡ made = ground arith in
    rw (member_method-ok index method name m) (
      next_requested index heap copied final name request_id params rest
        (map (λ l. l.1) (labels url fresh (suc index) rest))
        (naming-ok index (checked_params python heap (fresh.member index).params_address params)
          copied c)
        (batch_requests-Requested url python fresh (suc index) made rest final
          (subst (λ x. batch_requests python fresh (suc index) x rest ≡ ok final) same h')))
