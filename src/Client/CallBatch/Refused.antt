-- ===== src/Client/CallBatch/Refused.antt =====
-- What `call_batch` of src/bitcoin_core_rpc/client.py refuses before anything is sent.
use bitcoin_core_rpc.Client.Call.{Fresh, request_members}
use bitcoin_core_rpc.Client.Call.Refused.{
  HasRoom, IsRefusal, Raises, Raises-bind, Raises-ok, Raises-raise, params_member-IsRefusal,
  walked-IsRefusal,
}
use bitcoin_core_rpc.Client.CallBatch.{
  BatchCalls, BatchFresh, BatchMember, batch_member_request, batch_pairs, batch_pairs_at,
  batch_requests, checked_params, iterated, member_failure, member_method, naming, no_sequence,
  not_iterated, other_length, pair,
}
use bitcoin_core_rpc.Errors.{Exception, Result, class_of, is_instance, ok, raise}
use bitcoin_core_rpc.Errors.Classes.{btc_rpc_type_error, btc_rpc_value_error}
use bitcoin_core_rpc.Params.{
  Heap, Interpreter, ParamsArgument, dict_object, params_member, ref, store, walked,
}
use bitcoin_core_rpc.Prelude.{Bool-cases, List, Text, [], arith, inl, inr, refl, suc, ℕ, ◌∷◌}
use bitcoin_core_rpc.Value.{Scalar, str}

batch_pairs_at-IsRefusal :
    (index : ℕ) (members : List BatchMember) → Raises IsRefusal (batch_pairs_at index members)
unfolding batch_pairs_at is_instance class_of
batch_pairs_at-IsRefusal index [] = Raises-ok IsRefusal []
batch_pairs_at-IsRefusal index (pair method params ∷ rest) =
    Raises-bind IsRefusal (batch_pairs_at (suc index) rest) _
      (batch_pairs_at-IsRefusal (suc index) rest)
      (λ pairs. Raises-ok IsRefusal ((method, params) ∷ pairs))
batch_pairs_at-IsRefusal index (other_length kind n ∷ rest) = Raises-raise IsRefusal _ refl
batch_pairs_at-IsRefusal index (no_sequence kind ∷ rest) = Raises-raise IsRefusal _ refl

pub batch_pairs-IsRefusal : (calls : BatchCalls) → Raises IsRefusal (batch_pairs calls)
unfolding batch_pairs is_instance class_of
batch_pairs-IsRefusal (iterated members) = batch_pairs_at-IsRefusal 0 members
batch_pairs-IsRefusal (not_iterated kind) = Raises-raise IsRefusal _ refl

member_failure-IsRefusal :
    (index : ℕ) (e : Exception) → IsRefusal e → IsRefusal (member_failure index e)
unfolding member_failure
member_failure-IsRefusal index e h = elim (Bool-cases (is_instance e btc_rpc_type_error)) [
  | inl t ↦ rw t (unfold is_instance class_of in refl)
  | inr f ↦ elim (Bool-cases (is_instance e btc_rpc_value_error)) [
    | inl t ↦ rw (f, t) (unfold is_instance class_of in refl)
    | inr g ↦ absurd (ground (arith, h, f, g))
  ]
]

naming-IsRefusal :
    {A : Type 0} (index : ℕ) (m : Result A) → Raises IsRefusal m → Raises IsRefusal (naming index m)
unfolding naming
naming-IsRefusal index (ok a) h = Raises-ok IsRefusal a
naming-IsRefusal index (raise x) h =
    Raises-raise IsRefusal (member_failure index x) (member_failure-IsRefusal index x (h x refl))

member_method-IsRefusal : (index : ℕ) (s : Scalar) → Raises IsRefusal (member_method index s)
unfolding member_method is_instance class_of
member_method-IsRefusal index (str m) = Raises-ok IsRefusal m
member_method-IsRefusal index s = Raises-raise IsRefusal _ refl

checked_params-IsRefusal :
    (python : Interpreter) (heap : Heap) (address : ℕ) (params : ParamsArgument)
    → HasRoom python
    → Raises IsRefusal (checked_params python heap address params)
checked_params-IsRefusal python heap address params room =
    Raises-bind IsRefusal (params_member params) _ (params_member-IsRefusal params) (λ o.
      Raises-bind IsRefusal (walked python (store heap address o) (ref address)) _
        (walked-IsRefusal python (store heap address o) (ref address) room)
        (λ _. Raises-ok IsRefusal (store heap address o)))

batch_member_request-IsRefusal :
    (python : Interpreter) (heap : Heap) (fresh : Fresh) (index : ℕ) (method : Scalar)
    (params : ParamsArgument) (request_id : Text)
    → HasRoom python
    → Raises IsRefusal (batch_member_request python heap fresh index method params request_id)
unfolding batch_member_request
batch_member_request-IsRefusal python heap fresh index method params request_id room =
    Raises-bind IsRefusal (member_method index method) _ (member_method-IsRefusal index method)
      (λ m.
        Raises-bind IsRefusal
          (naming index (checked_params python heap fresh.params_address params)) _
          (naming-IsRefusal index (checked_params python heap fresh.params_address params)
            (checked_params-IsRefusal python heap fresh.params_address params room))
          (λ copied. Raises-ok IsRefusal (
            store copied fresh.request_address
              (dict_object (request_members request_id m fresh.params_address)))))

pub batch_requests-IsRefusal :
    (python : Interpreter) (fresh : BatchFresh) (index : ℕ) (heap : Heap)
    (pairs : List (Scalar × ParamsArgument))
    → HasRoom python
    → Raises IsRefusal (batch_requests python fresh index heap pairs)
unfolding batch_requests
batch_requests-IsRefusal python fresh index heap [] room = Raises-ok IsRefusal heap
batch_requests-IsRefusal python fresh index heap ((method, params) ∷ rest) room =
    Raises-bind IsRefusal
      (batch_member_request python heap (fresh.member index) index method params
        (fresh.request_id index))
      _
      (batch_member_request-IsRefusal python heap (fresh.member index) index method params
        (fresh.request_id index) room)
      (λ next. batch_requests-IsRefusal python fresh (suc index) next rest room)
