-- ===== src/Client/CallRaw/Outcome.antt =====
-- What `call_raw` of src/bitcoin_core_rpc/client.py raises.
use bitcoin_core_rpc.Client.Call.{Fresh, Site, method_text, request_body, timeout_of}
use bitcoin_core_rpc.Client.Call.Outcome.{
  Escapes, IsDocumentedSite, IsRefusal-IsPackageError, exchange-Escapes,
  parsed_json_body-IsPackageError,
}
use bitcoin_core_rpc.Client.Call.Refused.{
  HasRoom, IsRefusal, Raises, Raises-bind, Raises-ok, Raises-raise, method_text-IsRefusal,
  params_member-IsRefusal, request_json-IsRefusal, timeout-IsRefusal, walked-IsRefusal,
}
use bitcoin_core_rpc.Client.CallRaw.{call_raw, marker_text, raw_members, raw_request}
use bitcoin_core_rpc.Client.Credentials.{RpcClient}
use bitcoin_core_rpc.Errors.{Exception, class_of, is_instance, raise}
use bitcoin_core_rpc.Params.{
  Heap, Interpreter, ParamsArgument, dict_object, params_member, ref, request_json, store, walked,
}
use bitcoin_core_rpc.Prelude.{Text, codes, inl, none, refl, some, ◌≡◌}
use bitcoin_core_rpc.Reply.{parsed_json_body}
use bitcoin_core_rpc.Transport.Checks.{assert_valid_timeout}
use bitcoin_core_rpc.Transport.Exchange.Bounds.{IsPackageError}
use bitcoin_core_rpc.Value.{Scalar, none_value, str}

marker_text-IsRefusal : (s : Scalar) → Raises IsRefusal (marker_text s)
unfolding marker_text is_instance class_of
marker_text-IsRefusal none_value = Raises-ok IsRefusal none
marker_text-IsRefusal (str m) = Raises-ok IsRefusal (some m)
marker_text-IsRefusal s = Raises-raise IsRefusal _ refl

raw_request-IsRefusal :
    (python : Interpreter) (heap : Heap) (fresh : Fresh) (request_id : Text) (method : Scalar)
    (params : ParamsArgument) (marker client_timeout request_timeout : Scalar)
    → HasRoom python
    → Raises IsRefusal (
        raw_request python heap fresh request_id method params marker client_timeout
          request_timeout)
unfolding raw_request
raw_request-IsRefusal python heap fresh request_id method params marker client_timeout
      request_timeout room =
    Raises-bind IsRefusal (method_text method) _ (method_text-IsRefusal method) (λ m.
      Raises-bind IsRefusal (marker_text marker) _ (marker_text-IsRefusal marker) (λ sent_marker.
        Raises-bind IsRefusal
          (assert_valid_timeout (codes "rpc request_timeout")
            (timeout_of client_timeout request_timeout))
          _ (timeout-IsRefusal _ (timeout_of client_timeout request_timeout))
          (λ d.
            Raises-bind IsRefusal (params_member params) _ (params_member-IsRefusal params) (λ o.
              Raises-bind IsRefusal (walked python _ _) _ (walked-IsRefusal python _ _ room) (λ _.
                let made =
                  store (store heap fresh.params_address o) fresh.request_address
                    (dict_object (raw_members sent_marker request_id m fresh.params_address)) in
                Raises-bind IsRefusal
                  (request_body (request_json python made (ref fresh.request_address))) _
                  (request_json-IsRefusal python made (ref fresh.request_address))
                  (λ b. Raises-ok IsRefusal (record {
                    request_id = request_id;
                    body = b;
                    request_timeout = timeout_of client_timeout request_timeout;
                  })))))))

-- `call_raw` raises what `call` may raise, whatever the marker, its other arguments, the client, the
-- cookie file, the transport and the reply are, under the same conditions.
pub call_raw-Escapes :
    {P S : Type 0} (site : Site P S)
    → IsDocumentedSite site
    → (client : RpcClient P) (request_id : Text) (method : Scalar) (params : ParamsArgument)
      (marker request_timeout max_body_size : Scalar) (e : Exception)
    → call_raw site client request_id method params marker request_timeout max_body_size ≡ raise e
    → Escapes site e
unfolding call_raw
call_raw-Escapes site law client request_id method params marker timeout limit =
    Raises-bind (Escapes site)
      (raw_request site.python site.heap site.fresh request_id method params marker client.timeout
        timeout)
      _
      (λ e q.
        inl (IsRefusal-IsPackageError e (raw_request-IsRefusal _ _ _ _ _ _ _ _ _ law.room e q)))
      (λ sent.
        exchange-Escapes site client sent.body sent.request_timeout limit _ law
          (λ (status, payload).
            Raises-bind IsPackageError (parsed_json_body site.loads status payload) _
              (parsed_json_body-IsPackageError site.loads status payload (law.replies payload))
              (λ v. Raises-ok IsPackageError (status, v))))
