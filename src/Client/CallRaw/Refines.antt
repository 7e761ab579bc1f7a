-- ===== src/Client/CallRaw/Refines.antt =====
-- `call` of src/bitcoin_core_rpc/client.py is `call_raw` and a reading of what it returns.
use bitcoin_core_rpc.Client.Call.{Fresh, Site, call, headers_of, place_of, request}
use bitcoin_core_rpc.Client.CallRaw.{call_raw, marker_text, raw_request}
use bitcoin_core_rpc.Client.Credentials.{RpcClient, auth_header}
use bitcoin_core_rpc.Errors.{Result, ok, raise, ◌>>=◌}
use bitcoin_core_rpc.Params.{Heap, Interpreter, ParamsArgument}
use bitcoin_core_rpc.Prelude.{Text, codes, refl, sym, ℕ, ◌∙◌, ◌≡◌}
use bitcoin_core_rpc.Reply.{as_object, discriminate, parsed_json_body, reply_object, result}
use bitcoin_core_rpc.Transport.Exchange.{http_request}
use bitcoin_core_rpc.Value.{Json, Scalar, str}

-- what `call` makes of an envelope
abbrev pub interpreted : Text → Text → ℕ × Json → Result Json
interpreted place request_id (status, value) =
    as_object status value >>= discriminate place request_id status

bind-fused :
    {A B C : Type 0} (m : Result A) (f : A → Result B) (g : B → Result C) (h : A → Result C)
    → ((a : A) → h a ≡ (f a >>= g))
    → (m >>= h) ≡ ((m >>= f) >>= g)
bind-fused (raise e) f g h k = refl
bind-fused (ok a) f g h k = k a

raw_request-marked :
    (python : Interpreter) (heap : Heap) (fresh : Fresh) (request_id : Text) (method : Scalar)
    (params : ParamsArgument) (client_timeout request_timeout : Scalar)
    → raw_request python heap fresh request_id method params
        (str (codes "2.0"))
        client_timeout
        request_timeout
      ≡ request python heap fresh request_id method params client_timeout request_timeout
unfolding raw_request request marker_text
raw_request-marked python heap fresh request_id method params client_timeout request_timeout = refl

-- `call` sends what `call_raw` sends with the marker "2.0", and raises what it raises: what it
-- returns is what `call_raw` returns, read as the reply to this call.
pub call-call_raw :
    {P S : Type 0} (site : Site P S) (client : RpcClient P) (request_id : Text) (method : Scalar)
    (params : ParamsArgument) (request_timeout max_body_size : Scalar)
    → call site client request_id method params request_timeout max_body_size ≡ (
        call_raw site client request_id method params
          (str (codes "2.0"))
          request_timeout
          max_body_size
        >>= interpreted (place_of method client.url) request_id)
unfolding call call_raw result reply_object
call-call_raw site client request_id method params request_timeout max_body_size =
    let place = place_of method client.url in
    rw
      (raw_request-marked site.python site.heap site.fresh request_id method params client.timeout
        request_timeout)
      (bind-fused
        (request site.python site.heap site.fresh request_id method params client.timeout
          request_timeout)
        _ (interpreted place request_id) _
        (λ sent.
          bind-fused (auth_header site.file client) _ (interpreted place request_id) _
            (λ authorization.
              bind-fused
                (http_request site.source site.around
                  (site.transport sent.body (headers_of authorization)) client.url
                  (headers_of authorization) sent.request_timeout max_body_size)
                _ (interpreted place request_id) _
                (λ (status, payload).
                  let parsed = parsed_json_body site.loads status payload in
                  let read_as = λ (v : Json). interpreted place request_id (status, v) in
                  sym (
                    bind-fused parsed (as_object status) (discriminate place request_id status)
                      read_as (λ v. refl))
                  ∙ bind-fused parsed (λ v. ok (status, v)) (interpreted place request_id) read_as
                      (λ v. refl)))))
