-- ===== src/Client/Call/Outcome.antt =====
-- What `call` of src/bitcoin_core_rpc/client.py raises, whatever the node, the network and the
-- operating system do.

use bitcoin_core_rpc.Chains.Cookie.{CookieFile, cookie_auth}
use bitcoin_core_rpc.Chains.Cookie.Outcome.{
  CookieOutcome, RaisesOsErrors, cookie_auth-CookieOutcome,
}
use bitcoin_core_rpc.Client.Call.{Site, call, headers_of, place_of, request}
use bitcoin_core_rpc.Client.Call.Refused.{
  HasRoom, IsRefusal, Raises, Raises-bind, Raises-raise, request-IsRefusal,
}
use bitcoin_core_rpc.Client.Credentials.{RpcClient, auth_header, basic, credential}
use bitcoin_core_rpc.Client.Encoding.{encode}
use bitcoin_core_rpc.Errors.{
  Exception, Result, Result-cases, btc_value_error, class_of, credential_not_encodable, failure,
  http_error, is_instance, ok, raise, rpc_error, ◌>>=◌,
}
use bitcoin_core_rpc.Errors.Classes.{btc_rpc_type_error, btc_rpc_value_error, fetch_error_class}
use bitcoin_core_rpc.Params.{ParamsArgument}
use bitcoin_core_rpc.Prelude.{
  Bool, Bytes, List, Option-cases, Text, arith, false, inl, inr, refl, true, ℕ, ◌||◌, ◌≡◌, ◌⊎◌,
}
use bitcoin_core_rpc.Reply.{parse_failure, parsed_json_body, result}
use bitcoin_core_rpc.Reply.Failure.{
  IsDocumented, Outcome, Reports, documented-Reports, result-Outcome,
}
use bitcoin_core_rpc.Transport.Exchange.{http_request}
use bitcoin_core_rpc.Transport.Exchange.Bounds.{
  HttpOutcomeOr, IsPackageError, ReadsRaiseIo, fetch_error-IsPackageError,
}
use bitcoin_core_rpc.Transport.Exchange.Outcome.{Passed, http_request-Passed}
use bitcoin_core_rpc.Transport.Read.{Delivers}
use bitcoin_core_rpc.Value.{Json, Scalar}

-- What the standard library and the operating system document, of everything that a call asks of
-- them, and that the stack has room for the walk over the parameters.
pub record IsDocumentedSite {P S : Type 0} (site : Site P S) : Type 0 where
  pub cookie_files : (p : P) → RaisesOsErrors (site.file p)
  pub replies : (payload : Bytes) (e : Exception) → site.loads payload ≡ raise e → IsDocumented e
  pub to_come : S → Bytes
  pub reads : Delivers site.source to_come
  pub io : ReadsRaiseIo site.source
  pub room : HasRoom site.python

-- What leaves a call: an exception of the package's own, or one that the transport raised and that
-- is no error of the connection.
abbrev pub Escapes : {P S : Type 0} → Site P S → Exception → Type 0
Escapes site e =
    IsPackageError e
    ⊎ ((body : Bytes) × (headers : List (Scalar × Scalar)) × Passed (site.transport body headers) e)

or_any : (a b c : Bool) → (b || c) ≡ true → (a || b || c) ≡ true
or_any true b c h = refl
or_any false b c h = h

pub IsRefusal-IsPackageError : (e : Exception) → IsRefusal e → IsPackageError e
IsRefusal-IsPackageError e h =
    or_any (is_instance e fetch_error_class) (is_instance e btc_rpc_value_error)
      (is_instance e btc_rpc_type_error) h

pub Reports-IsPackageError : (status : ℕ) (e : Exception) → Reports status e → IsPackageError e
Reports-IsPackageError status (http_error s) h = unfold is_instance class_of in refl
Reports-IsPackageError status (rpc_error m c d) h = unfold is_instance class_of in refl
Reports-IsPackageError status (failure c r) (e, h) =
    fetch_error-IsPackageError (failure c r) (unfold is_instance class_of in h)

pub http_request-raise :
    (Other : Exception → Type 0) (m : Scalar) (r : Result (ℕ × Bytes))
    → HttpOutcomeOr Other m r
    → Raises (λ e. IsPackageError e ⊎ Other e) r
http_request-raise Other m (raise x) h e q = Raises-raise (λ y. IsPackageError y ⊎ Other y) x h e q
http_request-raise Other m (ok (s, b)) h e q = absurd (ground arith)

own :
    {P S A : Type 0} (site : Site P S) {m : Result A}
    → Raises IsPackageError m
    → Raises (Escapes site) m
own site h e q = inl (h e q)

Outcome-raise : (status : ℕ) (r : Result Json) → Outcome status r → Raises IsPackageError r
Outcome-raise status (raise x) h e q =
    Raises-raise IsPackageError x (Reports-IsPackageError status x h) e q
Outcome-raise status (ok v) h e q = absurd (ground arith)

CookieOutcome-raise :
    (file : CookieFile) (r : Result Text) → CookieOutcome file r → Raises IsPackageError r
CookieOutcome-raise file (raise x) h e q =
    Raises-raise IsPackageError x (fetch_error-IsPackageError x h) e q
CookieOutcome-raise file (ok t) h e q = absurd (ground arith)

pub basic-IsPackageError : (t : Text) → Raises IsPackageError (basic t)
unfolding basic
basic-IsPackageError t e h = elim (Option-cases (encode t)) [
  | inl q ↦
      Raises-raise IsPackageError (btc_value_error credential_not_encodable)
        (unfold is_instance class_of in refl) e (rw (basic, q) at h)
  | inr (b, q) ↦ let h' = rw (basic, q) at h in absurd (ground arith)
]

pub credential-IsPackageError :
    {P : Type 0} (file : P → CookieFile) (client : RpcClient P)
    → ((p : P) → RaisesOsErrors (file p))
    → Raises IsPackageError (credential file client)
unfolding credential
credential-IsPackageError file client law e h = elim (Option-cases client.cookie_path) [
  | inl q ↦ let h' = rw (credential, q) at h in absurd (ground arith)
  | inr (p, q) ↦
      CookieOutcome-raise (file p) (cookie_auth (file p)).0
        (cookie_auth-CookieOutcome (file p) (law p)).1 e (rw (credential, q) at h)
]

pub parsed_json_body-IsPackageError :
    (loads : Bytes → Result Json) (status : ℕ) (payload : Bytes)
    → ((e : Exception) → loads payload ≡ raise e → IsDocumented e)
    → Raises IsPackageError (parsed_json_body loads status payload)
unfolding parsed_json_body
parsed_json_body-IsPackageError loads status payload d e h = elim (Result-cases (loads payload)) [
  | inl (v, q) ↦ let h' = rw (parsed_json_body, q) at h in absurd (ground arith)
  | inr (x, q) ↦
      Raises-raise IsPackageError (parse_failure status x)
        (Reports-IsPackageError status (parse_failure status x)
          (documented-Reports status x (d x q)))
        e (rw (parsed_json_body, q) at h)
]

pub auth_header-IsPackageError :
    {P : Type 0} (file : P → CookieFile) (client : RpcClient P)
    → ((p : P) → RaisesOsErrors (file p))
    → Raises IsPackageError (auth_header file client)
unfolding auth_header
auth_header-IsPackageError file client law =
    Raises-bind IsPackageError (credential file client) _
      (credential-IsPackageError file client law) basic-IsPackageError

pub sent-Escapes :
    {P S : Type 0} (site : Site P S) (url : Text) (body : Bytes) (authorization : Text)
    (timeout limit : Scalar)
    → IsDocumentedSite site
    → Raises (Escapes site) (
        http_request site.source site.around
          (site.transport body (headers_of authorization))
          url
          (headers_of authorization)
          timeout
          limit)
sent-Escapes site url body authorization timeout limit law e q =
    let headers = headers_of authorization in
    let transport = site.transport body headers in
    elim (http_request-raise (Passed transport) limit
      (http_request site.source site.around transport url headers timeout limit)
      (http_request-Passed site.source site.around law.to_come law.reads law.io transport url
        headers timeout limit)
      e q) [ inl own_ ↦ inl own_ | inr passed ↦ inr (body, headers, passed) ]

-- An exchange with the client's credential, and what is made of the answer.
pub exchange-Escapes :
    {P S A : Type 0} (site : Site P S) (client : RpcClient P) (body : Bytes)
    (timeout limit : Scalar) (next : ℕ × Bytes → Result A)
    → IsDocumentedSite site
    → ((answer : ℕ × Bytes) → Raises IsPackageError (next answer))
    → Raises (Escapes site) (
        auth_header site.file client >>= λ authorization.
        http_request site.source site.around
          (site.transport body (headers_of authorization))
          client.url
          (headers_of authorization)
          timeout
          limit
        >>= next)
exchange-Escapes site client body timeout limit next law follows =
    Raises-bind (Escapes site) (auth_header site.file client) _
      (own site (auth_header-IsPackageError site.file client law.cookie_files))
      (λ authorization.
        let headers = headers_of authorization in
        Raises-bind (Escapes site)
          (http_request site.source site.around (site.transport body headers) client.url headers
            timeout limit)
          _ (sent-Escapes site client.url body authorization timeout limit law)
          (λ answer. own site (follows answer)))

-- `call` raises `FetchError` and the classes below it, `BtcRpcValueError` and `BtcRpcTypeError`, and
-- what the transport raised that is no `OSError` and no `HTTPException`, and no other exception,
-- whatever its arguments, the client, the cookie file, the transport and the reply are. The
-- conditions are what the operating system, the connection and `json.loads` document, and that the
-- stack has room for the walk over the parameters.
pub call-Escapes :
    {P S : Type 0} (site : Site P S)
    → IsDocumentedSite site
    → (client : RpcClient P) (request_id : Text) (method : Scalar) (params : ParamsArgument)
      (request_timeout max_body_size : Scalar) (e : Exception)
    → call site client request_id method params request_timeout max_body_size ≡ raise e
    → Escapes site e
unfolding call auth_header
call-Escapes site law client request_id method params request_timeout max_body_size =
    Raises-bind (Escapes site)
      (request site.python site.heap site.fresh request_id method params client.timeout
        request_timeout)
      _ (λ e q. inl (IsRefusal-IsPackageError e (request-IsRefusal _ _ _ _ _ _ _ _ law.room e q)))
      (λ sent.
        exchange-Escapes site client sent.body sent.request_timeout max_body_size _ law
          (λ (status, payload).
            Outcome-raise status
              (result site.loads (place_of method client.url) request_id status payload)
              (result-Outcome site.loads (place_of method client.url) request_id status payload
                (law.replies payload))))
