-- ===== src/Client/Rest/Outcome.antt =====
-- What `BitcoinCoreRestClient` of src/bitcoin_core_rpc/client.py returns and raises.

use bitcoin_core_rpc.Chains.Signet.{Challenge}
use bitcoin_core_rpc.Client.Call.{timeout_of}
use bitcoin_core_rpc.Client.Call.Outcome.{http_request-raise, parsed_json_body-IsPackageError}
use bitcoin_core_rpc.Client.Call.Refused.{Raises, Raises-bind}
use bitcoin_core_rpc.Client.ChainCheck.{assert_chain}
use bitcoin_core_rpc.Client.ChainCheck.Agreement.{Agrees, Means, assert_chain-ok_iff}
use bitcoin_core_rpc.Client.Rest.{
  RestClient, RestSite, assert_status, default_max_body_size, fetch, get_bin, get_json,
  rest_assert_chain, rest_get, rest_headers, rest_url,
}
use bitcoin_core_rpc.Errors.{
  >>=-eq-ok, Exception, Result, Result-cases, class_of, is_instance, ok, raise,
}
use bitcoin_core_rpc.Prelude.{
  Bytes, List, Option, Text, [], ap, arith, codes, inl, inr, pos, refl, ℕ, ◌↔◌, ◌∙◌, ◌≡◌, ◌⊎◌,
}
use bitcoin_core_rpc.Reply.{parsed_json_body}
use bitcoin_core_rpc.Reply.Failure.{IsDocumented}
use bitcoin_core_rpc.Transport.Checks.{assert_valid_timeout}
use bitcoin_core_rpc.Transport.Exchange.Bounds.{
  IsPackageError, ReadsRaiseIo, timeout-IsPackageError,
}
use bitcoin_core_rpc.Transport.Exchange.Outcome.{Passed, http_request-Passed}
use bitcoin_core_rpc.Transport.Read.{Delivers}
use bitcoin_core_rpc.Value.{Json, Scalar, int, none_value, str}

-- What the standard library documents of what a request asks of it.
pub record IsDocumentedRest {S : Type 0} (site : RestSite S) : Type 0 where
  pub replies : (payload : Bytes) (e : Exception) → site.loads payload ≡ raise e → IsDocumented e
  pub to_come : S → Bytes
  pub reads : Delivers site.source to_come
  pub io : ReadsRaiseIo site.source

-- What leaves a request: an exception of the package's own, or one that the transport raised and
-- that is no error of the connection.
abbrev pub RestEscapes : {S : Type 0} → RestSite S → Exception → Type 0
RestEscapes site e =
    IsPackageError e
    ⊎ ((url : Text) × (headers : List (Scalar × Scalar)) × Passed (site.transport url headers) e)

rest_url-IsPackageError :
    (start : Text) (path : Scalar) (e : Exception)
    → rest_url start path ≡ raise e
    → IsPackageError e
unfolding rest_url is_instance class_of
rest_url-IsPackageError start (str p) e h = ground arith
rest_url-IsPackageError start _ e h = ground arith

parsed_json_body-ok_iff :
    (loads : Bytes → Result Json) (status : ℕ) (payload : Bytes) (value : Json)
    → (parsed_json_body loads status payload ≡ ok value) ↔ (loads payload ≡ ok value)
unfolding parsed_json_body
parsed_json_body-ok_iff loads status payload value = (
  λ h. elim (Result-cases (loads payload)) [
    | inl (v, q) ↦ let h' = rw (parsed_json_body, q) at h in q ∙ h'
    | inr (x, q) ↦ let h' = rw (parsed_json_body, q) at h in absurd (ground arith)
  ],
  λ h. rw (parsed_json_body, h) refl,
)

module _ {S : Type 0} (site : RestSite S) (client : RestClient) where
  assert_status-IsPackageError :
      (status : ℕ) → Raises IsPackageError (assert_status site client status)
  unfolding assert_status is_instance class_of
  assert_status-IsPackageError status e h = ground arith

  rest_get-Escapes :
      IsDocumentedRest site
      → (path timeout limit : Scalar)
      → Raises (RestEscapes site) (rest_get site client path timeout limit)
  unfolding rest_get fetch
  rest_get-Escapes law path timeout limit =
      let chosen = timeout_of client.timeout timeout in
      Raises-bind (RestEscapes site) (rest_url client.url path) _
        (λ e q. inl (rest_url-IsPackageError client.url path e q))
        (λ url.
          Raises-bind (RestEscapes site)
            (assert_valid_timeout (codes "rest request_timeout") chosen) _
            (λ e q. inl (timeout-IsPackageError (codes "rest request_timeout") chosen e q))
            (λ duration e q.
              let transport = site.transport url rest_headers in
              elim (http_request-raise (Passed transport) limit
                (fetch site client timeout limit url)
                (http_request-Passed site.source site.around law.to_come law.reads law.io transport
                  url rest_headers chosen limit)
                e q) [ inl own_ ↦ inl own_ | inr passed ↦ inr (url, rest_headers, passed) ]))

  -- `get_bin` and `get_json` raise `FetchError` and the classes below it, `BtcRpcValueError` and
  -- `BtcRpcTypeError`, and what the transport raised that is no `OSError` and no `HTTPException`, and
  -- no other exception, whatever the arguments, the client, the transport and the reply are. The
  -- condition is what the connection and `json.loads` document.
  pub get-Escapes :
      IsDocumentedRest site
      → (path timeout limit : Scalar) (e : Exception)
      → (get_bin site client path timeout limit ≡ raise e)
        ⊎ (get_json site client path timeout limit ≡ raise e)
      → RestEscapes site e
  unfolding get_bin get_json
  get-Escapes law path timeout limit e (inl h) =
      Raises-bind (RestEscapes site) (rest_get site client path timeout limit) _
        (rest_get-Escapes law path timeout limit)
        (λ (status, payload) x q. inl (
          Raises-bind IsPackageError (assert_status site client status) _
            (assert_status-IsPackageError status) (λ _ y r. absurd (ground arith)) x q))
        e h
  get-Escapes law path timeout limit e (inr h) =
      Raises-bind (RestEscapes site) (rest_get site client path timeout limit) _
        (rest_get-Escapes law path timeout limit)
        (λ (status, payload) x q. inl (
          Raises-bind IsPackageError (assert_status site client status) _
            (assert_status-IsPackageError status)
            (λ _. parsed_json_body-IsPackageError site.loads status payload (law.replies payload)) x
            q))
        e h

  assert_status-ok : (status : ℕ) → assert_status site client status ≡ ok tt → status ≡ 200
  unfolding assert_status
  assert_status-ok status h = ground arith

  -- `get_bin` returns a body exactly when it arrived with status 200, and `get_json` a value exactly
  -- when a body arrived with status 200 and the parser reads the value from it.
  pub get-ok_iff :
      (path timeout limit : Scalar) (body : Bytes) (value : Json)
      → ((get_bin site client path timeout limit ≡ ok body)
          ↔ (rest_get site client path timeout limit ≡ ok (200, body)))
        × ((get_json site client path timeout limit ≡ ok value) ↔ (
            (payload : Bytes) × (rest_get site client path timeout limit ≡ ok (200, payload))
            × (site.loads payload ≡ ok value)))
  unfolding get_bin get_json assert_status
  get-ok_iff path timeout limit body value = (
    (
      λ h.
          let ((status, payload), q, h') =
            >>=-eq-ok (rest_get site client path timeout limit) _ h in
          let (u, s, h'') = >>=-eq-ok (assert_status site client status) _ h' in
          let at_200 = assert_status-ok status s in
          let same : payload ≡ body = ground arith in q ∙ ap ok cc,
      λ h. rw h refl,
    ),
    (
      λ h.
          let ((status, payload), q, h') =
            >>=-eq-ok (rest_get site client path timeout limit) _ h in
          let (u, s, h'') = >>=-eq-ok (assert_status site client status) _ h' in
          let at_200 = assert_status-ok status s in
          (
            payload,
            q ∙ ap (λ n. ok (n, payload)) at_200,
            (parsed_json_body-ok_iff site.loads status payload value).0 h'',
          ),
      λ (payload, q, r). rw q ((parsed_json_body-ok_iff site.loads 200 payload value).1 r),
    ),
  )

  -- `assert_chain` over `-rest` passes exactly when `/chaininfo.json` answered with status 200, the
  -- parser read the answer, and what it says names the chain and, on signet, derives the magic of
  -- the caller's challenge, or without one that of the default signet.
  pub rest_assert_chain-ok_iff :
      (sha256 : Bytes → Bytes) (chain : Text) (challenge : Option Challenge)
      → (rest_assert_chain site client sha256 chain challenge ≡ ok tt) ↔ (
          (expected : Option Bytes) × (reply : Json) × Means sha256 chain challenge expected
          × ((payload : Bytes) × (rest_get site client
                  (str (codes "/chaininfo.json"))
                  none_value
                  (int (pos default_max_body_size))
                ≡ ok (200, payload))
              × (site.loads payload ≡ ok reply))
          × Agrees sha256 reply chain expected)
  unfolding rest_assert_chain assert_chain
  rest_assert_chain-ok_iff sha256 chain challenge =
      let path = str (codes "/chaininfo.json") in
      let limit = int (pos default_max_body_size) in
      let over_call =
        assert_chain-ok_iff sha256 (get_json site client path none_value limit) chain challenge in
      let answer = λ (v : Json). (get-ok_iff path none_value limit [] v).1 in
      (
        λ h.
            let (expected, reply, p, q, agrees) = over_call.0 h in
            (expected, reply, p, (answer reply).0 q, agrees),
        λ (expected, reply, p, q, agrees).
            over_call.1 (expected, reply, p, (answer reply).1 q, agrees),
      )
