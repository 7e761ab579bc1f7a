-- ===== src/Transport/Exchange/Outcome.antt =====
-- `http_request` of src/bitcoin_core_rpc/transport.py: every way it ends.
use mathlib.Core.Path.{subst}
use bitcoin_core_rpc.Errors.{
  Exception, Result, Result-cases, class_of, fetch_error, is_instance, no_answer, ok, raise,
  response_too_large, ◌>>=◌,
}
use bitcoin_core_rpc.Errors.Classes.{fetch_error_class, http_exception, os_error}
use bitcoin_core_rpc.Prelude.{
  Bool, Bool-cases, Bytes, List, Option, Text, [], arith, codes, false, inl, inr, leb, length,
  length-take, ltb, pos, refl, sym, take, true, ℕ, ℤ, ◌+◌, ◌||◌, ◌≡◌, ◌≤◌, ◌⊎◌,
}
use bitcoin_core_rpc.Transport.Checks.{
  assert_valid_headers, assert_valid_max_body_size, assert_valid_timeout, split_url,
}
use bitcoin_core_rpc.Transport.Exchange.{
  Attempt, Surroundings, answered, attempt_result, client_error, failed, failure_body, http_request,
  max_error_body_size, raised,
}
use bitcoin_core_rpc.Transport.Exchange.Bounds.{
  HttpOutcome, HttpOutcomeOr, IsIoError, IsPackageError, ReadsRaiseIo, fetch_error-IsPackageError,
  headers-IsPackageError, limit-IsPackageError, read_bounded-raise, timeout-IsPackageError,
  url-IsPackageError,
}
use bitcoin_core_rpc.Transport.Read.{Delivers, Source, read_bounded}
use bitcoin_core_rpc.Transport.Read.Bounded.{
  IsBounded-length, assert_valid_max_body_size-ok, read_bounded-IsBounded,
}
use bitcoin_core_rpc.Value.{Scalar, int}

caught_by : (a b c : Bool) → (c ≡ true) ⊎ ((a || b) ≡ true) → (a || b || c) ≡ true
caught_by true b c h = refl
caught_by false true c h = refl
caught_by false false c h = ground arith

module _ (Other : Exception → Type 0) where
  moved :
      (m : Scalar) (r r' : Result (ℕ × Bytes))
      → r ≡ r'
      → HttpOutcomeOr Other m r'
      → HttpOutcomeOr Other m r
  moved m r r' e h = subst (HttpOutcomeOr Other m) (sym e) h

  bind-HttpOutcome :
      {A : Type 0} (m : Scalar) (call : Result A) (next : A → Result (ℕ × Bytes))
      → ((e : Exception) → call ≡ raise e → IsPackageError e)
      → ((a : A) → call ≡ ok a → HttpOutcomeOr Other m (next a))
      → HttpOutcomeOr Other m (call >>= next)
  bind-HttpOutcome m (raise e) next f g = inl (f e refl)
  bind-HttpOutcome m (ok a) next f g = g a refl

  -- nothing else is raised
  HttpOutcomeOr-HttpOutcome :
      (m : Scalar) (r : Result (ℕ × Bytes))
      → ((e : Exception) → Other e → IsPackageError e)
      → HttpOutcomeOr Other m r
      → HttpOutcome m r
  HttpOutcomeOr-HttpOutcome m (raise e) f (inl h) = h
  HttpOutcomeOr-HttpOutcome m (raise e) f (inr h) = f e h
  HttpOutcomeOr-HttpOutcome m (ok (status, body)) f h = h

module _ {S : Type 0} (source : Source S) (around : Surroundings) (contents : S → Bytes)
    (delivers : Delivers source contents) (io : ReadsRaiseIo source) where
  -- A failed attempt always has a result: its status, with a body of at most 64K.
  failure_body-ok :
      (deadline code : ℕ) (announced : Option ℤ) (s : S)
      → (body : Bytes) × (failure_body source around deadline code announced s ≡ ok (code, body))
        × (length body ≤ max_error_body_size)
  unfolding failure_body
  failure_body-ok deadline code announced s =
      let r = (read_bounded source (int (pos max_error_body_size)) deadline true announced s).0 in
      elim (Result-cases r) [
        | inl (body, q) ↦
            let (limit, e, b) =
              read_bounded-IsBounded source contents delivers (int (pos max_error_body_size))
                deadline true announced s q in
            (body, rw (failure_body, q), let n = IsBounded-length b in ground arith)
        | inr (e, q) ↦
            let caught : (is_instance e os_error
                  || is_instance e http_exception
                  || is_instance e fetch_error_class)
                ≡ true =
              caught_by (is_instance e os_error) (is_instance e http_exception)
                (is_instance e fetch_error_class)
                (read_bounded-raise source io max_error_body_size deadline true announced s e q) in
            ([], rw (failure_body, q, caught), omega arith)
      ]

  -- What the transport raises is an error of the connection, one of the package's own, or other.
  attempt_result-HttpOutcome :
      (Other : Exception → Type 0) (max_body_size : Scalar) (limit deadline : ℕ)
      (attempt : Attempt S)
      → max_body_size ≡ int (pos limit)
      → ((e : Exception) → attempt ≡ raised e → IsIoError e ⊎ (IsPackageError e ⊎ Other e))
      → HttpOutcomeOr Other max_body_size (attempt_result source around deadline limit attempt)
  unfolding attempt_result
  attempt_result-HttpOutcome Other m limit deadline (answered status body) e raises =
      let run = attempt_result source around deadline limit (answered status body) in
      elim (Bool-cases (leb client_error status)) [
        | inl y ↦
            let n = length-take max_error_body_size body in
            moved Other m run (ok (status, take max_error_body_size body)) (rw (attempt_result, y))
              (limit, e, inl (omega arith))
        | inr y ↦ elim (Bool-cases (ltb limit (length body))) [
          | inl z ↦
              moved Other m run (raise (fetch_error response_too_large)) (rw (attempt_result, y, z))
                (inl (
                  fetch_error-IsPackageError (fetch_error response_too_large)
                    (unfold is_instance class_of in refl)))
          | inr z ↦
              moved Other m run (ok (status, body)) (rw (attempt_result, y, z))
                (limit, e, inr (ground arith, ground arith))
        ]
      ]
  attempt_result-HttpOutcome Other m limit deadline (failed code announced s) e raises =
      let (body, q, n) = failure_body-ok deadline code announced s in
      subst (HttpOutcomeOr Other m) (sym q) (limit, e, inl n)
  attempt_result-HttpOutcome Other m limit deadline (raised x) e raises =
      let run = attempt_result source around deadline limit (raised x) in
      elim (Bool-cases (is_instance x os_error || is_instance x http_exception)) [
        | inl y ↦ moved Other m run (raise (fetch_error no_answer)) (rw (attempt_result, y)) (
            inl (
              fetch_error-IsPackageError (fetch_error no_answer)
                (unfold is_instance class_of in refl)))
        | inr y ↦
            moved Other m run (raise x) (rw (attempt_result, y))
              (elim (raises x refl) [ inl i ↦ absurd cc | inr p ↦ p ])
      ]

-- The same, where a transport may also raise others.
pub http_request-HttpOutcomeOr :
    (Other : Exception → Type 0) {S : Type 0} (source : Source S) (around : Surroundings)
    (contents : S → Bytes)
    → Delivers source contents
    → ReadsRaiseIo source
    → (transport : ℕ → ℕ → Attempt S)
    → ((d l : ℕ) (e : Exception)
        → transport d l ≡ raised e
        → IsIoError e ⊎ (IsPackageError e ⊎ Other e))
    → (url : Text) (headers : List (Scalar × Scalar)) (timeout max_body_size : Scalar)
    → HttpOutcomeOr Other max_body_size
        (http_request source around transport url headers timeout max_body_size)
unfolding http_request
http_request-HttpOutcomeOr Other source around contents delivers io transport raises url headers t
      m =
    bind-HttpOutcome Other m (assert_valid_max_body_size m) _ (limit-IsPackageError m) (λ limit p.
      bind-HttpOutcome Other m (assert_valid_timeout (codes "http timeout") t) _
        (timeout-IsPackageError (codes "http timeout") t)
        (λ duration q.
          bind-HttpOutcome Other m (assert_valid_headers headers) _ (headers-IsPackageError headers)
            (λ _ r.
              bind-HttpOutcome Other m (split_url around.unicode around.urlsplit url) _
                (url-IsPackageError around.unicode around.urlsplit url)
                (λ endpoint u.
                  attempt_result-HttpOutcome source around contents delivers io Other m limit
                    (around.started + duration) (transport duration limit)
                    (assert_valid_max_body_size-ok m limit p) (raises duration limit)))))

-- The transport raised this, and it is no error of the connection.
abbrev pub Passed : {S : Type 0} → (ℕ → ℕ → Attempt S) → Exception → Type 0
Passed transport e =
    (d : ℕ) × (l : ℕ) × (transport d l ≡ raised e)
    × ((is_instance e os_error || is_instance e http_exception) ≡ false)

-- Over any transport at all, `http_request` raises the package's own exceptions and what the
-- transport raised that is no error of the connection.
pub http_request-Passed :
    {S : Type 0} (source : Source S) (around : Surroundings) (contents : S → Bytes)
    → Delivers source contents
    → ReadsRaiseIo source
    → (transport : ℕ → ℕ → Attempt S) (url : Text) (headers : List (Scalar × Scalar))
      (timeout max_body_size : Scalar)
    → HttpOutcomeOr
        (Passed transport)
        max_body_size
        (http_request source around transport url headers timeout max_body_size)
http_request-Passed source around contents delivers io transport =
    http_request-HttpOutcomeOr (Passed transport) source around contents delivers io transport
      (λ d l e q. elim (Bool-cases (is_instance e os_error || is_instance e http_exception)) [
        | inl y ↦ inl y
        | inr y ↦ inr (inr (d, l, q, y))
      ])

-- `http_request` ends in one of two ways. It returns a status and a body, and then the limit is a
-- size, and the body has at most 64K, or the status is below 400 and the body fits the limit; or
-- it raises `FetchError`, `BtcRpcValueError` or `BtcRpcTypeError`. The conditions are what `read1`
-- documents, that its errors are errors of the connection, and that the transport raises nothing
-- but those and the package's own.
pub http_request-HttpOutcome :
    {S : Type 0} (source : Source S) (around : Surroundings) (contents : S → Bytes)
    → Delivers source contents
    → ReadsRaiseIo source
    → (transport : ℕ → ℕ → Attempt S)
    → ((d l : ℕ) (e : Exception) → transport d l ≡ raised e → IsIoError e ⊎ IsPackageError e)
    → (url : Text) (headers : List (Scalar × Scalar)) (timeout max_body_size : Scalar)
    → HttpOutcome max_body_size
        (http_request source around transport url headers timeout max_body_size)
http_request-HttpOutcome source around contents delivers io transport raises url headers t m =
    HttpOutcomeOr-HttpOutcome (λ e. ⊥) m (http_request source around transport url headers t m)
      (λ e no. elim no [ ])
      (http_request-HttpOutcomeOr (λ e. ⊥) source around contents delivers io transport
        (λ d l e q. elim (raises d l e q) [ inl i ↦ inl i | inr p ↦ inr (inl p) ]) url headers t m)
