-- ===== src/Transport/Session/Outcome.antt =====
-- src/bitcoin_core_rpc/transport.py: `http_request` over a `SessionTransport`.
use mathlib.Core.Path.{subst}
use bitcoin_core_rpc.Errors.{>>=-eq-ok, >>=-eq-raise, Exception, Result, Result-cases, ok, raise}
use bitcoin_core_rpc.Prelude.{
  Bool, Bool-cases, Bytes, List, Option, Text, [], arith, codes, false, inl, inr, leb, length, not,
  pos, refl, true, ℕ, ℤ, ◌++◌, ◌+◌, ◌||◌, ◌∷◌, ◌≡◌, ◌≤◌, ◌⊎◌,
}
use bitcoin_core_rpc.Transport.Checks.{
  Endpoint, Parts, Unicode, assert_valid_max_body_size, assert_valid_timeout, split_url,
}
use bitcoin_core_rpc.Transport.Exchange.{
  Attempt, Surroundings, answered, client_error, http_request, max_error_body_size, raised,
}
use bitcoin_core_rpc.Transport.Exchange.Bounds.{
  HttpOutcomeOr, IsIoError, IsPackageError, ReadsRaiseIo, fetch_error-IsPackageError,
  limit-IsPackageError, read_bounded-raise, timeout-IsPackageError, url-IsPackageError,
}
use bitcoin_core_rpc.Transport.Exchange.Outcome.{http_request-HttpOutcomeOr}
use bitcoin_core_rpc.Transport.Pool.{Key, find}
use bitcoin_core_rpc.Transport.Read.{Delivers, Source, read_bounded}
use bitcoin_core_rpc.Transport.Read.Bounded.{assert_valid_max_body_size-ok}
use bitcoin_core_rpc.Transport.Session.{Head, Network, Session, closing-cases, drop_key, key_of}
use bitcoin_core_rpc.Transport.Session.Call.{
  call_in, checked_call, concluded, discard, locked, read_body, received, send_and_receive,
  session_call,
}
use bitcoin_core_rpc.Transport.Session.Raised.{
  Fails, IsArgumentError, RaisesIo, close-Fails, send_over-Fails,
}
use bitcoin_core_rpc.Value.{Scalar, int}

-- what the transport did, as `http_request` meets it
unfoldable pub attempt_of : {S : Type 0} → Result (ℕ × Bytes) → Attempt S
attempt_of (raise e) = raised e
attempt_of (ok (status, body)) = answered status body

-- `http_request` reads no response of its own over a session, whose failures are answers
abbrev pub no_response : Source (Unit {0})
no_response = record { read1 = λ n u. (ok [], u); now = λ u. 0 }

nothing : (chunk : Bytes) → ok [] ≡ ok chunk → (n : ℕ) → ([] ≡ chunk ++ []) × (length chunk ≤ n)
nothing [] e n = (refl, omega arith)
nothing (c ∷ cs) e n = absurd (ground arith)

no_response-Delivers : Delivers no_response (λ u. [])
no_response-Delivers = record {
  read1_next = λ n u chunk e. nothing chunk e n;
  read1_end = λ n u h e. refl;
}

no_response-ReadsRaiseIo : ReadsRaiseIo no_response
no_response-ReadsRaiseIo n u x h = absurd (ground arith)

attempt_of-raised :
    {S : Type 0} (r : Result (ℕ × Bytes)) (e : Exception)
    → Fails r
    → attempt_of {S = S} r ≡ raised e
    → IsIoError e ⊎ (IsPackageError e ⊎ IsArgumentError e)
unfolding attempt_of
attempt_of-raised (raise x) e h k =
    let same : x ≡ e = ground arith in
    subst (λ y. IsIoError y ⊎ (IsPackageError y ⊎ IsArgumentError y)) same h
attempt_of-raised (ok a) e h k = absurd (ground arith)

module _ {W : Type 0} (network : Network W) (io : RaisesIo network) where
  read-Fails :
      (c limit deadline : ℕ) (truncate : Bool) (announced : Option ℤ) (w : W)
      → Fails (read_bounded (network.response c) (int (pos limit)) deadline truncate announced w).0
  read-Fails c limit deadline truncate announced w =
      elim (Result-cases
        (read_bounded (network.response c) (int (pos limit)) deadline truncate announced w).0) [
          | inl (body, e) ↦ rw (e, Fails) tt
          | inr (x, e) ↦
              rw (e, Fails)
                (elim (read_bounded-raise (network.response c) (io.read_io c) limit deadline
                  truncate announced w x e) [
                    | inl f ↦ inr (inl (fetch_error-IsPackageError x f))
                    | inr i ↦ inl i
                  ])
        ]

  discard-Fails :
      (key : Key) (c : ℕ) (given : Result (ℕ × Bytes)) (s : Session W)
      → Fails given
      → Fails (discard network key c given s).0
  unfolding discard drop_key
  discard-Fails key c given s h =
      closing-cases network (λ (r : Result (ℕ × Bytes) × Session W). Fails r.0) c
        (drop_key network key s) (λ x u. (raise x, u)) (λ u. (given, u))
        (λ x q. close-Fails network io c s.world x q) h

  concluded-Fails :
      (key : Key) (c : ℕ) (head : Head) (to_the_end : Bool) (r : Result Bytes) (s : Session W)
      → Fails r
      → Fails (concluded network key c head to_the_end r s).0
  unfolding concluded
  concluded-Fails key c head at_end (raise e) s h = discard-Fails key c (raise e) s h
  concluded-Fails key c head at_end (ok body) s h =
      elim (Bool-cases (head.will_close || not at_end)) [
        | inl t ↦ rw t (discard-Fails key c (ok (head.status, body)) s tt)
        | inr f ↦ rw f tt
      ]

  received-Fails :
      (key : Key) (limit deadline : ℕ) (r : Result (ℕ × Head) × Session W)
      → Fails r.0
      → Fails (received network key (int (pos limit)) deadline r).0
  unfolding received read_body
  received-Fails key limit deadline (raise e, s) h = h
  received-Fails key limit deadline (ok (c, head), s) h =
      elim (Bool-cases (leb client_error head.status)) [
        | inl g ↦ rw g (
            let r =
              read_bounded (network.response c) (int (pos max_error_body_size)) deadline true
                head.announced s.world in
            concluded-Fails key c head (network.is_closed c r.1) r.0 (record s { world = r.1 })
              (read-Fails c max_error_body_size deadline true head.announced s.world))
        | inr f ↦ rw f (
            let r =
              read_bounded (network.response c) (int (pos limit)) deadline false head.announced
                s.world in
            concluded-Fails key c head true r.0 (record s { world = r.1 })
              (read-Fails c limit deadline false head.announced s.world))
      ]

  checked_call-raise :
      (unicode : Unicode) (urlsplit : Text → Option Parts) (url : Text) (timeout limit : Scalar)
      (e : Exception)
      → checked_call network unicode urlsplit url timeout limit ≡ raise e
      → IsPackageError e
  unfolding checked_call
  checked_call-raise unicode urlsplit url timeout limit e h =
      elim (>>=-eq-raise (assert_valid_timeout (codes "http timeout") timeout) _ h) [
        | inl q ↦ timeout-IsPackageError (codes "http timeout") timeout e q
        | inr (d, p, h2) ↦ elim (>>=-eq-raise (assert_valid_max_body_size limit) _ h2) [
          | inl q ↦ limit-IsPackageError limit e q
          | inr (n, q, h3) ↦ elim (>>=-eq-raise (split_url unicode urlsplit url) _ h3) [
            | inl r ↦ url-IsPackageError unicode urlsplit url e r
            | inr (endpoint, r, h4) ↦ absurd (ground arith)
          ]
        ]
      ]

  checked_call-limit :
      (unicode : Unicode) (urlsplit : Text → Option Parts) (url : Text) (timeout limit : Scalar)
      (v : ℕ × Endpoint)
      → checked_call network unicode urlsplit url timeout limit ≡ ok v
      → (n : ℕ) × (limit ≡ int (pos n))
  unfolding checked_call
  checked_call-limit unicode urlsplit url timeout limit v h =
      let (d, p, h2) = >>=-eq-ok (assert_valid_timeout (codes "http timeout") timeout) _ h in
      let (n, q, h3) = >>=-eq-ok (assert_valid_max_body_size limit) _ h2 in
      (n, assert_valid_max_body_size-ok limit n q)

  call_in-Fails :
      (limit : Scalar) (r : Result (ℕ × Endpoint)) (s : Session W)
      → ((e : Exception) → r ≡ raise e → IsPackageError e)
      → ((v : ℕ × Endpoint) → r ≡ ok v → (n : ℕ) × (limit ≡ int (pos n)))
      → Fails (call_in network limit r s).0
  unfolding call_in locked
  call_in-Fails limit (raise e) s refused sized = inr (inl (refused e refl))
  call_in-Fails limit (ok (duration, endpoint)) s refused sized =
      let deadline = network.clock s.world + duration in
      let key = key_of endpoint in
      let (n, same) = sized (duration, endpoint) refl in
      rw same (
        received-Fails key n deadline (send_and_receive network key deadline s)
          (send_over-Fails network io key deadline (find key s.pool) s))

  session_call-Fails :
      (unicode : Unicode) (urlsplit : Text → Option Parts) (url : Text) (timeout limit : Scalar)
      (s : Session W)
      → Fails (session_call network unicode urlsplit url timeout limit s).0
  unfolding session_call
  session_call-Fails unicode urlsplit url timeout limit s =
      call_in-Fails limit (checked_call network unicode urlsplit url timeout limit) s
        (checked_call-raise unicode urlsplit url timeout limit)
        (checked_call-limit unicode urlsplit url timeout limit)

  -- `http_request` over a session returns a status and a body within the bounds, or it raises
  -- `FetchError`, `ValueError`, `TypeError` or a class below them, so no error of the connection. The
  -- condition is that the operations of a connection, its close also, raise `OSError`,
  -- `HTTPException`, `ValueError`, as the `UnicodeError` of a lookup is, or `TypeError`.
  pub session_request-HttpOutcomeOr :
      (around : Surroundings) (url : Text) (headers : List (Scalar × Scalar))
      (timeout max_body_size : Scalar) (s : Session W)
      → HttpOutcomeOr IsArgumentError max_body_size (
          http_request no_response around
            (λ d l.
              attempt_of
                (session_call network around.unicode around.urlsplit url timeout max_body_size s).0)
            url
            headers
            timeout
            max_body_size)
  session_request-HttpOutcomeOr around url headers t m s =
      let r = (session_call network around.unicode around.urlsplit url t m s).0 in
      http_request-HttpOutcomeOr IsArgumentError no_response around (λ u. []) no_response-Delivers
        no_response-ReadsRaiseIo (λ d l. attempt_of r)
        (λ d l e q.
          attempt_of-raised r e (session_call-Fails around.unicode around.urlsplit url t m s) q)
        url headers t m
