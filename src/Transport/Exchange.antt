-- ===== src/Transport/Exchange.antt =====
-- src/bitcoin_core_rpc/transport.py: one exchange, over any transport (`http_request`,
-- `urlopen_transport`). Closing the response of a failure is not modelled.
pub mod Bounds
pub mod Outcome
pub mod Default
use bitcoin_core_rpc.Errors.{
  Exception, Result, fetch_error, is_instance, no_answer, ok, raise, response_too_large, ◌>>=◌,
  ◌>>◌,
}
use bitcoin_core_rpc.Errors.Classes.{fetch_error_class, http_exception, os_error}
use bitcoin_core_rpc.Prelude.{
  Bytes, List, Option, Text, [], codes, false, if◌then◌else◌, leb, length, ltb, pos, take, true, ℕ,
  ℤ, ◌*◌, ◌+◌, ◌||◌,
}
use bitcoin_core_rpc.Transport.Checks.{
  Parts, Unicode, assert_valid_headers, assert_valid_max_body_size, assert_valid_timeout, split_url,
}
use bitcoin_core_rpc.Transport.Read.{Source, read_bounded}
use bitcoin_core_rpc.Value.{Scalar, int}

abbrev pub client_error : ℕ
client_error = 400

abbrev pub max_error_body_size : ℕ
max_error_body_size = 64 * 1024

-- What a transport does with a request: it answers with a status and a body, raises urllib's
-- `HTTPError`, which is a response still to be read in this state of the connection, or raises
-- another exception.
pub data Attempt (S : Type 0) : Type 0 where
  answered : (status : ℕ) → (body : Bytes) → Attempt S
  failed : (code : ℕ) → (announced : Option ℤ) → (state : S) → Attempt S
  raised : Exception → Attempt S

-- What `_OPENER.open` does: an `HTTPError` is what it raises for a status that is no success.
pub data Opened (S : Type 0) : Type 0 where
  response : (status : ℕ) → (announced : Option ℤ) → (state : S) → Opened S
  open_failed : (code : ℕ) → (announced : Option ℤ) → (state : S) → Opened S
  open_raised : Exception → Opened S

-- What stands around an exchange: the interpreter's tables, `urlsplit`, and what `monotonic`
-- reads at the start.
pub record Surroundings : Type 0 where
  pub unicode : Unicode
  pub urlsplit : Text → Option Parts
  pub started : ℕ

-- an attempt whose statement may raise before it goes on
unfoldable pub tried : {A S : Type 0} → Result A → (A → Attempt S) → Attempt S
tried (raise e) next = raised e
tried (ok a) next = next a

module _ {S : Type 0} (source : Source S) (around : Surroundings) where
  -- what the opener returned: a response is read
  unfoldable pub read_response : Scalar → ℕ → Opened S → Attempt S
  unfolding tried
  read_response max_body_size deadline (open_raised e) = raised e
  read_response max_body_size deadline (open_failed code announced s) = failed code announced s
  read_response max_body_size deadline (response status announced s) =
      tried (read_bounded source max_body_size deadline false announced s).0 (answered status)

  -- `urlopen_transport`, of what the opener does with the request and the timeout
  unfoldable pub urlopen_transport : (ℕ → Opened S) → Text → Scalar → Scalar → Attempt S
  unfolding read_response
  urlopen_transport opener url timeout max_body_size =
      tried (assert_valid_timeout (codes "http timeout") timeout) (λ duration.
        tried (assert_valid_max_body_size max_body_size) (λ limit.
          tried (split_url around.unicode around.urlsplit url) (λ endpoint.
            read_response max_body_size (around.started + duration) (opener duration))))

  -- the body of a failure: nothing where it cannot be read
  unfoldable pub failure_body : ℕ → ℕ → Option ℤ → S → Result (ℕ × Bytes)
  unfolding is_instance
  failure_body deadline code announced s =
      elim (read_bounded source (int (pos max_error_body_size)) deadline true announced s).0 [
        | ok body ↦ ok (code, body)
        | raise e ↦
            if is_instance e os_error
              || is_instance e http_exception
              || is_instance e fetch_error_class
            then ok (code, [])
            else raise e
      ]

  -- `http_request` past its checks, on what the transport did
  unfoldable pub attempt_result : ℕ → ℕ → Attempt S → Result (ℕ × Bytes)
  unfolding failure_body is_instance
  attempt_result deadline limit (answered status body) =
      if leb client_error status
      then ok (status, take max_error_body_size body)
      else if ltb limit (length body)
      then raise (fetch_error response_too_large)
      else ok (status, body)
  attempt_result deadline limit (failed code announced s) = failure_body deadline code announced s
  attempt_result deadline limit (raised e) =
      if is_instance e os_error || is_instance e http_exception
      then raise (fetch_error no_answer)
      else raise e

  -- `http_request`; the transport is given the timeout, in units, and the limit
  unfoldable pub http_request :
      (ℕ → ℕ → Attempt S) → Text → List (Scalar × Scalar) → Scalar → Scalar → Result (ℕ × Bytes)
  unfolding attempt_result
  http_request transport url headers timeout max_body_size = do
    limit ← assert_valid_max_body_size max_body_size
    duration ← assert_valid_timeout (codes "http timeout") timeout
    assert_valid_headers headers
    endpoint ← split_url around.unicode around.urlsplit url
    attempt_result (around.started + duration) limit (transport duration limit)
