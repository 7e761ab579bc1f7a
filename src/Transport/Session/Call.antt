-- ===== src/Transport/Session/Call.antt =====
-- src/bitcoin_core_rpc/transport.py: `SessionTransport.__call__` and `close`, over the exchange of
-- Transport/Session.antt.
use bitcoin_core_rpc.Errors.{Result, ok, raise, ◌>>=◌}
use bitcoin_core_rpc.Prelude.{
  Bool, Bytes, Option, Text, [], codes, false, if◌then◌else◌, leb, none, not, pos, some, true, ℕ,
  ◌+◌, ◌||◌, ◌∷◌,
}
use bitcoin_core_rpc.Transport.Checks.{
  Endpoint, Parts, Unicode, assert_valid_max_body_size, assert_valid_timeout, split_url,
}
use bitcoin_core_rpc.Transport.Exchange.{client_error, max_error_body_size}
use bitcoin_core_rpc.Transport.Pool.{Key, Pool, find}
use bitcoin_core_rpc.Transport.Read.{read_bounded}
use bitcoin_core_rpc.Transport.Session.{
  Head, Network, Session, closing, drop_key, exchange, key_of, make, time_left,
}
use bitcoin_core_rpc.Value.{Scalar, int}

module _ {W : Type 0} (network : Network W) where
  -- an exchange over a new connection, where it could be made
  unfoldable pub over_made : Key → ℕ → Result ℕ × Session W → Result (ℕ × Head) × Session W
  unfolding exchange
  over_made key deadline (raise e, s) = (raise e, s)
  over_made key deadline (ok c, s) = exchange network key deadline false c s

  abbrev pub over_new : Key → ℕ → Session W → Result (ℕ × Head) × Session W
  over_new key deadline s = over_made key deadline (make network key deadline s)

  -- the kept connection has its new timeout
  unfoldable pub refreshed :
      Key → ℕ → ℕ → Result (Unit {0}) × W → Session W → Result (ℕ × Head) × Session W
  unfolding exchange
  refreshed key deadline c (raise e, w) s = (raise e, record s { world = w })
  refreshed key deadline c (ok _, w) s =
      exchange network key deadline true c (record s { world = w })

  -- ... and is given it where some time is left
  unfoldable pub refreshed_in : Key → ℕ → ℕ → Result ℕ → Session W → Result (ℕ × Head) × Session W
  unfolding refreshed
  refreshed_in key deadline c (raise e) s = (raise e, s)
  refreshed_in key deadline c (ok left) s =
      refreshed key deadline c (network.set_timeout c left s.world) s

  -- an exchange over a connection that was kept
  abbrev pub over_kept : Key → ℕ → ℕ → Session W → Result (ℕ × Head) × Session W
  over_kept key deadline c s = refreshed_in key deadline c (time_left network deadline s) s

  -- what the probe of a kept connection leads to
  unfoldable pub probed : Key → ℕ → ℕ → Result Bool × W → Session W → Result (ℕ × Head) × Session W
  unfolding refreshed_in closing drop_key
  probed key deadline c (raise e, w) s = (raise e, record s { world = w })
  probed key deadline c (ok true, w) s =
      closing network c (record s { world = w }) (λ x t. (raise x, t))
        (λ t. over_new key deadline (drop_key network key t))
  probed key deadline c (ok false, w) s = over_kept key deadline c (record s { world = w })

  -- what was found under the key
  unfoldable pub send_over : Key → ℕ → Option ℕ → Session W → Result (ℕ × Head) × Session W
  unfolding probed
  send_over key deadline none s = over_new key deadline s
  send_over key deadline (some c) s = probed key deadline c (network.is_dead c s.world) s

  -- `_send_and_receive`, which answers with the connection besides the response
  abbrev pub send_and_receive : Key → ℕ → Session W → Result (ℕ × Head) × Session W
  send_and_receive key deadline s = send_over key deadline (find key s.pool) s

  -- self._connections.pop(key).close(), of the connection that stands under the key, and what is
  -- answered behind it
  unfoldable pub discard : {A : Type 0} → Key → ℕ → Result A → Session W → Result A × Session W
  unfolding closing drop_key
  discard key c given s =
      closing network c (drop_key network key s) (λ x t. (raise x, t)) (λ t. (given, t))

  -- the response was read, to its end or not, or the reading raised
  unfoldable pub concluded :
      Key → ℕ → Head → Bool → Result Bytes → Session W → Result (ℕ × Bytes) × Session W
  unfolding discard
  concluded key c head to_the_end (raise e) s = discard key c (raise e) s
  concluded key c head to_the_end (ok body) s =
      if head.will_close || not to_the_end
      then discard key c (ok (head.status, body)) s
      else (ok (head.status, body), s)

  -- the body of a response, under its status
  unfoldable pub read_body :
      Key → Scalar → ℕ → ℕ → Head → Session W → Result (ℕ × Bytes) × Session W
  unfolding concluded
  read_body key max_body_size deadline c head s =
      if leb client_error head.status
      then (let (r, w) =
            read_bounded (network.response c) (int (pos max_error_body_size)) deadline true
              head.announced s.world in
          concluded key c head (network.is_closed c w) r (record s { world = w }))
      else (let (r, w) =
            read_bounded (network.response c) max_body_size deadline false head.announced s.world in
          concluded key c head true r (record s { world = w }))

  -- a response was received
  unfoldable pub received :
      Key → Scalar → ℕ → Result (ℕ × Head) × Session W → Result (ℕ × Bytes) × Session W
  unfolding read_body
  received key max_body_size deadline (raise e, s) = (raise e, s)
  received key max_body_size deadline (ok (c, head), s) =
      read_body key max_body_size deadline c head s

  -- `__call__` past its checks
  unfoldable pub locked : Key → Scalar → ℕ → Session W → Result (ℕ × Bytes) × Session W
  unfolding received
  locked key max_body_size deadline s =
      received key max_body_size deadline (send_and_receive key deadline s)

  -- the checks of `__call__`: the duration, and the endpoint
  unfoldable pub checked_call :
      Unicode → (Text → Option Parts) → Text → Scalar → Scalar → Result (ℕ × Endpoint)
  checked_call unicode urlsplit url timeout max_body_size = do
    duration ← assert_valid_timeout (codes "http timeout") timeout
    limit ← assert_valid_max_body_size max_body_size
    endpoint ← split_url unicode urlsplit url
    ok (duration, endpoint)

  -- what stands behind the checks
  unfoldable pub call_in :
      Scalar → Result (ℕ × Endpoint) → Session W → Result (ℕ × Bytes) × Session W
  unfolding locked
  call_in max_body_size (raise e) s = (raise e, s)
  call_in max_body_size (ok (duration, endpoint)) s =
      locked (key_of endpoint) max_body_size (network.clock s.world + duration) s

  -- `__call__`
  unfoldable pub session_call :
      Unicode
      → (Text → Option Parts)
      → Text
      → Scalar
      → Scalar
      → Session W
      → Result (ℕ × Bytes) × Session W
  unfolding checked_call call_in
  session_call unicode urlsplit url timeout max_body_size s =
      call_in max_body_size (checked_call unicode urlsplit url timeout max_body_size) s

  -- the loop of `close`, which ends where a close raises
  unfoldable pub close_all : Pool → Session W → Result (Unit {0}) × Session W
  unfolding closing
  close_all [] s = (ok tt, s)
  close_all ((k, c) ∷ rest) s = closing network c s (λ x t. (raise x, t)) (λ t. close_all rest t)

  -- self._connections.clear(), behind the loop
  unfoldable pub cleared : Result (Unit {0}) × Session W → Result (Unit {0}) × Session W
  cleared (raise x, s) = (raise x, s)
  cleared (ok _, s) = (ok tt, record s { pool = [] })

  -- `close`
  unfoldable pub close_session : Session W → Result (Unit {0}) × Session W
  unfolding close_all cleared
  close_session s = cleared (close_all s.pool s)
