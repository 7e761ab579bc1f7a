-- ===== src/Transport/Session.antt =====
-- src/bitcoin_core_rpc/transport.py: `SessionTransport`, which keeps a connection for each scheme,
-- host and port. Its calls hold one lock, so a history is a sequence of calls. A connection is a
-- number, given out in the order of their making; which of them are open, and how often a request
-- was begun and written in full, is kept beside the pool.
pub mod Call
pub mod Settled
pub mod Kept
pub mod Once
pub mod Sends
pub mod Raised
pub mod Outcome
pub mod History
pub mod Complete
use bitcoin_core_rpc.Errors.{
  Exception, Result, Result-cases, fetch_error, is_instance, ok, raise, timeout_expired,
}
use bitcoin_core_rpc.Errors.Classes.{
  broken_pipe_error, connection_aborted_error, connection_reset_error,
}
use bitcoin_core_rpc.Prelude.{
  Bool, Option, Text, [], codes, false, if◌then◌else◌, inl, inr, leb, not, some, suc, text_eq, ℕ, ℤ,
  ◌&&◌, ◌-◌, ◌==◌, ◌||◌, ◌∷◌, ◌≡◌,
}
use bitcoin_core_rpc.Transport.Checks.{Endpoint}
use bitcoin_core_rpc.Transport.Pool.{Key, Pool, forget}
use bitcoin_core_rpc.Transport.Read.{Source}

pub record Session (W : Type 0) : Type 0 where
  pub pool : Pool
  pub opened : ℕ → Bool
  pub next : ℕ
  pub begun : ℕ
  pub written : ℕ
  pub world : W

-- What `getresponse` returns: the status, the announced size, and `will_close`.
pub record Head : Type 0 where
  pub status : ℕ
  pub announced : Option ℤ
  pub will_close : Bool

-- The connections, over the states of the world: `connection_factory`, the probe of a kept
-- connection, its refreshed timeout, `request` and `getresponse` under the connection's deadline,
-- the octets of the response and its `isclosed`, `close`, and the clock. All but the last three may
-- raise.
pub record Network (W : Type 0) : Type 0 where
  pub factory : Key → (timeout connection : ℕ) → W → Result (Unit {0}) × W
  pub is_dead : (connection : ℕ) → W → Result Bool × W
  pub set_timeout : (connection timeout : ℕ) → W → Result (Unit {0}) × W
  pub request : (connection deadline : ℕ) → W → Result (Unit {0}) × W
  pub get_response : (connection deadline : ℕ) → W → Result Head × W
  pub response : (connection : ℕ) → Source W
  pub is_closed : (connection : ℕ) → W → Bool
  pub hang_up : (connection : ℕ) → W → Result (Unit {0}) × W
  pub clock : W → ℕ

-- `_STALE_CONNECTION_ERRORS`
unfoldable pub is_stale : Exception → Bool
unfolding is_instance
is_stale e =
    is_instance e broken_pipe_error
    || is_instance e connection_aborted_error
    || is_instance e connection_reset_error

-- port or (443 if scheme == "https" else 80)
unfoldable pub default_port : Text → Option ℕ → ℕ
default_port scheme (some (suc n)) = suc n
default_port scheme _ = if text_eq scheme (codes "https") then 443 else 80

abbrev pub key_of : Endpoint → Key
key_of endpoint = record {
  scheme = endpoint.scheme;
  host = endpoint.host;
  port_number = default_port endpoint.scheme endpoint.port_number;
}

-- the remaining time of `_time_left`
unfoldable pub time_left_at : ℕ → ℕ → Result ℕ
time_left_at deadline now =
    if leb deadline now then raise (fetch_error timeout_expired) else ok (deadline - now)

-- what the statements of an exchange pass on: a result, the local `connection`, and the session
abbrev pub Local : Type 0 → Type 0 → Type 0
Local W A = Result A × ℕ × Session W

module _ {W : Type 0} (network : Network W) where
  -- `_time_left`
  abbrev pub time_left : ℕ → Session W → Result ℕ
  time_left deadline s = time_left_at deadline (network.clock s.world)

  -- connection.close(), where it returned
  unfoldable pub close : ℕ → Session W → Session W
  close c s = record s {
    opened = λ d. s.opened d && not (c == d);
    world = (network.hang_up c s.world).1;
  }

  -- connection.close(), with what is done where it raised and where it returned
  unfoldable pub closing :
      {Z : Type 0} → ℕ → Session W → (Exception → Session W → Z) → (Session W → Z) → Z
  unfolding close
  closing c s on_raise next = elim (network.hang_up c s.world).0 [
    | raise x ↦ on_raise x (record s { world = (network.hang_up c s.world).1 })
    | ok _ ↦ next (close c s)
  ]

  -- self._connections.pop(key, None)
  unfoldable pub drop_key : Key → Session W → Session W
  drop_key key s = record s { pool = forget key s.pool }

  -- what the factory did is counted if it returned
  unfoldable pub made : Result (Unit {0}) × W → Session W → Result ℕ × Session W
  made (raise e, w) s = (raise e, record s { world = w })
  made (ok _, w) s = (
    ok s.next,
    record s { opened = λ d. s.next == d || s.opened d; next = suc s.next; world = w },
  )

  -- the factory is given the time that is left, where some is
  unfoldable pub make_in : Key → Result ℕ → Session W → Result ℕ × Session W
  unfolding made
  make_in key (raise e) s = (raise e, s)
  make_in key (ok left) s = made (network.factory key left s.next s.world) s

  -- self._connection_factory(*key, _time_left(deadline, url))
  unfoldable pub make : Key → ℕ → Session W → Result ℕ × Session W
  unfolding make_in
  make key deadline s = make_in key (time_left deadline s) s

  -- `request` has returned or raised
  unfoldable pub wrote : Result (Unit {0}) × W → Session W → Result (Unit {0}) × Session W
  wrote (raise e, w) s = (raise e, record s { begun = suc s.begun; world = w })
  wrote (ok _, w) s = (ok tt, record s { begun = suc s.begun; written = suc s.written; world = w })

  -- connection.request(...)
  unfoldable pub write : ℕ → ℕ → Session W → Result (Unit {0}) × Session W
  unfolding wrote
  write deadline c s = wrote (network.request c deadline s.world) s

  -- connection.getresponse(), where the request was written
  unfoldable pub answered_by : ℕ → ℕ → Result (Unit {0}) × Session W → Local W Head
  answered_by deadline c (raise e, s) = (raise e, c, s)
  answered_by deadline c (ok _, s) =
      let (r, w) = network.get_response c deadline s.world in (r, c, record s { world = w })

  -- the request over the connection that replaces a stale one, where there is one
  unfoldable pub resent : ℕ → ℕ → Result ℕ × Session W → Local W Head
  unfolding write answered_by
  resent deadline c (raise e, s) = (raise e, c, s)
  resent deadline c (ok c', s) = answered_by deadline c' (write deadline c' s)

  -- `except _STALE_CONNECTION_ERRORS`, and `getresponse`
  unfoldable pub after_write : Key → ℕ → Bool → ℕ → Result (Unit {0}) × Session W → Local W Head
  unfolding is_stale closing make resent answered_by
  after_write key deadline reused c (raise e, s) =
      if is_stale e && reused
      then closing c s (λ x t. (raise x, c, t)) (λ t. resent deadline c (make key deadline t))
      else (raise e, c, s)
  after_write key deadline reused c (ok _, s) = answered_by deadline c (ok tt, s)

  -- `except BaseException`, and the pool after an exchange
  unfoldable pub settle : Key → Local W Head → Result (ℕ × Head) × Session W
  unfolding closing drop_key
  settle key (raise e, c, s) = closing c s (λ x t. (raise x, t)) (λ t. (raise e, drop_key key t))
  settle key (ok head, c, s) = (ok (c, head), record s { pool = (key, c) ∷ forget key s.pool })

  -- the two `try` blocks, once there is a connection
  unfoldable pub exchange : Key → ℕ → Bool → ℕ → Session W → Result (ℕ × Head) × Session W
  unfolding after_write settle write
  exchange key deadline reused c s =
      settle key (after_write key deadline reused c (write deadline c s))

module _ {W : Type 0} (network : Network W) where
  -- To split on what `close` did.
  pub closing-cases :
      {Z : Type 0} (P : Z → Type 0) (c : ℕ) (s : Session W) (on_raise : Exception → Session W → Z)
      (next : Session W → Z)
      → ((x : Exception)
          → (network.hang_up c s.world).0 ≡ raise x
          → P (on_raise x (record s { world = (network.hang_up c s.world).1 })))
      → P (next (close network c s))
      → P (closing network c s on_raise next)
  unfolding closing
  closing-cases P c s on_raise next f g = elim (Result-cases (network.hang_up c s.world).0) [
    | inl (u, q) ↦ rw (closing, q) g
    | inr (x, q) ↦ rw (closing, q) (f x q)
  ]

  -- closing a connection raises nothing
  abbrev pub ClosesQuietly : Type 0
  ClosesQuietly = (c : ℕ) (w : W) → (network.hang_up c w).0 ≡ ok tt

  -- ... so what stands behind it is done
  pub closing-quiet :
      {Z : Type 0} (P : Z → Type 0) (c : ℕ) (s : Session W) (on_raise : Exception → Session W → Z)
      (next : Session W → Z)
      → ClosesQuietly
      → P (next (close network c s))
      → P (closing network c s on_raise next)
  closing-quiet P c s on_raise next quiet =
      closing-cases P c s on_raise next (λ x q. let r = quiet c s.world in absurd cc)

-- `__init__`
abbrev pub new_session : {W : Type 0} → W → Session W
new_session w = record {
  pool = [];
  opened = λ d. false;
  next = 0;
  begun = 0;
  written = 0;
  world = w;
}
