-- ===== src/Transport/Session/Sends.antt =====
-- src/bitcoin_core_rpc/transport.py: a call of `SessionTransport` sends its request once.
use bitcoin_core_rpc.Errors.{Exception, Result, ok, raise}
use bitcoin_core_rpc.Prelude.{
  Bool, Bool-cases, Bytes, Option, Text, arith, false, inl, inr, leb, none, not, pos, refl, some,
  suc, sym, true, ℕ, ◌+◌, ◌||◌, ◌≡◌, ◌≤◌,
}
use bitcoin_core_rpc.Transport.Checks.{Endpoint, Parts, Unicode}
use bitcoin_core_rpc.Transport.Exchange.{client_error, max_error_body_size}
use bitcoin_core_rpc.Transport.Pool.{Key, find, find-forget}
use bitcoin_core_rpc.Transport.Read.{read_bounded}
use bitcoin_core_rpc.Transport.Session.{
  Head, Network, Session, close, closing-cases, drop_key, key_of, make, time_left,
}
use bitcoin_core_rpc.Transport.Session.Call.{
  call_in, checked_call, concluded, discard, locked, over_made, over_new, probed, read_body,
  received, refreshed, refreshed_in, send_and_receive, send_over, session_call,
}
use bitcoin_core_rpc.Transport.Session.Once.{Quiet, Sent, exchange-Sent, make-Quiet}
use bitcoin_core_rpc.Value.{Scalar, int}

module _ {W : Type 0} (network : Network W) where
  unsent :
      (key : Key) (s t : Session W) (e : Exception)
      → s.begun ≡ t.begun
      → s.written ≡ t.written
      → Sent {A = ℕ × Head} network key s (raise e, t)
  unsent key s t e h k = (omega (arith, h), omega (arith, k), omega (arith, k), inl (sym h))

  over_made-Sent :
      (key : Key) (deadline : ℕ) (s : Session W) (r : Result ℕ × Session W)
      → Quiet s r
      → Sent network key s (over_made network key deadline r)
  unfolding over_made
  over_made-Sent key deadline s (raise e, t) (h, k) = unsent key s t e (sym h) (sym k)
  over_made-Sent key deadline s (ok c, t) (h, k) =
      exchange-Sent network key deadline false c s t (sym h) (sym k)

  refreshed-Sent :
      (key : Key) (deadline c : ℕ) (r : Result (Unit {0}) × W) (s : Session W)
      → Sent network key s (refreshed network key deadline c r s)
  unfolding refreshed
  refreshed-Sent key deadline c (raise e, w) s = unsent key s (record s { world = w }) e refl refl
  refreshed-Sent key deadline c (ok _, w) s =
      exchange-Sent network key deadline true c s (record s { world = w }) refl refl

  refreshed_in-Sent :
      (key : Key) (deadline c : ℕ) (left : Result ℕ) (s : Session W)
      → Sent network key s (refreshed_in network key deadline c left s)
  unfolding refreshed_in
  refreshed_in-Sent key deadline c (raise e) s = unsent key s s e refl refl
  refreshed_in-Sent key deadline c (ok left) s =
      refreshed-Sent key deadline c (network.set_timeout c left s.world) s

  probed-Sent :
      (key : Key) (deadline c : ℕ) (r : Result Bool × W) (s : Session W)
      → Sent network key s (probed network key deadline c r s)
  unfolding probed close drop_key
  probed-Sent key deadline c (raise e, w) s = unsent key s (record s { world = w }) e refl refl
  probed-Sent key deadline c (ok true, w) s =
      let t = drop_key network key (close network c (record s { world = w })) in
      closing-cases network (Sent network key s) c (record s { world = w }) (λ x u. (raise x, u))
        (λ u. over_new network key deadline (drop_key network key u))
        (λ x q. (omega arith, omega arith, omega arith, inl refl))
        (over_made-Sent key deadline s (make network key deadline t)
          (make-Quiet network key deadline t))
  probed-Sent key deadline c (ok false, w) s =
      let t = record s { world = w } in
      refreshed_in-Sent key deadline c (time_left network deadline t) t

  send_over-Sent :
      (key : Key) (deadline : ℕ) (found : Option ℕ) (s : Session W)
      → Sent network key s (send_over network key deadline found s)
  unfolding send_over
  send_over-Sent key deadline none s =
      over_made-Sent key deadline s (make network key deadline s)
        (make-Quiet network key deadline s)
  send_over-Sent key deadline (some c) s = probed-Sent key deadline c (network.is_dead c s.world) s

  answered-Sent :
      (key : Key) (given : Result (ℕ × Bytes)) (s t : Session W)
      → t.begun ≤ suc (suc s.begun)
      → t.written ≡ suc s.written
      → find key t.pool ≡ none
      → Sent network key s (given, t)
  answered-Sent key (raise e) s t h k gone = (h, omega (arith, k), omega (arith, k), inr (inl gone))
  answered-Sent key (ok a) s t h k gone = (h, k)

  discard-Sent :
      (key : Key) (c : ℕ) (given : Result (ℕ × Bytes)) (s t : Session W)
      → t.begun ≤ suc (suc s.begun)
      → t.written ≡ suc s.written
      → Sent network key s (discard network key c given t)
  unfolding discard close drop_key
  discard-Sent key c given s t h k =
      let gone = find-forget key t.pool in
      closing-cases network (Sent network key s) c (drop_key network key t) (λ x u. (raise x, u))
        (λ u. (given, u)) (λ x q. (h, omega (arith, k), omega (arith, k), inr (inl gone)))
        (answered-Sent key given s (close network c (drop_key network key t)) h k gone)

  concluded-Sent :
      (key : Key) (c : ℕ) (head : Head) (to_the_end : Bool) (r : Result Bytes) (s t : Session W)
      → t.begun ≤ suc (suc s.begun)
      → t.written ≡ suc s.written
      → Sent network key s (concluded network key c head to_the_end r t)
  unfolding concluded
  concluded-Sent key c head at_end (raise e) s t h k = discard-Sent key c (raise e) s t h k
  concluded-Sent key c head at_end (ok body) s t h k =
      elim (Bool-cases (head.will_close || not at_end)) [
        | inl g ↦ rw g (discard-Sent key c (ok (head.status, body)) s t h k)
        | inr f ↦ rw f (h, k)
      ]

  received-Sent :
      (key : Key) (limit : Scalar) (deadline : ℕ) (s : Session W)
      (r : Result (ℕ × Head) × Session W)
      → Sent network key s r
      → Sent network key s (received network key limit deadline r)
  unfolding received read_body
  received-Sent key limit deadline s (raise e, t) h = h
  received-Sent key limit deadline s (ok (c, head), t) (h, k) =
      elim (Bool-cases (leb client_error head.status)) [
        | inl g ↦ rw g (
            let r =
              read_bounded (network.response c) (int (pos max_error_body_size)) deadline true
                head.announced t.world in
            concluded-Sent key c head (network.is_closed c r.1) r.0 s (record t { world = r.1 }) h
              k)
        | inr f ↦ rw f (
            let r = read_bounded (network.response c) limit deadline false head.announced t.world in
            concluded-Sent key c head true r.0 s (record t { world = r.1 }) h k)
      ]

  -- A call that passes its checks begins its request twice at most and writes it out in full once
  -- at most, whatever the network does; it has written it in full once where it returns; and where
  -- it raises behind the begin of its request, no connection is kept under its key, but perhaps
  -- where what it raises was raised by the close of a connection.
  pub session_call-Sent :
      (unicode : Unicode) (urlsplit : Text → Option Parts) (url : Text) (timeout limit : Scalar)
      (s : Session W) {duration : ℕ} {endpoint : Endpoint}
      → checked_call network unicode urlsplit url timeout limit ≡ ok (duration, endpoint)
      → Sent network (key_of endpoint) s (session_call network unicode urlsplit url timeout limit s)
  unfolding session_call call_in locked
  session_call-Sent unicode urlsplit url timeout limit s {duration} {endpoint} h =
      let deadline = network.clock s.world + duration in
      let key = key_of endpoint in
      rw h (
        received-Sent key limit deadline s (send_and_receive network key deadline s)
          (send_over-Sent key deadline (find key s.pool) s))
