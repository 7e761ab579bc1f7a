-- ===== src/Transport/Session/Kept.antt =====
-- src/bitcoin_core_rpc/transport.py: a call of `SessionTransport` leaves open what it keeps.
use bitcoin_core_rpc.Errors.{Result, ok, raise}
use bitcoin_core_rpc.Prelude.{
  Bool, Bool-cases, Bytes, Option, Text, false, inl, inr, leb, none, not, pos, refl, some, true, ℕ,
  ◌+◌, ◌||◌, ◌≡◌,
}
use bitcoin_core_rpc.Transport.Checks.{Endpoint, Parts, Unicode}
use bitcoin_core_rpc.Transport.Exchange.{client_error, max_error_body_size}
use bitcoin_core_rpc.Transport.Pool.{Key, find, find-forget}
use bitcoin_core_rpc.Transport.Read.{read_bounded}
use bitcoin_core_rpc.Transport.Session.{
  ClosesQuietly, Head, Network, Session, close, closing-quiet, drop_key, key_of, make, time_left,
}
use bitcoin_core_rpc.Transport.Session.Call.{
  call_in, checked_call, concluded, discard, locked, over_made, over_new, probed, read_body,
  received, refreshed, refreshed_in, send_and_receive, send_over, session_call,
}
use bitcoin_core_rpc.Transport.Session.Settled.{
  Exchanged, IsSettled, IsSettledAt, Made, close-drop-IsSettled, exchange-Exchanged, kept-InHand,
  make-Made, unused-Free,
}
use bitcoin_core_rpc.Value.{Scalar, int}

module _ {W : Type 0} (network : Network W) (quiet : ClosesQuietly network) where
  -- over a new connection, once there is one
  over_made-Exchanged :
      (key : Key) (deadline : ℕ) (r : Result ℕ × Session W)
      → Made key IsSettledAt r
      → Exchanged key (over_made network key deadline r)
  unfolding over_made
  over_made-Exchanged key deadline (raise e, s) h = h
  over_made-Exchanged key deadline (ok c, s) h =
      exchange-Exchanged network quiet key deadline false c s h

  over_new-Exchanged :
      (key : Key) (deadline : ℕ) (s : Session W)
      → IsSettled s
      → find key s.pool ≡ none
      → Exchanged key (over_new network key deadline s)
  over_new-Exchanged key deadline s h none_kept =
      over_made-Exchanged key deadline (make network key deadline s)
        (make-Made network IsSettledAt key deadline s (unused-Free network key s h none_kept) h)

  refreshed-Exchanged :
      (key : Key) (deadline c : ℕ) (r : Result (Unit {0}) × W) (s : Session W)
      → IsSettled s
      → find key s.pool ≡ some c
      → Exchanged key (refreshed network key deadline c r s)
  unfolding refreshed
  refreshed-Exchanged key deadline c (raise e, w) s h found = h
  refreshed-Exchanged key deadline c (ok _, w) s h found =
      exchange-Exchanged network quiet key deadline true c (record s { world = w })
        (kept-InHand network key c s h found)

  refreshed_in-Exchanged :
      (key : Key) (deadline c : ℕ) (left : Result ℕ) (s : Session W)
      → IsSettled s
      → find key s.pool ≡ some c
      → Exchanged key (refreshed_in network key deadline c left s)
  unfolding refreshed_in
  refreshed_in-Exchanged key deadline c (raise e) s h found = h
  refreshed_in-Exchanged key deadline c (ok left) s h found =
      refreshed-Exchanged key deadline c (network.set_timeout c left s.world) s h found

  probed-Exchanged :
      (key : Key) (deadline c : ℕ) (r : Result Bool × W) (s : Session W)
      → IsSettled s
      → find key s.pool ≡ some c
      → Exchanged key (probed network key deadline c r s)
  unfolding probed
  probed-Exchanged key deadline c (raise e, w) s h found = h
  probed-Exchanged key deadline c (ok true, w) s h found =
      let closed = record s { world = w } in
      closing-quiet network (Exchanged key) c closed (λ x u. (raise x, u))
        (λ u. over_new network key deadline (drop_key network key u)) quiet
        (over_new-Exchanged key deadline (drop_key network key (close network c closed))
          (close-drop-IsSettled network key true c closed
            (kept-InHand network key c closed h found))
          (unfold drop_key close in find-forget key s.pool))
  probed-Exchanged key deadline c (ok false, w) s h found =
      refreshed_in-Exchanged key deadline c (time_left network deadline (record s { world = w }))
        (record s { world = w }) h found

  pub send_over-Exchanged :
      (key : Key) (deadline : ℕ) (found : Option ℕ) (s : Session W)
      → IsSettled s
      → find key s.pool ≡ found
      → Exchanged key (send_over network key deadline found s)
  unfolding send_over
  send_over-Exchanged key deadline none s h found = over_new-Exchanged key deadline s h found
  send_over-Exchanged key deadline (some c) s h found =
      probed-Exchanged key deadline c (network.is_dead c s.world) s h found

  discard-IsSettled :
      {A : Type 0} (key : Key) (c : ℕ) (given : Result A) (s : Session W)
      → IsSettled s
      → find key s.pool ≡ some c
      → IsSettled (discard network key c given s).1
  unfolding discard close drop_key
  discard-IsSettled {A} key c given s h found =
      closing-quiet network (λ (r : Result A × Session W). IsSettled r.1) c (drop_key network key s)
        (λ x u. (raise x, u)) (λ u. (given, u)) quiet
        (close-drop-IsSettled network key true c s (kept-InHand network key c s h found))

  concluded-IsSettled :
      (key : Key) (c : ℕ) (head : Head) (to_the_end : Bool) (r : Result Bytes) (s : Session W)
      → IsSettled s
      → find key s.pool ≡ some c
      → IsSettled (concluded network key c head to_the_end r s).1
  unfolding concluded
  concluded-IsSettled key c head at_end (raise e) s h found =
      discard-IsSettled {A = ℕ × Bytes} key c (raise e) s h found
  concluded-IsSettled key c head at_end (ok body) s h found =
      elim (Bool-cases (head.will_close || not at_end)) [
        | inl t ↦ rw t (discard-IsSettled key c (ok (head.status, body)) s h found)
        | inr f ↦ rw f h
      ]

  received-IsSettled :
      (key : Key) (limit : Scalar) (deadline : ℕ) (r : Result (ℕ × Head) × Session W)
      → Exchanged key r
      → IsSettled (received network key limit deadline r).1
  unfolding received read_body
  received-IsSettled key limit deadline (raise e, s) h = h
  received-IsSettled key limit deadline (ok (c, head), s) (h, found) =
      elim (Bool-cases (leb client_error head.status)) [
        | inl t ↦ rw t (
            let r =
              read_bounded (network.response c) (int (pos max_error_body_size)) deadline true
                head.announced s.world in
            concluded-IsSettled key c head (network.is_closed c r.1) r.0 (record s { world = r.1 })
              h found)
        | inr f ↦ rw f (
            let r = read_bounded (network.response c) limit deadline false head.announced s.world in
            concluded-IsSettled key c head true r.0 (record s { world = r.1 }) h found)
      ]

  call_in-IsSettled :
      (limit : Scalar) (r : Result (ℕ × Endpoint)) (s : Session W)
      → IsSettled s
      → IsSettled (call_in network limit r s).1
  unfolding call_in locked
  call_in-IsSettled limit (raise e) s h = h
  call_in-IsSettled limit (ok (duration, endpoint)) s h =
      let deadline = network.clock s.world + duration in
      let key = key_of endpoint in
      received-IsSettled key limit deadline (send_and_receive network key deadline s)
        (send_over-Exchanged key deadline (find key s.pool) s h refl)

  -- Between two calls the connections that are open are those kept in the pool, each under one key,
  -- and a call keeps this so: whatever the network, its clock and the arguments are, whether the
  -- call returns or raises. The condition is that closing a connection raises nothing.
  pub session_call-IsSettled :
      (unicode : Unicode) (urlsplit : Text → Option Parts) (url : Text) (timeout limit : Scalar)
      (s : Session W)
      → IsSettled s
      → IsSettled (session_call network unicode urlsplit url timeout limit s).1
  unfolding session_call
  session_call-IsSettled unicode urlsplit url timeout limit s h =
      call_in-IsSettled limit (checked_call network unicode urlsplit url timeout limit) s h
