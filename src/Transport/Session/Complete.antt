-- ===== src/Transport/Session/Complete.antt =====
-- src/bitcoin_core_rpc/transport.py: which connections `SessionTransport` keeps for a later call.
use mathlib.Core.Path.{subst}
use bitcoin_core_rpc.Errors.{Result, ok, raise}
use bitcoin_core_rpc.Prelude.{
  Bool, Bool-cases, Bytes, Option, Text, ap, arith, false, inl, inr, leb, none, not, pos, refl,
  some, sym, true, ℕ, ◌+◌, ◌||◌, ◌≡◌, ◌⊎◌,
}
use bitcoin_core_rpc.Transport.Checks.{Endpoint, Parts, Unicode}
use bitcoin_core_rpc.Transport.Exchange.{client_error, max_error_body_size}
use bitcoin_core_rpc.Transport.Pool.{Key, find, find-forget}
use bitcoin_core_rpc.Transport.Read.{Delivers, read_bounded}
use bitcoin_core_rpc.Transport.Read.Bounded.{IsBounded, cut, read_bounded-IsBounded, whole}
use bitcoin_core_rpc.Transport.Session.{
  ClosesQuietly, Head, Network, Session, close, closing-cases, drop_key, key_of,
}
use bitcoin_core_rpc.Transport.Session.Call.{
  call_in, checked_call, concluded, discard, locked, read_body, received, send_and_receive,
  session_call,
}
use bitcoin_core_rpc.Transport.Session.Kept.{send_over-Exchanged}
use bitcoin_core_rpc.Transport.Session.Settled.{Exchanged, IsSettled}
use bitcoin_core_rpc.Value.{Scalar, int}

-- The call answered with the status of a response that came over this connection, and the response
-- leaves nothing behind for a later one to read: the node has not said that it closes, and under a
-- status below 400 the answer is all that was to come, or the response is closed.
abbrev pub IsComplete :
    {W : Type 0}
    → (network : Network W) (to_come : ℕ → W → Bytes) (key : Key) (deadline : ℕ) (s : Session W)
    → (c : ℕ) (given : ℕ × Bytes) (t : Session W) → Type 0
IsComplete {W} network to_come key deadline s c (status, body) t =
    (head : Head) × (received_by : Session W) × (send_and_receive network key deadline s
      ≡ (ok (c, head), received_by))
    × (status ≡ head.status)
    × (head.will_close ≡ false)
    × ((leb client_error status ≡ false) × (body ≡ to_come c received_by.world)
        ⊎ (network.is_closed c t.world ≡ true))

IsBounded-whole : {n : ℕ} {body b : Bytes} → IsBounded false n body b → b ≡ body
IsBounded-whole (whole le e) = e
IsBounded-whole (cut t lt e) = absurd (ground arith)

module _ {W : Type 0} (network : Network W) (quiet : ClosesQuietly network)
    (to_come : ℕ → W → Bytes) (delivers : (c : ℕ) → Delivers (network.response c) (to_come c)) where
  discard-gone :
      {A : Type 0} (key : Key) (c : ℕ) (given : Result A) (t : Session W)
      → find key (discard network key c given t).1.pool ≡ none
  unfolding discard close drop_key
  discard-gone {A} key c given t =
      let gone = find-forget key t.pool in
      closing-cases network (λ (r : Result A × Session W). find key r.1.pool ≡ none) c
        (drop_key network key t) (λ x u. (raise x, u)) (λ u. (given, u)) (λ x q. gone) gone

  concluded-kept :
      (key : Key) (b c : ℕ) (head : Head) (to_the_end : Bool) (r : Result Bytes) (t : Session W)
      {status : ℕ} {body : Bytes}
      → find key t.pool ≡ some b
      → (concluded network key b head to_the_end r t).0 ≡ ok (status, body)
      → find key (concluded network key b head to_the_end r t).1.pool ≡ some c
      → (b ≡ c)
        × (r ≡ ok body)
        × (status ≡ head.status)
        × (head.will_close ≡ false)
        × (to_the_end ≡ true)
        × ((concluded network key b head to_the_end r t).1 ≡ t)
  unfolding concluded
  concluded-kept key b c head at_end (raise e) t there h k =
      let gone = discard-gone {A = ℕ × Bytes} key b (raise e) t in absurd (ground (arith, k, gone))
  concluded-kept key b c head at_end (ok found) t there h k =
      elim (Bool-cases (head.will_close || not at_end)) [
        | inl g ↦
            let gone = discard-gone {A = ℕ × Bytes} key b (ok (head.status, found)) t in
            let k' = rw (concluded, g) at k in absurd (ground (arith, k', gone))
        | inr f ↦
            let h' = rw (concluded, f) at h in
            let k' = rw (concluded, f) at k in
            let same : found ≡ _ = ground (arith, h') in
            (
              ground (arith, k', there),
              ap ok same,
              ground (arith, h'),
              ground (arith, f),
              ground (arith, f),
              rw (concluded, f) refl,
            )
      ]

  received-kept :
      (key : Key) (c : ℕ) (limit : Scalar) (deadline : ℕ) (r : Result (ℕ × Head) × Session W)
      {status : ℕ} {body : Bytes}
      → Exchanged key r
      → (received network key limit deadline r).0 ≡ ok (status, body)
      → find key (received network key limit deadline r).1.pool ≡ some c
      → (head : Head) × (received_by : Session W) × (r ≡ (ok (c, head), received_by))
        × (status ≡ head.status)
        × (head.will_close ≡ false)
        × ((leb client_error status ≡ false) × (body ≡ to_come c received_by.world)
            ⊎ (network.is_closed c (received network key limit deadline r).1.world ≡ true))
  unfolding received read_body
  received-kept key c limit deadline (raise e, s) x h k = absurd (ground arith)
  received-kept key c limit deadline (ok (b, head), s) {body = body} (settled, there) h k =
      elim (Bool-cases (leb client_error head.status)) [
        | inr f ↦
            let r = read_bounded (network.response b) limit deadline false head.announced s.world in
            let (same, read_, coded, open_, end_, left) =
              concluded-kept key b c head true r.0 (record s { world = r.1 }) there
                (rw (received, read_body, f) at h) (rw (received, read_body, f) at k) in
            let (n, sized, within) =
              read_bounded-IsBounded (network.response b) (to_come b) (delivers b) limit deadline
                false head.announced s.world read_ in
            (
              head,
              s,
              ap (λ n. (ok (n, head), s)) same,
              coded,
              open_,
              inl (rw coded f, subst (λ d. body ≡ to_come d s.world) same (IsBounded-whole within)),
            )
        | inl t ↦
            let r =
              read_bounded (network.response b) (int (pos max_error_body_size)) deadline true
                head.announced s.world in
            let (same, read_, coded, open_, end_, left) =
              concluded-kept key b c head (network.is_closed b r.1) r.0 (record s { world = r.1 })
                there (rw (received, read_body, t) at h) (rw (received, read_body, t) at k) in
            let closed : network.is_closed c r.1 ≡ true = rw (sym same) end_ in
            (
              head,
              s,
              ap (λ n. (ok (n, head), s)) same,
              coded,
              open_,
              inr (rw t (subst (λ u. network.is_closed c u.world ≡ true) (sym left) closed)),
            )
      ]

  -- Where a call has returned and a connection is kept under its key, that is the connection which
  -- the response came over, whose status was returned; the node has not said that it closes; and
  -- either the status is below 400, and the body that was returned is all that was to come, or the
  -- response is closed. The conditions are that the pool and the open connections agree before the
  -- call, that closing a connection raises nothing, and what `read1` documents.
  pub session_call-IsComplete :
      (unicode : Unicode) (urlsplit : Text → Option Parts) (url : Text) (timeout limit : Scalar)
      (s : Session W) (c : ℕ) {duration : ℕ} {endpoint : Endpoint} {status : ℕ} {body : Bytes}
      → IsSettled s
      → checked_call network unicode urlsplit url timeout limit ≡ ok (duration, endpoint)
      → (session_call network unicode urlsplit url timeout limit s).0 ≡ ok (status, body)
      → find (key_of endpoint) (session_call network unicode urlsplit url timeout limit s).1.pool
        ≡ some c
      → IsComplete network to_come
          (key_of endpoint)
          (network.clock s.world + duration)
          s
          c
          (status, body)
          (session_call network unicode urlsplit url timeout limit s).1
  unfolding session_call call_in locked
  session_call-IsComplete unicode urlsplit url timeout limit s c {duration} {endpoint} settled q h
        k =
      let deadline = network.clock s.world + duration in
      let key = key_of endpoint in
      rw q (
        received-kept key c limit deadline (send_and_receive network key deadline s)
          (send_over-Exchanged network quiet key deadline (find key s.pool) s settled refl)
          (rw (session_call, call_in, q) at h) (rw (session_call, call_in, q) at k))
