-- ===== src/Transport/Session/History.antt =====
-- src/bitcoin_core_rpc/transport.py: histories of a `SessionTransport`, calls and `close` in any
-- order.
use mathlib.Core.Path.{subst}
use bitcoin_core_rpc.Errors.{Result, ok, raise}
use bitcoin_core_rpc.Prelude.{
  List, Option, Text, [], ap, arith, false, not, refl, sym, ℕ, ◌&&◌, ◌==◌, ◌||◌, ◌∙◌, ◌∷◌, ◌≡◌,
}
use bitcoin_core_rpc.Transport.Checks.{Parts, Unicode}
use bitcoin_core_rpc.Transport.Pool.{IsApart, Pool, is_kept}
use bitcoin_core_rpc.Transport.Session.{
  ClosesQuietly, Network, Session, close, closing-quiet, new_session,
}
use bitcoin_core_rpc.Transport.Session.Call.{cleared, close_all, close_session, session_call}
use bitcoin_core_rpc.Transport.Session.Kept.{session_call-IsSettled}
use bitcoin_core_rpc.Transport.Session.Settled.{IsSettled}
use bitcoin_core_rpc.Value.{Scalar}

-- one use of the transport
pub data Use : Type 0 where
  ask : (url : Text) → (timeout max_body_size : Scalar) → Use
  hang_up_all : Use

module _ {W : Type 0} (network : Network W) (unicode : Unicode)
    (urlsplit : Text → Option Parts) where
  unfoldable pub use_once : Use → Session W → Session W
  unfolding session_call close_session
  use_once (ask url timeout limit) s = (session_call network unicode urlsplit url timeout limit s).1
  use_once hang_up_all s = (close_session network s).1

  unfoldable pub use_all : List Use → Session W → Session W
  unfolding use_once
  use_all [] s = s
  use_all (u ∷ us) s = use_all us (use_once u s)

  module _ (quiet : ClosesQuietly network) where
    -- the loop goes over the whole pool
    close_all-quiet :
        (p : Pool) (s : Session W)
        → ((close_all network p s).0 ≡ ok tt)
          × ((d : ℕ) → (close_all network p s).1.opened d ≡ (s.opened d && not (is_kept p d)))
    unfolding close_all is_kept
    close_all-quiet [] s = (refl, λ d. ground arith)
    close_all-quiet ((k, c) ∷ rest) s =
        closing-quiet network
          (λ (r : Result (Unit {0}) × Session W).
            (r.0 ≡ ok tt)
            × ((d : ℕ) → r.1.opened d ≡ (s.opened d && not (c == d || is_kept rest d))))
          c s (λ x t. (raise x, t)) (λ t. close_all network rest t) quiet
          (let (passed, left) = close_all-quiet rest (close network c s) in
            (passed, λ d. unfold close in ground (arith, left d)))

    cleared-ok :
        (r : Result (Unit {0}) × Session W)
        → r.0 ≡ ok tt
        → ((cleared network r).0 ≡ ok tt)
          × ((cleared network r).1.opened ≡ r.1.opened)
          × ((cleared network r).1.pool ≡ [])
    unfolding cleared
    cleared-ok (raise x, s) h = absurd (ground arith)
    cleared-ok (ok _, s) h = (refl, refl, refl)

    close_session-quiet :
        (s : Session W)
        → IsSettled s
        → ((close_session network s).0 ≡ ok tt)
          × ((d : ℕ) → (close_session network s).1.opened d ≡ false)
          × ((close_session network s).1.pool ≡ [])
    unfolding close_session
    close_session-quiet s (h1, h2, h3) =
        let (passed, left) = close_all-quiet s.pool s in
        let (i, same, gone) = cleared-ok (close_all network s.pool s) passed in
        (i, λ d. ap (λ o. o d) same ∙ ground (arith, left d, h1 d), gone)

    use_once-IsSettled : (u : Use) (s : Session W) → IsSettled s → IsSettled (use_once u s)
    unfolding use_once is_kept
    use_once-IsSettled (ask url timeout limit) s h =
        session_call-IsSettled network quiet unicode urlsplit url timeout limit s h
    use_once-IsSettled hang_up_all s h =
        let (i, shut, gone) = close_session-quiet s h in
        let none_kept : (d : ℕ) → is_kept (close_session network s).1.pool d ≡ false =
          λ d. ap (λ p. is_kept p d) gone in
        (λ d. shut d ∙ sym (none_kept d), λ d l. none_kept d, subst IsApart (sym gone) tt)

    use_all-IsSettled : (us : List Use) (s : Session W) → IsSettled s → IsSettled (use_all us s)
    unfolding use_all
    use_all-IsSettled [] s h = h
    use_all-IsSettled (u ∷ us) s h = use_all-IsSettled us (use_once u s) (use_once-IsSettled u s h)

    -- After any history of calls and closes of a new transport, `close` returns, and leaves no
    -- connection open and none in the pool, also those that failed calls had used. The condition is
    -- that closing a connection raises nothing; whatever else the network does may raise.
    pub use_all-close :
        (us : List Use) (w : W) (d : ℕ)
        → ((close_session network (use_all us (new_session w))).0 ≡ ok tt)
          × ((close_session network (use_all us (new_session w))).1.opened d ≡ false)
          × ((close_session network (use_all us (new_session w))).1.pool ≡ [])
    unfolding is_kept
    use_all-close us w d =
        let (i, shut, gone) =
          close_session-quiet (use_all us (new_session w))
            (use_all-IsSettled us (new_session w) (λ d. refl, λ d l. refl, tt)) in
        (i, shut d, gone)
