-- ===== src/Transport/Session/Settled.antt =====
-- src/bitcoin_core_rpc/transport.py: what `SessionTransport` holds open between its calls is what it
-- keeps, where closing a connection raises nothing.

use bitcoin_core_rpc.Errors.{Result, ok, raise}
use bitcoin_core_rpc.Prelude.{
  Bool, Bool-cases, arith, false, inl, inr, none, some, true, ℕ, ◌&&◌, ◌<◌, ◌==◌, ◌||◌, ◌≡◌, ◌≤◌,
}
use bitcoin_core_rpc.Transport.Pool.{
  IsApart, Key, Pool, find, find-forget, forget, forget-IsApart, forget-absent, is_kept,
  is_kept-popped, key_eq_refl,
}
use bitcoin_core_rpc.Transport.Session.{
  ClosesQuietly, Head, Local, Network, Session, after_write, answered_by, close, closing-cases,
  closing-quiet, drop_key, exchange, is_stale, made, make, make_in, resent, settle, time_left,
  write, wrote,
}

-- The connections that are open are those of the pool, each under one key, and all were given out.
abbrev pub IsSettledAt : Pool → (ℕ → Bool) → ℕ → Type 0
IsSettledAt p opened next =
    ((d : ℕ) → opened d ≡ is_kept p d) × ((d : ℕ) → next ≤ d → is_kept p d ≡ false) × IsApart p

abbrev pub IsSettled : {W : Type 0} → Session W → Type 0
IsSettled s = IsSettledAt s.pool s.opened s.next

-- Without its key's entry the pool holds all that is open, but perhaps one connection, in use.
pub record InUse (key : Key) (live : Bool) (c : ℕ) (p : Pool) (opened : ℕ → Bool) (next : ℕ)
    : Type 0 where
  held : (d : ℕ) → opened d ≡ (live && (c == d) || is_kept (forget key p) d)
  apart : is_kept (forget key p) c ≡ false
  given : c < next
  fresh : (d : ℕ) → next ≤ d → is_kept (forget key p) d ≡ false
  keys : IsApart (forget key p)

abbrev InHand : {W : Type 0} → Key → Bool → ℕ → Session W → Type 0
InHand key live c s = InUse key live c s.pool s.opened s.next

-- ... and no connection is in use
abbrev pub Free : {W : Type 0} → Key → Session W → Type 0
Free key s =
    ((d : ℕ) → s.opened d ≡ is_kept (forget key s.pool) d)
    × ((d : ℕ) → s.next ≤ d → is_kept (forget key s.pool) d ≡ false)
    × IsApart (forget key s.pool)

-- what holds of the connection in use while an exchange runs, and once it is over
abbrev Running : {W A : Type 0} → Key → Local W A → Type 0
Running key (raise e, c, s) = (live : Bool) × InHand key live c s
Running key (ok a, c, s) = InHand key true c s

abbrev pub Exchanged : {W : Type 0} → Key → Result (ℕ × Head) × Session W → Type 0
Exchanged key (raise e, s) = IsSettled s
Exchanged key (ok (c, head), s) = IsSettled s × (find key s.pool ≡ some c)

-- a new connection, or what held before
abbrev pub Made :
    {W : Type 0} → Key → (Pool → (ℕ → Bool) → ℕ → Type 0) → Result ℕ × Session W → Type 0
Made key P (raise e, s) = P s.pool s.opened s.next
Made key P (ok c, s) = InHand key true c s

module _ {W : Type 0} (network : Network W) where
  pub unused-Free : (key : Key) (s : Session W) → IsSettled s → find key s.pool ≡ none → Free key s
  unused-Free key s (h1, h2, h3) e =
      let same = forget-absent key s.pool e in
      (λ d. rw same (h1 d), λ d l. rw same (h2 d l), rw same h3)

  pub kept-InHand :
      (key : Key) (c : ℕ) (s : Session W)
      → IsSettled s
      → find key s.pool ≡ some c
      → InHand key true c s
  kept-InHand key c s (h1, h2, h3) e =
      let (gone, popped) = is_kept-popped key s.pool c h3 e in
      record {
        held = λ d. ground (arith, h1 d, popped d);
        apart = gone;
        given = ground (arith, h2 c, popped c);
        fresh = λ d l. ground (arith, h2 d l, popped d);
        keys = forget-IsApart key s.pool h3;
      }

  close-InHand :
      (key : Key) (live : Bool) (c : ℕ) (s : Session W)
      → InHand key live c s
      → InHand key false c (close network c s)
  unfolding close
  close-InHand key live c s h = record {
    held = λ d. ground (arith, h.held d, h.apart);
    apart = h.apart;
    given = h.given;
    fresh = h.fresh;
    keys = h.keys;
  }

  InHand-Free : (key : Key) (c : ℕ) (s : Session W) → InHand key false c s → Free key s
  InHand-Free key c s h = (h.held, h.fresh, h.keys)

  pub close-drop-IsSettled :
      (key : Key) (live : Bool) (c : ℕ) (s : Session W)
      → InHand key live c s
      → IsSettled (drop_key network key (close network c s))
  unfolding drop_key
  close-drop-IsSettled key live c s h =
      InHand-Free key c (close network c s) (close-InHand key live c s h)

  module _ (P : Pool → (ℕ → Bool) → ℕ → Type 0) (key : Key) where
    made-Made :
        (r : Result (Unit {0}) × W) (s : Session W)
        → Free key s
        → P s.pool s.opened s.next
        → Made key P (made network r s)
    unfolding made
    made-Made (raise e, w) s h p = p
    made-Made (ok _, w) s (h1, h2, h3) p = record {
      held = λ d. ground (arith, h1 d);
      apart = h2 s.next (omega arith);
      given = omega arith;
      fresh = λ d l. h2 d (omega arith);
      keys = h3;
    }

    make_in-Made :
        (left : Result ℕ) (s : Session W)
        → Free key s
        → P s.pool s.opened s.next
        → Made key P (make_in network key left s)
    unfolding make_in
    make_in-Made (raise e) s h p = p
    make_in-Made (ok left) s h p = made-Made (network.factory key left s.next s.world) s h p

    pub make-Made :
        (deadline : ℕ) (s : Session W)
        → Free key s
        → P s.pool s.opened s.next
        → Made key P (make network key deadline s)
    unfolding make
    make-Made deadline s h p = make_in-Made (time_left network deadline s) s h p

  -- in use and open, whatever the call returned
  InHand-Running :
      (key : Key) {A : Type 0} (r : Result A) (c : ℕ) (s : Session W)
      → InHand key true c s
      → Running {A = A} key (r, c, s)
  InHand-Running key (raise e) c s h = (true, h)
  InHand-Running key (ok a) c s h = h

  answered_by-Running :
      (key : Key) (deadline c : ℕ) (r : Result (Unit {0}) × Session W)
      → InHand key true c r.1
      → Running key (answered_by network deadline c r)
  unfolding answered_by
  answered_by-Running key deadline c (raise e, s) h = (true, h)
  answered_by-Running key deadline c (ok _, s) h =
      let r = network.get_response c deadline s.world in
      InHand-Running key r.0 c (record s { world = r.1 }) h

  wrote-InHand :
      (key : Key) (c : ℕ) (r : Result (Unit {0}) × W) (s : Session W)
      → InHand key true c s
      → InHand key true c (wrote network r s).1
  unfolding wrote
  wrote-InHand key c (raise e, w) s h = h
  wrote-InHand key c (ok _, w) s h = h

  write-InHand :
      (key : Key) (deadline c : ℕ) (s : Session W)
      → InHand key true c s
      → InHand key true c (write network deadline c s).1
  unfolding write
  write-InHand key deadline c s h = wrote-InHand key c (network.request c deadline s.world) s h

  resent-Running :
      (key : Key) (deadline c : ℕ) (r : Result ℕ × Session W)
      → Made key (InUse key false c) r
      → Running key (resent network deadline c r)
  unfolding resent
  resent-Running key deadline c (raise e, s) h = (false, h)
  resent-Running key deadline c (ok b, s) h =
      answered_by-Running key deadline b (write network deadline b s)
        (write-InHand key deadline b s h)

  after_write-Running :
      (key : Key) (deadline : ℕ) (reused : Bool) (c : ℕ) (r : Result (Unit {0}) × Session W)
      → InHand key true c r.1
      → Running key (after_write network key deadline reused c r)
  unfolding after_write
  after_write-Running key deadline reused c (ok _, s) h =
      answered_by-Running key deadline c (ok tt, s) h
  after_write-Running key deadline reused c (raise e, s) h =
      let closed = close-InHand key true c s h in
      let again = λ (t : Session W). resent network deadline c (make network key deadline t) in
      elim (Bool-cases (is_stale e && reused)) [
        | inl t ↦ rw t (
            closing-cases network (Running key) c s (λ x u. (raise x, c, u)) again
              (λ x q. (true, h))
              (resent-Running key deadline c (make network key deadline (close network c s)) (
                make-Made (InUse key false c) key deadline (close network c s)
                  (InHand-Free key c (close network c s) closed) closed)))
        | inr f ↦ rw f (true, h)
      ]

  settle-Exchanged :
      ClosesQuietly network
      → (key : Key) (r : Local W Head) → Running key r
      → Exchanged key (settle network key r)
  unfolding settle find is_kept
  settle-Exchanged quiet key (raise e, c, s) (live, h) =
      closing-quiet network (Exchanged key) c s (λ x u. (raise x, u))
        (λ u. (raise e, drop_key network key u)) quiet (close-drop-IsSettled key live c s h)
  settle-Exchanged quiet key (ok head, c, s) h = (
    (
      λ d. ground (arith, h.held d),
      λ d l. ground (arith, h.fresh d l, h.given),
      (find-forget key s.pool, h.apart, h.keys),
    ),
    ground (arith, key_eq_refl key),
  )

  pub exchange-Exchanged :
      ClosesQuietly network
      → (key : Key) (deadline : ℕ) (reused : Bool) (c : ℕ) (s : Session W) → InHand key true c s
      → Exchanged key (exchange network key deadline reused c s)
  unfolding exchange
  exchange-Exchanged quiet key deadline reused c s h =
      settle-Exchanged quiet key
        (after_write network key deadline reused c (write network deadline c s))
        (after_write-Running key deadline reused c (write network deadline c s)
          (write-InHand key deadline c s h))
