-- ===== src/Transport/Session/Once.antt =====
-- src/bitcoin_core_rpc/transport.py: how often a call of `SessionTransport` sends its request.
use mathlib.Core.Path.{subst}
use bitcoin_core_rpc.Errors.{Exception, Result, ok, raise}
use bitcoin_core_rpc.Prelude.{
  Bool, Bool-cases, arith, inl, inr, none, refl, suc, ℕ, ◌&&◌, ◌∙◌, ◌≡◌, ◌≤◌, ◌⊎◌,
}
use bitcoin_core_rpc.Transport.Pool.{Key, find, find-forget}
use bitcoin_core_rpc.Transport.Session.{
  Head, Local, Network, Session, after_write, answered_by, close, closing-cases, drop_key, exchange,
  is_stale, made, make, make_in, resent, settle, time_left, write, wrote,
}

-- what a statement that begins one more `request` leaves
abbrev Wrote : {W : Type 0} → (begun written : ℕ) → Result (Unit {0}) × Session W → Type 0
Wrote b w (raise e, s) = (s.begun ≡ suc b) × (s.written ≡ w)
Wrote b w (ok _, s) = (s.begun ≡ suc b) × (s.written ≡ suc w)

-- what an exchange has sent: all of the request where a response came, and not twice
abbrev Tried : {W A : Type 0} → (begun written : ℕ) → Local W A → Type 0
Tried b w (raise e, c, s) = (s.begun ≤ suc (suc b)) × (w ≤ s.written) × (s.written ≤ suc w)
Tried b w (ok a, c, s) = (s.begun ≤ suc (suc b)) × (s.written ≡ suc w)

-- a close raised this exception
abbrev pub CloseRaised : {W : Type 0} → Network W → Exception → Type 0
CloseRaised {W} network e = (c : ℕ) × (w : W) × ((network.hang_up c w).0 ≡ raise e)

-- Of a call, from the session it began with: it has begun its request twice at most, and written it
-- in full once at most, and once where it returned. Where it raised behind the begin of its
-- request, no connection is kept under its key, or what it raised is what a close raised.
abbrev pub Sent : {W A : Type 0} → Network W → Key → Session W → Result A × Session W → Type 0
Sent network key s (raise e, t) =
    (t.begun ≤ suc (suc s.begun))
    × (s.written ≤ t.written)
    × (t.written ≤ suc s.written)
    × ((t.begun ≡ s.begun) ⊎ ((find key t.pool ≡ none) ⊎ CloseRaised network e))
Sent network key s (ok a, t) = (t.begun ≤ suc (suc s.begun)) × (t.written ≡ suc s.written)

-- making a connection sends nothing
abbrev pub Quiet : {W : Type 0} → Session W → Result ℕ × Session W → Type 0
Quiet s (r, t) = (t.begun ≡ s.begun) × (t.written ≡ s.written)

module _ {W : Type 0} (network : Network W) where
  wrote-Wrote :
      (r : Result (Unit {0}) × W) (s : Session W) → Wrote s.begun s.written (wrote network r s)
  unfolding wrote
  wrote-Wrote (raise e, w) s = (refl, refl)
  wrote-Wrote (ok _, w) s = (refl, refl)

  write-Wrote :
      (deadline c : ℕ) (s : Session W) → Wrote s.begun s.written (write network deadline c s)
  unfolding write
  write-Wrote deadline c s = wrote-Wrote (network.request c deadline s.world) s

  ok-Tried :
      {A : Type 0} (b w : ℕ) (r : Result A) (c : ℕ) (s : Session W)
      → s.begun ≤ suc (suc b)
      → s.written ≡ suc w
      → Tried {A = A} b w (r, c, s)
  ok-Tried b w (raise e) c s h k = ground arith
  ok-Tried b w (ok a) c s h k = (h, k)

  answered_by-Tried :
      (b w b1 deadline c : ℕ) (r : Result (Unit {0}) × Session W)
      → b1 ≤ suc b
      → Wrote b1 w r
      → Tried b w (answered_by network deadline c r)
  unfolding answered_by
  answered_by-Tried b w b1 deadline c (raise e, s) l h = ground arith
  answered_by-Tried b w b1 deadline c (ok _, s) l (h, k) =
      let r = network.get_response c deadline s.world in
      ok-Tried b w r.0 c (record s { world = r.1 }) (omega (arith, h, l)) k

  made-Quiet : (r : Result (Unit {0}) × W) (s : Session W) → Quiet s (made network r s)
  unfolding made
  made-Quiet (raise e, w) s = (refl, refl)
  made-Quiet (ok _, w) s = (refl, refl)

  make_in-Quiet :
      (key : Key) (left : Result ℕ) (s : Session W) → Quiet s (make_in network key left s)
  unfolding make_in
  make_in-Quiet key (raise e) s = (refl, refl)
  make_in-Quiet key (ok left) s = made-Quiet (network.factory key left s.next s.world) s

  pub make-Quiet :
      (key : Key) (deadline : ℕ) (s : Session W) → Quiet s (make network key deadline s)
  unfolding make
  make-Quiet key deadline s = make_in-Quiet key (time_left network deadline s) s

  resent-Tried :
      (b w deadline c : ℕ) (r : Result ℕ × Session W)
      → r.1.begun ≡ suc b
      → r.1.written ≡ w
      → Tried b w (resent network deadline c r)
  unfolding resent
  resent-Tried b w deadline c (raise e, s) h k = ground arith
  resent-Tried b w deadline c (ok a, s) h k =
      answered_by-Tried b w s.begun deadline a (write network deadline a s) (omega (arith, h))
        (subst (λ x. Wrote s.begun x (write network deadline a s)) k (write-Wrote deadline a s))

  after_write-Tried :
      (b w deadline c : ℕ) (key : Key) (reused : Bool) (r : Result (Unit {0}) × Session W)
      → Wrote b w r
      → Tried b w (after_write network key deadline reused c r)
  unfolding after_write close
  after_write-Tried b w deadline c key reused (ok _, s) h =
      answered_by-Tried b w b deadline c (ok tt, s) (omega arith) h
  after_write-Tried b w deadline c key reused (raise e, s) (h, k) =
      let closed = close network c s in
      let (i, ii) = make-Quiet key deadline closed in
      elim (Bool-cases (is_stale e && reused)) [
        | inl t ↦ rw t (
            closing-cases network (Tried b w) c s (λ x u. (raise x, c, u))
              (λ u. resent network deadline c (make network key deadline u))
              (λ x q. (omega (arith, h), omega (arith, k), omega (arith, k)))
              (resent-Tried b w deadline c (make network key deadline closed)
                (unfold close in i ∙ h) (unfold close in ii ∙ k)))
        | inr f ↦ rw f (omega (arith, h), omega (arith, k), omega (arith, k))
      ]

  settle-Sent :
      (key : Key) (s : Session W) (r : Local W Head)
      → Tried s.begun s.written r
      → Sent network key s (settle network key r)
  unfolding settle close drop_key
  settle-Sent key s (raise e, c, t) (h, i, ii) =
      closing-cases network (Sent {A = ℕ × Head} network key s) c t (λ x u. (raise x, u))
        (λ u. (raise e, drop_key network key u)) (λ x q. (h, i, ii, inr (inr (c, t.world, q))))
        (h, i, ii, inr (inl (find-forget key t.pool)))
  settle-Sent key s (ok head, c, t) h = h

  pub exchange-Sent :
      (key : Key) (deadline : ℕ) (reused : Bool) (c : ℕ) (s t : Session W)
      → s.begun ≡ t.begun
      → s.written ≡ t.written
      → Sent network key s (exchange network key deadline reused c t)
  unfolding exchange
  exchange-Sent key deadline reused c s t h k =
      settle-Sent key s (after_write network key deadline reused c (write network deadline c t)) (
        rw (h, k)
          (after_write-Tried t.begun t.written deadline c key reused (write network deadline c t)
            (write-Wrote deadline c t)))
