-- ===== src/Transport/Session/Raised.antt =====
-- src/bitcoin_core_rpc/transport.py: what a call of `SessionTransport` raises.
use mathlib.Core.Path.{subst}
use bitcoin_core_rpc.Errors.{Exception, Result, class_of, is_instance, ok, raise}
use bitcoin_core_rpc.Errors.Classes.{type_error, value_error}
use bitcoin_core_rpc.Prelude.{
  Bool, Bool-cases, Option, false, inl, inr, leb, none, refl, some, true, ℕ, ◌&&◌, ◌||◌, ◌≡◌, ◌⊎◌,
}
use bitcoin_core_rpc.Transport.Exchange.Bounds.{IsIoError, IsPackageError, ReadsRaiseIo}
use bitcoin_core_rpc.Transport.Pool.{Key}
use bitcoin_core_rpc.Transport.Session.{
  Head, Local, Network, Session, after_write, answered_by, close, closing-cases, drop_key, exchange,
  is_stale, made, make, make_in, resent, settle, time_left, time_left_at, write, wrote,
}
use bitcoin_core_rpc.Transport.Session.Call.{
  over_made, over_new, probed, refreshed, refreshed_in, send_over,
}

-- a refusal of an argument, also the `UnicodeError` of the lookup of a host that cannot be encoded
abbrev pub IsArgumentError : Exception → Type 0
IsArgumentError e = (is_instance e value_error || is_instance e type_error) ≡ true

-- an error of the connection, one of the package's own, or a refusal of an argument
abbrev pub Fails : {A : Type 0} → Result A → Type 0
Fails (raise e) = IsIoError e ⊎ (IsPackageError e ⊎ IsArgumentError e)
Fails (ok a) = Unit {0}

abbrev pub FailsByIo : {A : Type 0} → Result A → Type 0
FailsByIo (raise e) = IsIoError e ⊎ IsArgumentError e
FailsByIo (ok a) = Unit {0}

-- The operations of a connection raise errors of the connection, and refuse arguments: a lookup
-- raises `UnicodeError`, and the probe asks a selector, which raises `ValueError`.
pub record RaisesIo {W : Type 0} (network : Network W) : Type 0 where
  pub factory_io : (key : Key) (left c : ℕ) (w : W) → FailsByIo (network.factory key left c w).0
  pub probe_io : (c : ℕ) (w : W) → FailsByIo (network.is_dead c w).0
  pub timeout_io : (c left : ℕ) (w : W) → FailsByIo (network.set_timeout c left w).0
  pub request_io : (c deadline : ℕ) (w : W) → FailsByIo (network.request c deadline w).0
  pub response_io : (c deadline : ℕ) (w : W) → FailsByIo (network.get_response c deadline w).0
  pub close_io : (c : ℕ) (w : W) → FailsByIo (network.hang_up c w).0
  pub read_io : (c : ℕ) → ReadsRaiseIo (network.response c)

by_io : {A : Type 0} (r : Result A) → FailsByIo r → Fails r
by_io (raise e) (inl h) = inl h
by_io (raise e) (inr h) = inr (inr h)
by_io (ok a) h = tt

-- `_time_left` raises `FetchError`
time_left_at-Fails : (deadline now : ℕ) → Fails (time_left_at deadline now)
unfolding time_left_at is_instance class_of
time_left_at-Fails deadline now = elim (Bool-cases (leb deadline now)) [
  | inl t ↦ rw t (inr (inl refl))
  | inr f ↦ rw f tt
]

module _ {W : Type 0} (network : Network W) (io : RaisesIo network) where
  -- what a close raised
  pub close-Fails :
      (c : ℕ) (w : W) (x : Exception)
      → (network.hang_up c w).0 ≡ raise x
      → IsIoError x ⊎ (IsPackageError x ⊎ IsArgumentError x)
  close-Fails c w x q =
      let r = io.close_io c w in by_io {A = Unit {0}} (raise x) (subst FailsByIo q r)

  made-Fails :
      (r : Result (Unit {0}) × W) (s : Session W) → FailsByIo r.0 → Fails (made network r s).0
  unfolding made
  made-Fails (raise e, w) s h = by_io {A = Unit {0}} (raise e) h
  made-Fails (ok _, w) s h = tt

  make_in-Fails :
      (key : Key) (left : Result ℕ) (s : Session W)
      → Fails left
      → Fails (make_in network key left s).0
  unfolding make_in
  make_in-Fails key (raise e) s h = h
  make_in-Fails key (ok left) s h =
      made-Fails (network.factory key left s.next s.world) s (io.factory_io key left s.next s.world)

  make-Fails : (key : Key) (deadline : ℕ) (s : Session W) → Fails (make network key deadline s).0
  unfolding make
  make-Fails key deadline s =
      make_in-Fails key (time_left network deadline s) s
        (time_left_at-Fails deadline (network.clock s.world))

  wrote-Fails :
      (r : Result (Unit {0}) × W) (s : Session W) → FailsByIo r.0 → Fails (wrote network r s).0
  unfolding wrote
  wrote-Fails (raise e, w) s h = by_io {A = Unit {0}} (raise e) h
  wrote-Fails (ok _, w) s h = tt

  write-Fails : (deadline c : ℕ) (s : Session W) → Fails (write network deadline c s).0
  unfolding write
  write-Fails deadline c s =
      wrote-Fails (network.request c deadline s.world) s (io.request_io c deadline s.world)

  answered_by-Fails :
      (deadline c : ℕ) (r : Result (Unit {0}) × Session W)
      → Fails r.0
      → Fails (answered_by network deadline c r).0
  unfolding answered_by
  answered_by-Fails deadline c (raise e, s) h = h
  answered_by-Fails deadline c (ok _, s) h =
      by_io (network.get_response c deadline s.world).0 (io.response_io c deadline s.world)

  resent-Fails :
      (deadline c : ℕ) (r : Result ℕ × Session W)
      → Fails r.0
      → Fails (resent network deadline c r).0
  unfolding resent
  resent-Fails deadline c (raise e, s) h = h
  resent-Fails deadline c (ok b, s) h =
      answered_by-Fails deadline b (write network deadline b s) (write-Fails deadline b s)

  after_write-Fails :
      (key : Key) (deadline : ℕ) (reused : Bool) (c : ℕ) (r : Result (Unit {0}) × Session W)
      → Fails r.0
      → Fails (after_write network key deadline reused c r).0
  unfolding after_write
  after_write-Fails key deadline reused c (ok _, s) h = answered_by-Fails deadline c (ok tt, s) h
  after_write-Fails key deadline reused c (raise e, s) h =
      elim (Bool-cases (is_stale e && reused)) [
        | inl t ↦
            let closed = close network c s in
            rw t (
              closing-cases network (λ (r : Local W Head). Fails r.0) c s (λ x u. (raise x, c, u))
                (λ u. resent network deadline c (make network key deadline u))
                (λ x q. close-Fails c s.world x q)
                (resent-Fails deadline c (make network key deadline closed)
                  (make-Fails key deadline closed)))
        | inr f ↦ rw f h
      ]

  settle-Fails : (key : Key) (r : Local W Head) → Fails r.0 → Fails (settle network key r).0
  unfolding settle
  settle-Fails key (raise e, c, s) h =
      closing-cases network (λ (r : Result (ℕ × Head) × Session W). Fails r.0) c s
        (λ x u. (raise x, u)) (λ u. (raise e, drop_key network key u))
        (λ x q. close-Fails c s.world x q) h
  settle-Fails key (ok head, c, s) h = tt

  exchange-Fails :
      (key : Key) (deadline : ℕ) (reused : Bool) (c : ℕ) (s : Session W)
      → Fails (exchange network key deadline reused c s).0
  unfolding exchange
  exchange-Fails key deadline reused c s =
      settle-Fails key (after_write network key deadline reused c (write network deadline c s)) (
        after_write-Fails key deadline reused c (write network deadline c s)
          (write-Fails deadline c s))

  over_made-Fails :
      (key : Key) (deadline : ℕ) (r : Result ℕ × Session W)
      → Fails r.0
      → Fails (over_made network key deadline r).0
  unfolding over_made
  over_made-Fails key deadline (raise e, s) h = h
  over_made-Fails key deadline (ok c, s) h = exchange-Fails key deadline false c s

  refreshed-Fails :
      (key : Key) (deadline c : ℕ) (r : Result (Unit {0}) × W) (s : Session W)
      → FailsByIo r.0
      → Fails (refreshed network key deadline c r s).0
  unfolding refreshed
  refreshed-Fails key deadline c (raise e, w) s h = by_io {A = Unit {0}} (raise e) h
  refreshed-Fails key deadline c (ok _, w) s h =
      exchange-Fails key deadline true c (record s { world = w })

  refreshed_in-Fails :
      (key : Key) (deadline c : ℕ) (left : Result ℕ) (s : Session W)
      → Fails left
      → Fails (refreshed_in network key deadline c left s).0
  unfolding refreshed_in
  refreshed_in-Fails key deadline c (raise e) s h = h
  refreshed_in-Fails key deadline c (ok left) s h =
      refreshed-Fails key deadline c (network.set_timeout c left s.world) s
        (io.timeout_io c left s.world)

  probed-Fails :
      (key : Key) (deadline c : ℕ) (r : Result Bool × W) (s : Session W)
      → FailsByIo r.0
      → Fails (probed network key deadline c r s).0
  unfolding probed
  probed-Fails key deadline c (raise e, w) s h = by_io {A = Bool} (raise e) h
  probed-Fails key deadline c (ok true, w) s h =
      let t = drop_key network key (close network c (record s { world = w })) in
      closing-cases network (λ (r : Result (ℕ × Head) × Session W). Fails r.0) c
        (record s { world = w }) (λ x u. (raise x, u))
        (λ u. over_new network key deadline (drop_key network key u)) (λ x q. close-Fails c w x q)
        (over_made-Fails key deadline (make network key deadline t) (make-Fails key deadline t))
  probed-Fails key deadline c (ok false, w) s h =
      let t = record s { world = w } in
      refreshed_in-Fails key deadline c (time_left network deadline t) t
        (time_left_at-Fails deadline (network.clock w))

  pub send_over-Fails :
      (key : Key) (deadline : ℕ) (found : Option ℕ) (s : Session W)
      → Fails (send_over network key deadline found s).0
  unfolding send_over
  send_over-Fails key deadline none s =
      over_made-Fails key deadline (make network key deadline s) (make-Fails key deadline s)
  send_over-Fails key deadline (some c) s =
      probed-Fails key deadline c (network.is_dead c s.world) s (io.probe_io c s.world)
